-- ===== src/Rabin.antt =====
-- The programs of rklab.
pub mod Modular
pub mod Bloom
pub mod Files
pub mod Sentence
pub mod Document
pub mod Program
mod Tests
