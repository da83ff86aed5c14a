-- ===== src/Malloc/Speed/Returns.antt =====
-- What follows from a run of an evaluation of malloclab/mdriver.c that returns.
use cso18_labs.Base.{ℕ, ◌≡◌, refl, ap, sym, ◌∙◌, Bool, true, false, if◌then◌else◌}
use cso18_labs.Malloc.Machine.{Run, ok, fault, exited, ◌>>=◌}
use cso18_labs.Malloc.Memlib.{is_negative, mem_reset_brk}
use cso18_labs.Malloc.Driver.{Package, Driver, write_cell, remember}
use cso18_labs.Malloc.Speed.{start}

-- A run that returns has returned at each step.
pub >>=-ok {ℓ κ} :
    {A : Type ℓ} {B : Type κ} (m : Run A) (k : A → Run B) {b : B}
    → (m >>= k) ≡ ok b
    → (a : A) × (m ≡ ok a) × (k a ≡ ok b)
>>=-ok (ok a) k h = (a, refl, h)
>>=-ok (fault e) k h = absurd cc

pub ok_inj {ℓ} : {A : Type ℓ} {a b : A} → ok a ≡ ok b → a ≡ b
ok_inj h = cc

pub remember_ok :
    (index p size : ℕ) (d e : Driver)
    → remember index p size d ≡ ok e
    → (write_cell d.blocks index p ≡ ok e.blocks)
      × (write_cell d.block_sizes index size ≡ ok e.block_sizes)
      × (e.mem ≡ d.mem)
unfolding remember
remember_ok index p size d e h =
    let (blocks, b, rest) = >>=-ok (write_cell d.blocks index p) _ h in
    let (sizes, s, end) = >>=-ok (write_cell d.block_sizes index size) _ rest in
    let f : record d { blocks = blocks; block_sizes = sizes } ≡ e = ok_inj end in
    (
      b ∙ ap (λ (t : Driver). ok t.blocks) f,
      s ∙ ap (λ (t : Driver). ok t.block_sizes) f,
      ap (λ (t : Driver). t.mem) (sym f),
    )

unless_fault {ℓ} :
    {A : Type ℓ} (b : Bool) {x y : A} → (if b then fault exited else ok x) ≡ ok y → x ≡ y
unless_fault true h = absurd cc
unless_fault false h = ok_inj h

pub start_ok :
    (mm : Package) (d e : Driver)
    → start mm d ≡ ok e
    → (e.block_sizes ≡ d.block_sizes) × (e.blocks ≡ d.blocks)
unfolding start
start_ok mm d e h =
    let ((status, m), _, h1) = >>=-ok (mm.init (mem_reset_brk d.mem)) _ h in
    let f = unless_fault (is_negative status) h1 in
    (ap (λ (t : Driver). t.block_sizes) (sym f), ap (λ (t : Driver). t.blocks) (sym f))
