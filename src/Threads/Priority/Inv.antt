-- ===== src/Threads/Priority/Inv.antt =====
-- What holds in every state of `test_rwl_priority` that can be reached.
use cso18_labs.Base.{ℕ, ◌+◌, ◌≤◌, ◌≡◌, ◌≢◌, ◌⊎◌, ap, arith}
use cso18_labs.Threads.Priority.{
  Peer, Master, create_linger, poll_reader, create_writer, poll_writer, create_readers, read_who,
  judge_first, poll_all, ask_linger, poll_who, judge_who, ask_peers, joining, finished, failed,
  Readers, System, start, rank, is_waiting, has_lock, OpenToReaders, OpenToWriters, Moves, locks,
  waits, wakes, enters, gets_out, unlocks, set_inside, ReaderMoves, reader_locks, reader_waits,
  reader_wakes, reader_enters, reader_gets_out, reader_unlocks, set_two, created,
}

abbrev pub stage : Master → ℕ
stage create_linger = 0
stage poll_reader = 1
stage create_writer = 2
stage poll_writer = 3
stage create_readers = 4
stage read_who = 5
stage judge_first = 6
stage poll_all = 7
stage ask_linger = 8
stage poll_who = 9
stage judge_who = 10
stage ask_peers = 11
stage joining = 12
stage finished = 13
stage failed = 14

-- The point of the master thread says what the flags are, and how far the other threads can be.
pub record Inv (s : System) : Type 0 where
  pub runs : stage s.master ≤ 13
  pub getout :
      ((9 ≤ stage s.master) × (s.reader_getout ≡ 1))
      ⊎ ((stage s.master ≤ 8) × (s.reader_getout ≡ 0))
  pub peers :
      ((12 ≤ stage s.master) × (s.peers_getout ≡ 1))
      ⊎ ((stage s.master ≤ 11) × (s.peers_getout ≡ 0))
  pub reader_flag :
      ((4 ≤ rank s.linger) × (s.reader_in_cs ≡ 1)) ⊎ ((rank s.linger ≤ 3) × (s.reader_in_cs ≡ 0))
  pub linger_low : (9 ≤ stage s.master) ⊎ (rank s.linger ≤ 4)
  pub linger_high : (stage s.master ≤ 1) ⊎ (4 ≤ rank s.linger)
  pub linger_created :
      ((stage s.master ≡ 0) × (rank s.linger ≡ 0)) ⊎ ((1 ≤ stage s.master) × (1 ≤ rank s.linger))
  pub writer_created :
      ((stage s.master ≤ 2) × (rank s.writer ≡ 0)) ⊎ ((3 ≤ stage s.master) × (1 ≤ rank s.writer))
  pub writer_waits : (stage s.master ≤ 3) ⊎ (2 ≤ rank s.writer)
  pub writer_low : (9 ≤ stage s.master) ⊎ (rank s.writer ≤ 2)
  pub writer_stays : (12 ≤ stage s.master) ⊎ (rank s.writer ≤ 4)
  pub no_readers : (4 ≤ stage s.master) ⊎ (created s.readers ≡ 0)
  pub some_readers : created s.readers ≤ 8
  pub all_readers : (stage s.master ≤ 4) ⊎ (created s.readers ≡ 8)
  pub readers_wait :
      (12 ≤ stage s.master)
      ⊎ (s.readers.hold + s.readers.in_cs + s.readers.leave + s.readers.done ≡ 0)
  pub who_in :
      (12 ≤ stage s.master)
      ⊎ (((rank s.writer ≡ 4) × (s.who_is_in_cs ≡ 1))
          ⊎ ((rank s.writer ≤ 3) × (s.who_is_in_cs ≡ 0)))
  pub first_look : (stage s.master ≢ 6) ⊎ (s.who ≡ 0)
  pub second_look : (stage s.master ≢ 10) ⊎ (s.who ≡ 1)

pub start-Inv : Inv start
start-Inv = ground arith

-- Which points have the lock or wait for it.
pub Peer-cases :
    (p : Peer)
    → ((rank p ≤ 1) × (has_lock p ≡ 0) × (is_waiting p ≡ 0))
      ⊎ (((rank p ≡ 2) × (has_lock p ≡ 0) × (is_waiting p ≡ 1))
          ⊎ (((3 ≤ rank p) × (rank p ≤ 5) × (has_lock p ≡ 1) × (is_waiting p ≡ 0))
              ⊎ ((rank p ≡ 6) × (has_lock p ≡ 0) × (is_waiting p ≡ 0))))
Peer-cases p = ground arith

pub linger-Inv :
    (s : System) {p q : Peer}
    → p ≡ s.linger
    → Inv s
    → Moves (OpenToReaders s) (s.reader_getout ≢ 0) p q
    → Inv (record s { linger = q; reader_in_cs = set_inside q 1 s.reader_in_cs })
linger-Inv s e i (locks free) = let r = ap rank e in ground (arith, i)
linger-Inv s e i (waits shut) =
    let r = ap rank e in
    absurd (shut (omega (arith, i.linger_high, i.writer_created, Peer-cases s.writer)))
linger-Inv s e i (wakes free) = let r = ap rank e in ground (arith, i)
linger-Inv s e i enters = let r = ap rank e in ground (arith, i)
linger-Inv s e i (gets_out told) = let r = ap rank e in ground (arith, i)
linger-Inv s e i unlocks = let r = ap rank e in ground (arith, i)

pub writer-Inv :
    (s : System) {p q : Peer}
    → p ≡ s.writer
    → Inv s
    → Moves (OpenToWriters s) (s.peers_getout ≢ 0) p q
    → Inv (record s { writer = q; who_is_in_cs = set_inside q 1 s.who_is_in_cs })
writer-Inv s e i (locks free) =
    let r = ap rank e in
    absurd (
      omega
        (arith, i.linger_high, i.linger_low, i.writer_created, i.writer_waits, Peer-cases s.linger))
writer-Inv s e i (waits shut) = let r = ap rank e in ground (arith, i)
writer-Inv s e i (wakes free) =
    let r = ap rank e in let l = Peer-cases s.linger in ground (arith, i)
writer-Inv s e i enters = let r = ap rank e in ground (arith, i)
writer-Inv s e i (gets_out told) = let r = ap rank e in ground (arith, i)
writer-Inv s e i unlocks = let r = ap rank e in ground (arith, i)

pub reader-Inv :
    (s : System) {r : Readers} {flag : ℕ}
    → Inv s
    → ReaderMoves (OpenToReaders s) (s.peers_getout ≢ 0) s.readers r flag
    → Inv (record s { readers = r; who_is_in_cs = set_two flag s.who_is_in_cs })
reader-Inv s i (reader_locks free some_) = let l = Peer-cases s.writer in ground (arith, i)
reader-Inv s i (reader_waits shut some_) = ground (arith, i)
reader-Inv s i (reader_wakes free some_) = let l = Peer-cases s.writer in ground (arith, i)
reader-Inv s i (reader_enters some_) = ground (arith, i)
reader-Inv s i (reader_gets_out told some_) = ground (arith, i)
reader-Inv s i (reader_unlocks some_) = ground (arith, i)
