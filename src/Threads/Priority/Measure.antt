-- ===== src/Threads/Priority/Measure.antt =====
-- How many steps a schedule of `test_rwl_priority` can have.
use cso18_labs.Base.{ℕ, suc, ◌+◌, ◌-◌, ◌*◌, ◌≤◌, ◌<◌, ◌≡◌, ap, arith}
use cso18_labs.Threads.Priority.{
  Peer, Readers, System, rank, Moves, locks, waits, wakes, enters, gets_out, unlocks, ReaderMoves,
  reader_locks, reader_waits, reader_wakes, reader_enters, reader_gets_out, reader_unlocks, created,
  MasterMoves, spawn_linger, see_reader, spawn_writer, see_writer, spawn_reader, spawned_all,
  reads_who, nobody_in, somebody_in, see_all, tell_linger, see_who, writer_first, reader_first,
  tell_peers, join_all,
}
use cso18_labs.Threads.Priority.{
  Step, linger_reader, competing_writer, competing_reader, test_rwl_priority, Reach, begin, next,
}
use cso18_labs.Threads.Priority.Inv.{stage, Inv}
use cso18_labs.Threads.Priority.Safe.{Reach-Inv}

-- How far the threads are from their ends.
abbrev pub left : System → ℕ
left s =
    (14 - stage s.master)
    + (6 - rank s.linger)
    + (6 - rank s.writer)
    + 6 * (8 - created s.readers)
    + 5 * s.readers.ask
    + 4 * s.readers.wait
    + 3 * s.readers.hold
    + 2 * s.readers.in_cs
    + s.readers.leave

-- A thread that goes on is nearer to its end.
Moves-rank : {A B : Type 0} {p q : Peer} → Moves A B p q → (rank p < rank q) × (rank q ≤ 6)
Moves-rank (locks free) = (omega arith, omega arith)
Moves-rank (waits shut) = (omega arith, omega arith)
Moves-rank (wakes free) = (omega arith, omega arith)
Moves-rank enters = (omega arith, omega arith)
Moves-rank (gets_out told) = (omega arith, omega arith)
Moves-rank unlocks = (omega arith, omega arith)

ReaderMoves-left :
    {A B : Type 0} {r r1 : Readers} {flag : ℕ}
    → ReaderMoves A B r r1 flag
    → (created r1 ≡ created r)
      × (5 * r1.ask + 4 * r1.wait + 3 * r1.hold + 2 * r1.in_cs + r1.leave
          < 5 * r.ask + 4 * r.wait + 3 * r.hold + 2 * r.in_cs + r.leave)
ReaderMoves-left (reader_locks free some_) = (omega arith, omega arith)
ReaderMoves-left (reader_waits shut some_) = (omega arith, omega arith)
ReaderMoves-left (reader_wakes free some_) = (omega arith, omega arith)
ReaderMoves-left (reader_enters some_) = (omega arith, omega arith)
ReaderMoves-left (reader_gets_out told some_) = (omega arith, omega arith)
ReaderMoves-left (reader_unlocks some_) = (omega arith, omega arith)

MasterMoves-left : (s : System) {t : System} → Inv s → MasterMoves s t → left t < left s
MasterMoves-left s i (spawn_linger e) = let m = ap stage e in omega (arith, m, i.linger_created)
MasterMoves-left s i (see_reader e seen) = let m = ap stage e in omega (arith, m)
MasterMoves-left s i (spawn_writer e) = let m = ap stage e in omega (arith, m, i.writer_created)
MasterMoves-left s i (see_writer e one) = let m = ap stage e in omega (arith, m)
MasterMoves-left s i (spawn_reader e few) = omega (arith, few)
MasterMoves-left s i (spawned_all e all) = let m = ap stage e in omega (arith, m)
MasterMoves-left s i (reads_who e) = let m = ap stage e in omega (arith, m)
MasterMoves-left s i (nobody_in e no_one no_two) = let m = ap stage e in omega (arith, m)
MasterMoves-left s i (somebody_in e found) = let m = ap stage e in omega (arith, m)
MasterMoves-left s i (see_all e nine) = let m = ap stage e in omega (arith, m)
MasterMoves-left s i (tell_linger e) = let m = ap stage e in omega (arith, m)
MasterMoves-left s i (see_who e seen) = let m = ap stage e in omega (arith, m)
MasterMoves-left s i (writer_first e one) = let m = ap stage e in omega (arith, m)
MasterMoves-left s i (reader_first e other) = let m = ap stage e in omega (arith, m)
MasterMoves-left s i (tell_peers e) = let m = ap stage e in omega (arith, m)
MasterMoves-left s i (join_all e l w r) = let m = ap stage e in omega (arith, m)

Step-left : {s t : System} → Inv s → Step s t → left t < left s
Step-left i (linger_reader m) = let r = Moves-rank m in omega (arith, r)
Step-left i (competing_writer m) = let r = Moves-rank m in omega (arith, r)
Step-left i (competing_reader m) = let r = ReaderMoves-left m in omega (arith, r)
Step-left {s} i (test_rwl_priority m) = MasterMoves-left s i m

-- The number of steps of a schedule.
abbrev pub steps : {s : System} → Reach s → ℕ
steps begin = 0
steps (next r st) = suc (steps r)

pub bounded : {s : System} (r : Reach s) → steps r + left s ≤ 74
bounded begin = omega arith
bounded (next r st) = omega (arith, bounded r, Step-left (Reach-Inv r) st)
