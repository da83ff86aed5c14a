-- ===== src/Threads/Priority/Safe.antt =====
-- That `test_rwl_priority` does not fail.
use cso18_labs.Base.{◌+◌, ◌≡◌, ◌≢◌, ◌⊎◌, refl, ap, arith}
use cso18_labs.Threads.Priority.{
  failed, System, has_lock, MasterMoves, spawn_linger, see_reader, spawn_writer, see_writer,
  spawn_reader, spawned_all, reads_who, nobody_in, somebody_in, see_all, tell_linger, see_who,
  writer_first, reader_first, tell_peers, join_all,
}
use cso18_labs.Threads.Priority.{
  Step, linger_reader, competing_writer, competing_reader, test_rwl_priority, Reach, begin, next,
}
use cso18_labs.Threads.Priority.Inv.{
  stage, Inv, start-Inv, Peer-cases, linger-Inv, writer-Inv, reader-Inv,
}

master-Inv : (s : System) {t : System} → Inv s → MasterMoves s t → Inv t
master-Inv s i (spawn_linger e) = let m = ap stage e in ground (arith, i)
master-Inv s i (see_reader e seen) = let m = ap stage e in ground (arith, i)
master-Inv s i (spawn_writer e) = let m = ap stage e in ground (arith, i)
master-Inv s i (see_writer e one) =
    let m = ap stage e in
    let l = Peer-cases s.linger in let w = Peer-cases s.writer in ground (arith, i)
master-Inv s i (spawn_reader e few) = let m = ap stage e in ground (arith, i)
master-Inv s i (spawned_all e all) = let m = ap stage e in ground (arith, i)
master-Inv s i (reads_who e) = let m = ap stage e in ground (arith, i)
master-Inv s i (nobody_in e no_one no_two) = let m = ap stage e in ground (arith, i)
master-Inv s i (somebody_in e found) =
    let m = ap stage e in absurd (omega (arith, m, i.first_look, found))
master-Inv s i (see_all e nine) = let m = ap stage e in ground (arith, i)
master-Inv s i (tell_linger e) = let m = ap stage e in ground (arith, i)
master-Inv s i (see_who e seen) = let m = ap stage e in ground (arith, i)
master-Inv s i (writer_first e one) = let m = ap stage e in ground (arith, i)
master-Inv s i (reader_first e other) =
    let m = ap stage e in absurd (other (omega (arith, m, i.second_look)))
master-Inv s i (tell_peers e) = let m = ap stage e in ground (arith, i)
master-Inv s i (join_all e l w r) = let m = ap stage e in ground (arith, i)

pub Step-Inv : {s t : System} → Step s t → Inv s → Inv t
Step-Inv {s} (linger_reader moves) i = linger-Inv s refl i moves
Step-Inv {s} (competing_writer moves) i = writer-Inv s refl i moves
Step-Inv {s} (competing_reader moves) i = reader-Inv s i moves
Step-Inv {s} (test_rwl_priority moves) i = master-Inv s i moves

pub Reach-Inv : {s : System} → Reach s → Inv s
Reach-Inv begin = start-Inv
Reach-Inv (next r st) = Step-Inv st (Reach-Inv r)

-- On a lock that gives writers priority, `test_rwl_priority` fails under no schedule of its ten
-- threads; and up to the point where it asks the competing threads to get out, no competing reader
-- has got the lock, and the writer is not in before the lingering reader was asked to get out.
pub test_rwl_priority_passes :
    {s : System}
    → Reach s
    → (s.master ≢ failed)
      × ((s.peers_getout ≡ 1)
          ⊎ (s.readers.hold + s.readers.in_cs + s.readers.leave + s.readers.done ≡ 0))
      × ((s.reader_getout ≡ 1) ⊎ (has_lock s.writer ≡ 0))
test_rwl_priority_passes {s} r =
    let i = Reach-Inv r in
    let w = Peer-cases s.writer in
    (
      λ e. let m = ap stage e in omega (arith, m, i.runs),
      omega (arith, i.peers, i.readers_wait),
      omega (arith, i.getout, i.writer_low, w),
    )
