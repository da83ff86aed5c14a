-- ===== src/Threads/Priority/Live.antt =====
-- That every schedule of `test_rwl_priority` ends, and only where the test has passed.
use native.Mathlib.Decide.{ℕ_discrete, dec_lt}
use cso18_labs.Base.{◌+◌, ◌≤◌, ◌<◌, ◌≡◌, ◌≢◌, ◌⊎◌, refl, ap, inl, inr, arith}
use cso18_labs.Threads.Priority.{
  Peer, not_created, asking, waiting, holding, inside, leaving, returned, Master, create_linger,
  poll_reader, create_writer, poll_writer, create_readers, read_who, judge_first, poll_all,
  ask_linger, poll_who, judge_who, ask_peers, joining, finished, failed, System, rank, is_waiting,
  has_lock, OpenToReaders, OpenToWriters, Moves, locks, waits, wakes, enters, gets_out, unlocks,
  reader_locks, reader_waits, reader_wakes, reader_enters, reader_gets_out, reader_unlocks, created,
  spawn_linger, see_reader, spawn_writer, see_writer, spawn_reader, spawned_all, reads_who,
  nobody_in, see_all, tell_linger, see_who, writer_first, tell_peers, join_all,
}
use cso18_labs.Threads.Priority.{
  Step, linger_reader, competing_writer, competing_reader, test_rwl_priority, Reach,
}
use cso18_labs.Threads.Priority.Inv.{stage, Inv, Peer-cases}
use cso18_labs.Threads.Priority.Safe.{Reach-Inv}
use cso18_labs.Threads.Priority.Measure.{steps, bounded}

abbrev Goes : System → Type 0
Goes s = (t : System) × Step s t

-- A thread that is created and has not returned goes on, if the lock is open to it where it waits,
-- and if it is asked to get out where it is inside.
Peer-goes :
    {A B : Type 0} (p : Peer)
    → Dec A
    → 1 ≤ rank p
    → rank p ≤ 5
    → (rank p ≡ 2 → A)
    → (rank p ≡ 4 → B)
    → (q : Peer) × Moves A B p q
Peer-goes not_created d low high free told = absurd (omega arith)
Peer-goes asking (yes a) low high free told = (_, locks a)
Peer-goes asking (no n) low high free told = (_, waits n)
Peer-goes waiting d low high free told = (_, wakes (free refl))
Peer-goes holding d low high free told = (_, enters)
Peer-goes inside d low high free told = (_, gets_out (told refl))
Peer-goes leaving d low high free told = (_, unlocks)
Peer-goes returned d low high free told = absurd (omega arith)

linger-Goes :
    (s : System)
    → 1 ≤ rank s.linger
    → rank s.linger ≤ 5
    → (rank s.linger ≡ 2 → OpenToReaders s)
    → (rank s.linger ≡ 4 → s.reader_getout ≢ 0)
    → Goes s
linger-Goes s low high free told =
    let (q, m) =
      Peer-goes {A = OpenToReaders s} {B = s.reader_getout ≢ 0} s.linger (ℕ_discrete _ 0) low high
        free told in
    (_, linger_reader m)

writer-Goes :
    (s : System)
    → 1 ≤ rank s.writer
    → rank s.writer ≤ 5
    → (rank s.writer ≡ 2 → OpenToWriters s)
    → (rank s.writer ≡ 4 → s.peers_getout ≢ 0)
    → Goes s
writer-Goes s low high free told =
    let (q, m) =
      Peer-goes {A = OpenToWriters s} {B = s.peers_getout ≢ 0} s.writer (ℕ_discrete _ 0) low high
        free told in
    (_, competing_writer m)

-- A competing reader that has the lock, or that has not called `rwl_rlock`, goes on.
asking-Goes : (s : System) → 0 < s.readers.ask → Goes s
asking-Goes s h = elim (ℕ_discrete (has_lock s.writer + is_waiting s.writer) 0) [
  | yes free ↦ (_, competing_reader (reader_locks free h))
  | no shut ↦ (_, competing_reader (reader_waits shut h))
]

holding-Goes :
    (s : System)
    → s.peers_getout ≢ 0
    → 0 < s.readers.hold + s.readers.in_cs + s.readers.leave
    → Goes s
holding-Goes s told h = elim (dec_lt 0 s.readers.hold) [
  | yes some_ ↦ (_, competing_reader (reader_enters some_))
  | no no_hold ↦ elim (dec_lt 0 s.readers.in_cs) [
    | yes some_ ↦ (_, competing_reader (reader_gets_out told some_))
    | no no_in ↦ (_, competing_reader (reader_unlocks (omega arith)))
  ]
]

returned_of : (p : Peer) → rank p ≡ 6 → p ≡ returned
returned_of p h = ground arith

master-Goes : (s : System) (m : Master) → s.master ≡ m → Inv s → (s.master ≡ finished) ⊎ Goes s
master-Goes s create_linger e i = inr (_, test_rwl_priority (spawn_linger e))
master-Goes s poll_reader e i =
    let n = ap stage e in
    let w = Peer-cases s.writer in
    elim (dec_lt (rank s.linger) 4) [
      | yes low ↦
          inr (linger-Goes s (omega arith) (omega arith) (λ r. omega arith) (λ r. omega arith))
      | no high ↦ inr (_, test_rwl_priority (see_reader e (omega arith)))
    ]
master-Goes s create_writer e i = inr (_, test_rwl_priority (spawn_writer e))
master-Goes s poll_writer e i =
    let n = ap stage e in
    let l = Peer-cases s.linger in
    let w = Peer-cases s.writer in
    elim (dec_lt (rank s.writer) 2) [
      | yes low ↦
          inr (writer-Goes s (omega arith) (omega arith) (λ r. omega arith) (λ r. omega arith))
      | no high ↦ inr (_, test_rwl_priority (see_writer e (omega arith)))
    ]
master-Goes s create_readers e i = elim (dec_lt (created s.readers) 8) [
  | yes few ↦ inr (_, test_rwl_priority (spawn_reader e few))
  | no all ↦ inr (_, test_rwl_priority (spawned_all e (omega arith)))
]
master-Goes s read_who e i = inr (_, test_rwl_priority (reads_who e))
master-Goes s judge_first e i =
    let n = ap stage e in inr (_, test_rwl_priority (nobody_in e (omega arith) (omega arith)))
master-Goes s poll_all e i =
    let n = ap stage e in
    let l = Peer-cases s.linger in
    let w = Peer-cases s.writer in
    elim (dec_lt 0 s.readers.ask) [
      | yes some_ ↦ inr (asking-Goes s some_)
      | no none_ ↦ inr (_, test_rwl_priority (see_all e (omega arith)))
    ]
master-Goes s ask_linger e i = inr (_, test_rwl_priority (tell_linger e))
master-Goes s poll_who e i =
    let n = ap stage e in
    let l = Peer-cases s.linger in
    let w = Peer-cases s.writer in
    elim (dec_lt (rank s.linger) 6) [
      | yes low ↦
          inr (linger-Goes s (omega arith) (omega arith) (λ r. omega arith) (λ r. omega arith))
      | no high ↦ elim (dec_lt (rank s.writer) 4) [
        | yes low ↦
            inr (writer-Goes s (omega arith) (omega arith) (λ r. omega arith) (λ r. omega arith))
        | no top ↦ inr (_, test_rwl_priority (see_who e (omega arith)))
      ]
    ]
master-Goes s judge_who e i =
    let n = ap stage e in inr (_, test_rwl_priority (writer_first e (omega arith)))
master-Goes s ask_peers e i = inr (_, test_rwl_priority (tell_peers e))
master-Goes s joining e i =
    let n = ap stage e in
    let l = Peer-cases s.linger in
    let w = Peer-cases s.writer in
    elim (dec_lt 0 (s.readers.hold + s.readers.in_cs + s.readers.leave)) [
      | yes busy ↦ inr (holding-Goes s (omega arith) busy)
      | no idle ↦ elim (dec_lt (rank s.linger) 6) [
        | yes low ↦
            inr (linger-Goes s (omega arith) (omega arith) (λ r. omega arith) (λ r. omega arith))
        | no high ↦ elim (dec_lt (rank s.writer) 6) [
          | yes low ↦
              inr (writer-Goes s (omega arith) (omega arith) (λ r. omega arith) (λ r. omega arith))
          | no top ↦ elim (dec_lt 0 s.readers.ask) [
            | yes some_ ↦ inr (asking-Goes s some_)
            | no no_ask ↦ elim (dec_lt 0 s.readers.wait) [
              | yes some_ ↦ inr (_, competing_reader (reader_wakes (omega arith) some_))
              | no no_wait ↦ inr (
                _,
                test_rwl_priority (
                    join_all e (returned_of s.linger (omega arith))
                      (returned_of s.writer (omega arith)) (omega arith)),
              )
            ]
          ]
        ]
      ]
    ]
master-Goes s finished e i = inl e
master-Goes s failed e i = let n = ap stage e in absurd (omega (arith, n, i.runs))

-- On that lock every schedule of the test's ten threads ends with the test passed: it has at most 74
-- steps, rounds of polling not counted, and as long as the test has not finished some thread can
-- go on.
pub test_rwl_priority_ends :
    {s : System} (r : Reach s)
    → (steps r ≤ 74) × ((s.master ≡ finished) ⊎ ((t : System) × Step s t))
test_rwl_priority_ends {s} r = (omega (arith, bounded r), master-Goes s s.master refl (Reach-Inv r))
