-- ===== src/Threads/LockTests.antt =====
-- The tests of the lock and of the hash table, on concrete schedules and data.
use cso18_labs.Base.{
  ℕ, zero, suc, ◌+◌, ◌-◌, leb, ◌/◌, ◌%◌, ◌≤◌, ◌<◌, ◌≡◌, ◌≢◌, ◌⊎◌, refl, Bool, true, false, Option,
  some, List, [], ◌∷◌, arith,
}
use cso18_labs.Base.Run.{Run, ok, fault, exited, asserted}
use cso18_labs.Threads.Htable.Hash.{ascii_nil, ascii_cons}
use cso18_labs.Threads.Load.{test_size}
use cso18_labs.Threads.Harness.{
  test_htable, n_option, t_option, rwl_basic_test, rwl_priority_test, tester, read_options,
}
use cso18_labs.Threads.Harness.Loaded.{IsData}
use cso18_labs.Threads.Harness.Passes.{test_htable_lem}
use cso18_labs.Threads.Rwlock.{
  Timespec, Code, success, etimedout, einval, cond_timedwait, Rwlock, stub, test_rwl_basic,
}
use cso18_labs.Threads.Rwlock.Basic.{
  Holders, held, IsRwlock, test_rwl_basic_lem, cond_timedwait_lem,
}
use cso18_labs.Threads.Priority.{
  System, Reach, begin, next, Step, linger_reader, competing_writer, test_rwl_priority, locks,
  waits, enters, spawn_linger, see_reader, spawn_writer, see_writer, finished, failed,
}
use cso18_labs.Threads.Priority.Live.{test_rwl_priority_ends}
use cso18_labs.Threads.Priority.Safe.{test_rwl_priority_passes}

-- The lingering reader is in, and the writer waits.
abbrev writer_waiting : (s : System) × Reach s
writer_waiting = (
  _,
  next
      (next
        (next
          (next
            (next
              (next (next begin (test_rwl_priority (spawn_linger refl)))
                (linger_reader (locks refl)))
              (linger_reader enters))
            (test_rwl_priority (see_reader refl (λ e. absurd (omega arith)))))
          (test_rwl_priority (spawn_writer refl)))
        (competing_writer (waits (λ e. absurd (omega arith)))))
      (test_rwl_priority (see_writer refl refl)),
)

test_rwl_priority_ends_example :
    (7 ≤ 74) × ((writer_waiting.0.master ≡ finished) ⊎ ((t : System) × Step writer_waiting.0 t))
test_rwl_priority_ends_example = test_rwl_priority_ends writer_waiting.1

test_rwl_priority_passes_example :
    (writer_waiting.0.master ≢ failed)
    × ((◌≡◌ {A = ℕ} 0 1) ⊎ (◌≡◌ {A = ℕ} 0 0))
    × ((◌≡◌ {A = ℕ} 0 1) ⊎ (◌≡◌ {A = ℕ} 0 0))
test_rwl_priority_passes_example = test_rwl_priority_passes writer_waiting.1

-- The lock that keeps who has it.
abbrev try_read : Option Timespec → Holders → Run (Code × Holders)
try_read expire l = elim l.writer [
  | false ↦ ok (success, held (suc l.readers) false)
  | true ↦ ok (etimedout, l)
]

abbrev write_if : ℕ → Bool → Holders → Run (Code × Holders)
write_if zero false l = ok (success, held 0 true)
write_if zero true l = ok (etimedout, l)
write_if (suc n) w l = ok (etimedout, l)

abbrev simple_lock : Rwlock Holders
simple_lock = record {
  rwl_init = held 0 false;
  rwl_nwaiters = λ l. 0;
  rwl_rlock = try_read;
  rwl_runlock = λ l. ok (held (l.readers - 1) l.writer);
  rwl_wlock = λ expire l. write_if l.readers l.writer l;
  rwl_wunlock = λ l. ok (held l.readers false);
}

simple_lock-IsRwlock : IsRwlock simple_lock (λ l. l)
simple_lock-IsRwlock = record {
  init = refl;
  rlock_open = λ expire l n h. (held (suc n) false, rw h refl, refl);
  rlock_shut = λ t l early h. (held 0 true, rw h refl, refl);
  wlock_open = λ expire l h. (held 0 true, rw h refl, refl);
  wlock_shut_by_reader = λ t l n early h. (held (suc n) false, rw h refl, refl);
  wlock_shut_by_writer = λ t l early h. (held 0 true, rw h refl, refl);
  runlock = λ l n h. (held n false, rw h (ground arith), refl);
  wunlock = λ l h. (held 0 false, rw h refl, refl);
}

abbrev noon : ℕ → Timespec
noon i = record { tv_sec = 43200; tv_nsec = i % 1000 }

test_rwl_basic_lem_example :
    ((out : Holders) × (test_rwl_basic simple_lock noon ≡ ok out) × (out ≡ held 0 false))
    × (test_rwl_basic stub noon ≡ fault exited)
test_rwl_basic_lem_example =
    test_rwl_basic_lem simple_lock (λ l. l) noon simple_lock-IsRwlock (λ i. omega arith)

-- Like pthread_cond_timedwait(3) with a time that is past.
abbrev timed_wait : Timespec → Code
timed_wait t = timed (leb 1000000000 t.tv_nsec)
  where
    timed : Bool → Code
    timed true = einval
    timed false = etimedout

abbrev late : Timespec
late = record { tv_sec = 43200; tv_nsec = 999999950 }

timed_wait-einval : (t : Timespec) → 1000000000 ≤ t.tv_nsec → timed_wait t ≡ einval
timed_wait-einval t h = let e : leb 1000000000 t.tv_nsec ≡ true = ground arith in rw e refl

cond_timedwait_lem_example :
    cond_timedwait timed_wait success (some (record { tv_sec = 43200; tv_nsec = 1000000050 }))
    ≡ fault asserted
cond_timedwait_lem_example =
    cond_timedwait_lem timed_wait success late timed_wait-einval (omega arith)

-- Keys of three characters, all different.
abbrev keys : ℕ → List ℕ
keys i = (i / 10000 % 100 + 1) ∷ (i / 100 % 100 + 1) ∷ (i % 100 + 1) ∷ []

abbrev vals : ℕ → ℕ
vals i = i + 1

keys_distinct : (i j : ℕ) → i < test_size → j < test_size → keys i ≡ keys j → i ≡ j
keys_distinct i j hi hj e =
    let a : i / 10000 % 100 ≡ j / 10000 % 100 = ground (arith, e) in
    let b : i / 100 % 100 ≡ j / 100 % 100 = ground (arith, e) in
    let c : i % 100 ≡ j % 100 = ground (arith, e) in omega arith

keys-IsData : IsData keys vals
keys-IsData = record {
  ascii = λ i h.
      ascii_cons (omega arith) (omega arith)
        (ascii_cons (omega arith) (omega arith) (ascii_cons (omega arith) (omega arith) ascii_nil));
  distinct = keys_distinct;
  values = λ i h e. absurd (omega arith);
}

test_htable_lem_example : (size : ℕ) × (test_htable keys vals true 4 ≡ ok size)
test_htable_lem_example = test_htable_lem keys vals keys-IsData true 4 (omega arith)

-- "-n 2 -t rwl"
tester_rwl :
    tester (n_option 2 ∷ t_option (114 ∷ 119 ∷ 108 ∷ []) ∷ [])
    ≡ ok (2, rwl_basic_test ∷ rwl_priority_test ∷ [])
unfolding tester read_options
tester_rwl = refl

tester_typo : tester (t_option (114 ∷ []) ∷ []) ≡ fault exited
unfolding tester read_options
tester_typo = refl
