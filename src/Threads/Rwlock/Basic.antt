-- ===== src/Threads/Rwlock/Basic.antt =====
-- Which locks pass `test_rwl_basic` of threadlab/testrwlock.c.
use cso18_labs.Base.{ℕ, suc, ◌+◌, ◌≤◌, ◌<◌, ◌≡◌, refl, Bool, true, false, Option, none, some}
use cso18_labs.Base.Run.{ok, fault, exited, asserted}
use cso18_labs.Threads.Rwlock.{
  Timespec, Code, success, etimedout, einval, cond_timedwait, Rwlock, stub, get_expiretime,
  basic_readers, basic_writer, test_rwl_basic,
}

-- `pthread_cond_timedwait` takes a time whose nanoseconds are below 10 ^ 9.
abbrev pub IsTime : Timespec → Type 0
IsTime t = t.tv_nsec < 1000000000

-- Who has the lock.
pub record Holders : Type 0 where
  pub readers : ℕ
  pub writer : Bool

abbrev pub held : ℕ → Bool → Holders
held readers writer = record { readers = readers; writer = writer }

-- What rwlock.c documents, for calls of one thread at a time. `who` reads off who has the lock. A
-- call that must wait returns ETIMEDOUT if its expiry is a time.
pub record IsRwlock {L : Type 0} (lock : Rwlock L) (who : L → Holders) : Type 0 where
  pub init : who lock.rwl_init ≡ held 0 false
  pub rlock_open :
      (expire : Option Timespec) (l : L) (n : ℕ)
      → who l ≡ held n false
      → (l1 : L) × (lock.rwl_rlock expire l ≡ ok (success, l1)) × (who l1 ≡ held (suc n) false)
  pub rlock_shut :
      (t : Timespec) (l : L)
      → IsTime t
      → who l ≡ held 0 true
      → (l1 : L) × (lock.rwl_rlock (some t) l ≡ ok (etimedout, l1)) × (who l1 ≡ held 0 true)
  pub wlock_open :
      (expire : Option Timespec) (l : L)
      → who l ≡ held 0 false
      → (l1 : L) × (lock.rwl_wlock expire l ≡ ok (success, l1)) × (who l1 ≡ held 0 true)
  pub wlock_shut_by_reader :
      (t : Timespec) (l : L) (n : ℕ)
      → IsTime t
      → who l ≡ held (suc n) false
      → (l1 : L) × (lock.rwl_wlock (some t) l ≡ ok (etimedout, l1)) × (who l1 ≡ held (suc n) false)
  pub wlock_shut_by_writer :
      (t : Timespec) (l : L)
      → IsTime t
      → who l ≡ held 0 true
      → (l1 : L) × (lock.rwl_wlock (some t) l ≡ ok (etimedout, l1)) × (who l1 ≡ held 0 true)
  pub runlock :
      (l : L) (n : ℕ)
      → who l ≡ held (suc n) false
      → (l1 : L) × (lock.rwl_runlock l ≡ ok l1) × (who l1 ≡ held n false)
  pub wunlock :
      (l : L)
      → who l ≡ held 0 true
      → (l1 : L) × (lock.rwl_wunlock l ≡ ok l1) × (who l1 ≡ held 0 false)

module _ {L : Type 0} (lock : Rwlock L) (who : L → Holders) (now : ℕ → Timespec)
    (is : IsRwlock lock who) (early : (i : ℕ) → (now i).tv_nsec + 100 < 1000000000) where
  basic_readers_pass :
      (l : L)
      → who l ≡ held 0 false
      → (out : L) × (basic_readers lock now l ≡ ok out) × (who out ≡ held 0 false)
  unfolding basic_readers
  basic_readers_pass l h =
      let (l1, a, h1) = is.rlock_open none l 0 h in
      let (l2, b, h2) = is.wlock_shut_by_reader (get_expiretime (now 0)) l1 0 (early 0) h1 in
      let (l3, c, h3) = is.rlock_open (some (get_expiretime (now 1))) l2 1 h2 in
      let (l4, d, h4) = is.runlock l3 1 h3 in
      let (l5, e, h5) = is.runlock l4 0 h4 in (l5, rw (a, b, c, d) e, h5)

  basic_writer_pass :
      (l : L)
      → who l ≡ held 0 false
      → (out : L) × (basic_writer lock now l ≡ ok out) × (who out ≡ held 0 false)
  unfolding basic_writer
  basic_writer_pass l h =
      let (l1, a, h1) = is.wlock_open none l h in
      let (l2, b, h2) = is.wlock_shut_by_writer (get_expiretime (now 2)) l1 (early 2) h1 in
      let (l3, c, h3) = is.rlock_shut (get_expiretime (now 3)) l2 (early 3) h2 in
      let (l4, d, h4) = is.wunlock l3 h3 in (l4, rw (a, b, c) d, h4)

-- A lock that does what rwlock.c documents passes `test_rwl_basic`, which then leaves it free, if the
-- clock is never in the last 100 nanoseconds of a second when an expiry time is computed. The
-- lock of the repository, whose bodies are empty, does not pass.
pub test_rwl_basic_lem :
    {L : Type 0} (lock : Rwlock L) (who : L → Holders) (now : ℕ → Timespec)
    → IsRwlock lock who
    → ((i : ℕ) → (now i).tv_nsec + 100 < 1000000000)
    → ((out : L) × (test_rwl_basic lock now ≡ ok out) × (who out ≡ held 0 false))
      × (test_rwl_basic stub now ≡ fault exited)
unfolding test_rwl_basic basic_readers
test_rwl_basic_lem lock who now is early =
    let (l, a, h) = basic_readers_pass lock who now is early lock.rwl_init is.init in
    let (out, b, k) = basic_writer_pass lock who now is early l h in ((out, rw a b, k), refl)

-- In the last 100 nanoseconds of a second `get_expiretime` gives no time that
-- `pthread_cond_timedwait` takes: it returns EINVAL, and the assertion of `cond_timedwait` fails.
pub cond_timedwait_lem :
    (timedwait : Timespec → Code) (wait : Code) (now : Timespec)
    → ((t : Timespec) → 1000000000 ≤ t.tv_nsec → timedwait t ≡ einval)
    → 1000000000 ≤ now.tv_nsec + 100
    → cond_timedwait timedwait wait (some (get_expiretime now)) ≡ fault asserted
unfolding cond_timedwait
cond_timedwait_lem timedwait wait now invalid late =
    let e = invalid (get_expiretime now) late in rw e refl
