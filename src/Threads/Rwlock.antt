-- ===== src/Threads/Rwlock.antt =====
-- The helper of threadlab/rwlock.c, its stubs, and `test_rwl_basic` of threadlab/testrwlock.c, which
-- one thread runs. The lock is a record of the functions of rwlock.h over its state. A call with no
-- expiry time that would wait for ever is a loop without end.
pub mod Basic
use cso18_labs.Base.{
  ℕ, zero, suc, ◌+◌, Bool, true, false, not, Option, none, some, ◌||◌, if◌then◌else◌,
}
use cso18_labs.Base.Run.{Run, ok, fault, ◌>>=◌, ◌>>◌, check, assert, exited}

-- `struct timespec`
pub record Timespec : Type 0 where
  pub tv_sec : ℕ
  pub tv_nsec : ℕ

-- The results: 0, ETIMEDOUT, or another error.
pub data Code : Type 0 where
  success etimedout einval : Code

abbrev pub is_success : Code → Bool
is_success success = true
is_success _ = false

abbrev pub is_timeout : Code → Bool
is_timeout etimedout = true
is_timeout _ = false

-- `cond_timedwait`, over what `pthread_cond_timedwait` and `pthread_cond_wait` return.
unfoldable pub cond_timedwait :
    (timedwait : Timespec → Code) (wait : Code) → Option Timespec → Run Code
cond_timedwait timedwait wait none = assert (is_success wait || is_timeout wait) >> ok wait
cond_timedwait timedwait wait (some expire) =
    assert (is_success (timedwait expire) || is_timeout (timedwait expire)) >> ok (timedwait expire)

-- rwlock.h
pub record Rwlock (L : Type 0) : Type 0 where
  pub rwl_init : L
  pub rwl_nwaiters : L → ℕ
  pub rwl_rlock : Option Timespec → L → Run (Code × L)
  pub rwl_runlock : L → Run L
  pub rwl_wlock : Option Timespec → L → Run (Code × L)
  pub rwl_wunlock : L → Run L

-- rwlock.c as it stands in the repository.
abbrev pub stub : Rwlock (Unit {0})
stub = record {
  rwl_init = tt;
  rwl_nwaiters = λ l. 0;
  rwl_rlock = λ expire l. ok (success, l);
  rwl_runlock = λ l. ok l;
  rwl_wlock = λ expire l. ok (success, l);
  rwl_wunlock = λ l. ok l;
}

-- `now` is what `clock_gettime` returns.
abbrev pub get_expiretime : (now : Timespec) → Timespec
get_expiretime now = record now { tv_nsec = now.tv_nsec + 100 }

-- `if (…) test_fatal(…)`: the program goes on if the result is as expected.
abbrev pub expect : Bool → Run (Unit {0})
expect as_expected = check as_expected exited

module _ {L : Type 0} (lock : Rwlock L) (now : ℕ → Timespec) where
  -- A reader, a writer that must not get the lock, another reader, and both unlock.
  unfoldable pub basic_readers : L → Run L
  basic_readers l = lock.rwl_rlock none l >>= λ (r, l1).
      expect (is_success r)
      >> (lock.rwl_wlock (some (get_expiretime (now 0))) l1 >>= λ (r1, l2).
          expect (is_timeout r1)
          >> (lock.rwl_rlock (some (get_expiretime (now 1))) l2 >>= λ (r2, l3).
              expect (is_success r2) >> (lock.rwl_runlock l3 >>= λ l4. lock.rwl_runlock l4)))

  -- A writer, and a writer and a reader that must not get the lock.
  unfoldable pub basic_writer : L → Run L
  basic_writer l = lock.rwl_wlock none l >>= λ (r, l1).
      expect (is_success r)
      >> (lock.rwl_wlock (some (get_expiretime (now 2))) l1 >>= λ (r1, l2).
          expect (is_timeout r1)
          >> (lock.rwl_rlock (some (get_expiretime (now 3))) l2 >>= λ (r2, l3).
              expect (is_timeout r2) >> lock.rwl_wunlock l3))

  unfoldable pub test_rwl_basic : Run L
  unfolding basic_readers basic_writer
  test_rwl_basic = basic_readers lock.rwl_init >>= λ l. basic_writer l
