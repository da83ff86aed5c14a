-- ===== src/Threads/Priority.antt =====
-- `test_rwl_priority` of threadlab/testrwlock.c with its ten threads, as a step relation. The lock is
-- the students' part; it stands here as its documentation in rwlock.c and the name of the test say:
-- readers share it, a writer has it alone, and a reader does not get it past a waiting writer. What
-- a thread does while it holds the mutex `test_m` is one step.
pub mod Inv
pub mod Safe
pub mod Measure
pub mod Live
use cso18_labs.Base.{ℕ, zero, suc, ◌+◌, ◌-◌, ◌≤◌, ◌<◌, ◌≡◌, ◌≢◌, ◌⊎◌}

-- Where a thread stands that takes the lock: `asking` before its call of `rwl_rlock` or `rwl_wlock`,
-- `waiting` in it, `holding` behind it, `inside` once it has set its flag, in its loop of waits,
-- `leaving` behind the loop, before it unlocks.
pub data Peer : Type 0 where
  not_created asking waiting holding inside leaving returned : Peer

-- Where the thread that runs the test stands.
pub data Master : Type 0 where
  create_linger poll_reader create_writer poll_writer create_readers read_who judge_first : Master
  poll_all ask_linger poll_who judge_who ask_peers joining finished failed : Master

-- How many of the competing readers stand where.
pub record Readers : Type 0 where
  pub ask : ℕ
  pub wait : ℕ
  pub hold : ℕ
  pub in_cs : ℕ
  pub leave : ℕ
  pub done : ℕ

-- The threads, the variable `who` of the test, and the static variables.
pub record System : Type 0 where
  pub master : Master
  pub who : ℕ
  pub linger : Peer
  pub writer : Peer
  pub readers : Readers
  pub reader_in_cs : ℕ
  pub who_is_in_cs : ℕ
  pub reader_getout : ℕ
  pub peers_getout : ℕ

abbrev pub no_readers : Readers
no_readers = record { ask = 0; wait = 0; hold = 0; in_cs = 0; leave = 0; done = 0 }

abbrev pub start : System
start = record {
  master = create_linger;
  who = 0;
  linger = not_created;
  writer = not_created;
  readers = no_readers;
  reader_in_cs = 0;
  who_is_in_cs = 0;
  reader_getout = 0;
  peers_getout = 0;
}

abbrev pub rank : Peer → ℕ
rank not_created = 0
rank asking = 1
rank waiting = 2
rank holding = 3
rank inside = 4
rank leaving = 5
rank returned = 6

abbrev pub is_waiting : Peer → ℕ
is_waiting waiting = 1
is_waiting _ = 0

abbrev pub has_lock : Peer → ℕ
has_lock holding = 1
has_lock inside = 1
has_lock leaving = 1
has_lock _ = 0

-- `rwl_nwaiters`
abbrev pub nwaiters : System → ℕ
nwaiters s = is_waiting s.linger + is_waiting s.writer + s.readers.wait

-- No writer has the lock or waits for it.
abbrev pub OpenToReaders : System → Type 0
OpenToReaders s = has_lock s.writer + is_waiting s.writer ≡ 0

-- Nobody has the lock.
abbrev pub OpenToWriters : System → Type 0
OpenToWriters s =
    has_lock s.linger + has_lock s.writer + s.readers.hold + s.readers.in_cs + s.readers.leave ≡ 0

-- A thread that takes the lock goes from one point to the next: `open_lock` says that it gets the
-- lock, and `told` that it is asked to get out.
pub data Moves (open_lock told : Type 0) : Peer → Peer → Type 0 where
  locks : open_lock → Moves open_lock told asking holding
  waits : ¬ open_lock → Moves open_lock told asking waiting
  wakes : open_lock → Moves open_lock told waiting holding
  enters : Moves open_lock told holding inside
  gets_out : told → Moves open_lock told inside leaving
  unlocks : Moves open_lock told leaving returned

-- The flag that the thread sets when it is inside.
abbrev pub set_inside : Peer → ℕ → ℕ → ℕ
set_inside inside new old = new
set_inside _ new old = old

-- One competing reader goes on.
pub data ReaderMoves (open_lock told : Type 0) (r : Readers) : Readers → ℕ → Type 0 where
  reader_locks :
      open_lock
      → 0 < r.ask
      → ReaderMoves open_lock told r (record r { ask = r.ask - 1; hold = r.hold + 1 }) 0
  reader_waits :
      ¬ open_lock
      → 0 < r.ask
      → ReaderMoves open_lock told r (record r { ask = r.ask - 1; wait = r.wait + 1 }) 0
  reader_wakes :
      open_lock
      → 0 < r.wait
      → ReaderMoves open_lock told r (record r { wait = r.wait - 1; hold = r.hold + 1 }) 0
  reader_enters :
      0 < r.hold
      → ReaderMoves open_lock told r (record r { hold = r.hold - 1; in_cs = r.in_cs + 1 }) 1
  reader_gets_out :
      told
      → 0 < r.in_cs
      → ReaderMoves open_lock told r (record r { in_cs = r.in_cs - 1; leave = r.leave + 1 }) 0
  reader_unlocks :
      0 < r.leave
      → ReaderMoves open_lock told r (record r { leave = r.leave - 1; done = r.done + 1 }) 0

-- `who_is_in_cs = 2` if the step sets it.
abbrev pub set_two : ℕ → ℕ → ℕ
set_two zero old = old
set_two (suc _) old = 2

abbrev pub created : Readers → ℕ
created r = r.ask + r.wait + r.hold + r.in_cs + r.leave + r.done

-- The master thread; a round of a loop that goes on polling changes nothing and is left out.
pub data MasterMoves (s : System) : System → Type 0 where
  spawn_linger :
      s.master ≡ create_linger → MasterMoves s (record s { master = poll_reader; linger = asking })
  see_reader :
      s.master ≡ poll_reader
      → s.reader_in_cs ≢ 0
      → MasterMoves s (record s { master = create_writer })
  spawn_writer :
      s.master ≡ create_writer → MasterMoves s (record s { master = poll_writer; writer = asking })
  see_writer :
      s.master ≡ poll_writer → nwaiters s ≡ 1 → MasterMoves s (record s { master = create_readers })
  spawn_reader :
      s.master ≡ create_readers
      → created s.readers < 8
      → MasterMoves s (record s { readers = record s.readers { ask = s.readers.ask + 1 } })
  spawned_all :
      s.master ≡ create_readers
      → created s.readers ≡ 8
      → MasterMoves s (record s { master = read_who })
  reads_who :
      s.master ≡ read_who → MasterMoves s (record s { master = judge_first; who = s.who_is_in_cs })
  nobody_in :
      s.master ≡ judge_first
      → s.who ≢ 1
      → s.who ≢ 2
      → MasterMoves s (record s { master = poll_all })
  somebody_in :
      s.master ≡ judge_first
      → (s.who ≡ 1) ⊎ (s.who ≡ 2)
      → MasterMoves s (record s { master = failed })
  see_all : s.master ≡ poll_all → nwaiters s ≡ 9 → MasterMoves s (record s { master = ask_linger })
  tell_linger :
      s.master ≡ ask_linger → MasterMoves s (record s { master = poll_who; reader_getout = 1 })
  see_who :
      s.master ≡ poll_who
      → s.who_is_in_cs ≢ 0
      → MasterMoves s (record s { master = judge_who; who = s.who_is_in_cs })
  writer_first : s.master ≡ judge_who → s.who ≡ 1 → MasterMoves s (record s { master = ask_peers })
  reader_first : s.master ≡ judge_who → s.who ≢ 1 → MasterMoves s (record s { master = failed })
  tell_peers :
      s.master ≡ ask_peers → MasterMoves s (record s { master = joining; peers_getout = 1 })
  join_all :
      s.master ≡ joining
      → s.linger ≡ returned
      → s.writer ≡ returned
      → s.readers.done ≡ 8
      → MasterMoves s (record s { master = finished })

pub data Step (s : System) : System → Type 0 where
  linger_reader :
      {q : Peer}
      → Moves (OpenToReaders s) (s.reader_getout ≢ 0) s.linger q
      → Step s (record s { linger = q; reader_in_cs = set_inside q 1 s.reader_in_cs })
  competing_writer :
      {q : Peer}
      → Moves (OpenToWriters s) (s.peers_getout ≢ 0) s.writer q
      → Step s (record s { writer = q; who_is_in_cs = set_inside q 1 s.who_is_in_cs })
  competing_reader :
      {r : Readers} {flag : ℕ}
      → ReaderMoves (OpenToReaders s) (s.peers_getout ≢ 0) s.readers r flag
      → Step s (record s { readers = r; who_is_in_cs = set_two flag s.who_is_in_cs })
  test_rwl_priority : {t : System} → MasterMoves s t → Step s t

pub data Reach : System → Type 0 where
  begin : Reach start
  next : {s t : System} → Reach s → Step s t → Reach t
