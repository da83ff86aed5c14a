-- ===== src/Lib.antt =====
-- Verification of the C programs of the computer systems labs: the heap allocator and its trace
-- driver (malloclab), the hash table and the tests of the read-write lock (threadlab), the test of
-- the sorted tree (clab) and the parts of the Rabin-Karp search that the handout gives (rklab). The
-- handout leaves some bodies to the students; those are not modelled.
--
-- Parts and files.
--
-- Base: lists, bits, signed integers, the rounding of a `double`, and `Run`, the result of C code that may end in a fault: a
--   failed `assert`, `exit(1)`, an access outside an array or the heap's storage, a read of memory
--   that nothing has written, `%` by 0, or a loop that does not end within its bound.
-- Malloc/Machine: a byte memory with little-endian loads and stores, `memset` and `memcpy`.
-- Malloc/Memlib: malloclab/memlib.c. `Mem` is the static state: `mem_start_brk`, `mem_brk`,
--   `mem_max_addr` and the bytes. Each function of the file keeps its name (`mem_init`,
--   `mem_sbrk`, `mem_reset_brk`, `align`). The storage has MAX_HEAP bytes, as in
--   malloclab/config.h.
-- Malloc/Naive: malloclab/mm-naive.c, by the same names, on the bytes of that memory; the children
--   hold the proofs: Header (the header word), Chunks and Alloc (the heap as a sequence of chunks,
--   and `mm_malloc`), Release (`mm_free`), Move (`mm_realloc`), Check (`mm_checkheap`).
-- Malloc/Driver: the range list and `eval_mm_valid` of malloclab/mdriver.c. The driver takes the
--   allocator as a record `Package` of the operations of malloclab/mm.h; `naive` is mm-naive.c and
--   `stub` is mm.c of the handout. Ranges, Blocks, Settle, Requests and Valid hold the proofs, of
--   the range list, of the blocks that a trace has allocated, of one request, and of a whole
--   trace.
-- Malloc/Trace: `read_trace` of malloclab/mdriver.c, on the words of the trace file.
-- Malloc/Speed: `eval_mm_util`, `eval_mm_speed`, `eval_libc_valid` and `eval_libc_speed` of
--   malloclab/mdriver.c; Agree compares them, and Count and Mark hold the proofs about the
--   high water mark.
-- Malloc/Fcyc: malloclab/fcyc.c, with the counters of clock.c as a parameter. Sorting and Sift
--   hold the proofs of the insertion sort, Best and Keeps of the values that are kept, Samples of
--   the end of the loop, Minimum of the least sample and Result of what is returned.
-- Malloc/Clock: malloclab/clock.c for its three platforms. `Clock` is the static state; the number
--   of the next reading stands beside it, and `counter` and `user_ticks` give what a reading
--   returns. Subtract, Events, Least and Calibrate hold the proofs, of the subtraction in two
--   halves, of the rounds until an event, of the ratio that is kept and of the loop of `callibrate`.
-- Malloc/Ftimer: malloclab/ftimer.c, over a record of the system's timers.
-- Malloc/Options, Malloc/Score, Malloc/Mdriver: `main` of malloclab/mdriver.c. Options is the loop
--   over `getopt`, Score `calculate_perfindex` and `printresults`, and Mdriver the loops over the
--   traces, which call `read_trace`, `eval_libc_valid`, `eval_mm_valid`, `eval_mm_util` and, ten
--   times each, the functions to be timed, as `fsecs` of malloclab/fsecs.c does. Directory,
--   Errors, Kept and Count hold the proofs, of the trace file and directory that the options leave,
--   of what `eval_mm_valid` and the other evaluations report, and of what `main` counts.
-- Threads/Primes, Threads/Htable: threadlab/htable.c; Hash, Totals, Placed, Resize, Map, Insert
--   and Destroy hold the proofs, of the hash code, of sums over the nodes, of the invariant, of
--   `htable_resize`, of the table as a finite map, of `htable_insert` and of `htable_destroy`.
-- Threads/Load: the work of one thread of threadlab/testhash.c. Threads/Harness: the whole test,
--   with its threads one after the other, and `main` of threadlab/tester.c; Loaded and Passes hold
--   the proofs, of the table with the test data and of the test.
-- Threads/Rwlock: threadlab/rwlock.c as far as it is written, and `test_rwl_basic` of
--   threadlab/testrwlock.c over a record of the lock's functions.
-- Threads/Priority: `test_rwl_priority` of threadlab/testrwlock.c with its ten threads, as a step
--   relation over the lock that rwlock.c documents; Inv and Safe hold its invariant, Measure and
--   Live the bound on its schedules and that no thread is stuck.
-- Clab: clab/mini/part7_harness.c with its `main`, over a record of the functions of part7.c.
--   Reference is the sorted tree that part7.c documents, with traversals that may also fill the
--   array, which part7_harness.c needs and part7.c does not promise; Order, Numbers, Nodup, Inorder, Seen and
--   Tables hold the proofs, of `strcmp`, of the random strings, of the loop "nodup", of that loop
--   against the inorder traversal, of `seen_before` and of the tests on tables, and Passes of the
--   whole harness.
-- Rabin/Modular: the arithmetic of rklab/rkgrep.c. Rabin/Bloom: rklab/bloom.c. Rabin/Files,
--   Rabin/Sentence, Rabin/Program: `read_ascii_file`, `print_matched_sentence` and `main` of
--   rklab/rkgrep_main.c. Rabin/Document: the generators of rklab/rkgrep_test.c.
-- The modules named Tests, TraceTests, DriverTests and LockTests run the code and the theorems on
-- concrete inputs.
--
-- Conventions. A number is a native natural number; an `int`, `unsigned` or `size_t` of malloclab
-- is its bit pattern with the wrap-around written out, and a `char` is the signed value of its
-- byte. Base/Double rounds the operations on `double` in clock.c, ftimer.c and mdriver.c to 53 bits;
-- in fcyc.c a count of cycles is a whole number, `epsilon` a fraction, and the test for convergence
-- is exact. Where an `int` can be negative without wrap-around (hash codes, `long long`
-- values), it is an integer ℤ. NULL is the address 0. `malloc` of the C library is taken to
-- succeed where no argument says otherwise.
--
-- Bounds and fuel. `get_prime min` looks at `factorial min + 2` numbers, enough by Euclid's
-- theorem. `is_prime` takes n rounds, `mm_checkheap` as many as the heap has bytes, `read_trace`
-- one for each word of the file, `fcyc` `maxsamples + 1`, `callibrate` 100 times `2 *
-- period + 1` rounds, the loops over a document one more than it has characters. That the fuel
-- is enough is part of the theorems about these functions.
--
-- Not modelled: the students' parts (the lock of rwlock.c, the matching functions of rkgrep.c,
-- `bloom_add`, `bloom_query`, the exercises of clab and binarylab), the messages that mdriver.c
-- prints, the cycle counters and the clocks of the system themselves (what they return is a
-- parameter), the interleaving of the threads of testhash.c, whose table has no locks, and the tests that compare
-- with object files whose source is not in the repository.
pub mod Base
pub mod Clab
pub mod Malloc
pub mod Rabin
pub mod Threads
