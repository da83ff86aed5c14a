-- ===== src/Malloc/Speed/Agree.antt =====
-- `eval_mm_speed` of malloclab/mdriver.c compared with `eval_mm_util`.
use cso18_labs.Base.{ℕ, ◌≡◌, refl, ap, sym, ◌∙◌, List, [], ◌∷◌}
use cso18_labs.Malloc.Machine.{ok}
use cso18_labs.Malloc.Memlib.{mem_heapsize}
use cso18_labs.Malloc.Naive.{of_int}
use cso18_labs.Malloc.Driver.{
  Package, OpType, alloc_op, realloc_op, free_op, TraceOp, Driver, read_cell, write_cell, remember,
}
use cso18_labs.Malloc.Speed.{
  Util, nonnull, util_op, util_ops, start, eval_mm_util, speed_op, speed_ops, eval_mm_speed,
}
use cso18_labs.Malloc.Speed.Returns.{>>=-ok, ok_inj, remember_ok}

-- Two states of the driver on which the requests act alike.
pub record SameHeap (d e : Driver) : Type 0 where
  pub mem : d.mem ≡ e.mem
  pub blocks : d.blocks ≡ e.blocks

speed_op_lem :
    (mm : Package) (type : OpType) (op : TraceOp) (u v : Util) (d : Driver)
    → util_op mm type op u ≡ ok v
    → SameHeap u.driver d
    → (e : Driver) × (speed_op mm type op d ≡ ok e) × SameHeap v.driver e
unfolding util_op speed_op
speed_op_lem mm alloc_op op u v d h same =
    let ((p, m), called, h1) = >>=-ok (mm.malloc (of_int op.size) u.driver.mem) _ h in
    let (_, checked, h2) = >>=-ok (nonnull p) _ h1 in
    let (w, stored, h3) =
      >>=-ok (remember op.index p (of_int op.size) (record u.driver { mem = m })) _ h2 in
    let (writes, _, keeps) =
      remember_ok op.index p (of_int op.size) (record u.driver { mem = m }) w stored in
    let f : w ≡ v.driver = ap (λ (t : Util). t.driver) (ok_inj h3) in
    let calls : mm.malloc (of_int op.size) d.mem ≡ ok (p, m) =
      ap (mm.malloc (of_int op.size)) (sym same.mem) ∙ called in
    let stores : write_cell d.blocks op.index p ≡ ok w.blocks =
      ap (λ t. write_cell t op.index p) (sym same.blocks) ∙ writes in
    (
      record d { mem = m; blocks = w.blocks },
      rw (calls, checked, stores) refl,
      record {
        mem = ap (λ (t : Driver). t.mem) (sym f) ∙ keeps;
        blocks = ap (λ (t : Driver). t.blocks) (sym f);
      },
    )
speed_op_lem mm realloc_op op u v d h same =
    let (old, _, h0) = >>=-ok (read_cell u.driver.block_sizes op.index) _ h in
    let (oldp, read, h1) = >>=-ok (read_cell u.driver.blocks op.index) _ h0 in
    let ((p, m), called, h2) = >>=-ok (mm.realloc oldp (of_int op.size) u.driver.mem) _ h1 in
    let (_, checked, h3) = >>=-ok (nonnull p) _ h2 in
    let (w, stored, h4) =
      >>=-ok (remember op.index p (of_int op.size) (record u.driver { mem = m })) _ h3 in
    let (writes, _, keeps) =
      remember_ok op.index p (of_int op.size) (record u.driver { mem = m }) w stored in
    let f : w ≡ v.driver = ap (λ (t : Util). t.driver) (ok_inj h4) in
    let reads : read_cell d.blocks op.index ≡ ok oldp =
      ap (λ t. read_cell t op.index) (sym same.blocks) ∙ read in
    let calls : mm.realloc oldp (of_int op.size) d.mem ≡ ok (p, m) =
      ap (mm.realloc oldp (of_int op.size)) (sym same.mem) ∙ called in
    let stores : write_cell d.blocks op.index p ≡ ok w.blocks =
      ap (λ t. write_cell t op.index p) (sym same.blocks) ∙ writes in
    (
      record d { mem = m; blocks = w.blocks },
      rw (reads, calls, checked, stores) refl,
      record {
        mem = ap (λ (t : Driver). t.mem) (sym f) ∙ keeps;
        blocks = ap (λ (t : Driver). t.blocks) (sym f);
      },
    )
speed_op_lem mm free_op op u v d h same =
    let (size, _, h0) = >>=-ok (read_cell u.driver.block_sizes op.index) _ h in
    let (p, read, h1) = >>=-ok (read_cell u.driver.blocks op.index) _ h0 in
    let (m, called, h2) = >>=-ok (mm.free p u.driver.mem) _ h1 in
    let f : record u.driver { mem = m } ≡ v.driver = ap (λ (t : Util). t.driver) (ok_inj h2) in
    let reads : read_cell d.blocks op.index ≡ ok p =
      ap (λ t. read_cell t op.index) (sym same.blocks) ∙ read in
    let calls : mm.free p d.mem ≡ ok m = ap (mm.free p) (sym same.mem) ∙ called in
    (
      record d { mem = m },
      rw (reads, calls) refl,
      record {
        mem = ap (λ (t : Driver). t.mem) (sym f);
        blocks = ap (λ (t : Driver). t.blocks) (sym f) ∙ same.blocks;
      },
    )

speed_ops_lem :
    (mm : Package) (ops : List TraceOp) (u v : Util) (d : Driver)
    → util_ops mm ops u ≡ ok v
    → SameHeap u.driver d
    → (e : Driver) × (speed_ops mm ops d ≡ ok e) × SameHeap v.driver e
unfolding util_ops speed_ops
speed_ops_lem mm [] u v d h same =
    let f : u ≡ v = ok_inj h in
    (
      d,
      refl,
      record {
        mem = ap (λ (t : Util). t.driver.mem) (sym f) ∙ same.mem;
        blocks = ap (λ (t : Util). t.driver.blocks) (sym f) ∙ same.blocks;
      },
    )
speed_ops_lem mm (op ∷ ops) u v d h same =
    let (w, one, rest) = >>=-ok (util_op mm op.type op u) _ h in
    let (mid, first, alike) = speed_op_lem mm op.type op u w d one same in
    let (e, runs, last) = speed_ops_lem mm ops w v mid rest alike in (e, rw first runs, last)

-- Where `eval_mm_util` returns, `eval_mm_speed` returns too, and leaves the heap and the array of
-- blocks that `eval_mm_util` leaves; the heap size by which the latter divides is that of this heap.
pub eval_mm_speed_lem :
    (mm : Package) (ops : List TraceOp) (d d1 : Driver) (most heap : ℕ)
    → eval_mm_util mm ops d ≡ ok (most, heap, d1)
    → (e : Driver) × (eval_mm_speed mm ops d ≡ ok e) × SameHeap d1 e × (heap ≡ mem_heapsize e.mem)
unfolding eval_mm_util eval_mm_speed
eval_mm_speed_lem mm ops d d1 most heap h =
    let (s, starts, h1) = >>=-ok (start mm d) _ h in
    let (u, runs, h2) =
      >>=-ok (util_ops mm ops (record { driver = s; total_size = 0; max_total_size = 0 })) _ h1 in
    let f : (u.max_total_size, mem_heapsize u.driver.mem, u.driver) ≡ (most, heap, d1) =
      ok_inj h2 in
    let (e, speeds, same) =
      speed_ops_lem mm ops (record { driver = s; total_size = 0; max_total_size = 0 }) u s runs
        (record { mem = refl; blocks = refl }) in
    (
      e,
      rw starts speeds,
      record {
        mem = ap (λ (t : ℕ × ℕ × Driver). t.2.mem) (sym f) ∙ same.mem;
        blocks = ap (λ (t : ℕ × ℕ × Driver). t.2.blocks) (sym f) ∙ same.blocks;
      },
      ap (λ (t : ℕ × ℕ × Driver). t.1) (sym f) ∙ ap mem_heapsize same.mem,
    )
