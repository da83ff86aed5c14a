-- ===== src/Malloc/Speed/Count.antt =====
-- What `eval_mm_util` of malloclab/mdriver.c counts does not depend on the allocator.
use cso18_labs.Base.{ℕ, ◌%◌, ◌^◌, ◌≡◌, ap, sym, ◌∙◌, Option, List, [], ◌∷◌, if◌then◌else◌}
use cso18_labs.Malloc.Machine.{Run, ok, ◌>>=◌}
use cso18_labs.Malloc.Naive.{of_int}
use cso18_labs.Malloc.Driver.{
  Package, OpType, alloc_op, realloc_op, free_op, TraceOp, Driver, read_cell, write_cell, remember,
}
use cso18_labs.Malloc.Speed.{
  Util, int_add, int_sub, int_gt, nonnull, util_op, util_ops, start, eval_mm_util,
}
use cso18_labs.Malloc.Speed.Returns.{>>=-ok, ok_inj, remember_ok, start_ok}

-- What `eval_mm_util` counts, without an allocator: the recorded sizes and the two totals.
pub record Count : Type 0 where
  pub sizes : List (Option ℕ)
  pub total : ℕ
  pub most : ℕ

abbrev count_of : Util → Count
count_of u = record { sizes = u.driver.block_sizes; total = u.total_size; most = u.max_total_size }

abbrev pub raise : ℕ → List (Option ℕ) → Count → Count
raise total sizes c = record {
  sizes = sizes;
  total = total;
  most = if int_gt total c.most then total else c.most;
}

unfoldable pub count_op : OpType → TraceOp → Count → Run Count
count_op alloc_op op c =
    write_cell c.sizes op.index (of_int op.size) >>= λ s. ok (raise (int_add c.total op.size) s c)
count_op realloc_op op c = read_cell c.sizes op.index >>= λ old.
    write_cell c.sizes op.index (of_int op.size) >>= λ s.
    ok (raise (int_add c.total (int_sub op.size (old % 2 ^ 32))) s c)
count_op free_op op c = read_cell c.sizes op.index >>= λ size.
    ok (record { sizes = c.sizes; total = int_sub c.total (size % 2 ^ 32); most = c.most })

count_op_lem :
    (mm : Package) (type : OpType) (op : TraceOp) (u v : Util)
    → util_op mm type op u ≡ ok v
    → count_op type op (count_of u) ≡ ok (count_of v)
unfolding util_op count_op
count_op_lem mm alloc_op op u v h =
    let ((p, m), _, h1) = >>=-ok (mm.malloc (of_int op.size) u.driver.mem) _ h in
    let (_, _, h2) = >>=-ok (nonnull p) _ h1 in
    let (d, stored, h3) =
      >>=-ok (remember op.index p (of_int op.size) (record u.driver { mem = m })) _ h2 in
    let (_, sizes, _) =
      remember_ok op.index p (of_int op.size) (record u.driver { mem = m }) d stored in
    rw sizes (ap (λ t. ok (count_of t)) (ok_inj h3))
count_op_lem mm realloc_op op u v h =
    let (old, reads, h0) = >>=-ok (read_cell u.driver.block_sizes op.index) _ h in
    let (oldp, _, h1) = >>=-ok (read_cell u.driver.blocks op.index) _ h0 in
    let ((p, m), _, h2) = >>=-ok (mm.realloc oldp (of_int op.size) u.driver.mem) _ h1 in
    let (_, _, h3) = >>=-ok (nonnull p) _ h2 in
    let (d, stored, h4) =
      >>=-ok (remember op.index p (of_int op.size) (record u.driver { mem = m })) _ h3 in
    let (_, sizes, _) =
      remember_ok op.index p (of_int op.size) (record u.driver { mem = m }) d stored in
    rw (reads, sizes) (ap (λ t. ok (count_of t)) (ok_inj h4))
count_op_lem mm free_op op u v h =
    let (size, reads, h0) = >>=-ok (read_cell u.driver.block_sizes op.index) _ h in
    let (p, _, h1) = >>=-ok (read_cell u.driver.blocks op.index) _ h0 in
    let (m, _, h2) = >>=-ok (mm.free p u.driver.mem) _ h1 in
    rw reads (ap (λ t. ok (count_of t)) (ok_inj h2))

unfoldable pub count_ops : List TraceOp → Count → Run Count
count_ops [] c = ok c
count_ops (op ∷ ops) c = count_op op.type op c >>= λ c. count_ops ops c

count_ops_lem :
    (mm : Package) (ops : List TraceOp) (u v : Util)
    → util_ops mm ops u ≡ ok v
    → count_ops ops (count_of u) ≡ ok (count_of v)
unfolding util_ops count_ops
count_ops_lem mm [] u v h = ap (λ t. ok (count_of t)) (ok_inj h)
count_ops_lem mm (op ∷ ops) u v h =
    let (w, one, rest) = >>=-ok (util_op mm op.type op u) _ h in
    rw (count_op_lem mm op.type op u w one) (count_ops_lem mm ops w v rest)

abbrev pub no_count : Driver → Count
no_count d = record { sizes = d.block_sizes; total = 0; most = 0 }

pub high_water :
    (mm : Package) (ops : List TraceOp) (d e : Driver) (most heap : ℕ)
    → eval_mm_util mm ops d ≡ ok (most, heap, e)
    → (c : Count) × (count_ops ops (no_count d) ≡ ok c) × (c.most ≡ most)
unfolding eval_mm_util
high_water mm ops d e most heap h =
    let (d1, starts, h1) = >>=-ok (start mm d) _ h in
    let (u, runs, h2) =
      >>=-ok (util_ops mm ops (record { driver = d1; total_size = 0; max_total_size = 0 })) _ h1 in
    let same = (start_ok mm d d1 starts).0 in
    (
      count_of u,
      ap (λ s. count_ops ops (record { sizes = s; total = 0; most = 0 })) (sym same)
          ∙ count_ops_lem mm ops (record { driver = d1; total_size = 0; max_total_size = 0 }) u
              runs,
      ap (λ (t : ℕ × ℕ × Driver). t.0) (ok_inj h2),
    )
