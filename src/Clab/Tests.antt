-- ===== src/Clab/Tests.antt =====
-- The harness of clab/mini/part7_harness.c on the tree that part7.c documents.
use cso18_labs.Base.{◌*◌, ◌≡◌, [], arith}
use cso18_labs.Base.Run.{ok}
use cso18_labs.Clab.{main}
use cso18_labs.Clab.Reference.{reference, reference-IsTree}
use cso18_labs.Clab.Passes.{part7_harness_passes}

part7_harness_passes_example : main reference (λ n. 7 * n) 1 [] ≡ ok tt
part7_harness_passes_example =
    part7_harness_passes reference (λ t. t) reference-IsTree (λ n. 7 * n) 1 [] (omega arith)
