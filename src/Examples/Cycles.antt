-- ===== src/Examples/Cycles.antt =====
-- An evaluation cycle on an example.
use zen_cleaner.Prelude.{◌-◌, ◌≡◌, refl, some, [], arith}
use zen_cleaner.Controller.Evaluation.Counts.{total}
use zen_cleaner.Controller.Batches.{resolve_batch_size}
use zen_cleaner.Controller.Cycle.{Cycle, evaluate_policy}
use zen_cleaner.Controller.Cycle.Counts.{EndsWithin, evaluate_policy-EndsWithin}
use zen_cleaner.Examples.{clean_jobs, service, objects}

evaluate_policy-EndsWithin_example :
    (cycle : Cycle) × (evaluate_policy service clean_jobs (some objects) [] ≡ some cycle)
    × EndsWithin (cycle.plan.matched - cycle.plan.pending - total cycle.plan.refusals) cycle.run
unfolding resolve_batch_size
evaluate_policy-EndsWithin_example =
    evaluate_policy-EndsWithin service clean_jobs objects [] 2 refl (omega arith)
