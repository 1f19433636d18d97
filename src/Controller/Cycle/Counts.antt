-- ===== src/Controller/Cycle/Counts.antt =====
-- The counts of a cycle.
use zen_cleaner.Prelude.{
  ℕ, ◌+◌, ◌-◌, ◌≤◌, ◌<◌, ◌≡◌, refl, sym, ap, subst, ◌∙◌, inl, inr, Bool, Option, some, List, [],
  ◌∷◌, arith, Bool-cases, length, length-append,
}
use zen_cleaner.Prelude.Int.{pos}
use zen_cleaner.Unstructured.{Unstructured}
use zen_cleaner.Api.{BehaviorSpec, ZenCleanerPolicySpec}
use zen_cleaner.Safety.{Gate}
use zen_cleaner.Controller.Evaluation.{evaluate_resources}
use zen_cleaner.Controller.Evaluation.Counts.{total, evaluate_resources-IsBalanced}
use zen_cleaner.Controller.Deletion.{Log, Env, delete_batch}
use zen_cleaner.Controller.Deletion.Accounting.{delete_batch-outcomes}
use zen_cleaner.Controller.Receipt.{Digest, execute_with_receipt, observe_before, nothing_before}
use zen_cleaner.Controller.Batches.{
  Run, finished, BatchDeleter, resolve_batch_size, delete_resources_in_batches_shared,
}
use zen_cleaner.Controller.Batches.Partition.{
  concat, run_batches, IsPartition, delete_resources_in_batches-shared,
  delete_resources_in_batches_shared-IsPartition,
}
use zen_cleaner.Controller.Cycle.{
  delete_batch_with_receipt, Cycle, Service, delete_planned_list, evaluate_policy,
}

-- A run came to its end, with at most a number of deletions.
pub record EndsWithin (bound : ℕ) (run : Run) : Type 0 where
  pub deleted : ℕ
  pub log : Log
  pub result : run ≡ finished deleted log
  pub bounded : deleted ≤ bound

module _ (delete : BatchDeleter)
    (modest : (b : List Unstructured) (l : Log) → (delete b l).0.deleted ≤ length b) where
  run_batches-bounded :
      (batches : List (List Unstructured)) (deleted : ℕ) (log : Log)
      → (run_batches delete batches deleted log).0 ≤ deleted + length (concat batches)
  run_batches-bounded [] deleted log = omega arith
  run_batches-bounded (b ∷ more) deleted log = omega (
    arith,
    modest b log,
    length-append b (concat more),
    run_batches-bounded more (deleted + (delete b log).0.deleted) (delete b log).1,
  )

  IsPartition-EndsWithin :
      (done : Log → Bool) (size : ℕ) (resources : List Unstructured) (log : Log) (run : Run)
      → IsPartition done delete size resources 0 log run
      → EndsWithin (length resources) run
  IsPartition-EndsWithin done size resources log run p = record {
    deleted = (run_batches delete p.batches 0 log).0;
    log = (run_batches delete p.batches 0 log).1;
    result = p.result;
    bounded = omega (
      arith,
      run_batches-bounded p.batches 0 log,
      length-append (concat p.batches) p.rest,
      ap length p.covers,
    );
  }

delete_batch-modest :
    (env : Env) (gate : Option Gate) (behavior : BehaviorSpec) (b : List Unstructured) (l : Log)
    → (delete_batch env gate behavior b l).0.deleted ≤ length b
delete_batch-modest env gate behavior b l =
    omega (arith, (delete_batch-outcomes env gate behavior b l).0)

EndsWithin-mono : (m n : ℕ) (run : Run) → m ≤ n → EndsWithin m run → EndsWithin n run
EndsWithin-mono m n run h w = record {
  deleted = w.deleted;
  log = w.log;
  result = w.result;
  bounded = omega (arith, h, w.bounded);
}

delete_batch_with_receipt-modest :
    (env : Env) (digest : Digest) (gate : Option Gate) (behavior : BehaviorSpec)
    (b : List Unstructured) (l : Log)
    → (delete_batch_with_receipt env digest gate behavior b l).0.deleted ≤ length b
unfolding delete_batch_with_receipt execute_with_receipt
delete_batch_with_receipt-modest env digest gate behavior b l =
    let (before, log1) = observe_before env b nothing_before l in
    elim (Bool-cases behavior.dry_run) [
      | inl d ↦ simp d ((delete_batch-modest env gate behavior b l))
      | inr d ↦ simp d ((delete_batch-modest env gate behavior b log1))
    ]

delete_planned_list-EndsWithin :
    (s : Service) (behavior : BehaviorSpec) (planned : List Unstructured) (log : Log) (size : ℕ)
    → resolve_batch_size behavior s.batch_size ≡ pos size
    → 0 < size
    → EndsWithin (length planned) (delete_planned_list s behavior planned log)
unfolding delete_planned_list
delete_planned_list-EndsWithin s behavior [] log size e p = record {
  deleted = 0;
  log = log;
  result = refl;
  bounded = omega arith;
}
delete_planned_list-EndsWithin s behavior (r ∷ more) log size e p =
    let delete = delete_batch_with_receipt s.env s.digest s.gate behavior in
    let batch_size = resolve_batch_size behavior s.batch_size in
    let (same, nothing) =
      delete_resources_in_batches-shared s.env.done s.has_limiter delete batch_size (r ∷ more)
        log in
    let ended =
      IsPartition-EndsWithin delete
        (delete_batch_with_receipt-modest s.env s.digest s.gate behavior) s.env.done size (r ∷ more)
        log _
        (delete_resources_in_batches_shared-IsPartition s.env.done delete size (r ∷ more) log p) in
    elim (Bool-cases (s.env.done log)) [
      | inl c ↦ record { deleted = 0; log = log; result = nothing (inl c); bounded = omega arith }
      | inr c ↦ elim (Bool-cases s.has_limiter) [
        | inl h ↦
            subst (EndsWithin (length (r ∷ more)))
              (sym (
                same c h
                ∙ ap (λ z. delete_resources_in_batches_shared s.env.done delete z (r ∷ more) log)
                    e))
              ended
        | inr h ↦ record { deleted = 0; log = log; result = nothing (inr h); bounded = omega arith }
      ]
    ]

-- With a positive batch size, the cycle over a listed set of resources ends without a panic, and
-- deletes at most what it matched, less what it left pending and what the gate refused.
pub evaluate_policy-EndsWithin :
    (s : Service) (spec : ZenCleanerPolicySpec) (resources : List Unstructured) (log : Log)
    (size : ℕ)
    → resolve_batch_size spec.behavior s.batch_size ≡ pos size
    → 0 < size
    → (cycle : Cycle) × (evaluate_policy s spec (some resources) log ≡ some cycle)
      × EndsWithin (cycle.plan.matched - cycle.plan.pending - total cycle.plan.refusals) cycle.run
unfolding evaluate_policy
evaluate_policy-EndsWithin s spec resources log size e p =
    let plan = evaluate_resources s.surroundings s.gate spec resources in
    let run = delete_planned_list s spec.behavior plan.to_delete log in
    let balanced = evaluate_resources-IsBalanced s.surroundings s.gate spec resources in
    (
      record { plan = plan; run = run },
      refl,
      EndsWithin-mono (length plan.to_delete) (plan.matched - plan.pending - total plan.refusals)
          run (omega (arith, balanced))
          (delete_planned_list-EndsWithin s spec.behavior plan.to_delete log size e p),
    )
