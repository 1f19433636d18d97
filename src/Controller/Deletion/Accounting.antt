-- ===== src/Controller/Deletion/Accounting.antt =====
-- What a batch counts as deleted.
use zen_cleaner.Prelude.{
  ℕ, suc, ◌+◌, ◌≤◌, ◌≡◌, Bool, true, false, Option, none, some, List, [], ◌∷◌, arith, length,
}
use zen_cleaner.Unstructured.{Unstructured}
use zen_cleaner.Api.{BehaviorSpec}
use zen_cleaner.Safety.{Gate}
use zen_cleaner.Controller.Deletion.{
  Failure, waited, Log, Env, delete_resource_with_backoff, Tally, count_outcome, delete_one,
  delete_batch_from, delete_batch,
}

abbrev outcomes : Tally → ℕ
outcomes t = t.deleted + t.errors

count_outcome-outcomes :
    (dry_run : Bool) (resource : Unstructured) (outcome : Option (Option Failure)) (t : Tally)
    (log : Log)
    → (outcomes (count_outcome dry_run resource outcome t log).0 ≤ outcomes t + 1)
      × (dry_run ≡ false
          → outcomes (count_outcome dry_run resource outcome t log).0 ≡ outcomes t + 1)
      × (dry_run ≡ true → (count_outcome dry_run resource outcome t log).0.deleted ≡ t.deleted)
unfolding count_outcome
count_outcome-outcomes dry_run resource none t log = ground arith
count_outcome-outcomes dry_run resource (some (some e)) t log = ground arith
count_outcome-outcomes dry_run resource (some none) t log = ground arith

delete_one-outcomes :
    (env : Env) (gate : Option Gate) (behavior : BehaviorSpec) (resource : Unstructured) (t : Tally)
    (log : Log)
    → let u = (delete_one env gate behavior resource t log).0 in
      (outcomes u ≤ outcomes t + 1)
      × (behavior.dry_run ≡ false → outcomes u ≡ outcomes t + 1)
      × (behavior.dry_run ≡ true → u.deleted ≡ t.deleted)
unfolding delete_one
delete_one-outcomes env gate behavior resource t log =
    let outcome = delete_resource_with_backoff env gate behavior resource (waited ∷ log) in
    ground (arith, count_outcome-outcomes behavior.dry_run resource outcome.0 t outcome.1)

delete_batch_from-outcomes :
    (env : Env) (gate : Option Gate) (behavior : BehaviorSpec) (i : ℕ) (batch : List Unstructured)
    (t : Tally) (log : Log)
    → let u = (delete_batch_from env gate behavior i batch t log).0 in
      (outcomes u ≤ outcomes t + length batch) × (behavior.dry_run ≡ true → u.deleted ≡ t.deleted)
unfolding delete_batch_from
delete_batch_from-outcomes env gate behavior i [] t log = ground arith
delete_batch_from-outcomes env gate behavior i (resource ∷ more) t log =
    let one = delete_one env gate behavior resource t log in
    ground (
      arith,
      delete_one-outcomes env gate behavior resource t log,
      delete_batch_from-outcomes env gate behavior (suc i) more one.0 one.1,
    )

delete_batch_from-exact :
    (env : Env) (gate : Option Gate) (behavior : BehaviorSpec) (i : ℕ) (batch : List Unstructured)
    (t : Tally) (log : Log)
    → ((l : Log) → env.done l ≡ false)
    → behavior.dry_run ≡ false
    → outcomes (delete_batch_from env gate behavior i batch t log).0 ≡ outcomes t + length batch
unfolding delete_batch_from
delete_batch_from-exact env gate behavior i [] t log never d = omega arith
delete_batch_from-exact env gate behavior i (resource ∷ more) t log never d =
    let one = delete_one env gate behavior resource t log in
    ground (
      arith,
      never log,
      delete_one-outcomes env gate behavior resource t log,
      delete_batch_from-exact env gate behavior (suc i) more one.0 one.1 never d,
    )

-- A batch reports at most one deletion or error for each of its resources; it reports exactly one
-- for each where the context is never cancelled and the policy is no dry run. A dry run counts no
-- resource as deleted.
pub delete_batch-outcomes :
    (env : Env) (gate : Option Gate) (behavior : BehaviorSpec) (batch : List Unstructured)
    (log : Log)
    → let u = (delete_batch env gate behavior batch log).0 in
      (u.deleted + u.errors ≤ length batch)
      × (((l : Log) → env.done l ≡ false)
          → behavior.dry_run ≡ false
          → u.deleted + u.errors ≡ length batch)
      × (behavior.dry_run ≡ true → u.deleted ≡ 0)
unfolding delete_batch
delete_batch-outcomes env gate behavior batch log =
    let start : Tally = record { deleted = 0; errors = 0 } in
    let (bound, dry) = delete_batch_from-outcomes env gate behavior 0 batch start log in
    (
      omega arith,
      λ never d. omega (arith, delete_batch_from-exact env gate behavior 0 batch start log never d),
      dry,
    )
