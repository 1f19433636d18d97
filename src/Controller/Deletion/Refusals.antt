-- ===== src/Controller/Deletion/Refusals.antt =====
-- What a batch reports where the safety gate refuses its resources.
use zen_cleaner.Prelude.{
  ℕ, suc, ◌+◌, ◌%◌, ◌≡◌, refl, sym, subst, false, ◌&&◌, Option, none, some, List, [], ◌∷◌, arith,
  eqb, if◌then◌else◌, length, All,
}
use zen_cleaner.Prelude.{subst}
use zen_cleaner.Unstructured.{Unstructured}
use zen_cleaner.Api.{BehaviorSpec}
use zen_cleaner.Safety.{Reason, refuse, Gate}
use zen_cleaner.Backoff.{Backoff, Floats, default_config, new_backoff, is_exhausted}
use zen_cleaner.Controller.Deletion.Attempts.{sent}
use zen_cleaner.Controller.Deletion.{
  ApiError, Failure, waited, refused, reported, Log, Env, verdict, perform_allowed,
  perform_resource_deletion, delete_resource, after_attempt, follow_attempt, retry_loop,
  delete_resource_with_backoff, Tally, count_outcome, delete_one, delete_batch_from, delete_batch,
}

-- The gate refuses every resource of a list.
abbrev pub AllRefused : Option Gate → BehaviorSpec → List Unstructured → Type 0
AllRefused gate behavior = All (λ r. (reason : Reason) × (verdict gate r behavior ≡ refuse reason))

-- No limiter error, and no cancellation.
pub record IsCalm (env : Env) : Type 0 where
  pub waits : (l : Log) → env.wait l ≡ false
  pub goes_on : (l : Log) → env.done l ≡ false

delete_resource-refused :
    (env : Env) (gate : Option Gate) (behavior : BehaviorSpec) (resource : Unstructured)
    (reason : Reason) (log : Log)
    → env.wait log ≡ false
    → behavior.dry_run ≡ false
    → verdict gate resource behavior ≡ refuse reason
    → delete_resource env gate behavior resource log
      ≡ (none, refused reason resource ∷ waited ∷ log)
unfolding delete_resource perform_resource_deletion perform_allowed
delete_resource-refused env gate behavior resource reason log w d v = simp (w, d, v)

retry_loop_once :
    (env : Env) (try : Log → Option Failure × Log) (fuel : ℕ) (b : Backoff) (last : Option ApiError)
    (log log' : Log)
    → is_exhausted b ≡ false
    → env.done log ≡ false
    → try log ≡ (none, log')
    → retry_loop env try (suc fuel) b last log ≡ (some none, log')
unfolding retry_loop follow_attempt after_attempt
retry_loop_once env try fuel b last log log' e d t = simp (e, d, t)

default-fresh : (floats : Floats) → is_exhausted (new_backoff (default_config floats)) ≡ false
unfolding is_exhausted new_backoff default_config
default-fresh floats = refl

module _ (env : Env) (gate : Option Gate) (behavior : BehaviorSpec) where
  delete_one-refused :
      (resource : Unstructured) (reason : Reason) (t : Tally) (log : Log)
      → IsCalm env
      → behavior.dry_run ≡ false
      → verdict gate resource behavior ≡ refuse reason
      → delete_one env gate behavior resource t log ≡ (
        record t { deleted = t.deleted + 1 },
        reported resource ∷ refused reason resource ∷ waited ∷ waited ∷ log,
      )
  unfolding delete_one delete_resource_with_backoff count_outcome
  delete_one-refused resource reason t log calm d v =
      let refusal =
        delete_resource-refused env gate behavior resource reason (waited ∷ log) (calm.waits _) d
          v in
      let once =
        retry_loop_once env (delete_resource env gate behavior resource) 5 _ none (waited ∷ log) _
          (default-fresh env.floats) (calm.goes_on _) refusal in
      simp (calm.waits log, once, d)

  delete_batch_from-refused :
      (i : ℕ) (batch : List Unstructured) (t : Tally) (log : Log)
      → IsCalm env
      → behavior.dry_run ≡ false
      → AllRefused gate behavior batch
      → let u = delete_batch_from env gate behavior i batch t log in
        (u.0.deleted ≡ t.deleted + length batch) × (u.0.errors ≡ t.errors) × (sent u.1 ≡ sent log)
  unfolding delete_batch_from
  delete_batch_from-refused i [] t log calm d refusals = (omega arith, refl, refl)
  delete_batch_from-refused i (resource ∷ more) t log calm d ((reason, v), refusals) =
      let one = delete_one-refused resource reason t log calm d v in
      let t' = record t { deleted = t.deleted + 1 } in
      let rest =
        delete_batch_from-refused (suc i) more t'
          (reported resource ∷ refused reason resource ∷ waited ∷ waited ∷ log) calm d refusals in
      subst
        (λ o.
          let u =
            if eqb (i % 50) 0 && env.done log
            then (t, log)
            else delete_batch_from env gate behavior (suc i) more o.0 o.1 in
          (u.0.deleted ≡ t.deleted + suc (length more))
          × (u.0.errors ≡ t.errors)
          × (sent u.1 ≡ sent log))
        (sym one) (ground (arith, calm.goes_on log, rest))

  -- Where the gate refuses every resource of a batch, and neither the limiter nor the context stops
  -- it, the batch counts every one as deleted and no error, and sends no DELETE.
  pub delete_batch-refused :
      (batch : List Unstructured) (log : Log)
      → IsCalm env
      → behavior.dry_run ≡ false
      → AllRefused gate behavior batch
      → let u = delete_batch env gate behavior batch log in
        (u.0.deleted ≡ length batch) × (u.0.errors ≡ 0) × (sent u.1 ≡ sent log)
  unfolding delete_batch
  delete_batch-refused batch log calm d refusals = ground (
    arith,
    delete_batch_from-refused 0 batch (record { deleted = 0; errors = 0 }) log calm d refusals,
  )
