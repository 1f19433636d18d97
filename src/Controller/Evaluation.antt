-- ===== src/Controller/Evaluation.antt =====
-- The evaluation of the resources of a policy: `evaluateResources` of
-- pkg/controller/evaluate_policy_refactored.go, and `evaluatePolicyResourcesShared` of
-- pkg/controller/evaluate_policy_shared.go, the path without the evaluation service.
pub mod Counts
pub mod Plans
use zen_cleaner.Prelude.{
  ℕ, suc, ◌+◌, ◌%◌, String, Bool, List, [], ◌∷◌, ◌++◌, Option, none, some, ◌&&◌, eqb, insert,
  if◌then◌else◌,
}
use zen_cleaner.Unstructured.{Unstructured}
use zen_cleaner.Api.{ZenCleanerPolicySpec}
use zen_cleaner.Safety.{Reason, Verdict, allow, refuse, Gate, evaluate_object}
use zen_cleaner.Controller.Selectors.{AsSelector, matches_selectors}
use zen_cleaner.Controller.Expiry.{
  DeletionReason, Reading, meets, should_delete_by_ttl, should_delete,
}

-- What the surroundings answer during one evaluation: whether the context is cancelled, at the start
-- and at the resource with an index, and the readings of the clock for that resource.
pub record Surroundings : Type 0 where
  pub as_selector : AsSelector
  pub cancelled_at_start : Bool
  pub cancelled : ℕ → Bool
  pub readings : ℕ → Reading

-- The counters, the deletion list with its reasons by UID, and the refusals by reason.
pub record Plan : Type 0 where
  pub matched : ℕ
  pub pending : ℕ
  pub to_delete : List Unstructured
  pub reasons : List (String × DeletionReason)
  pub refusals : List (Reason × ℕ)

unfoldable pub empty_plan : Plan
empty_plan = record { matched = 0; pending = 0; to_delete = []; reasons = []; refusals = [] }

pub Reason-discrete : Discrete Reason
Reason-discrete = hlevel

-- `refusals[refusal]++`.
unfoldable pub count_refusal : Reason → List (Reason × ℕ) → List (Reason × ℕ)
count_refusal r [] = (r, 1) ∷ []
count_refusal r ((q, n) ∷ m) =
    let rest = count_refusal r m in
    elim (Reason-discrete q r) [ yes _ ↦ (q, n + 1) ∷ m | no _ ↦ (q, n) ∷ rest ]

unfoldable pub gate_verdict : Option Gate → Unstructured → ZenCleanerPolicySpec → Verdict
gate_verdict none resource spec = allow
gate_verdict (some g) resource spec = evaluate_object g (some resource) spec.behavior

add_refusal : Reason → Plan → Plan
add_refusal r p = record p { refusals = count_refusal r p.refusals }

add_pending : Plan → Plan
add_pending p = record p { pending = p.pending + 1 }

add_to_delete : Unstructured → DeletionReason → Plan → Plan
add_to_delete resource reason p = record p {
  to_delete = p.to_delete ++ resource ∷ [];
  reasons = insert resource.uid reason p.reasons;
}

decide_ttl : Unstructured → Bool × DeletionReason → Plan → Plan
unfolding add_pending add_to_delete
decide_ttl resource (due, reason) p = if due then add_to_delete resource reason p else add_pending p

consider_matched : Verdict → Reading → Unstructured → ZenCleanerPolicySpec → Plan → Plan
unfolding add_refusal add_pending decide_ttl
consider_matched (refuse r) reading resource spec p = add_refusal r p
consider_matched allow reading resource spec p =
    if meets resource spec.conditions
    then decide_ttl resource (should_delete_by_ttl reading resource spec.ttl) p
    else add_pending p

-- The body of the loop, for one resource.
consider : AsSelector → Option Gate → Reading → Unstructured → ZenCleanerPolicySpec → Plan → Plan
unfolding consider_matched
consider as_selector gate reading resource spec p =
    if matches_selectors as_selector resource spec.target_resource
    then consider_matched (gate_verdict gate resource spec) reading resource spec
        (record p { matched = p.matched + 1 })
    else p

unfoldable pub evaluate_from :
    Surroundings → Option Gate → ZenCleanerPolicySpec → ℕ → List Unstructured → Plan → Plan
unfolding consider
evaluate_from env gate spec i [] p = p
evaluate_from env gate spec i (resource ∷ more) p =
    let rest =
      evaluate_from env gate spec (suc i) more
        (consider env.as_selector gate (env.readings i) resource spec p) in
    if eqb (i % 100) 0 && env.cancelled i then p else rest

unfoldable pub evaluate_resources :
    Surroundings → Option Gate → ZenCleanerPolicySpec → List Unstructured → Plan
unfolding evaluate_from empty_plan
evaluate_resources env gate spec resources =
    if env.cancelled_at_start
    then empty_plan
    else evaluate_from env gate spec 0 resources empty_plan

-- The other path: no gate, and the conditions are part of `shouldDelete`.
consider_shared : AsSelector → Reading → Unstructured → ZenCleanerPolicySpec → Plan → Plan
unfolding decide_ttl
consider_shared as_selector reading resource spec p =
    if matches_selectors as_selector resource spec.target_resource
    then decide_ttl resource (should_delete reading resource spec)
        (record p { matched = p.matched + 1 })
    else p

evaluate_shared_from : Surroundings → ZenCleanerPolicySpec → ℕ → List Unstructured → Plan → Plan
unfolding consider_shared
evaluate_shared_from env spec i [] p = p
evaluate_shared_from env spec i (resource ∷ more) p =
    let rest =
      evaluate_shared_from env spec (suc i) more
        (consider_shared env.as_selector (env.readings i) resource spec p) in
    if eqb (i % 100) 0 && env.cancelled i then p else rest

unfoldable pub evaluate_policy_resources_shared :
    Surroundings → ZenCleanerPolicySpec → List Unstructured → Plan
unfolding evaluate_shared_from empty_plan
evaluate_policy_resources_shared env spec resources =
    evaluate_shared_from env spec 0 resources empty_plan
