-- ===== src/Controller/Evaluation/Counts.antt =====
-- The counters of an evaluation add up, and the two paths agree.
use zen_cleaner.Prelude.{
  ℕ, suc, ◌+◌, ◌%◌, ◌≡◌, refl, inl, inr, Bool, true, false, ◌&&◌, Option, none, List, [], ◌∷◌,
  arith, eqb, Bool-cases, length, length-append,
}
use zen_cleaner.Unstructured.{Unstructured}
use zen_cleaner.Api.{ZenCleanerPolicySpec}
use zen_cleaner.Safety.{Reason, Gate, Verdict, allow, refuse}
use zen_cleaner.Controller.Selectors.{AsSelector}
use zen_cleaner.Controller.Expiry.{
  DeletionReason, Reading, meets, should_delete_by_ttl, should_delete,
}
use zen_cleaner.Controller.Evaluation.{
  Surroundings, Plan, empty_plan, Reason-discrete, count_refusal, gate_verdict, decide_ttl,
  consider_matched, consider, evaluate_from, evaluate_resources, consider_shared,
  evaluate_shared_from, evaluate_policy_resources_shared,
}

-- All refusals together.
abbrev pub total : List (Reason × ℕ) → ℕ
total [] = 0
total ((r, n) ∷ m) = n + total m

total-count_refusal : (r : Reason) (m : List (Reason × ℕ)) → total (count_refusal r m) ≡ total m + 1
unfolding count_refusal
total-count_refusal r [] = omega arith
total-count_refusal r ((q, n) ∷ m) =
    elim (Reason-discrete q r)
      as (λ d.
        total (elim d [ yes _ ↦ (q, n + 1) ∷ m | no _ ↦ (q, n) ∷ count_refusal r m ])
        ≡ n + total m + 1) [ yes _ ↦ omega arith | no _ ↦ omega (arith, total-count_refusal r m) ]

-- Every matched resource was refused by the gate, is pending, or is on the deletion list.
abbrev pub IsBalanced : Plan → Type 0
IsBalanced p = p.matched ≡ p.pending + total p.refusals + length p.to_delete

-- What a plan accounts for.
abbrev accounted : Plan → ℕ
accounted p = p.pending + total p.refusals + length p.to_delete

decide_ttl-accounted :
    (resource : Unstructured) (d : Bool × DeletionReason) (p : Plan)
    → (accounted (decide_ttl resource d p) ≡ accounted p + 1)
      × ((decide_ttl resource d p).matched ≡ p.matched)
unfolding decide_ttl
decide_ttl-accounted resource (true, reason) p =
    (omega (arith, length-append p.to_delete (resource ∷ [])), refl)
decide_ttl-accounted resource (false, reason) p = (omega arith, refl)

consider_matched-accounted :
    (v : Verdict) (reading : Reading) (resource : Unstructured) (spec : ZenCleanerPolicySpec)
    (p : Plan)
    → (accounted (consider_matched v reading resource spec p) ≡ accounted p + 1)
      × ((consider_matched v reading resource spec p).matched ≡ p.matched)
unfolding consider_matched
consider_matched-accounted (refuse r) reading resource spec p =
    (omega (arith, total-count_refusal r p.refusals), refl)
consider_matched-accounted allow reading resource spec p =
    elim (Bool-cases (meets resource spec.conditions)) [
      | inl e ↦
          rw e (decide_ttl-accounted resource (should_delete_by_ttl reading resource spec.ttl) p)
      | inr e ↦ rw e (omega arith, refl)
    ]

consider-IsBalanced :
    (as_selector : AsSelector) (gate : Option Gate) (reading : Reading) (resource : Unstructured)
    (spec : ZenCleanerPolicySpec) (p : Plan)
    → IsBalanced p
    → IsBalanced (consider as_selector gate reading resource spec p)
unfolding consider
consider-IsBalanced as_selector gate reading resource spec p h = ground (
  arith,
  consider_matched-accounted (gate_verdict gate resource spec) reading resource spec
      (record p { matched = p.matched + 1 }),
)

evaluate_from-IsBalanced :
    (env : Surroundings) (gate : Option Gate) (spec : ZenCleanerPolicySpec) (i : ℕ)
    (resources : List Unstructured) (p : Plan)
    → IsBalanced p
    → IsBalanced (evaluate_from env gate spec i resources p)
unfolding evaluate_from
evaluate_from-IsBalanced env gate spec i [] p h = h
evaluate_from-IsBalanced env gate spec i (resource ∷ more) p h =
    let next = consider env.as_selector gate (env.readings i) resource spec p in
    let ih =
      evaluate_from-IsBalanced env gate spec (suc i) more next
        (consider-IsBalanced env.as_selector gate (env.readings i) resource spec p h) in
    elim (Bool-cases (eqb (i % 100) 0 && env.cancelled i)) [ inl e ↦ rw e h | inr e ↦ rw e ih ]

-- After every evaluation, also one that is cancelled on the way, the matched resources are exactly
-- those refused by the gate (over all reasons), those pending and those on the deletion list.
pub evaluate_resources-IsBalanced :
    (env : Surroundings) (gate : Option Gate) (spec : ZenCleanerPolicySpec)
    (resources : List Unstructured)
    → IsBalanced (evaluate_resources env gate spec resources)
unfolding evaluate_resources
evaluate_resources-IsBalanced env gate spec resources = elim (Bool-cases env.cancelled_at_start) [
  | inl e ↦ rw e refl
  | inr e ↦ rw e (evaluate_from-IsBalanced env gate spec 0 resources empty_plan refl)
]

consider-none :
    (as_selector : AsSelector) (reading : Reading) (resource : Unstructured)
    (spec : ZenCleanerPolicySpec) (p : Plan)
    → consider as_selector none reading resource spec p
      ≡ consider_shared as_selector reading resource spec p
unfolding consider consider_shared gate_verdict should_delete
consider-none as_selector reading resource spec p = ground arith

evaluate_from-none :
    (env : Surroundings) (spec : ZenCleanerPolicySpec) (i : ℕ) (resources : List Unstructured)
    (p : Plan)
    → evaluate_from env none spec i resources p ≡ evaluate_shared_from env spec i resources p
unfolding evaluate_from evaluate_shared_from
evaluate_from-none env spec i [] p = refl
evaluate_from-none env spec i (resource ∷ more) p =
    let same = consider-none env.as_selector (env.readings i) resource spec p in
    rw (
      same,
      evaluate_from-none env spec (suc i) more
          (consider_shared env.as_selector (env.readings i) resource spec p),
    )

-- Where the service has no gate and the context is not cancelled at the start, the two evaluation
-- paths make the same plan: the same counters, the same deletion list, the same reasons.
pub evaluate_resources-none :
    (env : Surroundings) (spec : ZenCleanerPolicySpec) (resources : List Unstructured)
    → env.cancelled_at_start ≡ false
    → evaluate_resources env none spec resources
      ≡ evaluate_policy_resources_shared env spec resources
unfolding evaluate_resources evaluate_policy_resources_shared
evaluate_resources-none env spec resources h =
    simp (evaluate_resources, h) (evaluate_from-none env spec 0 resources empty_plan)
