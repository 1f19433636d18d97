-- ===== src/Controller/Reconcile/Lifecycle.antt =====
-- What the reconcile loop remembers of policies over a sequence of reconciles: the map of their names
-- to their UIDs, as a function of the names.
use zen_cleaner.Prelude.{
  String, ◌≡◌, refl, ap, subst, ◌∙◌, inl, inr, Bool, true, false, not, ◌&&◌, Option, none, some,
  List, [], ◌∷◌, ◌==◌, if◌then◌else◌, Bool-cases, Option-cases, lookup,
}
use mathlib.Core.Path.{fun_ext}
use zen_cleaner.Api.{ZenCleanerPolicy}
use zen_cleaner.Controller.Tracking.{Tracked, track_policy, cleanup_policy_resources}
use zen_cleaner.Controller.Tracking.Laws.{
  cleanup_policy_resources-policy_uids, track_policy-policy_uids,
}
use zen_cleaner.Controller.Integrity.{IntegrityVerdict}
use zen_cleaner.Controller.Reconcile.{
  Fetched, absent, fetch_failed, present, RuntimeError, EvaluationError, target_capability,
  evaluation_failed, State, Evaluator, Reconciler, runtime_error, write_condition, after_evaluation,
  track, run_policy, verdict, refused, receipt_drift, reconcile_valid, reconcile_checked, reconcile,
}

-- The UIDs by name.
abbrev pub Names : Type 0
Names = String → Option String

unfoldable pub names_of : State → Names
names_of s nn = lookup nn s.tracked.policy_uids

unfoldable pub set_name : String → Option String → Names → Names
set_name nn uid names n = if nn == n then uid else names n

abbrev is_clear : Option RuntimeError → Bool
is_clear none = true
is_clear (some e) = false

-- A policy that passes the runtime validation and the integrity overlay is remembered.
unfoldable pub is_tracked : Reconciler → ZenCleanerPolicy → Bool
is_tracked r policy =
    is_clear (runtime_error r.formats r.safety_gate policy.spec) && not (refused (verdict r policy))

-- The abstract reconcile.
unfoldable pub step_names : Reconciler → String → Fetched → Names → Names
step_names r nn absent names = set_name nn none names
step_names r nn fetch_failed names = names
step_names r nn (present policy) names =
    if is_tracked r policy then set_name nn (some policy.uid) names else names

-- The names and what the API server answers for them, in the order of the reconciles.
abbrev pub Schedule : Type 0
Schedule = List (String × Fetched)

abbrev pub reconcile_all : Reconciler → Evaluator → Schedule → State → State
reconcile_all r evaluator [] s = s
reconcile_all r evaluator ((nn, fetched) ∷ more) s =
    reconcile_all r evaluator more (reconcile r evaluator nn fetched s).1

abbrev pub step_all : Reconciler → Schedule → Names → Names
step_all r [] names = names
step_all r ((nn, fetched) ∷ more) names = step_all r more (step_names r nn fetched names)

-- The states agree on what is tracked by name.
abbrev SameNames : State → State → Type 0
SameNames s t =
    (t.tracked.policy_uids ≡ s.tracked.policy_uids)
    × (t.tracked.policy_specs ≡ s.tracked.policy_specs)

receipt_drift-tracked :
    (policy : ZenCleanerPolicy) (v : Option IntegrityVerdict) (s : State)
    → (receipt_drift policy v s).tracked ≡ s.tracked
unfolding receipt_drift write_condition
receipt_drift-tracked policy none s = refl
receipt_drift-tracked policy (some v) s = refl

module _ (r : Reconciler) (evaluator : Evaluator) (nn : String) where
  -- What a reconcile leaves tracked by name: that of the tracking, once it runs the policy.
  after_evaluation-state :
      (policy : ZenCleanerPolicy) (e : Option EvaluationError) (t : State)
      → (after_evaluation r policy (e, t)).1 ≡ t
  unfolding after_evaluation
  after_evaluation-state policy none t = refl
  after_evaluation-state policy (some (target_capability e)) t = refl
  after_evaluation-state policy (some evaluation_failed) t = refl

  run_policy-SameNames :
      (policy : ZenCleanerPolicy) (s : State)
      → SameNames (track nn policy s) (run_policy r evaluator nn policy s).1
  unfolding run_policy
  run_policy-SameNames policy s = elim (Bool-cases policy.spec.paused) [
    | inl p ↦ simp p (refl, refl)
    | inr p ↦
        let t = track nn policy s in
        let (e, u) = evaluator.run_evaluation policy t in
        simp (p, after_evaluation-state policy e u)
          (evaluator.keeps_uids policy t, evaluator.keeps_specs policy t)
  ]

  unfoldable pub tracked_after : Fetched → Tracked → Tracked
  tracked_after absent t = cleanup_policy_resources nn t
  tracked_after fetch_failed t = t
  tracked_after (present policy) t = if is_tracked r policy then track_policy nn policy t else t

  abbrev pub Leaves : State → Tracked → Type 0
  Leaves s t = (s.tracked.policy_uids ≡ t.policy_uids) × (s.tracked.policy_specs ≡ t.policy_specs)

  run_policy-Leaves :
      (policy : ZenCleanerPolicy) (s : State) (t : Tracked)
      → s.tracked ≡ t
      → Leaves (run_policy r evaluator nn policy s).1 (track_policy nn policy t)
  unfolding track
  run_policy-Leaves policy s t e =
      subst (λ k. Leaves (run_policy r evaluator nn policy s).1 (track_policy nn policy k)) e
        (run_policy-SameNames policy s)

  reconcile_valid-Leaves :
      (policy : ZenCleanerPolicy) (s : State)
      → Leaves
          (reconcile_valid r evaluator nn policy s).1
          (if not (refused (verdict r policy)) then track_policy nn policy s.tracked else s.tracked)
  unfolding reconcile_valid write_condition
  reconcile_valid-Leaves policy s = elim (Bool-cases (refused (verdict r policy))) [
    | inl h ↦ simp h (refl, refl)
    | inr h ↦ simp h (
        run_policy-Leaves policy (receipt_drift policy (verdict r policy) s) s.tracked
          (receipt_drift-tracked policy (verdict r policy) s))
  ]

  pub reconcile-Leaves :
      (fetched : Fetched) (s : State)
      → Leaves (reconcile r evaluator nn fetched s).1 (tracked_after fetched s.tracked)
  unfolding reconcile reconcile_checked tracked_after is_tracked write_condition
  reconcile-Leaves absent s = (refl, refl)
  reconcile-Leaves fetch_failed s = (refl, refl)
  reconcile-Leaves (present policy) s =
      elim (Option-cases (runtime_error r.formats r.safety_gate policy.spec)) [
        | inl e ↦ simp e (reconcile_valid-Leaves policy s)
        | inr (x, e) ↦ simp e (refl, refl)
      ]

  tracked_after-names :
      (fetched : Fetched) (t : Tracked) (n : String)
      → lookup n (tracked_after fetched t).policy_uids
        ≡ step_names r nn fetched (λ k. lookup k t.policy_uids) n
  unfolding tracked_after step_names set_name
  tracked_after-names absent t n = cleanup_policy_resources-policy_uids nn t n
  tracked_after-names fetch_failed t n = refl
  tracked_after-names (present policy) t n = elim (Bool-cases (is_tracked r policy)) [
    | inl h ↦ simp h (track_policy-policy_uids nn t policy n)
    | inr h ↦ simp h refl
  ]

  pub reconcile-step_names :
      (fetched : Fetched) (s : State)
      → names_of (reconcile r evaluator nn fetched s).1 ≡ step_names r nn fetched (names_of s)
  unfolding names_of
  reconcile-step_names fetched s = fun_ext (λ n.
      ap (λ m. lookup n m) (reconcile-Leaves fetched s).0 ∙ tracked_after-names fetched s.tracked n)

-- Over any sequence of reconciles, what is remembered of the names is the abstract map: a policy that
-- passes the runtime validation and the integrity overlay sets its name to its UID, an absent policy
-- clears its name, and any other reconcile changes nothing.
pub reconcile_all-step_all :
    (r : Reconciler) (evaluator : Evaluator) (schedule : Schedule) (s : State)
    → names_of (reconcile_all r evaluator schedule s) ≡ step_all r schedule (names_of s)
reconcile_all-step_all r evaluator [] s = refl
reconcile_all-step_all r evaluator ((nn, fetched) ∷ more) s =
    reconcile_all-step_all r evaluator more (reconcile r evaluator nn fetched s).1
    ∙ ap (step_all r more) (reconcile-step_names r evaluator nn fetched s)
