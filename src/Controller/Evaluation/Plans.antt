-- ===== src/Controller/Evaluation/Plans.antt =====
-- What is on the deletion list of an evaluation.
use zen_cleaner.Prelude.{
  ℕ, suc, ◌+◌, ◌%◌, ◌≡◌, refl, ◌⊎◌, inl, inr, Bool, true, false, ◌&&◌, Option, some, List, [], ◌∷◌,
  ◌++◌, arith, eqb, if◌then◌else◌, Bool-cases, length, All, Any, All-append, Any-append_left,
  Any-append_right, All-map,
}
use mathlib.Core.Path.{subst}
use native.Mathlib.Nat.{add-zero}
use zen_cleaner.Prelude.Int.{◌≤ℤ◌}
use zen_cleaner.Unstructured.{Unstructured}
use zen_cleaner.Api.{ConditionsSpec, ZenCleanerPolicySpec}
use zen_cleaner.Safety.{Config, Gate, allow, new_gate}
use zen_cleaner.Safety.Laws.{IsDeletable, evaluate_object-allow_iff}
use zen_cleaner.Controller.Conditions.Laws.{Meets, meets_conditions_iff}
use zen_cleaner.Controller.Selectors.{AsSelector, matches_selectors}
use zen_cleaner.Controller.Selectors.Laws.{Selects, matches_selectors_iff}
use zen_cleaner.Controller.Expiry.{DeletionReason, Reading, meets, should_delete_by_ttl}
use zen_cleaner.Controller.Expiry.Laws.{IsDue, should_delete_by_ttl-IsDue}
use zen_cleaner.Controller.Evaluation.{
  Surroundings, Plan, empty_plan, gate_verdict, decide_ttl, consider_matched, consider,
  evaluate_from, evaluate_resources,
}

-- The four tests that put a resource on the deletion list.
record Passes (as_selector : AsSelector) (gate : Option Gate) (reading : Reading)
    (spec : ZenCleanerPolicySpec) (resource : Unstructured) : Type 0 where
  selected : matches_selectors as_selector resource spec.target_resource ≡ true
  allowed : gate_verdict gate resource spec ≡ allow
  met : meets resource spec.conditions ≡ true
  due : (should_delete_by_ttl reading resource spec.ttl).0 ≡ true

decide_ttl-to_delete :
    (resource : Unstructured) (d : Bool × DeletionReason) (p : Plan)
    → (decide_ttl resource d p).to_delete
      ≡ (if d.0 then p.to_delete ++ resource ∷ [] else p.to_delete)
unfolding decide_ttl
decide_ttl-to_delete resource (true, reason) p = refl
decide_ttl-to_delete resource (false, reason) p = refl

and_false : (b : Bool) → (b && false) ≡ false
and_false b = elim b as (λ b. (b && false) ≡ false) [ true ↦ refl | false ↦ refl ]

zero-add_lem : (n : ℕ) → 0 + n ≡ n
zero-add_lem n = omega arith

add-suc_lem {ℓ} : {A : Type ℓ} (i : ℕ) (xs : List A) → i + suc (length xs) ≡ suc i + length xs
add-suc_lem i xs = omega arith

module _ (env : Surroundings) (gate : Option Gate) (spec : ZenCleanerPolicySpec) where
  -- Considering a resource leaves the list alone, or puts on it a resource that passes.
  consider_cases :
      (reading : Reading) (resource : Unstructured) (p : Plan)
      → let q = consider env.as_selector gate reading resource spec p in
        (q.to_delete ≡ p.to_delete)
        ⊎ ((q.to_delete ≡ p.to_delete ++ resource ∷ [])
            × Passes env.as_selector gate reading spec resource)
  unfolding consider consider_matched
  consider_cases reading resource p = ground (
    arith,
    decide_ttl-to_delete resource (should_delete_by_ttl reading resource spec.ttl)
        (record p { matched = p.matched + 1 }),
  )

  -- A resource that passes is put on the list.
  consider_passing :
      (reading : Reading) (resource : Unstructured) (p : Plan)
      → Passes env.as_selector gate reading spec resource
      → (consider env.as_selector gate reading resource spec p).to_delete
        ≡ p.to_delete ++ resource ∷ []
  unfolding consider consider_matched
  consider_passing reading resource p h = ground (
    arith,
    decide_ttl-to_delete resource (should_delete_by_ttl reading resource spec.ttl)
        (record p { matched = p.matched + 1 }),
  )

  abbrev PassesSometime : Unstructured → Type 0
  PassesSometime resource = (i : ℕ) × Passes env.as_selector gate (env.readings i) spec resource

  evaluate_from_sound :
      (i : ℕ) (resources : List Unstructured) (p : Plan)
      → All PassesSometime p.to_delete
      → All PassesSometime (evaluate_from env gate spec i resources p).to_delete
  unfolding evaluate_from
  evaluate_from_sound i [] p h = h
  evaluate_from_sound i (resource ∷ more) p h =
      let next = consider env.as_selector gate (env.readings i) resource spec p in
      let kept : All PassesSometime next.to_delete =
        elim (consider_cases (env.readings i) resource p) [
          | inl e ↦ rw e h
          | inr (e, passes) ↦
              rw e (All-append PassesSometime p.to_delete (resource ∷ []) h ((i, passes), tt))
        ] in
      elim (Bool-cases (eqb (i % 100) 0 && env.cancelled i)) [
        | inl e ↦ rw e h
        | inr e ↦ rw e (evaluate_from_sound (suc i) more next kept)
      ]

  -- A resource on the list stays there.
  evaluate_from-keeps :
      (i : ℕ) (resources : List Unstructured) (p : Plan) (resource : Unstructured)
      → Any (λ r. r ≡ resource) p.to_delete
      → Any (λ r. r ≡ resource) (evaluate_from env gate spec i resources p).to_delete
  unfolding evaluate_from
  evaluate_from-keeps i [] p resource h = h
  evaluate_from-keeps i (r ∷ more) p resource h =
      let next = consider env.as_selector gate (env.readings i) r spec p in
      let kept : Any (λ r. r ≡ resource) next.to_delete =
        elim (consider_cases (env.readings i) r p) [
          | inl e ↦ rw e h
          | inr (e, _) ↦ rw e (Any-append_left _ p.to_delete (r ∷ []) h)
        ] in
      elim (Bool-cases (eqb (i % 100) 0 && env.cancelled i)) [
        | inl e ↦ rw e h
        | inr e ↦ rw e (evaluate_from-keeps (suc i) more next resource kept)
      ]

  evaluate_from_complete :
      (i : ℕ) (before after : List Unstructured) (p : Plan) (resource : Unstructured)
      → ((k : ℕ) → env.cancelled k ≡ false)
      → Passes env.as_selector gate (env.readings (i + length before)) spec resource
      → Any
          (λ r. r ≡ resource)
          (evaluate_from env gate spec i (before ++ resource ∷ after) p).to_delete
  unfolding evaluate_from
  evaluate_from_complete i [] after p resource never h =
      let passes : Passes env.as_selector gate (env.readings i) spec resource =
        rw (add-zero i) at h in
      let put = consider_passing (env.readings i) resource p passes in
      rw (never i, and_false)
        (evaluate_from-keeps (suc i) after _ resource
          (rw put (Any-append_right _ p.to_delete (resource ∷ []) (inl refl))))
  evaluate_from_complete i (r ∷ before) after p resource never h =
      rw (never i, and_false)
        (evaluate_from_complete (suc i) before after _ resource never
          (rw (add-suc_lem i before) at h))

-- Why a resource was planned for deletion.
pub record IsPlanned (cfg : Config) (env : Surroundings) (spec : ZenCleanerPolicySpec)
    (resource : Unstructured) : Type 0 where
  pub selected : Selects env.as_selector resource spec.target_resource
  pub deletable : IsDeletable cfg resource spec.behavior
  pub met : (c : ConditionsSpec) → spec.conditions ≡ some c → Meets resource c
  pub due : (i : ℕ) × IsDue (env.readings i) resource spec.ttl

meets-Meets :
    (resource : Unstructured) (o : Option ConditionsSpec) (c : ConditionsSpec)
    → meets resource o ≡ true
    → o ≡ some c
    → Meets resource c
unfolding meets
meets-Meets resource o c h e =
    (meets_conditions_iff resource c).0 (subst (λ t. meets resource t ≡ true) e h)

module _ (cfg : Config) (env : Surroundings) (spec : ZenCleanerPolicySpec) where
  Passes-IsPlanned :
      ((i : ℕ) → (env.readings i).clock.now ≤ℤ (env.readings i).later)
      → (resource : Unstructured) → PassesSometime env (some (new_gate cfg)) spec resource
      → IsPlanned cfg env spec resource
  unfolding gate_verdict
  Passes-IsPlanned m resource (i, h) = record {
    selected = (matches_selectors_iff env.as_selector resource spec.target_resource).0 h.selected;
    deletable = (evaluate_object-allow_iff cfg resource spec.behavior).0 h.allowed;
    met = λ c e. meets-Meets resource spec.conditions c h.met e;
    due = (i, should_delete_by_ttl-IsDue (env.readings i) resource spec.ttl (m i) h.due);
  }

  -- Every resource on the deletion list of an evaluation behind the gate is selected by the policy's
  -- target, is deletable under the gate's configuration, meets the policy's conditions if it has any,
  -- and has a deadline that lies before the reading of the clock, provided that the clock does not
  -- run backwards between its two readings for one resource.
  pub to_delete-IsPlanned :
      (resources : List Unstructured)
      → ((i : ℕ) → (env.readings i).clock.now ≤ℤ (env.readings i).later)
      → All
          (IsPlanned cfg env spec)
          (evaluate_resources env (some (new_gate cfg)) spec resources).to_delete
  unfolding evaluate_resources
  to_delete-IsPlanned resources m = elim (Bool-cases env.cancelled_at_start) [
    | inl e ↦ simp (evaluate_resources, e) tt
    | inr e ↦
        simp (evaluate_resources, e)
          (All-map _ _ (Passes-IsPlanned m) _
            (evaluate_from_sound env (some (new_gate cfg)) spec 0 resources empty_plan tt))
  ]

-- Unless the context is cancelled, a resource that matches the target, that the gate allows, that
-- meets the conditions and that is found due at its turn is on the deletion list.
pub evaluate_resources_complete :
    (env : Surroundings) (gate : Option Gate) (spec : ZenCleanerPolicySpec)
    (before after : List Unstructured) (resource : Unstructured)
    → env.cancelled_at_start ≡ false
    → ((k : ℕ) → env.cancelled k ≡ false)
    → matches_selectors env.as_selector resource spec.target_resource ≡ true
    → gate_verdict gate resource spec ≡ allow
    → meets resource spec.conditions ≡ true
    → (should_delete_by_ttl (env.readings (length before)) resource spec.ttl).0 ≡ true
    → Any
        (λ r. r ≡ resource)
        (evaluate_resources env gate spec (before ++ resource ∷ after)).to_delete
unfolding evaluate_resources
evaluate_resources_complete env gate spec before after resource started never s a m d =
    simp (evaluate_resources, started)
      (evaluate_from_complete env gate spec 0 before after empty_plan resource never
        (record { selected = s; allowed = a; met = m; due = rw (zero-add_lem (length before)) d }))
