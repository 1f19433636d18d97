-- ===== src/Controller/Status/Laws.antt =====
-- What the status of a policy tells.
use zen_cleaner.Prelude.{
  ℕ, zero, suc, ◌+◌, ◌-◌, ◌≤◌, String, ◌≡◌, refl, sym, ap, subst, ◌≢◌, ◌↔◌, inl, inr, Bool, true,
  false, Option, none, some, List, [], ◌∷◌, ◌++◌, arith, ◌==◌, eq_iff, ltb, ltb→lt, if◌then◌else◌,
  Bool-cases, length, drop, length-drop, Any, Any-append_right,
}
use zen_cleaner.Prelude.Text.{ne_of_eq}
use zen_cleaner.Prelude.Int.{ℤ, ◌+ℤ◌}
use zen_cleaner.Unstructured.{Time}
use zen_cleaner.Api.{ZenCleanerPolicy}
use zen_cleaner.Controller.Status.{
  get_requeue_interval_for_policy, Condition, Status, status_phase_for, status_conditions_for,
  ready_condition, error_condition, apply_next_gc_run, prefer, merge_status, Counts, status_object,
  update_status, bool_status, replace_condition, max_conditions, cap_conditions, or_nil,
  or_no_status, update_target_condition,
}

-- A status update promises no next run for a paused policy, and for any other the time at which the
-- reconcile loop runs the policy again, after an interval from now.
pub update_status-next_gc_run :
    (existing : Option Status) (policy : ZenCleanerPolicy) (counts : Counts) (now : Time)
    (config : Option ℤ)
    → (update_status existing policy counts now config).next_gc_run ≡ (
        if policy.spec.paused
        then none
        else some (now +ℤ get_requeue_interval_for_policy config policy.spec))
unfolding update_status apply_next_gc_run merge_status prefer status_object
    get_requeue_interval_for_policy
update_status-next_gc_run none policy counts now config = ground arith
update_status-next_gc_run (some old) policy counts now config = ground arith

abbrev pub IsReady : List Condition → Type 0
IsReady conditions = Any (λ c. (c.type_name ≡ "Ready") × (c.status ≡ "True")) conditions

-- Literals that the phase and the conditions compare.
abbrev Differ : String → String → Type 0
Differ s t = s ≢ t

abbrev Texts : Type 0
Texts =
    Differ "Error" "Paused"
    × Differ "Error" "Active"
    × Differ "Paused" "Active"
    × Differ "Error" "Ready"
    × Differ "False" "True"

texts_differ : Texts
texts_differ =
    (ne_of_eq _ _ refl, ne_of_eq _ _ refl, ne_of_eq _ _ refl, ne_of_eq _ _ refl, ne_of_eq _ _ refl)

status_phase_for_lem :
    (policy : ZenCleanerPolicy)
    → ((status_phase_for policy ≡ "Error") ↔ (policy.phase ≡ "Error"))
      × ((status_phase_for policy ≡ "Paused")
          ↔ ((policy.phase ≢ "Error") × (policy.spec.paused ≡ true)))
      × ((status_phase_for policy ≡ "Active")
          ↔ ((policy.phase ≢ "Error") × (policy.spec.paused ≡ false)))
unfolding status_phase_for
status_phase_for_lem policy = ground (arith, eq_iff policy.phase "Error", texts_differ)

status_conditions_for_lem :
    (phase : String) (now : Time)
    → IsReady (status_conditions_for phase now) ↔ ((phase ≢ "Error") × (phase ≢ "Paused"))
unfolding status_conditions_for ready_condition error_condition
status_conditions_for_lem phase now = elim (Bool-cases (phase == "Error")) [
  | inl b ↦ simp b (ground (arith, b, eq_iff phase "Error", texts_differ))
  | inr b ↦ elim (Bool-cases (phase == "Paused")) [
    | inl c ↦ simp (b, c) (ground (arith, b, c, eq_iff phase "Paused", texts_differ))
    | inr c ↦ simp (b, c) (ground (arith, b, c, eq_iff phase "Error", eq_iff phase "Paused"))
  ]
]

told :
    (policy : ZenCleanerPolicy) (now : Time)
    → let phase = status_phase_for policy in
      ((some phase ≡ some "Error") ↔ (policy.phase ≡ "Error"))
      × ((some phase ≡ some "Paused") ↔ ((policy.phase ≢ "Error") × (policy.spec.paused ≡ true)))
      × (IsReady (status_conditions_for phase now)
          ↔ ((policy.phase ≢ "Error") × (policy.spec.paused ≡ false)))
told policy now = ground (
  arith,
  status_phase_for_lem policy,
  status_conditions_for_lem (status_phase_for policy) now,
  texts_differ,
  Bool-cases policy.spec.paused,
  eq_iff policy.phase "Error",
)

written_phase :
    (existing : Option Status) (policy : ZenCleanerPolicy) (counts : Counts) (now : Time)
    (config : Option ℤ)
    → let s = update_status existing policy counts now config in
      (s.phase ≡ some (status_phase_for policy))
      × (s.conditions ≡ some (status_conditions_for (status_phase_for policy) now))
unfolding update_status apply_next_gc_run merge_status prefer status_object
written_phase none policy counts now config = ground arith
written_phase (some old) policy counts now config = ground arith

-- A status update writes the phase Error exactly where the policy had it before (no update clears
-- it), and Paused exactly for a paused policy that had not; the Ready condition it writes is true
-- exactly for a policy that is neither.
update_status-phase :
    (existing : Option Status) (policy : ZenCleanerPolicy) (counts : Counts) (now : Time)
    (config : Option ℤ)
    → let s = update_status existing policy counts now config in
      ((s.phase ≡ some "Error") ↔ (policy.phase ≡ "Error"))
      × ((s.phase ≡ some "Paused") ↔ ((policy.phase ≢ "Error") × (policy.spec.paused ≡ true)))
      × (IsReady (or_nil s.conditions) ↔ ((policy.phase ≢ "Error") × (policy.spec.paused ≡ false)))
update_status-phase existing policy counts now config =
    let (phase, conditions) = written_phase existing policy counts now config in
    simp (phase, conditions) (told policy now)

module _ (new : Condition) where
  length-replace_condition :
      (cs : List Condition)
      → length cs ≤ length (replace_condition new cs)
        × length (replace_condition new cs) ≤ length cs + 1
  unfolding replace_condition
  length-replace_condition [] = ground arith
  length-replace_condition (c ∷ more) = ground (arith, length-replace_condition more)

  replace_condition-present : (cs : List Condition) → Any (λ c. c ≡ new) (replace_condition new cs)
  unfolding replace_condition
  replace_condition-present [] = inl refl
  replace_condition-present (c ∷ more) = elim (Bool-cases (c.type_name == new.type_name)) [
    | inl b ↦ simp b (inl refl)
    | inr b ↦ simp b (inr (replace_condition-present more))
  ]

  -- Where the list grew, the new condition stands at its end.
  replace_condition-grown :
      (cs : List Condition)
      → length (replace_condition new cs) ≡ length cs + 1
      → replace_condition new cs ≡ cs ++ new ∷ []
  unfolding replace_condition
  replace_condition-grown [] h = refl
  replace_condition-grown (c ∷ more) h = elim (Bool-cases (c.type_name == new.type_name)) [
    | inl b ↦ absurd (ground (arith, b))
    | inr b ↦ simp b (ap (λ r. c ∷ r) (replace_condition-grown more (ground (arith, b))))
  ]

  Any-drop_last :
      (n : ℕ) (cs : List Condition) → n ≤ length cs → Any (λ c. c ≡ new) (drop n (cs ++ new ∷ []))
  Any-drop_last zero cs h = Any-append_right (λ c. c ≡ new) cs (new ∷ []) (inl refl)
  Any-drop_last (suc n) [] h = absurd (omega (arith, h))
  Any-drop_last (suc n) (c ∷ more) h = Any-drop_last n more (omega arith)

  cap_conditions-bounded : (cs : List Condition) → length (cap_conditions cs) ≤ max_conditions
  unfolding cap_conditions
  cap_conditions-bounded cs = ground (arith, length-drop (length cs - max_conditions) cs)

  -- A list that is not too long before keeps the new condition.
  cap_conditions-present :
      (cs : List Condition)
      → length cs ≤ max_conditions
      → Any (λ c. c ≡ new) (cap_conditions (replace_condition new cs))
  unfolding cap_conditions
  cap_conditions-present cs h =
      elim (Bool-cases (ltb max_conditions (length (replace_condition new cs)))) [
        | inr b ↦ simp b (replace_condition-present cs)
        | inl b ↦
            let sizes = length-replace_condition cs in
            let longer = ltb→lt max_conditions (length (replace_condition new cs)) b in
            let grown = replace_condition-grown cs (omega (arith, sizes.0, sizes.1, longer, h)) in
            let n = length (replace_condition new cs) - max_conditions in
            let last = Any-drop_last n cs (omega (arith, sizes.0, sizes.1, longer, h)) in
            simp b (subst (λ r. Any (λ c. c ≡ new) (drop n r)) (sym grown) last)
      ]

module _ (P Q : Condition → Type 0) (each : (c : Condition) → P c → Q c) where
  Any-map : (cs : List Condition) → Any P cs → Any Q cs
  Any-map [] h = h
  Any-map (c ∷ more) (inl p) = inl (each c p)
  Any-map (c ∷ more) (inr h) = inr (Any-map more h)

-- A target condition keeps at most sixteen conditions in the status; where there were at most sixteen
-- before, the new one is among them. The phase becomes Error for a permanent failure and stays
-- otherwise, and the counters stay.
pub update_target_condition-bounded :
    (existing : Option Status) (type_name reason message : String) (permanent : Bool) (now : Time)
    → let old = or_no_status existing in
      let s = update_target_condition existing type_name reason message permanent now in
      (length (or_nil s.conditions) ≤ 16)
      × (length (or_nil old.conditions) ≤ 16
          → Any (λ c. (c.type_name ≡ type_name) × (c.reason ≡ reason)) (or_nil s.conditions))
      × (s.phase ≡ (if permanent then some "Error" else old.phase))
      × (s.resources_deleted ≡ old.resources_deleted)
unfolding update_target_condition cap_conditions
update_target_condition-bounded existing type_name reason message permanent now =
    let new : Condition = record {
      type_name = type_name;
      status = bool_status permanent;
      last_transition_time = now;
      reason = reason;
      message = message;
    } in
    let old = or_nil (or_no_status existing).conditions in
    (
      cap_conditions-bounded new (replace_condition new old),
      λ h.
          Any-map (λ c. c ≡ new) _ (λ c e. (ap (λ c. c.type_name) e, ap (λ c. c.reason) e)) _
            (cap_conditions-present new old h),
      refl,
      refl,
    )
