-- ===== src/Controller/Status/Writes/WellFormed.antt =====
-- The conditions that a policy has on the server stay few, and of different types.
use zen_cleaner.Prelude.{
  ℕ, zero, suc, ◌-◌, ◌≤◌, String, ◌≡◌, refl, sym, ap, subst, ◌≢◌, inl, inr, Option, none, some,
  List, [], ◌∷◌, arith, ◌==◌, eq_iff, ltb, Bool-cases, length, drop, length-drop, All,
}
use zen_cleaner.Prelude.Int.{ℤ}
use zen_cleaner.Prelude.Text.{ne_of_eq}
use zen_cleaner.Unstructured.{Time}
use zen_cleaner.Api.{ZenCleanerPolicy}
use zen_cleaner.Controller.Status.{
  Status, Condition, Counts, status_conditions_for, ready_condition, error_condition, prefer,
  merge_status, apply_next_gc_run, status_object, status_phase_for, update_status,
  replace_condition, max_conditions, cap_conditions, or_nil, or_no_status, update_target_condition,
}
use zen_cleaner.Controller.Status.Writes.{
  Answers, Write, counts_of, condition, to_send, write, write_all,
}

-- No condition of the type.
abbrev IsNew : String → List Condition → Type 0
IsNew type_name conditions = All (λ c. c.type_name ≢ type_name) conditions

abbrev pub HasDistinct : List Condition → Type 0
HasDistinct [] = Unit
HasDistinct (c ∷ more) = IsNew c.type_name more × HasDistinct more

-- At most sixteen conditions, no two of one type.
pub record IsWellFormed (status : Option Status) : Type 0 where
  pub few : length (or_nil (or_no_status status).conditions) ≤ max_conditions
  pub distinct : HasDistinct (or_nil (or_no_status status).conditions)

replace_condition-IsNew :
    (new : Condition) (type_name : String) (cs : List Condition)
    → new.type_name ≢ type_name
    → IsNew type_name cs
    → IsNew type_name (replace_condition new cs)
unfolding replace_condition
replace_condition-IsNew new type_name [] n h = (n, tt)
replace_condition-IsNew new type_name (c ∷ more) n (h, k) =
    elim (Bool-cases (c.type_name == new.type_name)) [
      | inl same ↦ rw same (n, k)
      | inr other ↦ rw other (h, replace_condition-IsNew new type_name more n k)
    ]

replace_condition-HasDistinct :
    (new : Condition) (cs : List Condition)
    → HasDistinct cs
    → HasDistinct (replace_condition new cs)
unfolding replace_condition
replace_condition-HasDistinct new [] h = (tt, tt)
replace_condition-HasDistinct new (c ∷ more) (h, k) =
    elim (Bool-cases (c.type_name == new.type_name)) [
      | inl same ↦
          rw same (subst (λ t. IsNew t more) ((eq_iff c.type_name new.type_name).0 same) h, k)
      | inr other ↦ rw other (
        replace_condition-IsNew new c.type_name more
            (λ e. ne_of_eq c.type_name new.type_name other (sym e)) h,
        replace_condition-HasDistinct new more k,
      )
    ]

drop-HasDistinct : (n : ℕ) (cs : List Condition) → HasDistinct cs → HasDistinct (drop n cs)
drop-HasDistinct zero cs h = h
drop-HasDistinct (suc n) [] h = tt
drop-HasDistinct (suc n) (c ∷ more) (h, k) = drop-HasDistinct n more k

cap_conditions_lem :
    (cs : List Condition)
    → HasDistinct cs
    → (length (cap_conditions cs) ≤ max_conditions) × HasDistinct (cap_conditions cs)
unfolding cap_conditions
cap_conditions_lem cs h =
    let n = length cs - max_conditions in
    elim (Bool-cases (ltb max_conditions (length cs))) [
      | inl long ↦ rw long (omega (arith, length-drop n cs), drop-HasDistinct n cs h)
      | inr short ↦ rw short (ground arith, h)
    ]

status_conditions_for_lem :
    (phase : String) (now : Time)
    → (length (status_conditions_for phase now) ≤ 2) × HasDistinct (status_conditions_for phase now)
unfolding status_conditions_for ready_condition error_condition
status_conditions_for_lem phase now = elim (Bool-cases (phase == "Error")) [
  | inl e ↦ rw e (omega arith, ((ne_of_eq "Error" "Ready" refl, tt), (tt, tt)))
  | inr e ↦ elim (Bool-cases (phase == "Paused")) [
    | inl p ↦ rw (e, p) (omega arith, (tt, tt))
    | inr p ↦ rw (e, p) (omega arith, (tt, tt))
  ]
]

-- The update of the counts writes the conditions anew.
update_status-conditions :
    (existing : Option Status) (policy : ZenCleanerPolicy) (counts : Counts) (now : Time)
    (config : Option ℤ)
    → or_nil (update_status existing policy counts now config).conditions
      ≡ status_conditions_for (status_phase_for policy) now
unfolding update_status apply_next_gc_run merge_status prefer status_object
update_status-conditions none policy counts now config = ground arith
update_status-conditions (some old) policy counts now config = ground arith

to_send-IsWellFormed :
    (w : Write) (existing : Option Status)
    → IsWellFormed existing
    → IsWellFormed (some (to_send w existing))
unfolding to_send update_target_condition
to_send-IsWellFormed (counts_of policy counts now config) existing h =
    let (few, distinct) = status_conditions_for_lem (status_phase_for policy) now in
    let same = update_status-conditions existing policy counts now config in
    record {
      few = omega (arith, few, ap length same);
      distinct = subst HasDistinct (sym same) distinct;
    }
to_send-IsWellFormed (condition type_name reason message permanent now) existing h =
    let (few, distinct) = cap_conditions_lem _ (replace_condition-HasDistinct _ _ h.distinct) in
    record { few = few; distinct = distinct }

write-IsWellFormed :
    (w : Write) (answers : Answers) (existing : Option Status)
    → IsWellFormed existing
    → IsWellFormed (write w answers existing).1
unfolding write
write-IsWellFormed w answers existing h = elim (Bool-cases answers.get_fails) [
  | inl g ↦ simp g h
  | inr g ↦ elim (Bool-cases answers.update_fails) [
    | inl u ↦ simp (g, u) h
    | inr u ↦ simp (g, u) (to_send-IsWellFormed w existing h)
  ]
]

-- Whatever the writes of a policy's status are, counts and conditions in any order, and whichever of
-- their calls fail: where the status on the server has at most sixteen conditions, no two of one type,
-- it still has after them.
pub write_all-IsWellFormed :
    (writes : List (Write × Answers)) (existing : Option Status)
    → IsWellFormed existing
    → IsWellFormed (write_all writes existing)
unfolding write_all
write_all-IsWellFormed [] existing h = h
write_all-IsWellFormed ((w, answers) ∷ more) existing h =
    write_all-IsWellFormed more (write w answers existing).1
      (write-IsWellFormed w answers existing h)
