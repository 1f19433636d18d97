-- ===== src/Controller/Conditions/Laws.antt =====
-- When a resource meets the conditions of a policy, stated without the code's order of tests.
use zen_cleaner.Prelude.{
  String, true, false, List, [], ◌∷◌, ◌++◌, Option, none, some, ◌≡◌, ◌≢◌, refl, All-middle, all_iff,
  ◌↔◌, ◌⊎◌, inl, inr, ◌==◌, any, lookup, arith, eq_iff, All, Any, Bool-cases,
}
use zen_cleaner.Prelude.Text.{ne_of_eq}
use zen_cleaner.Unstructured.{Unstructured, Nested, found, missing, mistyped}
use zen_cleaner.Api.{LabelCondition, AnnotationCondition, FieldCondition, ConditionsSpec}
use zen_cleaner.Ttl.Path.{split_field_path}
use zen_cleaner.Safety.{status_phase}
use zen_cleaner.Controller.Conditions.{
  phase_is_one_of, meets_phase_conditions, meets_label_condition, meets_label_conditions,
  has_annotation, meets_annotation_conditions, matches_field_operator, meets_field_condition,
  meets_field_conditions, meets_conditions,
}

any-eq_iff :
    (value : String) (vs : List String)
    → (any (λ v. value == v) vs ≡ true) ↔ Any (λ v. value ≡ v) vs
any-eq_iff value [] = ground arith
any-eq_iff value (v ∷ vs) = ground (arith, eq_iff value v, any-eq_iff value vs)

-- The value of a label, `none` where there is no such label, against a condition.
abbrev pub LabelHolds : LabelCondition → Option String → Type 0
LabelHolds cond o =
    ((cond.operator ≡ "Exists") × (o ≢ none))
    ⊎ (((cond.operator ≡ "Equals") ⊎ (cond.operator ≡ "")) × (o ≡ some cond.value))
    ⊎ ((cond.operator ≡ "In") × (cond.value ≢ "") × (o ≡ some cond.value))
    ⊎ ((cond.operator ≡ "NotIn") × (o ≢ some cond.value))

-- The value of a field against a condition.
abbrev pub FieldHolds : FieldCondition → String → Type 0
FieldHolds cond value =
    ((cond.operator ≡ "Equals") × (value ≡ cond.value))
    ⊎ ((cond.operator ≡ "NotEquals") × (value ≢ cond.value))
    ⊎ ((cond.operator ≡ "In") × Any (λ v. value ≡ v) cond.values)
    ⊎ ((cond.operator ≡ "NotIn") × (¬ Any (λ v. value ≡ v) cond.values))

abbrev pub Reads : Nested String → (String → Type 0) → Type 0
Reads (found value) P = P value
Reads missing P = ⊥
Reads mistyped P = ⊥

-- A resource meets conditions: its phase is among those required, if any are; every label,
-- annotation and field condition holds.
pub record Meets (resource : Unstructured) (c : ConditionsSpec) : Type 0 where
  pub phase :
      (c.phase ≡ [])
      ⊎ Reads (resource.nested_string status_phase) (λ phase. Any (λ p. phase ≡ p) c.phase)
  pub labels : All (λ cond. LabelHolds cond (lookup cond.key resource.labels)) c.has_labels
  pub annotations :
      All (λ cond. lookup cond.key resource.annotations ≡ some cond.value) c.has_annotations
  pub fields :
      All
        (λ cond.
          Reads (resource.nested_string (split_field_path cond.field_path)) (FieldHolds cond))
        c.and

-- The operators are different texts.
abbrev Distinct : List String → Type 0
Distinct [] = Unit
Distinct (x ∷ xs) = All (λ y. x ≢ y) xs × Distinct xs

label_operators : Distinct ("Exists" ∷ "Equals" ∷ "" ∷ "In" ∷ "NotIn" ∷ [])
label_operators = (
  (ne_of_eq _ _ refl, (ne_of_eq _ _ refl, (ne_of_eq _ _ refl, (ne_of_eq _ _ refl, tt)))),
  (
    (ne_of_eq _ _ refl, (ne_of_eq _ _ refl, (ne_of_eq _ _ refl, tt))),
    ((ne_of_eq _ _ refl, (ne_of_eq _ _ refl, tt)), ((ne_of_eq _ _ refl, tt), (tt, tt))),
  ),
)

field_operators : Distinct ("Equals" ∷ "NotEquals" ∷ "In" ∷ "NotIn" ∷ [])
field_operators = (
  (ne_of_eq _ _ refl, (ne_of_eq _ _ refl, (ne_of_eq _ _ refl, tt))),
  ((ne_of_eq _ _ refl, (ne_of_eq _ _ refl, tt)), ((ne_of_eq _ _ refl, tt), (tt, tt))),
)

label_iff :
    (cond : LabelCondition) (o : Option String)
    → (meets_label_condition cond o ≡ true) ↔ LabelHolds cond o
unfolding meets_label_condition
label_iff cond none = ground (
  arith,
  eq_iff cond.operator "Exists",
  eq_iff cond.operator "Equals",
  eq_iff cond.operator "",
  eq_iff cond.operator "In",
  eq_iff cond.operator "NotIn",
  label_operators,
)
label_iff cond (some value) = ground (
  arith,
  eq_iff cond.operator "Exists",
  eq_iff cond.operator "Equals",
  eq_iff cond.operator "",
  eq_iff cond.operator "In",
  eq_iff cond.operator "NotIn",
  eq_iff value cond.value,
  eq_iff cond.value "",
  label_operators,
)

annotation_iff :
    (cond : AnnotationCondition) (o : Option String)
    → (has_annotation cond o ≡ true) ↔ (o ≡ some cond.value)
unfolding has_annotation
annotation_iff cond none = ground arith
annotation_iff cond (some value) = ground (arith, eq_iff value cond.value)

operator_iff :
    (value : String) (cond : FieldCondition)
    → (matches_field_operator value cond ≡ true) ↔ FieldHolds cond value
unfolding matches_field_operator
operator_iff value cond = ground (
  arith,
  eq_iff cond.operator "Equals",
  eq_iff cond.operator "NotEquals",
  eq_iff cond.operator "In",
  eq_iff cond.operator "NotIn",
  eq_iff value cond.value,
  any-eq_iff value cond.values,
  field_operators,
)

field_iff :
    (cond : FieldCondition) (n : Nested String)
    → (meets_field_condition cond n ≡ true) ↔ Reads n (FieldHolds cond)
unfolding meets_field_condition
field_iff cond (found value) = operator_iff value cond
field_iff cond missing = ground arith
field_iff cond mistyped = ground arith

one_of_iff :
    (phases : List String) (n : Nested String)
    → (phase_is_one_of phases n ≡ true) ↔ Reads n (λ phase. Any (λ p. phase ≡ p) phases)
unfolding phase_is_one_of
one_of_iff phases (found value) = any-eq_iff value phases
one_of_iff phases missing = ground arith
one_of_iff phases mistyped = ground arith

phase_iff :
    (resource : Unstructured) (phases : List String)
    → (meets_phase_conditions resource phases ≡ true) ↔ (
        (phases ≡ [])
        ⊎ Reads (resource.nested_string status_phase) (λ phase. Any (λ p. phase ≡ p) phases))
unfolding meets_phase_conditions
phase_iff resource [] = ground arith
phase_iff resource (p ∷ phases) =
    ground (arith, one_of_iff (p ∷ phases) (resource.nested_string status_phase))

labels_iff :
    (resource : Unstructured) (conds : List LabelCondition)
    → (meets_label_conditions resource conds ≡ true)
      ↔ All (λ cond. LabelHolds cond (lookup cond.key resource.labels)) conds
unfolding meets_label_conditions
labels_iff resource = all_iff _ _ (λ cond. label_iff cond (lookup cond.key resource.labels))

annotations_iff :
    (resource : Unstructured) (conds : List AnnotationCondition)
    → (meets_annotation_conditions resource conds ≡ true)
      ↔ All (λ cond. lookup cond.key resource.annotations ≡ some cond.value) conds
unfolding meets_annotation_conditions
annotations_iff resource =
    all_iff _ _ (λ cond. annotation_iff cond (lookup cond.key resource.annotations))

fields_iff :
    (resource : Unstructured) (conds : List FieldCondition)
    → (meets_field_conditions resource conds ≡ true)
      ↔ All
          (λ cond.
            Reads (resource.nested_string (split_field_path cond.field_path)) (FieldHolds cond))
          conds
unfolding meets_field_conditions
fields_iff resource =
    all_iff _ _ (λ cond. field_iff cond (resource.nested_string (split_field_path cond.field_path)))

meets_conditions_and :
    (resource : Unstructured) (c : ConditionsSpec)
    → (meets_conditions resource c ≡ true) ↔ (
        (meets_phase_conditions resource c.phase ≡ true)
        × (meets_label_conditions resource c.has_labels ≡ true)
        × (meets_annotation_conditions resource c.has_annotations ≡ true)
        × (meets_field_conditions resource c.and ≡ true))
unfolding meets_conditions
meets_conditions_and resource c = ground arith

-- The conditions of a policy are met exactly when all of their parts hold.
pub meets_conditions_iff :
    (resource : Unstructured) (c : ConditionsSpec)
    → (meets_conditions resource c ≡ true) ↔ Meets resource c
meets_conditions_iff resource c = (
  λ h.
      let (p, l, a, f) = (meets_conditions_and resource c).0 h in
      record {
        phase = (phase_iff resource c.phase).0 p;
        labels = (labels_iff resource c.has_labels).0 l;
        annotations = (annotations_iff resource c.has_annotations).0 a;
        fields = (fields_iff resource c.and).0 f;
      },
  λ m. (meets_conditions_and resource c).1 (
    (phase_iff resource c.phase).1 m.phase,
    (labels_iff resource c.has_labels).1 m.labels,
    (annotations_iff resource c.has_annotations).1 m.annotations,
    (fields_iff resource c.and).1 m.fields,
  ),
)

Reads-not : {P : String → Type 0} (n : Nested String) → ((v : String) → ¬ P v) → ¬ Reads n P
Reads-not (found v) h r = h v r
Reads-not missing h r = r
Reads-not mistyped h r = r

-- A field condition whose operator is none of the four that the code knows ("Exists", which the API
-- type documents, among them) is met by no resource.
pub meets_field_conditions-unknown_operator :
    (resource : Unstructured) (cond : FieldCondition) (before after : List FieldCondition)
    → cond.operator ≢ "Equals"
    → cond.operator ≢ "NotEquals"
    → cond.operator ≢ "In"
    → cond.operator ≢ "NotIn"
    → meets_field_conditions resource (before ++ cond ∷ after) ≡ false
meets_field_conditions-unknown_operator resource cond before after a b c d =
    elim (Bool-cases (meets_field_conditions resource (before ++ cond ∷ after))) [
      | inr h ↦ h
      | inl h ↦ absurd (
          Reads-not (resource.nested_string (split_field_path cond.field_path))
            (λ v k. ground arith)
            (All-middle _ before after ((fields_iff resource (before ++ cond ∷ after)).0 h)))
    ]
