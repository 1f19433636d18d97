-- ===== src/Ttl/Deadline.antt =====
-- The time at which a resource expires, as a relation: the four TTL modes and their precedence.
use zen_cleaner.Prelude.{
  String, true, false, ◌≡◌, refl, ◌⊎◌, inl, inr, Option, none, some, lookup, arith, Option-cases,
  Bool-cases,
}
use zen_cleaner.Prelude.Int.{ℤ, ◌+ℤ◌, ◌<ℤ◌}
use zen_cleaner.Unstructured.{Unstructured, Time, Nested, found, missing, mistyped, is_found}
use zen_cleaner.Api.{TtlSpec}
use zen_cleaner.Ttl.Path.{parse_field_path}
use zen_cleaner.Ttl.{
  TtlResult, ok, err, relative_ttl_expired, seconds, is_nil, fixed_ttl_expiration,
  mapped_ttl_for_value, after_creation, default_expiration, string_ttl_expiration,
  number_ttl_expiration, field_ttl_expiration, Clock, after, relative_to_timestamp,
  relative_ttl_expiration, calculate_expiration_time, or_else,
}

-- The field that `fieldPath` names decides: there is no fixed TTL.
pub record ByField (spec : TtlSpec) : Type 0 where
  pub not_fixed : spec.seconds_after_creation ≡ none
  pub has_path : is_nil spec.field_path ≡ false

pub data Deadline (parse : String → Option Time) (resource : Unstructured) (spec : TtlSpec)
    (e : Time) : Type 0 where
  fixed :
      (n : ℤ)
      → spec.seconds_after_creation ≡ some n
      → e ≡ resource.creation +ℤ seconds n
      → Deadline parse resource spec e
  number :
      (n : ℤ)
      → ByField spec
      → resource.nested_int64 (parse_field_path spec.field_path) ≡ found n
      → e ≡ resource.creation +ℤ seconds n
      → Deadline parse resource spec e
  mapped :
      (value : String) (n : ℤ)
      → ByField spec
      → is_found (resource.nested_int64 (parse_field_path spec.field_path)) ≡ false
      → resource.nested_string (parse_field_path spec.field_path) ≡ found value
      → is_nil spec.mappings ≡ false
      → (lookup value spec.mappings ≡ some n)
        ⊎ ((lookup value spec.mappings ≡ none) × (spec.default ≡ some n))
      → e ≡ resource.creation +ℤ seconds n
      → Deadline parse resource spec e
  absent :
      (n : ℤ)
      → ByField spec
      → is_found (resource.nested_int64 (parse_field_path spec.field_path)) ≡ false
      → is_found (resource.nested_string (parse_field_path spec.field_path)) ≡ false
      → spec.default ≡ some n
      → e ≡ resource.creation +ℤ seconds n
      → Deadline parse resource spec e
  relative :
      (text : String) (t : Time) (n : ℤ)
      → spec.seconds_after_creation ≡ none
      → is_nil spec.field_path ≡ true
      → is_nil spec.relative_to ≡ false
      → spec.seconds_after ≡ some n
      → resource.nested_string (parse_field_path spec.relative_to) ≡ found text
      → parse text ≡ some t
      → e ≡ t +ℤ seconds n
      → Deadline parse resource spec e

-- What a result says of the deadline: it is the result, or it has passed already.
abbrev pub Decides : Clock → Unstructured → TtlSpec → TtlResult Time → Time → Type 0
Decides clock resource spec r e = (r ≡ ok e) ⊎ ((r ≡ err relative_ttl_expired) × (e <ℤ clock.now))

-- A deadline is what the calculation returns, or the calculation reports that it lies before the
-- clock's reading.
pub calculate-of-Deadline :
    (clock : Clock) (resource : Unstructured) (spec : TtlSpec) (e : Time)
    → Deadline clock.parse_rfc3339 resource spec e
    → Decides clock resource spec (calculate_expiration_time clock resource spec) e
unfolding calculate_expiration_time fixed_ttl_expiration field_ttl_expiration
    relative_ttl_expiration mapped_ttl_for_value
calculate-of-Deadline clock resource spec e (fixed n f q) = ground arith
calculate-of-Deadline clock resource spec e (number n b f q) = ground arith
calculate-of-Deadline clock resource spec e (mapped value n b i s m l q) = ground arith
calculate-of-Deadline clock resource spec e (absent n b i s d q) = ground arith
calculate-of-Deadline clock resource spec e (relative text t n a b c d f g q) = ground arith

-- What a defined result says: the deadline that was calculated, or one that lies in the past.
abbrev pub Explains : Clock → Unstructured → TtlSpec → TtlResult Time → Type 0
Explains clock resource spec (ok e) = Deadline clock.parse_rfc3339 resource spec e
Explains clock resource spec (err relative_ttl_expired) =
    (e : Time) × Deadline clock.parse_rfc3339 resource spec e × (e <ℤ clock.now)
Explains clock resource spec (err _) = Unit

ruleset ttl_modes = (
  calculate_expiration_time, fixed_ttl_expiration, field_ttl_expiration, relative_ttl_expiration,
  or_else,
)

module _ (clock : Clock) (resource : Unstructured) (spec : TtlSpec) where
  absent-Explains :
      ByField spec
      → is_found (resource.nested_int64 (parse_field_path spec.field_path)) ≡ false
      → (s : Nested String) → resource.nested_string (parse_field_path spec.field_path) ≡ s
      → is_found s ≡ false
      → Explains clock resource spec (default_expiration resource spec false)
  unfolding default_expiration
  absent-Explains b i s q h = elim (Option-cases spec.default) [
    | inl d ↦ simp (default_expiration, d) tt
    | inr (n, d) ↦ simp (default_expiration, d) (absent n b i (rw q h) d refl)
  ]

  mapped-Explains :
      ByField spec
      → is_found (resource.nested_int64 (parse_field_path spec.field_path)) ≡ false
      → (value : String) → resource.nested_string (parse_field_path spec.field_path) ≡ found value
      → is_nil spec.mappings ≡ false
      → Explains clock resource spec (after_creation resource (mapped_ttl_for_value spec value))
  unfolding after_creation mapped_ttl_for_value
  mapped-Explains b i value q m = elim (Option-cases (lookup value spec.mappings)) [
    | inr (n, l) ↦ simp (mapped_ttl_for_value, l) (mapped value n b i q m (inl l) refl)
    | inl l ↦ elim (Option-cases spec.default) [
      | inr (n, d) ↦ simp (mapped_ttl_for_value, l, d) (mapped value n b i q m (inr (l, d)) refl)
      | inl d ↦ simp (mapped_ttl_for_value, l, d) tt
    ]
  ]

  string-Explains :
      ByField spec
      → is_found (resource.nested_int64 (parse_field_path spec.field_path)) ≡ false
      → (s : Nested String) → resource.nested_string (parse_field_path spec.field_path) ≡ s
      → Explains clock resource spec (string_ttl_expiration resource spec s)
  unfolding string_ttl_expiration default_expiration
  string-Explains b i (found value) q = elim (Bool-cases (is_nil spec.mappings)) [
    | inr m ↦ simp m (mapped-Explains b i value q m)
    | inl m ↦ elim (Option-cases spec.default) [
      | inl d ↦ simp (default_expiration, m, d) tt
      | inr (n, d) ↦ simp (default_expiration, m, d) tt
    ]
  ]
  string-Explains b i missing q = absent-Explains b i missing q refl
  string-Explains b i mistyped q = absent-Explains b i mistyped q refl

  number-Explains :
      ByField spec
      → (i : Nested ℤ) → resource.nested_int64 (parse_field_path spec.field_path) ≡ i
      → Explains clock resource spec (
          number_ttl_expiration resource spec
            (resource.nested_string (parse_field_path spec.field_path))
            i)
  unfolding number_ttl_expiration
  number-Explains b (found n) q = number n b q refl
  number-Explains b missing q = string-Explains b (rw q refl) _ refl
  number-Explains b mistyped q = string-Explains b (rw q refl) _ refl

  relative-Explains :
      spec.seconds_after_creation ≡ none
      → is_nil spec.field_path ≡ true
      → is_nil spec.relative_to ≡ false
      → (n : ℤ) → spec.seconds_after ≡ some n
      → (s : Nested String) → resource.nested_string (parse_field_path spec.relative_to) ≡ s
      → Explains clock resource spec (relative_to_timestamp clock n s)
  unfolding relative_to_timestamp
  relative-Explains a b c n d (found text) q = elim (Option-cases (clock.parse_rfc3339 text)) [
    | inl p ↦ simp (relative_to_timestamp, p) tt
    | inr (t, p) ↦
        let at_deadline = relative text t n a b c d q p refl in
        elim (Bool-cases (after clock.now (t +ℤ seconds n))) [
          | inl late ↦
              simp (relative_to_timestamp, p, late) (t +ℤ seconds n, at_deadline, ground arith)
          | inr early ↦ simp (relative_to_timestamp, p, early) at_deadline
        ]
  ]
  relative-Explains a b c n d missing q = tt
  relative-Explains a b c n d mistyped q = tt

  -- Whatever the calculation returns is the deadline of one of the four modes, in their order of
  -- precedence; that a relative deadline has passed is reported only when there is one that has.
  pub calculate-Explains :
      Explains clock resource spec (calculate_expiration_time clock resource spec)
  unfolding calculate_expiration_time fixed_ttl_expiration field_ttl_expiration
      relative_ttl_expiration or_else
  calculate-Explains = elim (Option-cases spec.seconds_after_creation) [
    | inr (n, f) ↦ simp (calculate_expiration_time, fixed_ttl_expiration, f) (fixed n f refl)
    | inl f ↦ elim (Bool-cases (is_nil spec.field_path)) [
      | inr p ↦
          let b : ByField spec = record { not_fixed = f; has_path = p } in
          simp (ttl_modes, f, p) (number-Explains b _ refl)
      | inl p ↦ elim (Bool-cases (is_nil spec.relative_to)) [
        | inl r ↦ simp (ttl_modes, f, p, r) tt
        | inr r ↦ elim (Option-cases spec.seconds_after) [
          | inl d ↦ simp (ttl_modes, f, p, r, d) tt
          | inr (n, d) ↦ simp (ttl_modes, f, p, r, d) (relative-Explains f p r n d _ refl)
        ]
      ]
    ]
  ]
