-- ===== src/Ttl.antt =====
-- internal/ttl/evaluator.go: when a resource expires. Each reading of the clock is an argument, and
-- errors are the package's sentinel errors.
pub mod Path
pub mod Deadline
use zen_cleaner.Prelude.{
  String, Bool, true, false, List, [], ◌∷◌, Option, none, some, ◌&&◌, not, lookup, if◌then◌else◌,
}
use zen_cleaner.Prelude.Int.{ℤ, pos, ◌+ℤ◌, ◌*ℤ◌, ltb_ℤ, eqb_ℤ, wrap64}
use zen_cleaner.Prelude.Text.{Bytes}
use zen_cleaner.Unstructured.{Unstructured, Time, Nested, found, missing, mistyped}
use zen_cleaner.Api.{TtlSpec}
use Path.{parse_field_path}

pub data TtlError : Type 0 where
  no_valid_ttl_configuration field_path_not_found no_mapping_for_field_value : TtlError
  relative_timestamp_field_not_found invalid_timestamp_format relative_ttl_expired : TtlError

pub data TtlResult (A : Type 0) : Type 0 where
  ok : A → TtlResult A
  err : TtlError → TtlResult A

-- `time.Duration(seconds) * time.Second`: an int64 product of nanoseconds.
unfoldable pub seconds : ℤ → ℤ
seconds n = wrap64 (n *ℤ pos 1000000000)

-- `t.After(u)`.
abbrev pub after : Time → Time → Bool
after t u = ltb_ℤ u t

abbrev pub is_zero : Time → Bool
is_zero t = eqb_ℤ t (pos 0)

abbrev pub is_nil {ℓ} : {A : Type ℓ} → List A → Bool
is_nil [] = true
is_nil (x ∷ xs) = false

-- `none` is `handled == false`.
unfoldable pub fixed_ttl_expiration : Unstructured → TtlSpec → Option Time
fixed_ttl_expiration resource spec = elim spec.seconds_after_creation [
  | none ↦ none
  | some n ↦ some (resource.creation +ℤ seconds n)
]

unfoldable pub mapped_ttl_for_value : TtlSpec → String → TtlResult ℤ
mapped_ttl_for_value spec value = elim (lookup value spec.mappings) [
  | some ttl ↦ ok ttl
  | none ↦ elim spec.default [ some d ↦ ok d | none ↦ err no_mapping_for_field_value ]
]

after_creation : Unstructured → TtlResult ℤ → TtlResult Time
after_creation resource (ok ttl) = ok (resource.creation +ℤ seconds ttl)
after_creation resource (err e) = err e

-- `!found && spec.Default != nil`; a value of another type is not found either.
default_expiration : Unstructured → TtlSpec → Bool → TtlResult Time
default_expiration resource spec is_found = elim spec.default [
  | none ↦ err field_path_not_found
  | some d ↦ if is_found then err field_path_not_found else ok (resource.creation +ℤ seconds d)
]

string_ttl_expiration : Unstructured → TtlSpec → Nested String → TtlResult Time
unfolding after_creation default_expiration
string_ttl_expiration resource spec (found value) =
    if is_nil spec.mappings
    then default_expiration resource spec true
    else after_creation resource (mapped_ttl_for_value spec value)
string_ttl_expiration resource spec missing = default_expiration resource spec false
string_ttl_expiration resource spec mistyped = default_expiration resource spec false

-- The int64 reading is tried first.
number_ttl_expiration : Unstructured → TtlSpec → Nested String → Nested ℤ → TtlResult Time
unfolding string_ttl_expiration
number_ttl_expiration resource spec text (found n) = ok (resource.creation +ℤ seconds n)
number_ttl_expiration resource spec text missing = string_ttl_expiration resource spec text
number_ttl_expiration resource spec text mistyped = string_ttl_expiration resource spec text

unfoldable pub field_ttl_expiration : Unstructured → TtlSpec → Option (TtlResult Time)
unfolding number_ttl_expiration
field_ttl_expiration resource spec =
    let path = parse_field_path spec.field_path in
    if is_nil spec.field_path
    then none
    else some (
        number_ttl_expiration resource spec (resource.nested_string path)
          (resource.nested_int64 path))

-- The clock of one evaluation and `time.Parse(time.RFC3339, _)`, whose `none` is an error.
pub record Clock : Type 0 where
  pub now : Time
  pub parse_rfc3339 : String → Option Time

relative_to_timestamp : Clock → ℤ → Nested String → TtlResult Time
relative_to_timestamp clock n (found text) = elim (clock.parse_rfc3339 text) [
  | none ↦ err invalid_timestamp_format
  | some timestamp ↦
      let expiration = timestamp +ℤ seconds n in
      if after clock.now expiration then err relative_ttl_expired else ok expiration
]
relative_to_timestamp clock n missing = err relative_timestamp_field_not_found
relative_to_timestamp clock n mistyped = err relative_timestamp_field_not_found

unfoldable pub relative_ttl_expiration : Clock → Unstructured → TtlSpec → Option (TtlResult Time)
unfolding relative_to_timestamp
relative_ttl_expiration clock resource spec =
    if is_nil spec.relative_to then none else elim spec.seconds_after [
      | none ↦ none
      | some n ↦ some (
          relative_to_timestamp clock n
            (resource.nested_string (parse_field_path spec.relative_to)))
    ]

or_else : Option (TtlResult Time) → TtlResult Time → TtlResult Time
or_else (some r) other = r
or_else none other = other

unfoldable pub calculate_expiration_time : Clock → Unstructured → TtlSpec → TtlResult Time
unfolding or_else
calculate_expiration_time clock resource spec = elim (fixed_ttl_expiration resource spec) [
  | some expiration ↦ ok expiration
  | none ↦
      or_else (field_ttl_expiration resource spec)
        (or_else (relative_ttl_expiration clock resource spec) (err no_valid_ttl_configuration))
]

-- `IsExpired`; `later` is its own reading of the clock, after the one of the calculation.
unfoldable pub is_expired : Clock → Time → Unstructured → TtlSpec → TtlResult Bool
is_expired clock later resource spec = elim (calculate_expiration_time clock resource spec) [
  | err e ↦ err e
  | ok expiration ↦ ok (not (is_zero expiration) && after later expiration)
]
