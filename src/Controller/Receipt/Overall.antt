-- ===== src/Controller/Receipt/Overall.antt =====
-- The overall status of a receipt.
use zen_cleaner.Prelude.{
  String, ◌≡◌, refl, ◌↔◌, ◌⊎◌, inl, inr, Bool, true, false, List, [], ◌∷◌, arith, if◌then◌else◌,
  any, All, Any,
}
use zen_cleaner.Prelude.Text.{ne_of_eq}
use zen_cleaner.Controller.Receipt.{
  ObjectResultClass, succeeded, already_absent, skipped_precondition_mismatch, failure,
  ObjectResult, compute_overall_from, compute_overall,
}

-- The effect is there: the object is gone.
abbrev pub IsEffective : ObjectResult → Type 0
IsEffective r = (r.class ≡ succeeded) ⊎ (r.class ≡ already_absent)

abbrev pub IsFailure : ObjectResult → Type 0
IsFailure r = r.class ≡ failure

class-cases :
    (c : ObjectResultClass)
    → (c ≡ succeeded) ⊎ (c ≡ already_absent) ⊎ (c ≡ skipped_precondition_mismatch) ⊎ (c ≡ failure)
class-cases succeeded = inl refl
class-cases already_absent = inr (inl refl)
class-cases skipped_precondition_mismatch = inr (inr (inl refl))
class-cases failure = inr (inr (inr refl))

abbrev fails : ObjectResult → Bool
fails r = elim r.class [ failure ↦ true | _ ↦ false ]

abbrev skips : ObjectResult → Bool
skips r = elim r.class [ skipped_precondition_mismatch ↦ true | _ ↦ false ]

compute_overall_from_lem :
    (status : String) (results : List ObjectResult)
    → compute_overall_from status results
      ≡ (if any fails results then "FAILED" else if any skips results then "PARTIAL" else status)
unfolding compute_overall_from
compute_overall_from_lem status [] = refl
compute_overall_from_lem status (r ∷ more) =
    ground (arith, compute_overall_from_lem "PARTIAL" more, compute_overall_from_lem status more)

any-fails_iff : (results : List ObjectResult) → (any fails results ≡ true) ↔ Any IsFailure results
any-fails_iff [] = ground arith
any-fails_iff (r ∷ more) = ground (arith, class-cases r.class, any-fails_iff more)

IsEffective-iff :
    (results : List ObjectResult)
    → ((any fails results ≡ false) × (any skips results ≡ false)) ↔ All IsEffective results
IsEffective-iff [] = ground arith
IsEffective-iff (r ∷ more) = ground (arith, class-cases r.class, IsEffective-iff more)

-- An execution is FAILED exactly where some object failed, and SUCCEEDED exactly where every object
-- was deleted or already absent.
pub compute_overall_iff :
    (results : List ObjectResult)
    → ((compute_overall results ≡ "FAILED") ↔ Any IsFailure results)
      × ((compute_overall results ≡ "SUCCEEDED") ↔ All IsEffective results)
unfolding compute_overall
compute_overall_iff results = ground (
  arith,
  compute_overall_from_lem "SUCCEEDED" results,
  any-fails_iff results,
  IsEffective-iff results,
  ne_of_eq "FAILED" "PARTIAL" refl,
  ne_of_eq "FAILED" "SUCCEEDED" refl,
  ne_of_eq "PARTIAL" "SUCCEEDED" refl,
)
