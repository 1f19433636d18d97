-- ===== src/Webhook/Admission.antt =====
-- Which requests are admitted.
use zen_cleaner.Prelude.{
  String, ◌≡◌, refl, sym, ◌∙◌, ◌≢◌, ◌↔◌, ◌⊎◌, inl, inr, true, none, some, arith, eq_iff,
}
use zen_cleaner.Api.{ZenCleanerPolicySpec}
use zen_cleaner.Prelude.Text.{ne_of_eq}
use zen_cleaner.Safety.{hard_protected_kinds, Config, allow, new_gate, evaluate_policy_target}
use zen_cleaner.Safety.Laws.{Listed, IsProtected, evaluate_policy_target-allow_iff}
use zen_cleaner.Validation.{Formats}
use zen_cleaner.Validation.Defs.{IsScope, IsValid}
use zen_cleaner.Validation.Laws.{validate_policy_iff}
use zen_cleaner.Webhook.{
  DecodedReview, no_review, review, DecodedObject, no_object, unexpected_object, policy_object,
  Codecs, Reply, http_error, panicked, responded, is_checked, check_gate, check_object,
  validate_request, validate_response, answer_review, handle_validate,
}

-- The reply allows the request with this UID.
abbrev pub Allows : String → Reply → Type 0
Allows uid (http_error code) = ⊥
Allows uid panicked = ⊥
Allows uid (responded r) = (r.uid ≡ uid) × (r.allowed ≡ true)

module _ (formats : Formats) (codecs : Codecs) (cfg : Config) where
  -- A valid policy whose namespace the configuration does not protect.
  abbrev pub IsAdmissible : DecodedObject → Type 0
  IsAdmissible no_object = ⊥
  IsAdmissible unexpected_object = ⊥
  IsAdmissible (policy_object policy) =
      IsValid formats policy.spec
      × ((policy.spec.target_resource.namespace ≡ "*")
          ⊎ ¬ IsProtected cfg policy.spec.target_resource.namespace)

  -- The body is a review of a request with this UID, and its object is admissible where the
  -- operation creates or updates.
  abbrev pub Requests : String → DecodedReview → Type 0
  Requests uid no_review = ⊥
  Requests uid (review none) = ⊥
  Requests uid (review (some req)) =
      (req.uid ≡ uid)
      × (is_checked req.operation ≡ true → IsAdmissible (codecs.decode_object req.object))

  check_gate_iff :
      (spec : ZenCleanerPolicySpec)
      → (check_gate (some (new_gate cfg)) spec ≡ none)
        ↔ (evaluate_policy_target (new_gate cfg) spec.target_resource ≡ allow)
  unfolding check_gate
  check_gate_iff spec = ground arith

  scope-nonempty :
      (spec : ZenCleanerPolicySpec)
      → IsScope formats spec.target_resource
      → spec.target_resource.namespace ≢ ""
  scope-nonempty spec (inl (star, s)) e = ne_of_eq "*" "" refl (sym star ∙ e)
  scope-nonempty spec (inr (n, m, d, l, r)) e = m e

  check_object-valid :
      (spec : ZenCleanerPolicySpec)
      → IsValid formats spec
      → (spec.target_resource.namespace ≢ "")
        × (¬ Listed spec.target_resource.kind hard_protected_kinds)
  check_object-valid spec v = (scope-nonempty spec v.scope, v.kind.2)

  check_object_iff :
      (object : DecodedObject)
      → (check_object formats (some (new_gate cfg)) object ≡ none) ↔ IsAdmissible object
  unfolding check_object
  check_object_iff no_object = ground arith
  check_object_iff unexpected_object = ground arith
  check_object_iff (policy_object policy) =
      let gate = check_gate_iff policy.spec in
      let target = evaluate_policy_target-allow_iff cfg policy.spec.target_resource in
      let valid = validate_policy_iff formats policy.spec in
      ground (arith, gate, target, valid, check_object-valid policy.spec)

  answer_review_iff :
      (uid : String) (decoded : DecodedReview)
      → Allows uid (
          answer_review
            (λ req.
              validate_response req (validate_request formats codecs (some (new_gate cfg)) req))
            decoded)
        ↔ Requests uid decoded
  unfolding answer_review validate_response validate_request
  answer_review_iff uid no_review = ground arith
  answer_review_iff uid (review none) = ground arith
  answer_review_iff uid (review (some req)) =
      ground (arith, check_object_iff (codecs.decode_object req.object))

  -- Validation allows a request exactly when it comes by POST, its body is a review with a request
  -- of the replied UID, and, where the operation is CREATE or UPDATE, its object decodes to a policy
  -- that is valid and whose namespace is "*" or not protected by the configuration of the gate.
  pub handle_validate_iff :
      (uid method body : String)
      → Allows uid (handle_validate formats codecs (some (new_gate cfg)) method body)
        ↔ ((method ≡ "POST") × Requests uid (codecs.decode_review body))
  unfolding handle_validate
  handle_validate_iff uid method body =
      ground (arith, eq_iff method "POST", answer_review_iff uid (codecs.decode_review body))
