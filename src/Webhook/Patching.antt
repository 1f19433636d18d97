-- ===== src/Webhook/Patching.antt =====
-- Which requests are mutated.
use zen_cleaner.Prelude.{String, ◌≡◌, ◌↔◌, true, none, some, List, [], arith, eq_iff}
use zen_cleaner.Webhook.{
  Operation, create, update, delete, connect, DecodedReview, no_review, review, DecodedObject,
  no_object, unexpected_object, policy_object, Codecs, Reply, http_error, panicked, responded,
  Patch, default_patches, mutate_object, mutate_policy, mutate_response, answer_review,
  handle_mutate,
}

-- The reply allows the request with this UID, with these patches.
abbrev pub Mutates : String → List Patch → Reply → Type 0
Mutates uid ps (http_error code) = ⊥
Mutates uid ps panicked = ⊥
Mutates uid ps (responded r) = (r.uid ≡ uid) × (r.allowed ≡ true) × (r.patch ≡ ps)

abbrev pub NeedsObject : List Patch → DecodedObject → Type 0
NeedsObject ps no_object = ⊥
NeedsObject ps unexpected_object = ⊥
NeedsObject ps (policy_object policy) = default_patches policy.spec.behavior ≡ ps

-- A CREATE takes the defaults of its policy, another operation no patch.
abbrev pub Needs : List Patch → Operation → DecodedObject → Type 0
Needs ps create decoded = NeedsObject ps decoded
Needs ps update decoded = [] ≡ ps
Needs ps delete decoded = [] ≡ ps
Needs ps connect decoded = [] ≡ ps

abbrev pub NeedsReview : Codecs → String → List Patch → DecodedReview → Type 0
NeedsReview codecs uid ps no_review = ⊥
NeedsReview codecs uid ps (review none) = ⊥
NeedsReview codecs uid ps (review (some req)) =
    (req.uid ≡ uid) × Needs ps req.operation (codecs.decode_object req.object)

mutate_response_iff :
    (codecs : Codecs) (uid : String) (ps : List Patch) (decoded : DecodedReview)
    → Mutates uid ps (answer_review (λ req. mutate_response req (mutate_policy codecs req)) decoded)
      ↔ NeedsReview codecs uid ps decoded
unfolding answer_review mutate_response mutate_policy mutate_object
mutate_response_iff codecs uid ps no_review = ground arith
mutate_response_iff codecs uid ps (review none) = ground arith
mutate_response_iff codecs uid ps (review (some req)) = ground arith

-- Mutation allows a request with some patches exactly when it comes by POST, its body is a review
-- of a request with the replied UID, and the patches are, for a CREATE, the defaults of the policy
-- that its object decodes to, and for another operation none.
pub handle_mutate_iff :
    (codecs : Codecs) (uid method body : String) (ps : List Patch)
    → Mutates uid ps (handle_mutate codecs method body)
      ↔ ((method ≡ "POST") × NeedsReview codecs uid ps (codecs.decode_review body))
unfolding handle_mutate
handle_mutate_iff codecs uid method body ps =
    ground
      (arith, eq_iff method "POST", mutate_response_iff codecs uid ps (codecs.decode_review body))
