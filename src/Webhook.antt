-- ===== src/Webhook.antt =====
-- pkg/webhook/webhook.go: the admission of policies. The decoding of a request body and of the raw
-- object in it are arguments, as the code leaves them to encoding/json and to k8s.io/apimachinery. The
-- texts of the messages, and a failure to write the response, are left out.
pub mod Admission
pub mod Defaulting
pub mod Patching
use zen_cleaner.Prelude.{
  ℕ, ◌/◌, String, Bool, true, false, not, ◌||◌, Option, none, some, List, [], ◌∷◌, ◌==◌,
  if◌then◌else◌,
}
use zen_cleaner.Prelude.Int.{ℤ, pos, eqb_ℤ}
use zen_cleaner.Prelude.Text.{◌or_else◌}
use zen_cleaner.Api.{BehaviorSpec, ZenCleanerPolicySpec, ZenCleanerPolicy}
use zen_cleaner.Safety.{
  Gate, Config, Reason, Verdict, allow, refuse, new_gate, evaluate_policy_target,
}
use zen_cleaner.Validation.{Formats, PolicyError, validate_policy}

pub data Operation : Type 0 where
  create update delete connect : Operation

pub record AdmissionRequest : Type 0 where
  pub uid : String
  pub operation : Operation
  pub object : String

-- A body that is no review, and a review whose request is the nil pointer or not.
pub data DecodedReview : Type 0 where
  no_review : DecodedReview
  review : Option AdmissionRequest → DecodedReview

-- What the deserializer makes of a raw object.
pub data DecodedObject : Type 0 where
  no_object unexpected_object : DecodedObject
  policy_object : ZenCleanerPolicy → DecodedObject

pub record Codecs : Type 0 where
  pub decode_review : String → DecodedReview
  pub decode_object : String → DecodedObject

pub data AdmissionError : Type 0 where
  undecoded unexpected_object_type : AdmissionError
  invalid : PolicyError → AdmissionError
  target_refused : Reason → AdmissionError

-- The value that a patch adds.
pub data PatchValue : Type 0 where
  number : ℤ → PatchValue
  text : String → PatchValue
  defaults : ℤ → ℤ → String → PatchValue

-- A JSON patch; its "op" is always "add".
pub record Patch : Type 0 where
  pub path : String
  pub value : PatchValue

-- The code and the error of a denial, and the patches of a mutation that has some.
pub record AdmissionResponse : Type 0 where
  pub uid : String
  pub allowed : Bool
  pub result : Option (ℕ × AdmissionError)
  pub patch : List Patch

-- An HTTP error, a panic that net/http recovers from, or a review with its response.
pub data Reply : Type 0 where
  http_error : ℕ → Reply
  panicked : Reply
  responded : AdmissionResponse → Reply

abbrev pub is_checked : Operation → Bool
is_checked create = true
is_checked update = true
is_checked delete = false
is_checked connect = false

-- `gate` is nil until `SetTargetGate`.
unfoldable pub check_gate : Option Gate → ZenCleanerPolicySpec → Option AdmissionError
check_gate none spec = none
check_gate (some gate) spec = elim (evaluate_policy_target gate spec.target_resource) [
  | allow ↦ none
  | refuse reason ↦ some (target_refused reason)
]

abbrev pub as_invalid : Option PolicyError → Option AdmissionError
as_invalid none = none
as_invalid (some e) = some (invalid e)

unfoldable pub check_object : Formats → Option Gate → DecodedObject → Option AdmissionError
check_object formats gate no_object = some undecoded
check_object formats gate unexpected_object = some unexpected_object_type
check_object formats gate (policy_object policy) =
    as_invalid (validate_policy formats policy.spec) or_else check_gate gate policy.spec

unfoldable pub validate_request :
    Formats → Codecs → Option Gate → AdmissionRequest → Option AdmissionError
unfolding check_object
validate_request formats codecs gate req =
    if is_checked req.operation
    then check_object formats gate (codecs.decode_object req.object)
    else none

unfoldable pub validate_response : AdmissionRequest → Option AdmissionError → AdmissionResponse
validate_response req none = record { uid = req.uid; allowed = true; result = none; patch = [] }
validate_response req (some e) = record {
  uid = req.uid;
  allowed = false;
  result = some (422, e);
  patch = [];
}

unfoldable pub answer_review : (AdmissionRequest → AdmissionResponse) → DecodedReview → Reply
answer_review respond no_review = http_error 400
answer_review respond (review none) = panicked
answer_review respond (review (some req)) = responded (respond req)

unfoldable pub handle_validate : Formats → Codecs → Option Gate → String → String → Reply
unfolding answer_review validate_response
handle_validate formats codecs gate method body =
    if not (method == "POST")
    then http_error 405
    else answer_review (λ req. validate_response req (validate_request formats codecs gate req))
        (codecs.decode_review body)

unfoldable pub has_behavior : BehaviorSpec → Bool
has_behavior b =
    not (eqb_ℤ b.max_deletions_per_second (pos 0))
    || not (eqb_ℤ b.batch_size (pos 0))
    || b.dry_run
    || not (b.finalizer == "")
    || not (b.propagation_policy == "")
    || elim b.grace_period_seconds [ none ↦ false | some n ↦ true ]

abbrev pub patch_if : Bool → Patch → List Patch → List Patch
patch_if true p patches = p ∷ patches
patch_if false p patches = patches

-- The patches of a policy's behavior.
unfoldable pub default_patches : BehaviorSpec → List Patch
unfolding has_behavior
default_patches b =
    if not (has_behavior b)
    then record { path = "/spec/behavior"; value = defaults (pos 10) (pos 50) "Background" } ∷ []
    else patch_if (eqb_ℤ b.max_deletions_per_second (pos 0))
        (record { path = "/spec/behavior/maxDeletionsPerSecond"; value = number (pos 10) })
        (patch_if (eqb_ℤ b.batch_size (pos 0))
          (record { path = "/spec/behavior/batchSize"; value = number (pos 50) })
          (patch_if (b.propagation_policy == "")
            (record { path = "/spec/behavior/propagationPolicy"; value = text "Background" }) []))

pub data Mutation : Type 0 where
  patches : List Patch → Mutation
  unmutated : AdmissionError → Mutation

unfoldable pub mutate_object : DecodedObject → Mutation
mutate_object no_object = unmutated undecoded
mutate_object unexpected_object = unmutated unexpected_object_type
mutate_object (policy_object policy) = patches (default_patches policy.spec.behavior)

unfoldable pub mutate_policy : Codecs → AdmissionRequest → Mutation
unfolding mutate_object
mutate_policy codecs req = elim req.operation [
  | create ↦ mutate_object (codecs.decode_object req.object)
  | update ↦ patches []
  | delete ↦ patches []
  | connect ↦ patches []
]

unfoldable pub mutate_response : AdmissionRequest → Mutation → AdmissionResponse
mutate_response req (patches ps) = record {
  uid = req.uid;
  allowed = true;
  result = none;
  patch = ps;
}
mutate_response req (unmutated e) = record {
  uid = req.uid;
  allowed = false;
  result = some (500, e);
  patch = [];
}

unfoldable pub handle_mutate : Codecs → String → String → Reply
unfolding answer_review mutate_response mutate_policy
handle_mutate codecs method body =
    if not (method == "POST")
    then http_error 405
    else answer_review (λ req. mutate_response req (mutate_policy codecs req))
        (codecs.decode_review body)

-- The gate of the admission, from the namespaces of the controller's configuration.
unfoldable pub new_policy_target_gate : List String → String → Gate
new_policy_target_gate protected own =
    new_gate
      record { protected_namespaces = protected; own_namespace = own; deletes_disabled = false }
