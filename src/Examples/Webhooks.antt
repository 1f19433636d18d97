-- ===== src/Examples/Webhooks.antt =====
-- The admission webhook on examples.
use zen_cleaner.Prelude.{
  String, ◌≡◌, refl, ◌↔◌, false, Option, none, some, List, [], ◌∷◌, ◌==◌, if◌then◌else◌,
}
use zen_cleaner.Prelude.Int.{ℤ, pos, ◌<ℤ◌}
use zen_cleaner.Api.{BehaviorSpec}
use zen_cleaner.Safety.{new_gate}
use zen_cleaner.Validation.Defs.{IsBehavior}
use zen_cleaner.Controller.Batches.{resolve_batch_size}
use zen_cleaner.Webhook.{
  create, review, no_object, policy_object, Codecs, PatchValue, number, text, defaults, Patch,
  default_patches, handle_validate,
}
use zen_cleaner.Webhook.Admission.{Allows, Requests, handle_validate_iff}
use zen_cleaner.Webhook.Defaulting.{AppliesPatches, with_defaults, apply-default_patches_lem}
use zen_cleaner.Examples.{careful, formats, gate_config, clean_policy}

-- The body is the object of a CREATE, and one text is a policy.
abbrev codecs : Codecs
codecs = record {
  decode_review = λ body. review (some (record { uid = "r1"; operation = create; object = body }));
  decode_object = λ raw. if raw == "policy" then policy_object clean_policy else no_object;
}

handle_validate_iff_example :
    Allows "r1" (handle_validate formats codecs (some (new_gate gate_config)) "POST" "policy") ↔ (
      ◌≡◌ {A = String} "POST" "POST"
      × Requests formats codecs gate_config "r1" (codecs.decode_review "policy"))
handle_validate_iff_example = handle_validate_iff formats codecs gate_config "r1" "POST" "policy"

apply_at : String → PatchValue → BehaviorSpec → BehaviorSpec
apply_at path (number n) b =
    if path == "/spec/behavior/batchSize"
    then record b { batch_size = n }
    else record b { max_deletions_per_second = n }
apply_at path (text p) b = record b { propagation_policy = p }
apply_at path (defaults rate size p) b = record {
  max_deletions_per_second = rate;
  batch_size = size;
  dry_run = false;
  finalizer = "";
  propagation_policy = p;
  grace_period_seconds = none;
  allow_workload_deletion = false;
}

apply : List Patch → BehaviorSpec → BehaviorSpec
apply [] b = b
apply (p ∷ more) b = apply more (apply_at p.path p.value b)

documented : AppliesPatches apply
unfolding apply apply_at
documented = record {
  none_left = λ b. refl;
  whole = λ rate size p more b. refl;
  rate = λ n more b. refl;
  size = λ n more b. refl;
  propagation = λ p more b. refl;
}

abbrev hasty : BehaviorSpec
hasty = record careful { batch_size = pos 0; propagation_policy = "" }

apply-default_patches_lem_example :
    (apply (default_patches hasty) hasty ≡ with_defaults hasty)
    × (default_patches (apply (default_patches hasty) hasty) ≡ [])
    × (IsBehavior (apply (default_patches hasty) hasty) ↔ IsBehavior hasty)
    × (IsBehavior hasty
        → (controller : Option ℤ)
        → pos 0 <ℤ resolve_batch_size (apply (default_patches hasty) hasty) controller)
apply-default_patches_lem_example = apply-default_patches_lem apply documented hasty
