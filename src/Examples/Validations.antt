-- ===== src/Examples/Validations.antt =====
-- Validation and the parser of API versions on examples.
use zen_cleaner.Prelude.{String, ◌≡◌, ap, ◌∙◌, ◌↔◌, Option, none, some, List, [], ◌∷◌}
use zen_cleaner.Prelude.Text.{split_on}
use zen_cleaner.Validation.{validate_policy}
use zen_cleaner.Validation.Defs.{IsValid}
use zen_cleaner.Validation.Laws.{validate_policy_iff}
use zen_cleaner.Validation.Gvr.{GroupVersionResource, parsed, parse_gvr}
use zen_cleaner.Validation.Gvr.Slashes.{split_on_of_NoSlash, split_on-join_slash}
use zen_cleaner.Validation.Gvr.RoundTrip.{
  ParsesGroupVersion, print_api_version, IsGvr, parse_gvr_iff,
}
use zen_cleaner.Examples.{clean_jobs, formats}

validate_policy_iff_example :
    (validate_policy formats clean_jobs ≡ none) ↔ IsValid formats clean_jobs
validate_policy_iff_example = validate_policy_iff formats clean_jobs

abbrev of_parts : List String → Option (String × String)
of_parts [] = none
of_parts (v ∷ []) = some ("", v)
of_parts (g ∷ v ∷ []) = some (g, v)
of_parts (g ∷ v ∷ w ∷ more) = none

abbrev parse_group_version : String → Option (String × String)
parse_group_version s = of_parts (split_on 0x2f s)

documented : ParsesGroupVersion parse_group_version
documented = record {
  core = λ v h n. ap of_parts (split_on_of_NoSlash v n);
  grouped = λ g v ng nv.
      ap of_parts (split_on-join_slash g v ng ∙ ap (λ vs. g ∷ vs) (split_on_of_NoSlash v nv));
}

abbrev deployments : GroupVersionResource
deployments = record { group = "apps"; version = "v1"; resource = "deployments" }

parse_gvr_iff_example :
    (parse_gvr parse_group_version (λ s. s) "apps/v1" "deployment" ≡ parsed deployments)
    ↔ (("apps/v1" ≡ print_api_version "apps" "v1") × IsGvr (λ s. s) "deployment" deployments)
parse_gvr_iff_example =
    parse_gvr_iff parse_group_version documented (λ s. s) "apps/v1" "deployment" deployments
