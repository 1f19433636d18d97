-- ===== src/Validation/Gvr.antt =====
-- pkg/validation/gvr.go: the group, version and resource of a target. `schema.ParseGroupVersion` of
-- k8s.io/apimachinery is an argument, as is `strings.ToLower`.
pub mod Slashes
pub mod RoundTrip
use Prim.Native.Char.{code}
use zen_cleaner.Prelude.{
  ◌<◌, String, ◌<>◌, Bool, true, false, not, ◌&&◌, ◌||◌, Option, none, some, List, [], ◌∷◌, ◌==◌,
  eqb, if◌then◌else◌,
}
use zen_cleaner.Prelude.Text.{has_code, split_on, ends_with}

pub record GroupVersionResource : Type 0 where
  pub group : String
  pub version : String
  pub resource : String

pub data GvrError : Type 0 where
  api_version_empty kind_empty invalid_api_version_format api_version_multiple_separators
        api_version_group_empty api_version_version_empty unparsed api_version_missing_version :
      GvrError

pub data Parsed : Type 0 where
  parsed : GroupVersionResource → Parsed
  failed : GvrError → Parsed

abbrev pub has_prefix_v : String → Bool
has_prefix_v String.[] = false
has_prefix_v (String.◌∷◌ c s) = eqb (code c) 0x76

-- The parts of a grouped API version.
unfoldable pub check_parts : List String → Option GvrError
check_parts (group ∷ version ∷ []) =
    if group == ""
    then some api_version_group_empty
    else if version == ""
    then some api_version_version_empty
    else none
check_parts _ = some api_version_multiple_separators

unfoldable pub check_format : String → Option GvrError
unfolding check_parts
check_format api_version =
    if not (has_code 0x2f api_version)
    then (if has_prefix_v api_version then none else some invalid_api_version_format)
    else check_parts (split_on 0x2f api_version)

-- The text without its last character.
but_last : String → String
but_last String.[] = String.[]
but_last (String.◌∷◌ c s) = elim s [
  | String.[] ↦ String.[]
  | String.◌∷◌ d r ↦ String.◌∷◌ c (but_last s)
]

abbrev longer_than_one : String → Bool
longer_than_one (String.◌∷◌ c (String.◌∷◌ d s)) = true
longer_than_one _ = false

unfoldable pub pluralize_kind : (String → String) → String → String
unfolding ends_with but_last
pluralize_kind to_lower kind =
    let lower = to_lower kind in
    if ends_with "s" lower
      || ends_with "x" lower
      || ends_with "z" lower
      || ends_with "ch" lower
      || ends_with "sh" lower
    then lower <> "es"
    else if ends_with "y" lower && longer_than_one lower
    then but_last lower <> "ies"
    else lower <> "s"

-- What follows `schema.ParseGroupVersion`.
unfoldable pub with_resource : Option (String × String) → String → Parsed
with_resource none resource = failed unparsed
with_resource (some (group, version)) resource =
    if version == ""
    then failed api_version_missing_version
    else parsed record { group = group; version = version; resource = resource }

unfoldable pub parse_gvr :
    (String → Option (String × String)) → (String → String) → String → String → Parsed
unfolding check_format
parse_gvr parse_group_version to_lower api_version kind =
    if api_version == ""
    then failed api_version_empty
    else if kind == ""
    then failed kind_empty
    else elim (check_format api_version) [
      | some e ↦ failed e
      | none ↦ with_resource (parse_group_version api_version) (pluralize_kind to_lower kind)
    ]
