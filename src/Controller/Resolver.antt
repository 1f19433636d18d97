-- ===== src/Controller/Resolver.antt =====
-- pkg/controller/gvr_resolver.go: the resource of a kind, from the REST mapper and its cache, and
-- `resolveGVRForDeletion` of reconciler_helpers.go. The mapper is an argument of each call, since its
-- answers change while discovery catches up. The locks make each call one step.
pub mod SelfHealing
use zen_cleaner.Prelude.{String, Bool, ◌&&◌, Option, none, some, ◌==◌, if◌then◌else◌}
use zen_cleaner.Validation.Gvr.{GroupVersionResource, pluralize_kind}

pub record GroupVersionKind : Type 0 where
  pub group : String
  pub version : String
  pub kind : String

unfoldable pub same_kind : GroupVersionKind → GroupVersionKind → Bool
same_kind a b = a.group == b.group && a.version == b.version && a.kind == b.kind

-- `RESTMapping`: none is an error.
abbrev pub Mapper : Type 0
Mapper = GroupVersionKind → Option GroupVersionResource

abbrev pub Cache : Type 0
Cache = GroupVersionKind → Option GroupVersionResource

unfoldable pub remember : GroupVersionKind → GroupVersionResource → Cache → Cache
unfolding same_kind
remember gvk gvr cache other = if same_kind gvk other then some gvr else cache other

unfoldable pub resolve_with_pluralization :
    (String → String) → GroupVersionKind → GroupVersionResource
resolve_with_pluralization to_lower gvk = record {
  group = gvk.group;
  version = gvk.version;
  resource = pluralize_kind to_lower gvk.kind;
}

-- With the answer of the mapper, if there is one.
unfoldable pub resolve_mapped :
    (String → String)
    → GroupVersionKind
    → Option GroupVersionResource
    → Cache
    → GroupVersionResource × Cache
unfolding remember resolve_with_pluralization
resolve_mapped to_lower gvk none cache = (resolve_with_pluralization to_lower gvk, cache)
resolve_mapped to_lower gvk (some gvr) cache = (gvr, remember gvk gvr cache)

-- `none` is the nil mapper.
abbrev pub ask : Option Mapper → GroupVersionKind → Option GroupVersionResource
ask none gvk = none
ask (some mapper) gvk = mapper gvk

unfoldable pub resolve_cached :
    (String → String)
    → Option Mapper
    → GroupVersionKind
    → Option GroupVersionResource
    → Cache
    → GroupVersionResource × Cache
unfolding resolve_mapped
resolve_cached to_lower mapper gvk (some gvr) cache = (gvr, cache)
resolve_cached to_lower mapper gvk none cache = resolve_mapped to_lower gvk (ask mapper gvk) cache

unfoldable pub resolve_gvr :
    (String → String) → Option Mapper → GroupVersionKind → Cache → GroupVersionResource × Cache
unfolding resolve_cached
resolve_gvr to_lower mapper gvk cache = resolve_cached to_lower mapper gvk (cache gvk) cache

-- The resolver may be nil; it has no error.
unfoldable pub resolve_gvr_for_deletion :
    (String → String)
    → Option (Option Mapper)
    → GroupVersionKind
    → Cache
    → GroupVersionResource × Cache
unfolding resolve_gvr resolve_with_pluralization
resolve_gvr_for_deletion to_lower none gvk cache = (resolve_with_pluralization to_lower gvk, cache)
resolve_gvr_for_deletion to_lower (some mapper) gvk cache = resolve_gvr to_lower mapper gvk cache
