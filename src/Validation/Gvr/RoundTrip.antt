-- ===== src/Validation/Gvr/RoundTrip.antt =====
-- An API version is read back from the group and the version that it prints.
use zen_cleaner.Prelude.{
  String, ◌≡◌, refl, sym, ap, subst, ◌∙◌, ◌≢◌, ◌↔◌, inl, inr, true, Option, none, some, arith, ◌==◌,
  eq_iff, if◌then◌else◌, Bool-cases,
}
use zen_cleaner.Prelude.Text.{has_code, ne_of_eq, split_on}
use zen_cleaner.Validation.Gvr.Slashes.{
  NoSlash, join_slash, split_on_of_NoSlash, split_on-join_slash, has_code-join_slash,
  Joins-split_on, Printed, check_parts-Printed, join_slash-nonempty,
}
use zen_cleaner.Validation.Gvr.{
  GroupVersionResource, parsed, has_prefix_v, check_parts, check_format, pluralize_kind,
  with_resource, parse_gvr,
}

-- The documented behaviour of `schema.ParseGroupVersion` on a version, and on a group and a version.
pub record ParsesGroupVersion (parse : String → Option (String × String)) : Type 0 where
  pub core : (v : String) → v ≢ "" → NoSlash v → parse v ≡ some ("", v)
  pub grouped : (g v : String) → NoSlash g → NoSlash v → parse (join_slash g v) ≡ some (g, v)

unfoldable pub print_api_version : String → String → String
print_api_version group version = if group == "" then version else join_slash group version

-- A core version starts with "v"; a group has no other condition than that it is there.
pub record IsGvr (to_lower : String → String) (kind : String) (r : GroupVersionResource)
    : Type 0 where
  pub named : kind ≢ ""
  pub versioned : r.version ≢ ""
  pub flat : NoSlash r.group × NoSlash r.version
  pub core : r.group ≡ "" → has_prefix_v r.version ≡ true
  pub plural : r.resource ≡ pluralize_kind to_lower kind

parsed-injective : (a b : GroupVersionResource) → parsed a ≡ parsed b → a ≡ b
parsed-injective a b e = cc

module _ (parse : String → Option (String × String)) (documented : ParsesGroupVersion parse)
    (to_lower : String → String) where
  gvr_of : String → String → String → GroupVersionResource
  gvr_of g v kind = record { group = g; version = v; resource = pluralize_kind to_lower kind }

  parse_gvr-join_slash :
      (g v kind : String)
      → g ≢ ""
      → v ≢ ""
      → kind ≢ ""
      → NoSlash g
      → NoSlash v
      → parse_gvr parse to_lower (join_slash g v) kind ≡ parsed (gvr_of g v kind)
  unfolding parse_gvr check_format check_parts with_resource gvr_of
  parse_gvr-join_slash g v kind hg hv hk ng nv =
      simp
        (
          has_code-join_slash g v,
          split_on-join_slash g v ng,
          split_on_of_NoSlash v nv,
          join_slash-nonempty g v,
        )
        (ground (arith, documented.grouped g v ng nv, eq_iff g "", eq_iff v "", eq_iff kind ""))

  parse_gvr_core :
      (v kind : String)
      → v ≢ ""
      → kind ≢ ""
      → NoSlash v
      → has_prefix_v v ≡ true
      → parse_gvr parse to_lower v kind ≡ parsed (gvr_of "" v kind)
  unfolding parse_gvr check_format with_resource gvr_of
  parse_gvr_core v kind hv hk nv p =
      simp (documented.core v hv nv, nv, p) (ground (arith, eq_iff v "", eq_iff kind ""))

  parse_gvr-nonempty :
      (s kind : String) (r : GroupVersionResource)
      → parse_gvr parse to_lower s kind ≡ parsed r
      → (s ≢ "") × (kind ≢ "") × (check_format s ≡ none)
  unfolding parse_gvr
  parse_gvr-nonempty s kind r h = ground (arith, eq_iff s "", eq_iff kind "")

  check_format_core : (s : String) → NoSlash s → check_format s ≡ none → has_prefix_v s ≡ true
  unfolding check_format
  check_format_core s n h = ground arith

  check_format-Printed : (s : String) → has_code 0x2f s ≡ true → check_format s ≡ none → Printed s
  unfolding check_format
  check_format-Printed s n h =
      check_parts-Printed s (split_on 0x2f s) (Joins-split_on s) n (ground arith)

  gvr_of-IsGvr :
      (g v kind : String)
      → v ≢ ""
      → kind ≢ ""
      → NoSlash g
      → NoSlash v
      → (g ≡ "" → has_prefix_v v ≡ true)
      → IsGvr to_lower kind (gvr_of g v kind)
  unfolding gvr_of
  gvr_of-IsGvr g v kind hv hk ng nv p = record {
    named = hk;
    versioned = hv;
    flat = (ng, nv);
    core = p;
    plural = refl;
  }

  abbrev Reads : String → String → GroupVersionResource → Type 0
  Reads s kind r = (s ≡ print_api_version r.group r.version) × IsGvr to_lower kind r

  parsed-Reads :
      (s kind : String) (a r : GroupVersionResource)
      → parse_gvr parse to_lower s kind ≡ parsed r
      → parse_gvr parse to_lower s kind ≡ parsed a
      → Reads s kind a
      → Reads s kind r
  parsed-Reads s kind a r h e reads = subst (Reads s kind) (parsed-injective a r (sym e ∙ h)) reads

  Reads_of_NoSlash :
      (s kind : String) (r : GroupVersionResource)
      → NoSlash s
      → parse_gvr parse to_lower s kind ≡ parsed r
      → Reads s kind r
  unfolding print_api_version gvr_of
  Reads_of_NoSlash s kind r n h =
      let (hs, hk, ok) = parse_gvr-nonempty s kind r h in
      let p = check_format_core s n ok in
      parsed-Reads s kind (gvr_of "" s kind) r h (parse_gvr_core s kind hs hk n p)
        (refl, gvr_of-IsGvr "" s kind hs hk refl n (λ _. p))

  print_of_nonempty : (g v : String) → g ≢ "" → print_api_version g v ≡ join_slash g v
  unfolding print_api_version
  print_of_nonempty g v h = ground (arith, eq_iff g "")

  print_of_empty : (g v : String) → g ≡ "" → print_api_version g v ≡ v
  unfolding print_api_version
  print_of_empty g v h = ground (arith, eq_iff g "")

  Reads_of_Printed :
      (s kind : String) (r : GroupVersionResource)
      → Printed s
      → parse_gvr parse to_lower s kind ≡ parsed r
      → Reads s kind r
  unfolding gvr_of
  Reads_of_Printed s kind r (g, v, e, ng, nv, hg, hv) h =
      let (hs, hk, ok) = parse_gvr-nonempty s kind r h in
      parsed-Reads s kind (gvr_of g v kind) r h
        (ap (λ t. parse_gvr parse to_lower t kind) e ∙ parse_gvr-join_slash g v kind hg hv hk ng nv)
        (e ∙ sym (print_of_nonempty g v hg), gvr_of-IsGvr g v kind hv hk ng nv (λ z. absurd (hg z)))

  gvr_of_unique :
      (kind : String) (r : GroupVersionResource)
      → IsGvr to_lower kind r
      → gvr_of r.group r.version kind ≡ r
  unfolding gvr_of
  gvr_of_unique kind r g =
      ap (λ t. record { group = r.group; version = r.version; resource = t }) (sym g.plural)

  parse_gvr_of_Reads :
      (s kind : String) (r : GroupVersionResource)
      → Reads s kind r
      → parse_gvr parse to_lower s kind ≡ parsed r
  parse_gvr_of_Reads s kind r (e, g) = elim (Bool-cases (r.group == "")) [
    | inl b ↦
        let z = (eq_iff r.group "").0 b in
        ap (λ t. parse_gvr parse to_lower t kind) (e ∙ print_of_empty r.group r.version z)
        ∙ parse_gvr_core r.version kind g.versioned g.named g.flat.1 (g.core z)
        ∙ ap (λ t. parsed (gvr_of t r.version kind)) (sym z)
        ∙ ap parsed (gvr_of_unique kind r g)
    | inr b ↦
        let z = (ne_of_eq r.group "" b) in
        ap (λ t. parse_gvr parse to_lower t kind) (e ∙ print_of_nonempty r.group r.version z)
        ∙ parse_gvr-join_slash r.group r.version kind z g.versioned g.named g.flat.0 g.flat.1
        ∙ ap parsed (gvr_of_unique kind r g)
  ]

  -- Given the documented behaviour of `schema.ParseGroupVersion`: parsing an API version and a kind
  -- gives a group, a version and a resource exactly when the API version is what the group and
  -- the version print, the version alone or the two around a "/"; neither holds a "/" itself, the
  -- version is not empty, one without a group starts with "v", the kind is not empty, and the
  -- resource is its naive plural.
  pub parse_gvr_iff :
      (s kind : String) (r : GroupVersionResource)
      → (parse_gvr parse to_lower s kind ≡ parsed r)
        ↔ ((s ≡ print_api_version r.group r.version) × IsGvr to_lower kind r)
  parse_gvr_iff s kind r = (
    λ h. elim (Bool-cases (has_code 0x2f s)) [
      | inl has ↦
          let (hs, hk, ok) = parse_gvr-nonempty s kind r h in
          Reads_of_Printed s kind r (check_format-Printed s has ok) h
      | inr n ↦ Reads_of_NoSlash s kind r n h
    ],
    λ (e, g). parse_gvr_of_Reads s kind r (e, g),
  )
