-- ===== src/Controller/Resolver/SelfHealing.antt =====
-- The cache has only what a mapper confirmed, so a fallback never stays.
use zen_cleaner.Prelude.{
  String, ◌≡◌, refl, subst, ◌∙◌, ◌↔◌, ◌⊎◌, inl, inr, true, Option, none, some, List, [], ◌∷◌, arith,
  eq_iff, Bool-cases, Option-cases, Any,
}
use zen_cleaner.Validation.Gvr.{GroupVersionResource}
use zen_cleaner.Controller.Resolver.{
  GroupVersionKind, same_kind, Mapper, Cache, remember, resolve_mapped, ask, resolve_cached,
  resolve_gvr,
}

-- The calls, with the mapper that each one meets.
abbrev pub Calls : Type 0
Calls = List (Option Mapper × GroupVersionKind)

abbrev pub resolve_all : (String → String) → Calls → Cache → Cache
resolve_all to_lower [] cache = cache
resolve_all to_lower ((mapper, gvk) ∷ more) cache =
    resolve_all to_lower more (resolve_gvr to_lower mapper gvk cache).1

-- A call whose mapper gives this resource for this kind.
abbrev pub Confirms : GroupVersionKind → GroupVersionResource → Calls → Type 0
Confirms gvk gvr calls = Any (λ (mapper, k). (k ≡ gvk) × (ask mapper gvk ≡ some gvr)) calls

abbrev pub no_cache : Cache
no_cache gvk = none

same_kind_iff : (a b : GroupVersionKind) → (same_kind a b ≡ true) ↔ (a ≡ b)
unfolding same_kind
same_kind_iff a b =
    ground (arith, eq_iff a.group b.group, eq_iff a.version b.version, eq_iff a.kind b.kind)

-- What one call leaves in the cache was there before, or is the answer of its mapper.
resolve_gvr_lem :
    (to_lower : String → String) (mapper : Option Mapper) (asked gvk : GroupVersionKind)
    (cache : Cache) (gvr : GroupVersionResource)
    → (resolve_gvr to_lower mapper asked cache).1 gvk ≡ some gvr
    → (cache gvk ≡ some gvr) ⊎ ((asked ≡ gvk) × (ask mapper gvk ≡ some gvr))
unfolding resolve_gvr resolve_cached resolve_mapped remember
resolve_gvr_lem to_lower mapper asked gvk cache gvr h = elim (Option-cases (cache asked)) [
  | inr (old, e) ↦ inl (simp e at h)
  | inl e ↦ elim (Option-cases (ask mapper asked)) [
    | inl m ↦ inl (simp (e, m) at h)
    | inr (new, m) ↦ elim (Bool-cases (same_kind asked gvk)) [
      | inl k ↦
          let same = (same_kind_iff asked gvk).0 k in
          inr (same, subst (λ g. ask mapper g ≡ some new) same m ∙ (simp (e, m, k) at h))
      | inr k ↦ inl (simp (e, m, k) at h)
    ]
  ]
]

resolve_all-confirmed :
    (to_lower : String → String) (calls : Calls) (cache : Cache) (gvk : GroupVersionKind)
    (gvr : GroupVersionResource)
    → resolve_all to_lower calls cache gvk ≡ some gvr
    → (cache gvk ≡ some gvr) ⊎ Confirms gvk gvr calls
resolve_all-confirmed to_lower [] cache gvk gvr h = inl h
resolve_all-confirmed to_lower ((mapper, asked) ∷ more) cache gvk gvr h =
    elim (resolve_all-confirmed to_lower more (resolve_gvr to_lower mapper asked cache).1 gvk gvr
      h) [
        | inr c ↦ inr (inr c)
        | inl e ↦ elim (resolve_gvr_lem to_lower mapper asked gvk cache gvr e) [
          | inl old ↦ inl old
          | inr new ↦ inr (inl new)
        ]
      ]

resolve_gvr_mapped :
    (to_lower : String → String) (mapper : Option Mapper) (gvk : GroupVersionKind) (cache : Cache)
    (gvr : GroupVersionResource)
    → cache gvk ≡ none
    → ask mapper gvk ≡ some gvr
    → (resolve_gvr to_lower mapper gvk cache).0 ≡ gvr
unfolding resolve_gvr resolve_cached resolve_mapped
resolve_gvr_mapped to_lower mapper gvk cache gvr h m = simp (h, m) refl

-- From the empty cache, after any calls: what is cached for a kind is the answer that the mapper of
-- one of those calls gave for it, and never a fallback. So a kind that no mapper has answered yet
-- gets the mapper's resource as soon as there is one, whatever fallbacks it got before.
pub resolve_all-heals :
    (to_lower : String → String) (calls : Calls) (gvk : GroupVersionKind)
    (gvr : GroupVersionResource)
    → (resolve_all to_lower calls no_cache gvk ≡ some gvr → Confirms gvk gvr calls)
      × ((mapper : Option Mapper)
          → ask mapper gvk ≡ some gvr
          → ((other : GroupVersionResource) → ¬ Confirms gvk other calls)
          → (resolve_gvr to_lower mapper gvk (resolve_all to_lower calls no_cache)).0 ≡ gvr)
resolve_all-heals to_lower calls gvk gvr = (
  λ h. confirmed gvr h,
  λ mapper m fresh. elim (Option-cases (resolve_all to_lower calls no_cache gvk)) [
    | inl e ↦ resolve_gvr_mapped to_lower mapper gvk (resolve_all to_lower calls no_cache) gvr e m
    | inr (other, e) ↦ absurd (fresh other (confirmed other e))
  ],
)
  where
    confirmed :
        (other : GroupVersionResource)
        → resolve_all to_lower calls no_cache gvk ≡ some other
        → Confirms gvk other calls
    confirmed other e = elim (resolve_all-confirmed to_lower calls no_cache gvk other e) [
      | inl z ↦ cc
      | inr c ↦ c
    ]
