-- ===== src/Controller/Target/Capability.antt =====
-- When a target is accepted, and how failures are counted.
use zen_cleaner.Prelude.{
  ℕ, ◌+◌, String, ◌≡◌, refl, sym, ap, ◌∙◌, ◌≢◌, ◌↔◌, ◌⊎◌, inl, inr, true, false, Option, none, some,
  List, [], ◌∷◌, arith, ◌==◌, eq_iff, Bool-cases, Option-cases, all, All, lookup, insert,
  lookup-insert_same, lookup-insert_other, lookup-erase_same, lookup-erase_other,
}
use zen_cleaner.Prelude.Text.{ne_of_eq, eq_of_ne}
use zen_cleaner.Prelude.Int.{pos, ◌+ℤ◌, ◌<ℤ◌}
use zen_cleaner.Unstructured.{Time}
use zen_cleaner.Api.{TargetResourceSpec}
use zen_cleaner.Controller.Target.{
  TargetErrorType, Cluster, TargetProbeEntry, Probes, probe_key, gvk_of, is_malformed, cached_entry,
  cached, probe, record_probe, answer, Discovered, resources, undiscovered, find_resource,
  discover_in, probe_discovered, list_probe, group_of, version_of, normalize_namespace,
  validate_target_capability, Failures, target_failure_count, record_target_failure,
  clear_target_failure, follow_validation, validate_target_or_classify,
}

-- Every entry of the cache is a granted probe.
abbrev pub OnlyGrants : Probes → Type 0
OnlyGrants = All (λ (key, entry). entry.granted ≡ true)

insert-OnlyGrants :
    (key : String) (entry : TargetProbeEntry) (probes : Probes)
    → entry.granted ≡ true
    → OnlyGrants probes
    → OnlyGrants (insert key entry probes)
unfolding insert
insert-OnlyGrants key entry [] g h = (g, tt)
insert-OnlyGrants key entry ((k, e) ∷ more) g (f, h) =
    ground (arith, insert-OnlyGrants key entry more g h)

-- What an entry of the cache says: nothing, or a grant.
abbrev IsGrant : Option TargetProbeEntry → Type 0
IsGrant none = Unit
IsGrant (some entry) = entry.granted ≡ true

lookup-IsGrant : (key : String) (probes : Probes) → OnlyGrants probes → IsGrant (lookup key probes)
unfolding lookup
lookup-IsGrant key [] h = tt
lookup-IsGrant key ((k, first) ∷ more) (f, h) = elim (Bool-cases (k == key)) [
  | inl b ↦ simp b f
  | inr b ↦ simp b (lookup-IsGrant key more h)
]

-- The cache holds a grant for the target that is not older than five minutes.
abbrev pub IsFresh : Time → Option TargetProbeEntry → Type 0
IsFresh now none = ⊥
IsFresh now (some entry) = now <ℤ entry.checked_at +ℤ pos 300000000000

-- The List of a name is permitted, in the namespace of the target or, for "*", in all of them.
abbrev pub Lists : Cluster → TargetResourceSpec → String → Type 0
Lists cluster target name =
    let list = cluster.list (group_of target.api_version) (version_of target.api_version) name in
    (target.namespace ≡ "*" → list "" ≡ none)
    × (target.namespace ≢ "*" → list target.namespace ≡ none)

-- A resource of the kind that is no subresource.
abbrev pub IsOf : Cluster → String → String → String → Type 0
IsOf cluster kind k name = (cluster.equal_fold k kind ≡ true) × (cluster.has_slash name ≡ false)

-- The first resource of the kind may be listed.
abbrev pub ServesFirst : Cluster → TargetResourceSpec → List (String × String) → Type 0
ServesFirst cluster target [] = ⊥
ServesFirst cluster target ((k, name) ∷ more) =
    (IsOf cluster target.kind k name × Lists cluster target name)
    ⊎ ((¬ IsOf cluster target.kind k name) × ServesFirst cluster target more)

abbrev pub Serves : Cluster → TargetResourceSpec → Discovered → Type 0
Serves cluster target (undiscovered e) = ⊥
Serves cluster target (resources names) = ServesFirst cluster target names

-- Discovery, where there is a client, names a resource of the kind, and its List is permitted; without
-- a client, the List of the naive plural is.
abbrev pub IsAvailable :
    Cluster → TargetResourceSpec → Option (String → String → Discovered) → Type 0
IsAvailable cluster target none = Lists cluster target (cluster.plural_for_kind target.kind)
IsAvailable cluster target (some ask) =
    Serves cluster target (ask (group_of target.api_version) (version_of target.api_version))

normalize_namespace-all : (ns : String) → ns ≡ "*" → normalize_namespace ns ≡ ""
unfolding normalize_namespace
normalize_namespace-all ns e = ground (arith, e, eq_iff ns "*", eq_iff ns "", ne_of_eq "*" "" refl)

normalize_namespace-one : (ns : String) → ns ≢ "*" → normalize_namespace ns ≡ ns
unfolding normalize_namespace
normalize_namespace-one ns n = elim (Bool-cases (ns == "")) [
  | inl b ↦ simp b (sym ((eq_iff ns "").0 b))
  | inr b ↦ simp (b, eq_of_ne ns "*" n) refl
]

permitted_iff :
    (cluster : Cluster) (target : TargetResourceSpec) (name : String)
    → (cluster.list
          (group_of target.api_version)
          (version_of target.api_version)
          name
          (normalize_namespace target.namespace)
        ≡ none)
      ↔ Lists cluster target name
permitted_iff cluster target name =
    let list = cluster.list (group_of target.api_version) (version_of target.api_version) name in
    let ns = target.namespace in
    elim (Bool-cases (ns == "*")) [
      | inl b ↦
          let e = (eq_iff ns "*").0 b in
          let norm = ap list (normalize_namespace-all ns e) in
          (λ h. (λ _. sym norm ∙ h, λ n. absurd (n e)), λ (all, one). norm ∙ all e)
      | inr b ↦
          let n = ne_of_eq ns "*" b in
          let norm = ap list (normalize_namespace-one ns n) in
          (λ h. (λ e. absurd (n e), λ _. sym norm ∙ h), λ (all, one). norm ∙ one n)
    ]

list_probe_iff :
    (cluster : Cluster) (target : TargetResourceSpec) (name : String)
    → (list_probe cluster target name ≡ none) ↔ Lists cluster target name
unfolding list_probe
list_probe_iff cluster target name = ground (
  arith,
  permitted_iff cluster target name,
  Option-cases (
      cluster.list (group_of target.api_version) (version_of target.api_version) name
        (normalize_namespace target.namespace)),
)

probe_found_iff :
    (cluster : Cluster) (target : TargetResourceSpec) (names : List (String × String))
    → (probe_discovered cluster target (inl (find_resource cluster target.kind names)) ≡ none)
      ↔ ServesFirst cluster target names
unfolding probe_discovered find_resource
probe_found_iff cluster target [] = ground arith
probe_found_iff cluster target ((k, name) ∷ more) =
    ground (arith, list_probe_iff cluster target name, probe_found_iff cluster target more)

probe_discovered_iff :
    (cluster : Cluster) (target : TargetResourceSpec) (d : Discovered)
    → (probe_discovered cluster target (discover_in cluster target.kind d) ≡ none)
      ↔ Serves cluster target d
unfolding probe_discovered discover_in
probe_discovered_iff cluster target (undiscovered e) = ground arith
probe_discovered_iff cluster target (resources names) = probe_found_iff cluster target names

probe_iff :
    (cluster : Cluster) (target : TargetResourceSpec)
    (client : Option (String → String → Discovered))
    → (probe cluster target client ≡ none) ↔ IsAvailable cluster target client
unfolding probe
probe_iff cluster target none = list_probe_iff cluster target (cluster.plural_for_kind target.kind)
probe_iff cluster target (some ask) =
    probe_discovered_iff cluster target
      (ask (group_of target.api_version) (version_of target.api_version))

cached_entry_iff :
    (now : Time) (e : Option TargetProbeEntry)
    → IsGrant e
    → ((cached_entry now e ≡ some none) × IsFresh now e)
      ⊎ ((cached_entry now e ≡ none) × (IsFresh now e → ⊥))
unfolding cached_entry
cached_entry_iff now none g = ground arith
cached_entry_iff now (some entry) g = ground arith

answer_iff :
    (now : Time) (cluster : Cluster) (target : TargetResourceSpec) (probes : Probes)
    (c : Option (Option TargetErrorType)) (fresh : Type 0)
    → ((c ≡ some none) × fresh) ⊎ ((c ≡ none) × (fresh → ⊥))
    → OnlyGrants probes
    → let (r, probes') = answer now cluster target c probes in
      ((r ≡ none) ↔ (fresh ⊎ IsAvailable cluster target cluster.discovery))
      × OnlyGrants probes'
      × ((r ≡ none) ⊎ (probes' ≡ probes))
unfolding answer record_probe
answer_iff now cluster target probes none fresh f h =
    elim (Option-cases (probe cluster target cluster.discovery)) [
      | inl e ↦ simp e (
        ground (arith, probe_iff cluster target cluster.discovery),
        insert-OnlyGrants _ _ probes refl h,
        inl refl,
      )
      | inr (class, e) ↦
          simp e (ground (arith, probe_iff cluster target cluster.discovery), h, inr refl)
    ]
answer_iff now cluster target probes (some none) fresh f h = (ground arith, h, inl refl)
answer_iff now cluster target probes (some (some class)) fresh f h = (ground arith, h, inr refl)

-- Where the cache holds grants only, it does so afterwards, and it changes only where the target is
-- accepted. A target is accepted exactly where its configuration is well formed, and it has a fresh
-- grant or is available.
pub validate_target_capability_iff :
    (now : Time) (cluster : Cluster) (target : TargetResourceSpec) (probes : Probes)
    → OnlyGrants probes
    → let (r, probes') = validate_target_capability now cluster target probes in
      let fresh = IsFresh now (lookup (probe_key (gvk_of target) target.namespace) probes) in
      ((r ≡ none)
        ↔ ((is_malformed target ≡ false) × (fresh ⊎ IsAvailable cluster target cluster.discovery)))
      × OnlyGrants probes'
      × ((r ≡ none) ⊎ (probes' ≡ probes))
unfolding validate_target_capability cached
validate_target_capability_iff now cluster target probes h =
    let entry = lookup (probe_key (gvk_of target) target.namespace) probes in
    let known = cached_entry_iff now entry (lookup-IsGrant _ probes h) in
    let (accepted, grants, kept) =
      answer_iff now cluster target probes (cached_entry now entry) (IsFresh now entry) known h in
    elim (Bool-cases (is_malformed target)) [
      | inl b ↦ simp b (ground arith, h, inr refl)
      | inr b ↦ simp b ((λ r. (refl, accepted.0 r), λ (m, f). accepted.1 f), grants, kept)
    ]

abbrev count_in : Option ℕ → ℕ
count_in none = 0
count_in (some n) = n

follow_validation-counts :
    (uid other : String) (r : Option TargetErrorType) (probes : Probes) (failures : Failures)
    → let (r', failures', probes') = follow_validation uid (r, probes) failures in
      (r' ≡ none → target_failure_count uid failures' ≡ 0)
      × ((e : TargetErrorType)
          → r' ≡ some e
          → target_failure_count uid failures' ≡ target_failure_count uid failures + 1)
      × ((uid == other) ≡ false
          → target_failure_count other failures' ≡ target_failure_count other failures)
unfolding follow_validation target_failure_count record_target_failure clear_target_failure
follow_validation-counts uid other none probes failures = (
  λ _. ap count_in (lookup-erase_same uid failures),
  λ e h. absurd (ground (arith, h)),
  λ d. ap count_in (lookup-erase_other uid other failures d),
)
follow_validation-counts uid other (some e) probes failures =
    let n = target_failure_count uid failures + 1 in
    (
      λ h. absurd (ground (arith, h)),
      λ e h. ap count_in (lookup-insert_same uid n failures),
      λ d. ap count_in (lookup-insert_other uid other n failures d),
    )

-- A validation that fails raises the policy's count of consecutive failures by one; one that succeeds
-- sets it back to zero. The counts of other policies stay.
pub validate_target_or_classify-counts :
    (now : Time) (cluster : Cluster) (uid other : String) (target : TargetResourceSpec)
    (failures : Failures) (probes : Probes)
    → let (r, failures', probes') =
        validate_target_or_classify now cluster uid target failures probes in
      (r ≡ none → target_failure_count uid failures' ≡ 0)
      × ((e : TargetErrorType)
          → r ≡ some e
          → target_failure_count uid failures' ≡ target_failure_count uid failures + 1)
      × ((uid == other) ≡ false
          → target_failure_count other failures' ≡ target_failure_count other failures)
unfolding validate_target_or_classify
validate_target_or_classify-counts now cluster uid other target failures probes =
    follow_validation-counts uid other (validate_target_capability now cluster target probes).0
      (validate_target_capability now cluster target probes).1 failures
