-- ===== src/Controller/Tracking/Laws.antt =====
-- What tracking and cleanup leave behind.
use zen_cleaner.Prelude.{
  String, ◌≡◌, refl, sym, ap, subst, ◌∙◌, ◌≢◌, inl, inr, true, false, Option, none, some, List, [],
  ◌∷◌, arith, ◌==◌, eq_iff, eq_refl, if◌then◌else◌, Bool-cases, lookup, insert, erase,
  lookup-insert_same, lookup-insert_other, lookup-erase_same, lookup-erase_other,
}
use zen_cleaner.Api.{TargetResourceSpec, ZenCleanerPolicy}
use zen_cleaner.Controller.Tracking.{
  Tracked, or_empty, get_or_create_rate_limiter, track_policy_uid, track_policy_spec,
  cleanup_rate_limiter, cleanup_tracked, cleanup_policy_resources, label_of, match_labels_equal,
  match_expressions_equal, label_selectors_equal, target_changed, should_recreate_informer,
  handle_informer_recreation, track_policy,
}

-- No state is left for a name and a UID.
pub record IsForgotten (nn uid : String) (r : Tracked) : Type 0 where
  pub no_uid : lookup nn r.policy_uids ≡ none
  pub no_limiter : lookup uid r.rate_limiters ≡ none
  pub no_spec : lookup uid r.policy_specs ≡ none

-- The limiter and the spec of a UID are those of another state.
pub record Keeps (uid : String) (r s : Tracked) : Type 0 where
  pub limiter : lookup uid s.rate_limiters ≡ lookup uid r.rate_limiters
  pub spec : lookup uid s.policy_specs ≡ lookup uid r.policy_specs

cleanup_tracked_lem :
    (nn uid other : String) (r : Tracked)
    → let t = cleanup_tracked nn (some uid) r in
      IsForgotten nn uid t × ((uid == other) ≡ false → Keeps other r t)
unfolding cleanup_tracked cleanup_rate_limiter
cleanup_tracked_lem nn uid other r = (
  record {
    no_uid = lookup-erase_same nn r.policy_uids;
    no_limiter = lookup-erase_same uid r.rate_limiters;
    no_spec = lookup-erase_same uid r.policy_specs;
  },
  λ d. record {
    limiter = lookup-erase_other uid other r.rate_limiters d;
    spec = lookup-erase_other uid other r.policy_specs d;
  },
)

handle_informer_recreation-policy_uids :
    (policy : ZenCleanerPolicy) (r : Tracked)
    → (handle_informer_recreation policy r).policy_uids ≡ r.policy_uids
unfolding handle_informer_recreation
handle_informer_recreation-policy_uids policy r =
    ground (arith, Bool-cases (should_recreate_informer policy r))

tracked_uid :
    (nn : String) (policy : ZenCleanerPolicy) (r : Tracked)
    → lookup nn (get_or_create_rate_limiter policy (track_policy nn policy r)).1.policy_uids
      ≡ some policy.uid
unfolding get_or_create_rate_limiter track_policy track_policy_spec track_policy_uid
tracked_uid nn policy r =
    ap (λ m. lookup nn m)
      (handle_informer_recreation-policy_uids policy
        (record r { policy_uids = insert nn policy.uid r.policy_uids }))
    ∙ lookup-insert_same nn policy.uid r.policy_uids

-- After a policy has been tracked and given a limiter, the cleanup for its name leaves no UID, no
-- limiter and no spec of it. It keeps the limiter and the spec of every policy of another UID.
pub cleanup_policy_resources-track_policy :
    (nn other : String) (policy : ZenCleanerPolicy) (r : Tracked)
    → let s = (get_or_create_rate_limiter policy (track_policy nn policy r)).1 in
      let t = cleanup_policy_resources nn s in
      IsForgotten nn policy.uid t × ((policy.uid == other) ≡ false → Keeps other s t)
unfolding cleanup_policy_resources
cleanup_policy_resources-track_policy nn other policy r =
    let s = (get_or_create_rate_limiter policy (track_policy nn policy r)).1 in
    subst
      (λ o.
        let t = cleanup_tracked nn o s in
        IsForgotten nn policy.uid t × ((policy.uid == other) ≡ false → Keeps other s t))
      (sym (tracked_uid nn policy r)) (cleanup_tracked_lem nn policy.uid other s)

lookup-erase :
    {A : Type 0} (key wanted : String) (m : List (String × A))
    → lookup wanted (erase key m) ≡ (if key == wanted then none else lookup wanted m)
lookup-erase {A} key wanted m = elim (Bool-cases (key == wanted)) [
  | inl e ↦ simp e (
      subst (λ k. lookup k (erase key m) ≡ none) ((eq_iff key wanted).0 e)
        (lookup-erase_same key m))
  | inr e ↦ simp e (lookup-erase_other key wanted m e)
]

lookup-insert :
    {A : Type 0} (key wanted : String) (value : A) (m : List (String × A))
    → lookup wanted (insert key value m) ≡ (if key == wanted then some value else lookup wanted m)
lookup-insert {A} key wanted value m = elim (Bool-cases (key == wanted)) [
  | inl e ↦ simp e (
      subst (λ k. lookup k (insert key value m) ≡ some value) ((eq_iff key wanted).0 e)
        (lookup-insert_same key value m))
  | inr e ↦ simp e (lookup-insert_other key wanted value m e)
]

module _ (nn : String) (t : Tracked) where
  cleanup_tracked-policy_uids :
      (o : Option String) (n : String)
      → lookup nn t.policy_uids ≡ o
      → lookup n (cleanup_tracked nn o t).policy_uids
        ≡ (if nn == n then none else lookup n t.policy_uids)
  unfolding cleanup_tracked cleanup_rate_limiter
  cleanup_tracked-policy_uids none n h = elim (Bool-cases (nn == n)) [
    | inl e ↦ simp e (subst (λ k. lookup k t.policy_uids ≡ none) ((eq_iff nn n).0 e) h)
    | inr e ↦ simp e refl
  ]
  cleanup_tracked-policy_uids (some uid) n h = lookup-erase nn n t.policy_uids

  -- The UIDs by name after a cleanup, and after a policy has been tracked.
  pub cleanup_policy_resources-policy_uids :
      (n : String)
      → lookup n (cleanup_policy_resources nn t).policy_uids
        ≡ (if nn == n then none else lookup n t.policy_uids)
  unfolding cleanup_policy_resources
  cleanup_policy_resources-policy_uids n =
      cleanup_tracked-policy_uids (lookup nn t.policy_uids) n refl

  pub track_policy-policy_uids :
      (policy : ZenCleanerPolicy) (n : String)
      → lookup n (track_policy nn policy t).policy_uids
        ≡ (if nn == n then some policy.uid else lookup n t.policy_uids)
  unfolding track_policy track_policy_spec track_policy_uid
  track_policy-policy_uids policy n =
      ap (λ m. lookup n m)
        (handle_informer_recreation-policy_uids policy
          (record t { policy_uids = insert nn policy.uid t.policy_uids }))
      ∙ lookup-insert nn n policy.uid t.policy_uids

  -- The spec of another UID is left alone by tracking. A cleanup leaves the specs of the UIDs that
  -- the name does not have.
  pub track_policy-policy_specs :
      (policy : ZenCleanerPolicy) (u : String)
      → (policy.uid == u) ≡ false
      → lookup u (track_policy nn policy t).policy_specs ≡ lookup u t.policy_specs
  unfolding track_policy track_policy_spec track_policy_uid handle_informer_recreation
  track_policy-policy_specs policy u h = ground (
    arith,
    Bool-cases (should_recreate_informer policy (track_policy_uid nn policy.uid t)),
    lookup-insert policy.uid u policy.spec t.policy_specs,
    lookup-insert policy.uid u policy.spec (erase policy.uid t.policy_specs),
    lookup-erase policy.uid u t.policy_specs,
  )

  cleanup_tracked-policy_specs :
      (o : Option String) (u : String)
      → lookup u (cleanup_tracked nn o t).policy_specs ≢ none
      → (o ≢ some u) × (lookup u t.policy_specs ≢ none)
  unfolding cleanup_tracked cleanup_rate_limiter
  cleanup_tracked-policy_specs none u h = (λ e. absurd (ground arith), h)
  cleanup_tracked-policy_specs (some uid) u h =
      ground (arith, lookup-erase uid u t.policy_specs, eq_iff uid u)

  pub cleanup_policy_resources-policy_specs :
      (u : String)
      → lookup u (cleanup_policy_resources nn t).policy_specs ≢ none
      → (lookup nn t.policy_uids ≢ some u) × (lookup u t.policy_specs ≢ none)
  unfolding cleanup_policy_resources
  cleanup_policy_resources-policy_specs u h =
      cleanup_tracked-policy_specs (lookup nn t.policy_uids) u h

-- A target that selects one label.
abbrev pub selecting : TargetResourceSpec → String → String → TargetResourceSpec
selecting target key value = record target {
  label_selector = some (record { match_labels = (key, value) ∷ []; match_expressions = [] });
}

label_of_missing :
    (key other value : String) → (other == key) ≡ false → label_of key ((other, value) ∷ []) ≡ ""
unfolding label_of insert lookup
label_of_missing key other value d =
    ap (λ (o : Option String). or_empty o) (lookup-insert_other other key value [] d)

match_labels_equal_empty :
    (key other value : String)
    → (other == key) ≡ false
    → match_labels_equal ((key, "") ∷ []) ((other, value) ∷ []) ≡ true
unfolding match_labels_equal
match_labels_equal_empty key other value d = simp (label_of_missing key other value d, eq_refl "")

-- A target that selects one label with the empty value does not count as changed where it then
-- selects any other label with any value, so its informer is not recreated.
pub target_changed-selecting :
    (target : TargetResourceSpec) (key other value : String)
    → (other == key) ≡ false
    → target_changed (selecting target key "") (selecting target other value) ≡ false
unfolding target_changed label_selectors_equal match_expressions_equal
target_changed-selecting target key other value d = ground (
  arith,
  eq_refl target.api_version,
  eq_refl target.kind,
  eq_refl target.namespace,
  match_labels_equal_empty key other value d,
)
