-- ===== src/Controller/Reconcile/Ownership.antt =====
-- Which tracked specs belong to a name.
use zen_cleaner.Prelude.{
  String, ◌≡◌, sym, ap, subst, ◌∙◌, ◌≢◌, ◌⊎◌, inl, inr, none, some, [], ◌∷◌, arith, ◌==◌, eq_iff,
  eq_refl, Bool-cases, lookup,
}
use zen_cleaner.Api.{ZenCleanerPolicy}
use zen_cleaner.Controller.Tracking.{Tracked, track_policy, cleanup_policy_resources}
use zen_cleaner.Controller.Tracking.Laws.{
  cleanup_policy_resources-policy_uids, track_policy-policy_uids, track_policy-policy_specs,
  cleanup_policy_resources-policy_specs,
}
use zen_cleaner.Controller.Reconcile.Lifecycle.{
  Names, names_of, is_tracked, step_names, Schedule, reconcile_all, tracked_after, reconcile-Leaves,
  reconcile-step_names,
}
use zen_cleaner.Controller.Reconcile.{
  Fetched, absent, fetch_failed, present, State, Evaluator, Reconciler, reconcile,
}

-- Every tracked spec belongs to a UID that some name has.
abbrev pub IsOwned : State → Type 0
IsOwned s =
    (u : String) → lookup u s.tracked.policy_specs ≢ none → (n : String) × (names_of s n ≡ some u)

-- A name changes its UID only by way of an absent policy.
abbrev pub Replaces : String → Names → Fetched → Type 0
Replaces nn names absent = Unit
Replaces nn names fetch_failed = Unit
Replaces nn names (present policy) = (names nn ≡ none) ⊎ (names nn ≡ some policy.uid)

abbrev pub IsOrderly : Reconciler → Schedule → Names → Type 0
IsOrderly r [] names = Unit
IsOrderly r ((nn, fetched) ∷ more) names =
    Replaces nn names fetched × IsOrderly r more (step_names r nn fetched names)

abbrev Owns : Tracked → Type 0
Owns t =
    (u : String) → lookup u t.policy_specs ≢ none → (n : String) × (lookup n t.policy_uids ≡ some u)

Owns-cleanup : (nn : String) (t : Tracked) → Owns t → Owns (cleanup_policy_resources nn t)
Owns-cleanup nn t own u h =
    let (other, kept) = cleanup_policy_resources-policy_specs nn t u h in
    let (n, e) = own u kept in
    (
      n,
      cleanup_policy_resources-policy_uids nn t n ∙ elim (Bool-cases (nn == n)) [
        | inl b ↦
            absurd
              (other (subst (λ k. lookup k t.policy_uids ≡ some u) (sym ((eq_iff nn n).0 b)) e))
        | inr b ↦ simp b e
      ],
    )

Owns-track :
    (nn : String) (policy : ZenCleanerPolicy) (t : Tracked)
    → (lookup nn t.policy_uids ≡ none) ⊎ (lookup nn t.policy_uids ≡ some policy.uid)
    → Owns t
    → Owns (track_policy nn policy t)
Owns-track nn policy t free own u h = elim (Bool-cases (policy.uid == u)) [
  | inl b ↦ (
    nn,
    track_policy-policy_uids nn t policy nn
        ∙ simp (eq_refl nn) (ap some ((eq_iff policy.uid u).0 b)),
  )
  | inr b ↦
      let (n, e) = own u (λ z. h (track_policy-policy_specs nn t policy u b ∙ z)) in
      (
        n,
        track_policy-policy_uids nn t policy n ∙ elim (Bool-cases (nn == n)) [
          | inl c ↦
              let e' : lookup nn t.policy_uids ≡ some u =
                subst (λ k. lookup k t.policy_uids ≡ some u) (sym ((eq_iff nn n).0 c)) e in
              absurd (ground (arith, free, e', b, eq_iff policy.uid u))
          | inr c ↦ simp c e
        ],
      )
]

module _ (r : Reconciler) (evaluator : Evaluator) (nn : String) where
  tracked_after-Owns :
      (fetched : Fetched) (s : State)
      → Replaces nn (names_of s) fetched
      → Owns s.tracked
      → Owns (tracked_after r evaluator nn fetched s.tracked)
  unfolding tracked_after names_of
  tracked_after-Owns absent s free own = Owns-cleanup nn s.tracked own
  tracked_after-Owns fetch_failed s free own = own
  tracked_after-Owns (present policy) s free own = elim (Bool-cases (is_tracked r policy)) [
    | inl h ↦ simp h (Owns-track nn policy s.tracked free own)
    | inr h ↦ simp h own
  ]

  reconcile-IsOwned :
      (fetched : Fetched) (s : State)
      → Replaces nn (names_of s) fetched
      → IsOwned s
      → IsOwned (reconcile r evaluator nn fetched s).1
  unfolding names_of
  reconcile-IsOwned fetched s free own u h =
      let (uids, specs) = reconcile-Leaves r evaluator nn fetched s in
      let (n, e) =
        tracked_after-Owns fetched s free own u (λ z. h (ap (λ m. lookup u m) specs ∙ z)) in
      (n, ap (λ m. lookup n m) uids ∙ e)

-- Where every tracked spec belongs to a UID that some name has, that still holds after any sequence
-- of reconciles in which each name changes its UID only by way of an absent policy.
pub reconcile_all-IsOwned :
    (r : Reconciler) (evaluator : Evaluator) (schedule : Schedule) (s : State)
    → IsOrderly r schedule (names_of s)
    → IsOwned s
    → IsOwned (reconcile_all r evaluator schedule s)
reconcile_all-IsOwned r evaluator [] s orderly own = own
reconcile_all-IsOwned r evaluator ((nn, fetched) ∷ more) s (free, orderly) own =
    let t = (reconcile r evaluator nn fetched s).1 in
    reconcile_all-IsOwned r evaluator more t
      (subst (IsOrderly r more) (sym (reconcile-step_names r evaluator nn fetched s)) orderly)
      (reconcile-IsOwned r evaluator nn fetched s free own)
