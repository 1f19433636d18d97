-- ===== src/Controller/Informers/Sharing.antt =====
-- Services stand on informers, informers on validated targets.
use zen_cleaner.Prelude.{
  String, ◌≡◌, refl, sym, ap, subst, ◌∙◌, ◌↔◌, ◌⊎◌, inl, inr, true, ◌||◌, Option, none, some, List,
  ◌∷◌, arith, ◌==◌, eq_iff, Bool-cases,
}
use zen_cleaner.Api.{ZenCleanerPolicy}
use zen_cleaner.Safety.{contains}
use zen_cleaner.Controller.Target.{TargetErrorType, Probes, Failures, validate_target_or_classify}
use zen_cleaner.Controller.Reconcile.Evaluation.{evaluation_service_key}
use zen_cleaner.Controller.Informers.{
  World, Shared, InformerError, create_informer, get_or_create_resource_informer, create_service,
  get_or_create_evaluation_service, after_informer, after_service, choose_path,
}

-- Each service has the informer of its key.
abbrev IsBacked : Shared → Type 0
IsBacked s =
    (key : String)
    → contains s.evaluation_services key ≡ true
    → contains s.resource_informers key ≡ true

-- The informers stay.
abbrev Grows : Shared → Shared → Type 0
Grows s t =
    (key : String)
    → contains s.resource_informers key ≡ true
    → contains t.resource_informers key ≡ true

contains_cons :
    (key k : String) (set : List String) → contains (key ∷ set) k ≡ ((key == k) || contains set k)
unfolding contains
contains_cons key k set = refl

module _ (w : World) (policy : ZenCleanerPolicy) (s : Shared) where
  -- The target of the policy passes the capability check.
  abbrev pub Passes : Type 0
  Passes =
      (validate_target_or_classify w.now w.cluster policy.uid policy.spec.target_resource s.failures
        s.probes).0
      ≡ none

  create_informer_lem :
      (key k : String) (v : Option TargetErrorType × Failures × Probes)
      → let t = (create_informer w key v s) in
        ((contains t.1.resource_informers k ≡ true) ↔ (
          (contains s.resource_informers k ≡ true)
          ⊎ ((key ≡ k) × (v.0 ≡ none) × (w.synced ≡ true))))
        × (t.1.evaluation_services ≡ s.evaluation_services)
        × ((t.0 ≡ none) ↔ ((v.0 ≡ none) × (w.synced ≡ true)))
  unfolding create_informer
  create_informer_lem key k (none, f, p) =
      ground (arith, contains_cons key k s.resource_informers, eq_iff key k, Bool-cases w.synced)
  create_informer_lem key k (some e, f, p) = ground arith

  get_or_create_resource_informer_lem :
      (k : String)
      → let t = get_or_create_resource_informer w policy s in
        let key = evaluation_service_key policy in
        ((contains t.1.resource_informers k ≡ true)
          ↔ ((contains s.resource_informers k ≡ true) ⊎ ((key ≡ k) × Passes × (w.synced ≡ true))))
        × (t.1.evaluation_services ≡ s.evaluation_services)
        × ((t.0 ≡ none)
            ↔ ((contains s.resource_informers key ≡ true) ⊎ (Passes × (w.synced ≡ true))))
  unfolding get_or_create_resource_informer
  get_or_create_resource_informer_lem k =
      let key = evaluation_service_key policy in
      elim (Bool-cases (contains s.resource_informers key)) [
        | inl h ↦ simp h (ground (arith, h))
        | inr h ↦ simp h (
            ground (
              arith,
              create_informer_lem key k (
                  validate_target_or_classify w.now w.cluster policy.uid policy.spec.target_resource
                    s.failures s.probes),
            ))
      ]

  informer-Grows : Grows s (get_or_create_resource_informer w policy s).1
  informer-Grows k h = (get_or_create_resource_informer_lem k).0.1 (inl h)

  informer-IsBacked : IsBacked s → IsBacked (get_or_create_resource_informer w policy s).1
  informer-IsBacked backed k h =
      informer-Grows k
        (backed k (ap (λ l. contains l k) (sym (get_or_create_resource_informer_lem k).1) ∙ h))

  -- The informer of the policy's key is there once there is no error.
  informer-there :
      (get_or_create_resource_informer w policy s).0 ≡ none
      → contains
          (get_or_create_resource_informer w policy s).1.resource_informers
          (evaluation_service_key policy)
        ≡ true
  informer-there h =
      let lem = get_or_create_resource_informer_lem (evaluation_service_key policy) in
      elim (lem.2.0 h) [
        | inl there ↦ lem.0.1 (inl there)
        | inr passes ↦ lem.0.1 (inr (refl, passes.0, passes.1))
      ]

create_service-IsBacked :
    (key : String) (r : Option InformerError × Shared)
    → (r.0 ≡ none → contains r.1.resource_informers key ≡ true)
    → IsBacked r.1
    → IsBacked (create_service key r).1
unfolding create_service
create_service-IsBacked key (some e, s) there backed = backed
create_service-IsBacked key (none, s) there backed = λ k h.
    ground (arith, contains_cons key k s.evaluation_services, eq_iff key k, there refl, backed k)

create_service-informers :
    (key : String) (r : Option InformerError × Shared)
    → (create_service key r).1.resource_informers ≡ r.1.resource_informers
unfolding create_service
create_service-informers key (some e, s) = refl
create_service-informers key (none, s) = refl

-- What a call keeps: the backing of the services, and the informers.
abbrev Preserves : Shared → Shared → Type 0
Preserves s t = (IsBacked s → IsBacked t) × Grows s t

service-Preserves :
    (w : World) (policy : ZenCleanerPolicy) (s : Shared)
    → Preserves s (get_or_create_evaluation_service w policy s).1
unfolding get_or_create_evaluation_service
service-Preserves w policy s =
    let key = evaluation_service_key policy in
    let r = get_or_create_resource_informer w policy s in
    elim (Bool-cases (contains s.evaluation_services key)) [
      | inl h ↦ simp h (λ backed. backed, λ k g. g)
      | inr h ↦ simp h (
        λ backed.
            create_service-IsBacked key r (informer-there w policy s)
              (informer-IsBacked w policy s backed),
        λ k g.
            ap (λ l. contains l k) (create_service-informers key r) ∙ informer-Grows w policy s k g,
      )
    ]

after_informer-state : (r : Option InformerError × Shared) → (after_informer r).1 ≡ r.1
unfolding after_informer
after_informer-state (none, s) = refl
after_informer-state (some e, s) = refl

after_service-Preserves :
    (w : World) (policy : ZenCleanerPolicy) (r : Option InformerError × Shared)
    → Preserves r.1 (after_service w policy r).1
unfolding after_service
after_service-Preserves w policy (none, s) = (λ backed. backed, λ k g. g)
after_service-Preserves w policy (some e, s) =
    subst (Preserves s) (sym (after_informer-state (get_or_create_resource_informer w policy s)))
      (informer-IsBacked w policy s, informer-Grows w policy s)

-- An evaluation keeps every informer that there is, and every service keeps having the informer of
-- its key.
choose_path-IsBacked :
    (w w' : World) (policy : ZenCleanerPolicy) (s : Shared)
    → IsBacked s
    → IsBacked (choose_path w w' policy s).1 × Grows s (choose_path w w' policy s).1
unfolding choose_path
choose_path-IsBacked w w' policy s backed =
    let r = get_or_create_evaluation_service w policy s in
    let first = service-Preserves w policy s in
    let second = after_service-Preserves w' policy r in
    (second.0 (first.0 backed), λ k g. second.1 k (first.1 k g))
