-- ===== src/Health/Probes.antt =====
-- What the probes say of a replica, as a function of the election's history. docs/METRICS.md has a
-- standby that is not ready; the code and its comments have one that is.
use zen_cleaner.Prelude.{
  ◌<◌, ◌≡◌, refl, ◌↔◌, ◌⊎◌, inl, inr, Bool, true, false, Option, none, some, List, [], ◌∷◌, arith,
  ltb, ltb→lt, Bool-cases, Option-cases, Any,
}
use zen_cleaner.Prelude.Int.{ℤ}
use zen_cleaner.Health.{
  unsynced_count, informer_readiness, all_synced, informer_liveness, LeaderState, new_leader_state,
  HealthChecker, is_standby, readiness_check, liveness_recency, liveness_check,
  leadership_aware_readiness_check, LockError, other_error, reachable_after, ElectionEvent,
  leading_change, lock_operation, observe, observe_all, serve_readyz, serve_healthz,
}

-- The last operation of the lock failed with an error that does not count as an answer.
abbrev pub IsCutOff : List ElectionEvent → Type 0 → Type 0
IsCutOff [] before = before
IsCutOff (leading_change b ∷ more) before = IsCutOff more before
IsCutOff (lock_operation e ∷ more) before = IsCutOff more (e ≡ some other_error)

-- The last change of the leadership was to lead.
abbrev pub IsLeading : List ElectionEvent → Type 0 → Type 0
IsLeading [] before = before
IsLeading (leading_change b ∷ more) before = IsLeading more (b ≡ true)
IsLeading (lock_operation e ∷ more) before = IsLeading more before

-- An informer that says that it has not synced.
abbrev pub HasUnsynced : List (Option Bool) → Type 0
HasUnsynced informers = Any (λ i. i ≡ some false) informers

reachable_after_iff : (e : Option LockError) → (reachable_after e ≡ false) ↔ (e ≡ some other_error)
unfolding reachable_after
reachable_after_iff none = ground arith
reachable_after_iff (some other_error) = ground arith
reachable_after_iff (some e) = ground arith

observe_all-IsCutOff :
    (events : List ElectionEvent) (l : LeaderState) (before : Type 0)
    → (l.api_reachable ≡ false) ↔ before
    → ((observe_all events l).api_reachable ≡ false) ↔ IsCutOff events before
unfolding observe_all observe
observe_all-IsCutOff [] l before h = h
observe_all-IsCutOff (leading_change b ∷ more) l before h =
    observe_all-IsCutOff more (observe (leading_change b) l) before h
observe_all-IsCutOff (lock_operation e ∷ more) l before h =
    observe_all-IsCutOff more (observe (lock_operation e) l) (e ≡ some other_error)
      (reachable_after_iff e)

observe_all-IsLeading :
    (events : List ElectionEvent) (l : LeaderState) (before : Type 0)
    → (l.leading ≡ true) ↔ before
    → ((observe_all events l).leading ≡ true) ↔ IsLeading events before
unfolding observe_all observe
observe_all-IsLeading [] l before h = h
observe_all-IsLeading (leading_change b ∷ more) l before h =
    observe_all-IsLeading more (observe (leading_change b) l) (b ≡ true) (λ e. e, λ e. e)
observe_all-IsLeading (lock_operation e ∷ more) l before h =
    observe_all-IsLeading more (observe (lock_operation e) l) before h

unsynced_count_iff :
    (informers : List (Option Bool)) → (0 < unsynced_count informers) ↔ HasUnsynced informers
unfolding unsynced_count
unsynced_count_iff [] = ground arith
unsynced_count_iff (none ∷ more) = ground (arith, unsynced_count_iff more)
unsynced_count_iff (some true ∷ more) = ground (arith, unsynced_count_iff more)
unsynced_count_iff (some false ∷ more) = ground (arith, unsynced_count_iff more)

-- Whether /readyz fails, from the leader state.
IsUnready : LeaderState → HealthChecker → Type 0
IsUnready l h = (l.api_reachable ≡ false) ⊎ ((l.leading ≡ true) × HasUnsynced h.informers)

serve_readyz_of_state :
    (l : LeaderState) (h : HealthChecker)
    → h.leader ≡ some l
    → ((serve_readyz l h ≡ 503) ↔ IsUnready l h)
      × ((serve_readyz l h ≡ 503) ⊎ (serve_readyz l h ≡ 200))
unfolding IsUnready serve_readyz leadership_aware_readiness_check readiness_check is_standby
    informer_readiness
serve_readyz_of_state l h e =
    let unsynced = unsynced_count_iff h.informers in
    elim (Bool-cases l.api_reachable) [
      | inr cut ↦ simp cut ((λ x. inl refl, λ x. refl), inl refl)
      | inl there ↦ elim (Bool-cases l.leading) [
        | inr standby ↦
            simp (there, standby) ((λ x. absurd (omega (arith, x)), λ x. ground arith), inr refl)
        | inl leads ↦ elim (Bool-cases (ltb 0 (unsynced_count h.informers))) [
          | inl some_left ↦
              simp (there, leads, e, some_left)
                (
                  (
                    λ x. inr (refl, unsynced.0 (ltb→lt 0 (unsynced_count h.informers) some_left)),
                    λ x. refl,
                  ),
                  inl refl,
                )
          | inr none_left ↦
              simp (there, leads, e, none_left)
                ((λ x. absurd (omega (arith, x)), λ x. ground (arith, unsynced)), inr refl)
        ]
      ]
    ]

new-IsReachable : (new_leader_state.api_reachable ≡ false) ↔ ⊥
unfolding new_leader_state
new-IsReachable = ground arith

new-IsStandby : (new_leader_state.leading ≡ true) ↔ ⊥
unfolding new_leader_state
new-IsStandby = ground arith

-- The probe /readyz of a replica whose checker has the leader state that the election's events have
-- left answers 503 exactly where the last operation of the election's lock failed with an error other
-- than the eight that count as an answer of the API server, or the last change of the leadership was
-- to lead and an informer says that it has not synced; it answers 200 anywhere else. So a standby
-- whose lock works is ready.
pub serve_readyz_iff :
    (events : List ElectionEvent) (h : HealthChecker)
    → let leader = observe_all events new_leader_state in
      h.leader ≡ some leader
      → ((serve_readyz leader h ≡ 503)
          ↔ (IsCutOff events ⊥ ⊎ (IsLeading events ⊥ × HasUnsynced h.informers)))
        × ((serve_readyz leader h ≡ 503) ⊎ (serve_readyz leader h ≡ 200))
unfolding IsUnready
serve_readyz_iff events h e =
    let l = observe_all events new_leader_state in
    let cut = observe_all-IsCutOff events new_leader_state ⊥ new-IsReachable in
    let lead = observe_all-IsLeading events new_leader_state ⊥ new-IsStandby in
    let (unready, codes) = serve_readyz_of_state l h e in
    (
      (
        λ x. elim (unready.0 x) [ inl a ↦ inl (cut.0 a) | inr (b, u) ↦ inr (lead.0 b, u) ],
        λ x. elim x [
          | inl a ↦ unready.1 (inl (cut.1 a))
          | inr (b, u) ↦ unready.1 (inr (lead.1 b, u))
        ],
      ),
      codes,
    )

informer_liveness-none : (is : List (Option Bool)) → informer_liveness (some is) ≡ none
unfolding informer_liveness
informer_liveness-none [] = refl
informer_liveness-none (i ∷ is) = ground (arith, Bool-cases (all_synced (i ∷ is)))

liveness_recency-none : (now : ℤ) (h : HealthChecker) → liveness_recency now h ≡ none
unfolding liveness_recency
liveness_recency-none now h = ground (arith, Option-cases h.last_evaluation)

-- The probe /healthz answers 200 whatever the state of the replica, also where the informers of a
-- leader have not synced and no policy has been evaluated for longer than the checker allows.
pub serve_healthz-alive : (now : ℤ) (h : HealthChecker) → serve_healthz now h ≡ 200
unfolding serve_healthz liveness_check
serve_healthz-alive now h = ground (
  arith,
  informer_liveness-none h.informers,
  liveness_recency-none now h,
  Bool-cases (is_standby h.leader),
)
