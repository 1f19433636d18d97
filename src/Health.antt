-- ===== src/Health.antt =====
-- internal/health/health.go, with the checks of the controller: pkg/controller/health.go and
-- leadership.go, the lock observer of internal/election/election.go, and the handlers of newHealthMux
-- in cmd/zen-cleaner/main.go. A check answers an error or nil; the texts of the errors are left out.
-- The HTTP server and the election itself are not modelled: what they report comes as events.
pub mod Probes
use zen_cleaner.Prelude.{
  ℕ, ◌+◌, ◌-◌, Bool, true, false, not, ◌&&◌, Option, none, some, List, [], ◌∷◌, ltb, if◌then◌else◌,
}
use zen_cleaner.Prelude.Int.{ℤ, pos, ◌-ℤ◌, ltb_ℤ}

pub data HealthError : Type 0 where
  not_initialized api_unreachable not_ready inactive : HealthError

abbrev pub Answer : Type 0
Answer = Option HealthError

-- What `HasSynced` answers for each informer, if it has the function; none if the getter is nil.
abbrev pub Informers : Type 0
Informers = Option (List (Option Bool))

unfoldable pub unsynced_count : List (Option Bool) → ℕ
unsynced_count [] = 0
unsynced_count (none ∷ more) = unsynced_count more
unsynced_count (some synced ∷ more) =
    let rest = unsynced_count more in if synced then rest else rest + 1

unfoldable pub informer_readiness : Informers → Answer
unfolding unsynced_count
informer_readiness none = some not_initialized
informer_readiness (some informers) =
    if ltb 0 (unsynced_count informers) then some not_ready else none

-- The loop that stops at the first informer that has not synced decides nothing.
unfoldable pub all_synced : List (Option Bool) → Bool
all_synced [] = true
all_synced (none ∷ more) = all_synced more
all_synced (some synced ∷ more) = synced && all_synced more

unfoldable pub informer_liveness : Informers → Answer
unfolding all_synced
informer_liveness none = some not_initialized
informer_liveness (some []) = none
informer_liveness (some (i ∷ informers)) = if not (all_synced (i ∷ informers)) then none else none

unfoldable pub informer_startup : Informers → Answer
informer_startup none = some not_initialized
informer_startup (some informers) = none

-- An activity checker: the getter may be nil, and its time may be zero.
pub record ActivityChecker : Type 0 where
  pub last_activity : Option (Option ℤ)
  pub max_time_since_activity : ℤ

-- `ReadinessCheck` and `LivenessCheck` are the same.
unfoldable pub activity_check : ℤ → ActivityChecker → Answer
activity_check now c = elim c.last_activity [
  | none ↦ some not_initialized
  | some none ↦ none
  | some (some t) ↦ if ltb_ℤ c.max_time_since_activity (now -ℤ t) then some not_ready else none
]

-- A composite answers the first error of its checkers.
unfoldable pub composite_check : List Answer → Answer
composite_check [] = none
composite_check (some e ∷ more) = some e
composite_check (none ∷ more) = composite_check more

pub record LeaderState : Type 0 where
  pub leading : Bool
  pub api_reachable : Bool

unfoldable pub new_leader_state : LeaderState
new_leader_state = record { leading = false; api_reachable = true }

-- The checker of the controller: its leader state, what its informers answer, the time of the last
-- evaluation, if there was one, and the longest time without.
pub record HealthChecker : Type 0 where
  pub leader : Option LeaderState
  pub informers : List (Option Bool)
  pub last_evaluation : Option ℤ
  pub max_time_since_last_evaluation : ℤ

unfoldable pub is_standby : Option LeaderState → Bool
is_standby none = false
is_standby (some leader) = not leader.leading

unfoldable pub readiness_check : HealthChecker → Answer
unfolding is_standby informer_readiness
readiness_check h = if is_standby h.leader then none else informer_readiness (some h.informers)

-- The last test has the same result on both sides.
liveness_recency : ℤ → HealthChecker → Answer
liveness_recency now h = elim h.last_evaluation [
  | none ↦ none
  | some t ↦ if ltb_ℤ h.max_time_since_last_evaluation (now -ℤ t) then none else none
]

unfoldable pub liveness_check : ℤ → HealthChecker → Answer
unfolding is_standby informer_liveness liveness_recency
liveness_check now h =
    if is_standby h.leader then none else elim (informer_liveness (some h.informers)) [
      | some e ↦ some e
      | none ↦ elim h.informers [ [] ↦ none | i ∷ more ↦ liveness_recency now h ]
    ]

unfoldable pub leadership_aware_readiness_check : Option LeaderState → HealthChecker → Answer
unfolding readiness_check
leadership_aware_readiness_check none h = readiness_check h
leadership_aware_readiness_check (some leader) h =
    if not leader.api_reachable
    then some api_unreachable
    else if not leader.leading
    then none
    else readiness_check h

unfoldable pub leadership_aware_liveness_check : ℤ → Option LeaderState → HealthChecker → Answer
unfolding liveness_check is_standby
leadership_aware_liveness_check now leader h =
    if is_standby leader then none else liveness_check now h

-- The body of /leaderz: the state, and whether the line on the API follows it.
pub data LeaderBody : Type 0 where
  unknown : LeaderBody
  known : Bool → Bool → LeaderBody

unfoldable pub leaderz_check : Option LeaderState → LeaderBody
leaderz_check none = unknown
leaderz_check (some leader) = known leader.leading (not leader.api_reachable)

-- The classes of errors that a call of the election's lock may have.
pub data LockError : Type 0 where
  not_found forbidden unauthorized invalid conflict gone method_not_supported already_exists :
      LockError
  other_error : LockError

-- `observedLock.report`: an error of one of these classes counts as an answer of the server. The other
-- errors are those of the transport, and also the server's 429 and 5xx.
unfoldable pub reachable_after : Option LockError → Bool
reachable_after none = true
reachable_after (some other_error) = false
reachable_after (some _) = true

-- `OnLeadingChange`, and an operation of the lock.
pub data ElectionEvent : Type 0 where
  leading_change : Bool → ElectionEvent
  lock_operation : Option LockError → ElectionEvent

unfoldable pub observe : ElectionEvent → LeaderState → LeaderState
unfolding reachable_after
observe (leading_change b) l = record l { leading = b }
observe (lock_operation e) l = record l { api_reachable = reachable_after e }

-- The events of the election, the latest last.
unfoldable pub observe_all : List ElectionEvent → LeaderState → LeaderState
unfolding observe
observe_all [] l = l
observe_all (e ∷ more) l = observe_all more (observe e l)

-- The status code of a handler of the health server.
abbrev pub status : Answer → ℕ
status none = 200
status (some e) = 503

-- The answer of /readyz.
unfoldable pub serve_readyz : LeaderState → HealthChecker → ℕ
unfolding leadership_aware_readiness_check
serve_readyz leader h = status (leadership_aware_readiness_check (some leader) h)

-- The answer of /healthz.
unfoldable pub serve_healthz : ℤ → HealthChecker → ℕ
unfolding liveness_check
serve_healthz now h = status (liveness_check now h)
