-- ===== src/Controller/Tracking.antt =====
-- What the reconciler keeps for each policy: the rate limiters of pkg/controller/shared.go with
-- internal/ratelimiter/ratelimiter.go, the tracked UIDs and specs with their cleanup of
-- reconciler_lifecycle.go, the test for a changed target of reconciler_informer.go, and the comparison
-- of label selectors of label_selectors.go. A limiter is the rate that it has; a namespaced name is a
-- text. The locks make each method one step.
pub mod Laws
use zen_cleaner.Prelude.{
  String, Bool, true, false, not, ◌&&◌, ◌||◌, Option, none, some, List, [], ◌∷◌, ◌==◌, eqb,
  if◌then◌else◌, length, all, lookup, insert, erase,
}
use zen_cleaner.Prelude.Int.{ℤ, pos, ltb_ℤ}
use zen_cleaner.Api.{
  LabelSelectorRequirement, LabelSelector, TargetResourceSpec, BehaviorSpec, ZenCleanerPolicySpec,
  ZenCleanerPolicy,
}

-- DefaultMaxPerSecond, and DefaultMaxDeletionsPerSecond.
abbrev pub default_max_per_second : ℤ
default_max_per_second = pos 10

abbrev pub default_max_deletions_per_second : ℤ
default_max_deletions_per_second = pos 10

-- `SetRate`, and the rate of `NewRateLimiter`.
unfoldable pub set_rate : ℤ → ℤ
set_rate max_per_second =
    if ltb_ℤ (pos 0) max_per_second then max_per_second else default_max_per_second

pub record Tracked : Type 0 where
  pub rate_limiters : List (String × ℤ)
  pub policy_uids : List (String × String)
  pub policy_specs : List (String × ZenCleanerPolicySpec)

unfoldable pub rate_of : BehaviorSpec → ℤ
rate_of behavior =
    if ltb_ℤ (pos 0) behavior.max_deletions_per_second
    then behavior.max_deletions_per_second
    else default_max_deletions_per_second

-- The limiter that exists gets the rate of the policy; otherwise a new one is stored. None is nil.
unfoldable pub get_or_create_rate_limiter : ZenCleanerPolicy → Tracked → ℤ × Tracked
unfolding set_rate rate_of
get_or_create_rate_limiter policy r =
    let rate = set_rate (rate_of policy.spec.behavior) in
    (rate, record r { rate_limiters = insert policy.uid rate r.rate_limiters })

unfoldable pub track_policy_uid : String → String → Tracked → Tracked
track_policy_uid nn uid r = record r { policy_uids = insert nn uid r.policy_uids }

unfoldable pub track_policy_spec : String → ZenCleanerPolicySpec → Tracked → Tracked
track_policy_spec uid spec r = record r { policy_specs = insert uid spec r.policy_specs }

unfoldable pub cleanup_rate_limiter : String → Tracked → Tracked
cleanup_rate_limiter uid r = record r { rate_limiters = erase uid r.rate_limiters }

-- The informer of the target is kept: policies share it.
cleanup_tracked : String → Option String → Tracked → Tracked
unfolding cleanup_rate_limiter
cleanup_tracked nn none r = r
cleanup_tracked nn (some uid) r =
    let r' = cleanup_rate_limiter uid (record r { policy_uids = erase nn r.policy_uids }) in
    record r' { policy_specs = erase uid r'.policy_specs }

unfoldable pub cleanup_policy_resources : String → Tracked → Tracked
unfolding cleanup_tracked
cleanup_policy_resources nn r = cleanup_tracked nn (lookup nn r.policy_uids) r

-- A missing key reads as "".
abbrev pub or_empty : Option String → String
or_empty none = ""
or_empty (some v) = v

unfoldable pub label_of : String → List (String × String) → String
label_of key m = or_empty (lookup key m)

unfoldable pub match_labels_equal : List (String × String) → List (String × String) → Bool
match_labels_equal a b = eqb (length a) (length b) && all (λ (k, v). label_of k b == v) a

-- Two lists of texts of the same length, entry by entry.
unfoldable pub values_equal : List String → List String → Bool
values_equal [] [] = true
values_equal (v ∷ vs) (w ∷ ws) = v == w && values_equal vs ws
values_equal _ _ = false

unfoldable pub label_selector_requirement_equal :
    LabelSelectorRequirement → LabelSelectorRequirement → Bool
label_selector_requirement_equal a b =
    a.key == b.key && a.operator == b.operator && values_equal a.values b.values

unfoldable pub match_expressions_equal :
    List LabelSelectorRequirement → List LabelSelectorRequirement → Bool
match_expressions_equal [] [] = true
match_expressions_equal (a ∷ as_) (b ∷ bs) =
    label_selector_requirement_equal a b && match_expressions_equal as_ bs
match_expressions_equal _ _ = false

unfoldable pub label_selectors_equal : Option LabelSelector → Option LabelSelector → Bool
label_selectors_equal none none = true
label_selectors_equal (some a) (some b) =
    match_labels_equal a.match_labels b.match_labels
    && match_expressions_equal a.match_expressions b.match_expressions
label_selectors_equal _ _ = false

unfoldable pub target_changed : TargetResourceSpec → TargetResourceSpec → Bool
target_changed old new =
    not (old.api_version == new.api_version)
    || not (old.kind == new.kind)
    || not (old.namespace == new.namespace)
    || not (label_selectors_equal old.label_selector new.label_selector)

unfoldable pub should_recreate_informer : ZenCleanerPolicy → Tracked → Bool
should_recreate_informer policy r = elim (lookup policy.uid r.policy_specs) [
  | none ↦ false
  | some old ↦ target_changed old.target_resource policy.spec.target_resource
]

unfoldable pub handle_informer_recreation : ZenCleanerPolicy → Tracked → Tracked
handle_informer_recreation policy r =
    if should_recreate_informer policy r
    then record r { policy_specs = erase policy.uid r.policy_specs }
    else r

-- The steps of `Reconcile` that track a policy before it is evaluated.
unfoldable pub track_policy : String → ZenCleanerPolicy → Tracked → Tracked
track_policy nn policy r =
    track_policy_spec policy.uid policy.spec
      (handle_informer_recreation policy (track_policy_uid nn policy.uid r))
