-- ===== src/Examples/Targets.antt =====
-- The capability of a target on examples.
use zen_cleaner.Prelude.{
  ◌+◌, ◌*◌, ◌<>◌, ◌≡◌, refl, ◌↔◌, ◌⊎◌, true, false, none, some, [], ◌∷◌, ◌==◌, lookup,
}
use zen_cleaner.Prelude.Text.{trim_space}
use zen_cleaner.Safety.{contains}
use zen_cleaner.Prelude.Int.{pos}
use zen_cleaner.Controller.Target.{
  validate_target_or_classify, version_of, cut_slash, cached, classify_list_error,
  target_access_denied, second, target_backoff_for, Cluster, forbidden, probe_key, gvk_of,
  is_malformed, validate_target_capability, target_failure_count,
}
use zen_cleaner.Controller.Target.Capability.{
  OnlyGrants, IsFresh, IsAvailable, validate_target_capability_iff,
}
use zen_cleaner.Controller.Informers.{
  World, Shared, target_capability, informer_creation_failed, choose_path,
}
use zen_cleaner.Controller.Informers.Counts.{choose_path-counts}
use zen_cleaner.Examples.{in_jobs, clean_policy}

-- No discovery client, and a List that is forbidden.
abbrev cluster : Cluster
cluster = record {
  discovery = none;
  list = λ group version name ns. some forbidden;
  equal_fold = λ a b. a == b;
  has_slash = λ name. false;
  plural_for_kind = λ kind. kind <> "s";
}

validate_target_capability_iff_example :
    let (r, probes') = validate_target_capability (pos 1) cluster in_jobs [] in
    let fresh = IsFresh (pos 1) (lookup (probe_key (gvk_of in_jobs) in_jobs.namespace) []) in
    ((r ≡ none)
      ↔ ((is_malformed in_jobs ≡ false) × (fresh ⊎ IsAvailable cluster in_jobs cluster.discovery)))
    × OnlyGrants probes'
    × ((r ≡ none) ⊎ (probes' ≡ []))
validate_target_capability_iff_example =
    validate_target_capability_iff (pos 1) cluster in_jobs [] tt

-- The target is forbidden at both checks, and the policy had failed once before.
abbrev world : World
world = record { now = pos 1; cluster = cluster; synced = true }

abbrev shared : Shared
shared = record {
  resource_informers = [];
  evaluation_services = [];
  failures = ("p1", 1) ∷ [];
  probes = [];
  validated = [];
}

choose_path-counts_example :
    let t = choose_path world world clean_policy shared in
    (t.0 ≡ informer_creation_failed (target_capability target_access_denied))
    × (t.1.validated ≡ some target_access_denied ∷ some target_access_denied ∷ [])
    × (target_failure_count "p1" t.1.failures ≡ target_failure_count "p1" shared.failures + 2)
    × (target_failure_count "p1" shared.failures ≡ 0
        → target_backoff_for (pos (target_failure_count "p1" t.1.failures)) ≡ 60 * second)
unfolding contains validate_target_or_classify validate_target_capability is_malformed trim_space
    version_of cut_slash cached lookup classify_list_error
choose_path-counts_example =
    choose_path-counts world world clean_policy shared target_access_denied target_access_denied
      refl refl refl refl
