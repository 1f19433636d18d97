-- ===== src/Examples/Operations.antt =====
-- The log limiter, the sampler, the classes of errors and the probes on examples.
use zen_cleaner.Prelude.{
  ◌%◌, String, ◌≡◌, refl, ◌≢◌, ◌↔◌, ◌⊎◌, true, false, none, some, List, [], ◌∷◌, arith, ◌==◌,
  if◌then◌else◌, length, All,
}
use zen_cleaner.Prelude.Int.{pos, ◌-ℤ◌, ◌≤ℤ◌}
use zen_cleaner.Logging.Window.{default_rate_limiter_config, new_rate_limiter}
use zen_cleaner.Logging.Window.Reference.{Calls, allow_all, grant_all, allow_all-grant_all}
use zen_cleaner.Logging.Window.Bounds.{logged, within_window, allow_all-IsBounded}
use zen_cleaner.Logging.Sampler.{
  Rate, SamplerConfig, error_level, info_level, debug_level, new_sampler, should_log,
}
use zen_cleaner.Logging.Sampler.Doubled.{Requests, sample_all, should_log-doubled}
use zen_cleaner.Errors.{
  GoError, leaf, caused, ClassifiedError, Errors, default_classify_config, classify_with_config,
}
use zen_cleaner.Errors.Retries.{innermost, Classifies, classify_with_config-Classifies}
use zen_cleaner.Errors.Context.{AnyError, wrapping, root, with_context}
use zen_cleaner.Errors.Context.Adding.{Adds, with_context-Adds}
use zen_cleaner.Health.{
  HealthChecker, new_leader_state, not_found, other_error, ElectionEvent, leading_change,
  lock_operation, observe_all, serve_readyz,
}
use zen_cleaner.Mcp.{mode_env, mcp_mode_stdio, Codec, new_adapter, run_stdio}
use zen_cleaner.Mcp.Denies.{ids_of, asked, IsDenial, IsGranted, run_stdio_lem}
use zen_cleaner.Health.Probes.{IsCutOff, IsLeading, HasUnsynced, serve_readyz_iff}

-- Three entries of one key, and one of another.
abbrev calls : Calls
calls =
    (pos 5, "sync")
    ∷ (pos 900000000, "sync")
    ∷ (pos 900000000, "list")
    ∷ (pos 61000000000, "sync")
    ∷ []

allow_all-grant_all_example :
    allow_all calls (new_rate_limiter default_rate_limiter_config (pos 0))
    ≡ grant_all (pos 10) (pos 1000000000) calls (λ key. [])
allow_all-grant_all_example =
    allow_all-grant_all default_rate_limiter_config (pos 0) calls (omega arith) (omega arith)
      (omega arith)

allow_all-IsBounded_example :
    let answers = allow_all calls (new_rate_limiter default_rate_limiter_config (pos 0)) in
    pos (
      length (
        within_window
          (pos 900000000 -ℤ pos 1000000000)
          (pos 900000000)
          (logged "sync" calls answers)))
    ≤ℤ pos 10
allow_all-IsBounded_example =
    allow_all-IsBounded default_rate_limiter_config (pos 0) calls "sync" (pos 900000000)
      (omega arith) (omega arith) (omega arith)

abbrev tenth : Rate
tenth = record { at_least_one = false; at_most_zero = false; threshold = 10; percent = pos 10 }

abbrev all_of_them : Rate
all_of_them = record { at_least_one = true; at_most_zero = false; threshold = 1; percent = pos 100 }

abbrev sampling : SamplerConfig
sampling = record {
  info_sampling_rate = tenth;
  debug_sampling_rate = tenth;
  success_sampling_rate = tenth;
  error_sampling_rate = all_of_them;
  warn_sampling_rate = all_of_them;
}

-- Four entries of level info, one of them of a success, and two others.
abbrev requests : Requests
requests =
    (7, info_level, false)
    ∷ (8, debug_level, false)
    ∷ (9, info_level, true)
    ∷ (10, info_level, false)
    ∷ (11, error_level, false)
    ∷ (12, info_level, false)
    ∷ []

should_log-doubled_example :
    ((should_log 13 info_level false (sample_all requests (new_sampler sampling))).0 ≡ true)
    ↔ (4 % 5 ≡ 0)
should_log-doubled_example =
    should_log-doubled sampling requests 13 5 (refl, refl, omega arith) refl (omega arith)

abbrev errors : Errors
errors = record { to_lower = λ s. s; is_net_timeout = λ s. false; is_op_error = λ s. false }

-- The status of the outer text does not count.
abbrev wrapped : GoError
wrapped = caused "status 404: unexpected end" (leaf "unexpected end")

classify_with_config-Classifies_example :
    (x : ClassifiedError) × (classify_with_config errors default_classify_config (some wrapped)
      ≡ some x)
    × Classifies errors default_classify_config wrapped (innermost wrapped) x
classify_with_config-Classifies_example =
    classify_with_config-Classifies errors default_classify_config wrapped

-- The lease is not there yet, the replica leads, and then the API server does not answer.
abbrev events : List ElectionEvent
events =
    lock_operation (some not_found) ∷ leading_change true ∷ lock_operation (some other_error) ∷ []

abbrev checker : HealthChecker
checker = record {
  leader = some (record { leading = true; api_reachable = false });
  informers = some true ∷ none ∷ [];
  last_evaluation = none;
  max_time_since_last_evaluation = pos 300000000000;
}

serve_readyz_iff_example :
    let leader = observe_all events new_leader_state in
    ((serve_readyz leader checker ≡ 503)
      ↔ (IsCutOff events ⊥ ⊎ (IsLeading events ⊥ × HasUnsynced checker.informers)))
    × ((serve_readyz leader checker ≡ 503) ⊎ (serve_readyz leader checker ≡ 200))
unfolding observe_all
serve_readyz_iff_example = serve_readyz_iff events checker refl

-- The names of the methods stand for the lines.
abbrev codec : Codec
codec = record {
  decode = λ line. some (record { id = some (pos 1); method = line; params = "health_summary" });
  call_name = λ params. params;
}

-- The mode is set, and no actor is named.
abbrev getenv : String → String
getenv name = if name == "ZEN_CLEANER_MCP_MODE" then "stdio" else ""

run_stdio_lem_example :
    (ids_of (
        run_stdio codec
          (new_adapter getenv none (some (λ log. "up")))
          ("initialize" ∷ "tools/call" ∷ [])
          [])
      ≡ asked codec ("initialize" ∷ "tools/call" ∷ []))
    × (getenv mode_env ≢ mcp_mode_stdio
        → All
            (λ response. IsDenial response.outcome)
            (run_stdio codec
              (new_adapter getenv none (some (λ log. "up")))
              ("initialize" ∷ "tools/call" ∷ [])
              []))
    × (getenv mode_env ≡ mcp_mode_stdio
        → All
            (λ response. IsGranted response.outcome)
            (run_stdio codec
              (new_adapter getenv none (some (λ log. "up")))
              ("initialize" ∷ "tools/call" ∷ [])
              []))
run_stdio_lem_example =
    run_stdio_lem codec getenv none (some (λ log. "up")) ("initialize" ∷ "tools/call" ∷ []) []

-- An error with a field, and what wraps it.
abbrev refused : AnyError
refused = wrapping "cycle: refused" (
    root (record {
      type_name = "refused";
      message = "refused";
      context = some (("policy_name", "clean") ∷ []);
    }))

with_context-Adds_example : Adds refused "target" "jobs" (with_context refused "target" "jobs")
with_context-Adds_example = with_context-Adds refused "target" "jobs"
