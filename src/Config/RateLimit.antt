-- ===== src/Config/RateLimit.antt =====
-- internal/config/ingester_rate_limit.go: where a source's rate limit comes from.
use zen_cleaner.Prelude.{String, ◌<>◌, Bool, Option, none, some, ◌==◌, if◌then◌else◌}
use zen_cleaner.Prelude.Int.{ℤ, pos, eqb_ℤ, ltb_ℤ}
use zen_cleaner.Config.Env.{System}

pub data ConfigSource : Type 0 where
  unset crd env_per_source env_default : ConfigSource

pub record IngesterRateLimitConfig : Type 0 where
  pub requests_per_minute : ℤ
  pub burst : ℤ
  pub config_source : ConfigSource

-- `strings.ToUpper` is the second argument.
unfoldable pub get_ingester_rate_limit_from_env : System → (String → String) → String → String → ℤ
get_ingester_rate_limit_from_env sys to_upper source rate_type =
    let val = sys.getenv ("RATE_LIMIT_INGESTER_" <> (to_upper source <> ("_" <> rate_type))) in
    if val == "" then pos 0 else elim (sys.atoi val) [ none ↦ pos 0 | some n ↦ n ]

abbrev is_zero : ℤ → Bool
is_zero n = eqb_ℤ n (pos 0)

abbrev mark : ℤ → ConfigSource → ConfigSource → ConfigSource
mark rpm new old = if ltb_ℤ (pos 0) rpm then new else old

-- The rate and the burst of the custom resource, if there is one.
unfoldable pub from_crd : Option (ℤ × ℤ) → IngesterRateLimitConfig
from_crd none = record { requests_per_minute = pos 0; burst = pos 0; config_source = unset }
from_crd (some (rpm, burst)) = record {
  requests_per_minute = rpm;
  burst = burst;
  config_source = mark rpm crd unset;
}

unfoldable pub from_source : (String → ℤ) → IngesterRateLimitConfig → IngesterRateLimitConfig
from_source env c =
    if is_zero c.requests_per_minute
    then record {
      requests_per_minute = env "RPM";
      burst = env "BURST";
      config_source = mark (env "RPM") env_per_source c.config_source;
    }
    else c

unfoldable pub from_default : (String → ℤ) → IngesterRateLimitConfig → IngesterRateLimitConfig
from_default env c =
    if is_zero c.requests_per_minute
    then record {
      requests_per_minute = env "RPM";
      burst = if is_zero c.burst then env "BURST" else c.burst;
      config_source = mark (env "RPM") env_default c.config_source;
    }
    else c

unfoldable pub limited : IngesterRateLimitConfig → Option IngesterRateLimitConfig
limited c = if is_zero c.requests_per_minute then none else some c

unfoldable pub load_ingester_rate_limit_config :
    System → (String → String) → String → Option (ℤ × ℤ) → Option IngesterRateLimitConfig
unfolding from_crd from_source from_default limited
load_ingester_rate_limit_config sys to_upper source crd_config = limited (
    from_default (get_ingester_rate_limit_from_env sys to_upper "DEFAULT")
      (from_source (get_ingester_rate_limit_from_env sys to_upper source) (from_crd crd_config)))
