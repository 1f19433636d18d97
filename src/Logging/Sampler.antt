-- ===== src/Logging/Sampler.antt =====
-- The sampler of internal/logging/sampling.go, and the logger that asks the rate limiter first and then
-- the sampler. The tests of a rate, a float64, and the two products that are truncated are read off it;
-- the nanoseconds of the clock are an argument.
pub mod Doubled
use zen_cleaner.Prelude.{
  ℕ, ◌+◌, ◌%◌, ◌^◌, String, Bool, true, false, not, ◌&&◌, ◌||◌, eqb, if◌then◌else◌,
}
use zen_cleaner.Prelude.Int.{ℤ, pos, ltb_ℤ}
use zen_cleaner.Logging.Window.{RateLimiter, allow}

-- `rate >= 1.0`, `rate <= 0.0`, `uint64(1.0 / rate)` and `int64(rate * 100)`.
pub record Rate : Type 0 where
  pub at_least_one : Bool
  pub at_most_zero : Bool
  pub threshold : ℕ
  pub percent : ℤ

pub record SamplerConfig : Type 0 where
  pub info_sampling_rate : Rate
  pub debug_sampling_rate : Rate
  pub success_sampling_rate : Rate
  pub error_sampling_rate : Rate
  pub warn_sampling_rate : Rate

pub record Sampler : Type 0 where
  pub config : SamplerConfig
  pub info_counter : ℕ
  pub debug_counter : ℕ
  pub success_counter : ℕ

pub data Level : Type 0 where
  error_level warn_level info_level debug_level other_level : Level

unfoldable pub new_sampler : SamplerConfig → Sampler
new_sampler config = record {
  config = config;
  info_counter = 0;
  debug_counter = 0;
  success_counter = 0;
}

unfoldable pub should_sample : ℕ → Rate → Bool
should_sample nanos rate =
    rate.at_least_one || (not rate.at_most_zero && ltb_ℤ (pos (nanos % 100)) rate.percent)

-- A uint64.
unfoldable pub increment : ℕ → ℕ
increment counter = (counter + 1) % 2 ^ 64

-- The answer, and the counter that is left.
unfoldable pub should_sample_with_counter : Rate → ℕ → Bool × ℕ
unfolding increment
should_sample_with_counter rate counter =
    if rate.at_least_one
    then (true, counter)
    else if rate.at_most_zero
    then (false, counter)
    else (eqb (increment counter % rate.threshold) 0, increment counter)

-- A case that counts: the counter is incremented before the rate is looked at.
unfoldable pub count_and_sample : Rate → ℕ → Bool × ℕ
unfolding increment should_sample_with_counter
count_and_sample rate counter =
    if rate.at_least_one
    then (true, increment counter)
    else should_sample_with_counter rate (increment counter)

unfoldable pub should_log : ℕ → Level → Bool → Sampler → Bool × Sampler
unfolding count_and_sample should_sample
should_log nanos error_level is_success s = (
  s.config.error_sampling_rate.at_least_one || should_sample nanos s.config.error_sampling_rate,
  s,
)
should_log nanos warn_level is_success s =
    (s.config.warn_sampling_rate.at_least_one || should_sample nanos s.config.warn_sampling_rate, s)
should_log nanos info_level true s =
    let (logged, counter) = count_and_sample s.config.success_sampling_rate s.success_counter in
    (logged, record s { success_counter = counter })
should_log nanos info_level false s =
    let (logged, counter) = count_and_sample s.config.info_sampling_rate s.info_counter in
    (logged, record s { info_counter = counter })
should_log nanos debug_level is_success s =
    let (logged, counter) = count_and_sample s.config.debug_sampling_rate s.debug_counter in
    (logged, record s { debug_counter = counter })
should_log nanos other_level is_success s = (true, s)

pub record SampledLogger : Type 0 where
  pub sampler : Sampler
  pub rate_limiter : RateLimiter

-- An entry that passed the limiter.
unfoldable pub sampled : ℕ → Level → Bool → Bool × RateLimiter → Sampler → Bool × SampledLogger
unfolding should_log
sampled nanos level is_success (false, rl) s = (false, record { sampler = s; rate_limiter = rl })
sampled nanos level is_success (true, rl) s =
    let (logged, s') = should_log nanos level is_success s in
    (logged, record { sampler = s'; rate_limiter = rl })

-- `Info` and `Debug`: whether the entry is written.
unfoldable pub sampled_info : ℤ → ℕ → Bool → String → SampledLogger → Bool × SampledLogger
unfolding sampled allow
sampled_info now nanos is_success key l =
    sampled nanos info_level is_success (allow now key l.rate_limiter) l.sampler

unfoldable pub sampled_debug : ℤ → ℕ → String → SampledLogger → Bool × SampledLogger
unfolding sampled allow
sampled_debug now nanos key l =
    sampled nanos debug_level false (allow now key l.rate_limiter) l.sampler

-- `Warn` and `Error`.
unfoldable pub limited_entry : ℤ → String → SampledLogger → Bool × SampledLogger
unfolding allow
limited_entry now key l =
    let (logged, rl) = allow now key l.rate_limiter in (logged, record l { rate_limiter = rl })
