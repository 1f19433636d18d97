-- ===== src/Logging/Sampler/Doubled.antt =====
-- Each sampled entry is counted twice.
use zen_cleaner.Prelude.{
  ℕ, ◌+◌, ◌*◌, ◌/◌, ◌%◌, ◌^◌, ◌<◌, ◌≡◌, refl, sym, ap, ◌∙◌, ◌↔◌, Bool, true, false, List, [], ◌∷◌,
  arith, eqb, eqb_iff,
}
use native.Mathlib.Nat.{mod-eq_of_lt, mod-lt, add-mul-mod_self_right, div-add-mod'}
use zen_cleaner.Logging.Sampler.{
  Rate, SamplerConfig, Sampler, Level, error_level, warn_level, info_level, debug_level,
  other_level, new_sampler, increment, should_sample_with_counter, count_and_sample, should_log,
}

-- The clock's nanoseconds, the level, and whether the entry is of a success.
abbrev pub Requests : Type 0
Requests = List (ℕ × Level × Bool)

abbrev pub sample_all : Requests → Sampler → Sampler
sample_all [] s = s
sample_all ((nanos, level, is_success) ∷ more) s =
    sample_all more (should_log nanos level is_success s).1

abbrev pub info_entries : Level → Bool → ℕ
info_entries info_level false = 1
info_entries _ is_success = 0

-- The entries of level info that are of no success.
abbrev pub infos : Requests → ℕ
infos [] = 0
infos ((nanos, level, is_success) ∷ more) = info_entries level is_success + infos more

-- A rate strictly between nothing and all.
abbrev pub IsPartial : Rate → Type 0
IsPartial rate = (rate.at_least_one ≡ false) × (rate.at_most_zero ≡ false) × (0 < rate.threshold)

increment_twice : (n : ℕ) → increment (increment (n % 2 ^ 64)) ≡ (n + 2) % 2 ^ 64
unfolding increment
increment_twice n = omega arith

count_and_sample_partial :
    (rate : Rate) (n : ℕ)
    → IsPartial rate
    → count_and_sample rate (n % 2 ^ 64)
      ≡ (eqb ((n + 2) % 2 ^ 64 % rate.threshold) 0, (n + 2) % 2 ^ 64)
unfolding count_and_sample should_sample_with_counter
count_and_sample_partial rate n (a, z, _) = simp (a, z, increment_twice n)

module _ (config : SamplerConfig) where
  should_log-config :
      (nanos : ℕ) (level : Level) (is_success : Bool) (s : Sampler)
      → (should_log nanos level is_success s).1.config ≡ s.config
  unfolding should_log
  should_log-config nanos error_level b s = refl
  should_log-config nanos warn_level b s = refl
  should_log-config nanos info_level true s = refl
  should_log-config nanos info_level false s = refl
  should_log-config nanos debug_level b s = refl
  should_log-config nanos other_level b s = refl

  should_log-info_counter :
      (nanos : ℕ) (level : Level) (is_success : Bool) (s : Sampler) (n : ℕ)
      → IsPartial config.info_sampling_rate
      → s.config ≡ config
      → s.info_counter ≡ 2 * n % 2 ^ 64
      → (should_log nanos level is_success s).1.info_counter
        ≡ 2 * (n + info_entries level is_success) % 2 ^ 64
  unfolding should_log
  should_log-info_counter nanos error_level b s n p c e = e ∙ omega arith
  should_log-info_counter nanos warn_level b s n p c e = e ∙ omega arith
  should_log-info_counter nanos info_level true s n p c e = e ∙ omega arith
  should_log-info_counter nanos info_level false s n p c e =
      ap (λ r. (count_and_sample r.info_sampling_rate s.info_counter).1) c
      ∙ ap (λ k. (count_and_sample config.info_sampling_rate k).1) e
      ∙ ap (λ r. r.1) (count_and_sample_partial config.info_sampling_rate (2 * n) p)
      ∙ ap (λ k. k % 2 ^ 64) (omega arith)
  should_log-info_counter nanos debug_level b s n p c e = e ∙ omega arith
  should_log-info_counter nanos other_level b s n p c e = e ∙ omega arith

  sample_all-info_counter :
      (requests : Requests) (s : Sampler) (n : ℕ)
      → IsPartial config.info_sampling_rate
      → s.config ≡ config
      → s.info_counter ≡ 2 * n % 2 ^ 64
      → (sample_all requests s).info_counter ≡ 2 * (n + infos requests) % 2 ^ 64
  sample_all-info_counter [] s n p c e = e ∙ omega arith
  sample_all-info_counter ((nanos, level, is_success) ∷ more) s n p c e =
      sample_all-info_counter more (should_log nanos level is_success s).1
        (n + info_entries level is_success) p (should_log-config nanos level is_success s ∙ c)
        (should_log-info_counter nanos level is_success s n p c e)
      ∙ ap (λ k. 2 * k % 2 ^ 64) (omega arith)

  sample_all-config :
      (requests : Requests) (s : Sampler) → (sample_all requests s).config ≡ s.config
  sample_all-config [] s = refl
  sample_all-config ((nanos, level, is_success) ∷ more) s =
      sample_all-config more (should_log nanos level is_success s).1
      ∙ should_log-config nanos level is_success s

  info_answer :
      (requests : Requests) (nanos : ℕ)
      → IsPartial config.info_sampling_rate
      → (should_log nanos info_level false (sample_all requests (new_sampler config))).0
        ≡ eqb (2 * (infos requests + 1) % 2 ^ 64 % config.info_sampling_rate.threshold) 0
  unfolding should_log new_sampler
  info_answer requests nanos p =
      let s = sample_all requests (new_sampler config) in
      let n = infos requests in
      let counted : s.info_counter ≡ 2 * n % 2 ^ 64 =
        sample_all-info_counter requests (new_sampler config) 0 p refl refl
        ∙ ap (λ k. 2 * k % 2 ^ 64) (omega arith) in
      ap (λ r. (count_and_sample r.info_sampling_rate s.info_counter).0)
        (sample_all-config requests (new_sampler config))
      ∙ ap (λ k. (count_and_sample config.info_sampling_rate k).0) counted
      ∙ ap (λ r. r.0) (count_and_sample_partial config.info_sampling_rate (2 * n) p)
      ∙ ap (λ k. eqb (k % 2 ^ 64 % config.info_sampling_rate.threshold) 0) (omega arith)

-- Twice a number, modulo twice another.
double-mod-double : (k m : ℕ) → 0 < m → 2 * k % (2 * m) ≡ 2 * (k % m)
double-mod-double k m h =
    ap (λ j. j % (2 * m)) split
    ∙ add-mul-mod_self_right (2 * (k % m)) (k / m) (2 * m)
    ∙ mod-eq_of_lt (omega (arith, mod-lt k h))
  where
    split : 2 * k ≡ 2 * (k % m) + k / m * (2 * m)
    split = grind (arith, div-add-mod' k m)

-- A new sampler whose rate for info entries is partial, with the even threshold 2 * m: after any
-- requests, of any levels, and before the counter wraps, an info entry that is of no success is
-- logged exactly where its number among such entries is divisible by m. So one of m is logged, twice
-- as many as the threshold says.
pub should_log-doubled :
    (config : SamplerConfig) (requests : Requests) (nanos m : ℕ)
    → IsPartial config.info_sampling_rate
    → config.info_sampling_rate.threshold ≡ 2 * m
    → 2 * (infos requests + 1) < 2 ^ 64
    → ((should_log nanos info_level false (sample_all requests (new_sampler config))).0 ≡ true)
      ↔ ((infos requests + 1) % m ≡ 0)
should_log-doubled config requests nanos m p even small =
    let k = infos requests + 1 in
    let answer : (should_log nanos info_level false (sample_all requests (new_sampler config))).0
        ≡ eqb (2 * (k % m)) 0 =
      info_answer config requests nanos p
      ∙ ap (λ j. eqb (j % config.info_sampling_rate.threshold) 0) (mod-eq_of_lt small)
      ∙ ap (λ t. eqb (2 * k % t) 0) even
      ∙ ap (λ j. eqb j 0) (double-mod-double k m (omega (arith, p.2))) in
    (
      λ e. omega (arith, (eqb_iff (2 * (k % m)) 0).0 (sym answer ∙ e)),
      λ e. answer ∙ (eqb_iff (2 * (k % m)) 0).1 (omega (arith, e)),
    )
