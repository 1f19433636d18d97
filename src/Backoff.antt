-- ===== src/Backoff.antt =====
-- internal/backoff/backoff.go: the delays between retries. Durations are counts of nanoseconds below
-- 2 ^ 63. The two products with a float64, `time.Duration(float64(d) * f)`, are functions of the
-- configuration; the mutex makes each method one step.
pub mod Laws
use zen_cleaner.Prelude.{
  ℕ, zero, suc, ◌+◌, ◌/◌, Bool, Option, none, some, List, [], ◌∷◌, ltb, leb, if◌then◌else◌,
}

-- `jitter` is `none` where `Jitter <= 0`.
pub record Config : Type 0 where
  pub steps : ℕ
  pub duration : ℕ
  pub times_factor : ℕ → ℕ
  pub jitter : Option (ℕ → ℕ)
  pub cap : ℕ

pub record Backoff : Type 0 where
  pub backoff : Config
  pub step : ℕ

-- The float64 products of the default configuration, by 2.0 and by 0.1.
pub record Floats : Type 0 where
  pub double : ℕ → ℕ
  pub tenth : ℕ → ℕ

unfoldable pub default_config : Floats → Config
default_config floats = record {
  steps = 5;
  duration = 100000000;
  times_factor = floats.double;
  jitter = some floats.tenth;
  cap = 30000000000;
}

unfoldable pub new_backoff : Config → Backoff
new_backoff config = record { backoff = config; step = 0 }

-- One round of the loop of `Next`.
unfoldable pub grow : Config → ℕ → ℕ
grow config d = let d' = config.times_factor d in if ltb config.cap d' then config.cap else d'

unfoldable pub grow_times : Config → ℕ → ℕ → ℕ
grow_times config zero d = d
grow_times config (suc n) d = grow_times config n (grow config d)

unfoldable pub add_jitter : Option (ℕ → ℕ) → ℕ → ℕ
add_jitter none d = d
add_jitter (some amount) d = d + amount d / 2

unfoldable pub is_exhausted : Backoff → Bool
is_exhausted b = leb b.backoff.steps b.step

unfoldable pub next : Backoff → Backoff × ℕ
next b = if leb b.backoff.steps b.step then (b, 0) else (
  record b { step = b.step + 1 },
  add_jitter b.backoff.jitter (grow_times b.backoff b.step b.backoff.duration),
)

unfoldable pub reset : Backoff → Backoff
reset b = record b { step = 0 }

-- The delays of successive calls.
unfoldable pub delays : ℕ → Backoff → Backoff × List ℕ
delays zero b = (b, [])
delays (suc n) b = let (b', d) = next b in let (c, ds) = delays n b' in (c, d ∷ ds)
