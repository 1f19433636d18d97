-- ===== src/Controller/Target/Delay.antt =====
-- The delay after repeated failures of the target.
use zen_cleaner.Prelude.{ℕ, zero, suc, ◌-◌, ◌*◌, ◌^◌, ◌≤◌, min, ◌≡◌, refl, subst, arith}
use zen_cleaner.Prelude.Int.{pos, negsuc}
use zen_cleaner.Controller.Target.{
  second, target_backoff_base, target_backoff_cap, double_backoff, target_backoff_for,
}

power_pos : (n : ℕ) → 1 ≤ 2 ^ n
power_pos zero = omega arith
power_pos (suc n) = omega (arith, power_pos n)

double_power : (d n : ℕ) → d * 2 ^ suc n ≡ d * 2 * 2 ^ n
double_power d n = grind arith

le_double : (d n : ℕ) → d * 2 ≤ d * 2 * 2 ^ n
le_double d zero = omega arith
le_double d (suc n) = grind (arith, le_double d n)

double_backoff_lem :
    (rounds d : ℕ)
    → d ≤ target_backoff_cap
    → double_backoff rounds d ≡ min target_backoff_cap (d * 2 ^ rounds)
unfolding double_backoff
double_backoff_lem zero d h = ground arith
double_backoff_lem (suc rounds) d h =
    ground (arith, double_backoff_lem rounds (d * 2), double_power d rounds, le_double d rounds)

-- After n consecutive failures the delay is 30 seconds doubled n - 1 times, or ten minutes if that is
-- less; a count below one is read as one.
pub target_backoff_for_lem :
    (n : ℕ)
    → (target_backoff_for (pos (suc n)) ≡ min (600 * second) (30 * second * 2 ^ n))
      × (target_backoff_for (pos 0) ≡ 30 * second)
      × (target_backoff_for (negsuc n) ≡ 30 * second)
unfolding target_backoff_for
target_backoff_for_lem n = (
  subst (λ k. double_backoff k target_backoff_base ≡ min (600 * second) (30 * second * 2 ^ n))
      {x = n} {y = suc n - 1} (omega arith)
      (double_backoff_lem n target_backoff_base (omega arith)),
  refl,
  refl,
)

double_backoff-positive : (rounds d : ℕ) → 1 ≤ d → 1 ≤ double_backoff rounds d
unfolding double_backoff
double_backoff-positive zero d h = ground arith
double_backoff-positive (suc rounds) d h = ground (arith, double_backoff-positive rounds (d * 2))

pub target_backoff_for-positive : (n : ℕ) → 1 ≤ target_backoff_for (pos n)
unfolding target_backoff_for
target_backoff_for-positive n = double_backoff-positive (n - 1) target_backoff_base (omega arith)
