-- ===== src/Backoff/Laws.antt =====
-- The delays of a backoff: their number, their bound and their order.
use native.Mathlib.Numerals.{add-one}
use zen_cleaner.Prelude.{
  ℕ, zero, suc, ◌+◌, ◌≤◌, ◌<◌, min, ◌≡◌, refl, ◌↔◌, ◌⊎◌, inl, inr, true, arith, leb, leb→le,
  if◌then◌else◌, Bool-cases,
}
use zen_cleaner.Backoff.{
  Config, Backoff, new_backoff, grow, grow_times, add_jitter, is_exhausted, next, delays,
}

-- The call that follows leaves the configuration alone, and advances unless the steps are used up.
pub next_step :
    (b : Backoff)
    → ((next b).0.backoff ≡ b.backoff)
      × ((next b).0.step ≡ (if leb b.backoff.steps b.step then b.step else b.step + 1))
unfolding next
next_step b = ground arith

delays_from :
    (n : ℕ) (b : Backoff)
    → b.step ≤ b.backoff.steps
    → ((delays n b).0.backoff ≡ b.backoff)
      × ((delays n b).0.step ≡ min (b.step + n) b.backoff.steps)
unfolding delays
delays_from zero b h = (refl, omega arith)
delays_from (suc n) b h = ground (arith, next_step b, delays_from n (next b).0)

-- However often `Next` is called after a reset, the number of steps taken is the number of calls, up
-- to the configured maximum; the backoff is exhausted exactly when the calls have reached it.
delays-step :
    (config : Config) (n : ℕ)
    → let b = (delays n (new_backoff config)).0 in
      (b.step ≡ min n config.steps) × ((is_exhausted b ≡ true) ↔ (config.steps ≤ n))
unfolding new_backoff is_exhausted
delays-step config n = ground (arith, delays_from n (new_backoff config) (omega arith))

-- Without the jitter no delay exceeds the larger of the initial duration and the cap.
grow_times-le :
    (config : Config) (n d bound : ℕ)
    → d ≤ bound
    → config.cap ≤ bound
    → grow_times config n d ≤ bound
unfolding grow_times grow
grow_times-le config zero d bound h k = h
grow_times-le config (suc n) d bound h k =
    grow_times-le config n (grow config d) bound (ground arith) k

-- Once the steps are used up `Next` returns 0 and changes nothing. Before, it takes one step and
-- returns a base delay with half of its jitter, where the base is at most every bound on both the
-- initial duration and the cap.
pub next_bounded :
    (b : Backoff) (bound : ℕ)
    → b.backoff.duration ≤ bound
    → b.backoff.cap ≤ bound
    → ((b.backoff.steps ≤ b.step) × (next b ≡ (b, 0)))
      ⊎ ((base : ℕ) × (b.step < b.backoff.steps)
          × (next b ≡ (record b { step = b.step + 1 }, add_jitter b.backoff.jitter base))
          × (base ≤ bound))
unfolding next
next_bounded b bound h k =
    let le = grow_times-le b.backoff b.step b.backoff.duration bound h k in
    elim (Bool-cases (leb b.backoff.steps b.step)) [
      | inl e ↦ inl (omega (arith, leb→le b.backoff.steps b.step e), simp (next, e))
      | inr e ↦
          inr (grow_times b.backoff b.step b.backoff.duration, ground arith, simp (next, e), le)
    ]

grow_times-grow :
    (config : Config) (n d : ℕ) → grow_times config (suc n) d ≡ grow config (grow_times config n d)
unfolding grow_times
grow_times-grow config zero d = refl
grow_times-grow config (suc n) d = grow_times-grow config n (grow config d)

-- If a product by the factor never shrinks a duration and the initial duration is within the cap,
-- the delays before jitter never decrease from one step to the next, and stay within the cap.
pub grow_times_mono :
    (config : Config) (n : ℕ)
    → ((d : ℕ) → d ≤ config.times_factor d)
    → config.duration ≤ config.cap
    → (grow_times config n config.duration ≤ grow_times config (n + 1) config.duration)
      × (grow_times config (n + 1) config.duration ≤ config.cap)
unfolding grow
grow_times_mono config n up h =
    let base = grow_times config n config.duration in
    let capped = grow_times-le config n config.duration config.cap h (omega arith) in
    rw (add-one n, grow_times-grow config n config.duration) (ground (arith, up base))
