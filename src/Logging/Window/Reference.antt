-- ===== src/Logging/Window/Reference.antt =====
-- The limiter decides as a reference that forgets nothing and scans all that it has granted.
use zen_cleaner.Prelude.{
  String, ◌≡◌, refl, sym, ap, ◌∙◌, inl, inr, Bool, true, false, Option, some, List, [], ◌∷◌, ◌++◌,
  arith, ◌==◌, if◌then◌else◌, Bool-cases, length, length-append,
}
use zen_cleaner.Prelude.Int.{
  ℤ, pos, pos_part, neg_part, ◌+ℤ◌, ◌-ℤ◌, ◌≤ℤ◌, ◌<ℤ◌, ltb_ℤ, ltb_ℤ_iff, not_ltb_ℤ_iff, +ℤ_parts,
  -ℤ_parts,
}
use zen_cleaner.Logging.Window.{
  RateLimiter, RateLimiterConfig, new_rate_limiter, after, overwrite_entry, set_entry, times,
  cleanup, take_slot, allow,
}
use zen_cleaner.Logging.Window.Times.{
  length-after, after_whole, after-after, after_added, overwrite_whole, set_entry_same,
  times-clean_entry,
}

-- All that was granted, by key, and never pruned.
abbrev pub Grants : Type 0
Grants = String → List ℤ

abbrev pub set_grants : String → List ℤ → Grants → Grants
set_grants key ts grants k = if key == k then ts else grants k

-- The reference: an entry is granted where fewer than the maximum were granted within the window.
unfoldable pub grant : ℤ → ℤ → ℤ → String → Grants → Bool × Grants
grant max window now key grants =
    if ltb_ℤ (pos (length (after (now -ℤ window) (grants key)))) max
    then (true, set_grants key (grants key ++ now ∷ []) grants)
    else (false, grants)

-- The times and the keys of the calls.
abbrev pub Calls : Type 0
Calls = List (ℤ × String)

abbrev pub allow_all : Calls → RateLimiter → List Bool
allow_all [] rl = []
allow_all ((now, key) ∷ more) rl = (allow now key rl).0 ∷ allow_all more (allow now key rl).1

abbrev pub grant_all : ℤ → ℤ → Calls → Grants → List Bool
grant_all max window [] grants = []
grant_all max window ((now, key) ∷ more) grants =
    (grant max window now key grants).0
    ∷ grant_all max window more (grant max window now key grants).1

-- The clock does not go back.
abbrev pub IsOrdered : ℤ → Calls → Type 0
IsOrdered from [] = Unit
IsOrdered from ((now, key) ∷ more) = (from ≤ℤ now) × IsOrdered now more

module _ (max window : ℤ) (forward : pos 0 ≤ℤ window) where
  -- From a time on, the limiter sees of each key what the reference sees, and keeps no more times than
  -- the maximum.
  pub record Tracks (now : ℤ) (rl : RateLimiter) (grants : Grants) : Type 0 where
    pub same :
        (k : String) (t : ℤ)
        → now ≤ℤ t
        → after (t -ℤ window) (times (rl.entries k)) ≡ after (t -ℤ window) (grants k)
    pub within : (k : String) → pos (length (times (rl.entries k))) ≤ℤ max
    pub is_window : rl.window_size ≡ window
    pub is_max : rl.max_logs_per_second ≡ max

  cleanup-Tracks :
      (now : ℤ) (rl : RateLimiter) (grants : Grants)
      → Tracks now rl grants
      → Tracks now (cleanup now rl) grants
  unfolding cleanup
  cleanup-Tracks now rl grants v =
      let start = now -ℤ (rl.window_size +ℤ rl.window_size) in
      record {
        same = λ k t h.
            ap (after (t -ℤ window)) (times-clean_entry start (rl.entries k))
            ∙ after-after start (t -ℤ window) (times (rl.entries k)) (
                omega
                  (arith, +ℤ_parts, -ℤ_parts, ap pos_part v.is_window, ap neg_part v.is_window, h))
            ∙ v.same k t h;
        within = λ k. omega (
          arith,
          v.within k,
          ap length (times-clean_entry start (rl.entries k)),
          length-after start (times (rl.entries k)),
        );
        is_window = v.is_window;
        is_max = v.is_max;
      }

  -- Both see the same times within the window.
  recent :
      (now : ℤ) (key : String) (rl : RateLimiter) (grants : Grants)
      → Tracks now rl grants
      → after (now -ℤ rl.window_size) (times (rl.entries key)) ≡ after (now -ℤ window) (grants key)
  recent now key rl grants v =
      ap (λ w. after (now -ℤ w) (times (rl.entries key))) v.is_window ∙ v.same key now (omega arith)

  allowed-Tracks :
      (now : ℤ) (key : String) (rl : RateLimiter) (grants : Grants)
      → Tracks now rl grants
      → let valid = after (now -ℤ rl.window_size) (times (rl.entries key)) in
        pos (length valid) <ℤ rl.max_logs_per_second
        → Tracks now
            (record rl { entries = set_entry key (some (valid ++ now ∷ [])) rl.entries })
            (set_grants key (grants key ++ now ∷ []) grants)
  allowed-Tracks now key rl grants v room =
      let valid = after (now -ℤ rl.window_size) (times (rl.entries key)) in
      record {
        same = λ k t h. elim (Bool-cases (key == k)) [
          | inl e ↦ rw e (
              after_added (now -ℤ rl.window_size) (t -ℤ window) now (times (rl.entries key))
                (grants key)
                (omega (arith, -ℤ_parts, ap pos_part v.is_window, ap neg_part v.is_window, h))
                (v.same key t h))
          | inr e ↦ rw e (v.same k t h)
        ];
        within = λ k. elim (Bool-cases (key == k)) [
          | inl e ↦ rw e (
              omega (
                arith,
                room,
                ap pos_part v.is_max,
                ap neg_part v.is_max,
                length-append {0} valid (now ∷ []),
              ))
          | inr e ↦ rw e (v.within k)
        ];
        is_window = v.is_window;
        is_max = v.is_max;
      }

  -- A call that is refused moves nothing, since all of the times are within the window.
  refused_same :
      (now : ℤ) (key : String) (rl : RateLimiter) (grants : Grants)
      → Tracks now rl grants
      → let valid = after (now -ℤ rl.window_size) (times (rl.entries key)) in
        rl.max_logs_per_second ≤ℤ pos (length valid)
        → overwrite_entry valid (rl.entries key) ≡ rl.entries key
  refused_same now key rl grants v full =
      let timestamps = times (rl.entries key) in
      let whole : after (now -ℤ rl.window_size) timestamps ≡ timestamps =
        after_whole (now -ℤ rl.window_size) timestamps
          (omega (arith, full, ap pos_part v.is_max, ap neg_part v.is_max, v.within key)) in
      ap (λ xs. overwrite_entry xs (rl.entries key)) whole ∙ overwrite_whole (rl.entries key)

  refused-Tracks :
      (now : ℤ) (key : String) (rl : RateLimiter) (grants : Grants) (entry : Option (List ℤ))
      → Tracks now rl grants
      → entry ≡ rl.entries key
      → Tracks now (record rl { entries = set_entry key entry rl.entries }) grants
  refused-Tracks now key rl grants entry v e =
      let there = λ (k : String). set_entry_same key k entry rl.entries e in
      record {
        same = λ k t h. ap (λ x. after (t -ℤ window) (times x)) (there k) ∙ v.same k t h;
        within = λ k. omega (arith, ap (λ x. length (times x)) (there k), v.within k);
        is_window = v.is_window;
        is_max = v.is_max;
      }

  take_slot-Tracks :
      (now : ℤ) (key : String) (rl : RateLimiter) (grants : Grants)
      → Tracks now rl grants
      → ((take_slot now key rl).0 ≡ (grant max window now key grants).0)
        × Tracks now (take_slot now key rl).1 (grant max window now key grants).1
  unfolding take_slot grant
  take_slot-Tracks now key rl grants v =
      let valid = after (now -ℤ rl.window_size) (times (rl.entries key)) in
      let test = ltb_ℤ (pos (length valid)) rl.max_logs_per_second in
      let agrees : ltb_ℤ (pos (length (after (now -ℤ window) (grants key)))) max ≡ test = sym (
        ap (λ xs. ltb_ℤ (pos (length xs)) rl.max_logs_per_second) (recent now key rl grants v)
        ∙ ap (ltb_ℤ (pos (length (after (now -ℤ window) (grants key))))) v.is_max) in
      elim (Bool-cases test) [
        | inl y ↦
            simp (y, agrees ∙ y)
              (
                refl,
                allowed-Tracks now key rl grants v
                    ((ltb_ℤ_iff (pos (length valid)) rl.max_logs_per_second).0 y),
              )
        | inr n ↦
            simp (n, agrees ∙ n)
              (
                refl,
                refused-Tracks now key rl grants (overwrite_entry valid (rl.entries key)) v (
                    refused_same now key rl grants v
                      ((not_ltb_ℤ_iff (pos (length valid)) rl.max_logs_per_second).0 n)),
              )
      ]

  waited-Tracks :
      (since now : ℤ) (rl : RateLimiter) (grants : Grants)
      → since ≤ℤ now
      → Tracks since rl grants
      → Tracks now rl grants
  waited-Tracks since now rl grants h v = record {
    same = λ k t g. v.same k t (omega arith);
    within = v.within;
    is_window = v.is_window;
    is_max = v.is_max;
  }

  allow-Tracks :
      (now : ℤ) (key : String) (rl : RateLimiter) (grants : Grants)
      → pos 0 <ℤ max
      → Tracks now rl grants
      → ((allow now key rl).0 ≡ (grant max window now key grants).0)
        × Tracks now (allow now key rl).1 (grant max window now key grants).1
  unfolding allow
  allow-Tracks now key rl grants positive v =
      let enabled : ltb_ℤ (pos 0) rl.max_logs_per_second ≡ true =
        (ltb_ℤ_iff (pos 0) rl.max_logs_per_second).1
          (omega (arith, positive, ap pos_part v.is_max, ap neg_part v.is_max)) in
      elim (Bool-cases (ltb_ℤ rl.cleanup_interval (now -ℤ rl.last_cleanup))) [
        | inl c ↦
            simp (enabled, c)
              (take_slot-Tracks now key (cleanup now rl) grants (cleanup-Tracks now rl grants v))
        | inr c ↦ simp (enabled, c) (take_slot-Tracks now key rl grants v)
      ]

  allow_all-Tracks :
      (calls : Calls) (since : ℤ) (rl : RateLimiter) (grants : Grants)
      → pos 0 <ℤ max
      → IsOrdered since calls
      → Tracks since rl grants
      → allow_all calls rl ≡ grant_all max window calls grants
  allow_all-Tracks [] since rl grants positive o v = refl
  allow_all-Tracks ((now, key) ∷ more) since rl grants positive (later, o) v =
      let (same, kept) =
        allow-Tracks now key rl grants positive (waited-Tracks since now rl grants later v) in
      ap (λ b. b ∷ allow_all more (allow now key rl).1) same
      ∙ ap (λ r. (grant max window now key grants).0 ∷ r)
          (allow_all-Tracks more now (allow now key rl).1 (grant max window now key grants).1
            positive o kept)

-- With a positive maximum, a window that is not negative and a clock that does not go back, a new
-- limiter answers any sequence of calls as the reference does, which remembers all that it granted:
-- neither the times that a call drops, nor the cleanups, nor the array that a refused call has
-- overwritten change an answer.
pub allow_all-grant_all :
    (config : RateLimiterConfig) (start : ℤ) (calls : Calls)
    → pos 0 <ℤ config.max_logs_per_second
    → pos 0 ≤ℤ config.window_size
    → IsOrdered start calls
    → allow_all calls (new_rate_limiter config start)
      ≡ grant_all config.max_logs_per_second config.window_size calls (λ key. [])
unfolding new_rate_limiter
allow_all-grant_all config start calls positive forward o =
    allow_all-Tracks config.max_logs_per_second config.window_size forward calls start
      (new_rate_limiter config start) (λ key. []) positive o
      (record {
        same = λ k t h. refl;
        within = λ k. omega (arith, positive);
        is_window = refl;
        is_max = refl;
      })
