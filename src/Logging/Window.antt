-- ===== src/Logging/Window.antt =====
-- The rate limiter for log entries of internal/logging/sampling.go: at most so many entries for each
-- key in a sliding window. A time is in nanoseconds, and the locks make each call one step.
--
-- The filter of a key's times writes into the array that the map still refers to, with the old length:
-- a call that is refused leaves the overwritten array in the map.
pub mod Times
pub mod Reference
pub mod Bounds
use zen_cleaner.Prelude.{
  ◌+◌, ◌-◌, String, Bool, true, false, Option, none, some, List, [], ◌∷◌, ◌++◌, ◌==◌, if◌then◌else◌,
  length, drop,
}
use zen_cleaner.Prelude.Int.{ℤ, pos, ◌+ℤ◌, ◌-ℤ◌, ltb_ℤ}

-- The times of a key, if it has an entry.
abbrev pub Entries : Type 0
Entries = String → Option (List ℤ)

pub record RateLimiter : Type 0 where
  pub max_logs_per_second : ℤ
  pub window_size : ℤ
  pub entries : Entries
  pub cleanup_interval : ℤ
  pub last_cleanup : ℤ

pub record RateLimiterConfig : Type 0 where
  pub max_logs_per_second : ℤ
  pub window_size : ℤ
  pub cleanup_interval : ℤ

abbrev pub default_rate_limiter_config : RateLimiterConfig
default_rate_limiter_config = record {
  max_logs_per_second = pos 10;
  window_size = pos 1000000000;
  cleanup_interval = pos 60000000000;
}

unfoldable pub new_rate_limiter : RateLimiterConfig → ℤ → RateLimiter
new_rate_limiter config now = record {
  max_logs_per_second = config.max_logs_per_second;
  window_size = config.window_size;
  entries = λ key. none;
  cleanup_interval = config.cleanup_interval;
  last_cleanup = now;
}

-- The times after a time.
unfoldable pub after : ℤ → List ℤ → List ℤ
after start [] = []
after start (t ∷ more) = let rest = after start more in if ltb_ℤ start t then t ∷ rest else rest

-- The array of the times, once those that are kept have been moved to its front.
unfoldable pub overwritten : List ℤ → List ℤ → List ℤ
overwritten kept timestamps = kept ++ drop (length kept) timestamps

abbrev pub set_entry : String → Option (List ℤ) → Entries → Entries
set_entry key value entries k = if key == k then value else entries k

abbrev pub times : Option (List ℤ) → List ℤ
times none = []
times (some timestamps) = timestamps

-- An entry without times is deleted.
unfoldable pub entry_of : List ℤ → Option (List ℤ)
entry_of [] = none
entry_of (t ∷ more) = some (t ∷ more)

-- An entry of the map after the cleanup.
unfoldable pub clean_entry : ℤ → Option (List ℤ) → Option (List ℤ)
unfolding after entry_of
clean_entry start none = none
clean_entry start (some timestamps) = entry_of (after start timestamps)

unfoldable pub cleanup : ℤ → RateLimiter → RateLimiter
unfolding clean_entry
cleanup now rl = record rl {
  entries = λ key. clean_entry (now -ℤ (rl.window_size +ℤ rl.window_size)) (rl.entries key);
  last_cleanup = now;
}

-- The entry that the map still has after the filter.
unfoldable pub overwrite_entry : List ℤ → Option (List ℤ) → Option (List ℤ)
unfolding overwritten
overwrite_entry kept none = none
overwrite_entry kept (some timestamps) = some (overwritten kept timestamps)

-- The times are read, and there is room or not.
unfoldable pub take_slot : ℤ → String → RateLimiter → Bool × RateLimiter
unfolding after overwrite_entry
take_slot now key rl =
    let timestamps = times (rl.entries key) in
    let valid = after (now -ℤ rl.window_size) timestamps in
    if ltb_ℤ (pos (length valid)) rl.max_logs_per_second
    then (true, record rl { entries = set_entry key (some (valid ++ now ∷ [])) rl.entries })
    else (
      false,
      record rl { entries = set_entry key (overwrite_entry valid (rl.entries key)) rl.entries },
    )

unfoldable pub allow : ℤ → String → RateLimiter → Bool × RateLimiter
unfolding cleanup take_slot
allow now key rl =
    if ltb_ℤ (pos 0) rl.max_logs_per_second
    then take_slot now key
        (if ltb_ℤ rl.cleanup_interval (now -ℤ rl.last_cleanup) then cleanup now rl else rl)
    else (true, rl)
