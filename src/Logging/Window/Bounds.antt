-- ===== src/Logging/Window/Bounds.antt =====
-- How many entries of a key are logged within a window.
use zen_cleaner.Prelude.{
  ◌+◌, ◌≤◌, String, ◌≡◌, refl, sym, ap, subst, ◌∙◌, inl, inr, Bool, not, ◌&&◌, List, [], ◌∷◌, ◌++◌,
  arith, ◌==◌, eq_iff, if◌then◌else◌, Bool-cases, length, length-append,
}
use mathlib.Core.List.{append_assoc, append-nil}
use zen_cleaner.Prelude.Int.{ℤ, pos, ◌-ℤ◌, ◌≤ℤ◌, ◌<ℤ◌, ltb_ℤ, ltb_ℤ_iff, not_ltb_ℤ_iff, -ℤ_parts}
use zen_cleaner.Logging.Window.{RateLimiterConfig, new_rate_limiter, after}
use zen_cleaner.Logging.Window.Reference.{
  Grants, grant, Calls, allow_all, grant_all, IsOrdered, allow_all-grant_all,
}

-- The times of the calls for a key that were answered by yes.
abbrev pub logged : String → Calls → List Bool → List ℤ
logged k [] answers = []
logged k ((now, key) ∷ more) [] = []
logged k ((now, key) ∷ more) (b ∷ answers) =
    let rest = logged k more answers in if b && key == k then now ∷ rest else rest

-- The times after `start` and not after `end`.
unfoldable pub within_window : ℤ → ℤ → List ℤ → List ℤ
within_window start end [] = []
within_window start end (t ∷ more) =
    let rest = within_window start end more in
    if ltb_ℤ start t && not (ltb_ℤ end t) then t ∷ rest else rest

within_window-append :
    (a b : ℤ) (xs ys : List ℤ)
    → within_window a b (xs ++ ys) ≡ within_window a b xs ++ within_window a b ys
unfolding within_window
within_window-append a b [] ys = refl
within_window-append a b (x ∷ xs) ys = ground (arith, within_window-append a b xs ys)

within_window-le-after :
    (a b c : ℤ) (xs : List ℤ) → c ≤ℤ a → length (within_window a b xs) ≤ length (after c xs)
unfolding within_window after
within_window-le-after a b c [] h = omega arith
within_window-le-after a b c (x ∷ xs) h = ground (arith, within_window-le-after a b c xs)

length-within_window-one :
    (a b x : ℤ)
    → (length (within_window a b (x ∷ [])) ≤ 1) × (b <ℤ x → length (within_window a b (x ∷ [])) ≡ 0)
unfolding within_window
length-within_window-one a b x = ground arith

length-within_window-added :
    (a b x : ℤ) (xs : List ℤ)
    → length (within_window a b (xs ++ x ∷ []))
      ≡ length (within_window a b xs) + length (within_window a b (x ∷ []))
length-within_window-added a b x xs =
    ap length (within_window-append a b xs (x ∷ []))
    ∙ length-append (within_window a b xs) (within_window a b (x ∷ []))

module _ (max window : ℤ) where
  abbrev IsBounded : List ℤ → Type 0
  IsBounded xs = (end : ℤ) → pos (length (within_window (end -ℤ window) end xs)) ≤ℤ max

  granted-IsBounded :
      (now : ℤ) (xs : List ℤ)
      → pos (length (after (now -ℤ window) xs)) <ℤ max
      → IsBounded xs
      → IsBounded (xs ++ now ∷ [])
  granted-IsBounded now xs room h end =
      let start = end -ℤ window in
      let added = length-within_window-added start end now xs in
      let one = length-within_window-one start end now in
      elim (Bool-cases (ltb_ℤ end now)) [
        | inl late ↦ omega (arith, added, one.1 ((ltb_ℤ_iff end now).0 late), h end)
        | inr there ↦ omega (
          arith,
          added,
          one.0,
          room,
          within_window-le-after start end (now -ℤ window) xs
              (omega (arith, -ℤ_parts, (not_ltb_ℤ_iff end now).0 there)),
        )
      ]

  no_grants-IsBounded : pos 0 <ℤ max → IsBounded []
  unfolding within_window
  no_grants-IsBounded positive end = omega (arith, positive)

  grant-IsBounded :
      (now : ℤ) (key : String) (grants : Grants)
      → ((k : String) → IsBounded (grants k))
      → (k : String) → IsBounded ((grant max window now key grants).1 k)
  unfolding grant
  grant-IsBounded now key grants h k =
      elim (Bool-cases (ltb_ℤ (pos (length (after (now -ℤ window) (grants key)))) max)) [
        | inr full ↦ simp full (h k)
        | inl free ↦ elim (Bool-cases (key == k)) [
          | inr other ↦ simp (free, other) (h k)
          | inl same ↦
              simp (free, same)
                (granted-IsBounded now (grants key)
                  ((ltb_ℤ_iff (pos (length (after (now -ℤ window) (grants key)))) max).0 free)
                  (h key))
        ]
      ]

  -- What a step grants, and what is logged of it.
  grant-logged :
      (now : ℤ) (key k : String) (more : Calls) (answers : List Bool) (grants : Grants)
      → let (b, grants') = grant max window now key grants in
        grants k ++ logged k ((now, key) ∷ more) (b ∷ answers) ≡ grants' k ++ logged k more answers
  unfolding grant
  grant-logged now key k more answers grants =
      elim (Bool-cases (ltb_ℤ (pos (length (after (now -ℤ window) (grants key)))) max)) [
        | inr full ↦ simp full refl
        | inl free ↦ elim (Bool-cases (key == k)) [
          | inr other ↦ simp (free, other) refl
          | inl same ↦ simp (free, same) (simp ((eq_iff key k).0 same, append_assoc) refl)
        ]
      ]

  logged-IsBounded :
      (calls : Calls) (grants : Grants) (k : String)
      → ((j : String) → IsBounded (grants j))
      → IsBounded (grants k ++ logged k calls (grant_all max window calls grants))
  logged-IsBounded [] grants k h = subst IsBounded (sym (append-nil (grants k))) (h k)
  logged-IsBounded ((now, key) ∷ more) grants k h =
      let (b, grants') = grant max window now key grants in
      subst IsBounded (sym (grant-logged now key k more (grant_all max window more grants') grants))
        (logged-IsBounded more grants' k (grant-IsBounded now key grants h))

-- With a positive maximum, a window that is not negative and a clock that does not go back, a new
-- limiter lets at most the maximum of entries with one key through in any window, whatever the calls:
-- at any time, within the length of the window that ends then.
pub allow_all-IsBounded :
    (config : RateLimiterConfig) (start : ℤ) (calls : Calls) (key : String) (end : ℤ)
    → pos 0 <ℤ config.max_logs_per_second
    → pos 0 ≤ℤ config.window_size
    → IsOrdered start calls
    → let answers = allow_all calls (new_rate_limiter config start) in
      pos (length (within_window (end -ℤ config.window_size) end (logged key calls answers)))
      ≤ℤ config.max_logs_per_second
allow_all-IsBounded config start calls key end positive forward o =
    let max = config.max_logs_per_second in
    let window = config.window_size in
    let bounded =
      logged-IsBounded max window calls (λ k. []) key (λ j. no_grants-IsBounded max window positive)
        end in
    subst (λ a. pos (length (within_window (end -ℤ window) end (logged key calls a))) ≤ℤ max)
      (sym (allow_all-grant_all config start calls positive forward o)) bounded
