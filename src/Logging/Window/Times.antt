-- ===== src/Logging/Window/Times.antt =====
-- The times of an entry: what is dropped from them, and what is written over them.
use zen_cleaner.Prelude.{
  ◌≤◌, String, ◌≡◌, refl, sym, ap, ◌∙◌, inl, inr, Option, none, some, List, [], ◌∷◌, ◌++◌, arith,
  ◌==◌, eq_iff, Bool-cases, length,
}
use zen_cleaner.Prelude.Int.{ℤ, ◌≤ℤ◌}
use zen_cleaner.Logging.Window.{
  after, overwritten, overwrite_entry, set_entry, times, entry_of, clean_entry,
}

pub after-append : (a : ℤ) (xs ys : List ℤ) → after a (xs ++ ys) ≡ after a xs ++ after a ys
unfolding after
after-append a [] ys = refl
after-append a (x ∷ xs) ys = ground (arith, after-append a xs ys)

pub length-after : (a : ℤ) (xs : List ℤ) → length (after a xs) ≤ length xs
unfolding after
length-after a [] = omega arith
length-after a (x ∷ xs) = ground (arith, length-after a xs)

-- A list that loses nothing is whole.
pub after_whole : (a : ℤ) (xs : List ℤ) → length xs ≤ length (after a xs) → after a xs ≡ xs
unfolding after
after_whole a [] h = refl
after_whole a (x ∷ xs) h = ground (arith, after_whole a xs, length-after a xs)

pub after-after : (a b : ℤ) (xs : List ℤ) → a ≤ℤ b → after b (after a xs) ≡ after b xs
unfolding after
after-after a b [] h = refl
after-after a b (x ∷ xs) h = ground (arith, after-after a b xs h)

pub after_added :
    (a b x : ℤ) (xs ys : List ℤ)
    → a ≤ℤ b
    → after b xs ≡ after b ys
    → after b (after a xs ++ x ∷ []) ≡ after b (ys ++ x ∷ [])
after_added a b x xs ys h e =
    after-append b (after a xs) (x ∷ [])
    ∙ ap (λ r. r ++ after b (x ∷ [])) (after-after a b xs h ∙ e)
    ∙ sym (after-append b ys (x ∷ []))

pub overwritten_whole : (xs : List ℤ) → overwritten xs xs ≡ xs
unfolding overwritten
overwritten_whole [] = refl
overwritten_whole (x ∷ xs) = ap (λ r. x ∷ r) (overwritten_whole xs)

pub overwrite_whole : (e : Option (List ℤ)) → overwrite_entry (times e) e ≡ e
unfolding overwrite_entry
overwrite_whole none = refl
overwrite_whole (some ts) = ap (λ xs. some xs) (overwritten_whole ts)

pub set_entry_same :
    (key k : String) (entry : Option (List ℤ)) (entries : String → Option (List ℤ))
    → entry ≡ entries key
    → set_entry key entry entries k ≡ entries k
set_entry_same key k entry entries e = elim (Bool-cases (key == k)) [
  | inl same ↦ rw same (e ∙ ap entries ((eq_iff key k).0 same))
  | inr other ↦ rw other refl
]

pub times-entry_of : (xs : List ℤ) → times (entry_of xs) ≡ xs
unfolding entry_of
times-entry_of [] = refl
times-entry_of (x ∷ xs) = refl

pub times-clean_entry :
    (start : ℤ) (e : Option (List ℤ)) → times (clean_entry start e) ≡ after start (times e)
unfolding clean_entry after
times-clean_entry start none = refl
times-clean_entry start (some ts) = times-entry_of (after start ts)
