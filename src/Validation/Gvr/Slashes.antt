-- ===== src/Validation/Gvr/Slashes.antt =====
-- Texts around a "/", and which of them the parser of API versions lets through.
use zen_cleaner.Prelude.{
  ℕ, String, ◌≡◌, refl, sym, ap, subst, ◌≢◌, inl, inr, true, false, none, List, [], ◌∷◌, arith,
  ◌==◌, eq_iff, eqb, eqb_iff, Bool-cases,
}
use zen_cleaner.Prelude.Text.{has_code, is_empty, prepend, split_on}
use mathlib.Core.Bool.{false≢true}
use Prim.Native.Char.{Char, code, IsScalar}
use zen_cleaner.Validation.Gvr.{check_parts}

abbrev pub NoSlash : String → Type 0
NoSlash s = has_code 0x2f s ≡ false

-- The first text, a "/" and the second text.
abbrev pub join_slash : String → String → String
join_slash String.[] v = String.◌∷◌ "/" v
join_slash (String.◌∷◌ c g) v = String.◌∷◌ c (join_slash g v)

pub split_on_of_NoSlash : (s : String) → NoSlash s → split_on 0x2f s ≡ s ∷ []
unfolding split_on prepend
split_on_of_NoSlash String.[] h = refl
split_on_of_NoSlash (String.◌∷◌ c s) h = ground (arith, split_on_of_NoSlash s)

pub split_on-join_slash :
    (g v : String) → NoSlash g → split_on 0x2f (join_slash g v) ≡ g ∷ split_on 0x2f v
unfolding split_on prepend
split_on-join_slash String.[] v h = refl
split_on-join_slash (String.◌∷◌ c g) v h = ground (arith, split_on-join_slash g v)

pub has_code-join_slash : (g v : String) → has_code 0x2f (join_slash g v) ≡ true
has_code-join_slash String.[] v = refl
has_code-join_slash (String.◌∷◌ c g) v = ground (arith, has_code-join_slash g v)

-- What the parts of a text print.
abbrev pub Joins : String → List String → Type 0
Joins s [] = ⊥
Joins s (g ∷ []) = (s ≡ g) × NoSlash g
Joins s (g ∷ v ∷ []) = (s ≡ join_slash g v) × NoSlash g × NoSlash v
Joins s (g ∷ v ∷ w ∷ more) = Unit

Joins-prepend :
    (c : Char) (s : String) (parts : List String)
    → eqb (code c) 0x2f ≡ false
    → Joins s parts
    → Joins (String.◌∷◌ c s) (prepend c parts)
unfolding prepend
Joins-prepend c s [] h j = elim j [ ]
Joins-prepend c s (g ∷ []) h (e, n) = (ap (String.◌∷◌ c) e, ground arith)
Joins-prepend c s (g ∷ v ∷ []) h (e, n, m) = (ap (String.◌∷◌ c) e, ground arith, m)
Joins-prepend c s (g ∷ v ∷ w ∷ more) h j = tt

Joins-cons :
    (s : String) (parts : List String)
    → Joins s parts
    → Joins (String.◌∷◌ "/" s) (String.[] ∷ parts)
Joins-cons s [] j = elim j [ ]
Joins-cons s (g ∷ []) (e, n) = (ap (String.◌∷◌ "/") e, refl, n)
Joins-cons s (g ∷ v ∷ []) j = tt
Joins-cons s (g ∷ v ∷ w ∷ more) j = tt

slash_of_code : (c : Char) → eqb (code c) 0x2f ≡ true → c ≡ "/"
slash_of_code (Char.char n p) h =
    (subst (λ (m : ℕ). (q : IsScalar m) → Char.char m q ≡ "/") (sym ((eqb_iff n 0x2f).0 h))
        (λ q. refl))
      p

pub Joins-split_on : (s : String) → Joins s (split_on 0x2f s)
unfolding split_on
Joins-split_on String.[] = (refl, refl)
Joins-split_on (String.◌∷◌ c s) = elim (Bool-cases (eqb (code c) 0x2f)) [
  | inl h ↦ simp h (
      subst (λ d. Joins (String.◌∷◌ d s) (String.[] ∷ split_on 0x2f s)) (sym (slash_of_code c h))
        (Joins-cons s (split_on 0x2f s) (Joins-split_on s)))
  | inr h ↦ simp h (Joins-prepend c s (split_on 0x2f s) h (Joins-split_on s))
]

-- Which parts of a text with a "/" pass the test, and what they print.
abbrev pub Printed : String → Type 0
Printed s =
    (g : String) × (v : String) × (s ≡ join_slash g v) × NoSlash g × NoSlash v × (g ≢ "") × (v ≢ "")

pub check_parts-Printed :
    (s : String) (parts : List String)
    → Joins s parts
    → has_code 0x2f s ≡ true
    → check_parts parts ≡ none
    → Printed s
unfolding check_parts
check_parts-Printed s [] j h e = elim j [ ]
check_parts-Printed s (g ∷ []) (p, n) h e = absurd (ground arith)
check_parts-Printed s (g ∷ v ∷ []) (p, n, m) h e =
    (g, v, p, n, m, ground (arith, eq_iff g ""), ground (arith, eq_iff g "", eq_iff v ""))
check_parts-Printed s (g ∷ v ∷ w ∷ more) j h e = absurd (ground arith)

cons-nonempty : (c : Char) (s : String) → (String.◌∷◌ c s == "") ≡ false
cons-nonempty c s = elim (Bool-cases (String.◌∷◌ c s == "")) [
  | inl e ↦ absurd (false≢true (ap is_empty ((eq_iff (String.◌∷◌ c s) "").0 e)))
  | inr e ↦ e
]

pub join_slash-nonempty : (g v : String) → (join_slash g v == "") ≡ false
join_slash-nonempty String.[] v = cons-nonempty "/" v
join_slash-nonempty (String.◌∷◌ c g) v = cons-nonempty c (join_slash g v)
