-- ===== src/Prelude/Text.antt =====
-- Texts: the bytes of a text, where the program walks it, and `strings.TrimSpace`.
use Prim.Native.Char.{Char, code}
use zen_cleaner.Prelude.{
  ℕ, String, ◌≡◌, sym, ◌∙◌, ◌≢◌, inl, inr, Bool, true, false, ◌&&◌, ◌||◌, Option, none, some, List,
  [], ◌∷◌, ◌==◌, eq_iff, leb, eqb, if◌then◌else◌, Bool-cases,
}
use mathlib.Core.Bool.{false≢true}

abbrev pub Bytes : Type 0
Bytes = List ℕ

-- The code points of a text: its bytes, if it is ASCII.
abbrev pub codes : String → Bytes
codes String.[] = []
codes (String.◌∷◌ c s) = code c ∷ codes s

-- `unicode.IsSpace`.
unfoldable pub is_space : ℕ → Bool
is_space c =
    (leb 9 c && leb c 13)
    || eqb c 32
    || eqb c 0x85
    || eqb c 0xa0
    || eqb c 0x1680
    || (leb 0x2000 c && leb c 0x200a)
    || eqb c 0x2028
    || eqb c 0x2029
    || eqb c 0x202f
    || eqb c 0x205f
    || eqb c 0x3000

abbrev pub is_empty : String → Bool
is_empty String.[] = true
is_empty (String.◌∷◌ c s) = false

trim_left : String → String
trim_left String.[] = String.[]
trim_left (String.◌∷◌ c s) =
    let rest = trim_left s in if is_space (code c) then rest else String.◌∷◌ c s

trim_right : String → String
trim_right String.[] = String.[]
trim_right (String.◌∷◌ c s) =
    let rest = trim_right s in
    if is_space (code c) && is_empty rest then String.[] else String.◌∷◌ c rest

-- `strings.TrimSpace`.
unfoldable pub trim_space : String → String
unfolding trim_left trim_right is_space
trim_space s = trim_right (trim_left s)

-- Texts that the comparison tells apart are different.
pub ne_of_eq : (s t : String) → (s == t) ≡ false → s ≢ t
ne_of_eq s t h e = false≢true (sym h ∙ (eq_iff s t).1 e)

pub eq_of_ne : (s t : String) → s ≢ t → (s == t) ≡ false
eq_of_ne s t n = elim (Bool-cases (s == t)) [
  | inl same ↦ absurd (n ((eq_iff s t).0 same))
  | inr other ↦ other
]

-- `strings.ContainsRune`, by code point.
abbrev pub has_code : ℕ → String → Bool
has_code n String.[] = false
has_code n (String.◌∷◌ c s) = eqb (code c) n || has_code n s

unfoldable pub prepend : Char → List String → List String
prepend c [] = String.◌∷◌ c String.[] ∷ []
prepend c (part ∷ parts) = String.◌∷◌ c part ∷ parts

-- `strings.Split` at a separator of one character, by its code point.
unfoldable pub split_on : ℕ → String → List String
unfolding prepend
split_on n String.[] = String.[] ∷ []
split_on n (String.◌∷◌ c s) =
    let rest = split_on n s in if eqb (code c) n then String.[] ∷ rest else prepend c rest

-- `strings.HasSuffix`.
unfoldable pub ends_with : String → String → Bool
ends_with suffix String.[] = suffix == ""
ends_with suffix (String.◌∷◌ c s) = String.◌∷◌ c s == suffix || ends_with suffix s

-- The error of the first step that has one.
infixr 40 ◌or_else◌
abbrev pub ◌or_else◌ : {E : Type 0} → Option E → Option E → Option E
none or_else e = e
some d or_else e = some d

-- What follows a prefix, if the text has it: `strings.HasPrefix`.
unfoldable pub after_prefix : String → String → Option String
after_prefix String.[] s = some s
after_prefix (String.◌∷◌ c p) String.[] = none
after_prefix (String.◌∷◌ c p) (String.◌∷◌ d s) =
    let rest = after_prefix p s in if eqb (code c) (code d) then rest else none

-- What follows the first place of a pattern, if the text has it: `strings.Index`.
unfoldable pub after_first : String → String → Option String
unfolding after_prefix
after_first p String.[] = after_prefix p String.[]
after_first p (String.◌∷◌ d s) =
    let later = after_first p s in
    elim (after_prefix p (String.◌∷◌ d s)) [ some rest ↦ some rest | none ↦ later ]

-- `strings.Contains`.
unfoldable pub includes : String → String → Bool
unfolding after_first
includes s p = elim (after_first p s) [ some rest ↦ true | none ↦ false ]
