-- ===== src/Ttl/Path/RoundTrip.antt =====
-- The two field path parsers: what the escaping one inverts, and where they agree.
use mathlib.Core.List.{append_assoc, append-nil}
use zen_cleaner.Prelude.{
  ℕ, List, [], ◌∷◌, ◌++◌, ◌≡◌, ◌≢◌, ◌⊎◌, inl, inr, refl, sym, ap, ◌∙◌, ◌&&◌, Bool, true, false, eqb,
  if◌then◌else◌, arith, All, Bool-cases,
}
use zen_cleaner.Prelude.Text.{Bytes}
use zen_cleaner.Ttl.Path.{
  dot, backslash, starts_with_dot, parse_from, parse_field_path, split_dots, split_field_path,
}

-- A path segment with its dots escaped, and the path that has given segments.
abbrev pub escape : Bytes → Bytes
escape [] = []
escape (c ∷ w) = let rest = escape w in if eqb c dot then backslash ∷ dot ∷ rest else c ∷ rest

abbrev pub join : List Bytes → Bytes
join [] = []
join (w ∷ []) = escape w
join (w ∷ v ∷ ws) = escape w ++ dot ∷ join (v ∷ ws)

abbrev pub ends_with_backslash : Bytes → Bool
ends_with_backslash [] = false
ends_with_backslash (c ∷ []) = eqb c backslash
ends_with_backslash (c ∷ d ∷ w) = ends_with_backslash (d ∷ w)

-- All segments but the last end in a byte that is no backslash.
abbrev pub AreSeparable : List Bytes → Type 0
AreSeparable [] = Unit
AreSeparable (w ∷ []) = Unit
AreSeparable (w ∷ v ∷ ws) = (ends_with_backslash w ≡ false) × AreSeparable (v ∷ ws)

escape-starts_with_dot :
    (w rest : Bytes)
    → (w ≢ []) ⊎ (starts_with_dot rest ≡ false)
    → starts_with_dot (escape w ++ rest) ≡ false
escape-starts_with_dot [] rest (inl h) = absurd (h refl)
escape-starts_with_dot [] rest (inr h) = h
escape-starts_with_dot (c ∷ w) rest h = ground arith

parse_from_plain :
    (result : List Bytes) (current : Bytes) (c : ℕ) (s : Bytes)
    → eqb c dot ≡ false
    → (eqb c backslash ≡ false) ⊎ (starts_with_dot s ≡ false)
    → parse_from false result current (c ∷ s) ≡ parse_from false result (current ++ c ∷ []) s
unfolding parse_from
parse_from_plain result current c s d (inl h) = rw (h, d, ◌&&◌)
parse_from_plain result current c s d (inr h) = elim (Bool-cases (eqb c backslash)) [
  | inl e ↦ rw (e, h, d)
  | inr e ↦ rw (e, d)
]

parse_from_escaped :
    (result : List Bytes) (current : Bytes) (c : ℕ) (s : Bytes)
    → eqb c dot ≡ true
    → parse_from false result current (backslash ∷ dot ∷ s)
      ≡ parse_from false result (current ++ c ∷ []) s
unfolding parse_from
parse_from_escaped result current c s e =
    let same : dot ≡ c = ground arith in
    ap (λ (t : ℕ). parse_from false result (current ++ t ∷ []) s) same

-- The tail of a segment that does not end in a backslash, or is the last.
abbrev Closed : Bytes → Bytes → Type 0
Closed w rest = (ends_with_backslash w ≡ false) ⊎ (starts_with_dot rest ≡ false)

Closed-head :
    (c : ℕ) (w rest : Bytes)
    → Closed (c ∷ w) rest
    → (eqb c backslash ≡ false) ⊎ (starts_with_dot (escape w ++ rest) ≡ false)
Closed-head c [] rest h = h
Closed-head c (d ∷ w) rest h = inr (escape-starts_with_dot (d ∷ w) rest (inl (λ e. cc)))

Closed-tail : (c : ℕ) (w rest : Bytes) → Closed (c ∷ w) rest → Closed w rest
Closed-tail c [] rest h = inl refl
Closed-tail c (d ∷ w) rest h = h

parse_from-escape :
    (result : List Bytes) (current w rest : Bytes)
    → Closed w rest
    → parse_from false result current (escape w ++ rest)
      ≡ parse_from false result (current ++ w) rest
parse_from-escape result current [] rest h = rw (append-nil current)
parse_from-escape result current (c ∷ w) rest h =
    let ih = parse_from-escape result (current ++ c ∷ []) w rest (Closed-tail c w rest h) in
    let after = rw (append_assoc current (c ∷ []) w) at ih in
    elim (Bool-cases (eqb c dot)) [
      | inl e ↦ rw e (parse_from_escaped result current c (escape w ++ rest) e ∙ after)
      | inr e ↦
          rw e (
            parse_from_plain result current c (escape w ++ rest) e (Closed-head c w rest h) ∙ after)
    ]

parse_from-join :
    (result : List Bytes) (w : Bytes) (ws : List Bytes)
    → AreSeparable (w ∷ ws)
    → parse_from false result [] (join (w ∷ ws)) ≡ result ++ w ∷ ws
unfolding parse_from
parse_from-join result w [] h =
    rw (append-nil (escape w)) at (parse_from-escape result [] w [] (inr refl))
parse_from-join result w (v ∷ ws) (h, hs) =
    parse_from-escape result [] w (dot ∷ join (v ∷ ws)) (inl h)
    ∙ parse_from-join (result ++ w ∷ []) v ws hs
    ∙ append_assoc result (w ∷ []) (v ∷ ws)

parse_field_path_of_ne : (p : Bytes) → p ≢ [] → parse_field_path p ≡ parse_from false [] [] p
unfolding parse_field_path
parse_field_path_of_ne [] h = absurd (h refl)
parse_field_path_of_ne (c ∷ s) h = refl

-- Parsing the path that is joined from escaped segments gives the segments back, provided that there
-- is a segment, that the path is not the empty text, and that no segment but the last ends in a
-- backslash.
pub parse_field_path-join :
    (w : Bytes) (ws : List Bytes)
    → join (w ∷ ws) ≢ []
    → AreSeparable (w ∷ ws)
    → parse_field_path (join (w ∷ ws)) ≡ w ∷ ws
parse_field_path-join w ws n h =
    parse_field_path_of_ne (join (w ∷ ws)) n ∙ parse_from-join [] w ws h

-- Text that holds no backslash.
abbrev pub NoBackslash : Bytes → Type 0
NoBackslash = All (λ c. eqb c backslash ≡ false)

-- The first segment of a list, extended on the left.
abbrev prepend : Bytes → List Bytes → List Bytes
prepend current [] = current ∷ []
prepend current (w ∷ ws) = (current ++ w) ∷ ws

split_dots-ne : (s : Bytes) → (w : Bytes) × (ws : List Bytes) × (split_dots s ≡ w ∷ ws)
unfolding split_dots
split_dots-ne [] = ([], [], refl)
split_dots-ne (c ∷ s) =
    let (w, ws, e) = split_dots-ne s in
    elim (Bool-cases (eqb c dot)) [
      | inl h ↦ ([], w ∷ ws, rw (h, e))
      | inr h ↦ (c ∷ w, ws, rw (h, e))
    ]

prepend_nil-split_dots : (s : Bytes) → prepend [] (split_dots s) ≡ split_dots s
prepend_nil-split_dots s = let (w, ws, e) = split_dots-ne s in rw e

-- What a byte that is no dot does to the segments that follow it.
prepend-split_dots_plain :
    (current : Bytes) (c : ℕ) (s : Bytes)
    → eqb c dot ≡ false
    → prepend (current ++ c ∷ []) (split_dots s) ≡ prepend current (split_dots (c ∷ s))
unfolding split_dots
prepend-split_dots_plain current c s h =
    let (w, ws, e) = split_dots-ne s in
    rw (h, e) (ap (λ t. t ∷ ws) (append_assoc current (c ∷ []) w))

prepend-split_dots-dot :
    (current : Bytes) (c : ℕ) (s : Bytes)
    → eqb c dot ≡ true
    → prepend current (split_dots (c ∷ s)) ≡ current ∷ prepend [] (split_dots s)
unfolding split_dots
prepend-split_dots-dot current c s h =
    rw (h, append-nil current) (ap (λ t. current ∷ t) (sym (prepend_nil-split_dots s)))

parse_from-dot :
    (result : List Bytes) (current : Bytes) (c : ℕ) (s : Bytes)
    → eqb c dot ≡ true
    → eqb c backslash ≡ false
    → parse_from false result current (c ∷ s) ≡ parse_from false (result ++ current ∷ []) [] s
unfolding parse_from
parse_from-dot result current c s d h = rw (h, d, ◌&&◌)

parse_from-split_dots :
    (result : List Bytes) (current s : Bytes)
    → NoBackslash s
    → parse_from false result current s ≡ result ++ prepend current (split_dots s)
unfolding parse_from split_dots
parse_from-split_dots result current [] h = rw (append-nil current)
parse_from-split_dots result current (c ∷ s) (h, hs) = elim (Bool-cases (eqb c dot)) [
  | inl e ↦
      parse_from-dot result current c s e h
      ∙ parse_from-split_dots (result ++ current ∷ []) [] s hs
      ∙ append_assoc result (current ∷ []) (prepend [] (split_dots s))
      ∙ ap (λ t. result ++ t) (sym (prepend-split_dots-dot current c s e))
  | inr e ↦
      parse_from_plain result current c s e (inl h)
      ∙ parse_from-split_dots result (current ++ c ∷ []) s hs
      ∙ ap (λ t. result ++ t) (prepend-split_dots_plain current c s e)
]

-- On a path with no backslash the evaluator's parser and the controller's give the same segments.
pub parse_field_path-split_field_path :
    (p : Bytes) → NoBackslash p → parse_field_path p ≡ split_field_path p
unfolding parse_field_path split_field_path
parse_field_path-split_field_path [] h = refl
parse_field_path-split_field_path (c ∷ s) h =
    parse_from-split_dots [] [] (c ∷ s) h ∙ prepend_nil-split_dots (c ∷ s)
