-- ===== src/Ttl/Path.antt =====
-- Field paths: `parseFieldPath` of internal/ttl/evaluator.go, where a backslash escapes a dot, and
-- that of pkg/controller/field_path.go, which is `strings.Split(path, ".")`.
pub mod RoundTrip
use zen_cleaner.Prelude.{ℕ, List, [], ◌∷◌, ◌++◌, ◌&&◌, Bool, true, false, eqb, if◌then◌else◌}
use zen_cleaner.Prelude.Text.{Bytes}

abbrev pub dot : ℕ
dot = 46

abbrev pub backslash : ℕ
backslash = 92

abbrev pub starts_with_dot : Bytes → Bool
starts_with_dot [] = false
starts_with_dot (c ∷ s) = eqb c dot

-- `i++` past an escaped dot is `skip`; `current` and `result` are the builder and the slice.
unfoldable pub parse_from : Bool → List Bytes → Bytes → Bytes → List Bytes
parse_from skip result current [] = result ++ current ∷ []
parse_from true result current (c ∷ s) = parse_from false result current s
parse_from false result current (c ∷ s) =
    let escaped = parse_from true result (current ++ dot ∷ []) s in
    let closed = parse_from false (result ++ current ∷ []) [] s in
    let longer = parse_from false result (current ++ c ∷ []) s in
    if eqb c backslash && starts_with_dot s then escaped else if eqb c dot then closed else longer

unfoldable pub parse_field_path : Bytes → List Bytes
unfolding parse_from
parse_field_path [] = []
parse_field_path (c ∷ s) = parse_from false [] [] (c ∷ s)

-- `strings.Split(s, ".")`.
unfoldable pub split_dots : Bytes → List Bytes
split_dots [] = [] ∷ []
split_dots (c ∷ s) =
    let rest = split_dots s in
    if eqb c dot then [] ∷ rest else elim rest [ [] ↦ (c ∷ []) ∷ [] | w ∷ ws ↦ (c ∷ w) ∷ ws ]

-- `parseFieldPath` of pkg/controller/field_path.go.
unfoldable pub split_field_path : Bytes → List Bytes
unfolding split_dots
split_field_path [] = []
split_field_path (c ∷ s) = split_dots (c ∷ s)
