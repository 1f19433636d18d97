-- ===== src/Logging/Categories/Classes.antt =====
-- An error is retryable, the client's or the server's, and only one of them.
use zen_cleaner.Prelude.{
  String, ◌≡◌, refl, inl, inr, Bool, true, false, Option, none, some, [], ◌∷◌, Bool-cases, any, All,
}
use zen_cleaner.Prelude.Text.{includes}
use zen_cleaner.Logging.Categories.{
  ErrorCategory, internal, Rules, error_category_rules, first_match, categorize_error,
  is_retryable_category, is_client_category, is_server_category, is_retryable_error,
  is_client_error, is_server_error,
}

pub data ErrorHandling : Type 0 where
  retry blame_client blame_server : ErrorHandling

-- The three answers that go with each.
abbrev pub answers : ErrorHandling → Bool × Bool × Bool
answers retry = (true, false, false)
answers blame_client = (false, true, false)
answers blame_server = (false, false, true)

-- No text is given an unknown, an external or a temporary category.
abbrev IsGiven : ErrorCategory → Type 0
IsGiven category =
    (h : ErrorHandling) × ((
      is_retryable_category category,
      is_client_category category,
      is_server_category category,
    )
      ≡ answers h)

first_match-IsGiven :
    (rules : Rules) (msg : String)
    → IsGiven internal
    → All (λ rule. IsGiven rule.0) rules
    → IsGiven (first_match rules msg)
unfolding first_match
first_match-IsGiven [] msg i h = i
first_match-IsGiven ((category, patterns) ∷ more) msg i (g, h) =
    elim (Bool-cases (any (includes msg) patterns)) [
      | inl y ↦ rw y g
      | inr n ↦ rw n (first_match-IsGiven more msg i h)
    ]

internal-IsGiven : IsGiven internal
unfolding is_retryable_category is_client_category is_server_category
internal-IsGiven = (blame_server, refl)

rules-IsGiven : All (λ rule. IsGiven rule.0) error_category_rules
unfolding error_category_rules is_retryable_category is_client_category is_server_category
rules-IsGiven = (
  (blame_client, refl),
  (
    (blame_client, refl),
    (
      (blame_client, refl),
      (
        (blame_client, refl),
        (
          (blame_client, refl),
          (
            (retry, refl),
            ((retry, refl), ((retry, refl), ((blame_server, refl), ((blame_server, refl), tt)))),
          ),
        ),
      ),
    ),
  ),
)

abbrev pub asked : Option String → Bool × Bool × Bool
asked err = (is_retryable_error err, is_client_error err, is_server_error err)

-- Every error is exactly one of retryable, the client's and the server's, and nil is none of these.
pub categorize_error-answers :
    (msg : String)
    → ((h : ErrorHandling) × (asked (some msg) ≡ answers h)) × (asked none ≡ (false, false, false))
unfolding is_retryable_error is_client_error is_server_error categorize_error
categorize_error-answers msg =
    (first_match-IsGiven error_category_rules msg internal-IsGiven rules-IsGiven, refl)
