-- ===== src/Errors/Retries.antt =====
-- Which errors are worth a retry.
use zen_cleaner.Prelude.{
  ℕ, ◌≤◌, ◌<◌, String, ◌≡◌, refl, ◌≢◌, ◌↔◌, ◌⊎◌, inl, inr, Bool, true, Option, none, some, List, [],
  ◌∷◌, arith, Bool-cases, any, Any,
}
use zen_cleaner.Prelude.Text.{includes}
use zen_cleaner.Errors.{
  ErrorClass, permanent, resource_exhausted, GoError, leaf, caused, classified, ClassifiedError,
  Errors, ClassifyConfig, extract_http_status, is_retryable_status, status_class, is_network_error,
  code_of, classify_status, classify_message, classify_from, classify_with_config,
}

-- The first ClassifiedError of a chain, or else the text of its innermost error.
abbrev pub innermost : GoError → ClassifiedError ⊎ String
innermost (leaf text) = inr text
innermost (caused text cause) = innermost cause
innermost (classified cause class number) =
    inl (record { err = cause; class = class; status_code = number })

abbrev pub Mentions : String → ClassifyConfig → Type 0
Mentions msg config = Any (λ p. includes msg p ≡ true) config

-- A status of the client that a later try does not change.
abbrev pub IsRejected : Option ℕ → Type 0
IsRejected none = ⊥
IsRejected (some number) = (400 ≤ number) × (number < 500) × (number ≢ 429)

-- The number of a classification by its status: a status below 400 takes no part in it.
abbrev pub HasNumber : Option ℕ → ℕ → Type 0
HasNumber none code = code ≡ 0
HasNumber (some number) code = (400 ≤ number → code ≡ number) × (number < 400 → code ≡ 0)

-- An error with a text that is not a ClassifiedError.
pub record IsClassifiedBy (errors : Errors) (config : ClassifyConfig) (err : GoError)
    (text : String) (c : ClassifiedError) : Type 0 where
  pub kept : c.err ≡ err
  pub exhausted : (c.class ≡ resource_exhausted) ↔ Mentions (errors.to_lower text) config
  pub rejected : (c.class ≡ permanent) ↔ (
      (¬ Mentions (errors.to_lower text) config)
      × IsRejected (extract_http_status (errors.to_lower text)))
  pub unnumbered : Mentions (errors.to_lower text) config → c.status_code ≡ 0
  pub numbered :
      ¬ Mentions (errors.to_lower text) config
      → HasNumber (extract_http_status (errors.to_lower text)) c.status_code

any_iff : {A : Type 0} (p : A → Bool) (xs : List A) → (any p xs ≡ true) ↔ Any (λ x. p x ≡ true) xs
any_iff p [] = ground arith
any_iff p (x ∷ xs) = ground (arith, any_iff p xs)

status_class-permanent_iff :
    (status : Option ℕ) → (status_class status ≡ some permanent) ↔ IsRejected status
unfolding status_class is_retryable_status
status_class-permanent_iff none = ground arith
status_class-permanent_iff (some number) = ground arith

status_class-not_exhausted : (status : Option ℕ) → status_class status ≢ some resource_exhausted
unfolding status_class
status_class-not_exhausted none = ground arith
status_class-not_exhausted (some number) = ground arith

classify_status_lem :
    (errors : Errors) (err : GoError) (text : String) (status : Option ℕ)
    (class : Option ErrorClass)
    → class ≢ some resource_exhausted
    → let c = classify_status errors err text status class in
      (c.err ≡ err)
      × (c.class ≢ resource_exhausted)
      × ((c.class ≡ permanent) ↔ (class ≡ some permanent))
unfolding classify_status
classify_status_lem errors err text status none h =
    ground (arith, Bool-cases (is_network_error errors text))
classify_status_lem errors err text status (some class) h = ground arith

unclassified-number :
    (errors : Errors) (err : GoError) (text : String) (status : Option ℕ)
    → (classify_status errors err text status none).status_code ≡ 0
unfolding classify_status
unclassified-number errors err text status =
    ground (arith, Bool-cases (is_network_error errors text))

classify_status-HasNumber :
    (errors : Errors) (err : GoError) (text : String) (status : Option ℕ)
    → HasNumber status (classify_status errors err text status (status_class status)).status_code
unfolding status_class is_retryable_status classify_status code_of
classify_status-HasNumber errors err text none = unclassified-number errors err text none
classify_status-HasNumber errors err text (some number) =
    ground (arith, Bool-cases (is_network_error errors text))

classify_message-IsClassifiedBy :
    (errors : Errors) (config : ClassifyConfig) (err : GoError) (text : String)
    → IsClassifiedBy errors config err text (classify_message errors config err text)
unfolding classify_message
classify_message-IsClassifiedBy errors config err text =
    let msg = errors.to_lower text in
    let status = extract_http_status msg in
    let mentions = any_iff (includes msg) config in
    let (kept, not_exhausted, permanent_iff) =
      classify_status_lem errors err text status (status_class status)
        (status_class-not_exhausted status) in
    let rejected = status_class-permanent_iff status in
    elim (Bool-cases (any (includes msg) config)) [
      | inl y ↦ simp y (record {
        kept = refl;
        exhausted = (λ e. mentions.0 y, λ m. refl);
        rejected = (λ e. cc, λ (n, _). absurd (n (mentions.0 y)));
        unnumbered = λ m. refl;
        numbered = λ n. absurd (n (mentions.0 y));
      })
      | inr n ↦ simp n (record {
        kept = kept;
        exhausted = (λ e. absurd (not_exhausted e), λ m. cc (mentions.1 m, n));
        rejected = (
          λ e. (λ m. cc (mentions.1 m, n), rejected.0 (permanent_iff.0 e)),
          λ (_, x). permanent_iff.1 (rejected.1 x),
        );
        unnumbered = λ m. cc (mentions.1 m, n);
        numbered = λ _. classify_status-HasNumber errors err text status;
      })
    ]

abbrev pub Classifies :
    Errors → ClassifyConfig → GoError → ClassifiedError ⊎ String → ClassifiedError → Type 0
Classifies errors config err (inl c) x = x ≡ c
Classifies errors config err (inr text) x = IsClassifiedBy errors config err text x

classify_from-Classifies :
    (errors : Errors) (config : ClassifyConfig) (err cause : GoError)
    → Classifies errors config err (innermost cause) (classify_from errors config err cause)
unfolding classify_from
classify_from-Classifies errors config err (leaf text) =
    classify_message-IsClassifiedBy errors config err text
classify_from-Classifies errors config err (caused text cause) =
    classify_from-Classifies errors config err cause
classify_from-Classifies errors config err (classified cause class number) = refl

-- Every error is classified. One with a ClassifiedError in its chain is the first of these, unchanged.
-- Any other is kept as it is, and only the text of its innermost error counts, in lower case: it is a
-- resource exhaustion exactly where that text mentions a pattern of the configuration, and it is
-- permanent exactly where the text mentions none and has a status of 4xx other than 429. So whatever
-- else is transient. Its code is that status where it is at least 400 and no pattern is mentioned, and 0
-- otherwise.
pub classify_with_config-Classifies :
    (errors : Errors) (config : ClassifyConfig) (err : GoError)
    → (x : ClassifiedError) × (classify_with_config errors config (some err) ≡ some x)
      × Classifies errors config err (innermost err) x
unfolding classify_with_config
classify_with_config-Classifies errors config err =
    (classify_from errors config err err, refl, classify_from-Classifies errors config err err)
