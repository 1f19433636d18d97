-- ===== src/Errors.antt =====
-- internal/errors/classified.go: whether an error is worth a retry. An error is its chain of causes, as
-- `errors.Unwrap` sees it; errors that join several are left out. `strings.ToLower` and the tests for
-- the network errors of package net are arguments.
pub mod Retries
pub mod Context
use Prim.Native.Char.{Char, code}
use zen_cleaner.Prelude.{
  ℕ, zero, suc, ◌+◌, ◌-◌, ◌*◌, ◌/◌, String, Bool, true, false, ◌&&◌, ◌||◌, Option, none, some, List,
  [], ◌∷◌, ltb, leb, eqb, if◌then◌else◌, length, any,
}
use zen_cleaner.Prelude.Text.{includes, after_first}

pub data ErrorClass : Type 0 where
  transient permanent resource_exhausted : ErrorClass

-- A plain error, an error with its text around a cause, and a ClassifiedError.
pub data GoError : Type 0 where
  leaf : String → GoError
  caused : String → GoError → GoError
  classified : GoError → ErrorClass → ℕ → GoError

pub record ClassifiedError : Type 0 where
  pub err : GoError
  pub class : ErrorClass
  pub status_code : ℕ

-- `strings.ToLower`, and whether package net calls the error a timeout or an OpError.
pub record Errors : Type 0 where
  pub to_lower : String → String
  pub is_net_timeout : String → Bool
  pub is_op_error : String → Bool

abbrev pub ClassifyConfig : Type 0
ClassifyConfig = List String

abbrev pub default_classify_config : ClassifyConfig
default_classify_config =
    "token budget exhausted" ∷ "budget exceeded" ∷ "context_length_exceeded"
    ∷ "exceeds the available context" ∷ "maximum context length" ∷ "rate limit exceeded"
    ∷ "quota exceeded" ∷ "resource exhausted" ∷ []

-- `code` and the characters that are left; at most three digits are read.
read_digits : ℕ → ℕ → String → ℕ
read_digits zero number rest = number
read_digits (suc more) number String.[] = number
read_digits (suc more) number (String.◌∷◌ c rest) =
    let read = read_digits more (number * 10 + (code c - b'0')) rest in
    if ltb (code c) b'0' || ltb b'9' (code c) then number else read

unfoldable pub is_status : ℕ → Bool
is_status number = leb 100 number && ltb number 600

status_after : Option String → Option ℕ
unfolding read_digits is_status
status_after none = none
status_after (some rest) =
    let number = read_digits 3 0 rest in if is_status number then some number else none

-- `none` is the source's 0.
unfoldable pub extract_http_status : String → Option ℕ
unfolding status_after after_first
extract_http_status msg = elim (status_after (after_first "status " msg)) [
  | some number ↦ some number
  | none ↦ status_after (after_first "http " msg)
]

unfoldable pub is_retryable_status : ℕ → Bool
is_retryable_status number =
    eqb number 429 || eqb number 502 || eqb number 503 || eqb number 504 || eqb number 500

unfoldable pub is_network_error : Errors → String → Bool
unfolding includes
is_network_error errors msg =
    errors.is_net_timeout msg
    || errors.is_op_error msg
    || any (includes msg) (
        "connection refused" ∷ "connection reset" ∷ "broken pipe" ∷ "no such host" ∷ "i/o timeout"
        ∷ [])

-- The last switch: no status, or one that no case takes, falls through.
unfoldable pub status_class : Option ℕ → Option ErrorClass
unfolding is_retryable_status
status_class none = none
status_class (some number) =
    if is_retryable_status number
    then some transient
    else if eqb number 401 || eqb number 403
    then some permanent
    else if eqb number 404
    then some permanent
    else if leb 400 number && ltb number 500
    then some permanent
    else if leb 500 number
    then some transient
    else none

unfoldable pub code_of : Option ℕ → ℕ
code_of none = 0
code_of (some number) = number

classify_status : Errors → GoError → String → Option ℕ → Option ErrorClass → ClassifiedError
unfolding is_network_error code_of
classify_status errors err msg status (some class) = record {
  err = err;
  class = class;
  status_code = code_of status;
}
classify_status errors err msg status none =
    if is_network_error errors msg
    then record { err = err; class = transient; status_code = 0 }
    else record { err = err; class = transient; status_code = 0 }

-- With the text of the innermost error.
unfoldable pub classify_message : Errors → ClassifyConfig → GoError → String → ClassifiedError
unfolding classify_status status_class extract_http_status includes
classify_message errors config err text =
    let msg = errors.to_lower text in
    if any (includes msg) config
    then record { err = err; class = resource_exhausted; status_code = 0 }
    else classify_status errors err text (extract_http_status msg)
        (status_class (extract_http_status msg))

-- The loop over the causes, with the error that it started from.
unfoldable pub classify_from : Errors → ClassifyConfig → GoError → GoError → ClassifiedError
unfolding classify_message
classify_from errors config err (classified cause class number) = record {
  err = cause;
  class = class;
  status_code = number;
}
classify_from errors config err (leaf text) = classify_message errors config err text
classify_from errors config err (caused text cause) = classify_from errors config err cause

unfoldable pub classify_with_config :
    Errors → ClassifyConfig → Option GoError → Option ClassifiedError
unfolding classify_from
classify_with_config errors config none = none
classify_with_config errors config (some err) = some (classify_from errors config err err)

unfoldable pub classify_error : Errors → Option GoError → Option ClassifiedError
unfolding classify_with_config
classify_error errors err = classify_with_config errors default_classify_config err

has_class : Errors → Option GoError → (ErrorClass → Bool) → Bool
unfolding classify_error
has_class errors err test = elim (classify_error errors err) [
  | none ↦ false
  | some c ↦ test c.class
]

unfoldable pub is_transient : Errors → Option GoError → Bool
unfolding has_class
is_transient errors err = has_class errors err (λ c. elim c [ transient ↦ true | _ ↦ false ])

unfoldable pub is_permanent : Errors → Option GoError → Bool
unfolding has_class
is_permanent errors err = has_class errors err (λ c. elim c [ permanent ↦ true | _ ↦ false ])

unfoldable pub is_resource_exhausted : Errors → Option GoError → Bool
unfolding has_class
is_resource_exhausted errors err =
    has_class errors err (λ c. elim c [ resource_exhausted ↦ true | _ ↦ false ])
