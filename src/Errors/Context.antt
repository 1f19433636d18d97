-- ===== src/Errors/Context.antt =====
-- internal/errors/errors.go, and the two functions of pkg/errors/errors.go over it: the errors that
-- carry fields. An error that is not nil is its chain of causes. A ContextError is changed in place, so
-- the functions that add fields return it and the whole error as its other holders see it afterwards;
-- that a new ContextError keeps the map of its caller is left out.
pub mod Adding
use zen_cleaner.Prelude.{◌<◌, String, ◌<>◌, Option, none, some, List, [], ◌∷◌, lookup, insert}

abbrev pub Entries : Type 0
Entries = List (String × String)

-- A ContextError but for its cause; `none` is a nil map.
pub record Fields : Type 0 where
  pub type_name : String
  pub message : String
  pub context : Option Entries

-- Another error, another error with its whole text around a cause, and a ContextError without and with
-- a cause.
pub data AnyError : Type 0 where
  plain : String → AnyError
  wrapping : String → AnyError → AnyError
  root : Fields → AnyError
  over : Fields → AnyError → AnyError

pub record ContextError : Type 0 where
  pub fields : Fields
  pub err : Option AnyError

unfoldable pub with_cause : Fields → Option AnyError → AnyError
with_cause f none = root f
with_cause f (some cause) = over f cause

unfoldable pub as_error : ContextError → AnyError
unfolding with_cause
as_error c = with_cause c.fields c.err

unfoldable pub error_text : AnyError → String
error_text (plain text) = text
error_text (wrapping text cause) = text
error_text (root f) = f.message
error_text (over f cause) = f.message <> ": " <> error_text cause

unfoldable pub or_nil_map : Option Entries → Entries
or_nil_map none = []
or_nil_map (some entries) = entries

unfoldable pub or_empty_text : Option String → String
or_empty_text none = ""
or_empty_text (some text) = text

unfoldable pub get_context : String → Fields → String
unfolding or_nil_map or_empty_text
get_context key f = or_empty_text (lookup key (or_nil_map f.context))

unfoldable pub insert_all : Entries → Entries → Entries
insert_all [] old = old
insert_all ((key, value) ∷ more) old = insert_all more (insert key value old)

-- `e.Context[key] = value` for each entry, with a new map in place of a nil one.
unfoldable pub set_fields : Entries → Fields → Fields
unfolding insert_all or_nil_map
set_fields entries f = record f { context = some (insert_all entries (or_nil_map f.context)) }

unfoldable new_error : String → String → ContextError
new_error type_name message = record {
  fields = record { type_name = type_name; message = message; context = some [] };
  err = none;
}

unfoldable wrap : AnyError → String → String → ContextError
wrap err type_name message = record {
  fields = record { type_name = type_name; message = message; context = some [] };
  err = some err;
}

-- `errors.As`: the first ContextError of the chain.
unfoldable pub first_context : AnyError → Option ContextError
first_context (plain text) = none
first_context (wrapping text cause) = first_context cause
first_context (root f) = some (record { fields = f; err = none })
first_context (over f cause) = some (record { fields = f; err = some cause })

-- The error when its first ContextError has changed.
unfoldable pub change_first : Entries → AnyError → AnyError
unfolding set_fields
change_first entries (plain text) = plain text
change_first entries (wrapping text cause) = wrapping text (change_first entries cause)
change_first entries (root f) = root (set_fields entries f)
change_first entries (over f cause) = over (set_fields entries f) cause

unfoldable pub or_new : AnyError → Entries → Option ContextError → ContextError
unfolding error_text
or_new err entries none = record {
  fields = record { type_name = ""; message = error_text err; context = some entries };
  err = some err;
}
or_new err entries (some c) = c

unfoldable pub with_multiple_context : AnyError → Entries → ContextError × AnyError
unfolding change_first first_context or_new
with_multiple_context err entries =
    let after = change_first entries err in (or_new after entries (first_context after), after)

unfoldable pub with_context : AnyError → String → String → ContextError × AnyError
unfolding with_multiple_context
with_context err key value = with_multiple_context err ((key, value) ∷ [])

unfoldable with_policy : AnyError → String → String → ContextError × AnyError
unfolding with_multiple_context
with_policy err namespace name =
    with_multiple_context err (("policy_namespace", namespace) ∷ ("policy_name", name) ∷ [])

unfoldable with_resource : AnyError → String → String → ContextError × AnyError
unfolding with_multiple_context
with_resource err namespace name =
    with_multiple_context err (("resource_namespace", namespace) ∷ ("resource_name", name) ∷ [])
