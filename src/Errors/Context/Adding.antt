-- ===== src/Errors/Context/Adding.antt =====
-- What adding a field to an error keeps and loses.
use zen_cleaner.Prelude.{
  String, ◌<>◌, ◌≡◌, refl, sym, ap, subst, ◌∙◌, ◌≢◌, Option, none, some, [], ◌∷◌, lookup, insert,
  lookup-insert_same, lookup-insert_other,
}
use mathlib.Core.Option
use zen_cleaner.Prelude.Text.{eq_of_ne}
use zen_cleaner.Errors.Context.{
  Entries, Fields, AnyError, plain, wrapping, root, over, ContextError, with_cause, as_error,
  error_text, or_nil_map, or_empty_text, get_context, insert_all, set_fields, first_context,
  change_first, or_new, with_multiple_context, with_context,
}

-- The field that the first ContextError of an error has, if there is one.
abbrev pub shown : String → Option ContextError → String
shown key none = ""
shown key (some c) = get_context key c.fields

-- The text of the first ContextError without what wraps it, or else the text of the error twice.
abbrev pub returned_text : AnyError → Option ContextError → String
returned_text err none = error_text err <> ": " <> error_text err
returned_text err (some c) = error_text (as_error c)

pub record Adds (err : AnyError) (key value : String) (result : ContextError × AnyError)
    : Type 0 where
  pub field : get_context key (result.0).fields ≡ value
  pub other_fields :
      (other : String)
      → other ≢ key
      → get_context other (result.0).fields ≡ shown other (first_context err)
  pub kept_text : error_text result.1 ≡ error_text err
  pub text : error_text (as_error result.0) ≡ returned_text err (first_context err)

set_fields-field :
    (key value : String) (f : Fields) → get_context key (set_fields ((key, value) ∷ []) f) ≡ value
unfolding get_context set_fields insert_all or_nil_map
set_fields-field key value f =
    ap or_empty_text (lookup-insert_same key value (or_nil_map f.context))

set_fields-other :
    (key value other : String) (f : Fields)
    → other ≢ key
    → get_context other (set_fields ((key, value) ∷ []) f) ≡ get_context other f
unfolding get_context set_fields insert_all or_nil_map
set_fields-other key value other f n = ap or_empty_text (
    lookup-insert_other key other value (or_nil_map f.context)
      (eq_of_ne key other (λ e. n (sym e))))

set_context : Entries → ContextError → ContextError
set_context entries c = record c { fields = set_fields entries c.fields }

first_context-change_first :
    (entries : Entries) (err : AnyError)
    → first_context (change_first entries err)
      ≡ Option.map (set_context entries) (first_context err)
unfolding first_context change_first set_context
first_context-change_first entries (plain text) = refl
first_context-change_first entries (wrapping text cause) = first_context-change_first entries cause
first_context-change_first entries (root f) = refl
first_context-change_first entries (over f cause) = refl

error_text-change_first :
    (entries : Entries) (err : AnyError) → error_text (change_first entries err) ≡ error_text err
unfolding error_text change_first set_fields
error_text-change_first entries (plain text) = refl
error_text-change_first entries (wrapping text cause) = refl
error_text-change_first entries (root f) = refl
error_text-change_first entries (over f cause) = refl

error_text-with_cause :
    (entries : Entries) (f : Fields) (err : Option AnyError)
    → error_text (with_cause (set_fields entries f) err) ≡ error_text (with_cause f err)
unfolding error_text with_cause set_fields
error_text-with_cause entries f none = refl
error_text-with_cause entries f (some cause) = refl

as_error-set_context :
    (entries : Entries) (c : ContextError)
    → error_text (as_error (set_context entries c)) ≡ error_text (as_error c)
unfolding as_error set_context
as_error-set_context entries c = error_text-with_cause entries c.fields c.err

-- The ContextError that is made where there is none.
new_field :
    (key value message : String)
    → get_context key
        (record { type_name = ""; message = message; context = some ((key, value) ∷ []) })
      ≡ value
unfolding get_context or_nil_map insert
new_field key value message = ap or_empty_text (lookup-insert_same key value [])

new_other :
    (key value other message : String)
    → other ≢ key
    → get_context other
        (record { type_name = ""; message = message; context = some ((key, value) ∷ []) })
      ≡ ""
unfolding get_context or_nil_map lookup or_empty_text
new_other key value other message n = simp (eq_of_ne key other (λ e. n (sym e))) refl

new_text :
    (err : AnyError) (f : Fields)
    → error_text (as_error (record { fields = f; err = some err }))
      ≡ f.message <> ": " <> error_text err
unfolding error_text as_error with_cause
new_text err f = refl

or_new-Adds :
    (err after : AnyError) (key value : String) (first : Option ContextError)
    → error_text after ≡ error_text err
    → first_context err ≡ first
    → Adds err key value (
      or_new after ((key, value) ∷ []) (Option.map (set_context ((key, value) ∷ [])) first),
      after,
    )
unfolding or_new set_context
or_new-Adds err after key value none same e = record {
  field = new_field key value _;
  other_fields = λ other n. new_other key value other _ n ∙ ap (shown other) (sym e);
  kept_text = same;
  text = new_text after _ ∙ ap (λ t. t <> ": " <> t) same ∙ ap (returned_text err) (sym e);
}
or_new-Adds err after key value (some c) same e = record {
  field = set_fields-field key value c.fields;
  other_fields = λ other n. set_fields-other key value other c.fields n ∙ ap (shown other) (sym e);
  kept_text = same;
  text = as_error-set_context _ c ∙ ap (returned_text err) (sym e);
}

-- A field that is added to an error that is not nil is in the ContextError that comes back, which has
-- the other fields of the first ContextError of the chain, and no other. The text of the error does
-- not change; the text of what comes back is that of the first ContextError, without the errors around
-- it, and where there is none the text of the error twice.
pub with_context-Adds :
    (err : AnyError) (key value : String) → Adds err key value (with_context err key value)
unfolding with_context with_multiple_context
with_context-Adds err key value =
    subst
      (λ first. Adds err key value (
        or_new (change_first ((key, value) ∷ []) err) ((key, value) ∷ []) first,
        change_first ((key, value) ∷ []) err,
      ))
      (sym (first_context-change_first _ err))
      (or_new-Adds err _ key value (first_context err)
        (error_text-change_first ((key, value) ∷ []) err) refl)
