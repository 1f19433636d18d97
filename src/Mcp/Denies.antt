-- ===== src/Mcp/Denies.antt =====
-- Which requests are answered, and with what.
use zen_cleaner.Prelude.{
  String, ◌≡◌, refl, ap, ◌∙◌, ◌≢◌, inl, inr, true, false, Option, none, some, List, [], ◌∷◌, map,
  ◌==◌, eq_iff, Bool-cases, All,
}
use zen_cleaner.Prelude.Int.{ℤ}
use zen_cleaner.Prelude.Text.{eq_of_ne}
use zen_cleaner.Mcp.{
  mode_env, mcp_mode_stdio, RpcRequest, Codec, list_denied, call_denied, RpcOutcome, tools_listed,
  answered, failed, Response, Provider, Adapter, read_only_tools, new_adapter, enumerate, listing,
  serve, stamp, respond, before, run_stdio,
}

unfoldable asked_id : Option ℤ → List ℤ → List ℤ
asked_id none ids = ids
asked_id (some id) ids = id ∷ ids

-- The ID of a line, if it is a request.
unfoldable asked_line : Option RpcRequest → List ℤ → List ℤ
unfolding asked_id
asked_line none ids = ids
asked_line (some request) ids = asked_id request.id ids

-- The IDs of the lines that are requests, in their order.
unfoldable pub asked : Codec → List String → List ℤ
unfolding asked_line
asked codec [] = []
asked codec (line ∷ more) = asked_line (codec.decode line) (asked codec more)

-- Neither a tool nor an answer of one.
abbrev pub IsDenial : RpcOutcome → Type 0
IsDenial (tools_listed tools) = ⊥
IsDenial (answered text) = ⊥
IsDenial _ = Unit

-- No refusal for want of the mode, and no tools but the two that only read.
abbrev pub IsGranted : RpcOutcome → Type 0
IsGranted (tools_listed tools) = tools ≡ read_only_tools
IsGranted (failed list_denied) = ⊥
IsGranted (failed call_denied) = ⊥
IsGranted _ = Unit

listing-IsDenial : (a : Adapter) → a.enabled ≡ false → IsDenial (listing (enumerate a))
unfolding listing enumerate
listing-IsDenial a h = rw h tt

listing-IsGranted :
    (a : Adapter) → a.enabled ≡ true → a.tools ≡ read_only_tools → IsGranted (listing (enumerate a))
unfolding listing enumerate
listing-IsGranted a h tools = rw h tools

serve-IsDenial :
    (codec : Codec) (a : Adapter) (request : RpcRequest) (log : List Response)
    → a.enabled ≡ false
    → IsDenial (serve codec a request log)
unfolding serve
serve-IsDenial codec a request log h = elim (Bool-cases (request.method == "initialize")) [
  | inl i ↦ simp i tt
  | inr i ↦ elim (Bool-cases (request.method == "tools/list")) [
    | inl l ↦ simp (i, l) (listing-IsDenial a h)
    | inr l ↦ elim (Bool-cases (request.method == "tools/call")) [
      | inl c ↦ simp (i, l, c, h) tt
      | inr c ↦ simp (i, l, c) tt
    ]
  ]
]

serve-IsGranted :
    (codec : Codec) (a : Adapter) (request : RpcRequest) (log : List Response)
    → a.enabled ≡ true
    → a.tools ≡ read_only_tools
    → IsGranted (serve codec a request log)
unfolding serve
serve-IsGranted codec a request log h tools = elim (Bool-cases (request.method == "initialize")) [
  | inl i ↦ simp i tt
  | inr i ↦ elim (Bool-cases (request.method == "tools/list")) [
    | inl l ↦ simp (i, l) (listing-IsGranted a h tools)
    | inr l ↦ elim (Bool-cases (request.method == "tools/call")) [
      | inl c ↦ simp (i, l, c, h) tt
      | inr c ↦ simp (i, l, c) tt
    ]
  ]
]

-- What holds of the outcome of every request holds of all that is written.
module _ (P : RpcOutcome → Type 0) where
  before-All :
      (outcome : RpcOutcome) (id : Option ℤ) (rest : List Response)
      → P outcome
      → All (λ response. P response.outcome) rest
      → All (λ response. P response.outcome) (before (stamp id outcome) rest)
  unfolding before stamp
  before-All outcome none rest p h = h
  before-All outcome (some id) rest p h = (p, h)

  respond-All :
      (codec : Codec) (a : Adapter) (log : List Response) (read : Option RpcRequest)
      (rest : List Response)
      → ((request : RpcRequest) (log : List Response) → P (serve codec a request log))
      → All (λ response. P response.outcome) rest
      → All (λ response. P response.outcome) (before (respond codec a log read) rest)
  unfolding respond before
  respond-All codec a log none rest p h = h
  respond-All codec a log (some request) rest p h = before-All _ request.id rest (p request log) h

  run_stdio-All :
      (codec : Codec) (a : Adapter) (lines : List String) (log : List Response)
      → ((request : RpcRequest) (log : List Response) → P (serve codec a request log))
      → All (λ response. P response.outcome) (run_stdio codec a lines log)
  unfolding run_stdio
  run_stdio-All codec a [] log p = tt
  run_stdio-All codec a (line ∷ more) log p =
      respond-All codec a log (codec.decode line) _ p (run_stdio-All codec a more _ p)

abbrev pub ids_of : List Response → List ℤ
ids_of = map (λ response. response.id)

before-asked_id :
    (outcome : RpcOutcome) (id : Option ℤ) (rest : List Response)
    → ids_of (before (stamp id outcome) rest) ≡ asked_id id (ids_of rest)
unfolding before stamp asked_id
before-asked_id outcome none rest = refl
before-asked_id outcome (some id) rest = refl

respond-asked_line :
    (codec : Codec) (a : Adapter) (log : List Response) (read : Option RpcRequest)
    (rest : List Response)
    → ids_of (before (respond codec a log read) rest) ≡ asked_line read (ids_of rest)
unfolding respond before asked_line
respond-asked_line codec a log none rest = refl
respond-asked_line codec a log (some request) rest = before-asked_id _ request.id rest

run_stdio-asked :
    (codec : Codec) (a : Adapter) (lines : List String) (log : List Response)
    → ids_of (run_stdio codec a lines log) ≡ asked codec lines
unfolding run_stdio asked
run_stdio-asked codec a [] log = refl
run_stdio-asked codec a (line ∷ more) log =
    respond-asked_line codec a log (codec.decode line) _
    ∙ ap (asked_line (codec.decode line)) (run_stdio-asked codec a more _)

module _ (codec : Codec) (getenv : String → String) (ent health : Option Provider) where
  -- Every request with an ID gets one response, under its ID and in the order of the requests, and
  -- nothing else is answered. Where the mode is not "stdio", no response has a tool or the answer of
  -- one; where it is, none is refused for want of the mode, whether an actor is named or not, and the
  -- tools are the two that only read.
  pub run_stdio_lem :
      (lines : List String) (log : List Response)
      → (ids_of (run_stdio codec (new_adapter getenv ent health) lines log) ≡ asked codec lines)
        × (getenv mode_env ≢ mcp_mode_stdio
            → All
                (λ response. IsDenial response.outcome)
                (run_stdio codec (new_adapter getenv ent health) lines log))
        × (getenv mode_env ≡ mcp_mode_stdio
            → All
                (λ response. IsGranted response.outcome)
                (run_stdio codec (new_adapter getenv ent health) lines log))
  unfolding new_adapter
  run_stdio_lem lines log =
      let a = new_adapter getenv ent health in
      (
        run_stdio-asked codec a lines log,
        λ other.
            run_stdio-All IsDenial codec a lines log
              (λ request log. serve-IsDenial codec a request log (eq_of_ne _ _ other)),
        λ same.
            run_stdio-All IsGranted codec a lines log
              (λ request log. serve-IsGranted codec a request log ((eq_iff _ _).1 same) refl),
      )
