-- ===== src/Mcp.antt =====
-- internal/mcpserver: the adapter of server.go with its tools, and the JSON-RPC transport of transport.go.
-- The JSON codec and the environment are parameters. A provider is a function of the responses that were
-- written before it is asked, the latest first, and the scanner's error is left out.
pub mod Denies
use zen_cleaner.Prelude.{
  ◌-◌, ◌/◌, String, Bool, false, not, Option, none, some, List, [], ◌∷◌, map, ◌==◌, if◌then◌else◌,
}
use zen_cleaner.Prelude.Int.{ℤ}

abbrev pub mode_env : String
mode_env = "ZEN_CLEANER_MCP_MODE"

abbrev pub mcp_mode_stdio : String
mcp_mode_stdio = "stdio"

abbrev pub actor_env : String
actor_env = "ZEN_CLEANER_MCP_ACTOR"

pub record Tool : Type 0 where
  pub name : String
  pub description : String
  pub input_schema : String

-- A message without an ID is a notification.
pub record RpcRequest : Type 0 where
  pub id : Option ℤ
  pub method : String
  pub params : String

-- What encoding/json reads of a line, and the name that it leaves of the parameters of a call: the
-- empty text where they do not decode.
pub record Codec : Type 0 where
  pub decode : String → Option RpcRequest
  pub call_name : String → String

-- Each with the code -32601.
pub data RpcError : Type 0 where
  list_denied call_denied : RpcError
  unknown_method : String → RpcError

pub data RpcOutcome : Type 0 where
  handshake : RpcOutcome
  tools_listed : List Tool → RpcOutcome
  answered : String → RpcOutcome
  failed : RpcError → RpcOutcome

pub record Response : Type 0 where
  pub id : ℤ
  pub outcome : RpcOutcome

abbrev pub Provider : Type 0
Provider = List Response → String

pub record Adapter : Type 0 where
  pub enabled : Bool
  pub actor : String
  pub tools : List Tool
  pub ent : Option Provider
  pub health : Option Provider

abbrev pub no_properties : String
no_properties = "{\"type\":\"object\",\"properties\":{},\"additionalProperties\":false}"

abbrev pub read_only_tools : List Tool
read_only_tools =
    record {
      name = "entitlement_status";
      description =
          "The CleanerGate's admission status: the policy generation, the quota window, the metered usage for cleaner.executions (READ-ONLY)";
      input_schema = no_properties;
    }
    ∷ record {
      name = "health_summary";
      description =
          "The controller's own health posture summary (READ-ONLY; the live checks stay the k8s probes)";
      input_schema = no_properties;
    }
    ∷ []

unfoldable pub new_adapter : (String → String) → Option Provider → Option Provider → Adapter
new_adapter getenv ent health = record {
  enabled = getenv mode_env == mcp_mode_stdio;
  actor = getenv actor_env;
  tools = read_only_tools;
  ent = ent;
  health = health;
}

-- A nil list where the adapter is not enabled.
unfoldable pub enumerate : Adapter → Option (List Tool)
enumerate a = if a.enabled then some a.tools else none

-- The body of a list, or the denial.
unfoldable list_json : Adapter → Option (List Tool)
list_json a = if not a.enabled then none else some a.tools

unfoldable listed_tools : Option (List Tool) → List Tool
listed_tools none = []
listed_tools (some tools) = tools

-- Over the sort of Go's standard library.
unfoldable summary_lines : (List String → List String) → Adapter → List String
unfolding enumerate listed_tools
summary_lines sort a = sort (map (λ tool. tool.name) (listed_tools (enumerate a)))

unfoldable pub ask_provider : Option Provider → List Response → String
ask_provider none log = "{}"
ask_provider (some provider) log = provider log

unfoldable pub call_tool : Adapter → String → List Response → String
unfolding ask_provider
call_tool a name log =
    if name == "entitlement_status"
    then ask_provider a.ent log
    else if name == "health_summary"
    then ask_provider a.health log
    else "{}"

unfoldable pub listing : Option (List Tool) → RpcOutcome
listing none = failed list_denied
listing (some tools) = tools_listed tools

unfoldable pub serve : Codec → Adapter → RpcRequest → List Response → RpcOutcome
unfolding listing enumerate call_tool
serve codec a request log =
    if request.method == "initialize"
    then handshake
    else if request.method == "tools/list"
    then listing (enumerate a)
    else if request.method == "tools/call"
    then (if not a.enabled
        then failed call_denied
        else answered (call_tool a (codec.call_name request.params) log))
    else failed (unknown_method request.method)

unfoldable pub stamp : Option ℤ → RpcOutcome → Option Response
stamp none outcome = none
stamp (some id) outcome = some (record { id = id; outcome = outcome })

-- A line that is not JSON is skipped, and a notification is not answered.
unfoldable pub respond : Codec → Adapter → List Response → Option RpcRequest → Option Response
unfolding stamp serve
respond codec a log none = none
respond codec a log (some request) = stamp request.id (serve codec a request log)

unfoldable pub before {ℓ} : {A : Type ℓ} → Option A → List A → List A
before none rest = rest
before (some x) rest = x ∷ rest

-- What is written for the lines of the input, the first answer first; `log` is what was written before.
unfoldable pub run_stdio : Codec → Adapter → List String → List Response → List Response
unfolding respond before
run_stdio codec a [] log = []
run_stdio codec a (line ∷ more) log =
    let written = respond codec a log (codec.decode line) in
    before written (run_stdio codec a more (before written log))
