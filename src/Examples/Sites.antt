-- ===== src/Examples/Sites.antt =====
-- A server with two clients, tried: who may ask, what unpairing, policies and reports do.
pub mod Asking
pub mod Saves
use wolnut_webui.Common.{
  String, Bool, true, false, Option, none, some, List, [], ◌∷◌, ◌≡◌, ◌⊎◌, refl, Result, ok, err,
}
use wolnut_webui.Common.Text.{◌^◌, strip}
use wolnut_webui.Common.Dict.{Dict, lookup, insert, contains}
use wolnut_webui.Common.Value.{
  Value, null, bool, int, str, arr, obj, Fields, to_fields, to_items, entries, items,
}
use wolnut_webui.Agent.{Exchange, connected, Answer, response, json, all_files, request}
use wolnut_webui.Agent
use wolnut_webui.Agent.Pairing.{PairingEnv, unreached, Csr, csr}
use wolnut_webui.Enrollment
use wolnut_webui.Enrollment.{written}
use wolnut_webui.Web.{
  WebError, Reply, Site, DataFile, holds, absent, AgentCall, set_auto_update, agent_request, ◌>>=◌,
  lift, return, throw, catch, check, emit, or_raise,
}
use wolnut_webui.Agent.Identity.{Presents}
use wolnut_webui.Config.Clients.{validate_config}
use wolnut_webui.Web.Defaults.{read_config_or_default}
use wolnut_webui.Web.Clients.{find_client, agent_id_of, agent_call}
use wolnut_webui.Web.Agents.Steps.{effective}
use wolnut_webui.Web.Access.{AuthVariables, auth_config, require_auth, require_secure_admin}
use wolnut_webui.Web.Access.Login.{require_auth-login}
use wolnut_webui.Web.Results.{report, record_agent_result, read_state}
use wolnut_webui.Web.Results.Frame.{IsReport, record_agent_result-IsReport}
use wolnut_webui.Web.Rules.{site_of, effects_of}
use wolnut_webui.Web.Agents.{WebEnv}
use wolnut_webui.Web.Agents.Pairing.{unpair_agent, set_agent_auto_update}
use wolnut_webui.Web.Agents.Outcomes.{
  cleared_keys, policy_keys, unpair_agent-IsCleared, set_agent_auto_update-HasPolicy, Rewrites,
  IsCleared, IsAsked, HasPolicy,
}
use wolnut_webui.Web.Requests.{AdminRequest, pair, unpair, handle_admin}
use wolnut_webui.Web.Requests.Admins.{IsTrusted, handle_admin-IsTrusted}
use wolnut_webui.Web.Requests.Registry.{Moves, registry_of, handle_admin-Moves}

abbrev pub variables : AuthVariables
variables = record {
  admin_username = some "admin";
  admin_password = some "pass";
  wolnut_jwt_secret = some "0123456789abcdef0123456789abcdef";
  jwt_secret = none;
}

abbrev pub agent_settings : Dict Value
agent_settings =
    ("enabled", bool false)
    ∷ ("agent_id", str "a1")
    ∷ ("agent_port", int 8184)
    ∷ ("auto_update", bool false)
    ∷ []

abbrev pub nas : Dict Value
nas =
    ("name", str "nas")
    ∷ ("host", str "10.0.0.2")
    ∷ ("mac", str "auto")
    ∷ ("shutdown", obj (to_fields agent_settings))
    ∷ []

abbrev pub pc : Dict Value
pc = ("name", str "pc") ∷ ("host", str "10.0.0.3") ∷ ("mac", str "auto") ∷ []

abbrev pub config : Dict Value
config =
    ("nut", obj (to_fields (("ups", str "ups@localhost") ∷ [])))
    ∷ ("clients", arr (to_items (obj (to_fields nas) ∷ obj (to_fields pc) ∷ [])))
    ∷ []

abbrev pub server : Site
server = record {
  config_file = holds (obj (to_fields config));
  state_file = absent;
  enrollments = Enrollment.absent;
}

abbrev pub env : WebEnv
env = record {
  auth = auth_config variables;
  scheme = "https";
  credentials = some "t";
  decode = λ t k. ok (some "admin");
  str_value = λ v. "";
  int_value = λ v. none;
  status_path = "state.json";
  files = all_files;
  exchange = λ call. connected ("urn:wolnut:agent:a1" ∷ []) (response 200 (json (obj Fields.end)));
  again = λ call. Agent.refused "";
  pairing = λ host port. record {
    files = all_files;
    first = unreached "";
    read_csr = λ t. Csr.unreadable_csr;
    second = λ t. unreached "";
    checked = Agent.nameless;
  };
  read_csr = λ t. csr true (some ("urn:wolnut:agent:a2" ∷ []));
  issue = λ id. "cert";
  is_alnum = λ c. false;
  token_hash = λ t. t;
  csr_hash = λ t. t;
  split = λ u. err "";
  public_variable = none;
  base_url = "";
  download_variable = none;
  lifetime = 600;
  uuid = "u";
  enrollment_id = "e1";
  token = "tok";
  now = 100;
  seen = 100;
  can_write_config = true;
  can_write_state = true;
  enrollment_write = written;
  result_write = written;
  os_text = "";
}

handle_admin-IsTrusted_example :
    ((user : String) × IsTrusted variables env user)
    ⊎ ((e : WebError) × (handle_admin env (unpair "nas" "nas" true) server ≡ (err e, server, [])))
handle_admin-IsTrusted_example =
    handle_admin-IsTrusted variables env (unpair "nas" "nas" true) server refl

handle_admin-Moves_example :
    Moves
      (unpair "nas" "nas" true)
      (registry_of server.config_file)
      (registry_of (site_of (handle_admin env (unpair "nas" "nas" true) server)).config_file)
handle_admin-Moves_example = handle_admin-Moves env (unpair "nas" "nas" true) server

abbrev unpair_answer : Dict Value
unpair_answer = ("status", str "unpaired") ∷ ("local_only", bool false) ∷ []

abbrev unpaired : Reply (Dict Value)
unpaired = unpair_agent env "nas" "nas" false server

unpair_agent-IsCleared_example :
    (◌≡◌ {A = String} "nas" "nas")
    × Rewrites "nas" cleared_keys
        (IsCleared "nas")
        server.config_file
        (site_of unpaired).config_file
    × ((raw : Dict Value) × (c : Dict Value) × (id : String) × (effective env server ≡ ok raw)
        × (find_client "nas" raw ≡ ok c)
        × (agent_id_of c ≡ ok (some id))
        × IsAsked env false id (effects_of unpaired))
unfolding unpair_agent ◌>>=◌ lift return throw catch check emit or_raise lookup insert contains
    strip ◌^◌ auth_config require_auth require_secure_admin read_config_or_default agent_id_of
    agent_call request validate_config record_agent_result
unpair_agent-IsCleared_example =
    unpair_agent-IsCleared env "nas" "nas" false server (site_of unpaired) unpair_answer
      (effects_of unpaired) refl

abbrev told : Reply (Dict Value)
told = set_agent_auto_update env "nas" true server

set_agent_auto_update-HasPolicy_example :
    (call : AgentCall) × (call.command ≡ set_auto_update true)
    × Presents (env.exchange call) call.agent_id
    × Rewrites "nas" policy_keys
        (HasPolicy "nas" call.agent_id true)
        server.config_file
        (site_of told).config_file
    × (effects_of told ≡ agent_request call ∷ [])
unfolding set_agent_auto_update ◌>>=◌ lift return throw catch check emit or_raise lookup insert
    contains strip ◌^◌ auth_config require_auth require_secure_admin read_config_or_default
    agent_id_of agent_call request validate_config record_agent_result
set_agent_auto_update-HasPolicy_example =
    set_agent_auto_update-HasPolicy env "nas" true server (site_of told) [] (effects_of told) refl
