-- ===== src/Web/Agents.antt =====
-- wolnut/web.py: what the handlers for agents read, and the handlers that only ask an agent: `test_agent`,
-- `shutdown_agent` and `update_agent`.
pub mod Pairing
pub mod Enroll
pub mod Steps
pub mod Outcomes
pub mod Enrolled
use wolnut_webui.Common
use wolnut_webui.Web
use wolnut_webui.Common.{
  ℕ, String, Bool, true, false, not, Option, none, some, List, [], ◌∷◌, str_eq, if◌then◌else◌,
  Result, ok, err,
}
use wolnut_webui.Common.Text.{◌^◌}
use wolnut_webui.Common.Dict.{Dict, lookup}
use wolnut_webui.Common.Value.{Value, bool, str, null}
use wolnut_webui.Agent
use wolnut_webui.Agent.{AgentFailure, IdentityFiles, Exchange, request}
use wolnut_webui.Agent.Pairing.{PairingEnv, Csr}
use wolnut_webui.Notifications.{Event, shutdown_acknowledged, shutdown_failed}
use wolnut_webui.Enrollment.{Write}
use wolnut_webui.Web.{
  value_error, os_error, WebError, http, agent_error, other_error, AgentCommand, status, shutdown,
  update, AgentCall, agent_request, notify, Handler, ◌>>=◌, ◌>>◌, return, throw, lift, catch, emit,
  check, or_raise,
}
use wolnut_webui.Web.Access.{AuthConfig, require_auth, require_secure_admin}
use wolnut_webui.Web.Urls.{SplitUrl}
use wolnut_webui.Web.Store.{dict_of}
use wolnut_webui.Web.Defaults.{read_config_or_default}
use wolnut_webui.Web.Clients.{find_client, notification_settings, agent_id_of, agent_call}
use wolnut_webui.Web.Results.{AgentReport, report, record_agent_result}

-- What a request reads beside the files: who makes it, what comes of the connections, the clocks, the
-- random values, and whether the writes succeed. `again` is what comes of a second request to an agent.
pub record WebEnv : Type 0 where
  pub auth : AuthConfig
  pub scheme : String
  pub credentials : Option String
  pub decode : String → String → Result String (Option String)
  pub str_value : Value → String
  pub int_value : Value → Option ℕ
  pub status_path : String
  pub files : IdentityFiles
  pub exchange : AgentCall → Exchange
  pub again : AgentCall → Exchange
  pub pairing : Value → ℕ → PairingEnv
  pub read_csr : String → Csr
  pub issue : String → String
  pub is_alnum : ℕ → Bool
  pub token_hash : String → String
  pub csr_hash : String → String
  pub split : String → Result String SplitUrl
  pub public_variable : Option String
  pub base_url : String
  pub download_variable : Option String
  pub lifetime : ℕ
  pub uuid : String
  pub enrollment_id : String
  pub token : String
  pub now : ℕ
  pub seen : ℕ
  pub can_write_config : Bool
  pub can_write_state : Bool
  pub enrollment_write : Write
  pub result_write : Write
  pub os_text : String

-- `require_auth` and then `_require_secure_admin`: the user.
unfoldable pub admin : WebEnv → Result WebError String
admin env = elim (require_auth env.decode env.auth env.credentials) [
  | err e ↦ err e
  | ok user ↦ elim (require_secure_admin env.auth env.scheme) [ err e ↦ err e | ok u ↦ ok user ]
]

abbrev pub web_error : AgentFailure → WebError
web_error (Agent.agent_error text) = agent_error text
web_error (Agent.uncaught Agent.value_error) = value_error ""
web_error (Agent.uncaught Agent.recursion_error) = other_error
web_error (Agent.uncaught Agent.http_exception) = other_error
web_error (Agent.uncaught Agent.os_error) = os_error

abbrev pub of_agent {ℓ} : {A : Type ℓ} → Result AgentFailure A → Result WebError A
of_agent (ok a) = ok a
of_agent (err e) = err (web_error e)

abbrev pub sent_if : Bool → AgentCall → List Web.WebEffect
sent_if true call = agent_request call ∷ []
sent_if false call = []

-- A request that may have gone out, and what it returns or raises.
abbrev pub answered : AgentCall → Bool × Result AgentFailure (Dict Value) → Handler (Dict Value)
answered call (sent, r) s = (of_agent r, s, sent_if sent call)

-- The methods of `AgentClient`: whether the request went out, and what came back. `status` checks who
-- answers.
unfoldable pub agent_method :
    WebEnv → Exchange → String → AgentCommand → Bool × Result AgentFailure (Dict Value)
agent_method env x agent_id status = (
  (request env.str_value env.files agent_id x).0,
  Agent.status env.str_value env.files agent_id x,
)
agent_method env x agent_id command = request env.str_value env.files agent_id x

unfoldable pub ask : WebEnv → Exchange → AgentCall → Handler (Dict Value)
unfolding agent_method
ask env x call = answered call (agent_method env x call.agent_id call.command)

-- except AgentError as error: ...
unfoldable pub only_agent {ℓ} : {A : Type ℓ} → (String → Handler A) → WebError → Handler A
only_agent f (agent_error text) = f text
only_agent f e = throw e

unfoldable pub record_result : WebEnv → AgentReport → Handler (Unit {0})
record_result env r = record_agent_result r env.now env.seen env.can_write_state

-- The client of the name, in the configuration or its default.
unfoldable pub named_client : WebEnv → String → Handler (Dict Value × Dict Value)
named_client env name = do
  raw ← read_config_or_default env.status_path
  client ← lift (find_client name raw)
  return (raw, client)

-- The agent's id, where the client is paired.
unfoldable pub paired_id : Dict Value → Handler String
paired_id client = do
  id ← lift (agent_id_of client)
  or_raise id (http 409 "Client agent is not paired")

unfoldable pub failed : WebEnv → AgentReport → Handler (Dict Value)
unfolding record_result
failed env r = do record_result env r; throw (http 502 (Common.get_or r.error ""))

abbrev pub with_error : AgentReport → String → AgentReport
with_error r text = record r { error = some text }

-- `test_agent`
unfoldable pub test_agent : WebEnv → String → Handler (Dict Value)
unfolding admin named_client paired_id ask failed record_result
test_agent env name = do
  user ← lift (admin env)
  (raw, client) ← named_client env name
  id ← paired_id client
  call ← lift (agent_call env.int_value client id status)
  result ←
      catch (ask env (env.exchange call) call)
        (only_agent (λ text. failed env (with_error (report name "failed") text)))
  record_result env (record (report name "online") { details = result })
  return result

-- `update_agent`
unfoldable pub update_agent : WebEnv → String → Handler (Dict Value)
unfolding admin named_client paired_id ask failed record_result
update_agent env name = do
  user ← lift (admin env)
  (raw, client) ← named_client env name
  id ← paired_id client
  call ← lift (agent_call env.int_value client id update)
  result ←
      catch (ask env (env.exchange call) call)
        (only_agent (λ text. failed env (with_error (report name "update_failed") text)))
  record_result env (report name "update_checking")
  return result

-- _notifications_from_raw(raw).send(...); the service takes what its providers raise.
unfoldable pub notify_from : Dict Value → Event → String → String → Handler (Unit {0})
notify_from raw event title message = do
  settings ← lift (notification_settings (lookup "notifications" raw))
  emit (notify event title message)

abbrev pub is_disabled : Option Value → Bool
is_disabled (some (bool false)) = true
is_disabled v = false

-- raw.get("nut", {}).get("ups", "")
abbrev ups_of : Option Value → Result WebError Value
ups_of none = ok (str "")
ups_of (some v) = elim (dict_of v) [
  | err e ↦ err e
  | ok nut ↦ ok (Common.get_or (lookup "ups" nut) (str ""))
]

abbrev manual : String → String → AgentReport
manual name command_id = record (report name "accepted") {
  source = some "manual";
  command_id = some command_id;
}

unfoldable pub shutdown_failure :
    WebEnv → Dict Value → String → String → String → Handler (Dict Value)
unfolding notify_from failed
shutdown_failure env raw name command_id text = do
  notify_from raw shutdown_failed "Device shutdown delivery failed"
      ("Wolnut could not reach " ^ (name ^ (": " ^ text)))
  failed env (record (with_error (manual name command_id) text) { status = "failed" })

-- `shutdown_agent` after its guards.
unfoldable pub send_shutdown :
    WebEnv → String → String → Dict Value → Dict Value → String → Handler (Dict Value)
unfolding ask shutdown_failure record_result notify_from
send_shutdown env user name raw client id = do
  let command_id = "manual:" ^ env.uuid
  ups ← lift (ups_of (lookup "nut" raw))
  call ← lift (agent_call env.int_value client id (shutdown command_id "manual" ups))
  result ←
      catch (ask env (env.exchange call) call)
        (only_agent (shutdown_failure env raw name command_id))
  record_result env (manual name command_id)
  notify_from raw shutdown_acknowledged "Device shutdown accepted"
      (name ^ (" accepted a manual shutdown request from " ^ (user ^ ".")))
  return result

-- `shutdown_agent`
unfoldable pub shutdown_agent : WebEnv → String → String → Handler (Dict Value)
unfolding admin named_client paired_id send_shutdown
shutdown_agent env name confirmation = do
  user ← lift (admin env)
  check (str_eq confirmation name) (http 400 "Device name confirmation does not match")
  (raw, client) ← named_client env name
  check (not (is_disabled (lookup "enabled" client))) (http 409 "Client is disabled")
  id ← paired_id client
  send_shutdown env user name raw client id
