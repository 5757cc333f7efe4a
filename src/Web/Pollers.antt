-- ===== src/Web/Pollers.antt =====
-- wolnut/web.py: a round of `_agent_auto_update_poller` and one of `_agent_version_poller`.
pub mod Asked
pub mod Done
pub mod Polled
pub mod Targets
use wolnut_webui.Common.{
  ℕ, ◌+◌, ◌*◌, ◌-◌, String, Bool, true, false, not, Option, none, some, List, [], ◌∷◌, ltb, get_or,
  map, if◌then◌else◌, Result, ok, err,
}
use wolnut_webui.Common
use wolnut_webui.Common.Text.{codes, has_part}
use wolnut_webui.Common.Dict.{Dict, lookup, insert}
use wolnut_webui.Common.Value.{Value, bool, null, is_true}
use wolnut_webui.Agent.Pairing.{lower}
use wolnut_webui.Web.{
  WebError, AgentCommand, update, status, AgentCall, Handler, ◌>>=◌, ◌>>◌, return, lift, catch,
}
use wolnut_webui.Web.Store.{dict_of}
use wolnut_webui.Web.Defaults.{read_config_or_default}
use wolnut_webui.Web.Clients.{iterate, settings_of, agent_id_of, agent_call}
use wolnut_webui.Web.Results.{AgentReport, report}
use wolnut_webui.Web.Agents.{WebEnv, ask, record_result, with_error}
use wolnut_webui.Web.Settings.{name_of}
use wolnut_webui.Web.Settings.Save.{error_text}

-- raw_cfg.get("clients", []) or []
abbrev pub clients_of : Option Value → Result WebError (List Value)
clients_of none = ok []
clients_of (some v) = if is_true v then iterate (some v) else ok []

-- A client that is to be asked: its entry, its name and its agent.
pub record Target : Type 0 where
  pub client : Dict Value
  pub name : String
  pub agent_id : String

abbrev pub auto_update_of : Dict Value → Bool
auto_update_of shutdown = is_true (get_or (lookup "auto_update" shutdown) null)

-- A time that is less than `interval` - 10 seconds after the last one of the name; times are in
-- microseconds.
abbrev pub is_recent : ℕ → ℕ → Option ℕ → Bool
is_recent interval now last = ltb now (get_or last 0 + (interval - 10) * 1000000)

abbrev pub if_due : ℕ → (String → ℕ) → Dict ℕ → Dict Value → String → String → Option Target
if_due interval clock last c id name =
    if is_recent interval (clock name) (lookup name last)
    then none
    else some (record { client = c; name = name; agent_id = id })

abbrev pub wanted :
    ℕ → (String → ℕ) → Dict ℕ → Dict Value → Option String → Result WebError (Option Target)
wanted interval clock last c none = ok none
wanted interval clock last c (some id) =
    if not (is_true (get_or (lookup "enabled" c) (bool true)))
    then ok none
    else elim (name_of (lookup "name" c)) [
      | err e ↦ err e
      | ok name ↦ ok (if_due interval clock last c id name)
    ]

-- The guards of the loop: the client, if its agent is to look for an update.
unfoldable pub update_target : ℕ → (String → ℕ) → Dict ℕ → Value → Result WebError (Option Target)
update_target interval clock last v = elim (dict_of v) [
  | err e ↦ err e
  | ok c ↦ elim (settings_of (lookup "shutdown" c)) [
    | err e ↦ err e
    | ok shutdown ↦
        if not (auto_update_of shutdown)
        then ok none
        else elim (agent_id_of c) [ err e ↦ err e | ok id ↦ wanted interval clock last c id ]
  ]
]

-- "already running" in msg.lower()
unfoldable pub is_running : String → Bool
is_running msg = has_part (codes "already running") (map lower (codes msg))

-- try: ... except Exception: pass
unfoldable pub ignore : Handler (Unit {0}) → Handler (Unit {0})
ignore h = catch h (λ e. return tt)

abbrev pub unless : Bool → Handler (Unit {0}) → Handler (Unit {0})
unless true h = return tt
unless false h = h

unfoldable pub update_failure : WebEnv → String → WebError → Handler (Unit {0})
unfolding is_running ignore record_result
update_failure env name e = unless (is_running (error_text env.os_text e)) (
    ignore
      (record_result env (with_error (report name "update_failed") (error_text env.os_text e))))

-- The request and what is recorded of it; every exception is taken.
unfoldable pub trigger_update : WebEnv → Target → Handler (Unit {0})
unfolding ask record_result update_failure
trigger_update env t =
    catch
      (do
        call ← lift (agent_call env.int_value t.client t.agent_id update)
        result ← ask env (env.exchange call) call
        record_result env (record (report t.name "update_checking") { details = result }))
      (update_failure env t.name)

-- The loop over the clients, by the times of the last requests; `clock` is time.time() at the client of
-- a name. Where a guard raises, the round is over.
unfoldable pub update_clients : WebEnv → ℕ → (String → ℕ) → List Value → Dict ℕ → Handler (Dict ℕ)
update_clients env interval clock [] last = return last
update_clients env interval clock (v ∷ vs) last = elim (update_target interval clock last v) [
  | err e ↦ return last
  | ok none ↦ update_clients env interval clock vs last
  | ok (some t) ↦ do
    trigger_update env t
    update_clients env interval clock vs (insert t.name (clock t.name) last)
]

-- A round of `_agent_auto_update_poller`.
unfoldable pub auto_update_round : WebEnv → ℕ → (String → ℕ) → Dict ℕ → Handler (Dict ℕ)
unfolding update_clients
auto_update_round env interval clock last =
    catch
      (do
        raw ← read_config_or_default env.status_path
        vs ← lift (clients_of (lookup "clients" raw))
        update_clients env interval clock vs last)
      (λ e. return last)

-- The newest version that the server knows of, and when it looked.
pub record GlobalLatest : Type 0 where
  pub version : Value
  pub checked_at : Value

unfoldable pub merged : GlobalLatest → Dict Value → Dict Value
merged g result =
    if not (is_true g.version)
    then result
    else let d = insert "latest_version" g.version result in
      if is_true g.checked_at then insert "update_checked_at" g.checked_at d else d

-- try: ... except Exception: ..., which is recorded where it can be.
unfoldable pub poll_agent : WebEnv → GlobalLatest → Dict Value → String → Handler (Unit {0})
unfolding ask record_result merged ignore
poll_agent env g c id =
    catch
      (do
        call ← lift (agent_call env.int_value c id status)
        result ← ask env (env.exchange call) call
        name ← lift (name_of (lookup "name" c))
        record_result env (record (report name "online") { details = merged g result }))
      (λ e. ignore (do
        name ← lift (name_of (lookup "name" c))
        record_result env (with_error (report name "unreachable") (error_text env.os_text e))))

abbrev paired_client : Value → Result WebError (Option (Dict Value × String))
paired_client v = elim (dict_of v) [
  | err e ↦ err e
  | ok c ↦ elim (agent_id_of c) [
    | err e ↦ err e
    | ok none ↦ ok none
    | ok (some id) ↦ ok (some (c, id))
  ]
]

unfoldable pub poll_agents : WebEnv → GlobalLatest → List Value → Handler (Unit {0})
unfolding poll_agent
poll_agents env g [] = return tt
poll_agents env g (v ∷ vs) = elim (paired_client v) [
  | err e ↦ return tt
  | ok none ↦ poll_agents env g vs
  | ok (some (c, id)) ↦ poll_agent env g c id >> poll_agents env g vs
]

-- A round of `_agent_version_poller`.
unfoldable pub version_round : WebEnv → GlobalLatest → Handler (Unit {0})
unfolding poll_agents
version_round env g = ignore (do
  raw ← read_config_or_default env.status_path
  vs ← lift (clients_of (lookup "clients" raw))
  poll_agents env g vs)
