-- ===== src/Web/Agents/Pairing.antt =====
-- wolnut/web.py: the handlers that change which agent a client is paired with, or its policy:
-- `pair_agent`, `unpair_agent` and `set_agent_auto_update`.
use wolnut_webui.Common.{
  ℕ, String, Bool, true, false, [], ◌∷◌, str_eq, get_or, if◌then◌else◌, Result, ok, err,
}
use wolnut_webui.Common.Text.{◌^◌}
use wolnut_webui.Common.Dict.{Dict, lookup, insert}
use wolnut_webui.Common.Value.{Value, bool, int, str, null, is_text, is_true}
use wolnut_webui.Agent.Pairing.{pair, overlay}
use wolnut_webui.Web.{
  WebError, http, other_error, unpair, set_auto_update, pairing_request, Handler, ◌>>=◌, ◌>>◌,
  return, throw, lift, catch, emit, check, or_raise,
}
use wolnut_webui.Web.Store.{update_config, validated}
use wolnut_webui.Web.Clients.{edit_client, agent_call, settings_of}
use wolnut_webui.Web.Results.{report}
use wolnut_webui.Web.Agents.{
  WebEnv, admin, of_agent, ask, only_agent, record_result, named_client, paired_id,
}

-- The settings that a client gets with a new agent.
abbrev pub pairing_fields : Value → ℕ → Dict Value → Dict Value
pairing_fields agent_id port shutdown =
    insert "auto_update" (get_or (lookup "auto_update" shutdown) (bool false)) (
      insert "agent_port" (int port) (
        insert "agent_id" agent_id (
          insert "battery_percent" (get_or (lookup "battery_percent" shutdown) (int 20))
            (insert "enabled" (bool false) shutdown))))

abbrev pub cleared_fields : Dict Value → Dict Value
cleared_fields shutdown =
    insert "auto_update" (bool false)
      (insert "agent_id" null (insert "enabled" (bool false) shutdown))

-- The policy, where the client still has the agent.
abbrev pub policy_fields : String → Bool → Dict Value → Result WebError (Dict Value)
policy_fields agent_id enabled shutdown =
    if is_text (lookup "agent_id" shutdown) agent_id
    then ok (insert "auto_update" (bool enabled) shutdown)
    else err (http 409 "Agent pairing changed while update policy was being saved")

-- An edit of the client's settings and `validate_config`, as the operation of `update`.
unfoldable pub persist :
    WebEnv
    → String
    → (Dict Value → Result WebError (Dict Value))
    → Dict Value
    → Result WebError (Dict Value)
unfolding edit_client validated
persist env name f value = elim (edit_client name f value) [
  | err e ↦ err e
  | ok d ↦ validated env.str_value d
]

unfoldable pub save :
    WebEnv → String → (Dict Value → Result WebError (Dict Value)) → Handler (Dict Value)
unfolding persist update_config
save env name f = update_config (persist env name f) env.can_write_config

-- `pair_agent`
unfoldable pub pair_agent : WebEnv → String → ℕ → String → Handler (Dict Value)
unfolding admin named_client save record_result
pair_agent env name port fingerprint = do
  user ← lift (admin env)
  (raw, client) ← named_client env name
  host ← or_raise (lookup "host" client) other_error
  emit (pairing_request host port)
  result ←
      catch
        (lift (
          of_agent (pair env.str_value env.is_alnum env.issue (env.pairing host port) fingerprint)))
        (only_agent (λ text. throw (http 502 text)))
  id ← or_raise (lookup "agent_id" result) other_error
  save env name (λ shutdown. ok (pairing_fields id port shutdown))
  record_result env (record (report name "paired") { details = result })
  return (overlay (("status", str "paired") ∷ []) result)

-- The remote part of `unpair_agent`.
unfoldable pub unpair_remote : WebEnv → Bool → Dict Value → String → Handler (Dict Value)
unfolding ask
unpair_remote env true client id = return []
unpair_remote env false client id = do
  call ← lift (agent_call env.int_value client id unpair)
  catch (ask env (env.exchange call) call) (
      only_agent (λ text.
        throw (http 502 ("Remote unpair failed; retry or explicitly forget locally: " ^ text))))

-- `unpair_agent`
unfoldable pub unpair_agent : WebEnv → String → String → Bool → Handler (Dict Value)
unfolding admin named_client paired_id unpair_remote save record_result
unpair_agent env name confirmation force_local = do
  user ← lift (admin env)
  check (str_eq confirmation name) (http 400 "Device name confirmation does not match")
  (raw, client) ← named_client env name
  id ← paired_id client
  unpair_remote env force_local client id
  save env name (λ shutdown. ok (cleared_fields shutdown))
  record_result env (report name "unpaired")
  return (("status", str "unpaired") ∷ ("local_only", bool force_local) ∷ [])

-- The agent is told its earlier policy; what the agent raises is taken.
unfoldable pub restore_policy :
    WebEnv → Dict Value → String → Bool → WebError → Handler (Dict Value)
unfolding ask
restore_policy env client id previous error = do
  call ← lift (agent_call env.int_value client id (set_auto_update previous))
  catch (ask env (env.again call) call) (only_agent (λ text. return []))
  throw error

-- bool(shutdown.get("auto_update", False))
unfoldable pub previous_policy : Dict Value → Result WebError Bool
previous_policy client = elim (settings_of (lookup "shutdown" client)) [
  | err e ↦ err e
  | ok settings ↦ ok (is_true (get_or (lookup "auto_update" settings) (bool false)))
]

-- `set_agent_auto_update`
unfoldable pub set_agent_auto_update : WebEnv → String → Bool → Handler (Dict Value)
unfolding admin named_client paired_id previous_policy ask save restore_policy record_result
set_agent_auto_update env name enabled = do
  user ← lift (admin env)
  (raw, client) ← named_client env name
  id ← paired_id client
  previous ← lift (previous_policy client)
  call ← lift (agent_call env.int_value client id (set_auto_update enabled))
  result ← catch (ask env (env.exchange call) call) (only_agent (λ text. throw (http 502 text)))
  catch (save env name (policy_fields id enabled)) (restore_policy env client id previous)
  record_result env (record (report name "online") { details = ("auto_update", bool enabled) ∷ [] })
  return result
