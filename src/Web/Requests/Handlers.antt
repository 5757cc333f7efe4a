-- ===== src/Web/Requests/Handlers.antt =====
-- wolnut/web.py: the handlers for agents keep a property of the files that the writes in them keep.
use wolnut_webui.Common.{ℕ, String, Bool, true, false, Option, none, some, Result, ok, err}
use wolnut_webui.Common.Dict.{Dict}
use wolnut_webui.Common.Value.{Value, obj, to_fields}
use wolnut_webui.Agent.{Exchange}
use wolnut_webui.Notifications.{Event}
use wolnut_webui.Enrollment.{StoreFile, Call, Details}
use wolnut_webui.Web.{
  AgentCall, holds, WebError, http, value_error, agent_error, enrollment_error, os_error,
  other_error, Site,
}
use wolnut_webui.Web.Rules.{Keeps, keeps_rules}
use wolnut_webui.Web.Defaults.{read_config_or_default}
use wolnut_webui.Web.Results.{record_agent_result, write_state, AgentReport}
use wolnut_webui.Web.Agents.Pairing.{
  pairing_fields, cleared_fields, policy_fields, save, pair_agent, unpair_agent, unpair_remote,
  set_agent_auto_update, restore_policy,
}
use wolnut_webui.Web.Agents.Enroll.{
  enrolled_fields, AgentEnrollmentCompleteRequest, on_store, none_paired, close_created,
  create_agent_enrollment, get_agent_enrollment, finish_enrollment, end_session, close_enrollment,
  complete_agent_enrollment,
}
use wolnut_webui.Web.Agents.{
  WebEnv, record_result, ask, named_client, failed, paired_id, test_agent, update_agent,
  shutdown_agent, send_shutdown, shutdown_failure, notify_from,
}

module _ (env : WebEnv) (P : Site → Type 0)
    (state_kept : (s : Site) (d : Dict Value)
      → P s
      → P (record s { state_file = holds (obj (to_fields d)) }))
    (store_kept : (s : Site) (file : StoreFile) → P s → P (record s { enrollments = file })) where
  read_config-Keeps : (path : String) → Keeps P (read_config_or_default path)
  unfolding read_config_or_default
  read_config-Keeps path = record { at = λ s p. p }

  write_state-Keeps : (w : Bool) (r : Result WebError (Dict Value)) → Keeps P (write_state w r)
  unfolding write_state
  write_state-Keeps w (err e) = record { at = λ s p. p }
  write_state-Keeps true (ok d) = record { at = λ s p. state_kept s d p }
  write_state-Keeps false (ok d) = record { at = λ s p. p }

  record_result-Keeps : (r : AgentReport) → Keeps P (record_result env r)
  unfolding record_result record_agent_result
  record_result-Keeps r = record { at = λ s p. (write_state-Keeps env.can_write_state _).at s p }

  ask-Keeps : (x : Exchange) (call : AgentCall) → Keeps P (ask env x call)
  unfolding ask
  ask-Keeps x call = record { at = λ s p. p }

  named_client-Keeps : (name : String) → Keeps P (named_client env name)
  unfolding named_client
  named_client-Keeps name = search (keeps_rules, read_config-Keeps)

  failed-Keeps : (r : AgentReport) → Keeps P (failed env r)
  unfolding failed
  failed-Keeps r = search (keeps_rules, record_result-Keeps)

  paired_id-Keeps : (c : Dict Value) → Keeps P (paired_id c)
  unfolding paired_id
  paired_id-Keeps c = search keeps_rules

  on_store-Keeps {ℓ} : {A : Type ℓ} (f : StoreFile → Call A) → Keeps P (on_store f)
  unfolding on_store
  on_store-Keeps f = record { at = λ s p. store_kept s (f s.enrollments).1 p }

  ruleset handler_rules = (
    keeps_rules, named_client-Keeps, ask-Keeps, failed-Keeps, record_result-Keeps, paired_id-Keeps,
    on_store-Keeps,
  )

  pub test_agent-Keeps : (name : String) → Keeps P (test_agent env name)
  unfolding test_agent
  test_agent-Keeps name = search handler_rules depth 12

  pub update_agent-Keeps : (name : String) → Keeps P (update_agent env name)
  unfolding update_agent
  update_agent-Keeps name = search handler_rules depth 12

  notify_from-Keeps :
      (raw : Dict Value) (event : Event) (title message : String)
      → Keeps P (notify_from raw event title message)
  unfolding notify_from
  notify_from-Keeps raw event title message = search keeps_rules

  shutdown_failure-Keeps :
      (raw : Dict Value) (name id text : String) → Keeps P (shutdown_failure env raw name id text)
  unfolding shutdown_failure
  shutdown_failure-Keeps raw name id text = search (keeps_rules, notify_from-Keeps, failed-Keeps)

  send_shutdown-Keeps :
      (user name : String) (raw client : Dict Value) (id : String)
      → Keeps P (send_shutdown env user name raw client id)
  unfolding send_shutdown
  send_shutdown-Keeps user name raw client id =
      search (handler_rules, shutdown_failure-Keeps, notify_from-Keeps) depth 12

  pub shutdown_agent-Keeps :
      (name confirmation : String) → Keeps P (shutdown_agent env name confirmation)
  unfolding shutdown_agent
  shutdown_agent-Keeps name confirmation = search (handler_rules, send_shutdown-Keeps) depth 12

  pub pair_agent-Keeps :
      (name : String) (port : ℕ) (fingerprint : String)
      → ((id : Value) → Keeps P (save env name (λ shutdown. ok (pairing_fields id port shutdown))))
      → Keeps P (pair_agent env name port fingerprint)
  unfolding pair_agent
  pair_agent-Keeps name port fingerprint saved = search (handler_rules, saved) depth 14

  unpair_remote-Keeps :
      (force_local : Bool) (client : Dict Value) (id : String)
      → Keeps P (unpair_remote env force_local client id)
  unfolding unpair_remote
  unpair_remote-Keeps true client id = search keeps_rules
  unpair_remote-Keeps false client id = search handler_rules depth 8

  pub unpair_agent-Keeps :
      (name confirmation : String) (force_local : Bool)
      → Keeps P (save env name (λ shutdown. ok (cleared_fields shutdown)))
      → Keeps P (unpair_agent env name confirmation force_local)
  unfolding unpair_agent
  unpair_agent-Keeps name confirmation force_local saved =
      search (handler_rules, unpair_remote-Keeps) depth 14

  restore_policy-Keeps :
      (client : Dict Value) (id : String) (previous : Bool) (e : WebError)
      → Keeps P (restore_policy env client id previous e)
  unfolding restore_policy
  restore_policy-Keeps client id previous e = search handler_rules depth 10

  pub set_agent_auto_update-Keeps :
      (name : String) (enabled : Bool)
      → ((id : String) → Keeps P (save env name (policy_fields id enabled)))
      → Keeps P (set_agent_auto_update env name enabled)
  unfolding set_agent_auto_update
  set_agent_auto_update-Keeps name enabled saved =
      search (handler_rules, restore_policy-Keeps, saved) depth 14

  none_paired-Keeps : (o : Option String) → Keeps P (none_paired o)
  unfolding none_paired
  none_paired-Keeps none = search keeps_rules
  none_paired-Keeps (some id) = search keeps_rules

  close_created-Keeps : (id : String) (e : WebError) → Keeps P (close_created env id e)
  unfolding close_created
  close_created-Keeps id (value_error text) = search handler_rules
  close_created-Keeps id (http n t) = search keeps_rules
  close_created-Keeps id (agent_error t) = search keeps_rules
  close_created-Keeps id (enrollment_error t) = search keeps_rules
  close_created-Keeps id os_error = search keeps_rules
  close_created-Keeps id other_error = search keeps_rules

  pub create_enrollment-Keeps :
      (name : String) (port : ℕ) → Keeps P (create_agent_enrollment env name port)
  unfolding create_agent_enrollment
  create_enrollment-Keeps name port =
      search (handler_rules, none_paired-Keeps, close_created-Keeps) depth 14

  pub get_enrollment-Keeps : (id : String) → Keeps P (get_agent_enrollment env id)
  unfolding get_agent_enrollment
  get_enrollment-Keeps id = search handler_rules depth 8

  finish_enrollment-Keeps :
      (req : AgentEnrollmentCompleteRequest) (id : String) (d : Details)
      → Keeps P (save env d.client_name (enrolled_fields req.agent_id d.agent_port))
      → Keeps P (finish_enrollment env req id d)
  unfolding finish_enrollment
  finish_enrollment-Keeps req id d saved = search handler_rules depth 12

  end_session-Keeps : (id text : String) (e : WebError) → Keeps P (end_session env id text e)
  unfolding end_session
  end_session-Keeps id text e = search handler_rules

  close_enrollment-Keeps : (id : String) (e : WebError) → Keeps P (close_enrollment env id e)
  unfolding close_enrollment
  close_enrollment-Keeps id (http n t) = search end_session-Keeps
  close_enrollment-Keeps id (agent_error t) = search end_session-Keeps
  close_enrollment-Keeps id (enrollment_error t) = search end_session-Keeps
  close_enrollment-Keeps id (value_error t) = search end_session-Keeps
  close_enrollment-Keeps id os_error = search end_session-Keeps
  close_enrollment-Keeps id other_error = search keeps_rules

  pub complete_enrollment-Keeps :
      (req : AgentEnrollmentCompleteRequest)
      → ((d : Details)
          → Keeps P (save env d.client_name (enrolled_fields req.agent_id d.agent_port)))
      → Keeps P (complete_agent_enrollment env req)
  unfolding complete_agent_enrollment
  complete_enrollment-Keeps req saved =
      search (handler_rules, finish_enrollment-Keeps, close_enrollment-Keeps, saved) depth 10
