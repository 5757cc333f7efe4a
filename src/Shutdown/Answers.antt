-- ===== src/Shutdown/Answers.antt =====
-- wolnut/shutdown.py: one client's step by the agent's answer, and the command id of a retry.
use wolnut_webui.Common.{
  ℕ, String, Bool, true, none, some, List, [], ◌∷◌, ◌++◌, ◌≡◌, ◌⊎◌, refl, false, inl, inr, ap,
  truthy, get_or, if◌then◌else◌, Result, ok, err, arith, eq_refl,
}
use wolnut_webui.Common.Text.{◌^◌, show, truthy-append}
use wolnut_webui.Common.Dict.{Dict, lookup, contains}
use wolnut_webui.Common.Value.{Value, is_text}
use wolnut_webui.Config.{ClientConfig, WolnutConfig}
use wolnut_webui.State.{ShutdownState, Tracker, shutdown_state, record_shutdown_attempt, seconds}
use wolnut_webui.State.Writes.{
  record_attempt-state, acknowledge-state, mark_failure-state, contains-record_attempt,
}
use wolnut_webui.Agent.{AgentFailure, agent_error, request}
use wolnut_webui.Agent.Identity.{response-sent}
use wolnut_webui.Effects.{Effect, shutdown_request}
use wolnut_webui.Shutdown.Coordinator.{
  ShutdownEnv, is_due, deliver_failed, deliver_accepted, deliver, command_id_for, payload_for,
  attempt, process_client, sent_if, failure_notice, accepted_notice,
}

-- A set outage id gives a command id that is not empty.
command_id_for-truthy :
    (outage name : String) (d : ShutdownState)
    → truthy outage ≡ true
    → truthy (command_id_for outage name d) ≡ true
unfolding command_id_for
command_id_for-truthy outage name d h =
    ground (arith, truthy-append outage (":" ^ name ^ ":" ^ show d.delivery_sequence))

failed-effects :
    (percent : ℕ) (command : String) (env : ShutdownEnv) (c : ClientConfig) (t : Tracker)
    (message : String)
    → (deliver_failed percent command env c message t).1
      ≡ (if (shutdown_state c.name t).failure_notified then [] else failure_notice c message ∷ [])
unfolding deliver_failed
failed-effects percent command env c t message = ground arith

-- Once a command id that is not empty is recorded, it is the id of every further attempt, whatever the
-- outage is called.
pub command_id_kept :
    (command outage name : String) (d : ShutdownState)
    → truthy command ≡ true
    → d.command_id ≡ some command
    → command_id_for outage name d ≡ command
unfolding command_id_for
command_id_kept command outage name d h e = ground arith

-- The agent's answer to the client's request, and whether the request went out.
abbrev pub answer_to : ShutdownEnv → ClientConfig → Bool × Result AgentFailure (Dict Value)
answer_to env c =
    request env.str_value (env.files c) (get_or c.shutdown.agent_id "") (env.exchange c)

-- A failure with its text: an AgentError, or an answer that accepts nothing.
abbrev pub FailsWith : ShutdownEnv → ClientConfig → String → Type 0
FailsWith env c message =
    ((answer_to env c).1 ≡ err (agent_error message))
    ⊎ ((response : Dict Value) × ((answer_to env c).1 ≡ ok response)
        × (is_text (lookup "status" response) "accepted" ≡ false)
        × (message ≡ "Agent did not acknowledge the shutdown request"))

deliver-FailsWith :
    (percent : ℕ) (command : String) (env : ShutdownEnv) (c : ClientConfig) (t : Tracker)
    (message : String)
    → FailsWith env c message
    → deliver percent command env c (answer_to env c).1 t
      ≡ ok (deliver_failed percent command env c message t)
unfolding deliver
deliver-FailsWith percent command env c t message (inl e) = rw e refl
deliver-FailsWith percent command env c t message (inr (response, e, refused, said)) =
    rw (e, refused, said) refl

module _ (percent : ℕ) (command : String) (env : ShutdownEnv) (c : ClientConfig) (t : Tracker)
    (tracked : contains c.name t.clients ≡ true) where
  accepted-state :
      let d = shutdown_state c.name (deliver_accepted percent command env c t).0 in
      (d.acknowledged ≡ true)
      × (d.command_id ≡ some command)
      × (d.last_error ≡ none)
      × (d.acknowledged_at ≡ seconds (env.acknowledged_at c))
      × (d.delivery_sequence ≡ (shutdown_state c.name t).delivery_sequence)
  unfolding deliver_accepted
  accepted-state =
      let u =
        record_shutdown_attempt c.name command percent "automatic" none (env.recorded_at c) t in
      ground (
        arith,
        record_attempt-state c.name c.name command percent "automatic" none (env.recorded_at c) t,
        contains-record_attempt c.name c.name command percent "automatic" none (env.recorded_at c)
            t,
        acknowledge-state c.name c.name (env.acknowledged_at c) u,
        eq_refl c.name,
      )

  failed-state :
      (message : String)
      → let d = shutdown_state c.name (deliver_failed percent command env c message t).0 in
        (d.acknowledged ≡ (shutdown_state c.name t).acknowledged)
        × (d.command_id ≡ some command)
        × (d.last_error ≡ some message)
        × (d.failure_notified ≡ true)
        × (d.last_attempt_at ≡ seconds (env.recorded_at c))
        × (d.battery_percent ≡ some percent)
        × (d.delivery_sequence ≡ (shutdown_state c.name t).delivery_sequence)
  unfolding deliver_failed
  failed-state message =
      let u =
        record_shutdown_attempt c.name command percent "automatic" (some message)
          (env.recorded_at c) t in
      ground (
        arith,
        record_attempt-state c.name c.name command percent "automatic" (some message)
            (env.recorded_at c) t,
        contains-record_attempt c.name c.name command percent "automatic" (some message)
            (env.recorded_at c) t,
        mark_failure-state c.name c.name u,
        eq_refl c.name,
      )

module _ (config : WolnutConfig) (percent : ℕ) (outage : String) (env : ShutdownEnv)
    (c : ClientConfig) (t : Tracker) (due : is_due config percent env c t ≡ true)
    (tracked : contains c.name t.clients ≡ true) where
  abbrev command_now : String
  command_now = command_id_for outage c.name (shutdown_state c.name t)

  -- A due and tracked client whose agent accepts: the request and one notice go out, and the client is
  -- acknowledged, under the command id of the request and without an error.
  pub process_client-accepted :
      (response : Dict Value)
      → (answer_to env c).1 ≡ ok response
      → is_text (lookup "status" response) "accepted" ≡ true
      → (t' : Tracker) × (process_client config percent outage env c t
          ≡ ok (
            t',
            shutdown_request c (payload_for config percent outage env c t)
                ∷ accepted_notice c percent
                ∷ [],
          ))
        × ((shutdown_state c.name t').acknowledged ≡ true)
        × ((shutdown_state c.name t').command_id ≡ some command_now)
        × ((shutdown_state c.name t').last_error ≡ none)
  unfolding process_client attempt deliver payload_for deliver_accepted
  process_client-accepted response answered accepted =
      let r = accepted-state percent command_now env c t tracked in
      let sent =
        response-sent env.str_value (env.files c) (get_or c.shutdown.agent_id "") (env.exchange c)
          answered in
      (
        (deliver_accepted percent command_now env c t).0,
        rw due (rw answered (rw sent (rw accepted))),
        r.0,
        r.1,
        r.2,
      )

  -- A due and tracked client whose request fails, by an AgentError or by an answer that accepts nothing:
  -- the error, the command id of the request, the percentage and the time are recorded, the client stays as
  -- acknowledged as it was, and the failure is announced exactly if it was not before.
  pub process_client-failed :
      (message : String)
      → FailsWith env c message
      → (t' : Tracker) × (process_client config percent outage env c t
          ≡ ok (
            t',
            sent_if (answer_to env c).0 c (payload_for config percent outage env c t)
                ++ (if (shutdown_state c.name t).failure_notified
                    then []
                    else failure_notice c message ∷ []),
          ))
        × ((shutdown_state c.name t').acknowledged ≡ (shutdown_state c.name t).acknowledged)
        × ((shutdown_state c.name t').command_id ≡ some command_now)
        × ((shutdown_state c.name t').last_error ≡ some message)
        × ((shutdown_state c.name t').failure_notified ≡ true)
        × ((shutdown_state c.name t').last_attempt_at ≡ seconds (env.recorded_at c))
        × ((shutdown_state c.name t').battery_percent ≡ some percent)
  unfolding process_client attempt payload_for
  process_client-failed message fails =
      let r = failed-state percent command_now env c t tracked message in
      let payload = payload_for config percent outage env c t in
      (
        (deliver_failed percent command_now env c message t).0,
        rw (due, deliver-FailsWith percent command_now env c t message fails)
            (ap
              (λ es. ok (
                (deliver_failed percent command_now env c message t).0,
                sent_if (answer_to env c).0 c payload ++ es,
              ))
              (failed-effects percent command_now env c t message)),
        r.0,
        r.1,
        r.2,
        r.3,
        r.4,
        r.5,
      )

  -- After a due and tracked client's request failed, by an AgentError or by an answer that accepts
  -- nothing, under an outage id that is not empty, the next command id is the same, whatever the outage is
  -- called by then.
  pub process_client-same_command :
      (message : String)
      → truthy outage ≡ true
      → FailsWith env c message
      → (t' : Tracker) × (es : List Effect) × (process_client config percent outage env c t
          ≡ ok (t', es))
        × ((later : String) → command_id_for later c.name (shutdown_state c.name t') ≡ command_now)
  process_client-same_command message set fails =
      let r = process_client-failed message fails in
      (
        r.0,
        _,
        r.1,
        λ later.
            command_id_kept command_now later c.name (shutdown_state c.name r.0)
              (command_id_for-truthy outage c.name (shutdown_state c.name t) set) r.3,
      )
