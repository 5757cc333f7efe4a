-- ===== src/Shutdown/Coordinator.antt =====
-- wolnut/shutdown.py: `ShutdownCoordinator.process_on_battery`. The clock, the network and the identity
-- files are read client by client, each reading by itself.
use wolnut_webui.Common.{
  ℕ, max, String, Bool, true, false, not, ◌&&◌, none, some, List, [], ◌∷◌, ◌++◌, ltb, is_set,
  get_or, if◌then◌else◌, Result, ok, err,
}
use wolnut_webui.Common.Text.{◌^◌, show}
use wolnut_webui.Common.Dict.{Dict, lookup}
use wolnut_webui.Common.Value.{Value, is_text}
use wolnut_webui.Config.{ClientConfig, WolnutConfig}
use wolnut_webui.State.{
  ShutdownState, Tracker, shutdown_state, should_attempt_shutdown, record_shutdown_attempt,
  acknowledge_shutdown, mark_shutdown_failure_notified, outage_id,
}
use wolnut_webui.Agent.{
  AgentFailure, agent_error, uncaught, IdentityFiles, Exchange, request, ShutdownPayload,
  shutdown_payload,
}
use wolnut_webui.Notifications.{shutdown_acknowledged, shutdown_failed}
use wolnut_webui.Effects.{Effect, notify, shutdown_request, Crash, uncaught_error}

-- What the coordinator reads for each client.
pub record ShutdownEnv : Type 0 where
  pub check_at : ClientConfig → ℕ
  pub requested_at : ClientConfig → ℕ
  pub recorded_at : ClientConfig → ℕ
  pub acknowledged_at : ClientConfig → ℕ
  pub files : ClientConfig → IdentityFiles
  pub exchange : ClientConfig → Exchange
  pub str_value : Value → String

-- A tracker, and what was done.
abbrev pub Step : Type 0
Step = Result Crash (Tracker × List Effect)

abbrev pub retry_delay : WolnutConfig → ℕ
retry_delay config = max config.poll_interval 5

-- The negation of the guard that skips a client.
unfoldable pub is_due : WolnutConfig → ℕ → ShutdownEnv → ClientConfig → Tracker → Bool
is_due config percent env c t =
    c.enabled
    && c.shutdown.enabled
    && is_set c.shutdown.agent_id
    && not (ltb c.shutdown.battery_percent percent)
    && should_attempt_shutdown c.name (retry_delay config) (env.check_at c) t

-- previous.get("command_id") or f"{outage_id}:{client.name}:{sequence}"
new_command_id : String → String → ℕ → String
new_command_id outage name sequence = outage ^ ":" ^ name ^ ":" ^ show sequence

unfoldable pub command_id_for : String → String → ShutdownState → String
unfolding new_command_id
command_id_for outage name previous =
    if is_set previous.command_id
    then get_or previous.command_id ""
    else new_command_id outage name previous.delivery_sequence

unfoldable pub payload_for :
    WolnutConfig → ℕ → String → ShutdownEnv → ClientConfig → Tracker → ShutdownPayload
unfolding shutdown_payload
payload_for config percent outage env c t =
    shutdown_payload (command_id_for outage c.name (shutdown_state c.name t)) "automatic"
      config.nut.ups (some percent) (some c.shutdown.battery_percent) (env.requested_at c)

abbrev pub failure_notice : ClientConfig → String → Effect
failure_notice c message =
    notify shutdown_failed "Device shutdown delivery failed"
      ("Wolnut could not reach " ^ c.name ^ ": " ^ message)

abbrev pub accepted_notice : ClientConfig → ℕ → Effect
accepted_notice c percent =
    notify shutdown_acknowledged "Device shutdown accepted"
      (c.name ^ " accepted a shutdown request at " ^ show percent ^ "% UPS charge.")

-- The handler of AgentError.
unfoldable pub deliver_failed :
    ℕ → String → ShutdownEnv → ClientConfig → String → Tracker → Tracker × List Effect
deliver_failed percent command env c message t =
    let t' =
      record_shutdown_attempt c.name command percent "automatic" (some message) (env.recorded_at c)
        t in
    if (shutdown_state c.name t).failure_notified
    then (t', [])
    else (mark_shutdown_failure_notified c.name t', failure_notice c message ∷ [])

unfoldable pub deliver_accepted :
    ℕ → String → ShutdownEnv → ClientConfig → Tracker → Tracker × List Effect
deliver_accepted percent command env c t = (
  acknowledge_shutdown c.name (env.acknowledged_at c)
      (record_shutdown_attempt c.name command percent "automatic" none (env.recorded_at c) t),
  accepted_notice c percent ∷ [],
)

-- What the answer to the request makes of the tracker.
unfoldable pub deliver :
    ℕ → String → ShutdownEnv → ClientConfig → Result AgentFailure (Dict Value) → Tracker → Step
unfolding deliver_failed deliver_accepted
deliver percent command env c (ok response) t =
    if is_text (lookup "status" response) "accepted"
    then ok (deliver_accepted percent command env c t)
    else ok
        (deliver_failed percent command env c "Agent did not acknowledge the shutdown request" t)
deliver percent command env c (err (agent_error message)) t =
    ok (deliver_failed percent command env c message t)
deliver percent command env c (err (uncaught u)) t = err (uncaught_error u)

abbrev pub sent_if : Bool → ClientConfig → ShutdownPayload → List Effect
sent_if true c p = shutdown_request c p ∷ []
sent_if false c p = []

abbrev pub then_effects : List Effect → Step → Step
then_effects es (ok (t, fs)) = ok (t, es ++ fs)
then_effects es (err e) = err e

unfoldable pub attempt : WolnutConfig → ℕ → String → ShutdownEnv → ClientConfig → Tracker → Step
attempt config percent outage env c t =
    let payload = payload_for config percent outage env c t in
    let (sent, answer) =
      request env.str_value (env.files c) (get_or c.shutdown.agent_id "") (env.exchange c) in
    then_effects (sent_if sent c payload) (deliver percent payload.command_id env c answer t)

-- The body of the loop.
unfoldable pub process_client :
    WolnutConfig → ℕ → String → ShutdownEnv → ClientConfig → Tracker → Step
process_client config percent outage env c t =
    if is_due config percent env c t then attempt config percent outage env c t else ok (t, [])

abbrev pub and_then : Step → (Tracker → Step) → Step
and_then (ok (t, es)) f = then_effects es (f t)
and_then (err e) f = err e

unfoldable pub process_clients :
    WolnutConfig → ℕ → String → ShutdownEnv → List ClientConfig → Tracker → Step
process_clients config percent outage env [] t = ok (t, [])
process_clients config percent outage env (c ∷ cs) t =
    and_then (process_client config percent outage env c t)
      (λ t'. process_clients config percent outage env cs t')

unfoldable pub process_on_battery : WolnutConfig → ℕ → ShutdownEnv → Tracker → Step
process_on_battery config percent env t =
    if is_set (outage_id t)
    then process_clients config percent (get_or (outage_id t) "") env config.clients t
    else ok (t, [])
