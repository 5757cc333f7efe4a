-- ===== src/Loop/Updates.antt =====
-- wolnut/agent_updates.py: `AgentUpdateMonitor.poll`. An installation time below 0 counts as 0.
use wolnut_webui.Common.{
  ℕ, ◌+◌, ◌*◌, String, Bool, true, not, ◌&&◌, Option, none, some, List, [], ◌∷◌, ltb, is_set,
  get_or, if◌then◌else◌, Result, ok, err,
}
use wolnut_webui.Common.Text.{◌^◌}
use wolnut_webui.Common.Dict.{Dict, lookup, insert}
use wolnut_webui.Common.Value.{Value, bool, int, neg, is_true}
use wolnut_webui.Config.{ClientConfig}
use wolnut_webui.State.{microseconds, observe_agent_update}
use wolnut_webui.Agent.{AgentFailure, agent_error, uncaught, status, text_of}
use wolnut_webui.Notifications.{agent_update_succeeded}
use wolnut_webui.Effects.{Effect, notify, Crash, uncaught_error, overflow}
use wolnut_webui.Loop.World.{Number, whole, no_number, infinite, Monitor, Poll, Outcome, chain}

abbrev check_interval : ℕ
check_interval = 60

-- The negation of the guard that skips a client.
unfoldable pub update_is_due : Poll → ClientConfig → Monitor → Bool
update_is_due p c m =
    c.enabled
    && is_set c.shutdown.agent_id
    && c.shutdown.auto_update
    && not
        (ltb p.update_at (get_or (lookup c.name m.last_checked) 0 + check_interval * microseconds))

-- int of a value; 0 where it raises TypeError or ValueError, while OverflowError, for an infinity, is not
-- taken.
abbrev pub int_or_zero : Number → Result Crash ℕ
int_or_zero (whole n) = ok n
int_or_zero no_number = ok 0
int_or_zero infinite = err overflow

-- int(value or 0)
unfoldable pub installed_of : Poll → Option Value → Result Crash ℕ
installed_of p none = ok 0
installed_of p (some (int n)) = ok n
installed_of p (some (neg n)) = ok 0
installed_of p (some (bool true)) = ok 1
installed_of p (some v) = if is_true v then int_or_zero (p.int_value v) else ok 0

-- str(value or "")
abbrev text_or_empty : Poll → Option Value → String
text_or_empty p none = ""
text_or_empty p (some v) = if is_true v then text_of p.shutdown_env.str_value v else ""

abbrev update_notice : ClientConfig → String → Effect
update_notice c version =
    notify agent_update_succeeded "Agent update installed"
      (c.name ^ " (" ^ c.host ^ ") updated to Wolnut agent " ^ version ^ ".")

unfoldable pub observe_installed :
    Poll → ClientConfig → Dict Value → ℕ → Monitor → Monitor × List Effect
observe_installed p c result installed m =
    let version = text_or_empty p (lookup "version" result) in
    let (t, fresh) =
      observe_agent_update c.name installed version
        (text_or_empty p (lookup "update_source" result))
        (text_or_empty p (lookup "update_status" result)) m.tracker in
    (record m { tracker = t }, if fresh then update_notice c version ∷ [] else [])

abbrev pub observe_with : Poll → ClientConfig → Dict Value → Result Crash ℕ → Monitor → Outcome
observe_with p c result (err e) m = err e
observe_with p c result (ok installed) m = ok (observe_installed p c result installed m)

unfoldable pub observe_status : Poll → ClientConfig → Dict Value → Monitor → Outcome
observe_status p c result m =
    observe_with p c result (installed_of p (lookup "update_installed_at" result)) m

unfoldable pub observe_answer :
    Poll → ClientConfig → Result AgentFailure (Dict Value) → Monitor → Outcome
unfolding observe_status
observe_answer p c (ok result) m = observe_status p c result m
observe_answer p c (err (agent_error e)) m = ok (m, [])
observe_answer p c (err (uncaught u)) m = err (uncaught_error u)

unfoldable pub check_client : Poll → ClientConfig → Monitor → Outcome
unfolding observe_answer
check_client p c m =
    if update_is_due p c m
    then observe_answer p c
        (status p.shutdown_env.str_value (p.update_files c) (get_or c.shutdown.agent_id "")
          (p.update_exchange c))
        (record m { last_checked = insert c.name p.update_at m.last_checked })
    else ok (m, [])

unfoldable pub check_clients : Poll → List ClientConfig → Monitor → Outcome
check_clients p [] m = ok (m, [])
check_clients p (c ∷ cs) m = chain (check_client p c m) (λ m'. check_clients p cs m')

unfoldable pub poll_updates : Poll → Monitor → Outcome
poll_updates p m =
    if m.config.notifications.events.agent_update_succeeded
    then check_clients p m.config.clients m
    else ok (m, [])
