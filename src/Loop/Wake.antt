-- ===== src/Loop/Wake.antt =====
-- wolnut/cli.py: what `main` does once power is back and the battery and the delay allow it: the loop
-- over the clients, and the end of the restoration.
use wolnut_webui.Common.{
  ℕ, ◌+◌, ◌*◌, String, true, false, not, ◌&&◌, none, List, [], ◌∷◌, ◌++◌, ltb, str_in,
  if◌then◌else◌,
}
use wolnut_webui.Common.Text.{◌^◌}
use wolnut_webui.Config.{ClientConfig}
use wolnut_webui.State.{
  microseconds, mark_wol_sent, mark_skip, is_online, was_online_before_shutdown, should_attempt_wol,
  should_skip, reset,
}
use wolnut_webui.Notifications.{wake_sent, client_recovered, errors}
use wolnut_webui.Effects.{Effect, notify, wake}
use wolnut_webui.Loop.World.{Monitor, Poll, add, discard, is_empty, sorted, join}

abbrev skip_client : ClientConfig → Monitor → Monitor × List Effect
skip_client c m = (record m { tracker = mark_skip c.name m.tracker }, [])

abbrev pub recovered_notice : ClientConfig → Effect
recovered_notice c =
    notify client_recovered "Client is back online"
      (c.name ^ " (" ^ c.host ^ ") is reachable again.")

-- The client answers pings.
unfoldable pub seen_online : ClientConfig → Monitor → Monitor × List Effect
seen_online c m = if str_in c.name m.recorded_up then (m, []) else (
  record m {
    recorded_down = discard c.name m.recorded_down;
    recorded_up = add c.name m.recorded_up;
  },
  if str_in c.name m.recorded_down then recovered_notice c ∷ [] else [],
)

abbrev pub wake_notice : ClientConfig → Effect
wake_notice c =
    notify wake_sent "Wake-on-LAN packet sent"
      ("Sent a wake packet to " ^ c.name ^ " (" ^ c.mac ^ ").")

abbrev pub wake_failure : ClientConfig → Effect
wake_failure c =
    notify errors "Wake-on-LAN failed"
      ("Could not send a wake packet to " ^ c.name ^ " (" ^ c.mac ^ ").")

-- send_wol_packet and what follows its answer.
unfoldable pub send_wake : Poll → ClientConfig → Monitor → Monitor × List Effect
send_wake p c m =
    if p.wake_sent c
    then (
      record m { tracker = mark_wol_sent c.name (p.woken_at c) m.tracker },
      wake c true ∷ wake_notice c ∷ [],
    )
    else if str_in c.name m.reported_failures
    then (m, wake c false ∷ [])
    else (
      record m { reported_failures = add c.name m.reported_failures },
      wake c false ∷ wake_failure c ∷ [],
    )

-- The client does not answer.
unfoldable pub seen_offline : Poll → ClientConfig → Monitor → Monitor × List Effect
seen_offline p c m =
    let m' = record m { recorded_down = add c.name m.recorded_down } in
    if should_attempt_wol c.name m.config.wake_on.reattempt_delay (p.wake_check_at c) m.tracker
    then send_wake p c m'
    else (m', [])

-- The body of the loop over the clients.
unfoldable pub wake_client : Poll → ClientConfig → Monitor → Monitor × List Effect
wake_client p c m =
    if not c.enabled
    then (m, [])
    else if not c.wake_enabled
    then skip_client c m
    else if should_skip c.name m.tracker
    then (m, [])
    else if not c.always_wake && not (was_online_before_shutdown c.name m.tracker)
    then skip_client c m
    else if is_online c.name m.tracker
    then seen_online c m
    else seen_offline p c m

unfoldable pub wake_clients : Poll → List ClientConfig → Monitor → Monitor × List Effect
wake_clients p [] m = (m, [])
wake_clients p (c ∷ cs) m =
    let (m', es) = wake_client p c m in let (m'', fs) = wake_clients p cs m' in (m'', es ++ fs)

-- The restoration is over.
abbrev pub end_restoration : Monitor → Monitor
end_restoration m = record m {
  restoration_event = false;
  restoration_start = none;
  wol_being_sent = false;
  reported_failures = [];
}

abbrev pub timeout_notice : List String → Effect
timeout_notice down =
    notify errors "Client recovery timed out"
      ("These clients did not come back online: " ^ join (sorted down) ^ ".")

-- What follows the loop: all recovered, timed out, or neither yet.
unfoldable pub finish_round : Poll → ℕ → Monitor → Monitor × List Effect
finish_round p start m =
    if is_empty m.recorded_down
    then (record (end_restoration m) { tracker = reset m.tracker }, [])
    else if ltb (start + m.config.wake_on.client_timeout_sec * microseconds) p.waited_at
    then (end_restoration m, timeout_notice m.recorded_down ∷ [])
    else (m, [])

unfoldable pub wake_round : Poll → ℕ → Monitor → Monitor × List Effect
wake_round p start m =
    let (m', es) = wake_clients p m.config.clients (record m { wol_being_sent = true }) in
    let (m'', fs) = finish_round p start m' in (m'', es ++ fs)
