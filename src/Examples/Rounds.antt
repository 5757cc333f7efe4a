-- ===== src/Examples/Rounds.antt =====
-- wolnut/cli.py: rounds of the monitor, tried.
use wolnut_webui.Common.{
  arith, true, false, some, [], ◌∷◌, ◌++◌, ◌+◌, ◌*◌, ◌≡◌, refl, ltb, if◌then◌else◌,
}
use wolnut_webui.State.{microseconds}
use wolnut_webui.Effects.{All}
use wolnut_webui.Shutdown.Snapshot.{parse_ups_snapshot}
use wolnut_webui.Loop.World.{Monitor, Poll}
use wolnut_webui.Loop.Wake.{wake_clients, wake_round, end_restoration, timeout_notice}
use wolnut_webui.Loop.Power.{power_restored_round}
use wolnut_webui.Loop.Round.{monitor_round}
use wolnut_webui.Loop.Safe.{Succeeds, monitor_round-Succeeds}
use wolnut_webui.Loop.Due.{WakeIsDue, power_restored_round-WakeIsDue}
use wolnut_webui.Loop.Quiet.{Does, Allowed, monitor_round-Allowed}
use wolnut_webui.Loop.Faults.{IsStuck, wake_round-IsStuck}
use wolnut_webui.Examples.{nas, up, tracker, on_line, in_outage, accepting, poll, monitor}

-- The UPS runs on its battery and the client answers pings.
abbrev outage_poll : Poll
outage_poll = poll (("ups.status", "OB DISCHRG") ∷ ("battery.charge", "30") ∷ []) true accepting

monitor_round-Succeeds_example : Succeeds (monitor_round outage_poll (monitor (tracker up on_line)))
monitor_round-Succeeds_example =
    monitor_round-Succeeds outage_poll (monitor (tracker up on_line))
      (λ c. ((refl, tt), (refl, tt))) (λ c result v e there same. ground arith) (refl, tt)

monitor_round-Allowed_example :
    Does
      (Allowed (parse_ups_snapshot outage_poll.round_float outage_poll.status))
      (monitor_round outage_poll (monitor (tracker up on_line)))
monitor_round-Allowed_example = monitor_round-Allowed outage_poll (monitor (tracker up on_line))

-- Power is back since 200 seconds, and the client that was online before is not up yet.
abbrev back_poll : Poll
back_poll = poll (("ups.status", "OL") ∷ ("battery.charge", "30") ∷ []) false accepting

abbrev restoring : Monitor
restoring =
    record (monitor (
      tracker (record up { is_online = some false; was_online_before_battery = some true })
        in_outage)) { restoration_event = true; restoration_start = some 200000000 }

power_restored_round-WakeIsDue_example :
    All (WakeIsDue back_poll 30 200000000 restoring) (power_restored_round back_poll 30 restoring).1
power_restored_round-WakeIsDue_example = power_restored_round-WakeIsDue back_poll 30 restoring

abbrev flapping : Monitor
flapping = record restoring { recorded_down = "nas" ∷ []; recorded_up = "nas" ∷ [] }

wake_round-IsStuck_example :
    let x = wake_clients back_poll (nas ∷ []) (record flapping { wol_being_sent = true }) in
    IsStuck "nas" x.0
    × (wake_round back_poll 200000000 flapping ≡ (
        if ltb (200000000 + x.0.config.wake_on.client_timeout_sec * microseconds) 240000001
        then (end_restoration x.0, x.1 ++ timeout_notice x.0.recorded_down ∷ [])
        else (x.0, x.1 ++ [])))
wake_round-IsStuck_example = wake_round-IsStuck "nas" back_poll 200000000 flapping (refl, refl)
