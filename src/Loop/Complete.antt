-- ===== src/Loop/Complete.antt =====
-- wolnut/cli.py: the rounds with power back keep the tracker complete.
use wolnut_webui.Common.{
  ℕ, Bool, true, false, not, ◌&&◌, List, [], ◌∷◌, if◌then◌else◌, get_or, ltb, ◌+◌, ◌*◌, str_in,
}
use wolnut_webui.Config.{ClientConfig}
use wolnut_webui.State.{
  microseconds, should_attempt_wol, should_skip, is_online, was_online_before_shutdown, reset,
}
use wolnut_webui.State.Invariant.{
  IsComplete, reset-IsComplete, set_ups_on_battery-IsComplete, mark_skip-IsComplete,
  mark_wol_sent-IsComplete,
}
use wolnut_webui.Effects.{Effect}
use wolnut_webui.Loop.World.{Monitor, Poll, add, is_empty}
use wolnut_webui.Loop.Wake.{
  seen_online, send_wake, seen_offline, wake_client, wake_clients, finish_round, wake_round,
}
use wolnut_webui.Loop.Power.{
  is_unset, enter_restoration, restore_clients, power_restored_round, power_idle,
}

-- The monitor of a pair is complete.
record Complete (x : Monitor × List Effect) : Type 0 where
  complete : IsComplete x.0.tracker

pair_if :
    (b : Bool) {x y : Monitor × List Effect}
    → Complete x
    → Complete y
    → Complete (if b then x else y)
pair_if true h k = h
pair_if false h k = k

module _ (p : Poll) where
  seen_online-Complete :
      (c : ClientConfig) (m : Monitor) → IsComplete m.tracker → Complete (seen_online c m)
  unfolding seen_online
  seen_online-Complete c m h =
      pair_if (str_in c.name m.recorded_up) (record { complete = h }) (record { complete = h })

  send_wake-Complete :
      (c : ClientConfig) (m : Monitor) → IsComplete m.tracker → Complete (send_wake p c m)
  unfolding send_wake
  send_wake-Complete c m h =
      pair_if (p.wake_sent c)
        (record { complete = mark_wol_sent-IsComplete c.name (p.woken_at c) m.tracker h })
        (pair_if (str_in c.name m.reported_failures) (record { complete = h })
          (record { complete = h }))

  seen_offline-Complete :
      (c : ClientConfig) (m : Monitor) → IsComplete m.tracker → Complete (seen_offline p c m)
  unfolding seen_offline
  seen_offline-Complete c m h =
      pair_if
        (should_attempt_wol c.name m.config.wake_on.reattempt_delay (p.wake_check_at c) m.tracker)
        (send_wake-Complete c (record m { recorded_down = add c.name m.recorded_down }) h)
        (record { complete = h })

  wake_client-Complete :
      (c : ClientConfig) (m : Monitor) → IsComplete m.tracker → Complete (wake_client p c m)
  unfolding wake_client
  wake_client-Complete c m h =
      let skipped = mark_skip-IsComplete c.name m.tracker h in
      pair_if (not c.enabled) (record { complete = h })
        (pair_if (not c.wake_enabled) (record { complete = skipped })
          (pair_if (should_skip c.name m.tracker) (record { complete = h })
            (pair_if (not c.always_wake && not (was_online_before_shutdown c.name m.tracker))
              (record { complete = skipped })
              (pair_if (is_online c.name m.tracker) (seen_online-Complete c m h)
                (seen_offline-Complete c m h)))))

  wake_clients-IsComplete :
      (cs : List ClientConfig) (m : Monitor)
      → IsComplete m.tracker
      → IsComplete (wake_clients p cs m).0.tracker
  unfolding wake_clients
  wake_clients-IsComplete [] m h = h
  wake_clients-IsComplete (c ∷ cs) m h =
      wake_clients-IsComplete cs (wake_client p c m).0 (wake_client-Complete c m h).complete

  finish_round-Complete :
      (start : ℕ) (m : Monitor) → IsComplete m.tracker → Complete (finish_round p start m)
  unfolding finish_round
  finish_round-Complete start m h =
      pair_if (is_empty m.recorded_down) (record { complete = reset-IsComplete m.tracker h })
        (pair_if (ltb (start + m.config.wake_on.client_timeout_sec * microseconds) p.waited_at)
          (record { complete = h }) (record { complete = h }))

  wake_round-Complete :
      (start : ℕ) (m : Monitor) → IsComplete m.tracker → Complete (wake_round p start m)
  unfolding wake_round
  wake_round-Complete start m h = record {
    complete =
        (finish_round-Complete start
          (wake_clients p m.config.clients (record m { wol_being_sent = true })).0
          (wake_clients-IsComplete m.config.clients (record m { wol_being_sent = true })
            h)).complete;
  }

  enter_restoration-Complete :
      (percent : ℕ) (m : Monitor) → IsComplete m.tracker → Complete (enter_restoration p percent m)
  unfolding enter_restoration
  enter_restoration-Complete percent m h =
      pair_if (is_unset m.restoration_start) (record { complete = h }) (record { complete = h })

  restore_clients-Complete :
      (percent start : ℕ) (m : Monitor)
      → IsComplete m.tracker
      → Complete (restore_clients p percent start m)
  unfolding restore_clients
  restore_clients-Complete percent start m h =
      pair_if (ltb percent m.config.wake_on.min_battery_percent) (record { complete = h })
        (pair_if (ltb p.checked_at (start + m.config.wake_on.restore_delay_sec * microseconds))
          (record { complete = h }) (wake_round-Complete start m h))

  pub restored-IsComplete :
      (percent : ℕ) (m : Monitor)
      → IsComplete m.tracker
      → IsComplete (power_restored_round p percent m).0.tracker
  unfolding power_restored_round
  restored-IsComplete percent m h =
      let m' = (enter_restoration p percent m).0 in
      (restore_clients-Complete percent (get_or m'.restoration_start 0) m'
        (enter_restoration-Complete percent m h).complete).complete

  pub idle-IsComplete : (m : Monitor) → IsComplete m.tracker → IsComplete (power_idle m).tracker
  unfolding power_idle
  idle-IsComplete m h =
      set_ups_on_battery-IsComplete false 100 "" (reset m.tracker) (reset-IsComplete m.tracker h)
