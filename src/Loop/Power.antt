-- ===== src/Loop/Power.antt =====
-- wolnut/cli.py: the three branches of `main` on the power status, the loss, the restoration and the idle
-- line.
use wolnut_webui.Common.{
  ℕ, ◌+◌, ◌*◌, Bool, true, false, ◌||◌, Option, none, some, List, [], ◌∷◌, ◌++◌, ltb, ◌==◌, get_or,
  if◌then◌else◌, Result, ok, err,
}
use wolnut_webui.Common.Text.{◌^◌, show}
use wolnut_webui.State.{
  microseconds, Tracker, KeyError, key_error, mark_all_online_clients, begin_outage, reset,
  set_ups_on_battery,
}
use wolnut_webui.Notifications.{power_loss, power_restored}
use wolnut_webui.Effects.{Effect, notify, missing_key}
use wolnut_webui.Shutdown.Snapshot.{Mode, UpsSnapshot}
use wolnut_webui.Shutdown.Coordinator.{Step, process_on_battery}
use wolnut_webui.Loop.World.{Monitor, Poll, Outcome, after}
use wolnut_webui.Loop.Wake.{wake_round}

-- A call on the tracker that may raise KeyError.
abbrev pub on_tracker : Result KeyError Tracker → Monitor → Outcome
on_tracker (ok t) m = ok (record m { tracker = t }, [])
on_tracker (err (key_error k)) m = err (missing_key k)

-- A step of the shutdown coordinator.
abbrev pub on_step : Step → Monitor → Outcome
on_step (ok (t, es)) m = ok (record m { tracker = t }, es)
on_step (err e) m = err e

abbrev pub loss_notice : ℕ → Effect
loss_notice percent =
    notify power_loss "UPS switched to battery power" ("Battery charge is " ^ show percent ^ "%.")

abbrev pub restored_notice : ℕ → Effect
restored_notice percent =
    notify power_restored "Power restored"
      ("UPS is back online with " ^ show percent ^ "% battery.")

-- The first part of the loss: the flags, the tracker and the notice.
unfoldable pub enter_outage : Poll → ℕ → Monitor → Outcome
enter_outage p percent m =
    let begin = λ (t : Tracker). begin_outage percent p.fresh t in
    if m.on_battery
    then ok (record m { tracker = begin m.tracker }, [])
    else elim (mark_all_online_clients m.tracker) [
      | ok t ↦ ok (record m { tracker = begin t }, loss_notice percent ∷ [])
      | err e ↦ on_tracker (err e) m
    ]

abbrev pub on_loss : Monitor → Monitor
on_loss m = record m { on_battery = true; restoration_event = false; restoration_start = none }

abbrev pub serve_outage : Poll → ℕ → Monitor → Outcome
serve_outage p percent m =
    on_step (process_on_battery m.config percent p.shutdown_env m.tracker) (on_loss m)

abbrev pub then_serve : Poll → ℕ → Outcome → Outcome
then_serve p percent (ok (m, es)) = after es (serve_outage p percent m)
then_serve p percent (err e) = err e

unfoldable pub power_lost : Poll → ℕ → Monitor → Outcome
unfolding enter_outage
power_lost p percent m = then_serve p percent (enter_outage p percent m)

-- `not restoration_event_start`: None, or the time 0.
abbrev pub is_unset : Option ℕ → Bool
is_unset none = true
is_unset (some s) = s == 0

-- The start of the restoration: noted and announced once.
unfoldable pub enter_restoration : Poll → ℕ → Monitor → Monitor × List Effect
enter_restoration p percent m =
    if is_unset m.restoration_start
    then (
      record m {
        on_battery = false;
        restoration_event = true;
        restoration_start = some p.restored_at;
      },
      restored_notice percent ∷ [],
    )
    else (record m { on_battery = false; restoration_event = true }, [])

-- The waits for the battery and for the delay, then the clients.
unfoldable pub restore_clients : Poll → ℕ → ℕ → Monitor → Monitor × List Effect
restore_clients p percent start m =
    if ltb percent m.config.wake_on.min_battery_percent
    then (m, [])
    else if ltb p.checked_at (start + m.config.wake_on.restore_delay_sec * microseconds)
    then (m, [])
    else wake_round p start m

unfoldable pub power_restored_round : Poll → ℕ → Monitor → Monitor × List Effect
power_restored_round p percent m =
    let (m', es) = enter_restoration p percent m in
    let (m'', fs) = restore_clients p percent (get_or m'.restoration_start 0) m' in (m'', es ++ fs)

-- No outage and no restoration.
unfoldable pub power_idle : Monitor → Monitor
power_idle m = record m {
  tracker = set_ups_on_battery false 100 "" (reset m.tracker);
  recorded_down = [];
  recorded_up = [];
  reported_failures = [];
}

unfoldable pub on_mode : Poll → Mode → ℕ → Monitor → Outcome
on_mode p Mode.on_battery percent m = power_lost p percent m
on_mode p Mode.on_line percent m =
    if m.on_battery || m.restoration_event
    then ok (power_restored_round p percent m)
    else ok (power_idle m, [])

unfoldable pub on_power : Poll → UpsSnapshot → Monitor → Outcome
unfolding on_mode
on_power p s m = on_mode p s.mode s.battery_percent m
