-- ===== src/Loop/Due.antt =====
-- wolnut/cli.py: when wake packets go out in a round with power back.
use wolnut_webui.Common.{
  ℕ, ◌+◌, ◌*◌, ◌≤◌, Bool, true, false, some, List, [], ◌∷◌, refl, inl, inr, ltb, get_or,
  if◌then◌else◌, arith, Bool-cases,
}
use wolnut_webui.State.{microseconds}
use wolnut_webui.Effects.{Effect, notify, shutdown_request, wake, All, All-append, All-map}
use wolnut_webui.Loop.World.{Monitor, Poll, is_empty}
use wolnut_webui.Loop.Wake.{finish_round, wake_round, timeout_notice, end_restoration}
use wolnut_webui.Loop.Power.{is_unset, enter_restoration, restore_clients, power_restored_round}
use wolnut_webui.Loop.Waking.{MayWake, wake_clients-IsFine}

-- A wake packet of a restoration that began at `start`, with the waits that are over.
abbrev pub WakeIsDue : Poll → ℕ → ℕ → Monitor → Effect → Type 0
WakeIsDue p percent start m (wake c sent) =
    MayWake p m.config.clients m.tracker (wake c sent)
    × (m.config.wake_on.min_battery_percent ≤ percent)
    × (start + m.config.wake_on.restore_delay_sec * microseconds ≤ p.checked_at)
WakeIsDue p percent start m (shutdown_request c payload) = ⊥
WakeIsDue p percent start m (notify event title message) = Unit

module _ (p : Poll) (percent start : ℕ) (m : Monitor) where
  finish-notices : (x : Monitor) → All (WakeIsDue p percent start m) (finish_round p start x).1
  unfolding finish_round
  finish-notices x = elim (Bool-cases (is_empty x.recorded_down)) [
    | inl e ↦ rw e tt
    | inr e ↦ rw e (
        notice (ltb (start + x.config.wake_on.client_timeout_sec * microseconds) p.waited_at)
          (end_restoration x) x)
  ]
    where
      notice :
          (b : Bool) (y z : Monitor)
          → All
              (WakeIsDue p percent start m)
              (if◌then◌else◌ {A = Monitor × List Effect} b
                (y, timeout_notice x.recorded_down ∷ [])
                (z, [])).1
      notice true y z = (tt, tt)
      notice false y z = tt

  restore-due : All (WakeIsDue p percent start m) (restore_clients p percent start m).1
  unfolding restore_clients wake_round
  restore-due = elim (Bool-cases (ltb percent m.config.wake_on.min_battery_percent)) [
    | inl e ↦ rw e tt
    | inr e ↦
        rw e
          (elim (Bool-cases
            (ltb p.checked_at (start + m.config.wake_on.restore_delay_sec * microseconds))) [
              | inl f ↦ rw f tt
              | inr f ↦ rw f (
                  All-append (WakeIsDue p percent start m) _ _
                    (All-map (MayWake p m.config.clients m.tracker) (WakeIsDue p percent start m) _
                      (λ x h. due x h (ground arith) (ground arith))
                      (wake_clients-IsFine p m.config.clients m.tracker m.config.clients
                        (record m { wol_being_sent = true }) (λ c k. k)
                        (record { online = λ _. refl; before = λ _. refl })).effects)
                    (finish-notices _))
            ])
  ]
    where
      due :
          (x : Effect)
          → MayWake p m.config.clients m.tracker x
          → m.config.wake_on.min_battery_percent ≤ percent
          → start + m.config.wake_on.restore_delay_sec * microseconds ≤ p.checked_at
          → WakeIsDue p percent start m x
      due (wake c sent) h a b = (h, a, b)
      due (shutdown_request c payload) h a b = h
      due (notify event title message) h a b = tt

-- When the restoration of this round began: as noted, or now where nothing is noted.
abbrev pub began : Poll → Monitor → ℕ
began p m = if is_unset m.restoration_start then p.restored_at else get_or m.restoration_start 0

-- In a round with power back, each wake packet goes to a configured client that is enabled, that takes
-- part in waking, that the tracker has as offline, and that was online before the outage or is to be
-- woken always; the battery has its minimum and the restore delay is over. The round sends no shutdown
-- request.
pub power_restored_round-WakeIsDue :
    (p : Poll) (percent : ℕ) (m : Monitor)
    → All (WakeIsDue p percent (began p m) m) (power_restored_round p percent m).1
unfolding power_restored_round enter_restoration
power_restored_round-WakeIsDue p percent m = elim (Bool-cases (is_unset m.restoration_start)) [
  | inl e ↦ rw e (
    tt,
    restore-due p percent p.restored_at (record m {
      on_battery = false;
      restoration_event = true;
      restoration_start = some p.restored_at;
    }),
  )
  | inr e ↦ rw e (
      restore-due p percent (get_or m.restoration_start 0)
        (record m { on_battery = false; restoration_event = true }))
]
