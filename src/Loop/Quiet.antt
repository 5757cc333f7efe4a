-- ===== src/Loop/Quiet.antt =====
-- wolnut/cli.py: which of its three kinds of effect a round may have, by what the UPS says.
use wolnut_webui.Common.{
  ℕ, String, Bool, true, false, ◌||◌, Option, none, some, List, [], ◌∷◌, inl, inr, if◌then◌else◌,
  Result, ok, err, Result-cases,
}
use wolnut_webui.Common.Dict.{lookup, Dict}
use wolnut_webui.Common.Value.{Value}
use wolnut_webui.Config.{ClientConfig}
use wolnut_webui.State.{Tracker, KeyError, key_error, mark_all_online_clients, update}
use wolnut_webui.Agent.{AgentFailure, agent_error, uncaught}
use wolnut_webui.Notifications.{Event}
use wolnut_webui.Effects.{
  Crash, Effect, notify, shutdown_request, wake, All, All-append, All-map, IsNotice, NoWake,
  NoShutdown,
}
use wolnut_webui.Shutdown.Snapshot.{Mode, UpsSnapshot, parse_ups_snapshot}
use wolnut_webui.Shutdown.Coordinator.{process_on_battery}
use wolnut_webui.Shutdown.Requests.{IsJustified, process_on_battery-IsJustified}
use wolnut_webui.Loop.World.{Monitor, Poll, Outcome, after, chain}
use wolnut_webui.Loop.Power.{
  on_tracker, enter_outage, serve_outage, then_serve, power_lost, on_mode, on_power,
}
use wolnut_webui.Loop.Updates.{
  update_is_due, installed_of, observe_installed, observe_with, observe_status, observe_answer,
  check_client, check_clients, poll_updates,
}
use wolnut_webui.Loop.Due.{WakeIsDue, began, power_restored_round-WakeIsDue}
use wolnut_webui.Loop.Round.{
  reload_config, ping_client, ping_clients, close_round, with_snapshot, monitor_round,
}

-- Where the round returns, every effect has the property.
abbrev pub Does {κ} : (Effect → Type κ) → Outcome → Type κ
Does P (ok (m, es)) = All P es
Does P (err e) = Unit

abbrev pub AllowedIn : Mode → Effect → Type 0
AllowedIn Mode.on_battery e = NoWake e
AllowedIn Mode.on_line e = NoShutdown e

-- No snapshot: notices only. On battery: no wake packet. On the line: no shutdown request.
abbrev pub Allowed : Option UpsSnapshot → Effect → Type 0
Allowed none e = IsNotice e
Allowed (some s) e = AllowedIn s.mode e

module _ {κ} (P : Effect → Type κ) where
  Does-after : (es : List Effect) (o : Outcome) → All P es → Does P o → Does P (after es o)
  Does-after es (ok (m, fs)) h k = All-append P es fs h k
  Does-after es (err e) h k = tt

  Does-chain :
      (o : Outcome) (f : Monitor → Outcome)
      → Does P o
      → ((m : Monitor) → Does P (f m))
      → Does P (chain o f)
  Does-chain (ok (m, es)) f h next = Does-after es (f m) h (next m)
  Does-chain (err e) f h next = tt

  Does-if : (b : Bool) (x y : Outcome) → Does P x → Does P y → Does P (if b then x else y)
  Does-if true x y h k = h
  Does-if false x y h k = k

  Does-on_tracker : (r : Result KeyError Tracker) (m : Monitor) → Does P (on_tracker r m)
  Does-on_tracker (ok t) m = tt
  Does-on_tracker (err (key_error k)) m = tt

  module _ (notices : (event : Event) (title message : String) → P (notify event title message))
      (p : Poll) where
    ping_clients-Does : (cs : List ClientConfig) (m : Monitor) → Does P (ping_clients p cs m)
    unfolding ping_clients ping_client
    ping_clients-Does [] m = tt
    ping_clients-Does (c ∷ cs) m =
        Does-chain (ping_client p c m) _
          (Does-if c.enabled _ _ (Does-on_tracker (update c.name (p.ping c) m.tracker) m) tt)
          (λ m'. ping_clients-Does cs m')

    one_or_none :
        (b : Bool) (event : Event) (title message : String)
        → All P (if b then notify event title message ∷ [] else [])
    one_or_none true event title message = (notices event title message, tt)
    one_or_none false event title message = tt

    observe_with-Does :
        (c : ClientConfig) (result : Dict Value) (r : Result Crash ℕ) (m : Monitor)
        → Does P (observe_with p c result r m)
    unfolding observe_installed
    observe_with-Does c result (ok installed) m = one_or_none _ _ _ _
    observe_with-Does c result (err e) m = tt

    observe_answer-Does :
        (c : ClientConfig) (r : Result AgentFailure (Dict Value)) (m : Monitor)
        → Does P (observe_answer p c r m)
    unfolding observe_answer observe_status
    observe_answer-Does c (ok result) m =
        observe_with-Does c result (installed_of p (lookup "update_installed_at" result)) m
    observe_answer-Does c (err (agent_error e)) m = tt
    observe_answer-Does c (err (uncaught u)) m = tt

    check_clients-Does : (cs : List ClientConfig) (m : Monitor) → Does P (check_clients p cs m)
    unfolding check_clients check_client
    check_clients-Does [] m = tt
    check_clients-Does (c ∷ cs) m =
        Does-chain (check_client p c m) _
          (Does-if (update_is_due p c m) _ _ (observe_answer-Does c _ _) tt)
          (λ m'. check_clients-Does cs m')

    close_round-Does : (m : Monitor) → Does P (close_round p m)
    unfolding close_round poll_updates
    close_round-Does m =
        Does-chain (poll_updates p m) _
          (Does-if m.config.notifications.events.agent_update_succeeded _ _
            (check_clients-Does m.config.clients m) tt)
          (λ m'. tt)

    around-Does :
        (s : UpsSnapshot) (m : Monitor)
        → ((m' : Monitor) → Does P (on_power p s m'))
        → Does P (with_snapshot p (some s) m)
    unfolding with_snapshot
    around-Does s m core =
        Does-chain (ping_clients p m.config.clients m) _ (ping_clients-Does m.config.clients m)
          (λ m1. Does-chain (on_power p s m1) _ (core m1) (λ m2. close_round-Does m2))

module _ (p : Poll) (percent : ℕ) where
  no_wake : (m : Monitor) (e : Effect) → IsJustified m.config percent p.shutdown_env e → NoWake e
  no_wake m (notify event title message) h = tt
  no_wake m (shutdown_request c payload) h = tt
  no_wake m (wake c sent) h = absurd h

  serve_outage-NoWake : (m : Monitor) → Does NoWake (serve_outage p percent m)
  serve_outage-NoWake m =
      elim (Result-cases (process_on_battery m.config percent p.shutdown_env m.tracker)) [
        | inl ((t, es), e) ↦ rw e (
            All-map (IsJustified m.config percent p.shutdown_env) NoWake es (no_wake m)
              (process_on_battery-IsJustified m.config percent p.shutdown_env m.tracker t es e))
        | inr (x, e) ↦ rw e tt
      ]

  then_serve-NoWake : (o : Outcome) → Does NoWake o → Does NoWake (then_serve p percent o)
  then_serve-NoWake (ok (m, es)) h = Does-after NoWake es _ h (serve_outage-NoWake m)
  then_serve-NoWake (err e) h = tt

  enter_outage-NoWake : (m : Monitor) → Does NoWake (enter_outage p percent m)
  unfolding enter_outage
  enter_outage-NoWake m = elim (Result-cases (mark_all_online_clients m.tracker)) [
    | inl (t, e) ↦ rw e (Does-if NoWake m.on_battery _ _ tt (tt, tt))
    | inr (key_error k, e) ↦ rw e (Does-if NoWake m.on_battery _ _ tt tt)
  ]

  power_lost-NoWake : (m : Monitor) → Does NoWake (power_lost p percent m)
  unfolding power_lost
  power_lost-NoWake m = then_serve-NoWake (enter_outage p percent m) (enter_outage-NoWake m)

  no_shutdown :
      (m : Monitor) (start : ℕ) (e : Effect) → WakeIsDue p percent start m e → NoShutdown e
  no_shutdown m start (notify event title message) h = tt
  no_shutdown m start (shutdown_request c payload) h = absurd h
  no_shutdown m start (wake c sent) h = tt

  on_line-NoShutdown : (m : Monitor) → Does NoShutdown (on_mode p Mode.on_line percent m)
  unfolding on_mode
  on_line-NoShutdown m =
      Does-if NoShutdown (m.on_battery || m.restoration_event) _ _
        (All-map (WakeIsDue p percent (began p m) m) NoShutdown _ (no_shutdown m (began p m))
          (power_restored_round-WakeIsDue p percent m))
        tt

module _ (p : Poll) where
  on_mode-AllowedIn :
      (mode : Mode) (percent : ℕ) (m : Monitor) → Does (AllowedIn mode) (on_mode p mode percent m)
  unfolding on_mode
  on_mode-AllowedIn Mode.on_battery percent m = power_lost-NoWake p percent m
  on_mode-AllowedIn Mode.on_line percent m = on_line-NoShutdown p percent m

  notify-AllowedIn :
      (mode : Mode) (event : Event) (title message : String)
      → AllowedIn mode (notify event title message)
  notify-AllowedIn Mode.on_battery event title message = tt
  notify-AllowedIn Mode.on_line event title message = tt

  with_snapshot-Allowed :
      (o : Option UpsSnapshot) (m : Monitor) → Does (Allowed o) (with_snapshot p o m)
  unfolding with_snapshot on_power
  with_snapshot-Allowed none m = close_round-Does IsNotice (λ _ _ _. tt) p m
  with_snapshot-Allowed (some s) m =
      around-Does (AllowedIn s.mode) (notify-AllowedIn s.mode) p s m
        (on_mode-AllowedIn s.mode s.battery_percent)

-- Where a round returns, its effects suit what the UPS said: notices only where there is no snapshot, no
-- wake packet on battery, and no shutdown request on the line.
pub monitor_round-Allowed :
    (p : Poll) (m : Monitor)
    → Does (Allowed (parse_ups_snapshot p.round_float p.status)) (monitor_round p m)
unfolding monitor_round
monitor_round-Allowed p m =
    with_snapshot-Allowed p (parse_ups_snapshot p.round_float p.status) (reload_config p m)
