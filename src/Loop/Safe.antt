-- ===== src/Loop/Safe.antt =====
-- wolnut/cli.py: a round of the monitor raises no exception from a complete tracker, and leaves one.
use wolnut_webui.Common.{
  ℕ, Bool, true, false, not, ◌&&◌, ◌||◌, Option, none, some, List, [], ◌∷◌, ◌≡◌, ◌≢◌, refl, sym,
  if◌then◌else◌, Result, ok, err, get_or, ◌==◌,
}
use wolnut_webui.Common.Dict.{Dict, insert, lookup}
use wolnut_webui.Common.Value.{Value, null, bool, int, neg, real, str, arr, obj, is_true}
use mathlib.Core.Path.{subst}
use wolnut_webui.Config.{ClientConfig}
use wolnut_webui.State.{Tracker, KeyError, update}
use wolnut_webui.State.Invariant.{
  IsComplete, ReturnsComplete, update-ReturnsComplete, mark_all-ReturnsComplete,
  begin_outage-IsComplete, sync_clients-IsComplete, observe_agent_update-IsComplete,
}
use wolnut_webui.State.Save.{clients-save_state}
use wolnut_webui.Agent.{AgentFailure, agent_error, Uncaught, uncaught, status}
use wolnut_webui.Agent.Identity.{Decodes, status-Decodes}
use wolnut_webui.Effects.{Effect}
use wolnut_webui.Shutdown.Snapshot.{UpsSnapshot, Mode, parse_ups_snapshot}
use wolnut_webui.Shutdown.Outcomes.{process_on_battery-IsComplete}
use wolnut_webui.Shutdown.Total.{process_on_battery-Returns}
use wolnut_webui.Loop.World.{
  Number, whole, no_number, infinite, Monitor, Poll, Reload, raised, failed, loaded, Outcome, after,
  chain,
}
use wolnut_webui.Loop.Power.{
  on_mode, enter_outage, then_serve, serve_outage, on_tracker, power_lost, on_power,
}
use wolnut_webui.Loop.Updates.{
  installed_of, int_or_zero, observe_with, observe_installed, observe_status, observe_answer,
  check_client, check_clients, poll_updates, update_is_due,
}
use wolnut_webui.Loop.Round.{
  names, reload_config, apply_reload, ping_client, ping_clients, save, close_round, with_snapshot,
  monitor_round,
}
use wolnut_webui.Loop.Complete.{restored-IsComplete, idle-IsComplete}

-- The round returns, with a complete tracker.
abbrev pub Succeeds : Outcome → Type 0
Succeeds o = (m : Monitor) × (es : List Effect) × (o ≡ ok (m, es)) × IsComplete m.tracker

-- What the agents' client raises in the round is taken: the controller's identity can be used, and the
-- connections and answers raise what `_request` takes.
abbrev pub AllDecode : Poll → Type 0
AllDecode p =
    (c : ClientConfig)
    → (((p.shutdown_env.files c).usable ≡ true) × Decodes (p.shutdown_env.exchange c))
      × (((p.update_files c).usable ≡ true) × Decodes (p.update_exchange c))

-- No status that an agent gives in the round has an infinite update time.
abbrev pub AllFinite : Poll → Type 0
AllFinite p =
    (c : ClientConfig) (result : Dict Value) (v : Value)
    → status p.shutdown_env.str_value (p.update_files c) (get_or c.shutdown.agent_id "")
        (p.update_exchange c)
      ≡ ok result
    → lookup "update_installed_at" result ≡ some v
    → p.int_value v ≢ infinite

abbrev Good : Outcome → Type 0
Good (ok (m, es)) = IsComplete m.tracker
Good (err x) = ⊥

Good-Succeeds : (o : Outcome) → Good o → Succeeds o
Good-Succeeds (ok (m, es)) h = (m, es, refl, h)
Good-Succeeds (err x) h = absurd h

Good-after : (es : List Effect) (o : Outcome) → Good o → Good (after es o)
Good-after es (ok (m, fs)) h = h
Good-after es (err x) h = h

Good-chain :
    (o : Outcome) (f : Monitor → Outcome)
    → Good o
    → ((m : Monitor) → IsComplete m.tracker → Good (f m))
    → Good (chain o f)
Good-chain (ok (m, es)) f h k = Good-after es (f m) (k m h)
Good-chain (err x) f h k = h

Good-if : (b : Bool) (o u : Outcome) → Good o → Good u → Good (if b then o else u)
Good-if true o u h k = h
Good-if false o u h k = k

on_tracker-Good :
    (r : Result KeyError Tracker) (m : Monitor) → ReturnsComplete r → Good (on_tracker r m)
on_tracker-Good (ok t) m (u, e, h) = let q : t ≡ u = cc e in rw q h
on_tracker-Good (err x) m (u, e, h) = cc

apply_reload-IsComplete :
    (r : Reload) (mtime : ℕ) (m : Monitor)
    → IsComplete m.tracker
    → IsComplete (apply_reload r mtime m).tracker
unfolding apply_reload
apply_reload-IsComplete raised mtime m h = h
apply_reload-IsComplete failed mtime m h = h
apply_reload-IsComplete (loaded config) mtime m h =
    sync_clients-IsComplete (names config.clients) m.tracker h

monitor_if :
    (b : Bool) (m n : Monitor)
    → IsComplete m.tracker
    → IsComplete n.tracker
    → IsComplete (if b then m else n).tracker
monitor_if true m n h k = h
monitor_if false m n h k = k

if_number :
    (b : Bool) (x : Number) → x ≢ infinite → (n : ℕ) × ((if b then int_or_zero x else ok 0) ≡ ok n)
if_number true (whole n) fits = (n, refl)
if_number true no_number fits = (0, refl)
if_number true infinite fits = absurd (fits refl)
if_number false x fits = (0, refl)

module _ (p : Poll) where
  reload-IsComplete : (m : Monitor) → IsComplete m.tracker → IsComplete (reload_config p m).tracker
  unfolding reload_config
  reload-IsComplete m h =
      monitor_if (not (p.mtime == m.last_mtime) && not (p.mtime == 0)) _ m
        (apply_reload-IsComplete p.reload p.mtime m h) h

  ping_client-Good :
      (c : ClientConfig) (m : Monitor) → IsComplete m.tracker → Good (ping_client p c m)
  unfolding ping_client
  ping_client-Good c m h =
      Good-if c.enabled _ _
        (on_tracker-Good (update c.name (p.ping c) m.tracker) m
          (update-ReturnsComplete c.name (p.ping c) m.tracker h))
        h

  ping_clients-Good :
      (cs : List ClientConfig) (m : Monitor) → IsComplete m.tracker → Good (ping_clients p cs m)
  unfolding ping_clients
  ping_clients-Good [] m h = h
  ping_clients-Good (c ∷ cs) m h =
      Good-chain (ping_client p c m) _ (ping_client-Good c m h)
        (λ m' h'. ping_clients-Good cs m' h')

  module _ (decodes : AllDecode p) (finite : AllFinite p) where
    serve_outage-Good :
        (percent : ℕ) (m : Monitor) → IsComplete m.tracker → Good (serve_outage p percent m)
    serve_outage-Good percent m h =
        let (t, es, e) =
          process_on_battery-Returns m.config percent p.shutdown_env m.tracker
            (λ c. (decodes c).0) in
        rw e (process_on_battery-IsComplete m.config percent p.shutdown_env m.tracker t es h e)

    then_serve-Good : (percent : ℕ) (o : Outcome) → Good o → Good (then_serve p percent o)
    then_serve-Good percent (ok (m, es)) h =
        Good-after es (serve_outage p percent m) (serve_outage-Good percent m h)
    then_serve-Good percent (err e) h = h

    enter_outage-Good :
        (percent : ℕ) (m : Monitor) → IsComplete m.tracker → Good (enter_outage p percent m)
    unfolding enter_outage
    enter_outage-Good percent m h =
        let (t, e, h') = mark_all-ReturnsComplete m.tracker h in
        Good-if m.on_battery _ _ (begin_outage-IsComplete percent p.fresh m.tracker h)
          (rw e (begin_outage-IsComplete percent p.fresh t h'))

    power_lost-Good :
        (percent : ℕ) (m : Monitor) → IsComplete m.tracker → Good (power_lost p percent m)
    unfolding power_lost
    power_lost-Good percent m h =
        then_serve-Good percent (enter_outage p percent m) (enter_outage-Good percent m h)

    on_mode-Good :
        (mode : Mode) (percent : ℕ) (m : Monitor)
        → IsComplete m.tracker
        → Good (on_mode p mode percent m)
    unfolding on_mode
    on_mode-Good Mode.on_battery percent m h = power_lost-Good percent m h
    on_mode-Good Mode.on_line percent m h =
        Good-if (m.on_battery || m.restoration_event) _ _ (restored-IsComplete p percent m h)
          (idle-IsComplete p m h)

    on_power-Good : (s : UpsSnapshot) (m : Monitor) → IsComplete m.tracker → Good (on_power p s m)
    unfolding on_power
    on_power-Good s m h = on_mode-Good s.mode s.battery_percent m h

    installed_of-Returns :
        (o : Option Value)
        → ((v : Value) → o ≡ some v → p.int_value v ≢ infinite)
        → (n : ℕ) × (installed_of p o ≡ ok n)
    unfolding installed_of
    installed_of-Returns none fits = (0, refl)
    installed_of-Returns (some (int n)) fits = (n, refl)
    installed_of-Returns (some (neg n)) fits = (0, refl)
    installed_of-Returns (some (bool true)) fits = (1, refl)
    installed_of-Returns (some (bool false)) fits = (0, refl)
    installed_of-Returns (some null) fits = (0, refl)
    installed_of-Returns (some (real x)) fits =
        if_number (is_true (real x)) (p.int_value (real x)) (fits (real x) refl)
    installed_of-Returns (some (str x)) fits =
        if_number (is_true (str x)) (p.int_value (str x)) (fits (str x) refl)
    installed_of-Returns (some (arr x)) fits =
        if_number (is_true (arr x)) (p.int_value (arr x)) (fits (arr x) refl)
    installed_of-Returns (some (obj x)) fits =
        if_number (is_true (obj x)) (p.int_value (obj x)) (fits (obj x) refl)

    observe_answer-Good :
        (c : ClientConfig) (answer : Result AgentFailure (Dict Value)) (m : Monitor)
        → ((u : Uncaught) → answer ≢ err (uncaught u))
        → ((result : Dict Value) (v : Value)
            → answer ≡ ok result
            → lookup "update_installed_at" result ≡ some v
            → p.int_value v ≢ infinite)
        → IsComplete m.tracker
        → Good (observe_answer p c answer m)
    unfolding observe_answer observe_status observe_installed
    observe_answer-Good c (ok result) m n fits h =
        let (installed, e) =
          installed_of-Returns (lookup "update_installed_at" result) (λ v. fits result v refl) in
        subst (λ r. Good (observe_with p c result r m)) (sym e)
          (observe_agent_update-IsComplete c.name _ _ _ _ m.tracker h)
    observe_answer-Good c (err (agent_error e)) m n fits h = h
    observe_answer-Good c (err (uncaught u)) m n fits h = absurd (n u refl)

    check_clients-Good :
        (cs : List ClientConfig) (m : Monitor) → IsComplete m.tracker → Good (check_clients p cs m)
    unfolding check_clients check_client
    check_clients-Good [] m h = h
    check_clients-Good (c ∷ cs) m h =
        Good-chain (check_client p c m) _
          (Good-if (update_is_due p c m) _ _
            (observe_answer-Good c _
              (record m { last_checked = insert c.name p.update_at m.last_checked })
              (status-Decodes p.shutdown_env.str_value (p.update_files c)
                (get_or c.shutdown.agent_id "") (p.update_exchange c) (decodes c).1.1
                (decodes c).1.0)
              (finite c) h)
            h)
          (λ m' h'. check_clients-Good cs m' h')

    close_round-Good : (m : Monitor) → IsComplete m.tracker → Good (close_round p m)
    unfolding close_round poll_updates save
    close_round-Good m h =
        Good-chain (poll_updates p m) _
          (Good-if m.config.notifications.events.agent_update_succeeded _ _
            (check_clients-Good m.config.clients m h) h)
          (λ m' h'. rw (clients-save_state p.dumps p.md5 p.disk m'.tracker m'.file) h')

    with_snapshot-Good :
        (o : Option UpsSnapshot) (m : Monitor) → IsComplete m.tracker → Good (with_snapshot p o m)
    unfolding with_snapshot
    with_snapshot-Good none m h = close_round-Good m h
    with_snapshot-Good (some s) m h =
        Good-chain (ping_clients p m.config.clients m) _ (ping_clients-Good m.config.clients m h)
          (λ m1 h1.
            Good-chain (on_power p s m1) _ (on_power-Good s m1 h1)
              (λ m2 h2. close_round-Good m2 h2))

-- From a tracker whose entries all have their "is_online" key, where the controller's identity can be used,
-- every exception that a connection to an agent or the decoding of its answer raises is one that `_request`
-- takes, and no agent's status has an infinite update time, a round raises no exception and leaves a
-- tracker of that kind.
pub monitor_round-Succeeds :
    (p : Poll) (m : Monitor)
    → AllDecode p
    → AllFinite p
    → IsComplete m.tracker
    → Succeeds (monitor_round p m)
unfolding monitor_round
monitor_round-Succeeds p m decodes finite h = Good-Succeeds (monitor_round p m) (
    with_snapshot-Good p decodes finite (parse_ups_snapshot p.round_float p.status)
      (reload_config p m) (reload-IsComplete p m h))
