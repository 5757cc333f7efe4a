-- ===== src/State/Outage.antt =====
-- wolnut/state.py: what the start and the end of an outage do to the tracker: `begin_outage`,
-- `mark_all_online_clients` and `reset`.
use wolnut_webui.Common.{
  ℕ, String, Bool, true, false, not, ◌&&◌, Option, none, some, [], ◌∷◌, ◌≡◌, is_set, if◌then◌else◌,
  ok, arith, Result-cases, inl, inr,
}
use mathlib.Core.Option
use wolnut_webui.Common.Dict.{Dict, lookup, lookup-map_values}
use wolnut_webui.State.{
  new_shutdown_state, ClientState, Tracker, rearm, reset_client, set_ups_on_battery, begin_outage,
  shutdown_state, mark_online, mark_all_online_clients, is_online, was_online_before_shutdown,
  has_been_wol_sent, should_skip, reset, should_attempt_wol, AgentUpdateState,
}

-- set_ups_on_battery writes the flag and the percentage, draws an id only on battery and where none is
-- set, and leaves the clients alone.
pub set_ups_on_battery_lem :
    (on : Bool) (percent : ℕ) (fresh : String) (t : Tracker)
    → (set_ups_on_battery on percent fresh t).meta ≡ record {
      ups_on_battery = on;
      battery_percent_at_shutdown = percent;
      outage_id = if on && not (is_set t.meta.outage_id) then some fresh else t.meta.outage_id;
    }
unfolding set_ups_on_battery
set_ups_on_battery_lem on percent fresh t = ground arith

clients-set_ups_on_battery :
    (on : Bool) (percent : ℕ) (fresh : String) (t : Tracker)
    → (set_ups_on_battery on percent fresh t).clients ≡ t.clients
unfolding set_ups_on_battery
clients-set_ups_on_battery on percent fresh t = ground arith

shutdown_state-begin_outage :
    (percent : ℕ) (fresh name : String) (t : Tracker)
    → shutdown_state name (begin_outage percent fresh t)
      ≡ (if t.meta.ups_on_battery then shutdown_state name t else new_shutdown_state)
unfolding begin_outage shutdown_state
shutdown_state-begin_outage percent fresh name t =
    ground (arith, lookup-map_values name rearm t.clients)

-- `begin_outage` puts the UPS on battery at the percentage. On a tracker that is not on battery it
-- takes the fresh id and arms every client's shutdown request; on one that is, it keeps an id that is
-- set, and every request.
pub begin_outage_lem :
    (percent : ℕ) (fresh : String) (t : Tracker)
    → let t' = begin_outage percent fresh t in
      (t'.meta.ups_on_battery ≡ true)
      × (t'.meta.battery_percent_at_shutdown ≡ percent)
      × (t'.meta.outage_id ≡ (
          if t.meta.ups_on_battery && is_set t.meta.outage_id
          then t.meta.outage_id
          else some fresh))
      × ((name : String)
          → shutdown_state name t'
            ≡ (if t.meta.ups_on_battery then shutdown_state name t else new_shutdown_state))
unfolding begin_outage
begin_outage_lem percent fresh t = (
  ground arith,
  ground arith,
  ground arith,
  λ name. shutdown_state-begin_outage percent fresh name t,
)

abbrev marked : ClientState → ClientState
marked s = record s { was_online_before_battery = s.is_online }

lookup-mark_online :
    (name : String) (d d' : Dict ClientState)
    → mark_online d ≡ ok d'
    → lookup name d' ≡ Option.map marked (lookup name d)
unfolding mark_online lookup
lookup-mark_online name [] d' e = ground arith
lookup-mark_online name ((j, s) ∷ d) d' e = elim (Result-cases (mark_online d)) [
  | inl (r, f) ↦ ground (arith, lookup-mark_online name d r f)
  | inr (x, f) ↦ ground arith
]

-- What is kept of a client's updates.
abbrev pub update_state : String → Tracker → Option AgentUpdateState
update_state name t = Option.map (λ s. s.agent_update) (lookup name t.clients)

-- Where `mark_all_online_clients` returns, each client was online before the outage exactly if it is
-- online now. All else that is kept of it stays: whether it is online or skipped, its wake packets, its
-- shutdown request and its agent's updates; and so does the state of the UPS.
pub mark_all_online_lem :
    (t t' : Tracker)
    → mark_all_online_clients t ≡ ok t'
    → (t'.meta ≡ t.meta)
      × ((name : String)
          → (was_online_before_shutdown name t' ≡ is_online name t)
            × (is_online name t' ≡ is_online name t)
            × (should_skip name t' ≡ should_skip name t)
            × (has_been_wol_sent name t' ≡ has_been_wol_sent name t)
            × ((delay now : ℕ)
                → should_attempt_wol name delay now t' ≡ should_attempt_wol name delay now t)
            × (shutdown_state name t' ≡ shutdown_state name t)
            × (update_state name t' ≡ update_state name t))
unfolding mark_all_online_clients was_online_before_shutdown is_online shutdown_state should_skip
    has_been_wol_sent should_attempt_wol
mark_all_online_lem t t' e = elim (Result-cases (mark_online t.clients)) [
  | inl (d, f) ↦ (
    ground arith,
    λ name.
        let same = lookup-mark_online name t.clients d f in
        (
          ground (arith, same),
          ground (arith, same),
          ground (arith, same),
          ground (arith, same),
          λ delay now. ground (arith, same),
          ground (arith, same),
          ground (arith, same),
        ),
  )
  | inr (x, f) ↦ absurd (ground arith)
]

-- `reset` ends the outage: no client counts as online before it, woken or skipped, the UPS is not on
-- battery, at 100 percent and without an outage id; the online flags and the shutdown requests stay.
reset_lem :
    (t : Tracker)
    → ((reset t).meta
        ≡ record { ups_on_battery = false; battery_percent_at_shutdown = 100; outage_id = none })
      × ((name : String)
          → (was_online_before_shutdown name (reset t) ≡ false)
            × (has_been_wol_sent name (reset t) ≡ false)
            × (should_skip name (reset t) ≡ false)
            × (is_online name (reset t) ≡ is_online name t)
            × (shutdown_state name (reset t) ≡ shutdown_state name t))
unfolding reset was_online_before_shutdown has_been_wol_sent is_online shutdown_state should_skip
reset_lem t = (ground arith, λ name. ground (arith, lookup-map_values name reset_client t.clients))
