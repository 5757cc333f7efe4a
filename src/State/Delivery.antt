-- ===== src/State/Delivery.antt =====
-- wolnut/state.py: the life of a shutdown request, as `update`, `acknowledge_shutdown` and
-- `record_shutdown_attempt` drive it.
use wolnut_webui.Common.{
  ℕ, ◌+◌, ◌*◌, ◌≤◌, String, Bool, true, false, Option, some, ◌≡◌, ◌≢◌, ◌↔◌, bool_eq, if◌then◌else◌,
  ok, arith, eq_iff, eq_refl,
}
use wolnut_webui.Common.Dict.{lookup, contains, lookup-modify, contains-lookup}
use wolnut_webui.State.{
  microseconds, seconds, has_elapsed, ShutdownState, ClientState, Tracker, write, over_shutdown,
  attempt_fields, acknowledged_fields, observe_online, update, is_online, shutdown_state,
  should_attempt_shutdown, record_shutdown_attempt, acknowledge_shutdown,
}

-- Where a client's request stands: to be sent, accepted by the agent, or accepted and the client
-- has been seen offline since.
pub data Phase : Type 0 where
  armed accepted went_down : Phase

abbrev pub phase : ShutdownState → Phase
phase d = if d.acknowledged then if d.offline_after_ack then went_down else accepted else armed

-- The phase after a ping, by the online flag before it and the ping's answer.
abbrev pub next_phase : Bool → Bool → Phase → Phase
next_phase true false accepted = went_down
next_phase false true went_down = armed
next_phase _ _ p = p

-- One for the step that arms a request anew.
abbrev pub rearms : Bool → Bool → Phase → ℕ
rearms false true went_down = 1
rearms _ _ _ = 0

abbrev updated : String → Bool → Bool → Tracker → Tracker
updated name was online t =
    if bool_eq was online then t else write name (observe_online was online) t

lookup-updated :
    (name : String) (was online : Bool) (t : Tracker) (s : ClientState)
    → lookup name t.clients ≡ some s
    → lookup name (updated name was online t).clients
      ≡ some (if bool_eq was online then s else observe_online was online s)
lookup-updated name was online t s e =
    ground (arith, lookup-modify name name (observe_online was online) t.clients, eq_refl name)

observe-phase :
    (was online : Bool) (s : ClientState)
    → let d = (if bool_eq was online then s else observe_online was online s).shutdown in
      (phase d ≡ next_phase was online (phase s.shutdown))
      × (d.delivery_sequence ≡ s.shutdown.delivery_sequence + rearms was online (phase s.shutdown))
unfolding observe_online
observe-phase was online s = ground arith

shutdown_state-lookup :
    (name : String) (t : Tracker) (s : ClientState)
    → lookup name t.clients ≡ some s
    → shutdown_state name t ≡ s.shutdown
unfolding shutdown_state
shutdown_state-lookup name t s e = ground arith

update_eq :
    (name : String) (was online : Bool) (t : Tracker) (s : ClientState)
    → lookup name t.clients ≡ some s
    → s.is_online ≡ some was
    → update name online t ≡ ok (updated name was online t)
unfolding update
update_eq name was online t s e f = ground arith

is_online-updated :
    (name : String) (was online : Bool) (t : Tracker) (s : ClientState)
    → lookup name t.clients ≡ some s
    → s.is_online ≡ some was
    → is_online name (updated name was online t) ≡ online
unfolding is_online observe_online
is_online-updated name was online t s e f = ground (arith, lookup-updated name was online t s e)

lookup-updated_ne :
    (name other : String) (was online : Bool) (t : Tracker)
    → name ≢ other
    → lookup other (updated name was online t).clients ≡ lookup other t.clients
lookup-updated_ne name other was online t n =
    ground
      (arith, lookup-modify name other (observe_online was online) t.clients, eq_iff name other)

-- `update` moves a tracked client's request through its phases, raises the delivery sequence exactly
-- where it arms the request anew, records the ping's answer, and leaves the other clients alone.
pub update-phase :
    (name : String) (was online : Bool) (t : Tracker) (s : ClientState)
    → lookup name t.clients ≡ some s
    → s.is_online ≡ some was
    → (t' : Tracker) × (update name online t ≡ ok t')
      × (phase (shutdown_state name t') ≡ next_phase was online (phase s.shutdown))
      × ((shutdown_state name t').delivery_sequence
          ≡ s.shutdown.delivery_sequence + rearms was online (phase s.shutdown))
      × (is_online name t' ≡ online)
      × ((other : String) → name ≢ other → lookup other t'.clients ≡ lookup other t.clients)
update-phase name was online t s e f =
    let found = lookup-updated name was online t s e in
    let (p, q) = observe-phase was online s in
    (
      updated name was online t,
      update_eq name was online t s e f,
      rw (shutdown_state-lookup name (updated name was online t) _ found) p,
      rw (shutdown_state-lookup name (updated name was online t) _ found) q,
      is_online-updated name was online t s e f,
      λ other n. lookup-updated_ne name other was online t n,
    )

-- After an accepted request is recorded, a tracked client is due for no other, at any time and with
-- any delay.
pub acknowledge_blocks :
    (name : String) (now later delay : ℕ) (t : Tracker)
    → contains name t.clients ≡ true
    → should_attempt_shutdown name delay later (acknowledge_shutdown name now t) ≡ false
unfolding should_attempt_shutdown acknowledge_shutdown
acknowledge_blocks name now later delay t h = ground (
  arith,
  contains-lookup name t.clients,
  lookup-modify name name (over_shutdown (acknowledged_fields now)) t.clients,
  eq_refl name,
)

-- After an attempt is recorded for a tracked client, the next is due exactly when the client had not
-- acknowledged and the clock has passed the second of the attempt by the delay.
pub record_attempt-due :
    (name command : String) (percent : ℕ) (source : String) (error : Option String)
    (now later delay : ℕ) (t : Tracker)
    → contains name t.clients ≡ true
    → let t' = record_shutdown_attempt name command percent source error now t in
      (should_attempt_shutdown name delay later t' ≡ true) ↔ (
        ((shutdown_state name t).acknowledged ≡ false)
        × ((seconds now + delay) * microseconds ≤ later))
unfolding should_attempt_shutdown record_shutdown_attempt has_elapsed
record_attempt-due name command percent source error now later delay t h = ground (
  arith,
  contains-lookup name t.clients,
  lookup-modify name name (over_shutdown (attempt_fields command percent source error now))
      t.clients,
  eq_refl name,
)
