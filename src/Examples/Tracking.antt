-- ===== src/Examples/Tracking.antt =====
-- wolnut/state.py, wolnut/shutdown.py: one outage, tried.
use wolnut_webui.Common.{ℕ, String, true, false, some, ◌≡◌, ◌≢◌, ◌↔◌, refl, ok, ◌+◌, ◌*◌, ◌≤◌}
use wolnut_webui.Common.Dict.{lookup, contains}
use wolnut_webui.State.{
  microseconds, seconds, ClientState, new_shutdown_state, Tracker, update, is_online,
  shutdown_state, should_attempt_shutdown, record_shutdown_attempt, acknowledge_shutdown,
  begin_outage, mark_all_online_clients, mark_online, was_online_before_shutdown, should_skip,
  has_been_wol_sent, should_attempt_wol,
}
use wolnut_webui.State.Delivery.{
  phase, next_phase, rearms, went_down, update-phase, acknowledge_blocks, record_attempt-due,
}
use wolnut_webui.State.Outage.{begin_outage_lem, update_state, mark_all_online_lem}
use wolnut_webui.Examples.{up, tracker, on_line, in_outage}

-- Accepted, and seen offline since.
abbrev down : ClientState
down = record up {
  is_online = some false;
  shutdown = record new_shutdown_state {
    acknowledged = true;
    offline_after_ack = true;
    delivery_sequence = 1;
  };
}

abbrev t0 : Tracker
t0 = tracker down in_outage

update-phase_example :
    (t' : Tracker) × (update "nas" true t0 ≡ ok t')
    × (phase (shutdown_state "nas" t') ≡ next_phase false true went_down)
    × ((shutdown_state "nas" t').delivery_sequence ≡ 1 + rearms false true went_down)
    × (is_online "nas" t' ≡ true)
    × ((other : String) → "nas" ≢ other → lookup other t'.clients ≡ lookup other t0.clients)
unfolding lookup
update-phase_example = update-phase "nas" false true t0 down refl refl

acknowledge_blocks_example :
    should_attempt_shutdown "nas" 10 900000000
      (acknowledge_shutdown "nas" 100000000 (tracker up in_outage))
    ≡ false
unfolding contains
acknowledge_blocks_example =
    acknowledge_blocks "nas" 100000000 900000000 10 (tracker up in_outage) refl

record_attempt-due_example :
    let t' =
      record_shutdown_attempt "nas" "o1:nas:0" 30 "automatic"
        (some "timed out")
        101500000
        (tracker up in_outage) in
    (should_attempt_shutdown "nas" 10 111000000 t' ≡ true) ↔ (
      ((shutdown_state "nas" (tracker up in_outage)).acknowledged ≡ false)
      × ((seconds 101500000 + 10) * microseconds ≤ 111000000))
unfolding contains
record_attempt-due_example =
    record_attempt-due "nas" "o1:nas:0" 30 "automatic" (some "timed out") 101500000 111000000 10
      (tracker up in_outage) refl

begin_outage_example :
    let t' = begin_outage 60 "o2" t0 in
    (t'.meta.ups_on_battery ≡ true)
    × (t'.meta.battery_percent_at_shutdown ≡ 60)
    × (t'.meta.outage_id ≡ some "o1")
    × ((name : String) → shutdown_state name t' ≡ shutdown_state name t0)
begin_outage_example = begin_outage_lem 60 "o2" t0

mark_all_online_example :
    let t' = tracker (record up { was_online_before_battery = some true }) on_line in
    let t = tracker up on_line in
    (t'.meta ≡ t.meta)
    × ((name : String)
        → (was_online_before_shutdown name t' ≡ is_online name t)
          × (is_online name t' ≡ is_online name t)
          × (should_skip name t' ≡ should_skip name t)
          × (has_been_wol_sent name t' ≡ has_been_wol_sent name t)
          × ((delay now : ℕ)
              → should_attempt_wol name delay now t' ≡ should_attempt_wol name delay now t)
          × (shutdown_state name t' ≡ shutdown_state name t)
          × (update_state name t' ≡ update_state name t))
unfolding mark_all_online_clients mark_online
mark_all_online_example =
    mark_all_online_lem (tracker up on_line)
      (tracker (record up { was_online_before_battery = some true }) on_line) refl
