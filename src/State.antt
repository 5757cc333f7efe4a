-- ===== src/State.antt =====
-- wolnut/state.py: `ClientStateTracker`, its records and its methods. `KeyError` is the one exception
-- that the methods raise: a client that the state file brought without a key has `none` there.
-- A clock reading is a number of microseconds; `int(time.time())` is `seconds` of it.
pub mod Load
pub mod Invariant
pub mod Writes
pub mod Delivery
pub mod Outage
pub mod Clients
pub mod Updates
pub mod Save
use wolnut_webui.Common.{
  ℕ, ◌+◌, ◌*◌, ◌/◌, String, Bool, true, false, not, ◌&&◌, ◌||◌, Option, none, some, List, [], ◌∷◌,
  ltb, leb, ◌==◌, bool_eq, str_eq, str_in, if◌then◌else◌, is_set, get_or, Result, ok, err,
}
use wolnut_webui.Common.Dict.{Dict, lookup, contains, insert, erase, modify, keys, map_values}

abbrev pub microseconds : ℕ
microseconds = 1000000

-- int(now)
unfoldable pub seconds : ℕ → ℕ
seconds now = now / microseconds

-- now - last >= delay, with `last` and `delay` in seconds
unfoldable pub has_elapsed : ℕ → ℕ → ℕ → Bool
has_elapsed now last delay = leb ((last + delay) * microseconds) now

pub record ShutdownState : Type 0 where
  pub command_id : Option String
  pub last_attempt_at : ℕ
  pub acknowledged : Bool
  pub acknowledged_at : ℕ
  pub last_error : Option String
  pub battery_percent : Option ℕ
  pub source : Option String
  pub failure_notified : Bool
  pub offline_after_ack : Bool
  pub delivery_sequence : ℕ

abbrev pub new_shutdown_state : ShutdownState
new_shutdown_state = record {
  command_id = none;
  last_attempt_at = 0;
  acknowledged = false;
  acknowledged_at = 0;
  last_error = none;
  battery_percent = none;
  source = none;
  failure_notified = false;
  offline_after_ack = false;
  delivery_sequence = 0;
}

pub record AgentUpdateState : Type 0 where
  pub initialized : Bool
  pub installed_at : ℕ
  pub version : String

abbrev pub new_agent_update_state : AgentUpdateState
new_agent_update_state = record { initialized = false; installed_at = 0; version = "" }

pub record ClientState : Type 0 where
  pub was_online_before_battery : Option Bool
  pub is_online : Option Bool
  pub wol_sent : Option Bool
  pub wol_sent_at : Option ℕ
  pub skip : Option Bool
  pub shutdown : ShutdownState
  pub agent_update : AgentUpdateState

abbrev pub new_client_state : ClientState
new_client_state = record {
  was_online_before_battery = some false;
  is_online = some false;
  wol_sent = some false;
  wol_sent_at = some 0;
  skip = some false;
  shutdown = new_shutdown_state;
  agent_update = new_agent_update_state;
}

pub record MetaState : Type 0 where
  pub ups_on_battery : Bool
  pub battery_percent_at_shutdown : ℕ
  pub outage_id : Option String

pub record Tracker : Type 0 where
  pub status_hash : Option String
  pub dirty : Bool
  pub meta : MetaState
  pub clients : Dict ClientState

-- KeyError, with the key.
pub data KeyError : Type 0 where
  key_error : String → KeyError

-- A write to one client's entry, which sets the dirty flag.
abbrev write : String → (ClientState → ClientState) → Tracker → Tracker
write name f t = record t { clients = modify name f t.clients; dirty = true }

abbrev pub over_shutdown : (ShutdownState → ShutdownState) → ClientState → ClientState
over_shutdown f s = record s { shutdown = f s.shutdown }

-- The part of `update` below its guards: the online flag changes from `was` to `online`.
unfoldable pub observe_online : Bool → Bool → ClientState → ClientState
observe_online was online s =
    if s.shutdown.acknowledged && was && not online
    then record s {
      is_online = some online;
      shutdown = record s.shutdown { offline_after_ack = true };
    }
    else if s.shutdown.acknowledged && not was && online && s.shutdown.offline_after_ack
    then record s {
      is_online = some online;
      shutdown = record new_shutdown_state { delivery_sequence = s.shutdown.delivery_sequence + 1 };
    }
    else record s { is_online = some online }

update_known : Option Bool → String → Bool → Tracker → Result KeyError Tracker
update_known none name online t = err (key_error "is_online")
update_known (some was) name online t =
    if bool_eq was online then ok t else ok (write name (observe_online was online) t)

update_entry : Option ClientState → String → Bool → Tracker → Result KeyError Tracker
unfolding update_known
update_entry none name online t = ok t
update_entry (some s) name online t = update_known s.is_online name online t

unfoldable pub update : String → Bool → Tracker → Result KeyError Tracker
unfolding update_entry
update name online t = update_entry (lookup name t.clients) name online t

unfoldable pub mark_wol_sent : String → ℕ → Tracker → Tracker
mark_wol_sent name now t =
    if contains name t.clients
    then write name (λ s. record s { wol_sent = some true; wol_sent_at = some (seconds now) }) t
    else t

-- state.get(field, default) of self._client_states.get(name, {})
abbrev read_client {ℓ} : {A : Type ℓ} → (ClientState → Option A) → A → String → Tracker → A
read_client field default name t = elim (lookup name t.clients) [
  | none ↦ default
  | some s ↦ get_or (field s) default
]

unfoldable pub should_skip : String → Tracker → Bool
should_skip name t = read_client (λ s. s.skip) false name t

unfoldable pub mark_skip : String → Tracker → Tracker
unfolding should_skip
mark_skip name t =
    if contains name t.clients && not (should_skip name t)
    then write name (λ s. record s { skip = some true }) t
    else t

unfoldable pub is_online : String → Tracker → Bool
is_online name t = read_client (λ s. s.is_online) false name t

unfoldable pub was_online_before_shutdown : String → Tracker → Bool
was_online_before_shutdown name t = read_client (λ s. s.was_online_before_battery) false name t

unfoldable pub has_been_wol_sent : String → Tracker → Bool
has_been_wol_sent name t = read_client (λ s. s.wol_sent) false name t

unfoldable pub should_attempt_wol : String → ℕ → ℕ → Tracker → Bool
should_attempt_wol name delay now t =
    has_elapsed now (read_client (λ s. s.wol_sent_at) 0 name t) delay

-- The loop of `mark_all_online_clients`, which reads state["is_online"].
unfoldable pub mark_online : Dict ClientState → Result KeyError (Dict ClientState)
mark_online [] = ok []
mark_online ((name, s) ∷ rest) =
    let marked = mark_online rest in
    elim s.is_online [
      | none ↦ err (key_error "is_online")
      | some online ↦ elim marked [
        | ok d ↦ ok ((name, record s { was_online_before_battery = some online }) ∷ d)
        | err e ↦ err e
      ]
    ]

abbrev is_empty : Dict ClientState → Bool
is_empty [] = true
is_empty (_ ∷ _) = false

unfoldable pub mark_all_online_clients : Tracker → Result KeyError Tracker
mark_all_online_clients t = elim (mark_online t.clients) [
  | ok d ↦ ok (record t { clients = d; dirty = t.dirty || not (is_empty t.clients) })
  | err e ↦ err e
]

-- The three writes of `set_ups_on_battery`, in order. `fresh` is what uuid4 returns.
abbrev set_on_battery_flag : Bool → Tracker → Tracker
set_on_battery_flag on t =
    if bool_eq t.meta.ups_on_battery on
    then t
    else record t { meta = record t.meta { ups_on_battery = on }; dirty = true }

abbrev ensure_outage_id : Bool → String → Tracker → Tracker
ensure_outage_id on fresh t =
    if on && not (is_set t.meta.outage_id)
    then record t { meta = record t.meta { outage_id = some fresh }; dirty = true }
    else t

abbrev set_battery_percent : ℕ → Tracker → Tracker
set_battery_percent percent t =
    if t.meta.battery_percent_at_shutdown == percent
    then t
    else record t { meta = record t.meta { battery_percent_at_shutdown = percent }; dirty = true }

unfoldable pub set_ups_on_battery : Bool → ℕ → String → Tracker → Tracker
set_ups_on_battery on percent fresh t =
    set_battery_percent percent (ensure_outage_id on fresh (set_on_battery_flag on t))

abbrev pub was_ups_on_battery : Tracker → Bool
was_ups_on_battery t = t.meta.ups_on_battery

abbrev pub outage_id : Tracker → Option String
outage_id t = t.meta.outage_id

abbrev rearm : ClientState → ClientState
rearm s = record s { shutdown = new_shutdown_state }

abbrev open_outage : String → Tracker → Tracker
open_outage fresh t = if was_ups_on_battery t then t else record t {
  meta = record t.meta { outage_id = some fresh };
  clients = map_values rearm t.clients;
  dirty = true;
}

-- `fresh` is the uuid of the new outage. A uuid is not empty, so `set_ups_on_battery` draws no other.
unfoldable pub begin_outage : ℕ → String → Tracker → Tracker
unfolding set_ups_on_battery
begin_outage percent fresh t = set_ups_on_battery true percent fresh (open_outage fresh t)

unfoldable pub shutdown_state : String → Tracker → ShutdownState
shutdown_state name t = elim (lookup name t.clients) [
  | none ↦ new_shutdown_state
  | some s ↦ s.shutdown
]

unfoldable pub should_attempt_shutdown : String → ℕ → ℕ → Tracker → Bool
unfolding shutdown_state
should_attempt_shutdown name delay now t =
    if (shutdown_state name t).acknowledged
    then false
    else has_elapsed now (shutdown_state name t).last_attempt_at delay

abbrev pub attempt_fields : String → ℕ → String → Option String → ℕ → ShutdownState → ShutdownState
attempt_fields command percent source error now d = record d {
  command_id = some command;
  last_attempt_at = seconds now;
  battery_percent = some percent;
  source = some source;
  last_error = error;
}

abbrev pub acknowledged_fields : ℕ → ShutdownState → ShutdownState
acknowledged_fields now d = record d {
  acknowledged = true;
  acknowledged_at = seconds now;
  last_error = none;
}

unfoldable pub record_shutdown_attempt :
    String → String → ℕ → String → Option String → ℕ → Tracker → Tracker
record_shutdown_attempt name command percent source error now t =
    if contains name t.clients
    then write name (over_shutdown (attempt_fields command percent source error now)) t
    else t

unfoldable pub acknowledge_shutdown : String → ℕ → Tracker → Tracker
acknowledge_shutdown name now t =
    if contains name t.clients then write name (over_shutdown (acknowledged_fields now)) t else t

unfoldable pub mark_shutdown_failure_notified : String → Tracker → Tracker
mark_shutdown_failure_notified name t =
    if contains name t.clients
    then write name (over_shutdown (λ d. record d { failure_notified = true })) t
    else t

-- What `observe_agent_update` writes and what it returns, for a tracked client.
unfoldable pub observe_update :
    ℕ → String → String → String → AgentUpdateState → Option AgentUpdateState × Bool
observe_update installed version source status u = (
  if not u.initialized || ltb u.installed_at installed
      then some (record { initialized = true; installed_at = installed; version = version })
      else none,
  u.initialized
      && ltb u.installed_at installed
      && ltb 0 installed
      && str_eq source "automatic"
      && str_eq status "updated",
)

unfoldable pub store_update : Option AgentUpdateState → String → Tracker → Tracker
store_update none name t = t
store_update (some u) name t = write name (λ s. record s { agent_update = u }) t

unfoldable pub observe_entry :
    Option ClientState → String → ℕ → String → String → String → Tracker → Tracker × Bool
unfolding observe_update store_update
observe_entry none name installed version source status t = (t, false)
observe_entry (some s) name installed version source status t =
    let (u, fresh) = observe_update installed version source status s.agent_update in
    (store_update u name t, fresh)

unfoldable pub observe_agent_update :
    String → ℕ → String → String → String → Tracker → Tracker × Bool
unfolding observe_entry
observe_agent_update name installed version source status t =
    observe_entry (lookup name t.clients) name installed version source status t

abbrev reset_client : ClientState → ClientState
reset_client s = record s {
  was_online_before_battery = some false;
  wol_sent = some false;
  wol_sent_at = some 0;
  skip = some false;
}

abbrev clear_outage : Tracker → Tracker
clear_outage t = record t { meta = record t.meta { outage_id = none }; dirty = true }

-- `set_ups_on_battery(False)` takes the default percentage, 100, and draws no uuid.
unfoldable pub reset : Tracker → Tracker
unfolding set_ups_on_battery
reset t =
    clear_outage
      (set_ups_on_battery false 100 "" (record t { clients = map_values reset_client t.clients }))

-- The first loop of `sync_clients`, over the names of the new configuration.
unfoldable pub add_clients : List String → Tracker → Tracker
add_clients [] t = t
add_clients (name ∷ names) t = add_clients names (
    if contains name t.clients
    then t
    else record t { clients = insert name new_client_state t.clients; dirty = true })

-- Its second loop, over a copy of the tracked names.
unfoldable pub drop_clients : List String → List String → Tracker → Tracker
drop_clients wanted [] t = t
drop_clients wanted (name ∷ names) t =
    drop_clients wanted names
      (if str_in name wanted then t else record t { clients = erase name t.clients; dirty = true })

unfoldable pub sync_clients : List String → Tracker → Tracker
unfolding add_clients drop_clients
sync_clients names t = let t' = add_clients names t in drop_clients names (keys t'.clients) t'
