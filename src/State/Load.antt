-- ===== src/State/Load.antt =====
-- wolnut/state.py: `ClientStateTracker.__init__` and `_load_state`. The state file comes as what
-- `json.loads` makes of it, where each key may be missing; the types of the values are taken as written
-- by `save_state`.
use wolnut_webui.Common.{
  ℕ, String, Bool, false, Option, none, some, List, [], ◌∷◌, if◌then◌else◌, truthy, get_or, Result,
  ok, err,
}
use wolnut_webui.Common.Dict.{Dict, contains, insert}
use wolnut_webui.State.{
  ShutdownState, new_shutdown_state, AgentUpdateState, new_agent_update_state, ClientState,
  new_client_state, MetaState, Tracker,
}

-- The "shutdown" object of a saved client.
pub record SavedShutdown : Type 0 where
  pub command_id : Option (Option String)
  pub last_attempt_at : Option ℕ
  pub acknowledged : Option Bool
  pub acknowledged_at : Option ℕ
  pub last_error : Option (Option String)
  pub battery_percent : Option (Option ℕ)
  pub source : Option (Option String)
  pub failure_notified : Option Bool
  pub offline_after_ack : Option Bool
  pub delivery_sequence : Option ℕ

pub record SavedClient : Type 0 where
  pub was_online_before_battery : Option Bool
  pub is_online : Option Bool
  pub wol_sent : Option Bool
  pub wol_sent_at : Option ℕ
  pub skip : Option Bool
  pub shutdown : Option SavedShutdown
  pub agent_update : Option AgentUpdateState

pub record SavedMeta : Type 0 where
  pub ups_on_battery : Option Bool
  pub battery_percent_at_shutdown : Option ℕ
  pub outage_id : Option (Option String)

pub record SavedState : Type 0 where
  pub meta : Option SavedMeta
  pub clients : Option (Dict SavedClient)

-- What the constructor finds at the path: nothing, a file that cannot be read or decoded, or a
-- decoded file with the md5 of its text.
pub data StatusFile : Type 0 where
  absent : StatusFile
  unreadable : StatusFile
  decoded : String → SavedState → StatusFile

-- shutdown = new; shutdown.update(saved)
merge_shutdown : ShutdownState → SavedShutdown → ShutdownState
merge_shutdown d s = record {
  command_id = get_or s.command_id d.command_id;
  last_attempt_at = get_or s.last_attempt_at d.last_attempt_at;
  acknowledged = get_or s.acknowledged d.acknowledged;
  acknowledged_at = get_or s.acknowledged_at d.acknowledged_at;
  last_error = get_or s.last_error d.last_error;
  battery_percent = get_or s.battery_percent d.battery_percent;
  source = get_or s.source d.source;
  failure_notified = get_or s.failure_notified d.failure_notified;
  offline_after_ack = get_or s.offline_after_ack d.offline_after_ack;
  delivery_sequence = get_or s.delivery_sequence d.delivery_sequence;
}

load_shutdown : Option SavedShutdown → ShutdownState
unfolding merge_shutdown
load_shutdown none = new_shutdown_state
load_shutdown (some s) = merge_shutdown new_shutdown_state s

unfoldable pub load_client : SavedClient → ClientState
unfolding load_shutdown
load_client s = record {
  was_online_before_battery = s.was_online_before_battery;
  is_online = s.is_online;
  wol_sent = s.wol_sent;
  wol_sent_at = s.wol_sent_at;
  skip = s.skip;
  shutdown = load_shutdown s.shutdown;
  agent_update = get_or s.agent_update new_agent_update_state;
}

unfoldable pub load_clients : Dict SavedClient → Dict ClientState
unfolding load_client
load_clients [] = []
load_clients ((name, s) ∷ rest) = (name, load_client s) ∷ load_clients rest

load_meta : MetaState → SavedMeta → MetaState
load_meta d s = record {
  ups_on_battery = get_or s.ups_on_battery d.ups_on_battery;
  battery_percent_at_shutdown = get_or s.battery_percent_at_shutdown d.battery_percent_at_shutdown;
  outage_id = get_or s.outage_id d.outage_id;
}

-- A file without "meta" raises before anything is changed.
load_saved : String → Option SavedMeta → Option (Dict SavedClient) → Tracker → Tracker
unfolding load_meta
load_saved hash none clients t = t
load_saved hash (some m) clients t = record t {
  status_hash = some hash;
  meta = load_meta t.meta m;
  clients = load_clients (get_or clients []);
}

unfoldable pub load_state : StatusFile → Tracker → Tracker
unfolding load_saved
load_state absent t = t
load_state unreadable t = t
load_state (decoded hash s) t = load_saved hash s.meta s.clients t

abbrev pub blank_tracker : Tracker
blank_tracker = record {
  status_hash = none;
  dirty = false;
  meta = record { ups_on_battery = false; battery_percent_at_shutdown = 100; outage_id = none };
  clients = [];
}

-- The loop of `__init__` over the configured clients; it leaves the dirty flag.
unfoldable pub initialize_clients : List String → Dict ClientState → Dict ClientState
initialize_clients [] d = d
initialize_clients (name ∷ names) d =
    initialize_clients names (if contains name d then d else insert name new_client_state d)

abbrev with_clients : List String → Tracker → Tracker
with_clients names t = record t { clients = initialize_clients names t.clients }

pub data ValueError : Type 0 where
  value_error : String → ValueError

unfoldable pub new_tracker : String → List String → StatusFile → Result ValueError Tracker
unfolding load_state
new_tracker status_file names file =
    if truthy status_file
    then ok (with_clients names (load_state file blank_tracker))
    else err (value_error "A status file must be specified.")
