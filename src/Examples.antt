-- ===== src/Examples.antt =====
-- One client, one agent and one outage, on which the theorems are tried.
mod Tracking
mod Shutdowns
mod Files
mod Rounds
mod Enrollments
mod Readings
mod Pairings
mod Configs
mod Sites
mod Upsc
use wolnut_webui.Common.{ℕ, String, Bool, true, false, Option, none, some, List, [], ◌∷◌}
use wolnut_webui.Common.Dict.{Dict}
use wolnut_webui.Common.Value.{Value, str, obj, end, field}
use wolnut_webui.Config.{
  ClientConfig, WolnutConfig, default_wake_on, default_shutdown, default_notifications,
  default_webui,
}
use wolnut_webui.State.{ShutdownState, ClientState, new_client_state, MetaState, Tracker}
use wolnut_webui.Agent.{Exchange, connected, refused, response, json, all_files}
use wolnut_webui.Shutdown.Snapshot.{Rounded, plus}
use wolnut_webui.Shutdown.Coordinator.{ShutdownEnv}
use wolnut_webui.Loop.World.{no_number, Monitor, Poll, raised}

abbrev pub nas : ClientConfig
nas = record {
  name = "nas";
  host = "10.0.0.2";
  mac = "00:11:22:33:44:55";
  always_wake = false;
  enabled = true;
  wake_enabled = true;
  shutdown = record default_shutdown { enabled = true; battery_percent = 40; agent_id = some "a1" };
}

abbrev pub config : WolnutConfig
config = record {
  nut = record {
    ups = "ups@localhost";
    port = 3493;
    timeout = 5;
    username = none;
    password = none;
  };
  status_file = "/data/status.json";
  poll_interval = 10;
  wake_on = default_wake_on;
  clients = nas ∷ [];
  log_level = "INFO";
  webui = default_webui;
  notifications = default_notifications;
}

-- Seen online, with no request sent.
abbrev pub up : ClientState
up = record new_client_state { is_online = some true }

abbrev pub tracker : ClientState → MetaState → Tracker
tracker s meta = record { status_hash = none; dirty = true; meta = meta; clients = ("nas", s) ∷ [] }

abbrev pub on_line : MetaState
on_line = record { ups_on_battery = false; battery_percent_at_shutdown = 100; outage_id = none }

abbrev pub in_outage : MetaState
in_outage = record {
  ups_on_battery = true;
  battery_percent_at_shutdown = 60;
  outage_id = some "o1";
}

-- The agent accepts; the agent cannot be reached.
abbrev pub accepting : Exchange
accepting =
    connected ("urn:wolnut:agent:a1" ∷ [])
      (response 200 (json (obj (field "status" (str "accepted") end))))

abbrev pub unreachable : Exchange
unreachable = refused "timed out"

abbrev pub env : Exchange → ShutdownEnv
env x = record {
  check_at = λ c. 100000000;
  requested_at = λ c. 100000001;
  recorded_at = λ c. 101000000;
  acknowledged_at = λ c. 102000000;
  files = λ c. all_files;
  exchange = λ c. x;
  str_value = λ v. "value";
}

abbrev pub charge : String → Option Rounded
charge s = some (plus 30)

-- A round in which the UPS has the status, the client answers pings or not, and packets go out.
abbrev pub poll : Dict String → Bool → Exchange → Poll
poll status answers x = record {
  mtime = 7;
  reload = raised;
  status = status;
  round_float = charge;
  ping = λ c. answers;
  fresh = "o2";
  shutdown_env = env x;
  restored_at = 200000000;
  checked_at = 240000000;
  waited_at = 240000001;
  wake_check_at = λ c. 240000000;
  woken_at = λ c. 240000000;
  wake_sent = λ c. true;
  update_at = 300000000;
  update_files = λ c. all_files;
  update_exchange = λ c. x;
  int_value = λ v. no_number;
  dumps = λ meta clients. some "state";
  md5 = λ s. s;
  disk = record { can_write = true; can_replace = true };
}

abbrev pub monitor : Tracker → Monitor
monitor t = record {
  config = config;
  last_mtime = 7;
  tracker = t;
  on_battery = false;
  recorded_down = [];
  recorded_up = [];
  restoration_event = false;
  restoration_start = none;
  wol_being_sent = false;
  reported_failures = [];
  last_checked = [];
  file = none;
}
