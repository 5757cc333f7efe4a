-- ===== src/Config.antt =====
-- wolnut/config.py: the dataclasses of the configuration. The settings that are counts of seconds,
-- percentages and ports are natural numbers.
pub mod Validate
pub mod Clients
pub mod Limits
pub mod Accepted
use wolnut_webui.Common.{ℕ, String, Bool, true, false, Option, none, List}

pub record NutConfig : Type 0 where
  pub ups : String
  pub port : ℕ
  pub timeout : ℕ
  pub username : Option String
  pub password : Option String

pub record WakeOnConfig : Type 0 where
  pub restore_delay_sec : ℕ
  pub min_battery_percent : ℕ
  pub client_timeout_sec : ℕ
  pub reattempt_delay : ℕ

pub record ShutdownConfig : Type 0 where
  pub enabled : Bool
  pub battery_percent : ℕ
  pub agent_id : Option String
  pub agent_port : ℕ
  pub auto_update : Bool

pub record ClientConfig : Type 0 where
  pub name : String
  pub host : String
  pub mac : String
  pub always_wake : Bool
  pub enabled : Bool
  pub wake_enabled : Bool
  pub shutdown : ShutdownConfig

pub record WebUiConfig : Type 0 where
  pub suppress_mac_warnings : Bool

pub record DiscordNotificationConfig : Type 0 where
  pub enabled : Bool
  pub webhook_url : String

pub record GotifyNotificationConfig : Type 0 where
  pub enabled : Bool
  pub url : String
  pub token : String
  pub priority : ℕ

pub record NtfyNotificationConfig : Type 0 where
  pub enabled : Bool
  pub url : String
  pub topic : String
  pub token : String
  pub priority : ℕ

pub record NotificationEventsConfig : Type 0 where
  pub power_loss : Bool
  pub power_restored : Bool
  pub wake_sent : Bool
  pub client_recovered : Bool
  pub errors : Bool
  pub shutdown_acknowledged : Bool
  pub shutdown_failed : Bool
  pub agent_update_succeeded : Bool

pub record NotificationsConfig : Type 0 where
  pub discord : DiscordNotificationConfig
  pub gotify : GotifyNotificationConfig
  pub ntfy : NtfyNotificationConfig
  pub events : NotificationEventsConfig

pub record WolnutConfig : Type 0 where
  pub nut : NutConfig
  pub status_file : String
  pub poll_interval : ℕ
  pub wake_on : WakeOnConfig
  pub clients : List ClientConfig
  pub log_level : String
  pub webui : WebUiConfig
  pub notifications : NotificationsConfig

-- The default values of the fields.
abbrev pub default_wake_on : WakeOnConfig
default_wake_on = record {
  restore_delay_sec = 30;
  min_battery_percent = 20;
  client_timeout_sec = 360;
  reattempt_delay = 30;
}

abbrev pub default_shutdown : ShutdownConfig
default_shutdown = record {
  enabled = false;
  battery_percent = 20;
  agent_id = none;
  agent_port = 8184;
  auto_update = false;
}

abbrev pub default_notifications : NotificationsConfig
default_notifications = record {
  discord = record { enabled = false; webhook_url = "" };
  gotify = record { enabled = false; url = ""; token = ""; priority = 5 };
  ntfy = record { enabled = false; url = "https://ntfy.sh"; topic = ""; token = ""; priority = 3 };
  events = record {
    power_loss = true;
    power_restored = true;
    wake_sent = true;
    client_recovered = true;
    errors = true;
    shutdown_acknowledged = true;
    shutdown_failed = true;
    agent_update_succeeded = false;
  };
}

abbrev pub default_webui : WebUiConfig
default_webui = record { suppress_mac_warnings = false }
