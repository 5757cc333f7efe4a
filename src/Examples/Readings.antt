-- ===== src/Examples/Readings.antt =====
-- wolnut/shutdown.py, wolnut/notifications.py, wolnut/state.py: readings and notices, tried.
use wolnut_webui.Common.{String, Option, true, false, none, some, [], ◌∷◌, ◌≡◌, ◌↔◌, ◌<◌, refl}
use wolnut_webui.Common.Dict.{Dict, lookup}
use wolnut_webui.Config.{NotificationsConfig, default_notifications}
use wolnut_webui.State.{ClientState, observe_agent_update}
use wolnut_webui.State.Updates.{observe_agent_update_lem}
use wolnut_webui.Notifications.{Provider, gotify, power_loss, wants, send}
use wolnut_webui.Notifications.Delivery.{results_for, results_for-send}
use wolnut_webui.Shutdown.Snapshot.{Mode, parse_ups_snapshot}
use wolnut_webui.Shutdown.Readings.{IsReading, parse_ups_snapshot-IsReading}
use wolnut_webui.Examples.{up, tracker, on_line, charge}

abbrev readings : Dict String
readings = ("ups.status", "ol charging") ∷ ("battery.charge", "30.4") ∷ []

parse_ups_snapshot-IsReading_example :
    (parse_ups_snapshot charge readings
      ≡ some (record { mode = Mode.on_line; battery_percent = 30 }))
    ↔ IsReading charge readings (record { mode = Mode.on_line; battery_percent = 30 })
parse_ups_snapshot-IsReading_example =
    parse_ups_snapshot-IsReading charge readings
      (record { mode = Mode.on_line; battery_percent = 30 })

-- The reading is one.
parse_readings :
    parse_ups_snapshot charge readings ≡ some (record { mode = Mode.on_line; battery_percent = 30 })
unfolding parse_ups_snapshot lookup
parse_readings = refl

abbrev two_providers : NotificationsConfig
two_providers = record default_notifications {
  discord = record { enabled = true; webhook_url = "https://example.org" };
  gotify = record { enabled = true; url = "https://example.org"; token = "t"; priority = 5 };
}

-- Only Gotify's sender raises.
abbrev raising : NotificationsConfig → Provider → String → String → Option String
raising c gotify title message = some "timed out"
raising c p title message = none

results_for-send_example :
    results_for gotify (send raising two_providers power_loss "Power" "lost")
    ≡ record { provider = gotify; success = false; error = some "timed out" } ∷ []
unfolding wants
results_for-send_example = results_for-send raising two_providers power_loss "Power" "lost" gotify

abbrev seen : ClientState
seen = record up { agent_update = record { initialized = true; installed_at = 5; version = "1.0" } }

observe_agent_update_example :
    ((observe_agent_update "nas" 9 "1.1" "automatic" "updated" (tracker seen on_line)).1 ≡ true) ↔ (
      (seen.agent_update.initialized ≡ true)
      × (seen.agent_update.installed_at < 9)
      × (◌≡◌ {A = String} "automatic" "automatic")
      × (◌≡◌ {A = String} "updated" "updated"))
unfolding lookup
observe_agent_update_example =
    observe_agent_update_lem "nas" (tracker seen on_line) seen refl 9 "1.1" "automatic" "updated"
