-- ===== src/Examples/Shutdowns.antt =====
-- wolnut/shutdown.py: requests to one client, tried.
use wolnut_webui.Common.{inl, String, true, none, some, List, [], ◌∷◌, ◌≡◌, refl, ok}
use wolnut_webui.Common.Text.{◌^◌, show}
use wolnut_webui.Common.Dict.{lookup, contains}
use wolnut_webui.Common.Value.{str}
use wolnut_webui.State.{
  has_elapsed, seconds, new_shutdown_state, Tracker, shutdown_state, should_attempt_shutdown,
}
use wolnut_webui.Agent.{exchange_request, request}
use wolnut_webui.Effects.{Effect, shutdown_request, All}
use wolnut_webui.Shutdown.Coordinator.{
  is_due, command_id_for, payload_for, failure_notice, accepted_notice, deliver_accepted, deliver,
  attempt, process_client, process_clients, process_on_battery,
}
use wolnut_webui.Shutdown.Requests.{IsJustified, process_on_battery-IsJustified}
use wolnut_webui.Shutdown.Outcomes.{IsAcknowledged, SparesName, process_on_battery-spares}
use wolnut_webui.Shutdown.Answers.{
  process_client-accepted, process_client-failed, process_client-same_command,
}
use wolnut_webui.Shutdown.Total.{Returns, process_on_battery-Returns}
use wolnut_webui.Agent.Identity.{Presents, request-Presents}
use wolnut_webui.Examples.{nas, config, up, tracker, in_outage, accepting, unreachable, env}

abbrev t0 : Tracker
t0 = tracker up in_outage

abbrev served : Tracker
served = (deliver_accepted 30 "o1:nas:0" (env accepting) nas t0).0

abbrev sent : List Effect
sent =
    shutdown_request nas (payload_for config 30 "o1" (env accepting) nas t0)
    ∷ accepted_notice nas 30
    ∷ []

process_on_battery-IsJustified_example : All (IsJustified config 30 (env accepting)) sent
unfolding process_on_battery process_clients process_client attempt deliver is_due payload_for
    request should_attempt_shutdown lookup has_elapsed ◌^◌ command_id_for show
process_on_battery-IsJustified_example =
    process_on_battery-IsJustified config 30 (env accepting) t0 served sent refl

-- The request was accepted before.
abbrev done : Tracker
done =
    tracker (record up { shutdown = record new_shutdown_state { acknowledged = true } }) in_outage

process_on_battery-spares_example : IsAcknowledged "nas" done × All (SparesName "nas") []
unfolding process_on_battery process_clients process_client is_due should_attempt_shutdown
    shutdown_state lookup
process_on_battery-spares_example =
    process_on_battery-spares "nas" config 30 (env accepting) done done [] refl refl

process_client-accepted_example :
    (t' : Tracker) × (process_client config 30 "o1" (env accepting) nas t0 ≡ ok (t', sent))
    × ((shutdown_state "nas" t').acknowledged ≡ true)
    × ((shutdown_state "nas" t').command_id
        ≡ some (command_id_for "o1" "nas" (shutdown_state "nas" t0)))
    × ((shutdown_state "nas" t').last_error ≡ none)
unfolding is_due contains lookup request exchange_request should_attempt_shutdown shutdown_state
    has_elapsed ◌^◌
process_client-accepted_example =
    process_client-accepted config 30 "o1" (env accepting) nas t0 refl refl
      (("status", str "accepted") ∷ []) refl refl

process_client-failed_example :
    (t' : Tracker) × (process_client config 30 "o1" (env unreachable) nas t0
      ≡ ok (t', failure_notice nas "Could not securely contact agent: timed out" ∷ []))
    × ((shutdown_state "nas" t').acknowledged ≡ (shutdown_state "nas" t0).acknowledged)
    × ((shutdown_state "nas" t').command_id
        ≡ some (command_id_for "o1" "nas" (shutdown_state "nas" t0)))
    × ((shutdown_state "nas" t').last_error ≡ some "Could not securely contact agent: timed out")
    × ((shutdown_state "nas" t').failure_notified ≡ true)
    × ((shutdown_state "nas" t').last_attempt_at ≡ seconds ((env unreachable).recorded_at nas))
    × ((shutdown_state "nas" t').battery_percent ≡ some 30)
unfolding is_due contains lookup request exchange_request should_attempt_shutdown shutdown_state ◌^◌
    has_elapsed
process_client-failed_example =
    process_client-failed config 30 "o1" (env unreachable) nas t0 refl refl
      "Could not securely contact agent: timed out" (inl refl)

process_client-same_command_example :
    (t' : Tracker) × (es : List Effect) × (process_client config 30 "o1" (env unreachable) nas t0
      ≡ ok (t', es))
    × ((later : String)
        → command_id_for later "nas" (shutdown_state "nas" t')
          ≡ command_id_for "o1" "nas" (shutdown_state "nas" t0))
unfolding is_due contains lookup request exchange_request should_attempt_shutdown shutdown_state ◌^◌
    has_elapsed
process_client-same_command_example =
    process_client-same_command config 30 "o1" (env unreachable) nas t0 refl refl
      "Could not securely contact agent: timed out" refl (inl refl)

process_on_battery-Returns_example : Returns (process_on_battery config 30 (env unreachable) t0)
process_on_battery-Returns_example =
    process_on_battery-Returns config 30 (env unreachable) t0 (λ c. (refl, tt))

request-Presents_example : Presents accepting "a1"
unfolding request exchange_request ◌^◌
request-Presents_example =
    request-Presents (env accepting).str_value ((env accepting).files nas) "a1" accepting refl
