-- ===== src/Notifications/Delivery.antt =====
-- wolnut/notifications.py: which providers a notification reaches, and what their failures do.
use wolnut_webui.Common.{
  String, Bool, true, false, Option, none, some, List, [], ◌∷◌, ◌≡◌, ◌&&◌, if◌then◌else◌, arith,
}
use wolnut_webui.Config.{NotificationsConfig}
use wolnut_webui.Notifications.{
  Event, Provider, discord, gotify, ntfy, NotificationResult, wants, is_enabled, provider_senders,
  result_of, send_with, send,
}

abbrev same_provider : Provider → Provider → Bool
same_provider discord discord = true
same_provider gotify gotify = true
same_provider ntfy ntfy = true
same_provider _ _ = false

-- The results for the provider.
abbrev pub results_for : Provider → List NotificationResult → List NotificationResult
results_for p [] = []
results_for p (r ∷ rs) =
    let rest = results_for p rs in if same_provider r.provider p then r ∷ rest else rest

-- A notification of an event that is switched on reaches every enabled provider once, and its result says
-- what that provider's sender raised, whatever the others did; a provider that is not enabled, and an
-- event that is switched off, give no result.
pub results_for-send :
    (deliver : NotificationsConfig → Provider → String → String → Option String)
    (c : NotificationsConfig) (event : Event) (title message : String) (p : Provider)
    → results_for p (send deliver c event title message) ≡ (
        if wants c.events event && is_enabled c p
        then record {
          provider = p;
          success = elim (deliver c p title message) [ none ↦ true | some e ↦ false ];
          error = deliver c p title message;
        }
          ∷ []
        else [])
unfolding send send_with provider_senders result_of
results_for-send deliver c event title message discord = ground arith
results_for-send deliver c event title message gotify = ground arith
results_for-send deliver c event title message ntfy = ground arith
