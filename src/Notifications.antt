-- ===== src/Notifications.antt =====
-- wolnut/notifications.py: `NotificationService`. What a provider's `send` raises, if it raises, is the
-- argument `deliver`; wolnut/providers fills it in.
pub mod Delivery
use wolnut_webui.Common.{
  String, Bool, true, false, Option, none, some, List, [], ◌∷◌, ◌++◌, if◌then◌else◌,
}
use wolnut_webui.Common.Text.{◌^◌}
use wolnut_webui.Config.{NotificationsConfig, NotificationEventsConfig}

-- The events that the program sends; each is a field of the configuration.
pub data Event : Type 0 where
  power_loss power_restored wake_sent client_recovered errors : Event
  shutdown_acknowledged shutdown_failed agent_update_succeeded : Event

pub data Provider : Type 0 where
  discord gotify ntfy : Provider

pub record NotificationResult : Type 0 where
  pub provider : Provider
  pub success : Bool
  pub error : Option String

-- getattr(self.config.events, event, False)
unfoldable pub wants : NotificationEventsConfig → Event → Bool
wants c power_loss = c.power_loss
wants c power_restored = c.power_restored
wants c wake_sent = c.wake_sent
wants c client_recovered = c.client_recovered
wants c errors = c.errors
wants c shutdown_acknowledged = c.shutdown_acknowledged
wants c shutdown_failed = c.shutdown_failed
wants c agent_update_succeeded = c.agent_update_succeeded

-- The keys of `_provider_senders`, in order.
unfoldable pub provider_senders : NotificationsConfig → List Provider
provider_senders c =
    (if c.discord.enabled then discord ∷ [] else [])
    ++ ((if c.gotify.enabled then gotify ∷ [] else [])
        ++ (if c.ntfy.enabled then ntfy ∷ [] else []))

abbrev pub is_enabled : NotificationsConfig → Provider → Bool
is_enabled c discord = c.discord.enabled
is_enabled c gotify = c.gotify.enabled
is_enabled c ntfy = c.ntfy.enabled

abbrev label : Provider → String
label discord = "Discord"
label gotify = "Gotify"
label ntfy = "Ntfy"

module _ (deliver : NotificationsConfig → Provider → String → String → Option String) where
  unfoldable pub result_of : Provider → Option String → NotificationResult
  result_of p none = record { provider = p; success = true; error = none }
  result_of p (some e) = record { provider = p; success = false; error = some e }

  unfoldable pub send_with :
      NotificationsConfig → List Provider → String → String → List NotificationResult
  unfolding result_of
  send_with c [] title message = []
  send_with c (p ∷ ps) title message =
      result_of p (deliver c p title message) ∷ send_with c ps title message

  unfoldable pub send : NotificationsConfig → Event → String → String → List NotificationResult
  unfolding provider_senders send_with wants
  send c event title message =
      if wants c.events event then send_with c (provider_senders c) title message else []

  -- A provider that is not among the senders is refused; else the one result is returned.
  unfoldable pub send_test : NotificationsConfig → Provider → NotificationResult
  unfolding result_of
  send_test c p =
      if is_enabled c p
      then result_of p (
          deliver c p "Wolnut test notification"
            "Your notification provider is configured correctly.")
      else record { provider = p; success = false; error = some (label p ^ " is not enabled") }

  abbrev providers_of : List NotificationResult → List Provider
  providers_of [] = []
  providers_of (r ∷ rs) = r.provider ∷ providers_of rs
