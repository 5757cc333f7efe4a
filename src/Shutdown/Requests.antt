-- ===== src/Shutdown/Requests.antt =====
-- wolnut/shutdown.py: to whom `process_on_battery` sends shutdown requests.
use wolnut_webui.Common.{
  ℕ, ◌+◌, ◌≤◌, true, List, ◌≡◌, refl, ◌⊎◌, inl, inr, is_set, get_or, ok, arith,
}
use wolnut_webui.Config.{WolnutConfig}
use wolnut_webui.State.{Tracker}
use wolnut_webui.Notifications.{shutdown_acknowledged, shutdown_failed}
use wolnut_webui.Effects.{Effect, notify, shutdown_request, wake, All}
use wolnut_webui.Shutdown.Coordinator.{ShutdownEnv, is_due, payload_for, process_on_battery}
use wolnut_webui.Agent.Identity.{Presents}
use wolnut_webui.Shutdown.Steps.{Holds-ok, IsIn, process_on_battery-Holds}

-- Nothing but notices about shutdowns and justified requests.
abbrev pub IsJustified : WolnutConfig → ℕ → ShutdownEnv → Effect → Type 0
IsJustified config percent env (notify event title message) =
    (event ≡ shutdown_failed) ⊎ (event ≡ shutdown_acknowledged)
IsJustified config percent env (shutdown_request c p) =
    IsIn c config.clients
    × (c.enabled ≡ true)
    × (c.shutdown.enabled ≡ true)
    × (is_set c.shutdown.agent_id ≡ true)
    × (percent ≤ c.shutdown.battery_percent)
    × Presents (env.exchange c) (get_or c.shutdown.agent_id "")
    × (p.expires_at ≡ p.requested_at + 60)
IsJustified config percent env (wake c sent) = ⊥

-- Where `process_on_battery` returns, all that it did is to send notices about shutdowns and requests
-- to configured clients that are enabled, with shutdown enabled and paired, whose threshold the battery
-- has reached, over connections whose certificates carry the paired identity; each request expires a
-- minute after it was made.
pub process_on_battery-IsJustified :
    (config : WolnutConfig) (percent : ℕ) (env : ShutdownEnv) (t t' : Tracker) (es : List Effect)
    → process_on_battery config percent env t ≡ ok (t', es)
    → All (IsJustified config percent env) es
unfolding payload_for is_due
process_on_battery-IsJustified config percent env t t' es e =
    (Holds-ok (λ _. Unit {0}) (IsJustified config percent env)
      (process_on_battery config percent env t)
      (process_on_battery-Holds (λ _. Unit {0}) (IsJustified config percent env) config percent env
        t
        (λ c m u _. record {
          failed = λ _ _. tt;
          accepted = λ _. tt;
          failure = λ _. inl refl;
          acceptance = inr refl;
          request =
              λ due shown. (m, ground arith, ground arith, ground arith, ground arith, shown, refl);
        })
        tt)
      e).1
