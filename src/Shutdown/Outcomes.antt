-- ===== src/Shutdown/Outcomes.antt =====
-- wolnut/shutdown.py: what becomes of a client's request: it ends with the acknowledgement, is retried
-- under one command id, and its failure is announced once.
use wolnut_webui.Common.{
  ℕ, String, true, none, some, List, ◌≡◌, ◌≢◌, ok, arith, Bool-cases, inl, inr,
}
use wolnut_webui.Config.{ClientConfig, WolnutConfig}
use wolnut_webui.State.{Tracker, shutdown_state, should_attempt_shutdown, record_shutdown_attempt}
use wolnut_webui.State.Writes.{record_attempt-state, acknowledge-state, mark_failure-state}
use wolnut_webui.State.Invariant.{
  IsComplete, record_shutdown_attempt-IsComplete, acknowledge_shutdown-IsComplete,
  mark_failure-IsComplete,
}
use wolnut_webui.Effects.{Effect, shutdown_request, All}
use wolnut_webui.Shutdown.Coordinator.{
  ShutdownEnv, is_due, deliver_failed, deliver_accepted, process_on_battery,
}
use wolnut_webui.Shutdown.Steps.{Holds-ok, process_on_battery-Holds}

-- The client's request has been accepted.
abbrev pub IsAcknowledged : String → Tracker → Type 0
IsAcknowledged name t = (shutdown_state name t).acknowledged ≡ true

-- No request to a client of this name.
abbrev pub SparesName : String → Effect → Type 0
SparesName name (shutdown_request c p) = c.name ≢ name
SparesName name _ = Unit

module _ (name : String) (percent : ℕ) (env : ShutdownEnv) (c : ClientConfig) (t : Tracker) where
  failed-keeps :
      (command message : String)
      → IsAcknowledged name t
      → IsAcknowledged name (deliver_failed percent command env c message t).0
  unfolding deliver_failed
  failed-keeps command message h =
      let t' =
        record_shutdown_attempt c.name command percent "automatic" (some message)
          (env.recorded_at c) t in
      ground (
        arith,
        record_attempt-state c.name name command percent "automatic" (some message)
            (env.recorded_at c) t,
        mark_failure-state c.name name t',
      )

  accepted-keeps :
      (command : String)
      → IsAcknowledged name t
      → IsAcknowledged name (deliver_accepted percent command env c t).0
  unfolding deliver_accepted
  accepted-keeps command h =
      let t' =
        record_shutdown_attempt c.name command percent "automatic" none (env.recorded_at c) t in
      ground (
        arith,
        record_attempt-state c.name name command percent "automatic" none (env.recorded_at c) t,
        acknowledge-state c.name name (env.acknowledged_at c) t',
      )

module _ (percent : ℕ) (env : ShutdownEnv) (c : ClientConfig) (t : Tracker) where
  failed-IsComplete :
      (command message : String)
      → IsComplete t
      → IsComplete (deliver_failed percent command env c message t).0
  unfolding deliver_failed
  failed-IsComplete command message h =
      let recorded =
        record_shutdown_attempt-IsComplete c.name command percent "automatic" (some message)
          (env.recorded_at c) t h in
      elim (Bool-cases (shutdown_state c.name t).failure_notified) [
        | inl e ↦ rw e recorded
        | inr e ↦ rw e (mark_failure-IsComplete c.name _ recorded)
      ]

  accepted-IsComplete :
      (command : String) → IsComplete t → IsComplete (deliver_accepted percent command env c t).0
  unfolding deliver_accepted
  accepted-IsComplete command h = acknowledge_shutdown-IsComplete c.name (env.acknowledged_at c) _ (
      record_shutdown_attempt-IsComplete c.name command percent "automatic" none (env.recorded_at c)
        t h)

not_due :
    (name : String) (config : WolnutConfig) (percent : ℕ) (env : ShutdownEnv) (c : ClientConfig)
    (t : Tracker)
    → IsAcknowledged name t
    → is_due config percent env c t ≡ true
    → c.name ≢ name
unfolding is_due should_attempt_shutdown
not_due name config percent env c t h due e = ground arith

-- Where `process_on_battery` returns, a client whose request was accepted before gets no other, and
-- stays accepted.
pub process_on_battery-spares :
    (name : String) (config : WolnutConfig) (percent : ℕ) (env : ShutdownEnv) (t t' : Tracker)
    (es : List Effect)
    → IsAcknowledged name t
    → process_on_battery config percent env t ≡ ok (t', es)
    → IsAcknowledged name t' × All (SparesName name) es
process_on_battery-spares name config percent env t t' es h e =
    Holds-ok (IsAcknowledged name) (SparesName name) (process_on_battery config percent env t)
      (process_on_battery-Holds (IsAcknowledged name) (SparesName name) config percent env t
        (λ c m u a. record {
          failed = λ command message. failed-keeps name percent env c u command message a;
          accepted = λ command. accepted-keeps name percent env c u command a;
          failure = λ _. tt;
          acceptance = tt;
          request = λ due shown. not_due name config percent env c u a due;
        })
        h)
      e

-- On a tracker that has every "is_online" key the loop keeps it so.
pub process_on_battery-IsComplete :
    (config : WolnutConfig) (percent : ℕ) (env : ShutdownEnv) (t t' : Tracker) (es : List Effect)
    → IsComplete t
    → process_on_battery config percent env t ≡ ok (t', es)
    → IsComplete t'
process_on_battery-IsComplete config percent env t t' es h e =
    (Holds-ok IsComplete (λ _. Unit {0}) (process_on_battery config percent env t)
      (process_on_battery-Holds IsComplete (λ _. Unit {0}) config percent env t
        (λ c m u a. record {
          failed = λ command message. failed-IsComplete percent env c u command message a;
          accepted = λ command. accepted-IsComplete percent env c u command a;
          failure = λ _. tt;
          acceptance = tt;
          request = λ _ _. tt;
        })
        h)
      e).0
