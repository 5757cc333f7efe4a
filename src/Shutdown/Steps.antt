-- ===== src/Shutdown/Steps.antt =====
-- wolnut/shutdown.py: rules to show a property of the tracker and of the effects of the coordinator's
-- loop, client by client.
use wolnut_webui.Common.{
  ℕ, String, Bool, true, false, List, [], ◌∷◌, ◌≡◌, refl, ◌⊎◌, inl, inr, is_set, get_or, Result, ok,
  err, Bool-cases,
}
use wolnut_webui.Common.Dict.{Dict, lookup}
use wolnut_webui.Common.Value.{Value, is_text}
use wolnut_webui.Config.{ClientConfig, WolnutConfig}
use wolnut_webui.State.{Tracker, shutdown_state, outage_id}
use wolnut_webui.Agent.{AgentFailure, agent_error, uncaught, request}
use wolnut_webui.Effects.{Effect, shutdown_request, All, All-append}
use wolnut_webui.Shutdown.Coordinator.{
  ShutdownEnv, Step, is_due, deliver_failed, deliver_accepted, failure_notice, accepted_notice,
  payload_for, deliver, sent_if, then_effects, attempt, process_client, and_then, process_clients,
  process_on_battery,
}
use wolnut_webui.Agent.Identity.{Presents, request-Presents}

-- Where the step returns, the tracker has the one property and every effect the other.
abbrev pub Holds {κ η} : (Tracker → Type κ) → (Effect → Type η) → Step → Type (κ ⊔ η)
Holds P Q (ok (t, es)) = P t × All Q es
Holds P Q (err e) = Unit

abbrev pub IsIn : ClientConfig → List ClientConfig → Type 0
IsIn c [] = ⊥
IsIn c (d ∷ ds) = (c ≡ d) ⊎ IsIn c ds

module _ {κ η} (P : Tracker → Type κ) (Q : Effect → Type η) where
  pub Holds-then_effects :
      (es : List Effect) (s : Step) → All Q es → Holds P Q s → Holds P Q (then_effects es s)
  Holds-then_effects es (ok (t, fs)) a (p, b) = (p, All-append Q es fs a b)
  Holds-then_effects es (err e) a h = tt

  pub Holds-and_then :
      (s : Step) (f : Tracker → Step)
      → Holds P Q s
      → ((t : Tracker) → P t → Holds P Q (f t))
      → Holds P Q (and_then s f)
  Holds-and_then (ok (t, es)) f (p, a) next = Holds-then_effects es (f t) a (next t p)
  Holds-and_then (err e) f h next = tt

  module _ (config : WolnutConfig) (percent : ℕ) (outage : String) (env : ShutdownEnv) where
    -- A property of the tracker that each client's step keeps, and one that its effects have, hold of
    -- the whole loop.
    pub process_clients_induction :
        (cs : List ClientConfig) (t : Tracker)
        → ((c : ClientConfig)
            → IsIn c cs
            → (t : Tracker) → P t
            → Holds P Q (process_client config percent outage env c t))
        → P t
        → Holds P Q (process_clients config percent outage env cs t)
    unfolding process_clients
    process_clients_induction [] t step p = (p, tt)
    process_clients_induction (c ∷ cs) t step p =
        Holds-and_then (process_client config percent outage env c t) _ (step c (inl refl) t p)
          (λ t' p'. process_clients_induction cs t' (λ d m. step d (inr m)) p')

-- What has to be shown of one client's step: of what the handlers make of the tracker, of the two
-- notices, and of the request where the client is due and the agent has its identity.
pub record StepRules {κ η} (P : Tracker → Type κ) (Q : Effect → Type η) (config : WolnutConfig)
    (percent : ℕ) (outage : String) (env : ShutdownEnv) (c : ClientConfig) (t : Tracker)
    : Type (κ ⊔ η) where
  pub failed : (command message : String) → P (deliver_failed percent command env c message t).0
  pub accepted : (command : String) → P (deliver_accepted percent command env c t).0
  pub failure : (message : String) → Q (failure_notice c message)
  pub acceptance : Q (accepted_notice c percent)
  pub request :
      is_due config percent env c t ≡ true
      → Presents (env.exchange c) (get_or c.shutdown.agent_id "")
      → Q (shutdown_request c (payload_for config percent outage env c t))

module _ {κ η} (P : Tracker → Type κ) (Q : Effect → Type η) (config : WolnutConfig) (percent : ℕ)
    (outage : String) (env : ShutdownEnv) (c : ClientConfig) (t : Tracker)
    (rules : StepRules P Q config percent outage env c t) where
  deliver_failed-effects :
      (command message : String) → All Q (deliver_failed percent command env c message t).1
  unfolding deliver_failed
  deliver_failed-effects command message =
      elim (Bool-cases (shutdown_state c.name t).failure_notified) [
        | inl e ↦ rw e tt
        | inr e ↦ rw e (rules.failure message, tt)
      ]

  deliver-Holds :
      (command : String) (answer : Result AgentFailure (Dict Value))
      → Holds P Q (deliver percent command env c answer t)
  unfolding deliver
  deliver-Holds command (ok response) =
      elim (Bool-cases (is_text (lookup "status" response) "accepted")) [
        | inl e ↦ rw e (rules.accepted command, (rules.acceptance, tt))
        | inr e ↦ rw e (rules.failed command _, deliver_failed-effects command _)
      ]
  deliver-Holds command (err (agent_error message)) =
      (rules.failed command message, deliver_failed-effects command message)
  deliver-Holds command (err (uncaught u)) = tt

  sent-effects :
      (sent : Bool)
      → (sent ≡ true → Q (shutdown_request c (payload_for config percent outage env c t)))
      → All Q (sent_if sent c (payload_for config percent outage env c t))
  sent-effects true q = (q refl, tt)
  sent-effects false q = tt

  attempt-Holds :
      is_due config percent env c t ≡ true → Holds P Q (attempt config percent outage env c t)
  unfolding attempt
  attempt-Holds due =
      let agent_id = get_or c.shutdown.agent_id "" in
      let r = request env.str_value (env.files c) agent_id (env.exchange c) in
      let command = (payload_for config percent outage env c t).command_id in
      Holds-then_effects P Q (sent_if r.0 c (payload_for config percent outage env c t))
        (deliver percent command env c r.1 t)
        (sent-effects r.0 (λ h.
          rules.request due
            (request-Presents env.str_value (env.files c) agent_id (env.exchange c) h)))
        (deliver-Holds command r.1)

  pub process_client-Holds : P t → Holds P Q (process_client config percent outage env c t)
  unfolding process_client
  process_client-Holds p = elim (Bool-cases (is_due config percent env c t)) [
    | inl e ↦ rw e (attempt-Holds e)
    | inr e ↦ rw e (p, tt)
  ]

module _ {κ η} (P : Tracker → Type κ) (Q : Effect → Type η) where
  pub process_on_battery-Holds :
      (config : WolnutConfig) (percent : ℕ) (env : ShutdownEnv) (t : Tracker)
      → ((c : ClientConfig)
          → IsIn c config.clients
          → (t' : Tracker) → P t'
          → StepRules P Q config percent (get_or (outage_id t) "") env c t')
      → P t
      → Holds P Q (process_on_battery config percent env t)
  unfolding process_on_battery
  process_on_battery-Holds config percent env t rules p =
      let outage = get_or (outage_id t) "" in
      elim (Bool-cases (is_set (outage_id t))) [
        | inl e ↦ rw e (
            process_clients_induction P Q config percent outage env config.clients t
              (λ c m t' p'.
                process_client-Holds P Q config percent outage env c t' (rules c m t' p') p')
              p)
        | inr e ↦ rw e (p, tt)
      ]

  -- What holds of the step holds of what it returns.
  pub Holds-ok :
      (s : Step) {t : Tracker} {es : List Effect} → Holds P Q s → s ≡ ok (t, es) → P t × All Q es
  Holds-ok s h e = rw e at h
