-- ===== src/Effects.antt =====
-- What the monitor does to the world, in order: notifications handed to the service, shutdown requests
-- sent to agents, and wake packets with the answer of the sender.
use wolnut_webui.Common.{String, Bool, List, [], ◌∷◌, ◌++◌}
use wolnut_webui.Agent.{ShutdownPayload, Uncaught}
use wolnut_webui.Config.{ClientConfig}
use wolnut_webui.Notifications.{Event}

pub data Effect : Type 0 where
  notify : Event → String → String → Effect
  shutdown_request : ClientConfig → ShutdownPayload → Effect
  wake : ClientConfig → Bool → Effect

-- Every effect of the list has the property.
abbrev pub All {κ} : (Effect → Type κ) → List Effect → Type κ
All P [] = Unit
All P (e ∷ es) = P e × All P es

pub All-append {κ} :
    (P : Effect → Type κ) (es fs : List Effect) → All P es → All P fs → All P (es ++ fs)
All-append P [] fs h k = k
All-append P (e ∷ es) fs h k = (h.0, All-append P es fs h.1 k)

pub All-map {κ η} :
    (P : Effect → Type κ) (Q : Effect → Type η) (es : List Effect)
    → ((e : Effect) → P e → Q e)
    → All P es
    → All Q es
All-map P Q [] f h = tt
All-map P Q (e ∷ es) f h = (f e h.0, All-map P Q es f h.1)

-- What only notifies; what wakes nothing; what shuts nothing down.
abbrev pub IsNotice : Effect → Type 0
IsNotice (notify _ _ _) = Unit
IsNotice _ = ⊥

abbrev pub NoWake : Effect → Type 0
NoWake (wake _ _) = ⊥
NoWake _ = Unit

abbrev pub NoShutdown : Effect → Type 0
NoShutdown (shutdown_request _ _) = ⊥
NoShutdown _ = Unit

-- An exception that leaves the monitor's loop: a KeyError of the tracker, one of the agents' client, or the
-- OverflowError of int.
pub data Crash : Type 0 where
  missing_key : String → Crash
  uncaught_error : Uncaught → Crash
  overflow : Crash
