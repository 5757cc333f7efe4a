-- ===== src/Shutdown/Total.antt =====
-- wolnut/shutdown.py: the coordinator returns where `_request` takes what is raised.
use wolnut_webui.Common.{
  ℕ, String, Bool, true, false, List, [], ◌∷◌, ◌≡◌, ◌≢◌, refl, is_set, get_or, if◌then◌else◌,
  Result, ok, err, arith,
}
use wolnut_webui.Common.Dict.{Dict, lookup}
use wolnut_webui.Common.Value.{Value, is_text}
use wolnut_webui.Config.{ClientConfig, WolnutConfig}
use wolnut_webui.State.{Tracker, outage_id}
use wolnut_webui.Agent.{AgentFailure, agent_error, Uncaught, uncaught}
use wolnut_webui.Agent.Identity.{Decodes, request-Decodes}
use wolnut_webui.Effects.{Effect}
use wolnut_webui.Shutdown.Coordinator.{
  ShutdownEnv, Step, is_due, deliver, then_effects, attempt, process_client, and_then,
  process_clients, process_on_battery,
}

abbrev pub Returns : Step → Type 0
Returns s = (t : Tracker) × (es : List Effect) × (s ≡ ok (t, es))

Returns-then_effects : (es : List Effect) (s : Step) → Returns s → Returns (then_effects es s)
Returns-then_effects es (ok (t, fs)) h = (t, _, refl)
Returns-then_effects es (err e) h = absurd (ground arith)

Returns-and_then :
    (s : Step) (f : Tracker → Step)
    → Returns s
    → ((t : Tracker) → Returns (f t))
    → Returns (and_then s f)
Returns-and_then (ok (t, es)) f h k = Returns-then_effects es (f t) (k t)
Returns-and_then (err e) f h k = absurd (ground arith)

Returns-if : (b : Bool) (s u : Step) → Returns s → Returns u → Returns (if b then s else u)
Returns-if true s u h k = h
Returns-if false s u h k = k

deliver-Returns :
    (percent : ℕ) (command : String) (env : ShutdownEnv) (c : ClientConfig)
    (answer : Result AgentFailure (Dict Value)) (t : Tracker)
    → ((u : Uncaught) → answer ≢ err (uncaught u))
    → Returns (deliver percent command env c answer t)
unfolding deliver
deliver-Returns percent command env c (ok result) t n =
    Returns-if (is_text (lookup "status" result) "accepted") _ _ (_, _, refl) (_, _, refl)
deliver-Returns percent command env c (err (agent_error m)) t n = (_, _, refl)
deliver-Returns percent command env c (err (uncaught u)) t n = absurd (n u refl)

-- Where the controller's identity can be used, and every exception that a connection or the decoding of
-- an answer raises is one that `_request` takes, `process_on_battery` returns.
pub process_on_battery-Returns :
    (config : WolnutConfig) (percent : ℕ) (env : ShutdownEnv) (t : Tracker)
    → ((c : ClientConfig) → ((env.files c).usable ≡ true) × Decodes (env.exchange c))
    → Returns (process_on_battery config percent env t)
unfolding process_on_battery process_client process_clients attempt
process_on_battery-Returns config percent env t decodes =
    Returns-if (is_set (outage_id t)) _ _
      (clients-Returns (get_or (outage_id t) "") config.clients t) (_, _, refl)
  where
    client-Returns :
        (outage : String) (c : ClientConfig) (t : Tracker)
        → Returns (process_client config percent outage env c t)
    client-Returns outage c t =
        Returns-if (is_due config percent env c t) _ _
          (Returns-then_effects _ _ (
            deliver-Returns percent _ env c _ t (
              request-Decodes env.str_value (env.files c) (get_or c.shutdown.agent_id "")
                (env.exchange c) (decodes c).1 (decodes c).0)))
          (_, _, refl)

    clients-Returns :
        (outage : String) (cs : List ClientConfig) (t : Tracker)
        → Returns (process_clients config percent outage env cs t)
    clients-Returns outage [] t = (_, _, refl)
    clients-Returns outage (c ∷ cs) t =
        Returns-and_then (process_client config percent outage env c t) _
          (client-Returns outage c t) (λ t'. clients-Returns outage cs t')
