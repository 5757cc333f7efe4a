-- ===== src/Web/Pollers/Done.antt =====
-- wolnut/web.py: what a handler of the pollers does, as a property of each request.
use wolnut_webui.Common.{String, Bool, true, false, List, [], ◌∷◌, ◌++◌, ◌≡◌, refl, Result, ok, err}
use wolnut_webui.Common.Dict.{Dict}
use wolnut_webui.Common.Value.{Value}
use wolnut_webui.Agent.{Exchange}
use wolnut_webui.Agent.Identity.{Presents, request-Presents}
use wolnut_webui.Web.{
  WebError, Site, WebEffect, agent_request, AgentCall, AgentCommand, status, unpair, shutdown,
  set_auto_update, update, Reply, Handler, after, continue, recover, ◌>>=◌, return, lift, catch,
}
use wolnut_webui.Web.Defaults.{read_config_or_default}
use wolnut_webui.Web.Results.{AgentReport, record_agent_result, write_state}
use wolnut_webui.Web.Rules.{effects_of}
use wolnut_webui.Web.Agents.{WebEnv, sent_if, agent_method, ask, record_result}
use wolnut_webui.Web.Pollers.{unless}

abbrev pub All : (WebEffect → Type 0) → List WebEffect → Type 0
All E [] = Unit
All E (e ∷ es) = E e × All E es

All-append :
    (E : WebEffect → Type 0) (xs ys : List WebEffect) → All E xs → All E ys → All E (xs ++ ys)
All-append E [] ys a b = b
All-append E (x ∷ xs) ys (p, a) b = (p, All-append E xs ys a b)

agent_method-sent :
    (env : WebEnv) (x : Exchange) (agent_id : String) (command : AgentCommand)
    → (agent_method env x agent_id command).0 ≡ true
    → Presents x agent_id
unfolding agent_method
agent_method-sent env x id status h = request-Presents env.str_value env.files id x h
agent_method-sent env x id unpair h = request-Presents env.str_value env.files id x h
agent_method-sent env x id update h = request-Presents env.str_value env.files id x h
agent_method-sent env x id (shutdown i c u) h = request-Presents env.str_value env.files id x h
agent_method-sent env x id (set_auto_update b) h = request-Presents env.str_value env.files id x h

-- Everything that the handler does has the property, from whatever files.
pub record Does {ℓ} {A : Type ℓ} (E : WebEffect → Type 0) (h : Handler A) : Type ℓ where
  pub at : (s : Site) → All E (effects_of (h s))

Does-after {ℓ} :
    {A : Type ℓ} (E : WebEffect → Type 0) (es : List WebEffect) (r : Reply A)
    → All E es
    → All E (effects_of r)
    → All E (effects_of (after es r))
Does-after E es (r, s, fs) a b = All-append E es fs a b

Does-continue {ℓ κ} :
    {A : Type ℓ} {B : Type κ} (E : WebEffect → Type 0) (r : Reply A) (f : A → Handler B)
    → All E (effects_of r)
    → ((a : A) → Does E (f a))
    → All E (effects_of (continue r f))
Does-continue E (ok a, s, es) f p keep = Does-after E es (f a s) p ((keep a).at s)
Does-continue E (err x, s, es) f p keep = p

pub Does-recover {ℓ} :
    {A : Type ℓ} (E : WebEffect → Type 0) (r : Reply A) (f : WebError → Handler A)
    → All E (effects_of r)
    → ((e : WebError) → Does E (f e))
    → All E (effects_of (recover r f))
Does-recover E (ok a, s, es) f p keep = p
Does-recover E (err x, s, es) f p keep = Does-after E es (f x s) p ((keep x).at s)

pub Does-bind {ℓ κ} :
    {E : WebEffect → Type 0} {A : Type ℓ} {B : Type κ} (h : Handler A) (f : A → Handler B)
    → Does E h
    → ((a : A) → Does E (f a))
    → Does E (h >>= f)
unfolding ◌>>=◌
Does-bind {E} h f d keep = record { at = λ s. Does-continue E (h s) f (d.at s) keep }

-- The rest may use what the first part returned.
pub Does-lift_bind {ℓ κ} :
    {E : WebEffect → Type 0} {A : Type ℓ} {B : Type κ} (r : Result WebError A) (f : A → Handler B)
    → ((a : A) → r ≡ ok a → Does E (f a))
    → Does E (lift r >>= f)
unfolding ◌>>=◌ lift
Does-lift_bind {E} (ok a) f keep = record {
  at = λ s. Does-after E [] (f a s) tt ((keep a refl).at s);
}
Does-lift_bind (err x) f keep = record { at = λ s. tt }

module _ {ℓ} {E : WebEffect → Type 0} {A : Type ℓ} where
  pub Does-catch :
      (h : Handler A) (f : WebError → Handler A)
      → Does E h
      → ((e : WebError) → Does E (f e))
      → Does E (catch h f)
  unfolding catch
  Does-catch h f d keep = record { at = λ s. Does-recover E (h s) f (d.at s) keep }

  pub Does-return : (a : A) → Does E (return a)
  unfolding return
  Does-return a = record { at = λ s. tt }

Does-sent_if :
    (E : WebEffect → Type 0) (b : Bool) (call : AgentCall)
    → (b ≡ true → E (agent_request call))
    → All E (sent_if b call)
Does-sent_if E true call keep = (keep refl, tt)
Does-sent_if E false call keep = tt

-- A report and the reading of the configuration do nothing.
module _ {E : WebEffect → Type 0} where
  pub Does-unless : (b : Bool) (h : Handler (Unit {0})) → Does E h → Does E (unless b h)
  Does-unless true h d = Does-return tt
  Does-unless false h d = d

  Does-write_state : (w : Bool) (r : Result WebError (Dict Value)) → Does E (write_state w r)
  unfolding write_state
  Does-write_state true (ok d) = record { at = λ s. tt }
  Does-write_state false (ok d) = record { at = λ s. tt }
  Does-write_state w (err x) = record { at = λ s. tt }

  pub Does-record_result : (env : WebEnv) (r : AgentReport) → Does E (record_result env r)
  unfolding record_result record_agent_result
  Does-record_result env r = record { at = λ s. (Does-write_state env.can_write_state _).at s }

  Does-read : (path : String) → Does E (read_config_or_default path)
  unfolding read_config_or_default
  Does-read path = record { at = λ s. tt }

  -- A request goes out only to an agent with its certificate.
  pub Does-ask :
      (env : WebEnv) (x : Exchange) (call : AgentCall)
      → (Presents x call.agent_id → E (agent_request call))
      → Does E (ask env x call)
  unfolding ask
  Does-ask env x call keep = record {
    at = λ s.
        Does-sent_if E (agent_method env x call.agent_id call.command).0 call
          (λ sent. keep (agent_method-sent env x call.agent_id call.command sent));
  }

All-map :
    (E F : WebEffect → Type 0) (es : List WebEffect)
    → ((e : WebEffect) → E e → F e)
    → All E es
    → All F es
All-map E F [] f a = tt
All-map E F (e ∷ es) f (p, a) = (f e p, All-map E F es f a)

pub Does-mono {ℓ} :
    {A : Type ℓ} (E F : WebEffect → Type 0) (h : Handler A)
    → ((e : WebEffect) → E e → F e)
    → Does E h
    → Does F h
Does-mono E F h f d = record { at = λ s. All-map E F (effects_of (h s)) f (d.at s) }

pub Does-read_first {ℓ κ} :
    {A : Type ℓ} {B : Type κ} (E : WebEffect → Type 0) (r : Result WebError A) (s : Site)
    (f : A → Handler B)
    → ((a : A) → r ≡ ok a → Does E (f a))
    → All E (effects_of (continue (r, s, []) f))
Does-read_first E (ok a) s f keep = (keep a refl).at s
Does-read_first E (err x) s f keep = tt
