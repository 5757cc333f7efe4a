-- ===== src/Web/Rules.antt =====
-- wolnut/web.py: invariants of handlers, one rule for each way to build a handler.
use wolnut_webui.Common.{
  String, Bool, true, false, Option, none, some, List, [], ◌≡◌, refl, Result, ok, err,
}
use wolnut_webui.Web.{
  WebError, agent_error, http, value_error, enrollment_error, os_error, other_error, Site,
  WebEffect, Reply, Handler, after, continue, ◌>>=◌, return, throw, lift, recover, catch, emit,
  check, or_raise,
}
use wolnut_webui.Web.Agents.{only_agent}
use wolnut_webui.Web.Agents.Enroll.{only_enrollment}

abbrev pub result_of {ℓ} : {A : Type ℓ} → Reply A → Result WebError A
result_of (r, s, es) = r

abbrev pub site_of {ℓ} : {A : Type ℓ} → Reply A → Site
site_of (r, s, es) = s

abbrev pub effects_of {ℓ} : {A : Type ℓ} → Reply A → List WebEffect
effects_of (r, s, es) = es

-- The handler keeps a property of the files, whether it returns or raises.
pub record Keeps {ℓ} {A : Type ℓ} (P : Site → Type 0) (h : Handler A) : Type ℓ where
  pub at : (s : Site) → P s → P (site_of (h s))

site_of-after {ℓ} :
    {A : Type ℓ} (P : Site → Type 0) (es : List WebEffect) (r : Reply A)
    → P (site_of r)
    → P (site_of (after es r))
site_of-after P es (r, s, fs) p = p

continue-Keeps {ℓ κ} :
    {A : Type ℓ} {B : Type κ} (P : Site → Type 0) (r : Reply A) (f : A → Handler B)
    → P (site_of r)
    → ((a : A) → Keeps P (f a))
    → P (site_of (continue r f))
continue-Keeps P (ok a, s, es) f p keep = site_of-after P es (f a s) ((keep a).at s p)
continue-Keeps P (err e, s, es) f p keep = p

recover-Keeps {ℓ} :
    {A : Type ℓ} (P : Site → Type 0) (r : Reply A) (f : WebError → Handler A)
    → P (site_of r)
    → ((e : WebError) → Keeps P (f e))
    → P (site_of (recover r f))
recover-Keeps P (ok a, s, es) f p keep = p
recover-Keeps P (err e, s, es) f p keep = site_of-after P es (f e s) ((keep e).at s p)

pub Keeps-bind {ℓ κ} :
    {P : Site → Type 0} {A : Type ℓ} {B : Type κ} (h : Handler A) (f : A → Handler B)
    → Keeps P h
    → ((a : A) → Keeps P (f a))
    → Keeps P (h >>= f)
unfolding ◌>>=◌
Keeps-bind {P} h f k keep = record { at = λ s p. continue-Keeps P (h s) f (k.at s p) keep }

module _ {ℓ} {P : Site → Type 0} {A : Type ℓ} where
  pub Keeps-catch :
      (h : Handler A) (f : WebError → Handler A)
      → Keeps P h
      → ((e : WebError) → Keeps P (f e))
      → Keeps P (catch h f)
  unfolding catch
  Keeps-catch h f k keep = record { at = λ s p. recover-Keeps P (h s) f (k.at s p) keep }

  pub Keeps-return : (a : A) → Keeps P (return a)
  unfolding return
  Keeps-return a = record { at = λ s p. p }

  pub Keeps-throw : (e : WebError) → Keeps P (throw {A = A} e)
  unfolding throw
  Keeps-throw e = record { at = λ s p. p }

  pub Keeps-lift : (r : Result WebError A) → Keeps P (lift r)
  unfolding lift
  Keeps-lift r = record { at = λ s p. p }

  pub Keeps-or_raise : (o : Option A) (e : WebError) → Keeps P (or_raise o e)
  unfolding or_raise
  Keeps-or_raise none e = record { at = λ s p. p }
  Keeps-or_raise (some a) e = record { at = λ s p. p }

  pub Keeps-only_agent :
      (f : String → Handler A) (e : WebError)
      → ((text : String) → Keeps P (f text))
      → Keeps P (only_agent f e)
  unfolding only_agent throw
  Keeps-only_agent f (agent_error text) keep = keep text
  Keeps-only_agent f (http n t) keep = record { at = λ s p. p }
  Keeps-only_agent f (value_error t) keep = record { at = λ s p. p }
  Keeps-only_agent f (enrollment_error t) keep = record { at = λ s p. p }
  Keeps-only_agent f os_error keep = record { at = λ s p. p }
  Keeps-only_agent f other_error keep = record { at = λ s p. p }

  pub Keeps-only_enrollment :
      (f : String → Handler A) (e : WebError)
      → ((text : String) → Keeps P (f text))
      → Keeps P (only_enrollment f e)
  unfolding only_enrollment throw
  Keeps-only_enrollment f (enrollment_error text) keep = keep text
  Keeps-only_enrollment f (http n t) keep = record { at = λ s p. p }
  Keeps-only_enrollment f (value_error t) keep = record { at = λ s p. p }
  Keeps-only_enrollment f (agent_error t) keep = record { at = λ s p. p }
  Keeps-only_enrollment f os_error keep = record { at = λ s p. p }
  Keeps-only_enrollment f other_error keep = record { at = λ s p. p }

-- What follows may use what the first part returned.
pub Keeps-tried {ℓ κ} :
    {P : Site → Type 0} {A : Type ℓ} {B : Type κ} (r : Result WebError A) (g : WebError → WebError)
    (f : A → Handler B)
    → ((a : A) → r ≡ ok a → Keeps P (f a))
    → Keeps P (catch (lift r) (λ e. throw (g e)) >>= f)
unfolding ◌>>=◌ catch lift throw
Keeps-tried {P} (ok a) g f keep = record {
  at = λ s p. site_of-after P [] (f a s) ((keep a refl).at s p);
}
Keeps-tried (err e) g f keep = record { at = λ s p. p }

module _ {P : Site → Type 0} where
  pub Keeps-emit : (e : WebEffect) → Keeps P (emit e)
  unfolding emit
  Keeps-emit e = record { at = λ s p. p }

  pub Keeps-check : (b : Bool) (e : WebError) → Keeps P (check b e)
  unfolding check
  Keeps-check true e = record { at = λ s p. p }
  Keeps-check false e = record { at = λ s p. p }

pub ruleset keeps_rules = (
  Keeps-bind, Keeps-catch, Keeps-return, Keeps-throw, Keeps-lift, Keeps-or_raise, Keeps-emit,
  Keeps-check, Keeps-only_agent, Keeps-only_enrollment,
)
