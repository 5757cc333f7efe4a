-- ===== src/Web/Returned.antt =====
-- wolnut/web.py: what the parts of a handler that returned did, one rule for each way to build a handler.
use wolnut_webui.Common.{
  String, Bool, true, false, Option, none, some, List, [], ◌++◌, ◌≡◌, refl, sym, ap, ◌∙◌, Result,
  ok, err, arith,
}
use mathlib.Core.Path.{subst}
use mathlib.Core.List.{append-nil}
use wolnut_webui.Web.{
  WebError, agent_error, http, value_error, enrollment_error, os_error, other_error, Site,
  WebEffect, Reply, Handler, after, continue, ◌>>=◌, return, throw, lift, recover, catch, check,
  or_raise,
}
use wolnut_webui.Web.Agents.{only_agent}
use wolnut_webui.Web.Agents.Enroll.{only_enrollment}

-- The handler returned the value, left the files so, and did these things.
abbrev pub Returns {ℓ} : {A : Type ℓ} → Handler A → Site → A → Site → List WebEffect → Type ℓ
Returns h s a s' es = h s ≡ (ok a, s', es)

after-returned {ℓ} :
    {A : Type ℓ} (es : List WebEffect) (r : Reply A) (a : A) (s : Site) (fs : List WebEffect)
    → after es r ≡ (ok a, s, fs)
    → (gs : List WebEffect) × (r ≡ (ok a, s, gs)) × (es ++ gs ≡ fs)
after-returned es (ok b, t, gs) a s fs e = (gs, cc, cc)
after-returned es (err x, t, gs) a s fs e = absurd (ground arith)

drop_empty {ℓ} :
    {A : Type ℓ} (r : Reply A) {a : A} {s : Site} {es : List WebEffect}
    → after [] r ≡ (ok a, s, es)
    → r ≡ (ok a, s, es)
drop_empty (x, t, gs) e = e

returned-continue {ℓ κ ι} :
    {A : Type ℓ} {B : Type κ} {G : Type ι} (r : Reply A) (f : A → Handler B) (b : B) (s' : Site)
    (es : List WebEffect)
    → continue r f ≡ (ok b, s', es)
    → ((a : A) (t : Site) (early late : List WebEffect)
        → r ≡ (ok a, t, early)
        → f a t ≡ (ok b, s', late)
        → early ++ late ≡ es
        → G)
    → G
returned-continue (ok a, t, early) f b s' es e k =
    let (late, rest, both) = after-returned early (f a t) b s' es e in
    k a t early late refl rest both
returned-continue (err x, t, early) f b s' es e k = absurd (ground arith)

-- A sequence that returned: its first part did, and then the rest.
pub returned-bind {ℓ κ ι} :
    {A : Type ℓ} {B : Type κ} {G : Type ι} (h : Handler A) (f : A → Handler B) (s : Site) {b : B}
    {s' : Site} {es : List WebEffect}
    → Returns (h >>= f) s b s' es
    → ((a : A) (t : Site) (early late : List WebEffect)
        → Returns h s a t early
        → Returns (f a) t b s' late
        → early ++ late ≡ es
        → G)
    → G
unfolding ◌>>=◌
returned-bind h f s {b} {s'} {es} e k = returned-continue (h s) f b s' es e k

pub returned-lift {ℓ κ ι} :
    {A : Type ℓ} {B : Type κ} {G : Type ι} (r : Result WebError A) (f : A → Handler B) (s : Site)
    {b : B} {s' : Site} {es : List WebEffect}
    → Returns (lift r >>= f) s b s' es
    → ((a : A) → r ≡ ok a → Returns (f a) s b s' es → G)
    → G
unfolding ◌>>=◌ lift
returned-lift (ok a) f s e k = k a refl (drop_empty (f a s) e)
returned-lift (err x) f s e k = absurd (ground arith)

pub returned-or_raise {ℓ κ ι} :
    {A : Type ℓ} {B : Type κ} {G : Type ι} (o : Option A) (x : WebError) (f : A → Handler B)
    (s : Site) {b : B} {s' : Site} {es : List WebEffect}
    → Returns (or_raise o x >>= f) s b s' es
    → ((a : A) → o ≡ some a → Returns (f a) s b s' es → G)
    → G
unfolding ◌>>=◌ or_raise
returned-or_raise (some a) x f s e k = k a refl (drop_empty (f a s) e)
returned-or_raise none x f s e k = absurd (ground arith)

pub returned-check {κ ι} :
    {B : Type κ} {G : Type ι} (c : Bool) (x : WebError) (f : Unit {0} → Handler B) (s : Site)
    {b : B} {s' : Site} {es : List WebEffect}
    → Returns (check c x >>= f) s b s' es
    → (c ≡ true → Returns (f tt) s b s' es → G)
    → G
unfolding ◌>>=◌ check
returned-check true x f s e k = k refl (drop_empty (f tt s) e)
returned-check false x f s e k = absurd (ground arith)

-- The handler returns from no files.
pub record Raises {ℓ} {A : Type ℓ} (h : Handler A) : Type ℓ where
  pub never : (s : Site) (a : A) (s' : Site) (es : List WebEffect) → ¬ Returns h s a s' es

pub Raises-throw {ℓ} : {A : Type ℓ} (e : WebError) → Raises (throw {A = A} e)
unfolding throw
Raises-throw e = record { never = λ s a s' es h. ground arith }

pub Raises-bind {ℓ κ} :
    {A : Type ℓ} {B : Type κ} (h : Handler A) (f : A → Handler B)
    → ((a : A) → Raises (f a))
    → Raises (h >>= f)
Raises-bind h f never = record {
  never = λ s b s' es e.
      returned-bind h f s e λ a t early late e1 e2 both. (never a).never t b s' late e2;
}

pub Raises-only_agent {ℓ} :
    {A : Type ℓ} (f : String → Handler A) (e : WebError)
    → ((text : String) → Raises (f text))
    → Raises (only_agent f e)
unfolding only_agent
Raises-only_agent f (agent_error text) never = never text
Raises-only_agent f (http n t) never = Raises-throw (http n t)
Raises-only_agent f (value_error t) never = Raises-throw (value_error t)
Raises-only_agent f (enrollment_error t) never = Raises-throw (enrollment_error t)
Raises-only_agent f os_error never = Raises-throw os_error
Raises-only_agent f other_error never = Raises-throw other_error

pub Raises-only_enrollment {ℓ} :
    {A : Type ℓ} (f : String → Handler A) (e : WebError)
    → ((text : String) → Raises (f text))
    → Raises (only_enrollment f e)
unfolding only_enrollment
Raises-only_enrollment f (enrollment_error text) never = never text
Raises-only_enrollment f (http n t) never = Raises-throw (http n t)
Raises-only_enrollment f (value_error t) never = Raises-throw (value_error t)
Raises-only_enrollment f (agent_error t) never = Raises-throw (agent_error t)
Raises-only_enrollment f os_error never = Raises-throw os_error
Raises-only_enrollment f other_error never = Raises-throw other_error

returned-recover {ℓ} :
    {A : Type ℓ} (r : Reply A) (g : WebError → Handler A) (a : A) (s' : Site) (es : List WebEffect)
    → recover r g ≡ (ok a, s', es)
    → ((e : WebError) → Raises (g e))
    → r ≡ (ok a, s', es)
returned-recover (ok b, s, fs) g a s' es e never = e
returned-recover (err x, s, fs) g a s' es e never =
    let (late, rest, both) = after-returned fs (g x s) a s' es e in
    absurd ((never x).never s a s' late rest)

-- A handler whose exceptions are turned into others, and that returned.
pub returned-catch {ℓ} :
    {A : Type ℓ} (h : Handler A) (g : WebError → Handler A) (s : Site) {a : A} {s' : Site}
    {es : List WebEffect}
    → Returns (catch h g) s a s' es
    → ((e : WebError) → Raises (g e))
    → Returns h s a s' es
unfolding catch
returned-catch h g s {a} {s'} {es} e never = returned-recover (h s) g a s' es e never

pub ruleset raises_rules = (Raises-throw, Raises-bind, Raises-only_agent, Raises-only_enrollment)

-- A handler that returned and did nothing.
abbrev pub Still {ℓ} : {A : Type ℓ} → (Site → A → Type 0) → Handler A → Type ℓ
Still {A} P h =
    (s : Site) (a : A) (t : Site) (es : List WebEffect)
    → Returns h s a t es
    → P s a × (t ≡ s) × (es ≡ [])

pub Still-tried :
    {A : Type 0} (r : Result WebError A) (g : WebError → WebError)
    → Still (λ s a. r ≡ ok a) (catch (lift r) (λ e. throw (g e)))
unfolding catch lift throw
Still-tried (ok b) g s a t es e = (cc, cc, cc)
Still-tried (err x) g s a t es e = absurd (ground arith)

-- What follows a handler that does nothing.
pub returned-Still {ℓ κ ι} :
    {A : Type ℓ} {B : Type κ} {G : Type ι} (P : Site → A → Type 0) (h : Handler A)
    (f : A → Handler B) (s : Site) {b : B} {s' : Site} {es : List WebEffect}
    → Still P h
    → Returns (h >>= f) s b s' es
    → ((a : A) → P s a → Returns (f a) s b s' es → G)
    → G
returned-Still P h f s {b} {s'} {es} still e k = returned-bind h f s e λ a t early late e1 e2 both.
    let (p, same, nothing) = still s a t early e1 in
    k a p (
      subst (λ u. f a u ≡ (ok b, s', es)) same
        (e2 ∙ ap (λ l. (ok b, s', l)) (sym (ap (λ l. l ++ late) nothing) ∙ both)))

pub return-returned {ℓ} :
    {A : Type ℓ} (x : A) (s : Site) {a : A} {s' : Site} {es : List WebEffect}
    → Returns (return x) s a s' es
    → (x ≡ a) × (s ≡ s') × (es ≡ [])
unfolding return
return-returned x s e = (cc, cc, cc)

pub append-empty {ℓ} : {A : Type ℓ} (xs ys zs : List A) → ys ≡ [] → xs ++ ys ≡ zs → xs ≡ zs
append-empty xs ys zs e h = simp (append-nil, e) at h
