-- ===== src/Web/Pollers/Asked.antt =====
-- wolnut/web.py: which agents a round of `_agent_auto_update_poller` asks for an update.
use wolnut_webui.Common.{
  ℕ, ◌<◌, String, true, false, none, some, List, [], ◌∷◌, ◌≡◌, refl, sym, ap, ◌∙◌, ok, inl, inr,
  arith, eq_iff, Bool-cases, Result-cases, str_eq,
}
use wolnut_webui.Common.Dict.{Dict, lookup, insert, lookup-insert}
use wolnut_webui.Common.Value.{Value}
use wolnut_webui.Agent.Identity.{Presents}
use mathlib.Core.Path.{subst}
use wolnut_webui.Web.{
  WebError, Site, WebEffect, agent_request, AgentCall, update, ◌>>=◌, return, catch,
}
use wolnut_webui.Web.Clients.{agent_call}
use wolnut_webui.Web.Defaults.{read_config_or_default}
use wolnut_webui.Web.Rules.{effects_of}
use wolnut_webui.Web.Agents.{WebEnv}
use wolnut_webui.Web.Agents.Outcomes.{agent_call-for}
use wolnut_webui.Web.Agents.Steps.{effective}
use wolnut_webui.Web.Pollers.{
  clients_of, Target, is_recent, update_target, ignore, update_failure, trigger_update,
  update_clients, auto_update_round,
}
use wolnut_webui.Web.Pollers.Done.{
  All, Does, Does-recover, Does-bind, Does-lift_bind, Does-catch, Does-return, Does-unless,
  Does-record_result, Does-ask, Does-mono, Does-read_first,
}
use wolnut_webui.Web.Pollers.Targets.{In, IsDueUpdate, IsTarget, at_first, update_target-IsTarget}

just_asked : (interval now : ℕ) → 10 < interval → is_recent interval now (some now) ≡ true
just_asked interval now long = ground arith

module _ (env : WebEnv) (interval : ℕ) (clock : String → ℕ) (last : Dict ℕ) (all : List Value) where
  abbrev Due : WebEffect → Type 0
  Due e = IsDueUpdate env interval clock last all e

  Does-failure : (name : String) (e : WebError) → Does Due (update_failure env name e)
  unfolding update_failure ignore
  Does-failure name e =
      Does-unless _ _ (Does-catch _ _ (Does-record_result env _) (λ x. Does-return tt))

  target-Due :
      (v : Value) (t : Target) (call : AgentCall)
      → In v all
      → IsTarget interval clock last v t
      → call.agent_id ≡ t.agent_id
      → call.command ≡ update
      → Presents (env.exchange call) call.agent_id
      → Due (agent_request call)
  target-Due v t call there i who what presents = record {
    entry = v;
    client = t.client;
    shutdown = i.shutdown;
    name = t.name;
    call = call;
    listed = there;
    read = i.read;
    named = i.named;
    settings = i.settings;
    on = i.on;
    agent = i.agent ∙ ap (λ x. ok (some x)) (sym who);
    enabled = i.enabled;
    due = i.due;
    presents = presents;
    command = what;
    sent = refl;
  }

  Does-trigger :
      (v : Value) (t : Target)
      → In v all
      → IsTarget interval clock last v t
      → Does Due (trigger_update env t)
  unfolding trigger_update
  Does-trigger v t there i =
      Does-catch _ _
        (Does-lift_bind (agent_call env.int_value t.client t.agent_id update) _ λ call e.
          let (who, what) = agent_call-for env.int_value t.client t.agent_id update e in
          Does-bind _ _
            (Does-ask env (env.exchange call) call (target-Due v t call there i who what))
            (λ a. Does-record_result env _))
        (Does-failure t.name)

  -- The times that a round begins with are no later than those that it writes.
  abbrev Older : Dict ℕ → Type 0
  Older now =
      (name : String)
      → is_recent interval (clock name) (lookup name now) ≡ false
      → is_recent interval (clock name) (lookup name last) ≡ false

  Older-insert :
      (now : Dict ℕ) (name : String)
      → 10 < interval
      → Older now
      → Older (insert name (clock name) now)
  Older-insert now name long older other h = elim (Bool-cases (str_eq name other)) [
    | inl e ↦
        let same : name ≡ other = ground (arith, eq_iff name other) in
        let asked = just_asked interval (clock name) long in
        let at_name : is_recent interval (clock name) (lookup name (insert name (clock name) now))
            ≡ false =
          subst
            (λ n. is_recent interval (clock n) (lookup n (insert name (clock name) now)) ≡ false)
            (sym same) h in
        let written = lookup-insert name name (clock name) now in
        absurd (ground (arith, eq_iff name name))
    | inr e ↦ older other (ground (arith, lookup-insert name other (clock name) now))
  ]

  Does-update_clients :
      (vs : List Value) (now : Dict ℕ)
      → 10 < interval
      → ((v : Value) → In v vs → In v all)
      → Older now
      → Does Due (update_clients env interval clock vs now)
  unfolding update_clients
  Does-update_clients [] now long part older = Does-return now
  Does-update_clients (v ∷ vs) now long part older =
      let later : (w : Value) → In w vs → In w all = λ w i. part w (inr i) in
      elim (Result-cases (update_target interval clock now v)) [
        | inr (x, e) ↦ rw (update_clients, e) (Does-return now)
        | inl (none, e) ↦ rw (update_clients, e) (Does-update_clients vs now long later older)
        | inl (some t, e) ↦
            let i = update_target-IsTarget interval clock now v t e in
            rw (update_clients, e)
              (Does-bind _ _
                (Does-trigger v t (part v (inl refl))
                  (at_first interval clock now last v t i (older t.name i.due)))
                λ u.
                  Does-update_clients vs (insert t.name (clock t.name) now) long later
                    (Older-insert now t.name long older))
      ]

-- An update that is due for one of the clients in the configuration.
pub record IsAskedFor (env : WebEnv) (interval : ℕ) (clock : String → ℕ) (last : Dict ℕ) (s : Site)
    (e : WebEffect) : Type 0 where
  pub raw : Dict Value
  pub clients : List Value
  pub read : effective env s ≡ ok raw
  pub listed : clients_of (lookup "clients" raw) ≡ ok clients
  pub due : IsDueUpdate env interval clock last clients e

-- Where the interval is above ten seconds, all that a round of the loop sends out are requests for an
-- update, and each is for an entry of the configuration that the round has read: a client with
-- `auto_update` set, an agent and not disabled, whose last request before the round is at least the
-- interval less ten seconds old, and the agent that gets it presents its certificate.
pub auto_update_round-AreDue :
    (env : WebEnv) (interval : ℕ) (clock : String → ℕ) (last : Dict ℕ) (s : Site)
    → 10 < interval
    → All
        (IsAskedFor env interval clock last s)
        (effects_of (auto_update_round env interval clock last s))
unfolding auto_update_round ◌>>=◌ catch read_config_or_default
auto_update_round-AreDue env interval clock last s long =
    let E : WebEffect → Type 0 = IsAskedFor env interval clock last s in
    Does-recover E _ (λ e. return last)
      (Does-read_first E (effective env s) s _ λ raw e.
        Does-lift_bind (clients_of (lookup "clients" raw)) _ λ vs e2.
          Does-mono (IsDueUpdate env interval clock last vs) E _
            (λ x due. record { raw = raw; clients = vs; read = e; listed = e2; due = due })
            (Does-update_clients env interval clock last vs vs last long (λ v i. i) (λ n h. h)))
      (λ e. Does-return last)
