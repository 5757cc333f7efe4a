-- ===== src/Web/Pollers/Polled.antt =====
-- wolnut/web.py: whom a round of `_agent_version_poller` asks, and for what.
use wolnut_webui.Common.{
  String, none, some, List, [], ◌∷◌, ◌≡◌, refl, sym, ap, ◌∙◌, ok, inl, inr, arith, Result-cases,
}
use wolnut_webui.Common.Dict.{Dict, lookup}
use wolnut_webui.Common.Value.{Value}
use wolnut_webui.Agent.Identity.{Presents}
use wolnut_webui.Web.{Site, WebEffect, agent_request, AgentCall, status, ◌>>=◌, return, catch}
use wolnut_webui.Web.Store.{dict_of}
use wolnut_webui.Web.Clients.{agent_id_of, agent_call}
use wolnut_webui.Web.Defaults.{read_config_or_default}
use wolnut_webui.Web.Rules.{effects_of}
use wolnut_webui.Web.Settings.{name_of}
use wolnut_webui.Web.Agents.{WebEnv}
use wolnut_webui.Web.Agents.Outcomes.{agent_call-for}
use wolnut_webui.Web.Agents.Steps.{effective}
use wolnut_webui.Web.Pollers.{
  clients_of, GlobalLatest, ignore, paired_client, poll_agent, poll_agents, version_round,
}
use wolnut_webui.Web.Pollers.Done.{
  All, Does, Does-recover, Does-bind, Does-lift_bind, Does-catch, Does-return, Does-record_result,
  Does-ask, Does-mono, Does-read_first,
}
use wolnut_webui.Web.Pollers.Targets.{In}

-- A request for the status of a client's agent.
pub record IsStatusOf (env : WebEnv) (vs : List Value) (e : WebEffect) : Type 0 where
  pub entry : Value
  pub client : Dict Value
  pub call : AgentCall
  pub listed : In entry vs
  pub read : dict_of entry ≡ ok client
  pub agent : agent_id_of client ≡ ok (some call.agent_id)
  pub presents : Presents (env.exchange call) call.agent_id
  pub command : call.command ≡ status
  pub sent : e ≡ agent_request call

paired_client-agent :
    (v : Value) (c : Dict Value) (id : String)
    → paired_client v ≡ ok (some (c, id))
    → (dict_of v ≡ ok c) × (agent_id_of c ≡ ok (some id))
paired_client-agent v c id h = elim (Result-cases (dict_of v)) [
  | inr (x, e1) ↦ absurd (ground arith)
  | inl (c', e1) ↦ elim (Result-cases (agent_id_of c')) [
    | inr (x, e2) ↦ absurd (ground arith)
    | inl (none, e2) ↦ absurd (ground arith)
    | inl (some id', e2) ↦ (grind arith, grind arith)
  ]
]

module _ (env : WebEnv) (g : GlobalLatest) (all : List Value) where
  Does-poll_agent :
      (v : Value) (c : Dict Value) (id : String)
      → In v all
      → dict_of v ≡ ok c
      → agent_id_of c ≡ ok (some id)
      → Does (IsStatusOf env all) (poll_agent env g c id)
  unfolding poll_agent ignore
  Does-poll_agent v c id there read agent =
      Does-catch _ _
        (Does-lift_bind (agent_call env.int_value c id status) _ λ call e.
          let (who, what) = agent_call-for env.int_value c id status e in
          Does-bind _ _
            (Does-ask env (env.exchange call) call λ p. record {
              entry = v;
              client = c;
              call = call;
              listed = there;
              read = read;
              agent = agent ∙ ap (λ x. ok (some x)) (sym who);
              presents = p;
              command = what;
              sent = refl;
            })
            λ a. Does-lift_bind (name_of (lookup "name" c)) _ λ n e2. Does-record_result env _)
        λ x.
          Does-catch _ _
            (Does-lift_bind (name_of (lookup "name" c)) _ λ n e2. Does-record_result env _)
            λ y. Does-return tt

  Does-poll_agents :
      (vs : List Value)
      → ((v : Value) → In v vs → In v all)
      → Does (IsStatusOf env all) (poll_agents env g vs)
  unfolding poll_agents
  Does-poll_agents [] part = Does-return tt
  Does-poll_agents (v ∷ vs) part =
      let rest = Does-poll_agents vs (λ w i. part w (inr i)) in
      elim (Result-cases (paired_client v)) [
        | inr (x, e) ↦ rw (poll_agents, e) (Does-return tt)
        | inl (none, e) ↦ rw (poll_agents, e) rest
        | inl (some (c, id), e) ↦
            let (read, agent) = paired_client-agent v c id e in
            rw (poll_agents, e)
              (Does-bind _ _ (Does-poll_agent v c id (part v (inl refl)) read agent) λ u. rest)
      ]

pub record IsPolled (env : WebEnv) (s : Site) (e : WebEffect) : Type 0 where
  pub raw : Dict Value
  pub clients : List Value
  pub read : effective env s ≡ ok raw
  pub listed : clients_of (lookup "clients" raw) ≡ ok clients
  pub asked : IsStatusOf env clients e

-- All that a round of the poller of the versions sends out are requests for a status, each to the agent
-- of an entry of the configuration that the round has read, over a connection on which the agent presents
-- its certificate.
pub version_round-ArePolled :
    (env : WebEnv) (g : GlobalLatest) (s : Site)
    → All (IsPolled env s) (effects_of (version_round env g s))
unfolding version_round ignore ◌>>=◌ catch read_config_or_default
version_round-ArePolled env g s =
    let E : WebEffect → Type 0 = IsPolled env s in
    Does-recover E _ (λ e. return tt)
      (Does-read_first E (effective env s) s _ λ raw e.
        Does-lift_bind (clients_of (lookup "clients" raw)) _ λ vs e2.
          Does-mono (IsStatusOf env vs) E _
            (λ x asked. record { raw = raw; clients = vs; read = e; listed = e2; asked = asked })
            (Does-poll_agents env g vs vs (λ v i. i)))
      (λ e. Does-return tt)
