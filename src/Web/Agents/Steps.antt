-- ===== src/Web/Agents/Steps.antt =====
-- wolnut/web.py: what the shared steps of the handlers for agents did, where the handler returned.
use wolnut_webui.Common.{
  String, Bool, true, false, none, some, List, [], ◌∷◌, ◌++◌, ◌≡◌, refl, sym, ap, ◌∙◌, Result, ok,
  err, arith, inl, inr, Result-cases,
}
use wolnut_webui.Common.Dict.{Dict}
use wolnut_webui.Common.Value.{Value, obj, Fields, entries, to_fields}
use wolnut_webui.Agent.{IdentityFiles, Exchange, request}
use wolnut_webui.Agent.Pinned.{bind-ok}
use wolnut_webui.Config.Clients.{validate_config}
use wolnut_webui.Agent.Identity.{Presents, request-Presents, response-sent}
use wolnut_webui.Agent
use mathlib.Core.Path.{subst}
use wolnut_webui.Web.{
  WebError, Site, WebEffect, AgentCall, AgentCommand, status, shutdown, update, unpair,
  set_auto_update, agent_request, holds, Handler, ◌>>=◌, lift, catch, or_raise, return,
}
use wolnut_webui.Web.Store.{
  read_config, current_config, operate, write_config, update_config, validated,
}
use wolnut_webui.Web.Defaults.{read_config_or_default, config_or_default}
use wolnut_webui.Web.Clients.{find_client, agent_id_of, edit_client}
use wolnut_webui.Web.Clients.Edit.{IsEdit, edit_client-IsEdit}
use wolnut_webui.Web.Results.{
  AgentReport, read_state, reported_state, record_agent_result, write_state,
}
use wolnut_webui.Web.Returned.{
  Returns, Raises, returned-bind, returned-catch, Still, returned-Still,
}
use wolnut_webui.Web.Agents.{WebEnv, named_client, paired_id, agent_method, ask, record_result}
use wolnut_webui.Web.Agents.Pairing.{save, persist}

paired_id-Still : (c : Dict Value) → Still (λ s id. agent_id_of c ≡ ok (some id)) (paired_id c)
unfolding paired_id lift or_raise ◌>>=◌
paired_id-Still c s id t es e = elim (Result-cases (agent_id_of c)) [
  | inl (some x, h) ↦ (ground arith, ground arith, ground arith)
  | inl (none, h) ↦ absurd (ground arith)
  | inr (x, h) ↦ absurd (ground arith)
]

pub returned-paired_id {κ ι} :
    {B : Type κ} {G : Type ι} (c : Dict Value) (f : String → Handler B) (s : Site) {b : B}
    {s' : Site} {es : List WebEffect}
    → Returns (paired_id c >>= f) s b s' es
    → ((id : String) → agent_id_of c ≡ ok (some id) → Returns (f id) s b s' es → G)
    → G
returned-paired_id c f s e k =
    returned-Still (λ s id. agent_id_of c ≡ ok (some id)) (paired_id c) f s (paired_id-Still c) e k

-- The configuration that the handlers read, with its defaults.
abbrev pub effective : WebEnv → Site → Result WebError (Dict Value)
effective env s = (read_config_or_default env.status_path s).0

named_client-Still :
    (env : WebEnv) (name : String)
    → Still
        (λ s p. (effective env s ≡ ok p.0) × (find_client name p.0 ≡ ok p.1))
        (named_client env name)
unfolding named_client lift return ◌>>=◌ read_config_or_default
named_client-Still env name s p t es e =
    elim (Result-cases (config_or_default env.status_path (read_config s.config_file))) [
      | inl (raw, h) ↦ elim (Result-cases (find_client name raw)) [
        | inl (c, g) ↦ ((ground arith, ground arith), ground arith, ground arith)
        | inr (x, g) ↦ absurd (ground arith)
      ]
      | inr (x, h) ↦ absurd (ground arith)
    ]

pub returned-named_client {κ ι} :
    {B : Type κ} {G : Type ι} (env : WebEnv) (name : String)
    (f : Dict Value × Dict Value → Handler B) (s : Site) {b : B} {s' : Site} {es : List WebEffect}
    → Returns (named_client env name >>= f) s b s' es
    → ((raw c : Dict Value)
        → effective env s ≡ ok raw
        → find_client name raw ≡ ok c
        → Returns (f (raw, c)) s b s' es
        → G)
    → G
returned-named_client env name f s e k =
    returned-Still (λ s p. (effective env s ≡ ok p.0) × (find_client name p.0 ≡ ok p.1))
      (named_client env name) f s (named_client-Still env name) e
      λ p (h, g) rest. k p.0 p.1 h g rest

status-sent :
    (str_value : Value → String) (files : IdentityFiles) (agent_id : String) (x : Exchange)
    {d : Dict Value}
    → Agent.status str_value files agent_id x ≡ ok d
    → (request str_value files agent_id x).0 ≡ true
unfolding Agent.status
status-sent str_value files agent_id x h =
    let (r, e, f) = bind-ok (request str_value files agent_id x).1 _ h in
    response-sent str_value files agent_id x e

agent_method-Presents :
    (env : WebEnv) (x : Exchange) (agent_id : String) (command : AgentCommand) {d : Dict Value}
    → (agent_method env x agent_id command).1 ≡ ok d
    → ((agent_method env x agent_id command).0 ≡ true) × Presents x agent_id
unfolding agent_method
agent_method-Presents env x id status h =
    let sent = status-sent env.str_value env.files id x h in
    (sent, request-Presents env.str_value env.files id x sent)
agent_method-Presents env x id unpair h =
    let sent = response-sent env.str_value env.files id x h in
    (sent, request-Presents env.str_value env.files id x sent)
agent_method-Presents env x id update h =
    let sent = response-sent env.str_value env.files id x h in
    (sent, request-Presents env.str_value env.files id x sent)
agent_method-Presents env x id (shutdown i c u) h =
    let sent = response-sent env.str_value env.files id x h in
    (sent, request-Presents env.str_value env.files id x sent)
agent_method-Presents env x id (set_auto_update b) h =
    let sent = response-sent env.str_value env.files id x h in
    (sent, request-Presents env.str_value env.files id x sent)

-- The agent presented its certificate and got the request.
pub ask-Presents :
    (env : WebEnv) (x : Exchange) (call : AgentCall) (s : Site) (a : Dict Value) (t : Site)
    (es : List WebEffect)
    → Returns (ask env x call) s a t es
    → Presents x call.agent_id × (t ≡ s) × (es ≡ agent_request call ∷ [])
unfolding ask
ask-Presents env x call s a t es e =
    elim (Result-cases (agent_method env x call.agent_id call.command).1) [
      | inl (d, h) ↦
          let (sent, presents) = agent_method-Presents env x call.agent_id call.command h in
          (presents, ground arith, ground arith)
      | inr (y, h) ↦ absurd (ground arith)
    ]

-- A request to an agent whose exceptions the handler turns into its own.
pub returned-ask {κ ι} :
    {B : Type κ} {G : Type ι} (env : WebEnv) (x : Exchange) (call : AgentCall)
    (g : WebError → Handler (Dict Value)) (f : Dict Value → Handler B) (s : Site) {b : B}
    {s' : Site} {es : List WebEffect}
    → Returns (catch (ask env x call) g >>= f) s b s' es
    → ((e : WebError) → Raises (g e))
    → ((a : Dict Value) (late : List WebEffect)
        → Presents x call.agent_id
        → Returns (f a) s b s' late
        → es ≡ agent_request call ∷ late
        → G)
    → G
returned-ask env x call g f s {b} {s'} {es} e never k =
    returned-bind (catch (ask env x call) g) f s e λ a t early late e1 e2 both.
      let (presents, same, sent) =
        ask-Presents env x call s a t early (returned-catch (ask env x call) g s e1 never) in
      k a late presents (subst (λ u. f a u ≡ (ok b, s', late)) same e2)
        (sym (sym (ap (λ l. l ++ late) sent) ∙ both))

-- The write of the configuration, and what stood there.
abbrev pub with_config : Site → Dict Value → Site
with_config s d = record s { config_file = holds (obj (to_fields d)) }

abbrev pub with_state : Site → Dict Value → Site
with_state s d = record s { state_file = holds (obj (to_fields d)) }

pub update_config-returned :
    (f : Dict Value → Result WebError (Dict Value)) (w : Bool) (s : Site) (d : Dict Value)
    (t : Site) (es : List WebEffect)
    → Returns (update_config f w) s d t es
    → (operate f (current_config s.config_file) ≡ ok d) × (t ≡ with_config s d) × (es ≡ [])
unfolding update_config write_config
update_config-returned f true s d t es e =
    elim (Result-cases (operate f (current_config s.config_file))) [
      | inl (x, h) ↦
          let same : x ≡ d = ground arith in (h ∙ ap (λ y. ok y) same, ground arith, ground arith)
      | inr (x, h) ↦ absurd (ground arith)
    ]
update_config-returned f false s d t es e =
    elim (Result-cases (operate f (current_config s.config_file))) [
      | inl (x, h) ↦ absurd (ground arith)
      | inr (x, h) ↦ absurd (ground arith)
    ]

pub operate-fields :
    (f : Dict Value → Result WebError (Dict Value)) (r : Result WebError Value) (d : Dict Value)
    → operate f r ≡ ok d
    → (fs : Fields) × (r ≡ ok (obj fs)) × (f (entries fs) ≡ ok d)
operate-fields f (err x) d h = absurd (ground arith)
operate-fields f (ok Value.null) d h = absurd (ground arith)
operate-fields f (ok (Value.bool x)) d h = absurd (ground arith)
operate-fields f (ok (Value.int x)) d h = absurd (ground arith)
operate-fields f (ok (Value.neg x)) d h = absurd (ground arith)
operate-fields f (ok (Value.real x)) d h = absurd (ground arith)
operate-fields f (ok (Value.str x)) d h = absurd (ground arith)
operate-fields f (ok (Value.arr x)) d h = absurd (ground arith)
operate-fields f (ok (obj fs)) d h = (fs, refl, h)

pub persist-IsEdit :
    (env : WebEnv) (name : String) (f : Dict Value → Result WebError (Dict Value))
    (raw d : Dict Value)
    → persist env name f raw ≡ ok d
    → IsEdit name f raw d
unfolding persist validated
persist-IsEdit env name f raw d h = elim (Result-cases (edit_client name f raw)) [
  | inl (x, e) ↦ elim (Result-cases (validate_config env.str_value (obj (to_fields x)))) [
    | inl (u, g) ↦
        let same : x ≡ d = ground arith in
        subst (IsEdit name f raw) same (edit_client-IsEdit name f raw x e)
    | inr (y, g) ↦ absurd (ground arith)
  ]
  | inr (y, e) ↦ absurd (ground arith)
]

-- An edit that was saved.
pub save-returned :
    (env : WebEnv) (name : String) (f : Dict Value → Result WebError (Dict Value)) (s : Site)
    (d : Dict Value) (t : Site) (es : List WebEffect)
    → Returns (save env name f) s d t es
    → (fs : Fields) × (current_config s.config_file ≡ ok (obj fs))
      × IsEdit name f (entries fs) d
      × (t ≡ with_config s d)
      × (es ≡ [])
unfolding save
save-returned env name f s d t es e =
    let (h, same, nothing) =
      update_config-returned (persist env name f) env.can_write_config s d t es e in
    let (fs, there, edit) =
      operate-fields (persist env name f) (current_config s.config_file) d h in
    (fs, there, persist-IsEdit env name f (entries fs) d edit, same, nothing)

pub returned-save {κ ι} :
    {B : Type κ} {G : Type ι} (env : WebEnv) (name : String)
    (f : Dict Value → Result WebError (Dict Value)) (k : Dict Value → Handler B) (s : Site) {b : B}
    {s' : Site} {es : List WebEffect}
    → Returns (save env name f >>= k) s b s' es
    → ((fs : Fields) (d : Dict Value)
        → current_config s.config_file ≡ ok (obj fs)
        → IsEdit name f (entries fs) d
        → Returns (k d) (with_config s d) b s' es
        → G)
    → G
returned-save env name f k s {b} {s'} {es} e g =
    returned-bind (save env name f) k s e λ d t early late e1 e2 both.
      let (fs, there, edit, same, nothing) = save-returned env name f s d t early e1 in
      g fs d there edit (
        subst (λ u. k d u ≡ (ok b, s', es)) same
          (e2 ∙ ap (λ l. (ok b, s', l)) (sym (ap (λ l. l ++ late) nothing) ∙ both)))

write_state-returned :
    (w : Bool) (r : Result WebError (Dict Value)) (s : Site) (u : Unit {0}) (t : Site)
    (es : List WebEffect)
    → Returns (write_state w r) s u t es
    → (d : Dict Value) × (r ≡ ok d) × (t ≡ with_state s d) × (es ≡ [])
unfolding write_state
write_state-returned true (ok d) s u t es e = (d, refl, ground arith, ground arith)
write_state-returned false (ok d) s u t es e = absurd (ground arith)
write_state-returned w (err x) s u t es e = absurd (ground arith)

-- The report of what an agent answered.
pub returned-record {κ ι} :
    {B : Type κ} {G : Type ι} (env : WebEnv) (r : AgentReport) (k : Unit {0} → Handler B) (s : Site)
    {b : B} {s' : Site} {es : List WebEffect}
    → Returns (record_result env r >>= k) s b s' es
    → ((root d : Dict Value)
        → read_state s.state_file ≡ ok root
        → reported_state r env.now env.seen root ≡ ok d
        → Returns (k tt) (with_state s d) b s' es
        → G)
    → G
unfolding record_result record_agent_result
returned-record env r k s {b} {s'} {es} e g =
    returned-bind (record_result env r) k s e λ u t early late e1 e2 both.
      let (d, h, same, nothing) = write_state-returned env.can_write_state _ s u t early e1 in
      let (root, there, written) = bind-ok (read_state s.state_file) _ h in
      g root d there written (
        subst (λ x. k tt x ≡ (ok b, s', es)) same
          (e2 ∙ ap (λ l. (ok b, s', l)) (sym (ap (λ l. l ++ late) nothing) ∙ both)))
