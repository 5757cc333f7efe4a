-- ===== src/Web/Agents/Enrolled.antt =====
-- wolnut/web.py: what `complete_agent_enrollment` has done, where it returns.
use wolnut_webui.Common.{
  ℕ, String, false, none, some, List, [], ◌≡◌, sym, ap, ◌∙◌, Result, ok, err, arith, eq_iff, str_eq,
  get_or,
}
use wolnut_webui.Common.Dict.{Dict, lookup, insert, lookup-insert}
use wolnut_webui.Common.Value.{Value, bool, int, str, entries}
use wolnut_webui.Agent.{AgentFailure, ensure_controller_identity}
use wolnut_webui.Agent.Pairing.{sign_agent_csr}
use wolnut_webui.Agent.Pinned.{Names, sign_agent_csr-Names}
use wolnut_webui.Enrollment.{StoreFile, Call, Details, paired}
use wolnut_webui.Enrollment.Store.{claim, complete}
use wolnut_webui.Enrollment.Results.{EndsWith, complete-EndsWith}
use mathlib.Core.Path.{subst}
use wolnut_webui.Web.{WebError, Site, WebEffect, Reply, catch}
use wolnut_webui.Web.Clients.Edit.{IsEdit, edit-IsFrame, setting, setting-settings, setting-changed}
use wolnut_webui.Web.Returned.{
  Returns, Raises, returned-bind, returned-lift, returned-check, returned-catch, return-returned,
  append-empty, raises_rules,
}
use wolnut_webui.Web.Agents.{WebEnv, of_agent}
use wolnut_webui.Web.Agents.Pairing.{pairing_fields}
use wolnut_webui.Web.Agents.Enroll.{
  of_store, AgentEnrollmentCompleteRequest, on_store, enrolled_fields, finish_enrollment,
  end_session, close_enrollment, complete_agent_enrollment,
}
use wolnut_webui.Web.Agents.Steps.{returned-save, returned-record, with_config}
use wolnut_webui.Web.Agents.Outcomes.{Rewrites, pairing_keys}

-- The client has the agent, at the port, and its automatic shutdown is off.
abbrev pub IsPaired : String → String → ℕ → Dict Value → Type 0
IsPaired name agent_id port d =
    (setting name "agent_id" d ≡ some (str agent_id))
    × (setting name "agent_port" d ≡ some (int port))
    × (setting name "enabled" d ≡ some (bool false))

pairing_fields_lem :
    (key : String) (agent_id : Value) (port : ℕ) (settings : Dict Value)
    → pairing_keys key ≡ false
    → lookup key (pairing_fields agent_id port settings) ≡ lookup key settings
pairing_fields_lem key agent_id port settings h =
    let battery = get_or (lookup "battery_percent" settings) (int 20) in
    let auto = get_or (lookup "auto_update" settings) (bool false) in
    let s1 = insert "enabled" (bool false) settings in
    let s2 = insert "battery_percent" battery s1 in
    let s3 = insert "agent_id" agent_id s2 in
    let s4 = insert "agent_port" (int port) s3 in
    ground (
      arith,
      lookup-insert "auto_update" key auto s4,
      lookup-insert "agent_port" key (int port) s3,
      lookup-insert "agent_id" key agent_id s2,
      lookup-insert "battery_percent" key battery s1,
      lookup-insert "enabled" key (bool false) settings,
      eq_iff "auto_update" key,
      eq_iff key "auto_update",
      eq_iff "agent_port" key,
      eq_iff key "agent_port",
      eq_iff "agent_id" key,
      eq_iff key "agent_id",
      eq_iff "battery_percent" key,
      eq_iff key "battery_percent",
      eq_iff "enabled" key,
      eq_iff key "enabled",
    )

enrolled_fields_lem :
    (agent_id : String) (port : ℕ) (settings written : Dict Value)
    → enrolled_fields agent_id port settings ≡ ok written
    → written ≡ pairing_fields (str agent_id) port settings
enrolled_fields_lem agent_id port settings written h = ground arith

abbrev with_enrollments : Site → StoreFile → Site
with_enrollments s file = record s { enrollments = file }

stored-returned {ℓ} :
    {A : Type ℓ} (p : Call A) (s : Site) (a : A) (t : Site) (es : List WebEffect)
    → ◌≡◌ {A = Reply A} (of_store p.0, with_enrollments s p.1, []) (ok a, t, es)
    → (p.0 ≡ ok a) × (t ≡ with_enrollments s p.1) × (es ≡ [])
stored-returned (ok b, file) s a t es e = (cc, cc, cc)
stored-returned (err x, file) s a t es e = absurd (ground arith)

-- A call of the store that returned.
on_store-returned {ℓ} :
    {A : Type ℓ} (f : StoreFile → Call A) (s : Site) (a : A) (t : Site) (es : List WebEffect)
    → Returns (on_store f) s a t es
    → (f s.enrollments ≡ (ok a, t.enrollments)) × (t ≡ with_enrollments s t.enrollments) × (es ≡ [])
unfolding on_store
on_store-returned f s a t es e =
    let (h, same, nothing) = stored-returned (f s.enrollments) s a t es e in
    let file : (f s.enrollments).1 ≡ t.enrollments = sym (ap (λ u. u.enrollments) same) in
    (λ i. (h i, file i), subst (λ x. t ≡ with_enrollments s x) file same, nothing)

close_enrollment-Raises :
    (env : WebEnv) (id : String) (e : WebError) → Raises (close_enrollment env id e)
unfolding close_enrollment end_session
close_enrollment-Raises env id (WebError.http n t) = search raises_rules
close_enrollment-Raises env id (WebError.agent_error t) = search raises_rules
close_enrollment-Raises env id (WebError.enrollment_error t) = search raises_rules
close_enrollment-Raises env id (WebError.value_error t) = search raises_rules
close_enrollment-Raises env id WebError.os_error = search raises_rules
close_enrollment-Raises env id WebError.other_error = search raises_rules

enrolled-IsPaired :
    (name agent_id : String) (port : ℕ) (raw d : Dict Value)
    → IsEdit name (enrolled_fields agent_id port) raw d
    → IsPaired name agent_id port d
      × ((key : String) → pairing_keys key ≡ false → setting name key d ≡ setting name key raw)
enrolled-IsPaired name agent_id port raw d e =
    let same = enrolled_fields_lem agent_id port e.settings e.changed e.becomes in
    let at = λ (key : String). setting-changed e key ∙ ap (lookup key) same in
    (
      (
        at "agent_id" ∙ simp lookup-insert,
        at "agent_port" ∙ simp lookup-insert,
        at "enabled" ∙ simp lookup-insert,
      ),
      λ key h.
          at key
          ∙ pairing_fields_lem key (str agent_id) port e.settings h
          ∙ sym (setting-settings e key),
    )

of_agent-ok {ℓ} : {A : Type ℓ} (r : Result AgentFailure A) {a : A} → of_agent r ≡ ok a → r ≡ ok a
of_agent-ok (ok b) e = cc
of_agent-ok (err x) e = absurd (ground arith)

-- The part in the try block: whose certificate request was signed, and what was written.
finish_enrollment-IsPaired :
    (env : WebEnv) (req : AgentEnrollmentCompleteRequest) (id : String) (enrollment : Details)
    (s s' : Site) (answer : Dict Value) (es : List WebEffect)
    → Returns (finish_enrollment env req id enrollment) s answer s' es
    → Names (env.read_csr req.csr) req.agent_id
      × Rewrites enrollment.client_name pairing_keys
          (IsPaired enrollment.client_name req.agent_id enrollment.agent_port)
          s.config_file
          s'.config_file
      × (complete id req.agent_id env.now env.result_write s.enrollments ≡ (ok tt, s'.enrollments))
      × (es ≡ [])
unfolding finish_enrollment
finish_enrollment-IsPaired env req id enrollment s s' answer es e =
    returned-lift (of_agent (ensure_controller_identity env.files)) _ s e λ files h1 e1.
      returned-lift (of_agent (sign_agent_csr env.issue (env.read_csr req.csr) req.agent_id)) _ s e1
        λ cert h2 e2. returned-save env enrollment.client_name _ _ s e2 λ fs d h3 edit e3.
          returned-bind (on_store (complete id req.agent_id env.now env.result_write)) _
            (with_config s d) e3
            λ u t early late e4 rest both. returned-record env _ _ t rest λ root d' h5 h6 e5.
              let (completed, same, nothing) = on_store-returned _ (with_config s d) u t early e4 in
              let (value, done, silent) = return-returned _ _ e5 in
              let (is_paired, kept) =
                enrolled-IsPaired enrollment.client_name req.agent_id enrollment.agent_port
                  (entries fs) d edit in
              (
                sign_agent_csr-Names env.issue (env.read_csr req.csr) req.agent_id
                    (of_agent-ok _ h2),
                (
                  fs,
                  d,
                  h3,
                  sym (ap (λ x. x.config_file) done) ∙ ap (λ x. x.config_file) same,
                  is_paired,
                  kept,
                  edit-IsFrame edit,
                ),
                subst
                    (λ x.
                      complete id req.agent_id env.now env.result_write s.enrollments ≡ (ok tt, x))
                    (ap (λ x. x.enrollments) done) completed,
                sym (append-empty early late es silent both) ∙ nothing,
              )

-- Where `complete_agent_enrollment` returns, the request came by HTTPS with a token that the store let
-- the agent claim; the agent's certificate request is signed and names this agent alone; the client of
-- the session has the agent at the session's port, with automatic shutdown off, and its other
-- entries, its settings that pairing does not write, each client of another name, and the configuration's
-- other keys are as they were; and the session reports "paired" with the agent, the other sessions what
-- they reported before.
pub complete_agent_enrollment-IsPaired :
    (env : WebEnv) (req : AgentEnrollmentCompleteRequest) (later : ℕ) (s s' : Site)
    (answer : Dict Value) (es : List WebEffect)
    → Returns (complete_agent_enrollment env req) s answer s' es
    → (env.scheme ≡ "https")
      × Names (env.read_csr req.csr) req.agent_id
      × ((id : String) × (enrollment : Details) × (file : StoreFile) × (claim env.token_hash
              req.token req.agent_id
              (env.csr_hash req.csr)
              env.now
              env.enrollment_write
              s.enrollments
            ≡ (ok (id, enrollment), file))
          × Rewrites enrollment.client_name pairing_keys
              (IsPaired enrollment.client_name req.agent_id enrollment.agent_port)
              s.config_file
              s'.config_file
          × EndsWith paired (some req.agent_id) none id later file s'.enrollments)
      × (es ≡ [])
unfolding complete_agent_enrollment
complete_agent_enrollment-IsPaired env req later s s' answer es e =
    returned-check (str_eq env.scheme "https") _ _ s e λ secure e1.
      returned-bind
        (catch
          (on_store (
            claim env.token_hash req.token req.agent_id (env.csr_hash req.csr) env.now
              env.enrollment_write))
          _)
        _ s e1
        λ p t early late e2 rest both.
          let found = returned-catch _ _ s e2 (search raises_rules) in
          let (claimed, same, nothing) = on_store-returned _ s p t early found in
          let finished =
            returned-catch (finish_enrollment env req p.0 p.1) _ t rest
              (close_enrollment-Raises env p.0) in
          let (names, written, completed, silent) =
            finish_enrollment-IsPaired env req p.0 p.1 t s' answer late finished in
          (
            ground (arith, eq_iff env.scheme "https"),
            names,
            (
              p.0,
              p.1,
              t.enrollments,
              claimed,
              subst
                  (λ f.
                    Rewrites p.1.client_name pairing_keys
                      (IsPaired p.1.client_name req.agent_id p.1.agent_port) f s'.config_file)
                  (ap (λ x. x.config_file) same) written,
              complete-EndsWith p.0 req.agent_id env.now later env.result_write t.enrollments
                  s'.enrollments completed,
            ),
            sym (append-empty early late es silent both) ∙ nothing,
          )
