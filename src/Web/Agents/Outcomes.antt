-- ===== src/Web/Agents/Outcomes.antt =====
-- wolnut/web.py: what `unpair_agent` and `set_agent_auto_update` have done, where they return.
use wolnut_webui.Common.{
  ℕ, String, Bool, true, false, Option, none, some, List, [], ◌∷◌, ◌≡◌, sym, ap, ◌∙◌, ok, arith,
  inl, inr, Bool-cases, eq_iff, str_eq, str_in,
}
use wolnut_webui.Common.Dict.{Dict, lookup, insert, lookup-insert}
use wolnut_webui.Common.Value.{
  Value, null, bool, int, neg, real, str, arr, obj, is_text, Fields, entries, to_fields,
}
use wolnut_webui.Agent.Identity.{Presents}
use mathlib.Core.Path.{subst}
use wolnut_webui.Agent.Pinned.{bind-ok}
use wolnut_webui.Web.{
  WebError, Site, WebEffect, AgentCall, AgentCommand, unpair, set_auto_update, agent_request,
  DataFile, holds, catch, return,
}
use wolnut_webui.Web.Store.{current_config}
use wolnut_webui.Web.Clients.{find_client, agent_id_of, settings_of, host_of, port_of, agent_call}
use wolnut_webui.Web.Clients.Edit.{
  IsEdit, IsFrame, edit-IsFrame, setting, setting-settings, setting-changed,
}
use wolnut_webui.Web.Results.{report}
use wolnut_webui.Web.Returned.{
  Returns, Raises, returned-bind, returned-lift, returned-check, returned-catch, return-returned,
  append-empty, raises_rules,
}
use wolnut_webui.Web.Agents.{WebEnv, admin, ask}
use wolnut_webui.Web.Agents.Pairing.{
  cleared_fields, policy_fields, previous_policy, restore_policy, save, unpair_remote, unpair_agent,
  set_agent_auto_update,
}
use wolnut_webui.Web.Agents.Steps.{
  effective, returned-named_client, returned-paired_id, returned-ask, ask-Presents, returned-save,
  save-returned, returned-record,
}

-- The configuration was read and replaced: the one client of the name has changed only in the shutdown
-- settings that are listed, and neither another client nor another key of the configuration has changed.
abbrev pub Rewrites :
    String → (String → Bool) → (Dict Value → Type 0) → DataFile → DataFile → Type 0
Rewrites name touched P before after =
    (fs : Fields) × (d : Dict Value) × (current_config before ≡ ok (obj fs))
    × (after ≡ holds (obj (to_fields d)))
    × P d
    × ((key : String) → touched key ≡ false → setting name key d ≡ setting name key (entries fs))
    × IsFrame name (entries fs) d

-- The keys that `pairing_fields` and `cleared_fields` write.
abbrev pub pairing_keys : String → Bool
pairing_keys key =
    str_in key ("enabled" ∷ "battery_percent" ∷ "agent_id" ∷ "agent_port" ∷ "auto_update" ∷ [])

abbrev pub cleared_keys : String → Bool
cleared_keys key = str_in key ("enabled" ∷ "agent_id" ∷ "auto_update" ∷ [])

-- The client has no agent, shutdown is off, and so are the agent's updates.
abbrev pub IsCleared : String → Dict Value → Type 0
IsCleared name d =
    (setting name "agent_id" d ≡ some null)
    × (setting name "enabled" d ≡ some (bool false))
    × (setting name "auto_update" d ≡ some (bool false))

cleared_fields_lem :
    (key : String) (settings : Dict Value)
    → cleared_keys key ≡ false
    → lookup key (cleared_fields settings) ≡ lookup key settings
cleared_fields_lem key settings h =
    let s1 = insert "enabled" (bool false) settings in
    let s2 = insert "agent_id" null s1 in
    ground (
      arith,
      lookup-insert "auto_update" key (bool false) s2,
      lookup-insert "agent_id" key null s1,
      lookup-insert "enabled" key (bool false) settings,
      eq_iff "auto_update" key,
      eq_iff "agent_id" key,
      eq_iff "enabled" key,
      eq_iff key "auto_update",
      eq_iff key "agent_id",
      eq_iff key "enabled",
    )

cleared_fields-IsCleared :
    (name : String) (raw d : Dict Value)
    → IsEdit name (λ shutdown. ok (cleared_fields shutdown)) raw d
    → IsCleared name d
      × ((key : String) → cleared_keys key ≡ false → setting name key d ≡ setting name key raw)
cleared_fields-IsCleared name raw d e =
    let same : e.changed ≡ cleared_fields e.settings = ground arith in
    let at = λ (key : String). setting-changed e key ∙ ap (lookup key) same in
    (
      (
        at "agent_id" ∙ simp lookup-insert,
        at "enabled" ∙ simp lookup-insert,
        at "auto_update" ∙ simp lookup-insert,
      ),
      λ key h. at key ∙ cleared_fields_lem key e.settings h ∙ sym (setting-settings e key),
    )

-- Nobody is asked, or the agent over a connection with its certificate.
abbrev pub IsAsked : WebEnv → Bool → String → List WebEffect → Type 0
IsAsked env true id es = es ≡ []
IsAsked env false id es =
    (call : AgentCall) × (call.agent_id ≡ id)
    × (call.command ≡ unpair)
    × Presents (env.exchange call) id
    × (es ≡ agent_request call ∷ [])

pub agent_call-for :
    (int_value : Value → Option ℕ) (c : Dict Value) (id : String) (command : AgentCommand)
    {call : AgentCall}
    → agent_call int_value c id command ≡ ok call
    → (call.agent_id ≡ id) × (call.command ≡ command)
unfolding agent_call
agent_call-for int_value c id command h =
    let (settings, e1, h1) = bind-ok (settings_of (lookup "shutdown" c)) _ h in
    let (host, e2, h2) = bind-ok (host_of (lookup "host" c)) _ h1 in
    let (port, e3, h3) = bind-ok (port_of int_value (lookup "agent_port" settings)) _ h2 in
    (ground arith, ground arith)

unpair_remote-IsAsked :
    (env : WebEnv) (force_local : Bool) (c : Dict Value) (id : String) (s : Site) (a : Dict Value)
    (t : Site) (es : List WebEffect)
    → Returns (unpair_remote env force_local c id) s a t es
    → IsAsked env force_local id es × (t ≡ s)
unfolding unpair_remote return
unpair_remote-IsAsked env true c id s a t es e = (ground arith, ground arith)
unpair_remote-IsAsked env false c id s a t es e =
    returned-lift (agent_call env.int_value c id unpair) _ s e λ call h e1.
      let asked = returned-catch (ask env (env.exchange call) call) _ s e1 (search raises_rules) in
      let (presents, same, sent) = ask-Presents env (env.exchange call) call s a t es asked in
      let (who, what) = agent_call-for env.int_value c id unpair h in
      ((call, who, what, subst (Presents (env.exchange call)) who presents, sent), same)

is_text-str : (v : Option Value) (t : String) → is_text v t ≡ true → v ≡ some (str t)
is_text-str none t h = absurd (ground arith)
is_text-str (some null) t h = absurd (ground arith)
is_text-str (some (bool x)) t h = absurd (ground arith)
is_text-str (some (int x)) t h = absurd (ground arith)
is_text-str (some (neg x)) t h = absurd (ground arith)
is_text-str (some (real x)) t h = absurd (ground arith)
is_text-str (some (arr x)) t h = absurd (ground arith)
is_text-str (some (obj x)) t h = absurd (ground arith)
is_text-str (some (str s)) t h = ground (arith, eq_iff s t)

-- Where `unpair_agent` returns, the user had confirmed the client's name; the client had an agent, which
-- presented its certificate and was asked to forget the server, unless the user forced a local unpairing,
-- which asks nobody; the client has no agent now, its automatic shutdown and the agent's updates are off,
-- and its other entries and settings, each client of another name, and the configuration's other keys are
-- as they were.
pub unpair_agent-IsCleared :
    (env : WebEnv) (name confirmation : String) (force_local : Bool) (s s' : Site)
    (answer : Dict Value) (es : List WebEffect)
    → Returns (unpair_agent env name confirmation force_local) s answer s' es
    → (confirmation ≡ name)
      × Rewrites name cleared_keys (IsCleared name) s.config_file s'.config_file
      × ((raw : Dict Value) × (c : Dict Value) × (id : String) × (effective env s ≡ ok raw)
          × (find_client name raw ≡ ok c)
          × (agent_id_of c ≡ ok (some id))
          × IsAsked env force_local id es)
unfolding unpair_agent
unpair_agent-IsCleared env name confirmation force_local s s' answer es e =
    returned-lift (admin env) _ s e λ user h1 e1.
      returned-check (str_eq confirmation name) _ _ s e1 λ same e2.
        returned-named_client env name _ s e2 λ raw c h2 h3 e3.
          returned-paired_id c _ s e3 λ id h4 e4.
            returned-bind (unpair_remote env force_local c id) _ s e4
              λ a t early late first rest both.
                let (asked, still) = unpair_remote-IsAsked env force_local c id s a t early first in
                returned-save env name _ _ t rest λ fs d h5 edit e5.
                  returned-record env (report name "unpaired") _ _ e5 λ root d' h6 h7 e6.
                    let (cleared, others) = cleared_fields-IsCleared name (entries fs) d edit in
                    let (value, done, nothing) = return-returned _ _ e6 in
                    (
                      ground (arith, eq_iff confirmation name),
                      (
                        fs,
                        d,
                        subst (λ u. current_config u.config_file ≡ ok (obj fs)) still h5,
                        sym (ap (λ u. u.config_file) done),
                        cleared,
                        others,
                        edit-IsFrame edit,
                      ),
                      (
                        raw,
                        c,
                        id,
                        h2,
                        h3,
                        h4,
                        subst (IsAsked env force_local id) (append-empty early late es nothing both)
                            asked,
                      ),
                    )

-- The agent that is on record, and its policy.
abbrev pub HasPolicy : String → String → Bool → Dict Value → Type 0
HasPolicy name id enabled d =
    (setting name "agent_id" d ≡ some (str id))
    × (setting name "auto_update" d ≡ some (bool enabled))

abbrev pub policy_keys : String → Bool
policy_keys key = str_in key ("auto_update" ∷ [])

policy_fields_lem :
    (id : String) (enabled : Bool) (settings written : Dict Value)
    → policy_fields id enabled settings ≡ ok written
    → (lookup "agent_id" settings ≡ some (str id))
      × (written ≡ insert "auto_update" (bool enabled) settings)
policy_fields_lem id enabled settings written h =
    elim (Bool-cases (is_text (lookup "agent_id" settings) id)) [
      | inl e ↦ (is_text-str (lookup "agent_id" settings) id e, ground arith)
      | inr e ↦ absurd (ground arith)
    ]

policy-HasPolicy :
    (name id : String) (enabled : Bool) (raw d : Dict Value)
    → IsEdit name (policy_fields id enabled) raw d
    → HasPolicy name id enabled d
      × ((key : String) → policy_keys key ≡ false → setting name key d ≡ setting name key raw)
policy-HasPolicy name id enabled raw d e =
    let (same_id, same) = policy_fields_lem id enabled e.settings e.changed e.becomes in
    let at = λ (key : String). setting-changed e key ∙ ap (lookup key) same in
    let kept = λ (key : String). lookup-insert "auto_update" key (bool enabled) e.settings in
    (
      (at "agent_id" ∙ kept "agent_id" ∙ same_id, at "auto_update" ∙ kept "auto_update"),
      λ key h.
          at key
          ∙ ground (arith, kept key, eq_iff "auto_update" key, eq_iff key "auto_update")
          ∙ sym (setting-settings e key),
    )

restore_policy-Raises :
    (env : WebEnv) (c : Dict Value) (id : String) (previous : Bool) (e : WebError)
    → Raises (restore_policy env c id previous e)
unfolding restore_policy
restore_policy-Raises env c id previous e = search raises_rules

-- Where `set_agent_auto_update` returns, the client's agent presented its certificate and was told the
-- policy; the configuration has the policy for this agent; and the client's other entries
-- and settings, each client of another name, and the configuration's other keys are as they were.
pub set_agent_auto_update-HasPolicy :
    (env : WebEnv) (name : String) (enabled : Bool) (s s' : Site) (answer : Dict Value)
    (es : List WebEffect)
    → Returns (set_agent_auto_update env name enabled) s answer s' es
    → (call : AgentCall) × (call.command ≡ set_auto_update enabled)
      × Presents (env.exchange call) call.agent_id
      × Rewrites name policy_keys
          (HasPolicy name call.agent_id enabled)
          s.config_file
          s'.config_file
      × (es ≡ agent_request call ∷ [])
unfolding set_agent_auto_update
set_agent_auto_update-HasPolicy env name enabled s s' answer es e =
    returned-lift (admin env) _ s e λ user h1 e1.
      returned-named_client env name _ s e1 λ raw c h2 h3 e2.
        returned-paired_id c _ s e2 λ id h4 e3.
          returned-lift (previous_policy c) _ s e3 λ previous h5 e4.
            returned-lift (agent_call env.int_value c id (set_auto_update enabled)) _ s e4
              λ call h6 e5.
                returned-ask env (env.exchange call) call _ _ s e5 (search raises_rules)
                  λ a late presents e6 asked.
                    returned-bind (catch (save env name (policy_fields id enabled)) _) _ s e6
                      λ d t early later e7 e8 both. returned-record env _ _ t e8 λ root d' h7 h8 e9.
                        let written =
                          returned-catch _ _ s e7 (restore_policy-Raises env c id previous) in
                        let (fs, there, edit, same, nothing) =
                          save-returned env name _ s d t early written in
                        let (who, what) =
                          agent_call-for env.int_value c id (set_auto_update enabled) h6 in
                        let (has, kept) = policy-HasPolicy name id enabled (entries fs) d edit in
                        let (value, done, silent) = return-returned _ _ e9 in
                        let quiet : late ≡ [] =
                          sym (append-empty early later late silent both) ∙ nothing in
                        (
                          call,
                          what,
                          presents,
                          (
                            fs,
                            d,
                            there,
                            sym (ap (λ u. u.config_file) done) ∙ ap (λ u. u.config_file) same,
                            subst (λ x. HasPolicy name x enabled d) (sym who) has,
                            kept,
                            edit-IsFrame edit,
                          ),
                          asked ∙ ap (λ l. agent_request call ∷ l) quiet,
                        )
