-- ===== src/Web/Settings/Saved.antt =====
-- wolnut/web.py: what `put_config` has done, where it returns.
use wolnut_webui.Common.{String, List, [], ◌≡◌, sym, ap, ◌∙◌, Option, Result, ok, ◌>>=◌}
use wolnut_webui.Common.Dict.{Dict, lookup}
use wolnut_webui.Common.Value.{Value, obj, Fields, entries}
use mathlib.Core.Path.{subst}
use wolnut_webui.Web.{
  WebError, http, value_error, agent_error, enrollment_error, os_error, other_error, Site,
  WebEffect, catch,
}
use wolnut_webui.Web.Store.{current_config, update_config, validated}
use wolnut_webui.Web.Access.{require_auth, require_secure_admin}
use wolnut_webui.Web.Clients.{iterate}
use wolnut_webui.Web.Returned.{
  Returns, Raises, Raises-throw, returned-bind, returned-lift, returned-Still, Still-tried,
  returned-catch, return-returned, append-empty,
}
use wolnut_webui.Web.Agents.{WebEnv}
use wolnut_webui.Web.Agents.Steps.{with_config, update_config-returned, operate-fields}
use wolnut_webui.Web.Settings.{by_name, clean_nut, persist_config}
use wolnut_webui.Web.Settings.Checks.{persist_config_lem}
use wolnut_webui.Web.Settings.Pairings.{KeepsPairings, pairings-KeepsPairings}
use wolnut_webui.Web.Settings.Save.{error_text, warnings_of, unless_http, save_settings, put_config}

Raises-unless_http {ℓ} :
    {A : Type ℓ} (f : WebError → WebError) (e : WebError) → Raises (unless_http {A = A} f e)
unfolding unless_http
Raises-unless_http f (http n t) = Raises-throw (http n t)
Raises-unless_http f (value_error t) = Raises-throw (f (value_error t))
Raises-unless_http f (agent_error t) = Raises-throw (f (agent_error t))
Raises-unless_http f (enrollment_error t) = Raises-throw (f (enrollment_error t))
Raises-unless_http f os_error = Raises-throw (f os_error)
Raises-unless_http f other_error = Raises-throw (f other_error)

-- The clients of a configuration, by name.
abbrev pub named_clients : Dict Value → Result WebError (Dict (Dict Value))
named_clients raw = iterate (lookup "clients" raw) >>= λ vs. by_name vs []

named_clients-ok :
    (raw : Dict Value) (vs : List Value) (d : Dict (Dict Value))
    → iterate (lookup "clients" raw) ≡ ok vs
    → by_name vs [] ≡ ok d
    → named_clients raw ≡ ok d
named_clients-ok raw vs d e f = rw e f

-- The clients before and after.
abbrev pub SavesPairings : WebEnv → Dict Value → Site → Site → Type 0
SavesPairings env saved s s' =
    (fs : Fields) × (olds : Dict (Dict Value)) × (news : Dict (Dict Value)) × (current_config
        s.config_file
      ≡ ok (obj fs))
    × (named_clients (entries fs) ≡ ok olds)
    × (named_clients saved ≡ ok news)
    × KeepsPairings (require_secure_admin env.auth env.scheme) olds news
    × (s' ≡ with_config s saved)

save_settings-SavesPairings :
    (env : WebEnv) (resolve : Value → Result String (Option String)) (raw saved : Dict Value)
    (warnings : List String) (s s' : Site) (es : List WebEffect)
    → Returns (save_settings env resolve raw) s (saved, warnings) s' es
    → SavesPairings env saved s s' × (es ≡ [])
unfolding save_settings
save_settings-SavesPairings env resolve raw saved warnings s s' es e =
    returned-Still (λ s d. validated env.str_value raw ≡ ok d) _ _ s
      (Still-tried (validated env.str_value raw) (λ x. http 400 (error_text env.os_text x))) e
      λ d h1 e1. returned-lift (warnings_of env.str_value resolve raw) _ s e1 λ ws h2 e2.
        returned-bind
          (catch
            (update_config (persist_config (require_secure_admin env.auth env.scheme) raw)
              env.can_write_config)
            _)
          _ s e2
          λ d' t early late e3 rest both.
            let admin = require_secure_admin env.auth env.scheme in
            let done = returned-catch _ _ s e3 (Raises-unless_http _) in
            let (h3, same, nothing) =
              update_config-returned (persist_config admin raw) env.can_write_config s d' t early
                done in
            let (fs, h4, h5) =
              operate-fields (persist_config admin raw) (current_config s.config_file) d' h3 in
            let (vs, olds, ws, news, g1, g2, g3, g4, g5, g6, g7) =
              persist_config_lem admin raw (entries fs) d' h5 in
            let (value, final, silent) = return-returned _ t rest in
            let kept : d' ≡ saved = ap (λ p. p.0) value in
            (
              (
                fs,
                olds,
                news,
                h4,
                named_clients-ok (entries fs) vs olds g1 g2,
                subst (λ x. named_clients x ≡ ok news) (g7 ∙ kept)
                    (named_clients-ok raw ws news g3 g4),
                pairings-KeepsPairings admin olds news ws g4 g5 g6,
                sym final ∙ same ∙ ap (with_config s) kept,
              ),
              sym (append-empty early late es silent both) ∙ nothing,
            )

-- Where `put_config` returns, its user has signed in, and it has changed the configuration alone: a
-- client has an agent after it exactly if it had this agent before; every client has the auto-update
-- setting that it had; and where another of its shutdown settings is new, the request came from a server
-- with its secrets set and by HTTPS. It contacts no agent.
pub put_config-SavesPairings :
    (env : WebEnv) (resolve : Value → Result String (Option String)) (submitted saved : Dict Value)
    (warnings : List String) (s s' : Site) (es : List WebEffect)
    → Returns (put_config env resolve submitted) s (saved, warnings) s' es
    → ((user : String) × (require_auth env.decode env.auth env.credentials ≡ ok user))
      × SavesPairings env saved s s'
      × (es ≡ [])
unfolding put_config
put_config-SavesPairings env resolve submitted saved warnings s s' es e =
    returned-lift (require_auth env.decode env.auth env.credentials) _ s e λ user h1 e1.
      returned-lift (clean_nut submitted) _ s e1 λ raw h2 e2.
        let (kept, silent) =
          save_settings-SavesPairings env resolve raw saved warnings s s' es e2 in
        ((user, h1), kept, silent)
