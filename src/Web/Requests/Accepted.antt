-- ===== src/Web/Requests/Accepted.antt =====
-- wolnut/web.py: every configuration that a request writes is one that `validate_config` accepts.
use wolnut_webui.Common.{
  String, Option, some, [], ◌≡◌, sym, Result, ok, inl, inr, Result-cases, arith,
}
use wolnut_webui.Common.Dict.{Dict, lookup}
use wolnut_webui.Common.Value.{Value, arr, obj, Fields, Items, entries, items, to_fields}
use mathlib.Core.Path.{subst}
use wolnut_webui.Config.Clients.{validate_config}
use wolnut_webui.Config.Accepted.{AreClients, validate_config-AreClients}
use wolnut_webui.Web.{
  Site, WebError, http, value_error, agent_error, enrollment_error, os_error, other_error, holds,
  throw,
}
use wolnut_webui.Web.Store.{validated}
use wolnut_webui.Web.Access.{require_secure_admin}
use wolnut_webui.Web.Rules.{
  site_of, Keeps, keeps_rules, Keeps-tried, Keeps-bind, Keeps-lift, Keeps-catch, Keeps-return,
}
use wolnut_webui.Web.Agents.{WebEnv}
use wolnut_webui.Web.Settings.{persist_config}
use wolnut_webui.Web.Settings.Checks.{persist_config_lem}
use wolnut_webui.Web.Settings.Save.{put_config, save_settings, unless_http, error_text}
use wolnut_webui.Web.Requests.{
  AdminRequest, test, update, shutdown, pair, unpair, auto_update, create_enrollment,
  get_enrollment, SiteRequest, by_admin, enroll, put_settings, handle, Step, request, saved_state,
  Reaches, here, next,
}
use wolnut_webui.Web.Requests.Files.{
  FileAccepted, IsAccepted, Accepting, update_config-IsAccepted, validated-Accepting,
}
use wolnut_webui.Web.Requests.Handlers
use wolnut_webui.Web.Requests.Admin
use wolnut_webui.Web.Clients.{edit_client}
use wolnut_webui.Web.Agents.Pairing.{save, persist}
use wolnut_webui.Enrollment.{StoreFile}

module _ (env : WebEnv) where
  abbrev Good : Site → Type 0
  Good s = IsAccepted env.str_value s

  save-Good :
      (name : String) (f : Dict Value → Result WebError (Dict Value)) → Keeps Good (save env name f)
  unfolding save persist
  save-Good name f =
      update_config-IsAccepted env.str_value (persist env name f) env.can_write_config λ d d' h.
        elim (Result-cases (edit_client name f d)) [
          | inl (x, e) ↦ validated-Accepting env.str_value x d' (rw (e, persist) at h)
          | inr (x, e) ↦ absurd (ground arith)
        ]

  unless_http-Good {ℓ} :
      {A : Type ℓ} (f : WebError → WebError) (e : WebError) → Keeps Good (unless_http {A = A} f e)
  unfolding unless_http throw
  unless_http-Good f (http n t) = record { at = λ s p. p }
  unless_http-Good f (agent_error t) = record { at = λ s p. p }
  unless_http-Good f (enrollment_error t) = record { at = λ s p. p }
  unless_http-Good f (value_error t) = record { at = λ s p. p }
  unless_http-Good f os_error = record { at = λ s p. p }
  unless_http-Good f other_error = record { at = λ s p. p }

  validated-raw :
      (raw d : Dict Value)
      → validated env.str_value raw ≡ ok d
      → validate_config env.str_value (obj (to_fields raw)) ≡ ok tt
  unfolding validated
  validated-raw raw d h =
      elim (Result-cases (validate_config env.str_value (obj (to_fields raw)))) [
        | inl (u, e) ↦ e
        | inr (x, e) ↦ absurd (ground arith)
      ]

  persist_config-Accepting :
      (admin : Result WebError (Unit {0})) (raw current : Dict Value)
      → validate_config env.str_value (obj (to_fields raw)) ≡ ok tt
      → Accepting env.str_value (persist_config admin raw current)
  persist_config-Accepting admin raw current good d h =
      let (vs, olds, ws, news, e1, e2, e3, e4, e5, e6, same) =
        persist_config_lem admin raw current d h in
      subst (λ x. validate_config env.str_value (obj (to_fields x)) ≡ ok tt) same good

  save_settings-Good :
      (resolve : Value → Result String (Option String)) (raw : Dict Value)
      → Keeps Good (save_settings env resolve raw)
  unfolding save_settings
  save_settings-Good resolve raw =
      Keeps-tried (validated env.str_value raw) (λ e. http 400 (error_text env.os_text e)) _
        λ d e.
          let good = validated-raw raw d e in
          let admin = require_secure_admin env.auth env.scheme in
          let kept =
            update_config-IsAccepted env.str_value (persist_config admin raw) env.can_write_config
              (λ current. persist_config-Accepting admin raw current good) in
          Keeps-bind _ _ (Keeps-lift _) λ warnings.
            Keeps-bind _ _ (Keeps-catch _ _ kept (unless_http-Good _)) λ saved. Keeps-return _

  put_config-Good :
      (resolve : Value → Result String (Option String)) (raw : Dict Value)
      → Keeps Good (put_config env resolve raw)
  unfolding put_config
  put_config-Good resolve raw = search (keeps_rules, save_settings-Good) depth 8

  state_kept :
      (s : Site) (d : Dict Value)
      → Good s
      → Good (record s { state_file = holds (obj (to_fields d)) })
  state_kept s d p = p

  store_kept : (s : Site) (file : StoreFile) → Good s → Good (record s { enrollments = file })
  store_kept s file p = p

  writes_kept : (r : AdminRequest) → Admin.WritesKept env Good r
  writes_kept (test name) = tt
  writes_kept (update name) = tt
  writes_kept (shutdown name c) = tt
  writes_kept (pair name port f) = λ id. save-Good name _
  writes_kept (unpair name c b) = save-Good name _
  writes_kept (auto_update name b) = λ id. save-Good name _
  writes_kept (create_enrollment name port) = tt
  writes_kept (get_enrollment id) = tt

  handle-Good : (r : SiteRequest) → Keeps Good (handle env r)
  unfolding handle
  handle-Good (by_admin r) =
      Admin.handle_admin-Keeps env Good state_kept store_kept r (writes_kept r)
  handle-Good (enroll r) =
      Keeps-bind _ _
        (Handlers.complete_enrollment-Keeps env Good state_kept store_kept r λ d. save-Good _ _)
        λ x. Keeps-return tt
  handle-Good (put_settings resolve raw) = search (keeps_rules, put_config-Good)

module _ (str_value : Value → String) where
  step-IsAccepted :
      (s s' : Site) → Step str_value s s' → IsAccepted str_value s → IsAccepted str_value s'
  step-IsAccepted s s' (request env r t t' same e) p = subst (IsAccepted str_value) (sym e) (
      subst (λ f. IsAccepted f (site_of (handle env r t))) same
        ((handle-Good env r).at t (subst (λ f. IsAccepted f t) (sym same) p)))
  step-IsAccepted s s' (saved_state t t' file e) p = subst (IsAccepted str_value) (sym e) p

  -- However requests, whoever makes them, failed writes and writes of the state by the monitor follow
  -- each other: from a configuration that `validate_config` accepts, or none, they lead to no other.
  pub Reaches-IsAccepted :
      (s s' : Site) → IsAccepted str_value s → Reaches str_value s s' → IsAccepted str_value s'
  Reaches-IsAccepted s s' p (here t) = p
  Reaches-IsAccepted s s' p (next t u v step rest) =
      Reaches-IsAccepted u v (step-IsAccepted t u step p) rest

-- After any requests, a configuration that is there has clients with names that differ and are not
-- blank, thresholds from 1 to 100, ports from 1 to 65535, and shutdown on only for clients with an agent.
pub Reaches-AreClients :
    (str_value : Value → String) (s s' : Site) (fs : Fields)
    → IsAccepted str_value s
    → Reaches str_value s s'
    → s'.config_file ≡ holds (obj fs)
    → (vs : Items) × (lookup "clients" (entries fs) ≡ some (arr vs)) × AreClients [] (items vs)
Reaches-AreClients str_value s s' fs p reach e =
    validate_config-AreClients str_value fs
      (subst (FileAccepted str_value) e (Reaches-IsAccepted str_value s s' p reach))
