-- ===== src/Web/Settings/Save.antt =====
-- wolnut/web.py: `put_config` as a whole.
use wolnut_webui.Common.{
  String, Bool, true, false, ◌&&◌, ◌||◌, Option, none, some, List, [], ◌∷◌, ◌++◌, get_or, is_set,
  if◌then◌else◌, Result, ok, err,
}
use wolnut_webui.Common.Text.{◌^◌}
use wolnut_webui.Common.Dict.{Dict, lookup}
use wolnut_webui.Common.Value.{Value, null, bool, is_text, is_true}
use wolnut_webui.Agent.{text_of}
use wolnut_webui.Web.{
  WebError, http, value_error, agent_error, enrollment_error, os_error, other_error, Handler, ◌>>=◌,
  ◌>>◌, return, throw, lift, catch,
}
use wolnut_webui.Web.Store.{dict_of, validated, update_config}
use wolnut_webui.Web.Access.{require_auth, require_secure_admin}
use wolnut_webui.Web.Clients.{iterate}
use wolnut_webui.Web.Agents.{WebEnv, is_disabled}
use wolnut_webui.Web.Settings.{clean_nut, persist_config}

-- str(error); the texts of the exceptions that have no text here are `other`.
abbrev pub error_text : String → WebError → String
error_text other (http status detail) = detail
error_text other (value_error text) = text
error_text other (agent_error text) = text
error_text other (enrollment_error text) = text
error_text other os_error = other
error_text other other_error = other

-- The MAC addresses that "auto" stands for: `resolve` is `resolve_mac_from_host`, by the text of what it
-- raises.
module _ (str_value : Value → String) (resolve : Value → Result String (Option String)) where
  text_at : Option Value → String → String
  text_at v default = elim v [ none ↦ default | some w ↦ text_of str_value w ]

  abbrev warning_of : String → String → Result String (Option String) → List String
  warning_of name host (ok mac) =
      if is_set mac
      then []
      else ("Could not resolve MAC for " ^ (name ^ (" (" ^ (host ^ ")")))) ∷ []
  warning_of name host (err e) =
      ("Could not resolve MAC for " ^ (name ^ (" (" ^ (host ^ ("): " ^ e))))) ∷ []

  -- The message for one client, if its address cannot be resolved.
  unfoldable pub mac_warning : Dict Value → List String
  unfolding text_at
  mac_warning c =
      if is_disabled (lookup "enabled" c)
      then []
      else if is_true (get_or (lookup "wake_enabled" c) (bool true))
          && is_text (lookup "mac" c) "auto"
      then warning_of (text_at (lookup "name" c) "?") (text_at (lookup "host" c) "None")
          (resolve (get_or (lookup "host" c) null))
      else []

  unfoldable pub mac_warnings : List Value → Result WebError (List String)
  unfolding mac_warning
  mac_warnings [] = ok []
  mac_warnings (v ∷ vs) = elim (dict_of v) [
    | err e ↦ err e
    | ok c ↦ elim (mac_warnings vs) [ err e ↦ err e | ok ws ↦ ok (mac_warning c ++ ws) ]
  ]

abbrev suppressed : Dict Value → Result WebError Bool
suppressed raw = elim (lookup "webui" raw) [
  | none ↦ ok (is_true (get_or (lookup "suppress_mac_warnings" raw) (bool false)))
  | some v ↦ elim (dict_of v) [
    | err e ↦ err e
    | ok webui ↦ ok (
        is_true (get_or (lookup "suppress_mac_warnings" webui) (bool false))
        || is_true (get_or (lookup "suppress_mac_warnings" raw) (bool false)))
  ]
]

unfoldable pub warnings_of :
    (Value → String)
    → (Value → Result String (Option String))
    → Dict Value
    → Result WebError (List String)
unfolding mac_warnings
warnings_of str_value resolve raw = elim (suppressed raw) [
  | err e ↦ err e
  | ok true ↦ ok []
  | ok false ↦ elim (iterate (lookup "clients" raw)) [
    | err e ↦ err e
    | ok vs ↦ mac_warnings str_value resolve vs
  ]
]

-- except HTTPException: raise; except Exception
unfoldable pub unless_http {ℓ} : {A : Type ℓ} → (WebError → WebError) → WebError → Handler A
unless_http f (http status detail) = throw (http status detail)
unless_http f e = throw (f e)

-- `put_config` from its check of the configuration on: the saved configuration and the warnings.
unfoldable pub save_settings :
    WebEnv
    → (Value → Result String (Option String))
    → Dict Value
    → Handler (Dict Value × List String)
unfolding persist_config update_config validated warnings_of
save_settings env resolve raw = do
  catch (lift (validated env.str_value raw)) (λ e. throw (http 400 (error_text env.os_text e)))
  warnings ← lift (warnings_of env.str_value resolve raw)
  saved ←
      catch
        (update_config (persist_config (require_secure_admin env.auth env.scheme) raw)
          env.can_write_config)
        (unless_http (λ e. http 500 ("Failed to write config: " ^ error_text env.os_text e)))
  return (saved, warnings)

-- `put_config`
unfoldable pub put_config :
    WebEnv
    → (Value → Result String (Option String))
    → Dict Value
    → Handler (Dict Value × List String)
unfolding clean_nut save_settings
put_config env resolve submitted = do
  user ← lift (require_auth env.decode env.auth env.credentials)
  raw ← lift (clean_nut submitted)
  save_settings env resolve raw
