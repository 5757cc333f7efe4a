-- ===== src/Examples/Sites/Saves.antt =====
-- The same server: signing in, the settings page, reports and enrollment.
use wolnut_webui.Common.{
  arith, String, true, Option, none, some, List, [], ◌∷◌, ◌≡◌, refl, Result, ok, get_or,
}
use wolnut_webui.Common.Text.{◌^◌, strip}
use wolnut_webui.Common.Dict.{Dict, lookup, insert, contains, erase, modify}
use wolnut_webui.Common.Value.{Value, int, str, arr, obj, Fields, Items, to_fields, entries, items}
use wolnut_webui.Agent.{ensure_controller_identity}
use wolnut_webui.Agent.Pairing.{sign_agent_csr}
use wolnut_webui.Web.Defaults.{read_config_or_default}
use wolnut_webui.Web.Clients.{agent_id_of}
use wolnut_webui.Agent.Pinned.{Names}
use wolnut_webui.Config.Clients.{validate_config}
use wolnut_webui.Config.Accepted.{AreClients}
use wolnut_webui.Enrollment.{
  find, update_found, StoreFile, written, stored, Enrollment, Details, paired,
}
use wolnut_webui.Enrollment.Store.{new_enrollment, claim, complete}
use wolnut_webui.Enrollment.Results.{EndsWith}
use wolnut_webui.Web.{
  Reply, Site, DataFile, holds, ◌>>=◌, lift, return, throw, catch, check, emit, or_raise,
}
use wolnut_webui.Web.Access.{Claims, auth_config, login, require_auth, require_secure_admin}
use wolnut_webui.Web.Access.Login.{require_auth-login}
use wolnut_webui.Web.Results.{report, record_agent_result, read_state}
use wolnut_webui.Web.Results.Frame.{IsReport, record_agent_result-IsReport}
use wolnut_webui.Web.Rules.{site_of, effects_of}
use wolnut_webui.Web.Agents.Outcomes.{Rewrites, pairing_keys}
use wolnut_webui.Web.Agents.Enroll.{
  on_store, only_enrollment, AgentEnrollmentCompleteRequest, complete_agent_enrollment,
}
use wolnut_webui.Web.Agents.Enrolled.{IsPaired, complete_agent_enrollment-IsPaired}
use wolnut_webui.Web.Settings.Save.{put_config}
use wolnut_webui.Web.Settings.Saved.{SavesPairings, put_config-SavesPairings}
use wolnut_webui.Web.Requests.{by_admin, unpair, handle, here, next, request}
use wolnut_webui.Web.Requests.Accepted.{Reaches-AreClients}
use wolnut_webui.Examples.Sites.{variables, env, server, config}

abbrev encode : Claims → String → String
encode claims secret = String.◌∷◌ "x" claims.sub

abbrev decode : String → String → Result String (Option String)
decode String.[] secret = ok none
decode (String.◌∷◌ c user) secret = ok (some user)

require_auth-login_example :
    (◌≡◌ {A = String} "admin" (strip (get_or variables.admin_username "")))
    × (◌≡◌ {A = String} "pass" (strip (get_or variables.admin_password "")))
    × (require_auth decode (auth_config variables) (some "xadmin") ≡ ok "admin")
unfolding login auth_config strip
require_auth-login_example =
    require_auth-login encode (λ at. decode) variables "admin" "pass" "xadmin" 100 100 3600000000
      (λ c k. refl) (λ c k at from to. refl) refl refl (omega arith) (omega arith)

abbrev reported : Reply (Unit {0})
reported = record_agent_result (report "nas" "online") 100 100 true server

record_agent_result-IsReport_example :
    (root : Dict Value) × (d : Dict Value) × (read_state server.state_file ≡ ok root)
    × (site_of reported ≡ record server { state_file = holds (obj (to_fields d)) })
    × IsReport (report "nas" "online") 100 100 root d
    × (effects_of reported ≡ [])
unfolding record_agent_result lookup insert
record_agent_result-IsReport_example =
    record_agent_result-IsReport (report "nas" "online") 100 100 true server (site_of reported)
      (effects_of reported) refl

abbrev resolved : Value → Result String (Option String)
resolved host = ok (some "00:00:00:00:00:01")

abbrev settings_saved : Reply (Dict Value × List String)
settings_saved = put_config env resolved config server

put_config-SavesPairings_example :
    ((user : String) × (require_auth env.decode env.auth env.credentials ≡ ok user))
    × SavesPairings env config server (site_of settings_saved)
    × (effects_of settings_saved ≡ [])
unfolding put_config lift return throw catch check emit or_raise lookup insert contains erase strip
    ◌^◌ auth_config require_auth require_secure_admin validate_config record_agent_result ◌>>=◌
put_config-SavesPairings_example =
    put_config-SavesPairings env resolved config config [] server (site_of settings_saved)
      (effects_of settings_saved) refl

abbrev forgets : Site → Site
forgets s = site_of (handle env (by_admin (unpair "nas" "nas" true)) s)

abbrev fields_of : DataFile → Fields
fields_of (holds (obj fs)) = fs
fields_of file = Fields.end

Reaches-AreClients_example :
    (vs : Items) × (lookup "clients" (entries (fields_of (forgets server).config_file))
      ≡ some (arr vs))
    × AreClients [] (items vs)
unfolding handle read_config_or_default agent_id_of lift return throw catch check emit or_raise
    lookup insert contains erase strip ◌^◌ auth_config require_auth require_secure_admin
    validate_config record_agent_result ◌>>=◌
Reaches-AreClients_example =
    Reaches-AreClients env.str_value server (forgets server)
      (fields_of (forgets server).config_file) refl
      (next server (forgets server) (forgets server)
        (request env (by_admin (unpair "nas" "nas" true)) server (forgets server) refl refl)
        (here (forgets server)))
      refl

abbrev waiting : Enrollment
waiting = new_enrollment env.token_hash "pc" 8184 600 "tok" 100

abbrev enrolling : Site
enrolling = record server { enrollments = stored (("e1", waiting) ∷ []) }

abbrev completion : AgentEnrollmentCompleteRequest
completion = record {
  token = "tok";
  agent_id = "a2";
  csr = "c";
  hostname = "pc";
  version = "1.0.0";
}

abbrev enrolled : Reply (Dict Value)
enrolled = complete_agent_enrollment env completion enrolling

abbrev enrolled_answer : Dict Value
enrolled_answer =
    ("status", str "paired")
    ∷ ("protocol_version", int 1)
    ∷ ("agent_id", str "a2")
    ∷ ("server_cert", str "cert")
    ∷ []

complete_agent_enrollment-IsPaired_example :
    (◌≡◌ {A = String} "https" "https")
    × Names (env.read_csr "c") "a2"
    × ((id : String) × (enrollment : Details) × (file : StoreFile) × (claim env.token_hash "tok"
            "a2" "c" 100 written enrolling.enrollments
          ≡ (ok (id, enrollment), file))
        × Rewrites enrollment.client_name pairing_keys
            (IsPaired enrollment.client_name "a2" enrollment.agent_port)
            enrolling.config_file
            (site_of enrolled).config_file
        × EndsWith paired (some "a2") none id 900 file (site_of enrolled).enrollments)
    × (effects_of enrolled ≡ [])
unfolding complete_agent_enrollment claim find update_found modify only_enrollment complete
    sign_agent_csr ensure_controller_identity on_store lift return throw catch check emit or_raise
    lookup insert contains erase strip ◌^◌ auth_config require_auth require_secure_admin
    validate_config record_agent_result ◌>>=◌
complete_agent_enrollment-IsPaired_example =
    complete_agent_enrollment-IsPaired env completion 900 enrolling (site_of enrolled)
      enrolled_answer (effects_of enrolled) refl
