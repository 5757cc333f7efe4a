-- ===== src/Web/Requests.antt =====
-- wolnut/web.py: the requests that change the files, each with what it carries, and sequences of them.
pub mod Files
pub mod Handlers
pub mod Admin
pub mod Accepted
pub mod Registry
pub mod Admins
use wolnut_webui.Common.{String, ℕ, Bool, Option, Result, ◌≡◌}
use wolnut_webui.Common.Dict.{Dict}
use wolnut_webui.Common.Value.{Value}
use wolnut_webui.Web.{Site, DataFile, Handler, ◌>>=◌, ◌>>◌, return}
use wolnut_webui.Web.Rules.{site_of}
use wolnut_webui.Web.Agents.{WebEnv, test_agent, update_agent, shutdown_agent}
use wolnut_webui.Web.Agents.Pairing.{pair_agent, unpair_agent, set_agent_auto_update}
use wolnut_webui.Web.Agents.Enroll.{
  AgentEnrollmentCompleteRequest, create_agent_enrollment, get_agent_enrollment,
  complete_agent_enrollment,
}
use wolnut_webui.Web.Settings.Save.{put_config}

pub data AdminRequest : Type 0 where
  test : String → AdminRequest
  update : String → AdminRequest
  shutdown : String → String → AdminRequest
  pair : String → ℕ → String → AdminRequest
  unpair : String → String → Bool → AdminRequest
  auto_update : String → Bool → AdminRequest
  create_enrollment : String → ℕ → AdminRequest
  get_enrollment : String → AdminRequest

abbrev drop {ℓ} : {A : Type ℓ} → Handler A → Handler (Unit {0})
drop h = h >> return tt

-- The handler of the request; what it returns is left out.
unfoldable pub handle_admin : WebEnv → AdminRequest → Handler (Unit {0})
unfolding test_agent update_agent shutdown_agent pair_agent unpair_agent set_agent_auto_update
    create_agent_enrollment get_agent_enrollment
handle_admin env (test name) = drop (test_agent env name)
handle_admin env (update name) = drop (update_agent env name)
handle_admin env (shutdown name confirmation) = drop (shutdown_agent env name confirmation)
handle_admin env (pair name port fingerprint) = drop (pair_agent env name port fingerprint)
handle_admin env (unpair name confirmation force_local) =
    drop (unpair_agent env name confirmation force_local)
handle_admin env (auto_update name enabled) = drop (set_agent_auto_update env name enabled)
handle_admin env (create_enrollment name port) = drop (create_agent_enrollment env name port)
handle_admin env (get_enrollment id) = drop (get_agent_enrollment env id)

pub data SiteRequest : Type 0 where
  by_admin : AdminRequest → SiteRequest
  enroll : AgentEnrollmentCompleteRequest → SiteRequest
  put_settings : (Value → Result String (Option String)) → Dict Value → SiteRequest

unfoldable pub handle : WebEnv → SiteRequest → Handler (Unit {0})
unfolding handle_admin complete_agent_enrollment put_config
handle env (by_admin r) = handle_admin env r
handle env (enroll r) = drop (complete_agent_enrollment env r)
handle env (put_settings resolve raw) = drop (put_config env resolve raw)

-- What changes the files: a request, whoever makes it and whatever comes of it, or a write of the state
-- file by the monitor.
pub data Step (str_value : Value → String) : Site → Site → Type 0 where
  request :
      (env : WebEnv) (r : SiteRequest) (s s' : Site)
      → env.str_value ≡ str_value
      → s' ≡ site_of (handle env r s)
      → Step str_value s s'
  saved_state :
      (s s' : Site) (file : DataFile) → s' ≡ record s { state_file = file } → Step str_value s s'

pub data Reaches (str_value : Value → String) : Site → Site → Type 0 where
  here : (s : Site) → Reaches str_value s s
  next : (s t u : Site) → Step str_value s t → Reaches str_value t u → Reaches str_value s u
