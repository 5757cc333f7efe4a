-- ===== src/Web/Agents/Enroll.antt =====
-- wolnut/web.py: `create_agent_enrollment`, `get_agent_enrollment` and `complete_agent_enrollment`.
use wolnut_webui.Common.{
  ℕ, String, not, ◌&&◌, Option, none, some, [], ◌∷◌, str_eq, get_or, if◌then◌else◌, Result, ok, err,
}
use wolnut_webui.Common.Dict.{Dict, lookup}
use wolnut_webui.Common.Value.{Value, null, int, str, is_text, is_true}
use wolnut_webui.Agent.{ensure_controller_identity}
use wolnut_webui.Agent.Pairing.{sign_agent_csr}
use wolnut_webui.Enrollment.{EnrollmentFailure, StoreFile, Call, Created, Details}
use wolnut_webui.Enrollment
use wolnut_webui.Enrollment.Store.{create, claim, complete, fail}
use wolnut_webui.Enrollment.Store
use wolnut_webui.Web.{
  WebError, http, value_error, agent_error, enrollment_error, os_error, other_error, Handler, ◌>>=◌,
  ◌>>◌, return, throw, lift, catch, check,
}
use wolnut_webui.Web.Urls.{public_url, agent_download_base}
use wolnut_webui.Web.Clients.{agent_id_of}
use wolnut_webui.Web.Results.{report}
use wolnut_webui.Web.Agents.{WebEnv, admin, of_agent, record_result, named_client}
use wolnut_webui.Web.Agents.Pairing.{pairing_fields, save}

abbrev pub store_error : EnrollmentFailure → WebError
store_error (Enrollment.enrollment_error text) = enrollment_error text
store_error Enrollment.write_error = os_error

abbrev pub of_store {ℓ} : {A : Type ℓ} → Result EnrollmentFailure A → Result WebError A
of_store (ok a) = ok a
of_store (err e) = err (store_error e)

-- A call of the enrollment store.
unfoldable pub on_store {ℓ} : {A : Type ℓ} → (StoreFile → Call A) → Handler A
on_store f s = let (r, file) = f s.enrollments in (of_store r, record s { enrollments = file }, [])

-- except EnrollmentError
unfoldable pub only_enrollment {ℓ} : {A : Type ℓ} → (String → Handler A) → WebError → Handler A
only_enrollment f (enrollment_error text) = f text
only_enrollment f e = throw e

-- except ValueError: the session is over.
unfoldable pub close_created : WebEnv → String → WebError → Handler String
unfolding on_store
close_created env id (value_error text) = do
  on_store (fail id text env.now env.result_write)
  throw (http 503 text)
close_created env id e = throw e

abbrev pub urls : WebEnv → Result WebError String
urls env = elim (public_url env.split env.public_variable env.base_url) [
  | err e ↦ err e
  | ok url ↦ elim (agent_download_base env.split env.download_variable) [
    | err e ↦ err e
    | ok base ↦ ok url
  ]
]

unfoldable pub none_paired : Option String → Handler (Unit {0})
none_paired none = return tt
none_paired (some id) =
    throw (http 409 "Unpair the existing agent before creating an install command")

-- `create_agent_enrollment`: the session, its token and the public URL. The certificate that the answer
-- shows, and the fixed texts, are left out.
unfoldable pub create_agent_enrollment : WebEnv → String → ℕ → Handler (Created × String)
unfolding admin named_client
create_agent_enrollment env name port = do
  user ← lift (admin env)
  (raw, client) ← named_client env name
  id ← lift (agent_id_of client)
  none_paired id
  created ←
      catch
        (on_store (
          create env.token_hash name port env.lifetime env.enrollment_id env.token env.now
            env.enrollment_write))
        (only_enrollment (λ text. throw (http 409 text)))
  url ← catch (lift (urls env)) (close_created env created.enrollment_id)
  return (created, url)

-- `get_agent_enrollment`
unfoldable pub get_agent_enrollment : WebEnv → String → Handler Details
unfolding admin
get_agent_enrollment env id = do
  user ← lift (admin env)
  catch (on_store (λ file. (Store.status id env.now file, file)))
      (only_enrollment (λ text. throw (http 404 text)))

-- AgentEnrollmentCompleteRequest
pub record AgentEnrollmentCompleteRequest : Type 0 where
  pub token : String
  pub agent_id : String
  pub csr : String
  pub hostname : String
  pub version : String

-- The settings of the client, unless it has another agent by now.
abbrev pub enrolled_fields : String → ℕ → Dict Value → Result WebError (Dict Value)
enrolled_fields agent_id port shutdown =
    let existing = get_or (lookup "agent_id" shutdown) null in
    if is_true existing && not (is_text (some existing) agent_id)
    then err (http 409 "Client was paired while enrollment was in progress")
    else ok (pairing_fields (str agent_id) port shutdown)

-- The part of `complete_agent_enrollment` in its try block.
unfoldable pub finish_enrollment :
    WebEnv → AgentEnrollmentCompleteRequest → String → Details → Handler (Dict Value)
unfolding save record_result
finish_enrollment env req id enrollment = do
  files ← lift (of_agent (ensure_controller_identity env.files))
  cert ← lift (of_agent (sign_agent_csr env.issue (env.read_csr req.csr) req.agent_id))
  save env enrollment.client_name (enrolled_fields req.agent_id enrollment.agent_port)
  on_store (complete id req.agent_id env.now env.result_write)
  record_result env (record (report enrollment.client_name "paired") {
    details = ("hostname", str req.hostname) ∷ ("version", str req.version) ∷ [];
  })
  return (
      ("status", str "paired")
      ∷ ("protocol_version", int 1)
      ∷ ("agent_id", str req.agent_id)
      ∷ ("server_cert", str cert)
      ∷ [])

-- What follows the exceptions that the handler takes: the session is over.
unfoldable pub end_session : WebEnv → String → String → WebError → Handler (Dict Value)
end_session env id text error = do on_store (fail id text env.now env.result_write); throw error

unfoldable pub close_enrollment : WebEnv → String → WebError → Handler (Dict Value)
unfolding end_session
close_enrollment env id (http status detail) = end_session env id detail (http status detail)
close_enrollment env id (agent_error text) = end_session env id text (http 400 text)
close_enrollment env id (enrollment_error text) = end_session env id text (http 400 text)
close_enrollment env id (value_error text) = end_session env id text (http 400 text)
close_enrollment env id os_error = end_session env id env.os_text (http 400 env.os_text)
close_enrollment env id other_error = throw other_error

-- `complete_agent_enrollment`, by its HTTPS check, the claim and the rest.
unfoldable pub complete_agent_enrollment :
    WebEnv → AgentEnrollmentCompleteRequest → Handler (Dict Value)
unfolding finish_enrollment close_enrollment
complete_agent_enrollment env req = do
  check (str_eq env.scheme "https") (http 426 "Agent enrollment requires HTTPS")
  (id, enrollment) ←
      catch
        (on_store (
          claim env.token_hash req.token req.agent_id (env.csr_hash req.csr) env.now
            env.enrollment_write))
        (only_enrollment
          (λ text. throw (http 403 "Enrollment token is invalid, expired, or already used")))
  catch (finish_enrollment env req id enrollment) (close_enrollment env id)
