-- ===== src/Web.antt =====
-- wolnut/web.py: the handlers of the web interface, over a small monad: a handler reads and writes the
-- three files, may raise, and does things to the world, in order.
pub mod Store
pub mod Access
pub mod Clients
pub mod Defaults
pub mod Agents
pub mod Requests
pub mod Urls
pub mod Settings
pub mod Pollers
pub mod Rules
pub mod Returned
pub mod Results
use wolnut_webui.Common.{
  ℕ, String, Bool, true, false, Option, none, some, List, [], ◌∷◌, ◌++◌, Result, ok, err,
}
use wolnut_webui.Common.Dict.{Dict}
use wolnut_webui.Common.Value.{Value}
use wolnut_webui.Notifications.{Event}
use wolnut_webui.Enrollment.{StoreFile}

-- HTTPException, with its status and its detail; ValueError, AgentError and EnrollmentError with their
-- texts; OSError; and any other exception. Those but the first that leave a handler are a status 500.
pub data WebError : Type 0 where
  http : ℕ → String → WebError
  value_error : String → WebError
  agent_error : String → WebError
  enrollment_error : String → WebError
  os_error : WebError
  other_error : WebError

-- The YAML file of the configuration and the JSON file of the state, decoded.
pub data DataFile : Type 0 where
  absent : DataFile
  unreadable : DataFile
  holds : Value → DataFile

pub record Site : Type 0 where
  pub config_file : DataFile
  pub state_file : DataFile
  pub enrollments : StoreFile

-- What an agent is asked; a shutdown with its command's id, its source and the name of the UPS.
pub data AgentCommand : Type 0 where
  status unpair update : AgentCommand
  shutdown : String → String → Value → AgentCommand
  set_auto_update : Bool → AgentCommand

-- A request to an agent: the host, the port and the agent's id, and what it asks.
pub record AgentCall : Type 0 where
  pub host : Value
  pub port : ℕ
  pub agent_id : String
  pub command : AgentCommand

-- What a handler does to the world: a request that went out to an agent, a pairing that was begun with a
-- host, a notification for the service to send, and a magic packet.
pub data WebEffect : Type 0 where
  agent_request : AgentCall → WebEffect
  pairing_request : Value → ℕ → WebEffect
  notify : Event → String → String → WebEffect
  wake : String → Bool → WebEffect

-- What a handler returns or raises, the files after it, and what it did.
abbrev pub Reply {ℓ} : Type ℓ → Type ℓ
Reply A = Result WebError A × Site × List WebEffect

abbrev pub Handler {ℓ} : Type ℓ → Type ℓ
Handler A = Site → Reply A

abbrev pub after {ℓ} : {A : Type ℓ} → List WebEffect → Reply A → Reply A
after es (r, s, fs) = (r, s, es ++ fs)

abbrev pub continue {ℓ κ} : {A : Type ℓ} {B : Type κ} → Reply A → (A → Handler B) → Reply B
continue (ok a, s, es) f = after es (f a s)
continue (err e, s, es) f = (err e, s, es)

infixl 5 ◌>>=◌ ◌>>◌
unfoldable pub ◌>>=◌ {ℓ κ} : {A : Type ℓ} {B : Type κ} → Handler A → (A → Handler B) → Handler B
(h >>= f) s = continue (h s) f

abbrev pub ◌>>◌ {ℓ κ} : {A : Type ℓ} {B : Type κ} → Handler A → Handler B → Handler B
h >> k = h >>= λ _. k

unfoldable pub return {ℓ} : {A : Type ℓ} → A → Handler A
return a s = (ok a, s, [])

unfoldable pub throw {ℓ} : {A : Type ℓ} → WebError → Handler A
throw e s = (err e, s, [])

unfoldable pub lift {ℓ} : {A : Type ℓ} → Result WebError A → Handler A
lift r s = (r, s, [])

-- try: h except: f
abbrev pub recover {ℓ} : {A : Type ℓ} → Reply A → (WebError → Handler A) → Reply A
recover (ok a, s, es) f = (ok a, s, es)
recover (err e, s, es) f = after es (f e s)

unfoldable pub catch {ℓ} : {A : Type ℓ} → Handler A → (WebError → Handler A) → Handler A
catch h f s = recover (h s) f

unfoldable pub emit : WebEffect → Handler (Unit {0})
emit e s = (ok tt, s, e ∷ [])

unfoldable pub check : Bool → WebError → Handler (Unit {0})
check true e s = (ok tt, s, [])
check false e s = (err e, s, [])

unfoldable pub or_raise {ℓ} : {A : Type ℓ} → Option A → WebError → Handler A
or_raise (some a) e s = (ok a, s, [])
or_raise none e s = (err e, s, [])
