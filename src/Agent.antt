-- ===== src/Agent.antt =====
-- wolnut/agent_client.py: `AgentClient` over a network that is an argument, and the controller
-- identity files that each request needs. TLS, certificates and JSON are other people's code: an
-- exchange says what they answered.
pub mod Identity
pub mod Pairing
pub mod Pinned
use wolnut_webui.Common.{
  ℕ, ◌+◌, String, Bool, true, false, ◌&&◌, ◌||◌, Option, none, some, List, leb, str_in, str_eq,
  if◌then◌else◌, Result, ok, err, ◌>>=◌, ◌==◌,
}
use wolnut_webui.Common.Text.{◌^◌, show}
use wolnut_webui.Common.Dict.{Dict, lookup}
use wolnut_webui.Common.Value.{Value, bool, real, int, str, obj, end, entries, is_true, is_text}
use wolnut_webui.State.{seconds}

-- An exception that no handler of the client or of the monitor takes: a ValueError, such as the
-- UnicodeDecodeError of `json.loads`, its refusal of a number with too many digits, or that of a
-- certificate that cannot be read; a RecursionError, for a body that is nested too deeply; an OSError or an
-- SSLError where the identity is made or loaded; the InvalidURL of a connection for a host with control
-- characters, which is an HTTPException.
pub data Uncaught : Type 0 where
  value_error recursion_error os_error http_exception : Uncaught

-- AgentError with its text, or another exception.
pub data AgentFailure : Type 0 where
  agent_error : String → AgentFailure
  uncaught : Uncaught → AgentFailure

-- Which of the four files of the controller identity exist, and whether their modes can be set and new
-- ones be written.
pub record IdentityFiles : Type 0 where
  pub ca_key : Bool
  pub ca_cert : Bool
  pub client_key : Bool
  pub client_cert : Bool
  pub usable : Bool

abbrev pub all_files : IdentityFiles
all_files = record {
  ca_key = true;
  ca_cert = true;
  client_key = true;
  client_cert = true;
  usable = true;
}

abbrev usable_or_raise : IdentityFiles → IdentityFiles → Result AgentFailure IdentityFiles
usable_or_raise f g = if f.usable then ok g else err (uncaught os_error)

-- `_ensure_controller_identity`: the files after it, all four written where none was there.
unfoldable pub ensure_controller_identity : IdentityFiles → Result AgentFailure IdentityFiles
ensure_controller_identity f =
    if f.ca_key && f.ca_cert && f.client_key && f.client_cert
    then usable_or_raise f f
    else if f.ca_key || f.ca_cert || f.client_key || f.client_cert
    then err (
        agent_error
          "Controller security identity is incomplete; restore it or remove all identity files")
    else usable_or_raise f all_files

-- The body of a response, read to its end or to 64 KiB: none, no JSON, one on which `json.loads` raises
-- something else than JSONDecodeError, or a value.
pub data Body : Type 0 where
  empty : Body
  invalid : Body
  undecodable : Uncaught → Body
  json : Value → Body

-- What came of an HTTP request: an OSError, SSLError or HTTPException with its text, or a response.
pub data Answer : Type 0 where
  broken : String → Answer
  response : ℕ → Body → Answer

-- What came of the connection: an exception that `_request` does not take, such as one of the TLS context or
-- of the connection, which are made outside its `try`, or of a certificate that cannot be read; no
-- handshake; a certificate without names; or one with these URIs.
pub data Exchange : Type 0 where
  raised : Uncaught → Exchange
  refused : String → Exchange
  nameless : Exchange
  connected : List String → Answer → Exchange

-- str() of a decoded value that is not a text.
module _ (str_value : Value → String) where
  abbrev pub text_of : Value → String
  text_of (str s) = s
  text_of v = str_value v

  error_of : Option Value → ℕ → String
  error_of none status = "Agent request failed with status " ^ show status
  error_of (some v) status =
      if is_true v then text_of v else "Agent request failed with status " ^ show status

  decode_value : ℕ → Value → Result AgentFailure (Dict Value)
  unfolding error_of
  decode_value status (obj fields) =
      if leb 400 status
      then err (agent_error (error_of (lookup "error" (entries fields)) status))
      else ok (entries fields)
  decode_value status v =
      if leb 400 status
      then err (agent_error (error_of none status))
      else err (agent_error "Agent returned an invalid response")

  unfoldable pub decode_response : ℕ → Body → Result AgentFailure (Dict Value)
  unfolding decode_value
  decode_response status empty = decode_value status (obj end)
  decode_response status invalid = err (agent_error "Agent returned an invalid response")
  decode_response status (undecodable u) = err (uncaught u)
  decode_response status (json v) = decode_value status v

  unfoldable pub decode_answer : Answer → Result AgentFailure (Dict Value)
  unfolding decode_response
  decode_answer (broken e) = err (agent_error ("Could not securely contact agent: " ^ e))
  decode_answer (response status body) = decode_response status body

  -- `_request`. The first part of the result says whether the request went out.
  unfoldable pub exchange_request : String → Exchange → Bool × Result AgentFailure (Dict Value)
  unfolding decode_answer
  exchange_request agent_id (raised u) = (false, err (uncaught u))
  exchange_request agent_id (refused e) =
      (false, err (agent_error ("Could not securely contact agent: " ^ e)))
  exchange_request agent_id nameless =
      (false, err (agent_error "Agent certificate has no identity"))
  exchange_request agent_id (connected uris answer) =
      if str_in ("urn:wolnut:agent:" ^ agent_id) uris
      then (true, decode_answer answer)
      else (false, err (agent_error "Agent certificate identity does not match configured device"))

  request_with :
      Result AgentFailure IdentityFiles
      → String
      → Exchange
      → Bool × Result AgentFailure (Dict Value)
  unfolding exchange_request
  request_with (err e) agent_id x = (false, err e)
  request_with (ok f) agent_id x = exchange_request agent_id x

  unfoldable pub request :
      IdentityFiles → String → Exchange → Bool × Result AgentFailure (Dict Value)
  unfolding request_with ensure_controller_identity
  request files agent_id x = request_with (ensure_controller_identity files) agent_id x

  -- `True`, `1` and `1.0` are equal.
  abbrev pub is_version_1 : Option Value → Bool
  is_version_1 (some (int n)) = n == 1
  is_version_1 (some (bool b)) = b
  is_version_1 (some (real r)) = str_eq r "1.0"
  is_version_1 _ = false

  check_status : String → Dict Value → Result AgentFailure (Dict Value)
  check_status agent_id result =
      if is_text (lookup "agent_id" result) agent_id
        && is_version_1 (lookup "protocol_version" result)
      then ok result
      else err (agent_error "Agent identity or protocol version does not match")

  unfoldable pub status : IdentityFiles → String → Exchange → Result AgentFailure (Dict Value)
  unfolding check_status request
  status files agent_id x = do result ← (request files agent_id x).1; check_status agent_id result

-- The body of a shutdown request.
pub record ShutdownPayload : Type 0 where
  pub command_id : String
  pub source : String
  pub requested_at : ℕ
  pub expires_at : ℕ
  pub ups : String
  pub battery_percent : Option ℕ
  pub threshold_percent : Option ℕ

unfoldable pub shutdown_payload :
    String → String → String → Option ℕ → Option ℕ → ℕ → ShutdownPayload
shutdown_payload command_id source ups battery threshold now = record {
  command_id = command_id;
  source = source;
  requested_at = seconds now;
  expires_at = seconds now + 60;
  ups = ups;
  battery_percent = battery;
  threshold_percent = threshold;
}
