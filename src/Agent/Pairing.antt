-- ===== src/Agent/Pairing.antt =====
-- wolnut/agent_client.py: `normalize_fingerprint`, the checks of `sign_agent_csr`, `_pinned_post` and
-- `pair`. The certificate that the controller issues is the argument `issue`; `is_alnum` is
-- str.isalnum on the characters beyond ASCII. The identity files can be read once they exist.
use wolnut_webui.Common.{
  ℕ, ◌+◌, String, Bool, true, false, not, ◌&&◌, ◌||◌, Option, none, some, List, [], ◌∷◌, ltb, ◌==◌,
  truthy, str_eq, if◌then◌else◌, Result, ok, err, ◌>>=◌,
}
use wolnut_webui.Common.Text.{◌^◌, codes, within, codes_eq, length}
use wolnut_webui.Common.Dict.{Dict, lookup, insert}
use wolnut_webui.Common.Value.{Value, str, is_text}
use wolnut_webui.Agent.{
  AgentFailure, agent_error, Uncaught, uncaught, IdentityFiles, ensure_controller_identity, Answer,
  Exchange, text_of, decode_answer, status,
}

-- str.lower on ASCII.
unfoldable pub lower : ℕ → ℕ
lower c = if within b'A' b'Z' c then c + 32 else c

abbrev is_hex : ℕ → Bool
is_hex c = within b'0' b'9' c || within b'a' b'f' c

abbrev pub all_hex : List ℕ → Bool
all_hex [] = true
all_hex (c ∷ cs) = is_hex c && all_hex cs

abbrev is_alnum_with : (ℕ → Bool) → ℕ → Bool
is_alnum_with is_alnum c =
    within b'0' b'9' c
    || within b'A' b'Z' c
    || within b'a' b'z' c
    || (not (ltb c 128) && is_alnum c)

unfoldable pub normalized : (ℕ → Bool) → List ℕ → List ℕ
unfolding lower
normalized is_alnum [] = []
normalized is_alnum (c ∷ cs) =
    let rest = normalized is_alnum cs in if is_alnum_with is_alnum c then lower c ∷ rest else rest

unfoldable pub normalize_fingerprint : (ℕ → Bool) → String → Result AgentFailure (List ℕ)
unfolding normalized
normalize_fingerprint is_alnum value =
    let n = normalized is_alnum (codes value) in
    if not (length n == 64) || not (all_hex n)
    then err (agent_error "Certificate fingerprint must contain 64 hexadecimal characters")
    else ok n

-- A connection for pairing: one that could not be made, no handshake, or the digest of the certificate and what the request gave.
pub data PinnedExchange : Type 0 where
  unmade : Uncaught → PinnedExchange
  unreached : String → PinnedExchange
  presented : String → Answer → PinnedExchange

-- A certificate request: one that cannot be read, or its signature's check and its URIs, if it names any.
pub data Csr : Type 0 where
  unreadable_csr : Csr
  csr : Bool → Option (List String) → Csr

unfoldable pub is_only : String → List String → Bool
is_only s (t ∷ []) = str_eq s t
is_only s _ = false

-- `sign_agent_csr` after the controller's identity is there.
unfoldable pub sign_agent_csr : (String → String) → Csr → String → Result AgentFailure String
unfolding is_only
sign_agent_csr issue unreadable_csr agent_id =
    err (agent_error "Agent returned an invalid certificate request")
sign_agent_csr issue (csr false uris) agent_id =
    err (agent_error "Agent certificate request signature is invalid")
sign_agent_csr issue (csr true none) agent_id =
    err (agent_error "Agent certificate request has no identity")
sign_agent_csr issue (csr true (some uris)) agent_id =
    if is_only ("urn:wolnut:agent:" ^ agent_id) uris
    then ok (issue agent_id)
    else err (agent_error "Agent certificate request identity does not match")

-- d.update(e)
unfoldable pub overlay : Dict Value → Dict Value → Dict Value
overlay d [] = d
overlay d ((k, v) ∷ e) = overlay (insert k v d) e

-- What pairing reads: the two exchanges of the bootstrap, the second of which gets the certificate, the
-- certificate request behind a text, and the exchange of the first status.
pub record PairingEnv : Type 0 where
  pub files : IdentityFiles
  pub first : PinnedExchange
  pub read_csr : String → Csr
  pub second : String → PinnedExchange
  pub checked : Exchange

module _ (str_value : Value → String) (is_alnum : ℕ → Bool) (issue : String → String) where
  unfoldable pub post_to : List ℕ → PinnedExchange → Result AgentFailure (Dict Value)
  unfolding codes_eq decode_answer
  post_to expected (unmade u) = err (uncaught u)
  post_to expected (unreached e) = err (agent_error ("Could not securely contact agent: " ^ e))
  post_to expected (presented digest answer) =
      if codes_eq (codes digest) expected
      then decode_answer str_value answer
      else err (agent_error "Agent certificate fingerprint does not match")

  -- `_pinned_post`
  unfoldable pub pinned_post : String → PinnedExchange → Result AgentFailure (Dict Value)
  unfolding normalize_fingerprint post_to
  pinned_post fingerprint x = do
    expected ← normalize_fingerprint is_alnum fingerprint
    post_to expected x

  -- str(d.get(k, ""))
  abbrev pub text_at : String → Dict Value → String
  text_at k d = elim (lookup k d) [ none ↦ "" | some v ↦ text_of str_value v ]

  unfoldable pub check_started : Dict Value → Result AgentFailure (Dict Value)
  check_started started =
      if truthy (text_at "agent_id" started)
        && truthy (text_at "csr" started)
        && truthy (text_at "completion_token" started)
      then ok started
      else err (agent_error "Agent returned incomplete pairing information")

  unfoldable pub check_completed : String → Dict Value → Result AgentFailure (Dict Value)
  check_completed agent_id completed =
      if is_text (lookup "agent_id" completed) agent_id
        && is_text (lookup "status" completed) "paired"
      then ok completed
      else err (agent_error "Agent did not confirm pairing")

  -- What follows the first answer.
  unfoldable pub finish_pairing :
      PairingEnv → IdentityFiles → String → Dict Value → Result AgentFailure (Dict Value)
  unfolding pinned_post sign_agent_csr check_completed status overlay
  finish_pairing env files fingerprint started = do
    let agent_id = text_at "agent_id" started
    cert ← sign_agent_csr issue (env.read_csr (text_at "csr" started)) agent_id
    answer ← pinned_post fingerprint (env.second cert)
    completed ← check_completed agent_id answer
    result ← status str_value files agent_id env.checked
    ok (overlay (("agent_id", str agent_id) ∷ []) result)

  unfoldable pub pair : PairingEnv → String → Result AgentFailure (Dict Value)
  unfolding pinned_post check_started finish_pairing ensure_controller_identity
  pair env fingerprint = do
    files ← ensure_controller_identity env.files
    answer ← pinned_post fingerprint env.first
    started ← check_started answer
    finish_pairing env files fingerprint started
