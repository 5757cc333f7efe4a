-- ===== src/Agent/Identity.antt =====
-- wolnut/agent_client.py: `_request` sends nothing to an agent whose certificate lacks the identity.
use wolnut_webui.Common.{
  ℕ, String, true, List, err, ◌≢◌, ◌≡◌, refl, inl, inr, ok, Bool-cases, str_in, arith, Result-cases,
}
use wolnut_webui.Common.Text.{◌^◌}
use wolnut_webui.Common.Value.{Value, obj, end}
use wolnut_webui.Common.Dict.{Dict}
use wolnut_webui.Agent.{
  IdentityFiles, ensure_controller_identity, Exchange, refused, nameless, exchange_request,
  connected, Answer, request, response, undecodable, raised, Uncaught, uncaught, decode_response,
  json, empty, invalid, broken, status, decode_value,
}

-- The agent that answered presented a certificate with the configured identity.
abbrev pub Presents : Exchange → String → Type 0
Presents x agent_id =
    (uris : List String) × (answer : Answer) × (x ≡ connected uris answer)
    × (str_in ("urn:wolnut:agent:" ^ agent_id) uris ≡ true)

connected-Presents :
    (str_value : Value → String) (agent_id : String) (x : Exchange)
    → (exchange_request str_value agent_id x).0 ≡ true
    → Presents x agent_id
unfolding exchange_request
connected-Presents str_value agent_id (raised u) h = cc
connected-Presents str_value agent_id (refused e) h = cc
connected-Presents str_value agent_id nameless h = cc
connected-Presents str_value agent_id (connected uris answer) h = (uris, answer, refl, ground arith)

-- A request goes out only over a connection whose certificate has the identity.
pub request-Presents :
    (str_value : Value → String) (files : IdentityFiles) (agent_id : String) (x : Exchange)
    → (request str_value files agent_id x).0 ≡ true
    → Presents x agent_id
unfolding request
request-Presents str_value files agent_id x h =
    elim (Result-cases (ensure_controller_identity files)) [
      | inl (f, e) ↦ connected-Presents str_value agent_id x (rw e at h)
      | inr (f, e) ↦ cc (rw e at h)
    ]

connected-sent :
    (str_value : Value → String) (agent_id : String) (x : Exchange) {response : Dict Value}
    → (exchange_request str_value agent_id x).1 ≡ ok response
    → (exchange_request str_value agent_id x).0 ≡ true
unfolding exchange_request
connected-sent str_value agent_id (raised u) h = cc
connected-sent str_value agent_id (refused e) h = cc
connected-sent str_value agent_id nameless h = cc
connected-sent str_value agent_id (connected uris answer) h =
    elim (Bool-cases (str_in ("urn:wolnut:agent:" ^ agent_id) uris)) [
      | inl e ↦ rw e
      | inr e ↦ cc (rw e at h)
    ]

-- An answer that is a response comes only to a request that went out.
pub response-sent :
    (str_value : Value → String) (files : IdentityFiles) (agent_id : String) (x : Exchange)
    {response : Dict Value}
    → (request str_value files agent_id x).1 ≡ ok response
    → (request str_value files agent_id x).0 ≡ true
unfolding request
response-sent str_value files agent_id x h =
    elim (Result-cases (ensure_controller_identity files)) [
      | inl (f, e) ↦ rw e (connected-sent str_value agent_id x (rw e at h))
      | inr (f, e) ↦ cc (rw e at h)
    ]

-- What the connection and the agent's answer raise, if anything, is taken by `_request`.
abbrev pub Decodes : Exchange → Type 0
Decodes (raised u) = ⊥
Decodes (connected uris (response status (undecodable u))) = ⊥
Decodes _ = Unit

decode_value-decodes :
    (str_value : Value → String) (status : ℕ) (v : Value)
    → (u : Uncaught) → decode_value str_value status v ≢ err (uncaught u)
unfolding decode_value
decode_value-decodes str_value status (obj fields) u = ground arith
decode_value-decodes str_value status _ u = ground arith

pub exchange_request-Decodes :
    (str_value : Value → String) (agent_id : String) (x : Exchange)
    → Decodes x
    → (u : Uncaught) → (exchange_request str_value agent_id x).1 ≢ err (uncaught u)
unfolding exchange_request decode_response
exchange_request-Decodes str_value agent_id (raised v) d u = absurd d
exchange_request-Decodes str_value agent_id (refused e) d u = ground arith
exchange_request-Decodes str_value agent_id nameless d u = ground arith
exchange_request-Decodes str_value agent_id (connected uris (broken e)) d u = ground arith
exchange_request-Decodes str_value agent_id (connected uris (response status empty)) d u =
    ground (arith, decode_value-decodes str_value status (obj end) u)
exchange_request-Decodes str_value agent_id (connected uris (response status invalid)) d u =
    ground arith
exchange_request-Decodes str_value agent_id (connected uris (response status (undecodable v))) d u =
    absurd d
exchange_request-Decodes str_value agent_id (connected uris (response status (json v))) d u =
    ground (arith, decode_value-decodes str_value status v u)

pub request-Decodes :
    (str_value : Value → String) (files : IdentityFiles) (agent_id : String) (x : Exchange)
    → Decodes x
    → files.usable ≡ true
    → (u : Uncaught) → (request str_value files agent_id x).1 ≢ err (uncaught u)
unfolding request ensure_controller_identity
request-Decodes str_value files agent_id x d usable u =
    ground (arith, exchange_request-Decodes str_value agent_id x d u)

pub status-Decodes :
    (str_value : Value → String) (files : IdentityFiles) (agent_id : String) (x : Exchange)
    → Decodes x
    → files.usable ≡ true
    → (u : Uncaught) → status str_value files agent_id x ≢ err (uncaught u)
unfolding status
status-Decodes str_value files agent_id x d usable u =
    ground (arith, request-Decodes str_value files agent_id x d usable u)
