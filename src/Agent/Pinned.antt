-- ===== src/Agent/Pinned.antt =====
-- wolnut/agent_client.py: with whom `pair` pairs.
use wolnut_webui.Common.{
  ℕ, String, Bool, true, false, none, some, List, [], ◌∷◌, ◌≡◌, refl, ap, truthy, Result, ok, err,
  ◌>>=◌, arith, eq_iff, Bool-cases, inl, inr,
}
use wolnut_webui.Common.Text.{◌^◌, codes, codes_eq}
use wolnut_webui.Common.Dict.{Dict, lookup}
use wolnut_webui.Common.Value.{Value, str, is_text}
use mathlib.Core.Path.{subst}
use wolnut_webui.Agent.{
  decode_answer, is_version_1, IdentityFiles, Answer, Exchange, status, request,
  ensure_controller_identity,
}
use wolnut_webui.Agent.Identity.{Presents, request-Presents, response-sent}
use wolnut_webui.Agent.Pairing.{
  normalize_fingerprint, PinnedExchange, unmade, unreached, presented, Csr, csr, unreadable_csr,
  is_only, sign_agent_csr, PairingEnv, post_to, pinned_post, text_at, check_started,
  check_completed, finish_pairing, pair, overlay,
}

pub bind-ok {ℓ κ} :
    {A : Type ℓ} {B : Type κ} {E : Type 0} (m : Result E A) (f : A → Result E B) {b : B}
    → (m >>= f) ≡ ok b
    → (a : A) × (m ≡ ok a) × (f a ≡ ok b)
bind-ok (ok a) f e = (a, refl, e)
bind-ok (err x) f e = absurd (ground arith)

codes_eq-eq : (s t : List ℕ) → codes_eq s t ≡ true → s ≡ t
unfolding codes_eq
codes_eq-eq [] [] h = refl
codes_eq-eq [] (b ∷ t) h = cc
codes_eq-eq (a ∷ s) [] h = cc
codes_eq-eq (a ∷ s) (b ∷ t) h = ground (arith, codes_eq-eq s t)

is_only_lem : (s : String) (uris : List String) → is_only s uris ≡ true → uris ≡ s ∷ []
unfolding is_only
is_only_lem s [] h = cc
is_only_lem s (t ∷ []) h = ground (arith, eq_iff s t)
is_only_lem s (t ∷ u ∷ uris) h = cc

-- The certificate request is signed and names the agent alone.
abbrev pub Names : Csr → String → Type 0
Names c agent_id = c ≡ csr true (some (("urn:wolnut:agent:" ^ agent_id) ∷ []))

pub sign_agent_csr-Names :
    (issue : String → String) (c : Csr) (agent_id : String) {cert : String}
    → sign_agent_csr issue c agent_id ≡ ok cert
    → Names c agent_id
unfolding sign_agent_csr
sign_agent_csr-Names issue unreadable_csr agent_id h = absurd (ground arith)
sign_agent_csr-Names issue (csr false uris) agent_id h = absurd (ground arith)
sign_agent_csr-Names issue (csr true none) agent_id h = absurd (ground arith)
sign_agent_csr-Names issue (csr true (some uris)) agent_id h =
    elim (Bool-cases (is_only ("urn:wolnut:agent:" ^ agent_id) uris)) [
      | inl e ↦ ap (λ u. csr true (some u)) (is_only_lem ("urn:wolnut:agent:" ^ agent_id) uris e)
      | inr e ↦ absurd (ground arith)
    ]

module _ (str_value : Value → String) (is_alnum : ℕ → Bool) (issue : String → String) where
  -- The answer of a connection whose certificate has the digest.
  abbrev pub Answers : PinnedExchange → List ℕ → Dict Value → Type 0
  Answers x expected d =
      (digest : String) × (answer : Answer) × (x ≡ presented digest answer)
      × (codes digest ≡ expected)
      × (decode_answer str_value answer ≡ ok d)

  post_to-Answers :
      (expected : List ℕ) (x : PinnedExchange) {result : Dict Value}
      → post_to str_value is_alnum issue expected x ≡ ok result
      → Answers x expected result
  unfolding post_to
  post_to-Answers expected (unmade u) h = absurd (ground arith)
  post_to-Answers expected (unreached e) h = absurd (ground arith)
  post_to-Answers expected (presented digest answer) h =
      elim (Bool-cases (codes_eq (codes digest) expected)) [
        | inl e ↦ (digest, answer, refl, codes_eq-eq (codes digest) expected e, ground arith)
        | inr e ↦ absurd (ground arith)
      ]

  -- Sixty-four hexadecimal digits that the fingerprint says, shown by the connection.
  pinned_post-Answers :
      (fingerprint : String) (x : PinnedExchange) {result : Dict Value}
      → pinned_post str_value is_alnum issue fingerprint x ≡ ok result
      → (expected : List ℕ) × (normalize_fingerprint is_alnum fingerprint ≡ ok expected)
        × Answers x expected result
  unfolding pinned_post
  pinned_post-Answers fingerprint x h =
      let (expected, e, f) = bind-ok (normalize_fingerprint is_alnum fingerprint) _ h in
      (expected, e, post_to-Answers expected x f)

  -- What a pairing that returned `result` rests on: one fingerprint that both connections of the bootstrap
  -- show; the agent's id, which is not empty, from the first answer; the signed certificate request of that
  -- answer, which names the agent alone; the second answer, which got the certificate and confirms the
  -- agent; and the status of the agent, over a connection with its certificate.
  pub record IsBound (env : PairingEnv) (fingerprint : String) (result : Dict Value) : Type 0 where
    pub agent_id : String
    pub expected : List ℕ
    pub started : Dict Value
    pub completed : Dict Value
    pub answered : Dict Value
    pub named : truthy agent_id ≡ true
    pub normal : normalize_fingerprint is_alnum fingerprint ≡ ok expected
    pub first : Answers env.first expected started
    pub told : text_at str_value is_alnum issue "agent_id" started ≡ agent_id
    pub names : Names (env.read_csr (text_at str_value is_alnum issue "csr" started)) agent_id
    pub second : Answers (env.second (issue agent_id)) expected completed
    pub confirmed : is_text (lookup "agent_id" completed) agent_id ≡ true
    pub paired : is_text (lookup "status" completed) "paired" ≡ true
    pub presents : Presents env.checked agent_id
    pub same_agent : is_text (lookup "agent_id" answered) agent_id ≡ true
    pub version : is_version_1 str_value (lookup "protocol_version" answered) ≡ true
    pub returned : result ≡ overlay (("agent_id", str agent_id) ∷ []) answered

sign_agent_csr-issues :
    (issue : String → String) (c : Csr) (agent_id : String) {cert : String}
    → sign_agent_csr issue c agent_id ≡ ok cert
    → cert ≡ issue agent_id
unfolding sign_agent_csr
sign_agent_csr-issues issue unreadable_csr agent_id h = absurd (ground arith)
sign_agent_csr-issues issue (csr false uris) agent_id h = absurd (ground arith)
sign_agent_csr-issues issue (csr true none) agent_id h = absurd (ground arith)
sign_agent_csr-issues issue (csr true (some uris)) agent_id h = ground arith

status-checked :
    (str_value : Value → String) (files : IdentityFiles) (agent_id : String) (x : Exchange)
    {result : Dict Value}
    → status str_value files agent_id x ≡ ok result
    → Presents x agent_id
      × (is_text (lookup "agent_id" result) agent_id ≡ true)
      × (is_version_1 str_value (lookup "protocol_version" result) ≡ true)
unfolding status
status-checked str_value files agent_id x {result} h =
    let (response, e, f) = bind-ok (request str_value files agent_id x).1 _ h in
    (
      request-Presents str_value files agent_id x (response-sent str_value files agent_id x e),
      ground arith,
      ground arith,
    )

module _ (str_value : Value → String) (is_alnum : ℕ → Bool) (issue : String → String) where
  same_fingerprint :
      (fingerprint : String) (expected other : List ℕ) (x : PinnedExchange) {d : Dict Value}
      → normalize_fingerprint is_alnum fingerprint ≡ ok expected
      → normalize_fingerprint is_alnum fingerprint ≡ ok other
      → Answers str_value is_alnum issue x other d
      → Answers str_value is_alnum issue x expected d
  same_fingerprint fingerprint expected other x e f h = let q : other ≡ expected = cc in rw q at h

  check_started_lem :
      (d started : Dict Value)
      → check_started str_value is_alnum issue d ≡ ok started
      → (d ≡ started) × (truthy (text_at str_value is_alnum issue "agent_id" started) ≡ true)
  unfolding check_started
  check_started_lem d started h = (ground arith, ground arith)

  check_completed_lem :
      (agent_id : String) (d completed : Dict Value)
      → check_completed str_value is_alnum issue agent_id d ≡ ok completed
      → (d ≡ completed)
        × (is_text (lookup "agent_id" completed) agent_id ≡ true)
        × (is_text (lookup "status" completed) "paired" ≡ true)
  unfolding check_completed
  check_completed_lem agent_id d completed h = (ground arith, ground arith, ground arith)

  -- A pairing that returns is bound to the agent whose id it returns, which is not empty: both connections
  -- of the bootstrap showed the certificate with the given fingerprint, the first answer gave the id and a
  -- signed certificate request that names this agent alone, the second, to the certificate that was issued
  -- for it, confirmed the id, and the status that is returned came over a connection with the agent's
  -- certificate and has the id and the version 1 of the protocol.
  pub pair-IsBound :
      (env : PairingEnv) (fingerprint : String) (result : Dict Value)
      → pair str_value is_alnum issue env fingerprint ≡ ok result
      → IsBound str_value is_alnum issue env fingerprint result
  unfolding pair finish_pairing
  pair-IsBound env fingerprint result h =
      let (files, e0, h0) = bind-ok (ensure_controller_identity env.files) _ h in
      let (answer, e1, h1) =
        bind-ok (pinned_post str_value is_alnum issue fingerprint env.first) _ h0 in
      let (started, e2, h2) = bind-ok (check_started str_value is_alnum issue answer) _ h1 in
      let agent_id = text_at str_value is_alnum issue "agent_id" started in
      let request_text = text_at str_value is_alnum issue "csr" started in
      let (cert, e3, h3) =
        bind-ok (sign_agent_csr issue (env.read_csr request_text) agent_id) _ h2 in
      let (answer2, e4, h4) =
        bind-ok (pinned_post str_value is_alnum issue fingerprint (env.second cert)) _ h3 in
      let (completed, e5, h5) =
        bind-ok (check_completed str_value is_alnum issue agent_id answer2) _ h4 in
      let (final, e6, h6) = bind-ok (status str_value files agent_id env.checked) _ h5 in
      let (expected, p, first) =
        pinned_post-Answers str_value is_alnum issue fingerprint env.first e1 in
      let (other, q, second) =
        pinned_post-Answers str_value is_alnum issue fingerprint (env.second cert) e4 in
      let (same1, named) = check_started_lem answer started e2 in
      let (same2, confirmed, paired) = check_completed_lem agent_id answer2 completed e5 in
      let (presents, same_agent, version) =
        status-checked str_value files agent_id env.checked e6 in
      let issued = sign_agent_csr-issues issue (env.read_csr request_text) agent_id e3 in
      let again = same_fingerprint fingerprint expected other (env.second cert) p q second in
      record {
        agent_id = agent_id;
        expected = expected;
        started = started;
        completed = completed;
        answered = final;
        named = named;
        normal = p;
        first = subst (Answers str_value is_alnum issue env.first expected) same1 first;
        told = refl;
        names = sign_agent_csr-Names issue (env.read_csr request_text) agent_id e3;
        second =
            subst (Answers str_value is_alnum issue (env.second (issue agent_id)) expected) same2 (
              subst (λ c. Answers str_value is_alnum issue (env.second c) expected answer2) issued
                again);
        confirmed = confirmed;
        paired = paired;
        presents = presents;
        same_agent = same_agent;
        version = version;
        returned = ground arith;
      }
