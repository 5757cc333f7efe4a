-- ===== src/Web/Requests/Admins.antt =====
-- wolnut/web.py: who may make the requests for agents.
use wolnut_webui.Common.{
  ◌≤◌, String, true, Option, none, some, ◌≡◌, ◌⊎◌, refl, sym, Result, ok, err, inl, inr,
  Result-cases, arith, eq_iff, ◌∙◌, ap, Bool-cases, [], truthy, get_or,
}
use wolnut_webui.Common.Text.{codes, length, strip}
use mathlib.Core.Path.{subst}
use wolnut_webui.Web.{WebError, Site, ◌>>=◌, lift}
use wolnut_webui.Web.Access.{
  AuthVariables, AuthConfig, auth_config, verify_token, check_user, require_auth,
  require_secure_admin,
}
use wolnut_webui.Web.Agents.{WebEnv, admin}
use wolnut_webui.Web.Requests.{
  AdminRequest, test, update, shutdown, pair, unpair, auto_update, create_enrollment,
  get_enrollment, handle_admin,
}

-- The server has a user name, a password and a secret of 32 characters, the request came by HTTPS, and it
-- carries a token that the secret verifies, for that user.
pub record IsTrusted (v : AuthVariables) (env : WebEnv) (user : String) : Type 0 where
  named : user ≡ strip (get_or v.admin_username "")
  username : truthy user ≡ true
  password : truthy (strip (get_or v.admin_password "")) ≡ true
  long : 32 ≤ length (codes (get_or v.wolnut_jwt_secret ""))
  https : env.scheme ≡ "https"
  token :
      (token : String) × (env.credentials ≡ some token)
      × (truthy token ≡ true)
      × (env.decode token (get_or v.wolnut_jwt_secret "") ≡ ok (some user))

require_auth-token :
    (decode : String → String → Result String (Option String)) (c : AuthConfig)
    (credentials : Option String) (user : String)
    → c.enabled ≡ true
    → require_auth decode c credentials ≡ ok user
    → (user ≡ c.username)
      × ((token : String) × (credentials ≡ some token)
          × (truthy token ≡ true)
          × (decode token c.secret ≡ ok (some user)))
unfolding require_auth check_user verify_token
require_auth-token decode c none user on h = absurd (ground arith)
require_auth-token decode c (some token) user on h = elim (Bool-cases (truthy token)) [
  | inr f ↦ absurd (ground arith)
  | inl f ↦ elim (Result-cases (decode token c.secret)) [
    | inr (x, e) ↦ absurd (ground arith)
    | inl (none, e) ↦ absurd (ground arith)
    | inl (some sub, e) ↦
        let same : sub ≡ user = ground (arith, eq_iff sub c.username) in
        let decoded : decode token c.secret ≡ ok (some user) = e ∙ ap (λ u. ok (some u)) same in
        (ground (arith, eq_iff sub c.username), (token, refl, f, decoded))
  ]
]

secure_lem :
    (c : AuthConfig) (scheme : String)
    → require_secure_admin c scheme ≡ ok tt
    → (c.shutdown_admin_configured ≡ true) × (scheme ≡ "https")
unfolding require_secure_admin
secure_lem c scheme h = (ground (arith), ground (arith, eq_iff scheme "https"))

long-truthy : (s : String) → 32 ≤ length (codes s) → truthy s ≡ true
long-truthy String.[] h = absurd (omega arith)
long-truthy (String.◌∷◌ c s) h = refl

configured_lem :
    (v : AuthVariables)
    → (auth_config v).shutdown_admin_configured ≡ true
    → ((auth_config v).enabled ≡ true)
      × (truthy (strip (get_or v.admin_username "")) ≡ true)
      × (truthy (strip (get_or v.admin_password "")) ≡ true)
      × (32 ≤ length (codes (get_or v.wolnut_jwt_secret "")))
      × ((auth_config v).secret ≡ get_or v.wolnut_jwt_secret "")
      × ((auth_config v).username ≡ strip (get_or v.admin_username ""))
unfolding auth_config
configured_lem v h =
    let long : 32 ≤ length (codes (get_or v.wolnut_jwt_secret "")) = ground arith in
    let set = long-truthy (get_or v.wolnut_jwt_secret "") long in
    (ground arith, ground arith, ground arith, long, ground arith, refl)

admin_lem :
    (env : WebEnv) (user : String)
    → admin env ≡ ok user
    → (require_auth env.decode env.auth env.credentials ≡ ok user)
      × (require_secure_admin env.auth env.scheme ≡ ok tt)
unfolding admin
admin_lem env user h = elim (Result-cases (require_auth env.decode env.auth env.credentials)) [
  | inr (x, e) ↦ absurd (ground arith)
  | inl (u, e) ↦ elim (Result-cases (require_secure_admin env.auth env.scheme)) [
    | inr (x, f) ↦ absurd (ground arith)
    | inl (w, f) ↦ let same : u ≡ user = ground arith in (rw e (ap (λ n. ok n) same), f)
  ]
]

admin-IsTrusted :
    (v : AuthVariables) (env : WebEnv) (user : String)
    → env.auth ≡ auth_config v
    → admin env ≡ ok user
    → IsTrusted v env user
admin-IsTrusted v env user e h =
    let (auth, secure) = admin_lem env user h in
    let (on, https) = secure_lem env.auth env.scheme secure in
    let (enabled, username, password, long, secret, name) =
      configured_lem v (subst (λ c. c.shutdown_admin_configured ≡ true) e on) in
    let (named, (token, given, set, decoded)) =
      require_auth-token env.decode (auth_config v) env.credentials user enabled
        (subst (λ c. require_auth env.decode c env.credentials ≡ ok user) e auth) in
    record {
      named = named ∙ name;
      username = subst (λ u. truthy u ≡ true) (sym (named ∙ name)) username;
      password = password;
      long = long;
      https = https;
      token = (token, given, set, subst (λ k. env.decode token k ≡ ok (some user)) secret decoded);
    }

-- Without an administrator the handlers end at their first step.
refused :
    (env : WebEnv) (r : AdminRequest) (s : Site) (e : WebError)
    → admin env ≡ err e
    → handle_admin env r s ≡ (err e, s, [])
unfolding handle_admin ◌>>=◌ lift
refused env (test name) s e h = rw h refl
refused env (update name) s e h = rw h refl
refused env (shutdown name c) s e h = rw h refl
refused env (pair name port f) s e h = rw h refl
refused env (unpair name c b) s e h = rw h refl
refused env (auto_update name b) s e h = rw h refl
refused env (create_enrollment name port) s e h = rw h refl
refused env (get_enrollment id) s e h = rw h refl

-- Each request to test, update, shut down, pair or unpair an agent, to set its policy, or to create or
-- read an enrollment either comes from a user who is trusted, or raises and changes no file and contacts
-- nobody.
pub handle_admin-IsTrusted :
    (v : AuthVariables) (env : WebEnv) (r : AdminRequest) (s : Site)
    → env.auth ≡ auth_config v
    → ((user : String) × IsTrusted v env user)
      ⊎ ((e : WebError) × (handle_admin env r s ≡ (err e, s, [])))
handle_admin-IsTrusted v env r s e = elim (Result-cases (admin env)) [
  | inl (user, h) ↦ inl (user, admin-IsTrusted v env user e h)
  | inr (x, h) ↦ inr (x, refused env r s x h)
]
