-- ===== src/Web/Access/Login.antt =====
-- wolnut/web.py: a token of `login` is one that `require_auth` takes.
use wolnut_webui.Common.{
  ℕ, ◌+◌, ◌*◌, ◌≤◌, String, true, Option, some, ◌≡◌, refl, sym, ap, ◌∙◌, Result, ok, arith, eq_iff,
  truthy, get_or,
}
use wolnut_webui.Common.Text.{strip}
use mathlib.Core.Path.{subst}
use wolnut_webui.State.{microseconds}
use wolnut_webui.Web.Access.{
  Claims, create_access_token, AuthVariables, AuthConfig, auth_config, verify_token, check_user,
  require_auth, login,
}

enabled-truthy :
    (v : AuthVariables) → (auth_config v).enabled ≡ true → truthy (auth_config v).username ≡ true
unfolding auth_config
enabled-truthy v h = ground arith

configured_name :
    (v : AuthVariables) → (auth_config v).username ≡ strip (get_or v.admin_username "")
unfolding auth_config
configured_name v = refl

configured_password :
    (v : AuthVariables) → (auth_config v).password ≡ strip (get_or v.admin_password "")
unfolding auth_config
configured_password v = refl

login_lem :
    (encode : Claims → String → String) (now now' : ℕ) (c : AuthConfig)
    (username password token : String)
    → c.enabled ≡ true
    → login encode now now' c username password ≡ ok token
    → (username ≡ c.username)
      × (password ≡ c.password)
      × (token ≡ create_access_token encode now now' username c.secret)
unfolding login
login_lem encode now now' c username password token on h = (
  ground (arith, eq_iff username c.username),
  ground (arith, eq_iff password c.password),
  ground (arith, eq_iff username c.username, eq_iff password c.password),
)

accepts :
    (decode : String → String → Result String (Option String)) (c : AuthConfig) (token : String)
    → c.enabled ≡ true
    → truthy token ≡ true
    → truthy c.username ≡ true
    → decode token c.secret ≡ ok (some c.username)
    → require_auth decode c (some token) ≡ ok c.username
unfolding require_auth check_user verify_token
accepts decode c token on full named e = ground (arith, eq_iff c.username c.username)

-- Where signing in is on, a name and a password that `login` takes are those of the server, and a request
-- with the token that it returned, up to a second before 24 hours are over, is one of that user. Tokens are
-- not empty, and decoding one with the secret that it was made with gives back its subject, from when it
-- was made to a second before it expires; the times of a token are in whole seconds.
pub require_auth-login :
    (encode : Claims → String → String)
    (decode : ℕ → String → String → Result String (Option String)) (v : AuthVariables)
    (username password token : String) (now now' later : ℕ)
    → ((claims : Claims) (secret : String) → truthy (encode claims secret) ≡ true)
    → ((claims : Claims) (secret : String) (at : ℕ)
        → claims.iat ≤ at
        → at + microseconds ≤ claims.exp
        → decode at (encode claims secret) secret ≡ ok (some claims.sub))
    → (auth_config v).enabled ≡ true
    → login encode now now' (auth_config v) username password ≡ ok token
    → now ≤ later
    → later + microseconds ≤ now' + 24 * 3600 * microseconds
    → (username ≡ strip (get_or v.admin_username ""))
      × (password ≡ strip (get_or v.admin_password ""))
      × (require_auth (decode later) (auth_config v) (some token) ≡ ok username)
unfolding create_access_token
require_auth-login encode decode v username password token now now' later full back on h from to =
    let c = auth_config v in
    let (u, p, t) = login_lem encode now now' c username password token on h in
    let claims : Claims = record {
      sub = c.username;
      iat = now;
      exp = now' + 24 * 3600 * microseconds;
    } in
    let made : token ≡ encode claims c.secret =
      t ∙ ap (λ n. create_access_token encode now now' n c.secret) u in
    let taken =
      accepts (decode later) c (encode claims c.secret) on (full claims c.secret)
        (enabled-truthy v on) (back claims c.secret later from to) in
    (
      u ∙ configured_name v,
      p ∙ configured_password v,
      subst (λ n. require_auth (decode later) c (some token) ≡ ok n) (sym u)
          (subst (λ k. require_auth (decode later) c (some k) ≡ ok c.username) (sym made) taken),
    )
