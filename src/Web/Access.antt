-- ===== src/Web/Access.antt =====
-- wolnut/web.py: who may call what: `_get_auth_config`, `_verify_token`, `require_auth`, `login`,
-- `_is_secure_request` and `_require_secure_admin`. `decode` and `encode` are PyJWT, which is installed.
pub mod Login
use wolnut_webui.Common.{
  ℕ, ◌+◌, ◌*◌, String, Bool, true, false, not, ◌&&◌, ◌||◌, Option, none, some, truthy, str_eq, leb,
  get_or, is_set, if◌then◌else◌, Result, ok, err, ◌>>=◌,
}
use wolnut_webui.Common.Text.{◌^◌, codes, length, strip}
use wolnut_webui.State.{microseconds}
use wolnut_webui.Web.{WebError, http, value_error}

-- The environment variables, where they are set.
pub record AuthVariables : Type 0 where
  pub admin_username : Option String
  pub admin_password : Option String
  pub wolnut_jwt_secret : Option String
  pub jwt_secret : Option String

pub record AuthConfig : Type 0 where
  pub enabled : Bool
  pub username : String
  pub password : String
  pub secret : String
  pub shutdown_admin_configured : Bool

-- a or b, for texts
abbrev or_text : String → String → String
or_text s t = if truthy s then s else t

-- `_get_auth_config`, and `create_app` on its result.
unfoldable pub auth_config : AuthVariables → AuthConfig
auth_config v =
    let username = strip (get_or v.admin_username "") in
    let password = strip (get_or v.admin_password "") in
    let enabled = truthy username && truthy password in
    record {
      enabled = enabled;
      username = username;
      password = password;
      secret =
          or_text (get_or v.wolnut_jwt_secret "")
            (or_text (get_or v.jwt_secret "") (or_text password "dev-secret-change-me"));
      shutdown_admin_configured =
          enabled && leb 32 (length (codes (get_or v.wolnut_jwt_secret "")));
    }

module _ (decode : String → String → Result String (Option String)) where
  -- `_verify_token`: the text of the ValueError, or the subject.
  unfoldable pub verify_token : String → String → Result String String
  verify_token token secret = do
    sub ← decode token secret
    if is_set sub then ok (get_or sub "") else err "Missing sub"

  unfoldable pub check_user : String → Result String String → Result WebError String
  check_user admin (ok user) =
      if str_eq user admin then ok user else err (http 401 "Invalid token user")
  check_user admin (err e) = err (http 401 ("Invalid token: " ^ e))

  -- `require_auth`, by the bearer's credentials.
  unfoldable pub require_auth : AuthConfig → Option String → Result WebError String
  unfolding check_user verify_token
  require_auth c credentials =
      if not c.enabled
      then ok (or_text c.username "anonymous")
      else if not (is_set credentials)
      then err (http 401 "Not authenticated")
      else check_user c.username (verify_token (get_or credentials "") c.secret)

-- What a token says: the subject, and in microseconds when it was made and when it expires.
pub record Claims : Type 0 where
  pub sub : String
  pub iat : ℕ
  pub exp : ℕ

-- `_create_access_token` for 24 hours; the clock is read for each of the two times, and `encode` makes the
-- token from the claims and the secret.
unfoldable pub create_access_token : (Claims → String → String) → ℕ → ℕ → String → String → String
create_access_token encode now now' username secret =
    encode (record { sub = username; iat = now; exp = now' + 24 * 3600 * microseconds }) secret

unfoldable pub login :
    (Claims → String → String) → ℕ → ℕ → AuthConfig → String → String → Result WebError String
unfolding create_access_token
login encode now now' c username password =
    if not c.enabled
    then ok (create_access_token encode now now' (or_text username "anonymous") c.secret)
    else if not (str_eq username c.username) || not (str_eq password c.password)
    then err (http 401 "Invalid username or password")
    else ok (create_access_token encode now now' username c.secret)

-- `_require_secure_admin`, by the scheme of the request.
unfoldable pub require_secure_admin : AuthConfig → String → Result WebError (Unit {0})
require_secure_admin c scheme =
    if not c.shutdown_admin_configured
    then err (
        http 503 (
          "Secure shutdown administration requires ADMIN_USERNAME, "
          ^ "ADMIN_PASSWORD, and WOLNUT_JWT_SECRET with at least 32 characters"))
    else if not (str_eq scheme "https")
    then err (http 426 "Secure shutdown administration requires HTTPS")
    else ok tt
