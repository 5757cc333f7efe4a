-- ===== src/Web/Urls.antt =====
-- wolnut/web.py: `_public_url` and `_agent_download_base`. `split` is urllib's `urlsplit`, by the text of
-- the ValueError or the parts that are read.
use wolnut_webui.Common.{
  String, Bool, not, ◌&&◌, ◌||◌, Option, truthy, str_eq, is_set, get_or, ◌==◌, if◌then◌else◌,
  Result, ok, err,
}
use wolnut_webui.Common.Text.{strip}
use wolnut_webui.Web.{WebError, http, value_error}
use Prim.Native.Char.{code}

pub record SplitUrl : Type 0 where
  pub scheme : String
  pub netloc : String
  pub username : Option String
  pub query : String
  pub fragment : String

-- s.rstrip("/")
unfoldable pub rstrip_slash : String → String
rstrip_slash String.[] = ""
rstrip_slash (String.◌∷◌ c s) =
    let rest = rstrip_slash s in
    if code c == b'/' && not (truthy rest) then "" else String.◌∷◌ c rest

abbrev pub is_refused : SplitUrl → Bool
is_refused u =
    not (str_eq u.scheme "https")
    || not (truthy u.netloc)
    || is_set u.username
    || truthy u.query
    || truthy u.fragment

-- An HTTPS URL of a host alone, or what is raised.
unfoldable pub check_url : WebError → Result String SplitUrl → String → Result WebError String
check_url refusal (err text) value = err (value_error text)
check_url refusal (ok u) value = if is_refused u then err refusal else ok value

-- `_public_url`, by WOLNUT_PUBLIC_URL and the base URL of the request.
unfoldable pub public_url :
    (String → Result String SplitUrl) → Option String → String → Result WebError String
unfolding check_url rstrip_slash
public_url split variable base_url =
    let given = strip (get_or variable "") in
    let value = if truthy given then given else rstrip_slash base_url in
    elim (check_url (http 503 "WOLNUT_PUBLIC_URL must be a valid HTTPS URL") (split value) value) [
      | err e ↦ err e
      | ok url ↦ ok (rstrip_slash url)
    ]

-- `_agent_download_base`, by WOLNUT_AGENT_DOWNLOAD_BASE_URL.
unfoldable pub agent_download_base :
    (String → Result String SplitUrl) → Option String → Result WebError String
unfolding check_url rstrip_slash
agent_download_base split variable =
    let base =
      rstrip_slash
        (get_or variable "https://github.com/tfourj/wolnut_webui/releases/latest/download") in
    check_url (value_error "WOLNUT_AGENT_DOWNLOAD_BASE_URL must use HTTPS") (split base) base
