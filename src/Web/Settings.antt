-- ===== src/Web/Settings.antt =====
-- wolnut/web.py: `put_config`, which saves what the settings page submits. `raw` is the submitted model
-- as a dictionary.
pub mod Save
pub mod Checks
pub mod Pairings
pub mod Saved
use wolnut_webui.Common.{
  ℕ, zero, suc, String, Bool, true, false, not, ◌&&◌, ◌||◌, Option, none, some, List, [], ◌∷◌,
  str_eq, str_in, bool_eq, ◌==◌, get_or, truthy, is_set, if◌then◌else◌, Result, ok, err, guard,
  ◌>>=◌, ◌>>◌,
}
use wolnut_webui.Common.Text.{◌^◌, show}
use wolnut_webui.Common.Dict.{Dict, lookup, contains, insert, erase, keys}
use wolnut_webui.Common.Value.{
  Value, null, bool, int, neg, real, str, arr, obj, entries, to_fields, is_true, is_text,
}
use wolnut_webui.Web.{WebError, http, value_error, other_error}
use wolnut_webui.Web.Store.{dict_of}
use wolnut_webui.Web.Clients.{iterate, settings_of, put_child}

-- x == y, where at most one of them is a list or a dictionary.
unfoldable pub value_eq : Value → Value → Bool
value_eq null null = true
value_eq (bool a) (bool b) = bool_eq a b
value_eq (bool b) (int n) = n == (if b then 1 else 0)
value_eq (int n) (bool b) = n == (if b then 1 else 0)
value_eq (int m) (int n) = m == n
value_eq (neg m) (neg n) = m == n
value_eq (int n) (real r) = str_eq r (show n ^ ".0")
value_eq (real r) (int n) = str_eq r (show n ^ ".0")
value_eq (neg n) (real r) = str_eq r ("-" ^ (show (suc n) ^ ".0"))
value_eq (real r) (neg n) = str_eq r ("-" ^ (show (suc n) ^ ".0"))
value_eq (bool b) (real r) = str_eq r (if b then "1.0" else "0.0")
value_eq (real r) (bool b) = str_eq r (if b then "1.0" else "0.0")
value_eq (real r) (real s) = str_eq r s
value_eq (str s) (str t) = str_eq s t
value_eq _ _ = false

-- The shutdown settings of a client, with their defaults.
pub record NormalizedShutdown : Type 0 where
  pub enabled : Value
  pub battery_percent : Value
  pub agent_id : Value
  pub agent_port : Value
  pub auto_update : Value

abbrev pub normalized_settings : Dict Value → NormalizedShutdown
normalized_settings shutdown = record {
  enabled = get_or (lookup "enabled" shutdown) (bool false);
  battery_percent = get_or (lookup "battery_percent" shutdown) (int 20);
  agent_id = get_or (lookup "agent_id" shutdown) null;
  agent_port = get_or (lookup "agent_port" shutdown) (int 8184);
  auto_update = get_or (lookup "auto_update" shutdown) (bool false);
}

unfoldable pub normalized_shutdown : Dict Value → Result WebError NormalizedShutdown
normalized_shutdown client = do
  shutdown ← settings_of (lookup "shutdown" client)
  ok (normalized_settings shutdown)

abbrev pub same_shutdown : NormalizedShutdown → NormalizedShutdown → Bool
same_shutdown s t =
    value_eq s.enabled t.enabled
    && value_eq s.battery_percent t.battery_percent
    && value_eq s.agent_id t.agent_id
    && value_eq s.agent_port t.agent_port
    && value_eq s.auto_update t.auto_update

abbrev pub name_of : Option Value → Result WebError String
name_of (some (str name)) = ok name
name_of v = err other_error

-- {client.get("name"): client for client in clients}, added to a dictionary. A name that is no text,
-- which `validate_config` does not admit, is refused here.
unfoldable pub by_name : List Value → Dict (Dict Value) → Result WebError (Dict (Dict Value))
by_name [] d = ok d
by_name (v ∷ vs) d = do
  c ← dict_of v
  name ← name_of (lookup "name" c)
  by_name vs (insert name c d)

-- What the page may not change: `admin` is what `_require_secure_admin` does.
unfoldable pub check_submitted :
    Result WebError (Unit {0})
    → NormalizedShutdown
    → NormalizedShutdown
    → Result WebError (Unit {0})
unfolding value_eq
check_submitted admin previous shutdown =
    guard (value_eq shutdown.agent_id previous.agent_id) (
      http 409
        ("Agent pairing changed while editing; refresh the configuration " ^ "and try again"))
    >> guard (value_eq shutdown.auto_update previous.auto_update)
        (http 409 "Use the agent auto-update control to change this setting")
    >> (if same_shutdown shutdown previous then ok tt else admin)

-- One submitted client, against the one of its name or {}.
unfoldable pub check_client :
    Result WebError (Unit {0}) → Dict (Dict Value) → Dict Value → Result WebError (Unit {0})
unfolding normalized_shutdown check_submitted
check_client admin current client = do
  name ← name_of (lookup "name" client)
  previous ← normalized_shutdown (get_or (lookup name current) [])
  shutdown ← normalized_shutdown client
  check_submitted admin previous shutdown

unfoldable pub check_clients :
    Result WebError (Unit {0}) → Dict (Dict Value) → List Value → Result WebError (Unit {0})
unfolding check_client
check_clients admin current [] = ok tt
check_clients admin current (v ∷ vs) = do
  client ← dict_of v
  check_client admin current client
  check_clients admin current vs

-- A client that is no longer there was not paired.
unfoldable pub check_removed : Dict (Dict Value) → Dict (Dict Value) → Result WebError (Unit {0})
unfolding normalized_shutdown
check_removed submitted [] = ok tt
check_removed submitted ((name, previous) ∷ rest) =
    if contains name submitted
    then check_removed submitted rest
    else normalized_shutdown previous >>= λ shutdown.
        guard (not (is_true shutdown.agent_id))
          (http 409 ("Unpair " ^ (name ^ " before removing the client")))
        >> check_removed submitted rest

-- `persist_config`
unfoldable pub persist_config :
    Result WebError (Unit {0}) → Dict Value → Dict Value → Result WebError (Dict Value)
unfolding by_name check_clients check_removed
persist_config admin raw current = do
  vs ← iterate (lookup "clients" current)
  current_clients ← by_name vs []
  ws ← iterate (lookup "clients" raw)
  submitted ← by_name ws []
  check_clients admin current_clients ws
  check_removed submitted current_clients
  ok raw

-- Credentials without a user name are left out.
unfoldable pub clean_nut : Dict Value → Result WebError (Dict Value)
clean_nut raw = elim (lookup "nut" raw) [
  | none ↦ err other_error
  | some v ↦ dict_of v >>= λ nut. ok (
      if is_true (get_or (lookup "username" nut) null)
      then raw
      else put_child "nut" (erase "password" (erase "username" nut)) raw)
]
