-- ===== src/Config/Clients.antt =====
-- wolnut/config.py: `validate_config`, its loop over the clients and the whole.
use wolnut_webui.Common.{
  ℕ, ◌+◌, String, Bool, true, false, not, ◌||◌, Option, none, some, List, [], ◌∷◌, truthy, str_eq,
  str_in, if◌then◌else◌, Result, ok, err, ◌>>=◌, ◌>>◌, guard,
}
use wolnut_webui.Common.Text.{◌^◌, show, strip}
use wolnut_webui.Common.Dict.{Dict, lookup, contains}
use wolnut_webui.Common.Value.{Value, str, arr, obj, entries, items}
use wolnut_webui.Agent.{text_of}
use wolnut_webui.Config.Validate.{
  Fault, value_error, other_error, validate_mac_format, has_ups, is_bool_or_missing, flag_or,
  shutdown_of, validate_shutdown_of,
}

abbrev pub client_fault : String → String → Fault
client_fault name text = value_error ("Client '" ^ name ^ "' " ^ text)

-- A name that is a text and not blank.
unfoldable pub check_name : ℕ → Option Value → Result Fault String
check_name i (some (str s)) =
    if truthy (strip s)
    then ok s
    else err (value_error ("Client #" ^ show i ^ " has an invalid empty name"))
check_name i v = err (value_error ("Client #" ^ show i ^ " has an invalid empty name"))

unfoldable pub check_mac : String → Bool → Option Value → Result Fault (Unit {0})
check_mac name true none = err (client_fault name "is missing required field: 'mac'")
check_mac name false none = ok tt
check_mac name wake (some (str mac)) =
    guard (not wake || str_eq mac "auto" || validate_mac_format mac)
      (client_fault name ("has invalid MAC address format: " ^ mac))
check_mac name wake (some v) =
    err (client_fault name "has invalid mac format (should be string or 'auto')")

-- The checks of a client below its name.
unfoldable pub check_fields : String → Dict Value → Result Fault (Unit {0})
unfolding check_mac validate_shutdown_of
check_fields name d =
    guard (is_bool_or_missing (lookup "wake_enabled" d))
      (client_fault name "has invalid 'wake_enabled' (must be boolean)")
    >> check_mac name (flag_or true (lookup "wake_enabled" d)) (lookup "mac" d)
    >> guard (is_bool_or_missing (lookup "always_wake" d))
        (client_fault name "has invalid 'always_wake' (must be boolean)")
    >> guard (is_bool_or_missing (lookup "enabled" d))
        (client_fault name "has invalid 'enabled' (must be boolean)")
    >> validate_shutdown_of name (shutdown_of (lookup "shutdown" d))

module _ (str_value : Value → String) where
  -- client.get('name', '?') in a message
  abbrev name_text : Option Value → String
  name_text none = "?"
  name_text (some v) = text_of str_value v

  -- The name and the host are there.
  unfoldable pub check_required : ℕ → Dict Value → Result Fault (Unit {0})
  check_required i d =
      guard (contains "name" d)
        (value_error ("Client #" ^ show i ^ " is missing required field: 'name'"))
      >> guard (contains "host" d)
          (client_fault (name_text (lookup "name" d)) "is missing required field: 'host'")

  unfoldable pub client_name : ℕ → Dict Value → Result Fault String
  unfolding check_name check_required
  client_name i d = check_required i d >> check_name i (lookup "name" d)

  abbrev pub is_new : List String → String → Result Fault (Unit {0})
  is_new names name =
      guard (not (str_in name names)) (value_error ("Client names must be unique: '" ^ name ^ "'"))

  unfoldable pub finish_client : List String → Dict Value → String → Result Fault String
  unfolding check_fields
  finish_client names d name = (is_new names name >> check_fields name d) >> ok name

  -- One client: its name, where every check passes.
  unfoldable pub validate_client : ℕ → List String → Dict Value → Result Fault String
  unfolding client_name finish_client
  validate_client i names d = client_name i d >>= λ name. finish_client names d name

  unfoldable pub validate_value : ℕ → List String → Value → Result Fault String
  unfolding validate_client
  validate_value i names (obj fs) = validate_client i names (entries fs)
  validate_value i names v = err other_error

  unfoldable pub validate_clients : ℕ → List String → List Value → Result Fault (Unit {0})
  unfolding validate_value
  validate_clients i names [] = ok tt
  validate_clients i names (v ∷ vs) =
      validate_value i names v >>= λ name. validate_clients (i + 1) (name ∷ names) vs

  unfoldable pub check_ups : Option Value → Result Fault (Unit {0})
  unfolding has_ups
  check_ups none = err (value_error "Missing required field: 'nut.ups'")
  check_ups (some nut) =
      has_ups nut >>= λ has. guard has (value_error "Missing required field: 'nut.ups'")

  unfoldable pub check_clients : Option Value → Option Value → Result Fault (Unit {0})
  unfolding validate_clients check_ups
  check_clients (some (arr vs)) nut = check_ups nut >> validate_clients 0 [] (items vs)
  check_clients v nut = err (value_error "Missing or invalid 'clients' list")

  unfoldable pub validate_config : Value → Result Fault (Unit {0})
  unfolding check_clients
  validate_config (obj fs) =
      check_clients (lookup "clients" (entries fs)) (lookup "nut" (entries fs))
  validate_config v = err other_error
