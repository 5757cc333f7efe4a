-- ===== src/Config/Validate.antt =====
-- wolnut/config.py: `validate_config` on a decoded file, and wolnut/utils.py: `validate_mac_format`.
-- Where something else stands in place of a dictionary, the code ends in one exception or another, which
-- `other_error` stands for. `str_value` is str() of a value that is no text.
use wolnut_webui.Common.{
  ℕ, String, Bool, true, false, not, ◌&&◌, ◌||◌, Option, none, some, List, [], ◌∷◌, leb, ◌==◌,
  truthy, if◌then◌else◌, Result, ok, err, guard, ◌>>◌, zero, suc, ◌≡◌, refl,
}
use wolnut_webui.Common.Text.{◌^◌, codes, within, strip, has_part}
use wolnut_webui.Common.Dict.{Dict, lookup, contains}
use wolnut_webui.Common.Value.{
  Value, null, bool, int, str, arr, obj, entries, items, is_true, is_text,
}

-- ValueError with its text, or another exception.
pub data Fault : Type 0 where
  value_error : String → Fault
  other_error : Fault

-- [0-9A-Fa-f]
is_hex : ℕ → Bool
is_hex c = within b'0' b'9' c || within b'A' b'F' c || within b'a' b'f' c

-- [:\-]
is_separator : ℕ → Bool
is_separator c = c == b':' || c == b'-'

-- ([0-9A-Fa-f]{2})$ matches at the end and before a newline at the end.
last_pair : List ℕ → Bool
unfolding is_hex
last_pair (a ∷ b ∷ []) = is_hex a && is_hex b
last_pair (a ∷ b ∷ n ∷ []) = is_hex a && is_hex b && n == 10
last_pair _ = false

pairs : ℕ → List ℕ → Bool
unfolding last_pair is_hex is_separator
pairs zero cs = last_pair cs
pairs (suc n) (a ∷ b ∷ s ∷ cs) =
    let rest = pairs n cs in is_hex a && is_hex b && is_separator s && rest
pairs (suc n) _ = false

unfoldable pub validate_mac_format : String → Bool
unfolding pairs
validate_mac_format mac = pairs 5 (codes mac)

mac_test : validate_mac_format "00:1A-2b:3c:4D:5E" ≡ true
unfolding validate_mac_format
mac_test = refl

-- The pattern lets a newline pass.
mac_newline : validate_mac_format "00:1A:2b:3c:4D:5E\n" ≡ true
unfolding validate_mac_format
mac_newline = refl

abbrev any_text : String → List Value → Bool
any_text s [] = false
any_text s (v ∷ vs) = is_text (some v) s || any_text s vs

-- "ups" in raw["nut"]
unfoldable pub has_ups : Value → Result Fault Bool
unfolding has_part
has_ups (obj nut) = ok (contains "ups" (entries nut))
has_ups (arr vs) = ok (any_text "ups" (items vs))
has_ups (str s) = ok (has_part (codes "ups") (codes s))
has_ups v = err other_error

abbrev pub is_bool_or_missing : Option Value → Bool
is_bool_or_missing none = true
is_bool_or_missing (some (bool b)) = true
is_bool_or_missing (some v) = false

-- A flag with its default, once it is known to be a Boolean or missing.
abbrev pub flag_or : Bool → Option Value → Bool
flag_or default (some (bool b)) = b
flag_or default _ = default

-- An int that is no bool, between the bounds; a missing one has its default, which is.
abbrev pub in_bounds : ℕ → ℕ → Option Value → Bool
in_bounds lo hi none = true
in_bounds lo hi (some (int n)) = leb lo n && leb n hi
in_bounds lo hi (some v) = false

abbrev pub is_agent_id : Option Value → Bool
is_agent_id none = true
is_agent_id (some null) = true
is_agent_id (some (str s)) = truthy (strip s)
is_agent_id (some v) = false

-- bool(d.get(k))
abbrev pub is_true_at : Option Value → Bool
is_true_at none = false
is_true_at (some v) = is_true v

-- client.get("shutdown", {}) or {}, if it is a dictionary.
abbrev pub shutdown_of : Option Value → Option (Dict Value)
shutdown_of none = some []
shutdown_of (some (obj fs)) = some (entries fs)
shutdown_of (some v) = if is_true v then none else some []

unfoldable pub validate_shutdown : String → Dict Value → Result Fault (Unit {0})
validate_shutdown name s =
    guard (is_bool_or_missing (lookup "enabled" s))
      (value_error ("Client '" ^ name ^ "' has invalid 'shutdown.enabled' (must be boolean)"))
    >> guard (in_bounds 1 100 (lookup "battery_percent" s)) (
        value_error ("Client '" ^ name ^ "' shutdown battery percentage must be between 1 and 100"))
    >> guard (in_bounds 1 65535 (lookup "agent_port" s))
        (value_error ("Client '" ^ name ^ "' shutdown agent port must be between 1 and 65535"))
    >> guard (is_agent_id (lookup "agent_id" s))
        (value_error ("Client '" ^ name ^ "' has invalid shutdown agent ID"))
    >> guard (is_bool_or_missing (lookup "auto_update" s))
        (value_error ("Client '" ^ name ^ "' has invalid 'shutdown.auto_update' (must be boolean)"))
    >> guard (not (flag_or false (lookup "enabled" s)) || is_true_at (lookup "agent_id" s))
        (value_error ("Client '" ^ name ^ "' must be paired before automatic shutdown is enabled"))

unfoldable pub validate_shutdown_of : String → Option (Dict Value) → Result Fault (Unit {0})
unfolding validate_shutdown
validate_shutdown_of name none =
    err (value_error ("Client '" ^ name ^ "' has invalid 'shutdown' settings"))
validate_shutdown_of name (some s) = validate_shutdown name s
