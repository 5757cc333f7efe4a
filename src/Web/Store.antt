-- ===== src/Web/Store.antt =====
-- wolnut/config_store.py: `ConfigStore`. A write replaces the file as a whole or leaves it; the lock makes
-- each call one step.
use wolnut_webui.Common.{
  String, Bool, true, false, Option, none, some, [], if◌then◌else◌, Result, ok, err,
}
use wolnut_webui.Common.Dict.{Dict}
use wolnut_webui.Common.Value.{Value, obj, end, entries, to_fields, is_true}
use wolnut_webui.Config.Validate.{Fault}
use wolnut_webui.Config.Validate
use wolnut_webui.Config.Clients.{validate_config}
use wolnut_webui.Web.{
  WebError, value_error, os_error, other_error, DataFile, absent, unreadable, holds, Handler,
}

-- An operation on a value that must be a dictionary.
abbrev pub dict_of : Value → Result WebError (Dict Value)
dict_of (obj fields) = ok (entries fields)
dict_of v = err other_error

-- yaml.safe_load(file) or {}
abbrev pub or_empty : Value → Value
or_empty v = if is_true v then v else obj end

-- `read`: None where there is no file.
unfoldable pub read_config : DataFile → Result WebError (Option Value)
read_config absent = ok none
read_config unreadable = err other_error
read_config (holds v) = ok (some (or_empty v))

-- The first part of `update`: {} where there is no file.
unfoldable pub current_config : DataFile → Result WebError Value
current_config absent = ok (obj end)
current_config unreadable = err other_error
current_config (holds v) = ok (or_empty v)

-- What `operation` makes of a configuration that it takes for a dictionary.
abbrev pub operate :
    (Dict Value → Result WebError (Dict Value))
    → Result WebError Value
    → Result WebError (Dict Value)
operate operation (ok (obj fields)) = operation (entries fields)
operate operation (ok v) = err other_error
operate operation (err e) = err e

-- `_write_unlocked` after an operation that returned. `can_write` says that the file is replaced.
unfoldable pub write_config : Bool → Result WebError (Dict Value) → Handler (Dict Value)
write_config can_write (err e) s = (err e, s, [])
write_config true (ok d) s = (ok d, record s { config_file = holds (obj (to_fields d)) }, [])
write_config false (ok d) s = (err os_error, s, [])

-- `update`
unfoldable pub update_config :
    (Dict Value → Result WebError (Dict Value)) → Bool → Handler (Dict Value)
unfolding write_config current_config
update_config operation can_write s =
    write_config can_write (operate operation (current_config s.config_file)) s

abbrev raised : Fault → WebError
raised (Validate.value_error text) = value_error text
raised Validate.other_error = other_error

-- validate_config(value); return value
unfoldable pub validated : (Value → String) → Dict Value → Result WebError (Dict Value)
validated str_value d = elim (validate_config str_value (obj (to_fields d))) [
  | ok u ↦ ok d
  | err e ↦ err (raised e)
]
