-- ===== src/Web/Defaults.antt =====
-- wolnut/web.py: `_read_config_or_default`.
use wolnut_webui.Common.{
  String, true, false, Option, none, some, List, [], ◌∷◌, if◌then◌else◌, Result, ok, err, ◌>>=◌,
}
use wolnut_webui.Common.Dict.{Dict, lookup, contains, insert, erase}
use wolnut_webui.Common.Value.{
  Value, null, bool, int, str, arr, obj, nil, items, to_fields, to_items, is_true,
}
use wolnut_webui.Web.{WebError, other_error, Handler}
use wolnut_webui.Web.Store.{dict_of, read_config}
use wolnut_webui.Web.Clients.{child_of, put_child}

-- d.setdefault(k, v)
abbrev pub setdefault : String → Value → Dict Value → Dict Value
setdefault k v d = if contains k d then d else insert k v d

unfoldable pub setdefaults : Dict Value → Dict Value → Dict Value
setdefaults [] d = d
setdefaults ((k, v) ∷ rest) d = setdefaults rest (setdefault k v d)

-- d.setdefault(k, {}), and `f` on it, which must be a dictionary.
abbrev pub in_child :
    String → (Dict Value → Result WebError (Dict Value)) → Dict Value → Result WebError (Dict Value)
in_child k f d = do c ← child_of (lookup k d); c' ← f c; ok (put_child k c' d)

abbrev filled : Dict Value → Dict Value → Result WebError (Dict Value)
filled defaults d = ok (setdefaults defaults d)

abbrev wake_on_defaults : Dict Value
wake_on_defaults =
    ("restore_delay_sec", int 30)
    ∷ ("min_battery_percent", int 25)
    ∷ ("client_timeout_sec", int 600)
    ∷ ("reattempt_delay", int 30)
    ∷ []

abbrev discord_defaults : Dict Value
discord_defaults = ("enabled", bool false) ∷ ("webhook_url", str "") ∷ []

abbrev gotify_defaults : Dict Value
gotify_defaults =
    ("enabled", bool false) ∷ ("url", str "") ∷ ("token", str "") ∷ ("priority", int 5) ∷ []

abbrev ntfy_defaults : Dict Value
ntfy_defaults =
    ("enabled", bool false)
    ∷ ("url", str "https://ntfy.sh")
    ∷ ("topic", str "")
    ∷ ("token", str "")
    ∷ ("priority", int 3)
    ∷ []

abbrev event_defaults : Dict Value
event_defaults =
    ("power_loss", bool true)
    ∷ ("power_restored", bool true)
    ∷ ("wake_sent", bool true)
    ∷ ("client_recovered", bool true)
    ∷ ("errors", bool true)
    ∷ ("shutdown_acknowledged", bool true)
    ∷ ("shutdown_failed", bool true)
    ∷ ("agent_update_succeeded", bool false)
    ∷ []

abbrev pub shutdown_defaults : Dict Value
shutdown_defaults =
    ("enabled", bool false)
    ∷ ("battery_percent", int 20)
    ∷ ("agent_id", null)
    ∷ ("agent_port", int 8184)
    ∷ ("auto_update", bool false)
    ∷ []

-- What a fresh installation shows.
unfoldable pub default_config : String → Dict Value
default_config status_path =
    ("log_level", str "INFO")
    ∷ ("poll_interval", int 15)
    ∷ ("status_file", str status_path)
    ∷ (
      "nut",
      obj (
          to_fields
            (("ups", str "ups@localhost") ∷ ("username", str "") ∷ ("password", str "") ∷ [])),
    )
    ∷ ("wake_on", obj (to_fields wake_on_defaults))
    ∷ ("clients", arr nil)
    ∷ ("webui", obj (to_fields (("suppress_mac_warnings", bool false) ∷ [])))
    ∷ (
      "notifications",
      obj (
          to_fields (
            ("discord", obj (to_fields discord_defaults))
            ∷ ("gotify", obj (to_fields gotify_defaults))
            ∷ ("ntfy", obj (to_fields ntfy_defaults))
            ∷ ("events", obj (to_fields event_defaults))
            ∷ [])),
    )
    ∷ []

-- The old place of the setting, and the dictionary that has it now.
abbrev migrate : Option Value → Dict Value → Dict Value → Dict Value × Dict Value
migrate none webui d = (webui, d)
migrate (some v) webui d =
    if contains "suppress_mac_warnings" webui
    then (webui, d)
    else (insert "suppress_mac_warnings" v webui, erase "suppress_mac_warnings" d)

unfoldable pub fill_webui : Dict Value → Result WebError (Dict Value)
fill_webui d = do
  webui ← child_of (lookup "webui" d)
  let (webui', d') = migrate (lookup "suppress_mac_warnings" d) webui d
  ok (put_child "webui" (setdefault "suppress_mac_warnings" (bool false) webui') d')

unfoldable pub fill_notifications : Dict Value → Result WebError (Dict Value)
unfolding setdefaults
fill_notifications n = do
  n1 ← in_child "discord" (filled discord_defaults) n
  n2 ← in_child "gotify" (filled gotify_defaults) n1
  n3 ← in_child "ntfy" (filled ntfy_defaults) n2
  in_child "events" (filled event_defaults) n3

-- The defaults of one client.
unfoldable pub fill_client : Dict Value → Result WebError (Dict Value)
unfolding setdefaults
fill_client c = in_child "shutdown" (filled shutdown_defaults) (
    setdefaults
      (("always_wake", bool false)
        ∷ ("enabled", bool true)
        ∷ ("wake_enabled", bool true)
        ∷ ("mac", str "")
        ∷ [])
      c)

unfoldable pub fill_values : List Value → Result WebError (List Value)
unfolding fill_client
fill_values [] = ok []
fill_values (v ∷ vs) = do
  c ← dict_of v
  c' ← fill_client c
  rest ← fill_values vs
  ok (obj (to_fields c') ∷ rest)

-- for c in raw.get("clients", []) or []
unfoldable pub fill_clients : Option Value → Dict Value → Result WebError (Dict Value)
unfolding fill_values
fill_clients (some (arr vs)) d = do
  vs' ← fill_values (items vs)
  ok (insert "clients" (arr (to_items vs')) d)
fill_clients none d = ok d
fill_clients (some v) d = if is_true v then err other_error else ok d

-- The defaults of a file that is there.
unfoldable pub fill_config : String → Dict Value → Result WebError (Dict Value)
unfolding setdefaults fill_webui fill_notifications fill_clients
fill_config status_path raw = do
  let d0 =
      setdefaults
        (("log_level", str "INFO")
          ∷ ("poll_interval", int 15)
          ∷ ("status_file", str status_path)
          ∷ [])
        raw
  d1 ← in_child "wake_on" (filled wake_on_defaults) d0
  d2 ← fill_webui d1
  d3 ← in_child "notifications" fill_notifications d2
  fill_clients (lookup "clients" d3) d3

abbrev pub config_or_default :
    String → Result WebError (Option Value) → Result WebError (Dict Value)
config_or_default status_path (ok none) = ok (default_config status_path)
config_or_default status_path (ok (some v)) = dict_of v >>= λ d. fill_config status_path d
config_or_default status_path (err e) = err e

-- `_read_config_or_default`, which writes no file.
unfoldable pub read_config_or_default : String → Handler (Dict Value)
unfolding read_config fill_config default_config
read_config_or_default status_path s =
    (config_or_default status_path (read_config s.config_file), s, [])
