-- ===== src/Examples/Configs.antt =====
-- wolnut/config.py: one configuration file, tried.
use wolnut_webui.Common.{String, true, some, [], ◌≡◌, refl}
use wolnut_webui.Common.Text.{strip}
use wolnut_webui.Common.Dict.{lookup, contains}
use wolnut_webui.Common.Value.{
  Value, bool, int, str, arr, obj, Fields, Items, end, field, nil, cons, entries, items,
}
use wolnut_webui.Config.Validate.{validate_mac_format}
use wolnut_webui.Config.Clients.{validate_config}
use wolnut_webui.Config.Accepted.{AreClients, validate_config-AreClients}

abbrev client : Fields
client = field "name" (str "nas") (
    field "host" (str "10.0.0.2") (
      field "mac" (str "00:11:22:33:44:55") (
        field "shutdown"
          (obj (
            field "enabled" (bool true)
              (field "agent_id" (str "a1") (field "battery_percent" (int 30) end))))
          end)))

abbrev file : Fields
file =
    field "nut" (obj (field "ups" (str "ups@localhost") end))
      (field "clients" (arr (cons (obj client) nil)) end)

abbrev str_value : Value → String
str_value v = "value"

validate_config-AreClients_example :
    (vs : Items) × (lookup "clients" (entries file) ≡ some (arr vs)) × AreClients [] (items vs)
unfolding validate_config lookup contains strip validate_mac_format
validate_config-AreClients_example = validate_config-AreClients str_value file refl
