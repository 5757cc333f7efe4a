-- ===== src/Web/Clients.antt =====
-- wolnut/web.py: `_find_client`, `_agent_client`, and the writes to a client of the configuration that the
-- handlers make.
pub mod Edit
use wolnut_webui.Common.{
  ℕ, String, Bool, true, false, Option, none, some, List, [], ◌∷◌, if◌then◌else◌, Result, ok, err,
  ◌>>=◌, truthy,
}
use wolnut_webui.Common.Text.{◌^◌}
use wolnut_webui.Common.Dict.{Dict, lookup, insert}
use wolnut_webui.Common.Value.{
  Value, null, bool, int, str, arr, obj, end, entries, items, to_fields, to_items, is_true, is_text,
}
use wolnut_webui.Web.{WebError, http, other_error, AgentCommand, AgentCall}
use wolnut_webui.Web.Store.{dict_of}

-- raw.get("clients", []), as a loop reads it: the elements of a list, and nothing of what is empty. The
-- elements of anything else raise.
abbrev pub iterate : Option Value → Result WebError (List Value)
iterate none = ok []
iterate (some (arr vs)) = ok (items vs)
iterate (some (str s)) = if truthy s then err other_error else ok []
iterate (some (obj end)) = ok []
iterate (some v) = err other_error

abbrev pub push_if :
    Bool → Dict Value → Result WebError (List (Dict Value)) → Result WebError (List (Dict Value))
push_if true d (ok ds) = ok (d ∷ ds)
push_if false d (ok ds) = ok ds
push_if b d (err e) = err e

abbrev pub is_named : String → Dict Value → Bool
is_named name d = is_text (lookup "name" d) name

-- The clients of the name.
unfoldable pub matches : String → List Value → Result WebError (List (Dict Value))
matches name [] = ok []
matches name (obj fs ∷ vs) = push_if (is_named name (entries fs)) (entries fs) (matches name vs)
matches name (v ∷ vs) = err other_error

abbrev pub only : String → List (Dict Value) → Result WebError (Dict Value)
only name [] = err (http 404 ("Client " ^ name ^ " not found"))
only name (d ∷ []) = ok d
only name (d ∷ e ∷ ds) = err (http 409 ("Client name " ^ name ^ " is ambiguous"))

-- `_find_client`
unfoldable pub find_client : String → Dict Value → Result WebError (Dict Value)
unfolding matches
find_client name raw = do vs ← iterate (lookup "clients" raw); ds ← matches name vs; only name ds

-- A write through the client that `find_client` found.
unfoldable pub replace_named : String → Dict Value → List Value → List Value
replace_named name c [] = []
replace_named name c (obj fs ∷ vs) =
    (if is_named name (entries fs) then obj (to_fields c) else obj fs) ∷ replace_named name c vs
replace_named name c (v ∷ vs) = v ∷ replace_named name c vs

abbrev pub replace_in : String → Dict Value → Option Value → Dict Value → Dict Value
replace_in name c (some (arr vs)) raw =
    insert "clients" (arr (to_items (replace_named name c (items vs)))) raw
replace_in name c v raw = raw

unfoldable pub replace_client : String → Dict Value → Dict Value → Dict Value
unfolding replace_named
replace_client name c raw = replace_in name c (lookup "clients" raw) raw

-- client.get("shutdown", {}) or {}, read as a dictionary.
abbrev pub settings_of : Option Value → Result WebError (Dict Value)
settings_of none = ok []
settings_of (some v) = if is_true v then dict_of v else ok []

abbrev sections : Dict Value → List String → Result WebError (List (Dict Value))
sections n [] = ok []
sections n (k ∷ ks) = do s ← settings_of (lookup k n); rest ← sections n ks; ok (s ∷ rest)

-- The dictionaries of the settings that `notifications_config_from_dict` reads. Where one is something
-- else, the code raises.
unfoldable pub notification_settings : Option Value → Result WebError (List (Dict Value))
notification_settings v = do
  n ← settings_of v
  sections n ("discord" ∷ "gotify" ∷ "ntfy" ∷ "events" ∷ [])

-- d.setdefault(k, {}), which the code then writes to.
abbrev pub child_of : Option Value → Result WebError (Dict Value)
child_of none = ok []
child_of (some v) = dict_of v

abbrev pub put_child : String → Dict Value → Dict Value → Dict Value
put_child k c d = insert k (obj (to_fields c)) d

-- The shutdown settings of a client are written by `f`.
unfoldable pub edit_shutdown :
    (Dict Value → Result WebError (Dict Value)) → Dict Value → Result WebError (Dict Value)
edit_shutdown f c = do
  shutdown ← child_of (lookup "shutdown" c)
  written ← f shutdown
  ok (put_child "shutdown" written c)

-- `_find_client` in the current configuration, and `f` on its shutdown settings.
unfoldable pub edit_client :
    String → (Dict Value → Result WebError (Dict Value)) → Dict Value → Result WebError (Dict Value)
unfolding find_client replace_client edit_shutdown
edit_client name f raw = do
  c ← find_client name raw
  c' ← edit_shutdown f c
  ok (replace_client name c' raw)

-- The agent's id in the settings of a client, a text that is not empty.
abbrev agent_text : Option Value → Result WebError (Option String)
agent_text none = ok none
agent_text (some (str s)) = ok (if truthy s then some s else none)
agent_text (some v) = if is_true v then err other_error else ok none

-- (client.get("shutdown", {}) or {}).get("agent_id"). An id that is true and no text is refused here,
-- where the code would go on with it; `validate_config` admits none.
unfoldable pub agent_id_of : Dict Value → Result WebError (Option String)
agent_id_of c = do
  settings ← settings_of (lookup "shutdown" c)
  agent_text (lookup "agent_id" settings)

-- client["host"]
abbrev pub host_of : Option Value → Result WebError Value
host_of none = err other_error
host_of (some host) = ok host

module _ (int_value : Value → Option ℕ) where
  -- int(shutdown.get("agent_port", 8184))
  abbrev pub port_of : Option Value → Result WebError ℕ
  port_of none = ok 8184
  port_of (some (int n)) = ok n
  port_of (some v) = elim (int_value v) [ none ↦ err other_error | some n ↦ ok n ]

  -- `_agent_client`, and the request that is made with it.
  unfoldable pub agent_call : Dict Value → String → AgentCommand → Result WebError AgentCall
  agent_call c agent_id command = do
    settings ← settings_of (lookup "shutdown" c)
    host ← host_of (lookup "host" c)
    port ← port_of (lookup "agent_port" settings)
    ok (record { host = host; port = port; agent_id = agent_id; command = command })
