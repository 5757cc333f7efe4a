-- ===== src/Examples/Sites/Asking.antt =====
-- The same server with a client whose agent updates itself: rounds of the pollers.
use wolnut_webui.Common.{ℕ, String, true, List, [], ◌∷◌, ◌≡◌, refl, arith}
use wolnut_webui.Common.Text.{◌^◌, strip}
use wolnut_webui.Common.Dict.{Dict, lookup, insert, contains}
use wolnut_webui.Common.Value.{int, Value, bool, str, arr, obj, to_fields, to_items}
use wolnut_webui.Agent.{request}
use wolnut_webui.Web.{Site, WebEffect, agent_request, update, holds, ◌>>=◌, lift, return, catch}
use wolnut_webui.Web.Defaults.{read_config_or_default}
use wolnut_webui.Web.Clients.{agent_id_of, agent_call}
use wolnut_webui.Web.Results.{record_agent_result}
use wolnut_webui.Web.Rules.{effects_of}
use wolnut_webui.Web.Pollers.{auto_update_round, update_target, trigger_update, version_round}
use wolnut_webui.Web.Pollers.Done.{All}
use wolnut_webui.Web.Pollers.Polled.{IsPolled, version_round-ArePolled}
use wolnut_webui.Web.Pollers.Asked.{IsAskedFor, auto_update_round-AreDue}
use wolnut_webui.Examples.Sites.{server, env, pc}

abbrev nas : Dict Value
nas =
    ("name", str "nas")
    ∷ ("host", str "10.0.0.2")
    ∷ ("mac", str "auto")
    ∷ ("shutdown", obj (to_fields (("agent_id", str "a1") ∷ ("auto_update", bool true) ∷ [])))
    ∷ []

abbrev config : Dict Value
config = ("clients", arr (to_items (obj (to_fields nas) ∷ obj (to_fields pc) ∷ []))) ∷ []

abbrev updating : Site
updating = record server { config_file = holds (obj (to_fields config)) }

abbrev clock : String → ℕ
clock name = 1700000000000000

abbrev effects : List WebEffect
effects = effects_of (auto_update_round env 21600 clock [] updating)

abbrev asked_again : List WebEffect
asked_again =
    effects_of (auto_update_round env 21600 clock (("nas", 1700000000000000) ∷ []) updating)

-- An agent that answers is asked.
asks_for_update :
    effects
    ≡ agent_request
        (record { host = str "10.0.0.2"; port = 8184; agent_id = "a1"; command = update })
      ∷ []
unfolding auto_update_round ◌>>=◌ lift return catch lookup insert contains strip
    read_config_or_default agent_id_of agent_call request record_agent_result ◌^◌ update_target
    trigger_update
asks_for_update = refl

-- The second round at the same time.
not_again : asked_again ≡ []
unfolding auto_update_round ◌>>=◌ lift return catch lookup insert contains strip
    read_config_or_default agent_id_of agent_call request record_agent_result ◌^◌ update_target
    trigger_update
not_again = refl

auto_update_round-AreDue_example : All (IsAskedFor env 21600 clock [] updating) effects
auto_update_round-AreDue_example =
    auto_update_round-AreDue env 21600 clock [] updating (omega arith)

version_round-ArePolled_example :
    All (IsPolled env updating) (
      effects_of
        (version_round env (record { version = str "2.1"; checked_at = int 100 }) updating))
version_round-ArePolled_example =
    version_round-ArePolled env (record { version = str "2.1"; checked_at = int 100 }) updating
