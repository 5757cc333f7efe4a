-- ===== src/Examples/Pairings.antt =====
-- wolnut/agent_client.py: one pairing, tried.
use wolnut_webui.Common.{ℕ, String, Bool, true, false, some, [], ◌∷◌, refl}
use wolnut_webui.Common.Text.{◌^◌}
use wolnut_webui.Common.Dict.{lookup, insert}
use wolnut_webui.Common.Value.{Value, Fields, str, int, obj, end, field}
use wolnut_webui.Agent.{connected, response, json, all_files}
use wolnut_webui.Agent.Pairing.{PairingEnv, presented, csr, pair}
use wolnut_webui.Agent.Pinned.{IsBound, pair-IsBound}

abbrev digest : String
digest = "00112233445566778899aabbccddeeff00112233445566778899aabbccddeeff"

abbrev shown : String
shown =
    "00:11:22:33:44:55:66:77:88:99:AA:BB:CC:DD:EE:FF 00:11:22:33:44:55:66:77:88:99:AA:BB:CC:DD:EE:FF"

abbrev started : Fields
started =
    field "agent_id" (str "a1")
      (field "csr" (str "request") (field "completion_token" (str "t") end))

abbrev completed : Fields
completed = field "agent_id" (str "a1") (field "status" (str "paired") end)

abbrev running : Fields
running = field "agent_id" (str "a1") (field "protocol_version" (int 1) end)

abbrev env : PairingEnv
env = record {
  files = all_files;
  first = presented digest (response 200 (json (obj started)));
  read_csr = λ text. csr true (some ("urn:wolnut:agent:a1" ∷ []));
  second = λ cert. presented digest (response 200 (json (obj completed)));
  checked = connected ("urn:wolnut:agent:a1" ∷ []) (response 200 (json (obj running)));
}

abbrev str_value : Value → String
str_value v = "value"

abbrev is_alnum : ℕ → Bool
is_alnum c = false

abbrev issue : String → String
issue agent_id = "certificate"

pair-IsBound_example :
    IsBound str_value is_alnum issue env shown
      (("agent_id", str "a1") ∷ ("protocol_version", int 1) ∷ [])
unfolding pair lookup ◌^◌ insert
pair-IsBound_example =
    pair-IsBound str_value is_alnum issue env shown
      (("agent_id", str "a1") ∷ ("protocol_version", int 1) ∷ []) refl
