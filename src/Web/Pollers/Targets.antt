-- ===== src/Web/Pollers/Targets.antt =====
-- wolnut/web.py: the guards of `_agent_auto_update_poller`.
use wolnut_webui.Common.{
  ℕ, String, true, false, none, some, List, [], ◌∷◌, ◌≡◌, ◌⊎◌, get_or, ok, inl, inr, arith,
  Bool-cases, Result-cases,
}
use wolnut_webui.Common.Dict.{Dict, lookup}
use wolnut_webui.Common.Value.{Value, bool, is_true}
use wolnut_webui.Agent.Identity.{Presents}
use mathlib.Core.Path.{subst}
use wolnut_webui.Web.{WebEffect, agent_request, AgentCall, update}
use wolnut_webui.Web.Store.{dict_of}
use wolnut_webui.Web.Clients.{settings_of, agent_id_of}
use wolnut_webui.Web.Settings.{name_of}
use wolnut_webui.Web.Agents.{WebEnv}
use wolnut_webui.Web.Pollers.{Target, if_due, auto_update_of, is_recent, update_target}

abbrev pub In : Value → List Value → Type 0
In v [] = ⊥
In v (w ∷ ws) = (w ≡ v) ⊎ In v ws

-- A request for an update that the guards of the loop let out.
pub record IsDueUpdate (env : WebEnv) (interval : ℕ) (clock : String → ℕ) (last : Dict ℕ)
    (vs : List Value) (e : WebEffect) : Type 0 where
  pub entry : Value
  pub client : Dict Value
  pub shutdown : Dict Value
  pub name : String
  pub call : AgentCall
  pub listed : In entry vs
  pub read : dict_of entry ≡ ok client
  pub named : name_of (lookup "name" client) ≡ ok name
  pub settings : settings_of (lookup "shutdown" client) ≡ ok shutdown
  pub on : auto_update_of shutdown ≡ true
  pub agent : agent_id_of client ≡ ok (some call.agent_id)
  pub enabled : is_true (get_or (lookup "enabled" client) (bool true)) ≡ true
  pub due : is_recent interval (clock name) (lookup name last) ≡ false
  pub presents : Presents (env.exchange call) call.agent_id
  pub command : call.command ≡ update
  pub sent : e ≡ agent_request call

-- What the guards say of a client that is to be asked.
pub record IsTarget (interval : ℕ) (clock : String → ℕ) (last : Dict ℕ) (v : Value) (t : Target)
    : Type 0 where
  pub shutdown : Dict Value
  pub read : dict_of v ≡ ok t.client
  pub named : name_of (lookup "name" t.client) ≡ ok t.name
  pub settings : settings_of (lookup "shutdown" t.client) ≡ ok shutdown
  pub on : auto_update_of shutdown ≡ true
  pub agent : agent_id_of t.client ≡ ok (some t.agent_id)
  pub enabled : is_true (get_or (lookup "enabled" t.client) (bool true)) ≡ true
  pub due : is_recent interval (clock t.name) (lookup t.name last) ≡ false

pub at_first :
    (interval : ℕ) (clock : String → ℕ) (now last : Dict ℕ) (v : Value) (t : Target)
    → IsTarget interval clock now v t
    → is_recent interval (clock t.name) (lookup t.name last) ≡ false
    → IsTarget interval clock last v t
at_first interval clock now last v t i due = record {
  shutdown = i.shutdown;
  read = i.read;
  named = i.named;
  settings = i.settings;
  on = i.on;
  agent = i.agent;
  enabled = i.enabled;
  due = due;
}

if_due-due :
    (interval : ℕ) (clock : String → ℕ) (last : Dict ℕ) (c : Dict Value) (id name : String)
    (t : Target)
    → if_due interval clock last c id name ≡ some t
    → (record { client = c; name = name; agent_id = id } ≡ t)
      × (is_recent interval (clock name) (lookup name last) ≡ false)
if_due-due interval clock last c id name t h =
    elim (Bool-cases (is_recent interval (clock name) (lookup name last))) [
      | inl e ↦ absurd (ground arith)
      | inr e ↦ (ground arith, e)
    ]

pub update_target-IsTarget :
    (interval : ℕ) (clock : String → ℕ) (last : Dict ℕ) (v : Value) (t : Target)
    → update_target interval clock last v ≡ ok (some t)
    → IsTarget interval clock last v t
unfolding update_target
update_target-IsTarget interval clock last v t h = elim (Result-cases (dict_of v)) [
  | inr (x, e1) ↦ absurd (ground arith)
  | inl (c, e1) ↦ elim (Result-cases (settings_of (lookup "shutdown" c))) [
    | inr (x, e2) ↦ absurd (ground arith)
    | inl (conf, e2) ↦ elim (Bool-cases (auto_update_of conf)) [
      | inr e3 ↦ absurd (ground arith)
      | inl e3 ↦ elim (Result-cases (agent_id_of c)) [
        | inr (x, e4) ↦ absurd (ground arith)
        | inl (none, e4) ↦ absurd (ground arith)
        | inl (some id, e4) ↦
            elim (Bool-cases (is_true (get_or (lookup "enabled" c) (bool true)))) [
              | inr e5 ↦ absurd (ground arith)
              | inl e5 ↦ elim (Result-cases (name_of (lookup "name" c))) [
                | inr (x, e6) ↦ absurd (ground arith)
                | inl (name, e6) ↦
                    let (same, due) = if_due-due interval clock last c id name t (ground arith) in
                    subst (IsTarget interval clock last v) same (record {
                      shutdown = conf;
                      read = e1;
                      named = e6;
                      settings = e2;
                      on = e3;
                      agent = e4;
                      enabled = e5;
                      due = due;
                    })
              ]
            ]
      ]
    ]
  ]
]
