-- ===== src/Web/Results/Frame.antt =====
-- wolnut/web.py: what `_record_agent_result` writes into the state, and what it leaves alone.
use wolnut_webui.Common.{
  ℕ, String, Bool, true, false, Option, none, some, List, [], ◌≡◌, ◌≢◌, refl, sym, ap, ◌∙◌, Result,
  ok, err, arith, eq_iff, eq_refl,
}
use wolnut_webui.Common.Dict.{Dict, lookup, lookup-insert}
use wolnut_webui.Common.Value.{Value, obj, to_fields, entries-to_fields}
use wolnut_webui.Agent.Pinned.{bind-ok}
use mathlib.Core.Path.{subst}
use wolnut_webui.Web.{WebError, Site, WebEffect, holds}
use wolnut_webui.Web.Clients.{child_of, put_child}
use wolnut_webui.Web.Results.{
  AgentReport, with_meta, report_fields, reported_state, read_state, write_state,
  record_agent_result,
}
use wolnut_webui.Web.Results.Entry.{IsEntry, report_fields-IsEntry}

-- An entry that is a dictionary, or {} where there is none.
unfoldable pub dictionary_at : String → Dict Value → Result WebError (Dict Value)
dictionary_at key d = child_of (lookup key d)

-- A client's entry of the state.
unfoldable pub client_state : String → Dict Value → Result WebError (Dict Value)
client_state name root = elim (child_of (lookup "clients" root)) [
  | err e ↦ err e
  | ok clients ↦ child_of (lookup name clients)
]

meta-clients :
    (o : Option Value) (key : String) (root : Dict Value)
    → "meta" ≢ key
    → lookup key (with_meta o root) ≡ lookup key root
meta-clients none key root ne =
    ground (arith, lookup-insert "meta" key (obj (to_fields [])) root, eq_iff "meta" key)
meta-clients (some v) key root ne = refl

child_of-put : (k : String) (c d : Dict Value) → child_of (lookup k (put_child k c d)) ≡ ok c
child_of-put k c d =
    ground (arith, lookup-insert k k (obj (to_fields c)) d, eq_refl k, entries-to_fields c)

put-other :
    (k other : String) (c d : Dict Value)
    → k ≢ other
    → lookup other (put_child k c d) ≡ lookup other d
put-other k other c d ne =
    ground (arith, lookup-insert k other (obj (to_fields c)) d, eq_iff k other)

-- The state after a report: what its client's shutdown entry is made of, and what is the same.
pub record IsReport (r : AgentReport) (now seen : ℕ) (root d : Dict Value) : Type 0 where
  pub client : Dict Value
  pub before : Dict Value
  pub old : Dict Value
  pub shutdown : Dict Value
  pub was : client_state r.client_name root ≡ ok before
  pub is : client_state r.client_name d ≡ ok client
  pub had : dictionary_at "shutdown" before ≡ ok old
  pub has : dictionary_at "shutdown" client ≡ ok shutdown
  pub entry : IsEntry r now seen old shutdown
  pub entries : (key : String) → "shutdown" ≢ key → lookup key client ≡ lookup key before
  pub others :
      (other : String) → r.client_name ≢ other → client_state other d ≡ client_state other root
  pub keys : (key : String) → "clients" ≢ key → "meta" ≢ key → lookup key d ≡ lookup key root

ok-same {ℓ} : {A : Type ℓ} {x y : A} → ◌≡◌ {A = Result WebError A} (ok x) (ok y) → x ≡ y
ok-same e = ground arith

module _ (r : AgentReport) (now seen : ℕ) (root clients client shutdown : Dict Value)
    (all : child_of (lookup "clients" root) ≡ ok clients)
    (one : child_of (lookup r.client_name clients) ≡ ok client)
    (had : child_of (lookup "shutdown" client) ≡ ok shutdown) where
  abbrev base : Dict Value
  base = with_meta (lookup "meta" root) root

  abbrev new_client : Dict Value
  new_client = put_child "shutdown" (report_fields r now seen shutdown) client

  abbrev new_clients : Dict Value
  new_clients = put_child r.client_name new_client clients

  put-IsReport : IsReport r now seen root (put_child "clients" new_clients base)
  unfolding client_state dictionary_at
  put-IsReport = record {
    client = new_client;
    before = client;
    old = shutdown;
    shutdown = report_fields r now seen shutdown;
    was = ground (arith, all, one);
    is = ground (
      arith,
      child_of-put "clients" new_clients base,
      child_of-put r.client_name new_client clients,
    );
    had = had;
    has = child_of-put "shutdown" (report_fields r now seen shutdown) client;
    entry = report_fields-IsEntry r now seen shutdown;
    entries = λ key ne. put-other "shutdown" key (report_fields r now seen shutdown) client ne;
    others = λ other ne. ground (
      arith,
      all,
      child_of-put "clients" new_clients base,
      put-other r.client_name other new_client clients ne,
    );
    keys = λ key n1 n2.
        put-other "clients" key new_clients base n1 ∙ meta-clients (lookup "meta" root) key root n2;
  }

meta_not_clients : ◌≢◌ {A = String} "meta" "clients"
meta_not_clients e = ground (arith, eq_iff "meta" "clients")

reported_state-IsReport :
    (r : AgentReport) (now seen : ℕ) (root d : Dict Value)
    → reported_state r now seen root ≡ ok d
    → IsReport r now seen root d
unfolding reported_state client_state dictionary_at
reported_state-IsReport r now seen root d h =
    let base = with_meta (lookup "meta" root) root in
    let (clients, e1, h1) = bind-ok (child_of (lookup "clients" base)) _ h in
    let (client, e2, h2) = bind-ok (child_of (lookup r.client_name clients)) _ h1 in
    let (shutdown, e3, h3) = bind-ok (child_of (lookup "shutdown" client)) _ h2 in
    let same : child_of (lookup "clients" root) ≡ ok clients =
      ap child_of (sym (meta-clients (lookup "meta" root) "clients" root meta_not_clients)) ∙ e1 in
    subst (IsReport r now seen root) (ok-same h3)
      (put-IsReport r now seen root clients client shutdown same e2 e3)

written-IsReport :
    (r : AgentReport) (w : Bool) (x : Result WebError (Dict Value)) (s s' : Site)
    (es : List WebEffect)
    → write_state w x s ≡ (ok tt, s', es)
    → (d : Dict Value) × (x ≡ ok d)
      × (s' ≡ record s { state_file = holds (obj (to_fields d)) })
      × (es ≡ [])
unfolding write_state
written-IsReport r true (ok d) s s' es e = (d, refl, ground arith, ground arith)
written-IsReport r false (ok d) s s' es e = absurd (ground arith)
written-IsReport r w (err x) s s' es e = absurd (ground arith)

-- A `_record_agent_result` that returned has written the state file alone: from the state that it read,
-- or an empty one, the client's shutdown entry has the fields of the call, the time, the time it was last
-- seen if the status says that it was, and each detail that the answer has and that is not null; the rest
-- of that entry, the client's other entries, the other clients, and all keys of the state beside "meta"
-- and "clients" are as they were.
pub record_agent_result-IsReport :
    (r : AgentReport) (now seen : ℕ) (can_write : Bool) (s s' : Site) (es : List WebEffect)
    → record_agent_result r now seen can_write s ≡ (ok tt, s', es)
    → (root : Dict Value) × (d : Dict Value) × (read_state s.state_file ≡ ok root)
      × (s' ≡ record s { state_file = holds (obj (to_fields d)) })
      × IsReport r now seen root d
      × (es ≡ [])
unfolding record_agent_result
record_agent_result-IsReport r now seen can_write s s' es e =
    let (d, h, same, nothing) = written-IsReport r can_write _ s s' es e in
    let (root, there, written) = bind-ok (read_state s.state_file) _ h in
    (root, d, there, same, reported_state-IsReport r now seen root d written, nothing)
