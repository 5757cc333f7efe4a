-- ===== src/Web/Results.antt =====
-- wolnut/web.py: `_record_agent_result`, which writes what an agent answered into the state file.
pub mod Entry
pub mod Frame
use wolnut_webui.Common.{
  ℕ, String, Bool, true, false, ◌||◌, Option, none, some, List, [], ◌∷◌, str_in, if◌then◌else◌,
  Result, ok, err, ◌>>=◌,
}
use wolnut_webui.Common.Dict.{Dict, lookup, insert}
use wolnut_webui.Common.Value.{Value, null, int, str, obj, entries, to_fields}
use wolnut_webui.Web.{
  WebError, os_error, other_error, DataFile, absent, unreadable, holds, Site, Handler,
}
use wolnut_webui.Web.Store.{dict_of}
use wolnut_webui.Web.Clients.{child_of, put_child}

-- The arguments of a call.
pub record AgentReport : Type 0 where
  pub client_name : String
  pub status : String
  pub source : Option String
  pub command_id : Option String
  pub error : Option String
  pub details : Dict Value

abbrev pub report : String → String → AgentReport
report client_name status = record {
  client_name = client_name;
  status = status;
  source = none;
  command_id = none;
  error = none;
  details = [];
}

abbrev pub text_or_null : Option String → Value
text_or_null none = null
text_or_null (some s) = str s

-- The keys of an answer that are kept.
abbrev pub detail_keys : List String
detail_keys =
    "hostname" ∷ "version" ∷ "certificate_expires_at" ∷ "auto_update" ∷ "update_status"
    ∷ "update_source" ∷ "latest_version" ∷ "last_update_error" ∷ "update_checked_at"
    ∷ "update_installed_at" ∷ []

abbrev pub copy_detail : String → Option Value → Dict Value → Dict Value
copy_detail key none d = d
copy_detail key (some null) d = d
copy_detail key (some v) d = insert key v d

unfoldable pub copy_details : Dict Value → List String → Dict Value → Dict Value
copy_details details [] d = d
copy_details details (key ∷ rest) d =
    copy_details details rest (copy_detail key (lookup key details) d)

abbrev pub fields_written : AgentReport → ℕ → Dict Value → Dict Value
fields_written r now d = insert "updated_at" (int now) (
    insert "last_error" (text_or_null r.error) (
      insert "command_id" (text_or_null r.command_id)
        (insert "source" (text_or_null r.source) (insert "status" (str r.status) d))))

-- What the client's "shutdown" entry becomes. `now` is read for each of the two times.
unfoldable pub report_fields : AgentReport → ℕ → ℕ → Dict Value → Dict Value
unfolding copy_details
report_fields r now seen d =
    let d' = copy_details r.details detail_keys (fields_written r now d) in
    if str_in r.status ("paired" ∷ "online" ∷ "accepted" ∷ [])
    then insert "last_seen_at" (int seen) d'
    else d'

-- The state that is read, or an empty one.
unfoldable pub read_state : DataFile → Result WebError (Dict Value)
read_state absent = ok (("meta", obj (to_fields [])) ∷ ("clients", obj (to_fields [])) ∷ [])
read_state unreadable = ok (("meta", obj (to_fields [])) ∷ ("clients", obj (to_fields [])) ∷ [])
read_state (holds v) = dict_of v

-- data.setdefault("meta", {})
abbrev pub with_meta : Option Value → Dict Value → Dict Value
with_meta none d = insert "meta" (obj (to_fields [])) d
with_meta (some v) d = d

-- The state after the entry is written.
unfoldable pub reported_state : AgentReport → ℕ → ℕ → Dict Value → Result WebError (Dict Value)
unfolding report_fields
reported_state r now seen root = do
  let d = with_meta (lookup "meta" root) root
  clients ← child_of (lookup "clients" d)
  client ← child_of (lookup r.client_name clients)
  shutdown ← child_of (lookup "shutdown" client)
  ok (
      put_child "clients"
        (put_child r.client_name (put_child "shutdown" (report_fields r now seen shutdown) client)
          clients)
        d)

-- The write: it replaces the file or raises.
unfoldable pub write_state : Bool → Result WebError (Dict Value) → Handler (Unit {0})
write_state can_write (err e) s = (err e, s, [])
write_state true (ok d) s = (ok tt, record s { state_file = holds (obj (to_fields d)) }, [])
write_state false (ok d) s = (err os_error, s, [])

-- Where the file holds no dictionary, `setdefault` raises.
unfoldable pub record_agent_result : AgentReport → ℕ → ℕ → Bool → Handler (Unit {0})
unfolding read_state reported_state write_state
record_agent_result r now seen can_write s =
    write_state can_write (read_state s.state_file >>= λ root. reported_state r now seen root) s
