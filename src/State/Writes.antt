-- ===== src/State/Writes.antt =====
-- wolnut/state.py: what the three writes to a shutdown request leave at every client.
use wolnut_webui.Common.{ℕ, String, true, ◌&&◌, Option, ◌≡◌, str_eq, if◌then◌else◌, arith, eq_iff}
use wolnut_webui.Common.Dict.{contains, lookup-modify, contains-lookup, contains-modify}
use wolnut_webui.State.{
  ShutdownState, Tracker, over_shutdown, attempt_fields, acknowledged_fields, shutdown_state,
  record_shutdown_attempt, acknowledge_shutdown, mark_shutdown_failure_notified,
}

abbrev pub failure_flag : ShutdownState → ShutdownState
failure_flag d = record d { failure_notified = true }

-- What the three writes make of a client's request.
pub record_attempt-state :
    (name j command : String) (percent : ℕ) (source : String) (error : Option String) (now : ℕ)
    (t : Tracker)
    → shutdown_state j (record_shutdown_attempt name command percent source error now t) ≡ (
        if str_eq name j && contains name t.clients
        then attempt_fields command percent source error now (shutdown_state j t)
        else shutdown_state j t)
unfolding shutdown_state record_shutdown_attempt
record_attempt-state name j command percent source error now t = ground (
  arith,
  contains-lookup name t.clients,
  lookup-modify name j (over_shutdown (attempt_fields command percent source error now)) t.clients,
  eq_iff name j,
)

pub acknowledge-state :
    (name j : String) (now : ℕ) (t : Tracker)
    → shutdown_state j (acknowledge_shutdown name now t) ≡ (
        if str_eq name j && contains name t.clients
        then acknowledged_fields now (shutdown_state j t)
        else shutdown_state j t)
unfolding shutdown_state acknowledge_shutdown
acknowledge-state name j now t = ground (
  arith,
  contains-lookup name t.clients,
  lookup-modify name j (over_shutdown (acknowledged_fields now)) t.clients,
  eq_iff name j,
)

pub mark_failure-state :
    (name j : String) (t : Tracker)
    → shutdown_state j (mark_shutdown_failure_notified name t) ≡ (
        if str_eq name j && contains name t.clients
        then failure_flag (shutdown_state j t)
        else shutdown_state j t)
unfolding shutdown_state mark_shutdown_failure_notified
mark_failure-state name j t = ground (
  arith,
  contains-lookup name t.clients,
  lookup-modify name j (over_shutdown failure_flag) t.clients,
  eq_iff name j,
)

pub contains-record_attempt :
    (name j command : String) (percent : ℕ) (source : String) (error : Option String) (now : ℕ)
    (t : Tracker)
    → contains j (record_shutdown_attempt name command percent source error now t).clients
      ≡ contains j t.clients
unfolding record_shutdown_attempt
contains-record_attempt name j command percent source error now t = ground (
  arith,
  contains-modify name j (over_shutdown (attempt_fields command percent source error now))
      t.clients,
)
