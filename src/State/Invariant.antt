-- ===== src/State/Invariant.antt =====
-- wolnut/state.py: which trackers raise no KeyError. A tracker is complete when each entry has its
-- "is_online" key, the one key that the methods read with no default.
use wolnut_webui.Common.{
  ℕ, String, Bool, true, false, Option, none, some, List, [], ◌∷◌, ◌≡◌, refl, is_some, Result, ok,
  bool_eq, not, ◌||◌, str_in, if◌then◌else◌, Bool-cases, Option-cases, inl, inr, arith,
}
use wolnut_webui.Common.Dict.{
  Dict, lookup, contains, keys, map_values, AllValues, AllValues-insert, AllValues-erase,
  AllValues-modify, AllValues-map_values, AllValues-lookup,
}
use wolnut_webui.State.{
  AgentUpdateState, ClientState, new_client_state, Tracker, KeyError, observe_online, update,
  mark_wol_sent, mark_skip, mark_online, mark_all_online_clients, set_ups_on_battery, begin_outage,
  record_shutdown_attempt, acknowledge_shutdown, mark_shutdown_failure_notified,
  observe_agent_update, reset, add_clients, drop_clients, sync_clients, write, is_empty,
  open_outage, rearm, reset_client, observe_update, store_update,
}

abbrev pub HasOnline : ClientState → Type 0
HasOnline s = is_some s.is_online ≡ true

abbrev pub IsComplete : Tracker → Type 0
IsComplete t = AllValues HasOnline t.clients

-- The call returns, and what it returns is complete.
abbrev pub ReturnsComplete : Result KeyError Tracker → Type 0
ReturnsComplete r = (t : Tracker) × (r ≡ ok t) × IsComplete t

observe_online-HasOnline :
    (was online : Bool) (s : ClientState) → HasOnline (observe_online was online s)
unfolding observe_online
observe_online-HasOnline was online s = ground arith

has_online : (s : ClientState) → HasOnline s → (b : Bool) × (s.is_online ≡ some b)
has_online s h = ground arith

-- A write that keeps the key of an entry keeps the tracker complete.
write_if-IsComplete :
    (b : Bool) (name : String) (f : ClientState → ClientState) (t : Tracker)
    → ((s : ClientState) → HasOnline s → HasOnline (f s))
    → IsComplete t
    → IsComplete (if b then write name f t else t)
write_if-IsComplete true name f t keep h = AllValues-modify HasOnline name f t.clients keep h
write_if-IsComplete false name f t keep h = h

write_or-IsComplete :
    (b : Bool) (name : String) (f : ClientState → ClientState) (t : Tracker)
    → ((s : ClientState) → HasOnline s → HasOnline (f s))
    → IsComplete t
    → ReturnsComplete (if b then ok t else ok (write name f t))
write_or-IsComplete true name f t keep h = (t, refl, h)
write_or-IsComplete false name f t keep h =
    (write name f t, refl, AllValues-modify HasOnline name f t.clients keep h)

-- On a complete tracker `update` raises nothing and keeps the tracker complete.
pub update-ReturnsComplete :
    (name : String) (online : Bool) (t : Tracker)
    → IsComplete t
    → ReturnsComplete (update name online t)
unfolding update
update-ReturnsComplete name online t h = elim (Option-cases (lookup name t.clients)) [
  | inl e ↦ (t, rw e, h)
  | inr (s, e) ↦
      let (was, f) = has_online s (AllValues-lookup HasOnline name t.clients h e) in
      rw e (
        rw f (
          write_or-IsComplete (bool_eq was online) name (observe_online was online) t
            (λ s' _. observe_online-HasOnline was online s') h))
]

mark_online_total :
    (d : Dict ClientState)
    → AllValues HasOnline d
    → (d' : Dict ClientState) × (mark_online d ≡ ok d') × AllValues HasOnline d'
unfolding mark_online
mark_online_total [] h = ([], refl, tt)
mark_online_total ((name, s) ∷ d) (k, h) =
    let (online, f) = has_online s k in
    let (d', e, h') = mark_online_total d h in
    ((name, record s { was_online_before_battery = some online }) ∷ d', ground arith, (k, h'))

-- On a complete tracker `mark_all_online_clients` raises nothing and keeps the tracker complete.
pub mark_all-ReturnsComplete :
    (t : Tracker) → IsComplete t → ReturnsComplete (mark_all_online_clients t)
unfolding mark_all_online_clients
mark_all-ReturnsComplete t h =
    let (d, e, h') = mark_online_total t.clients h in
    (record t { clients = d; dirty = t.dirty || not (is_empty t.clients) }, ground arith, h')

pub mark_wol_sent-IsComplete :
    (name : String) (now : ℕ) (t : Tracker) → IsComplete t → IsComplete (mark_wol_sent name now t)
unfolding mark_wol_sent
mark_wol_sent-IsComplete name now t h =
    write_if-IsComplete (contains name t.clients) name _ t (λ s k. k) h

pub mark_skip-IsComplete :
    (name : String) (t : Tracker) → IsComplete t → IsComplete (mark_skip name t)
unfolding mark_skip
mark_skip-IsComplete name t h = write_if-IsComplete _ name _ t (λ s k. k) h

pub record_shutdown_attempt-IsComplete :
    (name command : String) (percent : ℕ) (source : String) (error : Option String) (now : ℕ)
    (t : Tracker)
    → IsComplete t
    → IsComplete (record_shutdown_attempt name command percent source error now t)
unfolding record_shutdown_attempt
record_shutdown_attempt-IsComplete name command percent source error now t h =
    write_if-IsComplete _ name _ t (λ s k. k) h

pub acknowledge_shutdown-IsComplete :
    (name : String) (now : ℕ) (t : Tracker)
    → IsComplete t
    → IsComplete (acknowledge_shutdown name now t)
unfolding acknowledge_shutdown
acknowledge_shutdown-IsComplete name now t h = write_if-IsComplete _ name _ t (λ s k. k) h

pub mark_failure-IsComplete :
    (name : String) (t : Tracker)
    → IsComplete t
    → IsComplete (mark_shutdown_failure_notified name t)
unfolding mark_shutdown_failure_notified
mark_failure-IsComplete name t h = write_if-IsComplete _ name _ t (λ s k. k) h

clients-set_ups_on_battery :
    (on : Bool) (percent : ℕ) (fresh : String) (t : Tracker)
    → (set_ups_on_battery on percent fresh t).clients ≡ t.clients
unfolding set_ups_on_battery
clients-set_ups_on_battery on percent fresh t = ground arith

pub set_ups_on_battery-IsComplete :
    (on : Bool) (percent : ℕ) (fresh : String) (t : Tracker)
    → IsComplete t
    → IsComplete (set_ups_on_battery on percent fresh t)
set_ups_on_battery-IsComplete on percent fresh t h =
    rw (clients-set_ups_on_battery on percent fresh t) h

open_outage-IsComplete :
    (fresh : String) (t : Tracker) → IsComplete t → IsComplete (open_outage fresh t)
open_outage-IsComplete fresh t h = elim (Bool-cases t.meta.ups_on_battery) [
  | inl e ↦ rw e h
  | inr e ↦ rw e (AllValues-map_values HasOnline rearm t.clients (λ s k. k) h)
]

pub begin_outage-IsComplete :
    (percent : ℕ) (fresh : String) (t : Tracker)
    → IsComplete t
    → IsComplete (begin_outage percent fresh t)
unfolding begin_outage
begin_outage-IsComplete percent fresh t h =
    set_ups_on_battery-IsComplete true percent fresh (open_outage fresh t)
      (open_outage-IsComplete fresh t h)

pub reset-IsComplete : (t : Tracker) → IsComplete t → IsComplete (reset t)
unfolding reset
reset-IsComplete t h =
    set_ups_on_battery-IsComplete false 100 ""
      (record t { clients = map_values reset_client t.clients })
      (AllValues-map_values HasOnline reset_client t.clients (λ s k. k) h)

pub observe_agent_update-IsComplete :
    (name : String) (installed : ℕ) (version source status : String) (t : Tracker)
    → IsComplete t
    → IsComplete (observe_agent_update name installed version source status t).0
unfolding observe_agent_update
observe_agent_update-IsComplete name installed version source status t h =
    elim (Option-cases (lookup name t.clients)) [
      | inl e ↦ rw e h
      | inr (s, e) ↦ rw e (
          store_update-IsComplete (observe_update installed version source status s.agent_update).0
            name t h)
    ]
  where
    store_update-IsComplete :
        (u : Option AgentUpdateState) (name : String) (t : Tracker)
        → IsComplete t
        → IsComplete (store_update u name t)
    store_update-IsComplete none name t h = h
    store_update-IsComplete (some u) name t h =
        AllValues-modify HasOnline name _ t.clients (λ s k. k) h

if-IsComplete :
    (b : Bool) (t u : Tracker) → IsComplete t → IsComplete u → IsComplete (if b then t else u)
if-IsComplete true t u h k = h
if-IsComplete false t u h k = k

add_clients-IsComplete :
    (names : List String) (t : Tracker) → IsComplete t → IsComplete (add_clients names t)
unfolding add_clients
add_clients-IsComplete [] t h = h
add_clients-IsComplete (name ∷ names) t h = add_clients-IsComplete names _ (
    if-IsComplete (contains name t.clients) t _ h
      (AllValues-insert HasOnline name new_client_state t.clients refl h))

drop_clients-IsComplete :
    (wanted names : List String) (t : Tracker)
    → IsComplete t
    → IsComplete (drop_clients wanted names t)
unfolding drop_clients
drop_clients-IsComplete wanted [] t h = h
drop_clients-IsComplete wanted (name ∷ names) t h =
    drop_clients-IsComplete wanted names _
      (if-IsComplete (str_in name wanted) t _ h (AllValues-erase HasOnline name t.clients h))

pub sync_clients-IsComplete :
    (names : List String) (t : Tracker) → IsComplete t → IsComplete (sync_clients names t)
unfolding sync_clients
sync_clients-IsComplete names t h =
    drop_clients-IsComplete names (keys (add_clients names t).clients) (add_clients names t)
      (add_clients-IsComplete names t h)
