-- ===== src/State/Clients.antt =====
-- wolnut/state.py: which clients `__init__` and `sync_clients` track.
use wolnut_webui.Common.{
  ℕ, String, true, not, ◌&&◌, Option, none, some, List, [], ◌∷◌, ◌≡◌, is_some, ap, ◌∙◌, get_or,
  str_in, if◌then◌else◌, arith, eq_iff,
}
use wolnut_webui.Common.Dict.{
  Dict, lookup, contains, insert, erase, keys, lookup-insert, lookup-erase, lookup-modify,
  contains-lookup,
}
use wolnut_webui.State.{
  ClientState, new_client_state, Tracker, add_clients, drop_clients, sync_clients, is_online,
  was_online_before_shutdown, mark_skip, mark_wol_sent, seconds,
}
use wolnut_webui.State.Load.{initialize_clients}

-- What a dictionary has after the missing names are added.
abbrev with_new : String → List String → Option ClientState → Option ClientState
with_new j names none = if str_in j names then some new_client_state else none
with_new j names (some s) = some s

lookup-add_missing :
    (j name : String) (d : Dict ClientState)
    → lookup j (if contains name d then d else insert name new_client_state d)
      ≡ with_new j (name ∷ []) (lookup j d)
lookup-add_missing j name d = ground (
  arith,
  lookup-insert name j new_client_state d,
  contains-lookup name d,
  eq_iff name j,
  eq_iff j name,
)

with_new-cons :
    (j name : String) (names : List String) (o : Option ClientState)
    → with_new j names (with_new j (name ∷ []) o) ≡ with_new j (name ∷ names) o
with_new-cons j name names o = ground arith

lookup-add_clients :
    (j : String) (names : List String) (t : Tracker)
    → lookup j (add_clients names t).clients ≡ with_new j names (lookup j t.clients)
unfolding add_clients
lookup-add_clients j [] t = ground arith
lookup-add_clients j (name ∷ names) t = ground (
  arith,
  lookup-add_clients j names (
      if contains name t.clients
      then t
      else record t { clients = insert name new_client_state t.clients; dirty = true }),
  lookup-add_missing j name t.clients,
  with_new-cons j name names (lookup j t.clients),
)

lookup-drop_clients :
    (j : String) (wanted names : List String) (t : Tracker)
    → lookup j (drop_clients wanted names t).clients
      ≡ (if str_in j names && not (str_in j wanted) then none else lookup j t.clients)
unfolding drop_clients
lookup-drop_clients j wanted [] t = ground arith
lookup-drop_clients j wanted (name ∷ names) t = ground (
  arith,
  lookup-drop_clients j wanted names
      (if str_in name wanted then t else record t { clients = erase name t.clients; dirty = true }),
  lookup-erase name j t.clients,
  eq_iff name j,
  eq_iff j name,
)

str_in-keys : (j : String) (d : Dict ClientState) → str_in j (keys d) ≡ is_some (lookup j d)
unfolding keys lookup
str_in-keys j [] = ground arith
str_in-keys j ((i, s) ∷ d) = ground (arith, str_in-keys j d, eq_iff i j, eq_iff j i)

-- After `sync_clients` exactly the names of the configuration are tracked: a client that was tracked
-- keeps its state, and a new one starts offline, not woken, not skipped and with no request sent.
pub lookup-sync_clients :
    (j : String) (names : List String) (t : Tracker)
    → lookup j (sync_clients names t).clients
      ≡ (if str_in j names then some (get_or (lookup j t.clients) new_client_state) else none)
unfolding sync_clients
lookup-sync_clients j names t = ground (
  arith,
  lookup-add_clients j names t,
  lookup-drop_clients j names (keys (add_clients names t).clients) (add_clients names t),
  str_in-keys j (add_clients names t).clients,
)

-- `__init__` tracks what the state file brought and the configured clients; a client of the file keeps
-- its state.
pub lookup-initialize_clients :
    (j : String) (names : List String) (d : Dict ClientState)
    → lookup j (initialize_clients names d) ≡ with_new j names (lookup j d)
unfolding initialize_clients
lookup-initialize_clients j [] d = ground arith
lookup-initialize_clients j (name ∷ names) d =
    lookup-initialize_clients j names
      (if contains name d then d else insert name new_client_state d)
    ∙ ap (with_new j names) (lookup-add_missing j name d)
    ∙ with_new-cons j name names (lookup j d)

-- `mark_skip` and `mark_wol_sent` leave who is online, and who was before the outage.
module _ (name j : String) (t : Tracker) where
  pub is_online-mark_skip : is_online j (mark_skip name t) ≡ is_online j t
  unfolding is_online mark_skip
  is_online-mark_skip =
      ground (arith, lookup-modify name j (λ s. record s { skip = some true }) t.clients)

  pub was_online-mark_skip :
      was_online_before_shutdown j (mark_skip name t) ≡ was_online_before_shutdown j t
  unfolding was_online_before_shutdown mark_skip
  was_online-mark_skip =
      ground (arith, lookup-modify name j (λ s. record s { skip = some true }) t.clients)

  module _ (now : ℕ) where
    pub is_online-mark_wol_sent : is_online j (mark_wol_sent name now t) ≡ is_online j t
    unfolding is_online mark_wol_sent
    is_online-mark_wol_sent = ground (
      arith,
      lookup-modify name j
          (λ s. record s { wol_sent = some true; wol_sent_at = some (seconds now) }) t.clients,
    )

    pub was_online-mark_wol_sent :
        was_online_before_shutdown j (mark_wol_sent name now t) ≡ was_online_before_shutdown j t
    unfolding was_online_before_shutdown mark_wol_sent
    was_online-mark_wol_sent = ground (
      arith,
      lookup-modify name j
          (λ s. record s { wol_sent = some true; wol_sent_at = some (seconds now) }) t.clients,
    )
