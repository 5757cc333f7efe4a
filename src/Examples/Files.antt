-- ===== src/Examples/Files.antt =====
-- wolnut/state.py: the state file and the tracked names, tried.
use wolnut_webui.Common.{String, Option, true, false, none, some, [], ◌∷◌, ◌≡◌, refl, get_or}
use wolnut_webui.Common.Dict.{Dict, lookup}
use wolnut_webui.State.{ClientState, new_client_state, MetaState, Tracker, sync_clients}
use wolnut_webui.State.Save.{Disk, save_state, save_state-stores, save_state-failed_replace}
use wolnut_webui.State.Clients.{lookup-sync_clients}
use wolnut_webui.Examples.{up, tracker, in_outage}

abbrev dumps : MetaState → Dict ClientState → Option String
dumps meta clients = some "state"

-- A hash of two values.
abbrev md5 : String → String
md5 String.[] = "0"
md5 (String.◌∷◌ c s) = "1"

abbrev t0 : Tracker
t0 = tracker up in_outage

abbrev working : Disk
working = record { can_write = true; can_replace = true }

abbrev unmovable : Disk
unmovable = record { can_write = true; can_replace = false }

save_state-stores_example :
    ((save_state dumps md5 working t0 none).1 ≡ some "state")
    × ((save_state dumps md5 working t0 none).0.status_hash ≡ some "1")
save_state-stores_example =
    save_state-stores dumps md5 working t0 none "state" (λ old e d. cc) (λ h e. cc) refl refl refl
      refl

save_state-failed_replace_example :
    let t' = (save_state dumps md5 unmovable t0 none).0 in
    ((save_state dumps md5 unmovable t0 none).1 ≡ none)
    × (t'.dirty ≡ false)
    × ((save_state dumps md5 working (record t' { dirty = true }) none).1 ≡ none)
save_state-failed_replace_example =
    save_state-failed_replace dumps md5 unmovable working t0 none "state" true refl refl refl refl
      refl

lookup-sync_clients_example :
    lookup "nas" (sync_clients ("pc" ∷ "nas" ∷ []) t0).clients
    ≡ some (get_or (lookup "nas" t0.clients) new_client_state)
lookup-sync_clients_example = lookup-sync_clients "nas" ("pc" ∷ "nas" ∷ []) t0
