-- ===== src/State/Updates.antt =====
-- wolnut/state.py: when `observe_agent_update` reports an update.
use wolnut_webui.Common.{ℕ, ◌<◌, String, true, some, ◌≡◌, ◌↔◌, arith, eq_iff}
use wolnut_webui.Common.Dict.{lookup}
use wolnut_webui.State.{ClientState, Tracker, observe_agent_update, observe_entry, observe_update}

module _ (name : String) (t : Tracker) (s : ClientState)
    (tracked : lookup name t.clients ≡ some s) where
  -- For a tracked client an update is reported exactly if it is automatic and updated, newer than the last
  -- one that was noted, and something was noted before.
  pub observe_agent_update_lem :
      (installed : ℕ) (version source status : String)
      → ((observe_agent_update name installed version source status t).1 ≡ true) ↔ (
          (s.agent_update.initialized ≡ true)
          × (s.agent_update.installed_at < installed)
          × (source ≡ "automatic")
          × (status ≡ "updated"))
  unfolding observe_agent_update observe_entry observe_update
  observe_agent_update_lem installed version source status =
      ground (arith, eq_iff source "automatic", eq_iff status "updated")
