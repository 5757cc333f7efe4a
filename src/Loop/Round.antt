-- ===== src/Loop/Round.antt =====
-- wolnut/cli.py: one round of the loop of `main`: the reload of the configuration, the snapshot, the
-- pings, the branch on the power status, the agent updates and the save.
use wolnut_webui.Common.{
  ℕ, String, false, not, ◌&&◌, Option, none, some, List, [], ◌∷◌, ◌==◌, if◌then◌else◌, ok,
}
use wolnut_webui.Config.{ClientConfig, WolnutConfig}
use wolnut_webui.State.{update, sync_clients, Tracker, was_ups_on_battery}
use wolnut_webui.State.Save.{save_state}
use wolnut_webui.Shutdown.Snapshot.{UpsSnapshot, parse_ups_snapshot}
use wolnut_webui.Loop.World.{
  Monitor, Poll, Reload, raised, failed, loaded, Outcome, chain, intersect,
}
use wolnut_webui.Loop.Power.{on_tracker, on_power}
use wolnut_webui.Loop.Updates.{poll_updates}

abbrev pub names : List ClientConfig → List String
names [] = []
names (c ∷ cs) = c.name ∷ names cs

abbrev pub enabled_names : List ClientConfig → List String
enabled_names [] = []
enabled_names (c ∷ cs) = if c.enabled then c.name ∷ enabled_names cs else enabled_names cs

-- A new configuration is applied; the time of the file is taken unless `load_config` raised.
unfoldable pub apply_reload : Reload → ℕ → Monitor → Monitor
apply_reload raised mtime m = m
apply_reload failed mtime m = record m { last_mtime = mtime }
apply_reload (loaded config) mtime m = record m {
  config = config;
  last_mtime = mtime;
  tracker = sync_clients (names config.clients) m.tracker;
  recorded_down = intersect m.recorded_down (enabled_names config.clients);
  recorded_up = intersect m.recorded_up (enabled_names config.clients);
}

unfoldable pub reload_config : Poll → Monitor → Monitor
unfolding apply_reload
reload_config p m =
    if not (p.mtime == m.last_mtime) && not (p.mtime == 0)
    then apply_reload p.reload p.mtime m
    else m

unfoldable pub ping_client : Poll → ClientConfig → Monitor → Outcome
ping_client p c m =
    if c.enabled then on_tracker (update c.name (p.ping c) m.tracker) m else ok (m, [])

unfoldable pub ping_clients : Poll → List ClientConfig → Monitor → Outcome
ping_clients p [] m = ok (m, [])
ping_clients p (c ∷ cs) m = chain (ping_client p c m) (λ m'. ping_clients p cs m')

unfoldable pub save : Poll → Monitor → Monitor
save p m =
    let (t, file) = save_state p.dumps p.md5 p.disk m.tracker m.file in
    record m { tracker = t; file = file }

-- The end of a round.
unfoldable pub close_round : Poll → Monitor → Outcome
close_round p m = chain (poll_updates p m) (λ m'. ok (save p m', []))

unfoldable pub with_snapshot : Poll → Option UpsSnapshot → Monitor → Outcome
with_snapshot p none m = close_round p m
with_snapshot p (some s) m =
    chain (ping_clients p m.config.clients m)
      (λ m1. chain (on_power p s m1) (λ m2. close_round p m2))

unfoldable pub monitor_round : Poll → Monitor → Outcome
monitor_round p m = with_snapshot p (parse_ups_snapshot p.round_float p.status) (reload_config p m)

-- The variables before the loop: a tracker that was on battery resumes the outage.
unfoldable pub start_monitor : WolnutConfig → ℕ → Tracker → Option String → Monitor
start_monitor config mtime t file = record {
  config = config;
  last_mtime = mtime;
  tracker = t;
  on_battery = was_ups_on_battery t;
  recorded_down = [];
  recorded_up = [];
  restoration_event = false;
  restoration_start = none;
  wol_being_sent = false;
  reported_failures = [];
  last_checked = [];
  file = file;
}
