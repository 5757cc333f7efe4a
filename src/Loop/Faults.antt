-- ===== src/Loop/Faults.antt =====
-- wolnut/cli.py: a client that came back once and is offline again, in the loop over the clients.
use wolnut_webui.Common.{
  ℕ, String, Bool, true, false, List, [], ◌∷◌, ◌≡◌, refl, str_in, if◌then◌else◌, arith, eq_iff, not,
  ◌&&◌,
}
use wolnut_webui.Config.{ClientConfig}
use wolnut_webui.State.{should_skip, was_online_before_shutdown, is_online}
use wolnut_webui.Effects.{Effect}
use wolnut_webui.Loop.World.{Monitor, Poll, is_empty, str_in-add, str_in-discard}
use wolnut_webui.Common.{◌+◌, ◌*◌, ◌++◌, ltb}
use wolnut_webui.State.{microseconds}
use wolnut_webui.Loop.Wake.{
  timeout_notice, seen_online, send_wake, seen_offline, wake_client, wake_clients, finish_round,
  wake_round, end_restoration,
}

-- The name is recorded both as down and as back up.
abbrev pub IsStuck : String → Monitor → Type 0
IsStuck name m = (str_in name m.recorded_up ≡ true) × (str_in name m.recorded_down ≡ true)

module _ (name : String) (p : Poll) where
  IsStuck-if :
      (b : Bool) (x y : Monitor × List Effect)
      → IsStuck name x.0
      → IsStuck name y.0
      → IsStuck name (if b then x else y).0
  IsStuck-if true x y h k = h
  IsStuck-if false x y h k = k

  seen_online-IsStuck :
      (c : ClientConfig) (m : Monitor) → IsStuck name m → IsStuck name (seen_online c m).0
  unfolding seen_online
  seen_online-IsStuck c m h = ground (
    arith,
    str_in-add c.name name m.recorded_up,
    str_in-discard c.name name m.recorded_down,
    eq_iff name c.name,
  )

  seen_offline-IsStuck :
      (c : ClientConfig) (m : Monitor) → IsStuck name m → IsStuck name (seen_offline p c m).0
  unfolding seen_offline send_wake
  seen_offline-IsStuck c m h = ground (arith, str_in-add c.name name m.recorded_down)

  wake_client-IsStuck :
      (c : ClientConfig) (m : Monitor) → IsStuck name m → IsStuck name (wake_client p c m).0
  unfolding wake_client
  wake_client-IsStuck c m h = IsStuck-if (not c.enabled) _ _ h (
      IsStuck-if (not c.wake_enabled) _ _ h (
        IsStuck-if (should_skip c.name m.tracker) _ _ h (
          IsStuck-if (not c.always_wake && not (was_online_before_shutdown c.name m.tracker)) _ _ h
            (IsStuck-if (is_online c.name m.tracker) _ _ (seen_online-IsStuck c m h)
              (seen_offline-IsStuck c m h)))))

  wake_clients-IsStuck :
      (cs : List ClientConfig) (m : Monitor) → IsStuck name m → IsStuck name (wake_clients p cs m).0
  unfolding wake_clients
  wake_clients-IsStuck [] m h = h
  wake_clients-IsStuck (c ∷ cs) m h =
      wake_clients-IsStuck cs (wake_client p c m).0 (wake_client-IsStuck c m h)

  IsStuck-some_down : (m : Monitor) → IsStuck name m → is_empty m.recorded_down ≡ false
  IsStuck-some_down m h = down m.recorded_down h.1
    where
      down : (xs : List String) → str_in name xs ≡ true → is_empty xs ≡ false
      down [] h = cc
      down (x ∷ xs) h = refl

  finish_round-IsStuck :
      (start : ℕ) (m : Monitor)
      → IsStuck name m
      → finish_round p start m ≡ (
          if ltb (start + m.config.wake_on.client_timeout_sec * microseconds) p.waited_at
          then (end_restoration m, timeout_notice m.recorded_down ∷ [])
          else (m, []))
  unfolding finish_round
  finish_round-IsStuck start m h = rw (IsStuck-some_down m h)

-- A name that is recorded both as down and as back up stays in both records through the loop over the
-- clients, whatever the pings say. So the round does not reset the tracker: it ends the restoration
-- only once the timeout has passed, with the notice of the clients that did not come back.
pub wake_round-IsStuck :
    (name : String) (p : Poll) (start : ℕ) (m : Monitor)
    → IsStuck name m
    → let x = wake_clients p m.config.clients (record m { wol_being_sent = true }) in
      IsStuck name x.0
      × (wake_round p start m ≡ (
          if ltb (start + x.0.config.wake_on.client_timeout_sec * microseconds) p.waited_at
          then (end_restoration x.0, x.1 ++ timeout_notice x.0.recorded_down ∷ [])
          else (x.0, x.1 ++ [])))
unfolding wake_round
wake_round-IsStuck name p start m h =
    let x = wake_clients p m.config.clients (record m { wol_being_sent = true }) in
    let stuck =
      wake_clients-IsStuck name p m.config.clients (record m { wol_being_sent = true }) h in
    (
      stuck,
      rw (finish_round-IsStuck name p start x.0 stuck) (
          by_cases (ltb (start + x.0.config.wake_on.client_timeout_sec * microseconds) p.waited_at)
            (end_restoration x.0) x.0 x.1 (timeout_notice x.0.recorded_down ∷ [])),
    )
  where
    by_cases :
        (b : Bool) (y z : Monitor) (es fs : List Effect)
        → let r : Monitor × List Effect = if b then (y, fs) else (z, []) in
          ◌≡◌ {A = Monitor × List Effect}
            (r.0, es ++ r.1)
            (if b then (y, es ++ fs) else (z, es ++ []))
    by_cases true y z es fs = refl
    by_cases false y z es fs = refl
