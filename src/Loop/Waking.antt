-- ===== src/Loop/Waking.antt =====
-- wolnut/cli.py: which clients get a wake packet in the loop over the clients.
use wolnut_webui.Common.{
  ℕ, String, Bool, true, false, not, ◌&&◌, ◌||◌, List, [], ◌∷◌, ◌≡◌, refl, inl, inr, str_in,
  if◌then◌else◌, arith, sym, ◌∙◌,
}
use wolnut_webui.Config.{ClientConfig}
use wolnut_webui.State.{
  Tracker, mark_skip, mark_wol_sent, is_online, was_online_before_shutdown, should_skip,
  should_attempt_wol,
}
use wolnut_webui.State.Clients.{
  is_online-mark_skip, was_online-mark_skip, is_online-mark_wol_sent, was_online-mark_wol_sent,
}
use wolnut_webui.Effects.{Effect, notify, shutdown_request, wake, All, All-append}
use wolnut_webui.Shutdown.Steps.{IsIn}
use wolnut_webui.Loop.World.{Monitor, Poll, add}
use wolnut_webui.Loop.Wake.{
  seen_online, send_wake, seen_offline, wake_client, wake_clients, recovered_notice,
}

-- The two trackers answer alike on who is online and who was before the outage.
pub record SameOnline (t u : Tracker) : Type 0 where
  pub online : (name : String) → is_online name u ≡ is_online name t
  pub before :
      (name : String) → was_online_before_shutdown name u ≡ was_online_before_shutdown name t

-- A wake packet goes to a configured client that takes part in waking, that is offline, and that was
-- online before the outage or is to be woken always. Nothing but packets and notices.
abbrev pub MayWake : Poll → List ClientConfig → Tracker → Effect → Type 0
MayWake p cs t (wake c sent) =
    IsIn c cs
    × (c.enabled ≡ true)
    × (c.wake_enabled ≡ true)
    × ((c.always_wake || was_online_before_shutdown c.name t) ≡ true)
    × (is_online c.name t ≡ false)
    × (sent ≡ p.wake_sent c)
MayWake p cs t (shutdown_request c payload) = ⊥
MayWake p cs t (notify event title message) = Unit

-- What a part of the wake loop leaves and does.
pub record IsFine (p : Poll) (cs : List ClientConfig) (t : Tracker) (x : Monitor × List Effect)
    : Type 0 where
  pub same : SameOnline t x.0.tracker
  pub effects : All (MayWake p cs t) x.1

module _ (p : Poll) (cs : List ClientConfig) (t : Tracker) where
  by_cases :
      (b : Bool) {x y : Monitor × List Effect}
      → (b ≡ true → IsFine p cs t x)
      → (b ≡ false → IsFine p cs t y)
      → IsFine p cs t (if b then x else y)
  by_cases true h k = h refl
  by_cases false h k = k refl

  skip-same : (name : String) (u : Tracker) → SameOnline t u → SameOnline t (mark_skip name u)
  skip-same name u h = record {
    online = λ j. is_online-mark_skip name j u ∙ h.online j;
    before = λ j. was_online-mark_skip name j u ∙ h.before j;
  }

  sent-same :
      (name : String) (now : ℕ) (u : Tracker)
      → SameOnline t u
      → SameOnline t (mark_wol_sent name now u)
  sent-same name now u h = record {
    online = λ j. is_online-mark_wol_sent name j u now ∙ h.online j;
    before = λ j. was_online-mark_wol_sent name j u now ∙ h.before j;
  }

  seen_online-IsFine :
      (c : ClientConfig) (m : Monitor) → SameOnline t m.tracker → IsFine p cs t (seen_online c m)
  unfolding seen_online
  seen_online-IsFine c m h =
      by_cases (str_in c.name m.recorded_up) (λ _. record { same = h; effects = tt })
        (λ _. record { same = h; effects = notice (str_in c.name m.recorded_down) })
    where
      notice : (b : Bool) → All (MayWake p cs t) (if b then recovered_notice c ∷ [] else [])
      notice true = (tt, tt)
      notice false = tt

  send_wake-IsFine :
      (c : ClientConfig) (m : Monitor)
      → ((sent : Bool) → sent ≡ p.wake_sent c → MayWake p cs t (wake c sent))
      → SameOnline t m.tracker
      → IsFine p cs t (send_wake p c m)
  unfolding send_wake
  send_wake-IsFine c m may h =
      by_cases (p.wake_sent c)
        (λ e. record {
          same = sent-same c.name (p.woken_at c) m.tracker h;
          effects = (may true (sym e), (tt, tt));
        })
        (λ e.
          by_cases (str_in c.name m.reported_failures)
            (λ _. record { same = h; effects = (may false (sym e), tt) })
            (λ _. record { same = h; effects = (may false (sym e), (tt, tt)) }))

  seen_offline-IsFine :
      (c : ClientConfig) (m : Monitor)
      → ((sent : Bool) → sent ≡ p.wake_sent c → MayWake p cs t (wake c sent))
      → SameOnline t m.tracker
      → IsFine p cs t (seen_offline p c m)
  unfolding seen_offline
  seen_offline-IsFine c m may h =
      by_cases
        (should_attempt_wol c.name m.config.wake_on.reattempt_delay (p.wake_check_at c) m.tracker)
        (λ _. send_wake-IsFine c (record m { recorded_down = add c.name m.recorded_down }) may h)
        (λ _. record { same = h; effects = tt })

  wake_client-IsFine :
      (c : ClientConfig) (m : Monitor)
      → IsIn c cs
      → SameOnline t m.tracker
      → IsFine p cs t (wake_client p c m)
  unfolding wake_client
  wake_client-IsFine c m member h =
      let skipped = skip-same c.name m.tracker h in
      by_cases (not c.enabled) (λ _. record { same = h; effects = tt })
        (λ e1.
          by_cases (not c.wake_enabled) (λ _. record { same = skipped; effects = tt })
            (λ e2.
              by_cases (should_skip c.name m.tracker) (λ _. record { same = h; effects = tt })
                (λ _.
                  by_cases (not c.always_wake && not (was_online_before_shutdown c.name m.tracker))
                    (λ _. record { same = skipped; effects = tt })
                    (λ e3.
                      by_cases (is_online c.name m.tracker) (λ _. seen_online-IsFine c m h)
                        (λ e4.
                          seen_offline-IsFine c m
                            (λ sent e5. justify c m member h e1 e2 e3 e4 sent e5) h)))))
    where
      justify :
          (c : ClientConfig) (m : Monitor)
          → IsIn c cs
          → SameOnline t m.tracker
          → not c.enabled ≡ false
          → not c.wake_enabled ≡ false
          → (not c.always_wake && not (was_online_before_shutdown c.name m.tracker)) ≡ false
          → is_online c.name m.tracker ≡ false
          → (sent : Bool) → sent ≡ p.wake_sent c
          → MayWake p cs t (wake c sent)
      justify c m member h e1 e2 e3 e4 sent e5 = (
        member,
        ground arith,
        ground arith,
        ground (arith, h.before c.name),
        sym (h.online c.name) ∙ e4,
        e5,
      )

  pub wake_clients-IsFine :
      (ds : List ClientConfig) (m : Monitor)
      → ((c : ClientConfig) → IsIn c ds → IsIn c cs)
      → SameOnline t m.tracker
      → IsFine p cs t (wake_clients p ds m)
  unfolding wake_clients
  wake_clients-IsFine [] m sub h = record { same = h; effects = tt }
  wake_clients-IsFine (c ∷ ds) m sub h =
      let first = wake_client-IsFine c m (sub c (inl refl)) h in
      let rest = wake_clients-IsFine ds (wake_client p c m).0 (λ d k. sub d (inr k)) first.same in
      record {
        same = rest.same;
        effects =
            All-append (MayWake p cs t) (wake_client p c m).1
              (wake_clients p ds (wake_client p c m).0).1 first.effects rest.effects;
      }
