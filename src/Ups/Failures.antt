-- ===== src/Ups/Failures.antt =====
-- wolnut/monitor.py, wolnut/shutdown.py: a failure of upsc makes no snapshot.
use wolnut_webui.Common.{
  ℕ, String, Option, none, [], ◌≡◌, refl, is_some, true, arith, ◌⊎◌, inl, inr,
}
use wolnut_webui.Common.Dict.{lookup}
use wolnut_webui.Shutdown.Snapshot.{Rounded, parse_ups_snapshot, snapshot_from}
use wolnut_webui.Ups.{
  Run, not_installed, gone, failed, exited, finished, build_ups_target, get_ups_status_detailed,
  get_ups_status,
}

-- The run ended well.
abbrev pub IsFinished : Run → Type 0
IsFinished (finished output) = Unit
IsFinished _ = ⊥

no_status : (target : String) (r : Run) → ((get_ups_status_detailed target r).0 ≡ []) ⊎ IsFinished r
unfolding get_ups_status_detailed
no_status target not_installed = inl refl
no_status target (gone e) = inl refl
no_status target (failed e) = inl refl
no_status target (exited n e) = inl refl
no_status target (finished output) = inr tt

empty_reading : (round_float : String → Option Rounded) → parse_ups_snapshot round_float [] ≡ none
unfolding parse_ups_snapshot snapshot_from lookup
empty_reading round_float = refl

-- Where there is a snapshot of what `get_ups_status` returns, upsc was installed, started and ended well
-- on the target: a failure of any kind makes no snapshot.
pub parse_ups_snapshot-get_ups_status :
    (round_float : String → Option Rounded) (ups : String) (port : Option ℕ) (run : String → Run)
    → is_some (parse_ups_snapshot round_float (get_ups_status ups port run)) ≡ true
    → IsFinished (run (build_ups_target ups port))
unfolding get_ups_status
parse_ups_snapshot-get_ups_status round_float ups port run h =
    let target = build_ups_target ups port in
    elim (no_status target (run target)) [
      | inl e ↦ let k = rw e at h in absurd (ground (arith, empty_reading round_float))
      | inr f ↦ f
    ]
