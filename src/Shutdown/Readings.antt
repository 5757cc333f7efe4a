-- ===== src/Shutdown/Readings.antt =====
-- wolnut/shutdown.py: which data of NUT make a snapshot.
use wolnut_webui.Common.{
  ◌≤◌, String, true, Option, some, ◌≡◌, ◌↔◌, arith, Bool-cases, Option-cases, inl, inr,
}
use wolnut_webui.Common.Text.{codes}
use wolnut_webui.Common.Dict.{Dict, lookup}
use wolnut_webui.Shutdown.Words.{HasWord, has_token-HasWord}
use wolnut_webui.Shutdown.Snapshot.{
  Mode, UpsSnapshot, Rounded, plus, has_token, status_tokens, mode_of, snapshot_of, snapshot_from,
  parse_ups_snapshot,
}

-- The words of a status text that make it on battery, OB, or on the line, OL without OB, in upper or lower
-- case and between spaces or the ends of the text.
abbrev pub HasMode : String → Mode → Type 0
HasMode raw Mode.on_battery = HasWord b'O' b'B' (codes raw)
HasMode raw Mode.on_line = ¬ HasWord b'O' b'B' (codes raw) × HasWord b'O' b'L' (codes raw)

module _ (raw : String) where
  token_ob : (has_token (codes "OB") (status_tokens raw) ≡ true) ↔ HasWord b'O' b'B' (codes raw)
  unfolding status_tokens
  token_ob =
      has_token-HasWord b'O' b'B' (ground arith, ground arith) (ground arith, ground arith)
        (codes raw)

  token_ol : (has_token (codes "OL") (status_tokens raw) ≡ true) ↔ HasWord b'O' b'L' (codes raw)
  unfolding status_tokens
  token_ol =
      has_token-HasWord b'O' b'L' (ground arith, ground arith) (ground arith, ground arith)
        (codes raw)

-- The data say what the snapshot says: a status text with the word of the mode, where OB goes before
-- OL, and a charge that is a number and rounds to the percentage, which is at most 100.
abbrev pub IsReading : (String → Option Rounded) → Dict String → UpsSnapshot → Type 0
IsReading round_float status s =
    (raw : String) × (battery : String) × (lookup "ups.status" status ≡ some raw)
    × (lookup "battery.charge" status ≡ some battery)
    × HasMode raw s.mode
    × (round_float battery ≡ some (plus s.battery_percent))
    × (s.battery_percent ≤ 100)

mode_of-HasMode : (raw : String) (m : Mode) → (mode_of (status_tokens raw) ≡ some m) ↔ HasMode raw m
unfolding mode_of
mode_of-HasMode raw Mode.on_battery =
    ((λ h. (token_ob raw).0 (ground arith)), (λ h. ground (arith, (token_ob raw).1 h)))
mode_of-HasMode raw Mode.on_line = (
  (λ h. ((λ w. ground (arith, (token_ob raw).1 w)), (token_ol raw).0 (ground arith))),
  (λ h. elim (Bool-cases (has_token (codes "OB") (status_tokens raw))) [
    | inl e ↦ absurd (h.0 ((token_ob raw).0 e))
    | inr e ↦ ground (arith, (token_ol raw).1 h.1)
  ]),
)

snapshot_of-some :
    (o : Option Mode) (r : Option Rounded) (s : UpsSnapshot)
    → (snapshot_of o r ≡ some s)
      ↔ ((o ≡ some s.mode) × (r ≡ some (plus s.battery_percent)) × (s.battery_percent ≤ 100))
unfolding snapshot_of
snapshot_of-some o r s = ground arith

module _ (round_float : String → Option Rounded) (status : Dict String) (s : UpsSnapshot) where
  reading : parse_ups_snapshot round_float status ≡ some s → IsReading round_float status s
  unfolding parse_ups_snapshot snapshot_from
  reading e = elim (Option-cases (lookup "ups.status" status)) [
    | inl f ↦ absurd (ground arith)
    | inr (raw, f) ↦ elim (Option-cases (lookup "battery.charge" status)) [
      | inl g ↦ absurd (ground arith)
      | inr (battery, g) ↦
          let made : snapshot_of (mode_of (status_tokens raw)) (round_float battery) ≡ some s =
            ground arith in
          let (m, r, b) =
            (snapshot_of-some (mode_of (status_tokens raw)) (round_float battery) s).0 made in
          (raw, battery, f, g, (mode_of-HasMode raw s.mode).0 m, r, b)
    ]
  ]

  snapshot : IsReading round_float status s → parse_ups_snapshot round_float status ≡ some s
  unfolding parse_ups_snapshot snapshot_from
  snapshot (raw, battery, f, g, m, r, b) =
      let made =
        (snapshot_of-some (mode_of (status_tokens raw)) (round_float battery) s).1
          ((mode_of-HasMode raw s.mode).1 m, r, b) in
      ground arith

-- `parse_ups_snapshot` returns a snapshot exactly where the data say what it says: a status text with
-- the word OB, or without it and with OL, in either case, by which goes the mode, and a charge that is a number and
-- rounds to the percentage, from 0 to 100.
pub parse_ups_snapshot-IsReading :
    (round_float : String → Option Rounded) (status : Dict String) (s : UpsSnapshot)
    → (parse_ups_snapshot round_float status ≡ some s) ↔ IsReading round_float status s
parse_ups_snapshot-IsReading round_float status s =
    (reading round_float status s, snapshot round_float status s)
