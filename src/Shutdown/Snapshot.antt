-- ===== src/Shutdown/Snapshot.antt =====
-- wolnut/shutdown.py: `parse_ups_snapshot`.
use wolnut_webui.Common.{
  ℕ, ◌-◌, String, Bool, false, ◌||◌, Option, none, some, List, [], ◌∷◌, map, leb, if◌then◌else◌,
}
use wolnut_webui.Common.Text.{codes, within, is_space, codes_eq}
use wolnut_webui.Common.Dict.{Dict, lookup}

pub data Mode : Type 0 where
  on_battery on_line : Mode

pub record UpsSnapshot : Type 0 where
  pub mode : Mode
  pub battery_percent : ℕ

-- A rounded float: n, or -(n + 1).
pub data Rounded : Type 0 where
  plus : ℕ → Rounded
  minus : ℕ → Rounded

-- str.upper on ASCII. Of the other characters, those with a letter of ASCII in their upper case, such as
-- the ligatures of F and L, make no token "OB" or "OL".
unfoldable pub upper : ℕ → ℕ
upper c = if within b'a' b'z' c then c - 32 else c

abbrev pub push_word : List ℕ → List (List ℕ) → List (List ℕ)
push_word [] ws = ws
push_word (c ∷ w) ws = (c ∷ w) ∷ ws

-- The first word of a text, up to a space, and the words after it.
unfoldable pub split_from : List ℕ → List ℕ × List (List ℕ)
unfolding is_space
split_from [] = ([], [])
split_from (c ∷ s) =
    let (w, ws) = split_from s in if is_space c then ([], push_word w ws) else (c ∷ w, ws)

-- str.split()
unfoldable pub split : List ℕ → List (List ℕ)
unfolding split_from
split s = let (w, ws) = split_from s in push_word w ws

-- w in tokens
unfoldable pub has_token : List ℕ → List (List ℕ) → Bool
unfolding codes_eq
has_token w [] = false
has_token w (v ∷ vs) = codes_eq w v || has_token w vs

-- The tokens of `raw_status.upper().split()`.
unfoldable pub status_tokens : String → List (List ℕ)
unfolding split upper
status_tokens raw = split (map upper (codes raw))

unfoldable pub mode_of : List (List ℕ) → Option Mode
unfolding has_token
mode_of tokens =
    if has_token (codes "OB") tokens
    then some on_battery
    else if has_token (codes "OL") tokens
    then some on_line
    else none

unfoldable pub snapshot_of : Option Mode → Option Rounded → Option UpsSnapshot
snapshot_of none r = none
snapshot_of (some m) none = none
snapshot_of (some m) (some (minus n)) = none
snapshot_of (some m) (some (plus n)) =
    if leb n 100 then some (record { mode = m; battery_percent = n }) else none

module _ (round_float : String → Option Rounded) where
  unfoldable pub snapshot_from : Option String → Option String → Option UpsSnapshot
  unfolding snapshot_of mode_of status_tokens
  snapshot_from none battery = none
  snapshot_from (some raw) none = none
  snapshot_from (some raw) (some battery) =
      snapshot_of (mode_of (status_tokens raw)) (round_float battery)

  unfoldable pub parse_ups_snapshot : Dict String → Option UpsSnapshot
  unfolding snapshot_from
  parse_ups_snapshot status =
      snapshot_from (lookup "ups.status" status) (lookup "battery.charge" status)
