-- ===== src/Loop/World.antt =====
-- wolnut/cli.py, wolnut/agent_updates.py: the variables of `main`, and what one round of its loop reads.
use mathlib.Core.Bool.{not}
use text.Mathlib.Text
use Prim.Native.String.{compare as compare_text}
use wolnut_webui.Common.{
  ℕ, String, Bool, true, false, Option, List, [], ◌∷◌, ◌++◌, str_eq, str_in, if◌then◌else◌, Result,
  ok, err, ◌≡◌, refl, ◌&&◌, ◌||◌, arith, eq_iff,
}
use wolnut_webui.Common.Text.{◌^◌}
use wolnut_webui.Common.Dict.{Dict}
use wolnut_webui.Common.Value.{Value}
use wolnut_webui.Config.{ClientConfig, WolnutConfig}
use wolnut_webui.State.{ClientState, MetaState, Tracker}
use wolnut_webui.State.Save.{Disk}
use wolnut_webui.Agent.{IdentityFiles, Exchange}
use wolnut_webui.Effects.{Effect, Crash}
use wolnut_webui.Shutdown.Snapshot.{Rounded}
use wolnut_webui.Shutdown.Coordinator.{ShutdownEnv}

-- The local variables of `main`, the tracker, the state file and the last checks of the
-- `AgentUpdateMonitor`.
pub record Monitor : Type 0 where
  pub config : WolnutConfig
  pub last_mtime : ℕ
  pub tracker : Tracker
  pub on_battery : Bool
  pub recorded_down : List String
  pub recorded_up : List String
  pub restoration_event : Bool
  pub restoration_start : Option ℕ
  pub wol_being_sent : Bool
  pub reported_failures : List String
  pub last_checked : Dict ℕ
  pub file : Option String

-- What `load_config` did: it raised, or `configure_logger` after it for a level that is none, before
-- anything was assigned; it returned None; or it returned a configuration.
pub data Reload : Type 0 where
  raised : Reload
  failed : Reload
  loaded : WolnutConfig → Reload

-- int of a value that is no whole number: the number, a TypeError or ValueError, or an OverflowError.
pub data Number : Type 0 where
  whole : ℕ → Number
  no_number : Number
  infinite : Number

-- What one round reads. A time is in microseconds; `mtime` is 0 where the file cannot be read.
pub record Poll : Type 0 where
  pub mtime : ℕ
  pub reload : Reload
  pub status : Dict String
  pub round_float : String → Option Rounded
  pub ping : ClientConfig → Bool
  pub fresh : String
  pub shutdown_env : ShutdownEnv
  pub restored_at : ℕ
  pub checked_at : ℕ
  pub waited_at : ℕ
  pub wake_check_at : ClientConfig → ℕ
  pub woken_at : ClientConfig → ℕ
  pub wake_sent : ClientConfig → Bool
  pub update_at : ℕ
  pub update_files : ClientConfig → IdentityFiles
  pub update_exchange : ClientConfig → Exchange
  pub int_value : Value → Number
  pub dumps : MetaState → Dict ClientState → Option String
  pub md5 : String → String
  pub disk : Disk

abbrev pub Outcome : Type 0
Outcome = Result Crash (Monitor × List Effect)

abbrev pub after : List Effect → Outcome → Outcome
after es (ok (m, fs)) = ok (m, es ++ fs)
after es (err e) = err e

abbrev pub chain : Outcome → (Monitor → Outcome) → Outcome
chain (ok (m, es)) f = after es (f m)
chain (err e) f = err e

-- Python's sets of names, in the order of insertion.
unfoldable pub add : String → List String → List String
add name [] = name ∷ []
add name (x ∷ xs) = if str_eq x name then x ∷ xs else x ∷ add name xs

unfoldable pub discard : String → List String → List String
discard name [] = []
discard name (x ∷ xs) = let rest = discard name xs in if str_eq x name then rest else x ∷ rest

-- a.intersection_update(b)
unfoldable pub intersect : List String → List String → List String
intersect [] b = []
intersect (x ∷ xs) b = let rest = intersect xs b in if str_in x b then x ∷ rest else rest

abbrev pub is_empty : List String → Bool
is_empty [] = true
is_empty (x ∷ xs) = false

insert_sorted : String → List String → List String
insert_sorted s [] = s ∷ []
insert_sorted s (t ∷ ts) =
    if Text.is_lt (compare_text t s) then t ∷ insert_sorted s ts else s ∷ t ∷ ts

unfoldable pub sorted : List String → List String
unfolding insert_sorted
sorted [] = []
sorted (s ∷ ss) = insert_sorted s (sorted ss)

-- ", ".join(names)
unfoldable pub join : List String → String
join [] = ""
join (s ∷ []) = s
join (s ∷ t ∷ ts) = s ^ ", " ^ join (t ∷ ts)

pub str_in-add :
    (name j : String) (xs : List String) → str_in j (add name xs) ≡ (str_in j xs || str_eq j name)
unfolding add
str_in-add name j [] = ground arith
str_in-add name j (x ∷ xs) =
    ground (arith, str_in-add name j xs, eq_iff x name, eq_iff j name, eq_iff j x)

pub str_in-discard :
    (name j : String) (xs : List String)
    → str_in j (discard name xs) ≡ (str_in j xs && not (str_eq j name))
unfolding discard
str_in-discard name j [] = refl
str_in-discard name j (x ∷ xs) =
    ground (arith, str_in-discard name j xs, eq_iff x name, eq_iff j name, eq_iff j x)
