-- ===== src/Config/Limits.antt =====
-- wolnut/config.py: the shutdown settings of a client that `validate_config` accepts.
use wolnut_webui.Common.{
  ℕ, ◌≤◌, String, Bool, true, false, not, ◌||◌, Option, none, some, ◌≡◌, refl, truthy, Result, ok,
  err, ◌>>◌, guard, arith,
}
use wolnut_webui.Common.Text.{strip}
use wolnut_webui.Common.Dict.{Dict, lookup}
use wolnut_webui.Common.Value.{Value, null, bool, int, neg, real, str, arr, obj}
use wolnut_webui.Config.Validate.{
  Fault, flag_or, in_bounds, is_agent_id, is_true_at, validate_shutdown,
}

-- The parts of a sequence of checks that passed.
pub then-ok : (m k : Result Fault (Unit {0})) → (m >> k) ≡ ok tt → (m ≡ ok tt) × (k ≡ ok tt)
then-ok (ok tt) k h = (refl, h)
then-ok (err e) k h = absurd (ground arith)

pub guard-true : (b : Bool) (e : Fault) → guard b e ≡ ok tt → b ≡ true
guard-true true e h = refl
guard-true false e h = absurd (ground arith)

-- The number, if there is one, is within the bounds.
abbrev pub Within : ℕ → ℕ → Option Value → Type 0
Within lo hi o = (v : Value) → o ≡ some v → (n : ℕ) × (v ≡ int n) × (lo ≤ n) × (n ≤ hi)

in_bounds-Within : (lo hi : ℕ) (o : Option Value) → in_bounds lo hi o ≡ true → Within lo hi o
in_bounds-Within lo hi none h v e = absurd (ground arith)
in_bounds-Within lo hi (some (int n)) h v e = (n, ground arith, ground arith, ground arith)
in_bounds-Within lo hi (some null) h v e = absurd (ground arith)
in_bounds-Within lo hi (some (bool b)) h v e = absurd (ground arith)
in_bounds-Within lo hi (some (neg n)) h v e = absurd (ground arith)
in_bounds-Within lo hi (some (real r)) h v e = absurd (ground arith)
in_bounds-Within lo hi (some (str s)) h v e = absurd (ground arith)
in_bounds-Within lo hi (some (arr vs)) h v e = absurd (ground arith)
in_bounds-Within lo hi (some (obj fs)) h v e = absurd (ground arith)

-- The "shutdown" dictionary: the threshold and the port are within their bounds, and shutdown is on only
-- with an agent id that is not blank.
pub record IsShutdown (s : Dict Value) : Type 0 where
  pub threshold : Within 1 100 (lookup "battery_percent" s)
  pub port : Within 1 65535 (lookup "agent_port" s)
  pub paired :
      flag_or false (lookup "enabled" s) ≡ true
      → (a : String) × (lookup "agent_id" s ≡ some (str a)) × (truthy (strip a) ≡ true)

agent_id_text :
    (o : Option Value)
    → is_agent_id o ≡ true
    → is_true_at o ≡ true
    → (a : String) × (o ≡ some (str a)) × (truthy (strip a) ≡ true)
agent_id_text none h k = absurd (ground arith)
agent_id_text (some null) h k = absurd (ground arith)
agent_id_text (some (bool b)) h k = absurd (ground arith)
agent_id_text (some (int n)) h k = absurd (ground arith)
agent_id_text (some (neg n)) h k = absurd (ground arith)
agent_id_text (some (real r)) h k = absurd (ground arith)
agent_id_text (some (str s)) h k = (s, refl, h)
agent_id_text (some (arr vs)) h k = absurd (ground arith)
agent_id_text (some (obj fs)) h k = absurd (ground arith)

-- The four of the checks that later code relies on.
validate_shutdown-checks :
    (name : String) (s : Dict Value)
    → validate_shutdown name s ≡ ok tt
    → (in_bounds 1 100 (lookup "battery_percent" s) ≡ true)
      × (in_bounds 1 65535 (lookup "agent_port" s) ≡ true)
      × (is_agent_id (lookup "agent_id" s) ≡ true)
      × ((not (flag_or false (lookup "enabled" s)) || is_true_at (lookup "agent_id" s)) ≡ true)
unfolding validate_shutdown
validate_shutdown-checks name s h =
    let (a, x6) = then-ok _ _ h in
    let (b, x5) = then-ok _ _ a in
    let (c, x4) = then-ok _ _ b in
    let (d, x3) = then-ok _ _ c in
    let (e, x2) = then-ok _ _ d in
    (guard-true _ _ x2, guard-true _ _ x3, guard-true _ _ x4, guard-true _ _ x6)

pub validate_shutdown-IsShutdown :
    (name : String) (s : Dict Value) → validate_shutdown name s ≡ ok tt → IsShutdown s
validate_shutdown-IsShutdown name s h =
    let (a, b, c, d) = validate_shutdown-checks name s h in
    record {
      threshold = in_bounds-Within 1 100 (lookup "battery_percent" s) a;
      port = in_bounds-Within 1 65535 (lookup "agent_port" s) b;
      paired = λ on. agent_id_text (lookup "agent_id" s) c (ground arith);
    }
