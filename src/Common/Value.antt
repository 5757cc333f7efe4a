-- ===== src/Common/Value.antt =====
-- The values of a dynamic language: what `json.loads` and `yaml.safe_load` return.
use wolnut_webui.Common.Tests.{truthy, str_eq}
use wolnut_webui.Common.Dict.{Dict}
use Prim.Native.Nat.{ℕ, zero, suc}
use Prim.Native.String.{String}
use mathlib.Core.Bool.{Bool, true, false, not, ◌||◌}
use mathlib.Core.Option.{Option, some}
use mathlib.Core.Path.{◌≡◌, refl, ap}
use mathlib.Core.List.{List, [], ◌∷◌}

mutual
  pub data Value : Type 0 where
    null : Value
    bool : Bool → Value
    -- n, and -(n + 1)
    int : ℕ → Value
    neg : ℕ → Value
    -- a float, by its repr
    real : String → Value
    str : String → Value
    arr : Items → Value
    obj : Fields → Value

  -- A dictionary's items, in order.
  pub data Fields : Type 0 where
    end : Fields
    field : String → Value → Fields → Fields

  pub data Items : Type 0 where
    nil : Items
    cons : Value → Items → Items

-- The entries of a dictionary.
abbrev pub entries : Fields → Dict Value
entries end = []
entries (field k v fs) = (k, v) ∷ entries fs

abbrev pub items : Items → List Value
items nil = []
items (cons v vs) = v ∷ items vs

-- bool(v)
abbrev pub is_true : Value → Bool
is_true null = false
is_true (bool b) = b
is_true (int zero) = false
is_true (int (suc n)) = true
is_true (neg n) = true
is_true (real s) = not (str_eq s "0.0" || str_eq s "-0.0")
is_true (str s) = truthy s
is_true (arr nil) = false
is_true (arr (cons v vs)) = true
is_true (obj end) = false
is_true (obj (field k v fs)) = true

-- v == s, for a text s.
abbrev pub is_text : Option Value → String → Bool
is_text (some (str s)) t = str_eq s t
is_text _ t = false

abbrev pub to_fields : Dict Value → Fields
to_fields [] = end
to_fields ((k, v) ∷ d) = field k v (to_fields d)

abbrev pub to_items : List Value → Items
to_items [] = nil
to_items (v ∷ vs) = cons v (to_items vs)

pub entries-to_fields : (d : Dict Value) → entries (to_fields d) ≡ d
entries-to_fields [] = refl
entries-to_fields ((k, v) ∷ d) = ap (λ e. (k, v) ∷ e) (entries-to_fields d)

pub items-to_items : (vs : List Value) → items (to_items vs) ≡ vs
items-to_items [] = refl
items-to_items (v ∷ vs) = ap (λ ws. v ∷ ws) (items-to_items vs)
