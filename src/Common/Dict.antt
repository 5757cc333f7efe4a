-- ===== src/Common/Dict.antt =====
-- Python's `dict` with text keys: an association list in insertion order.
use wolnut_webui.Common.Tests.{str_eq, is_some, Bool-cases, if◌then◌else◌}
use Prim.Native.String.{String}
use mathlib.Core.Path.{◌≡◌, refl, subst}
use mathlib.Core.Bool.{Bool, false, ◌||◌}
use mathlib.Core.Option
use mathlib.Core.Option.{Option, none, some, some-injective}
use mathlib.Core.Logic.{inl, inr}
use mathlib.Core.List.{List, [], ◌∷◌}
use native.Mathlib.Omega.{arith}
use text.Mathlib.TextEquality.{eq_iff}

abbrev pub Dict {ℓ} : Type ℓ → Type ℓ
Dict V = List (String × V)

module _ {ℓ} {V : Type ℓ} where
  -- d.get(k)
  unfoldable pub lookup : String → Dict V → Option V
  lookup k [] = none
  lookup k ((j, v) ∷ d) = if str_eq j k then some v else lookup k d

  -- k in d
  unfoldable pub contains : String → Dict V → Bool
  contains k [] = false
  contains k ((j, v) ∷ d) = str_eq j k || contains k d

  -- d[k] = v
  unfoldable pub insert : String → V → Dict V → Dict V
  insert k v [] = (k, v) ∷ []
  insert k v ((j, w) ∷ d) = if str_eq j k then (j, v) ∷ d else (j, w) ∷ insert k v d

  -- del d[k]
  unfoldable pub erase : String → Dict V → Dict V
  erase k [] = []
  erase k ((j, w) ∷ d) = let rest = erase k d in if str_eq j k then rest else (j, w) ∷ rest

  -- A write through the object that d[k] holds; nothing if there is none.
  unfoldable pub modify : String → (V → V) → Dict V → Dict V
  modify k f [] = []
  modify k f ((j, w) ∷ d) = if str_eq j k then (j, f w) ∷ d else (j, w) ∷ modify k f d

  unfoldable pub keys : Dict V → List String
  keys [] = []
  keys ((j, w) ∷ d) = j ∷ keys d

  -- A write through every object of d.values().
  unfoldable pub map_values : (V → V) → Dict V → Dict V
  map_values f [] = []
  map_values f ((j, w) ∷ d) = (j, f w) ∷ map_values f d

  -- Every value of the dictionary has the property.
  abbrev pub AllValues {κ} : (V → Type κ) → Dict V → Type κ
  AllValues P [] = Unit
  AllValues P ((j, w) ∷ d) = P w × AllValues P d

  pub lookup-insert :
      (k j : String) (v : V) (d : Dict V)
      → lookup j (insert k v d) ≡ (if str_eq k j then some v else lookup j d)
  unfolding lookup insert
  lookup-insert k j v [] = refl
  lookup-insert k j v ((i, w) ∷ d) =
      ground (arith, eq_iff k j, eq_iff i k, eq_iff i j, lookup-insert k j v d)

  pub lookup-erase :
      (k j : String) (d : Dict V) → lookup j (erase k d) ≡ (if str_eq k j then none else lookup j d)
  unfolding lookup erase
  lookup-erase k j [] = ground arith
  lookup-erase k j ((i, w) ∷ d) =
      ground (arith, eq_iff k j, eq_iff i k, eq_iff i j, lookup-erase k j d)

  pub lookup-modify :
      (k j : String) (f : V → V) (d : Dict V)
      → lookup j (modify k f d) ≡ (if str_eq k j then Option.map f (lookup j d) else lookup j d)
  unfolding lookup modify
  lookup-modify k j f [] = ground arith
  lookup-modify k j f ((i, w) ∷ d) =
      ground (arith, eq_iff k j, eq_iff i k, eq_iff i j, lookup-modify k j f d)

  pub lookup-map_values :
      (j : String) (f : V → V) (d : Dict V) → lookup j (map_values f d) ≡ Option.map f (lookup j d)
  unfolding lookup map_values
  lookup-map_values j f [] = refl
  lookup-map_values j f ((i, w) ∷ d) = ground (arith, lookup-map_values j f d)

  pub contains-lookup : (j : String) (d : Dict V) → contains j d ≡ is_some (lookup j d)
  unfolding contains lookup
  contains-lookup j [] = refl
  contains-lookup j ((i, w) ∷ d) = ground (arith, contains-lookup j d)

module _ {ℓ κ} {V : Type ℓ} (P : V → Type κ) where
  pub AllValues-insert :
      (k : String) (v : V) (d : Dict V) → P v → AllValues P d → AllValues P (insert k v d)
  unfolding insert
  AllValues-insert k v [] p a = (p, tt)
  AllValues-insert k v ((j, w) ∷ d) p (h, a) = elim (Bool-cases (str_eq j k)) [
    | inl e ↦ rw e (p, a)
    | inr e ↦ rw e (h, AllValues-insert k v d p a)
  ]

  pub AllValues-erase : (k : String) (d : Dict V) → AllValues P d → AllValues P (erase k d)
  unfolding erase
  AllValues-erase k [] a = tt
  AllValues-erase k ((j, w) ∷ d) (h, a) = elim (Bool-cases (str_eq j k)) [
    | inl e ↦ rw e (AllValues-erase k d a)
    | inr e ↦ rw e (h, AllValues-erase k d a)
  ]

  pub AllValues-modify :
      (k : String) (f : V → V) (d : Dict V)
      → ((v : V) → P v → P (f v))
      → AllValues P d
      → AllValues P (modify k f d)
  unfolding modify
  AllValues-modify k f [] keep a = tt
  AllValues-modify k f ((j, w) ∷ d) keep (h, a) = elim (Bool-cases (str_eq j k)) [
    | inl e ↦ rw e (keep w h, a)
    | inr e ↦ rw e (h, AllValues-modify k f d keep a)
  ]

  pub AllValues-map_values :
      (f : V → V) (d : Dict V)
      → ((v : V) → P v → P (f v))
      → AllValues P d
      → AllValues P (map_values f d)
  unfolding map_values
  AllValues-map_values f [] keep a = tt
  AllValues-map_values f ((j, w) ∷ d) keep (h, a) = (keep w h, AllValues-map_values f d keep a)

  pub AllValues-lookup :
      (k : String) (d : Dict V) {v : V} → AllValues P d → lookup k d ≡ some v → P v
  unfolding lookup
  AllValues-lookup k [] a e = cc
  AllValues-lookup k ((j, w) ∷ d) {v} (h, a) e = elim (Bool-cases (str_eq j k)) [
    | inl same ↦ let f = rw same at e in subst P (some-injective w v f) h
    | inr other ↦ AllValues-lookup k d a (rw other at e)
  ]

pub contains-modify {ℓ} :
    {V : Type ℓ} (k j : String) (f : V → V) (d : Dict V) → contains j (modify k f d) ≡ contains j d
unfolding contains modify
contains-modify k j f [] = refl
contains-modify k j f ((i, w) ∷ d) = ground (arith, contains-modify k j f d)
