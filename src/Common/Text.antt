-- ===== src/Common/Text.antt =====
-- Text as Python's `str` methods use it: concatenation, code points and decimal numbers.
use Prim.Native.Nat.{ℕ, zero, suc, ◌+◌, ◌/◌, ◌%◌}
use Prim.Native.Char.{code}
use Prim.Native.String.{String, ◌++◌ as ◌<>◌}
use mathlib.Core.Path.{◌≡◌, refl}
use mathlib.Core.List.{List, [], ◌∷◌}
use mathlib.Core.Bool.{Bool, true, false, not, ◌&&◌, ◌||◌}
use text.Mathlib.TextLemmas.{cons-append}
use wolnut_webui.Common.Tests.{truthy, ltb, leb, ◌==◌, if◌then◌else◌}

-- The code points of a text.
abbrev pub codes : String → List ℕ
codes String.[] = []
codes (String.◌∷◌ c s) = code c ∷ codes s

-- s + t
infixr 65 ◌^◌
unfoldable pub ◌^◌ : String → String → String
s ^ t = s <> t

abbrev pub within : ℕ → ℕ → ℕ → Bool
within lo hi c = leb lo c && leb c hi

-- The characters that str.split() splits at and str.strip() takes away.
unfoldable pub is_space : ℕ → Bool
is_space c =
    within 9 13 c
    || within 28 32 c
    || c == 0x85
    || c == 0xA0
    || c == 0x1680
    || within 0x2000 0x200A c
    || c == 0x2028
    || c == 0x2029
    || c == 0x202F
    || c == 0x205F
    || c == 0x3000

abbrev pub length : List ℕ → ℕ
length [] = 0
length (c ∷ cs) = 1 + length cs

-- Whether code points are at the start of others, in others, or the same.
starts : List ℕ → List ℕ → Bool
starts [] s = true
starts (a ∷ p) [] = false
starts (a ∷ p) (b ∷ s) = a == b && starts p s

unfoldable pub has_part : List ℕ → List ℕ → Bool
unfolding starts
has_part p [] = starts p []
has_part p (a ∷ s) = starts p (a ∷ s) || has_part p s

unfoldable pub codes_eq : List ℕ → List ℕ → Bool
codes_eq [] [] = true
codes_eq (a ∷ s) (b ∷ t) = a == b && codes_eq s t
codes_eq _ _ = false

lstrip : String → String
unfolding is_space
lstrip String.[] = ""
lstrip (String.◌∷◌ c s) = let rest = lstrip s in if is_space (code c) then rest else String.◌∷◌ c s

rstrip : String → String
unfolding is_space
rstrip String.[] = ""
rstrip (String.◌∷◌ c s) =
    let rest = rstrip s in if is_space (code c) && not (truthy rest) then "" else String.◌∷◌ c rest

-- s.strip()
unfoldable pub strip : String → String
unfolding lstrip rstrip
strip s = rstrip (lstrip s)

strip_space : strip " token\n" ≡ "token"
unfolding strip
strip_space = refl

digit : ℕ → String
digit d =
    if d == 0
    then "0"
    else if d == 1
    then "1"
    else if d == 2
    then "2"
    else if d == 3
    then "3"
    else if d == 4
    then "4"
    else if d == 5
    then "5"
    else if d == 6
    then "6"
    else if d == 7
    then "7"
    else if d == 8
    then "8"
    else "9"

decimal : ℕ → ℕ → String
decimal zero n = ""
decimal (suc fuel) n =
    let front = decimal fuel (n / 10) ^ digit (n % 10) in if ltb n 10 then digit n else front

-- str(n); a number has at most n + 1 digits.
unfoldable pub show : ℕ → String
unfolding decimal digit ◌^◌
show n = decimal (suc n) n

show_2005 : show 2005 ≡ "2005"
unfolding show
show_2005 = refl

-- A text that begins with one that is not empty is not empty.
pub truthy-append : (s t : String) → truthy s ≡ true → truthy (s ^ t) ≡ true
unfolding ◌^◌
truthy-append String.[] t h = cc
truthy-append (String.◌∷◌ c s) t h = rw (cons-append c s t)
