-- ===== src/Shutdown/Words.antt =====
-- wolnut/shutdown.py: the words of a status text, read off its characters.
use wolnut_webui.Common.{
  ℕ, ◌+◌, ◌-◌, ◌≤◌, Bool, true, false, ◌||◌, List, [], ◌∷◌, map, ◌≡◌, ◌⊎◌, ◌↔◌, refl, arith, inl,
  inr, Bool-cases,
}
use wolnut_webui.Common.Text.{codes_eq, is_space, within}
use wolnut_webui.Shutdown.Snapshot.{upper, push_word, split_from, split, has_token}

-- A letter, by its code: the upper case or the lower case of it.
abbrev pub IsLetter : ℕ → ℕ → Type 0
IsLetter l c = (c ≡ l) ⊎ (c ≡ l + 32)

-- The end of a text, or a space.
abbrev pub Ends : List ℕ → Type 0
Ends [] = Unit
Ends (c ∷ s) = is_space c ≡ true

-- The text starts with the one letter and ends after it, or goes on with a space.
abbrev pub StartsWith : ℕ → List ℕ → Type 0
StartsWith b [] = ⊥
StartsWith b (c ∷ s) = IsLetter b c × Ends s

-- The text starts with the word of the two letters.
abbrev pub Starts : ℕ → ℕ → List ℕ → Type 0
Starts a b [] = ⊥
Starts a b (c ∷ s) = IsLetter a c × StartsWith b s

-- The word of the two letters stands somewhere after a space.
abbrev pub Follows : ℕ → ℕ → List ℕ → Type 0
Follows a b [] = ⊥
Follows a b (c ∷ s) = ((is_space c ≡ true) × Starts a b s) ⊎ Follows a b s

abbrev pub HasWord : ℕ → ℕ → List ℕ → Type 0
HasWord a b s = Starts a b s ⊎ Follows a b s

abbrev IsUpper : ℕ → Type 0
IsUpper l = (65 ≤ l) × (l ≤ 90)

not_space : (x : ℕ) → 33 ≤ x → x ≤ 132 → is_space x ≡ false
unfolding is_space
not_space x low high = ground arith

space-upper : (c : ℕ) → is_space (upper c) ≡ is_space c
unfolding upper
space-upper c = elim (Bool-cases (within 97 122 c)) [
  | inl e ↦
      rw
        (
          e,
          not_space (c - 32) (ground arith) (ground arith),
          not_space c (ground arith) (ground arith),
        )
        refl
  | inr e ↦ rw e refl
]

IsLetter-upper : (l c : ℕ) → IsUpper l → (upper c ≡ l) ↔ IsLetter l c
unfolding upper
IsLetter-upper l c u = (ground arith, ground arith)

IsLetter-not_space : (l c : ℕ) → IsUpper l → IsLetter l c → is_space c ≡ false
IsLetter-not_space l c u h = not_space c (ground arith) (ground arith)

-- The first word of the text in upper case, which may be empty, and the words after it.
unfoldable first : List ℕ → List ℕ
first s = (split_from (map upper s)).0

unfoldable rest : List ℕ → List (List ℕ)
rest s = (split_from (map upper s)).1

first_nil : first [] ≡ []
unfolding first split_from
first_nil = refl

rest_nil : rest [] ≡ []
unfolding rest split_from
rest_nil = refl

module _ (c : ℕ) (s : List ℕ) where
  first_space : is_space c ≡ true → first (c ∷ s) ≡ []
  unfolding first split_from
  first_space h = ground (arith, space-upper c, h)

  first_letter : is_space c ≡ false → first (c ∷ s) ≡ upper c ∷ first s
  unfolding first split_from
  first_letter h = ground (arith, space-upper c, h)

  rest_space : is_space c ≡ true → rest (c ∷ s) ≡ push_word (first s) (rest s)
  unfolding first rest split_from
  rest_space h = ground (arith, space-upper c, h)

  rest_letter : is_space c ≡ false → rest (c ∷ s) ≡ rest s
  unfolding rest split_from
  rest_letter h = ground (arith, space-upper c, h)

none-Ends : (s : List ℕ) → (codes_eq [] (first s) ≡ true) ↔ Ends s
unfolding codes_eq
none-Ends [] = rw first_nil ((λ h. tt), (λ h. refl))
none-Ends (c ∷ s) = elim (Bool-cases (is_space c)) [
  | inl e ↦ rw (first_space c s e, e) ((λ h. refl), (λ h. refl))
  | inr e ↦ rw (first_letter c s e, e) ((λ h. cc), (λ h. cc))
]

one-StartsWith :
    (b : ℕ) → IsUpper b → (s : List ℕ) → (codes_eq (b ∷ []) (first s) ≡ true) ↔ StartsWith b s
unfolding codes_eq
one-StartsWith b u [] = rw first_nil ((λ h. cc), (λ h. absurd h))
one-StartsWith b u (c ∷ s) =
    let n = none-Ends s in
    let l = IsLetter-upper b c u in
    elim (Bool-cases (is_space c)) [
      | inl e ↦ rw (first_space c s e) ((λ h. cc), λ h. cc (IsLetter-not_space b c u h.0))
      | inr e ↦
          rw (first_letter c s e) (
            (λ h. (l.0 (ground arith), n.0 (ground arith))),
            (λ h. ground (arith, l.1 h.0, n.1 h.1)),
          )
    ]

two-Starts :
    (a b : ℕ)
    → IsUpper a
    → IsUpper b
    → (s : List ℕ) → (codes_eq (a ∷ b ∷ []) (first s) ≡ true) ↔ Starts a b s
unfolding codes_eq
two-Starts a b u v [] = rw first_nil ((λ h. cc), (λ h. absurd h))
two-Starts a b u v (c ∷ s) =
    let n = one-StartsWith b v s in
    let l = IsLetter-upper a c u in
    elim (Bool-cases (is_space c)) [
      | inl e ↦ rw (first_space c s e) ((λ h. cc), λ h. cc (IsLetter-not_space a c u h.0))
      | inr e ↦
          rw (first_letter c s e) (
            (λ h. (l.0 (ground arith), n.0 (ground arith))),
            (λ h. ground (arith, l.1 h.0, n.1 h.1)),
          )
    ]

has_token-push_word :
    (a b : ℕ) (w : List ℕ) (ws : List (List ℕ))
    → has_token (a ∷ b ∷ []) (push_word w ws)
      ≡ (codes_eq (a ∷ b ∷ []) w || has_token (a ∷ b ∷ []) ws)
unfolding has_token codes_eq
has_token-push_word a b [] ws = refl
has_token-push_word a b (c ∷ w) ws = refl

or_iff : {P Q : Type 0} (x y : Bool) → (x ≡ true) ↔ P → (y ≡ true) ↔ Q → ((x || y) ≡ true) ↔ (P ⊎ Q)
or_iff true y f g = ((λ h. inl (f.0 refl)), (λ h. refl))
or_iff false y f g =
    ((λ h. inr (g.0 h)), (λ h. elim h [ inl p ↦ absurd (ground (arith, f.1 p)) | inr q ↦ g.1 q ]))

split-first : (s : List ℕ) → split (map upper s) ≡ push_word (first s) (rest s)
unfolding split first rest
split-first s = ground arith

rest-Follows :
    (a b : ℕ)
    → IsUpper a
    → IsUpper b
    → (s : List ℕ) → (has_token (a ∷ b ∷ []) (rest s) ≡ true) ↔ Follows a b s
unfolding has_token
rest-Follows a b u v [] = rw rest_nil ((λ h. cc), (λ h. absurd h))
rest-Follows a b u v (c ∷ s) =
    let n = rest-Follows a b u v s in
    let l = two-Starts a b u v s in
    elim (Bool-cases (is_space c)) [
      | inl e ↦
          rw (rest_space c s e, has_token-push_word a b (first s) (rest s))
            (or_iff _ _ ((λ h. (e, l.0 h)), (λ h. l.1 h.1)) n)
      | inr e ↦
          rw (rest_letter c s e) ((λ h. inr (n.0 h)), λ h. elim h [ inl q ↦ cc | inr g ↦ n.1 g ])
    ]

-- A text has the token after upper() and split() exactly if it has the word.
pub has_token-HasWord :
    (a b : ℕ)
    → IsUpper a
    → IsUpper b
    → (s : List ℕ) → (has_token (a ∷ b ∷ []) (split (map upper s)) ≡ true) ↔ HasWord a b s
has_token-HasWord a b u v s =
    let n = rest-Follows a b u v s in
    let l = two-Starts a b u v s in
    rw (split-first s, has_token-push_word a b (first s) (rest s)) (or_iff _ _ l n)
