-- ===== src/Web/Settings/Pairings.antt =====
-- wolnut/web.py: what the settings page cannot do to the clients that are paired.
use wolnut_webui.Common.{
  String, true, some, List, [], ◌∷◌, ◌≡◌, sym, Result, ok, arith, inl, inr, ◌↔◌, eq_iff, str_eq,
  is_some, Result-cases, Option-cases, ◌∙◌, ap, get_or, Bool-cases, truthy,
}
use wolnut_webui.Common.Dict.{Dict, lookup, contains, contains-lookup}
use wolnut_webui.Common.Value.{Value, null, str, is_true}
use mathlib.Core.Path.{subst}
use wolnut_webui.Web.{WebError}
use wolnut_webui.Web.Settings.{
  value_eq, NormalizedShutdown, normalized_shutdown, by_name, check_clients, check_removed,
}
use wolnut_webui.Web.Settings.Checks.{
  agent_of, IsChecked, value_eq-str_left, value_eq-str_right, submitted-IsChecked,
}

-- A client that had an agent is submitted.
removed-contains :
    (news olds : Dict (Dict Value)) (name : String) (old : Dict Value) (n : NormalizedShutdown)
    → check_removed news olds ≡ ok tt
    → lookup name olds ≡ some old
    → normalized_shutdown old ≡ ok n
    → is_true n.agent_id ≡ true
    → contains name news ≡ true
unfolding check_removed lookup
removed-contains news [] name old n h f g t = absurd (ground arith)
removed-contains news ((k, p) ∷ rest) name old n h f g t = elim (Bool-cases (contains k news)) [
  | inl there ↦ elim (Bool-cases (str_eq k name)) [
    | inl e ↦
        let same : k ≡ name = ground (arith, eq_iff k name) in
        subst (λ x. contains x news ≡ true) same there
    | inr e ↦ removed-contains news rest name old n (ground arith) (ground arith) g t
  ]
  | inr gone ↦ elim (Result-cases (normalized_shutdown p)) [
    | inr (x, e) ↦ absurd (ground arith)
    | inl (m, e) ↦ elim (Bool-cases (str_eq k name)) [
      | inl q ↦
          let same : p ≡ old = ground arith in
          let eq : ◌≡◌ {A = Result WebError NormalizedShutdown} (ok m) (ok n) =
            sym e ∙ ap normalized_shutdown same ∙ g in
          absurd (ground arith)
      | inr q ↦ removed-contains news rest name old n (ground arith) (ground arith) g t
    ]
  ]
]

agent_of-some :
    (name : String) (d : Dict (Dict Value)) (v : Value)
    → agent_of name d ≡ some v
    → (c : Dict Value) × (n : NormalizedShutdown) × (lookup name d ≡ some c)
      × (normalized_shutdown c ≡ ok n)
      × (n.agent_id ≡ v)
unfolding agent_of
agent_of-some name d v h = elim (Option-cases (lookup name d)) [
  | inl e ↦ absurd (ground arith)
  | inr (c, e) ↦ elim (Result-cases (normalized_shutdown c)) [
    | inl (n, f) ↦ (c, n, e, f, ground arith)
    | inr (x, f) ↦ absurd (ground arith)
  ]
]

some-agent_of :
    (name : String) (d : Dict (Dict Value)) (c : Dict Value) (n : NormalizedShutdown)
    → lookup name d ≡ some c
    → normalized_shutdown c ≡ ok n
    → agent_of name d ≡ some n.agent_id
unfolding agent_of
some-agent_of name d c n e f = ground arith

nothing-unpaired : (n : NormalizedShutdown) → normalized_shutdown [] ≡ ok n → n.agent_id ≡ null
unfolding normalized_shutdown lookup
nothing-unpaired n h = ground arith

ok-same :
    (m n : NormalizedShutdown) → ◌≡◌ {A = Result WebError NormalizedShutdown} (ok m) (ok n) → m ≡ n
ok-same m n e = ground arith

before-found :
    (olds : Dict (Dict Value)) (name : String) (old : Dict Value) (n before : NormalizedShutdown)
    → lookup name olds ≡ some old
    → normalized_shutdown old ≡ ok n
    → normalized_shutdown (get_or (lookup name olds) []) ≡ ok before
    → before ≡ n
before-found olds name old n before e f h =
    ok-same before n (sym (subst (λ o. normalized_shutdown (get_or o []) ≡ ok before) e h) ∙ f)

-- The clients with agents are the same ones, with the same agents, and other shutdown settings changed
-- only for an administrator.
abbrev pub KeepsPairings :
    Result WebError (Unit {0}) → Dict (Dict Value) → Dict (Dict Value) → Type 0
KeepsPairings admin olds news =
    ((name id : String)
      → truthy id ≡ true
      → (agent_of name olds ≡ some (str id)) ↔ (agent_of name news ≡ some (str id)))
    × ((name : String) (c : Dict Value) → lookup name news ≡ some c → IsChecked admin olds name c)

module _ (admin : Result WebError (Unit {0})) (olds news : Dict (Dict Value)) (ws : List Value)
    (named : by_name ws [] ≡ ok news) (checked : check_clients admin olds ws ≡ ok tt)
    (removed : check_removed news olds ≡ ok tt) where
  new-IsChecked :
      (name : String) (c : Dict Value) → lookup name news ≡ some c → IsChecked admin olds name c
  unfolding lookup
  new-IsChecked name c f = elim (submitted-IsChecked admin olds [] news ws name c named checked f) [
    | inl e ↦ absurd (ground arith)
    | inr e ↦ e
  ]

  -- A client with an agent is among the submitted ones, with this agent.
  kept-agent :
      (name id : String)
      → truthy id ≡ true
      → agent_of name olds ≡ some (str id)
      → agent_of name news ≡ some (str id)
  kept-agent name id t h =
      let (old, n, e, f, a) = agent_of-some name olds (str id) h in
      let there = removed-contains news olds name old n removed e f (rw a t) in
      let present : is_some (lookup name news) ≡ true = sym (contains-lookup name news) ∙ there in
      elim (Option-cases (lookup name news)) [
        | inl gone ↦ absurd (ground arith)
        | inr (c, g) ↦
            let i = new-IsChecked name c g in
            let was = before-found olds name old n i.before e f i.was in
            let before : i.before.agent_id ≡ str id = ap (λ x. x.agent_id) was ∙ a in
            let after =
              value_eq-str_right id i.after.agent_id
                (subst (λ v. value_eq i.after.agent_id v ≡ true) before i.agent) in
            some-agent_of name news c i.after g i.becomes ∙ ap (λ v. some v) after
      ]

  -- A submitted client with an agent had it.
  had-agent :
      (name id : String) → agent_of name news ≡ some (str id) → agent_of name olds ≡ some (str id)
  had-agent name id h =
      let (c, n, g, f, a) = agent_of-some name news (str id) h in
      let i = new-IsChecked name c g in
      let same : i.after ≡ n = ok-same i.after n (sym i.becomes ∙ f) in
      let after : i.after.agent_id ≡ str id = ap (λ x. x.agent_id) same ∙ a in
      let before =
        value_eq-str_left id i.before.agent_id
          (subst (λ v. value_eq v i.before.agent_id ≡ true) after i.agent) in
      elim (Option-cases (lookup name olds)) [
        | inl gone ↦
            let empty =
              nothing-unpaired i.before
                (subst (λ o. normalized_shutdown (get_or o []) ≡ ok i.before) gone i.was) in
            absurd (ground arith)
        | inr (old, e) ↦
            some-agent_of name olds old i.before e
              (subst (λ o. normalized_shutdown (get_or o []) ≡ ok i.before) e i.was)
            ∙ ap (λ v. some v) before
      ]

  pub pairings-KeepsPairings : KeepsPairings admin olds news
  pairings-KeepsPairings = (λ name id t. (kept-agent name id t, had-agent name id), new-IsChecked)
