-- ===== src/Web/Settings/Checks.antt =====
-- wolnut/web.py: what the checks of `put_config` say of the submitted clients.
use wolnut_webui.Common.{
  String, true, Option, none, some, List, [], ◌∷◌, ◌≡◌, Result, ok, err, arith, inl, inr, ◌⊎◌,
  eq_iff, str_eq, get_or, Bool-cases,
}
use wolnut_webui.Common.Dict.{Dict, lookup, insert, lookup-insert}
use wolnut_webui.Common.Value.{Value, null, bool, int, neg, real, str, arr, obj}
use wolnut_webui.Agent.Pinned.{bind-ok}
use mathlib.Core.Path.{subst}
use wolnut_webui.Web.{WebError}
use wolnut_webui.Web.Store.{dict_of}
use wolnut_webui.Web.Clients.{iterate}
use wolnut_webui.Web.Settings.{
  value_eq, NormalizedShutdown, normalized_shutdown, same_shutdown, name_of, check_submitted,
  check_client, by_name, check_clients, check_removed, persist_config,
}

-- The parts of a `persist_config` that returned.
pub persist_config_lem :
    (admin : Result WebError (Unit {0})) (raw current d : Dict Value)
    → persist_config admin raw current ≡ ok d
    → (vs : List Value) × (olds : Dict (Dict Value)) × (ws : List Value) × (news : Dict
        (Dict Value))
      × (iterate (lookup "clients" current) ≡ ok vs)
      × (by_name vs [] ≡ ok olds)
      × (iterate (lookup "clients" raw) ≡ ok ws)
      × (by_name ws [] ≡ ok news)
      × (check_clients admin olds ws ≡ ok tt)
      × (check_removed news olds ≡ ok tt)
      × (raw ≡ d)
unfolding persist_config
persist_config_lem admin raw current d h =
    let (vs, e1, f1) = bind-ok (iterate (lookup "clients" current)) _ h in
    let (olds, e2, f2) = bind-ok (by_name vs []) _ f1 in
    let (ws, e3, f3) = bind-ok (iterate (lookup "clients" raw)) _ f2 in
    let (news, e4, f4) = bind-ok (by_name ws []) _ f3 in
    let (u, e5, f5) = bind-ok (check_clients admin olds ws) _ f4 in
    let (v, e6, f6) = bind-ok (check_removed news olds) _ f5 in
    (vs, olds, ws, news, e1, e2, e3, e4, e5, e6, ground arith)

-- The agent's id of a client in a dictionary by name, with its default.
unfoldable pub agent_of : String → Dict (Dict Value) → Option Value
agent_of name d = elim (lookup name d) [
  | none ↦ none
  | some c ↦ elim (normalized_shutdown c) [ err e ↦ none | ok n ↦ some n.agent_id ]
]

pub value_eq-str_left : (t : String) (v : Value) → value_eq (str t) v ≡ true → v ≡ str t
unfolding value_eq
value_eq-str_left t (str u) h = ground (arith, eq_iff t u)
value_eq-str_left t null h = absurd (ground arith)
value_eq-str_left t (bool x) h = absurd (ground arith)
value_eq-str_left t (int x) h = absurd (ground arith)
value_eq-str_left t (neg x) h = absurd (ground arith)
value_eq-str_left t (real x) h = absurd (ground arith)
value_eq-str_left t (arr x) h = absurd (ground arith)
value_eq-str_left t (obj x) h = absurd (ground arith)

pub value_eq-str_right : (t : String) (v : Value) → value_eq v (str t) ≡ true → v ≡ str t
unfolding value_eq
value_eq-str_right t (str u) h = ground (arith, eq_iff u t)
value_eq-str_right t null h = absurd (ground arith)
value_eq-str_right t (bool x) h = absurd (ground arith)
value_eq-str_right t (int x) h = absurd (ground arith)
value_eq-str_right t (neg x) h = absurd (ground arith)
value_eq-str_right t (real x) h = absurd (ground arith)
value_eq-str_right t (arr x) h = absurd (ground arith)
value_eq-str_right t (obj x) h = absurd (ground arith)

-- What the checks of a submitted client say of it.
pub record IsChecked (admin : Result WebError (Unit {0})) (olds : Dict (Dict Value)) (name : String)
    (c : Dict Value) : Type 0 where
  pub before : NormalizedShutdown
  pub after : NormalizedShutdown
  pub was : normalized_shutdown (get_or (lookup name olds) []) ≡ ok before
  pub becomes : normalized_shutdown c ≡ ok after
  pub agent : value_eq after.agent_id before.agent_id ≡ true
  pub updates : value_eq after.auto_update before.auto_update ≡ true
  pub rest : (same_shutdown after before ≡ true) ⊎ (admin ≡ ok tt)

check_submitted_lem :
    (admin : Result WebError (Unit {0})) (before after : NormalizedShutdown)
    → check_submitted admin before after ≡ ok tt
    → (value_eq after.agent_id before.agent_id ≡ true)
      × (value_eq after.auto_update before.auto_update ≡ true)
      × ((same_shutdown after before ≡ true) ⊎ (admin ≡ ok tt))
unfolding check_submitted
check_submitted_lem admin before after h = elim (Bool-cases (same_shutdown after before)) [
  | inl e ↦ (ground arith, ground arith, inl e)
  | inr e ↦ (ground arith, ground arith, inr (ground arith))
]

name_of-eq : (v : Option Value) (name : String) → name_of v ≡ ok name → v ≡ some (str name)
name_of-eq none name h = absurd (ground arith)
name_of-eq (some (str s)) name h = ground arith
name_of-eq (some null) name h = absurd (ground arith)
name_of-eq (some (bool x)) name h = absurd (ground arith)
name_of-eq (some (int x)) name h = absurd (ground arith)
name_of-eq (some (neg x)) name h = absurd (ground arith)
name_of-eq (some (real x)) name h = absurd (ground arith)
name_of-eq (some (arr x)) name h = absurd (ground arith)
name_of-eq (some (obj x)) name h = absurd (ground arith)

check_client-IsChecked :
    (admin : Result WebError (Unit {0})) (olds : Dict (Dict Value)) (c : Dict Value) (name : String)
    → name_of (lookup "name" c) ≡ ok name
    → check_client admin olds c ≡ ok tt
    → IsChecked admin olds name c
unfolding check_client
check_client-IsChecked admin olds c name n h =
    let (name', e1, h1) = bind-ok (name_of (lookup "name" c)) _ h in
    let (before, e2, h2) = bind-ok (normalized_shutdown (get_or (lookup name' olds) [])) _ h1 in
    let (after, e3, h3) = bind-ok (normalized_shutdown c) _ h2 in
    let same : name' ≡ name = ground arith in
    let (agent, updates, rest) = check_submitted_lem admin before after h3 in
    record {
      before = before;
      after = after;
      was = subst (λ k. normalized_shutdown (get_or (lookup k olds) []) ≡ ok before) same e2;
      becomes = e3;
      agent = agent;
      updates = updates;
      rest = rest;
    }

inserted :
    (k name : String) (v : Dict Value) (d : Dict (Dict Value)) (c : Dict Value)
    → lookup name (insert k v d) ≡ some c
    → ((k ≡ name) × (v ≡ c)) ⊎ (lookup name d ≡ some c)
inserted k name v d c h = elim (Bool-cases (str_eq k name)) [
  | inl e ↦ inl (ground (arith, eq_iff k name), ground (arith, lookup-insert k name v d))
  | inr e ↦ inr (ground (arith, lookup-insert k name v d))
]

-- Every submitted client was checked.
pub submitted-IsChecked :
    (admin : Result WebError (Unit {0})) (olds d news : Dict (Dict Value)) (ws : List Value)
    (name : String) (c : Dict Value)
    → by_name ws d ≡ ok news
    → check_clients admin olds ws ≡ ok tt
    → lookup name news ≡ some c
    → (lookup name d ≡ some c) ⊎ IsChecked admin olds name c
unfolding by_name check_clients
submitted-IsChecked admin olds d news [] name c e h f = inl (ground arith)
submitted-IsChecked admin olds d news (w ∷ ws) name c e h f =
    let (v, e1, f1) = bind-ok (dict_of w) _ e in
    let (k, e2, f2) = bind-ok (name_of (lookup "name" v)) _ f1 in
    let (v', g1, h1) = bind-ok (dict_of w) _ h in
    let (u, g2, h2) = bind-ok (check_client admin olds v') _ h1 in
    let same : v' ≡ v = ground arith in
    elim (submitted-IsChecked admin olds (insert k v d) news ws name c f2 h2 f) [
      | inr checked ↦ inr checked
      | inl there ↦ elim (inserted k name v d c there) [
        | inl (named, is) ↦ inr (
            subst (λ x. IsChecked admin olds name x) is
              (subst (λ x. IsChecked admin olds x v) named
                (check_client-IsChecked admin olds v k e2
                  (subst (λ x. check_client admin olds x ≡ ok tt) same g2))))
        | inr before ↦ inl before
      ]
    ]
