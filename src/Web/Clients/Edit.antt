-- ===== src/Web/Clients/Edit.antt =====
-- wolnut/web.py: an edit of a client's settings, and what it leaves alone.
use wolnut_webui.Common.{
  String, Bool, true, false, Option, none, some, List, [], ◌∷◌, ◌≡◌, ◌≢◌, refl, ap, ◌∙◌, Result, ok,
  err, inl, inr, Bool-cases, Result-cases, arith, eq_iff,
}
use wolnut_webui.Common.Dict.{Dict, lookup, lookup-insert}
use wolnut_webui.Common.Value.{
  Value, null, bool, int, neg, real, str, arr, obj, end, field, Items, entries, items, to_fields,
  to_items, is_text, entries-to_fields, items-to_items,
}
use mathlib.Core.Path.{subst}
use wolnut_webui.Agent.Pinned.{bind-ok}
use wolnut_webui.Web.{WebError}
use wolnut_webui.Web.Clients.{
  iterate, push_if, is_named, matches, only, find_client, replace_named, replace_client, child_of,
  put_child, edit_shutdown, edit_client,
}

is_text-eq : (v : Option Value) (a b : String) → is_text v a ≡ true → is_text v b ≡ true → a ≡ b
is_text-eq none a b f g = absurd (ground arith)
is_text-eq (some null) a b f g = absurd (ground arith)
is_text-eq (some (bool x)) a b f g = absurd (ground arith)
is_text-eq (some (int x)) a b f g = absurd (ground arith)
is_text-eq (some (neg x)) a b f g = absurd (ground arith)
is_text-eq (some (real x)) a b f g = absurd (ground arith)
is_text-eq (some (arr x)) a b f g = absurd (ground arith)
is_text-eq (some (obj x)) a b f g = absurd (ground arith)
is_text-eq (some (str s)) a b f g = ground (arith, eq_iff s a, eq_iff s b)

not_other :
    (name other : String) (v : Option Value)
    → name ≢ other
    → is_text v name ≡ true
    → is_text v other ≡ false
not_other name other v ne h = elim (Bool-cases (is_text v other)) [
  | inl e ↦ absurd (ne (is_text-eq v name other h e))
  | inr e ↦ e
]

abbrev as_result : Dict Value → List (Dict Value) → List (Dict Value)
as_result c [] = []
as_result c (d ∷ ds) = c ∷ as_result c ds

abbrev map_ok :
    Dict Value → Result WebError (List (Dict Value)) → Result WebError (List (Dict Value))
map_ok c (ok ds) = ok (as_result c ds)
map_ok c (err e) = err e

push_if-map_ok :
    (b : Bool) (c d e : Dict Value) (r : Result WebError (List (Dict Value)))
    → (b ≡ true → e ≡ c)
    → push_if b e (map_ok c r) ≡ map_ok c (push_if b d r)
push_if-map_ok true c d e (ok ds) same = rw (same refl) refl
push_if-map_ok true c d e (err x) same = refl
push_if-map_ok false c d e (ok ds) same = refl
push_if-map_ok false c d e (err x) same = refl

-- The clients of the name, after each is replaced.
matches-replace_named :
    (name : String) (c : Dict Value) (vs : List Value)
    → is_named name c ≡ true
    → matches name (replace_named name c vs) ≡ map_ok c (matches name vs)
unfolding matches replace_named
matches-replace_named name c [] n = refl
matches-replace_named name c (obj fs ∷ vs) n = elim (Bool-cases (is_named name (entries fs))) [
  | inl e ↦
      rw (e, entries-to_fields c, n, matches-replace_named name c vs n)
        (push_if-map_ok true c (entries fs) c (matches name vs) (λ h. refl))
  | inr e ↦
      rw (e, matches-replace_named name c vs n)
        (ap (λ b. push_if b (entries fs) (map_ok c (matches name vs))) e
          ∙ push_if-map_ok false c (entries fs) (entries fs) (matches name vs) (λ h. cc))
]
matches-replace_named name c (null ∷ vs) n = refl
matches-replace_named name c (bool x ∷ vs) n = refl
matches-replace_named name c (int x ∷ vs) n = refl
matches-replace_named name c (neg x ∷ vs) n = refl
matches-replace_named name c (real x ∷ vs) n = refl
matches-replace_named name c (str x ∷ vs) n = refl
matches-replace_named name c (arr x ∷ vs) n = refl

-- The clients of another name are the same.
matches-other :
    (name other : String) (c : Dict Value) (vs : List Value)
    → is_named name c ≡ true
    → name ≢ other
    → matches other (replace_named name c vs) ≡ matches other vs
unfolding matches replace_named
matches-other name other c [] n ne = refl
matches-other name other c (obj fs ∷ vs) n ne = elim (Bool-cases (is_named name (entries fs))) [
  | inl e ↦
      let a = not_other name other (lookup "name" (entries fs)) ne e in
      let b = not_other name other (lookup "name" c) ne n in
      rw (e, entries-to_fields c, a, b, matches-other name other c vs n ne) refl
  | inr e ↦
      rw e (
        ap (push_if (is_named other (entries fs)) (entries fs))
          (matches-other name other c vs n ne))
]
matches-other name other c (null ∷ vs) n ne = refl
matches-other name other c (bool x ∷ vs) n ne = refl
matches-other name other c (int x ∷ vs) n ne = refl
matches-other name other c (neg x ∷ vs) n ne = refl
matches-other name other c (real x ∷ vs) n ne = refl
matches-other name other c (str x ∷ vs) n ne = refl
matches-other name other c (arr x ∷ vs) n ne = refl

only-found :
    (name : String) (ds : List (Dict Value)) (c : Dict Value) → only name ds ≡ ok c → ds ≡ c ∷ []
only-found name [] c h = absurd (ground arith)
only-found name (d ∷ []) c h = ground arith
only-found name (d ∷ e ∷ ds) c h = absurd (ground arith)

-- A client that was found, as a list has it.
abbrev Has : String → List Value → Dict Value → Type 0
Has name vs c = matches name vs ≡ ok (c ∷ [])

matches-named :
    (name : String) (vs : List Value) (c : Dict Value) (ds : List (Dict Value))
    → matches name vs ≡ ok (c ∷ ds)
    → is_named name c ≡ true
unfolding matches
matches-named name [] c ds h = absurd (ground arith)
matches-named name (obj fs ∷ vs) c ds h = elim (Bool-cases (is_named name (entries fs))) [
  | inl e ↦ elim (Result-cases (matches name vs)) [
    | inl (xs, f) ↦ let same : entries fs ≡ c = ground arith in rw same at e
    | inr (x, f) ↦ absurd (ground arith)
  ]
  | inr e ↦ elim (Result-cases (matches name vs)) [
    | inl (xs, f) ↦ matches-named name vs c ds (ground arith)
    | inr (x, f) ↦ absurd (ground arith)
  ]
]
matches-named name (null ∷ vs) c ds h = absurd (ground arith)
matches-named name (bool x ∷ vs) c ds h = absurd (ground arith)
matches-named name (int x ∷ vs) c ds h = absurd (ground arith)
matches-named name (neg x ∷ vs) c ds h = absurd (ground arith)
matches-named name (real x ∷ vs) c ds h = absurd (ground arith)
matches-named name (str x ∷ vs) c ds h = absurd (ground arith)
matches-named name (arr x ∷ vs) c ds h = absurd (ground arith)

find_client_lem :
    (name : String) (raw c : Dict Value)
    → find_client name raw ≡ ok c
    → (vs : List Value) × (iterate (lookup "clients" raw) ≡ ok vs) × Has name vs c
unfolding find_client
find_client_lem name raw c h =
    let (vs, e, f) = bind-ok (iterate (lookup "clients" raw)) _ h in
    let (ds, g, k) = bind-ok (matches name vs) _ f in (vs, e, rw (only-found name ds c k) at g)

-- Where a client is found, the clients are a list.
iterate-arr :
    (o : Option Value) (v : Value) (vs : List Value)
    → iterate o ≡ ok (v ∷ vs)
    → (ws : Items) × (o ≡ some (arr ws)) × (items ws ≡ v ∷ vs)
iterate-arr none v vs h = absurd (ground arith)
iterate-arr (some null) v vs h = absurd (ground arith)
iterate-arr (some (bool x)) v vs h = absurd (ground arith)
iterate-arr (some (int x)) v vs h = absurd (ground arith)
iterate-arr (some (neg x)) v vs h = absurd (ground arith)
iterate-arr (some (real x)) v vs h = absurd (ground arith)
iterate-arr (some (str x)) v vs h = absurd (ground arith)
iterate-arr (some (arr ws)) v vs h = (ws, refl, ground arith)
iterate-arr (some (obj end)) v vs h = absurd (ground arith)
iterate-arr (some (obj (field k w fs))) v vs h = absurd (ground arith)

find_client-arr :
    (name : String) (raw c : Dict Value)
    → find_client name raw ≡ ok c
    → (ws : Items) × (lookup "clients" raw ≡ some (arr ws)) × Has name (items ws) c
unfolding matches
find_client-arr name raw c h = arr_of (find_client_lem name raw c h)
  where
    arr_of :
        (vs : List Value) × (iterate (lookup "clients" raw) ≡ ok vs) × Has name vs c
        → (ws : Items) × (lookup "clients" raw ≡ some (arr ws)) × Has name (items ws) c
    arr_of ([], e, f) = absurd (ground arith)
    arr_of (v ∷ vs, e, f) =
        let (ws, g, same) = iterate-arr (lookup "clients" raw) v vs e in (ws, g, rw same f)

-- After a client is replaced by one of its name, it is found, and what is found by other names is the same.
pub find_client-replace_client :
    (name : String) (raw c c' : Dict Value)
    → find_client name raw ≡ ok c
    → is_named name c' ≡ true
    → (find_client name (replace_client name c' raw) ≡ ok c')
      × ((other : String)
          → name ≢ other
          → find_client other (replace_client name c' raw) ≡ find_client other raw)
unfolding find_client replace_client
find_client-replace_client name raw c c' h n =
    let (ws, e, f) = find_client-arr name raw c h in
    let new = arr (to_items (replace_named name c' (items ws))) in
    let there = lookup-insert "clients" "clients" new raw in
    (
      rw
          (
            e,
            there,
            items-to_items (replace_named name c' (items ws)),
            matches-replace_named name c' (items ws) n,
            f,
          )
          refl,
      λ other ne.
          rw
            (
              e,
              there,
              items-to_items (replace_named name c' (items ws)),
              matches-other name other c' (items ws) n ne,
            )
            refl,
    )

ok-eq {ℓ} : {A : Type ℓ} {x y : A} → ◌≡◌ {A = Result WebError A} (ok x) (ok y) → x ≡ y
ok-eq e = ground arith

is_named-put_child :
    (name : String) (c written : Dict Value)
    → is_named name c ≡ true
    → is_named name (put_child "shutdown" written c) ≡ true
is_named-put_child name c written h =
    rw (lookup-insert "shutdown" "name" (obj (to_fields written)) c) h

-- The parts of an edit that returned: the client and its settings, before and after.
pub record IsEdit (name : String) (f : Dict Value → Result WebError (Dict Value))
    (raw d : Dict Value) : Type 0 where
  pub client : Dict Value
  pub settings : Dict Value
  pub changed : Dict Value
  pub found : find_client name raw ≡ ok client
  pub was : child_of (lookup "shutdown" client) ≡ ok settings
  pub becomes : f settings ≡ ok changed
  pub finds : find_client name d ≡ ok (put_child "shutdown" changed client)
  pub others : (other : String) → name ≢ other → find_client other d ≡ find_client other raw
  pub keys : (key : String) → "clients" ≢ key → lookup key d ≡ lookup key raw

replace_client-other :
    (name : String) (raw c : Dict Value) (ws : Items) (key : String)
    → lookup "clients" raw ≡ some (arr ws)
    → "clients" ≢ key
    → lookup key (replace_client name c raw) ≡ lookup key raw
unfolding replace_client
replace_client-other name raw c ws key e ne =
    let new = arr (to_items (replace_named name c (items ws))) in
    ground (arith, e, lookup-insert "clients" key new raw, eq_iff "clients" key)

edit_shutdown_lem :
    (f : Dict Value → Result WebError (Dict Value)) (c c' : Dict Value)
    → edit_shutdown f c ≡ ok c'
    → (settings : Dict Value) × (changed : Dict Value) × (child_of (lookup "shutdown" c)
        ≡ ok settings)
      × (f settings ≡ ok changed)
      × (put_child "shutdown" changed c ≡ c')
unfolding edit_shutdown
edit_shutdown_lem f c c' h =
    let (settings, e3, f3) = bind-ok (child_of (lookup "shutdown" c)) _ h in
    let (changed, e4, f4) = bind-ok (f settings) _ f3 in (settings, changed, e3, e4, ok-eq f4)

replaced-IsEdit :
    (name : String) (f : Dict Value → Result WebError (Dict Value))
    (raw c settings changed : Dict Value)
    → find_client name raw ≡ ok c
    → child_of (lookup "shutdown" c) ≡ ok settings
    → f settings ≡ ok changed
    → IsEdit name f raw (replace_client name (put_child "shutdown" changed c) raw)
replaced-IsEdit name f raw c settings changed e g k =
    let (ws, e5, has) = find_client-arr name raw c e in
    let named = is_named-put_child name c changed (matches-named name (items ws) c [] has) in
    let (new, old) =
      find_client-replace_client name raw c (put_child "shutdown" changed c) e named in
    record {
      client = c;
      settings = settings;
      changed = changed;
      found = e;
      was = g;
      becomes = k;
      finds = new;
      others = old;
      keys = λ key ne. replace_client-other name raw (put_child "shutdown" changed c) ws key e5 ne;
    }

-- An edit that returned: the client's settings are what `f` made of them, the rest of the client is as it
-- was, and so is every other client.
pub edit_client-IsEdit :
    (name : String) (f : Dict Value → Result WebError (Dict Value)) (raw d : Dict Value)
    → edit_client name f raw ≡ ok d
    → IsEdit name f raw d
unfolding edit_client
edit_client-IsEdit name f raw d h =
    let (c, e1, f1) = bind-ok (find_client name raw) _ h in
    let (c', e2, f2) = bind-ok (edit_shutdown f c) _ f1 in
    let (settings, changed, g, k, same) = edit_shutdown_lem f c c' e2 in
    subst (IsEdit name f raw) (ap (λ x. replace_client name x raw) same ∙ ok-eq f2)
      (replaced-IsEdit name f raw c settings changed e1 g k)

-- A shutdown setting of the one client of the name.
unfoldable pub setting : String → String → Dict Value → Option Value
setting name key raw = elim (find_client name raw) [
  | err e ↦ none
  | ok c ↦ elim (child_of (lookup "shutdown" c)) [
    | err e ↦ none
    | ok settings ↦ lookup key settings
  ]
]

module _ {name : String} {f : Dict Value → Result WebError (Dict Value)} {raw d : Dict Value}
    (e : IsEdit name f raw d) where
  pub setting-settings : (key : String) → setting name key raw ≡ lookup key e.settings
  unfolding setting
  setting-settings key = ground (arith, e.found, e.was)

  pub setting-changed : (key : String) → setting name key d ≡ lookup key e.changed
  unfolding setting
  setting-changed key = ground (
    arith,
    e.finds,
    lookup-insert "shutdown" "shutdown" (obj (to_fields e.changed)) e.client,
    entries-to_fields e.changed,
  )

-- What is the same in two configurations: all but the clients, each client of another name, and all of the
-- client of the name but its shutdown settings.
pub record IsFrame (name : String) (raw d : Dict Value) : Type 0 where
  pub client : Dict Value
  pub changed : Dict Value
  pub found : find_client name raw ≡ ok client
  pub finds : find_client name d ≡ ok changed
  pub entries : (key : String) → "shutdown" ≢ key → lookup key changed ≡ lookup key client
  pub others : (other : String) → name ≢ other → find_client other d ≡ find_client other raw
  pub keys : (key : String) → "clients" ≢ key → lookup key d ≡ lookup key raw

pub edit-IsFrame :
    {name : String} {f : Dict Value → Result WebError (Dict Value)} {raw d : Dict Value}
    → IsEdit name f raw d
    → IsFrame name raw d
edit-IsFrame e = record {
  client = e.client;
  changed = put_child "shutdown" e.changed e.client;
  found = e.found;
  finds = e.finds;
  entries = λ key ne. ground (
    arith,
    lookup-insert "shutdown" key (obj (to_fields e.changed)) e.client,
    eq_iff "shutdown" key,
  );
  others = e.others;
  keys = e.keys;
}
