-- ===== src/Config/Accepted.antt =====
-- wolnut/config.py: what a file that `validate_config` accepts is like.
use wolnut_webui.Common.{
  ℕ, ◌+◌, String, Bool, true, false, Option, none, some, List, [], ◌∷◌, ◌≡◌, ◌⊎◌, refl, inl, inr,
  truthy, str_in, ok, ◌>>◌, arith, eq_iff, Bool-cases, sym,
}
use wolnut_webui.Common.Text.{strip}
use wolnut_webui.Common.Dict.{Dict, lookup, contains}
use wolnut_webui.Common.Value.{
  Value, null, bool, int, neg, real, str, arr, obj, Fields, Items, entries, items,
}
use wolnut_webui.Agent.Pinned.{bind-ok}
use wolnut_webui.Config.Validate.{validate_mac_format, flag_or, shutdown_of, validate_shutdown_of}
use wolnut_webui.Config.Clients.{
  check_name, check_mac, check_fields, check_required, client_name, is_new, finish_client,
  check_ups, validate_client, validate_value, validate_clients, check_clients, validate_config,
}
use wolnut_webui.Config.Limits.{then-ok, guard-true, IsShutdown, validate_shutdown-IsShutdown}

-- A client's dictionary: a name that is not blank, a host, where it is to be woken a MAC address or
-- "auto", and shutdown settings in order.
pub record IsClient (name : String) (d : Dict Value) : Type 0 where
  named : lookup "name" d ≡ some (str name)
  not_blank : truthy (strip name) ≡ true
  host : contains "host" d ≡ true
  mac :
      flag_or true (lookup "wake_enabled" d) ≡ true
      → (mac : String) × (lookup "mac" d ≡ some (str mac))
        × ((mac ≡ "auto") ⊎ (validate_mac_format mac ≡ true))
  shutdown : (s : Dict Value) × (shutdown_of (lookup "shutdown" d) ≡ some s) × IsShutdown s

check_name_lem :
    (i : ℕ) (o : Option Value) (name : String)
    → check_name i o ≡ ok name
    → (o ≡ some (str name)) × (truthy (strip name) ≡ true)
unfolding check_name
check_name_lem i none name h = absurd (ground arith)
check_name_lem i (some null) name h = absurd (ground arith)
check_name_lem i (some (bool b)) name h = absurd (ground arith)
check_name_lem i (some (int n)) name h = absurd (ground arith)
check_name_lem i (some (neg n)) name h = absurd (ground arith)
check_name_lem i (some (real r)) name h = absurd (ground arith)
check_name_lem i (some (arr vs)) name h = absurd (ground arith)
check_name_lem i (some (obj fs)) name h = absurd (ground arith)
check_name_lem i (some (str s)) name h = elim (Bool-cases (truthy (strip s))) [
  | inl e ↦ let q : s ≡ name = ground arith in rw (sym q) (refl, e)
  | inr e ↦ absurd (ground arith)
]

check_mac_lem :
    (name : String) (wake : Bool) (o : Option Value)
    → check_mac name wake o ≡ ok tt
    → wake ≡ true
    → (mac : String) × (o ≡ some (str mac)) × ((mac ≡ "auto") ⊎ (validate_mac_format mac ≡ true))
unfolding check_mac
check_mac_lem name true none h e = absurd (ground arith)
check_mac_lem name false none h e = absurd (ground arith)
check_mac_lem name wake (some null) h e = absurd (ground arith)
check_mac_lem name wake (some (bool b)) h e = absurd (ground arith)
check_mac_lem name wake (some (int n)) h e = absurd (ground arith)
check_mac_lem name wake (some (neg n)) h e = absurd (ground arith)
check_mac_lem name wake (some (real r)) h e = absurd (ground arith)
check_mac_lem name wake (some (arr vs)) h e = absurd (ground arith)
check_mac_lem name wake (some (obj fs)) h e = absurd (ground arith)
check_mac_lem name wake (some (str mac)) h e =
    let passed = guard-true _ _ h in (mac, refl, ground (arith, eq_iff mac "auto"))

validate_shutdown_of_lem :
    (name : String) (o : Option (Dict Value))
    → validate_shutdown_of name o ≡ ok tt
    → (s : Dict Value) × (o ≡ some s) × IsShutdown s
unfolding validate_shutdown_of
validate_shutdown_of_lem name none h = absurd (ground arith)
validate_shutdown_of_lem name (some s) h = (s, refl, validate_shutdown-IsShutdown name s h)

check_fields_lem :
    (name : String) (d : Dict Value)
    → check_fields name d ≡ ok tt
    → (check_mac name (flag_or true (lookup "wake_enabled" d)) (lookup "mac" d) ≡ ok tt)
      × (validate_shutdown_of name (shutdown_of (lookup "shutdown" d)) ≡ ok tt)
unfolding check_fields
check_fields_lem name d h =
    let (a, x5) = then-ok _ _ h in
    let (b, x4) = then-ok _ _ a in
    let (c, x3) = then-ok _ _ b in let (e, x2) = then-ok _ _ c in (x2, x5)

-- The dictionaries of clients, with names apart from the given ones and from each other.
abbrev pub AreClients : List String → List Value → Type 0
AreClients names [] = Unit
AreClients names (v ∷ vs) =
    (name : String) × (d : Fields) × (v ≡ obj d)
    × (str_in name names ≡ false)
    × IsClient name (entries d)
    × AreClients (name ∷ names) vs

module _ (str_value : Value → String) where
  check_required_lem :
      (i : ℕ) (d : Dict Value) → check_required str_value i d ≡ ok tt → contains "host" d ≡ true
  unfolding check_required
  check_required_lem i d h = let (a, b) = then-ok _ _ h in guard-true _ _ b

  client_name_lem :
      (i : ℕ) (d : Dict Value) (name : String)
      → client_name str_value i d ≡ ok name
      → (contains "host" d ≡ true)
        × (lookup "name" d ≡ some (str name))
        × (truthy (strip name) ≡ true)
  unfolding client_name
  client_name_lem i d name h =
      let (u, e, f) =
        bind-ok (check_required str_value i d) (λ _. check_name i (lookup "name" d)) h in
      let (named, blank) = check_name_lem i (lookup "name" d) name f in
      (check_required_lem i d e, named, blank)

  finish_client_lem :
      (names : List String) (d : Dict Value) (name other : String)
      → finish_client str_value names d name ≡ ok other
      → (other ≡ name) × (str_in name names ≡ false) × (check_fields name d ≡ ok tt)
  unfolding finish_client
  finish_client_lem names d name other h =
      let (u, e, f) =
        bind-ok (is_new str_value names name >> check_fields name d) (λ _. ok name) h in
      let (x, y) = then-ok (is_new str_value names name) (check_fields name d) e in
      let fresh = guard-true _ _ x in (ground arith, ground arith, y)

  validate_client_lem :
      (i : ℕ) (names : List String) (d : Dict Value) (name : String)
      → validate_client str_value i names d ≡ ok name
      → (str_in name names ≡ false) × IsClient name d
  unfolding validate_client
  validate_client_lem i names d name h =
      let (n, e, f) =
        bind-ok (client_name str_value i d) (λ n. finish_client str_value names d n) h in
      let (host, named, blank) = client_name_lem i d n e in
      let (same, fresh, checked) = finish_client_lem names d n name f in
      let (mac, shutdown) = check_fields_lem n d checked in
      rw same (
        fresh,
        record {
          named = named;
          not_blank = blank;
          host = host;
          mac = check_mac_lem n _ _ mac;
          shutdown = validate_shutdown_of_lem n _ shutdown;
        },
      )

  validate_value_lem :
      (i : ℕ) (names : List String) (v : Value) (name : String)
      → validate_value str_value i names v ≡ ok name
      → (d : Fields) × (v ≡ obj d) × (str_in name names ≡ false) × IsClient name (entries d)
  unfolding validate_value
  validate_value_lem i names null name h = absurd (ground arith)
  validate_value_lem i names (bool b) name h = absurd (ground arith)
  validate_value_lem i names (int n) name h = absurd (ground arith)
  validate_value_lem i names (neg n) name h = absurd (ground arith)
  validate_value_lem i names (real r) name h = absurd (ground arith)
  validate_value_lem i names (str s) name h = absurd (ground arith)
  validate_value_lem i names (arr vs) name h = absurd (ground arith)
  validate_value_lem i names (obj fs) name h =
      let (fresh, client) = validate_client_lem i names (entries fs) name h in
      (fs, refl, fresh, client)

  validate_clients-AreClients :
      (i : ℕ) (names : List String) (vs : List Value)
      → validate_clients str_value i names vs ≡ ok tt
      → AreClients names vs
  unfolding validate_clients
  validate_clients-AreClients i names [] h = tt
  validate_clients-AreClients i names (v ∷ vs) h =
      let (name, e, f) =
        bind-ok (validate_value str_value i names v)
          (λ n. validate_clients str_value (i + 1) (n ∷ names) vs) h in
      let (d, same, fresh, client) = validate_value_lem i names v name e in
      (name, d, same, fresh, client, validate_clients-AreClients (i + 1) (name ∷ names) vs f)

  check_clients_lem :
      (o nut : Option Value)
      → check_clients str_value o nut ≡ ok tt
      → (vs : Items) × (o ≡ some (arr vs)) × AreClients [] (items vs)
  unfolding check_clients
  check_clients_lem none nut h = absurd (ground arith)
  check_clients_lem (some null) nut h = absurd (ground arith)
  check_clients_lem (some (bool b)) nut h = absurd (ground arith)
  check_clients_lem (some (int n)) nut h = absurd (ground arith)
  check_clients_lem (some (neg n)) nut h = absurd (ground arith)
  check_clients_lem (some (real r)) nut h = absurd (ground arith)
  check_clients_lem (some (str s)) nut h = absurd (ground arith)
  check_clients_lem (some (obj fs)) nut h = absurd (ground arith)
  check_clients_lem (some (arr vs)) nut h =
      let (a, b) =
        then-ok (check_ups str_value nut) (validate_clients str_value 0 [] (items vs)) h in
      (vs, refl, validate_clients-AreClients 0 [] (items vs) b)

-- A dictionary that `validate_config` accepts has a list of clients, each a dictionary: with names that
-- are not blank and differ, with hosts, with a MAC address or "auto" where the client is to be woken, with
-- a shutdown threshold from 1 to 100 and an agent port from 1 to 65535 where they are given, and with
-- shutdown on only where there is an agent id that is not blank.
pub validate_config-AreClients :
    (str_value : Value → String) (fs : Fields)
    → validate_config str_value (obj fs) ≡ ok tt
    → (vs : Items) × (lookup "clients" (entries fs) ≡ some (arr vs)) × AreClients [] (items vs)
unfolding validate_config
validate_config-AreClients str_value fs h =
    check_clients_lem str_value (lookup "clients" (entries fs)) (lookup "nut" (entries fs)) h
