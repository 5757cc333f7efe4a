-- ===== src/Web/Requests/Registry.antt =====
-- wolnut/web.py: the requests of an administrator, whatever comes of them, as moves of a registry that
-- says which agent each client has.
use wolnut_webui.Common.{
  String, Bool, true, false, Option, none, some, [], ◌∷◌, ◌≡◌, ◌≢◌, ◌⊎◌, refl, sym, ap, ◌∙◌, Result,
  ok, err, arith, inl, inr, Bool-cases, str_eq, eq_iff,
}
use wolnut_webui.Common.Dict.{Dict, lookup, insert, lookup-insert}
use wolnut_webui.Common.Value.{
  Value, bool, null, obj, Fields, entries, to_fields, entries-to_fields,
}
use mathlib.Core.Path.{subst, fun_ext}
use wolnut_webui.Web.{WebError, Site, DataFile, holds}
use wolnut_webui.Web.Rules.{Keeps, site_of}
use wolnut_webui.Web.Store.{current_config, operate, write_config, update_config}
use wolnut_webui.Web.Clients.Edit.{IsEdit, setting, setting-settings, setting-changed}
use wolnut_webui.Web.Agents.{WebEnv}
use wolnut_webui.Web.Agents.Pairing.{cleared_fields, policy_fields, save, persist}
use wolnut_webui.Web.Agents.Steps.{operate-fields, persist-IsEdit}
use wolnut_webui.Web.Requests.{
  AdminRequest, test, update, shutdown, pair, unpair, auto_update, create_enrollment,
  get_enrollment, handle_admin,
}
use wolnut_webui.Web.Requests.Admin.{WritesKept, handle_admin-Keeps}

-- The agent's id that is on record for each name, if there is one client of the name.
abbrev pub Registry : Type 0
Registry = String → Option Value

abbrev pub registry_in : Result WebError Value → Registry
registry_in (ok (obj fs)) name = setting name "agent_id" (entries fs)
registry_in r name = none

unfoldable pub registry_of : DataFile → Registry
registry_of file = registry_in (current_config file)

abbrev pub Stays : Registry → Registry → Type 0
Stays v w = (name : String) → w name ≡ v name

-- Only the entry of one name may be another.
abbrev pub StaysBut : String → Registry → Registry → Type 0
StaysBut name v w = (other : String) → name ≢ other → w other ≡ v other

-- What a request may do to the registry: pairing gives its client any entry, unpairing clears the entry
-- of its client or leaves it, and the others change none.
abbrev pub Moves : AdminRequest → Registry → Registry → Type 0
Moves (pair name port fingerprint) v w = StaysBut name v w
Moves (unpair name confirmation force_local) v w =
    StaysBut name v w × ((w name ≡ v name) ⊎ (w name ≡ some null))
Moves r v w = Stays v w

registry_in-true :
    (d : Dict Value) (name : String)
    → registry_of (holds (obj (to_fields d))) name ≡ setting name "agent_id" d
unfolding registry_of current_config
registry_in-true [] name = refl
registry_in-true ((k, v) ∷ d) name =
    ap (λ e. setting name "agent_id" ((k, v) ∷ e)) (entries-to_fields d)

-- The edit of one client's settings, in the registry.
module _ {name : String} {f : Dict Value → Result WebError (Dict Value)} {raw d : Dict Value}
    (e : IsEdit name f raw d) where
  edit-other : (key other : String) → name ≢ other → setting other key d ≡ setting other key raw
  unfolding setting
  edit-other key other ne = ground (arith, e.others other ne)

written-kept :
    (R : Registry → Type 0) (w : Bool) (r : Result WebError (Dict Value)) (s : Site)
    → ((d : Dict Value)
        → r ≡ ok d
        → R (registry_of s.config_file)
        → R (registry_of (holds (obj (to_fields d)))))
    → R (registry_of s.config_file)
    → R (registry_of (site_of (write_config w r s)).config_file)
unfolding write_config
written-kept R w (err e) s keep p = p
written-kept R true (ok d) s keep p = keep d refl p
written-kept R false (ok d) s keep p = p

read-registry :
    (s : Site) (fs : Fields)
    → current_config s.config_file ≡ ok (obj fs)
    → registry_of s.config_file ≡ (λ n. setting n "agent_id" (entries fs))
unfolding registry_of
read-registry s fs e = ap registry_in e ∙ fun_ext (λ n. refl)

-- A write to the configuration keeps what the edit keeps.
save-Keeps :
    (env : WebEnv) (R : Registry → Type 0) (name : String)
    (f : Dict Value → Result WebError (Dict Value))
    → ((raw d : Dict Value)
        → IsEdit name f raw d
        → R (λ n. setting n "agent_id" raw)
        → R (λ n. setting n "agent_id" d))
    → Keeps (λ s. R (registry_of s.config_file)) (save env name f)
unfolding save update_config
save-Keeps env R name f keep = record {
  at = λ s p.
      written-kept R env.can_write_config
        (operate (persist env name f) (current_config s.config_file)) s
        (λ d e before.
          let (fs, there, edited) =
            operate-fields (persist env name f) (current_config s.config_file) d e in
          subst R (sym (fun_ext (registry_in-true d))) (
            keep (entries fs) d (persist-IsEdit env name f (entries fs) d edited)
              (subst R (read-registry s fs there) before)))
        p;
}

-- The agent's id is not touched by a policy, and cleared by unpairing.
policy-same :
    (name id : String) (enabled : Bool) (raw d : Dict Value)
    → IsEdit name (policy_fields id enabled) raw d
    → setting name "agent_id" d ≡ setting name "agent_id" raw
policy-same name id enabled raw d e =
    let written : e.changed ≡ insert "auto_update" (bool enabled) e.settings = ground arith in
    setting-changed e "agent_id"
    ∙ ap (lookup "agent_id") written
    ∙ lookup-insert "auto_update" "agent_id" (bool enabled) e.settings
    ∙ sym (setting-settings e "agent_id")

cleared-null :
    (name : String) (raw d : Dict Value)
    → IsEdit name (λ shutdown. ok (cleared_fields shutdown)) raw d
    → setting name "agent_id" d ≡ some null
cleared-null name raw d e =
    let written : e.changed ≡ cleared_fields e.settings = ground arith in
    setting-changed e "agent_id" ∙ ap (lookup "agent_id") written ∙ simp lookup-insert

all-same :
    (name other : String) (raw d : Dict Value)
    → setting name "agent_id" d ≡ setting name "agent_id" raw
    → (name ≢ other → setting other "agent_id" d ≡ setting other "agent_id" raw)
    → setting other "agent_id" d ≡ setting other "agent_id" raw
all-same name other raw d same others = elim (Bool-cases (str_eq name other)) [
  | inl e ↦
      let eq : name ≡ other = ground (arith, eq_iff name other) in
      subst (λ n. setting n "agent_id" d ≡ setting n "agent_id" raw) eq same
  | inr e ↦ others (λ eq. ground (arith, eq_iff name other))
]

writes_kept :
    (env : WebEnv) (v : Registry) (r : AdminRequest)
    → WritesKept env (λ s. Moves r v (registry_of s.config_file)) r
writes_kept env v (test name) = tt
writes_kept env v (update name) = tt
writes_kept env v (shutdown name c) = tt
writes_kept env v (create_enrollment name port) = tt
writes_kept env v (get_enrollment id) = tt
writes_kept env v (pair name port fingerprint) = λ id.
    save-Keeps env (StaysBut name v) name _
      λ raw d e before other ne. edit-other e "agent_id" other ne ∙ before other ne
writes_kept env v (unpair name c force_local) =
    save-Keeps env (Moves (unpair name c force_local) v) name _ λ raw d e (before, own). (
      λ other ne. edit-other e "agent_id" other ne ∙ before other ne,
      inr (cleared-null name raw d e),
    )
writes_kept env v (auto_update name enabled) = λ id.
    save-Keeps env (Stays v) name _ λ raw d e before other.
      all-same name other raw d (policy-same name id enabled raw d e)
        (edit-other e "agent_id" other)
      ∙ before other

Moves-refl : (r : AdminRequest) (v : Registry) → Moves r v v
Moves-refl (test name) v = λ n. refl
Moves-refl (update name) v = λ n. refl
Moves-refl (shutdown name c) v = λ n. refl
Moves-refl (create_enrollment name port) v = λ n. refl
Moves-refl (get_enrollment id) v = λ n. refl
Moves-refl (pair name port fingerprint) v = λ n ne. refl
Moves-refl (unpair name c force_local) v = (λ n ne. refl, inl refl)
Moves-refl (auto_update name enabled) v = λ n. refl

-- Each request of an administrator, whether it returns or raises, at whatever point, is a move that the
-- registry allows it: pairing touches the entry of its client alone, unpairing clears that entry or
-- leaves it and touches no other, and all other requests change no entry.
pub handle_admin-Moves :
    (env : WebEnv) (r : AdminRequest) (s : Site)
    → Moves r (registry_of s.config_file) (registry_of (site_of (handle_admin env r s)).config_file)
handle_admin-Moves env r s =
    let v = registry_of s.config_file in
    (handle_admin-Keeps env (λ t. Moves r v (registry_of t.config_file)) (λ t d p. p)
        (λ t file p. p) r (writes_kept env v r)).at
      s (Moves-refl r v)
