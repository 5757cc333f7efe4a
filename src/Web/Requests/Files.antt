-- ===== src/Web/Requests/Files.antt =====
-- wolnut/web.py: the writes of the files, and the configurations that `validate_config` accepts.
use wolnut_webui.Common.{
  String, Bool, true, false, ◌≡◌, refl, Result, ok, err, inl, inr, Result-cases, arith,
}
use wolnut_webui.Common.Dict.{Dict}
use wolnut_webui.Common.Value.{Value, obj, entries, to_fields}
use wolnut_webui.Config.Clients.{validate_config}
use mathlib.Core.Path.{subst}
use wolnut_webui.Web.{DataFile, holds, WebError, Site}
use wolnut_webui.Web.Store.{current_config, operate, write_config, update_config, validated}
use wolnut_webui.Web.Rules.{Keeps}

-- There is no file, or none that can be read, or one that `validate_config` accepts.
abbrev pub FileAccepted : (Value → String) → DataFile → Type 0
FileAccepted str_value (holds v) = validate_config str_value v ≡ ok tt
FileAccepted str_value file = Unit

abbrev pub IsAccepted : (Value → String) → Site → Type 0
IsAccepted str_value s = FileAccepted str_value s.config_file

module _ (str_value : Value → String) where
  abbrev pub Accepting : Result WebError (Dict Value) → Type 0
  Accepting r = (d : Dict Value) → r ≡ ok d → validate_config str_value (obj (to_fields d)) ≡ ok tt

  write_config-IsAccepted :
      (w : Bool) (r : Result WebError (Dict Value))
      → Accepting r
      → Keeps (IsAccepted str_value) (write_config w r)
  unfolding write_config
  write_config-IsAccepted w (err e) good = record { at = λ s p. p }
  write_config-IsAccepted true (ok d) good = record { at = λ s p. good d refl }
  write_config-IsAccepted false (ok d) good = record { at = λ s p. p }

  operate-Accepting :
      (f : Dict Value → Result WebError (Dict Value)) (r : Result WebError Value)
      → ((d : Dict Value) → Accepting (f d))
      → Accepting (operate f r)
  operate-Accepting f (err e) good d h = absurd (ground arith)
  operate-Accepting f (ok Value.null) good d h = absurd (ground arith)
  operate-Accepting f (ok (Value.bool b)) good d h = absurd (ground arith)
  operate-Accepting f (ok (Value.int n)) good d h = absurd (ground arith)
  operate-Accepting f (ok (Value.neg n)) good d h = absurd (ground arith)
  operate-Accepting f (ok (Value.real r)) good d h = absurd (ground arith)
  operate-Accepting f (ok (Value.str t)) good d h = absurd (ground arith)
  operate-Accepting f (ok (Value.arr vs)) good d h = absurd (ground arith)
  operate-Accepting f (ok (Value.obj fs)) good d h = good (entries fs) d h

  pub update_config-IsAccepted :
      (f : Dict Value → Result WebError (Dict Value)) (w : Bool)
      → ((d : Dict Value) → Accepting (f d))
      → Keeps (IsAccepted str_value) (update_config f w)
  unfolding update_config
  update_config-IsAccepted f w good = record {
    at = λ s p.
        (write_config-IsAccepted w (operate f (current_config s.config_file))
            (operate-Accepting f (current_config s.config_file) good)).at
          s p;
  }

  pub validated-Accepting : (d : Dict Value) → Accepting (validated str_value d)
  unfolding validated
  validated-Accepting d d' h = elim (Result-cases (validate_config str_value (obj (to_fields d)))) [
    | inl (u, e) ↦
        let same : d ≡ d' = ground arith in
        subst (λ x. validate_config str_value (obj (to_fields x)) ≡ ok tt) same e
    | inr (x, e) ↦ absurd (ground arith)
  ]
