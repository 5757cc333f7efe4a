-- ===== src/Web/Requests/Admin.antt =====
-- wolnut/web.py: the requests of an administrator keep a property of the files that the writes keep.
use wolnut_webui.Common.{String, ok}
use wolnut_webui.Common.Dict.{Dict}
use wolnut_webui.Common.Value.{Value, obj, to_fields}
use wolnut_webui.Enrollment.{StoreFile}
use wolnut_webui.Web.{Site, holds}
use wolnut_webui.Web.Rules.{Keeps, Keeps-bind, Keeps-return}
use wolnut_webui.Web.Agents.{WebEnv}
use wolnut_webui.Web.Agents.Pairing.{pairing_fields, cleared_fields, policy_fields, save}
use wolnut_webui.Web.Requests.{
  AdminRequest, test, update, shutdown, pair, unpair, auto_update, create_enrollment,
  get_enrollment, handle_admin,
}
use wolnut_webui.Web.Requests.Handlers

-- What a request may write, if it writes to the configuration.
abbrev pub WritesKept : WebEnv → (Site → Type 0) → AdminRequest → Type 0
WritesKept env P (pair name port f) =
    (id : Value) → Keeps P (save env name (λ shutdown. ok (pairing_fields id port shutdown)))
WritesKept env P (unpair name c b) =
    Keeps P (save env name (λ shutdown. ok (cleared_fields shutdown)))
WritesKept env P (auto_update name enabled) =
    (id : String) → Keeps P (save env name (policy_fields id enabled))
WritesKept env P r = Unit

module _ (env : WebEnv) (P : Site → Type 0)
    (state_kept : (s : Site) (d : Dict Value)
      → P s
      → P (record s { state_file = holds (obj (to_fields d)) }))
    (store_kept : (s : Site) (file : StoreFile) → P s → P (record s { enrollments = file })) where
  pub handle_admin-Keeps : (r : AdminRequest) → WritesKept env P r → Keeps P (handle_admin env r)
  unfolding handle_admin
  handle_admin-Keeps (test name) w =
      Keeps-bind _ _ (Handlers.test_agent-Keeps env P state_kept store_kept name)
        λ x. Keeps-return tt
  handle_admin-Keeps (update name) w =
      Keeps-bind _ _ (Handlers.update_agent-Keeps env P state_kept store_kept name)
        λ x. Keeps-return tt
  handle_admin-Keeps (shutdown name c) w =
      Keeps-bind _ _ (Handlers.shutdown_agent-Keeps env P state_kept store_kept name c)
        λ x. Keeps-return tt
  handle_admin-Keeps (pair name port f) w =
      Keeps-bind _ _ (Handlers.pair_agent-Keeps env P state_kept store_kept name port f w)
        λ x. Keeps-return tt
  handle_admin-Keeps (unpair name c b) w =
      Keeps-bind _ _ (Handlers.unpair_agent-Keeps env P state_kept store_kept name c b w)
        λ x. Keeps-return tt
  handle_admin-Keeps (auto_update name b) w =
      Keeps-bind _ _ (Handlers.set_agent_auto_update-Keeps env P state_kept store_kept name b w)
        λ x. Keeps-return tt
  handle_admin-Keeps (create_enrollment name port) w =
      Keeps-bind _ _ (Handlers.create_enrollment-Keeps env P state_kept store_kept name port)
        λ x. Keeps-return tt
  handle_admin-Keeps (get_enrollment id) w =
      Keeps-bind _ _ (Handlers.get_enrollment-Keeps env P state_kept store_kept id)
        λ x. Keeps-return tt
