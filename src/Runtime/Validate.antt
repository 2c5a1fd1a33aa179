-- ===== src/Runtime/Validate.antt =====
-- controller/src/core/runtime.rs: the validation of registrations.
use vldb_controller.Base.{String, Bool, true, false, ◌||◌, not, if◌then◌else◌}
use vldb_controller.Base.Order.{eqb, str_ord}
use vldb_controller.Base.Text.{is_blank}
use vldb_controller.Types.{ClientRegistration, SpaceRegistration, SpaceKind, root, user, project}
use vldb_controller.Runtime.Fault.{Result, ok, err, ◌>>◌, identity_conflict, empty_field}

abbrev pub require_text : String → String → Result (Unit {0})
require_text field value = if is_blank value then err (empty_field field) else ok tt

unfoldable pub validate_client_registration : ClientRegistration → Result (Unit {0})
validate_client_registration registration = do
  require_text "client_name" registration.client_name
  require_text "host_kind" registration.host_kind
  require_text "process_name" registration.process_name

unfoldable pub validate_space_registration : SpaceRegistration → Result (Unit {0})
validate_space_registration registration = do
  require_text "space_id" registration.space_id
  require_text "space_label" registration.space_label
  require_text "space_root" registration.space_root

abbrev pub same_space_kind : SpaceKind → SpaceKind → Bool
same_space_kind root root = true
same_space_kind user user = true
same_space_kind project project = true
same_space_kind _ _ = false

unfoldable pub ensure_matching_space_registration :
    SpaceRegistration → SpaceRegistration → Result (Unit {0})
ensure_matching_space_registration existing incoming =
    if not (eqb existing.space_id incoming.space_id)
      || not (eqb existing.space_label incoming.space_label)
      || not (same_space_kind existing.space_kind incoming.space_kind)
      || not (eqb existing.space_root incoming.space_root)
    then err (identity_conflict existing.space_id)
    else ok tt
