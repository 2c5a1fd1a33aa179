-- ===== src/Runtime/Snapshots.antt =====
-- controller/src/core/runtime.rs: what is reported of a space.
use Prim.Native.String.{◌++◌}
use vldb_controller.Base.{String, Option, none, some, true, if◌then◌else◌, List, [], ◌∷◌, ◌==◌}
use vldb_controller.Base.Format.{decimal}
use vldb_controller.Base.Order.{str_ord}
use vldb_controller.BTreeMap
use vldb_controller.Types.{SpaceBackendStatus, SpaceSnapshot}
use vldb_controller.Runtime.Fault.{BackendKind, sqlite, lancedb}
use vldb_controller.Runtime.State.{BindingEntry, SpaceState}

abbrev kind_name : BackendKind → String
kind_name sqlite = "sqlite"
kind_name lancedb = "lancedb"

-- `values().next().map(…).unwrap_or_default()`
abbrev first_path : List BindingEntry → String
first_path [] = ""
first_path (entry ∷ rest) = entry.backend.path

abbrev status_of : String → SpaceBackendStatus
status_of target = record { enabled = true; mode = "dynamic_library"; target = target }

unfoldable pub snapshot_backend_status : BackendKind → SpaceState → Option SpaceBackendStatus
snapshot_backend_status kind space =
    if BTreeMap.is_empty (space.bindings kind)
    then none
    else some (
        status_of (
          if BTreeMap.len (space.bindings kind) == 1
          then first_path (BTreeMap.values (space.bindings kind))
          else "<multiple "
            ++ kind_name kind
            ++ " bindings: "
            ++ decimal (BTreeMap.len (space.bindings kind))
            ++ ">"))

unfoldable pub snapshot_sqlite_backend_status : SpaceState → Option SpaceBackendStatus
unfolding snapshot_backend_status
snapshot_sqlite_backend_status = snapshot_backend_status sqlite

unfoldable pub snapshot_lancedb_backend_status : SpaceState → Option SpaceBackendStatus
unfolding snapshot_backend_status
snapshot_lancedb_backend_status = snapshot_backend_status lancedb

unfoldable pub snapshot_space_state : SpaceState → SpaceSnapshot
snapshot_space_state space = record {
  space_id = space.registration.space_id;
  space_label = space.registration.space_label;
  space_kind = space.registration.space_kind;
  space_root = space.registration.space_root;
  attached_clients = BTreeMap.len space.attached_clients;
  sqlite = snapshot_sqlite_backend_status space;
  lancedb = snapshot_lancedb_backend_status space;
}
