-- ===== src/Runtime/Message.antt =====
-- controller/src/core/runtime.rs: the text of each error, as `invalid_input` is called with it.
use Prim.Native.String.{◌++◌}
use vldb_controller.Base.{String}
use vldb_controller.Base.Format.{decimal}
use vldb_controller.Runtime.Fault.{
  BackendKind, sqlite, lancedb, Error, client_not_registered, attachment_needs_session,
  still_owns_bindings, client_not_attached, space_not_attached, space_still_in_use,
  space_needs_client, binding_needs_client, binding_belongs_to, binding_needs_owner,
  different_configuration, binding_not_enabled, stream_not_found, stream_belongs_to,
  stream_needs_owner, identity_conflict, empty_field, unsupported_input, unreadable_request,
  engine_failed, upstream,
}

abbrev pub kind_name : BackendKind → String
kind_name sqlite = "sqlite"
kind_name lancedb = "lancedb"

unfoldable pub message : Error → String
unfolding decimal
message (client_not_registered client_id) = "client `" ++ client_id ++ "` is not registered"
message (attachment_needs_session space_id) =
    "space `" ++ space_id ++ "` attachment requires one registered client_session_id"
message (still_owns_bindings client_id space_id) =
    "client `" ++ client_id ++ "` still owns backend bindings under space `" ++ space_id
    ++ "`; disable them before detaching"
message (client_not_attached client_id space_id) =
    "client `" ++ client_id ++ "` is not attached to space `" ++ space_id ++ "`"
message (space_not_attached space_id) = "space `" ++ space_id ++ "` is not attached"
message (space_still_in_use space_id) =
    "space `" ++ space_id
    ++ "` is still attached or has enabled backends and cannot be detached without an explicit client_id"
message (space_needs_client space_id) = "space `" ++ space_id ++ "` requires one attached client_id"
message (binding_needs_client space_id) =
    "backend binding for space `" ++ space_id ++ "` requires one registered attached client_id"
message (binding_belongs_to kind space_id binding_id existing requesting) =
    kind_name kind
    ++ " backend binding `"
    ++ binding_id
    ++ "` for space `"
    ++ space_id
    ++ "` belongs to client `"
    ++ existing
    ++ "`, not `"
    ++ requesting
    ++ "`"
message (binding_needs_owner kind space_id binding_id existing) =
    kind_name kind
    ++ " backend binding `"
    ++ binding_id
    ++ "` for space `"
    ++ space_id
    ++ "` requires owner client `"
    ++ existing
    ++ "`"
message (different_configuration kind resource_key) =
    kind_name kind
    ++ " resource `"
    ++ resource_key
    ++ "` is already enabled with a different configuration"
message (binding_not_enabled kind binding_id space_id) =
    kind_name kind
    ++ " backend binding `"
    ++ binding_id
    ++ "` is not enabled for space `"
    ++ space_id
    ++ "`"
message (stream_not_found stream_id) = "sqlite query stream `" ++ decimal stream_id ++ "` not found"
message (stream_belongs_to stream_id owner requested) =
    "sqlite query stream `"
    ++ decimal stream_id
    ++ "` belongs to client `"
    ++ owner
    ++ "`, not `"
    ++ requested
    ++ "`"
message (stream_needs_owner stream_id owner) =
    "sqlite query stream `" ++ decimal stream_id ++ "` requires owner client `" ++ owner ++ "`"
message (identity_conflict space_id) =
    "space `" ++ space_id ++ "` registration conflicts with existing identity"
message (unsupported_input text) = text
message (unreadable_request text) = text
message (engine_failed text) = text
message (empty_field field) = field ++ " must not be empty"
message (upstream text) = text
