-- ===== src/Tests/Data.antt =====
-- A controller with the default configuration, in which one client works in one space.
use vldb_controller.Base.{some}
use vldb_controller.Types.{ClientRegistration, SpaceRegistration, project, default_server_config}
use vldb_controller.Runtime.Fault.{ok, sqlite}
use vldb_controller.Runtime.State.{Backend, ControllerState, VldbControllerRuntime, new}
use vldb_controller.Runtime.Sessions.{register_client}
use vldb_controller.Runtime.Spaces.{attach_space}
use vldb_controller.Runtime.Enable.{EnableRequest, enable_backend}
use vldb_controller.Runtime.Streams.{insert_query_stream}

abbrev pub runtime : VldbControllerRuntime
runtime = (new default_server_config 0 1_000).0

abbrev pub started : ControllerState
started = (new default_server_config 0 1_000).1

abbrev pub registration : ClientRegistration
registration = record {
  client_name = "editor";
  host_kind = "desktop";
  process_id = 7;
  process_name = "editor.exe";
  lease_ttl_secs = some 60;
}

abbrev pub session : ControllerState
session = (register_client runtime 2_000 "alice" registration started).1

abbrev pub space : SpaceRegistration
space = record { space_id = "s"; space_label = "S"; space_kind = project; space_root = "/s" }

abbrev pub attached : ControllerState
attached = (attach_space 3_000 space (some "alice") session).1

abbrev pub request : EnableRequest
request = record {
  space_id = "s";
  binding_id = "b";
  resource_key = "/s/db";
  resource_config_key = "pool=8";
  target = "/s/db";
}

abbrev pub backend : Backend
backend = record { runtime = 1; path = "/s/db" }

abbrev pub enabled : ControllerState
enabled = (enable_backend sqlite request (ok backend) (some "alice") attached).1

abbrev pub streaming : ControllerState
streaming = insert_query_stream 4_000 9 "s" (some "alice") enabled
