-- ===== src/Tests/Remote.antt =====
-- What goes over the wire and through spool files, at concrete inputs.
use vldb_controller.Base.{
  ℕ, String, none, some, true, false, List, [], ◌∷◌, ◌++◌, length, ◌≡◌, refl, arith, ◌*◌, max, ◌↔◌,
  ◌+◌,
}
use vldb_controller.Base.Order.{str_ord}
use vldb_controller.Base.Lists.{take, drop}
use vldb_controller.Base.Except.{Except, success, failure}
use vldb_controller.Types.{
  SpaceSnapshot, ControllerStatusSnapshot, project, managed, default_server_config,
  default_sqlite_request, default_lancedb_request,
}
use vldb_controller.Base64.Codec.{encode_base64, decode_base64_client, decode_base64_ffi, bytes_of}
use vldb_controller.Base64.RoundTrip.{decode-encode_base64}
use vldb_controller.Base64.Agree.{ffi-client}
use vldb_controller.Spool.Handle.{new_handle}
use vldb_controller.Spool.Writer.{
  ControllerStreamingTempFileWriter, empty_writer, conclude, start_query_stream_values, write_each,
  flush,
}
use vldb_controller.Spool.Delivery.{IsDelivered, metrics_of, spool, spool-IsDelivered}
use vldb_controller.Spool.Progress.{IsConcluded, spool-success, start-IsConcluded}
use vldb_controller.Wire.Messages.{RenewClientLeaseRequest}
use vldb_controller.Base.Text.{is_blank}
use vldb_controller.Server.Status.{Status, other_code}
use vldb_controller.Server.Convert
use vldb_controller.Server.Convert.{sqlite_request_of, lancedb_request_of}
use vldb_controller.Server.Handlers.{Clock, renew_client_lease, maintenance_tick}
use vldb_controller.Server.Control.{IsRequest, work_of, serve, renew, serve-IsRequest}
use vldb_controller.Server.Maintenance.{IsReaped, maintenance-MayStop}
use vldb_controller.Registry.Steps.{new-IsConsistent}
use vldb_controller.Registry.Idle.{MayStop}
use vldb_controller.Client.State.{ClientSessionState, default_session, remember_attached_space}
use vldb_controller.Client.Calls
use vldb_controller.Client.Calls.{Rpc, Answer, ClientError}
use vldb_controller.Client.Recovery.{ensure_registered_session}
use vldb_controller.Client.Recovered.{IsEnsured, ensure-IsEnsured}
use vldb_controller.Client.Operations
use vldb_controller.Client.Changes.{
  IsEffect, IsAttachEffect, ChangesIf, RemembersSpace, ForgetsSpace, SetsSqlite, SetsLanceDb,
}
use vldb_controller.Client.Effects.{
  AttachSays, DetachSays, EnableSqliteSays, DisableSqliteSays, EnableLanceDbSays,
  DisableLanceDbSays,
}
use vldb_controller.Client.Desired.{operations-IsEffect}
use vldb_controller.Runtime.Key.{binding_key}
use vldb_controller.Client.Agree.{
  IsHandled, found, renew-IsHandled, snapshots-roundtrip, IsExplicit, IsExplicitLance,
  sqlite_request-roundtrip, lancedb_request-roundtrip,
}
use vldb_controller.Tests.Data.{runtime, started, registration, session, space}

-- `bytes_of` is the text's bytes.
encode_text : encode_base64 (bytes_of "light w") ≡ bytes_of "bGlnaHQgdw=="
unfolding encode_base64
encode_text = refl

decode-encode_base64_example :
    (decode_base64_client (encode_base64 (0 ∷ 255 ∷ 17 ∷ 128 ∷ []))
      ≡ success (0 ∷ 255 ∷ 17 ∷ 128 ∷ []))
    × (length (encode_base64 (0 ∷ 255 ∷ 17 ∷ 128 ∷ [])) ≡ 8)
decode-encode_base64_example =
    decode-encode_base64 (0 ∷ 255 ∷ 17 ∷ 128 ∷ [])
      (omega arith, (omega arith, (omega arith, (omega arith, tt))))

ffi-client_example : decode_base64_ffi (bytes_of "AA=A") ≡ decode_base64_client (bytes_of "AA=A")
ffi-client_example = ffi-client (bytes_of "AA=A")

-- A file that takes everything and is read as it is.
abbrev bufs : List (List ℕ)
bufs = (1 ∷ 2 ∷ []) ∷ [] ∷ (3 ∷ []) ∷ []

abbrev write_all : List ℕ → List ℕ → Except String (List ℕ)
write_all file chunk = success (file ++ chunk)

abbrev sync : List ℕ → Except String (Unit {0})
sync file = success tt

abbrev read_at : String → ℕ → ℕ → Except String (List ℕ)
read_at path offset len = success (take len (drop offset (1 ∷ 2 ∷ 3 ∷ [])))

abbrev first : ControllerStreamingTempFileWriter
first = empty_writer (new_handle "/tmp/q") 8

abbrev last : ControllerStreamingTempFileWriter
last = (spool write_all sync bufs first).1

spooled : (spool write_all sync bufs first ≡ (success tt, last)) × (last.file ≡ 1 ∷ 2 ∷ 3 ∷ [])
unfolding write_each flush new_handle
spooled = (refl, refl)

spool-IsDelivered_example :
    IsDelivered read_at
      (max 8 (64 * 1024))
      (1 ∷ 2 ∷ 3 ∷ [])
      (conclude 9 (success (metrics_of 1 last)) last.state)
spool-IsDelivered_example =
    spool-IsDelivered write_all sync read_at "/tmp/q" 8 bufs last 1 9 (λ file chunk after e. cc)
      (omega arith) spooled.0 (λ offset len h. rw spooled.1 refl)

spool-success_example : (spool write_all sync bufs first).0 ≡ success tt
spool-success_example =
    spool-success write_all (λ file chunk. refl) sync bufs first (omega arith) (λ file. refl)

start-IsConcluded_example : IsConcluded (
    start_query_stream_values
      (λ path. success tt)
      (λ w. (failure "no such table", w))
      (success tt)
      65_536
      none
      "/tmp/q"
      9)
start-IsConcluded_example =
    start-IsConcluded (λ path. success tt) (λ w. (failure "no such table", w)) (success tt) 65_536
      none "/tmp/q" 9

abbrev clock : Clock
clock = record { now = 5; begun_unix_ms = 3_000; called_unix_ms = 3_000 }

abbrev renewal : RenewClientLeaseRequest
renewal = record { client_session_id = "bob"; lease_ttl_secs = 0 }

serve-IsRequest_example :
    IsRequest runtime clock
      (work_of runtime clock (renew renewal))
      session
      (serve runtime clock (renew renewal) session)
serve-IsRequest_example = serve-IsRequest runtime clock (renew renewal) session tt

maintenance-MayStop_example :
    IsReaped runtime clock
      (λ h. true)
      (λ h. none)
      started
      (maintenance_tick runtime clock (λ h. true) (λ h. none) true started).1
    × (((maintenance_tick runtime clock (λ h. true) (λ h. none) true started).0 ≡ true) ↔ (
        (true ≡ true)
        × MayStop runtime clock.now
            (maintenance_tick runtime clock (λ h. true) (λ h. none) true started).1))
maintenance-MayStop_example =
    maintenance-MayStop runtime clock (λ h. true) (λ h. none) started
      (new-IsConsistent default_server_config 0 1_000) true

abbrev reported : SpaceSnapshot
reported = record {
  space_id = "s";
  space_label = "S";
  space_kind = project;
  space_root = "/s";
  attached_clients = 2;
  sqlite = some (record { enabled = true; mode = "dynamic_library"; target = "/s/db" });
  lancedb = none;
}

abbrev status_of_service : ControllerStatusSnapshot
status_of_service = record {
  process_mode = managed;
  bind_addr = "127.0.0.1:19801";
  started_at_unix_ms = 1_000;
  last_request_at_unix_ms = 2_000;
  minimum_uptime_secs = 300;
  idle_timeout_secs = 900;
  default_lease_ttl_secs = 120;
  active_clients = 1;
  attached_spaces = 1;
  inflight_requests = 1;
  shutdown_candidate = false;
}

snapshots-roundtrip_example :
    (Calls.map_space_snapshot (Convert.map_space_snapshot reported) ≡ success reported)
    × (Calls.read_status (some (Convert.map_controller_status_snapshot status_of_service))
        ≡ success status_of_service)
snapshots-roundtrip_example =
    snapshots-roundtrip reported status_of_service (omega arith) (omega arith) (omega arith)
      (omega arith)

default-IsExplicit : IsExplicit default_sqlite_request
unfolding is_blank
default-IsExplicit = record {
  pool = omega arith;
  pool_bound = omega arith;
  busy = omega arith;
  journal = refl;
  sync = refl;
  temp = refl;
  pages = omega arith;
  cache = λ e. cc;
  mmap = omega arith;
}

sqlite_request-roundtrip_example :
    sqlite_request_of (Calls.enable_sqlite_request "alice" default_sqlite_request)
    ≡ default_sqlite_request
sqlite_request-roundtrip_example =
    sqlite_request-roundtrip "alice" default_sqlite_request default-IsExplicit

default-IsExplicitLance : IsExplicitLance default_lancedb_request
default-IsExplicitLance = record {
  trimmed = λ path e. cc;
  interval = λ e. cc;
  payload = omega arith;
  limit = omega arith;
  parallel = omega arith;
}

lancedb_request-roundtrip_example :
    lancedb_request_of (Calls.enable_lance_db_request "alice" default_lancedb_request)
    ≡ default_lancedb_request
lancedb_request-roundtrip_example =
    lancedb_request-roundtrip "alice" default_lancedb_request default-IsExplicitLance

-- A controller that counts the calls and accepts all.
abbrev counter : (rpc : Rpc) → ℕ → Except Status (Answer rpc) × ℕ
counter (Rpc.register_client req) n = (
  success (
      some (
        Convert.map_client_snapshot (record {
          client_session_id = "alice";
          client_name = req.client_name;
          host_kind = req.host_kind;
          process_id = req.process_id;
          process_name = req.process_name;
          last_seen_unix_ms = 0;
          expires_at_unix_ms = 0;
          attached_space_ids = [];
        }))),
  n + 1,
)
counter (Rpc.renew_client_lease req) n = (success tt, n + 1)
counter (Rpc.unregister_client id) n = (success true, n + 1)
counter (Rpc.attach_space req) n = (success none, n + 1)
counter (Rpc.detach_space req) n = (success true, n + 1)
counter (Rpc.enable_sqlite req) n = (success tt, n + 1)
counter (Rpc.disable_sqlite req) n = (success true, n + 1)
counter (Rpc.enable_lance_db req) n = (success tt, n + 1)
counter (Rpc.disable_lance_db req) n = (success true, n + 1)

-- The controller has no session of the name, so the client registers.
renew-IsHandled_example :
    IsHandled runtime clock renewal session counter registration default_session 0
      (record { code = other_code; text = "broken" })
      (found runtime clock renewal session)
      (renew_client_lease runtime clock renewal session).0
renew-IsHandled_example =
    renew-IsHandled runtime clock renewal session counter registration default_session 0
      (record { code = other_code; text = "broken" })

abbrev desired : ClientSessionState
desired = remember_attached_space space default_session

ensure-IsEnsured_example :
    IsEnsured counter registration desired 0
      (ensure_registered_session counter registration desired 0)
ensure-IsEnsured_example = ensure-IsEnsured counter registration desired 0

abbrev joined : ℕ → Except ClientError (Unit {0}) × ℕ
joined n = (success tt, n)

operations-IsEffect_example :
    IsAttachEffect
      (AttachSays counter joined registration space)
      (RemembersSpace space)
      desired
      (Operations.attach_space counter joined registration space desired 0)
    × IsEffect
        (DetachSays counter joined registration "s")
        (λ done. ChangesIf done (ForgetsSpace "s"))
        desired
        (Operations.detach_space counter joined registration "s" desired 0)
    × IsEffect
        (EnableSqliteSays counter joined registration default_sqlite_request)
        (λ done.
          SetsSqlite
            (binding_key default_sqlite_request.space_id default_sqlite_request.binding_id)
            (some default_sqlite_request))
        desired
        (Operations.enable_sqlite counter joined registration default_sqlite_request desired 0)
    × IsEffect
        (DisableSqliteSays counter joined registration "s" "b")
        (λ done. ChangesIf done (SetsSqlite (binding_key "s" "b") none))
        desired
        (Operations.disable_sqlite counter joined registration "s" "b" desired 0)
    × IsEffect
        (EnableLanceDbSays counter joined registration default_lancedb_request)
        (λ done.
          SetsLanceDb
            (binding_key default_lancedb_request.space_id default_lancedb_request.binding_id)
            (some default_lancedb_request))
        desired
        (Operations.enable_lancedb counter joined registration default_lancedb_request desired 0)
    × IsEffect
        (DisableLanceDbSays counter joined registration "s" "b")
        (λ done. ChangesIf done (SetsLanceDb (binding_key "s" "b") none))
        desired
        (Operations.disable_lancedb counter joined registration "s" "b" desired 0)
operations-IsEffect_example =
    operations-IsEffect counter joined registration desired 0 space default_sqlite_request
      default_lancedb_request "s" "b"
