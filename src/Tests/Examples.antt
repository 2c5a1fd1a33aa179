-- ===== src/Tests/Examples.antt =====
-- The theorems at concrete inputs.
use vldb_controller.Base.{
  ℕ, none, some, true, false, ◌&&◌, ◌≡◌, ◌↔◌, ◌⊎◌, refl, is_some, if◌then◌else◌, leb, ◌==◌, ◌*◌,
  ◌+◌, ◌<◌, ◌^◌, arith,
}
use vldb_controller.Base.Order.{eqb, str_ord, nat_ord}
use vldb_controller.Base.Text.{trim, is_blank}
use vldb_controller.Base.Word.{u64_max}
use vldb_controller.BTreeMap
use vldb_controller.Types.{default_server_config}
use vldb_controller.Runtime.Fault.{ok, sqlite, is_ok}
use vldb_controller.Runtime.Key.{binding_key}
use vldb_controller.Runtime.Keys.{normalize_client_id, lease_expiry}
use vldb_controller.Runtime.Access.{bound_backend, ensure_binding_access_locked}
use vldb_controller.Runtime.Clients.{remove_client_locked, prune_expired_clients_locked, is_expired}
use vldb_controller.Runtime.Sessions.{
  register_client, renew_client, new_client, renew_lease, snapshot_client_state, begin_request,
  begin_diagnostic_request, end_request,
}
use vldb_controller.Runtime.Spaces.{attach_space, detach_space}
use vldb_controller.Runtime.Enable.{enable_backend, disable_backend}
use vldb_controller.Runtime.Streams.{
  insert_query_stream, close_sqlite_query_stream, reap_stale_query_streams,
}
use vldb_controller.Runtime.Shutdown.{should_shutdown_locked}
use vldb_controller.Registry.Views.{binding_at}
use vldb_controller.Registry.Invariant.{IsConsistent}
use vldb_controller.Registry.Methods.{pruned}
use vldb_controller.Registry.Left.{Left}
use vldb_controller.Registry.Unbind.{Unbound}
use vldb_controller.Registry.Prune.{expired, registered, prune-Left, remove_client-Left}
use vldb_controller.Registry.EnableBackend.{Outcome, enable_backend-Outcome}
use vldb_controller.Registry.Granted.{IsGranted, bound_backend-IsGranted}
use vldb_controller.Registry.Attached.{Attachment, attach_space-Attachment}
use vldb_controller.Registry.Detached.{IsDetached, detach-IsDetached}
use vldb_controller.Registry.Disable.{disable-Unbound}
use vldb_controller.Registry.Streaming.{
  IsNumbered, stream_at, insert-IsNumbered, handle-owner, close-exact, IsRecent, reap-exact,
}
use vldb_controller.Registry.Idle.{MayStop, should_shutdown-MayStop, request-counted}
use vldb_controller.Registry.Lease.{
  lease-exact, lease-wraps, has_blank, IsRegistered, register-stored, renew-stored,
}
use vldb_controller.Registry.Reenable.{reenable-unregisters}
use vldb_controller.Registry.Names.{normalize-normalize}
use vldb_controller.Registry.Steps.{
  Reach, Step, Reach-IsConsistent, Step-IsConsistent, new-IsConsistent,
}
use vldb_controller.Tests.Data.{
  runtime, started, registration, session, space, attached, request, backend, enabled, streaming,
}
use vldb_controller.Tests.Runs.{run, entry, started-IsNumbered, held, bound, keys}

started-IsConsistent : IsConsistent started
started-IsConsistent = new-IsConsistent default_server_config 0 1_000

session_reached : Reach default_server_config 0 1_000 session
session_reached =
    Reach.next started session Reach.start (Step.register started 2_000 "alice" registration run.0)

attached_reached : Reach default_server_config 0 1_000 attached
attached_reached =
    Reach.next session attached session_reached (Step.attach session 3_000 space (some "alice"))

enabled_reached : Reach default_server_config 0 1_000 enabled
enabled_reached =
    Reach.next attached enabled attached_reached
      (Step.enable attached sqlite request (ok backend) (some "alice"))

streaming_reached : Reach default_server_config 0 1_000 streaming
streaming_reached =
    Reach.next enabled streaming enabled_reached
      (Step.insert_stream enabled 4_000 9 "s" (some "alice"))

streaming-IsConsistent : IsConsistent streaming
streaming-IsConsistent =
    Reach-IsConsistent default_server_config 0 1_000 streaming streaming_reached

Reach-IsConsistent_example : IsConsistent streaming
Reach-IsConsistent_example =
    Reach-IsConsistent default_server_config 0 1_000 streaming streaming_reached

Step-IsConsistent_example :
    IsConsistent (register_client runtime 2_000 "alice" registration started).1
Step-IsConsistent_example =
    Step-IsConsistent runtime started session
      (Step.register started 2_000 "alice" registration run.0) started-IsConsistent

bound_backend-IsGranted_example :
    (bound_backend sqlite streaming "s" "b" (some " alice ") ≡ ok backend)
    ↔ IsGranted sqlite streaming "s" "b" (some " alice ") backend
bound_backend-IsGranted_example =
    bound_backend-IsGranted sqlite streaming "s" "b" (some " alice ") streaming-IsConsistent backend

prune-Left_example :
    Left
      (λ c. expired 62_000 c streaming)
      streaming
      (prune_expired_clients_locked streaming 62_000).1
    × IsConsistent (prune_expired_clients_locked streaming 62_000).1
prune-Left_example = prune-Left streaming 62_000 streaming-IsConsistent

enable_backend-Outcome_example :
    Outcome sqlite request
      (some "alice")
      streaming
      (enable_backend sqlite request (ok backend) (some "alice") streaming)
enable_backend-Outcome_example =
    enable_backend-Outcome sqlite request (some "alice") streaming streaming-IsConsistent
      (ok backend)

session-IsConsistent : IsConsistent session
session-IsConsistent = Reach-IsConsistent default_server_config 0 1_000 session session_reached

attach_space-Attachment_example :
    Attachment space
      (some "alice")
      session
      (pruned 3_000 session)
      (attach_space 3_000 space (some "alice") session)
attach_space-Attachment_example =
    attach_space-Attachment 3_000 space (some "alice") session session-IsConsistent

disable-Unbound_example :
    ((is_ok (disable_backend sqlite "s" "b" (some "alice") streaming).0 ≡ false)
      × ((disable_backend sqlite "s" "b" (some "alice") streaming).1 ≡ streaming))
    ⊎ ((ensure_binding_access_locked sqlite streaming "s" "b" (some "alice") ≡ ok tt)
        × ((disable_backend sqlite "s" "b" (some "alice") streaming).0
            ≡ ok (is_some (binding_at sqlite (binding_key "s" "b") streaming)))
        × Unbound sqlite
            (binding_key "s" "b")
            streaming
            (disable_backend sqlite "s" "b" (some "alice") streaming).1)
disable-Unbound_example =
    disable-Unbound sqlite "s" "b" (some "alice") streaming streaming-IsConsistent

remove_client-Left_example :
    Left
      (λ c. eqb c "alice" && registered "alice" streaming)
      streaming
      (remove_client_locked streaming "alice").1
    × IsConsistent (remove_client_locked streaming "alice").1
    × ((remove_client_locked streaming "alice").0 ≡ registered "alice" streaming)
remove_client-Left_example = remove_client-Left streaming "alice" streaming-IsConsistent

reap-exact_example :
    (stream_at 1 (reap_stale_query_streams (λ h. true) (λ h. none) 5_000 streaming).1 ≡ some entry)
    ↔ ((stream_at 1 streaming ≡ some entry) × IsRecent (λ h. true) (λ h. none) 5_000 entry)
reap-exact_example = reap-exact (λ h. true) (λ h. none) 5_000 1 streaming entry

should_shutdown-MayStop_example :
    (should_shutdown_locked runtime 901_000_000_000 started ≡ true)
    ↔ MayStop runtime 901_000_000_000 started
should_shutdown-MayStop_example = should_shutdown-MayStop runtime 901_000_000_000 started

request-counted_example :
    ((end_request (begin_request runtime 5_000 5_000 (some "alice") streaming)).inflight_requests
      ≡ streaming.inflight_requests)
    × ((end_request (begin_diagnostic_request runtime 5_000 5_000 streaming)).inflight_requests
        ≡ streaming.inflight_requests)
    × ((begin_request runtime 5_000 5_000 (some "alice") streaming).last_request_at ≡ 5_000)
    × ((begin_diagnostic_request runtime 5_000 5_000 streaming).last_request_at
        ≡ streaming.last_request_at)
request-counted_example =
    request-counted runtime 5_000 5_000 (some "alice") streaming streaming-IsConsistent
      (rw run.6 (omega arith))

lease-exact_example :
    is_expired 61_999 (new_client runtime 2_000 "alice" registration)
    ≡ leb (2_000 + 60 * 1_000) 61_999
lease-exact_example = lease-exact runtime 2_000 60 61_999 "alice" registration refl (omega arith)

register-stored_example :
    ((has_blank runtime 2_000 "alice" registration started ≡ true)
      × (is_ok (register_client runtime 2_000 "alice" registration started).0 ≡ false)
      × ((register_client runtime 2_000 "alice" registration started).1 ≡ started))
    ⊎ ((has_blank runtime 2_000 "alice" registration started ≡ false)
        × IsRegistered runtime 2_000 "alice" registration started
            (register_client runtime 2_000 "alice" registration started))
register-stored_example = register-stored runtime 2_000 "alice" registration started

normalize-normalize_example :
    (normalize_client_id (normalize_client_id (some " alice "))
      ≡ normalize_client_id (some " alice "))
    × (normalize_client_id (some " alice ")
        ≡ (if is_blank " alice " then none else some (trim " alice ")))
normalize-normalize_example = normalize-normalize " alice "

attached-IsConsistent : IsConsistent attached
attached-IsConsistent = Reach-IsConsistent default_server_config 0 1_000 attached attached_reached

detach-IsDetached_example :
    IsDetached "alice" "s"
      (pruned 4_000 attached)
      (detach_space 4_000 "s" (some "alice") attached).1
detach-IsDetached_example = detach-IsDetached 4_000 "s" "alice" attached run.3 run.4

insert-IsNumbered_example :
    IsNumbered (insert_query_stream 4_000 9 "s" (some "alice") started)
    × (started.next_query_stream_id < u64_max
        → (stream_at started.next_query_stream_id started ≡ none)
          × ((id : ℕ)
              → (id == started.next_query_stream_id) ≡ false
              → stream_at id (insert_query_stream 4_000 9 "s" (some "alice") started)
                ≡ stream_at id started))
insert-IsNumbered_example = insert-IsNumbered 4_000 9 "s" (some "alice") started started-IsNumbered

handle-owner_example : (normalize_client_id (some "alice") ≡ some "alice") × (entry.handle ≡ 9)
handle-owner_example =
    handle-owner 5_000 1 (some "alice") streaming 9 "alice" entry run.7 refl run.8

close-exact_example :
    ((close_sqlite_query_stream (λ s. s) 5_000 1 (some "alice") streaming).0 ≡ ok true)
    × ((j : ℕ)
        → stream_at j (close_sqlite_query_stream (λ s. s) 5_000 1 (some "alice") streaming).1
          ≡ (if j == 1 then none else stream_at j streaming))
close-exact_example = close-exact 5_000 1 (some "alice") streaming 9 run.9

lease-wraps_example :
    is_expired 2_000
      (new_client runtime 2_000 "alice" (record registration { lease_ttl_secs = some (2 ^ 62) }))
    ≡ true
lease-wraps_example =
    lease-wraps runtime 2_000 (2 ^ 62) 2_000 "alice"
      (record registration { lease_ttl_secs = some (2 ^ 62) }) refl (omega arith) (omega arith)
      (omega arith) (omega arith)

renew-stored_example :
    ((renew_client runtime 3_000 "alice" (some 90) session).0
      ≡ ok (
          snapshot_client_state
            (renew_lease runtime 3_000 (some 90) (new_client runtime 2_000 "alice" registration))))
    × (BTreeMap.get "alice" (renew_client runtime 3_000 "alice" (some 90) session).1.clients
        ≡ some
            (renew_lease runtime 3_000 (some 90) (new_client runtime 2_000 "alice" registration)))
    × ((renew_lease runtime 50_000 none (
          renew_lease runtime 3_000
            (some 90)
            (new_client runtime 2_000 "alice" registration))).expires_at_unix_ms
        ≡ lease_expiry 50_000 90)
renew-stored_example =
    renew-stored runtime 3_000 50_000 "alice" 90 (new_client runtime 2_000 "alice" registration)
      session run.2

reenable-unregisters_example :
    (is_ok (enable_backend sqlite request (ok backend) (some "alice") enabled).0 ≡ true)
    × (BTreeMap.get "/s/db" (
          (enable_backend sqlite request (ok backend) (some "alice") enabled).1.resource_backends
            sqlite)
        ≡ none)
reenable-unregisters_example =
    reenable-unregisters sqlite request (some "alice") enabled (ok backend) held bound backend keys
      run.10
