-- ===== src/Runtime/Shutdown.antt =====
-- controller/src/core/runtime.rs: when a managed controller may stop itself.
use vldb_controller.Base.{ℕ, ◌*◌, Bool, true, false, not, ◌||◌, if◌then◌else◌, ltb, leb}
use vldb_controller.Base.Order.{str_ord, nat_ord}
use vldb_controller.Base.Word.{saturating_sub}
use vldb_controller.BTreeMap
use vldb_controller.BTreeSet
use vldb_controller.Types.{ControllerProcessMode, service, managed, ControllerStatusSnapshot}
use vldb_controller.Runtime.Fault.{Result, ok, sqlite, lancedb}
use vldb_controller.Runtime.State.{SpaceState, ControllerState, VldbControllerRuntime}
use vldb_controller.Runtime.Clients.{prune_expired_clients_locked}

abbrev is_managed : ControllerProcessMode → Bool
is_managed service = false
is_managed managed = true

-- `Instant::elapsed`, in nanoseconds.
abbrev pub elapsed : ℕ → ℕ → ℕ
elapsed now since = saturating_sub now since

-- `Duration::from_secs`
abbrev pub from_secs : ℕ → ℕ
from_secs seconds = seconds * 1_000_000_000

unfoldable pub is_in_use : SpaceState → Bool
is_in_use space =
    not (BTreeSet.is_empty space.attached_clients)
    || not (BTreeMap.is_empty (space.bindings sqlite))
    || not (BTreeMap.is_empty (space.bindings lancedb))

unfoldable pub should_shutdown_locked : VldbControllerRuntime → ℕ → ControllerState → Bool
should_shutdown_locked runtime now state =
    if not (is_managed policy.process_mode)
    then false
    else if ltb (elapsed now runtime.started_at) (from_secs policy.minimum_uptime_secs)
    then false
    else if not (BTreeMap.is_empty state.clients)
    then false
    else if ltb 0 state.inflight_requests
    then false
    else if not (BTreeMap.is_empty state.sqlite_query_streams)
    then false
    else if BTreeMap.any (λ id space. is_in_use space) state.spaces
    then false
    else leb (from_secs policy.idle_timeout_secs) (elapsed now state.last_request_at)
  where
    open runtime.server_config use {runtime as policy}

unfoldable pub should_shutdown :
    VldbControllerRuntime → ℕ → ℕ → ControllerState → Result Bool × ControllerState
should_shutdown runtime now now_unix_ms state =
    let pruned = (prune_expired_clients_locked state now_unix_ms).1 in
    (ok (should_shutdown_locked runtime now pruned), pruned)

unfoldable pub status_snapshot :
    VldbControllerRuntime
    → ℕ
    → ℕ
    → ControllerState
    → Result ControllerStatusSnapshot × ControllerState
status_snapshot runtime now now_unix_ms state =
    let pruned = (prune_expired_clients_locked state now_unix_ms).1 in
    (
      ok (record {
        process_mode = policy.process_mode;
        bind_addr = bind_addr;
        started_at_unix_ms = runtime.started_at_unix_ms;
        last_request_at_unix_ms = pruned.last_request_unix_ms;
        minimum_uptime_secs = policy.minimum_uptime_secs;
        idle_timeout_secs = policy.idle_timeout_secs;
        default_lease_ttl_secs = policy.default_lease_ttl_secs;
        active_clients = BTreeMap.len pruned.clients;
        attached_spaces = BTreeMap.len pruned.spaces;
        inflight_requests = pruned.inflight_requests;
        shutdown_candidate = should_shutdown_locked runtime now pruned;
      }),
      pruned,
    )
  where
    open runtime.server_config use {runtime as policy, bind_addr}
