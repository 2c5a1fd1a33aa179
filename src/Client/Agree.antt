-- ===== src/Client/Agree.antt =====
-- client/src/client.rs and controller/src/server.rs: what one side writes, the other reads.
use mathlib.Core.Option
use Prim.Native.String.{◌++◌}
use text.Mathlib.TextLemmas.{native_laws}
use vldb_controller.Base.{
  ℕ, zero, suc, if◌then◌else◌, not, ◌∙◌, String, Option, none, some, Bool, true, false, ◌≡◌, ◌≢◌,
  refl, ap, ◌<◌, ◌%◌, ◌^◌, ◌*◌, ◌||◌, arith, unwrap_or,
}
use vldb_controller.Base.Order.{str_ord}
use vldb_controller.Base.Text.{is_blank, trim}
use vldb_controller.Base.Except.{Except, success, failure}
use vldb_controller.BTreeMap
use vldb_controller.Types.{
  I64, nonnegative, negative, ControllerProcessMode, service, managed, SpaceKind, root, user,
  project, SpaceBackendStatus, SpaceSnapshot, ControllerStatusSnapshot,
  ControllerSqliteEnableRequest, ControllerLanceDbEnableRequest, ClientRegistration,
}
use vldb_controller.Runtime.Fault.{client_not_registered}
use vldb_controller.Runtime.Message.{message}
use vldb_controller.Runtime.State.{ClientState, ControllerState, VldbControllerRuntime}
use vldb_controller.Runtime.Sessions.{begin_request, renew_client}
use vldb_controller.Wire.Enums.{match_number, process_mode_from_proto_value}
use vldb_controller.Wire.Messages.{RenewClientLeaseRequest, ProtoClientLeaseSnapshot}
use vldb_controller.Server.Status.{
  Status, Reply, response, refused, panicked, reply, map_box_error, box_error, zero_u32_to_default,
  zero_u64_to_default, default_if_blank, blank_to_none, zero_as_none,
}
use vldb_controller.Server.Convert
use vldb_controller.Server.Convert.{sqlite_request_of, lancedb_request_of}
use vldb_controller.Server.Handlers.{Clock, renew_client_lease, with_request, answering}
use vldb_controller.Client.State.{ClientSessionState, clear_client_session_id}
use vldb_controller.Client.Recovery.{Outcome, register, adopt, replay, renewed}
use vldb_controller.Client.Calls.{
  Rpc, Answer, map_backend, is_missing_client_session_status, contains, starts_with,
  map_space_snapshot, read_status, enable_sqlite_request, enable_lance_db_request,
}
use vldb_controller.Registry.Methods.{pruned}

-- A part of the end of a text is a part of the text.
contains-append : (a b part : String) → contains b part ≡ true → contains (a ++ b) part ≡ true
unfolding contains
contains-append String.[] b part h = rw (native_laws.nil-append b) h
contains-append (String.◌∷◌ c a) b part h =
    rw (native_laws.cons-append c a b, contains-append a b part h)
      (or-true (starts_with (String.◌∷◌ c (a ++ b)) part))
  where
    or-true : (x : Bool) → (x || true) ≡ true
    or-true true = refl
    or-true false = refl

missing-client_not_registered :
    (id : String)
    → is_missing_client_session_status (map_box_error (box_error (client_not_registered id))) ≡ true
unfolding is_missing_client_session_status map_box_error box_error message
missing-client_not_registered id =
    contains-append "client `" (id ++ "` is not registered") "is not registered"
      (contains-append id "` is not registered" "is not registered" refl)

-- What the client is told of a renewal: the channel carries responses and statuses, and a handler that panics
-- ends the call with a status of the transport.
abbrev pub renewal_answer : Status → Reply ProtoClientLeaseSnapshot → Except Status (Unit {0})
renewal_answer broken (response snapshot) = success tt
renewal_answer broken (refused status) = failure status
renewal_answer broken (panicked text) = failure broken

module _ (runtime : VldbControllerRuntime) (clock : Clock) (req : RenewClientLeaseRequest)
    (state : ControllerState) where
  -- The session that the renewal finds: the request has begun, and the expired sessions are gone.
  abbrev pub found : Option ClientState
  found =
      BTreeMap.get req.client_session_id
        (pruned clock.called_unix_ms (
          begin_request runtime clock.now clock.begun_unix_ms (some req.client_session_id)
            state)).clients

  module _ {S : Type 0} (call : (rpc : Rpc) → S → Except Status (Answer rpc) × S)
      (registration : ClientRegistration) (client : ClientSessionState) (s : S)
      (broken : Status) where
    -- What the client does with the answer of the controller.
    abbrev pub client_after : Reply ProtoClientLeaseSnapshot → Outcome S (Unit {0})
    client_after r =
        renewed call registration req.client_session_id client (renewal_answer broken r, s)

    -- The client forgets its session and registers again, or it keeps it, and replays what is to be replayed.
    abbrev pub IsHandled : Option ClientState → Reply ProtoClientLeaseSnapshot → Type 0
    IsHandled none r =
        client_after r
        ≡ adopt call registration (clear_client_session_id client) (register call registration s)
    IsHandled (some lease) r = client_after r ≡ (
        if not client.session_needs_replay
        then (success tt, (client, s))
        else replay call req.client_session_id client s)

    -- The client that gets the controller's answer to a renewal forgets its session and registers again exactly
    -- when the controller, once the expired sessions are gone, has no such session; when it has, the renewal is granted and the client goes on with
    -- its session, replaying its desired state if that is still to be done.
    pub renew-IsHandled : IsHandled found (renew_client_lease runtime clock req state).0
    unfolding renew_client_lease with_request answering renew_client reply
    renew-IsHandled = go found refl
      where
        go :
            (o : Option ClientState)
            → found ≡ o
            → IsHandled o (renew_client_lease runtime clock req state).0
        go none e = rw (renew_client, e, missing-client_not_registered req.client_session_id) refl
        go (some lease) e = rw (renew_client, e) refl

small-u32 : (n : ℕ) → n < 2 ^ 32 → n % 2 ^ 32 ≡ n
small-u32 n h = omega arith

backend-roundtrip :
    (o : Option SpaceBackendStatus)
    → Option.map map_backend (Option.map Convert.map_backend_status o) ≡ o
unfolding Convert.map_backend_status
backend-roundtrip none = refl
backend-roundtrip (some status) = refl

fields-roundtrip :
    (kind : SpaceKind) (id label space_root : String) (n : ℕ) (a b : Option SpaceBackendStatus)
    → n < 2 ^ 32
    → map_space_snapshot (
        Convert.map_space_snapshot (record {
          space_id = id;
          space_label = label;
          space_kind = kind;
          space_root = space_root;
          attached_clients = n;
          sqlite = a;
          lancedb = b;
        }))
      ≡ success (record {
        space_id = id;
        space_label = label;
        space_kind = kind;
        space_root = space_root;
        attached_clients = n;
        sqlite = a;
        lancedb = b;
      })
unfolding map_space_snapshot Convert.map_space_snapshot Convert.map_space_kind match_number
fields-roundtrip root id label r n a b h =
    rw (small-u32 n h, backend-roundtrip a, backend-roundtrip b) refl
fields-roundtrip user id label r n a b h =
    rw (small-u32 n h, backend-roundtrip a, backend-roundtrip b) refl
fields-roundtrip project id label r n a b h =
    rw (small-u32 n h, backend-roundtrip a, backend-roundtrip b) refl

status-roundtrip :
    (mode : ControllerProcessMode) (addr : String) (s l u i d x y z : ℕ) (c : Bool)
    → x < 2 ^ 32
    → y < 2 ^ 32
    → z < 2 ^ 32
    → read_status (
        some (
          Convert.map_controller_status_snapshot (record {
            process_mode = mode;
            bind_addr = addr;
            started_at_unix_ms = s;
            last_request_at_unix_ms = l;
            minimum_uptime_secs = u;
            idle_timeout_secs = i;
            default_lease_ttl_secs = d;
            active_clients = x;
            attached_spaces = y;
            inflight_requests = z;
            shutdown_candidate = c;
          })))
      ≡ success (record {
        process_mode = mode;
        bind_addr = addr;
        started_at_unix_ms = s;
        last_request_at_unix_ms = l;
        minimum_uptime_secs = u;
        idle_timeout_secs = i;
        default_lease_ttl_secs = d;
        active_clients = x;
        attached_spaces = y;
        inflight_requests = z;
        shutdown_candidate = c;
      })
unfolding read_status Convert.map_controller_status_snapshot process_mode_from_proto_value
    match_number Convert.map_process_mode
status-roundtrip service addr s l u i d x y z c h j k =
    rw (small-u32 x h, small-u32 y j, small-u32 z k) refl
status-roundtrip managed addr s l u i d x y z c h j k =
    rw (small-u32 x h, small-u32 y j, small-u32 z k) refl

-- What the controller reports of a space and of itself, the client reads as it was, if the counts fit into 32
-- bits.
pub snapshots-roundtrip :
    (space : SpaceSnapshot) (status : ControllerStatusSnapshot)
    → space.attached_clients < 2 ^ 32
    → status.active_clients < 2 ^ 32
    → status.attached_spaces < 2 ^ 32
    → status.inflight_requests < 2 ^ 32
    → (map_space_snapshot (Convert.map_space_snapshot space) ≡ success space)
      × (read_status (some (Convert.map_controller_status_snapshot status)) ≡ success status)
snapshots-roundtrip space status a b c d = (
  fields-roundtrip space.space_kind space.space_id space.space_label space.space_root
      space.attached_clients space.sqlite space.lancedb a,
  status-roundtrip status.process_mode status.bind_addr status.started_at_unix_ms
      status.last_request_at_unix_ms status.minimum_uptime_secs status.idle_timeout_secs
      status.default_lease_ttl_secs status.active_clients status.attached_spaces
      status.inflight_requests status.shutdown_candidate b c d,
)

-- A request that sets each option to a value of its own: no number with a default is zero and no text with a
-- default is blank.
pub record IsExplicit (request : ControllerSqliteEnableRequest) : Type 0 where
  pub pool : 0 < request.connection_pool_size
  pub pool_bound : request.connection_pool_size < 2 ^ 32
  pub busy : 0 < request.busy_timeout_ms
  pub journal : is_blank request.journal_mode ≡ false
  pub sync : is_blank request.synchronous ≡ false
  pub temp : is_blank request.temp_store ≡ false
  pub pages : 0 < request.wal_autocheckpoint_pages
  pub cache : request.cache_size_kib ≢ nonnegative 0
  pub mmap : 0 < request.mmap_size_bytes

default-positive : (n fallback : ℕ) → 0 < n → zero_u64_to_default n fallback ≡ n
unfolding zero_u64_to_default
default-positive n fallback h = ground arith

u32_default-positive : (n fallback : ℕ) → 0 < n → zero_u32_to_default n fallback ≡ n
unfolding zero_u32_to_default
u32_default-positive n fallback h = ground arith

default-set :
    (value fallback : String) → is_blank value ≡ false → default_if_blank value fallback ≡ value
unfolding default_if_blank
default-set value fallback h = rw h refl

cache-set :
    (value : I64)
    → value ≢ nonnegative 0
    → (if Convert.is_zero value then nonnegative 65_536 else value) ≡ value
cache-set (nonnegative zero) h = absurd (h refl)
cache-set (nonnegative (suc n)) h = ground arith
cache-set (negative n) h = refl

-- The controller enables SQLite with the options that the client asked for, if each is set to a value of its own.
pub sqlite_request-roundtrip :
    (session : String) (request : ControllerSqliteEnableRequest)
    → IsExplicit request
    → sqlite_request_of (enable_sqlite_request session request) ≡ request
unfolding sqlite_request_of enable_sqlite_request
sqlite_request-roundtrip session request h = cc (
  ap (λ n. zero_u32_to_default n 8) (small-u32 request.connection_pool_size h.pool_bound)
      ∙ u32_default-positive request.connection_pool_size 8 h.pool,
  default-positive request.busy_timeout_ms 5_000 h.busy,
  default-set request.journal_mode "WAL" h.journal,
  default-set request.synchronous "NORMAL" h.sync,
  default-set request.temp_store "MEMORY" h.temp,
  u32_default-positive request.wal_autocheckpoint_pages 1_000 h.pages,
  cache-set request.cache_size_kib h.cache,
  default-positive request.mmap_size_bytes 268_435_456 h.mmap,
)

-- A request for LanceDB of the same kind, whose root, if any, is a trimmed text.
pub record IsExplicitLance (request : ControllerLanceDbEnableRequest) : Type 0 where
  pub trimmed :
      (path : String) → request.db_root ≡ some path → (is_blank path ≡ false) × (trim path ≡ path)
  pub interval : request.read_consistency_interval_ms ≢ some 0
  pub payload : 0 < request.max_upsert_payload
  pub limit : 0 < request.max_search_limit
  pub parallel : 0 < request.max_concurrent_requests

root-set :
    (value : Option String)
    → ((path : String) → value ≡ some path → (is_blank path ≡ false) × (trim path ≡ path))
    → blank_to_none (unwrap_or value "") ≡ value
unfolding blank_to_none
root-set none h = refl
root-set (some path) h = rw ((h path refl).0, (h path refl).1) refl

interval-set : (value : Option ℕ) → value ≢ some 0 → zero_as_none (unwrap_or value 0) ≡ value
unfolding zero_as_none
interval-set none h = refl
interval-set (some zero) h = absurd (h refl)
interval-set (some (suc n)) h = ground arith

-- The controller enables LanceDB with the options that the client asked for, under the same condition.
pub lancedb_request-roundtrip :
    (session : String) (request : ControllerLanceDbEnableRequest)
    → IsExplicitLance request
    → lancedb_request_of (enable_lance_db_request session request) ≡ request
unfolding lancedb_request_of enable_lance_db_request
lancedb_request-roundtrip session request h = cc (
  root-set request.db_root h.trimmed,
  interval-set request.read_consistency_interval_ms h.interval,
  default-positive request.max_upsert_payload (50 * 1024 * 1024) h.payload,
  default-positive request.max_search_limit 10_000 h.limit,
  default-positive request.max_concurrent_requests 500 h.parallel,
)
