-- ===== src/Runtime/Streams.antt =====
-- controller/src/core/runtime.rs: the registry of query streams. A method that locks the state twice
-- takes the state of each lock; what vldb-sqlite's background thread does is in the arguments.
use vldb_controller.Base.{
  ℕ, ◌-◌, String, Option, none, some, Bool, true, not, if◌then◌else◌, max, ltb, is_some, unwrap_or,
}
use vldb_controller.Base.Order.{eqb, str_ord, nat_ord}
use vldb_controller.Base.Word.{saturating_add, saturating_sub}
use vldb_controller.BTreeMap
use vldb_controller.Runtime.Fault.{
  Result, ok, err, panic, ◌>>=◌, ◌>>◌, stream_not_found, stream_belongs_to, stream_needs_owner,
}
use vldb_controller.Runtime.State.{Backend, SqliteQueryStreamEntry, ControllerState}
use vldb_controller.Runtime.Keys.{normalize_client_id}
use vldb_controller.Runtime.Access.{ok_or, ensure_space_access_locked, sqlite_backend}

-- The stream enters the registry under the next identifier.
unfoldable pub insert_query_stream :
    ℕ → ℕ → String → Option String → ControllerState → ControllerState
insert_query_stream now_unix_ms handle space_id client_id state = record state {
  next_query_stream_id = max (saturating_add next_query_stream_id 1) 1;
  sqlite_query_streams =
      BTreeMap.insert next_query_stream_id
        (record {
          handle = handle;
          owner_client_id = normalize_client_id client_id;
          owner_space_id = space_id;
          last_accessed_at_unix_ms = now_unix_ms;
        })
        sqlite_query_streams;
}
  where
    open state use {next_query_stream_id, sqlite_query_streams}

abbrev insert_started :
    ℕ → String → Option String → Result ℕ → ControllerState → Result ℕ × ControllerState
insert_started now_unix_ms space_id client_id (ok handle) state =
    (ok state.next_query_stream_id, insert_query_stream now_unix_ms handle space_id client_id state)
insert_started now_unix_ms space_id client_id (err e) state = (err e, state)
insert_started now_unix_ms space_id client_id (panic message) state = (panic message, state)

-- `seen` is the state in which the binding was looked up, `state` the one in which the stream that
-- `start` began is registered. The result is the identifier of the stream.
unfoldable pub open_sqlite_query_stream_typed :
    (Backend → Result ℕ)
    → ℕ
    → String
    → String
    → Option String
    → ControllerState
    → ControllerState
    → Result ℕ × ControllerState
open_sqlite_query_stream_typed start now_unix_ms space_id binding_id client_id seen state =
    insert_started now_unix_ms space_id client_id
      (sqlite_backend seen space_id binding_id client_id >>= start) state

-- Requested and owning client agree, or the stream has no owner.
unfoldable pub ensure_stream_owner : ℕ → Option String → Option String → Result (Unit {0})
ensure_stream_owner stream_id (some requested) (some owner) =
    if eqb requested owner then ok tt else err (stream_belongs_to stream_id owner requested)
ensure_stream_owner stream_id none (some owner) = err (stream_needs_owner stream_id owner)
ensure_stream_owner stream_id requested none = ok tt

abbrev access_at : ℕ → SqliteQueryStreamEntry → SqliteQueryStreamEntry
access_at now_unix_ms entry = record entry { last_accessed_at_unix_ms = now_unix_ms }

-- The handle, if the client may use the stream.
unfoldable pub stream_for : ℕ → Option String → ControllerState → Result ℕ
stream_for stream_id requesting_client_id state = do
  entry ← ok_or (BTreeMap.get stream_id state.sqlite_query_streams) (stream_not_found stream_id)
  ensure_space_access_locked state entry.owner_space_id requesting_client_id
  ensure_stream_owner stream_id (normalize_client_id requesting_client_id) entry.owner_client_id
  ok entry.handle

unfoldable pub sqlite_query_stream_handle :
    ℕ → ℕ → Option String → ControllerState → Result ℕ × ControllerState
sqlite_query_stream_handle now_unix_ms stream_id requesting_client_id state =
    elim (stream_for stream_id requesting_client_id state) [
      | ok handle ↦ (
        ok handle,
        record state {
          sqlite_query_streams =
              BTreeMap.modify stream_id (access_at now_unix_ms) state.sqlite_query_streams;
        },
      )
      | err e ↦ (err e, state)
      | panic message ↦ (panic message, state)
    ]

-- `close_sqlite_query_stream` after its ownership check.
unfoldable pub remove_query_stream : ℕ → ControllerState → Bool × ControllerState
remove_query_stream stream_id state = (
  is_some (BTreeMap.get stream_id state.sqlite_query_streams),
  record state { sqlite_query_streams = BTreeMap.remove stream_id state.sqlite_query_streams },
)

-- `meanwhile` is what other requests do between the two locks.
unfoldable pub close_sqlite_query_stream :
    (ControllerState → ControllerState)
    → ℕ
    → ℕ
    → Option String
    → ControllerState
    → Result Bool × ControllerState
close_sqlite_query_stream meanwhile now_unix_ms stream_id client_id state =
    let (found, checked) = sqlite_query_stream_handle now_unix_ms stream_id client_id state in
    elim found [
      | ok _ ↦
          let (removed, after) = remove_query_stream stream_id (meanwhile checked) in
          (ok removed, after)
      | err e ↦ (err e, checked)
      | panic message ↦ (panic message, checked)
    ]

abbrev pub stale_threshold_ms : ℕ
stale_threshold_ms = 300_000

-- Whether a stream that `completed` tells of stays: it is not complete, or was used of late.
unfoldable pub is_fresh : (ℕ → Bool) → (ℕ → Option ℕ) → ℕ → SqliteQueryStreamEntry → Bool
is_fresh is_complete completed_at now_unix_ms entry =
    if not (is_complete entry.handle)
    then true
    else ltb
        (saturating_sub now_unix_ms (
          max (unwrap_or (completed_at entry.handle) entry.last_accessed_at_unix_ms)
            entry.last_accessed_at_unix_ms))
        stale_threshold_ms

-- `is_complete` and `completed_at` read the spool state behind a handle.
unfoldable pub reap_stale_query_streams :
    (ℕ → Bool) → (ℕ → Option ℕ) → ℕ → ControllerState → Result ℕ × ControllerState
reap_stale_query_streams is_complete completed_at now_unix_ms state =
    let kept =
      BTreeMap.retain (λ id. is_fresh is_complete completed_at now_unix_ms)
        state.sqlite_query_streams in
    (
      ok (BTreeMap.len state.sqlite_query_streams - BTreeMap.len kept),
      record state { sqlite_query_streams = kept },
    )
