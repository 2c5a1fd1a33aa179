-- ===== src/Runtime/Sessions.antt =====
-- controller/src/core/runtime.rs: requests, and the leases of client sessions. The current times and
-- the fresh session identifier (`Uuid::new_v4`) are arguments.
use vldb_controller.Base.{
  ℕ, String, Option, none, some, Bool, true, false, not, if◌then◌else◌, unwrap_or, List, [], ◌∷◌,
  map,
}
use vldb_controller.Base.Order.{str_ord}
use vldb_controller.Base.Text.{is_blank}
use vldb_controller.Base.Word.{saturating_add, saturating_sub}
use vldb_controller.BTreeMap
use vldb_controller.BTreeSet
use vldb_controller.Types.{ClientRegistration, ClientLeaseSnapshot}
use vldb_controller.Runtime.Fault.{Result, ok, err, panic, ◌>>=◌, client_not_registered}
use vldb_controller.Runtime.Key.{key_ord}
use vldb_controller.Runtime.State.{ClientState, ControllerState, VldbControllerRuntime}
use vldb_controller.Runtime.Keys.{normalize_client_id, lease_expiry}
use vldb_controller.Runtime.Validate.{validate_client_registration}
use vldb_controller.Runtime.Access.{ok_or}
use vldb_controller.Runtime.Clients.{prune_expired_clients_locked, remove_client_locked}

abbrev pub default_ttl : VldbControllerRuntime → ℕ
default_ttl runtime = runtime.server_config.runtime.default_lease_ttl_secs

-- The lease of a client starts again.
unfoldable pub touch_lease : VldbControllerRuntime → ℕ → ClientState → ClientState
touch_lease runtime now_unix_ms client = record client {
  last_seen_unix_ms = now_unix_ms;
  expires_at_unix_ms =
      lease_expiry now_unix_ms (unwrap_or client.registration.lease_ttl_secs (default_ttl runtime));
}

-- The client named by a request, as it was sent: only a blank name is ignored.
abbrev pub renew_requesting_client :
    VldbControllerRuntime → ℕ → Option String → ControllerState → ControllerState
renew_requesting_client runtime now_unix_ms none state = state
renew_requesting_client runtime now_unix_ms (some client_id) state =
    if not (is_blank client_id)
    then record state {
      clients = BTreeMap.modify client_id (touch_lease runtime now_unix_ms) state.clients;
    }
    else state

abbrev pub record_request : Bool → ℕ → ℕ → ControllerState → ControllerState
record_request true now now_unix_ms state = record state {
  last_request_at = now;
  last_request_unix_ms = now_unix_ms;
}
record_request false now now_unix_ms state = state

unfoldable pub begin_request_with_activity :
    VldbControllerRuntime → ℕ → ℕ → Option String → Bool → ControllerState → ControllerState
begin_request_with_activity runtime now now_unix_ms client_id record_activity state =
    renew_requesting_client runtime now_unix_ms client_id (
      record_request record_activity now now_unix_ms
        (prune_expired_clients_locked
          (record state { inflight_requests = saturating_add state.inflight_requests 1 })
          now_unix_ms).1)

unfoldable pub begin_request :
    VldbControllerRuntime → ℕ → ℕ → Option String → ControllerState → ControllerState
unfolding begin_request_with_activity
begin_request runtime now now_unix_ms client_id =
    begin_request_with_activity runtime now now_unix_ms client_id true

unfoldable pub begin_diagnostic_request :
    VldbControllerRuntime → ℕ → ℕ → ControllerState → ControllerState
unfolding begin_request_with_activity
begin_diagnostic_request runtime now now_unix_ms =
    begin_request_with_activity runtime now now_unix_ms none false

-- `drop` of the request guard.
unfoldable pub end_request : ControllerState → ControllerState
end_request state = record state { inflight_requests = saturating_sub state.inflight_requests 1 }

unfoldable pub snapshot_client_state : ClientState → ClientLeaseSnapshot
snapshot_client_state client = record {
  client_session_id = client.client_session_id;
  client_name = client.registration.client_name;
  host_kind = client.registration.host_kind;
  process_id = client.registration.process_id;
  process_name = client.registration.process_name;
  last_seen_unix_ms = client.last_seen_unix_ms;
  expires_at_unix_ms = client.expires_at_unix_ms;
  attached_space_ids = BTreeSet.to_list client.attached_space_ids;
}

-- `.expect(…)`
abbrev pub expect {ℓ} : {A : Type ℓ} → Option A → String → Result A
expect none message = panic message
expect (some a) message = ok a

-- The state of a client that registers now.
unfoldable pub new_client : VldbControllerRuntime → ℕ → String → ClientRegistration → ClientState
new_client runtime now_unix_ms client_session_id registration = record {
  client_session_id = client_session_id;
  registration = registration;
  last_seen_unix_ms = now_unix_ms;
  expires_at_unix_ms =
      lease_expiry now_unix_ms (unwrap_or registration.lease_ttl_secs (default_ttl runtime));
  attached_space_ids = BTreeSet.new;
  owned_binding_keys = λ kind. BTreeSet.new;
}

abbrev pub insert_client : String → ClientState → ControllerState → ControllerState
insert_client client_session_id client state = record state {
  clients = BTreeMap.insert client_session_id client state.clients;
}

abbrev register_valid :
    VldbControllerRuntime
    → ℕ
    → String
    → ClientRegistration
    → ControllerState
    → Result ClientLeaseSnapshot × ControllerState
register_valid runtime now_unix_ms client_session_id registration state =
    let inserted =
      insert_client client_session_id
        (new_client runtime now_unix_ms client_session_id registration)
        (prune_expired_clients_locked state now_unix_ms).1 in
    (
      (do
        client ←
            expect (BTreeMap.get client_session_id inserted.clients)
              "newly inserted client session must exist"
        ok (snapshot_client_state client)),
      inserted,
    )

unfoldable pub register_client :
    VldbControllerRuntime
    → ℕ
    → String
    → ClientRegistration
    → ControllerState
    → Result ClientLeaseSnapshot × ControllerState
register_client runtime now_unix_ms client_session_id registration state =
    elim (validate_client_registration registration) [
      | ok _ ↦ register_valid runtime now_unix_ms client_session_id registration state
      | err e ↦ (err e, state)
      | panic message ↦ (panic message, state)
    ]

abbrev pub or_else : Option ℕ → Option ℕ → Option ℕ
or_else none b = b
or_else (some a) b = some a

-- A lease that is renewed keeps the effective TTL for the renewals to come.
unfoldable pub renew_lease : VldbControllerRuntime → ℕ → Option ℕ → ClientState → ClientState
renew_lease runtime now_unix_ms lease_ttl_secs client = record client {
  registration = record registration { lease_ttl_secs = some effective_ttl };
  last_seen_unix_ms = now_unix_ms;
  expires_at_unix_ms = lease_expiry now_unix_ms effective_ttl;
}
  where
    open client use {registration}

    effective_ttl : ℕ
    effective_ttl =
        unwrap_or (or_else lease_ttl_secs registration.lease_ttl_secs) (default_ttl runtime)

unfoldable pub renew_client :
    VldbControllerRuntime
    → ℕ
    → String
    → Option ℕ
    → ControllerState
    → Result ClientLeaseSnapshot × ControllerState
renew_client runtime now_unix_ms client_id lease_ttl_secs state =
    let pruned = (prune_expired_clients_locked state now_unix_ms).1 in
    elim (BTreeMap.get client_id pruned.clients) [
      | none ↦ (err (client_not_registered client_id), pruned)
      | some client ↦ (
        ok (snapshot_client_state (renew_lease runtime now_unix_ms lease_ttl_secs client)),
        record pruned {
          clients =
              BTreeMap.modify client_id (renew_lease runtime now_unix_ms lease_ttl_secs)
                pruned.clients;
        },
      )
    ]

unfoldable pub unregister_client : ℕ → String → ControllerState → Result Bool × ControllerState
unregister_client now_unix_ms client_id state =
    let (removed, after) =
      remove_client_locked (prune_expired_clients_locked state now_unix_ms).1 client_id in
    (ok removed, after)

abbrev list_for : Option String → ControllerState → Result (List ClientLeaseSnapshot)
list_for none state = ok (map snapshot_client_state (BTreeMap.values state.clients))
list_for (some client_id) state = do
  client ← ok_or (BTreeMap.get client_id state.clients) (client_not_registered client_id)
  ok (snapshot_client_state client ∷ [])

unfoldable pub list_clients :
    ℕ → Option String → ControllerState → Result (List ClientLeaseSnapshot) × ControllerState
list_clients now_unix_ms client_id state =
    let pruned = (prune_expired_clients_locked state now_unix_ms).1 in
    (list_for (normalize_client_id client_id) pruned, pruned)

unfoldable pub reap_expired_clients : ℕ → ControllerState → Result ℕ × ControllerState
reap_expired_clients now_unix_ms state =
    let (reaped, after) = prune_expired_clients_locked state now_unix_ms in (ok reaped, after)
