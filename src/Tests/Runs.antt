-- ===== src/Tests/Runs.antt =====
-- Concrete runs of the model.
use vldb_controller.Base.{
  ℕ, String, Option, none, some, Bool, true, false, ◌≡◌, refl, arith, ◌∙◌, sym, is_some,
}
use vldb_controller.Base.Format.{decimal, debug_option}
use vldb_controller.Base.Order.{str_ord, nat_ord}
use vldb_controller.BTreeMap
use vldb_controller.BTreeSet
use vldb_controller.Runtime.Fault.{ok, sqlite}
use vldb_controller.Runtime.Key.{BindingKey, binding_key, key_ord}
use vldb_controller.Registry.Reenable.{IsAgain}
use vldb_controller.Runtime.State.{SqliteQueryStreamEntry, BindingEntry, SpaceState, put}
use vldb_controller.Runtime.Access.{bound_backend}
use vldb_controller.Runtime.Enable.{enable_backend}
use vldb_controller.Runtime.Streams.{stream_for, sqlite_query_stream_handle}
use vldb_controller.Base.Text.{is_blank}
use vldb_controller.Runtime.Validate.{validate_client_registration}
use vldb_controller.Runtime.Sessions.{new_client}
use vldb_controller.Runtime.Spaces.{detach_space}
use vldb_controller.Registry.Streaming.{stream_at, IsNumbered}
use vldb_controller.Registry.Prune.{registered}
use vldb_controller.Registry.Methods.{pruned}
use vldb_controller.Tests.Data.{
  runtime, started, space, registration, session, attached, request, backend, enabled, streaming,
}

-- `decimal` prints a number as `to_string` does, and `debug_option` an option as `{:?}` does.
decimal_number : (decimal 65_536 ≡ "65536") × (debug_option none ≡ "None")
unfolding decimal debug_option
decimal_number = (refl, refl)

abbrev pub entry : SqliteQueryStreamEntry
entry = record {
  handle = 9;
  owner_client_id = some "alice";
  owner_space_id = "s";
  last_accessed_at_unix_ms = 4_000;
}

abbrev pub bound : BindingEntry
bound = record { owner_client_id = some "alice"; resource_key = "/s/db"; backend = backend }

abbrev pub held : SpaceState
held = record {
  registration = space;
  attached_clients = BTreeSet.insert "alice" BTreeSet.new;
  bindings = put sqlite (BTreeMap.insert "b" bound BTreeMap.empty) (λ kind. BTreeMap.empty);
}

abbrev pub keys : BTreeSet.BTreeSet BindingKey
keys = BTreeSet.insert (binding_key "s" "b") BTreeSet.new

-- A client registers, attaches a space, enables a backend, and opens and uses a query stream. It
-- is the only user of its resource.
pub run :
    (registered "alice" (pruned 2_000 started) ≡ false)
    × (validate_client_registration registration ≡ ok tt)
    × (BTreeMap.get "alice" (pruned 3_000 session).clients
        ≡ some (new_client runtime 2_000 "alice" registration))
    × (is_blank "alice" ≡ false)
    × ((detach_space 4_000 "s" (some "alice") attached).0 ≡ ok true)
    × (bound_backend sqlite enabled "s" "b" (some " alice ") ≡ ok backend)
    × (streaming.inflight_requests ≡ 0)
    × (stream_at 1 streaming ≡ some entry)
    × ((sqlite_query_stream_handle 5_000 1 (some "alice") streaming).0 ≡ ok 9)
    × (stream_for 1 (some "alice") streaming ≡ ok 9)
    × IsAgain sqlite request (some "alice") enabled (ok backend) held bound backend keys
unfolding vldb_controller.Registry.Prune.registered BTreeMap.empty BTreeMap.get
    BTreeMap.contains_key BTreeMap.modify BTreeMap.retain vldb_controller.BTreeMap.Entries.any_in
    BTreeSet.new BTreeSet.contains BTreeSet.insert BTreeSet.remove BTreeSet.to_list
    BTreeSet.is_empty vldb_controller.Base.Order.str_cmp vldb_controller.Base.Text.is_blank
    vldb_controller.Base.Word.wrapping_add vldb_controller.Base.Word.saturating_add
    vldb_controller.Base.Word.saturating_mul vldb_controller.Base.Word.saturating_sub
    vldb_controller.Runtime.Access.ensure_space_access_locked
    vldb_controller.Runtime.Access.ensure_backend_binding_creation_access_locked
    vldb_controller.Runtime.Access.binding_owner_client_id
    vldb_controller.Runtime.Access.ensure_binding_owner_match
    vldb_controller.Runtime.Access.ensure_binding_access_locked
    vldb_controller.Runtime.Access.bound_backend
    vldb_controller.Runtime.Bindings.track_binding_locked
    vldb_controller.Runtime.Bindings.untrack_binding_locked
    vldb_controller.Runtime.Bindings.remove_binding_locked vldb_controller.Runtime.Clients.is_idle
    vldb_controller.Runtime.Clients.remove_spaces vldb_controller.Runtime.Clients.release_owned
    vldb_controller.Runtime.Clients.remove_client_locked
    vldb_controller.Runtime.Clients.remove_clients
    vldb_controller.Runtime.Clients.expired_client_ids
    vldb_controller.Runtime.Clients.prune_expired_clients_locked
    vldb_controller.Runtime.Enable.backend_for_enable_locked
    vldb_controller.Runtime.Enable.replace_binding
    vldb_controller.Runtime.Enable.ensure_enable_allowed
    vldb_controller.Runtime.Enable.enable_backend vldb_controller.Runtime.Key.key_cmp
    vldb_controller.Runtime.Keys.normalize_client_id vldb_controller.Runtime.Keys.seconds_to_ms
    vldb_controller.Runtime.Keys.lease_expiry vldb_controller.Runtime.Sessions.new_client
    vldb_controller.Runtime.Sessions.register_client vldb_controller.Runtime.Spaces.link
    vldb_controller.Runtime.Spaces.attach_target vldb_controller.Runtime.Spaces.attach_space
    vldb_controller.Runtime.Spaces.owns_in_space vldb_controller.Runtime.Spaces.unlink
    vldb_controller.Runtime.Spaces.detach_client vldb_controller.Runtime.Spaces.forget_space
    vldb_controller.Runtime.Spaces.remove_if_idle vldb_controller.Runtime.Spaces.detach_space
    vldb_controller.Runtime.State.new vldb_controller.Runtime.State.put
    vldb_controller.Runtime.Streams.insert_query_stream
    vldb_controller.Runtime.Streams.ensure_stream_owner vldb_controller.Runtime.Streams.stream_for
    vldb_controller.Runtime.Streams.sqlite_query_stream_handle
    vldb_controller.Runtime.Validate.validate_client_registration
    vldb_controller.Runtime.Validate.validate_space_registration
run = (
  refl,
  refl,
  refl,
  refl,
  refl,
  refl,
  refl,
  refl,
  refl,
  refl,
  record {
    allowed = refl;
    there = refl;
    bound = refl;
    same = refl;
    registered = refl;
    configured = refl;
    listed = refl;
    alone = refl;
  },
)

pub started-IsNumbered : IsNumbered started
unfolding vldb_controller.Runtime.State.new BTreeMap.empty BTreeMap.get
started-IsNumbered = record { bounded = omega arith; below = λ id e. absurd (ground arith) }
