-- ===== src/Registry/Steps.antt =====
-- controller/src/core/runtime.rs: the methods of the runtime that take the lock as one step relation, and
-- the states that a controller reaches. The clock of a step is any time; a session identifier is one that
-- no client in the registry has.
use vldb_controller.Base.{ℕ, String, Option, Bool, false, ◌≡◌, refl}
use vldb_controller.Base.Order.{str_ord, nat_ord}
use vldb_controller.BTreeMap
use vldb_controller.Types.{ClientRegistration, SpaceRegistration, ControllerServerConfig}
use vldb_controller.Runtime.Fault.{BackendKind, Result}
use vldb_controller.Runtime.Key.{key_ord}
use vldb_controller.Runtime.State.{Backend, ControllerState, VldbControllerRuntime, new}
use vldb_controller.Runtime.Sessions.{
  begin_request_with_activity, end_request, register_client, renew_client, unregister_client,
  list_clients, reap_expired_clients,
}
use vldb_controller.Runtime.Spaces.{attach_space, detach_space}
use vldb_controller.Runtime.Enable.{EnableRequest, enable_backend, disable_backend}
use vldb_controller.Runtime.Streams.{
  insert_query_stream, sqlite_query_stream_handle, remove_query_stream, reap_stale_query_streams,
}
use vldb_controller.Runtime.Listing.{list_spaces}
use vldb_controller.Runtime.Shutdown.{should_shutdown, status_snapshot}
use vldb_controller.Registry.Views.{
  binding_at, attached_by_client, attached_by_space, owned_by, tracked,
}
use vldb_controller.Registry.Invariant.{IsConsistent}
use vldb_controller.Registry.Same.{IsConsistent-same}
use vldb_controller.Registry.Prune.{registered}
use vldb_controller.Registry.Methods.{
  pruned, pruned-IsConsistent, enable-IsConsistent, disable-IsConsistent, handle-IsConsistent,
  unregister-IsConsistent, renew_client-IsConsistent, register-IsConsistent, begin-IsConsistent,
}
use vldb_controller.Registry.Attachments.{attach-IsConsistent, detach-IsConsistent}

-- What one use of the lock does. A method that locks twice takes two steps.
pub data Step (runtime : VldbControllerRuntime) : ControllerState → ControllerState → Type 0 where
  begin :
      (s : ControllerState) (now now_ms : ℕ) (client_id : Option String) (record_activity : Bool)
      → Step runtime s (begin_request_with_activity runtime now now_ms client_id record_activity s)
  end : (s : ControllerState) → Step runtime s (end_request s)
  register :
      (s : ControllerState) (now : ℕ) (sid : String) (registration : ClientRegistration)
      → registered sid (pruned now s) ≡ false
      → Step runtime s (register_client runtime now sid registration s).1
  renew :
      (s : ControllerState) (now : ℕ) (client_id : String) (ttl : Option ℕ)
      → Step runtime s (renew_client runtime now client_id ttl s).1
  unregister :
      (s : ControllerState) (now : ℕ) (client_id : String)
      → Step runtime s (unregister_client now client_id s).1
  clients :
      (s : ControllerState) (now : ℕ) (client_id : Option String)
      → Step runtime s (list_clients now client_id s).1
  spaces :
      (s : ControllerState) (now : ℕ) (client_id : Option String)
      → Step runtime s (list_spaces now client_id s).1
  status :
      (s : ControllerState) (now now_ms : ℕ)
      → Step runtime s (status_snapshot runtime now now_ms s).1
  shutdown :
      (s : ControllerState) (now now_ms : ℕ)
      → Step runtime s (should_shutdown runtime now now_ms s).1
  reap_clients : (s : ControllerState) (now : ℕ) → Step runtime s (reap_expired_clients now s).1
  attach :
      (s : ControllerState) (now : ℕ) (registration : SpaceRegistration) (client_id : Option String)
      → Step runtime s (attach_space now registration client_id s).1
  detach :
      (s : ControllerState) (now : ℕ) (space_id : String) (client_id : Option String)
      → Step runtime s (detach_space now space_id client_id s).1
  enable :
      (s : ControllerState) (kind : BackendKind) (request : EnableRequest) (make : Result Backend)
      (client_id : Option String)
      → Step runtime s (enable_backend kind request make client_id s).1
  disable :
      (s : ControllerState) (kind : BackendKind) (space_id binding_id : String)
      (client_id : Option String)
      → Step runtime s (disable_backend kind space_id binding_id client_id s).1
  insert_stream :
      (s : ControllerState) (now handle : ℕ) (space_id : String) (client_id : Option String)
      → Step runtime s (insert_query_stream now handle space_id client_id s)
  use_stream :
      (s : ControllerState) (now id : ℕ) (client_id : Option String)
      → Step runtime s (sqlite_query_stream_handle now id client_id s).1
  remove_stream : (s : ControllerState) (id : ℕ) → Step runtime s (remove_query_stream id s).1
  reap_streams :
      (s : ControllerState) (is_complete : ℕ → Bool) (completed_at : ℕ → Option ℕ) (now : ℕ)
      → Step runtime s (reap_stale_query_streams is_complete completed_at now s).1

-- The states that a controller reaches from its start.
pub data Reach (config : ControllerServerConfig) (now now_ms : ℕ) : ControllerState → Type 0 where
  start : Reach config now now_ms (new config now now_ms).1
  next :
      (s t : ControllerState)
      → Reach config now now_ms s
      → Step (new config now now_ms).0 s t
      → Reach config now now_ms t

-- Every step of the registry, whether it is granted or refused, keeps its indexes in agreement: the
-- bindings, the bindings each client owns, the users of each resource, the registered backends with their
-- configurations, and the two lists of attachments.
pub Step-IsConsistent :
    (runtime : VldbControllerRuntime) (s t : ControllerState)
    → Step runtime s t
    → IsConsistent s
    → IsConsistent t
unfolding end_request list_clients list_spaces status_snapshot should_shutdown reap_expired_clients
    insert_query_stream remove_query_stream reap_stale_query_streams
Step-IsConsistent runtime s _ (begin _ now now_ms client_id activity) h =
    begin-IsConsistent runtime now now_ms client_id activity s h
Step-IsConsistent runtime s _ (end _) h = IsConsistent-same s _ refl refl refl refl refl h
Step-IsConsistent runtime s _ (register _ now sid registration fresh) h =
    register-IsConsistent s h runtime now sid registration fresh
Step-IsConsistent runtime s _ (renew _ now client_id ttl) h =
    renew_client-IsConsistent s h runtime now client_id ttl
Step-IsConsistent runtime s _ (unregister _ now client_id) h =
    unregister-IsConsistent s h now client_id
Step-IsConsistent runtime s _ (clients _ now client_id) h = pruned-IsConsistent s h now
Step-IsConsistent runtime s _ (spaces _ now client_id) h = pruned-IsConsistent s h now
Step-IsConsistent runtime s _ (status _ now now_ms) h = pruned-IsConsistent s h now_ms
Step-IsConsistent runtime s _ (shutdown _ now now_ms) h = pruned-IsConsistent s h now_ms
Step-IsConsistent runtime s _ (reap_clients _ now) h = pruned-IsConsistent s h now
Step-IsConsistent runtime s _ (attach _ now registration client_id) h =
    attach-IsConsistent s h now registration client_id
Step-IsConsistent runtime s _ (detach _ now space_id client_id) h =
    detach-IsConsistent s h now space_id client_id
Step-IsConsistent runtime s _ (enable _ kind request make client_id) h =
    enable-IsConsistent s h kind request make client_id
Step-IsConsistent runtime s _ (disable _ kind space_id binding_id client_id) h =
    disable-IsConsistent s h kind space_id binding_id client_id
Step-IsConsistent runtime s _ (insert_stream _ now handle space_id client_id) h =
    IsConsistent-same s _ refl refl refl refl refl h
Step-IsConsistent runtime s _ (use_stream _ now id client_id) h =
    handle-IsConsistent s h now id client_id
Step-IsConsistent runtime s _ (remove_stream _ id) h =
    IsConsistent-same s _ refl refl refl refl refl h
Step-IsConsistent runtime s _ (reap_streams _ c a now) h =
    IsConsistent-same s _ refl refl refl refl refl h

-- A controller that has just started has nothing in its indexes.
pub new-IsConsistent :
    (config : ControllerServerConfig) (now now_ms : ℕ) → IsConsistent (new config now now_ms).1
unfolding new BTreeMap.empty BTreeMap.get binding_at attached_by_client attached_by_space owned_by
    tracked
new-IsConsistent config now now_ms = record {
  indexed = record { ownership = λ k c j. refl; usage = λ k r j. refl };
  catalog = record { inhabited = λ k r. refl; configured = λ k r. refl; in_use = λ k r e. e };
  symmetric = λ c s. refl;
  owners_attached = λ k c j e. e;
  owners = λ k j. refl;
}

-- In every state that a controller reaches from its start the indexes of the registry agree.
pub Reach-IsConsistent :
    (config : ControllerServerConfig) (now now_ms : ℕ) (s : ControllerState)
    → Reach config now now_ms s
    → IsConsistent s
Reach-IsConsistent config now now_ms s start = new-IsConsistent config now now_ms
Reach-IsConsistent config now now_ms s (next before _ r step) =
    Step-IsConsistent (new config now now_ms).0 before s step
      (Reach-IsConsistent config now now_ms before r)
