-- ===== src/Registry/Prune.antt =====
-- controller/src/core/runtime.rs: `remove_client_locked` and `prune_expired_clients_locked` as a whole.
use vldb_controller.Base.{
  ℕ, String, Option, none, some, Bool, false, ◌&&◌, not, ◌≡◌, refl, arith, is_some, ◌∙◌, List, [],
  ◌∷◌, inl, inr, Option-cases,
}
use vldb_controller.Base.Order.{eqb, str_ord, eqb→eq, nat_ord}
use vldb_controller.BTreeMap
use vldb_controller.BTreeMap.Entries.{listed, holds_at}
use vldb_controller.Runtime.State.{ClientState, ControllerState}
use vldb_controller.Runtime.Clients.{
  remove_client_locked, remove_clients, is_expired, expired_client_ids,
  prune_expired_clients_locked,
}
use vldb_controller.Registry.Invariant.{IsConsistent}
use vldb_controller.Registry.Left.{Left, Left-nobody, Left-trans, Left-ext}
use vldb_controller.Registry.RemoveClient.{remove_client-absent, remove_client-present}

-- Whether the client has a session.
unfoldable pub registered : String → ControllerState → Bool
registered client_id state = is_some (BTreeMap.get client_id state.clients)

-- Whether the client has a session whose lease has ended.
abbrev pub expired_at : ℕ → Option ClientState → Bool
expired_at now none = false
expired_at now (some client) = is_expired now client

unfoldable pub expired : ℕ → String → ControllerState → Bool
expired now client_id state = expired_at now (BTreeMap.get client_id state.clients)

-- In a consistent registry, removing a client that has no session changes nothing and answers `false`;
-- removing one that has takes exactly that client out of it, with its bindings, its attachments and its
-- query streams, answers `true`, and leaves the registry consistent and the other clients, with what
-- they own and where they are attached, as they were.
pub remove_client-Left :
    (state : ControllerState) (client_id : String)
    → IsConsistent state
    → Left
        (λ c. eqb c client_id && registered client_id state)
        state
        (remove_client_locked state client_id).1
      × IsConsistent (remove_client_locked state client_id).1
      × ((remove_client_locked state client_id).0 ≡ registered client_id state)
unfolding registered
remove_client-Left state client_id h = elim (Option-cases (BTreeMap.get client_id state.clients)) [
  | inl e ↦
      rw (remove_client-absent state client_id e, e)
        (Left-ext _ _ state state (λ c. ground arith) (Left-nobody state), h, refl)
  | inr (client, e) ↦
      let (done, left, kept) = remove_client-present state client_id client h e in
      (Left-ext _ _ _ _ (λ c. rw e (ground arith)) left, kept, done ∙ rw e refl)
]

registered-Left :
    (gone : String → Bool) (state after : ControllerState)
    → Left gone state after
    → (c : String) → registered c after ≡ (registered c state && not (gone c))
unfolding registered
registered-Left gone state after p c = ground (arith, p.kept c)

pub remove_clients-Left :
    (ids : List String) (state : ControllerState)
    → IsConsistent state
    → Left (λ c. listed c ids && registered c state) state (remove_clients ids state)
      × IsConsistent (remove_clients ids state)
unfolding remove_clients listed
remove_clients-Left [] state h = (Left-nobody state, h)
remove_clients-Left (client_id ∷ rest) state h =
    let (p, h', _) = remove_client-Left state client_id h in
    let mid = (remove_client_locked state client_id).1 in
    let (q, h'') = remove_clients-Left rest mid h' in
    (
      Left-ext _ _ state (remove_clients rest mid)
          (λ c. ground (
            arith,
            registered-Left (λ c. eqb c client_id && registered client_id state) state mid p c,
            eqb→eq c client_id,
          ))
          (Left-trans _ _ state mid (remove_clients rest mid) p q),
      h'',
    )

-- In a consistent registry, pruning takes exactly the clients whose leases have ended out of it, with their
-- bindings, their attachments and their query streams; the other clients and what they own are as they
-- were, and the registry is consistent.
pub prune-Left :
    (state : ControllerState) (now : ℕ)
    → IsConsistent state
    → Left (λ c. expired now c state) state (prune_expired_clients_locked state now).1
      × IsConsistent (prune_expired_clients_locked state now).1
unfolding prune_expired_clients_locked expired_client_ids expired registered
prune-Left state now h =
    let ids = expired_client_ids now state in
    let (p, h') = remove_clients-Left ids state h in
    (Left-ext _ _ state (remove_clients ids state) same p, h')
  where
    same :
        (c : String)
        → (listed c (expired_client_ids now state) && registered c state)
          ≡ expired_at now (BTreeMap.get c state.clients)
    same c =
        rw (BTreeMap.listed-filter_keys c (λ id client. is_expired now client) state.clients)
          (go (BTreeMap.get c state.clients))
      where
        go :
            (o : Option ClientState)
            → (holds_at (λ id client. is_expired now client) c o && is_some o) ≡ expired_at now o
        go none = refl
        go (some client) = ground arith
