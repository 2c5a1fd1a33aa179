-- ===== src/Client/Changes.antt =====
-- client/src/client.rs: the ways in which the desired state may change, each said entry by entry.
use vldb_controller.Base.{
  String, Option, none, some, Bool, true, false, not, if◌then◌else◌, refl, ap, ◌∙◌, ◌≡◌, ◌⊎◌,
}
use vldb_controller.Base.Except.{Except, success, failure}
use vldb_controller.Base.Order.{eqb, str_ord}
use vldb_controller.BTreeMap
use vldb_controller.BTreeMap.Entries.{keep_if}
use vldb_controller.Types.{
  SpaceRegistration, SpaceSnapshot, ControllerSqliteEnableRequest, ControllerLanceDbEnableRequest,
}
use vldb_controller.Runtime.Key.{BindingKey, binding_key, key_ord}
use vldb_controller.Client.State.{
  ClientSessionState, remember_attached_space, forget_attached_space, remember_sqlite_binding,
  forget_sqlite_binding, remember_lancedb_binding, forget_lancedb_binding,
}
use vldb_controller.Client.Recovery.{Outcome}
use vldb_controller.Client.Recovered.{SameDesired}

abbrev pub except {ℓ} : {A : Type ℓ} → Bool → Option A → Option A → Option A
except b new old = if b then new else old

-- The space is desired as it was registered, and nothing else is different.
abbrev pub RemembersSpace : SpaceRegistration → ClientSessionState → ClientSessionState → Type 0
RemembersSpace space before after =
    ((id : String)
      → BTreeMap.get id after.attached_spaces
        ≡ except (eqb id space.space_id) (some space) (BTreeMap.get id before.attached_spaces))
    × (after.sqlite_bindings ≡ before.sqlite_bindings)
    × (after.lancedb_bindings ≡ before.lancedb_bindings)

-- The space and all bindings in it are no longer desired, and nothing else is different.
abbrev pub ForgetsSpace : String → ClientSessionState → ClientSessionState → Type 0
ForgetsSpace space_id before after =
    ((id : String)
      → BTreeMap.get id after.attached_spaces
        ≡ except (eqb id space_id) none (BTreeMap.get id before.attached_spaces))
    × ((key : BindingKey)
        → BTreeMap.get key after.sqlite_bindings
          ≡ except (eqb key.space_id space_id) none (BTreeMap.get key before.sqlite_bindings))
    × ((key : BindingKey)
        → BTreeMap.get key after.lancedb_bindings
          ≡ except (eqb key.space_id space_id) none (BTreeMap.get key before.lancedb_bindings))

-- The binding of the key has the given request, or none, and nothing else is different.
abbrev pub SetsSqlite :
    BindingKey
    → Option ControllerSqliteEnableRequest
    → ClientSessionState
    → ClientSessionState
    → Type 0
SetsSqlite k request before after =
    (after.attached_spaces ≡ before.attached_spaces)
    × ((key : BindingKey)
        → BTreeMap.get key after.sqlite_bindings
          ≡ except (eqb key k) request (BTreeMap.get key before.sqlite_bindings))
    × (after.lancedb_bindings ≡ before.lancedb_bindings)

abbrev pub SetsLanceDb :
    BindingKey
    → Option ControllerLanceDbEnableRequest
    → ClientSessionState
    → ClientSessionState
    → Type 0
SetsLanceDb k request before after =
    (after.attached_spaces ≡ before.attached_spaces)
    × (after.sqlite_bindings ≡ before.sqlite_bindings)
    × ((key : BindingKey)
        → BTreeMap.get key after.lancedb_bindings
          ≡ except (eqb key k) request (BTreeMap.get key before.lancedb_bindings))

-- After a call that the controller answers, `Says` tells of the session, the controller's state before and after
-- the call, and the answer. The answer of an attachment is a snapshot that can be read, or a text why it cannot.
abbrev pub IsAttachEffect :
    {S : Type 0}
    → (String → S → Except String SpaceSnapshot → S → Type 0)
    → (ClientSessionState → ClientSessionState → Type 0)
    → ClientSessionState
    → Outcome S SpaceSnapshot
    → Type 0
IsAttachEffect {S = S} Says Changes before (success snapshot, (after, t)) =
    (id : String) × (u : S) × (after.client_session_id ≡ some id)
    × Says id u (success snapshot) t
    × Changes before after
IsAttachEffect {S = S} Says Changes before (failure e, (after, t)) =
    SameDesired after before
    ⊎ ((id : String) × (u : S) × (text : String) × (after.client_session_id ≡ some id)
        × Says id u (failure text) t
        × Changes before after)

-- The controller has answered whether it did what it was asked; nothing changes if not.
abbrev pub ChangesIf :
    Bool
    → (ClientSessionState → ClientSessionState → Type 0)
    → ClientSessionState
    → ClientSessionState
    → Type 0
ChangesIf true Changes before after = Changes before after
ChangesIf false Changes before after = SameDesired after before

abbrev pub IsEffect :
    {S A : Type 0}
    → (String → S → A → S → Type 0)
    → (A → ClientSessionState → ClientSessionState → Type 0)
    → ClientSessionState
    → Outcome S A
    → Type 0
IsEffect {S = S} Says Changes before (success a, (after, t)) =
    (id : String) × (u : S) × (after.client_session_id ≡ some id)
    × Says id u a t
    × Changes a before after
IsEffect Says Changes before (failure e, (after, t)) = SameDesired after before

retained {ℓ} :
    {A : Type ℓ} (space_id : String) (key : BindingKey) (o : Option A)
    → keep_if (λ (key : BindingKey) a. not (eqb key.space_id space_id)) key o
      ≡ except (eqb key.space_id space_id) none o
retained {A = A} space_id key none = go (eqb key.space_id space_id)
  where
    go : (b : Bool) → ◌≡◌ {A = Option A} none (except b none none)
    go true = refl
    go false = refl
retained {A = A} space_id key (some a) = go (eqb key.space_id space_id)
  where
    go : (b : Bool) → ◌≡◌ {A = Option A} (if not b then some a else none) (except b none (some a))
    go true = refl
    go false = refl

module _ (mid before : ClientSessionState) (same : SameDesired mid before) where
  pub remember_space-Remembers :
      (space : SpaceRegistration) → RemembersSpace space before (remember_attached_space space mid)
  unfolding remember_attached_space
  remember_space-Remembers space = (
    λ id.
        BTreeMap.get-insert id space.space_id space mid.attached_spaces
        ∙ ap (λ m. except (eqb id space.space_id) (some space) (BTreeMap.get id m)) same.0,
    same.1,
    same.2,
  )

  pub forget_space-Forgets :
      (space_id : String) → ForgetsSpace space_id before (forget_attached_space space_id mid)
  unfolding forget_attached_space
  forget_space-Forgets space_id = (
    λ id.
        BTreeMap.get-remove id space_id mid.attached_spaces
        ∙ ap (λ m. except (eqb id space_id) none (BTreeMap.get id m)) same.0,
    λ key.
        BTreeMap.get-retain key (λ key request. not (eqb key.space_id space_id)) mid.sqlite_bindings
        ∙ retained space_id key (BTreeMap.get key mid.sqlite_bindings)
        ∙ ap (λ m. except (eqb key.space_id space_id) none (BTreeMap.get key m)) same.1,
    λ key.
        BTreeMap.get-retain key (λ key request. not (eqb key.space_id space_id))
          mid.lancedb_bindings
        ∙ retained space_id key (BTreeMap.get key mid.lancedb_bindings)
        ∙ ap (λ m. except (eqb key.space_id space_id) none (BTreeMap.get key m)) same.2,
  )

  pub remember_sqlite-Sets :
      (r : ControllerSqliteEnableRequest)
      → SetsSqlite
          (binding_key r.space_id r.binding_id)
          (some r)
          before
          (remember_sqlite_binding r mid)
  unfolding remember_sqlite_binding
  remember_sqlite-Sets r = (
    same.0,
    λ key.
        BTreeMap.get-insert key (binding_key r.space_id r.binding_id) r mid.sqlite_bindings
        ∙ ap
            (λ m.
              except (eqb key (binding_key r.space_id r.binding_id)) (some r) (BTreeMap.get key m))
            same.1,
    same.2,
  )

  pub forget_sqlite-Sets :
      (i j : String) → SetsSqlite (binding_key i j) none before (forget_sqlite_binding i j mid)
  unfolding forget_sqlite_binding
  forget_sqlite-Sets i j = (
    same.0,
    λ key.
        BTreeMap.get-remove key (binding_key i j) mid.sqlite_bindings
        ∙ ap (λ m. except (eqb key (binding_key i j)) none (BTreeMap.get key m)) same.1,
    same.2,
  )

  pub remember_lancedb-Sets :
      (r : ControllerLanceDbEnableRequest)
      → SetsLanceDb
          (binding_key r.space_id r.binding_id)
          (some r)
          before
          (remember_lancedb_binding r mid)
  unfolding remember_lancedb_binding
  remember_lancedb-Sets r = (
    same.0,
    same.1,
    λ key.
        BTreeMap.get-insert key (binding_key r.space_id r.binding_id) r mid.lancedb_bindings
        ∙ ap
            (λ m.
              except (eqb key (binding_key r.space_id r.binding_id)) (some r) (BTreeMap.get key m))
            same.2,
  )

  pub forget_lancedb-Sets :
      (i j : String) → SetsLanceDb (binding_key i j) none before (forget_lancedb_binding i j mid)
  unfolding forget_lancedb_binding
  forget_lancedb-Sets i j = (
    same.0,
    same.1,
    λ key.
        BTreeMap.get-remove key (binding_key i j) mid.lancedb_bindings
        ∙ ap (λ m. except (eqb key (binding_key i j)) none (BTreeMap.get key m)) same.2,
  )
