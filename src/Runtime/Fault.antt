-- ===== src/Runtime/Fault.antt =====
-- controller/src/core/runtime.rs: results. Each message that `invalid_input` is called with is a
-- constructor, with the values that the message shows; `panic` is a failed `expect`.
use vldb_controller.Base.{ℕ, String, Bool, true, false}

pub data BackendKind : Type 0 where
  sqlite lancedb : BackendKind

pub data Error : Type 0 where
  client_not_registered : String → Error
  attachment_needs_session : String → Error
  still_owns_bindings : String → String → Error
  client_not_attached : String → String → Error
  space_not_attached : String → Error
  space_still_in_use : String → Error
  space_needs_client : String → Error
  binding_needs_client : String → Error
  binding_belongs_to : BackendKind → String → String → String → String → Error
  binding_needs_owner : BackendKind → String → String → String → Error
  different_configuration : BackendKind → String → Error
  binding_not_enabled : BackendKind → String → String → Error
  stream_not_found : ℕ → Error
  stream_belongs_to : ℕ → String → String → Error
  stream_needs_owner : ℕ → String → Error
  identity_conflict : String → Error
  empty_field : String → Error
  -- A LanceDB request with a value or an argument that is not supported, one that is not the JSON of a request,
  -- and a failure of the engine; each has its text.
  unsupported_input : String → Error
  unreadable_request : String → Error
  engine_failed : String → Error
  -- An error that vldb-sqlite, vldb-lancedb or the file system reported.
  upstream : String → Error

pub data Result {ℓ} (A : Type ℓ) : Type ℓ where
  ok : A → Result A
  err : Error → Result A
  panic : String → Result A

infixl 5 ◌>>=◌ ◌>>◌
abbrev pub ◌>>=◌ {ℓ κ} : {A : Type ℓ} {B : Type κ} → Result A → (A → Result B) → Result B
ok a >>= f = f a
err e >>= f = err e
panic m >>= f = panic m

abbrev pub ◌>>◌ {ℓ} : {B : Type ℓ} → Result (Unit {0}) → Result B → Result B
m >> k = m >>= λ _. k

abbrev pub is_ok {ℓ} : {A : Type ℓ} → Result A → Bool
is_ok (ok a) = true
is_ok (err e) = false
is_ok (panic message) = false
