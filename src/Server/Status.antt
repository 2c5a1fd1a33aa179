-- ===== src/Server/Status.antt =====
-- controller/src/server.rs: statuses, and the conversions of single fields.
use Prim.Native.String.{◌++◌}
use vldb_controller.Base.{ℕ, String, Option, none, some, not, if◌then◌else◌, ◌==◌}
use vldb_controller.Base.Text.{trim, is_blank}
use vldb_controller.Runtime.Fault.{
  Error, Result, ok, err, panic, unreadable_request, engine_failed, upstream,
}
use vldb_controller.Runtime.Message.{message}

pub data Code : Type 0 where
  invalid_argument unavailable internal : Code
  -- Any other code, which the transport reports.
  other_code : Code

pub record Status : Type 0 where
  pub code : Code
  pub text : String

-- The errors that reach the service: the variants of `VldbControllerError` with the texts of their
-- sources, an `io::Error` of kind InvalidInput or of another kind, and any other error.
pub data BoxError : Type 0 where
  invalid_input : String → BoxError
  lock_poisoned : String → BoxError
  client_not_found : String → BoxError
  space_not_found : String → BoxError
  backend_error : String → String → BoxError
  transport_error : String → BoxError
  other : String → BoxError
  io_invalid_input : String → BoxError
  io_other : String → BoxError
  foreign : String → BoxError

unfoldable pub map_box_error : BoxError → Status
map_box_error (invalid_input text) = record { code = invalid_argument; text = text }
map_box_error (client_not_found text) = record { code = invalid_argument; text = text }
map_box_error (space_not_found text) = record { code = invalid_argument; text = text }
map_box_error (transport_error text) = record { code = unavailable; text = text }
map_box_error (lock_poisoned text) = record { code = internal; text = "lock poisoned: " ++ text }
map_box_error (backend_error backend text) = record {
  code = internal;
  text = backend ++ " backend error: " ++ text;
}
map_box_error (other text) = record { code = internal; text = text }
map_box_error (io_invalid_input text) = record { code = invalid_argument; text = text }
map_box_error (io_other text) = record { code = internal; text = text }
map_box_error (foreign text) = record { code = internal; text = text }

-- The registry's own errors are invalid input; those of the backends' crates are boxed as they are, and
-- controller/src/core/lancedb.rs boxes two kinds of error of its own.
unfoldable pub box_error : Error → BoxError
unfolding message
box_error (upstream text) = foreign text
box_error (unreadable_request text) = io_invalid_input text
box_error (engine_failed text) = io_other text
box_error e = invalid_input (message e)

-- What a handler answers; a handler that panics answers nothing.
pub data Reply {ℓ} (A : Type ℓ) : Type ℓ where
  response : A → Reply A
  refused : Status → Reply A
  panicked : String → Reply A

-- `.map_err(map_box_error)?` and the response that is made of the rest.
unfoldable pub reply {ℓ κ} : {A : Type ℓ} {B : Type κ} → (A → B) → Result A → Reply B
unfolding map_box_error box_error
reply f (ok a) = response (f a)
reply f (err e) = refused (map_box_error (box_error e))
reply f (panic text) = panicked text

unfoldable pub optional_client_session_id : String → Option String
unfolding is_blank
optional_client_session_id client_id =
    if not (is_blank client_id) then some (trim client_id) else none

unfoldable pub blank_to_none : String → Option String
unfolding is_blank
blank_to_none value = if not (is_blank value) then some (trim value) else none

unfoldable pub zero_as_none : ℕ → Option ℕ
zero_as_none value = if not (value == 0) then some value else none

unfoldable pub zero_u32_to_default : ℕ → ℕ → ℕ
zero_u32_to_default value fallback = if value == 0 then fallback else value

unfoldable pub zero_u64_to_default : ℕ → ℕ → ℕ
zero_u64_to_default value fallback = if value == 0 then fallback else value

unfoldable pub default_if_blank : String → String → String
default_if_blank value fallback = if is_blank value then fallback else value
