-- ===== src/Registry/Names.antt =====
-- controller/src/core/runtime.rs: the names by which callers identify themselves.
use vldb_controller.Base.{String, none, some, ◌≡◌, arith, if◌then◌else◌}
use vldb_controller.Base.Text.{trim, trim-trim, is_blank}
use vldb_controller.Runtime.Keys.{normalize_client_id}

-- A normalised client name is its own normal form, and a name has none exactly when it is white space.
pub normalize-normalize :
    (client_id : String)
    → (normalize_client_id (normalize_client_id (some client_id))
        ≡ normalize_client_id (some client_id))
      × (normalize_client_id (some client_id)
          ≡ (if is_blank client_id then none else some (trim client_id)))
unfolding normalize_client_id is_blank
normalize-normalize client_id = (ground (arith, trim-trim client_id), ground arith)
