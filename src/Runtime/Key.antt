-- ===== src/Runtime/Key.antt =====
-- controller/src/core/runtime.rs: the key of a backend binding, with its derived order.
use vldb_controller.Base.{String, ◌≡◌, Ordering, arith}
use vldb_controller.Base.Order.{Ord, then_with, str_cmp, str_refl, str_eq, str_flip, str_trans}

-- The derived order: by `space_id`, then by `binding_id`.
pub record BindingKey : Type 0 where
  pub space_id : String
  pub binding_id : String

unfoldable pub key_cmp : BindingKey → BindingKey → Ordering
key_cmp a b = then_with (str_cmp a.space_id b.space_id) (str_cmp a.binding_id b.binding_id)

pub key_refl : (a : BindingKey) → key_cmp a a ≡ Ordering.eq
unfolding key_cmp
key_refl a = ground (arith, str_refl a.space_id, str_refl a.binding_id)

pub key_eq : (a b : BindingKey) → key_cmp a b ≡ Ordering.eq → a ≡ b
unfolding key_cmp
key_eq a b h = ground (arith, str_eq a.space_id b.space_id, str_eq a.binding_id b.binding_id)

pub key_flip : (a b : BindingKey) → key_cmp a b ≡ Ordering.gt → key_cmp b a ≡ Ordering.lt
unfolding key_cmp
key_flip a b h = ground (
  arith,
  str_eq a.space_id b.space_id,
  str_refl b.space_id,
  str_flip a.space_id b.space_id,
  str_flip a.binding_id b.binding_id,
)

pub key_trans :
    (a b c : BindingKey)
    → key_cmp a b ≡ Ordering.lt
    → key_cmp b c ≡ Ordering.lt
    → key_cmp a c ≡ Ordering.lt
unfolding key_cmp
key_trans a b c h k = ground (
  arith,
  str_eq a.space_id b.space_id,
  str_eq b.space_id c.space_id,
  str_trans a.space_id b.space_id c.space_id,
  str_trans a.binding_id b.binding_id c.binding_id,
)

instance abbrev pub key_ord : Ord BindingKey
key_ord = record {
  cmp = key_cmp;
  cmp_refl = key_refl;
  cmp_eq = key_eq;
  cmp_flip = key_flip;
  cmp_trans = key_trans;
}

-- `BindingKey::new`
abbrev pub binding_key : String → String → BindingKey
binding_key space_id binding_id = record { space_id = space_id; binding_id = binding_id }
