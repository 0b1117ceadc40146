-- ===== src/Acl/Presets.antt =====
-- The named basic ACLs (the constants of container/acl/acl_basic.go).
use neofs_sdk_go.Prelude.{zero, suc, ◌≡◌, refl, true, false, not, ◌||◌, arith, ◌==◌}
use neofs_sdk_go.Prelude.Result.{ok}
use neofs_sdk_go.Acl.{
  Op, Basic, role_owner, role_others, op_object_put, op_object_delete, is_op_allowed,
  disable_extension, m_order, set_bit, is_bit_set, is_op_bit_set, extendable,
}
use neofs_sdk_go.Acl.Access.{IsOp, SameAccess, SameBearer, flags_lem}

abbrev pub private : Basic
private = 0x1C8C8CCC

abbrev pub private_extended : Basic
private_extended = 0x0C8C8CCC

abbrev pub public_ro : Basic
public_ro = 0x1FBF8CFF

abbrev pub public_ro_extended : Basic
public_ro_extended = 0x0FBF8CFF

abbrev pub public_rw : Basic
public_rw = 0x1FBFBFFF

abbrev pub public_rw_extended : Basic
public_rw_extended = 0x0FBFBFFF

abbrev pub public_append : Basic
public_append = 0x1FBF9FFF

abbrev pub public_append_extended : Basic
public_append_extended = 0x0FBF9FFF

-- `y` is `x` made FINAL: the two agree on every access decision and every bearer rule, and only
-- `x` can be extended.
pub record FinalOf (x y : Basic) : Type 0 where
  pub access : SameAccess x y
  pub bearer : SameBearer x y
  pub open_before : extendable x ≡ true
  pub closed_after : extendable y ≡ false

disable_extension-FinalOf : (x : Basic) → extendable x ≡ true → FinalOf x (disable_extension x)
disable_extension-FinalOf x h =
    let all = flags_lem x in
    record { access = all.2; bearer = all.3; open_before = h; closed_after = all.0 }

-- Each of the four plain constants is its `eacl-` counterpart made FINAL.
pub presets_final :
    FinalOf private_extended private
    × FinalOf public_ro_extended public_ro
    × FinalOf public_rw_extended public_rw
    × FinalOf public_append_extended public_append
unfolding extendable is_bit_set disable_extension set_bit
presets_final = (
  disable_extension-FinalOf private_extended refl,
  disable_extension-FinalOf public_ro_extended refl,
  disable_extension-FinalOf public_rw_extended refl,
  disable_extension-FinalOf public_append_extended refl,
)

-- Whatever the named ACL, the owner may do every known operation; others may do nothing under
-- `private`, all but put and delete under `public-read`, all but delete under `public-append`, and
-- everything under `public-read-write`.
pub presets_access :
    (op : Op)
    → IsOp op
    → (is_op_allowed private op role_owner ≡ ok true)
      × (is_op_allowed public_ro op role_owner ≡ ok true)
      × (is_op_allowed public_rw op role_owner ≡ ok true)
      × (is_op_allowed public_append op role_owner ≡ ok true)
      × (is_op_allowed private op role_others ≡ ok false)
      × (is_op_allowed public_ro op role_others
          ≡ ok (not (op == op_object_put || op == op_object_delete)))
      × (is_op_allowed public_append op role_others ≡ ok (not (op == op_object_delete)))
      × (is_op_allowed public_rw op role_others ≡ ok true)
unfolding is_op_allowed is_op_bit_set m_order is_bit_set
presets_access zero h = absurd (omega arith)
presets_access (suc zero) h = (refl, refl, refl, refl, refl, refl, refl, refl)
presets_access (suc (suc zero)) h = (refl, refl, refl, refl, refl, refl, refl, refl)
presets_access (suc (suc (suc zero))) h = (refl, refl, refl, refl, refl, refl, refl, refl)
presets_access (suc (suc (suc (suc zero)))) h = (refl, refl, refl, refl, refl, refl, refl, refl)
presets_access (suc (suc (suc (suc (suc zero))))) h =
    (refl, refl, refl, refl, refl, refl, refl, refl)
presets_access (suc (suc (suc (suc (suc (suc zero)))))) h =
    (refl, refl, refl, refl, refl, refl, refl, refl)
presets_access (suc (suc (suc (suc (suc (suc (suc zero))))))) h =
    (refl, refl, refl, refl, refl, refl, refl, refl)
presets_access (suc (suc (suc (suc (suc (suc (suc (suc n)))))))) h = absurd (omega arith)
