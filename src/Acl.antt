-- ===== src/Acl.antt =====
-- The basic ACL of a container: container/acl/acl.go (operations and roles), init.go and util.go
-- (the bit order), acl_basic.go (the `Basic` word and its methods). The proofs are in the children:
-- `Acl/Word` for single bits, `Acl/Access` for the decisions, `Acl/Presets` for the named constants.
mod Word
pub mod Access
pub mod Presets
pub mod Text
pub mod Tests
use Prim.Native.Nat.{bit_and, bit_or}
use neofs_sdk_go.Prelude.{
  ℕ, ◌+◌, ◌-◌, ◌*◌, ◌%◌, ◌^◌, Bool, true, false, not, ◌&&◌, ◌||◌, Option, none, some, List, [], ◌∷◌,
  ◌==◌, if◌then◌else◌,
}
use neofs_sdk_go.Prelude.Result.{Result, ok, err, ◌>>=◌}

-- `type Op uint32`, numbered by iota from `opZero`.
abbrev pub Op : Type 0
Op = ℕ

abbrev pub op_object_get : Op
op_object_get = 1

abbrev pub op_object_head : Op
op_object_head = 2

abbrev pub op_object_put : Op
op_object_put = 3

abbrev pub op_object_delete : Op
op_object_delete = 4

abbrev pub op_object_search : Op
op_object_search = 5

abbrev pub op_object_range : Op
op_object_range = 6

abbrev pub op_object_hash : Op
op_object_hash = 7

-- `type Role uint32`, numbered by iota from `roleZero`.
abbrev pub Role : Type 0
Role = ℕ

abbrev pub role_owner : Role
role_owner = 1

abbrev pub role_container : Role
role_container = 2

abbrev pub role_inner_ring : Role
role_inner_ring = 3

abbrev pub role_others : Role
role_others = 4

-- The program's panics, one constructor for each message.
pub data Panic : Type 0 where
  unsupported_role unsupported_op inner_ring_rules replication_rules : Panic

abbrev pub u32_mod : ℕ
u32_mod = 2 ^ 32

abbrev pub u8 : ℕ → ℕ
u8 n = n % 256

-- `1 << n` at type uint32: no bit is left of it from 32 on.
abbrev pub mask_bit : ℕ → ℕ
mask_bit n = 2 ^ n % u32_mod

pub set_bit : ℕ → ℕ → ℕ
set_bit num n = bit_or num (mask_bit n)

pub reset_bit : ℕ → ℕ → ℕ
unfolding set_bit
reset_bit num n = bit_and num (u32_mod - 1 - set_bit 0 n)

pub is_bit_set : ℕ → ℕ → Bool
is_bit_set num n = let mask = mask_bit n in not (mask == 0) && (bit_and num mask == mask)

-- left-to-right order of the object operations
abbrev pub ordered_ops : List Op
ordered_ops =
    op_object_get ∷ op_object_head ∷ op_object_put ∷ op_object_delete ∷ op_object_search
    ∷ op_object_range ∷ op_object_hash ∷ []

-- The loop of `init` over `ordered_ops`: `mOrder[orderedOps[i]] = uint8(i)`.
abbrev pub fill_order : ℕ → List Op → (Op → Option ℕ) → Op → Option ℕ
fill_order i [] m = m
fill_order i (op ∷ ops) m = fill_order (i + 1) ops (λ k. if k == op then some (u8 i) else m k)

pub m_order : Op → Option ℕ
m_order = fill_order 0 ordered_ops (λ _. none)

abbrev pub bits_per_op : ℕ
bits_per_op = 4

abbrev pub op_amount : ℕ
op_amount = 7

abbrev pub bit_pos_final : ℕ
bit_pos_final = op_amount * bits_per_op

abbrev pub bit_pos_sticky : ℕ
bit_pos_sticky = bit_pos_final + 1

abbrev pub op_bit_pos_bearer : ℕ
op_bit_pos_bearer = 0

abbrev pub op_bit_pos_others : ℕ
op_bit_pos_others = 1

abbrev pub op_bit_pos_container : ℕ
op_bit_pos_container = 2

abbrev pub op_bit_pos_owner : ℕ
op_bit_pos_owner = 3

set_op_bit_at : ℕ → ℕ → Option ℕ → Result Panic ℕ
set_op_bit_at num op_bit_pos none = err unsupported_op
set_op_bit_at num op_bit_pos (some n) = ok (set_bit num (u8 (n * bits_per_op + op_bit_pos)))

pub set_op_bit : ℕ → Op → ℕ → Result Panic ℕ
unfolding set_op_bit_at
set_op_bit num op op_bit_pos = set_op_bit_at num op_bit_pos (m_order op)

is_op_bit_set_at : ℕ → ℕ → Option ℕ → Result Panic Bool
is_op_bit_set_at num n none = err unsupported_op
is_op_bit_set_at num n (some off) = ok (is_bit_set num (u8 (bits_per_op * off + n)))

pub is_op_bit_set : ℕ → Op → ℕ → Result Panic Bool
unfolding is_op_bit_set_at
is_op_bit_set num op n = is_op_bit_set_at num n (m_order op)

-- `type Basic uint32`: the word itself. `FromBits` and `Bits` are conversions of it.
abbrev pub Basic : Type 0
Basic = ℕ

pub disable_extension : Basic → Basic
disable_extension x = set_bit x bit_pos_final

pub extendable : Basic → Bool
extendable x = not (is_bit_set x bit_pos_final)

pub make_sticky : Basic → Basic
make_sticky x = set_bit x bit_pos_sticky

pub sticky : Basic → Bool
sticky x = is_bit_set x bit_pos_sticky

pub is_replication_op : Op → Bool
is_replication_op op =
    op == op_object_get
    || op == op_object_head
    || op == op_object_put
    || op == op_object_search
    || op == op_object_hash

pub allow_op : Basic → Op → Role → Result Panic Basic
allow_op x op role =
    if role == role_inner_ring
    then err inner_ring_rules
    else if role == role_owner
    then set_op_bit x op op_bit_pos_owner
    else if role == role_container
    then (if is_replication_op op
        then err replication_rules
        else set_op_bit x op op_bit_pos_container)
    else if role == role_others
    then set_op_bit x op op_bit_pos_others
    else err unsupported_role

-- What the Inner Ring may do, whatever the word.
pub is_audit_op : Op → Bool
is_audit_op op =
    op == op_object_get || op == op_object_head || op == op_object_hash || op == op_object_search

pub is_op_allowed : Basic → Op → Role → Result Panic Bool
is_op_allowed x op role =
    if role == role_inner_ring
    then ok (is_audit_op op)
    else if role == role_owner
    then is_op_bit_set x op op_bit_pos_owner
    else if role == role_container
    then (if is_replication_op op then ok true else is_op_bit_set x op op_bit_pos_container)
    else if role == role_others
    then is_op_bit_set x op op_bit_pos_others
    else err unsupported_role

pub allow_bearer_rules : Basic → Op → Result Panic Basic
allow_bearer_rules x op = set_op_bit x op op_bit_pos_bearer

pub allowed_bearer_rules : Basic → Op → Result Panic Bool
allowed_bearer_rules x op = is_op_bit_set x op op_bit_pos_bearer
