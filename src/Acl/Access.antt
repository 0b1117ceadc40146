-- ===== src/Acl/Access.antt =====
-- What the methods of `Basic` (container/acl/acl_basic.go) change, and what they leave alone.
use neofs_sdk_go.Prelude.{
  ℕ, ap, ◌+◌, ◌*◌, ◌≤◌, ◌<◌, ◌≡◌, ◌≢◌, ◌⊎◌, ◌↔◌, ◌-◌, inl, inr, true, false, not, ◌&&◌, ◌||◌, some,
  none, arith, ◌==◌, ==_iff, if◌then◌else◌, Bool-cases, Option-cases,
}
use neofs_sdk_go.Prelude.Result.{ok, err}
use neofs_sdk_go.Acl.{
  Op, Role, Basic, u8, m_order, set_bit, is_bit_set, set_op_bit, set_op_bit_at, is_op_bit_set,
  is_op_bit_set_at, allow_op, is_op_allowed, disable_extension, extendable, make_sticky, sticky,
  is_replication_op, allow_bearer_rules, allowed_bearer_rules, role_owner, role_container,
  role_inner_ring, role_others, is_audit_op, unsupported_op,
}
use neofs_sdk_go.Acl.Word.{is_bit_set-set_bit, is_bit_set_zero, m_order_lt, m_order_inj}

-- The bits of two operations meet only if the operations and the positions are the same.
position_inj :
    (n n' p p' : ℕ)
    → n < 7
    → n' < 7
    → p < 4
    → p' < 4
    → n ≢ n'
    → (u8 (n * 4 + p) == u8 (4 * n' + p')) ≡ false
position_inj n n' p p' a b c d h = ground arith

position_same :
    (n p p' : ℕ) → n < 7 → p < 4 → p' < 4 → (u8 (n * 4 + p) == u8 (4 * n + p')) ≡ (p == p')
position_same n p p' a c d = ground arith

set_op_bit_lem :
    (x : Basic) (op : Op) (p : ℕ) {y : Basic}
    → set_op_bit x op p ≡ ok y
    → (n : ℕ) × (m_order op ≡ some n) × (y ≡ set_bit x (u8 (n * 4 + p)))
unfolding set_op_bit
set_op_bit_lem x op p h = elim (Option-cases (m_order op)) [
  | inl e ↦ cc (rw (e, set_op_bit_at) at h)
  | inr (n, e) ↦ (n, e, cc (rw (e, set_op_bit_at) at h))
]

is_op_bit_set_lem :
    (x : Basic) (op : Op) (p : ℕ) {n : ℕ}
    → m_order op ≡ some n
    → is_op_bit_set x op p ≡ ok (is_bit_set x (u8 (4 * n + p)))
unfolding is_op_bit_set
is_op_bit_set_lem x op p e = rw (e, is_op_bit_set_at)

is_op_bit_set_missing :
    (x : Basic) (op : Op) (p : ℕ) → m_order op ≡ none → is_op_bit_set x op p ≡ err unsupported_op
unfolding is_op_bit_set
is_op_bit_set_missing x op p e = rw (e, is_op_bit_set_at)

is_op_bit_set-set_op_bit :
    (x : Basic) (op op' : Op) (p p' : ℕ) {y : Basic}
    → p < 4
    → p' < 4
    → set_op_bit x op p ≡ ok y
    → is_op_bit_set y op' p' ≡ (if op == op' && p == p' then ok true else is_op_bit_set x op' p')
is_op_bit_set-set_op_bit x op op' p p' {y} c d h =
    let (n, e, w) = set_op_bit_lem x op p h in
    elim (Option-cases (m_order op')) [
      | inl e' ↦
          rw (is_op_bit_set_missing y op' p' e', is_op_bit_set_missing x op' p' e')
            (elim (Bool-cases (op == op')) [
              | inl same ↦ let q : op ≡ op' = (==_iff op op').0 same in cc (ap m_order q)
              | inr other ↦ rw other
            ])
      | inr (n', e') ↦
          let l = m_order_lt op e in
          let l' = m_order_lt op' e' in
          rw (is_op_bit_set_lem y op' p' e', is_op_bit_set_lem x op' p' e', w)
            (rw
              (is_bit_set-set_bit x (u8 (n * 4 + p)) (u8 (4 * n' + p')) (omega arith) (omega arith))
              (elim (Bool-cases (op == op')) [
                | inl same ↦
                    let q : op ≡ op' = (==_iff op op').0 same in
                    let r : n ≡ n' = cc (ap m_order q) in
                    rw same (rw (← r) (rw (position_same n p p' l c d) (ground arith)))
                | inr other ↦
                    let r : n ≢ n' =
                      λ r. cc (other, (==_iff op op').1 (m_order_inj op op' e (rw r e'))) in
                    rw (other, position_inj n n' p p' l l' c d r)
              ]))
    ]

flag-set_op_bit :
    (x : Basic) (op : Op) (p j : ℕ) {y : Basic}
    → p < 4
    → 28 ≤ j
    → j < 32
    → set_op_bit x op p ≡ ok y
    → is_bit_set y j ≡ is_bit_set x j
flag-set_op_bit x op p j c d e h =
    let (n, o, w) = set_op_bit_lem x op p h in
    let l = m_order_lt op o in
    rw (w, is_bit_set-set_bit x (u8 (n * 4 + p)) j (omega arith) e) (ground arith)

flag-is_op_bit_set :
    (x : Basic) (j : ℕ) (op : Op) (p : ℕ)
    → p < 4
    → 28 ≤ j
    → j < 32
    → is_op_bit_set (set_bit x j) op p ≡ is_op_bit_set x op p
flag-is_op_bit_set x j op p c d e = elim (Option-cases (m_order op)) [
  | inl o ↦ rw (is_op_bit_set_missing x op p o, is_op_bit_set_missing (set_bit x j) op p o)
  | inr (n, o) ↦
      let l = m_order_lt op o in
      rw (is_op_bit_set_lem x op p o, is_op_bit_set_lem (set_bit x j) op p o)
        (rw (is_bit_set-set_bit x j (u8 (4 * n + p)) e (omega arith)) (ground arith))
]

-- The bit position of a role that rules can be set for.
abbrev role_pos : Role → ℕ
role_pos role = if role == role_owner then 3 else if role == role_container then 2 else 1

allow_op_lem :
    (x : Basic) (op : Op) (role : Role) {y : Basic}
    → allow_op x op role ≡ ok y
    → (set_op_bit x op (role_pos role) ≡ ok y) × (role ≢ role_inner_ring) × (1 ≤ role) × (role ≤ 4)
unfolding allow_op
allow_op_lem x op role h = ground arith

role_pos_eq :
    (r r' : Role)
    → 1 ≤ r
    → r ≤ 4
    → r ≢ 3
    → 1 ≤ r'
    → r' ≤ 4
    → r' ≢ 3
    → (role_pos r == role_pos r') ≡ (r == r')
role_pos_eq r r' a b c d e f = ground arith

-- After rules are allowed for one operation and role, that pair is allowed, and the answer for
-- every other operation and role (panics on unsupported ones included) is what it was.
pub is_op_allowed-allow_op :
    (x : Basic) (op : Op) (role : Role) (op' : Op) (role' : Role) {y : Basic}
    → allow_op x op role ≡ ok y
    → is_op_allowed y op' role'
      ≡ (if op == op' && role == role' then ok true else is_op_allowed x op' role')
unfolding is_op_allowed
is_op_allowed-allow_op x op role op' role' {y} h =
    let (s, a, b, c) = allow_op_lem x op role h in
    ground (
      arith,
      is_op_bit_set-set_op_bit x op op' (role_pos role) 3 {y = y},
      is_op_bit_set-set_op_bit x op op' (role_pos role) 2 {y = y},
      is_op_bit_set-set_op_bit x op op' (role_pos role) 1 {y = y},
    )

-- What a word says beside the operations' access bits, observed by its getters.
pub record SameFlags (x y : Basic) : Type 0 where
  pub same_final : extendable y ≡ extendable x
  pub same_sticky : sticky y ≡ sticky x

pub record SameBearer (x y : Basic) : Type 0 where
  pub at : (op : Op) → allowed_bearer_rules y op ≡ allowed_bearer_rules x op

pub record SameAccess (x y : Basic) : Type 0 where
  pub at : (op : Op) (role : Role) → is_op_allowed y op role ≡ is_op_allowed x op role

set_op_bit-SameFlags :
    (x : Basic) (op : Op) (p : ℕ) {y : Basic} → p < 4 → set_op_bit x op p ≡ ok y → SameFlags x y
unfolding extendable sticky
set_op_bit-SameFlags x op p c h = record {
  same_final = ap not (flag-set_op_bit x op p 28 c (omega arith) (omega arith) h);
  same_sticky = flag-set_op_bit x op p 29 c (omega arith) (omega arith) h;
}

set_bit-SameBearer : (x : Basic) (j : ℕ) → 28 ≤ j → j < 32 → SameBearer x (set_bit x j)
unfolding allowed_bearer_rules
set_bit-SameBearer x j l m = record { at = λ op. flag-is_op_bit_set x j op 0 (omega arith) l m }

set_bit-SameAccess : (x : Basic) (j : ℕ) → 28 ≤ j → j < 32 → SameAccess x (set_bit x j)
unfolding is_op_allowed
set_bit-SameAccess x j l m = record {
  at = λ op role. ground (
    arith,
    flag-is_op_bit_set x j op 3 (omega arith) l m,
    flag-is_op_bit_set x j op 2 (omega arith) l m,
    flag-is_op_bit_set x j op 1 (omega arith) l m,
  );
}

-- Allowing an operation to a role changes neither the flags nor any bearer rule.
pub allow_op_frame :
    (x : Basic) (op : Op) (role : Role) {y : Basic}
    → allow_op x op role ≡ ok y
    → SameFlags x y × SameBearer x y
unfolding allowed_bearer_rules
allow_op_frame x op role {y} h =
    let (s, a, b, c) = allow_op_lem x op role h in
    let l : role_pos role < 4 = ground arith in
    (
      set_op_bit-SameFlags x op (role_pos role) l s,
      record {
        at = λ op'.
            ground (
              arith,
              is_op_bit_set-set_op_bit x op op' (role_pos role) 0 {y = y} l (omega arith) s,
            );
      },
    )

-- Allowing bearer rules for an operation allows them for it alone, and changes neither the flags
-- nor any access decision.
pub allowed_bearer_rules-allow_bearer_rules :
    (x : Basic) (op : Op) {y : Basic}
    → allow_bearer_rules x op ≡ ok y
    → ((op' : Op)
        → allowed_bearer_rules y op' ≡ (if op == op' then ok true else allowed_bearer_rules x op'))
      × SameFlags x y
      × SameAccess x y
unfolding allow_bearer_rules allowed_bearer_rules is_op_allowed
allowed_bearer_rules-allow_bearer_rules x op {y} h = (
  (λ op'.
      ground (arith, is_op_bit_set-set_op_bit x op op' 0 0 {y = y} (omega arith) (omega arith) h)),
  set_op_bit-SameFlags x op 0 (omega arith) h,
  record {
    at = λ op' role. ground (
      arith,
      is_op_bit_set-set_op_bit x op op' 0 3 {y = y} (omega arith) (omega arith) h,
      is_op_bit_set-set_op_bit x op op' 0 2 {y = y} (omega arith) (omega arith) h,
      is_op_bit_set-set_op_bit x op op' 0 1 {y = y} (omega arith) (omega arith) h,
    );
  },
)

-- `DisableExtension` makes the word FINAL and nothing else; `MakeSticky` makes it sticky and nothing
-- else.
pub flags_lem :
    (x : Basic)
    → (extendable (disable_extension x) ≡ false)
      × (sticky (disable_extension x) ≡ sticky x)
      × SameAccess x (disable_extension x)
      × SameBearer x (disable_extension x)
      × (sticky (make_sticky x) ≡ true)
      × (extendable (make_sticky x) ≡ extendable x)
      × SameAccess x (make_sticky x)
      × SameBearer x (make_sticky x)
unfolding extendable disable_extension sticky make_sticky
flags_lem x = (
  ap not (is_bit_set-set_bit x 28 28 (omega arith) (omega arith)),
  is_bit_set-set_bit x 28 29 (omega arith) (omega arith),
  set_bit-SameAccess x 28 (omega arith) (omega arith),
  set_bit-SameBearer x 28 (omega arith) (omega arith),
  is_bit_set-set_bit x 29 29 (omega arith) (omega arith),
  ap not (is_bit_set-set_bit x 29 28 (omega arith) (omega arith)),
  set_bit-SameAccess x 29 (omega arith) (omega arith),
  set_bit-SameBearer x 29 (omega arith) (omega arith),
)

-- `Op` values that the program knows.
abbrev pub IsOp : Op → Type 0
IsOp op = (1 ≤ op) × (op ≤ 7)

-- The roles and operations for which `AllowOp` does not panic.
abbrev pub CanAllow : Op → Role → Type 0
CanAllow op role =
    IsOp op
    × ((role ≡ role_owner)
        ⊎ (role ≡ role_others)
        ⊎ ((role ≡ role_container) × (is_replication_op op ≡ false)))

m_order-IsOp : (op : Op) {n : ℕ} → m_order op ≡ some n → IsOp op
unfolding m_order
m_order-IsOp op h = (ground arith, ground arith)

IsOp-m_order : (op : Op) → IsOp op → m_order op ≡ some (op - 1)
unfolding m_order
IsOp-m_order op h = ground arith

set_op_bit-IsOp :
    (x : Basic) (op : Op) (p : ℕ)
    → IsOp op
    → set_op_bit x op p ≡ ok (set_bit x (u8 ((op - 1) * 4 + p)))
unfolding set_op_bit
set_op_bit-IsOp x op p h = rw (IsOp-m_order op h, set_op_bit_at)

allow_op-CanAllow :
    (x : Basic) (op : Op) (role : Role) {y : Basic} → allow_op x op role ≡ ok y → CanAllow op role
allow_op-CanAllow x op role h =
    let (n, e, w) = set_op_bit_lem x op (role_pos role) (allow_op_lem x op role h).0 in
    (m_order-IsOp op e, unfold allow_op in ground arith)

-- `AllowOp` returns, rather than panics, exactly for a known operation together with the owner, the
-- others, or the container role where the operation is not one of replication.
pub allow_op_defined :
    (x : Basic) (op : Op) (role : Role)
    → ((y : Basic) × (allow_op x op role ≡ ok y)) ↔ CanAllow op role
unfolding allow_op
allow_op_defined x op role = (
  (λ h. let (y, e) = h in allow_op-CanAllow x op role e),
  (λ h. (
    set_bit x (u8 ((op - 1) * 4 + role_pos role)),
    ground
        (arith, set_op_bit-IsOp x op 1 h.0, set_op_bit-IsOp x op 2 h.0, set_op_bit-IsOp x op 3 h.0),
  )),
)

is_op_bit_set_zero : (op : Op) (p : ℕ) → IsOp op → p < 4 → is_op_bit_set 0 op p ≡ ok false
is_op_bit_set_zero op p h c =
    rw (is_op_bit_set_lem 0 op p (IsOp-m_order op h))
      (ap ok (is_bit_set_zero (u8 (4 * (op - 1) + p)) (omega arith)))

-- The zero word gives exactly the default rights: replication to container nodes and audit to the
-- Inner Ring, nothing else, for every known operation and role.
pub is_op_allowed_zero :
    (op : Op) (role : Role)
    → IsOp op
    → 1 ≤ role
    → role ≤ 4
    → is_op_allowed 0 op role
      ≡ ok (
          role == role_container && is_replication_op op
          || role == role_inner_ring && is_audit_op op)
unfolding is_op_allowed
is_op_allowed_zero op role h a b =
    ground (arith, is_op_bit_set_zero op 3 h, is_op_bit_set_zero op 2 h, is_op_bit_set_zero op 1 h)
