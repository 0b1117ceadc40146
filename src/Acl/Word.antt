-- ===== src/Acl/Word.antt =====
-- `set_bit` and `is_bit_set` of container/acl/util.go, in terms of binary digits, and where the
-- bits of an operation stand.
use neofs_sdk_go.Prelude.{
  ℕ, ◌*◌, ◌<◌, not, ◌&&◌, ◌≡◌, inl, inr, true, false, some, arith, ◌==◌, ==_iff, if◌then◌else◌,
  Bool-cases,
}
use neofs_sdk_go.Prelude.Bits.{
  bit, bit-bit_or, bit_and-pow, bit_pow_self, bit_pow_ne, bit_le_one, bit_of_zero,
}
use neofs_sdk_go.Acl.{Op, mask_bit, set_bit, is_bit_set, m_order}
use Prim.Native.Nat.{◌^◌, ◌≤◌, suc}
use native.Mathlib.Nat.{mod-eq_of_lt, one-le-pow, pow-le-pow_right, pow-suc}

mask_bit_pow : (n : ℕ) → n < 32 → mask_bit n ≡ 2 ^ n
mask_bit_pow n h = mod-eq_of_lt (two_pow_lt n 32 h)
  where
    two_pow_lt : (i j : ℕ) → i < j → 2 ^ i < 2 ^ j
    two_pow_lt i j l =
        let p : 2 ^ suc i ≤ 2 ^ j = pow-le-pow_right {n = 2} (omega arith) l in
        omega (arith, pow-suc 2 i, one-le-pow i 2 (omega arith))

pub is_bit_set-bit : (x n : ℕ) → n < 32 → is_bit_set x n ≡ (bit n x == 1)
unfolding is_bit_set
is_bit_set-bit x n h =
    rw (mask_bit_pow n h) (rw (bit_and-pow n x) (digit (bit n x) (bit_le_one n x)))
  where
    digit : (b : ℕ) → b ≤ 1 → not (2 ^ n == 0) && (b * 2 ^ n == 2 ^ n) ≡ (b == 1)
    digit b l = ground (arith, one-le-pow n 2)

bit-set_bit : (x n j : ℕ) → n < 32 → bit j (set_bit x n) ≡ (if n == j then 1 else bit j x)
unfolding set_bit
bit-set_bit x n j p = rw (mask_bit_pow n p) (
    rw (bit-bit_or j x (2 ^ n)) (elim (Bool-cases (n == j)) [
      | inl same ↦
          let e : n ≡ j = (==_iff n j).0 same in
          rw (same, e, bit_pow_self j) (omega (arith, bit_le_one j x))
      | inr other ↦ rw (other, bit_pow_ne j n (ground arith)) (omega (arith, bit_le_one j x))
    ]))

pub is_bit_set-set_bit :
    (x n j : ℕ)
    → n < 32
    → j < 32
    → is_bit_set (set_bit x n) j ≡ (if n == j then true else is_bit_set x j)
is_bit_set-set_bit x n j p q =
    rw (is_bit_set-bit (set_bit x n) j q, is_bit_set-bit x j q, bit-set_bit x n j p) (ground arith)

pub m_order_lt : (op : Op) {n : ℕ} → m_order op ≡ some n → n < 7
unfolding m_order
m_order_lt op h = ground arith

pub m_order_inj : (op op' : Op) {n : ℕ} → m_order op ≡ some n → m_order op' ≡ some n → op ≡ op'
unfolding m_order
m_order_inj op op' h h' = ground arith

pub is_bit_set_zero : (n : ℕ) → n < 32 → is_bit_set 0 n ≡ false
is_bit_set_zero n h = rw (is_bit_set-bit 0 n h, bit_of_zero n)
