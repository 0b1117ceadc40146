-- ===== src/Prelude/Bits.antt =====
-- Single bits of a machine word: what `num | 1<<n` and `num & 1<<n` do to and read of a number.
use Prim.Native.Nat.{
  ℕ, zero, suc, ◌+◌, ◌*◌, ◌/◌, ◌%◌, ◌-◌, ◌^◌, ◌≤◌, ◌<◌, min, max, bit_and, bit_or, digits,
  bit_and-bitwise, bit_or-bitwise,
}
use mathlib.Core.Path.{◌≡◌, refl, ap, sym, ◌∙◌}
use mathlib.Core.Logic.{◌≢◌}
use native.Mathlib.Nat.{pow-suc}
use native.Mathlib.Omega.{arith}

-- The n-th binary digit, 0 or 1.
abbrev pub bit : ℕ → ℕ → ℕ
bit zero x = x % 2
bit (suc n) x = bit n (x / 2)

-- `digits` goes down by halves, so all fuel that covers the first number gives the same.
module _ (low : ℕ → ℕ) (op : ℕ → ℕ → ℕ) where
  digits_low : (fuel b : ℕ) → digits low op fuel zero b ≡ low b
  digits_low zero b = refl
  digits_low (suc fuel) b = refl

  digits_covered :
      (fuel fuel' a b : ℕ) → a ≤ fuel → a ≤ fuel' → digits low op fuel a b ≡ digits low op fuel' a b
  digits_covered fuel fuel' zero b c c' = digits_low fuel b ∙ sym (digits_low fuel' b)
  digits_covered zero fuel' (suc a) b c c' = absurd (omega arith)
  digits_covered (suc fuel) zero (suc a) b c c' = absurd (omega arith)
  digits_covered (suc fuel) (suc fuel') (suc a) b c c' =
      let half = digits_covered fuel fuel' (suc a / 2) (b / 2) (omega arith) (omega arith) in
      omega (arith, half)

zero-bit_or : (b : ℕ) → bit_or 0 b ≡ b
zero-bit_or b = bit_or-bitwise 0 b

bit_or_step : (a b : ℕ) → bit_or a b ≡ bit_or (a / 2) (b / 2) * 2 + max (a % 2) (b % 2)
bit_or_step zero b = omega (arith, zero-bit_or b, zero-bit_or (b / 2))
bit_or_step (suc a) b =
    let half = suc a / 2 in
    let covered = digits_covered (λ x. x) max a half half (b / 2) (omega arith) (omega arith) in
    omega (arith, covered, bit_or-bitwise half (b / 2), bit_or-bitwise (suc a) b)

no-bit_and : (b : ℕ) → bit_and 0 b ≡ 0
no-bit_and b = bit_and-bitwise 0 b

bit_and_step : (a b : ℕ) → bit_and a b ≡ bit_and (a / 2) (b / 2) * 2 + min (a % 2) (b % 2)
bit_and_step zero b = omega (arith, no-bit_and b, no-bit_and (b / 2))
bit_and_step (suc a) b =
    let half = suc a / 2 in
    let covered = digits_covered (λ x. 0) min a half half (b / 2) (omega arith) (omega arith) in
    omega (arith, covered, bit_and-bitwise half (b / 2), bit_and-bitwise (suc a) b)

pub bit-bit_or : (j a b : ℕ) → bit j (bit_or a b) ≡ max (bit j a) (bit j b)
bit-bit_or zero a b = omega (arith, bit_or_step a b)
bit-bit_or (suc j) a b =
    let e : bit_or a b / 2 ≡ bit_or (a / 2) (b / 2) = omega (arith, bit_or_step a b) in
    rw e (bit-bit_or j (a / 2) (b / 2))

pub bit-bit_and : (j a b : ℕ) → bit j (bit_and a b) ≡ min (bit j a) (bit j b)
bit-bit_and zero a b = omega (arith, bit_and_step a b)
bit-bit_and (suc j) a b =
    let e : bit_and a b / 2 ≡ bit_and (a / 2) (b / 2) = omega (arith, bit_and_step a b) in
    rw e (bit-bit_and j (a / 2) (b / 2))

pub bit_of_zero : (j : ℕ) → bit j 0 ≡ 0
bit_of_zero zero = refl
bit_of_zero (suc j) = bit_of_zero j

pow-half : (n : ℕ) → 2 ^ suc n / 2 ≡ 2 ^ n
pow-half n = omega (arith, pow-suc 2 n)

pub bit_pow_self : (n : ℕ) → bit n (2 ^ n) ≡ 1
bit_pow_self zero = refl
bit_pow_self (suc n) = rw (pow-half n) (bit_pow_self n)

pub bit_pow_ne : (j n : ℕ) → j ≢ n → bit j (2 ^ n) ≡ 0
bit_pow_ne zero zero h = absurd (h refl)
bit_pow_ne zero (suc n) h = omega (arith, pow-suc 2 n)
bit_pow_ne (suc j) zero h = bit_of_zero j
bit_pow_ne (suc j) (suc n) h = rw (pow-half n) (bit_pow_ne j n (λ e. h (ap suc e)))

pub bit_le_one : (j x : ℕ) → bit j x ≤ 1
bit_le_one zero x = omega arith
bit_le_one (suc j) x = bit_le_one j (x / 2)

-- A mask of one bit picks that digit out.
zero_mask : (x : ℕ) → bit_and x 0 ≡ 0
zero_mask x = go (suc x) x (omega arith)
  where
    go : (n x : ℕ) → x < n → bit_and x 0 ≡ 0
    go zero x h = absurd (omega arith)
    go (suc n) zero h = no-bit_and 0
    go (suc n) (suc x) h = omega (arith, bit_and_step (suc x) 0, go n (suc x / 2) (omega arith))

pub bit_and-pow : (n x : ℕ) → bit_and x (2 ^ n) ≡ bit n x * 2 ^ n
bit_and-pow zero x = omega (arith, bit_and_step x 1, zero_mask (x / 2))
bit_and-pow (suc n) x =
    let p : 2 ^ suc n / 2 ≡ 2 ^ n = pow-half n in
    let step = bit_and_step x (2 ^ suc n) in
    let ih : bit_and (x / 2) (2 ^ suc n / 2) ≡ bit n (x / 2) * 2 ^ n =
      rw p (bit_and-pow n (x / 2)) in
    let twice : bit n (x / 2) * 2 ^ suc n ≡ bit n (x / 2) * 2 ^ n * 2 =
      omega (arith, ap (λ (t : ℕ). bit n (x / 2) * t) (pow-suc 2 n)) in
    omega (arith, pow-suc 2 n)

-- The complement of a mask within a word of `w` bits.
pub bit-complement : (w j m : ℕ) → m < 2 ^ w → j < w → bit j (2 ^ w - 1 - m) ≡ 1 - bit j m
bit-complement zero j m h l = absurd (omega arith)
bit-complement (suc w) zero m h l = omega (arith, pow-suc 2 w)
bit-complement (suc w) (suc j) m h l =
    let e : (2 ^ suc w - 1 - m) / 2 ≡ 2 ^ w - 1 - m / 2 = omega (arith, pow-suc 2 w) in
    rw e (bit-complement w j (m / 2) (omega (arith, pow-suc 2 w)) (omega arith))

-- Two words with the same digits are one word, and what has no digit from `w` on fits `w` bits.
pub bit_or_lt : (w a b : ℕ) → a < 2 ^ w → b < 2 ^ w → bit_or a b < 2 ^ w
bit_or_lt zero a b p q =
    let p' : a ≡ 0 = omega arith in
    let q' : b ≡ 0 = omega arith in rw (p', q') (omega (arith, zero-bit_or 0))
bit_or_lt (suc w) a b p q = omega (
  arith,
  bit_or_step a b,
  pow-suc 2 w,
  bit_or_lt w (a / 2) (b / 2) (omega (arith, pow-suc 2 w)) (omega (arith, pow-suc 2 w)),
)
