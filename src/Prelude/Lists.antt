-- ===== src/Prelude/Lists.antt =====
-- Lists measured and indexed by native numbers, under the library's names.
use Prim.Native.Nat.{ℕ, zero, suc, ◌+◌, ◌-◌, ◌≤◌, min}
use mathlib.Core.Path.{◌≡◌, refl}
use mathlib.Core.List.{List, [], ◌∷◌, ◌++◌, append-nil}
use mathlib.Core.Option.{Option, none, some}
use native.Mathlib.Omega.{arith}

module _ {ℓ} {A : Type ℓ} where
  abbrev pub length : List A → ℕ
  length [] = 0
  length (x ∷ xs) = suc (length xs)

  abbrev pub get_elem? : List A → ℕ → Option A
  get_elem? [] i = none
  get_elem? (x ∷ xs) zero = some x
  get_elem? (x ∷ xs) (suc i) = get_elem? xs i

  abbrev pub take : ℕ → List A → List A
  take zero xs = []
  take (suc n) [] = []
  take (suc n) (x ∷ xs) = x ∷ take n xs

  abbrev pub drop : ℕ → List A → List A
  drop zero xs = xs
  drop (suc n) [] = []
  drop (suc n) (x ∷ xs) = drop n xs

module _ {ℓ} {A : Type ℓ} where
  pub length-append : (xs ys : List A) → length (xs ++ ys) ≡ length xs + length ys
  length-append [] ys = omega arith
  length-append (x ∷ xs) ys = omega (arith, length-append xs ys)

  pub take-append-drop : (n : ℕ) (xs : List A) → take n xs ++ drop n xs ≡ xs
  take-append-drop zero xs = refl
  take-append-drop (suc n) [] = refl
  take-append-drop (suc n) (x ∷ xs) = rw (take-append-drop n xs)

  pub length-take : (n : ℕ) (xs : List A) → length (take n xs) ≡ min n (length xs)
  length-take zero xs = omega arith
  length-take (suc n) [] = omega arith
  length-take (suc n) (x ∷ xs) = omega (arith, length-take n xs)

  pub length-drop : (n : ℕ) (xs : List A) → length (drop n xs) ≡ length xs - n
  length-drop zero xs = omega arith
  length-drop (suc n) [] = omega arith
  length-drop (suc n) (x ∷ xs) = omega (arith, length-drop n xs)

  -- A predicate of every element, by recursion.
  abbrev pub All {κ} : (A → Type κ) → List A → Type κ
  All P [] = Unit
  All P (x ∷ xs) = P x × All P xs

module _ {ℓ} {A : Type ℓ} where
  pub All-append {κ} : (P : A → Type κ) (xs ys : List A) → All P xs → All P ys → All P (xs ++ ys)
  All-append P [] ys hx hy = hy
  All-append P (x ∷ xs) ys hx hy = (hx.0, All-append P xs ys hx.1 hy)

module _ {ℓ} {A : Type ℓ} where
  pub take-append :
      (n : ℕ) (xs ys : List A) → take n (xs ++ ys) ≡ take n xs ++ take (n - length xs) ys
  take-append n [] ys = rw (let e : n - 0 ≡ n = omega arith in e) (take_zero n)
    where
      take_zero : (m : ℕ) → take m ys ≡ take {A = A} m [] ++ take m ys
      take_zero zero = refl
      take_zero (suc m) = refl
  take-append zero (x ∷ xs) ys = rw (let e : 0 - suc (length xs) ≡ 0 = omega arith in e)
  take-append (suc n) (x ∷ xs) ys =
      rw (take-append n xs ys, (let e : suc n - suc (length xs) ≡ n - length xs = omega arith in e))

  pub drop-append :
      (n : ℕ) (xs ys : List A) → drop n (xs ++ ys) ≡ drop n xs ++ drop (n - length xs) ys
  drop-append n [] ys = rw (let e : n - 0 ≡ n = omega arith in e) (drop_zero n)
    where
      drop_zero : (m : ℕ) → drop m ys ≡ drop {A = A} m [] ++ drop m ys
      drop_zero zero = refl
      drop_zero (suc m) = refl
  drop-append zero (x ∷ xs) ys = rw (let e : 0 - suc (length xs) ≡ 0 = omega arith in e)
  drop-append (suc n) (x ∷ xs) ys =
      rw (drop-append n xs ys, (let e : suc n - suc (length xs) ≡ n - length xs = omega arith in e))

  pub take_all : (n : ℕ) (xs : List A) → length xs ≤ n → take n xs ≡ xs
  take_all zero [] h = refl
  take_all zero (x ∷ xs) h = absurd (omega arith)
  take_all (suc n) [] h = refl
  take_all (suc n) (x ∷ xs) h = rw (take_all n xs (omega arith))

  pub drop_all : (n : ℕ) (xs : List A) → length xs ≤ n → drop n xs ≡ []
  drop_all zero [] h = refl
  drop_all zero (x ∷ xs) h = absurd (omega arith)
  drop_all (suc n) [] h = refl
  drop_all (suc n) (x ∷ xs) h = drop_all n xs (omega arith)

module _ {ℓ} {A : Type ℓ} (n : ℕ) (xs ys : List A) where
  pub take_within : n ≤ length xs → take n (xs ++ ys) ≡ take n xs
  take_within h =
      rw (take-append n xs ys, (let e : n - length xs ≡ 0 = omega arith in e)) (append-nil _)

  pub take_through : length xs ≤ n → take n (xs ++ ys) ≡ xs ++ take (n - length xs) ys
  take_through h = rw (take-append n xs ys, take_all n xs h)

  pub drop_within : n ≤ length xs → drop n (xs ++ ys) ≡ drop n xs ++ ys
  drop_within h = rw (drop-append n xs ys, (let e : n - length xs ≡ 0 = omega arith in e))

  pub drop_through : length xs ≤ n → drop n (xs ++ ys) ≡ drop (n - length xs) ys
  drop_through h = rw (drop-append n xs ys, drop_all n xs h)

pub eq_nil {ℓ} : {A : Type ℓ} (xs : List A) → length xs ≡ 0 → xs ≡ []
eq_nil [] h = refl
eq_nil (x ∷ xs) h = absurd (omega arith)
