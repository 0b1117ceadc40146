-- ===== src/Relations/Walk.antt =====
-- Going along the chain of a split object to the left (`Get` of object/relations/relations.go).
use neofs_sdk_go.Prelude.{
  ℕ, zero, suc, ◌<◌, ◌≡◌, refl, false, none, some, List, [], ◌∷◌, ◌++◌, length, arith,
}
use neofs_sdk_go.Prelude.Bytes.{Bytes}
use neofs_sdk_go.Prelude.Result.{ok, err}
use neofs_sdk_go.Relations.{Executor, no_left_sibling, contains, get_left_sibling, collect_chain}

-- The first list, reversed, before the second.
abbrev pub reverse_onto : List Bytes → List Bytes → List Bytes
reverse_onto [] c = c
reverse_onto (p ∷ ps) c = reverse_onto ps (p ∷ c)

pub reverse_twice :
    (xs ps c : List Bytes) → reverse_onto (reverse_onto xs ps) c ≡ reverse_onto ps (xs ++ c)
reverse_twice [] ps c = refl
reverse_twice (x ∷ xs) ps c = reverse_twice xs (x ∷ ps) c

-- No ID stands in the list a second time.
abbrev pub IsDistinct : List Bytes → Type 0
IsDistinct [] = Unit {0}
IsDistinct (x ∷ xs) = (contains x xs ≡ false) × IsDistinct xs

-- None of the IDs is in `c` or comes before among them.
abbrev pub IsFresh : List Bytes → List Bytes → Type 0
IsFresh [] c = Unit {0}
IsFresh (p ∷ ps) c = (contains p c ≡ false) × IsFresh ps (p ∷ c)

pub reverse_onto-IsFresh :
    (xs ps c : List Bytes)
    → IsDistinct (xs ++ c)
    → IsFresh ps (xs ++ c)
    → IsFresh (reverse_onto xs ps) c
reverse_onto-IsFresh [] ps c d f = f
reverse_onto-IsFresh (x ∷ xs) ps c (n, d) f = reverse_onto-IsFresh xs (x ∷ ps) c d (n, f)

module _ (ex : Executor) where
  -- Each ID's left sibling is the next of the list, and the last has none.
  abbrev pub GoesLeft : Bytes → List Bytes → Type 0
  GoesLeft id [] = get_left_sibling ex id ≡ err no_left_sibling
  GoesLeft id (p ∷ ps) = (get_left_sibling ex id ≡ ok p) × GoesLeft p ps

  pub collect_chain_lem :
      (fuel : ℕ) (id : Bytes) (ps chain : List Bytes)
      → length ps < fuel
      → GoesLeft id ps
      → IsFresh ps chain
      → collect_chain ex fuel id chain ≡ some (ok (reverse_onto ps chain, none))
  unfolding collect_chain
  collect_chain_lem zero id ps chain l g f = absurd (omega arith)
  collect_chain_lem (suc fuel) id [] chain l g f = rw (g, collect_chain)
  collect_chain_lem (suc fuel) id (p ∷ ps) chain l (g, gs) (f, fs) =
      rw (g, collect_chain) (rw f (collect_chain_lem fuel p ps (p ∷ chain) (omega arith) gs fs))
