-- ===== src/Netmap/Select/Enough.antt =====
-- How many groups `getSelection` (netmap/selector.go) returns, how large they are, and when it fails.
use neofs_sdk_go.Prelude.{
  ℕ, zero, suc, ◌+◌, ◌%◌, ◌≤◌, ◌≡◌, refl, ap, subst, ◌∙◌, sym, Bool, List, [], ◌∷◌, arith, ltb, leb,
  ◌==◌, str_eq, if◌then◌else◌, length, take, drop, length-append, length-take, All, All-append,
  Bool-cases, inl, inr,
}
use mathlib.Core.List.{Permᴰ}
use neofs_sdk_go.Prelude.Result.{Result, ok, >>=-eq-ok}
use neofs_sdk_go.Netmap.Node.{NodeInfo}
use neofs_sdk_go.Netmap.Select.{
  Selector, Bucket, Orders, SelectError, bucket_count, nodes_in_bucket, full_groups,
  fallback_groups, append_at, length_at, merge, sorted_groups, finish, candidates,
}
use neofs_sdk_go.Netmap.Select.Count.{Reorders}

pub length-Permᴰ {ℓ} : {A : Type ℓ} {xs ys : List A} → Permᴰ xs ys → length xs ≡ length ys
length-Permᴰ Permᴰ.nil = refl
length-Permᴰ (Permᴰ.cons e p) = ap suc (length-Permᴰ p)
length-Permᴰ (Permᴰ.swap e e') = refl
length-Permᴰ (Permᴰ.trans p q) = length-Permᴰ p ∙ length-Permᴰ q

All-Permᴰ {ℓ} : {A : Type ℓ} (Q : A → Type 0) {xs ys : List A} → Permᴰ xs ys → All Q ys → All Q xs
All-Permᴰ Q Permᴰ.nil a = tt
All-Permᴰ Q (Permᴰ.cons e p) (x, a) = (subst Q (sym e) x, All-Permᴰ Q p a)
All-Permᴰ Q (Permᴰ.swap e e') (x, (y, a)) = (subst Q (sym e) y, (subst Q (sym e') x, a))
All-Permᴰ Q (Permᴰ.trans p q) a = All-Permᴰ Q p (All-Permᴰ Q q a)

All-take {ℓ} : {A : Type ℓ} (Q : A → Type 0) (n : ℕ) (xs : List A) → All Q xs → All Q (take n xs)
All-take Q zero xs a = tt
All-take Q (suc n) [] a = tt
All-take Q (suc n) (x ∷ xs) (h, a) = (h, All-take Q n xs a)

-- The group has at least so many nodes.
abbrev pub Has : ℕ → List NodeInfo → Type 0
Has least g = least ≤ length g

full-Has : (least max : ℕ) (gs : List Bucket) → least ≤ max → All (Has least) (full_groups max gs)
unfolding full_groups
full-Has least max [] l = tt
full-Has least max (g ∷ gs) l = elim (Bool-cases (leb max (length g.nodes))) [
  | inr e ↦ rw e (full-Has least max gs l)
  | inl e ↦
      let h : max ≤ length g.nodes = ground arith in
      rw e (omega (arith, h, length-take max g.nodes), full-Has least max gs l)
]

fallback-Has : (least max : ℕ) (gs : List Bucket) → All (Has least) (fallback_groups least max gs)
unfolding fallback_groups
fallback-Has least max [] = tt
fallback-Has least max (g ∷ gs) = elim (Bool-cases (leb max (length g.nodes))) [
  | inl e ↦ rw e (fallback-Has least max gs)
  | inr e ↦ elim (Bool-cases (leb least (length g.nodes))) [
    | inl e' ↦ rw (e, e') (ground arith, fallback-Has least max gs)
    | inr e' ↦ rw (e, e') (fallback-Has least max gs)
  ]
]

pub candidates-Has :
    (max n : ℕ) (s : Selector) (gs : List Bucket)
    → nodes_in_bucket s ≤ max
    → All (Has (nodes_in_bucket s)) (candidates max n s gs)
unfolding candidates
candidates-Has max n s gs l = elim (Bool-cases (ltb (length (full_groups max gs)) n)) [
  | inr e ↦ rw e (full-Has (nodes_in_bucket s) max gs l)
  | inl e ↦ rw e (
      All-append (Has (nodes_in_bucket s)) (full_groups max gs)
        (fallback_groups (nodes_in_bucket s) max gs) (full-Has (nodes_in_bucket s) max gs l)
        (fallback-Has (nodes_in_bucket s) max gs))
]

length-append_at :
    (i : ℕ) (ns : List NodeInfo) (gs : List (List NodeInfo))
    → length (append_at i ns gs) ≡ length gs
unfolding append_at
length-append_at i ns [] = refl
length-append_at zero ns (g ∷ gs) = refl
length-append_at (suc i) ns (g ∷ gs) = ap suc (length-append_at i ns gs)

append_at-Has :
    (least i : ℕ) (ns : List NodeInfo) (gs : List (List NodeInfo))
    → All (Has least) gs
    → All (Has least) (append_at i ns gs)
unfolding append_at
append_at-Has least i ns [] a = tt
append_at-Has least zero ns (g ∷ gs) (h, a) = (omega (arith, length-append g ns), a)
append_at-Has least (suc i) ns (g ∷ gs) (h, a) = (h, append_at-Has least i ns gs a)

merge-Has :
    (least max n i : ℕ) (res gs : List (List NodeInfo)) {r : List (List NodeInfo)}
    → merge max n i res gs ≡ ok r
    → All (Has least) res
    → (length r ≡ length res) × All (Has least) r
unfolding merge
merge-Has least max n i res [] {r} h a =
    let q : res ≡ r = cc h in (ap length (sym q), subst (All (Has least)) q a)
merge-Has least max n i res (g ∷ gs) {r} h a = elim (Bool-cases (n == 0)) [
  | inl e ↦ absurd (cc (rw e at h))
  | inr e ↦ elim (Bool-cases (leb max (length_at (i % n) res))) [
    | inl e' ↦
        let q : res ≡ r = cc (rw (e, e') at h) in (ap length (sym q), subst (All (Has least)) q a)
    | inr e' ↦
        let (l, b) =
          merge-Has least max n (i + 1) (append_at (i % n) g res) gs (rw (e, e') at h)
            (append_at-Has least (i % n) g res a) in
        (l ∙ length-append_at (i % n) g res, b)
  ]
]

sorted-Has :
    (o : Orders) (seeded : Bool) (least : ℕ) (res : List (List NodeInfo))
    → Reorders o
    → All (Has least) res
    → (length (sorted_groups o seeded res) ≡ length res)
      × All (Has least) (sorted_groups o seeded res)
unfolding sorted_groups
sorted-Has o seeded least res ro a = elim (Bool-cases seeded) [
  | inr e ↦ rw e (refl, a)
  | inl e ↦
      rw e (length-Permᴰ (ro.hrw_groups_perm res), All-Permᴰ (Has least) (ro.hrw_groups_perm res) a)
]

-- The last steps keep `n` groups of the size.
abbrev merged : Selector → ℕ → ℕ → List (List NodeInfo) → Result SelectError (List (List NodeInfo))
merged s max n sorted =
    if str_eq s.attribute "" then merge max n 0 (take n sorted) (drop n sorted) else ok sorted

merged-Has :
    (s : Selector) (least max n : ℕ) (sorted : List (List NodeInfo)) {t : List (List NodeInfo)}
    → merged s max n sorted ≡ ok t
    → n ≤ length sorted
    → All (Has least) sorted
    → (n ≤ length t) × All (Has least) t
merged-Has s least max n sorted {t} h l a = elim (Bool-cases (str_eq s.attribute "")) [
  | inl e ↦
      let (k, b) =
        merge-Has least max n 0 (take n sorted) (drop n sorted) (simp e at h)
          (All-take (Has least) n sorted a) in
      (omega (arith, k, length-take n sorted), b)
  | inr e ↦
      let q : sorted ≡ t = cc (simp e at h) in
      (omega (arith, ap length q), subst (All (Has least)) q a)
]

pub finish-Has :
    (o : Orders) (seeded : Bool) (s : Selector) (least max : ℕ) (res : List (List NodeInfo))
    {r : List (List NodeInfo)}
    → Reorders o
    → finish o seeded s max res ≡ ok r
    → bucket_count s ≤ length res
    → All (Has least) res
    → (length r ≡ bucket_count s) × All (Has least) r
unfolding finish
finish-Has o seeded s least max res {r} ro h l a =
    let (k, b) = sorted-Has o seeded least res ro a in
    let (t, e, q) =
      >>=-eq-ok (merged s max (bucket_count s) (sorted_groups o seeded res))
        (λ x. ok (take (bucket_count s) x)) h in
    let (k', b') =
      merged-Has s least max (bucket_count s) (sorted_groups o seeded res) e (omega (arith, k)) b in
    let same : take (bucket_count s) t ≡ r = cc q in
    (
      ap length (sym same) ∙ omega (arith, length-take (bucket_count s) t),
      subst (All (Has least)) same (All-take (Has least) (bucket_count s) t b'),
    )
