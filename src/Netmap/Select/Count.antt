-- ===== src/Netmap/Select/Count.antt =====
-- `getSelection` (netmap/selector.go) gives no node twice: how often a node is in the groups, for nodes
-- told apart by any test.
use neofs_sdk_go.Prelude.{
  ℕ, zero, suc, ◌+◌, ◌%◌, ◌^◌, ◌≤◌, ◌≡◌, refl, ap, ap₂, ◌∙◌, sym, Bool, String, List, [], ◌∷◌, ◌++◌,
  map, arith, ltb, leb, ◌==◌, str_eq, if◌then◌else◌, length, take, drop, take-append-drop,
  Bool-cases, inl, inr,
}
use mathlib.Core.List.{Permᴰ}
use neofs_sdk_go.Prelude.Result.{ok, >>=-eq-ok}
use neofs_sdk_go.Netmap.Node.{NodeInfo, attribute}
use neofs_sdk_go.Netmap.Select.{
  Selector, Bucket, Orders, add_node, group_by, singles, with_nodes, buckets, bucket_count,
  nodes_in_bucket, full_groups, fallback_groups, append_at, length_at, merge, sorted_groups, finish,
  sorted_buckets, max_nodes, candidates, choose,
}

-- The orders from outside only reorder.
pub record Reorders (o : Orders) : Type 0 where
  pub hrw_nodes_perm : (ns : List NodeInfo) → Permᴰ (o.hrw_nodes ns) ns
  pub hrw_groups_perm : (gs : List (List NodeInfo)) → Permᴰ (o.hrw_groups gs) gs
  pub by_first_node_perm : (gs : List Bucket) → Permᴰ (o.by_first_node gs) gs
  pub by_attribute_perm : (gs : List Bucket) → Permᴰ (o.by_attribute gs) gs
  pub map_order_perm : (gs : List Bucket) → Permᴰ (o.map_order gs) gs

-- A sum over a list.
abbrev pub sum {ℓ} : {A : Type ℓ} → (A → ℕ) → List A → ℕ
sum f [] = 0
sum f (x ∷ xs) = f x + sum f xs

pub sum-append {ℓ} :
    {A : Type ℓ} (f : A → ℕ) (xs ys : List A) → sum f (xs ++ ys) ≡ sum f xs + sum f ys
sum-append f [] ys = omega arith
sum-append f (x ∷ xs) ys = omega (arith, sum-append f xs ys)

sum-take {ℓ} : {A : Type ℓ} (f : A → ℕ) (n : ℕ) (xs : List A) → sum f (take n xs) ≤ sum f xs
sum-take f zero xs = omega arith
sum-take f (suc n) [] = omega arith
sum-take f (suc n) (x ∷ xs) = omega (arith, sum-take f n xs)

sum_split {ℓ} :
    {A : Type ℓ} (f : A → ℕ) (n : ℕ) (xs : List A)
    → sum f (take n xs) + sum f (drop n xs) ≡ sum f xs
sum_split f n xs = sym (sum-append f (take n xs) (drop n xs)) ∙ ap (sum f) (take-append-drop n xs)

pub sum-Permᴰ {ℓ} : {A : Type ℓ} (f : A → ℕ) {xs ys : List A} → Permᴰ xs ys → sum f xs ≡ sum f ys
sum-Permᴰ f Permᴰ.nil = refl
sum-Permᴰ f (Permᴰ.cons e p) = ap₂ ◌+◌ (ap f e) (sum-Permᴰ f p)
sum-Permᴰ f (Permᴰ.swap e e') = omega (arith, ap f e, ap f e')
sum-Permᴰ f (Permᴰ.trans p q) = sum-Permᴰ f p ∙ sum-Permᴰ f q

module _ (P : NodeInfo → Bool) where
  abbrev pub times : NodeInfo → ℕ
  times b = if P b then 1 else 0

  -- How many nodes pass the test, in a list, in groups, in buckets.
  abbrev pub count : List NodeInfo → ℕ
  count bs = sum times bs

  abbrev pub counts : List (List NodeInfo) → ℕ
  counts gs = sum count gs

  abbrev pub bucket_counts : List Bucket → ℕ
  bucket_counts gs = sum (λ (g : Bucket). count g.nodes) gs

  singles_count : (bs : List NodeInfo) → bucket_counts (singles bs) ≡ count bs
  unfolding singles
  singles_count [] = refl
  singles_count (b ∷ bs) = omega (arith, singles_count bs)

  add_node_count :
      (v : String) (b : NodeInfo) (gs : List Bucket)
      → bucket_counts (add_node v b gs) ≡ times b + bucket_counts gs
  unfolding add_node
  add_node_count v b [] = omega arith
  add_node_count v b (g ∷ gs) = elim (Bool-cases (str_eq g.attr v)) [
    | inl e ↦ rw e (omega (arith, sum-append times g.nodes (b ∷ [])))
    | inr e ↦ rw e (omega (arith, add_node_count v b gs))
  ]

  group_by_count :
      (attr : String) (bs : List NodeInfo) (gs : List Bucket)
      → bucket_counts (group_by attr bs gs) ≡ count bs + bucket_counts gs
  unfolding group_by
  group_by_count attr [] gs = omega arith
  group_by_count attr (b ∷ bs) gs = omega (
    arith,
    group_by_count attr bs (add_node (attribute b attr) b gs),
    add_node_count (attribute b attr) b gs,
  )

  inner_count :
      (f : List NodeInfo → List NodeInfo) (gs : List Bucket)
      → ((ns : List NodeInfo) → Permᴰ (f ns) ns)
      → bucket_counts (map (with_nodes f) gs) ≡ bucket_counts gs
  inner_count f [] p = refl
  inner_count f (g ∷ gs) p = ap₂ ◌+◌ (sum-Permᴰ times (p g.nodes)) (inner_count f gs p)

  pub buckets_count :
      (o : Orders) (seeded : Bool) (s : Selector) (bs : List NodeInfo)
      → Reorders o
      → bucket_counts (buckets o seeded s bs) ≡ count bs
  unfolding buckets
  buckets_count o seeded s bs r =
      let plain : bucket_counts
            (if str_eq s.attribute "" then singles bs else o.map_order (group_by s.attribute bs []))
          ≡ count bs =
        elim (Bool-cases (str_eq s.attribute "")) [
          | inl e ↦ rw e (singles_count bs)
          | inr e ↦ rw e (
              sum-Permᴰ (λ (g : Bucket). count g.nodes)
                (r.map_order_perm (group_by s.attribute bs []))
              ∙ omega (arith, group_by_count s.attribute bs []))
        ] in
      elim (Bool-cases seeded) [
        | inl e ↦ rw e (inner_count o.hrw_nodes _ r.hrw_nodes_perm ∙ plain)
        | inr e ↦ rw e plain
      ]

  sorted_buckets_count :
      (o : Orders) (seeded : Bool) (s : Selector) (gs : List Bucket)
      → Reorders o
      → bucket_counts (sorted_buckets o seeded s gs) ≡ bucket_counts gs
  unfolding sorted_buckets
  sorted_buckets_count o seeded s gs r = elim (Bool-cases seeded) [
    | inl e ↦ rw e
    | inr e ↦ elim (Bool-cases (str_eq s.attribute "")) [
      | inl e' ↦ rw (e, e') (sum-Permᴰ (λ (g : Bucket). count g.nodes) (r.by_first_node_perm gs))
      | inr e' ↦ rw (e, e') (sum-Permᴰ (λ (g : Bucket). count g.nodes) (r.by_attribute_perm gs))
    ]
  ]

  groups_count :
      (least max : ℕ) (gs : List Bucket)
      → counts (full_groups max gs) + counts (fallback_groups least max gs) ≤ bucket_counts gs
  unfolding full_groups fallback_groups
  groups_count least max [] = omega arith
  groups_count least max (g ∷ gs) =
      let ih = groups_count least max gs in
      elim (Bool-cases (leb max (length g.nodes))) [
        | inl e ↦ rw e (omega (arith, ih, sum-take times max g.nodes))
        | inr e ↦ elim (Bool-cases (leb least (length g.nodes))) [
          | inl e' ↦ rw (e, e') (omega (arith, ih))
          | inr e' ↦ rw (e, e') (omega (arith, ih))
        ]
      ]

  candidates_count :
      (max n : ℕ) (s : Selector) (gs : List Bucket)
      → counts (candidates max n s gs) ≤ bucket_counts gs
  unfolding candidates
  candidates_count max n s gs =
      let l = groups_count (nodes_in_bucket s) max gs in
      elim (Bool-cases (ltb (length (full_groups max gs)) n)) [
        | inl e ↦ rw e (
            omega (
              arith,
              l,
              sum-append count (full_groups max gs) (fallback_groups (nodes_in_bucket s) max gs),
            ))
        | inr e ↦ rw e (omega (arith, l))
      ]

  append_at_count :
      (i : ℕ) (ns : List NodeInfo) (gs : List (List NodeInfo))
      → counts (append_at i ns gs) ≤ counts gs + count ns
  unfolding append_at
  append_at_count i ns [] = omega arith
  append_at_count zero ns (g ∷ gs) = omega (arith, sum-append times g ns)
  append_at_count (suc i) ns (g ∷ gs) = omega (arith, append_at_count i ns gs)

  merge_count :
      (max n i : ℕ) (res gs : List (List NodeInfo)) {r : List (List NodeInfo)}
      → merge max n i res gs ≡ ok r
      → counts r ≤ counts res + counts gs
  unfolding merge
  merge_count max n i res [] {r} h = let q : res ≡ r = cc h in omega (arith, ap counts q)
  merge_count max n i res (g ∷ gs) {r} h = elim (Bool-cases (n == 0)) [
    | inl e ↦ absurd (cc (rw e at h))
    | inr e ↦ elim (Bool-cases (leb max (length_at (i % n) res))) [
      | inl e' ↦ let q : res ≡ r = cc (rw (e, e') at h) in omega (arith, ap counts q)
      | inr e' ↦
          let ih = merge_count max n (i + 1) (append_at (i % n) g res) gs (rw (e, e') at h) in
          omega (arith, ih, append_at_count (i % n) g res)
    ]
  ]

  finish_count :
      (o : Orders) (seeded : Bool) (s : Selector) (max : ℕ) (res : List (List NodeInfo))
      {r : List (List NodeInfo)}
      → Reorders o
      → finish o seeded s max res ≡ ok r
      → counts r ≤ counts res
  unfolding finish sorted_groups
  finish_count o seeded s max res {r} ro h =
      let sorted = if seeded then o.hrw_groups res else res in
      let n = bucket_count s in
      let same : counts sorted ≡ counts res = elim (Bool-cases seeded) [
        | inl e ↦ rw e (sum-Permᴰ count (ro.hrw_groups_perm res))
        | inr e ↦ rw e
      ] in
      let (t, e, k) =
        >>=-eq-ok
          (if str_eq s.attribute ""
            then merge max n 0 (take n sorted) (drop n sorted)
            else ok sorted)
          (λ x. ok (take n x)) h in
      let less : counts t ≤ counts sorted = elim (Bool-cases (str_eq s.attribute "")) [
        | inl a ↦
            let l = merge_count max n 0 (take n sorted) (drop n sorted) (simp a at e) in
            omega (arith, l, sum_split count n sorted)
        | inr a ↦ let q : sorted ≡ t = cc (simp a at e) in omega (arith, ap counts q)
      ] in
      let q : take n t ≡ r = cc k in omega (arith, ap counts q, sum-take count n t, less, same)

  pub choose_count :
      (o : Orders) (seeded : Bool) (cbf : ℕ) (s : Selector) (gs : List Bucket)
      {r : List (List NodeInfo)}
      → Reorders o
      → choose o seeded cbf s gs ≡ ok r
      → counts r ≤ bucket_counts gs
  unfolding choose
  choose_count o seeded cbf s gs {r} ro h =
      let n = bucket_count s in
      let max = max_nodes cbf s in
      let res = candidates max n s (sorted_buckets o seeded s gs) in
      elim (Bool-cases (ltb (length gs) n)) [
        | inl e ↦ absurd (cc (simp e at h))
        | inr e ↦ elim (Bool-cases (leb (2 ^ 63) max)) [
          | inl e' ↦ absurd (cc (simp (e, e') at h))
          | inr e' ↦ elim (Bool-cases (ltb (length res) n)) [
            | inl e'' ↦ absurd (cc (simp (e, e', e'') at h))
            | inr e'' ↦ omega (
              arith,
              finish_count o seeded s max res ro (simp (e, e', e'') at h),
              candidates_count max n s (sorted_buckets o seeded s gs),
              sorted_buckets_count o seeded s gs ro,
            )
          ]
        ]
      ]
