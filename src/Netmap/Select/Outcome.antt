-- ===== src/Netmap/Select/Outcome.antt =====
-- The two outcomes of `getSelection` (netmap/selector.go).
use neofs_sdk_go.Prelude.{
  ℕ, zero, suc, ◌+◌, ◌^◌, ◌≤◌, ◌<◌, ◌≡◌, ◌↔◌, ap, ◌∙◌, sym, Bool, true, false, List, [], ◌∷◌, arith,
  ltb, leb, ltb→lt, lt→ltb, ◌%◌, ◌==◌, str_eq, if◌then◌else◌, length, take, drop, length-append,
  All, Bool-cases, inl, inr,
}
use native.Mathlib.Nat.{mul-suc}
use neofs_sdk_go.Prelude.Result.{Result, ok, err, ◌>>=◌, Result-cases}
use neofs_sdk_go.Netmap.Node.{NodeInfo}
use neofs_sdk_go.Netmap.Filter.{Context}
use neofs_sdk_go.Netmap.Select.{
  Selector, Bucket, Orders, SelectError, not_enough_nodes, collect, passes, buckets, bucket_count,
  nodes_in_bucket, full_groups, fallback_groups, length_at, append_at, merge, sorted_groups, finish,
  sorted_buckets, max_nodes, candidates, choose, get_selection,
}
use neofs_sdk_go.Netmap.Select.Count.{
  Reorders, sum, sum-Permᴰ, count, counts, choose_count, buckets_count,
}
use neofs_sdk_go.Netmap.Select.Enough.{Has, finish-Has, candidates-Has}

-- How many buckets have as many nodes as a bucket must give.
abbrev pub large_enough : ℕ → List Bucket → ℕ
large_enough least gs = sum (λ (g : Bucket). if leb least (length g.nodes) then 1 else 0) gs

max_nodes_ge : (cbf : ℕ) (s : Selector) → 1 ≤ cbf → nodes_in_bucket s ≤ max_nodes cbf s
unfolding max_nodes
max_nodes_ge zero s h = absurd (omega arith)
max_nodes_ge (suc c) s h = omega (arith, mul-suc (nodes_in_bucket s) c)

groups_large :
    (least max : ℕ) (gs : List Bucket)
    → least ≤ max
    → length (full_groups max gs) + length (fallback_groups least max gs) ≡ large_enough least gs
unfolding full_groups fallback_groups
groups_large least max [] l = omega arith
groups_large least max (g ∷ gs) l =
    let ih = groups_large least max gs l in
    elim (Bool-cases (leb max (length g.nodes))) [
      | inl e ↦
          let e' : leb least (length g.nodes) ≡ true = ground arith in
          rw (e, e') (omega (arith, ih))
      | inr e ↦ elim (Bool-cases (leb least (length g.nodes))) [
        | inl e' ↦ rw (e, e') (omega (arith, ih))
        | inr e' ↦ rw (e, e') (omega (arith, ih))
      ]
    ]

large_le : (least : ℕ) (gs : List Bucket) → large_enough least gs ≤ length gs
large_le least [] = omega arith
large_le least (g ∷ gs) = ground (arith, large_le least gs)

candidates_large :
    (max n : ℕ) (s : Selector) (gs : List Bucket)
    → nodes_in_bucket s ≤ max
    → ltb (length (candidates max n s gs)) n ≡ ltb (large_enough (nodes_in_bucket s) gs) n
unfolding candidates
candidates_large max n s gs l =
    let k = groups_large (nodes_in_bucket s) max gs l in
    elim (Bool-cases (ltb (length (full_groups max gs)) n)) [
      | inl e ↦ rw e (
          ap (λ t. ltb t n)
            (length-append (full_groups max gs) (fallback_groups (nodes_in_bucket s) max gs) ∙ k))
      | inr e ↦ rw e (ground (arith, k))
    ]

sorted_large :
    (o : Orders) (seeded : Bool) (s : Selector) (least : ℕ) (gs : List Bucket)
    → Reorders o
    → large_enough least (sorted_buckets o seeded s gs) ≡ large_enough least gs
unfolding sorted_buckets
sorted_large o seeded s least gs r = elim (Bool-cases seeded) [
  | inl e ↦ rw e
  | inr e ↦ elim (Bool-cases (str_eq s.attribute "")) [
    | inl e' ↦
        rw (e, e')
          (sum-Permᴰ (λ (g : Bucket). if leb least (length g.nodes) then 1 else 0)
            (r.by_first_node_perm gs))
    | inr e' ↦
        rw (e, e')
          (sum-Permᴰ (λ (g : Bucket). if leb least (length g.nodes) then 1 else 0)
            (r.by_attribute_perm gs))
  ]
]

merge_enough :
    (max n i : ℕ) (res gs : List (List NodeInfo)) → merge max n i res gs ≡ err not_enough_nodes → ⊥
unfolding merge
merge_enough max n i res [] h = cc h
merge_enough max n i res (g ∷ gs) h = elim (Bool-cases (n == 0)) [
  | inl e ↦ cc (rw e at h)
  | inr e ↦ elim (Bool-cases (leb max (length_at (i % n) res))) [
    | inl e' ↦ cc (rw (e, e') at h)
    | inr e' ↦ merge_enough max n (i + 1) (append_at (i % n) g res) gs (rw (e, e') at h)
  ]
]

bind_err :
    {A B : Type 0} (m : Result SelectError A) (f : A → B) {e : SelectError}
    → (m >>= λ a. ok (f a)) ≡ err e
    → m ≡ err e
bind_err (ok a) f h = absurd (cc h)
bind_err (err x) f h = cc h

finish_enough :
    (o : Orders) (seeded : Bool) (s : Selector) (max : ℕ) (res : List (List NodeInfo))
    → finish o seeded s max res ≡ err not_enough_nodes
    → ⊥
unfolding finish
finish_enough o seeded s max res h =
    let n = bucket_count s in
    let sorted = sorted_groups o seeded res in
    let e =
      bind_err
        (if str_eq s.attribute "" then merge max n 0 (take n sorted) (drop n sorted) else ok sorted)
        (take n) h in
    elim (Bool-cases (str_eq s.attribute "")) [
      | inl a ↦ merge_enough max n 0 (take n sorted) (drop n sorted) (simp a at e)
      | inr a ↦ cc (simp a at e)
    ]

-- Within the range of Go's int, and with a positive backup factor, the choice fails for want of nodes
-- exactly if fewer buckets than asked for have the nodes that a bucket must give.
pub choose_fails :
    (o : Orders) (seeded : Bool) (cbf : ℕ) (s : Selector) (gs : List Bucket)
    → Reorders o
    → 1 ≤ cbf
    → max_nodes cbf s < 2 ^ 63
    → (choose o seeded cbf s gs ≡ err not_enough_nodes)
      ↔ (large_enough (nodes_in_bucket s) gs < bucket_count s)
unfolding choose
choose_fails o seeded cbf s gs r one small =
    let l = max_nodes_ge cbf s one in
    let n = bucket_count s in
    let max = max_nodes cbf s in
    let sorted = sorted_buckets o seeded s gs in
    let res = candidates max n s sorted in
    let fits : leb (2 ^ 63) max ≡ false = ground arith in
    let k : ltb (length res) n ≡ ltb (large_enough (nodes_in_bucket s) gs) n =
      candidates_large max n s sorted l
      ∙ ap (λ t. ltb t n) (sorted_large o seeded s (nodes_in_bucket s) gs r) in
    (
      (λ h. elim (Bool-cases (ltb (length gs) n)) [
        | inl e ↦ omega (arith, large_le (nodes_in_bucket s) gs, ltb→lt (length gs) n e)
        | inr e ↦ elim (Bool-cases (ltb (length res) n)) [
          | inl e' ↦ ltb→lt (large_enough (nodes_in_bucket s) gs) n (sym k ∙ e')
          | inr e' ↦ absurd (finish_enough o seeded s max res (simp (e, fits, e') at h))
        ]
      ]),
      (λ h. elim (Bool-cases (ltb (length gs) n)) [
        | inl e ↦ rw e
        | inr e ↦ rw (e, fits, k ∙ lt→ltb (large_enough (nodes_in_bucket s) gs) n h)
      ]),
    )

-- What a successful choice is.
choose_ok :
    (o : Orders) (seeded : Bool) (cbf : ℕ) (s : Selector) (gs : List Bucket)
    {r : List (List NodeInfo)}
    → Reorders o
    → nodes_in_bucket s ≤ max_nodes cbf s
    → choose o seeded cbf s gs ≡ ok r
    → (length r ≡ bucket_count s) × All (Has (nodes_in_bucket s)) r
unfolding choose
choose_ok o seeded cbf s gs ro l h =
    let n = bucket_count s in
    let max = max_nodes cbf s in
    let sorted = sorted_buckets o seeded s gs in
    let res = candidates max n s sorted in
    elim (Bool-cases (ltb (length gs) n)) [
      | inl e ↦ absurd (cc (simp e at h))
      | inr e ↦ elim (Bool-cases (leb (2 ^ 63) max)) [
        | inl e' ↦ absurd (cc (simp (e, e') at h))
        | inr e' ↦ elim (Bool-cases (ltb (length res) n)) [
          | inl e'' ↦ absurd (cc (simp (e, e', e'') at h))
          | inr e'' ↦
              finish-Has o seeded s (nodes_in_bucket s) max res ro (simp (e, e', e'') at h)
                (ground arith) (candidates-Has max n s sorted l)
        ]
      ]
    ]

-- A selection that succeeds has exactly the number of groups that the selector asks for, each with the
-- nodes that a group must have, and no node is in them more often than among the nodes of the network
-- map that pass the filter, whichever test tells nodes apart.
pub get_selection_lem :
    (o : Orders) (c : Context) (fuel : ℕ) (seeded : Bool) (cbf : ℕ) (nodes : List NodeInfo)
    (s : Selector) {r : List (List NodeInfo)}
    → Reorders o
    → 1 ≤ cbf
    → get_selection o c fuel seeded cbf nodes s ≡ ok r
    → (length r ≡ bucket_count s)
      × All (Has (nodes_in_bucket s)) r
      × ((chosen : List NodeInfo) × (collect (passes c fuel s) nodes ≡ ok chosen)
          × ((P : NodeInfo → Bool) → counts P r ≤ count P chosen))
unfolding get_selection
get_selection_lem o c fuel seeded cbf nodes s ro l h =
    elim (Result-cases (collect (passes c fuel s) nodes)) [
      | inl (e, q) ↦ absurd (cc (rw (q, get_selection) at h))
      | inr (chosen, q) ↦
          let gs = buckets o seeded s chosen in
          let k = rw (q, get_selection) at h in
          let (a, b) = choose_ok o seeded cbf s gs ro (max_nodes_ge cbf s l) k in
          (
            a,
            b,
            (
              chosen,
              q,
              λ P. omega (
                arith,
                choose_count P o seeded cbf s gs ro k,
                buckets_count P o seeded s chosen ro,
              ),
            ),
          )
    ]
