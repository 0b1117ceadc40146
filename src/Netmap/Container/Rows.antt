-- ===== src/Netmap/Container/Rows.antt =====
-- Which nodes `ContainerNodes` (netmap/netmap.go) puts in which line.
use neofs_sdk_go.Prelude.{
  ℕ, zero, suc, ◌+◌, ◌≤◌, ◌<◌, ◌≡◌, ◌≢◌, ◌⊎◌, refl, ap, ◌∙◌, sym, true, false, some, List, [], ◌∷◌,
  ◌++◌, append_assoc, map, arith, str_eq, eq_iff, if◌then◌else◌, length, length-append, All,
  Bool-cases, Option-cases, inl, inr,
}
use neofs_sdk_go.Prelude.Result.{Result, ok, err, >>=-eq-ok, Result-cases}
use neofs_sdk_go.Netmap.Node.{NodeInfo}
use neofs_sdk_go.Netmap.Filter.{Context, lookup, process_filters}
use neofs_sdk_go.Netmap.Filter.Policy.{new_context}
use neofs_sdk_go.Netmap.Select.{Selector, Orders, SelectError, index_out_of_range}
use neofs_sdk_go.Netmap.Container.{
  Replica, PlacementPolicy, Selections, flatten_nodes, Selecting, process_selectors, or_nil,
  append_row, append_selections, unnamed_row, named_row, fill_rows, empty_rows, selecting, place,
  container_nodes,
}

append_row_at :
    (pre post : List (List NodeInfo)) (row ns : List NodeInfo)
    → append_row (length pre) ns (pre ++ row ∷ post) ≡ ok (pre ++ (row ++ ns) ∷ post)
unfolding append_row
append_row_at [] post row ns = refl
append_row_at (r ∷ pre) post row ns = rw (append_row_at pre post row ns)

-- The nodes of the selection that a replica names.
abbrev pub named_nodes : Selections → Replica → List NodeInfo
named_nodes found r = flatten_nodes (or_nil (lookup r.selector found))

-- The replica names a selector, and that has a selection.
abbrev pub Selected : Selections → Replica → Type 0
Selected found r = (gs : List (List NodeInfo)) × (lookup r.selector found ≡ some gs)

named_row_lem :
    (found : Selections) (r : Replica) (i : ℕ) (rows : List (List NodeInfo))
    {t : List (List NodeInfo)}
    → named_row (lookup r.selector found) i rows ≡ ok t
    → Selected found r × (append_row i (named_nodes found r) rows ≡ ok t)
unfolding named_row
named_row_lem found r i rows h = elim (Option-cases (lookup r.selector found)) [
  | inl e ↦ absurd (cc (rw e at h))
  | inr (gs, e) ↦ ((gs, e), rw e (rw e at h))
]

fill_rows_named :
    (get : Selecting) (found : Selections) (ss : List Selector) (rs : List Replica)
    (pre : List (List NodeInfo)) {rows : List (List NodeInfo)}
    → All (λ r. r.selector ≢ "") rs
    → fill_rows get found ss (length pre) rs (pre ++ empty_rows rs) ≡ ok rows
    → (rows ≡ pre ++ map (named_nodes found) rs) × All (Selected found) rs
unfolding fill_rows
fill_rows_named get found ss [] pre {rows} a h = let q : pre ++ [] ≡ rows = cc h in (sym q, tt)
fill_rows_named get found ss (r ∷ rs) pre {rows} (n, a) h =
    let (t, e, k) =
      >>=-eq-ok
        (if str_eq r.selector ""
          then unnamed_row get found (length pre) r.count ss (pre ++ [] ∷ empty_rows rs)
          else named_row (lookup r.selector found) (length pre) (pre ++ [] ∷ empty_rows rs))
        (λ rows'. fill_rows get found ss (length pre + 1) rs rows') h in
    let named : str_eq r.selector "" ≡ false = elim (Bool-cases (str_eq r.selector "")) [
      | inl y ↦ absurd (n ((eq_iff r.selector "").0 y))
      | inr y ↦ y
    ] in
    let (s, g) = named_row_lem found r (length pre) (pre ++ [] ∷ empty_rows rs) (simp named at e) in
    let next = pre ++ named_nodes found r ∷ [] in
    let q : t ≡ next ++ empty_rows rs = cc (
      g,
      append_row_at pre (empty_rows rs) [] (named_nodes found r),
      append_assoc pre (named_nodes found r ∷ []) (empty_rows rs),
    ) in
    let len : length pre + 1 ≡ length next =
      omega (arith, length-append pre (named_nodes found r ∷ [])) in
    let k' : fill_rows get found ss (length next) rs (next ++ empty_rows rs) ≡ ok rows =
      ap (λ i. fill_rows get found ss i rs (next ++ empty_rows rs)) (sym len)
      ∙ ap (λ x. fill_rows get found ss (length pre + 1) rs x) (sym q)
      ∙ k in
    let (b, c) = fill_rows_named get found ss rs next a k' in
    (b ∙ append_assoc pre (named_nodes found r ∷ []) (map (named_nodes found) rs), (s, c))

-- A call of `ContainerNodes` that returns, taken apart.
container_steps :
    (o : Orders) (nodes : List NodeInfo) (p : PlacementPolicy) {rows : List (List NodeInfo)}
    → container_nodes o nodes p ≡ ok rows
    → (c : Context) × (found : Selections) × (process_filters new_context p.filters ≡ ok c)
      × (process_selectors c (selecting o c nodes p) p.selectors [] ≡ ok found)
      × (fill_rows (selecting o c nodes p) found p.selectors 0 p.replicas (empty_rows p.replicas)
          ≡ ok rows)
unfolding container_nodes place
container_steps o nodes p {rows} h = elim (Result-cases (process_filters new_context p.filters)) [
  | inl (e, q) ↦ absurd (cc (rw (q, container_nodes) at h))
  | inr (c, q) ↦ elim (Result-cases (place o c nodes p)) [
    | inl (e, q') ↦ absurd (cc (rw (q', container_nodes) at (rw (q, container_nodes) at h)))
    | inr (t, q') ↦
        let same : t ≡ rows = cc (rw (q', container_nodes) at (rw (q, container_nodes) at h)) in
        let (found, e, k) =
          >>=-eq-ok (process_selectors c (selecting o c nodes p) p.selectors [])
            (λ found.
              fill_rows (selecting o c nodes p) found p.selectors 0 p.replicas
                (empty_rows p.replicas))
            (q' ∙ ap ok same) in
        (c, found, q, e, k)
  ]
]

-- When every replica of the policy names a selector and `ContainerNodes` returns, the lines are in the
-- order of the replicas, each the nodes of the selection that its replica names, and every replica names
-- one that was made.
pub container_nodes_named :
    (o : Orders) (nodes : List NodeInfo) (p : PlacementPolicy) {rows : List (List NodeInfo)}
    → All (λ r. r.selector ≢ "") p.replicas
    → container_nodes o nodes p ≡ ok rows
    → (c : Context) × (found : Selections) × (process_filters new_context p.filters ≡ ok c)
      × (process_selectors c (selecting o c nodes p) p.selectors [] ≡ ok found)
      × (rows ≡ map (named_nodes found) p.replicas)
      × All (Selected found) p.replicas
container_nodes_named o nodes p a h =
    let (c, found, e, e', k) = container_steps o nodes p h in
    let (b, d) = fill_rows_named (selecting o c nodes p) found p.selectors p.replicas [] a k in
    (c, found, e, e', b, d)

-- A line is there, and the number of lines stays, or it is not.
append_row_cases :
    (i : ℕ) (ns : List NodeInfo) (rows : List (List NodeInfo))
    → (t : Result SelectError (List (List NodeInfo))) × (append_row i ns rows ≡ t)
      × ((i < length rows) × ((u : List (List NodeInfo)) × (t ≡ ok u) × (length u ≡ length rows))
          ⊎ (length rows ≤ i) × (t ≡ err index_out_of_range))
unfolding append_row
append_row_cases i ns [] = (_, refl, inr (omega arith, refl))
append_row_cases zero ns (row ∷ rows) = (_, refl, inl (omega arith, (_, refl, refl)))
append_row_cases (suc i) ns (row ∷ rows) =
    let (t, e, c) = append_row_cases i ns rows in
    elim c [
      | inl (l, (u, q, m)) ↦
          (ok (row ∷ u), rw (e, q), inl (omega (arith, l), (row ∷ u, refl, ap suc m)))
      | inr (l, q) ↦ (err index_out_of_range, rw (e, q), inr (omega (arith, l), refl))
    ]

append_selections_over :
    (found : Selections) (i : ℕ) (ss : List Selector) (rows : List (List NodeInfo))
    → i ≤ length rows
    → length rows < i + length ss
    → append_selections found i ss rows ≡ err index_out_of_range
unfolding append_selections
append_selections_over found i [] rows a b = absurd (omega arith)
append_selections_over found i (s ∷ ss) rows a b =
    let (t, e, c) = append_row_cases i (flatten_nodes (or_nil (lookup s.name found))) rows in
    elim c [
      | inl (l, (u, q, m)) ↦
          rw (e, q)
            (append_selections_over found (i + 1) ss u (omega (arith, l, m)) (omega (arith, m)))
      | inr (l, q) ↦ rw (e, q)
    ]

length-empty_rows : (rs : List Replica) → length (empty_rows rs) ≡ length rs
length-empty_rows [] = refl
length-empty_rows (r ∷ rs) = ap suc (length-empty_rows rs)

unnamed_over :
    (get : Selecting) (found : Selections) (count : ℕ) (ss : List Selector) (rs : List Replica)
    → 0 < length rs
    → length rs < length ss
    → unnamed_row get found 0 count ss (empty_rows rs) ≡ err index_out_of_range
unfolding unnamed_row
unnamed_over get found count [] rs z l = absurd (omega arith)
unnamed_over get found count (s ∷ ss) rs z l =
    append_selections_over found 0 (s ∷ ss) (empty_rows rs) (omega arith)
      (omega (arith, length-empty_rows rs))

-- When the first replica names no selector and the policy has more selectors than replicas,
-- `ContainerNodes` never returns nodes.
pub container_nodes_over :
    (o : Orders) (nodes : List NodeInfo) (p : PlacementPolicy) (r : Replica) (rs : List Replica)
    → p.replicas ≡ r ∷ rs
    → r.selector ≡ ""
    → length p.replicas < length p.selectors
    → (rows : List (List NodeInfo)) → container_nodes o nodes p ≢ ok rows
unfolding fill_rows
container_nodes_over o nodes p r rs q n l rows h =
    let (c, found, _, _, k) = container_steps o nodes p h in
    let k' : fill_rows (selecting o c nodes p) found p.selectors 0 (r ∷ rs) (empty_rows (r ∷ rs))
        ≡ ok rows =
      ap (λ x. fill_rows (selecting o c nodes p) found p.selectors 0 x (empty_rows x)) (sym q)
      ∙ k in
    let (t, e, _) =
      >>=-eq-ok
        (if str_eq r.selector ""
          then unnamed_row (selecting o c nodes p) found 0 r.count p.selectors (empty_rows (r ∷ rs))
          else named_row (lookup r.selector found) 0 (empty_rows (r ∷ rs)))
        (λ rows'. fill_rows (selecting o c nodes p) found p.selectors (0 + 1) rs rows') k' in
    let unnamed : str_eq r.selector "" ≡ true = (eq_iff r.selector "").1 n in
    cc (
      simp unnamed at e,
      unnamed_over (selecting o c nodes p) found r.count p.selectors (r ∷ rs) (omega arith)
          (omega (arith, ap length q)),
    )
