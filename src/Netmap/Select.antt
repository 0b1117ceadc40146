-- ===== src/Netmap/Select.antt =====
-- The choice of nodes by a selector: netmap/selector.go, over the `context` of context.go.
pub mod Count
pub mod Enough
pub mod Outcome
mod Tests
use neofs_sdk_go.Prelude.{
  ℕ, zero, suc, ◌+◌, ◌*◌, ◌%◌, ◌^◌, String, Bool, true, false, Option, none, some, List, [], ◌∷◌,
  ◌++◌, map, ltb, leb, ◌==◌, str_eq, if◌then◌else◌, length, take, drop,
}
use neofs_sdk_go.Prelude.Result.{Result, ok, err, ◌>>=◌}
use neofs_sdk_go.Netmap.Node.{NodeInfo, Fault, attribute}
use neofs_sdk_go.Netmap.Filter.{Context, lookup, match_fuel, main_filter_name}

-- `Same` and `Distinct` of the API package, and every other clause.
pub data Clause : Type 0 where
  same distinct any_other : Clause

pub record Selector : Type 0 where
  pub name : String
  pub count : ℕ  -- uint32
  pub clause : Clause
  pub attribute : String
  pub filter : String

-- `nodeAttrPair`
pub record Bucket : Type 0 where
  pub attr : String
  pub nodes : List NodeInfo

-- Orders that come from outside: weighted HRW sorting of nodes and of groups of them, `sort.Slice` by
-- the first node's hash and by the attribute, and the order of a Go map's iteration.
pub record Orders : Type 0 where
  pub hrw_nodes : List NodeInfo → List NodeInfo
  pub hrw_groups : List (List NodeInfo) → List (List NodeInfo)
  pub by_first_node : List Bucket → List Bucket
  pub by_attribute : List Bucket → List Bucket
  pub map_order : List Bucket → List Bucket

pub data SelectError : Type 0 where
  not_enough_nodes : SelectError
  slice_out_of_range integer_divide_by_zero : SelectError
  matching : Fault → SelectError
  selector_not_found filter_not_found index_out_of_range : SelectError

-- The nodes of a list that pass, in order.
unfoldable pub collect :
    (NodeInfo → Result Fault Bool) → List NodeInfo → Result Fault (List NodeInfo)
collect m [] = ok []
collect m (b ∷ bs) =
    let rest = collect m bs in m b >>= λ y. rest >>= λ r. ok (if y then b ∷ r else r)

-- The test of `getSelectionBase`: the main filter passes all, and a missing one, a nil message, none;
-- `fuel` is for references of filters.
unfoldable pub passes : Context → ℕ → Selector → NodeInfo → Result Fault Bool
passes c fuel s b =
    if str_eq s.filter main_filter_name
    then ok true
    else elim (lookup s.filter c.processed_filters) [
      | none ↦ ok false
      | some f ↦ match_fuel fuel c f b
    ]

-- `nodeMap[v] = append(nodeMap[v], node)`
unfoldable pub add_node : String → NodeInfo → List Bucket → List Bucket
add_node v b [] = record { attr = v; nodes = b ∷ [] } ∷ []
add_node v b (g ∷ gs) =
    let rest = add_node v b gs in
    if str_eq g.attr v then record g { nodes = g.nodes ++ b ∷ [] } ∷ gs else g ∷ rest

unfoldable pub group_by : String → List NodeInfo → List Bucket → List Bucket
unfolding add_node
group_by attr [] gs = gs
group_by attr (b ∷ bs) gs = group_by attr bs (add_node (attribute b attr) b gs)

pub singles : List NodeInfo → List Bucket
singles [] = []
singles (b ∷ bs) = record { attr = ""; nodes = b ∷ [] } ∷ singles bs

abbrev pub with_nodes : (List NodeInfo → List NodeInfo) → Bucket → Bucket
with_nodes f g = record g { nodes = f g.nodes }

-- `getSelectionBase` from the nodes that pass; `seeded` says that the context has an HRW seed.
unfoldable pub buckets : Orders → Bool → Selector → List NodeInfo → List Bucket
unfolding group_by singles
buckets o seeded s chosen =
    let gs =
      if str_eq s.attribute ""
      then singles chosen
      else o.map_order (group_by s.attribute chosen []) in
    if seeded then map (with_nodes o.hrw_nodes) gs else gs

-- `calcNodesCount`
unfoldable pub bucket_count : Selector → ℕ
bucket_count s = elim s.clause [ same ↦ 1 | distinct ↦ s.count | any_other ↦ s.count ]

unfoldable pub nodes_in_bucket : Selector → ℕ
nodes_in_bucket s = elim s.clause [ same ↦ s.count | distinct ↦ 1 | any_other ↦ 1 ]

-- The loop that sorts buckets into full ones, cut, and those that have enough without backup.
unfoldable pub full_groups : ℕ → List Bucket → List (List NodeInfo)
full_groups max [] = []
full_groups max (g ∷ gs) =
    let rest = full_groups max gs in
    if leb max (length g.nodes) then take max g.nodes ∷ rest else rest

unfoldable pub fallback_groups : ℕ → ℕ → List Bucket → List (List NodeInfo)
fallback_groups least max [] = []
fallback_groups least max (g ∷ gs) =
    let rest = fallback_groups least max gs in
    if leb max (length g.nodes)
    then rest
    else if leb least (length g.nodes)
    then g.nodes ∷ rest
    else rest

-- `res[i] = append(res[i], ns...)`, and the length of `res[i]`.
pub append_at : ℕ → List NodeInfo → List (List NodeInfo) → List (List NodeInfo)
append_at i ns [] = []
append_at zero ns (g ∷ gs) = (g ++ ns) ∷ gs
append_at (suc i) ns (g ∷ gs) = g ∷ append_at i ns gs

pub length_at : ℕ → List (List NodeInfo) → ℕ
length_at i [] = 0
length_at zero (g ∷ gs) = length g
length_at (suc i) (g ∷ gs) = length_at i gs

-- The loop over the groups that are left, when nodes are chosen one by one.
pub merge :
    ℕ
    → ℕ
    → ℕ
    → List (List NodeInfo)
    → List (List NodeInfo)
    → Result SelectError (List (List NodeInfo))
unfolding append_at length_at
merge max n i res [] = ok res
merge max n i res (g ∷ gs) =
    let rest = merge max n (i + 1) (append_at (i % n) g res) gs in
    if n == 0
    then err integer_divide_by_zero
    else if leb max (length_at (i % n) res)
    then ok res
    else rest

unfoldable pub sorted_groups : Orders → Bool → List (List NodeInfo) → List (List NodeInfo)
sorted_groups o seeded res = if seeded then o.hrw_groups res else res

unfoldable pub finish :
    Orders → Bool → Selector → ℕ → List (List NodeInfo) → Result SelectError (List (List NodeInfo))
unfolding merge sorted_groups
finish o seeded s max res =
    let sorted = sorted_groups o seeded res in
    let n = bucket_count s in
    (if str_eq s.attribute "" then merge max n 0 (take n sorted) (drop n sorted) else ok sorted)
    >>= λ r. ok (take n r)

unfoldable pub sorted_buckets : Orders → Bool → Selector → List Bucket → List Bucket
sorted_buckets o seeded s gs =
    if seeded then gs else if str_eq s.attribute "" then o.by_first_node gs else o.by_attribute gs

-- `maxNodesInBucket`; the product of two uint32 values, an int of 64 bits.
unfoldable pub max_nodes : ℕ → Selector → ℕ
max_nodes cbf s = nodes_in_bucket s * cbf

-- Full groups, and the fallback where they are too few.
unfoldable pub candidates : ℕ → ℕ → Selector → List Bucket → List (List NodeInfo)
unfolding full_groups fallback_groups
candidates max n s gs =
    let res = full_groups max gs in
    if ltb (length res) n then res ++ fallback_groups (nodes_in_bucket s) max gs else res

-- `getSelection` after `getSelectionBase`. A negative product cuts a slice out of its range.
unfoldable pub choose :
    Orders → Bool → ℕ → Selector → List Bucket → Result SelectError (List (List NodeInfo))
unfolding finish candidates
choose o seeded cbf s gs =
    let n = bucket_count s in
    let max = max_nodes cbf s in
    let res = candidates max n s (sorted_buckets o seeded s gs) in
    if ltb (length gs) n
    then err not_enough_nodes
    else if leb (2 ^ 63) max
    then err slice_out_of_range
    else if ltb (length res) n
    then err not_enough_nodes
    else finish o seeded s max res

-- `setCBF`
unfoldable pub backup_factor : ℕ → ℕ
backup_factor cbf = if cbf == 0 then 3 else cbf

-- `getSelection` on the nodes of the network map.
unfoldable pub get_selection :
    Orders
    → Context
    → ℕ
    → Bool
    → ℕ
    → List NodeInfo
    → Selector
    → Result SelectError (List (List NodeInfo))
unfolding choose collect passes buckets
get_selection o c fuel seeded cbf nodes s = elim (collect (passes c fuel s) nodes) [
  | err e ↦ err (matching e)
  | ok chosen ↦ choose o seeded cbf s (buckets o seeded s chosen)
]
