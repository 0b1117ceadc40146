-- ===== src/Netmap/Container.antt =====
-- The nodes of a container: `processSelectors` (netmap/selector.go) and `NetMap.ContainerNodes`
-- (netmap/netmap.go).
pub mod Rows
mod Tests
use neofs_sdk_go.Prelude.{
  ℕ, zero, suc, ◌+◌, String, Bool, true, false, Option, none, some, List, [], ◌∷◌, ◌++◌, str_eq,
  if◌then◌else◌, length,
}
use neofs_sdk_go.Prelude.Result.{Result, ok, err, ◌>>=◌}
use neofs_sdk_go.Netmap.Node.{NodeInfo}
use neofs_sdk_go.Netmap.Filter.{
  Filter, FilterError, Context, lookup, main_filter_name, process_filters,
}
use neofs_sdk_go.Netmap.Filter.Policy.{total, new_context}
use neofs_sdk_go.Netmap.Select.{
  Selector, any_other, Orders, SelectError, selector_not_found, filter_not_found,
  index_out_of_range, backup_factor, get_selection,
}

pub record Replica : Type 0 where
  pub selector : String
  pub count : ℕ  -- uint32

pub record PlacementPolicy : Type 0 where
  pub backup : ℕ  -- uint32
  pub filters : List Filter
  pub selectors : List Selector
  pub replicas : List Replica

abbrev pub Selections : Type 0
Selections = List (String × List (List NodeInfo))

-- `flattenNodes`
abbrev pub flatten_nodes : List (List NodeInfo) → List NodeInfo
flatten_nodes [] = []
flatten_nodes (ns ∷ gs) = ns ++ flatten_nodes gs

-- `SELECT FROM` an unknown filter.
pub check_filter : Context → Selector → Option SelectError
check_filter c s =
    if str_eq s.filter main_filter_name
    then none
    else elim (lookup s.filter c.processed_filters) [ none ↦ some filter_not_found | some f ↦ none ]

abbrev pub unless :
    Option SelectError → Result SelectError Selections → Result SelectError Selections
unless none r = r
unless (some e) r = err e

-- What `get_selection` of the call is, for a selector.
abbrev pub Selecting : Type 0
Selecting = Selector → Result SelectError (List (List NodeInfo))

-- `processSelectors`
pub process_selectors :
    Context → Selecting → List Selector → Selections → Result SelectError Selections
unfolding check_filter
process_selectors c get [] found = ok found
process_selectors c get (s ∷ ss) found =
    unless (check_filter c s) (get s >>= λ r. process_selectors c get ss ((s.name, r) ∷ found))

-- A Go map's value, nil where the key is missing.
abbrev pub or_nil : Option (List (List NodeInfo)) → List (List NodeInfo)
or_nil none = []
or_nil (some gs) = gs

-- `result[i] = append(result[i], ns...)`
pub append_row :
    ℕ → List NodeInfo → List (List NodeInfo) → Result SelectError (List (List NodeInfo))
append_row i ns [] = err index_out_of_range
append_row zero ns (row ∷ rows) = ok ((row ++ ns) ∷ rows)
append_row (suc i) ns (row ∷ rows) = append_row i ns rows >>= λ rest. ok (row ∷ rest)

-- The inner loop over the selectors, whose index `i` hides the replica's.
pub append_selections :
    Selections
    → ℕ
    → List Selector
    → List (List NodeInfo)
    → Result SelectError (List (List NodeInfo))
unfolding append_row
append_selections found i [] rows = ok rows
append_selections found i (s ∷ ss) rows =
    append_row i (flatten_nodes (or_nil (lookup s.name found))) rows >>= λ rows'.
    append_selections found (i + 1) ss rows'

-- `result[i] = flattenNodes(nodes)` of the selector made for a policy without selectors.
pub own_selector : ℕ → Selector
own_selector count = record {
  name = "";
  count = count;
  clause = any_other;
  attribute = "";
  filter = main_filter_name;
}

pub set_row : ℕ → List NodeInfo → List (List NodeInfo) → Result SelectError (List (List NodeInfo))
set_row i ns [] = err index_out_of_range
set_row zero ns (row ∷ rows) = ok (ns ∷ rows)
set_row (suc i) ns (row ∷ rows) = set_row i ns rows >>= λ rest. ok (row ∷ rest)

pub unnamed_row :
    Selecting
    → Selections
    → ℕ
    → ℕ
    → List Selector
    → List (List NodeInfo)
    → Result SelectError (List (List NodeInfo))
unfolding own_selector set_row append_selections
unnamed_row get found i count [] rows =
    get (own_selector count) >>= λ gs. set_row i (flatten_nodes gs) rows
unnamed_row get found i count (s ∷ ss) rows = append_selections found 0 (s ∷ ss) rows

pub named_row :
    Option (List (List NodeInfo))
    → ℕ
    → List (List NodeInfo)
    → Result SelectError (List (List NodeInfo))
unfolding append_row
named_row none i rows = err selector_not_found
named_row (some gs) i rows = append_row i (flatten_nodes gs) rows

-- The loop over replicas, from the `i`-th on.
pub fill_rows :
    Selecting
    → Selections
    → List Selector
    → ℕ
    → List Replica
    → List (List NodeInfo)
    → Result SelectError (List (List NodeInfo))
unfolding unnamed_row named_row
fill_rows get found selectors i [] rows = ok rows
fill_rows get found selectors i (r ∷ rs) rows =
    (if str_eq r.selector ""
      then unnamed_row get found i r.count selectors rows
      else named_row (lookup r.selector found) i rows)
    >>= λ rows'. fill_rows get found selectors (i + 1) rs rows'

abbrev pub empty_rows : List Replica → List (List NodeInfo)
empty_rows [] = []
empty_rows (r ∷ rs) = [] ∷ empty_rows rs

pub data PolicyError : Type 0 where
  in_filters : FilterError → PolicyError
  in_selection : SelectError → PolicyError

abbrev pub selecting : Orders → Context → List NodeInfo → PlacementPolicy → Selecting
selecting o c nodes p s = get_selection o c (total p.filters) true (backup_factor p.backup) nodes s

pub place :
    Orders → Context → List NodeInfo → PlacementPolicy → Result SelectError (List (List NodeInfo))
unfolding process_selectors fill_rows
place o c nodes p = process_selectors c (selecting o c nodes p) p.selectors [] >>= λ found.
    fill_rows (selecting o c nodes p) found p.selectors 0 p.replicas (empty_rows p.replicas)

-- `ContainerNodes`; the pivot, a container ID, is never empty.
pub container_nodes :
    Orders → List NodeInfo → PlacementPolicy → Result PolicyError (List (List NodeInfo))
unfolding place
container_nodes o nodes p = elim (process_filters new_context p.filters) [
  | err e ↦ err (in_filters e)
  | ok c ↦ elim (place o c nodes p) [ err e ↦ err (in_selection e) | ok rows ↦ ok rows ]
]
