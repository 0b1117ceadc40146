-- ===== src/Netmap/Container/Tests.antt =====
-- The theorems on `ContainerNodes` (netmap/netmap.go) at three nodes in two countries.
use neofs_sdk_go.Prelude.{◌≡◌, ◌≢◌, refl, String, List, [], ◌∷◌, map, All, arith}
use neofs_sdk_go.Prelude.Result.{ok}
use neofs_sdk_go.Netmap.Node.{NodeInfo, attribute}
use neofs_sdk_go.Netmap.Filter.{Context, process_filters}
use neofs_sdk_go.Netmap.Filter.Policy.{new_context}
use neofs_sdk_go.Netmap.Select.{
  Selector, any_other, Orders, collect, passes, add_node, group_by, buckets, bucket_count,
  nodes_in_bucket, full_groups, fallback_groups, sorted_groups, finish, sorted_buckets, max_nodes,
  candidates, choose, backup_factor, get_selection,
}
use neofs_sdk_go.Netmap.Container.{
  Replica, PlacementPolicy, Selections, check_filter, process_selectors, append_row, named_row,
  fill_rows, selecting, place, container_nodes,
}
use neofs_sdk_go.Netmap.Container.Rows.{
  named_nodes, Selected, container_nodes_named, container_nodes_over,
}

abbrev list_orders : Orders
list_orders = record {
  hrw_nodes = λ ns. ns;
  hrw_groups = λ gs. gs;
  by_first_node = λ gs. gs;
  by_attribute = λ gs. gs;
  map_order = λ gs. gs;
}

abbrev node_in : String → NodeInfo
node_in c = record { attributes = ("Country", c) ∷ [] }

abbrev three_nodes : List NodeInfo
three_nodes = node_in "FI" ∷ node_in "SE" ∷ node_in "FI" ∷ []

abbrev country_selector : String → Selector
country_selector n = record {
  name = n;
  count = 2;
  clause = any_other;
  attribute = "Country";
  filter = "*";
}

abbrev named_policy : PlacementPolicy
named_policy = record {
  backup = 1;
  filters = [];
  selectors = country_selector "X" ∷ [];
  replicas = record { selector = "X"; count = 1 } ∷ [];
}

abbrev unnamed_replica : Replica
unnamed_replica = record { selector = ""; count = 1 }

abbrev unnamed_policy : PlacementPolicy
unnamed_policy = record {
  backup = 1;
  filters = [];
  selectors = country_selector "X" ∷ country_selector "Y" ∷ [];
  replicas = unnamed_replica ∷ [];
}

abbrev test_rows : List (List NodeInfo)
test_rows = (node_in "FI" ∷ node_in "SE" ∷ []) ∷ []

test_placement : container_nodes list_orders three_nodes named_policy ≡ ok test_rows
unfolding container_nodes place process_filters process_selectors check_filter fill_rows named_row
    append_row get_selection collect passes buckets group_by add_node attribute choose candidates
    full_groups fallback_groups bucket_count nodes_in_bucket max_nodes sorted_buckets finish
    sorted_groups backup_factor
test_placement = refl

container_nodes_named_example :
    (c : Context) × (found : Selections) × (process_filters new_context [] ≡ ok c)
    × (process_selectors c
          (selecting list_orders c three_nodes named_policy)
          named_policy.selectors
          []
        ≡ ok found)
    × (test_rows ≡ map (named_nodes found) named_policy.replicas)
    × All (Selected found) named_policy.replicas
container_nodes_named_example =
    container_nodes_named list_orders three_nodes named_policy {rows = test_rows} ((λ e. cc e), tt)
      test_placement

container_nodes_over_example : container_nodes list_orders three_nodes unnamed_policy ≢ ok test_rows
container_nodes_over_example =
    container_nodes_over list_orders three_nodes unnamed_policy unnamed_replica [] refl refl
      (omega arith) test_rows
