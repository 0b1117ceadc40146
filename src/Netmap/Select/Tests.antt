-- ===== src/Netmap/Select/Tests.antt =====
-- The theorems on netmap/selector.go: two groups by country out of three nodes.
use neofs_sdk_go.Prelude.{
  ℕ, ◌≤◌, ◌<◌, ◌≡◌, ◌↔◌, refl, String, Bool, true, List, [], ◌∷◌, length, All, arith,
}
use mathlib.Core.List.Permᴰ
use neofs_sdk_go.Prelude.Result.{ok, err}
use neofs_sdk_go.Netmap.Node.{NodeInfo, attribute}
use neofs_sdk_go.Netmap.Filter.Policy.{new_context}
use neofs_sdk_go.Netmap.Select.{
  Selector, any_other, Bucket, Orders, not_enough_nodes, collect, passes, add_node, group_by,
  buckets, bucket_count, nodes_in_bucket, full_groups, fallback_groups, sorted_groups, finish,
  sorted_buckets, max_nodes, candidates, choose, get_selection,
}
use neofs_sdk_go.Netmap.Select.Count.{Reorders, count, counts}
use neofs_sdk_go.Netmap.Select.Enough.{Has}
use neofs_sdk_go.Netmap.Select.Outcome.{large_enough, choose_fails, get_selection_lem}

abbrev plain_orders : Orders
plain_orders = record {
  hrw_nodes = λ ns. ns;
  hrw_groups = λ gs. gs;
  by_first_node = λ gs. gs;
  by_attribute = λ gs. gs;
  map_order = λ gs. gs;
}

plain_orders-Reorders : Reorders plain_orders
plain_orders-Reorders = record {
  hrw_nodes_perm = λ ns. Permᴰ.refl ns;
  hrw_groups_perm = λ gs. Permᴰ.refl gs;
  by_first_node_perm = λ gs. Permᴰ.refl gs;
  by_attribute_perm = λ gs. Permᴰ.refl gs;
  map_order_perm = λ gs. Permᴰ.refl gs;
}

abbrev in_country : String → NodeInfo
in_country c = record { attributes = ("Country", c) ∷ [] }

abbrev test_nodes : List NodeInfo
test_nodes = in_country "FI" ∷ in_country "SE" ∷ in_country "FI" ∷ []

abbrev by_country : ℕ → Selector
by_country n = record {
  name = "here";
  count = n;
  clause = any_other;
  attribute = "Country";
  filter = "*";
}

abbrev test_groups : List (List NodeInfo)
test_groups = (in_country "FI" ∷ in_country "FI" ∷ []) ∷ (in_country "SE" ∷ []) ∷ []

test_selection :
    get_selection plain_orders new_context 0 true 2 test_nodes (by_country 2) ≡ ok test_groups
unfolding get_selection collect passes buckets group_by add_node attribute choose candidates
    full_groups fallback_groups bucket_count nodes_in_bucket max_nodes sorted_buckets finish
    sorted_groups
test_selection = refl

get_selection_lem_example :
    (length test_groups ≡ bucket_count (by_country 2))
    × All (Has (nodes_in_bucket (by_country 2))) test_groups
    × ((chosen : List NodeInfo) × (collect (passes new_context 0 (by_country 2)) test_nodes
          ≡ ok chosen)
        × ((P : NodeInfo → Bool) → counts P test_groups ≤ count P chosen))
get_selection_lem_example =
    get_selection_lem plain_orders new_context 0 true 2 test_nodes (by_country 2) {r = test_groups}
      plain_orders-Reorders (omega arith) test_selection

abbrev test_buckets : List Bucket
test_buckets = record { attr = "FI"; nodes = in_country "FI" ∷ [] } ∷ []

choose_fails_example :
    (choose plain_orders true 3 (by_country 2) test_buckets ≡ err not_enough_nodes)
    ↔ (large_enough (nodes_in_bucket (by_country 2)) test_buckets < bucket_count (by_country 2))
unfolding max_nodes nodes_in_bucket
choose_fails_example =
    choose_fails plain_orders true 3 (by_country 2) test_buckets plain_orders-Reorders (omega arith)
      (omega arith)
