-- ===== src/Stat/Tests.antt =====
-- The theorem on stat/pool.go at three calls on two nodes.
use neofs_sdk_go.Prelude.{ℕ, ◌≡◌, Bool, true, false, List, [], ◌∷◌}
use neofs_sdk_go.Prelude.Int.{pos}
use neofs_sdk_go.Stat.{Call, new_pool_statistic, find, overall_errors}
use neofs_sdk_go.Stat.Counts.{run, error_count, method_count}
use neofs_sdk_go.Stat.Overall.{counts_lem}

abbrev test_call : ℕ → ℕ → Bool → Call
test_call node m failed = record {
  node_key = node ∷ [];
  endpoint = node ∷ [];
  method = pos m;
  duration = 5;
  is_error = failed;
}

abbrev test_calls : List Call
test_calls = test_call 1 2 true ∷ test_call 2 2 true ∷ test_call 1 2 false ∷ []

counts_lem_example :
    (error_count (find (1 ∷ []) (run new_pool_statistic test_calls).monitors) ≡ 1)
    × (method_count 2 (find (1 ∷ []) (run new_pool_statistic test_calls).monitors) ≡ 2)
    × (overall_errors (run new_pool_statistic test_calls) ≡ 2)
counts_lem_example = counts_lem test_calls (1 ∷ []) 2
