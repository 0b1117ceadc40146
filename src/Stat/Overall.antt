-- ===== src/Stat/Overall.antt =====
-- The sum of all errors in the statistics (stat/pool.go), and what the counters are after any calls.
use neofs_sdk_go.Prelude.{
  ℕ, ◌+◌, ◌%◌, ◌<◌, ◌≡◌, refl, ◌∙◌, ◌&&◌, some, List, [], ◌∷◌, length, ◌==◌, if◌then◌else◌,
  Bool-cases, Option-cases, arith, inl, inr,
}
use neofs_sdk_go.Prelude.Bytes.{Bytes, bytes_eq, bytes_eq_iff}
use neofs_sdk_go.Stat.{
  u64_mod, is_method_valid, NodeMonitor, PoolStat, Call, new_pool_statistic, count_call, find,
  update, with_monitor, operation_callback, sum_errors, overall_errors,
}
use neofs_sdk_go.Stat.Counts.{
  run, is_counted, errors_of, requests_of, all_errors, error_count, method_count, or_new,
  error-count_call, errors_run, find-with_monitor,
}
use neofs_sdk_go.Stat.Requests.{requests_run}

sum_bounded : (ms : List (Bytes × NodeMonitor)) → sum_errors ms < u64_mod
unfolding sum_errors
sum_bounded [] = omega arith
sum_bounded ((k, mon) ∷ ms) = omega arith

sum_update :
    (c : Call) (k : Bytes) (ms : List (Bytes × NodeMonitor)) {mon : NodeMonitor}
    → find k ms ≡ some mon
    → sum_errors (update k (count_call c) ms)
      ≡ (sum_errors ms + (if c.is_error then 1 else 0)) % u64_mod
unfolding sum_errors update find
sum_update c k [] e = cc
sum_update c k ((j, mon) ∷ ms) e = elim (Bool-cases (bytes_eq j k)) [
  | inl y ↦ rw y (ground (arith, error-count_call c mon))
  | inr n ↦ rw n (ground (arith, sum_update c k ms (rw n at e)))
]

sum_with_monitor :
    (k endpoint : Bytes) (ms : List (Bytes × NodeMonitor))
    → sum_errors (with_monitor k endpoint ms) ≡ sum_errors ms
unfolding sum_errors with_monitor
sum_with_monitor k endpoint ms = elim (Option-cases (find k ms)) [
  | inr (mon, e) ↦ rw (e, with_monitor) refl
  | inl e ↦ rw (e, with_monitor) (omega (arith, sum_bounded ms))
]

with_monitor_found :
    (k endpoint : Bytes) (ms : List (Bytes × NodeMonitor))
    → (mon : NodeMonitor) × (find k (with_monitor k endpoint ms) ≡ some mon)
with_monitor_found k endpoint ms = (
  or_new endpoint (find k ms),
  find-with_monitor k k endpoint ms ∙ rw ((bytes_eq_iff k k).1 refl),
)

overall_step :
    (s : PoolStat) (c : Call)
    → overall_errors (operation_callback s c)
      ≡ (if is_counted c && c.is_error then (overall_errors s + 1) % u64_mod else overall_errors s)
unfolding overall_errors operation_callback
overall_step s c = elim (Bool-cases (length c.node_key == 0)) [
  | inl y ↦ rw y
  | inr n ↦ elim (Bool-cases (is_method_valid c.method)) [
    | inr v ↦ rw (n, v)
    | inl v ↦
        let (mon, found) = with_monitor_found c.node_key c.endpoint s.monitors in
        rw (n, v)
          (ground (
            arith,
            sum_update c c.node_key (with_monitor c.node_key c.endpoint s.monitors) found,
            sum_with_monitor c.node_key c.endpoint s.monitors,
            sum_bounded s.monitors,
          ))
  ]
]

overall_run :
    (s : PoolStat) (cs : List Call)
    → overall_errors (run s cs) ≡ (overall_errors s + all_errors cs) % u64_mod
unfolding run overall_errors
overall_run s [] = omega (arith, sum_bounded s.monitors)
overall_run s (c ∷ cs) = ground (arith, overall_run (operation_callback s c) cs, overall_step s c)

-- After any calls, the errors of each node, the requests of each of its methods and the sum of all errors
-- are, modulo 2^64, how many of the calls on a node with a key and on a method were such: errors, or
-- requests with a positive duration.
pub counts_lem :
    (cs : List Call) (k : Bytes) (m : ℕ)
    → (error_count (find k (run new_pool_statistic cs).monitors) ≡ errors_of k cs % u64_mod)
      × (method_count m (find k (run new_pool_statistic cs).monitors)
          ≡ requests_of k m cs % u64_mod)
      × (overall_errors (run new_pool_statistic cs) ≡ all_errors cs % u64_mod)
unfolding find overall_errors sum_errors
counts_lem cs k m = (
  errors_run new_pool_statistic cs k (omega arith) ∙ omega arith,
  requests_run new_pool_statistic cs k m (λ j. refl) (omega arith) ∙ omega arith,
  overall_run new_pool_statistic cs ∙ omega arith,
)
