-- ===== src/Stat.antt =====
-- Statistics of the nodes of a pool: stat/pool.go, stat/monitor.go, stat/statistic.go and the methods of
-- stat/stat.go. A monitor is found by the key of its node, of which the source's map has the hexadecimal
-- form. A duration that is not positive is 0, and an error is that there is one. The locks are left out:
-- a call is one step.
pub mod Counts
pub mod Requests
pub mod Overall
mod Tests
use neofs_sdk_go.Prelude.{
  ℕ, zero, suc, ◌+◌, ◌/◌, ◌%◌, Bool, true, false, not, ◌||◌, Option, none, some, List, [], ◌∷◌,
  length, get_elem?, ltb, ◌==◌, if◌then◌else◌,
}
use neofs_sdk_go.Prelude.Bytes.{Bytes, bytes_eq}
use neofs_sdk_go.Prelude.Int.{ℤ, pos, negsuc}

abbrev pub u64_mod : ℕ
u64_mod = 18446744073709551616

-- `MethodLast`
abbrev pub method_last : ℕ
method_last = 25

-- `IsMethodValid`
abbrev pub is_method_valid : ℤ → Bool
is_method_valid (pos m) = ltb m method_last
is_method_valid (negsuc m) = false

abbrev pub method_index : ℤ → ℕ
method_index (pos m) = m
method_index (negsuc m) = 0

pub record Snapshot : Type 0 where
  pub all_time : ℕ
  pub all_requests : ℕ

pub record NodeMonitor : Type 0 where
  pub addr : Bytes
  pub methods : List Snapshot
  pub overall_error_count : ℕ

pub record PoolStat : Type 0 where
  pub monitors : List (Bytes × NodeMonitor)

pub record Call : Type 0 where
  pub node_key : Bytes
  pub endpoint : Bytes
  pub method : ℤ
  pub duration : ℕ
  pub is_error : Bool

abbrev pub new_pool_statistic : PoolStat
new_pool_statistic = record { monitors = [] }

abbrev pub zero_snapshot : Snapshot
zero_snapshot = record { all_time = 0; all_requests = 0 }

abbrev pub new_methods : ℕ → List Snapshot
new_methods zero = []
new_methods (suc n) = zero_snapshot ∷ new_methods n

abbrev pub new_monitor : Bytes → NodeMonitor
new_monitor endpoint = record {
  addr = endpoint;
  methods = new_methods method_last;
  overall_error_count = 0;
}

pub inc_requests : Snapshot → ℕ → Snapshot
inc_requests s elapsed = record {
  all_time = (s.all_time + elapsed) % u64_mod;
  all_requests = (s.all_requests + 1) % u64_mod;
}

-- `mon.methods[method].incRequests(duration)`
pub inc_method : List Snapshot → ℕ → ℕ → List Snapshot
unfolding inc_requests
inc_method [] m elapsed = []
inc_method (s ∷ ss) zero elapsed = inc_requests s elapsed ∷ ss
inc_method (s ∷ ss) (suc m) elapsed = s ∷ inc_method ss m elapsed

pub inc_error_rate : NodeMonitor → NodeMonitor
inc_error_rate c = record c { overall_error_count = (c.overall_error_count + 1) % u64_mod }

-- What a call changes in its monitor.
pub count_call : Call → NodeMonitor → NodeMonitor
unfolding inc_method inc_error_rate
count_call c mon =
    let mon1 =
      if ltb 0 c.duration
      then record mon { methods = inc_method mon.methods (method_index c.method) c.duration }
      else mon in
    if c.is_error then inc_error_rate mon1 else mon1

pub find : Bytes → List (Bytes × NodeMonitor) → Option NodeMonitor
find k [] = none
find k ((j, mon) ∷ ms) = if bytes_eq j k then some mon else find k ms

pub update :
    Bytes → (NodeMonitor → NodeMonitor) → List (Bytes × NodeMonitor) → List (Bytes × NodeMonitor)
update k f [] = []
update k f ((j, mon) ∷ ms) = if bytes_eq j k then (j, f mon) ∷ ms else (j, mon) ∷ update k f ms

-- The monitors with one for the key `k`.
pub with_monitor : Bytes → Bytes → List (Bytes × NodeMonitor) → List (Bytes × NodeMonitor)
unfolding find
with_monitor k endpoint ms = elim (find k ms) [
  | some mon ↦ ms
  | none ↦ (k, new_monitor endpoint) ∷ ms
]

pub operation_callback : PoolStat → Call → PoolStat
unfolding update with_monitor count_call
operation_callback s c =
    if length c.node_key == 0 || not (is_method_valid c.method) then s else record {
      monitors = update c.node_key (count_call c) (with_monitor c.node_key c.endpoint s.monitors);
    }

-- `Statistic` without the node's key and methods: the sum of the errors and each node's.
pub sum_errors : List (Bytes × NodeMonitor) → ℕ
sum_errors [] = 0
sum_errors ((k, mon) ∷ ms) = (mon.overall_error_count + sum_errors ms) % u64_mod

pub overall_errors : PoolStat → ℕ
unfolding sum_errors
overall_errors s = sum_errors s.monitors

-- `Snapshot` of a node.
pub snapshot : NodeMonitor → ℤ → Option Snapshot
snapshot n method =
    if is_method_valid method then get_elem? n.methods (method_index method) else none

-- `averageTime`
pub average_time : Snapshot → ℕ
average_time s = if s.all_requests == 0 then 0 else s.all_time / s.all_requests

-- `Requests`: the requests of all methods.
pub requests : List Snapshot → ℕ
requests [] = 0
requests (s ∷ ss) = (s.all_requests + requests ss) % u64_mod
