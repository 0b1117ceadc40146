-- ===== src/Stat/Counts.antt =====
-- What the statistics of stat/pool.go count.
use neofs_sdk_go.Prelude.{
  ℕ, zero, suc, ◌+◌, ◌%◌, ◌<◌, ◌≡◌, refl, ◌∙◌, Bool, not, ◌&&◌, Option, none, some, List, [], ◌∷◌,
  length, get_elem?, ltb, ◌==◌, if◌then◌else◌, Bool-cases, Option-cases, arith, inl, inr,
}
use neofs_sdk_go.Prelude.Bytes.{Bytes, bytes_eq, bytes_eq_iff}
use neofs_sdk_go.Stat.{
  u64_mod, is_method_valid, method_index, Snapshot, NodeMonitor, PoolStat, Call, zero_snapshot,
  new_monitor, inc_requests, inc_method, inc_error_rate, count_call, find, update, with_monitor,
  operation_callback,
}

unfoldable pub run : PoolStat → List Call → PoolStat
run s [] = s
run s (c ∷ cs) = run (operation_callback s c) cs

-- A call that is counted: it is on a node with a key and on a method.
abbrev pub is_counted : Call → Bool
is_counted c = not (length c.node_key == 0) && is_method_valid c.method

abbrev add_if : Bool → ℕ → ℕ
add_if b n = if b then suc n else n

-- How often `k` failed, and how often its method `m` was called, by the calls alone.
abbrev pub errors_of : Bytes → List Call → ℕ
errors_of k [] = 0
errors_of k (c ∷ cs) = add_if (is_counted c && bytes_eq c.node_key k && c.is_error) (errors_of k cs)

abbrev pub requests_of : Bytes → ℕ → List Call → ℕ
requests_of k m [] = 0
requests_of k m (c ∷ cs) =
    add_if (is_counted c && bytes_eq c.node_key k && method_index c.method == m && ltb 0 c.duration)
      (requests_of k m cs)

abbrev pub all_errors : List Call → ℕ
all_errors [] = 0
all_errors (c ∷ cs) = add_if (is_counted c && c.is_error) (all_errors cs)

-- The same in the statistics.
abbrev pub error_count : Option NodeMonitor → ℕ
error_count none = 0
error_count (some mon) = mon.overall_error_count

abbrev pub request_count : Option Snapshot → ℕ
request_count none = 0
request_count (some s) = s.all_requests

abbrev pub method_count : ℕ → Option NodeMonitor → ℕ
method_count m none = 0
method_count m (some mon) = request_count (get_elem? mon.methods m)

abbrev pub or_zero : Option Snapshot → Snapshot
or_zero none = zero_snapshot
or_zero (some s) = s

abbrev map_some : (NodeMonitor → NodeMonitor) → Option NodeMonitor → Option NodeMonitor
map_some f none = none
map_some f (some mon) = some (f mon)

find-update :
    (k j : Bytes) (f : NodeMonitor → NodeMonitor) (ms : List (Bytes × NodeMonitor))
    → find j (update k f ms) ≡ (if bytes_eq k j then map_some f (find j ms) else find j ms)
unfolding find update
find-update k j f [] = ground arith
find-update k j f ((i, mon) ∷ ms) =
    ground (arith, bytes_eq_iff k j, bytes_eq_iff i k, bytes_eq_iff i j, find-update k j f ms)

abbrev pub or_new : Bytes → Option NodeMonitor → NodeMonitor
or_new endpoint none = new_monitor endpoint
or_new endpoint (some mon) = mon

pub find-with_monitor :
    (k j endpoint : Bytes) (ms : List (Bytes × NodeMonitor))
    → find j (with_monitor k endpoint ms)
      ≡ (if bytes_eq k j then some (or_new endpoint (find k ms)) else find j ms)
unfolding with_monitor find
find-with_monitor k j endpoint ms = elim (Option-cases (find k ms)) [
  | inr (mon, e) ↦ elim (Bool-cases (bytes_eq k j)) [
    | inl y ↦ rw (e, with_monitor) (rw (y, ← (bytes_eq_iff k j).0 y, e))
    | inr n ↦ rw (e, with_monitor) (rw n)
  ]
  | inl e ↦ rw (e, with_monitor) refl
]

pub find-operation_callback :
    (s : PoolStat) (c : Call) (j : Bytes)
    → find j (operation_callback s c).monitors ≡ (
        if is_counted c && bytes_eq c.node_key j
        then some (count_call c (or_new c.endpoint (find c.node_key s.monitors)))
        else find j s.monitors)
unfolding operation_callback
find-operation_callback s c j = elim (Bool-cases (length c.node_key == 0)) [
  | inl y ↦ rw y
  | inr n ↦ elim (Bool-cases (is_method_valid c.method)) [
    | inr v ↦ rw (n, v)
    | inl v ↦
        rw (n, v)
          (find-update c.node_key j (count_call c) (with_monitor c.node_key c.endpoint s.monitors)
            ∙ rw (find-with_monitor c.node_key j c.endpoint s.monitors)
                (elim (Bool-cases (bytes_eq c.node_key j)) [ inl y ↦ rw y | inr n ↦ rw n ]))
  ]
]

pub get_elem?-inc_method :
    (ss : List Snapshot) (m m' elapsed : ℕ)
    → m < length ss
    → get_elem? (inc_method ss m elapsed) m' ≡ (
        if m == m' then some (inc_requests (or_zero (get_elem? ss m)) elapsed) else get_elem? ss m')
unfolding inc_method
get_elem?-inc_method [] m m' elapsed l = absurd (omega arith)
get_elem?-inc_method (s ∷ ss) zero zero elapsed l = ground arith
get_elem?-inc_method (s ∷ ss) zero (suc m') elapsed l = ground arith
get_elem?-inc_method (s ∷ ss) (suc m) zero elapsed l = ground arith
get_elem?-inc_method (s ∷ ss) (suc m) (suc m') elapsed l =
    ground (arith, get_elem?-inc_method ss m m' elapsed (omega arith))

pub length-inc_method :
    (ss : List Snapshot) (m elapsed : ℕ) → length (inc_method ss m elapsed) ≡ length ss
unfolding inc_method
length-inc_method [] m elapsed = refl
length-inc_method (s ∷ ss) zero elapsed = refl
length-inc_method (s ∷ ss) (suc m) elapsed = omega (arith, length-inc_method ss m elapsed)

pub error-count_call :
    (c : Call) (mon : NodeMonitor)
    → (count_call c mon).overall_error_count
      ≡ (if c.is_error then (mon.overall_error_count + 1) % u64_mod else mon.overall_error_count)
unfolding count_call inc_error_rate
error-count_call c mon = ground arith

pub methods-count_call :
    (c : Call) (mon : NodeMonitor)
    → (count_call c mon).methods ≡ (
        if ltb 0 c.duration
        then inc_method mon.methods (method_index c.method) c.duration
        else mon.methods)
unfolding count_call inc_error_rate
methods-count_call c mon = ground arith

error_count-or_new :
    (endpoint : Bytes) (o : Option NodeMonitor)
    → (or_new endpoint o).overall_error_count ≡ error_count o
error_count-or_new endpoint none = refl
error_count-or_new endpoint (some mon) = refl

pub errors_step :
    (s : PoolStat) (c : Call) (k : Bytes)
    → error_count (find k (operation_callback s c).monitors) ≡ (
        if is_counted c && bytes_eq c.node_key k && c.is_error
        then (error_count (find k s.monitors) + 1) % u64_mod
        else error_count (find k s.monitors))
errors_step s c k = elim (Bool-cases (is_counted c)) [
  | inr n ↦ rw (find-operation_callback s c k, n)
  | inl y ↦ elim (Bool-cases (bytes_eq c.node_key k)) [
    | inr n ↦ rw (find-operation_callback s c k, y, n)
    | inl z ↦
        rw (find-operation_callback s c k, y, z)
          (error-count_call c (or_new c.endpoint (find c.node_key s.monitors))
            ∙ rw
                (
                  error_count-or_new c.endpoint (find c.node_key s.monitors),
                  (bytes_eq_iff c.node_key k).0 z,
                )
                refl)
  ]
]

pub errors_run :
    (s : PoolStat) (cs : List Call) (k : Bytes)
    → error_count (find k s.monitors) < u64_mod
    → error_count (find k (run s cs).monitors)
      ≡ (error_count (find k s.monitors) + errors_of k cs) % u64_mod
unfolding run
errors_run s [] k h = omega arith
errors_run s (c ∷ cs) k h =
    let step = errors_step s c k in
    elim (Bool-cases (is_counted c && bytes_eq c.node_key k && c.is_error)) [
      | inl y ↦
          let e = rw y at step in
          rw y (omega (arith, errors_run (operation_callback s c) cs k (omega (arith, e)), e))
      | inr n ↦
          let e = rw n at step in
          rw n (omega (arith, errors_run (operation_callback s c) cs k (omega (arith, e)), e))
    ]
