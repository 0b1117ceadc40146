-- ===== src/Stat/Requests.antt =====
-- The counters of the requests of each method (stat/pool.go, stat/monitor.go).
use neofs_sdk_go.Prelude.{
  ℕ, zero, suc, ◌+◌, ◌%◌, ◌<◌, ◌≡◌, refl, ap, ◌∙◌, true, ◌&&◌, Option, none, some, List, [], ◌∷◌,
  length, get_elem?, ltb, ltb→lt, ◌==◌, if◌then◌else◌, Bool-cases, arith, inl, inr,
}
use neofs_sdk_go.Prelude.Bytes.{Bytes, bytes_eq, bytes_eq_iff}
use neofs_sdk_go.Prelude.Int.{ℤ, pos, negsuc}
use neofs_sdk_go.Stat.{
  u64_mod, method_last, is_method_valid, method_index, Snapshot, NodeMonitor, PoolStat, Call,
  new_methods, inc_requests, count_call, find, operation_callback,
}
use neofs_sdk_go.Stat.Counts.{
  run, is_counted, requests_of, request_count, method_count, or_zero, or_new,
  find-operation_callback, get_elem?-inc_method, length-inc_method, methods-count_call,
}

abbrev pub length_of : Option NodeMonitor → ℕ
length_of none = method_last
length_of (some mon) = length mon.methods

-- Every monitor has a counter for each method.
abbrev pub HasMethods : PoolStat → Type 0
HasMethods s = (k : Bytes) → length_of (find k s.monitors) ≡ method_last

methods_or_new :
    (endpoint : Bytes) (o : Option NodeMonitor)
    → length_of o ≡ method_last
    → length (or_new endpoint o).methods ≡ method_last
methods_or_new endpoint none h = refl
methods_or_new endpoint (some mon) h = h

length-count_call :
    (c : Call) (mon : NodeMonitor) → length (count_call c mon).methods ≡ length mon.methods
length-count_call c mon =
    ap length (methods-count_call c mon)
    ∙ ground (arith, length-inc_method mon.methods (method_index c.method) c.duration)

operation_callback-HasMethods :
    (s : PoolStat) (c : Call) → HasMethods s → HasMethods (operation_callback s c)
operation_callback-HasMethods s c h k = elim (Bool-cases (is_counted c && bytes_eq c.node_key k)) [
  | inr n ↦ rw (find-operation_callback s c k, n) (h k)
  | inl y ↦
      rw (find-operation_callback s c k, y)
        (length-count_call c (or_new c.endpoint (find c.node_key s.monitors))
          ∙ methods_or_new c.endpoint (find c.node_key s.monitors) (h c.node_key))
]

valid_index : (m : ℤ) → is_method_valid m ≡ true → method_index m < method_last
valid_index (pos m) h = ltb→lt m method_last h
valid_index (negsuc m) h = absurd (cc)

get_new : (n m : ℕ) → request_count (get_elem? (new_methods n) m) ≡ 0
get_new zero m = refl
get_new (suc n) zero = refl
get_new (suc n) (suc m) = get_new n m

method_or_new :
    (endpoint : Bytes) (m : ℕ) (o : Option NodeMonitor)
    → request_count (get_elem? (or_new endpoint o).methods m) ≡ method_count m o
method_or_new endpoint m none = get_new method_last m
method_or_new endpoint m (some mon) = refl

count_or_zero : (o : Option Snapshot) → (or_zero o).all_requests ≡ request_count o
count_or_zero none = refl
count_or_zero (some s) = refl

request_step :
    (c : Call) (mon : NodeMonitor) (m : ℕ)
    → method_index c.method < length mon.methods
    → request_count (get_elem? (count_call c mon).methods m) ≡ (
        if method_index c.method == m && ltb 0 c.duration
        then (request_count (get_elem? mon.methods m) + 1) % u64_mod
        else request_count (get_elem? mon.methods m))
unfolding inc_requests
request_step c mon m l =
    ap (λ ss. request_count (get_elem? ss m)) (methods-count_call c mon)
    ∙ elim (Bool-cases (ltb 0 c.duration)) [
      | inr n ↦ rw n (ground arith)
      | inl y ↦
          rw (y, get_elem?-inc_method mon.methods (method_index c.method) m c.duration l)
            (elim (Bool-cases (method_index c.method == m)) [
              | inl e ↦ rw e (
                  rw (count_or_zero (get_elem? mon.methods (method_index c.method))) (ground arith))
              | inr n ↦ rw n
            ])
    ]

requests_step :
    (s : PoolStat) (c : Call) (k : Bytes) (m : ℕ)
    → HasMethods s
    → method_count m (find k (operation_callback s c).monitors) ≡ (
        if is_counted c && bytes_eq c.node_key k && method_index c.method == m && ltb 0 c.duration
        then (method_count m (find k s.monitors) + 1) % u64_mod
        else method_count m (find k s.monitors))
requests_step s c k m h = elim (Bool-cases (is_counted c)) [
  | inr n ↦ rw (find-operation_callback s c k, n)
  | inl y ↦ elim (Bool-cases (bytes_eq c.node_key k)) [
    | inr n ↦ rw (find-operation_callback s c k, y, n)
    | inl z ↦
        let mon = or_new c.endpoint (find c.node_key s.monitors) in
        let in_range : method_index c.method < length mon.methods = omega (
          arith,
          valid_index c.method (ground arith),
          methods_or_new c.endpoint (find c.node_key s.monitors) (h c.node_key),
        ) in
        rw (find-operation_callback s c k, y, z)
          (request_step c mon m in_range
            ∙ rw
                (
                  method_or_new c.endpoint m (find c.node_key s.monitors),
                  (bytes_eq_iff c.node_key k).0 z,
                )
                refl)
  ]
]

pub requests_run :
    (s : PoolStat) (cs : List Call) (k : Bytes) (m : ℕ)
    → HasMethods s
    → method_count m (find k s.monitors) < u64_mod
    → method_count m (find k (run s cs).monitors)
      ≡ (method_count m (find k s.monitors) + requests_of k m cs) % u64_mod
unfolding run
requests_run s [] k m i h = omega arith
requests_run s (c ∷ cs) k m i h =
    let step = requests_step s c k m i in
    let i' = operation_callback-HasMethods s c i in
    elim (Bool-cases
      (is_counted c && bytes_eq c.node_key k && method_index c.method == m && ltb 0 c.duration)) [
        | inl y ↦
            let e = rw y at step in
            rw y
              (omega (arith, requests_run (operation_callback s c) cs k m i' (omega (arith, e)), e))
        | inr n ↦
            let e = rw n at step in
            rw n
              (omega (arith, requests_run (operation_callback s c) cs k m i' (omega (arith, e)), e))
      ]
