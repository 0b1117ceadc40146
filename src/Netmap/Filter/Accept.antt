-- ===== src/Netmap/Filter/Accept.antt =====
-- Processing of the filters of a policy (netmap/filter.go) step by step, up to `processFilters`.
use neofs_sdk_go.Prelude.{
  ℕ, suc, ◌+◌, ◌≡◌, ap, ◌∙◌, String, Bool, true, false, not, ◌&&◌, none, some, ◌∷◌, arith, str_eq,
  eq_refl, if◌then◌else◌, Bool-cases, Option-cases, inl, inr,
}
use neofs_sdk_go.Prelude.Result.{Result, ok, >>=-eq-ok}
use neofs_sdk_go.Netmap.Node.{parse_uint}
use neofs_sdk_go.Netmap.Filter.{
  FilterOp, op_eq, op_ne, op_gt, op_ge, op_lt, op_le, op_or, op_and, op_other, Filter, Filters,
  filter, no_more, also, name, FilterError, lookup, Context, is_compound, is_empty, cache_number,
  check_op, check_simple, check_name, gate, process_filter, process_inner, resolve,
}
use neofs_sdk_go.Netmap.Filter.Resolve.{
  is_numeric, Each, Fits, Sound, Grows-refl, Fits-Grows, resolve-Grows, Each-Grows, Inner,
  Inner-refl, Inner-trans, cached, cached-Inner,
}

-- The filters in a filter, itself included.
unfoldable mutual
  pub size : Filter → ℕ
  size (filter f_name key op value inner) = suc (sizes inner)

  pub sizes : Filters → ℕ
  sizes no_more = 0
  sizes (also f fs) = size f + sizes fs

-- The number of a numeric filter is cached.
abbrev Numbered : Context → FilterOp → String → Type 0
Numbered c op value =
    is_numeric op ≡ true
    → (k : ℕ) × (parse_uint value ≡ some k) × (lookup value c.num_cache ≡ some k)

cache_number_lem :
    (c : Context) (d : ℕ) (value : String) {c' : Context}
    → Sound c d
    → cache_number c value ≡ ok c'
    → Inner c d c' × ((k : ℕ) × (parse_uint value ≡ some k) × (lookup value c'.num_cache ≡ some k))
unfolding cached cache_number
cache_number_lem c d value {c'} s h = elim (Option-cases (parse_uint value)) [
  | inl e ↦ absurd (cc (rw (e, cache_number) at h))
  | inr (n, e) ↦
      let q : cached c value n ≡ c' = cc (rw (e, cache_number) at h) in
      let hit : lookup value (cached c value n).num_cache ≡ some n = rw (eq_refl value) in
      (rw (← q) (cached-Inner c d value n s e), (n, e, rw (← q) hit))
]

check_op_lem :
    (c : Context) (d : ℕ) (op : FilterOp) (value : String) {c' : Context}
    → Sound c d
    → check_op c op value ≡ ok c'
    → Inner c d c' × Numbered c' op value
unfolding check_op
check_op_lem c d op_eq value {c'} s h =
    let q : c ≡ c' = cc h in (rw (← q) (Inner-refl c d s), (λ e. cc))
check_op_lem c d op_ne value {c'} s h =
    let q : c ≡ c' = cc h in (rw (← q) (Inner-refl c d s), (λ e. cc))
check_op_lem c d op_gt value s h = let (i, k) = cache_number_lem c d value s h in (i, (λ _. k))
check_op_lem c d op_ge value s h = let (i, k) = cache_number_lem c d value s h in (i, (λ _. k))
check_op_lem c d op_lt value s h = let (i, k) = cache_number_lem c d value s h in (i, (λ _. k))
check_op_lem c d op_le value s h = let (i, k) = cache_number_lem c d value s h in (i, (λ _. k))
check_op_lem c d op_or value s h = absurd (cc h)
check_op_lem c d op_and value s h = absurd (cc h)
check_op_lem c d (op_other n) value s h = absurd (cc h)

check_simple_lem :
    (c : Context) (d : ℕ) (op : FilterOp) (value : String) (inner : Filters) (reference : Bool)
    {c' : Context}
    → Sound c d
    → check_simple c op value inner reference ≡ ok c'
    → Inner c d c' × (reference ≡ false → Numbered c' op value)
unfolding check_simple
check_simple_lem c d op value inner reference {c'} s h = elim (Bool-cases (not (is_empty inner))) [
  | inl e ↦ absurd (cc (simp e at h))
  | inr e ↦ elim (Bool-cases reference) [
    | inl r ↦
        let q : c ≡ c' = cc (simp (e, r) at h) in (rw (← q) (Inner-refl c d s), (λ n. cc (r, n)))
    | inr r ↦ let (i, k) = check_op_lem c d op value s (simp (e, r) at h) in (i, (λ _. k))
  ]
]

-- A call of `processFilter` that returns, taken apart.
abbrev pub add_top : Bool → String → Filter → Context → Context
add_top top f_name f c =
    if top then record c { processed_filters = (f_name, f) ∷ c.processed_filters } else c

abbrev pub body : Context → FilterOp → String → Filters → Bool → Result FilterError Context
body c op value inner reference =
    if is_compound op then process_inner c inner else check_simple c op value inner reference

pub process_steps :
    (c : Context) (f_name key : String) (op : FilterOp) (value : String) (inner : Filters)
    (top : Bool) {c' : Context}
    → process_filter c (filter f_name key op value inner) top ≡ ok c'
    → (c1 : Context) × (check_name c f_name top ≡ none)
      × (body c op value inner (not top && not (str_eq f_name "")) ≡ ok c1)
      × (add_top top f_name (filter f_name key op value inner) c1 ≡ c')
unfolding process_filter gate
process_steps c f_name key op value inner top {c'} h =
    elim (Option-cases (check_name c f_name top)) [
      | inr (e, n) ↦ absurd (cc (rw n at h))
      | inl n ↦
          let (c1, a, b) =
            >>=-eq-ok (body c op value inner (not top && not (str_eq f_name ""))) _ (rw n at h) in
          (c1, n, a, cc b)
    ]

-- The inner filter stands for one that ends within its own size and `d` steps.
abbrev Resolved : Context → ℕ → Filter → Type 0
Resolved c d f = (g : Filter) × (resolve c f ≡ some g) × Fits c (size f + d) g

resolve_unnamed : (c : Context) (f : Filter) → str_eq (name f) "" ≡ true → resolve c f ≡ some f
unfolding resolve
resolve_unnamed c f e = simp e

resolve_named :
    (c : Context) (f : Filter)
    → str_eq (name f) "" ≡ false
    → resolve c f ≡ lookup (name f) c.processed_filters
unfolding resolve
resolve_named c f e = simp e

-- A named inner filter is known.
named_known :
    (c : Context) (f_name : String)
    → check_name c f_name false ≡ none
    → str_eq f_name "" ≡ false
    → (g : Filter) × (lookup f_name c.processed_filters ≡ some g)
unfolding check_name
named_known c f_name h e = elim (Option-cases (lookup f_name c.processed_filters)) [
  | inl n ↦ absurd (ground (arith, h, e, n))
  | inr (g, n) ↦ (g, n)
]

pub body_lem :
    (c : Context) (d : ℕ) (f_name key : String) (op : FilterOp) (value : String) (inner : Filters)
    (reference : Bool) {c1 : Context}
    → Sound c d
    → (process_inner c inner ≡ ok c1 → Inner c d c1 × Each (Fits c1 (sizes inner + d)) c1 inner)
    → body c op value inner reference ≡ ok c1
    → Inner c d c1
      × (reference ≡ false → Fits c1 (suc (sizes inner + d)) (filter f_name key op value inner))
body_lem c d f_name key op value inner reference s ih h = elim (Bool-cases (is_compound op)) [
  | inl e ↦
      let (i, k) = ih (simp e at h) in
      (i, (λ _. ((λ _. k), (λ n. absurd (compound_numeric op e n)))))
  | inr e ↦
      let (i, k) = check_simple_lem c d op value inner reference s (simp e at h) in
      (i, (λ r. ((λ n. absurd (cc (e, n))), k r)))
]
  where
    compound_numeric : (op : FilterOp) → is_compound op ≡ true → is_numeric op ≡ true → ⊥
    compound_numeric op_eq e n = cc
    compound_numeric op_ne e n = cc
    compound_numeric op_gt e n = cc
    compound_numeric op_ge e n = cc
    compound_numeric op_lt e n = cc
    compound_numeric op_le e n = cc
    compound_numeric op_or e n = cc
    compound_numeric op_and e n = cc
    compound_numeric (op_other k) e n = cc

mutual
  unfolding size sizes process_inner

  filter_lem :
      (c : Context) (d : ℕ) (f : Filter) {c' : Context}
      → Sound c d
      → process_filter c f false ≡ ok c'
      → Inner c d c' × Resolved c' d f
  filter_lem c d (filter f_name key op value inner) {c'} s h =
      let (c1, e, b, q) = process_steps c f_name key op value inner false h in
      let (i, k) =
        body_lem c d f_name key op value inner (not (str_eq f_name "")) s
          (λ p. inner_lem c d inner s p) b in
      elim (Bool-cases (str_eq f_name "")) [
        | inl n ↦ (
          rw (← q) i,
          (
            filter f_name key op value inner,
            resolve_unnamed c' (filter f_name key op value inner) n,
            rw (← q) (
                Fits-Grows c1 c1 (suc (sizes inner + d)) (suc (sizes inner) + d)
                  (filter f_name key op value inner) (Grows-refl c1) (omega arith) (k (ap not n))),
          ),
        )
        | inr n ↦
            let (g, l) = named_known c f_name e n in
            (
              rw (← q) i,
              (
                g,
                resolve_named c' (filter f_name key op value inner) n
                    ∙ (rw (← q) (i.grows.filters_kept f_name g l)),
                rw (← q) (
                    Fits-Grows c c1 d (suc (sizes inner) + d) g i.grows (omega arith)
                      (s.ends f_name g l)),
              ),
            )
      ]

  pub inner_lem :
      (c : Context) (d : ℕ) (fs : Filters) {c' : Context}
      → Sound c d
      → process_inner c fs ≡ ok c'
      → Inner c d c' × Each (Fits c' (sizes fs + d)) c' fs
  inner_lem c d no_more {c'} s h = let q : c ≡ c' = cc h in (rw (← q) (Inner-refl c d s), tt)
  inner_lem c d (also f fs) {c'} s h =
      let (c1, e, k) = >>=-eq-ok (process_filter c f false) (λ x. process_inner x fs) h in
      let (i, (g, r, p)) = filter_lem c d f s e in
      let (j, es) = inner_lem c1 d fs i.sound k in
      (
        Inner-trans c c1 c' d i j,
        (
          (
            g,
            resolve-Grows c1 c' f j.grows r,
            Fits-Grows c1 c' (size f + d) (size f + sizes fs + d) g j.grows (omega arith) p,
          ),
          Each-Grows (Fits c' (sizes fs + d)) (Fits c' (size f + sizes fs + d)) c' c' fs
              (λ x.
                Fits-Grows c' c' (sizes fs + d) (size f + sizes fs + d) x (Grows-refl c')
                  (omega arith))
              (Grows-refl c') es,
        ),
      )
