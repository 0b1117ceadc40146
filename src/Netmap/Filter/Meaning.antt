-- ===== src/Netmap/Filter/Meaning.antt =====
-- What `match` (netmap/filter.go) decides of a node, and that it ends.
use neofs_sdk_go.Prelude.{
  ℕ, zero, suc, ◌≤◌, ◌<◌, ◌≡◌, ◌≢◌, ◌⊎◌, ◌↔◌, refl, ap, subst, ◌∙◌, String, Bool, true, false, not,
  some, List, arith, str_eq, eq_iff, if◌then◌else◌, Bool-cases, Option-cases, inl, inr,
}
use neofs_sdk_go.Prelude.Result.{Result, ok, Succeeds}
use neofs_sdk_go.Netmap.Node.{NodeInfo, Fault, attribute, parse_uint, price, capacity}
use neofs_sdk_go.Netmap.Filter.{
  FilterOp, op_eq, op_ne, op_gt, op_ge, op_lt, op_le, op_or, op_and, op_other, Filter, Filters,
  filter, no_more, also, name, lookup, Context, is_compound, compared_number, compare_with,
  match_number, match_key_value, resolve, match_inner, match_fuel, process_filters,
}
use neofs_sdk_go.Netmap.Filter.Resolve.{Each, Fits}
use neofs_sdk_go.Netmap.Filter.Policy.{total, Distinct, new_context, process_filters_lem}

-- Some inner filter stands for one of which `P` holds.
abbrev pub Any : (Filter → Type 0) → Context → Filters → Type 0
Any P c no_more = ⊥
Any P c (also f fs) = ((g : Filter) × (resolve c f ≡ some g) × P g) ⊎ Any P c fs

-- The node has a number under the key, and it is in the relation to the filter's number.
abbrev pub Compares : (ℕ → ℕ → Type 0) → String → String → NodeInfo → Type 0
Compares R key value b =
    (x : ℕ) × (n : ℕ) × (compared_number key b ≡ ok (some x)) × (parse_uint value ≡ some n) × R x n

-- What a filter says of a node, references followed for `n` steps.
abbrev pub Meets : ℕ → Context → Filter → NodeInfo → Type 0
Meets zero c f b = ⊥
Meets (suc n) c (filter f_name key op_and value inner) b = Each (λ g. Meets n c g b) c inner
Meets (suc n) c (filter f_name key op_or value inner) b = Any (λ g. Meets n c g b) c inner
Meets (suc n) c (filter f_name key op_eq value inner) b = attribute b key ≡ value
Meets (suc n) c (filter f_name key op_ne value inner) b = attribute b key ≢ value
Meets (suc n) c (filter f_name key op_gt value inner) b = Compares (λ x y. y < x) key value b
Meets (suc n) c (filter f_name key op_ge value inner) b = Compares (λ x y. y ≤ x) key value b
Meets (suc n) c (filter f_name key op_lt value inner) b = Compares (λ x y. x < y) key value b
Meets (suc n) c (filter f_name key op_le value inner) b = Compares (λ x y. x ≤ y) key value b
Meets (suc n) c (filter f_name key (op_other k) value inner) b = ⊥

-- Price and capacity of the node can be read.
pub record Readable (b : NodeInfo) : Type 0 where
  pub reads_price : (n : ℕ) × (price b ≡ ok n)
  pub reads_capacity : (n : ℕ) × (capacity b ≡ ok n)

-- The result is a Boolean that decides `P`.
abbrev pub Decides : Result Fault Bool → Type 0 → Type 0
Decides r P = (x : Bool) × (r ≡ ok x) × ((x ≡ true) ↔ P)

reads : (key : String) (b : NodeInfo) → Readable b → Succeeds (compared_number key b)
unfolding compared_number
reads key b r = elim (Bool-cases (str_eq key "Price")) [
  | inl e ↦ let (n, p) = r.reads_price in (some n, rw e (rw p))
  | inr e ↦ elim (Bool-cases (str_eq key "Capacity")) [
    | inl e' ↦ let (n, p) = r.reads_capacity in (some n, rw (e, e') (rw p))
    | inr e' ↦ (parse_uint (attribute b key), rw (e, e'))
  ]
]

-- A numeric comparison, by what its Boolean test decides.
number_lem :
    (c : Context) (op : FilterOp) (key value : String) (b : NodeInfo) (n : ℕ) (R : ℕ → ℕ → Type 0)
    → Readable b
    → parse_uint value ≡ some n
    → lookup value c.num_cache ≡ some n
    → ((x : ℕ) → (compare_with op x n ≡ true) ↔ R x n)
    → Decides (match_number c op key value b) (Compares R key value b)
unfolding match_number
number_lem c op key value b n R r p l iff =
    let (o, e) = reads key b r in
    elim (Option-cases o) [
      | inl q ↦ (
        false,
        rw (e, q),
        ((λ t. absurd (cc t)), (λ t. let (x, m, h, _, _) = t in absurd (cc (h, e, q)))),
      )
      | inr (x, q) ↦ (
        compare_with op x n,
        rw (e, q, l),
        (
          (λ t. (x, n, e ∙ ap ok q, p, (iff x).0 t)),
          (λ t.
              let (x', n', h, h', rel) = t in
              let same_x : x' ≡ x = cc (h, e, q) in
              let same_n : n' ≡ n = cc (h', p) in
              (iff x).1 (subst (λ z. R x z) same_n (subst (λ z. R z n') same_x rel))),
        ),
      )
    ]

other_lem :
    (c : Context) (k : ℕ) (key value : String) (b : NodeInfo)
    → Readable b
    → match_number c (op_other k) key value b ≡ ok false
unfolding match_number
other_lem c k key value b r =
    let (o, e) = reads key b r in
    elim (Option-cases o) [ inl q ↦ rw (e, q) | inr (x, q) ↦ rw (e, q) ]

key_value_lem :
    (c : Context) (n : ℕ) (f_name key : String) (op : FilterOp) (value : String) (inner : Filters)
    (b : NodeInfo)
    → Readable b
    → Fits c (suc n) (filter f_name key op value inner)
    → is_compound op ≡ false
    → Decides
        (match_key_value c op key value b)
        (Meets (suc n) c (filter f_name key op value inner) b)
unfolding match_key_value
key_value_lem c n f_name key op_eq value inner b r f e =
    (str_eq (attribute b key) value, refl, eq_iff (attribute b key) value)
key_value_lem c n f_name key op_ne value inner b r f e = (
  not (str_eq (attribute b key) value),
  refl,
  (
    (λ t q. cc (t, (eq_iff (attribute b key) value).1 q)),
    (λ t. ground (arith, t, eq_iff (attribute b key) value)),
  ),
)
key_value_lem c n f_name key op_gt value inner b r (_, f) e =
    let (k, p, l) = f refl in
    number_lem c op_gt key value b k (λ x y. y < x) r p l
      (λ x. ((λ t. ground arith), (λ t. ground arith)))
key_value_lem c n f_name key op_ge value inner b r (_, f) e =
    let (k, p, l) = f refl in
    number_lem c op_ge key value b k (λ x y. y ≤ x) r p l
      (λ x. ((λ t. ground arith), (λ t. ground arith)))
key_value_lem c n f_name key op_lt value inner b r (_, f) e =
    let (k, p, l) = f refl in
    number_lem c op_lt key value b k (λ x y. x < y) r p l
      (λ x. ((λ t. ground arith), (λ t. ground arith)))
key_value_lem c n f_name key op_le value inner b r (_, f) e =
    let (k, p, l) = f refl in
    number_lem c op_le key value b k (λ x y. x ≤ y) r p l
      (λ x. ((λ t. ground arith), (λ t. ground arith)))
key_value_lem c n f_name key op_or value inner b r f e = absurd (cc e)
key_value_lem c n f_name key op_and value inner b r f e = absurd (cc e)
key_value_lem c n f_name key (op_other k) value inner b r f e =
    (false, other_lem c k key value b r, ((λ t. absurd (cc t)), (λ t. absurd t)))

-- The loop over inner filters, where the recursive call decides `P` for each.
module _ (c : Context) (m : Filter → Result Fault Bool) (P Q : Filter → Type 0)
    (decide : (g : Filter) → Q g → Decides (m g) (P g)) where
  head_lem :
      (f : Filter) (or' : Bool) (fs : Filters) {g : Filter} {x : Bool}
      → resolve c f ≡ some g
      → m g ≡ ok x
      → match_inner m c or' (also f fs) ≡ (
          if x
          then (if or' then ok true else match_inner m c or' fs)
          else (if or' then match_inner m c or' fs else ok false))
  unfolding match_inner
  head_lem f or' fs r e = rw (r, match_inner) (rw e)

  same_filter : (f : Filter) {g g' : Filter} → resolve c f ≡ some g → resolve c f ≡ some g' → g' ≡ g
  same_filter f r r' = cc (r, r')

  pub each_lem : (fs : Filters) → Each Q c fs → Decides (match_inner m c false fs) (Each P c fs)
  each_lem no_more e = unfold match_inner in (true, refl, ((λ _. tt), (λ _. refl)))
  each_lem (also f fs) ((g, r, q), e) =
      let (x, k, iff) = decide g q in
      let (y, k', iff') = each_lem fs e in
      elim (Bool-cases x) [
        | inl t ↦ (
          y,
          head_lem f false fs r k ∙ rw t k',
          ((λ z. ((g, r, iff.0 t), iff'.0 z)), (λ z. iff'.1 z.1)),
        )
        | inr t ↦ (
          false,
          head_lem f false fs r k ∙ rw t,
          (
            (λ z. absurd (cc z)),
            (λ z. let ((g', r', p), _) = z in cc (t, iff.1 (subst P (same_filter f r r') p))),
          ),
        )
      ]

  pub any_lem : (fs : Filters) → Each Q c fs → Decides (match_inner m c true fs) (Any P c fs)
  any_lem no_more e = unfold match_inner in (false, refl, ((λ z. absurd (cc z)), (λ z. absurd z)))
  any_lem (also f fs) ((g, r, q), e) =
      let (x, k, iff) = decide g q in
      let (y, k', iff') = any_lem fs e in
      elim (Bool-cases x) [
        | inl t ↦ (true, head_lem f true fs r k ∙ rw t, ((λ _. inl (g, r, iff.0 t)), (λ _. refl)))
        | inr t ↦ (
          y,
          head_lem f true fs r k ∙ rw t k',
          (
            (λ z. inr (iff'.0 z)),
            (λ z. elim z [
              | inl (g', r', p) ↦ absurd (cc (t, iff.1 (subst P (same_filter f r r') p)))
              | inr w ↦ iff'.1 w
            ]),
          ),
        )
      ]

-- With fuel for its references `match` ends, and decides what the filter says.
match_lem :
    (c : Context) (n : ℕ) (f : Filter) (b : NodeInfo)
    → Readable b
    → Fits c n f
    → Decides (match_fuel n c f b) (Meets n c f b)
unfolding match_fuel
match_lem c zero f b r h = absurd h
match_lem c (suc n) (filter f_name key op_and value inner) b r (h, _) =
    each_lem c (λ g. match_fuel n c g b) (λ g. Meets n c g b) (Fits c n) (λ g. match_lem c n g b r)
      inner (h refl)
match_lem c (suc n) (filter f_name key op_or value inner) b r (h, _) =
    any_lem c (λ g. match_fuel n c g b) (λ g. Meets n c g b) (Fits c n) (λ g. match_lem c n g b r)
      inner (h refl)
match_lem c (suc n) (filter f_name key op_eq value inner) b r h =
    key_value_lem c n f_name key op_eq value inner b r h refl
match_lem c (suc n) (filter f_name key op_ne value inner) b r h =
    key_value_lem c n f_name key op_ne value inner b r h refl
match_lem c (suc n) (filter f_name key op_gt value inner) b r h =
    key_value_lem c n f_name key op_gt value inner b r h refl
match_lem c (suc n) (filter f_name key op_ge value inner) b r h =
    key_value_lem c n f_name key op_ge value inner b r h refl
match_lem c (suc n) (filter f_name key op_lt value inner) b r h =
    key_value_lem c n f_name key op_lt value inner b r h refl
match_lem c (suc n) (filter f_name key op_le value inner) b r h =
    key_value_lem c n f_name key op_le value inner b r h refl
match_lem c (suc n) (filter f_name key (op_other k) value inner) b r h =
    key_value_lem c n f_name key (op_other k) value inner b r h refl

-- For a policy whose top filters have names of their own and that `processFilters` accepts: `match` of
-- any filter found under a name ends with as many nested calls as the policy has filters, on every node
-- whose price and capacity can be read, and its answer is what the filter says of the node.
pub match_accepted :
    (fs : List Filter) (f : Filter) (b : NodeInfo) {c : Context}
    → Distinct fs
    → process_filters new_context fs ≡ ok c
    → lookup (name f) c.processed_filters ≡ some f
    → Readable b
    → Decides (match_fuel (total fs) c f b) (Meets (total fs) c f b)
match_accepted fs f b {c} u h l r =
    match_lem c (total fs) f b r ((process_filters_lem fs u h).0.ends (name f) f l)
