-- ===== src/Netmap/Filter.antt =====
-- The filters of a placement policy: netmap/filter.go, over the caches of the `context` of context.go.
pub mod Resolve
pub mod Accept
pub mod Policy
pub mod Meaning
pub mod Repeated
pub mod Nested
mod Tests
use neofs_sdk_go.Prelude.{
  ℕ, zero, suc, String, Bool, true, false, not, ◌&&◌, ◌||◌, Option, none, some, List, [], ◌∷◌, ltb,
  leb, ◌==◌, str_eq, if◌then◌else◌,
}
use neofs_sdk_go.Prelude.Result.{Result, ok, err, ◌>>=◌}
use neofs_sdk_go.Netmap.Node.{NodeInfo, Fault, attribute, parse_uint, price, capacity, out_of_fuel}

-- The operations of a filter's message that the code names, and any other.
pub data FilterOp : Type 0 where
  op_eq op_ne op_gt op_ge op_lt op_le op_or op_and : FilterOp
  op_other : ℕ → FilterOp

-- A filter's message: name, key, operation, value and inner filters.
mutual
  pub data Filter : Type 0 where
    filter : String → String → FilterOp → String → Filters → Filter

  pub data Filters : Type 0 where
    no_more : Filters
    also : Filter → Filters → Filters

abbrev pub name : Filter → String
name (filter f_name key op value inner) = f_name

pub data FilterError : Type 0 where
  invalid_filter_name unnamed_top_filter filter_not_found non_empty_filters invalid_number
        invalid_filter_op :
      FilterError

-- A Go map, the last assignment first.
abbrev pub lookup {ℓ} : {A : Type ℓ} → String → List (String × A) → Option A
lookup k [] = none
lookup k ((k', v) ∷ m) = if str_eq k' k then some v else lookup k m

-- The caches of filters and of numbers.
pub record Context : Type 0 where
  pub processed_filters : List (String × Filter)
  pub num_cache : List (String × ℕ)

abbrev pub main_filter_name : String
main_filter_name = "*"

abbrev pub is_compound : FilterOp → Bool
is_compound op_and = true
is_compound op_or = true
is_compound op_eq = false
is_compound op_ne = false
is_compound op_gt = false
is_compound op_ge = false
is_compound op_lt = false
is_compound op_le = false
is_compound (op_other n) = false

abbrev pub is_or : FilterOp → Bool
is_or op_or = true
is_or op_and = false
is_or op_eq = false
is_or op_ne = false
is_or op_gt = false
is_or op_ge = false
is_or op_lt = false
is_or op_le = false
is_or (op_other n) = false

abbrev pub is_empty : Filters → Bool
is_empty no_more = true
is_empty (also f fs) = false

abbrev pub is_set {ℓ} : {A : Type ℓ} → Option A → Bool
is_set none = false
is_set (some a) = true

-- `c.numCache[val] = n`
pub cache_number : Context → String → Result FilterError Context
cache_number c value = elim (parse_uint value) [
  | none ↦ err invalid_number
  | some n ↦ ok (record c { num_cache = (value, n) ∷ c.num_cache })
]

-- The inner switch on the operation of a simple filter.
pub check_op : Context → FilterOp → String → Result FilterError Context
unfolding cache_number
check_op c op_eq value = ok c
check_op c op_ne value = ok c
check_op c op_gt value = cache_number c value
check_op c op_ge value = cache_number c value
check_op c op_lt value = cache_number c value
check_op c op_le value = cache_number c value
check_op c op_or value = err invalid_filter_op
check_op c op_and value = err invalid_filter_op
check_op c (op_other n) value = err invalid_filter_op

-- The default branch of the outer switch; `reference` is `!top && fName != ""`.
pub check_simple : Context → FilterOp → String → Filters → Bool → Result FilterError Context
unfolding check_op
check_simple c op value inner reference =
    if not (is_empty inner)
    then err non_empty_filters
    else if reference
    then ok c
    else check_op c op value

-- The guards of `processFilter` on the name.
pub check_name : Context → String → Bool → Option FilterError
check_name c f_name top =
    if str_eq f_name main_filter_name
    then some invalid_filter_name
    else if top && str_eq f_name ""
    then some unnamed_top_filter
    else if not top && not (str_eq f_name "") && not (is_set (lookup f_name c.processed_filters))
    then some filter_not_found
    else none

-- An early return of an error.
pub gate : Option FilterError → Result FilterError Context → Result FilterError Context
gate (some e) rest = err e
gate none rest = rest

-- `processFilter`, and its loop over the inner filters.
mutual
  unfolding gate check_name check_simple

  pub process_filter : Context → Filter → Bool → Result FilterError Context
  process_filter c (filter f_name key op value inner) top =
      let nested = process_inner c inner in
      gate (check_name c f_name top) (
        (if is_compound op
          then nested
          else check_simple c op value inner (not top && not (str_eq f_name "")))
        >>= λ c'. ok (
            if top
            then record c' {
              processed_filters = (f_name, filter f_name key op value inner) ∷ c'.processed_filters;
            }
            else c'))

  pub process_inner : Context → Filters → Result FilterError Context
  process_inner c no_more = ok c
  process_inner c (also f fs) = process_filter c f false >>= λ c'. process_inner c' fs

-- `processFilters`
unfoldable pub process_filters : Context → List Filter → Result FilterError Context
process_filters c [] = ok c
process_filters c (f ∷ fs) = process_filter c f true >>= λ c'. process_filters c' fs

-- The number of a filter's value, zero where the cache has none.
abbrev pub or_zero : Option ℕ → ℕ
or_zero none = 0
or_zero (some n) = n

-- The attribute that a numeric comparison reads; none where the filter just fails.
pub compared_number : String → NodeInfo → Result Fault (Option ℕ)
compared_number key b =
    if str_eq key "Price"
    then price b >>= (λ n. ok (some n))
    else if str_eq key "Capacity"
    then capacity b >>= (λ n. ok (some n))
    else ok (parse_uint (attribute b key))

abbrev pub compare_with : FilterOp → ℕ → ℕ → Bool
compare_with op_gt attr n = ltb n attr
compare_with op_ge attr n = leb n attr
compare_with op_lt attr n = ltb attr n
compare_with op_le attr n = leb attr n
compare_with op_eq attr n = false
compare_with op_ne attr n = false
compare_with op_or attr n = false
compare_with op_and attr n = false
compare_with (op_other k) attr n = false

pub match_number : Context → FilterOp → String → String → NodeInfo → Result Fault Bool
unfolding compared_number
match_number c op key value b = compared_number key b >>= λ attr. elim attr [
  | none ↦ ok false
  | some n ↦ ok (compare_with op n (or_zero (lookup value c.num_cache)))
]

-- `matchKeyValue`
pub match_key_value : Context → FilterOp → String → String → NodeInfo → Result Fault Bool
unfolding match_number
match_key_value c op_eq key value b = ok (str_eq (attribute b key) value)
match_key_value c op_ne key value b = ok (not (str_eq (attribute b key) value))
match_key_value c op_gt key value b = match_number c op_gt key value b
match_key_value c op_ge key value b = match_number c op_ge key value b
match_key_value c op_lt key value b = match_number c op_lt key value b
match_key_value c op_le key value b = match_number c op_le key value b
match_key_value c op_or key value b = match_number c op_or key value b
match_key_value c op_and key value b = match_number c op_and key value b
match_key_value c (op_other n) key value b = match_number c (op_other n) key value b

-- `fSub`: a named inner filter stands for the processed filter of that name.
pub resolve : Context → Filter → Option Filter
resolve c f = if str_eq (name f) "" then some f else lookup (name f) c.processed_filters

-- The loop of `match` over inner filters; `m` is the recursive call. A name that no processed filter has
-- stands for the nil filter, which fails: the getters of a nil message give no operation of the code's.
pub match_inner : (Filter → Result Fault Bool) → Context → Bool → Filters → Result Fault Bool
match_inner m c or' no_more = ok (not or')
match_inner m c or' (also f fs) =
    let rest = match_inner m c or' fs in
    elim (resolve c f) [
      | none ↦ if or' then rest else ok false
      | some g ↦ m g >>= λ found.
          if found then (if or' then ok true else rest) else (if or' then rest else ok false)
    ]

-- `match`; a filter may name others, so the recursive calls take fuel.
pub match_fuel : ℕ → Context → Filter → NodeInfo → Result Fault Bool
unfolding match_key_value match_inner
match_fuel zero c f b = err out_of_fuel
match_fuel (suc n) c (filter f_name key op value inner) b =
    if is_compound op
    then match_inner (λ g. match_fuel n c g b) c (is_or op) inner
    else match_key_value c op key value b
