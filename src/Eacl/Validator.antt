-- ===== src/Eacl/Validator.antt =====
-- The validator of extended ACLs: eacl/validator.go, and the unit of a check of eacl/types.go.
pub mod Match
pub mod Decision
use neofs_sdk_go.Prelude.{
  ℕ, zero, suc, ◌+◌, String, Bool, true, false, not, ◌&&◌, Option, none, some, List, [], ◌∷◌, ◌++◌,
  ◌==◌, str_eq, if◌then◌else◌, length,
}
use neofs_sdk_go.Prelude.Int.{ℤ, pos, negsuc, sub_ℕ}
use neofs_sdk_go.Prelude.Bytes.{Bytes, bytes_eq}
use neofs_sdk_go.Eacl.{
  FilterNames, Filter, Target, Record, Table, Role, Operation, Action, action_allow, MatchType,
  match_string_equal, match_string_not_equal, FilterHeaderType, key_string,
}

-- A header is an interface of two getters; the lists that `TypedHeaderSource` returns may hold nil.
pub record Header : Type 0 where
  pub key : String
  pub value : String

abbrev pub TypedHeaderSource : Type 0
TypedHeaderSource = FilterHeaderType → Option (List (Option Header))

-- The fields of `ValidationUnit` that the validator reads.
pub record ValidationUnit : Type 0 where
  pub role : Role
  pub op : Operation
  pub hdr_src : TypedHeaderSource
  pub key : Bytes
  pub table : Table

-- `mMatchFns`: no function for any other match type.
pub match_fn : MatchType → Option (Header → Filter → Bool)
match_fn m =
    if m == match_string_equal
    then some (λ header filter. str_eq header.value filter.value)
    else if m == match_string_not_equal
    then some (λ header filter. not (str_eq header.value filter.value))
    else none

abbrev apply_match : Option (Header → Filter → Bool) → Header → Filter → Bool
apply_match none header filter = false
apply_match (some f) header filter = f header filter

pub contains_key : Bytes → List Bytes → Bool
contains_key key [] = false
contains_key key (k ∷ ks) = let rest = contains_key key ks in if bytes_eq k key then true else rest

pub target_matches_one : Role → Bytes → Target → Bool
unfolding contains_key
target_matches_one role key target =
    if length target.keys == 0 then role == target.role else contains_key key target.keys

-- `targetMatches`: the loop over the targets of a record.
pub target_matches : Role → Bytes → List Target → Bool
unfolding target_matches_one
target_matches role key [] = false
target_matches role key (target ∷ targets) =
    let rest = target_matches role key targets in
    if target_matches_one role key target then true else rest

module _ (names : FilterNames) where
  -- One round of the loop over headers: does this header stop it, by a match?
  pub header_matches : Filter → Option Header → Bool
  unfolding match_fn key_string
  header_matches filter none = false
  header_matches filter (some header) =
      if str_eq header.key (key_string names filter.key)
      then apply_match (match_fn filter.matcher) header filter
      else false

  -- The loop over headers, which breaks at the first match.
  pub any_header : Filter → List (Option Header) → Bool
  unfolding header_matches
  any_header filter [] = false
  any_header filter (header ∷ headers) =
      let rest = any_header filter headers in if header_matches filter header then true else rest

  -- The loop over filters; `total` is `len(filters)`.
  pub match_loop : TypedHeaderSource → ℕ → ℕ → List Filter → ℤ
  match_loop src total matched [] = sub_ℕ total matched
  match_loop src total matched (filter ∷ filters) = elim (src filter.from) [
    | none ↦ negsuc 0
    | some headers ↦
        match_loop src total (if any_header filter headers then matched + 1 else matched) filters
  ]

  pub match_filters : TypedHeaderSource → List Filter → ℤ
  unfolding match_loop
  match_filters src filters = match_loop src (length filters) 0 filters

  -- What the switch on the result of `matchFilters` does in a round of `CalculateAction`.
  abbrev by_filters : Record → ℤ → Action × Bool → Action × Bool
  by_filters record_ (negsuc n) rest = (action_allow, false)
  by_filters record_ (pos zero) rest = (record_.action, true)
  by_filters record_ (pos (suc n)) rest = rest

  -- The loop of `CalculateAction`.
  pub calculate : ValidationUnit → List Record → Action × Bool
  calculate unit [] = (action_allow, false)
  calculate unit (r ∷ records) =
      let rest = calculate unit records in
      if not (r.operation == unit.op)
      then rest
      else if not (target_matches unit.role unit.key r.targets)
      then rest
      else by_filters r (match_filters unit.hdr_src r.filters) rest

  pub calculate_action : ValidationUnit → Action × Bool
  unfolding calculate
  calculate_action unit = calculate unit unit.table.records
