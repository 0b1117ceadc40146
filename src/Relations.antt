-- ===== src/Relations.antt =====
-- The parts of a split object: object/relations/relations.go, with object/splitinfo.go. The executor that
-- asks the network is a parameter: what it answers on heads and on the search by a parent's ID. Tokens,
-- the signer and the context go to it alone and are left out. IDs are valid.
pub mod Walk
pub mod Sliced
mod Tests
use neofs_sdk_go.Prelude.{
  ℕ, zero, suc, Bool, true, false, ◌||◌, Option, none, some, List, [], ◌∷◌, length, ltb,
  if◌then◌else◌,
}
use neofs_sdk_go.Prelude.Bytes.{Bytes, bytes_eq}
use neofs_sdk_go.Prelude.Result.{Result, ok, err, ◌>>=◌}
use neofs_sdk_go.Slicer.Object.{Header}

pub record SplitInfo : Type 0 where
  pub split_id : Option Bytes
  pub last_part : Option Bytes
  pub link : Option Bytes

-- What `ObjectHead` and `ReadHeader` give: split information as an error, another error, no header, or
-- the header.
pub data HeadReply : Type 0 where
  split_info_error : SplitInfo → HeadReply
  head_failed : ℕ → HeadReply
  no_header : HeadReply
  header : Header → HeadReply

pub data RelationsError : Type 0 where
  no_left_sibling no_split_info missing_header missing_split_data : RelationsError
  duplicated_member : Bytes → RelationsError
  head_error : ℕ → RelationsError
  not_raw : SplitInfo → RelationsError
  search_error : ℕ → RelationsError

-- The executor in one container: heads, raw or not, and the objects with a given parent.
pub record Executor : Type 0 where
  pub head : Bool → Bytes → HeadReply
  pub search : Bytes → Result ℕ (List Bytes)

abbrev pub is_some {ℓ} : {A : Type ℓ} → Option A → Bool
is_some none = false
is_some (some a) = true

-- `HasParent`: there is a split header.
abbrev pub has_parent : Header → Bool
has_parent h =
    is_some h.split_id || is_some h.previous || is_some h.parent || ltb 0 (length h.children)

abbrev pub own_split_info : Bytes → Header → Bytes → SplitInfo
own_split_info id h split =
    if has_parent h
    then if ltb 0 (length h.children)
      then record { split_id = some split; last_part = none; link = some id }
      else record { split_id = some split; last_part = some id; link = none }
    else record { split_id = some split; last_part = none; link = none }

abbrev pub header_split_info : Bytes → Header → Option Bytes → Result RelationsError SplitInfo
header_split_info id h none = err no_split_info
header_split_info id h (some split) = ok (own_split_info id h split)

abbrev pub reply_split_info : Bytes → HeadReply → Result RelationsError SplitInfo
reply_split_info id (split_info_error s) = ok s
reply_split_info id (head_failed n) = err (head_error n)
reply_split_info id no_header = err missing_header
reply_split_info id (header h) = header_split_info id h h.split_id

abbrev pub reply_header : HeadReply → Result RelationsError Header
reply_header (split_info_error s) = err (not_raw s)
reply_header (head_failed n) = err (head_error n)
reply_header no_header = err missing_header
reply_header (header h) = ok h

abbrev pub previous_or : Option Bytes → Result RelationsError Bytes
previous_or none = err no_left_sibling
previous_or (some id) = ok id

abbrev pub found : Result ℕ (List Bytes) → Result RelationsError (List Bytes)
found (ok ids) = ok ids
found (err n) = err (search_error n)

-- `errors.Is(err, ErrNoSplitInfo)` and `errors.Is(err, ErrNoLeftSibling)`.
abbrev pub is_no_split_info : RelationsError → Bool
is_no_split_info no_left_sibling = false
is_no_split_info no_split_info = true
is_no_split_info missing_header = false
is_no_split_info missing_split_data = false
is_no_split_info (duplicated_member id) = false
is_no_split_info (head_error n) = false
is_no_split_info (not_raw s) = false
is_no_split_info (search_error n) = false

abbrev pub is_no_left_sibling : RelationsError → Bool
is_no_left_sibling no_left_sibling = true
is_no_left_sibling no_split_info = false
is_no_left_sibling missing_header = false
is_no_left_sibling missing_split_data = false
is_no_left_sibling (duplicated_member id) = false
is_no_left_sibling (head_error n) = false
is_no_left_sibling (not_raw s) = false
is_no_left_sibling (search_error n) = false

-- `chainSet` holds the members of `chain`.
pub contains : Bytes → List Bytes → Bool
contains id [] = false
contains id (x ∷ xs) = bytes_eq x id || contains id xs

-- What `Get` returns: the parts in order, and the linking object.
abbrev pub Parts : Type 0
Parts = Result RelationsError (List Bytes × Option Bytes)

module _ (ex : Executor) where
  pub get_split_info : Bytes → Result RelationsError SplitInfo
  get_split_info id = reply_split_info id (ex.head true id)

  pub find_sibling_by_parent_id : Bytes → Result RelationsError (List Bytes)
  find_sibling_by_parent_id id = found (ex.search id)

  pub list_children_by_linker : Bytes → Result RelationsError (List Bytes)
  list_children_by_linker id = do h ← reply_header (ex.head false id); ok h.children

  pub get_left_sibling : Bytes → Result RelationsError Bytes
  get_left_sibling id = do h ← reply_header (ex.head false id); previous_or h.previous

  -- The loop over what the search found.
  pub complete_split_info : SplitInfo → List Bytes → Result RelationsError SplitInfo
  unfolding get_split_info
  complete_split_info info [] = ok info
  complete_split_info info (id ∷ ids) = elim (get_split_info id) [
    | err e ↦ let rest = complete_split_info info ids in if is_no_split_info e then rest else err e
    | ok split ↦ elim split.link [
      | some link ↦ ok (record info { link = some link })
      | none ↦ elim split.last_part [
        | some last ↦ complete_split_info (record info { last_part = some last }) ids
        | none ↦ complete_split_info info ids
      ]
    ]
  ]

  -- The first `if` of `Get`: what to do without a linking object.
  pub with_link : Bytes → SplitInfo → Result RelationsError SplitInfo
  unfolding find_sibling_by_parent_id complete_split_info
  with_link root info = elim info.link [
    | some link ↦ ok info
    | none ↦ find_sibling_by_parent_id root >>= complete_split_info info
  ]

  -- The last loop of `Get`, from `id` to the left, on fuel.
  pub collect_chain : ℕ → Bytes → List Bytes → Option Parts
  unfolding get_left_sibling contains
  collect_chain zero id chain = none
  collect_chain (suc fuel) id chain = elim (get_left_sibling id) [
    | err e ↦ if is_no_left_sibling e then some (ok (chain, none)) else some (err e)
    | ok previous ↦
        let rest = collect_chain fuel previous (previous ∷ chain) in
        if contains previous chain then some (err (duplicated_member previous)) else rest
  ]

  -- The rest of `Get`, by the linking object or along the chain.
  pub get_parts : ℕ → SplitInfo → Option Parts
  unfolding list_children_by_linker collect_chain
  get_parts fuel info = elim info.link [
    | some link ↦ some (do children ← list_children_by_linker link; ok (children, some link))
    | none ↦ elim info.last_part [
      | none ↦ some (err missing_split_data)
      | some last ↦ collect_chain fuel last (last ∷ [])
    ]
  ]

  -- `Get`
  pub get : ℕ → Bytes → Option Parts
  unfolding get_split_info with_link get_parts
  get fuel root = elim (get_split_info root) [
    | err e ↦ if is_no_split_info e then some (ok ([], none)) else some (err e)
    | ok info ↦ elim (with_link root info) [
      | err e ↦ some (err e)
      | ok info' ↦ get_parts fuel info'
    ]
  ]
