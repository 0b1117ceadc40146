-- ===== src/Eacl/Message/Kept.antt =====
-- What a table keeps on its way through a message (`Table.ToV2`, `NewTableFromV2` of eacl/table.go and what
-- they call).
use neofs_sdk_go.Prelude.{
  ℕ, ◌≡◌, refl, ap, ap₂, Option, none, some, List, [], ◌∷◌, ◌++◌, map, length, leb, if◌then◌else◌,
  arith, take, subst,
}
use neofs_sdk_go.Prelude.Bytes.{Bytes}
use neofs_sdk_go.Eacl.{
  key_string, FilterNames, Filter, Target, Record, Table, Operation, Action, Role, MatchType,
  FilterHeaderType,
}
use neofs_sdk_go.Eacl.Equal.{
  FilterView, RecordView, TableView, filter_view, record_view, table_view,
}
use neofs_sdk_go.Eacl.Keys.{key_string-key_from_string}
use neofs_sdk_go.Eacl.Message.{
  action_to_v2, action_from_v2, operation_to_v2, operation_from_v2, role_to_v2, role_from_v2,
  match_to_v2, match_from_v2, header_type_to_v2, header_type_from_v2, target_to_v2, target_from_v2,
  zeros, copy_32, cid_from_v2, version_from_v2, filter_to_v2, filter_from_v2, record_to_v2,
  record_from_v2, table_to_v2, table_from_v2,
}

-- A number of an enumeration whose last named value is `last`; the unknown one for any other.
abbrev pub known : ℕ → ℕ → ℕ
known last v = if leb v last then v else 0

abbrev pub known_target : Target → Target
known_target t = record t { role = known 3 t.role }

abbrev pub known_filter : FilterView → FilterView
known_filter f = record f { from = known 3 f.from; matcher = known 2 f.matcher }

abbrev pub known_record : RecordView → RecordView
known_record r = record {
  operation = known 7 r.operation;
  action = known 2 r.action;
  filters = map known_filter r.filters;
  targets = map known_target r.targets;
}

-- The table with no number that enums.go does not name.
abbrev pub known_table : TableView → TableView
known_table t = record t { records = map known_record t.records }

action_back : (a : Action) → action_from_v2 (action_to_v2 a) ≡ known 2 a
unfolding action_to_v2 action_from_v2
action_back a = ground arith

operation_back : (o : Operation) → operation_from_v2 (operation_to_v2 o) ≡ known 7 o
unfolding operation_to_v2 operation_from_v2
operation_back o = ground arith

role_back : (r : Role) → role_from_v2 (role_to_v2 r) ≡ known 3 r
unfolding role_to_v2 role_from_v2
role_back r = ground arith

match_back : (m : MatchType) → match_from_v2 (match_to_v2 m) ≡ known 2 m
unfolding match_to_v2 match_from_v2
match_back m = ground arith

header_type_back : (h : FilterHeaderType) → header_type_from_v2 (header_type_to_v2 h) ≡ known 3 h
unfolding header_type_to_v2 header_type_from_v2
header_type_back h = ground arith

known_action : (a : Action) → action_to_v2 (known 2 a) ≡ action_to_v2 a
unfolding action_to_v2
known_action a = ground arith

known_operation : (o : Operation) → operation_to_v2 (known 7 o) ≡ operation_to_v2 o
unfolding operation_to_v2
known_operation o = ground arith

known_role : (r : Role) → role_to_v2 (known 3 r) ≡ role_to_v2 r
unfolding role_to_v2
known_role r = ground arith

known_match : (m : MatchType) → match_to_v2 (known 2 m) ≡ match_to_v2 m
unfolding match_to_v2
known_match m = ground arith

known_header_type : (h : FilterHeaderType) → header_type_to_v2 (known 3 h) ≡ header_type_to_v2 h
unfolding header_type_to_v2
known_header_type h = ground arith

-- Item by item, two ways through a list agree.
map_twice :
    {A B C : Type 0} (t : A → B) (f : B → C) (k : A → C)
    → ((x : A) → f (t x) ≡ k x)
    → (xs : List A) → map f (map t xs) ≡ map k xs
map_twice t f k h [] = refl
map_twice t f k h (x ∷ xs) = ap₂ ◌∷◌ (h x) (map_twice t f k h xs)

map_view :
    {A B V : Type 0} (t : A → B) (f : B → A) (v : A → V) (k : V → V)
    → ((x : A) → v (f (t x)) ≡ k (v x))
    → (xs : List A) → map v (map f (map t xs)) ≡ map k (map v xs)
map_view t f v k h [] = refl
map_view t f v k h (x ∷ xs) = ap₂ ◌∷◌ (h x) (map_view t f v k h xs)

map_again :
    {A B : Type 0} (t : A → B) (f : B → A)
    → ((x : A) → t (f (t x)) ≡ t x)
    → (xs : List A) → map t (map f (map t xs)) ≡ map t xs
map_again t f h [] = refl
map_again t f h (x ∷ xs) = ap₂ ◌∷◌ (h x) (map_again t f h xs)

take_padded : (bs zs : Bytes) → take (length bs) (bs ++ zs) ≡ bs
take_padded [] zs = refl
take_padded (b ∷ bs) zs = ap (λ t. b ∷ t) (take_padded bs zs)

copy_32_lem : (bs : Bytes) → length bs ≡ 32 → copy_32 bs ≡ bs
unfolding copy_32
copy_32_lem bs h = subst (λ n. take n (bs ++ zeros 32) ≡ bs) h (take_padded bs (zeros 32))

-- A container ID is of 32 bytes.
abbrev pub Sized : Option Bytes → Type 0
Sized none = Unit
Sized (some id) = length id ≡ 32

pub cid_back : (c : Option Bytes) → Sized c → cid_from_v2 c ≡ c
unfolding cid_from_v2
cid_back none s = refl
cid_back (some id) s = ap some (copy_32_lem id s)

target_back : (t : Target) → target_from_v2 (target_to_v2 t) ≡ known_target t
unfolding target_to_v2 target_from_v2
target_back t = rw (role_back t.role) refl

target_again : (t : Target) → target_to_v2 (target_from_v2 (target_to_v2 t)) ≡ target_to_v2 t
unfolding target_to_v2 target_from_v2
target_again t = rw (role_back t.role, known_role t.role) refl

module _ (names : FilterNames) where
  filter_back :
      (f : Filter)
      → filter_view names (filter_from_v2 names (filter_to_v2 names f))
        ≡ known_filter (filter_view names f)
  unfolding filter_to_v2 filter_from_v2
  filter_back f =
      rw
        (
          key_string-key_from_string names (key_string names f.key),
          match_back f.matcher,
          header_type_back f.from,
        )
        refl

  filter_again :
      (f : Filter)
      → filter_to_v2 names (filter_from_v2 names (filter_to_v2 names f)) ≡ filter_to_v2 names f
  unfolding filter_to_v2 filter_from_v2
  filter_again f =
      rw
        (
          key_string-key_from_string names (key_string names f.key),
          match_back f.matcher,
          header_type_back f.from,
          known_match f.matcher,
          known_header_type f.from,
        )
        refl

  record_back :
      (r : Record)
      → record_view names (record_from_v2 names (record_to_v2 names r))
        ≡ known_record (record_view names r)
  unfolding record_to_v2 record_from_v2
  record_back r =
      rw
        (
          action_back r.action,
          operation_back r.operation,
          map_view (filter_to_v2 names) (filter_from_v2 names) (filter_view names) known_filter
              filter_back r.filters,
          map_twice target_to_v2 target_from_v2 known_target target_back r.targets,
        )
        refl

  record_again :
      (r : Record)
      → record_to_v2 names (record_from_v2 names (record_to_v2 names r)) ≡ record_to_v2 names r
  unfolding record_to_v2 record_from_v2
  record_again r =
      rw
        (
          action_back r.action,
          operation_back r.operation,
          known_action r.action,
          known_operation r.operation,
          map_again (filter_to_v2 names) (filter_from_v2 names) filter_again r.filters,
          map_again target_to_v2 target_from_v2 target_again r.targets,
        )
        refl

  pub table_back :
      (t : Table)
      → Sized t.cid
      → table_view names (table_from_v2 names (table_to_v2 names t))
        ≡ known_table (table_view names t)
  unfolding table_to_v2 table_from_v2 version_from_v2
  table_back t s =
      rw
        (
          cid_back t.cid s,
          map_view (record_to_v2 names) (record_from_v2 names) (record_view names) known_record
              record_back t.records,
        )
        refl

  pub table_again :
      (t : Table)
      → Sized t.cid
      → table_to_v2 names (table_from_v2 names (table_to_v2 names t)) ≡ table_to_v2 names t
  unfolding table_to_v2 table_from_v2 version_from_v2
  table_again t s =
      rw
        (
          cid_back t.cid s,
          map_again (record_to_v2 names) (record_from_v2 names) record_again t.records,
        )
        refl
