-- ===== src/Eacl/Equal.antt =====
-- Comparison of tables: `equalFilters` (eacl/filter.go), `equalTargets` (target.go), `equalRecords`
-- (record.go) and `EqualTables` (table.go).
use neofs_sdk_go.Prelude.{
  String, Bool, true, false, not, ◌&&◌, Option, none, some, List, [], ◌∷◌, ◌==◌, str_eq,
  if◌then◌else◌, length, ◌≡◌, refl, ap, ap₂, ◌↔◌, map, arith, eq_iff, inl, inr, Bool-cases,
}
use neofs_sdk_go.Prelude.Bytes.{Bytes, bytes_eq, bytes_eq_iff}
use neofs_sdk_go.Version.{Version}
use neofs_sdk_go.Version
use neofs_sdk_go.Eacl.{
  FilterNames, Filter, Target, Record, Table, Operation, Action, MatchType, FilterHeaderType,
  key_string,
}

-- for i := 0; i < len(xs); i++ { if !eq(xs[i], ys[i]) { return false } }; return true
abbrev loop_equal {ℓ} : {A : Type ℓ} → (A → A → Bool) → List A → List A → Bool
loop_equal eq [] ys = true
loop_equal eq (x ∷ xs) [] = true
loop_equal eq (x ∷ xs) (y ∷ ys) = let rest = loop_equal eq xs ys in if eq x y then rest else false

pub equal_targets : Target → Target → Bool
equal_targets t1 t2 =
    if not (t1.role == t2.role)
    then false
    else if not (length t1.keys == length t2.keys)
    then false
    else loop_equal bytes_eq t1.keys t2.keys

-- `CID` returns the zero ID where none is set, so two tables without an ID agree.
equal_cid : Option Bytes → Option Bytes → Bool
equal_cid none none = true
equal_cid (some a) (some b) = bytes_eq a b
equal_cid none (some b) = false
equal_cid (some a) none = false

-- `equalFilters`, `equalTargets`, `equalRecords` and `EqualTables`. The index loops run over two lists
-- of equal length, side by side.
module _ (names : FilterNames) where
  pub equal_filters : Filter → Filter → Bool
  equal_filters f1 f2 =
      f1.from == f2.from
      && f1.matcher == f2.matcher
      && str_eq (key_string names f1.key) (key_string names f2.key)
      && str_eq f1.value f2.value

  pub equal_records : Record → Record → Bool
  equal_records r1 r2 =
      if not (r1.operation == r2.operation)
      then false
      else if not (r1.action == r2.action)
      then false
      else if not (length r1.filters == length r2.filters)
      then false
      else if not (length r1.targets == length r2.targets)
      then false
      else if loop_equal equal_filters r1.filters r2.filters
      then loop_equal equal_targets r1.targets r2.targets
      else false

  pub equal_tables : Table → Table → Bool
  equal_tables t1 t2 =
      if not (equal_cid t1.cid t2.cid)
      then false
      else if not (Version.equal t1.version t2.version)
      then false
      else if not (length t1.records == length t2.records)
      then false
      else loop_equal equal_records t1.records t2.records

-- What a table says, with keys as text: reserved keys and plain keys of the same text agree.
pub record FilterView : Type 0 where
  pub from : FilterHeaderType
  pub matcher : MatchType
  pub key : String
  pub value : String

pub record RecordView : Type 0 where
  pub operation : Operation
  pub action : Action
  pub filters : List FilterView
  pub targets : List Target

pub record TableView : Type 0 where
  pub cid : Option Bytes
  pub version : Version
  pub records : List RecordView

-- The loop over two lists of one length decides equality of what the items show.
loop_equal_iff :
    {A B : Type 0} (eq : A → A → Bool) (view : A → B)
    → ((a b : A) → (eq a b ≡ true) ↔ (view a ≡ view b))
    → (xs ys : List A)
    → (((length xs == length ys) ≡ true) × (loop_equal eq xs ys ≡ true))
      ↔ (map view xs ≡ map view ys)
loop_equal_iff eq view h [] [] = ((λ _. refl), (λ _. (refl, refl)))
loop_equal_iff eq view h [] (y ∷ ys) = ((λ e. absurd (ground (arith, e.0))), (λ e. cc))
loop_equal_iff eq view h (x ∷ xs) [] = ((λ e. absurd (ground (arith, e.0))), (λ e. cc))
loop_equal_iff eq view h (x ∷ xs) (y ∷ ys) =
    let ih = loop_equal_iff eq view h xs ys in
    (
      (λ e. elim (Bool-cases (eq x y)) [
        | inl s ↦ ap₂ ◌∷◌ ((h x y).0 s) (ih.0 (ground (arith, e.0), rw s at e.1))
        | inr s ↦ cc (rw s at e.1)
      ]),
      (λ e.
          let l = ih.1 (cc e) in
          let s : eq x y ≡ true = (h x y).1 (cc e) in (ground (arith, l.0), rw s l.1)),
    )

map_same : {A : Type 0} (xs : List A) → map (λ x. x) xs ≡ xs
map_same [] = refl
map_same (x ∷ xs) = ap (λ t. x ∷ t) (map_same xs)

lists_equal_iff :
    {A : Type 0} (eq : A → A → Bool)
    → ((a b : A) → (eq a b ≡ true) ↔ (a ≡ b))
    → (xs ys : List A)
    → (((length xs == length ys) ≡ true) × (loop_equal eq xs ys ≡ true)) ↔ (xs ≡ ys)
lists_equal_iff eq h xs ys =
    let iff = loop_equal_iff eq (λ x. x) h xs ys in
    ((λ e. rw (map_same xs, map_same ys) at (iff.0 e)), (λ e. iff.1 (ap (map (λ x. x)) e)))

equal_targets_iff : (a b : Target) → (equal_targets a b ≡ true) ↔ (a ≡ b)
unfolding equal_targets
equal_targets_iff a b =
    let keys = lists_equal_iff bytes_eq bytes_eq_iff a.keys b.keys in
    (
      (λ e. ground (arith, keys.0 (ground (arith, e), ground (arith, e)))),
      (λ e. let k = keys.1 (ap (λ (t : Target). t.keys) e) in ground (arith, k.0, k.1, e)),
    )

equal_cid_iff : (a b : Option Bytes) → (equal_cid a b ≡ true) ↔ (a ≡ b)
unfolding equal_cid
equal_cid_iff none none = ((λ _. refl), (λ _. refl))
equal_cid_iff none (some b) = ((λ e. cc), (λ e. cc))
equal_cid_iff (some a) none = ((λ e. cc), (λ e. cc))
equal_cid_iff (some a) (some b) =
    ((λ e. ap some ((bytes_eq_iff a b).0 e)), (λ e. (bytes_eq_iff a b).1 (cc e)))

equal_version_iff : (a b : Version) → (Version.equal a b ≡ true) ↔ (a ≡ b)
unfolding Version.equal
equal_version_iff a b = ((λ e. ground arith), (λ e. ground arith))

module _ (names : FilterNames) where
  abbrev pub filter_view : Filter → FilterView
  filter_view f = record {
    from = f.from;
    matcher = f.matcher;
    key = key_string names f.key;
    value = f.value;
  }

  abbrev pub record_view : Record → RecordView
  record_view r = record {
    operation = r.operation;
    action = r.action;
    filters = map filter_view r.filters;
    targets = r.targets;
  }

  abbrev pub table_view : Table → TableView
  table_view t = record { cid = t.cid; version = t.version; records = map record_view t.records }

  equal_filters_iff :
      (a b : Filter) → (equal_filters names a b ≡ true) ↔ (filter_view a ≡ filter_view b)
  unfolding equal_filters
  equal_filters_iff a b = (
    (λ e.
        ground (
          arith,
          eq_iff (key_string names a.key) (key_string names b.key),
          eq_iff a.value b.value,
        )),
    (λ e.
        ground (
          arith,
          eq_iff (key_string names a.key) (key_string names b.key),
          eq_iff a.value b.value,
        )),
  )

  equal_records_iff :
      (a b : Record) → (equal_records names a b ≡ true) ↔ (record_view a ≡ record_view b)
  unfolding equal_records
  equal_records_iff a b =
      let fs =
        loop_equal_iff (equal_filters names) filter_view equal_filters_iff a.filters b.filters in
      let ts = lists_equal_iff equal_targets equal_targets_iff a.targets b.targets in
      (
        (λ e.
            let f = fs.0 (ground arith, ground arith) in
            let t = ts.0 (ground arith, ground arith) in ground (arith, f, t)),
        (λ e.
            let f = fs.1 (ap (λ (r : RecordView). r.filters) e) in
            let t = ts.1 (ap (λ (r : RecordView). r.targets) e) in
            ground (arith, f.0, f.1, t.0, t.1)),
      )

  -- `EqualTables` holds exactly for tables that show the same: container ID, version, and in order the
  -- records with their operation, action, targets and filters, where keys are compared as text.
  pub equal_tables_iff :
      (a b : Table) → (equal_tables names a b ≡ true) ↔ (table_view a ≡ table_view b)
  unfolding equal_tables
  equal_tables_iff a b =
      let rs =
        loop_equal_iff (equal_records names) record_view equal_records_iff a.records b.records in
      let c = equal_cid_iff a.cid b.cid in
      let v = equal_version_iff a.version b.version in
      (
        (λ e.
            let r = rs.0 (ground arith, ground arith) in
            ground (arith, r, c.0 (ground arith), v.0 (ground arith))),
        (λ e.
            let r = rs.1 (ap (λ (t : TableView). t.records) e) in
            ground (
              arith,
              r.0,
              r.1,
              c.1 (ap (λ (t : TableView). t.cid) e),
              v.1 (ap (λ (t : TableView). t.version) e),
            )),
      )
