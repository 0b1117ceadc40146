-- ===== src/Netmap/Text.antt =====
-- The text of a placement policy: `WriteStringTo` (netmap/policy.go). A writer is what it holds so far,
-- and may refuse any text after any other. The names of operations are those of the API package; an
-- operation that is not specified is `op_other 0`.
pub mod Written
pub mod Lines
pub mod Ambiguous
mod Tests
use neofs_sdk_go.Prelude.{
  ℕ, zero, suc, ◌+◌, ◌/◌, ◌%◌, String, Bool, true, false, not, ◌&&◌, List, [], ◌∷◌, ◌++◌, ltb, ◌==◌,
  str_eq, if◌then◌else◌,
}
use neofs_sdk_go.Prelude.Bytes.{Bytes, codes}
use neofs_sdk_go.Prelude.Result.{Result, ok, err, ◌>>=◌}
use neofs_sdk_go.Netmap.Filter.{
  FilterOp, op_eq, op_ne, op_gt, op_ge, op_lt, op_le, op_or, op_and, op_other, Filter, filter,
  Filters, no_more, also,
}
use neofs_sdk_go.Netmap.Select.{Selector, Clause, same, distinct, any_other}
use neofs_sdk_go.Netmap.Container.{Replica, PlacementPolicy}

pub record Writer : Type 0 where
  pub accepts : Bytes → Bytes → Bool
  pub op_text : FilterOp → Bytes

pub data WriteError : Type 0 where
  refused : WriteError

-- `%d`: the digits before `acc`, at most as many as the fuel; a uint32 has at most ten.
pub digits : ℕ → ℕ → Bytes → Bytes
digits zero n acc = acc
digits (suc fuel) n acc =
    let rest = digits fuel (n / 10) ((b'0' + n % 10) ∷ acc) in
    if n / 10 == 0 then (b'0' + n % 10) ∷ acc else rest

pub format_dec : ℕ → Bytes
unfolding digits
format_dec n = digits 10 n []

pub clause_text : Clause → Bytes
clause_text same = codes "SAME "
clause_text distinct = codes "DISTINCT "
clause_text any_other = []

pub is_unspecified : FilterOp → Bool
is_unspecified (op_other n) = n == 0
is_unspecified op_eq = false
is_unspecified op_ne = false
is_unspecified op_gt = false
is_unspecified op_ge = false
is_unspecified op_lt = false
is_unspecified op_le = false
is_unspecified op_or = false
is_unspecified op_and = false

-- `writtenSmth`, and what the writer holds.
pub record Progress : Type 0 where
  pub written_smth : Bool
  pub out : Bytes

module _ (w : Writer) where
  pub write_string : Bytes → Bytes → Result WriteError Bytes
  write_string s out = if w.accepts out s then ok (out ++ s) else err refused

  -- The first lines of `writeFilterStringTo`, and its last.
  pub write_head : String → String → FilterOp → String → Bytes → Result WriteError Bytes
  unfolding write_string is_unspecified
  write_head f_name key op value out =
      if str_eq key ""
      then (if is_unspecified op && not (str_eq f_name "")
          then write_string (codes "@" ++ codes f_name) out
          else ok out)
      else write_string (codes key ++ (codes " " ++ (w.op_text op ++ (codes " " ++ codes value))))
          out

  pub write_name : String → FilterOp → Bytes → Result WriteError Bytes
  unfolding write_string is_unspecified
  write_name f_name op out =
      if not (str_eq f_name "") && not (is_unspecified op)
      then write_string (codes " AS " ++ codes f_name) out
      else ok out

  mutual
    unfolding write_string write_head write_name

    -- `writeFilterStringTo`
    pub write_filter : Filter → Bytes → Result WriteError Bytes
    write_filter (filter f_name key op value inner) out =
        (write_head f_name key op value out >>= λ o. write_inner op true inner o) >>= λ o.
        write_name f_name op o

    -- Its loop, whose first round writes no operation.
    pub write_inner : FilterOp → Bool → Filters → Bytes → Result WriteError Bytes
    write_inner op first no_more out = ok out
    write_inner op first (also f fs) out =
        ((if first then ok out else write_string (codes " " ++ (w.op_text op ++ codes " ")) out)
          >>= λ o. write_filter f o)
        >>= λ o. write_inner op false fs o

  -- One of the loops of `WriteStringTo`: for each, `writeLnIfNeeded` and the statement.
  pub write_each :
      {A : Type 0}
      → (A → Bytes → Result WriteError Bytes)
      → List A
      → Progress
      → Result WriteError Progress
  unfolding write_string
  write_each statement [] t = ok t
  write_each statement (a ∷ as') t = do
    o1 ← if t.written_smth then write_string (codes "\n") t.out else ok t.out
    o2 ← statement a o1
    write_each statement as' (record { written_smth = true; out = o2 })

  pub write_replica : Replica → Bytes → Result WriteError Bytes
  unfolding write_string format_dec
  write_replica r out =
      if str_eq r.selector ""
      then write_string (codes "REP " ++ format_dec r.count) out
      else write_string (codes "REP " ++ (format_dec r.count ++ (codes " IN " ++ codes r.selector)))
          out

  pub write_backup : ℕ → Bytes → Result WriteError Bytes
  unfolding write_string format_dec
  write_backup n out = write_string (codes "CBF " ++ format_dec n) out

  pub write_selector : Selector → Bytes → Result WriteError Bytes
  unfolding write_string format_dec clause_text
  write_selector s out =
      ((write_string (codes "SELECT " ++ format_dec s.count) out >>= λ o.
      if str_eq s.attribute ""
      then ok o
      else write_string (codes " IN " ++ (clause_text s.clause ++ codes s.attribute)) o)
        >>= λ o.
            if str_eq s.filter "" then ok o else write_string (codes " FROM " ++ codes s.filter) o)
      >>= λ o. if str_eq s.name "" then ok o else write_string (codes " AS " ++ codes s.name) o

  pub write_filter_line : Filter → Bytes → Result WriteError Bytes
  unfolding write_string write_filter
  write_filter_line f out = write_string (codes "FILTER ") out >>= λ o. write_filter f o

  -- `WriteStringTo`
  pub write_string_to : PlacementPolicy → Bytes → Result WriteError Progress
  unfolding write_each write_replica write_backup write_selector write_filter_line
  write_string_to p out = do
    t1 ← write_each write_replica p.replicas (record { written_smth = false; out = out })
    t2 ← write_each write_backup (if ltb 0 p.backup then p.backup ∷ [] else []) t1
    t3 ← write_each write_selector p.selectors t2
    write_each write_filter_line p.filters t3
