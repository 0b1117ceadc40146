-- ===== src/Netmap/Text/Written.antt =====
-- What the statements of `WriteStringTo` (netmap/policy.go) write.
use neofs_sdk_go.Prelude.{
  ℕ, ◌≡◌, refl, sym, ap, ◌∙◌, String, Bool, true, false, not, ◌&&◌, [], ◌++◌, append-nil,
  append_assoc, str_eq, if◌then◌else◌, Bool-cases, inl, inr,
}
use neofs_sdk_go.Prelude.Bytes.{Bytes, codes}
use neofs_sdk_go.Prelude.Result.{Result, ok, ◌>>=◌, >>=-eq-ok, guard_ok}
use neofs_sdk_go.Netmap.Filter.{FilterOp, Filter, filter, Filters, no_more, also}
use neofs_sdk_go.Netmap.Select.{Selector}
use neofs_sdk_go.Netmap.Container.{Replica}
use neofs_sdk_go.Netmap.Text.{
  Writer, WriteError, format_dec, clause_text, is_unspecified, write_string, write_head, write_name,
  write_filter, write_inner, write_replica, write_backup, write_selector, write_filter_line,
}

-- The text of a filter and of the statements.
abbrev pub optional : Bool → Bytes → Bytes
optional true text = []
optional false text = text

module _ (w : Writer) where
  abbrev head_text : String → String → FilterOp → String → Bytes
  head_text f_name key op value =
      if str_eq key ""
      then (if is_unspecified op && not (str_eq f_name "") then codes "@" ++ codes f_name else [])
      else (codes key ++ (codes " " ++ (w.op_text op ++ (codes " " ++ codes value))))

  abbrev name_text : String → FilterOp → Bytes
  name_text f_name op =
      if not (str_eq f_name "") && not (is_unspecified op) then codes " AS " ++ codes f_name else []

  abbrev mutual
    pub filter_text : Filter → Bytes
    filter_text (filter f_name key op value inner) =
        (head_text f_name key op value ++ inner_text op true inner) ++ name_text f_name op

    pub inner_text : FilterOp → Bool → Filters → Bytes
    inner_text op first no_more = []
    inner_text op first (also f fs) =
        (optional first (codes " " ++ (w.op_text op ++ codes " ")) ++ filter_text f)
        ++ inner_text op false fs

  abbrev pub replica_text : Replica → Bytes
  replica_text r =
      if str_eq r.selector ""
      then codes "REP " ++ format_dec r.count
      else codes "REP " ++ (format_dec r.count ++ (codes " IN " ++ codes r.selector))

  abbrev pub selector_text : Selector → Bytes
  selector_text s =
      ((codes "SELECT " ++ format_dec s.count)
        ++ optional (str_eq s.attribute "")
            (codes " IN " ++ (clause_text s.clause ++ codes s.attribute)))
      ++ optional (str_eq s.filter "") (codes " FROM " ++ codes s.filter)
      ++ optional (str_eq s.name "") (codes " AS " ++ codes s.name)

  -- What a step writes where it returns no error, and that it returns none where no text is refused.
  abbrev pub Prints : (Bytes → Result WriteError Bytes) → Bytes → Type 0
  Prints m text =
      (out : Bytes)
      → ((out' : Bytes) → m out ≡ ok out' → out' ≡ out ++ text)
        × (((o s : Bytes) → w.accepts o s ≡ true) → m out ≡ ok (out ++ text))

  Prints-string : (s : Bytes) → Prints (write_string w s) s
  unfolding write_string
  Prints-string s out = (
    λ out' h. (let (y, e) = guard_ok (w.accepts out s) _ _ h in cc),
    λ all. rw (write_string, all out s) refl,
  )

  Prints-nothing : Prints (λ o. ok o) []
  Prints-nothing out = (
    λ out' h. (let e : out' ≡ out = cc in e ∙ sym (append-nil out)),
    λ all. rw (append-nil out) refl,
  )

  Prints-both :
      (m n : Bytes → Result WriteError Bytes) (s t : Bytes)
      → Prints m s
      → Prints n t
      → Prints (λ o. m o >>= n) (s ++ t)
  Prints-both m n s t ps pt out = (
    λ out' h.
        let (o, e, k) = >>=-eq-ok (m out) n h in
        (pt o).0 out' k ∙ ap (λ q. q ++ t) ((ps out).0 o e) ∙ append_assoc out s t,
    λ all. rw ((ps out).1 all) ((pt (out ++ s)).1 all ∙ ap ok (append_assoc out s t)),
  )

  Prints-unless :
      (c : Bool) (m : Bytes → Result WriteError Bytes) (s : Bytes)
      → Prints m s
      → Prints (λ o. if c then ok o else m o) (optional c s)
  Prints-unless true m s p = Prints-nothing
  Prints-unless false m s p = p

  head-Prints :
      (f_name key : String) (op : FilterOp) (value : String)
      → Prints (write_head w f_name key op value) (head_text f_name key op value)
  unfolding write_head
  head-Prints f_name key op value = elim (Bool-cases (str_eq key "")) [
    | inr n ↦ rw (n, write_head) (Prints-string _)
    | inl y ↦ elim (Bool-cases (is_unspecified op && not (str_eq f_name ""))) [
      | inl u ↦ rw (y, u, write_head) (Prints-string _)
      | inr z ↦ rw (y, z, write_head) Prints-nothing
    ]
  ]

  name-Prints :
      (f_name : String) (op : FilterOp) → Prints (write_name w f_name op) (name_text f_name op)
  unfolding write_name
  name-Prints f_name op = elim (Bool-cases (not (str_eq f_name "") && not (is_unspecified op))) [
    | inl u ↦ rw (u, write_name) (Prints-string _)
    | inr z ↦ rw (z, write_name) Prints-nothing
  ]

  mutual
    unfolding write_filter write_inner

    filter-Prints : (f : Filter) → Prints (write_filter w f) (filter_text f)
    filter-Prints (filter f_name key op value inner) =
        Prints-both (λ o. write_head w f_name key op value o >>= λ q. write_inner w op true inner q)
          (write_name w f_name op) _ _
          (Prints-both (write_head w f_name key op value) (write_inner w op true inner) _ _
            (head-Prints f_name key op value) (inner-Prints op true inner))
          (name-Prints f_name op)

    inner-Prints :
        (op : FilterOp) (first : Bool) (fs : Filters)
        → Prints (write_inner w op first fs) (inner_text op first fs)
    inner-Prints op first no_more = Prints-nothing
    inner-Prints op first (also f fs) =
        Prints-both
          (λ o.
            (if first then ok o else write_string w (codes " " ++ (w.op_text op ++ codes " ")) o)
            >>= λ q. write_filter w f q)
          (write_inner w op false fs) _ _
          (Prints-both
            (λ o.
              if first then ok o else write_string w (codes " " ++ (w.op_text op ++ codes " ")) o)
            (write_filter w f) _ _
            (Prints-unless first (write_string w (codes " " ++ (w.op_text op ++ codes " "))) _
              (Prints-string _))
            (filter-Prints f))
          (inner-Prints op false fs)

  pub replica-Prints : (r : Replica) → Prints (write_replica w r) (replica_text r)
  unfolding write_replica
  replica-Prints r = elim (Bool-cases (str_eq r.selector "")) [
    | inl y ↦ rw (y, write_replica) (Prints-string _)
    | inr n ↦ rw (n, write_replica) (Prints-string _)
  ]

  pub backup-Prints : (n : ℕ) → Prints (write_backup w n) (codes "CBF " ++ format_dec n)
  unfolding write_backup
  backup-Prints n = Prints-string _

  pub selector-Prints : (s : Selector) → Prints (write_selector w s) (selector_text s)
  unfolding write_selector
  selector-Prints s =
      Prints-both _
        (λ o. if str_eq s.name "" then ok o else write_string w (codes " AS " ++ codes s.name) o) _
        _
        (Prints-both _
          (λ o.
            if str_eq s.filter ""
            then ok o
            else write_string w (codes " FROM " ++ codes s.filter) o)
          _ _
          (Prints-both (write_string w (codes "SELECT " ++ format_dec s.count))
            (λ o.
              if str_eq s.attribute ""
              then ok o
              else write_string w (codes " IN " ++ (clause_text s.clause ++ codes s.attribute)) o)
            _ _ (Prints-string _)
            (Prints-unless (str_eq s.attribute "")
              (write_string w (codes " IN " ++ (clause_text s.clause ++ codes s.attribute))) _
              (Prints-string _)))
          (Prints-unless (str_eq s.filter "") (write_string w (codes " FROM " ++ codes s.filter)) _
            (Prints-string _)))
        (Prints-unless (str_eq s.name "") (write_string w (codes " AS " ++ codes s.name)) _
          (Prints-string _))

  pub line-Prints : (f : Filter) → Prints (write_filter_line w f) (codes "FILTER " ++ filter_text f)
  unfolding write_filter_line
  line-Prints f =
      Prints-both (write_string w (codes "FILTER ")) (write_filter w f) _ _ (Prints-string _)
        (filter-Prints f)

  pub ln-Prints :
      (flag : Bool)
      → Prints
          (λ o. if flag then write_string w (codes "\n") o else ok o)
          (if flag then codes "\n" else [])
  ln-Prints true = Prints-string _
  ln-Prints false = Prints-nothing
