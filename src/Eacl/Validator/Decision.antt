-- ===== src/Eacl/Validator/Decision.antt =====
-- Which record decides in `CalculateAction` (eacl/validator.go).
use neofs_sdk_go.Prelude.{
  ℕ, zero, suc, ◌≡◌, refl, ap, subst, ◌∙◌, ◌⊎◌, ◌↔◌, inl, inr, Bool, true, false, not, none, List,
  [], ◌∷◌, ◌++◌, arith, ◌==◌, ==_iff, All, Bool-cases,
}
use neofs_sdk_go.Prelude.Some.{Some}
use neofs_sdk_go.Prelude.Int.{ℤ, pos, negsuc}
use neofs_sdk_go.Eacl.{FilterNames, Record, Action, action_allow}
use neofs_sdk_go.Eacl.Validator.{
  ValidationUnit, target_matches, match_filters, calculate, calculate_action,
}
use neofs_sdk_go.Eacl.Validator.Match.{
  Addresses, Passes, match_filters_zero, match_filters_negative, target_matches_iff,
}

module _ (names : FilterNames) (unit : ValidationUnit) where
  -- The record is about this operation and this sender.
  abbrev pub Concerns : Record → Type 0
  Concerns r = (r.operation ≡ unit.op) × Some (Addresses unit.role unit.key) r.targets

  -- It decides: every filter passes.
  abbrev pub Fires : Record → Type 0
  Fires r = Concerns r × All (Passes names unit.hdr_src) r.filters

  -- It ends the check without a decision: the headers of some filter cannot be had.
  abbrev pub Blocks : Record → Type 0
  Blocks r = Concerns r × Some (λ f. unit.hdr_src f.from ≡ none) r.filters

  -- It is passed over: it is about another operation or sender, or all headers can be had and some
  -- filter does not pass.
  abbrev pub Skips : Record → Type 0
  Skips r =
      ¬ Concerns r
      ⊎ ¬ (All (Passes names unit.hdr_src) r.filters)
        × ¬ (Some (λ f. unit.hdr_src f.from ≡ none) r.filters)

  concerned :
      (r : Record)
      → Concerns r
      → (not (r.operation == unit.op) ≡ false)
        × (not (target_matches unit.role unit.key r.targets) ≡ false)
  concerned r c =
      (ground (arith, c.0), ap not ((target_matches_iff unit.role unit.key r.targets).1 c.1))

  calculate-Fires :
      (r : Record) (rs : List Record) → Fires r → calculate names unit (r ∷ rs) ≡ (r.action, true)
  unfolding calculate
  calculate-Fires r rs (c, f) =
      let (o, t) = concerned r c in rw (o, t, (match_filters_zero names unit.hdr_src r.filters).1 f)

  calculate-Blocks :
      (r : Record) (rs : List Record)
      → Blocks r
      → calculate names unit (r ∷ rs) ≡ (action_allow, false)
  unfolding calculate
  calculate-Blocks r rs (c, b) =
      let (o, t) = concerned r c in
      rw (o, t, (match_filters_negative names unit.hdr_src r.filters).1 b)

  positive :
      (r : Record)
      → ¬ (All (Passes names unit.hdr_src) r.filters)
      → ¬ (Some (λ f. unit.hdr_src f.from ≡ none) r.filters)
      → (n : ℕ) × (match_filters names unit.hdr_src r.filters ≡ pos (suc n))
  positive r a s = go (match_filters names unit.hdr_src r.filters) refl
    where
      go :
          (z : ℤ)
          → match_filters names unit.hdr_src r.filters ≡ z
          → (n : ℕ) × (match_filters names unit.hdr_src r.filters ≡ pos (suc n))
      go (pos zero) e = absurd (a ((match_filters_zero names unit.hdr_src r.filters).0 e))
      go (pos (suc n)) e = (n, e)
      go (negsuc n) e =
          absurd (s ((match_filters_negative names unit.hdr_src r.filters).0.0 (n, e)))

  calculate-Skips :
      (r : Record) (rs : List Record)
      → Skips r
      → calculate names unit (r ∷ rs) ≡ calculate names unit rs
  unfolding calculate
  calculate-Skips r rs s = elim (Bool-cases (r.operation == unit.op)) [
    | inr o ↦ rw o
    | inl o ↦ elim (Bool-cases (target_matches unit.role unit.key r.targets)) [
      | inr t ↦ rw (o, t)
      | inl t ↦ elim s [
        | inl n ↦ absurd (
            n (
              (==_iff r.operation unit.op).0 o,
              (target_matches_iff unit.role unit.key r.targets).0 t,
            ))
        | inr (a, b) ↦ let (n, e) = positive r a b in rw (o, t, e)
      ]
    ]
  ]

  record_cases : (r : Record) → Skips r ⊎ Fires r ⊎ Blocks r
  record_cases r = elim (Bool-cases (r.operation == unit.op)) [
    | inr o ↦ inl (inl (λ c. cc (o, (==_iff r.operation unit.op).1 c.0)))
    | inl o ↦ elim (Bool-cases (target_matches unit.role unit.key r.targets)) [
      | inr t ↦ inl (inl (λ c. cc (t, (target_matches_iff unit.role unit.key r.targets).1 c.1)))
      | inl t ↦
          by_sign
            (
              (==_iff r.operation unit.op).0 o,
              (target_matches_iff unit.role unit.key r.targets).0 t,
            )
            (match_filters names unit.hdr_src r.filters) refl
    ]
  ]
    where
      by_sign :
          Concerns r
          → (z : ℤ) → match_filters names unit.hdr_src r.filters ≡ z
          → Skips r ⊎ Fires r ⊎ Blocks r
      by_sign c (pos zero) e = inr (inl (c, (match_filters_zero names unit.hdr_src r.filters).0 e))
      by_sign c (pos (suc n)) e = inl (
          inr (
            (λ a. cc (e, (match_filters_zero names unit.hdr_src r.filters).1 a)),
            (λ b. cc (e, (match_filters_negative names unit.hdr_src r.filters).1 b)),
          ))
      by_sign c (negsuc n) e =
          inr (inr (c, (match_filters_negative names unit.hdr_src r.filters).0.0 (n, e)))

  -- The list has a record of a kind behind records that are all passed over.
  abbrev pub FirstIs : (Record → Type 0) → List Record → Type 0
  FirstIs P rs =
      (before : List Record) × (r : Record) × (after : List Record) × (rs ≡ before ++ r ∷ after)
      × All Skips before
      × P r

  calculate-before :
      (before rs : List Record)
      → All Skips before
      → calculate names unit (before ++ rs) ≡ calculate names unit rs
  calculate-before [] rs h = refl
  calculate-before (b ∷ bs) rs (s, h) = calculate-Skips b (bs ++ rs) s ∙ calculate-before bs rs h

  -- Every list is passed over whole, or has a first record that fires or blocks.
  first : (rs : List Record) → All Skips rs ⊎ FirstIs Fires rs ⊎ FirstIs Blocks rs
  first [] = inl tt
  first (r ∷ rs) = elim (record_cases r) [
    | inl s ↦ elim (first rs) [
      | inl a ↦ inl (s, a)
      | inr (inl (b, x, c, e, a, p)) ↦ inr (inl (r ∷ b, x, c, ap (λ t. r ∷ t) e, (s, a), p))
      | inr (inr (b, x, c, e, a, p)) ↦ inr (inr (r ∷ b, x, c, ap (λ t. r ∷ t) e, (s, a), p))
    ]
    | inr (inl f) ↦ inr (inl ([], r, rs, refl, tt, f))
    | inr (inr b) ↦ inr (inr ([], r, rs, refl, tt, b))
  ]

  calculate-All :
      (rs : List Record) → All Skips rs → calculate names unit rs ≡ (action_allow, false)
  unfolding calculate
  calculate-All [] h = refl
  calculate-All (r ∷ rs) (s, h) = calculate-Skips r rs s ∙ calculate-All rs h

  calculate-FirstFires :
      (a : Action) (rs : List Record)
      → FirstIs (λ r. Fires r × (r.action ≡ a)) rs
      → calculate names unit rs ≡ (a, true)
  calculate-FirstFires a rs (b, x, c, e, h, (f, q)) =
      rw e (calculate-before b (x ∷ c) h ∙ calculate-Fires x c f ∙ ap (λ (t : Action). (t, true)) q)

  calculate-FirstBlocks :
      (rs : List Record) → FirstIs Blocks rs → calculate names unit rs ≡ (action_allow, false)
  calculate-FirstBlocks rs (b, x, c, e, h, f) =
      rw e (calculate-before b (x ∷ c) h ∙ calculate-Blocks x c f)

  FirstFires-action :
      (rs : List Record)
      → FirstIs Fires rs
      → (a : Action) × FirstIs (λ r. Fires r × (r.action ≡ a)) rs
  FirstFires-action rs (b, x, c, e, h, f) = (x.action, (b, x, c, e, h, (f, refl)))

  -- The check reports a match with an action exactly if some record of the table that fires carries
  -- that action and every record before it is passed over.
  pub calculate_action_matched :
      (a : Action)
      → (calculate_action names unit ≡ (a, true))
        ↔ FirstIs (λ r. Fires r × (r.action ≡ a)) unit.table.records
  unfolding calculate_action
  calculate_action_matched a = (
    (λ h. elim (first unit.table.records) [
      | inl s ↦ cc (h, calculate-All unit.table.records s)
      | inr (inl f) ↦
          let (a', g) = FirstFires-action unit.table.records f in
          let e : a' ≡ a = cc (h, calculate-FirstFires a' unit.table.records g) in
          subst (λ t. FirstIs (λ r. Fires r × (r.action ≡ t)) unit.table.records) e g
      | inr (inr b) ↦ cc (h, calculate-FirstBlocks unit.table.records b)
    ]),
    calculate-FirstFires a unit.table.records,
  )

  -- The check reports no match exactly if all records are passed over or the first that is not blocks
  -- for want of headers, and then it allows the request.
  pub calculate_action_unmatched :
      (((calculate_action names unit).1 ≡ false)
        ↔ (All Skips unit.table.records ⊎ FirstIs Blocks unit.table.records))
      × ((calculate_action names unit).1 ≡ false → (calculate_action names unit).0 ≡ action_allow)
  unfolding calculate_action
  calculate_action_unmatched = (
    (
      (λ h. elim (first unit.table.records) [
        | inl s ↦ inl s
        | inr (inl f) ↦
            let (a', g) = FirstFires-action unit.table.records f in
            cc (h, calculate-FirstFires a' unit.table.records g)
        | inr (inr b) ↦ inr b
      ]),
      (λ h. elim h [
        | inl s ↦ ap (λ (t : Action × Bool). t.1) (calculate-All unit.table.records s)
        | inr b ↦ ap (λ (t : Action × Bool). t.1) (calculate-FirstBlocks unit.table.records b)
      ]),
    ),
    (λ h. elim (first unit.table.records) [
      | inl s ↦ ap (λ (t : Action × Bool). t.0) (calculate-All unit.table.records s)
      | inr (inl f) ↦
          let (a', g) = FirstFires-action unit.table.records f in
          cc (h, calculate-FirstFires a' unit.table.records g)
      | inr (inr b) ↦ ap (λ (t : Action × Bool). t.0) (calculate-FirstBlocks unit.table.records b)
    ]),
  )
