-- ===== src/Eacl/Validator/Match.antt =====
-- What `matchFilters` and `targetMatches` (eacl/validator.go) decide.
use neofs_sdk_go.Prelude.{
  ℕ, ◌+◌, ◌≤◌, ◌≡◌, refl, ap, ◌∙◌, ◌≢◌, ◌⊎◌, ◌↔◌, inl, inr, true, false, Option, none, some, List,
  [], ◌∷◌, arith, ◌==◌, eq_iff, if◌then◌else◌, length, All, Bool-cases, Option-cases,
}
use neofs_sdk_go.Prelude.Some.{Some}
use neofs_sdk_go.Prelude.Int.{pos, negsuc, sub_ℕ}
use neofs_sdk_go.Prelude.Bytes.{Bytes, bytes_eq, bytes_eq_iff}
use neofs_sdk_go.Eacl.{
  FilterNames, Filter, Target, Role, match_string_equal, match_string_not_equal, key_string,
}
use neofs_sdk_go.Eacl.Validator.{
  Header, TypedHeaderSource, header_matches, any_header, match_loop, match_filters, contains_key,
  target_matches_one, target_matches,
}

module _ (names : FilterNames) where
  -- A header suits a filter: its key is the filter's, and its value passes the filter's comparison.
  abbrev pub Suits : Filter → Option Header → Type 0
  Suits f none = ⊥
  Suits f (some h) =
      (h.key ≡ key_string names f.key)
      × ((f.matcher ≡ match_string_equal) × (h.value ≡ f.value)
          ⊎ (f.matcher ≡ match_string_not_equal) × (h.value ≢ f.value))

  header_matches→Suits :
      (f : Filter) (h : Option Header) → header_matches names f h ≡ true → Suits f h
  unfolding header_matches
  header_matches→Suits f none e = cc
  header_matches→Suits f (some h) e = (
    ground (arith, eq_iff h.key (key_string names f.key)),
    ground (arith, eq_iff h.value f.value),
  )

  Suits→header_matches :
      (f : Filter) (h : Option Header) → Suits f h → header_matches names f h ≡ true
  unfolding header_matches
  Suits→header_matches f none e = absurd e
  Suits→header_matches f (some h) e =
      ground (arith, eq_iff h.key (key_string names f.key), eq_iff h.value f.value)

  any_header→Some :
      (f : Filter) (hs : List (Option Header)) → any_header names f hs ≡ true → Some (Suits f) hs
  unfolding any_header
  any_header→Some f [] e = cc
  any_header→Some f (h ∷ hs) e = elim (Bool-cases (header_matches names f h)) [
    | inl y ↦ inl (header_matches→Suits f h y)
    | inr n ↦ inr (any_header→Some f hs (rw n at e))
  ]

  Some→any_header :
      (f : Filter) (hs : List (Option Header)) → Some (Suits f) hs → any_header names f hs ≡ true
  unfolding any_header
  Some→any_header f [] e = absurd e
  Some→any_header f (h ∷ hs) (inl y) = rw (Suits→header_matches f h y)
  Some→any_header f (h ∷ hs) (inr n) = ground (arith, Some→any_header f hs n)

  -- A filter passes: the headers of its type are there, and one of them suits it.
  abbrev pub Passes : TypedHeaderSource → Filter → Type 0
  Passes src f = (hs : List (Option Header)) × (src f.from ≡ some hs) × Some (Suits f) hs

  -- How many filters of the list pass, where all headers are there.
  passed : TypedHeaderSource → List Filter → ℕ
  passed src [] = 0
  passed src (f ∷ fs) = elim (src f.from) [
    | none ↦ passed src fs
    | some hs ↦ (if any_header names f hs then 1 else 0) + passed src fs
  ]

  passed_le : (src : TypedHeaderSource) (fs : List Filter) → passed src fs ≤ length fs
  unfolding passed
  passed_le src [] = omega arith
  passed_le src (f ∷ fs) = ground (arith, passed_le src fs)

  match_loop-All :
      (src : TypedHeaderSource) (total m : ℕ) (fs : List Filter)
      → All (λ f. src f.from ≢ none) fs
      → match_loop names src total m fs ≡ sub_ℕ total (m + passed src fs)
  unfolding match_loop passed
  match_loop-All src total m [] h = ap (sub_ℕ total) (omega arith)
  match_loop-All src total m (f ∷ fs) h = elim (Option-cases (src f.from)) [
    | inl e ↦ absurd (h.0 e)
    | inr (hs, e) ↦
        rw (e, match_loop, passed)
          (match_loop-All src total (if any_header names f hs then m + 1 else m) fs h.1
            ∙ ap (sub_ℕ total) (ground arith))
  ]

  match_loop-none :
      (src : TypedHeaderSource) (total m : ℕ) (fs : List Filter)
      → Some (λ f. src f.from ≡ none) fs
      → match_loop names src total m fs ≡ negsuc 0
  unfolding match_loop
  match_loop-none src total m [] h = absurd h
  match_loop-none src total m (f ∷ fs) (inl e) = rw (e, match_loop)
  match_loop-none src total m (f ∷ fs) (inr n) = elim (Option-cases (src f.from)) [
    | inl e ↦ rw (e, match_loop)
    | inr (hs, e) ↦
        rw (e, match_loop)
          (match_loop-none src total (if any_header names f hs then m + 1 else m) fs n)
  ]

  available :
      (src : TypedHeaderSource) (fs : List Filter)
      → All (λ f. src f.from ≢ none) fs ⊎ Some (λ f. src f.from ≡ none) fs
  available src [] = inl tt
  available src (f ∷ fs) = elim (Option-cases (src f.from)) [
    | inl e ↦ inr (inl e)
    | inr (hs, e) ↦ elim (available src fs) [
      | inl a ↦ inl ((λ n. cc (e, n)), a)
      | inr s ↦ inr (inr s)
    ]
  ]

  passed-All :
      (src : TypedHeaderSource) (fs : List Filter)
      → All (λ f. src f.from ≢ none) fs
      → passed src fs ≡ length fs
      → All (Passes src) fs
  unfolding passed
  passed-All src [] a e = tt
  passed-All src (f ∷ fs) a e = elim (Option-cases (src f.from)) [
    | inl n ↦ absurd (a.0 n)
    | inr (hs, n) ↦
        let e' = rw (n, passed) at e in
        (
          (hs, n, any_header→Some f hs (ground (arith, passed_le src fs))),
          passed-All src fs a.1 (ground (arith, passed_le src fs)),
        )
  ]

  All-passed :
      (src : TypedHeaderSource) (fs : List Filter)
      → All (Passes src) fs
      → (passed src fs ≡ length fs) × All (λ f. src f.from ≢ none) fs
  unfolding passed
  All-passed src [] a = (refl, tt)
  All-passed src (f ∷ fs) ((hs, e, s), a) =
      let (n, b) = All-passed src fs a in
      (rw (e, passed, Some→any_header f hs s) (omega (arith, n)), ((λ x. cc (e, x)), b))

  -- `matchFilters` is zero exactly if every filter has its headers and a suitable one among them.
  pub match_filters_zero :
      (src : TypedHeaderSource) (fs : List Filter)
      → (match_filters names src fs ≡ pos 0) ↔ All (Passes src) fs
  unfolding match_filters
  match_filters_zero src fs = (
    (λ h. elim (available src fs) [
      | inl a ↦ passed-All src fs a (count (rw (match_loop-All src (length fs) 0 fs a) at h))
      | inr s ↦ cc (h, match_loop-none src (length fs) 0 fs s)
    ]),
    (λ h.
        let (n, a) = All-passed src fs h in
        match_loop-All src (length fs) 0 fs a ∙ (ground (arith, n))),
  )
    where
      count : sub_ℕ (length fs) (0 + passed src fs) ≡ pos 0 → passed src fs ≡ length fs
      count e = ground (arith, passed_le src fs)

  -- `matchFilters` is negative exactly if the headers of some filter cannot be obtained, wherever
  -- that filter stands, and it is then -1.
  pub match_filters_negative :
      (src : TypedHeaderSource) (fs : List Filter)
      → (((n : ℕ) × (match_filters names src fs ≡ negsuc n)) ↔ Some (λ f. src f.from ≡ none) fs)
        × (Some (λ f. src f.from ≡ none) fs → match_filters names src fs ≡ negsuc 0)
  unfolding match_filters
  match_filters_negative src fs = (
    (
      (λ h. elim (available src fs) [
        | inl a ↦
            let (n, e) = h in absurd (count n (rw (match_loop-All src (length fs) 0 fs a) at e))
        | inr s ↦ s
      ]),
      (λ s. (0, match_loop-none src (length fs) 0 fs s)),
    ),
    match_loop-none src (length fs) 0 fs,
  )
    where
      count : (n : ℕ) → sub_ℕ (length fs) (0 + passed src fs) ≡ negsuc n → ⊥
      count n e = ground (arith, passed_le src fs)

contains_key→Some :
    (key : Bytes) (ks : List Bytes) → contains_key key ks ≡ true → Some (λ k. k ≡ key) ks
unfolding contains_key
contains_key→Some key [] e = cc
contains_key→Some key (k ∷ ks) e = elim (Bool-cases (bytes_eq k key)) [
  | inl y ↦ inl ((bytes_eq_iff k key).0 y)
  | inr n ↦ inr (contains_key→Some key ks (rw n at e))
]

Some→contains_key :
    (key : Bytes) (ks : List Bytes) → Some (λ k. k ≡ key) ks → contains_key key ks ≡ true
unfolding contains_key
Some→contains_key key [] e = absurd e
Some→contains_key key (k ∷ ks) (inl y) = rw ((bytes_eq_iff k key).1 y)
Some→contains_key key (k ∷ ks) (inr n) = ground (arith, Some→contains_key key ks n)

-- The sender is one of a target: by its key, where the target lists keys, else by its role.
abbrev pub Addresses : Role → Bytes → Target → Type 0
Addresses role key t = Some (λ k. k ≡ key) t.keys ⊎ (t.keys ≡ []) × (role ≡ t.role)

keys_empty : (ks : List Bytes) → (ks ≡ []) ⊎ ((length ks == 0) ≡ false)
keys_empty [] = inl refl
keys_empty (k ∷ ks) = inr (ground arith)

keys-Some : (key : Bytes) (ks : List Bytes) → Some (λ k. k ≡ key) ks → (length ks == 0) ≡ false
keys-Some key [] h = absurd h
keys-Some key (k ∷ ks) h = ground arith

one→Addresses :
    (role : Role) (key : Bytes) (t : Target)
    → target_matches_one role key t ≡ true
    → Addresses role key t
unfolding target_matches_one
one→Addresses role key t e = elim (keys_empty t.keys) [
  | inl n ↦ inr (n, ground (arith, n))
  | inr c ↦ inl (contains_key→Some key t.keys (rw c at e))
]

Addresses→one :
    (role : Role) (key : Bytes) (t : Target)
    → Addresses role key t
    → target_matches_one role key t ≡ true
unfolding target_matches_one
Addresses→one role key t (inl h) = rw (keys-Some key t.keys h) (Some→contains_key key t.keys h)
Addresses→one role key t (inr (n, r)) = ground (arith, n, r)

-- `targetMatches` holds exactly if some target of the record addresses the sender; the role of a
-- target that lists keys does not count.
pub target_matches_iff :
    (role : Role) (key : Bytes) (ts : List Target)
    → (target_matches role key ts ≡ true) ↔ Some (Addresses role key) ts
unfolding target_matches
target_matches_iff role key [] = ((λ e. cc), (λ e. absurd e))
target_matches_iff role key (t ∷ ts) =
    let ih = target_matches_iff role key ts in
    (
      (λ e. elim (Bool-cases (target_matches_one role key t)) [
        | inl y ↦ inl (one→Addresses role key t y)
        | inr n ↦ inr (ih.0 (rw n at e))
      ]),
      (λ e. elim e [ inl y ↦ rw (Addresses→one role key t y) | inr n ↦ ground (arith, ih.1 n) ]),
    )
