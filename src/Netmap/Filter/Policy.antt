-- ===== src/Netmap/Filter/Policy.antt =====
-- `processFilters` (netmap/filter.go) over the filters of a policy with names of their own.
use neofs_sdk_go.Prelude.{
  ℕ, suc, ◌+◌, ◌≤◌, ◌≡◌, ◌≢◌, refl, ap, ◌∙◌, sym, String, true, false, none, some, List, [], ◌∷◌,
  arith, str_eq, eq_iff, eq_refl, All, Bool-cases, inl, inr,
}
use neofs_sdk_go.Prelude.Result.{ok, >>=-eq-ok}
use neofs_sdk_go.Netmap.Filter.{
  Filter, filter, name, lookup, Context, process_filter, process_filters,
}
use neofs_sdk_go.Netmap.Filter.Resolve.{Fits, Grows, Sound, Grows-trans, Fits-Grows, Sound-Grows}
use neofs_sdk_go.Netmap.Filter.Accept.{size, sizes, process_steps, body_lem, inner_lem}

-- All filters of a policy, inner ones included.
abbrev pub total : List Filter → ℕ
total [] = 0
total (f ∷ fs) = total fs + size f

-- No two top filters have one name.
abbrev pub Distinct : List Filter → Type 0
Distinct [] = Unit
Distinct (f ∷ fs) = All (λ g. name g ≢ name f) fs × Distinct fs

abbrev added : Context → String → Filter → Context
added c k f = record c { processed_filters = (k, f) ∷ c.processed_filters }

lookup_hit :
    {A : Type 0} (k : String) (v : A) (m : List (String × A)) → lookup k ((k, v) ∷ m) ≡ some v
lookup_hit k v m = rw (eq_refl k)

lookup_miss :
    {A : Type 0} (k k' : String) (v : A) (m : List (String × A))
    → k' ≢ k
    → lookup k ((k', v) ∷ m) ≡ lookup k m
lookup_miss k k' v m n = elim (Bool-cases (str_eq k' k)) [
  | inl e ↦ absurd (n ((eq_iff k' k).0 e))
  | inr e ↦ rw e
]

added-Grows :
    (c : Context) (k : String) (f : Filter)
    → lookup k c.processed_filters ≡ none
    → Grows c (added c k f)
added-Grows c k f n = record {
  filters_kept = λ k' g h. elim (Bool-cases (str_eq k k')) [
    | inl e ↦
        let q : k ≡ k' = (eq_iff k k').0 e in
        absurd (cc (h, n, ap (λ x. lookup x c.processed_filters) q))
    | inr e ↦ simp e h
  ];
  numbers_kept = λ v m h. h;
}

added-Sound :
    (c : Context) (d e : ℕ) (k : String) (f : Filter)
    → Sound c d
    → d ≤ e
    → Fits c e f
    → lookup k c.processed_filters ≡ none
    → Sound (added c k f) e
added-Sound c d e k f s l p n =
    let w = added-Grows c k f n in
    record {
      ends = λ k' g h. elim (Bool-cases (str_eq k k')) [
        | inl x ↦
            let q : f ≡ g = cc (simp x at h) in
            rw (← q) (Fits-Grows c (added c k f) e e f w (omega arith) p)
        | inr x ↦ Fits-Grows c (added c k f) d e g w l (s.ends k' g (simp x at h))
      ];
      parsed = s.parsed;
    }

-- One filter of the policy.
pub record Top (c : Context) (f : Filter) (e : ℕ) (c' : Context) : Type 0 where
  pub grows : Grows c c'
  pub sound : Sound c' e
  pub found : lookup (name f) c'.processed_filters ≡ some f
  pub others :
      (k : String) → k ≢ name f → lookup k c'.processed_filters ≡ lookup k c.processed_filters

top_lem :
    (c : Context) (d : ℕ) (f : Filter) {c' : Context}
    → Sound c d
    → lookup (name f) c.processed_filters ≡ none
    → process_filter c f true ≡ ok c'
    → Top c f (size f + d) c'
unfolding size
top_lem c d (filter f_name key op value inner) {c'} s n h =
    let f = filter f_name key op value inner in
    let (c1, _, b, q) = process_steps c f_name key op value inner true h in
    let (i, k) = body_lem c d f_name key op value inner false s (λ p. inner_lem c d inner s p) b in
    let fresh : lookup f_name c1.processed_filters ≡ none =
      ap (λ m. lookup f_name m) i.filters_same ∙ n in
    let p : Fits c1 (suc (sizes inner) + d) f =
      Fits-Grows c1 c1 (suc (sizes inner + d)) (suc (sizes inner) + d) f
        (record { filters_kept = λ k g h. h; numbers_kept = λ v n h. h }) (omega arith) (k refl) in
    rw (← q) (record {
      grows = Grows-trans c c1 (added c1 f_name f) i.grows (added-Grows c1 f_name f fresh);
      sound = added-Sound c1 d (suc (sizes inner) + d) f_name f i.sound (omega arith) p fresh;
      found = lookup_hit f_name f c1.processed_filters;
      others = λ k' m.
          lookup_miss k' f_name f c1.processed_filters (λ e. m (sym e))
          ∙ ap (λ t. lookup k' t) i.filters_same;
    })

still_fresh :
    (c c' : Context) (f : Filter) (e : ℕ) (gs : List Filter)
    → Top c f e c'
    → All (λ g. name g ≢ name f) gs
    → All (λ g. lookup (name g) c.processed_filters ≡ none) gs
    → All (λ g. lookup (name g) c'.processed_filters ≡ none) gs
still_fresh c c' f e [] t a b = tt
still_fresh c c' f e (g ∷ gs) t (x, a) (y, b) =
    (t.others (name g) x ∙ y, still_fresh c c' f e gs t a b)

loop_lem :
    (c : Context) (d : ℕ) (fs : List Filter) {c' : Context}
    → Sound c d
    → All (λ g. lookup (name g) c.processed_filters ≡ none) fs
    → Distinct fs
    → process_filters c fs ≡ ok c'
    → Sound c' (total fs + d)
      × Grows c c'
      × All (λ f. lookup (name f) c'.processed_filters ≡ some f) fs
unfolding process_filters
loop_lem c d [] {c'} s a u h =
    let q : c ≡ c' = cc h in
    (
      rw (← q) (Sound-Grows c d (0 + d) (omega arith) s),
      rw (← q) (record { filters_kept = λ k g h. h; numbers_kept = λ v n h. h }),
      tt,
    )
loop_lem c d (f ∷ fs) {c'} s (n, a) (x, u) h =
    let (c1, e, k) = >>=-eq-ok (process_filter c f true) (λ t. process_filters t fs) h in
    let t = top_lem c d f s n e in
    let (s', w, all) =
      loop_lem c1 (size f + d) fs t.sound (still_fresh c c1 f (size f + d) fs t x a) u k in
    (
      Sound-Grows c' (total fs + (size f + d)) (total fs + size f + d) (omega arith) s',
      Grows-trans c c1 c' t.grows w,
      (w.filters_kept (name f) f t.found, all),
    )

abbrev pub new_context : Context
new_context = record { processed_filters = []; num_cache = [] }

new_context_lem :
    (fs : List Filter) → All (λ g. lookup (name g) new_context.processed_filters ≡ none) fs
new_context_lem [] = tt
new_context_lem (f ∷ fs) = (refl, new_context_lem fs)

-- Every filter of an accepted policy is found under its name, and following references from it ends
-- within as many steps as the policy has filters.
pub process_filters_lem :
    (fs : List Filter) {c : Context}
    → Distinct fs
    → process_filters new_context fs ≡ ok c
    → Sound c (total fs) × All (λ f. lookup (name f) c.processed_filters ≡ some f) fs
process_filters_lem fs {c} u h =
    let empty : Sound new_context 0 = record {
      ends = λ k g e. absurd (cc e);
      parsed = λ v n e. absurd (cc e);
    } in
    let (s, _, all) = loop_lem new_context 0 fs empty (new_context_lem fs) u h in
    (Sound-Grows c (total fs + 0) (total fs) (omega arith) s, all)
