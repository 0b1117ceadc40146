-- ===== src/Netmap/Filter/Resolve.antt =====
-- What `processFilter` (netmap/filter.go) guarantees of the filters it accepts: their references can be
-- followed to an end, and their numbers stand in the cache.
use neofs_sdk_go.Prelude.{
  ℕ, zero, suc, ◌≤◌, ◌≡◌, refl, ap, ◌∙◌, String, Bool, true, false, some, ◌∷◌, arith, str_eq,
  eq_iff, Bool-cases, inl, inr,
}
use neofs_sdk_go.Netmap.Node.{parse_uint}
use neofs_sdk_go.Netmap.Filter.{
  FilterOp, op_eq, op_ne, op_gt, op_ge, op_lt, op_le, op_or, op_and, op_other, Filter, Filters,
  filter, no_more, also, name, lookup, Context, is_compound, resolve,
}

abbrev pub is_numeric : FilterOp → Bool
is_numeric op_gt = true
is_numeric op_ge = true
is_numeric op_lt = true
is_numeric op_le = true
is_numeric op_eq = false
is_numeric op_ne = false
is_numeric op_or = false
is_numeric op_and = false
is_numeric (op_other n) = false

-- Every inner filter stands for one of which `P` holds.
abbrev pub Each : (Filter → Type 0) → Context → Filters → Type 0
Each P c no_more = Unit
Each P c (also f fs) = ((g : Filter) × (resolve c f ≡ some g) × P g) × Each P c fs

-- References below a filter end after at most `n` steps, and its numbers are cached.
abbrev pub Fits : Context → ℕ → Filter → Type 0
Fits c zero f = ⊥
Fits c (suc n) (filter f_name key op value inner) =
    (is_compound op ≡ true → Each (Fits c n) c inner)
    × (is_numeric op ≡ true
        → (k : ℕ) × (parse_uint value ≡ some k) × (lookup value c.num_cache ≡ some k))

-- The second context knows what the first knows.
pub record Grows (c c' : Context) : Type 0 where
  pub filters_kept :
      (k : String) (g : Filter)
      → lookup k c.processed_filters ≡ some g
      → lookup k c'.processed_filters ≡ some g
  pub numbers_kept :
      (v : String) (n : ℕ) → lookup v c.num_cache ≡ some n → lookup v c'.num_cache ≡ some n

-- The cached numbers are those of their texts, and the processed filters end within `d` steps.
pub record Sound (c : Context) (d : ℕ) : Type 0 where
  pub ends : (k : String) (g : Filter) → lookup k c.processed_filters ≡ some g → Fits c d g
  pub parsed : (v : String) (n : ℕ) → lookup v c.num_cache ≡ some n → parse_uint v ≡ some n

pub Grows-refl : (c : Context) → Grows c c
Grows-refl c = record { filters_kept = λ k g h. h; numbers_kept = λ v n h. h }

pub Grows-trans : (a b c : Context) → Grows a b → Grows b c → Grows a c
Grows-trans a b c g h = record {
  filters_kept = λ k f e. h.filters_kept k f (g.filters_kept k f e);
  numbers_kept = λ v n e. h.numbers_kept v n (g.numbers_kept v n e);
}

pub resolve-Grows :
    (c c' : Context) (f : Filter) {g : Filter}
    → Grows c c'
    → resolve c f ≡ some g
    → resolve c' f ≡ some g
unfolding resolve
resolve-Grows c c' f {g} w h = elim (Bool-cases (str_eq (name f) "")) [
  | inl e ↦ simp e (simp e at h)
  | inr e ↦ simp e (w.filters_kept (name f) g (simp e at h))
]

pub Each-Grows :
    (P Q : Filter → Type 0) (c c' : Context) (fs : Filters)
    → ((g : Filter) → P g → Q g)
    → Grows c c'
    → Each P c fs
    → Each Q c' fs
Each-Grows P Q c c' no_more m w e = tt
Each-Grows P Q c c' (also f fs) m w ((g, r, p), e) =
    ((g, resolve-Grows c c' f w r, m g p), Each-Grows P Q c c' fs m w e)

-- More knowledge and more steps do no harm.
pub Fits-Grows :
    (c c' : Context) (n m : ℕ) (f : Filter) → Grows c c' → n ≤ m → Fits c n f → Fits c' m f
Fits-Grows c c' zero m f w l h = absurd h
Fits-Grows c c' (suc n) zero f w l h = absurd (omega arith)
Fits-Grows c c' (suc n) (suc m) (filter f_name key op value inner) w l (h, k) = (
  (λ e.
      Each-Grows (Fits c n) (Fits c' m) c c' inner (λ g. Fits-Grows c c' n m g w (omega arith)) w
        (h e)),
  (λ e. let (x, p, q) = k e in (x, p, w.numbers_kept value x q)),
)

pub Sound-Grows : (c : Context) (n m : ℕ) → n ≤ m → Sound c n → Sound c m
Sound-Grows c n m l s = record {
  ends = λ k g h. Fits-Grows c c n m g (Grows-refl c) l (s.ends k g h);
  parsed = s.parsed;
}

-- What a step without a new top filter leaves.
pub record Inner (c : Context) (d : ℕ) (c' : Context) : Type 0 where
  pub grows : Grows c c'
  pub sound : Sound c' d
  pub filters_same : c'.processed_filters ≡ c.processed_filters

pub Inner-refl : (c : Context) (d : ℕ) → Sound c d → Inner c d c
Inner-refl c d s = record { grows = Grows-refl c; sound = s; filters_same = refl }

pub Inner-trans : (a b c : Context) (d : ℕ) → Inner a d b → Inner b d c → Inner a d c
Inner-trans a b c d i j = record {
  grows = Grows-trans a b c i.grows j.grows;
  sound = j.sound;
  filters_same = j.filters_same ∙ i.filters_same;
}

unfoldable pub cached : Context → String → ℕ → Context
cached c value n = record c { num_cache = (value, n) ∷ c.num_cache }

cached-Grows :
    (c : Context) (d : ℕ) (value : String) (n : ℕ)
    → Sound c d
    → parse_uint value ≡ some n
    → Grows c (cached c value n)
unfolding cached
cached-Grows c d value n s p = record {
  filters_kept = λ k g h. h;
  numbers_kept = λ v m h. elim (Bool-cases (str_eq value v)) [
    | inl e ↦
        let q : value ≡ v = (eq_iff value v).0 e in simp e (cc (ap parse_uint q, p, s.parsed v m h))
    | inr e ↦ simp e h
  ];
}

pub cached-Inner :
    (c : Context) (d : ℕ) (value : String) (n : ℕ)
    → Sound c d
    → parse_uint value ≡ some n
    → Inner c d (cached c value n)
unfolding cached
cached-Inner c d value n s p =
    let w = cached-Grows c d value n s p in
    record {
      grows = w;
      sound = record {
        ends = λ k g h. Fits-Grows c (cached c value n) d d g w (omega arith) (s.ends k g h);
        parsed = λ v m h. elim (Bool-cases (str_eq value v)) [
          | inl e ↦ let q : value ≡ v = (eq_iff value v).0 e in cc (ap parse_uint q, p, simp e at h)
          | inr e ↦ s.parsed v m (simp e at h)
        ];
      };
      filters_same = refl;
    }
