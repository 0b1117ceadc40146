-- ===== src/Netmap/NetworkInfo/Reading.antt =====
-- Which messages `readFromV2` (netmap/network_info.go) reads, and what the getters then return.
use neofs_sdk_go.Prelude.{
  ℕ, ◌≤◌, ◌≡◌, ◌≢◌, ◌↔◌, refl, sym, ◌∙◌, Bool, true, false, ◌&&◌, Option, none, some, List, [], ◌∷◌,
  ◌==◌, length, Bool-cases, arith, inl, inr,
}
use neofs_sdk_go.Prelude.Bytes.{Bytes, bytes_eq, bytes_eq_iff}
use neofs_sdk_go.Prelude.Result.{ok, err, >>=-eq-ok, ◌>>=◌, Succeeds}
use neofs_sdk_go.Netmap.NetworkInfo.{
  StackItem, NetworkParameter, NetworkInfo, duplicated_name, missing_parameters, read_config,
  parameters, bytes_of, decode_bytes, decode_uint64, is_below_zero, is_above_one, Format,
  alpha_format, number_format, bool_format, raw_format, any_name, format_of, decode_bool,
  check_value, check_parameters, read_from_v2,
}

-- No parameter has the name, and all names differ.
abbrev pub Lacks : Bytes → List NetworkParameter → Type 0
Lacks n [] = Unit
Lacks n (p ∷ ps) = (n ≢ p.key) × Lacks n ps

abbrev pub Distinct : List NetworkParameter → Type 0
Distinct [] = Unit
Distinct (p ∷ ps) = Lacks p.key ps × Distinct ps

abbrev New : List Bytes → List NetworkParameter → Type 0
New names [] = Unit
New names (p ∷ ps) = (any_name p.key names ≡ false) × New names ps

New-Lacks :
    (n : Bytes) (names : List Bytes) (ps : List NetworkParameter)
    → New (n ∷ names) ps
    → Lacks n ps × New names ps
unfolding any_name
New-Lacks n names [] h = (tt, tt)
New-Lacks n names (p ∷ ps) (h, t) =
    let (l, w) = New-Lacks n names ps t in
    elim (Bool-cases (bytes_eq n p.key)) [
      | inl y ↦ ground arith
      | inr z ↦ ((λ e. (let y = (bytes_eq_iff n p.key).1 e in cc), l), (ground arith, w))
    ]

Lacks-New :
    (n : Bytes) (names : List Bytes) (ps : List NetworkParameter)
    → Lacks n ps
    → New names ps
    → New (n ∷ names) ps
unfolding any_name
Lacks-New n names [] l w = tt
Lacks-New n names (p ∷ ps) (a, l) (b, w) = (
  elim (Bool-cases (bytes_eq n p.key)) [
    | inl y ↦ absurd (a ((bytes_eq_iff n p.key).0 y))
    | inr z ↦ rw (any_name, z, b) refl
  ],
  Lacks-New n names ps l w,
)

flag_present : (check : Bool) (n : ℕ) → (check && n == 0) ≡ false → check ≡ true → n ≢ 0
flag_present true n h e z = ground arith
flag_present false n h e z = cc

present_flag : (check : Bool) (n : ℕ) → (check ≡ true → n ≢ 0) → (check && n == 0) ≡ false
present_flag true n h = let k = h refl in ground arith
present_flag false n h = refl

never_outside : (num : ℕ) → (is_below_zero num && is_above_one num) ≡ false
unfolding is_below_zero is_above_one
never_outside num = ground arith

module _ (item : StackItem) where
  -- What the format of a parameter's name asks of its value.
  abbrev pub Fits : Format → Option Bytes → Type 0
  Fits alpha_format val = length (bytes_of val) ≤ 8
  Fits number_format val = length (bytes_of val) ≤ 8
  Fits bool_format val = (b : Bool) × (item.try_bool (bytes_of val) ≡ some b)
  Fits raw_format val = length (bytes_of val) ≢ 0

  abbrev pub AllFit : List NetworkParameter → Type 0
  AllFit [] = Unit
  AllFit (p ∷ ps) = Fits (format_of p.key) p.value × AllFit ps

  abbrev pub InfoReadable : Option (List NetworkParameter) → Bool → Type 0
  InfoReadable config check =
      (check ≡ true → length (parameters config) ≢ 0)
      × Distinct (parameters config)
      × AllFit (parameters config)

  pub decode_fits : (val : Bytes) → length val ≤ 8 → decode_uint64 val ≡ ok (decode_bytes val)
  unfolding decode_uint64
  decode_fits val h = ground arith

  fits_decode : (val : Bytes) {n : ℕ} → decode_uint64 val ≡ ok n → length val ≤ 8
  unfolding decode_uint64
  fits_decode val h = ground arith

  decode_bool_ok :
      (val : Bytes) {b : Bool} → decode_bool item val ≡ ok b → item.try_bool val ≡ some b
  unfolding decode_bool
  decode_bool_ok val h = ground arith

  value→Fits :
      (f : Format) (val : Option Bytes) {n : ℕ} → check_value item f val ≡ ok n → Fits f val
  unfolding check_value decode_bool
  value→Fits raw_format val h = ground arith
  value→Fits number_format val h = fits_decode (bytes_of val) h
  value→Fits alpha_format val h =
      let (n, e, k) = >>=-eq-ok (decode_uint64 (bytes_of val)) _ h in fits_decode (bytes_of val) e
  value→Fits bool_format val h =
      let (b, e, k) = >>=-eq-ok (decode_bool item (bytes_of val)) _ h in
      (b, decode_bool_ok (bytes_of val) e)

  Fits→value : (f : Format) (val : Option Bytes) → Fits f val → Succeeds (check_value item f val)
  unfolding check_value decode_bool
  Fits→value raw_format val h = (0, ground arith)
  Fits→value number_format val h = (decode_bytes (bytes_of val), decode_fits (bytes_of val) h)
  Fits→value alpha_format val h = (
    decode_bytes (bytes_of val),
    rw (decode_fits (bytes_of val) h, never_outside (decode_bytes (bytes_of val))) refl,
  )
  Fits→value bool_format val (b, e) = (0, rw (decode_bool, e) refl)

  check_known :
      (names : List Bytes) (p : NetworkParameter) (ps : List NetworkParameter)
      → any_name p.key names ≡ true
      → check_parameters item names (p ∷ ps) ≡ err duplicated_name
  unfolding check_parameters
  check_known names p ps y = rw (check_parameters, y) refl

  check_fresh :
      (names : List Bytes) (p : NetworkParameter) (ps : List NetworkParameter)
      → any_name p.key names ≡ false
      → check_parameters item names (p ∷ ps) ≡ (
          check_value item (format_of p.key) p.value >>= λ n.
          check_parameters item (p.key ∷ names) ps)
  unfolding check_parameters
  check_fresh names p ps z = rw (check_parameters, z) refl

  parameters→Fit :
      (names : List Bytes) (ps : List NetworkParameter)
      → Succeeds (check_parameters item names ps)
      → New names ps × Distinct ps × AllFit ps
  unfolding check_parameters
  parameters→Fit names [] h = (tt, tt, tt)
  parameters→Fit names (p ∷ ps) (n, h) = elim (Bool-cases (any_name p.key names)) [
    | inl y ↦ (let q = sym (check_known names p ps y) ∙ h in cc)
    | inr z ↦
        let (m, e, k) =
          >>=-eq-ok (check_value item (format_of p.key) p.value)
            (λ a. check_parameters item (p.key ∷ names) ps) (sym (check_fresh names p ps z) ∙ h) in
        let (w, d, f) = parameters→Fit (p.key ∷ names) ps (n, k) in
        let (l, w') = New-Lacks p.key names ps w in
        ((z, w'), (l, d), (value→Fits (format_of p.key) p.value e, f))
  ]

  Fit→parameters :
      (names : List Bytes) (ps : List NetworkParameter)
      → New names ps
      → Distinct ps
      → AllFit ps
      → Succeeds (check_parameters item names ps)
  unfolding check_parameters
  Fit→parameters names [] w d f = (0, refl)
  Fit→parameters names (p ∷ ps) (z, w) (l, d) (v, f) =
      let (m, e) = Fits→value (format_of p.key) p.value v in
      let (n, k) = Fit→parameters (p.key ∷ names) ps (Lacks-New p.key names ps l w) d f in
      (n, check_fresh names p ps z ∙ rw (e, k) refl)

  nothing-New : (ps : List NetworkParameter) → New [] ps
  unfolding any_name
  nothing-New [] = tt
  nothing-New (p ∷ ps) = (refl, nothing-New ps)

  pub config→Readable :
      (m : NetworkInfo) (c : Option (List NetworkParameter)) (check : Bool) {r : NetworkInfo}
      → read_config item m c check ≡ ok r
      → (m ≡ r) × InfoReadable c check
  unfolding read_config
  config→Readable m none true h = cc
  config→Readable m none false h = (ground arith, (λ e. cc, tt, tt))
  config→Readable m (some ps) check h = elim (Bool-cases (check && length ps == 0)) [
    | inl y ↦ (let q : err missing_parameters ≡ ok _ = sym (rw (read_config, y) refl) ∙ h in cc)
    | inr z ↦
        let (n, e, k) =
          >>=-eq-ok (check_parameters item [] ps) (λ a. ok m)
            (sym (rw (read_config, z) refl) ∙ h) in
        let (w, d, f) = parameters→Fit [] ps (n, e) in
        (ground arith, (flag_present check (length ps) z, d, f))
  ]

  pub Readable→config :
      (m : NetworkInfo) (c : Option (List NetworkParameter)) (check : Bool)
      → InfoReadable c check
      → read_config item m c check ≡ ok m
  unfolding read_config
  Readable→config m none true (h, d, f) = absurd (h refl refl)
  Readable→config m none false (h, d, f) = refl
  Readable→config m (some ps) check (h, d, f) =
      let (n, e) = Fit→parameters [] ps (nothing-New ps) d f in
      rw (read_config, present_flag check (length ps) h, e) refl

  -- A message is read exactly when the names of its parameters all differ, each value has the form of its
  -- name's (a number of at most 8 bytes, a boolean, or any bytes but none), and, where presence is
  -- checked, there is a parameter. It is then kept as it is.
  pub info_reads_iff :
      (m : NetworkInfo) (check : Bool)
      → (Succeeds (read_from_v2 item m check) ↔ InfoReadable m.config check)
        × ((r : NetworkInfo) → read_from_v2 item m check ≡ ok r → m ≡ r)
  unfolding read_from_v2
  info_reads_iff m check = (
    (
      λ (r, h). (config→Readable m m.config check h).1,
      λ g. (m, Readable→config m m.config check g),
    ),
    λ r h. (config→Readable m m.config check h).0,
  )
