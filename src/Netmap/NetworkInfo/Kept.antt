-- ===== src/Netmap/NetworkInfo/Kept.antt =====
-- What a configuration keeps of what is set in it (netmap/network_info.go).
use neofs_sdk_go.Prelude.{
  ℕ, zero, suc, ◌/◌, ◌^◌, ◌<◌, ◌≡◌, refl, sym, ap, ◌∙◌, Bool, true, false, not, ◌&&◌, ◌||◌, Option,
  some, List, [], ◌∷◌, if◌then◌else◌, length, Bool-cases, arith, inl, inr,
}
use neofs_sdk_go.Prelude.Bytes.{Bytes, bytes_eq, bytes_eq_iff}
use neofs_sdk_go.Prelude.Result.{ok}
use neofs_sdk_go.Netmap.NetworkInfo.{
  StackItem, NetworkParameter, NetworkInfo, parameters, set_parameter, set_config, find_value,
  config_value, put_uint, set_config_uint64, decode_bytes, decode_uint64, config_uint64,
  set_config_bool, decode_bool, config_bool, disable_homomorphic_hashing,
  homomorphic_hashing_disabled, allow_maintenance_mode, maintenance_mode_allowed,
  hashing_disabled_name, maintenance_allowed_name, alpha_name, is_below_zero, is_above_one,
  set_eigen_trust_alpha, eigen_trust_alpha, set_raw_network_parameter, raw_network_parameter,
}
use neofs_sdk_go.Netmap.NetworkInfo.Setting.{
  Setting, name_of, setter, getter, all_names, setter_lem, getter_lem,
}

abbrev pub is_among : Bytes → List Bytes → Bool
is_among n [] = false
is_among n (m ∷ ms) = bytes_eq m n || is_among n ms

abbrev pub all_distinct : List Bytes → Bool
all_distinct [] = true
all_distinct (n ∷ ns) = not (is_among n ns) && all_distinct ns

bytes_eq_refl : (a : Bytes) → bytes_eq a a ≡ true
bytes_eq_refl a = (bytes_eq_iff a a).1 refl

-- Where `name` is the key of the first of a list, a search for `k` starts with a comparison to it.
find_set :
    (name k : Bytes) (val : Option Bytes) (ps : List NetworkParameter)
    → find_value k (set_parameter name val ps) ≡ (if bytes_eq name k then val else find_value k ps)
unfolding find_value set_parameter
find_set name k val [] = refl
find_set name k val (p ∷ ps) = elim (Bool-cases (bytes_eq p.key name)) [
  | inl y ↦ rw (y, find_value, (bytes_eq_iff p.key name).0 y) (ground arith)
  | inr n ↦
      rw (n, find_value, find_set name k val ps)
        (elim (Bool-cases (bytes_eq name k)) [
          | inl y ↦ rw (y, ap (bytes_eq p.key) (sym ((bytes_eq_iff name k).0 y)) ∙ n) refl
          | inr z ↦ rw z refl
        ])
]

pub config_value-set_config :
    (x : NetworkInfo) (name k : Bytes) (val : Option Bytes)
    → config_value (set_config x name val) k ≡ (if bytes_eq name k then val else config_value x k)
unfolding config_value set_config
config_value-set_config x name k val = find_set name k val (parameters x.config)

pub put_uint-length : (n num : ℕ) → length (put_uint n num) ≡ n
unfolding put_uint
put_uint-length zero num = refl
put_uint-length (suc n) num = rw (put_uint-length n (num / 256)) refl

decode_bytes-put_uint :
    (n num : ℕ) → num < 256 ^ n → num < 2 ^ 64 → decode_bytes (put_uint n num) ≡ num
unfolding decode_bytes put_uint
decode_bytes-put_uint zero num h w = omega arith
decode_bytes-put_uint (suc n) num h w =
    rw (decode_bytes-put_uint n (num / 256) (omega arith) (omega arith)) (omega arith)

decode_uint64-put_uint : (num : ℕ) → num < 2 ^ 64 → decode_uint64 (put_uint 8 num) ≡ ok num
unfolding decode_uint64
decode_uint64-put_uint num w =
    rw (put_uint-length 8 num, decode_bytes-put_uint 8 num (omega arith) w) refl

pub config_uint64-set :
    (x : NetworkInfo) (name k : Bytes) (num : ℕ)
    → num < 2 ^ 64
    → config_uint64 (set_config_uint64 x name num) k
      ≡ (if bytes_eq name k then ok num else config_uint64 x k)
unfolding config_uint64 set_config_uint64
config_uint64-set x name k num w =
    rw (config_uint64, config_value-set_config x name k (some (put_uint 8 num)))
      (elim (Bool-cases (bytes_eq name k)) [
        | inl y ↦ rw y (decode_uint64-put_uint num w)
        | inr n ↦ rw n refl
      ])

module _ (item : StackItem) (x : NetworkInfo) where
  config_bool-set :
      (name k : Bytes) (b : Bool)
      → config_bool item (set_config_bool item x name b) k
        ≡ (if bytes_eq name k then ok b else config_bool item x k)
  unfolding config_bool set_config_bool decode_bool
  config_bool-set name k b =
      rw (config_bool, config_value-set_config x name k (some (item.bool_bytes b)))
        (elim (Bool-cases (bytes_eq name k)) [
          | inl y ↦ rw (y, decode_bool, item.try_bool-bool_bytes b) refl
          | inr n ↦ rw n refl
        ])

  set_alpha_ok :
      (alpha : ℕ)
      → (is_below_zero alpha || is_above_one alpha) ≡ false
      → set_eigen_trust_alpha x alpha ≡ ok (set_config_uint64 x alpha_name alpha)
  unfolding set_eigen_trust_alpha
  set_alpha_ok alpha r = rw (set_eigen_trust_alpha, r) refl

  alpha_back :
      (alpha : ℕ)
      → alpha < 2 ^ 64
      → (is_below_zero alpha || is_above_one alpha) ≡ false
      → eigen_trust_alpha (set_config_uint64 x alpha_name alpha) ≡ ok alpha
  unfolding eigen_trust_alpha
  alpha_back alpha w r =
      rw (eigen_trust_alpha, config_uint64-set x alpha_name alpha_name alpha w, r) refl

  -- `y` is `x` but for the value of one name.
  abbrev pub Sets : NetworkInfo → Bytes → Option Bytes → Type 0
  Sets y name val =
      (k : Bytes) → config_value y k ≡ (if bytes_eq name k then val else config_value x k)

  -- Every setter of a parameter writes what its getter then returns, and changes no other: those of numbers
  -- up to 64 bits, whose getters of other names return what they did, the two flags, which are then on,
  -- the EigenTrust alpha within its range, and the raw parameters. All the names differ.
  pub settings_lem :
      (s : Setting) (num alpha : ℕ) (name : Bytes) (value : Option Bytes)
      → num < 2 ^ 64
      → alpha < 2 ^ 64
      → (is_below_zero alpha || is_above_one alpha) ≡ false
      → ((t : Setting)
          → getter t (setter s x num)
            ≡ (if bytes_eq (name_of s) (name_of t) then ok num else getter t x))
        × Sets (setter s x num) (name_of s) (some (put_uint 8 num))
        × (homomorphic_hashing_disabled item (disable_homomorphic_hashing item x) ≡ ok true)
        × Sets
            (disable_homomorphic_hashing item x)
            hashing_disabled_name
            (some (item.bool_bytes true))
        × (maintenance_mode_allowed item (allow_maintenance_mode item x) ≡ ok true)
        × Sets
            (allow_maintenance_mode item x)
            maintenance_allowed_name
            (some (item.bool_bytes true))
        × ((y : NetworkInfo) × (set_eigen_trust_alpha x alpha ≡ ok y)
            × (eigen_trust_alpha y ≡ ok alpha)
            × Sets y alpha_name (some (put_uint 8 alpha)))
        × (raw_network_parameter (set_raw_network_parameter x name value) name ≡ value)
        × Sets (set_raw_network_parameter x name value) name value
        × (all_distinct (alpha_name ∷ hashing_disabled_name ∷ maintenance_allowed_name ∷ all_names)
            ≡ true)
  unfolding homomorphic_hashing_disabled disable_homomorphic_hashing maintenance_mode_allowed
      allow_maintenance_mode set_config_uint64 set_config_bool set_raw_network_parameter
      raw_network_parameter
  settings_lem s num alpha name value w v r = (
    λ t.
        rw (getter_lem t (setter s x num), setter_lem s x num, getter_lem t x)
          (config_uint64-set x (name_of s) (name_of t) num w),
    λ k. rw (setter_lem s x num) (config_value-set_config x (name_of s) k (some (put_uint 8 num))),
    config_bool-set hashing_disabled_name hashing_disabled_name true,
    λ k. config_value-set_config x hashing_disabled_name k (some (item.bool_bytes true)),
    config_bool-set maintenance_allowed_name maintenance_allowed_name true,
    λ k. config_value-set_config x maintenance_allowed_name k (some (item.bool_bytes true)),
    (
      set_config_uint64 x alpha_name alpha,
      set_alpha_ok alpha r,
      alpha_back alpha v r,
      λ k. config_value-set_config x alpha_name k (some (put_uint 8 alpha)),
    ),
    config_value-set_config x name name value ∙ rw (bytes_eq_refl name) refl,
    λ k. config_value-set_config x name k value,
    refl,
  )
