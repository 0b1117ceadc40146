-- ===== src/Netmap/NetworkInfo/Replaced.antt =====
-- What was read stays readable when a parameter of it is set (netmap/network_info.go).
use neofs_sdk_go.Prelude.{
  ℕ, ◌≡◌, ◌≢◌, sym, Bool, Option, some, List, [], ◌∷◌, length, Bool-cases, arith, inl, inr, subst,
}
use neofs_sdk_go.Prelude.Bytes.{Bytes, bytes_eq, bytes_eq_iff}
use neofs_sdk_go.Prelude.Result.{ok}
use neofs_sdk_go.Netmap.NetworkInfo.{
  StackItem, NetworkParameter, NetworkInfo, parameters, set_parameter, set_config, put_uint,
  set_config_uint64, format_of, any_name, alpha_name, read_from_v2,
}
use neofs_sdk_go.Netmap.NetworkInfo.Reading.{
  Lacks, Distinct, Fits, AllFit, InfoReadable, config→Readable, Readable→config,
}
use neofs_sdk_go.Netmap.NetworkInfo.Kept.{put_uint-length}

set_parameter-Lacks :
    (name k : Bytes) (val : Option Bytes) (ps : List NetworkParameter)
    → k ≢ name
    → Lacks k ps
    → Lacks k (set_parameter name val ps)
unfolding set_parameter
set_parameter-Lacks name k val [] n l = (n, tt)
set_parameter-Lacks name k val (p ∷ ps) n (m, l) = elim (Bool-cases (bytes_eq p.key name)) [
  | inl y ↦ rw (set_parameter, y) (m, l)
  | inr z ↦ rw (set_parameter, z) (m, set_parameter-Lacks name k val ps n l)
]

set_parameter-Distinct :
    (name : Bytes) (val : Option Bytes) (ps : List NetworkParameter)
    → Distinct ps
    → Distinct (set_parameter name val ps)
unfolding set_parameter
set_parameter-Distinct name val [] d = (tt, tt)
set_parameter-Distinct name val (p ∷ ps) (l, d) = elim (Bool-cases (bytes_eq p.key name)) [
  | inl y ↦ rw (set_parameter, y) (l, d)
  | inr z ↦
      rw (set_parameter, z)
        (
          set_parameter-Lacks name p.key val ps (λ e. (let y = (bytes_eq_iff p.key name).1 e in cc))
              l,
          set_parameter-Distinct name val ps d,
        )
]

set_parameter-nonempty :
    (name : Bytes) (val : Option Bytes) (ps : List NetworkParameter)
    → length (set_parameter name val ps) ≢ 0
unfolding set_parameter
set_parameter-nonempty name val [] e = omega arith
set_parameter-nonempty name val (p ∷ ps) e = elim (Bool-cases (bytes_eq p.key name)) [
  | inl y ↦ (let q = rw (set_parameter, y) at e in omega arith)
  | inr z ↦ (let q = rw (set_parameter, z) at e in omega arith)
]

module _ (item : StackItem) where
  set_parameter-AllFit :
      (name : Bytes) (val : Option Bytes) (ps : List NetworkParameter)
      → Fits item (format_of name) val
      → AllFit item ps
      → AllFit item (set_parameter name val ps)
  unfolding set_parameter
  set_parameter-AllFit name val [] v f = (v, tt)
  set_parameter-AllFit name val (p ∷ ps) v (w, f) = elim (Bool-cases (bytes_eq p.key name)) [
    | inl y ↦
        rw (set_parameter, y)
          (subst (λ n. Fits item (format_of n) val) (sym ((bytes_eq_iff p.key name).0 y)) v, f)
    | inr z ↦ rw (set_parameter, z) (w, set_parameter-AllFit name val ps v f)
  ]

  put_uint-Fits : (alpha : ℕ) → Fits item (format_of alpha_name) (some (put_uint 8 alpha))
  unfolding format_of any_name
  put_uint-Fits alpha = let q = put_uint-length 8 alpha in omega arith

  pub any_alpha_read :
      (m r : NetworkInfo) (check : Bool) (alpha : ℕ)
      → read_from_v2 item m check ≡ ok r
      → read_from_v2 item (set_config_uint64 r alpha_name alpha) check
        ≡ ok (set_config_uint64 r alpha_name alpha)
  unfolding read_from_v2 set_config_uint64 set_config
  any_alpha_read m r check alpha h =
      let (e, g) = config→Readable item m m.config check h in
      let (p, d, f) = subst (λ (q : NetworkInfo). InfoReadable item q.config check) e g in
      Readable→config item (set_config_uint64 r alpha_name alpha)
        (set_config_uint64 r alpha_name alpha).config check
        (
          λ c. set_parameter-nonempty alpha_name (some (put_uint 8 alpha)) (parameters r.config),
          set_parameter-Distinct alpha_name (some (put_uint 8 alpha)) (parameters r.config) d,
          set_parameter-AllFit alpha_name (some (put_uint 8 alpha)) (parameters r.config)
              (put_uint-Fits alpha) f,
        )
