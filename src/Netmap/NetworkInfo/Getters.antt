-- ===== src/Netmap/NetworkInfo/Getters.antt =====
-- What the getters of netmap/network_info.go return once a message was read.
use neofs_sdk_go.Prelude.{
  ℕ, ◌<◌, ◌^◌, ◌≡◌, refl, sym, ◌∙◌, subst, ◌⊎◌, Bool, false, ◌||◌, some, List, [], ◌∷◌,
  if◌then◌else◌, Bool-cases, Option-cases, inl, inr,
}
use neofs_sdk_go.Prelude.Bytes.{Bytes, bytes_eq, bytes_eq_iff}
use neofs_sdk_go.Prelude.Result.{ok, err, Succeeds}
use neofs_sdk_go.Netmap.NetworkInfo.{
  StackItem, NetworkParameter, NetworkInfo, parameters, find_value, config_value, decode_bytes,
  config_uint64, is_below_zero, is_above_one, eigen_trust_alpha, alpha_format, number_format,
  bool_format, any_name, format_of, decode_bool, config_bool, homomorphic_hashing_disabled,
  maintenance_mode_allowed, read_from_v2, alpha_name, hashing_disabled_name,
  maintenance_allowed_name, out_of_range, set_config_uint64,
}
use neofs_sdk_go.Netmap.NetworkInfo.Kept.{config_uint64-set}
use neofs_sdk_go.Netmap.NetworkInfo.Replaced.{any_alpha_read}
use neofs_sdk_go.Netmap.NetworkInfo.Reading.{Fits, AllFit, decode_fits, config→Readable}
use neofs_sdk_go.Netmap.NetworkInfo.Setting.{
  for_audit_fee, for_storage_price, for_container_fee, for_named_container_fee, for_iterations,
  for_epoch_duration, for_ir_candidate_fee, for_max_object_size, for_withdrawal_fee, Setting,
  name_of, getter, getter_lem,
}

module _ (item : StackItem) where
  found-Fits :
      (k : Bytes) (ps : List NetworkParameter) {v : Bytes}
      → AllFit item ps
      → find_value k ps ≡ some v
      → Fits item (format_of k) (some v)
  unfolding find_value
  found-Fits k [] f h = cc
  found-Fits k (p ∷ ps) (v, f) h = elim (Bool-cases (bytes_eq p.key k)) [
    | inl y ↦
        subst (λ o. Fits item (format_of k) o) (sym (rw (find_value, y) refl) ∙ h)
          (subst (λ n. Fits item (format_of n) p.value) ((bytes_eq_iff p.key k).0 y) v)
    | inr z ↦ found-Fits k ps f (sym (rw (find_value, z) refl) ∙ h)
  ]

  module _ (x : NetworkInfo) (fit : AllFit item (parameters x.config)) where
    number_total :
        (k : Bytes)
        → format_of k ≡ number_format ⊎ format_of k ≡ alpha_format
        → Succeeds (config_uint64 x k)
    unfolding config_uint64 config_value
    number_total k q = elim (Option-cases (config_value x k)) [
      | inl e ↦ (0, rw (config_uint64, e) refl)
      | inr (v, e) ↦
          let b = found-Fits k (parameters x.config) fit e in
          (
            decode_bytes v,
            rw (config_uint64, e)
                (decode_fits item v (elim q [
                  | inl n ↦ subst (λ f. Fits item f (some v)) n b
                  | inr a ↦ subst (λ f. Fits item f (some v)) a b
                ])),
          )
    ]

    flag_total : (k : Bytes) → format_of k ≡ bool_format → Succeeds (config_bool item x k)
    unfolding config_bool decode_bool config_value
    flag_total k q = elim (Option-cases (config_value x k)) [
      | inl e ↦ (false, rw (config_bool, e) refl)
      | inr (v, e) ↦
          let (b, t) =
            subst (λ f. Fits item f (some v)) q (found-Fits k (parameters x.config) fit e) in
          (b, rw (config_bool, e) (rw (decode_bool, t) refl))
    ]

  getter_format : (t : Setting) → format_of (name_of t) ≡ number_format
  unfolding format_of any_name
  getter_format for_audit_fee = refl
  getter_format for_storage_price = refl
  getter_format for_container_fee = refl
  getter_format for_named_container_fee = refl
  getter_format for_iterations = refl
  getter_format for_epoch_duration = refl
  getter_format for_ir_candidate_fee = refl
  getter_format for_max_object_size = refl
  getter_format for_withdrawal_fee = refl

  -- After a message is read, no getter of a number or a flag panics. Only EigenTrustAlpha may: it does
  -- exactly when the value is below 0 or above 1, and reading refuses no such value: whatever 64 bits the
  -- alpha of the message is replaced by, it is read again, and EigenTrustAlpha panics or returns them.
  pub getters_total :
      (m r : NetworkInfo) (check : Bool) (alpha : ℕ)
      → read_from_v2 item m check ≡ ok r
      → alpha < 2 ^ 64
      → ((t : Setting) → Succeeds (getter t r))
        × Succeeds (homomorphic_hashing_disabled item r)
        × Succeeds (maintenance_mode_allowed item r)
        × ((num : ℕ) × (config_uint64 r alpha_name ≡ ok num)
            × (eigen_trust_alpha r
                ≡ (if is_below_zero num || is_above_one num then err out_of_range else ok num)))
        × ((s : NetworkInfo) × (s ≡ set_config_uint64 r alpha_name alpha)
            × (read_from_v2 item s check ≡ ok s)
            × (eigen_trust_alpha s ≡ (
                if is_below_zero alpha || is_above_one alpha then err out_of_range else ok alpha)))
  unfolding read_from_v2 homomorphic_hashing_disabled maintenance_mode_allowed eigen_trust_alpha
      format_of any_name
  getters_total m r check alpha h w =
      let (e, g) = config→Readable item m m.config check h in
      let fit = subst (λ q. AllFit item (parameters q.config)) e g.2 in
      let (num, a) = number_total r fit alpha_name (inr refl) in
      (
        λ t. rw (getter_lem t r) (number_total r fit (name_of t) (inl (getter_format t))),
        flag_total r fit hashing_disabled_name refl,
        flag_total r fit maintenance_allowed_name refl,
        (num, a, rw a refl),
        (
          set_config_uint64 r alpha_name alpha,
          refl,
          any_alpha_read item m r check alpha h,
          rw (config_uint64-set r alpha_name alpha_name alpha w) refl,
        ),
      )
