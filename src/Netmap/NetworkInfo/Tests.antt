-- ===== src/Netmap/NetworkInfo/Tests.antt =====
-- The theorems on netmap/network_info.go at a network with a fee and an alpha of 2, a value out of its
-- range.
use neofs_sdk_go.Prelude.{
  ℕ, ◌≡◌, ◌↔◌, refl, Bool, true, false, ◌||◌, Option, none, some, [], ◌∷◌, if◌then◌else◌, arith,
}
use neofs_sdk_go.Prelude.Bytes.{Bytes, bytes_eq, codes}
use neofs_sdk_go.Prelude.Result.{ok, err, Succeeds}
use neofs_sdk_go.Netmap.NetworkInfo.{
  put_uint, hashing_disabled_name, maintenance_allowed_name, set_eigen_trust_alpha,
  set_raw_network_parameter, raw_network_parameter, StackItem, NetworkInfo, out_of_range,
  config_value, config_uint64, is_below_zero, is_above_one, eigen_trust_alpha, audit_fee_name,
  alpha_name, set_config_uint64, read_from_v2, homomorphic_hashing_disabled,
  maintenance_mode_allowed, disable_homomorphic_hashing, allow_maintenance_mode,
}
use neofs_sdk_go.Netmap.NetworkInfo.Setting.{
  Setting, for_epoch_duration, name_of, setter, getter, all_names,
}
use neofs_sdk_go.Netmap.NetworkInfo.Kept.{all_distinct, Sets, settings_lem}
use neofs_sdk_go.Netmap.NetworkInfo.Reading.{InfoReadable, info_reads_iff}
use neofs_sdk_go.Netmap.NetworkInfo.Getters.{getters_total}

abbrev byte_bool : Bytes → Option Bool
byte_bool [] = some false
byte_bool (b ∷ []) = some true
byte_bool (b ∷ c ∷ bs) = none

abbrev bool_byte : Bool → Bytes
bool_byte true = 1 ∷ []
bool_byte false = []

byte_bool-bool_byte : (b : Bool) → byte_bool (bool_byte b) ≡ some b
byte_bool-bool_byte true = refl
byte_bool-bool_byte false = refl

abbrev an_item : StackItem
an_item = record {
  try_bool = byte_bool;
  bool_bytes = bool_byte;
  try_bool-bool_bytes = byte_bool-bool_byte;
}

abbrev two_bits : Bytes
two_bits = 0 ∷ 0 ∷ 0 ∷ 0 ∷ 0 ∷ 0 ∷ 0 ∷ 64 ∷ []

abbrev a_network : NetworkInfo
a_network = record {
  current_epoch = 5;
  magic_number = 1;
  ms_per_block = 15000;
  config = some (
      record { key = audit_fee_name; value = some (7 ∷ []) }
      ∷ record { key = alpha_name; value = some two_bits }
      ∷ record { key = codes "Raw"; value = some (1 ∷ 2 ∷ []) }
      ∷ []);
}

a_network_read : read_from_v2 an_item a_network true ≡ ok a_network
unfolding read_from_v2
a_network_read = refl

alpha_panics : eigen_trust_alpha a_network ≡ err out_of_range
unfolding eigen_trust_alpha config_uint64 config_value
alpha_panics = refl

info_reads_iff_example :
    (Succeeds (read_from_v2 an_item a_network true) ↔ InfoReadable an_item a_network.config true)
    × ((r : NetworkInfo) → read_from_v2 an_item a_network true ≡ ok r → a_network ≡ r)
info_reads_iff_example = info_reads_iff an_item a_network true

getters_total_example :
    ((t : Setting) → Succeeds (getter t a_network))
    × Succeeds (homomorphic_hashing_disabled an_item a_network)
    × Succeeds (maintenance_mode_allowed an_item a_network)
    × ((num : ℕ) × (config_uint64 a_network alpha_name ≡ ok num)
        × (eigen_trust_alpha a_network
            ≡ (if is_below_zero num || is_above_one num then err out_of_range else ok num)))
    × ((s : NetworkInfo) × (s ≡ set_config_uint64 a_network alpha_name 0xBFF0000000000000)
        × (read_from_v2 an_item s true ≡ ok s)
        × (eigen_trust_alpha s ≡ (
            if is_below_zero 0xBFF0000000000000 || is_above_one 0xBFF0000000000000
            then err out_of_range
            else ok 0xBFF0000000000000)))
getters_total_example =
    getters_total an_item a_network a_network true 0xBFF0000000000000 a_network_read (omega arith)

settings_lem_example :
    ((t : Setting)
      → getter t (setter for_epoch_duration a_network 240) ≡ (
          if bytes_eq (name_of for_epoch_duration) (name_of t) then ok 240 else getter t a_network))
    × Sets an_item a_network
        (setter for_epoch_duration a_network 240)
        (name_of for_epoch_duration)
        (some (put_uint 8 240))
    × (homomorphic_hashing_disabled an_item (disable_homomorphic_hashing an_item a_network)
        ≡ ok true)
    × Sets an_item a_network
        (disable_homomorphic_hashing an_item a_network)
        hashing_disabled_name
        (some (bool_byte true))
    × (maintenance_mode_allowed an_item (allow_maintenance_mode an_item a_network) ≡ ok true)
    × Sets an_item a_network
        (allow_maintenance_mode an_item a_network)
        maintenance_allowed_name
        (some (bool_byte true))
    × ((y : NetworkInfo) × (set_eigen_trust_alpha a_network 0x3FE0000000000000 ≡ ok y)
        × (eigen_trust_alpha y ≡ ok 0x3FE0000000000000)
        × Sets an_item a_network y alpha_name (some (put_uint 8 0x3FE0000000000000)))
    × (raw_network_parameter
          (set_raw_network_parameter a_network (codes "Raw") (some (5 ∷ [])))
          (codes "Raw")
        ≡ some (5 ∷ []))
    × Sets an_item a_network
        (set_raw_network_parameter a_network (codes "Raw") (some (5 ∷ [])))
        (codes "Raw")
        (some (5 ∷ []))
    × (all_distinct (alpha_name ∷ hashing_disabled_name ∷ maintenance_allowed_name ∷ all_names)
        ≡ true)
unfolding is_below_zero is_above_one
settings_lem_example =
    settings_lem an_item a_network for_epoch_duration 240 0x3FE0000000000000 (codes "Raw")
      (some (5 ∷ [])) (omega arith) (omega arith) refl
