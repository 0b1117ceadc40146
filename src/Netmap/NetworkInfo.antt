-- ===== src/Netmap/NetworkInfo.antt =====
-- What the network tells of itself: netmap/network_info.go. The message's configuration is a list of
-- parameters, which the API package's `IterateParameters` visits in order, by reference, until the
-- callback answers true; a nil value is none. Names are byte strings. A float64 is taken by its 64 bits
-- of IEEE 754, which `math.Float64bits` and `math.Float64frombits` keep. The boolean values are those
-- of the virtual machine's stack items, a package of a third party and so a parameter. Two copies of a
-- NetworkInfo share their configuration; one is followed here.
pub mod Setting
pub mod Kept
pub mod Reading
pub mod Replaced
pub mod Getters
mod Tests
use neofs_sdk_go.Prelude.{
  ℕ, zero, suc, ◌+◌, ◌*◌, ◌/◌, ◌%◌, ◌^◌, ◌≡◌, Bool, true, false, ◌&&◌, ◌||◌, Option, none, some,
  List, [], ◌∷◌, ◌++◌, ltb, leb, ◌==◌, if◌then◌else◌, length,
}
use neofs_sdk_go.Prelude.Bytes.{Bytes, bytes_eq, codes}
use neofs_sdk_go.Prelude.Result.{Result, ok, err, ◌>>=◌}

-- `NewByteArray(val).TryBool()`, none for its error, and `NewBool(val).Bytes()`.
pub record StackItem : Type 0 where
  pub try_bool : Bytes → Option Bool
  pub bool_bytes : Bool → Bytes
  pub try_bool-bool_bytes : (b : Bool) → try_bool (bool_bytes b) ≡ some b

pub record NetworkParameter : Type 0 where
  pub key : Bytes
  pub value : Option Bytes

pub record NetworkInfo : Type 0 where
  pub current_epoch : ℕ
  pub magic_number : ℕ
  pub ms_per_block : ℕ
  pub config : Option (List NetworkParameter)

pub data InfoError : Type 0 where
  missing_config missing_parameters duplicated_name empty_value out_of_range invalid_length
        invalid_bool :
      InfoError

abbrev pub parameters : Option (List NetworkParameter) → List NetworkParameter
parameters none = []
parameters (some ps) = ps

abbrev pub bytes_of : Option Bytes → Bytes
bytes_of none = []
bytes_of (some bs) = bs

-- The names of the parameters.
abbrev pub audit_fee_name : Bytes
audit_fee_name = codes "AuditFee"

abbrev pub storage_price_name : Bytes
storage_price_name = codes "BasicIncomeRate"

abbrev pub container_fee_name : Bytes
container_fee_name = codes "ContainerFee"

abbrev pub named_container_fee_name : Bytes
named_container_fee_name = codes "ContainerAliasFee"

abbrev pub alpha_name : Bytes
alpha_name = codes "EigenTrustAlpha"

abbrev pub iterations_name : Bytes
iterations_name = codes "EigenTrustIterations"

abbrev pub epoch_duration_name : Bytes
epoch_duration_name = codes "EpochDuration"

abbrev pub ir_candidate_fee_name : Bytes
ir_candidate_fee_name = codes "InnerRingCandidateFee"

abbrev pub max_obj_size_name : Bytes
max_obj_size_name = codes "MaxObjectSize"

abbrev pub withdrawal_fee_name : Bytes
withdrawal_fee_name = codes "WithdrawFee"

abbrev pub hashing_disabled_name : Bytes
hashing_disabled_name = codes "HomomorphicHashingDisabled"

abbrev pub maintenance_allowed_name : Bytes
maintenance_allowed_name = codes "MaintenanceModeAllowed"

-- The loop of `setConfig`: the first parameter of the name gets the value, or a new one comes last.
pub set_parameter : Bytes → Option Bytes → List NetworkParameter → List NetworkParameter
set_parameter name val [] = record { key = name; value = val } ∷ []
set_parameter name val (p ∷ ps) =
    let rest = set_parameter name val ps in
    if bytes_eq p.key name then record p { value = val } ∷ ps else p ∷ rest

pub set_config : NetworkInfo → Bytes → Option Bytes → NetworkInfo
unfolding set_parameter
set_config x name val = record x { config = some (set_parameter name val (parameters x.config)) }

pub find_value : Bytes → List NetworkParameter → Option Bytes
find_value name [] = none
find_value name (p ∷ ps) =
    let rest = find_value name ps in if bytes_eq p.key name then p.value else rest

pub config_value : NetworkInfo → Bytes → Option Bytes
unfolding find_value
config_value x name = find_value name (parameters x.config)

pub set_raw_network_parameter : NetworkInfo → Bytes → Option Bytes → NetworkInfo
set_raw_network_parameter x name value = set_config x name value

pub raw_network_parameter : NetworkInfo → Bytes → Option Bytes
raw_network_parameter x name = config_value x name

-- `binary.LittleEndian.PutUint64`, of `n` bytes.
pub put_uint : ℕ → ℕ → Bytes
put_uint zero num = []
put_uint (suc n) num = num % 256 ∷ put_uint n (num / 256)

pub set_config_uint64 : NetworkInfo → Bytes → ℕ → NetworkInfo
unfolding put_uint
set_config_uint64 x name num = set_config x name (some (put_uint 8 num))

-- The loop of `decodeConfigValueUint64`, from the last byte.
pub decode_bytes : Bytes → ℕ
decode_bytes [] = 0
decode_bytes (b ∷ bs) = (decode_bytes bs * 256 + b) % 2 ^ 64

pub decode_uint64 : Bytes → Result InfoError ℕ
unfolding decode_bytes
decode_uint64 val = if ltb 8 (length val) then err invalid_length else ok (decode_bytes val)

-- `configUint64`; the error is its panic.
pub config_uint64 : NetworkInfo → Bytes → Result InfoError ℕ
unfolding decode_uint64
config_uint64 x name = elim (config_value x name) [ none ↦ ok 0 | some val ↦ decode_uint64 val ]

-- On the bits of a float64: below zero (but not -0 or NaN), and above one (and not NaN).
unfoldable pub is_below_zero : ℕ → Bool
is_below_zero alpha = ltb (2 ^ 63) alpha && leb alpha (2 ^ 63 + 2047 * 2 ^ 52)

unfoldable pub is_above_one : ℕ → Bool
is_above_one alpha = ltb (1023 * 2 ^ 52) alpha && leb alpha (2047 * 2 ^ 52)

-- `SetEigenTrustAlpha` and `EigenTrustAlpha`; the errors are their panics.
pub set_eigen_trust_alpha : NetworkInfo → ℕ → Result InfoError NetworkInfo
unfolding is_below_zero is_above_one
set_eigen_trust_alpha x alpha =
    if is_below_zero alpha || is_above_one alpha
    then err out_of_range
    else ok (set_config_uint64 x alpha_name alpha)

pub eigen_trust_alpha : NetworkInfo → Result InfoError ℕ
unfolding is_below_zero is_above_one
eigen_trust_alpha x = do
  alpha ← config_uint64 x alpha_name
  if is_below_zero alpha || is_above_one alpha then err out_of_range else ok alpha

-- The kinds of parameter that reading tells apart.
pub data Format : Type 0 where
  alpha_format number_format bool_format raw_format : Format

pub any_name : Bytes → List Bytes → Bool
any_name name [] = false
any_name name (n ∷ ns) = let rest = any_name name ns in if bytes_eq n name then true else rest

abbrev pub number_names : List Bytes
number_names =
    audit_fee_name ∷ storage_price_name ∷ container_fee_name ∷ named_container_fee_name
    ∷ iterations_name ∷ epoch_duration_name ∷ ir_candidate_fee_name ∷ max_obj_size_name
    ∷ withdrawal_fee_name ∷ []

-- The switch on the name.
pub format_of : Bytes → Format
unfolding any_name
format_of name =
    if bytes_eq alpha_name name
    then alpha_format
    else if any_name name number_names
    then number_format
    else if any_name name (hashing_disabled_name ∷ maintenance_allowed_name ∷ [])
    then bool_format
    else raw_format

module _ (item : StackItem) where
  pub set_config_bool : NetworkInfo → Bytes → Bool → NetworkInfo
  set_config_bool x name val = set_config x name (some (item.bool_bytes val))

  pub decode_bool : Bytes → Result InfoError Bool
  decode_bool val = elim (item.try_bool val) [ none ↦ err invalid_bool | some b ↦ ok b ]

  -- `configBool`; the error is its panic.
  pub config_bool : NetworkInfo → Bytes → Result InfoError Bool
  unfolding decode_bool
  config_bool x name = elim (config_value x name) [ none ↦ ok false | some val ↦ decode_bool val ]

  pub disable_homomorphic_hashing : NetworkInfo → NetworkInfo
  disable_homomorphic_hashing x = set_config_bool x hashing_disabled_name true

  pub homomorphic_hashing_disabled : NetworkInfo → Result InfoError Bool
  homomorphic_hashing_disabled x = config_bool x hashing_disabled_name

  pub allow_maintenance_mode : NetworkInfo → NetworkInfo
  allow_maintenance_mode x = set_config_bool x maintenance_allowed_name true

  pub maintenance_mode_allowed : NetworkInfo → Result InfoError Bool
  maintenance_mode_allowed x = config_bool x maintenance_allowed_name

  -- What the callback of `readFromV2` says of a value.
  pub check_value : Format → Option Bytes → Result InfoError ℕ
  unfolding decode_uint64 decode_bool is_below_zero is_above_one
  check_value raw_format val = if length (bytes_of val) == 0 then err empty_value else ok 0
  check_value number_format val = decode_uint64 (bytes_of val)
  check_value bool_format val = do b ← decode_bool (bytes_of val); ok 0
  check_value alpha_format val = do
    num ← decode_uint64 (bytes_of val)
    if is_below_zero num && is_above_one num then err out_of_range else ok num

  -- The iteration, with the names met so far.
  pub check_parameters : List Bytes → List NetworkParameter → Result InfoError ℕ
  unfolding any_name format_of check_value
  check_parameters names [] = ok 0
  check_parameters names (p ∷ ps) =
      let rest = check_parameters (p.key ∷ names) ps in
      if any_name p.key names
      then err duplicated_name
      else (do n ← check_value (format_of p.key) p.value; rest)

  pub read_config :
      NetworkInfo → Option (List NetworkParameter) → Bool → Result InfoError NetworkInfo
  unfolding check_parameters
  read_config m none true = err missing_config
  read_config m none false = ok m
  read_config m (some ps) check =
      if check && length ps == 0
      then err missing_parameters
      else (do n ← check_parameters [] ps; ok m)

  -- `readFromV2`
  pub read_from_v2 : NetworkInfo → Bool → Result InfoError NetworkInfo
  unfolding read_config
  read_from_v2 m check = read_config m m.config check

-- What `IterateRawNetworkParameters` passes to its callback, in order.
pub raw_parameters : List NetworkParameter → List NetworkParameter
unfolding format_of
raw_parameters [] = []
raw_parameters (p ∷ ps) =
    let rest = raw_parameters ps in
    elim (format_of p.key) [
      | raw_format ↦ p ∷ rest
      | alpha_format ↦ rest
      | number_format ↦ rest
      | bool_format ↦ rest
    ]
