-- ===== src/Netmap/NetworkInfo/Setting.antt =====
-- The typed parameters of a network: the setters and getters of netmap/network_info.go on uint64, and
-- the getters' table.
use neofs_sdk_go.Prelude.{ℕ, ◌≡◌, refl, List, [], ◌∷◌}
use neofs_sdk_go.Prelude.Bytes.{Bytes}
use neofs_sdk_go.Prelude.Result.{Result}
use neofs_sdk_go.Netmap.NetworkInfo.{
  NetworkInfo, InfoError, set_config_uint64, config_uint64, audit_fee_name, storage_price_name,
  container_fee_name, named_container_fee_name, iterations_name, epoch_duration_name,
  ir_candidate_fee_name, max_obj_size_name, withdrawal_fee_name,
}

pub set_audit_fee : NetworkInfo → ℕ → NetworkInfo
set_audit_fee x num = set_config_uint64 x audit_fee_name num

pub audit_fee : NetworkInfo → Result InfoError ℕ
audit_fee x = config_uint64 x audit_fee_name

pub set_storage_price : NetworkInfo → ℕ → NetworkInfo
set_storage_price x num = set_config_uint64 x storage_price_name num

pub storage_price : NetworkInfo → Result InfoError ℕ
storage_price x = config_uint64 x storage_price_name

pub set_container_fee : NetworkInfo → ℕ → NetworkInfo
set_container_fee x num = set_config_uint64 x container_fee_name num

pub container_fee : NetworkInfo → Result InfoError ℕ
container_fee x = config_uint64 x container_fee_name

pub set_named_container_fee : NetworkInfo → ℕ → NetworkInfo
set_named_container_fee x num = set_config_uint64 x named_container_fee_name num

pub named_container_fee : NetworkInfo → Result InfoError ℕ
named_container_fee x = config_uint64 x named_container_fee_name

pub set_number_of_eigen_trust_iterations : NetworkInfo → ℕ → NetworkInfo
set_number_of_eigen_trust_iterations x num = set_config_uint64 x iterations_name num

pub number_of_eigen_trust_iterations : NetworkInfo → Result InfoError ℕ
number_of_eigen_trust_iterations x = config_uint64 x iterations_name

pub set_epoch_duration : NetworkInfo → ℕ → NetworkInfo
set_epoch_duration x num = set_config_uint64 x epoch_duration_name num

pub epoch_duration : NetworkInfo → Result InfoError ℕ
epoch_duration x = config_uint64 x epoch_duration_name

pub set_ir_candidate_fee : NetworkInfo → ℕ → NetworkInfo
set_ir_candidate_fee x num = set_config_uint64 x ir_candidate_fee_name num

pub ir_candidate_fee : NetworkInfo → Result InfoError ℕ
ir_candidate_fee x = config_uint64 x ir_candidate_fee_name

pub set_max_object_size : NetworkInfo → ℕ → NetworkInfo
set_max_object_size x num = set_config_uint64 x max_obj_size_name num

pub max_object_size : NetworkInfo → Result InfoError ℕ
max_object_size x = config_uint64 x max_obj_size_name

pub set_withdrawal_fee : NetworkInfo → ℕ → NetworkInfo
set_withdrawal_fee x num = set_config_uint64 x withdrawal_fee_name num

pub withdrawal_fee : NetworkInfo → Result InfoError ℕ
withdrawal_fee x = config_uint64 x withdrawal_fee_name

pub data Setting : Type 0 where
  for_audit_fee for_storage_price for_container_fee for_named_container_fee for_iterations
        for_epoch_duration for_ir_candidate_fee for_max_object_size for_withdrawal_fee :
      Setting

abbrev pub name_of : Setting → Bytes
name_of for_audit_fee = audit_fee_name
name_of for_storage_price = storage_price_name
name_of for_container_fee = container_fee_name
name_of for_named_container_fee = named_container_fee_name
name_of for_iterations = iterations_name
name_of for_epoch_duration = epoch_duration_name
name_of for_ir_candidate_fee = ir_candidate_fee_name
name_of for_max_object_size = max_obj_size_name
name_of for_withdrawal_fee = withdrawal_fee_name

pub setter : Setting → NetworkInfo → ℕ → NetworkInfo
setter for_audit_fee = set_audit_fee
setter for_storage_price = set_storage_price
setter for_container_fee = set_container_fee
setter for_named_container_fee = set_named_container_fee
setter for_iterations = set_number_of_eigen_trust_iterations
setter for_epoch_duration = set_epoch_duration
setter for_ir_candidate_fee = set_ir_candidate_fee
setter for_max_object_size = set_max_object_size
setter for_withdrawal_fee = set_withdrawal_fee

pub getter : Setting → NetworkInfo → Result InfoError ℕ
getter for_audit_fee = audit_fee
getter for_storage_price = storage_price
getter for_container_fee = container_fee
getter for_named_container_fee = named_container_fee
getter for_iterations = number_of_eigen_trust_iterations
getter for_epoch_duration = epoch_duration
getter for_ir_candidate_fee = ir_candidate_fee
getter for_max_object_size = max_object_size
getter for_withdrawal_fee = withdrawal_fee

abbrev pub all_names : List Bytes
all_names =
    name_of for_audit_fee
    ∷ name_of for_storage_price
    ∷ name_of for_container_fee
    ∷ name_of for_named_container_fee
    ∷ name_of for_iterations
    ∷ name_of for_epoch_duration
    ∷ name_of for_ir_candidate_fee
    ∷ name_of for_max_object_size
    ∷ name_of for_withdrawal_fee
    ∷ []

pub setter_lem :
    (s : Setting) (x : NetworkInfo) (num : ℕ) → setter s x num ≡ set_config_uint64 x (name_of s) num
unfolding setter set_audit_fee set_storage_price set_container_fee set_named_container_fee
    set_number_of_eigen_trust_iterations set_epoch_duration set_ir_candidate_fee set_max_object_size
    set_withdrawal_fee
setter_lem for_audit_fee x num = refl
setter_lem for_storage_price x num = refl
setter_lem for_container_fee x num = refl
setter_lem for_named_container_fee x num = refl
setter_lem for_iterations x num = refl
setter_lem for_epoch_duration x num = refl
setter_lem for_ir_candidate_fee x num = refl
setter_lem for_max_object_size x num = refl
setter_lem for_withdrawal_fee x num = refl

pub getter_lem : (s : Setting) (x : NetworkInfo) → getter s x ≡ config_uint64 x (name_of s)
unfolding getter audit_fee storage_price container_fee named_container_fee
    number_of_eigen_trust_iterations epoch_duration ir_candidate_fee max_object_size withdrawal_fee
getter_lem for_audit_fee x = refl
getter_lem for_storage_price x = refl
getter_lem for_container_fee x = refl
getter_lem for_named_container_fee x = refl
getter_lem for_iterations x = refl
getter_lem for_epoch_duration x = refl
getter_lem for_ir_candidate_fee x = refl
getter_lem for_max_object_size x = refl
getter_lem for_withdrawal_fee x = refl
