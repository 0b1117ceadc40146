-- ===== src/Container/Tests.antt =====
-- The theorems on container/container.go and container/network.go at a container with a name.
use neofs_sdk_go.Prelude.{
  ℕ, zero, suc, ◌≡◌, ◌≢◌, ◌↔◌, refl, ap, arith, Bool, true, false, not, ◌||◌, Option, none, some,
  [], ◌∷◌, if◌then◌else◌, length, ◌==◌,
}
use neofs_sdk_go.Prelude.Bytes.{Bytes, bytes_eq, codes}
use neofs_sdk_go.Prelude.Result.{ok}
use neofs_sdk_go.Netmap.NetworkInfo.{
  StackItem, NetworkInfo, homomorphic_hashing_disabled, disable_homomorphic_hashing, is_below_zero,
  is_above_one,
}
use neofs_sdk_go.Netmap.NetworkInfo.Setting.{for_epoch_duration}
use neofs_sdk_go.Netmap.NetworkInfo.Kept.{settings_lem}
use neofs_sdk_go.Netmap.Node.{parse_codes}
use neofs_sdk_go.Container.{
  ContainerEnv, Container, set_attribute, Domain, zone_of, write_domain, read_domain,
  is_homomorphic_hashing_disabled, apply_network_config, assert_network_config, read_from_v2,
}
use neofs_sdk_go.Container.Attributes.{
  DistinctKeys, Says, write_domain_lem, apply_network_config_lem,
}
use neofs_sdk_go.Container.Reading.{ContainerReadable, container_reads_iff}

-- UUIDs of 16 bytes, whose version is in the seventh.
abbrev version_of : Bytes → Option ℕ
version_of bs = if length bs == 16 then some 4 else none

abbrev an_env : ContainerEnv
an_env = record {
  check_user = λ u. length u == 25;
  uuid_version = version_of;
  sys_name = codes "__NEOFS__NAME";
  sys_zone = codes "__NEOFS__ZONE";
  sys_hashing = codes "__NEOFS__DISABLE_HOMOMORPHIC_HASHING";
  sys_name_set = λ e. cc;
  sys_zone_set = λ e. cc;
  sys_hashing_set = λ e. cc;
  sys_name_zone = names_apart;
}
  where
    names_apart : codes "__NEOFS__NAME" ≢ codes "__NEOFS__ZONE"
    names_apart e = let q : true ≡ false = ap (bytes_eq (codes "__NEOFS__NAME")) e in cc

abbrev zeros : ℕ → Bytes
zeros zero = []
zeros (suc n) = 0 ∷ zeros n

abbrev a_container : Container
a_container = record {
  version = some 2;
  owner = some (zeros 25);
  nonce = zeros 16;
  basic_acl = 0;
  attributes =
      record { key = codes "Name"; value = codes "box" }
      ∷ record { key = codes "Timestamp"; value = codes "-5" }
      ∷ [];
  policy = some (record {
    backup = 0;
    filters = [];
    selectors = [];
    replicas = record { selector = ""; count = 1 } ∷ [];
  });
}

a_container_read : read_from_v2 an_env a_container true ≡ ok a_container
unfolding read_from_v2 parse_codes
a_container_read = refl

container_reads_iff_example :
    (read_from_v2 an_env a_container true ≡ ok a_container)
    ↔ ContainerReadable an_env a_container true
container_reads_iff_example = container_reads_iff an_env a_container true

write_domain_lem_example :
    ((key value : Bytes)
      → key ≢ []
      → value ≢ []
      → (y : Container) × (set_attribute a_container key value ≡ ok y)
        × Says an_env a_container y key value)
    × ((d : Domain)
        → d.name ≢ []
        → (y : Container) × (write_domain an_env a_container d ≡ ok y)
          × (read_domain an_env y ≡ record { name = d.name; zone = zone_of d })
          × (DistinctKeys a_container.attributes → DistinctKeys y.attributes))
write_domain_lem_example = write_domain_lem an_env a_container

abbrev byte_bool : Bytes → Option Bool
byte_bool [] = some false
byte_bool (b ∷ bs) = some true

abbrev bool_byte : Bool → Bytes
bool_byte true = 1 ∷ []
bool_byte false = []

byte_bool-bool_byte : (b : Bool) → byte_bool (bool_byte b) ≡ some b
byte_bool-bool_byte true = refl
byte_bool-bool_byte false = refl

abbrev an_item : StackItem
an_item = record {
  try_bool = byte_bool;
  bool_bytes = bool_byte;
  try_bool-bool_bytes = byte_bool-bool_byte;
}

abbrev no_network : NetworkInfo
no_network = record { current_epoch = 0; magic_number = 0; ms_per_block = 0; config = none }

abbrev a_network : NetworkInfo
a_network = disable_homomorphic_hashing an_item no_network

flag_on : homomorphic_hashing_disabled an_item a_network ≡ ok true
unfolding is_below_zero is_above_one
flag_on =
    (settings_lem an_item no_network for_epoch_duration 0 0 [] none (omega arith) (omega arith)
      refl).2

apply_network_config_lem_example :
    (y : Container) × (apply_network_config an_env an_item a_container a_network ≡ ok y)
    × (assert_network_config an_env an_item y a_network
        ≡ ok (true || not (is_homomorphic_hashing_disabled an_env a_container)))
apply_network_config_lem_example =
    apply_network_config_lem an_env an_item a_container a_network true flag_on
