-- ===== src/Container.antt =====
-- A container: container/container.go and container/network.go over the fields of its message, texts as
-- their bytes. What stands outside is the record `ContainerEnv`: the check of a user's ID, the UUIDs and
-- the names that the API package gives to system attributes.
pub mod Attributes
pub mod Reading
mod Tests
use neofs_sdk_go.Prelude.{
  ℕ, ◌-◌, ◌*◌, ◌^◌, ◌≢◌, Bool, true, false, not, ◌&&◌, ◌||◌, Option, none, some, List, [], ◌∷◌, ltb,
  leb, ◌==◌, if◌then◌else◌, length,
}
use neofs_sdk_go.Prelude.Bytes.{Bytes, bytes_eq, codes}
use neofs_sdk_go.Prelude.Result.{Result, ok, err, ◌>>=◌}
use neofs_sdk_go.Netmap.Node.{parse_codes}
use neofs_sdk_go.Netmap.Container.{PlacementPolicy}
use neofs_sdk_go.Netmap.NetworkInfo.{
  StackItem, NetworkInfo, InfoError, homomorphic_hashing_disabled,
}

-- `check_user` accepts what `user.ID.ReadFromV2` reads; `uuid_version` is the version of a UUID, none
-- where its bytes are not 16.
pub record ContainerEnv : Type 0 where
  pub check_user : Bytes → Bool
  pub uuid_version : Bytes → Option ℕ
  pub sys_name : Bytes
  pub sys_zone : Bytes
  pub sys_hashing : Bytes
  pub sys_name_set : sys_name ≢ []
  pub sys_zone_set : sys_zone ≢ []
  pub sys_hashing_set : sys_hashing ≢ []
  pub sys_name_zone : sys_name ≢ sys_zone

pub record Attribute : Type 0 where
  pub key : Bytes
  pub value : Bytes

pub record Container : Type 0 where
  pub version : Option ℕ
  pub owner : Option Bytes
  pub nonce : Bytes
  pub basic_acl : ℕ
  pub attributes : List Attribute
  pub policy : Option PlacementPolicy

pub data ContainerError : Type 0 where
  missing_owner invalid_owner missing_nonce invalid_nonce invalid_nonce_version missing_version
        missing_policy invalid_policy empty_key empty_value duplicated_key invalid_timestamp
        network_panic :
      ContainerError

abbrev pub name_key : Bytes
name_key = codes "Name"

abbrev pub timestamp_key : Bytes
timestamp_key = codes "Timestamp"

-- The loop of `SetAttribute`.
pub set_in : Bytes → Bytes → List Attribute → List Attribute
set_in key value [] = record { key = key; value = value } ∷ []
set_in key value (a ∷ as') =
    let rest = set_in key value as' in
    if bytes_eq a.key key then record a { value = value } ∷ as' else a ∷ rest

-- `SetAttribute`, whose errors are its panics.
pub set_attribute : Container → Bytes → Bytes → Result ContainerError Container
unfolding set_in
set_attribute x [] value = err empty_key
set_attribute x (k ∷ ks) [] = err empty_value
set_attribute x (k ∷ ks) (v ∷ vs) =
    ok (record x { attributes = set_in (k ∷ ks) (v ∷ vs) x.attributes })

pub find_in : Bytes → List Attribute → Bytes
find_in key [] = []
find_in key (a ∷ as') = let rest = find_in key as' in if bytes_eq a.key key then a.value else rest

-- `Attribute`
pub attribute : Container → Bytes → Bytes
unfolding find_in
attribute x key = find_in key x.attributes

pub set_name : Container → Bytes → Result ContainerError Container
set_name x name = set_attribute x name_key name

pub name : Container → Bytes
name x = attribute x name_key

pub record Domain : Type 0 where
  pub name : Bytes
  pub zone : Bytes

-- `Domain.Zone`
pub zone_of : Domain → Bytes
zone_of d = if length d.zone == 0 then codes "container" else d.zone

-- `strconv.ParseInt(val, 10, 64)` returns no error.
pub is_int64 : Bytes → Bool
is_int64 [] = false
is_int64 (c ∷ cs) =
    if c == b'-'
    then elim (parse_codes cs) [ none ↦ false | some n ↦ leb n (2 ^ 63) ]
    else (if c == b'+'
        then elim (parse_codes cs) [ none ↦ false | some n ↦ ltb n (2 ^ 63) ]
        else elim (parse_codes (c ∷ cs)) [ none ↦ false | some n ↦ ltb n (2 ^ 63) ])

pub any_key : Bytes → List Bytes → Bool
any_key key [] = false
any_key key (k ∷ ks) = let rest = any_key key ks in if bytes_eq k key then true else rest

-- The loop of `readFromV2` over the attributes, with the keys met so far.
pub check_attributes : List Bytes → List Attribute → Result ContainerError ℕ
unfolding any_key is_int64
check_attributes keys [] = ok 0
check_attributes keys (a ∷ as') =
    let rest = check_attributes (a.key ∷ keys) as' in
    if not (length a.key == 0)
    then (if not (any_key a.key keys)
        then (if not (length a.value == 0)
            then (if not (bytes_eq timestamp_key a.key) || is_int64 a.value
                then rest
                else err invalid_timestamp)
            else err empty_value)
        else err duplicated_key)
    else err empty_key

-- `checkFieldPresence` of a field that is a pointer.
pub present : {A : Type 0} → ContainerError → Bool → Option A → Result ContainerError ℕ
present e true none = err e
present e false none = ok 0
present e check (some a) = ok 0

pub check_uuid : Option ℕ → Result ContainerError ℕ
check_uuid none = err invalid_nonce
check_uuid (some v) = if v == 4 then ok 0 else err invalid_nonce_version

module _ (env : ContainerEnv) where
  -- `WriteDomain`
  pub write_domain : Container → Domain → Result ContainerError Container
  unfolding set_attribute zone_of
  write_domain x d = do
    x1 ← set_attribute x env.sys_name d.name
    set_attribute x1 env.sys_zone (zone_of d)

  -- `ReadDomain`
  pub read_domain : Container → Domain
  unfolding attribute
  read_domain x =
      if length (attribute x env.sys_name) == 0
      then record { name = []; zone = [] }
      else record { name = attribute x env.sys_name; zone = attribute x env.sys_zone }

  pub disable_homomorphic_hashing : Container → Result ContainerError Container
  disable_homomorphic_hashing x = set_attribute x env.sys_hashing (codes "true")

  pub is_homomorphic_hashing_disabled : Container → Bool
  is_homomorphic_hashing_disabled x = bytes_eq (attribute x env.sys_hashing) (codes "true")

  -- `ApplyNetworkConfig`, where the getter's panic ends it.
  pub apply_network_config : StackItem → Container → NetworkInfo → Result ContainerError Container
  unfolding disable_homomorphic_hashing
  apply_network_config item x cfg = elim (homomorphic_hashing_disabled item cfg) [
    | err e ↦ err network_panic
    | ok true ↦ disable_homomorphic_hashing x
    | ok false ↦ ok x
  ]

  -- `AssertNetworkConfig`
  pub assert_network_config : StackItem → Container → NetworkInfo → Result ContainerError Bool
  unfolding is_homomorphic_hashing_disabled
  assert_network_config item x cfg = elim (homomorphic_hashing_disabled item cfg) [
    | err e ↦ err network_panic
    | ok b ↦ ok (if is_homomorphic_hashing_disabled x then b else not b)
  ]

  pub check_owner : Bool → Option Bytes → Result ContainerError ℕ
  check_owner true none = err missing_owner
  check_owner false none = ok 0
  check_owner check (some o) = if env.check_user o then ok 0 else err invalid_owner

  -- Of the nonce: a UUID of version 4.
  pub check_nonce : Bool → Bytes → Result ContainerError ℕ
  unfolding check_uuid
  check_nonce true [] = err missing_nonce
  check_nonce false [] = ok 0
  check_nonce check (b ∷ bs) = check_uuid (env.uuid_version (b ∷ bs))

  -- `policy.ReadFromV2`, which asks for replicas (netmap/policy.go).
  pub check_policy : Bool → Option PlacementPolicy → Result ContainerError ℕ
  check_policy true none = err missing_policy
  check_policy false none = ok 0
  check_policy check (some p) = if not (length p.replicas == 0) then ok 0 else err invalid_policy

  -- `readFromV2`, which keeps the message.
  pub read_from_v2 : Container → Bool → Result ContainerError Container
  unfolding check_owner check_nonce present check_policy check_attributes
  read_from_v2 m check = do
    o ← check_owner check m.owner
    n ← check_nonce check m.nonce
    v ← present missing_version check m.version
    p ← check_policy check m.policy
    a ← check_attributes [] m.attributes
    ok m
