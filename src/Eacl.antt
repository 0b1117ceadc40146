-- ===== src/Eacl.antt =====
-- The extended ACL of a container, package eacl: the enumerations (enums.go), filters with their
-- reserved keys (filter.go), targets (target.go), records (record.go), tables (table.go), the unit of
-- a check (types.go) and the validator (child `Eacl/Validator`). Proofs: `Validator/Match` for the filters and
-- targets, `Validator/Decision` for the decision, `Eacl/Keys` for reserved keys, `Eacl/Equal` for the
-- comparison of tables.
pub mod Validator
pub mod Equal
pub mod Keys
pub mod Message
pub mod Tests
use neofs_sdk_go.Prelude.{
  ℕ, zero, suc, ◌+◌, String, Bool, true, false, not, ◌&&◌, Option, none, some, List, [], ◌∷◌, ◌++◌,
  ◌==◌, str_eq, if◌then◌else◌, length, Eq,
}
use neofs_sdk_go.Prelude.Int.{ℤ, pos, negsuc, sub_ℕ}
use neofs_sdk_go.Prelude.Bytes.{Bytes, bytes_eq}
use neofs_sdk_go.Version.{Version}
use neofs_sdk_go.Version

-- Numbered by iota, as in enums.go; any other uint32 may come from a message.
abbrev pub Action : Type 0
Action = ℕ

abbrev pub action_unknown : Action
action_unknown = 0

abbrev pub action_allow : Action
action_allow = 1

abbrev pub action_deny : Action
action_deny = 2

abbrev pub Operation : Type 0
Operation = ℕ

abbrev pub operation_unknown : Operation
operation_unknown = 0

abbrev pub operation_get : Operation
operation_get = 1

abbrev pub operation_head : Operation
operation_head = 2

abbrev pub operation_put : Operation
operation_put = 3

abbrev pub operation_delete : Operation
operation_delete = 4

abbrev pub operation_search : Operation
operation_search = 5

abbrev pub operation_range : Operation
operation_range = 6

abbrev pub operation_range_hash : Operation
operation_range_hash = 7

abbrev pub Role : Type 0
Role = ℕ

abbrev pub role_unknown : Role
role_unknown = 0

abbrev pub role_user : Role
role_user = 1

abbrev pub role_system : Role
role_system = 2

abbrev pub role_others : Role
role_others = 3

-- `type Match uint32`
abbrev pub MatchType : Type 0
MatchType = ℕ

abbrev pub match_unknown : MatchType
match_unknown = 0

abbrev pub match_string_equal : MatchType
match_string_equal = 1

abbrev pub match_string_not_equal : MatchType
match_string_not_equal = 2

abbrev pub FilterHeaderType : Type 0
FilterHeaderType = ℕ

abbrev pub header_type_unknown : FilterHeaderType
header_type_unknown = 0

abbrev pub header_from_request : FilterHeaderType
header_from_request = 1

abbrev pub header_from_object : FilterHeaderType
header_from_object = 2

abbrev pub header_from_service : FilterHeaderType
header_from_service = 3

-- The names of the reserved keys, constants of the API package v2/acl.
pub record FilterNames : Type 0 where
  pub object_version : String
  pub object_id : String
  pub object_container_id : String
  pub object_owner_id : String
  pub object_creation_epoch : String
  pub object_payload_length : String
  pub object_payload_hash : String
  pub object_type : String
  pub object_homomorphic_hash : String

-- `filterKeyType`; `plain` is its zero, the default branch of the switches.
pub data FilterKeyType : Type 0 where
  plain obj_version obj_id obj_container_id obj_owner_id obj_creation_epoch obj_payload_length
        obj_payload_hash obj_type obj_homomorphic_hash :
      FilterKeyType

pub record FilterKey : Type 0 where
  pub typ : FilterKeyType
  pub str : String

-- `stringEncoder` has one method, so a value of it is the text that the method returns.
pub record Filter : Type 0 where
  pub from : FilterHeaderType
  pub matcher : MatchType
  pub key : FilterKey
  pub value : String

pub record Target : Type 0 where
  pub role : Role
  pub keys : List Bytes

pub record Record : Type 0 where
  pub action : Action
  pub operation : Operation
  pub filters : List Filter
  pub targets : List Target

-- `cid` is the 32 bytes of a container ID, nil where it is not set.
pub record Table : Type 0 where
  pub version : Version
  pub cid : Option Bytes
  pub records : List Record

module _ (names : FilterNames) where
  open names use {
    object_version, object_id, object_container_id, object_owner_id, object_creation_epoch,
    object_payload_length, object_payload_hash, object_type, object_homomorphic_hash,
  }

  key_text : FilterKeyType → String → String
  key_text plain str = str
  key_text obj_version str = object_version
  key_text obj_id str = object_id
  key_text obj_container_id str = object_container_id
  key_text obj_owner_id str = object_owner_id
  key_text obj_creation_epoch str = object_creation_epoch
  key_text obj_payload_length str = object_payload_length
  key_text obj_payload_hash str = object_payload_hash
  key_text obj_type str = object_type
  key_text obj_homomorphic_hash str = object_homomorphic_hash

  -- `filterKey.String`
  pub key_string : FilterKey → String
  unfolding key_text
  key_string k = key_text k.typ k.str

  -- `filterKey.fromString`
  pub key_from_string : String → FilterKey
  key_from_string s =
      if str_eq s object_version
      then record { typ = obj_version; str = "" }
      else if str_eq s object_id
      then record { typ = obj_id; str = "" }
      else if str_eq s object_container_id
      then record { typ = obj_container_id; str = "" }
      else if str_eq s object_owner_id
      then record { typ = obj_owner_id; str = "" }
      else if str_eq s object_creation_epoch
      then record { typ = obj_creation_epoch; str = "" }
      else if str_eq s object_payload_length
      then record { typ = obj_payload_length; str = "" }
      else if str_eq s object_payload_hash
      then record { typ = obj_payload_hash; str = "" }
      else if str_eq s object_type
      then record { typ = obj_type; str = "" }
      else if str_eq s object_homomorphic_hash
      then record { typ = obj_homomorphic_hash; str = "" }
      else record { typ = plain; str = s }

-- `Record.addFilter` and the two methods of record.go that go by it with a plain key.
pub add_filter : Record → FilterHeaderType → MatchType → FilterKeyType → String → String → Record
add_filter r from m key_typ key val = record r {
  filters =
      r.filters
      ++ record { from = from; matcher = m; key = record { typ = key_typ; str = key }; value = val }
        ∷ [];
}

pub add_plain_filter : Record → FilterHeaderType → MatchType → String → String → Record
unfolding add_filter
add_plain_filter r from matcher name value = add_filter r from matcher plain name value

pub add_object_reserved_filter : Record → MatchType → FilterKeyType → String → Record
unfolding add_filter
add_object_reserved_filter r m typ val = add_filter r header_from_object m typ "" val

-- `AddRecordTarget`
pub add_record_target : Record → Target → Record
add_record_target r t = record r { targets = r.targets ++ t ∷ [] }

-- `CreateRecord`
pub create_record : Action → Operation → Record
create_record action operation = record {
  action = action;
  operation = operation;
  filters = [];
  targets = [];
}

-- `Table.AddRecord`; a nil record changes nothing.
pub add_record : Table → Option Record → Table
add_record t none = t
add_record t (some r) = record t { records = t.records ++ r ∷ [] }

-- `NewTable`, `Table.SetCID` and `CreateTable`.
pub new_table : Table
new_table = record { version = Version.current; cid = none; records = [] }

pub set_cid : Table → Bytes → Table
set_cid t cid = record t { cid = some cid }

pub create_table : Bytes → Table
unfolding new_table set_cid
create_table cid = set_cid new_table cid
