-- ===== src/Eacl/Message.antt =====
-- Tables in messages: the enumerations (eacl/enums.go), filters (filter.go), targets (target.go), records
-- (record.go) and tables (table.go) to and from the messages of the API package. A message is taken by
-- what its getters return; a value of an enumeration there is one of the constants that the switches name,
-- which differ, or another number.
pub mod Kept
use neofs_sdk_go.Prelude.{
  ℕ, zero, suc, String, Option, none, some, List, [], ◌∷◌, map, ◌++◌, ◌==◌, if◌then◌else◌, take,
}
use neofs_sdk_go.Prelude.Bytes.{Bytes}
use neofs_sdk_go.Version.{Version}
use neofs_sdk_go.Eacl.{
  FilterNames, Filter, Target, Record, Table, Operation, Action, Role, MatchType, FilterHeaderType,
  key_string, key_from_string, action_allow, action_deny, action_unknown, operation_get,
  operation_head, operation_put, operation_delete, operation_search, operation_range,
  operation_range_hash, operation_unknown, role_user, role_system, role_others, role_unknown,
  match_string_equal, match_string_not_equal, match_unknown, header_from_request,
  header_from_object, header_from_service, header_type_unknown,
}

pub data V2Action : Type 0 where
  v2_action_unknown v2_action_allow v2_action_deny : V2Action
  v2_action_other : ℕ → V2Action

pub data V2Operation : Type 0 where
  v2_operation_unknown v2_operation_get v2_operation_head v2_operation_put v2_operation_delete
        v2_operation_search v2_operation_range v2_operation_range_hash :
      V2Operation
  v2_operation_other : ℕ → V2Operation

pub data V2Role : Type 0 where
  v2_role_unknown v2_role_user v2_role_system v2_role_others : V2Role
  v2_role_other : ℕ → V2Role

pub data V2MatchType : Type 0 where
  v2_match_type_unknown v2_match_type_string_equal v2_match_type_string_not_equal : V2MatchType
  v2_match_type_other : ℕ → V2MatchType

pub data V2HeaderType : Type 0 where
  v2_header_type_unknown v2_header_type_request v2_header_type_object v2_header_type_service :
      V2HeaderType
  v2_header_type_other : ℕ → V2HeaderType

-- `Action.ToV2` and `ActionFromV2`
pub action_to_v2 : Action → V2Action
action_to_v2 a =
    if a == action_allow
    then v2_action_allow
    else if a == action_deny
    then v2_action_deny
    else v2_action_unknown

pub action_from_v2 : V2Action → Action
action_from_v2 v2_action_unknown = action_unknown
action_from_v2 v2_action_allow = action_allow
action_from_v2 v2_action_deny = action_deny
action_from_v2 (v2_action_other n) = action_unknown

-- `Operation.ToV2` and `OperationFromV2`
pub operation_to_v2 : Operation → V2Operation
operation_to_v2 o =
    if o == operation_get
    then v2_operation_get
    else if o == operation_head
    then v2_operation_head
    else if o == operation_put
    then v2_operation_put
    else if o == operation_delete
    then v2_operation_delete
    else if o == operation_search
    then v2_operation_search
    else if o == operation_range
    then v2_operation_range
    else if o == operation_range_hash
    then v2_operation_range_hash
    else v2_operation_unknown

pub operation_from_v2 : V2Operation → Operation
operation_from_v2 v2_operation_unknown = operation_unknown
operation_from_v2 v2_operation_get = operation_get
operation_from_v2 v2_operation_head = operation_head
operation_from_v2 v2_operation_put = operation_put
operation_from_v2 v2_operation_delete = operation_delete
operation_from_v2 v2_operation_search = operation_search
operation_from_v2 v2_operation_range = operation_range
operation_from_v2 v2_operation_range_hash = operation_range_hash
operation_from_v2 (v2_operation_other n) = operation_unknown

-- `Role.ToV2` and `RoleFromV2`
pub role_to_v2 : Role → V2Role
role_to_v2 r =
    if r == role_user
    then v2_role_user
    else if r == role_system
    then v2_role_system
    else if r == role_others
    then v2_role_others
    else v2_role_unknown

pub role_from_v2 : V2Role → Role
role_from_v2 v2_role_unknown = role_unknown
role_from_v2 v2_role_user = role_user
role_from_v2 v2_role_system = role_system
role_from_v2 v2_role_others = role_others
role_from_v2 (v2_role_other n) = role_unknown

-- `Match.ToV2` and `MatchFromV2`
pub match_to_v2 : MatchType → V2MatchType
match_to_v2 m =
    if m == match_string_equal
    then v2_match_type_string_equal
    else if m == match_string_not_equal
    then v2_match_type_string_not_equal
    else v2_match_type_unknown

pub match_from_v2 : V2MatchType → MatchType
match_from_v2 v2_match_type_unknown = match_unknown
match_from_v2 v2_match_type_string_equal = match_string_equal
match_from_v2 v2_match_type_string_not_equal = match_string_not_equal
match_from_v2 (v2_match_type_other n) = match_unknown

-- `FilterHeaderType.ToV2` and `FilterHeaderTypeFromV2`
pub header_type_to_v2 : FilterHeaderType → V2HeaderType
header_type_to_v2 h =
    if h == header_from_request
    then v2_header_type_request
    else if h == header_from_object
    then v2_header_type_object
    else if h == header_from_service
    then v2_header_type_service
    else v2_header_type_unknown

pub header_type_from_v2 : V2HeaderType → FilterHeaderType
header_type_from_v2 v2_header_type_unknown = header_type_unknown
header_type_from_v2 v2_header_type_request = header_from_request
header_type_from_v2 v2_header_type_object = header_from_object
header_type_from_v2 v2_header_type_service = header_from_service
header_type_from_v2 (v2_header_type_other n) = header_type_unknown

pub record V2Filter : Type 0 where
  pub value : String
  pub key : String
  pub match_type : V2MatchType
  pub header_type : V2HeaderType

pub record V2Target : Type 0 where
  pub role : V2Role
  pub keys : List Bytes

pub record V2Record : Type 0 where
  pub targets : List V2Target
  pub filters : List V2Filter
  pub action : V2Action
  pub operation : V2Operation

-- `container_id` is the value of the message's container ID, none where it has none.
pub record V2Table : Type 0 where
  pub container_id : Option Bytes
  pub records : List V2Record
  pub version : Option Version

-- `Target.ToV2` and `NewTargetFromV2`
pub target_to_v2 : Target → V2Target
unfolding role_to_v2
target_to_v2 t = record { role = role_to_v2 t.role; keys = t.keys }

pub target_from_v2 : V2Target → Target
unfolding role_from_v2
target_from_v2 t = record { role = role_from_v2 t.role; keys = t.keys }

abbrev pub zeros : ℕ → Bytes
zeros zero = []
zeros (suc n) = 0 ∷ zeros n

-- `copy(h[:], value)` into the zero array of 32 bytes.
pub copy_32 : Bytes → Bytes
copy_32 value = take 32 (value ++ zeros 32)

-- A table's container ID, and the version, the zero one where the message has none.
pub cid_from_v2 : Option Bytes → Option Bytes
unfolding copy_32
cid_from_v2 none = none
cid_from_v2 (some value) = some (copy_32 value)

pub version_from_v2 : Option Version → Version
version_from_v2 none = record { major = 0; minor = 0 }
version_from_v2 (some v) = record { major = v.major; minor = v.minor }

module _ (names : FilterNames) where
  -- `Filter.ToV2` and `NewFilterFromV2`
  pub filter_to_v2 : Filter → V2Filter
  unfolding key_string match_to_v2 header_type_to_v2
  filter_to_v2 f = record {
    value = f.value;
    key = key_string names f.key;
    match_type = match_to_v2 f.matcher;
    header_type = header_type_to_v2 f.from;
  }

  pub filter_from_v2 : V2Filter → Filter
  unfolding key_from_string match_from_v2 header_type_from_v2
  filter_from_v2 f = record {
    from = header_type_from_v2 f.header_type;
    matcher = match_from_v2 f.match_type;
    key = key_from_string names f.key;
    value = f.value;
  }

  -- `Record.ToV2` and `NewRecordFromV2`
  pub record_to_v2 : Record → V2Record
  unfolding target_to_v2 filter_to_v2 action_to_v2 operation_to_v2
  record_to_v2 r = record {
    targets = map target_to_v2 r.targets;
    filters = map filter_to_v2 r.filters;
    action = action_to_v2 r.action;
    operation = operation_to_v2 r.operation;
  }

  pub record_from_v2 : V2Record → Record
  unfolding target_from_v2 filter_from_v2 action_from_v2 operation_from_v2
  record_from_v2 r = record {
    action = action_from_v2 r.action;
    operation = operation_from_v2 r.operation;
    filters = map filter_from_v2 r.filters;
    targets = map target_from_v2 r.targets;
  }

  -- `Table.ToV2` and `NewTableFromV2`
  pub table_to_v2 : Table → V2Table
  unfolding record_to_v2
  table_to_v2 t = record {
    container_id = t.cid;
    records = map record_to_v2 t.records;
    version = some t.version;
  }

  pub table_from_v2 : V2Table → Table
  unfolding cid_from_v2 version_from_v2 record_from_v2
  table_from_v2 t = record {
    version = version_from_v2 t.version;
    cid = cid_from_v2 t.container_id;
    records = map record_from_v2 t.records;
  }
