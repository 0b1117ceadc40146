-- ===== src/Eacl/Tests.antt =====
-- The theorems on package eacl at a table of two records.
use neofs_sdk_go.Prelude.{◌≡◌, ◌⊎◌, ◌↔◌, true, false, Option, none, some, List, [], ◌∷◌, All}
use neofs_sdk_go.Prelude.Bytes.{Bytes}
use neofs_sdk_go.Eacl.{
  FilterNames, plain, Filter, Record, Table, action_allow, action_deny, operation_get,
  operation_put, role_others, role_user, match_string_equal, header_from_object, FilterHeaderType,
  add_record,
}
use neofs_sdk_go.Eacl.Validator.{Header, ValidationUnit, calculate_action}
use neofs_sdk_go.Eacl.Validator.Decision.{
  Skips, Fires, Blocks, FirstIs, calculate_action_matched, calculate_action_unmatched,
}
use neofs_sdk_go.Eacl.Equal.{equal_tables, table_view, equal_tables_iff}

abbrev test_names : FilterNames
test_names = record {
  object_version = "$Object:version";
  object_id = "$Object:objectID";
  object_container_id = "$Object:containerID";
  object_owner_id = "$Object:ownerID";
  object_creation_epoch = "$Object:creationEpoch";
  object_payload_length = "$Object:payloadLength";
  object_payload_hash = "$Object:payloadHash";
  object_type = "$Object:objectType";
  object_homomorphic_hash = "$Object:homomorphicHash";
}

abbrev user_key : Bytes
user_key = 3 ∷ 4 ∷ []

abbrev color_filter : Filter
color_filter = record {
  from = header_from_object;
  matcher = match_string_equal;
  key = record { typ = plain; str = "color" };
  value = "red";
}

abbrev deny_red : Record
deny_red = record {
  action = action_deny;
  operation = operation_get;
  filters = color_filter ∷ [];
  targets =
      record { role = role_others; keys = [] }
      ∷ record { role = role_user; keys = user_key ∷ [] }
      ∷ [];
}

abbrev allow_puts : Record
allow_puts = record {
  action = action_allow;
  operation = operation_put;
  filters = [];
  targets = record { role = role_others; keys = [] } ∷ [];
}

abbrev test_table : Table
test_table = record {
  version = record { major = 2; minor = 13 };
  cid = none;
  records = allow_puts ∷ deny_red ∷ [];
}

abbrev object_headers : FilterHeaderType → Option (List (Option Header))
object_headers t = some (none ∷ some (record { key = "color"; value = "red" }) ∷ [])

abbrev no_headers : FilterHeaderType → Option (List (Option Header))
no_headers t = none

abbrev test_unit : ValidationUnit
test_unit = record {
  role = role_others;
  op = operation_get;
  hdr_src = object_headers;
  key = [];
  table = test_table;
}

calculate_action_matched_example :
    (calculate_action test_names test_unit ≡ (action_deny, true))
    ↔ FirstIs test_names test_unit
        (λ r. Fires test_names test_unit r × (r.action ≡ action_deny))
        test_table.records
calculate_action_matched_example = calculate_action_matched test_names test_unit action_deny

calculate_action_unmatched_example :
    (((calculate_action test_names test_unit).1 ≡ false) ↔ (
      All (Skips test_names test_unit) test_table.records
      ⊎ FirstIs test_names test_unit (Blocks test_names test_unit) test_table.records))
    × ((calculate_action test_names test_unit).1 ≡ false
        → (calculate_action test_names test_unit).0 ≡ action_allow)
calculate_action_unmatched_example = calculate_action_unmatched test_names test_unit

equal_tables_iff_example :
    (equal_tables test_names test_table (add_record test_table none) ≡ true)
    ↔ (table_view test_names test_table ≡ table_view test_names (add_record test_table none))
equal_tables_iff_example = equal_tables_iff test_names test_table (add_record test_table none)
