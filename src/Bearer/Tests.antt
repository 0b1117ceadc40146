-- ===== src/Bearer/Tests.antt =====
-- The theorems on bearer/bearer.go at a token for one user with access rules.
use neofs_sdk_go.Prelude.{
  ℕ, zero, suc, ◌≡◌, refl, Bool, true, false, none, some, [], ◌∷◌, ◌==◌, length,
}
use neofs_sdk_go.Prelude.Bytes.{Bytes}
use neofs_sdk_go.Prelude.Result.{ok}
use neofs_sdk_go.Eacl.{FilterNames, obj_type}
use neofs_sdk_go.Bearer.{Token, read_from_v2, write_to_v2}
use neofs_sdk_go.Bearer.Reading.{SaysSame, read_from_v2-write_to_v2}

-- Users of two bytes.
abbrev two_bytes : Bytes → Bool
two_bytes u = length u == 2

abbrev zero_token : Token
zero_token = record {
  target_user_set = false;
  target_user = [];
  eacl_table_set = false;
  eacl_table = record { version = record { major = 0; minor = 0 }; cid = none; records = [] };
  lifetime_set = false;
  iat = 0;
  nbf = 0;
  exp = 0;
  sig_set = false;
  sig = [];
}

abbrev user_token : Token
user_token = record zero_token {
  target_user_set = true;
  target_user = 7 ∷ 8 ∷ [];
  lifetime_set = true;
  iat = 2;
  nbf = 3;
  exp = 9;
}

abbrev test_names : FilterNames
test_names = record {
  object_version = "$Object:version";
  object_id = "$Object:objectID";
  object_container_id = "$Object:containerID";
  object_owner_id = "$Object:ownerID";
  object_creation_epoch = "$Object:creationEpoch";
  object_payload_length = "$Object:payloadLength";
  object_payload_hash = "$Object:payloadHash";
  object_type = "$Object:objectType";
  object_homomorphic_hash = "$Object:homomorphicHash";
}

abbrev sevens : ℕ → Bytes
sevens zero = []
sevens (suc n) = 7 ∷ sevens n

-- One record with an unnamed operation, for others, on the object's type.
abbrev rules_token : Token
rules_token = record user_token {
  eacl_table_set = true;
  eacl_table = record {
    version = record { major = 2; minor = 13 };
    cid = some (sevens 32);
    records =
        record {
          action = 2;
          operation = 9;
          filters =
              record {
                from = 2;
                matcher = 1;
                key = record { typ = obj_type; str = "" };
                value = "LOCK";
              }
              ∷ [];
          targets = record { role = 3; keys = [] } ∷ [];
        }
        ∷ [];
  };
}

read_from_v2-write_to_v2_example :
    (r : Token) × (read_from_v2 test_names two_bytes zero_token
        (write_to_v2 test_names rules_token)
        false
      ≡ ok r)
    × SaysSame test_names r rules_token
read_from_v2-write_to_v2_example =
    read_from_v2-write_to_v2 test_names two_bytes zero_token rules_token (λ e. refl) refl
