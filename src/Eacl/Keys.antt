-- ===== src/Eacl/Keys.antt =====
-- Reserved filter keys (`filterKey` of eacl/filter.go) as text.
use neofs_sdk_go.Prelude.{String, ◌≡◌, arith, eq_iff}
use neofs_sdk_go.Eacl.{FilterNames, key_string, key_from_string}

module _ (names : FilterNames) where
  open names use {
    object_version, object_id, object_container_id, object_owner_id, object_creation_epoch,
    object_payload_length, object_payload_hash, object_type, object_homomorphic_hash,
  }

  -- Whatever text a key is read from, it is written back as that text.
  pub key_string-key_from_string : (s : String) → key_string names (key_from_string names s) ≡ s
  unfolding key_string key_from_string
  key_string-key_from_string s = ground (
    arith,
    eq_iff s object_version,
    eq_iff s object_id,
    eq_iff s object_container_id,
    eq_iff s object_owner_id,
    eq_iff s object_creation_epoch,
    eq_iff s object_payload_length,
    eq_iff s object_payload_hash,
    eq_iff s object_type,
    eq_iff s object_homomorphic_hash,
  )
