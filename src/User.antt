-- ===== src/User.antt =====
-- The ID of a user: user/id.go. Checksums and Base58 are those of third parties, which are parameters; a
-- text is its bytes.
pub mod Wallet
mod Tests
use neofs_sdk_go.Prelude.{
  ℕ, ◌+◌, ◌≡◌, ◌≢◌, Bool, Option, none, some, List, [], ◌∷◌, ◌++◌, ltb, ◌==◌, if◌then◌else◌, length,
  take, drop,
}
use neofs_sdk_go.Prelude.Bytes.{Bytes, bytes_eq}
use neofs_sdk_go.Prelude.Result.{Result, ok, err}

-- `address.NEO3Prefix`, the variable `address.Prefix`, `hash.Checksum` of four bytes, and the
-- encoding in Base58, which its decoding inverts but for no bytes at all, whose empty text it refuses.
pub record WalletEnv : Type 0 where
  pub neo3_prefix : ℕ
  pub prefix : ℕ
  pub checksum : Bytes → Bytes
  pub encode : Bytes → Bytes
  pub decode : Bytes → Option Bytes
  pub length-checksum : (bs : Bytes) → length (checksum bs) ≡ 4
  pub decode-encode : (bs : Bytes) → bs ≢ [] → decode (encode bs) ≡ some bs
  pub decode-empty : decode (encode []) ≡ none

pub data IdError : Type 0 where
  invalid_length invalid_prefix checksum_mismatch invalid_base58 : IdError

module _ (env : WalletEnv) where
  -- `ReadFromV2`, which gives the new bytes of the ID.
  pub read_id : Bytes → Result IdError Bytes
  read_id [] = err invalid_length
  read_id (b ∷ bs) =
      if length (b ∷ bs) == 25
      then (if b == env.neo3_prefix
          then (if bytes_eq (drop 21 (b ∷ bs)) (env.checksum (take 21 (b ∷ bs)))
              then ok (b ∷ bs)
              else err checksum_mismatch)
          else err invalid_prefix)
      else err invalid_length

  -- `SetScriptHash` of an ID's bytes: all of the first 25 are written, and any more stay.
  pub set_script_hash : Bytes → Bytes → Bytes
  set_script_hash w script_hash =
      let body = env.prefix ∷ script_hash in body ++ (env.checksum body ++ drop 25 w)

  pub encode_to_string : Bytes → Bytes
  encode_to_string w = env.encode w

  -- `DecodeString`, which gives the new bytes of the ID.
  pub decode_string : Bytes → Result IdError Bytes
  decode_string s = elim (env.decode s) [ none ↦ err invalid_base58 | some w ↦ ok w ]

pub equals : Bytes → Bytes → Bool
equals w w2 = bytes_eq w w2
