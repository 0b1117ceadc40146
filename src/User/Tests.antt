-- ===== src/User/Tests.antt =====
-- The theorem on user/id.go with a checksum of four zeros and texts that are the bytes themselves, of which
-- the empty one is refused, at an ID of 30 bytes, which DecodeString accepts.
use neofs_sdk_go.Prelude.{
  ◌≢◌, none, Option, ℕ, zero, suc, ◌≤◌, ◌≡◌, ◌↔◌, refl, some, [], ◌∷◌, length, take, ◌++◌,
}
use neofs_sdk_go.Prelude.Bytes.{Bytes}
use neofs_sdk_go.Prelude.Result.{err, ◌>>=◌, Succeeds}
use neofs_sdk_go.User.{
  WalletEnv, invalid_length, read_id, set_script_hash, encode_to_string, decode_string,
}
use neofs_sdk_go.User.Wallet.{set_script_hash_lem}

abbrev zeros : ℕ → Bytes
zeros zero = []
zeros (suc n) = 0 ∷ zeros n

abbrev some_bytes : Bytes → Option Bytes
some_bytes [] = none
some_bytes (b ∷ bs) = some (b ∷ bs)

decode-bytes : (bs : Bytes) → bs ≢ [] → some_bytes bs ≡ some bs
decode-bytes [] n = absurd (n refl)
decode-bytes (b ∷ bs) n = refl

abbrev an_env : WalletEnv
an_env = record {
  neo3_prefix = 53;
  prefix = 53;
  checksum = λ bs. zeros 4;
  encode = λ bs. bs;
  decode = some_bytes;
  length-checksum = λ bs. refl;
  decode-encode = decode-bytes;
  decode-empty = refl;
}

abbrev an_id : Bytes
an_id = zeros 30

abbrev a_hash : Bytes
a_hash = zeros 20

hash_in_long_id : read_id an_env (set_script_hash an_env an_id a_hash) ≡ err invalid_length
unfolding read_id set_script_hash
hash_in_long_id = refl

hash_in_zero_id : Succeeds (read_id an_env (set_script_hash an_env [] a_hash))
unfolding read_id set_script_hash
hash_in_zero_id = (53 ∷ a_hash ++ zeros 4, refl)

set_script_hash_lem_example :
    (Succeeds (read_id an_env (set_script_hash an_env an_id a_hash))
      ↔ (length an_id ≤ 25) × (an_env.prefix ≡ an_env.neo3_prefix))
    × (take 21 (set_script_hash an_env an_id a_hash) ≡ an_env.prefix ∷ a_hash)
    × (Succeeds (
          decode_string an_env (encode_to_string an_env (set_script_hash an_env an_id a_hash))
          >>= read_id an_env)
        ↔ (length an_id ≤ 25) × (an_env.prefix ≡ an_env.neo3_prefix))
set_script_hash_lem_example = set_script_hash_lem an_env an_id a_hash refl
