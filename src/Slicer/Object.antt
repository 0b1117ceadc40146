-- ===== src/Slicer/Object.antt =====
-- The part of an object (object/object.go) that object/slicer/slicer.go sets, and what the slicer takes
-- from outside: hash functions, the ID and the signature of a header, the stream of objects.
use neofs_sdk_go.Prelude.{ℕ, Bool, Option, List}
use neofs_sdk_go.Prelude.Bytes.{Bytes}
use neofs_sdk_go.Prelude.Result.{Result}
use neofs_sdk_go.Version.{Version}

-- A session token, of which the slicer reads the issuer.
pub record SessionToken : Type 0 where
  pub issuer : Bytes
  pub rest : Bytes

-- The header with its split header; `parent` is the parent's ID.
pub record Header : Type 0 where
  pub version : Option Version
  pub container : Option Bytes
  pub owner : Option Bytes
  pub creation_epoch : ℕ
  pub session_token : Option SessionToken
  pub attributes : List (Bytes × Bytes)
  pub payload_checksum : Option Bytes
  pub homomorphic_hash : Option Bytes
  pub payload_size : ℕ
  pub split_id : Option Bytes
  pub previous : Option Bytes
  pub parent : Option Bytes
  pub children : List Bytes

-- What `SetParent` stores of the parent beside its ID.
pub record Parent : Type 0 where
  pub signature : Option Bytes
  pub header : Header

pub record Object : Type 0 where
  pub id : Option Bytes
  pub signature : Option Bytes
  pub header : Header
  pub parent_object : Option Parent

-- One object as the `ObjectWriter` got it: its header fields and its payload.
pub record Delivery : Type 0 where
  pub object : Object
  pub payload : Bytes

pub data Error : Type 0 where
  incomplete_container incomplete_owner : Error
  calculate_id_failed sign_failed : Error
  stream_init_failed stream_write_failed stream_close_failed : Error
  read_failed no_memory : Error
  out_of_fuel : Error

-- `(n, err)` of one `Read`: the bytes, and `io.EOF` or another error.
pub data ReadError : Type 0 where
  eof failed : ReadError

pub record ReadResult : Type 0 where
  pub bytes : Bytes
  pub error : Option ReadError

-- What is not the slicer's own: SHA-256, the homomorphic hash, `Object.CalculateID` (a hash of the
-- header's binary form and of its parent's), the signer, a fresh split ID, and the stream, which may
-- refuse an object after any history of accepted ones; and whether the runtime has the memory for a slice of
-- that many bytes.
pub record Env : Type 0 where
  pub sha256 : Bytes → Bytes
  pub tillich_zemor : Bytes → Bytes
  pub calculate_id : Header → Option Parent → Result Error Bytes
  pub sign : Bytes → Result Error Bytes
  pub split_id : Bytes
  pub refuses : List Delivery → Object → Bytes → Option Error
  pub allocates : ℕ → Bool
