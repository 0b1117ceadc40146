-- ===== src/Client/Put.antt =====
-- The writer of an object's payload: `DefaultObjectWriter` of client/object_put.go. What is outside is a
-- record: the signer, which may refuse a message, and the stream, which may fail on any message after any
-- history. The header of the object, the context and the statistics are left out.
pub mod Pieces
use neofs_sdk_go.Prelude.{
  ℕ, zero, suc, ◌+◌, Bool, true, false, Option, none, some, List, [], ◌∷◌, ◌++◌, length, take, drop,
  ltb, ◌==◌, if◌then◌else◌,
}
use neofs_sdk_go.Prelude.Bytes.{Bytes}

pub data WriteError : Type 0 where
  eof missing_id : WriteError
  sign_message : ℕ → WriteError
  stream_failed : ℕ → WriteError
  bad_response : ℕ → WriteError
  invalid_id : ℕ → WriteError

-- What each call on a chunk gives, by the chunks that the stream took before: nil is none.
pub record PutEnv : Type 0 where
  pub sign : List Bytes → Bytes → Option ℕ
  pub stream_write : List Bytes → Bytes → Option WriteError

-- `sent` are the chunks that the stream took; `res` is the ID of the result.
pub record ObjectWriter : Type 0 where
  pub sent : List Bytes
  pub cause : Option WriteError
  pub res : Option Bytes

pub record Written : Type 0 where
  pub writer : ObjectWriter
  pub count : ℕ
  pub error : Option WriteError

abbrev pub max_chunk_len : ℕ
max_chunk_len = 3145728

-- One round of the loop on the bytes of one message: the error, or the writer.
pub send_chunk : PutEnv → ObjectWriter → Bytes → ObjectWriter
send_chunk env x chunk = elim (env.sign x.sent chunk) [
  | some n ↦ record x { cause = some (sign_message n) }
  | none ↦ elim (env.stream_write x.sent chunk) [
    | some e ↦ record x { cause = some e }
    | none ↦ record x { sent = x.sent ++ chunk ∷ []; cause = none }
  ]
]

-- The loop of `Write` on fuel, `written` bytes being written before.
pub write_loop : PutEnv → ℕ → ObjectWriter → Bytes → ℕ → Option Written
unfolding send_chunk
write_loop env zero x chunk written = none
write_loop env (suc fuel) x [] written = some (record { writer = x; count = written; error = none })
write_loop env (suc fuel) x (b ∷ bs) written =
    let chunk : Bytes = b ∷ bs in
    let ln = if ltb max_chunk_len (length chunk) then max_chunk_len else length chunk in
    let x' = send_chunk env x (take ln chunk) in
    let rest = write_loop env fuel x' (drop ln chunk) (written + length (take ln chunk)) in
    elim x'.cause [
      | some e ↦ some (record { writer = x'; count = written; error = some e })
      | none ↦ rest
    ]

-- `Write` with one more round than the chunk has bytes.
pub write : PutEnv → ObjectWriter → Bytes → Option Written
unfolding write_loop
write env x chunk = write_loop env (suc (length chunk)) x chunk 0

-- What closing the stream gives: its error, that of `processResponse`, and the ID in the response.
pub record Reply : Type 0 where
  pub close_error : Option WriteError
  pub response_error : Option WriteError
  pub id : Option Bytes

abbrev pub is_failure : Option WriteError → Bool
is_failure none = false
is_failure (some eof) = false
is_failure (some missing_id) = true
is_failure (some (sign_message n)) = true
is_failure (some (stream_failed n)) = true
is_failure (some (bad_response n)) = true
is_failure (some (invalid_id n)) = true

abbrev pub read_result : ObjectWriter → Option Bytes → ObjectWriter × Option WriteError
read_result x none = (record x { cause = none }, some missing_id)
read_result x (some id) =
    if length id == 32
    then (record x { cause = none; res = some id }, none)
    else (record x { cause = some (invalid_id (length id)) }, none)

abbrev pub check_response :
    ObjectWriter → Reply → Option WriteError → ObjectWriter × Option WriteError
check_response x r none = read_result x r.id
check_response x r (some e) = (record x { cause = some e }, some e)

abbrev pub close_stream :
    ObjectWriter → Reply → Option WriteError → ObjectWriter × Option WriteError
close_stream x r none = check_response x r r.response_error
close_stream x r (some e) = (record x { cause = some e }, some e)

-- `Close`: the writer and the error that is returned.
pub close : ObjectWriter → Reply → ObjectWriter × Option WriteError
close x r = if is_failure x.cause then (x, x.cause) else close_stream x r r.close_error
