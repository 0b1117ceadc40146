-- ===== src/Client/Search.antt =====
-- The reader of search results: `ObjectListReader` of client/object_search.go. An ID of a message is its
-- bytes; one that has not 32 of them leaves the place in the buffer as it was. The context and the
-- statistics are left out.
pub mod Visits
use neofs_sdk_go.Prelude.{
  ℕ, zero, suc, ◌-◌, Bool, true, false, Option, none, some, List, [], ◌∷◌, ◌==◌, length,
  if◌then◌else◌,
}
use neofs_sdk_go.Prelude.Bytes.{Bytes}
use neofs_sdk_go.Prelude.Result.{Result, ok, err}
use neofs_sdk_go.Client.Stream.{
  ReadError, eof, unexpected_eof, size_overflow, unexpected_message, stream_failed, bad_response,
  split_info, Source, Filled, read_chunk,
}

-- `GetIDList` of a response.
abbrev pub id_list : List Bytes → Result ReadError (List Bytes)
id_list ids = ok ids

-- `dst[i].ReadFromV2(src[i])`, its error ignored.
pub read_id : Bytes → Bytes → Bytes
read_id dst src = if length src == 32 then src else dst

-- `copyIDBuffers`
pub copy_id_buffers : List Bytes → List Bytes → List Bytes
unfolding read_id
copy_id_buffers [] src = []
copy_id_buffers (d ∷ dst) [] = d ∷ dst
copy_id_buffers (d ∷ dst) (s ∷ src) = read_id d s ∷ copy_id_buffers dst src

pub record ListResult : Type 0 where
  pub reader : Source Bytes (List Bytes)
  pub buf : List Bytes
  pub count : ℕ
  pub full : Bool

-- `Read`, which panics on an empty buffer (none).
pub read : Source Bytes (List Bytes) → List Bytes → Option ListResult
unfolding copy_id_buffers
read x [] = none
read x (b ∷ buf) =
    let f = read_chunk id_list x (length (b ∷ buf)) in
    some (record {
      reader = f.source;
      buf = copy_id_buffers (b ∷ buf) f.got;
      count = length f.got;
      full = f.full;
    })

-- `Close` as the error that it returns.
pub close_cause : Option ReadError → Option ReadError
close_cause none = none
close_cause (some eof) = none
close_cause (some unexpected_eof) = some unexpected_eof
close_cause (some size_overflow) = some size_overflow
close_cause (some unexpected_message) = some unexpected_message
close_cause (some (stream_failed n)) = some (stream_failed n)
close_cause (some (bad_response n)) = some (bad_response n)
close_cause (some (split_info n)) = some (split_info n)

-- `buf[0]`
abbrev pub first : List Bytes → Bytes
first [] = []
first (b ∷ bs) = b

abbrev pub visit :
    Bytes → Option (List Bytes × Option ReadError) → Option (List Bytes × Option ReadError)
visit id none = none
visit id (some (ids, e)) = some (id ∷ ids, e)

-- The loop of `Iterate` on fuel, with the IDs that are handed to `f`; `some` with its result.
pub iterate :
    (Bytes → Bool)
    → ℕ
    → List Bytes
    → Source Bytes (List Bytes)
    → Option (List Bytes × Option ReadError)
unfolding read close_cause
iterate f zero buf x = none
iterate f (suc fuel) buf x = elim (read x buf) [
  | none ↦ none
  | some r ↦
      let rest = iterate f fuel r.buf r.reader in
      if r.full
      then if f (first r.buf) then some (first r.buf ∷ [], none) else visit (first r.buf) rest
      else some ([], close_cause r.reader.cause)
]
