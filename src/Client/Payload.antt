-- ===== src/Client/Payload.antt =====
-- Readers of an object's payload and of a range of it: client/object_get.go. Go's int is the number of its
-- 64 bits. The callback of the statistics and the cancelling of the stream are left out.
pub mod Drain
use neofs_sdk_go.Prelude.{
  ℕ, List, [], ◌∷◌, ◌+◌, ◌-◌, ◌%◌, ◌^◌, Bool, true, false, ◌&&◌, Option, none, some, leb, ltb,
  length, if◌then◌else◌,
}
use neofs_sdk_go.Prelude.Bytes.{Bytes}
use neofs_sdk_go.Prelude.Result.{Result, ok, err}
use neofs_sdk_go.Client.Stream.{
  ReadError, eof, unexpected_eof, size_overflow, unexpected_message, split_info, stream_failed,
  bad_response, Event, failed, refused, received, Source, Filled, read_chunk,
}

-- A part of an object in a response: its heading with the length of the payload, a chunk, split
-- information, or none of these.
pub data Part : Type 0 where
  part_init : ℕ → Part
  part_chunk : Bytes → Part
  part_split : ℕ → Part
  part_other : Part

-- The chunk that `PayloadReader.readChunk` takes from a message.
abbrev pub payload_chunk : Part → Result ReadError Bytes
payload_chunk (part_init n) = err unexpected_message
payload_chunk (part_chunk c) = ok c
payload_chunk (part_split n) = err unexpected_message
payload_chunk part_other = err unexpected_message

-- And that of `ObjectRangeReader.readChunk`.
abbrev pub range_chunk : Part → Result ReadError Bytes
range_chunk (part_init n) = err unexpected_message
range_chunk (part_chunk c) = ok c
range_chunk (part_split n) = err (split_info n)
range_chunk part_other = err unexpected_message

pub record PayloadReader : Type 0 where
  pub source : Source ℕ Part
  pub remaining_payload_len : ℕ

abbrev pub u64_mod : ℕ
u64_mod = 18446744073709551616

-- `x < 0` and `0 < x` on an int.
abbrev pub is_negative : ℕ → Bool
is_negative x = leb 9223372036854775808 x

abbrev pub is_positive : ℕ → Bool
is_positive x = ltb 0 x && ltb x 9223372036854775808

-- `readHeader` from the stream: the reader of the payload, or the error.
pub read_header : List (Event Part) → Result ReadError PayloadReader
read_header [] = err eof
read_header (failed e ∷ es) = err e
read_header (refused e ∷ es) = err e
read_header (received (part_init n) ∷ es) = ok (record {
  source = record { stream = es; cause = none; tail = [] };
  remaining_payload_len = n % u64_mod;
})
read_header (received (part_chunk c) ∷ es) = err unexpected_message
read_header (received (part_split i) ∷ es) = err (split_info i)
read_header (received part_other ∷ es) = err unexpected_message

-- The reader that `ObjectRangeInit` returns for a range of `len` bytes.
pub range_reader : List (Event Part) → ℕ → PayloadReader
range_reader es len = record {
  source = record { stream = es; cause = none; tail = [] };
  remaining_payload_len = len % u64_mod;
}

-- `close` as the error that it returns, nil being none; the reader's error and what remains come first.
pub close_error : Option ReadError → ℕ → Bool → Option ReadError
close_error none len ignore_eof = none
close_error (some eof) len true = none
close_error (some eof) len false = if is_positive len then some unexpected_eof else some eof
close_error (some unexpected_eof) len ignore_eof = some unexpected_eof
close_error (some size_overflow) len ignore_eof = some size_overflow
close_error (some unexpected_message) len ignore_eof = some unexpected_message
close_error (some (stream_failed n)) len ignore_eof = some (stream_failed n)
close_error (some (bad_response n)) len ignore_eof = some (bad_response n)
close_error (some (split_info n)) len ignore_eof = some (split_info n)

pub close : PayloadReader → Bool → Option ReadError
unfolding close_error
close x ignore_eof = close_error x.source.cause x.remaining_payload_len ignore_eof

-- What `Read` returns, its reader, the bytes and the error.
pub record ReadResult : Type 0 where
  pub reader : PayloadReader
  pub read : Bytes
  pub error : Option ReadError

abbrev pub or_cause : Option ReadError → Option ReadError → Option ReadError
or_cause none cause = cause
or_cause (some e) cause = some e

-- `Read` over either of the two kinds of parts, into a buffer of `n` bytes.
module _ (chunk_of : Part → Result ReadError Bytes) where
  pub read : PayloadReader → ℕ → ReadResult
  unfolding close
  read x n =
      let f = read_chunk chunk_of x.source n in
      let x' : PayloadReader = record {
        source = f.source;
        remaining_payload_len = (x.remaining_payload_len + u64_mod - length f.got) % u64_mod;
      } in
      if f.full
      then record {
        reader = x';
        read = f.got;
        error = if is_negative x'.remaining_payload_len then some size_overflow else none;
      }
      else record { reader = x'; read = f.got; error = or_cause (close x' false) x'.source.cause }

-- `PayloadReader.Read` and `ObjectRangeReader.Read`.
pub read_payload : PayloadReader → ℕ → ReadResult
unfolding read
read_payload = read payload_chunk

pub read_range : PayloadReader → ℕ → ReadResult
unfolding read
read_range = read range_chunk
