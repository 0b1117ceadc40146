-- ===== src/Client/Stream.antt =====
-- Reading from a stream of messages into buffers: the loop that `readChunk` of client/object_get.go, that
-- of its range reader and `Read` of client/object_search.go share. A stream is the list of what its calls
-- of `Read` and of `processResponse` give, in order; where the list ends, `Read` returns io.EOF. A buffer
-- is its length, and what is copied to it is returned.
pub mod Queue
use neofs_sdk_go.Prelude.{
  ℕ, zero, suc, ◌+◌, ◌-◌, Bool, true, false, Option, none, some, List, [], ◌∷◌, ◌++◌, length, take,
  drop, leb, ◌==◌, if◌then◌else◌,
}
use neofs_sdk_go.Prelude.Result.{Result, ok, err}

-- Errors of the streams and of the readers; a number tells those apart that are passed on.
pub data ReadError : Type 0 where
  eof unexpected_eof size_overflow unexpected_message : ReadError
  stream_failed : ℕ → ReadError
  bad_response : ℕ → ReadError
  split_info : ℕ → ReadError

-- One call of `stream.Read`, with `processResponse` on what it read.
pub data Event (P : Type 0) : Type 0 where
  failed : ReadError → Event P
  refused : ReadError → Event P
  received : P → Event P

-- The fields `stream`, `err` and the tail of a reader.
pub record Source (A P : Type 0) : Type 0 where
  pub stream : List (Event P)
  pub cause : Option ReadError
  pub tail : List A

-- What is copied to a buffer, whether it is full, and what is left.
pub record Filled (A P : Type 0) : Type 0 where
  pub got : List A
  pub full : Bool
  pub source : Source A P

-- `part_of` is the test of a message's type: its elements, or the error.
module _ {A P : Type 0} (part_of : P → Result ReadError (List A)) where
  abbrev pub event_part : Event P → Result ReadError (List A)
  event_part (failed e) = err e
  event_part (refused e) = err e
  event_part (received p) = part_of p

  abbrev pub prepend : List A → Filled A P → Filled A P
  prepend chunk f = record f { got = chunk ++ f.got }

  -- The loop over messages with `room` places left in the buffer, which is not full.
  pub fill : List (Event P) → ℕ → Filled A P
  fill [] room = record {
    got = [];
    full = false;
    source = record { stream = []; cause = some eof; tail = [] };
  }
  fill (e ∷ es) room = elim (event_part e) [
    | err x ↦ record {
      got = [];
      full = false;
      source = record { stream = es; cause = some x; tail = [] };
    }
    | ok chunk ↦
        let skip = fill es room in
        let rest = prepend chunk (fill es (room - length chunk)) in
        if length chunk == 0
        then skip
        else if leb room (length chunk)
        then record {
          got = take room chunk;
          full = true;
          source = record { stream = es; cause = none; tail = drop room chunk };
        }
        else rest
  ]

  -- The tail first, then the loop.
  pub read_chunk : Source A P → ℕ → Filled A P
  unfolding fill
  read_chunk s n =
      let read = take n s.tail in
      let tail = drop n s.tail in
      if length read == n
      then record { got = read; full = true; source = record s { tail = tail } }
      else let f = fill s.stream (n - length read) in
        record {
          got = read ++ f.got;
          full = f.full;
          source = record f.source { tail = tail ++ f.source.tail };
        }
