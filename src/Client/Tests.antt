-- ===== src/Client/Tests.antt =====
-- The theorems on client/object_get.go, object_search.go and object_put.go at short streams.
use neofs_sdk_go.Prelude.{
  ℕ, zero, suc, ◌≤◌, ◌<◌, ◌≡◌, refl, none, some, List, [], ◌∷◌, length, if◌then◌else◌, ◌==◌, arith,
}
use neofs_sdk_go.Prelude.Bytes.{Bytes, bytes_eq}
use neofs_sdk_go.Client.Stream.{eof, unexpected_eof, Event, received, Source, read_chunk}
use neofs_sdk_go.Client.Stream.Queue.{Took, Drained, ending, elements, read_chunk_lem}
use neofs_sdk_go.Client.Payload.{Part, part_chunk, PayloadReader, payload_chunk, read}
use neofs_sdk_go.Client.Payload.Drain.{read_all, read_all_lem, overflow_missed}
use neofs_sdk_go.Client.Search.{iterate}
use neofs_sdk_go.Client.Search.Visits.{iterate_lem}
use neofs_sdk_go.Client.Put.{WriteError, PutEnv, ObjectWriter, Written, Reply, write}
use neofs_sdk_go.Client.Put.Pieces.{Sends, write_lem}

abbrev test_stream : List (Event Part)
test_stream =
    received (part_chunk (1 ∷ 2 ∷ []))
    ∷ received (part_chunk [])
    ∷ received (part_chunk (3 ∷ []))
    ∷ []

abbrev test_reader : ℕ → PayloadReader
test_reader n = record {
  source = record { stream = test_stream; cause = none; tail = [] };
  remaining_payload_len = n;
}

read_chunk_lem_example :
    (2 ≤ 3
      → Took payload_chunk 2
          (1 ∷ 2 ∷ 3 ∷ [])
          eof
          (read_chunk payload_chunk (test_reader 3).source 2))
    × (3 < 2
        → Drained payload_chunk
            (1 ∷ 2 ∷ 3 ∷ [])
            eof
            (read_chunk payload_chunk (test_reader 3).source 2))
unfolding elements ending
read_chunk_lem_example = read_chunk_lem payload_chunk (test_reader 3).source 2

read_all_lem_example :
    read_all payload_chunk 4 2 (test_reader 5) ≡ some (1 ∷ 2 ∷ 3 ∷ [], unexpected_eof)
unfolding elements ending
read_all_lem_example =
    read_all_lem payload_chunk 4 2 (test_reader 5) (omega arith) (omega arith) (omega arith)
      (omega arith)

overflow_missed_example :
    ((read payload_chunk (test_reader 1) 8).read ≡ 1 ∷ 2 ∷ 3 ∷ [])
    × ((read payload_chunk (test_reader 1) 8).error ≡ some eof)
unfolding elements ending
overflow_missed_example =
    overflow_missed payload_chunk 8 (test_reader 1) (omega arith) (omega arith) (omega arith) refl

abbrev repeat : ℕ → ℕ → Bytes
repeat zero b = []
repeat (suc n) b = b ∷ repeat n b

abbrev test_ids : Source Bytes (List Bytes)
test_ids = record {
  stream = received (repeat 32 1 ∷ repeat 32 2 ∷ []) ∷ received (repeat 32 3 ∷ []) ∷ [];
  cause = none;
  tail = [];
}

iterate_lem_example :
    iterate (bytes_eq (repeat 32 2)) 4 ([] ∷ []) test_ids
    ≡ some (repeat 32 1 ∷ repeat 32 2 ∷ [], none)
unfolding elements ending
iterate_lem_example =
    iterate_lem (bytes_eq (repeat 32 2)) 4 [] test_ids (refl, (refl, (refl, tt))) (omega arith)

abbrev test_env : PutEnv
test_env = record {
  sign = λ sent chunk. none;
  stream_write = λ sent chunk. if length sent == 1 then some (WriteError.stream_failed 5) else none;
}

abbrev test_writer : ObjectWriter
test_writer = record { sent = []; cause = none; res = none }

write_lem_example :
    (r : Written) × (write test_env test_writer (1 ∷ 2 ∷ []) ≡ some r)
    × Sends test_writer (1 ∷ 2 ∷ []) 0 r
write_lem_example = write_lem test_env test_writer (1 ∷ 2 ∷ [])

abbrev test_reply : Reply
test_reply = record { close_error = none; response_error = none; id = some (7 ∷ []) }
