-- ===== src/Client/Payload/Drain.antt =====
-- Reading a payload to its end, buffer after buffer, as io.ReadAll does (client/object_get.go).
use neofs_sdk_go.Prelude.{
  ℕ, zero, suc, ◌+◌, ◌-◌, ◌%◌, ◌≤◌, ◌<◌, ◌≡◌, refl, ap, ap₂, ◌∙◌, false, Option, none, some, ◌++◌,
  take-append-drop, length, take, drop, leb, ◌==◌, if◌then◌else◌, Bool-cases, arith, inl, inr,
  length-take, length-drop,
}
use neofs_sdk_go.Prelude.Bytes.{Bytes}
use neofs_sdk_go.Prelude.Result.{Result}
use neofs_sdk_go.Client.Stream.{
  ReadError, eof, unexpected_eof, size_overflow, unexpected_message, stream_failed, bad_response,
  split_info, read_chunk,
}
use neofs_sdk_go.Client.Stream.Queue.{pending, ending, read_chunk-Took, read_chunk-Drained}
use neofs_sdk_go.Client.Payload.{Part, PayloadReader, close, close_error, read, u64_mod}

-- The error that the end of a stream gives with `len` bytes missing.
abbrev pub end_error : ReadError → ℕ → ReadError
end_error eof len = if len == 0 then eof else unexpected_eof
end_error unexpected_eof len = unexpected_eof
end_error size_overflow len = size_overflow
end_error unexpected_message len = unexpected_message
end_error (stream_failed n) len = stream_failed n
end_error (bad_response n) len = bad_response n
end_error (split_info n) len = split_info n

close_error_lem :
    (e : ReadError) (len : ℕ)
    → len < 9223372036854775808
    → close_error (some e) len false ≡ some (end_error e len)
unfolding close_error
close_error_lem eof len h = ground arith
close_error_lem unexpected_eof len h = refl
close_error_lem size_overflow len h = refl
close_error_lem unexpected_message len h = refl
close_error_lem (stream_failed n) len h = refl
close_error_lem (bad_response n) len h = refl
close_error_lem (split_info n) len h = refl

module _ (chunk_of : Part → Result ReadError Bytes) where
  -- Reads into buffers of `k` bytes until an error, on fuel: all bytes and the error.
  pub read_all : ℕ → ℕ → PayloadReader → Option (Bytes × ReadError)
  read_all zero k x = none
  read_all (suc fuel) k x =
      let r = read chunk_of x k in
      let rest = read_all fuel k r.reader in
      elim r.error [
        | some e ↦ some (r.read, e)
        | none ↦ elim rest [ none ↦ none | some (b, e) ↦ some (r.read ++ b, e) ]
      ]

  abbrev pub queue : PayloadReader → Bytes
  queue x = pending chunk_of x.source

  module _ (x : PayloadReader) (k : ℕ) (small : x.remaining_payload_len < 9223372036854775808) where
    read_full :
        k ≤ length (queue x)
        → length (queue x) ≤ x.remaining_payload_len
        → ((read chunk_of x k).error ≡ none)
          × ((read chunk_of x k).read ≡ take k (queue x))
          × (queue (read chunk_of x k).reader ≡ drop k (queue x))
          × (ending chunk_of (read chunk_of x k).reader.source.stream
              ≡ ending chunk_of x.source.stream)
          × ((read chunk_of x k).reader.remaining_payload_len + k ≡ x.remaining_payload_len)
    unfolding read
    read_full h l =
        let t = read_chunk-Took chunk_of x.source k h in
        let len : length (read_chunk chunk_of x.source k).got ≡ k =
          ap length t.took ∙ omega (arith, length-take k (queue x)) in
        rw (t.is_full, len) (ground arith, t.took, t.left, t.same_ending, omega arith)

    read_last :
        length (queue x) < k
        → length (queue x) ≤ x.remaining_payload_len
        → ((read chunk_of x k).error
            ≡ some (
                end_error
                  (ending chunk_of x.source.stream)
                  (x.remaining_payload_len - length (queue x))))
          × ((read chunk_of x k).read ≡ queue x)
    unfolding read close
    read_last h l =
        let t = read_chunk-Drained chunk_of x.source k h in
        let rest : (x.remaining_payload_len + u64_mod - length (queue x)) % u64_mod
            ≡ x.remaining_payload_len - length (queue x) =
          omega arith in
        rw (t.not_full, t.failed_with, t.took_all)
          (
            rw
                (
                  rest,
                  close_error_lem (ending chunk_of x.source.stream)
                      (x.remaining_payload_len - length (queue x)) (omega arith),
                )
                refl,
            refl,
          )

  module _ (fuel k : ℕ) (x : PayloadReader) {e : ReadError} where
    read_all_done :
        (read chunk_of x k).error ≡ some e
        → read_all (suc fuel) k x ≡ some ((read chunk_of x k).read, e)
    unfolding read_all
    read_all_done h = rw (h, read_all)

    read_all_more :
        {b : Bytes}
        → (read chunk_of x k).error ≡ none
        → read_all fuel k (read chunk_of x k).reader ≡ some (b, e)
        → read_all (suc fuel) k x ≡ some ((read chunk_of x k).read ++ b, e)
    unfolding read_all
    read_all_more h r = rw (h, read_all) (rw r)

  -- Read into buffers of any one positive size until an error, a reader whose stream has no more bytes
  -- than it waits for gives all of them, and the error is the one that ends the stream, with
  -- io.ErrUnexpectedEOF in place of io.EOF exactly when bytes are missing. As many rounds as there are
  -- bytes, and one more, are enough.
  pub read_all_lem :
      (fuel k : ℕ) (x : PayloadReader)
      → 0 < k
      → length (queue x) < fuel
      → length (queue x) ≤ x.remaining_payload_len
      → x.remaining_payload_len < 9223372036854775808
      → read_all fuel k x
        ≡ some (
          queue x,
          end_error (ending chunk_of x.source.stream) (x.remaining_payload_len - length (queue x)),
        )
  read_all_lem zero k x p f l small = absurd (omega arith)
  read_all_lem (suc fuel) k x p f l small = elim (Bool-cases (leb k (length (queue x)))) [
    | inl y ↦
        let (e, g, q, m, r) = read_full x k small (ground arith) l in
        let d : length (queue (read chunk_of x k).reader) + k ≡ length (queue x) =
          ground (arith, ap length q, length-drop k (queue x)) in
        let missing : (read chunk_of x k).reader.remaining_payload_len
              - length (queue (read chunk_of x k).reader)
            ≡ x.remaining_payload_len - length (queue x) =
          omega arith in
        let ih =
          read_all_lem fuel k (read chunk_of x k).reader p (omega arith) (omega arith)
            (omega arith) in
        read_all_more fuel k x e ih
        ∙ ap₂ (λ b l. some (b, l)) (ap₂ (λ a b. a ++ b) g q ∙ take-append-drop k (queue x))
            (ap₂ end_error m missing)
    | inr y ↦
        let (e, g) = read_last x k small (ground arith) l in
        read_all_done fuel k x e
        ∙ ap
            (λ b. some (
              b,
              end_error (ending chunk_of x.source.stream)
                  (x.remaining_payload_len - length (queue x)),
            ))
            g
  ]

  -- A payload that is longer than announced ends with io.EOF, without an error, when the excess comes in
  -- the buffer that the stream's end leaves short.
  pub overflow_missed :
      (k : ℕ) (x : PayloadReader)
      → x.remaining_payload_len < length (queue x)
      → length (queue x) < k
      → length (queue x) < 9223372036854775808
      → ending chunk_of x.source.stream ≡ eof
      → ((read chunk_of x k).read ≡ queue x) × ((read chunk_of x k).error ≡ some eof)
  unfolding read close close_error
  overflow_missed k x over h small e =
      let t = read_chunk-Drained chunk_of x.source k h in
      rw (t.not_full, t.failed_with, t.took_all, e) (refl, ground arith)
