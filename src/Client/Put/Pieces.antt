-- ===== src/Client/Put/Pieces.antt =====
-- The messages that `Write` of client/object_put.go sends, and when `Close` returns nil.
use neofs_sdk_go.Prelude.{
  ℕ, zero, suc, ◌+◌, ◌-◌, ◌≤◌, ◌<◌, ◌≡◌, ◌⊎◌, refl, sym, ap, ◌∙◌, none, some, List, [], ◌∷◌, ◌++◌,
  append_assoc, append-nil, length, take, drop, length-take, length-drop, take-append-drop,
  take_through, length-append, All, ltb, if◌then◌else◌, Option-cases, arith, inl, inr,
}
use neofs_sdk_go.Prelude.Bytes.{Bytes}
use neofs_sdk_go.Client.Put.{
  WriteError, PutEnv, ObjectWriter, Written, max_chunk_len, send_chunk, write_loop, write,
}

abbrev pub concat : List Bytes → Bytes
concat [] = []
concat (c ∷ cs) = c ++ concat cs

-- A message carries from one byte to the most that one may.
abbrev pub IsPiece : Bytes → Type 0
IsPiece c = (0 < length c) × (length c ≤ max_chunk_len)

module _ (env : PutEnv) (x : ObjectWriter) (chunk : Bytes) where
  sent_or_failed :
      ((send_chunk env x chunk).cause ≡ none)
        × ((send_chunk env x chunk).sent ≡ x.sent ++ chunk ∷ [])
      ⊎ (e : WriteError) × ((send_chunk env x chunk).cause ≡ some e)
        × ((send_chunk env x chunk).sent ≡ x.sent)
  unfolding send_chunk
  sent_or_failed = elim (Option-cases (env.sign x.sent chunk)) [
    | inr (n, e) ↦ rw (e, send_chunk) (inr (_, refl, refl))
    | inl e ↦
        rw (e, send_chunk)
          (elim (Option-cases (env.stream_write x.sent chunk)) [
            | inr (n, e) ↦ rw e (inr (_, refl, refl))
            | inl e ↦ rw e (inl (refl, refl))
          ])
  ]

-- What a call of the loop on `chunk` did, with `written` bytes written before.
pub record Sends (x : ObjectWriter) (chunk : Bytes) (written : ℕ) (r : Written) : Type 0 where
  pub pieces : List Bytes
  pub all_sent : r.writer.sent ≡ x.sent ++ pieces
  pub are_pieces : All IsPiece pieces
  pub counted : r.count ≡ written + length (concat pieces)
  pub front : concat pieces ≡ take (length (concat pieces)) chunk
  pub whole : r.error ≡ none → concat pieces ≡ chunk

-- The length of the next message.
abbrev piece_len : Bytes → ℕ
piece_len chunk = if ltb max_chunk_len (length chunk) then max_chunk_len else length chunk

piece_len_bounds :
    (chunk : Bytes)
    → (0 < length chunk → 0 < piece_len chunk)
      × (piece_len chunk ≤ max_chunk_len)
      × (length (take (piece_len chunk) chunk) ≡ piece_len chunk)
      × (length (drop (piece_len chunk) chunk) + piece_len chunk ≡ length chunk)
piece_len_bounds chunk = (
  (λ h. ground arith),
  ground arith,
  ground (arith, length-take (piece_len chunk) chunk),
  ground (arith, length-drop (piece_len chunk) chunk),
)

module _ (env : PutEnv) (fuel : ℕ) (x : ObjectWriter) (b : ℕ) (bs : Bytes) (written : ℕ) where
  abbrev piece : Bytes
  piece = take (piece_len (b ∷ bs)) (b ∷ bs)

  loop_failed :
      {e : WriteError}
      → (send_chunk env x piece).cause ≡ some e
      → write_loop env (suc fuel) x (b ∷ bs) written
        ≡ some (record { writer = send_chunk env x piece; count = written; error = some e })
  unfolding write_loop
  loop_failed h = rw (h, write_loop)

  loop_sent :
      (send_chunk env x piece).cause ≡ none
      → write_loop env (suc fuel) x (b ∷ bs) written
        ≡ write_loop env fuel
            (send_chunk env x piece)
            (drop (piece_len (b ∷ bs)) (b ∷ bs))
            (written + length piece)
  unfolding write_loop
  loop_sent h = rw (h, write_loop)

take_more :
    (n m : ℕ) (c : Bytes) → length (take n c) ≡ n → take n c ++ take m (drop n c) ≡ take (n + m) c
take_more n m c h =
    let e : take (n + m) (take n c ++ drop n c)
        ≡ take n c ++ take (n + m - length (take n c)) (drop n c) =
      take_through (n + m) (take n c) (drop n c) (omega arith) in
    let k : n + m - length (take n c) ≡ m = omega arith in
    sym (
      ap (take (n + m)) (sym (take-append-drop n c))
      ∙ e
      ∙ ap (λ k. take n c ++ take k (drop n c)) k)

write_loop_lem :
    (env : PutEnv) (fuel : ℕ) (x : ObjectWriter) (chunk : Bytes) (written : ℕ)
    → length chunk < fuel
    → (r : Written) × (write_loop env fuel x chunk written ≡ some r) × Sends x chunk written r
unfolding write_loop
write_loop_lem env zero x chunk written l = absurd (omega arith)
write_loop_lem env (suc fuel) x [] written l = (
  _,
  refl,
  record {
    pieces = [];
    all_sent = sym (append-nil _);
    are_pieces = tt;
    counted = omega arith;
    front = refl;
    whole = λ _. refl;
  },
)
write_loop_lem env (suc fuel) x (b ∷ bs) written l =
    let chunk : Bytes = b ∷ bs in
    let n = piece_len chunk in
    let c = take n chunk in
    let (positive, most, len, left) = piece_len_bounds chunk in
    elim (sent_or_failed env x c) [
      | inr (e, h, s) ↦ (
        _,
        loop_failed env fuel x b bs written h,
        record {
          pieces = [];
          all_sent = s ∙ sym (append-nil _);
          are_pieces = tt;
          counted = omega arith;
          front = refl;
          whole = λ z. cc;
        },
      )
      | inl (h, s) ↦
          let (r, e, ih) =
            write_loop_lem env fuel (send_chunk env x c) (drop n chunk) (written + length c)
              (omega (arith, positive (omega arith))) in
          (
            r,
            loop_sent env fuel x b bs written h ∙ e,
            record {
              pieces = c ∷ ih.pieces;
              all_sent =
                  ih.all_sent
                  ∙ ap (λ (q : List Bytes). q ++ ih.pieces) s
                  ∙ append_assoc x.sent (c ∷ []) ih.pieces;
              are_pieces = ((omega (arith, positive (omega arith)), omega arith), ih.are_pieces);
              counted = omega (arith, length-append {0} c (concat ih.pieces), ih.counted);
              front =
                  ap (λ (q : Bytes). c ++ q) ih.front
                  ∙ take_more n (length (concat ih.pieces)) chunk len
                  ∙ ap (λ k. take k chunk) (omega (arith, length-append {0} c (concat ih.pieces)));
              whole = λ z. ap (λ (q : Bytes). c ++ q) (ih.whole z) ∙ take-append-drop n chunk;
            },
          )
    ]

-- Write always returns, whatever the signer and the stream do. What it sends are messages of at least one
-- and at most 3 MiB, which hold together as many bytes of the chunk's front as it says to have written:
-- all of them if it returns no error.
pub write_lem :
    (env : PutEnv) (x : ObjectWriter) (chunk : Bytes)
    → (r : Written) × (write env x chunk ≡ some r) × Sends x chunk 0 r
unfolding write
write_lem env x chunk = write_loop_lem env (suc (length chunk)) x chunk 0 (omega arith)
