-- ===== src/Slicer/Writer/Progress.antt =====
-- `Write` (object/slicer/slicer.go) keeps the invariant and takes every byte.
use neofs_sdk_go.Prelude.{
  ℕ, zero, suc, ◌+◌, ◌-◌, ◌≤◌, ◌<◌, ◌≡◌, refl, ap, ◌∙◌, sym, false, [], ◌∷◌, ◌++◌, append_assoc,
  append-nil, arith, ltb, ◌==◌, length, take, drop, length-append, length-take, length-drop,
  take-append-drop, All-append, Bool-cases, inl, inr,
}
use mathlib.Core.List.{map-append}
use neofs_sdk_go.Prelude.Bytes.{Bytes}
use neofs_sdk_go.Prelude.Result.{Result, ok, ◌>>=◌, >>=-eq-ok}
use neofs_sdk_go.Slicer.Object.{Env, Object, Delivery, Error}
use neofs_sdk_go.Slicer.Writer.{PayloadWriter, tee, id_or_zero, next_child, write_fuel}
use neofs_sdk_go.Slicer.Writer.Limit.{InRange, fill, limited_write_fits, limited_write_over}
use neofs_sdk_go.Slicer.Writer.Invariant.{
  payloads, sent_id, payloads-append, reset-Absorbed, Inv, fill-Inv,
}
use neofs_sdk_go.Slicer.Writer.Step.{sent_state, next_child_ok}

-- One round of `Write`, as its case analysis.
module _ (env : Env) where
  pub sent_state-Inv :
      (w : PayloadWriter) (sent : Object) (d : Bytes)
      → Inv w d
      → length w.buf ≡ w.limit
      → Inv (sent_state env w sent) d
  sent_state-Inv w sent d i l = record {
    range = record {
      limit_pos = i.range.limit_pos;
      limit_u64 = i.range.limit_u64;
      fits = omega arith;
    };
    count = refl;
    whole =
        append-nil (payloads (w.log ++ record { object = sent; payload = w.buf } ∷ []))
        ∙ payloads-append w.log (record { object = sent; payload = w.buf } ∷ [])
        ∙ ap (λ t. payloads w.log ++ t) (append-nil w.buf)
        ∙ i.whole;
    root = i.root;
    child = λ _. reset-Absorbed w.child_meta;
    teed = ground (arith, i.teed);
    header_step = refl;
    unsplit = λ e. cc;
    full =
        All-append (λ (x : Delivery). length x.payload ≡ w.limit) w.log
          (record { object = sent; payload = w.buf } ∷ []) i.full (l, tt);
    ids =
        map-append sent_id w.log (record { object = sent; payload = w.buf } ∷ [])
        ∙ ap (λ t. t ++ id_or_zero sent.id ∷ []) i.ids;
  }

  -- On overflow the buffer is filled up to the limit.
  pub filled :
      (w : PayloadWriter) (d chunk : Bytes)
      → Inv w d
      → w.limit - w.written < length chunk
      → length (fill w (take (w.limit - w.written) chunk)).buf
        ≡ (fill w (take (w.limit - w.written) chunk)).limit
  unfolding tee
  filled w d chunk i l = omega (
    arith,
    i.count,
    i.range.fits,
    length-append w.buf (take (w.limit - w.written) chunk),
    length-take (w.limit - w.written) chunk,
  )

  -- The rest of a call of `Write` whose chunk does not fit.
  abbrev pub go_on : ℕ → PayloadWriter → Bytes → Result Error (ℕ × PayloadWriter)
  go_on f w chunk =
      let room = w.limit - w.written in
      next_child env (fill w (take room chunk)) >>= λ w2.
      write_fuel env f w2 (drop room chunk) >>= λ r. ok (room + r.0, r.1)

  pub write_fuel_empty : (f : ℕ) (w : PayloadWriter) → write_fuel env (suc f) w [] ≡ ok (0, w)
  unfolding write_fuel
  write_fuel_empty f w = refl

  pub write_fuel_fits :
      (f : ℕ) (w : PayloadWriter) (c : ℕ) (cs : Bytes)
      → InRange w
      → length (c ∷ cs) ≤ w.limit - w.written
      → write_fuel env (suc f) w (c ∷ cs) ≡ ok (length (c ∷ cs), fill w (c ∷ cs))
  unfolding write_fuel
  write_fuel_fits f w c cs r l = rw (limited_write_fits w (c ∷ cs) r l) (ground arith)

  pub write_fuel_over :
      (f : ℕ) (w : PayloadWriter) (chunk : Bytes)
      → InRange w
      → w.limit - w.written < length chunk
      → write_fuel env (suc f) w chunk ≡ go_on f w chunk
  unfolding write_fuel
  write_fuel_over f w chunk r l =
      let e : (length chunk == 0) ≡ false = ground arith in
      rw (limited_write_over w chunk r l) (rw e)

  -- Every byte given to `Write` is taken, and the invariant moves on by the chunk.
  pub write_fuel-Inv :
      (f : ℕ) (w : PayloadWriter) (d chunk : Bytes) {n : ℕ} {w' : PayloadWriter}
      → Inv w d
      → write_fuel env f w chunk ≡ ok (n, w')
      → Inv w' (d ++ chunk) × (n ≡ length chunk)
  write_fuel-Inv zero w d chunk i h = unfold write_fuel in cc
  write_fuel-Inv (suc f) w d [] {n} {w'} i h =
      let e : w ≡ w' = cc (write_fuel_empty f w) in
      (rw (append-nil d) (rw (← e) i), cc (write_fuel_empty f w))
  write_fuel-Inv (suc f) w d (c ∷ cs) {n} {w'} i h =
      elim (Bool-cases (ltb (w.limit - w.written) (length (c ∷ cs)))) [
        | inr small ↦
            let l : length (c ∷ cs) ≤ w.limit - w.written = ground arith in
            let e : fill w (c ∷ cs) ≡ w' = cc (write_fuel_fits f w c cs i.range l) in
            (rw (← e) (fill-Inv w d (c ∷ cs) i l), cc (write_fuel_fits f w c cs i.range l))
        | inl big ↦
            let l : w.limit - w.written < length (c ∷ cs) = ground arith in
            let room = w.limit - w.written in
            let w1 = fill w (take room (c ∷ cs)) in
            let short : length (take room (c ∷ cs)) ≤ w.limit - w.written =
              omega (arith, length-take room (c ∷ cs)) in
            let i1 = fill-Inv w d (take room (c ∷ cs)) i short in
            let (w2, e2, k2) = >>=-eq-ok _ _ (sym (write_fuel_over f w (c ∷ cs) i.range l) ∙ h) in
            let ((n3, w3), e3, k3) = >>=-eq-ok _ _ k2 in
            let (sent, a, b) = next_child_ok env w1 e2 in
            let i2 =
              sent_state-Inv w1 sent (d ++ take room (c ∷ cs)) i1 (filled w d (c ∷ cs) i l) in
            let (j, m) =
              write_fuel-Inv f w2 (d ++ take room (c ∷ cs)) (drop room (c ∷ cs)) (rw b i2) e3 in
            let all : (d ++ take room (c ∷ cs)) ++ drop room (c ∷ cs) ≡ d ++ c ∷ cs =
              append_assoc d (take room (c ∷ cs)) (drop room (c ∷ cs))
              ∙ ap (λ t. d ++ t) (take-append-drop room (c ∷ cs)) in
            let same : w3 ≡ w' = cc k3 in
            let sum : n ≡ room + n3 = cc k3 in
            (rw (← all) (rw (← same) j), omega (arith, sum, m, length-drop room (c ∷ cs)))
      ]
