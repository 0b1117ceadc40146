-- ===== src/Slicer/Writer/Whole.antt =====
-- `slice` (object/slicer/slicer.go) from the first `Read` to `Close`.
use neofs_sdk_go.Prelude.{
  ℕ, ◌+◌, ◌-◌, ◌≤◌, ◌<◌, ◌≡◌, refl, ap, ◌∙◌, sym, Bool, false, none, some, List, [], ◌∷◌, ◌++◌,
  append_assoc, append-nil, arith, length, length-append, Option-cases, inl, inr,
}
use neofs_sdk_go.Prelude.Bytes.{Bytes}
use neofs_sdk_go.Prelude.Result.{Result, ok, ◌>>=◌, >>=-eq-ok}
use neofs_sdk_go.Slicer.Object.{Env, Object, Error, ReadResult, eof, failed}
use neofs_sdk_go.Slicer.Writer.{
  u64_mod, Options, child_payload_size_limit, new_metadata, reset, PayloadWriter, tee,
  limited_write, header_data, stream_header, initial_writer, allocate, init_payload_stream,
  next_child, write_fuel, write, close, read_loop, slice,
}
use neofs_sdk_go.Slicer.Writer.Limit.{fill}
use neofs_sdk_go.Slicer.Writer.Invariant.{payloads, Absorbed, Inv, reset-Absorbed}
use neofs_sdk_go.Slicer.Writer.Step.{next_child_ok}
use neofs_sdk_go.Slicer.Writer.Progress.{write_fuel-Inv, write_fuel_empty, write_fuel_fits}
use neofs_sdk_go.Slicer.Writer.Keeps.{write_keeps}
use neofs_sdk_go.Slicer.Writer.Chain.{Chained, write-Chained}

-- What `slice` gets of the reader: the bytes of every `Read` before the first that ends it.
abbrev pub read_data : List ReadResult → Bytes
read_data [] = []
read_data (r ∷ rs) = elim r.error [ none ↦ r.bytes ++ read_data rs | some e ↦ [] ]

module _ (env : Env) where
  -- A state that `slice` reaches from `o` and `limit` when it has read `d`.
  pub record Reached (o : Object) (limit : ℕ) (w : PayloadWriter) (d : Bytes) : Type 0 where
    pub inv : Inv w d
    pub chained : Chained env w
    pub limit_of : w.limit ≡ limit
    pub header_of : w.header_object ≡ o
    pub small : length d ≤ limit → w.with_split ≡ false

  abbrev Same : PayloadWriter → PayloadWriter → Type 0
  Same v w = (w.limit ≡ v.limit) × (w.header_object ≡ v.header_object)

  taken-Same : (v w : PayloadWriter) (p : Bytes) → Same v w → Same v (limited_write w p).0
  unfolding limited_write tee
  taken-Same v w p s = s

  next-Same : (v w w' : PayloadWriter) → Same v w → next_child env w ≡ ok w' → Same v w'
  next-Same v w w' s h =
      let (x, a, b) = next_child_ok env w h in
      (
        ap (λ (t : PayloadWriter). t.limit) b ∙ s.0,
        ap (λ (t : PayloadWriter). t.header_object) b ∙ s.1,
      )

  write-Same :
      (w : PayloadWriter) (chunk : Bytes) {n : ℕ} {w' : PayloadWriter}
      → write env w chunk ≡ ok (n, w')
      → Same w w'
  write-Same w chunk h =
      write_keeps env (Same w) (taken-Same w) (next-Same w) w chunk (refl, refl) h

  -- While all data fit into one object, nothing is split.
  write_small :
      (w : PayloadWriter) (d chunk : Bytes) {n : ℕ} {w' : PayloadWriter}
      → Inv w d
      → w.with_split ≡ false
      → length (d ++ chunk) ≤ w.limit
      → write env w chunk ≡ ok (n, w')
      → w'.with_split ≡ false
  unfolding write
  write_small w d [] {n} {w'} i s l h =
      let e : w ≡ w' = cc (write_fuel_empty env 1 w) in
      ap (λ (t : PayloadWriter). t.with_split) (sym e) ∙ s
  write_small w d (c ∷ cs) {n} {w'} i s l h =
      let whole : w.buf ≡ d = ap (λ t. payloads t ++ w.buf) (sym (i.unsplit s)) ∙ i.whole in
      let len : w.written ≡ length d = i.count ∙ ap length whole in
      let fits : length (c ∷ cs) ≤ w.limit - w.written =
        omega (arith, len, length-append d (c ∷ cs)) in
      let e0 : write_fuel env (length (c ∷ cs) + 2) w (c ∷ cs)
          ≡ ok (length (c ∷ cs), fill w (c ∷ cs)) =
        ap (λ f. write_fuel env f w (c ∷ cs)) (omega arith)
        ∙ write_fuel_fits env (length cs + 2) w c cs i.range fits in
      let e1 : ok (length (c ∷ cs), fill w (c ∷ cs)) ≡ ok (n, w') = sym e0 ∙ h in
      let e : fill w (c ∷ cs) ≡ w' = cc e1 in
      ap (λ (t : PayloadWriter). t.with_split) (sym e) ∙ unfold tee in s

  write-Inv :
      (w : PayloadWriter) (d chunk : Bytes) {n : ℕ} {w' : PayloadWriter}
      → Inv w d
      → write env w chunk ≡ ok (n, w')
      → Inv w' (d ++ chunk)
  unfolding write
  write-Inv w d chunk i h = (write_fuel-Inv env (length chunk + 2) w d chunk i h).0

  pub write-Reached :
      (o : Object) (limit : ℕ) (w : PayloadWriter) (d chunk : Bytes) {n : ℕ} {w' : PayloadWriter}
      → Reached o limit w d
      → write env w chunk ≡ ok (n, w')
      → Reached o limit w' (d ++ chunk)
  write-Reached o limit w d chunk r h =
      let (a, b) = write-Same w chunk h in
      record {
        inv = write-Inv w d chunk r.inv h;
        chained = write-Chained env w chunk r.chained h;
        limit_of = a ∙ r.limit_of;
        header_of = b ∙ r.header_of;
        small = λ l.
            write_small w d chunk r.inv (r.small (omega (arith, length-append d chunk)))
              (omega (arith, l, r.limit_of)) h;
      }

  read_more :
      (w : PayloadWriter) (x : ReadResult) (rs : List ReadResult) {r : Result Error PayloadWriter}
      → x.error ≡ none
      → read_loop env w (x ∷ rs) ≡ r
      → (write env w x.bytes >>= λ t. read_loop env t.1 rs) ≡ r
  unfolding read_loop
  read_more w x rs n h = simp n at h

  pub read_loop_ok :
      (o : Object) (limit : ℕ) (w : PayloadWriter) (d : Bytes) (rs : List ReadResult)
      {w' : PayloadWriter}
      → Reached o limit w d
      → read_loop env w rs ≡ ok w'
      → (v : PayloadWriter) × Reached o limit v (d ++ read_data rs) × (close env v ≡ ok w')
  unfolding read_loop
  read_loop_ok o limit w d [] r h = (w, rw (append-nil d) r, h)
  read_loop_ok o limit w d (x ∷ rs) {w'} r h = elim (Option-cases x.error) [
    | inl n ↦
        let ((m, v), e, k) = >>=-eq-ok _ _ (read_more w x rs n h) in
        let (u, a, b) =
          read_loop_ok o limit v (d ++ x.bytes) rs (write-Reached o limit w d x.bytes r e) k in
        (u, rw n (rw (← append_assoc d x.bytes (read_data rs)) a), b)
    | inr (eof, n) ↦ (w, rw n (rw (append-nil d) r), simp n at h)
    | inr (failed, n) ↦ absurd (cc (simp n at h))
  ]

  new_Absorbed : (b : Bool) → Absorbed (reset (new_metadata b)) []
  new_Absorbed b = reset-Absorbed (new_metadata b)

  limit_pos : (opts : Options) → 0 < child_payload_size_limit opts
  unfolding child_payload_size_limit
  limit_pos opts = ground arith

  limit_u64 :
      (opts : Options)
      → opts.object_payload_limit < u64_mod
      → child_payload_size_limit opts < u64_mod
  unfolding child_payload_size_limit
  limit_u64 opts l = ground arith

  pub initial-Reached :
      (o : Object) (opts : Options) (p : Bytes × Bytes)
      → opts.object_payload_limit < u64_mod
      → Reached (stream_header o opts) (child_payload_size_limit opts) (initial_writer o opts p) []
  unfolding initial_writer
  initial-Reached o opts (c, u) l = record {
    inv = record {
      range = record {
        limit_pos = limit_pos opts;
        limit_u64 = limit_u64 opts l;
        fits = omega arith;
      };
      count = refl;
      whole = refl;
      root = new_Absorbed opts.with_homo_checksum;
      child = λ e. cc;
      teed = refl;
      header_step = refl;
      unsplit = λ _. refl;
      full = tt;
      ids = refl;
    };
    chained = record {
      chain = tt;
      ids = refl;
      split_as = λ e. cc;
      unsplit = λ _. refl;
      header_step = refl;
    };
    limit_of = refl;
    header_of = refl;
    small = λ _. refl;
  }

  init-Reached :
      (o : Object) (opts : Options) {w : PayloadWriter}
      → opts.object_payload_limit < u64_mod
      → init_payload_stream env o opts ≡ ok w
      → Reached (stream_header o opts) (child_payload_size_limit opts) w []
  unfolding init_payload_stream
  init-Reached o opts {w} l h =
      let (p, e, g) = >>=-eq-ok (header_data o) _ h in
      let (_, _, k) = >>=-eq-ok (allocate env (child_payload_size_limit opts)) _ g in
      let same : initial_writer o opts p ≡ w = cc k in rw (← same) (initial-Reached o opts p l)

  -- `slice` reads all there is and then closes the stream.
  pub slice_ok :
      (o : Object) (opts : Options) (rs : List ReadResult) {w' : PayloadWriter}
      → opts.object_payload_limit < u64_mod
      → slice env o opts rs ≡ ok w'
      → (v : PayloadWriter) × Reached
          (stream_header o opts)
          (child_payload_size_limit opts)
          v
          (read_data rs)
        × (close env v ≡ ok w')
  unfolding slice
  slice_ok o opts rs l h =
      let (_, _, g) = >>=-eq-ok (allocate env (child_payload_size_limit opts)) _ h in
      let (w, e, k) = >>=-eq-ok (init_payload_stream env o opts) _ g in
      read_loop_ok (stream_header o opts) (child_payload_size_limit opts) w [] rs
        (init-Reached o opts l e) k
