-- ===== src/Slicer/Writer/Finishes.antt =====
-- `slice` (object/slicer/slicer.go) returns an ID where nothing outside fails.
use neofs_sdk_go.Prelude.{
  ℕ, ◌^◌, ◌≡◌, ◌<◌, refl, true, arith, lt→ltb, none, some, List, [], ◌∷◌, ◌++◌, length, Bool-cases,
  Option-cases, inl, inr,
}
use neofs_sdk_go.Prelude.Bytes.{Bytes}
use neofs_sdk_go.Prelude.Result.{ok, Succeeds, Succeeds-bind, Succeeds-bind_eq}
use neofs_sdk_go.Slicer.Object.{Env, Object, ReadResult, eof, failed}
use neofs_sdk_go.Slicer.Writer.{
  Options, child_payload_size_limit, Metadata, reset, PayloadWriter, header_data, stream_header,
  initial_writer, allocate, init_payload_stream, send_link, linking_object, write_last_child, close,
  read_loop, slice,
}
use neofs_sdk_go.Slicer.Writer.Total.{
  Accepting, flush_total, send_child_total, write_in_mem_total, write_total,
}
use neofs_sdk_go.Slicer.Writer.Whole.{Reached, write-Reached, initial-Reached}

-- No `Read` fails but at the end of the data.
abbrev pub NoFailure : List ReadResult → Type 0
NoFailure [] = Unit
NoFailure (r ∷ rs) = elim r.error [
  | none ↦ NoFailure rs
  | some e ↦ elim e [ eof ↦ Unit | failed ↦ ⊥ ]
]

header_data_total :
    (o : Object) {container owner : Bytes}
    → o.header.container ≡ some container
    → o.header.owner ≡ some owner
    → header_data o ≡ ok (container, owner)
unfolding header_data
header_data_total o c u = rw c (rw u)

allocate_total : (env : Env) (n : ℕ) → n < 2 ^ 63 → env.allocates n ≡ true → allocate env n ≡ ok tt
unfolding allocate
allocate_total env n l m = rw (lt→ltb n (2 ^ 63) l, m) refl

limit_small :
    (opts : Options) → opts.object_payload_limit < 2 ^ 63 → child_payload_size_limit opts < 2 ^ 63
unfolding child_payload_size_limit
limit_small opts l = ground arith

init_total :
    (env : Env) (o : Object) (opts : Options) (container owner : Bytes)
    → o.header.container ≡ some container
    → o.header.owner ≡ some owner
    → child_payload_size_limit opts < 2 ^ 63
    → env.allocates (child_payload_size_limit opts) ≡ true
    → init_payload_stream env o opts ≡ ok (initial_writer o opts (container, owner))
unfolding init_payload_stream
init_total env o opts container owner c u l m =
    rw (header_data_total o c u, allocate_total env (child_payload_size_limit opts) l m) refl

module _ (env : Env) (a : Accepting env) where
  send_link_total : (w : PayloadWriter) (o : Object) (m : Metadata) → Succeeds (send_link env w o m)
  unfolding send_link
  send_link_total w o m = elim (Bool-cases w.with_split) [
    | inr s ↦ simp s (w, refl)
    | inl s ↦ simp s (
        Succeeds-bind _ _
          (write_in_mem_total env a w.log (linking_object env o w.written_children) [] (reset m))
          (λ r. (_, refl)))
  ]

  close_total : (w : PayloadWriter) → Succeeds (close env w)
  unfolding close write_last_child
  close_total w =
      Succeeds-bind _ _ (flush_total env a w.root_meta w.header_object)
        λ root. Succeeds-bind _ _ (send_child_total env a _ _ _) λ w2. send_link_total w2 _ _

  read_loop_total :
      (o : Object) (limit : ℕ) (w : PayloadWriter) (d : Bytes) (rs : List ReadResult)
      → Reached env o limit w d
      → NoFailure rs
      → Succeeds (read_loop env w rs)
  unfolding read_loop
  read_loop_total o limit w d [] r n = close_total w
  read_loop_total o limit w d (x ∷ rs) r n = elim (Option-cases x.error) [
    | inr (eof, e) ↦ simp e (close_total w)
    | inr (failed, e) ↦ absurd (simp e at n)
    | inl e ↦ simp e (
        Succeeds-bind_eq _ _
          (let (w', k) = write_total env a w d x.bytes r.inv in ((length x.bytes, w'), k))
          (λ t k.
            read_loop_total o limit t.1 (d ++ x.bytes) rs
              (write-Reached env o limit w d x.bytes r k) (simp e at n)))
  ]

  -- With a container and an owner in the header, a configured limit below 2 ^ 63 for which there is memory, a
  -- reader that fails only with io.EOF, and an ID calculation, a signer and a stream that never fail,
  -- `slice` returns.
  pub slice_total :
      (o : Object) (opts : Options) (rs : List ReadResult) (container owner : Bytes)
      → opts.object_payload_limit < 2 ^ 63
      → env.allocates (child_payload_size_limit opts) ≡ true
      → o.header.container ≡ some container
      → o.header.owner ≡ some owner
      → NoFailure rs
      → (w' : PayloadWriter) × (slice env o opts rs ≡ ok w')
  unfolding slice child_payload_size_limit
  slice_total o opts rs container owner l m c u n =
      let small = limit_small opts l in
      rw
        (
          allocate_total env (child_payload_size_limit opts) small m,
          init_total env o opts container owner c u small m,
        )
        (read_loop_total (stream_header o opts) (child_payload_size_limit opts)
          (initial_writer o opts (container, owner)) [] rs
          (initial-Reached env o opts (container, owner) (omega (arith, l))) n)
