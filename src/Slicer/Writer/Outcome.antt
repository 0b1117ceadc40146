-- ===== src/Slicer/Writer/Outcome.antt =====
-- What the stream has accepted when `slice` (object/slicer/slicer.go) returns.
use neofs_sdk_go.Prelude.{
  ℕ, ◌≤◌, ◌<◌, ◌%◌, ◌≡◌, ap, ◌∙◌, sym, true, false, none, some, List, [], ◌∷◌, ◌++◌, append-nil,
  map, arith, length, All, Bool-cases, inl, inr,
}
use mathlib.Core.List.{map-append}
use neofs_sdk_go.Prelude.Bytes.{Bytes}
use neofs_sdk_go.Prelude.Result.{ok}
use neofs_sdk_go.Slicer.Object.{Env, Object, Delivery, ReadResult}
use neofs_sdk_go.Slicer.Writer.{
  u64_mod, Options, child_payload_size_limit, Metadata, reset, PayloadWriter, flush_object_metadata,
  child_object, with_parent, linking_object, get_last, stream_header, close, slice,
}
use neofs_sdk_go.Slicer.Writer.Invariant.{payloads, payloads-append, sent_id, Absorbed, Inv}
use neofs_sdk_go.Slicer.Writer.Chain.{Chain, Chain-append, flush_keeps}
use neofs_sdk_go.Slicer.Writer.Close.{flush_ok, chain_end, close_split, close_unsplit}
use neofs_sdk_go.Slicer.Writer.Whole.{read_data, Reached, slice_ok}

module _ (env : Env) where
  -- The object of the whole payload `d`: its size and checksum, and the header `h` otherwise.
  pub record IsRoot (o : Object) (d : Bytes) (root : Object) : Type 0 where
    pub container : root.header.container ≡ o.header.container
    pub owner : root.header.owner ≡ o.header.owner
    pub attributes : root.header.attributes ≡ o.header.attributes
    pub payload_size : root.header.payload_size ≡ length d % u64_mod
    pub checksum : root.header.payload_checksum ≡ some (env.sha256 d)

  root_lem :
      (o : Object) (m : Metadata) (d : Bytes) {root : Object}
      → Absorbed m d
      → flush_object_metadata env m o ≡ ok root
      → IsRoot o d root
  root_lem o m d a h =
      let (_, _, _, _, e) = flush_ok env m o h in
      record {
        container = ap (λ (x : Object). x.header.container) e;
        owner = ap (λ (x : Object). x.header.owner) e;
        attributes = ap (λ (x : Object). x.header.attributes) e;
        payload_size = ap (λ (x : Object). x.header.payload_size) e ∙ a.len_of;
        checksum =
            ap (λ (x : Object). x.header.payload_checksum) e
            ∙ ap (λ t. some (env.sha256 t)) a.checksum_of;
      }

  -- Unsplit data: one object, which is the root.
  pub close_small :
      (o : Object) (limit : ℕ) (w : PayloadWriter) (d : Bytes) {w' : PayloadWriter}
      → Reached env o limit w d
      → w.with_split ≡ false
      → close env w ≡ ok w'
      → (root : Object) × IsRoot o d root
        × (w'.root_id ≡ root.id)
        × (w'.log ≡ record { object = root; payload = d } ∷ [])
  close_small o limit w d r s h =
      let (root, e, i, l) = close_unsplit env w d r.inv s h in
      (
        root,
        root_lem o w.root_meta d r.inv.root
            (ap (λ x. flush_object_metadata env w.root_meta x) (sym r.header_of) ∙ e),
        i,
        l,
      )

  -- When all that was read fits into one object, that is the only one, with the header that was given,
  -- the size and the checksum of the payload; its ID is the stream's.
  pub slice_small :
      (o : Object) (opts : Options) (rs : List ReadResult) {w' : PayloadWriter}
      → opts.object_payload_limit < u64_mod
      → length (read_data rs) ≤ child_payload_size_limit opts
      → slice env o opts rs ≡ ok w'
      → (root : Object) × IsRoot (stream_header o opts) (read_data rs) root
        × (w'.root_id ≡ root.id)
        × (w'.log ≡ record { object = root; payload = read_data rs } ∷ [])
  slice_small o opts rs l small h =
      let (v, r, e) = slice_ok env o opts rs l h in
      close_small (stream_header o opts) (child_payload_size_limit opts) v (read_data rs) r
        (r.small small) e

  -- An end of the chain under `root`: the last child and the linking object.
  pub record IsEnd (root x : Object) : Type 0 where
    pub parent : x.header.parent ≡ root.id
    pub parent_signature :
        x.parent_object ≡ some (record { signature = root.signature; header = root.header })
    pub split_id : x.header.split_id ≡ some env.split_id

  pub record IsLink (children : List Delivery) (x : Object) : Type 0 where
    pub children_of : x.header.children ≡ map sent_id children
    pub previous : x.header.previous ≡ none
    pub payload_size : x.header.payload_size ≡ 0

  child_split :
      (o : Object) (limit : ℕ) (w : PayloadWriter) (d : Bytes)
      → Reached env o limit w d
      → w.with_split ≡ true
      → (child_object w).header.split_id ≡ some env.split_id
  unfolding child_object
  child_split o limit w d r s = simp s (r.chained.split_as s)

  end_lem :
      (w : PayloadWriter) (m : Metadata) (root : Object) {x : Object}
      → (child_object w).header.split_id ≡ some env.split_id
      → flush_object_metadata env m (chain_end env w root) ≡ ok x
      → IsEnd root x
  unfolding with_parent
  end_lem w m root s h =
      let (_, _, _, _, e) = flush_ok env m (chain_end env w root) h in
      record {
        parent = ap (λ (x : Object). x.header.parent) e;
        parent_signature = ap (λ (x : Object). x.parent_object) e;
        split_id = ap (λ (x : Object). x.header.split_id) e ∙ s;
      }

  link_end_lem :
      (w : PayloadWriter) (m : Metadata) (ids : List Bytes) (root : Object) {x : Object}
      → (child_object w).header.split_id ≡ some env.split_id
      → flush_object_metadata env m (linking_object env (chain_end env w root) ids) ≡ ok x
      → IsEnd root x
        × (x.header.children ≡ ids)
        × (x.header.previous ≡ none)
        × (x.header.payload_size ≡ m.len)
  unfolding with_parent linking_object
  link_end_lem w m ids root s h =
      let (_, _, _, _, e) = flush_ok env m (linking_object env (chain_end env w root) ids) h in
      (
        record {
          parent = ap (λ (x : Object). x.header.parent) e;
          parent_signature = ap (λ (x : Object). x.parent_object) e;
          split_id = ap (λ (x : Object). x.header.split_id) e ∙ s;
        },
        ap (λ (x : Object). x.header.children) e,
        ap (λ (x : Object). x.header.previous) e,
        ap (λ (x : Object). x.header.payload_size) e,
      )

  last-Chain :
      (o : Object) (limit : ℕ) (w : PayloadWriter) (d : Bytes) (root x : Object)
      → Reached env o limit w d
      → w.with_split ≡ true
      → flush_object_metadata env w.child_meta (chain_end env w root) ≡ ok x
      → Chain env.split_id (w.log ++ record { object = x; payload = w.buf } ∷ [])
  unfolding with_parent child_object
  last-Chain o limit w d root x r s h =
      let (a, b) = flush_keeps env w.child_meta (chain_end env w root) h in
      Chain-append env.split_id w.log (record { object = x; payload = w.buf }) r.chained.chain
        (a ∙ ap get_last (sym r.chained.ids)) (b ∙ child_split o limit w d r s)

  split_payloads :
      (w : PayloadWriter) (d : Bytes) (x : Object)
      → Inv w d
      → payloads (w.log ++ record { object = x; payload = w.buf } ∷ []) ≡ d
  split_payloads w d x i =
      payloads-append w.log (record { object = x; payload = w.buf } ∷ [])
      ∙ ap (λ t. payloads w.log ++ t) (append-nil w.buf)
      ∙ i.whole

  full_bounded :
      (n : ℕ) (log : List Delivery)
      → All (λ x. length x.payload ≡ n) log
      → All (λ x. length x.payload ≤ n) log
  full_bounded n [] a = tt
  full_bounded n (x ∷ log) (e, a) = (omega (arith, e), full_bounded n log a)

  -- Data in several objects: the children, whose payloads are the data, then the linking object.
  pub record IsSplit (o : Object) (limit : ℕ) (d : Bytes) (w' : PayloadWriter) : Type 0 where
    pub root : Object
    pub children : List Delivery
    pub last : Object
    pub rest : Bytes
    pub link : Object
    pub is_root : IsRoot o d root
    pub root_id : w'.root_id ≡ root.id
    pub log_of :
        w'.log
        ≡ (children ++ record { object = last; payload = rest } ∷ [])
          ++ record { object = link; payload = [] } ∷ []
    pub whole : payloads (children ++ record { object = last; payload = rest } ∷ []) ≡ d
    pub full : All (λ x. length x.payload ≡ limit) children
    pub rest_fits : length rest ≤ limit
    pub chain : Chain env.split_id (children ++ record { object = last; payload = rest } ∷ [])
    pub last_end : IsEnd root last
    pub link_end : IsEnd root link
    pub is_link : IsLink (children ++ record { object = last; payload = rest } ∷ []) link

  close_large :
      (o : Object) (limit : ℕ) (w : PayloadWriter) (d : Bytes) {w' : PayloadWriter}
      → Reached env o limit w d
      → w.with_split ≡ true
      → close env w ≡ ok w'
      → IsSplit o limit d w'
  unfolding reset
  close_large o limit w d r s h =
      let (root, last, link, e1, e2, e3, i, l) = close_split env w d r.inv s h in
      let sp = child_split o limit w d r s in
      let (a, b, c, n) = link_end_lem w (reset w.child_meta) _ root sp e3 in
      record {
        root = root;
        children = w.log;
        last = last;
        rest = w.buf;
        link = link;
        is_root =
            root_lem o w.root_meta d r.inv.root
              (ap (λ x. flush_object_metadata env w.root_meta x) (sym r.header_of) ∙ e1);
        root_id = i;
        log_of = l;
        whole = split_payloads w d last r.inv;
        full = rw (← r.limit_of) r.inv.full;
        rest_fits = omega (arith, r.inv.count, r.inv.range.fits, r.limit_of);
        chain = last-Chain o limit w d root last r s e2;
        last_end = end_lem w w.child_meta root sp e2;
        link_end = a;
        is_link = record {
          children_of =
              b ∙ sym (map-append sent_id w.log (record { object = last; payload = w.buf } ∷ []));
          previous = c;
          payload_size = n;
        };
      }

  large_split :
      (o : Object) (limit : ℕ) (w : PayloadWriter) (d : Bytes)
      → Reached env o limit w d
      → limit < length d
      → w.with_split ≡ true
  large_split o limit w d r l = elim (Bool-cases w.with_split) [
    | inl s ↦ s
    | inr s ↦
        let whole : w.buf ≡ d =
          ap (λ t. payloads t ++ w.buf) (sym (r.inv.unsplit s)) ∙ r.inv.whole in
        absurd (omega (arith, r.inv.count, r.inv.range.fits, r.limit_of, ap length whole))
  ]

  -- When what was read does not fit into one object, and the configured limit is a uint64, the stream has
  -- taken full children and a last one, whose payloads are the data, and then one empty linking object that
  -- lists their IDs. Every child from the second on names the one before it and the split ID; of the first
  -- this says neither. The last child and the linking object carry the root, whose size and checksum are
  -- those of the data.
  pub slice_large :
      (o : Object) (opts : Options) (rs : List ReadResult) {w' : PayloadWriter}
      → opts.object_payload_limit < u64_mod
      → child_payload_size_limit opts < length (read_data rs)
      → slice env o opts rs ≡ ok w'
      → IsSplit (stream_header o opts) (child_payload_size_limit opts) (read_data rs) w'
  slice_large o opts rs l large h =
      let (v, r, e) = slice_ok env o opts rs l h in
      close_large (stream_header o opts) (child_payload_size_limit opts) v (read_data rs) r
        (large_split (stream_header o opts) (child_payload_size_limit opts) v (read_data rs) r
          large)
        e
