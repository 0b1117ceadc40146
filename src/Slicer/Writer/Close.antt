-- ===== src/Slicer/Writer/Close.antt =====
-- `Close` and `_writeChild` with `last` true (object/slicer/slicer.go): the last child, the root and the
-- linking object.
use neofs_sdk_go.Prelude.{
  ◌≡◌, refl, ap, ap₂, ◌∙◌, sym, Bool, true, false, not, none, some, [], ◌∷◌, ◌++◌, map, arith,
  if◌then◌else◌,
}
use neofs_sdk_go.Prelude.Bytes.{Bytes}
use neofs_sdk_go.Prelude.Result.{ok, >>=-eq-ok}
use neofs_sdk_go.Slicer.Object.{Env, Header, Object}
use neofs_sdk_go.Slicer.Writer.{
  Metadata, reset, PayloadWriter, flush_object_metadata, seal_by, seal, deliver,
  write_in_mem_object, child_object, with_parent, id_or_zero, send_child, linking_object, send_link,
  write_last_child, close,
}
use neofs_sdk_go.Slicer.Writer.Invariant.{payloads, sent_id, Inv}
use neofs_sdk_go.Slicer.Writer.Step.{send_child_ok}

module _ (env : Env) where
  -- The header with the fields that the metadata fill.
  abbrev pub hashed : Metadata → Header → Header
  hashed m h = record h {
    payload_checksum = some (env.sha256 m.checksum);
    homomorphic_hash = elim m.homomorphic [
      | none ↦ h.homomorphic_hash
      | some b ↦ some (env.tillich_zemor b)
    ];
    payload_size = m.len;
  }

  pub flush_ok :
      (m : Metadata) (o : Object) {r : Object}
      → flush_object_metadata env m o ≡ ok r
      → (id : Bytes) × (sig : Bytes) × (env.calculate_id (hashed m o.header) o.parent_object
          ≡ ok id)
        × (env.sign id ≡ ok sig)
        × (r ≡ record o { id = some id; signature = some sig; header = hashed m o.header })
  unfolding flush_object_metadata
  flush_ok m o h =
      let (id, e, k) = >>=-eq-ok _ _ h in
      let (sig, e', k') = >>=-eq-ok _ _ k in (id, sig, e, e', cc k')

  -- The end of `_writeChild`, taken apart.
  abbrev object_to_close : PayloadWriter → Object → Object
  object_to_close w root =
      if w.with_split then with_parent root (child_object w) else child_object w

  abbrev rooted : PayloadWriter → Object → PayloadWriter
  rooted w root = record w { root_id = root.id; header_object = root }

  last_steps :
      (w : PayloadWriter) (m : Metadata) {w' : PayloadWriter}
      → write_last_child env w m ≡ ok w'
      → (root : Object) × (w2 : PayloadWriter) × (flush_object_metadata env w.root_meta
            w.header_object
          ≡ ok root)
        × (send_child env
              (rooted w root)
              (if w.is_header_write_step then root else object_to_close w root)
              m
            ≡ ok w2)
        × (send_link env w2 (object_to_close w root) m ≡ ok w')
  unfolding write_last_child
  last_steps w m h =
      let (root, e, k) = >>=-eq-ok _ _ h in
      let (w2, e2, k2) = >>=-eq-ok _ _ k in (root, w2, e, e2, k2)

  seal_sealed :
      (m : Metadata) (o : Object) (id sig : Bytes) {r : Object}
      → o.id ≡ some id
      → o.signature ≡ some sig
      → seal env m o ≡ ok r
      → r ≡ o
  unfolding seal seal_by
  seal_sealed m o id sig a b h = cc (simp (a, b) at h)

  seal_new :
      (m : Metadata) (o : Object) {r : Object}
      → o.id ≡ none
      → seal env m o ≡ ok r
      → flush_object_metadata env m o ≡ ok r
  unfolding seal seal_by
  seal_new m o a h = simp a at h

  link_steps :
      (w : PayloadWriter) (o : Object) (m : Metadata) {w' : PayloadWriter}
      → w.with_split ≡ true
      → send_link env w o m ≡ ok w'
      → (link : Object) × (flush_object_metadata env
            (reset m)
            (linking_object env o w.written_children)
          ≡ ok link)
        × (w' ≡ record w { log = w.log ++ record { object = link; payload = [] } ∷ [] })
  unfolding send_link write_in_mem_object deliver linking_object
  link_steps w o m s h =
      let ((link, log'), e, k) = >>=-eq-ok _ _ (simp s at h) in
      let (link', e', k') = >>=-eq-ok _ _ e in (link', seal_new _ _ refl e', ground (arith, k, k'))

  -- Which object `send_child` gets.
  sent_as :
      (w : PayloadWriter) (root : Object) (m : Metadata) {step split : Bool}
      → w.is_header_write_step ≡ step
      → w.with_split ≡ split
      → send_child env
          (rooted w root)
          (if w.is_header_write_step then root else object_to_close w root)
          m
        ≡ send_child env
            (rooted w root)
            (if step
              then root
              else (if split then with_parent root (child_object w) else child_object w))
            m
  sent_as w root m a b =
      ap₂
        (λ (x : Bool) (y : Bool).
          send_child env (rooted w root)
            (if x then root else (if y then with_parent root (child_object w) else child_object w))
            m)
        a b

  -- A payload that was never split goes out as one object, the root itself.
  pub close_unsplit :
      (w : PayloadWriter) (d : Bytes) {w' : PayloadWriter}
      → Inv w d
      → w.with_split ≡ false
      → close env w ≡ ok w'
      → (root : Object) × (flush_object_metadata env w.root_meta w.header_object ≡ ok root)
        × (w'.root_id ≡ root.id)
        × (w'.log ≡ record { object = root; payload = d } ∷ [])
  unfolding close send_link
  close_unsplit w d {w'} i s h =
      let meta : close env w ≡ write_last_child env w w.root_meta =
        ap (λ b. write_last_child env w (if b then w.child_meta else w.root_meta)) s in
      let (root, w2, e, e2, e3) = last_steps w w.root_meta (sym meta ∙ h) in
      let (id, sig, _, _, r) = flush_ok w.root_meta w.header_object e in
      let step : w.is_header_write_step ≡ true = i.header_step ∙ ap not s in
      let (sent, a, b) =
        send_child_ok env (rooted w root) root w.root_meta
          (sym (sent_as w root w.root_meta step refl) ∙ e2) in
      let same : sent ≡ root =
        seal_sealed w.root_meta root id sig (ap (λ (x : Object). x.id) r)
          (ap (λ (x : Object). x.signature) r) a in
      let split2 : w2.with_split ≡ false = ap (λ (x : PayloadWriter). x.with_split) b ∙ s in
      let done : w2 ≡ w' = cc (simp split2 at e3) in
      let whole : w.buf ≡ d = ap (λ t. payloads t ++ w.buf) (sym (i.unsplit s)) ∙ i.whole in
      (
        root,
        e,
        sym (ap (λ (x : PayloadWriter). x.root_id) done) ∙ ap (λ (x : PayloadWriter). x.root_id) b,
        sym (ap (λ (x : PayloadWriter). x.log) done)
            ∙ ap (λ (x : PayloadWriter). x.log) b
            ∙ cc (i.unsplit s, same, whole),
      )

  -- The two objects that end a chain, which both carry the root's ID and header.
  abbrev pub chain_end : PayloadWriter → Object → Object
  chain_end w root = with_parent root (child_object w)

  -- A split payload ends with the rest in a last child and with a linking object over all children.
  pub close_split :
      (w : PayloadWriter) (d : Bytes) {w' : PayloadWriter}
      → Inv w d
      → w.with_split ≡ true
      → close env w ≡ ok w'
      → (root : Object) × (last : Object) × (link : Object) × (flush_object_metadata env w.root_meta
            w.header_object
          ≡ ok root)
        × (flush_object_metadata env w.child_meta (chain_end w root) ≡ ok last)
        × (flush_object_metadata env
              (reset w.child_meta)
              (linking_object env (chain_end w root) (map sent_id w.log ++ id_or_zero last.id ∷ []))
            ≡ ok link)
        × (w'.root_id ≡ root.id)
        × (w'.log
            ≡ (w.log ++ record { object = last; payload = w.buf } ∷ [])
              ++ record { object = link; payload = [] } ∷ [])
  unfolding close
  close_split w d {w'} i s h =
      let meta : close env w ≡ write_last_child env w w.child_meta =
        ap (λ b. write_last_child env w (if b then w.child_meta else w.root_meta)) s in
      let (root, w2, e, e2, e3) = last_steps w w.child_meta (sym meta ∙ h) in
      let step : w.is_header_write_step ≡ false = i.header_step ∙ ap not s in
      let (sent, a, b) =
        send_child_ok env (rooted w root) (chain_end w root) w.child_meta
          (sym (sent_as w root w.child_meta step s) ∙ e2) in
      let split2 : w2.with_split ≡ true = ap (λ (x : PayloadWriter). x.with_split) b ∙ s in
      let e4 : send_link env w2 (chain_end w root) w.child_meta ≡ ok w' =
        sym (
          ap (λ b. send_link env w2 (if b then chain_end w root else child_object w) w.child_meta)
            s)
        ∙ e3 in
      let (link, f, g) = link_steps w2 (chain_end w root) w.child_meta split2 e4 in
      let kids : w2.written_children ≡ map sent_id w.log ++ id_or_zero sent.id ∷ [] =
        ap (λ (x : PayloadWriter). x.written_children) b
        ∙ ap (λ t. t ++ id_or_zero sent.id ∷ []) (sym i.ids) in
      (
        root,
        sent,
        link,
        e,
        seal_new w.child_meta (chain_end w root) (unfold with_parent child_object in refl) a,
        rw (← kids) f,
        ap (λ (x : PayloadWriter). x.root_id) g ∙ ap (λ (x : PayloadWriter). x.root_id) b,
        ap (λ (x : PayloadWriter). x.log) g
            ∙ ap (λ (x : PayloadWriter). x.log ++ record { object = link; payload = [] } ∷ []) b,
      )
