-- ===== src/Slicer/Writer/Step.antt =====
-- One child of a split chain: what `_writeChild` with `last` false and the reset after it in `Write`
-- (object/slicer/slicer.go) make of the state.
use neofs_sdk_go.Prelude.{
  ◌≡◌, true, false, some, [], ◌∷◌, ◌++◌, arith, if◌then◌else◌, Bool-cases, inl, inr,
}
use neofs_sdk_go.Prelude.Result.{ok, ◌>>=◌, >>=-eq-ok}
use neofs_sdk_go.Slicer.Object.{Env, Object}
use neofs_sdk_go.Slicer.Writer.{
  Metadata, reset, PayloadWriter, deliver, seal, write_in_mem_object, child_object, id_or_zero,
  send_child, write_intermediate_child, next_child,
}

module _ (env : Env) where
  -- What `send_child` does when the stream takes the object: it is sealed by its metadata, and the
  -- buffer is its payload.
  pub send_child_ok :
      (w : PayloadWriter) (o : Object) (m : Metadata) {w' : PayloadWriter}
      → send_child env w o m ≡ ok w'
      → (sent : Object) × (seal env m o ≡ ok sent)
        × (w' ≡ record w {
          written_children = w.written_children ++ id_or_zero sent.id ∷ [];
          log = w.log ++ record { object = sent; payload = w.buf } ∷ [];
        })
  unfolding send_child write_in_mem_object deliver
  send_child_ok w o m h =
      let ((sent, log'), e, k) = >>=-eq-ok _ _ h in
      let (sent', e', k') = >>=-eq-ok _ _ e in (sent', e', ground (arith, k, k'))

  -- The state in which an object is sent, its metadata, and the object before it is sealed.
  unfoldable pub splitting : PayloadWriter → PayloadWriter
  splitting w = record w {
    split_id = if w.with_split then w.split_id else some env.split_id;
    with_split = true;
  }

  pub meta_to_send : PayloadWriter → Metadata
  meta_to_send w = if w.with_split then w.child_meta else w.root_meta

  unfoldable pub child_to_send : PayloadWriter → Object
  child_to_send w = if w.is_header_write_step then w.header_object else child_object w

  -- The state after it is sent.
  abbrev pub sent_state : PayloadWriter → Object → PayloadWriter
  sent_state w sent = record w {
    split_id = if w.with_split then w.split_id else some env.split_id;
    with_split = true;
    written_children = w.written_children ++ id_or_zero sent.id ∷ [];
    log = w.log ++ record { object = sent; payload = w.buf } ∷ [];
    tee_child = if w.with_split then w.tee_child else true;
    written = 0;
    buf = [];
    child_meta = reset w.child_meta;
    is_header_write_step = false;
  }

  abbrev SentOf : PayloadWriter → PayloadWriter → Object → Type 0
  SentOf w v sent = v ≡ record w {
    written_children = w.written_children ++ id_or_zero sent.id ∷ [];
    log = w.log ++ record { object = sent; payload = w.buf } ∷ [];
  }

  abbrev emptied : PayloadWriter → PayloadWriter
  emptied v = record v {
    written = 0;
    buf = [];
    child_meta = reset v.child_meta;
    is_header_write_step = false;
  }

  abbrev started : PayloadWriter → PayloadWriter
  started w = record w { split_id = some env.split_id; with_split = true }

  after_next :
      (w v : PayloadWriter) (sent : Object) {w' : PayloadWriter}
      → w.with_split ≡ true
      → SentOf w v sent
      → emptied v ≡ w'
      → w' ≡ sent_state w sent
  after_next w v sent s b k = ground (arith, s, b, k)

  after_first :
      (w v : PayloadWriter) (sent : Object) {w' : PayloadWriter}
      → w.with_split ≡ false
      → SentOf (started w) v sent
      → emptied (record v { tee_child = true }) ≡ w'
      → w' ≡ sent_state w sent
  after_first w v sent s b k = ground (arith, s, b, k)

  splitting_next : (w : PayloadWriter) → w.with_split ≡ true → splitting w ≡ w
  unfolding splitting
  splitting_next w s = ground (arith, s)

  splitting_first : (w : PayloadWriter) → w.with_split ≡ false → splitting w ≡ started w
  unfolding splitting
  splitting_first w s = ground (arith, s)

  next_step :
      (w : PayloadWriter) {w' : PayloadWriter}
      → w.with_split ≡ true
      → next_child env w ≡ ok w'
      → (v : PayloadWriter) × (send_child env w (child_to_send w) w.child_meta ≡ ok v)
        × (emptied v ≡ w')
  unfolding next_child write_intermediate_child child_to_send
  next_step w s h = let (v, e, k) = >>=-eq-ok _ _ (simp s at h) in (v, e, cc k)

  -- The two binds of the first split.
  first_binds :
      (w : PayloadWriter) {w' : PayloadWriter}
      → ((send_child env (started w) (child_to_send (started w)) w.root_meta >>= λ w1.
            ok (record w1 { tee_child = true }))
          >>= λ v. ok (emptied v))
        ≡ ok w'
      → (v : PayloadWriter) × (send_child env (started w) (child_to_send (started w)) w.root_meta
          ≡ ok v)
        × (emptied (record v { tee_child = true }) ≡ w')
  first_binds w h =
      let (v, e, k) = >>=-eq-ok _ _ h in let (v1, e1, k1) = >>=-eq-ok _ _ e in (v1, e1, cc (k, k1))

  first_step :
      (w : PayloadWriter) {w' : PayloadWriter}
      → w.with_split ≡ false
      → next_child env w ≡ ok w'
      → (v : PayloadWriter) × (send_child env (started w) (child_to_send (started w)) w.root_meta
          ≡ ok v)
        × (emptied (record v { tee_child = true }) ≡ w')
  unfolding next_child write_intermediate_child child_to_send
  first_step w s h = first_binds w (simp s at h)

  pub next_child_ok :
      (w : PayloadWriter) {w' : PayloadWriter}
      → next_child env w ≡ ok w'
      → (sent : Object) × (seal env (meta_to_send w) (child_to_send (splitting w)) ≡ ok sent)
        × (w' ≡ sent_state w sent)
  next_child_ok w h = elim (Bool-cases w.with_split) [
    | inl s ↦
        let (v, e, k) = next_step w s h in
        let (sent, a, b) = send_child_ok w (child_to_send w) w.child_meta e in
        let m : meta_to_send w ≡ w.child_meta = unfold meta_to_send in simp s in
        (sent, cc (a, m, splitting_next w s), after_next w v sent s b k)
    | inr s ↦
        let (v, e, k) = first_step w s h in
        let (sent, a, b) = send_child_ok (started w) (child_to_send (started w)) w.root_meta e in
        let m : meta_to_send w ≡ w.root_meta = unfold meta_to_send in simp s in
        (sent, cc (a, m, splitting_first w s), after_first w v sent s b k)
  ]
