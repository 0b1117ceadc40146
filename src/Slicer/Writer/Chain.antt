-- ===== src/Slicer/Writer/Chain.antt =====
-- How the children of a split payload name one another (`_writeChild` of object/slicer/slicer.go).
use neofs_sdk_go.Prelude.{
  ℕ, ◌≡◌, refl, ap, ◌∙◌, sym, true, false, not, Option, none, some, List, [], ◌∷◌, ◌++◌, map,
  Bool-cases, inl, inr,
}
use mathlib.Core.List.{map-append}
use neofs_sdk_go.Prelude.Bytes.{Bytes}
use neofs_sdk_go.Prelude.Result.{ok}
use neofs_sdk_go.Slicer.Object.{Env, Object, Delivery}
use neofs_sdk_go.Slicer.Writer.{
  Metadata, PayloadWriter, tee, limited_write, get_last, id_or_zero, child_object, seal, seal_by,
  flush_object_metadata, next_child, write,
}
use neofs_sdk_go.Slicer.Writer.Invariant.{sent_id}
use neofs_sdk_go.Slicer.Writer.Step.{
  sent_state, next_child_ok, child_to_send, splitting, meta_to_send,
}
use neofs_sdk_go.Slicer.Writer.Close.{flush_ok}
use neofs_sdk_go.Slicer.Writer.Keeps.{write_keeps}

-- Each object names the one before it, whose ID comes first, and all carry the split ID `s`.
abbrev pub Linked : Bytes → Bytes → List Delivery → Type 0
Linked s p [] = Unit
Linked s p (d ∷ ds) =
    (d.object.header.previous ≡ some p)
    × (d.object.header.split_id ≡ some s)
    × Linked s (sent_id d) ds

-- The same from the second object on.
abbrev pub Chain : Bytes → List Delivery → Type 0
Chain s [] = Unit
Chain s (d ∷ ds) = Linked s (sent_id d) ds

Linked-append :
    (s p : Bytes) (ds : List Delivery) (x : Delivery)
    → Linked s p ds
    → x.object.header.previous ≡ get_last (p ∷ map sent_id ds)
    → x.object.header.split_id ≡ some s
    → Linked s p (ds ++ x ∷ [])
Linked-append s p [] x l a b = (a, b, tt)
Linked-append s p (d ∷ ds) x l a b = (l.0, l.1, Linked-append s (sent_id d) ds x l.2 a b)

pub Chain-append :
    (s : Bytes) (ds : List Delivery) (x : Delivery)
    → Chain s ds
    → x.object.header.previous ≡ get_last (map sent_id ds)
    → x.object.header.split_id ≡ some s
    → Chain s (ds ++ x ∷ [])
Chain-append s [] x l a b = tt
Chain-append s (d ∷ ds) x l a b = Linked-append s (sent_id d) ds x l a b

module _ (env : Env) where
  pub flush_keeps :
      (m : Metadata) (o : Object) {r : Object}
      → flush_object_metadata env m o ≡ ok r
      → (r.header.previous ≡ o.header.previous) × (r.header.split_id ≡ o.header.split_id)
  flush_keeps m o h =
      let (_, _, _, _, e) = flush_ok env m o h in
      (ap (λ (x : Object). x.header.previous) e, ap (λ (x : Object). x.header.split_id) e)

  seal_by_keeps :
      (i s : Option Bytes) (m : Metadata) (o : Object) {r : Object}
      → seal_by env i s m o ≡ ok r
      → (r.header.previous ≡ o.header.previous) × (r.header.split_id ≡ o.header.split_id)
  unfolding seal_by
  seal_by_keeps (some i) (some s) m o {r} h =
      let e : o ≡ r = cc h in
      (
        ap (λ (x : Object). x.header.previous) (sym e),
        ap (λ (x : Object). x.header.split_id) (sym e),
      )
  seal_by_keeps (some i) none m o h = flush_keeps m o h
  seal_by_keeps none s m o h = flush_keeps m o h

  pub seal_keeps :
      (m : Metadata) (o : Object) {r : Object}
      → seal env m o ≡ ok r
      → (r.header.previous ≡ o.header.previous) × (r.header.split_id ≡ o.header.split_id)
  unfolding seal
  seal_keeps m o h = seal_by_keeps o.id o.signature m o h

  -- What holds of the children between two calls of `Write`.
  pub record Chained (w : PayloadWriter) : Type 0 where
    pub chain : Chain env.split_id w.log
    pub ids : map sent_id w.log ≡ w.written_children
    pub split_as : w.with_split ≡ true → w.split_id ≡ some env.split_id
    pub unsplit : w.with_split ≡ false → w.log ≡ []
    pub header_step : w.is_header_write_step ≡ not w.with_split

  -- The object that a writer in a split sends next.
  child_fields :
      (w : PayloadWriter)
      → Chained w
      → w.with_split ≡ true
      → ((child_to_send env (splitting env w)).header.previous ≡ get_last (map sent_id w.log))
        × ((child_to_send env (splitting env w)).header.split_id ≡ some env.split_id)
  unfolding child_to_send splitting child_object
  child_fields w c s =
      let step : w.is_header_write_step ≡ false = c.header_step ∙ ap not s in
      (simp (step, s) (ap get_last (sym c.ids)), simp (step, s) (c.split_as s))

  next-Chain :
      (w : PayloadWriter) (x : Object) (p : Bytes)
      → Chained w
      → seal env (meta_to_send env w) (child_to_send env (splitting env w)) ≡ ok x
      → Chain env.split_id (w.log ++ record { object = x; payload = p } ∷ [])
  next-Chain w x p c h = elim (Bool-cases w.with_split) [
    | inr s ↦ rw (c.unsplit s) tt
    | inl s ↦
        let (a, b) = child_fields w c s in
        let (a', b') = seal_keeps _ _ h in
        Chain-append env.split_id w.log (record { object = x; payload = p }) c.chain (a' ∙ a)
          (b' ∙ b)
  ]

  sent_state-Chained :
      (w : PayloadWriter) (x : Object)
      → Chained w
      → seal env (meta_to_send env w) (child_to_send env (splitting env w)) ≡ ok x
      → Chained (sent_state env w x)
  sent_state-Chained w x c h = record {
    chain = next-Chain w x w.buf c h;
    ids =
        map-append sent_id w.log (record { object = x; payload = w.buf } ∷ [])
        ∙ ap (λ t. t ++ id_or_zero x.id ∷ []) c.ids;
    split_as =
        λ _. elim (Bool-cases w.with_split) [ inl s ↦ simp s (c.split_as s) | inr s ↦ simp s ];
    unsplit = λ e. cc;
    header_step = refl;
  }

  taken-Chained : (w : PayloadWriter) (p : Bytes) → Chained w → Chained (limited_write w p).0
  unfolding limited_write tee
  taken-Chained w p c = record {
    chain = c.chain;
    ids = c.ids;
    split_as = c.split_as;
    unsplit = c.unsplit;
    header_step = c.header_step;
  }

  next-Chained : (w w' : PayloadWriter) → Chained w → next_child env w ≡ ok w' → Chained w'
  next-Chained w w' c h = let (x, a, b) = next_child_ok env w h in rw b (sent_state-Chained w x c a)

  -- Every call of `Write` keeps the chain of the children that were sent.
  pub write-Chained :
      (w : PayloadWriter) (chunk : Bytes) {n : ℕ} {w' : PayloadWriter}
      → Chained w
      → write env w chunk ≡ ok (n, w')
      → Chained w'
  write-Chained w chunk c h = write_keeps env Chained taken-Chained next-Chained w chunk c h
