-- ===== src/Slicer/Writer/Total.antt =====
-- `Write` (object/slicer/slicer.go) ends, and returns, where nothing outside fails.
use neofs_sdk_go.Prelude.{
  ℕ, min, zero, suc, ◌+◌, ◌-◌, ◌≤◌, ◌<◌, ◌≡◌, refl, ap, ◌∙◌, Option, none, some, List, [], ◌∷◌,
  ◌++◌, arith, ltb, length, take, drop, length-take, length-drop, Bool-cases, inl, inr,
}
use neofs_sdk_go.Prelude.Bytes.{Bytes}
use neofs_sdk_go.Prelude.Result.{ok, Succeeds, Succeeds-bind, Succeeds-bind_eq}
use neofs_sdk_go.Slicer.Object.{Env, Object, Header, Parent, Delivery}
use neofs_sdk_go.Slicer.Writer.{
  Metadata, PayloadWriter, deliver, seal, write_in_mem_object, send_child, write_intermediate_child,
  next_child, write_fuel, write,
}
use neofs_sdk_go.Slicer.Writer.Limit.{fill}
use neofs_sdk_go.Slicer.Writer.{flush_object_metadata, seal_by}
use neofs_sdk_go.Slicer.Writer.Invariant.{Inv, fill-Inv}
use neofs_sdk_go.Slicer.Writer.Step.{next_child_ok}
use neofs_sdk_go.Slicer.Writer.Progress.{
  go_on, write_fuel_empty, write_fuel_fits, write_fuel_over, sent_state-Inv, filled, write_fuel-Inv,
}

-- The ID is calculated, the signer signs, and the stream takes every object.
pub record Accepting (env : Env) : Type 0 where
  pub calculates : (h : Header) (p : Option Parent) → (id : Bytes) × (env.calculate_id h p ≡ ok id)
  pub signs : (id : Bytes) → (sig : Bytes) × (env.sign id ≡ ok sig)
  pub takes : (log : List Delivery) (o : Object) (p : Bytes) → env.refuses log o p ≡ none

module _ (env : Env) (a : Accepting env) where
  pub flush_total :
      (m : Metadata) (o : Object) → (r : Object) × (flush_object_metadata env m o ≡ ok r)
  unfolding flush_object_metadata
  flush_total m o =
      Succeeds-bind _ _ (a.calculates _ o.parent_object)
        (λ id. Succeeds-bind _ _ (a.signs id) (λ sig. (_, refl)))

  seal_by_total : (i s : Option Bytes) (m : Metadata) (o : Object) → Succeeds (seal_by env i s m o)
  unfolding seal_by
  seal_by_total (some id) (some sig) m o = (o, refl)
  seal_by_total (some id) none m o = flush_total m o
  seal_by_total none s m o = flush_total m o

  seal_total : (m : Metadata) (o : Object) → Succeeds (seal env m o)
  unfolding seal
  seal_total m o = seal_by_total o.id o.signature m o

  deliver_total : (log : List Delivery) (o : Object) (p : Bytes) → Succeeds (deliver env log o p)
  unfolding deliver
  deliver_total log o p =
      (log ++ record { object = o; payload = p } ∷ [], rw (a.takes log o p, deliver))

  pub write_in_mem_total :
      (log : List Delivery) (o : Object) (p : Bytes) (m : Metadata)
      → (r : Object × List Delivery) × (write_in_mem_object env log o p m ≡ ok r)
  unfolding write_in_mem_object
  write_in_mem_total log o p m =
      Succeeds-bind _ _ (seal_total m o)
        (λ sent. Succeeds-bind _ _ (deliver_total log sent p) (λ log'. (_, refl)))

  pub send_child_total :
      (w : PayloadWriter) (o : Object) (m : Metadata)
      → (w' : PayloadWriter) × (send_child env w o m ≡ ok w')
  unfolding send_child
  send_child_total w o m = Succeeds-bind _ _ (write_in_mem_total w.log o w.buf m) (λ r. (_, refl))

  next_child_total : (w : PayloadWriter) → (w' : PayloadWriter) × (next_child env w ≡ ok w')
  unfolding next_child write_intermediate_child
  next_child_total w =
      Succeeds-bind _ _
        (elim (Bool-cases w.with_split) [
          | inl s ↦ simp s (send_child_total w _ w.child_meta)
          | inr s ↦ simp s (Succeeds-bind _ _ (send_child_total _ _ w.root_meta) (λ w1. (_, refl)))
        ])
        (λ w'. (_, refl))

  go_on_total :
      (f : ℕ) (w : PayloadWriter) (d chunk : Bytes)
      → Inv w d
      → w.limit - w.written < length chunk
      → ((w2 : PayloadWriter)
          → Inv w2 (d ++ take (w.limit - w.written) chunk)
          → w2.written ≡ 0
          → Succeeds (write_fuel env f w2 (drop (w.limit - w.written) chunk)))
      → Succeeds (go_on env f w chunk)
  go_on_total f w d chunk i l rec =
      let part = take (w.limit - w.written) chunk in
      let short : length part ≤ w.limit - w.written =
        omega (arith, length-take (w.limit - w.written) chunk) in
      Succeeds-bind_eq _ _ (next_child_total (fill w part)) λ w2 e2.
        let (sent, p, q) = next_child_ok env (fill w part) e2 in
        let j =
          sent_state-Inv env (fill w part) sent (d ++ part) (fill-Inv w d part i short)
            (filled env w d chunk i l) in
        Succeeds-bind _ _ (rec w2 (rw q j) (ap (λ (x : PayloadWriter). x.written) q))
          (λ r. (_, refl))

  write_fuel_total :
      (f : ℕ) (w : PayloadWriter) (d chunk : Bytes)
      → Inv w d
      → length chunk + 2 ≤ f + min 1 (w.limit - w.written)
      → (r : ℕ × PayloadWriter) × (write_fuel env f w chunk ≡ ok r)
  write_fuel_total zero w d chunk i l = absurd (omega arith)
  write_fuel_total (suc f) w d [] i l = ((0, w), write_fuel_empty env f w)
  write_fuel_total (suc f) w d (c ∷ cs) i l =
      elim (Bool-cases (ltb (w.limit - w.written) (length (c ∷ cs)))) [
        | inr small ↦ (_, write_fuel_fits env f w c cs i.range (ground arith))
        | inl big ↦
            let over : w.limit - w.written < length (c ∷ cs) = ground arith in
            rw (write_fuel_over env f w (c ∷ cs) i.range over) (
              go_on_total f w d (c ∷ cs) i over (λ w2 j e.
                write_fuel_total f w2 (d ++ take (w.limit - w.written) (c ∷ cs))
                  (drop (w.limit - w.written) (c ∷ cs)) j
                  (omega
                    (arith, e, length-drop (w.limit - w.written) (c ∷ cs), j.range.limit_pos))))
      ]

  -- In every state between two calls, `Write` of any chunk returns, and says that all of it was taken.
  pub write_total :
      (w : PayloadWriter) (d chunk : Bytes)
      → Inv w d
      → (w' : PayloadWriter) × (write env w chunk ≡ ok (length chunk, w'))
  unfolding write
  write_total w d chunk i =
      let ((n, w'), e) = write_fuel_total (length chunk + 2) w d chunk i (omega arith) in
      let (j, m) = write_fuel-Inv env (length chunk + 2) w d chunk i e in
      (w', e ∙ ap (λ (t : ℕ). ok (t, w')) m)
