-- ===== src/Session/Readable.antt =====
-- Which contexts `readContext` (session/object.go) reads.
use neofs_sdk_go.Prelude.{
  ◌≡◌, ◌↔◌, refl, Bool, true, false, Option, none, some, List, [], ◌∷◌, arith, length,
}
use neofs_sdk_go.Prelude.Bytes.{Bytes}
use neofs_sdk_go.Prelude.Result.{ok, >>=-eq-ok, Succeeds, Succeeds-bind}
use neofs_sdk_go.Session.{
  invalid_container_id, invalid_target_object, Object, TokenContext, object_context, other_context,
  ContextError, decode_id, read_container, read_ids, read_objects, read_context, list_of,
}
use neofs_sdk_go.Session.Scope.{AllSized, read_ids_sized, read_objects_written}

-- What reading asks of a context: that it is of an object session, with a container where presence is
-- checked, and that its IDs have 32 bytes.
abbrev pub Readable : TokenContext → Bool → Type 0
Readable other_context check = ⊥
Readable (object_context c) check =
    (check ≡ true → (id : Bytes) × (c.container ≡ some id))
    × ((id : Bytes) → c.container ≡ some id → length id ≡ 32)
    × AllSized (list_of c.objects)

decode_sized :
    (e : ContextError) (src : Bytes) {r : Bytes} → decode_id e src ≡ ok r → length src ≡ 32
unfolding decode_id
decode_sized e src h = ground arith

read_ids-AllSized : (os : List Bytes) {r : List Bytes} → read_ids os ≡ ok r → AllSized os
unfolding read_ids
read_ids-AllSized [] h = tt
read_ids-AllSized (o ∷ os) h =
    let (_, e, k) = >>=-eq-ok (decode_id invalid_target_object o) _ h in
    let (_, e', _) = >>=-eq-ok (read_ids os) _ k in
    (decode_sized invalid_target_object o e, read_ids-AllSized os e')

read_objects-AllSized :
    (x : Object) (o : Option (List Bytes)) {r : Object}
    → read_objects x o ≡ ok r
    → AllSized (list_of o)
unfolding read_objects
read_objects-AllSized x none h = tt
read_objects-AllSized x (some os) h =
    let (_, e, _) = >>=-eq-ok (read_ids os) _ h in read_ids-AllSized os e

container_there :
    (x : Object) (o : Option Bytes) (check : Bool) {r : Object}
    → read_container x o check ≡ ok r
    → check ≡ true
    → (id : Bytes) × (o ≡ some id)
unfolding read_container
container_there x none true h q = cc
container_there x none false h q = cc
container_there x (some id) check h q = (id, refl)

container_sized :
    (x : Object) (o : Option Bytes) (check : Bool) {r : Object}
    → read_container x o check ≡ ok r
    → (id : Bytes) → o ≡ some id
    → length id ≡ 32
unfolding read_container
container_sized x none check h id q = cc
container_sized x (some c) check h id q =
    let (_, e, _) = >>=-eq-ok (decode_id invalid_container_id c) _ h in
    let s = decode_sized invalid_container_id c e in cc

read_ids_total : (os : List Bytes) → AllSized os → Succeeds (read_ids os)
read_ids_total os h = (os, read_ids_sized os h)

objects_total :
    (x : Object) (o : Option (List Bytes)) → AllSized (list_of o) → Succeeds (read_objects x o)
objects_total x o h = (record x { objs = o }, read_objects_written x o h)

container_total :
    (x : Object) (o : Option Bytes) (check : Bool)
    → (check ≡ true → (id : Bytes) × (o ≡ some id))
    → ((id : Bytes) → o ≡ some id → length id ≡ 32)
    → Succeeds (read_container x o check)
unfolding read_container decode_id
container_total x none true h s = let (_, q) = h refl in cc
container_total x none false h s = (record x { cnr_set = false }, refl)
container_total x (some id) check h s = (record x { cnr_set = true; cnr = id }, rw (s id refl) refl)

reads→Readable :
    (x : Object) (c : TokenContext) (check : Bool)
    → (r : Object) × (read_context x c check ≡ ok r)
    → Readable c check
unfolding read_context
reads→Readable x other_context check (_, e) = cc
reads→Readable x (object_context c) check (_, e) =
    let (x1, e1, k) = >>=-eq-ok (read_container x c.container check) _ e in
    let (x2, e2, _) = >>=-eq-ok (read_objects x1 c.objects) _ k in
    (
      container_there x c.container check e1,
      container_sized x c.container check e1,
      read_objects-AllSized x1 c.objects e2,
    )

Readable→reads :
    (x : Object) (c : TokenContext) (check : Bool)
    → Readable c check
    → (r : Object) × (read_context x c check ≡ ok r)
unfolding read_context
Readable→reads x other_context check h = absurd h
Readable→reads x (object_context c) check (h, s, a) =
    Succeeds-bind _ _ (container_total x c.container check h s)
      λ x1. Succeeds-bind _ _ (objects_total x1 c.objects a) λ x2. (_, refl)

-- A context is read exactly when it is one of an object session, every ID in it has 32 bytes, and,
-- where presence is checked, it names a container.
pub read_context_iff :
    (x : Object) (c : TokenContext) (check : Bool)
    → ((r : Object) × (read_context x c check ≡ ok r)) ↔ Readable c check
read_context_iff x c check = (reads→Readable x c check, Readable→reads x c check)
