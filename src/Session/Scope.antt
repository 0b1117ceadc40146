-- ===== src/Session/Scope.antt =====
-- What the scope of an object session (session/object.go) allows, and that its context says the same.
use neofs_sdk_go.Prelude.{
  ℕ, ◌<◌, ◌≤◌, ◌%◌, ◌≡◌, ◌↔◌, ◌⊎◌, refl, Bool, true, false, ◌||◌, Option, none, some, List, [], ◌∷◌,
  arith, ltb, ◌==◌, if◌then◌else◌, Bool-cases, length, inl, inr,
}
use neofs_sdk_go.Prelude.Bytes.{Bytes, bytes_eq, bytes_eq_iff}
use neofs_sdk_go.Prelude.Result.{ok}
use neofs_sdk_go.Prelude.Some.{Some}
use neofs_sdk_go.Session.{
  CommonData, invalid_at, expired_at, Object, object_context, decode_id, read_container, read_ids,
  read_objects, read_context, verb_to_v2, list_of, write_context, assert_container, any_equals,
  assert_object, assert_verb,
}

any_equals→Some :
    (obj : Bytes) (os : List Bytes) → any_equals obj os ≡ true → Some (λ o. o ≡ obj) os
unfolding any_equals
any_equals→Some obj [] e = cc
any_equals→Some obj (o ∷ os) e = elim (Bool-cases (bytes_eq o obj)) [
  | inl y ↦ inl ((bytes_eq_iff o obj).0 y)
  | inr n ↦ inr (any_equals→Some obj os (rw n at e))
]

Some→any_equals :
    (obj : Bytes) (os : List Bytes) → Some (λ o. o ≡ obj) os → any_equals obj os ≡ true
unfolding any_equals
Some→any_equals obj [] e = absurd e
Some→any_equals obj (o ∷ os) (inl y) = rw ((bytes_eq_iff o obj).1 y)
Some→any_equals obj (o ∷ os) (inr n) = ground (arith, Some→any_equals obj os n)

allowed_iff :
    (obj : Bytes) (os : List Bytes)
    → ((if length os == 0 then true else any_equals obj os) ≡ true)
      ↔ ((os ≡ []) ⊎ Some (λ o. o ≡ obj) os)
unfolding any_equals
allowed_iff obj [] = ((λ e. inl refl), (λ h. refl))
allowed_iff obj (o ∷ os) = (
  (λ e. inr (any_equals→Some obj (o ∷ os) (ground (arith, e)))),
  λ h. elim h [ inl n ↦ cc | inr s ↦ ground (arith, Some→any_equals obj (o ∷ os) s) ],
)

-- A session applies to an object exactly when it lists no object or lists that one.
pub assert_object_iff :
    (x : Object) (obj : Bytes)
    → (assert_object x obj ≡ true) ↔ ((list_of x.objs ≡ []) ⊎ Some (λ o. o ≡ obj) (list_of x.objs))
unfolding assert_object
assert_object_iff x obj = allowed_iff obj (list_of x.objs)

-- Every ID has the size of a SHA-256 hash.
abbrev pub AllSized : List Bytes → Type 0
AllSized [] = Unit {0}
AllSized (o ∷ os) = (length o ≡ 32) × AllSized os

pub read_ids_sized : (os : List Bytes) → AllSized os → read_ids os ≡ ok os
unfolding read_ids decode_id
read_ids_sized [] h = refl
read_ids_sized (o ∷ os) (h, hs) = rw (h, read_ids_sized os hs) refl

pub verb_back : (v : ℕ) → v < 256 → verb_to_v2 v % 256 ≡ v
unfolding verb_to_v2
verb_back v h = ground arith

-- The objects that `write_context` leaves out are none at all.
abbrev written_objs : Object → Option (List Bytes)
written_objs t = if t.cnr_set || ltb 0 (length (list_of t.objs)) then t.objs else none

abbrev taken_over : Object → Object → Object
taken_over old t = record old {
  verb = t.verb;
  cnr_set = t.cnr_set;
  cnr = if t.cnr_set then t.cnr else old.cnr;
  objs = written_objs t;
}

read_container_written :
    (x : Object) (s : Bool) (c : Bytes)
    → (s ≡ true → length c ≡ 32)
    → read_container x (if s then some c else none) false
      ≡ ok (record x { cnr_set = s; cnr = if s then c else x.cnr })
unfolding read_container decode_id
read_container_written x true c h = rw (h refl) refl
read_container_written x false c h = refl

pub read_objects_written :
    (x : Object) (o : Option (List Bytes))
    → AllSized (list_of o)
    → read_objects x o ≡ ok (record x { objs = o })
unfolding read_objects
read_objects_written x none h = refl
read_objects_written x (some os) h = rw (read_ids_sized os h) refl

written_fields :
    (t : Object)
    → ((write_context t).container ≡ (if t.cnr_set then some t.cnr else none))
      × ((write_context t).objects ≡ written_objs t)
      × ((write_context t).verb ≡ verb_to_v2 t.verb)
unfolding write_context
written_fields t = elim (Bool-cases t.cnr_set) [
  | inl s ↦ simp s (refl, refl, refl)
  | inr s ↦ elim (Bool-cases (ltb 0 (length (list_of t.objs)))) [
    | inl l ↦ simp (s, l) (refl, refl, refl)
    | inr l ↦ simp (s, l) (refl, refl, refl)
  ]
]

written_sized : (t : Object) → AllSized (list_of t.objs) → AllSized (list_of (written_objs t))
written_sized t h = elim (Bool-cases (t.cnr_set || ltb 0 (length (list_of t.objs)))) [
  | inl e ↦ rw e h
  | inr e ↦ rw e tt
]

read_written :
    (old t : Object)
    → (t.cnr_set ≡ true → length t.cnr ≡ 32)
    → AllSized (list_of t.objs)
    → t.verb < 256
    → read_context old (object_context (write_context t)) false ≡ ok (taken_over old t)
unfolding read_context
read_written old t hc ho hv =
    let (c, o, v) = written_fields t in
    rw (c, o, v, read_container_written old t.cnr_set t.cnr hc, verb_back t.verb hv)
      (rw
        (read_objects_written
          (record old { cnr_set = t.cnr_set; cnr = if t.cnr_set then t.cnr else old.cnr })
          (written_objs t) (written_sized t ho))
        refl)

same_objects :
    (t : Object) (obj : Bytes)
    → assert_object (record t { objs = written_objs t }) obj ≡ assert_object t obj
unfolding assert_object
same_objects t obj = elim (Bool-cases t.cnr_set) [
  | inl s ↦ simp s refl
  | inr s ↦ elim (Bool-cases (ltb 0 (length (list_of t.objs)))) [
    | inl l ↦ simp (s, l) refl
    | inr l ↦ simp (s, l) (ground arith)
  ]
]

same_verbs : (a b : Object) (vs : List ℕ) → a.verb ≡ b.verb → assert_verb a vs ≡ assert_verb b vs
unfolding assert_verb
same_verbs a b [] e = refl
same_verbs a b (v ∷ vs) e = rw (e, same_verbs a b vs e) refl

-- What a session read from the context of `t` says: the container is that of `t` where one is bound and
-- else that of the session it was read into, and the objects and the verb are those of `t`.
pub record SaysScope (old t r : Object) : Type 0 where
  pub same_cnr_set : r.cnr_set ≡ t.cnr_set
  pub same_container :
      (cnr : Bytes)
      → assert_container r cnr
        ≡ (if t.cnr_set then assert_container t cnr else assert_container old cnr)
  pub same_object : (obj : Bytes) → assert_object r obj ≡ assert_object t obj
  pub same_verb : (verbs : List ℕ) → assert_verb r verbs ≡ assert_verb t verbs

taken_over-SaysScope : (old t : Object) → SaysScope old t (taken_over old t)
unfolding assert_container assert_object
taken_over-SaysScope old t = record {
  same_cnr_set = refl;
  same_container = λ cnr. ground arith;
  same_object = λ obj. same_objects t obj;
  same_verb = λ vs. same_verbs (taken_over old t) t vs refl;
}

-- The context of a session whose IDs have 32 bytes and whose verb is an int8 is read without checks of
-- presence into any session. The result applies to the same objects and verbs; it is bound to the same
-- container, but where the context has no container it answers for the one it was bound to before.
pub read_context-write_context :
    (old t : Object)
    → (t.cnr_set ≡ true → length t.cnr ≡ 32)
    → AllSized (list_of t.objs)
    → t.verb < 256
    → (r : Object) × (read_context old (object_context (write_context t)) false ≡ ok r)
      × SaysScope old t r
read_context-write_context old t hc ho hv =
    (taken_over old t, read_written old t hc ho hv, taken_over-SaysScope old t)

-- A session is valid in exactly the epochs from its issue and its first epoch on up to its last, and
-- only with a lifetime; once it has expired it is not valid in that epoch or in a later one.
pub epochs_lem :
    (x : CommonData) (epoch : ℕ)
    → ((invalid_at x epoch ≡ false)
        ↔ ((x.lifetime_set ≡ true) × (x.iat ≤ epoch) × (x.nbf ≤ epoch) × (epoch ≤ x.exp)))
      × ((later : ℕ) → expired_at x epoch ≡ true → epoch ≤ later → invalid_at x later ≡ true)
unfolding invalid_at expired_at
epochs_lem x epoch = (((λ h. ground arith), (λ h. ground arith)), λ later h l. ground arith)
