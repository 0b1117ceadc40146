-- ===== src/Session.antt =====
-- The scope of an object session: session/object.go. A token's context is taken by the fields that the
-- getters of the API package return, an unset field being none, and its verb as the uint32 that it is
-- there; `ObjectVerb` is the int8 whose bits are those of a number below 256. Of session/common.go, which
-- has what sessions share, these are the fields, their setters and the questions on epochs.
pub mod Scope
pub mod Readable
pub mod ContainerScope
mod Tests
use neofs_sdk_go.Prelude.{
  ℕ, zero, suc, ◌+◌, ◌-◌, ◌%◌, ◌^◌, Bool, true, false, not, ◌&&◌, ◌||◌, Option, none, some, List,
  [], ◌∷◌, ltb, ◌==◌, if◌then◌else◌, length,
}
use neofs_sdk_go.Prelude.Bytes.{Bytes, bytes_eq}
use neofs_sdk_go.Prelude.Result.{Result, ok, err, ◌>>=◌}

pub record CommonData : Type 0 where
  pub id_set : Bool
  pub id : Bytes
  pub issuer_set : Bool
  pub issuer : Bytes
  pub lifetime_set : Bool
  pub iat : ℕ
  pub nbf : ℕ
  pub exp : ℕ
  pub auth_key : Bytes
  pub sig_set : Bool
  pub sig : Bytes

pub set_exp : CommonData → ℕ → CommonData
set_exp x exp = record x { exp = exp; lifetime_set = true }

pub set_nbf : CommonData → ℕ → CommonData
set_nbf x nbf = record x { nbf = nbf; lifetime_set = true }

pub set_iat : CommonData → ℕ → CommonData
set_iat x iat = record x { iat = iat; lifetime_set = true }

pub set_id : CommonData → Bytes → CommonData
set_id x id = record x { id = id; id_set = true }

pub set_issuer : CommonData → Bytes → CommonData
set_issuer x id = record x { issuer = id; issuer_set = true }

pub expired_at : CommonData → ℕ → Bool
expired_at x epoch = not x.lifetime_set || ltb x.exp epoch

pub invalid_at : CommonData → ℕ → Bool
unfolding expired_at
invalid_at x epoch = expired_at x epoch || ltb epoch x.nbf || ltb epoch x.iat

pub record Object : Type 0 where
  pub common_data : CommonData
  pub verb : ℕ
  pub cnr_set : Bool
  pub cnr : Bytes
  pub objs : Option (List Bytes)

pub record ObjectSessionContext : Type 0 where
  pub verb : ℕ
  pub container : Option Bytes
  pub objects : Option (List Bytes)

pub data TokenContext : Type 0 where
  object_context : ObjectSessionContext → TokenContext
  other_context : TokenContext

pub data ContextError : Type 0 where
  invalid_context invalid_container_id missing_target_container invalid_target_object
        container_conflicts missing_container_or_wildcard :
      ContextError

-- `Decode` of a container's or an object's ID, `e` standing for its wrapped error.
pub decode_id : ContextError → Bytes → Result ContextError Bytes
decode_id e src = if length src == 32 then ok src else err e

pub read_container : Object → Option Bytes → Bool → Result ContextError Object
unfolding decode_id
read_container x (some cnr) check = do
  id ← decode_id invalid_container_id cnr
  ok (record x { cnr_set = true; cnr = id })
read_container x none true = err missing_target_container
read_container x none false = ok (record x { cnr_set = false })

pub read_ids : List Bytes → Result ContextError (List Bytes)
unfolding decode_id
read_ids [] = ok []
read_ids (o ∷ os) = do id ← decode_id invalid_target_object o; ids ← read_ids os; ok (id ∷ ids)

pub read_objects : Object → Option (List Bytes) → Result ContextError Object
unfolding read_ids
read_objects x none = ok (record x { objs = none })
read_objects x (some os) = do ids ← read_ids os; ok (record x { objs = some ids })

-- `readContext` into the session `x`.
pub read_context : Object → TokenContext → Bool → Result ContextError Object
unfolding read_container read_objects
read_context x other_context check = err invalid_context
read_context x (object_context c) check = do
  x1 ← read_container x c.container check
  x2 ← read_objects x1 c.objects
  ok (record x2 { verb = c.verb % 256 })

-- `session.ObjectSessionVerb(x.verb)`: an int8 keeps its sign in a uint32.
pub verb_to_v2 : ℕ → ℕ
verb_to_v2 v = if ltb v 128 then v else v + (2 ^ 32 - 256)

abbrev pub list_of {ℓ} : {A : Type ℓ} → Option (List A) → List A
list_of none = []
list_of (some as') = as'

-- `writeContext`
pub write_context : Object → ObjectSessionContext
unfolding verb_to_v2
write_context x =
    if x.cnr_set || ltb 0 (length (list_of x.objs))
    then record {
      verb = verb_to_v2 x.verb;
      container = if x.cnr_set then some x.cnr else none;
      objects = x.objs;
    }
    else record { verb = verb_to_v2 x.verb; container = none; objects = none }

pub bind_container : Object → Bytes → Object
bind_container x cnr = record x { cnr = cnr; cnr_set = true }

pub assert_container : Object → Bytes → Bool
assert_container x cnr = bytes_eq x.cnr cnr

pub limit_by_objects : Object → Option (List Bytes) → Object
limit_by_objects x objs = record x { objs = objs }

pub any_equals : Bytes → List Bytes → Bool
any_equals obj [] = false
any_equals obj (o ∷ os) = let rest = any_equals obj os in if bytes_eq o obj then true else rest

pub assert_object : Object → Bytes → Bool
unfolding any_equals
assert_object x obj = if length (list_of x.objs) == 0 then true else any_equals obj (list_of x.objs)

pub for_verb : Object → ℕ → Object
for_verb x verb = record x { verb = verb }

pub assert_verb : Object → List ℕ → Bool
assert_verb x [] = false
assert_verb x (v ∷ vs) = let rest = assert_verb x vs in if v == x.verb then true else rest
