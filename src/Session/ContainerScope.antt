-- ===== src/Session/ContainerScope.antt =====
-- The scope of a container session: session/container.go. Its context is taken as that of an object
-- session is; the wildcard stands for every container of the session's owner.
use neofs_sdk_go.Prelude.{
  ℕ, ◌<◌, ◌≡◌, refl, Bool, true, false, not, ◌||◌, Option, none, some, ◌==◌, if◌then◌else◌, ◌%◌,
  length, Bool-cases, inl, inr,
}
use neofs_sdk_go.Prelude.Bytes.{Bytes, bytes_eq}
use neofs_sdk_go.Prelude.Result.{Result, ok, err, ◌>>=◌}
use neofs_sdk_go.Session.{
  CommonData, ContextError, decode_id, invalid_container_id, invalid_context, container_conflicts,
  missing_container_or_wildcard, verb_to_v2,
}
use neofs_sdk_go.Session.Scope.{verb_back}

pub record Container : Type 0 where
  pub common_data : CommonData
  pub verb : ℕ
  pub cnr_set : Bool
  pub cnr : Bytes

pub record ContainerSessionContext : Type 0 where
  pub verb : ℕ
  pub wildcard : Bool
  pub container_id : Option Bytes

-- The branches of `readContext` on the wildcard and the ID, the flag `cnrSet` set before them.
pub read_target : Container → Bool → Option Bytes → Bool → Result ContextError Container
unfolding decode_id
read_target x true none check = ok (record x { cnr_set = false })
read_target x true (some cnr) check = err container_conflicts
read_target x false (some cnr) check = do
  id ← decode_id invalid_container_id cnr
  ok (record x { cnr_set = true; cnr = id })
read_target x false none true = err missing_container_or_wildcard
read_target x false none false = ok (record x { cnr_set = true })

-- `readContext` on a context of a container session; another kind is none.
pub read_container_context :
    Container → Option ContainerSessionContext → Bool → Result ContextError Container
unfolding read_target
read_container_context x none check = err invalid_context
read_container_context x (some c) check = do
  x1 ← read_target x c.wildcard c.container_id check
  ok (record x1 { verb = c.verb % 256 })

pub write_container_context : Container → ContainerSessionContext
unfolding verb_to_v2
write_container_context x = record {
  verb = verb_to_v2 x.verb;
  wildcard = not x.cnr_set;
  container_id = if x.cnr_set then some x.cnr else none;
}

pub apply_only_to : Container → Bytes → Container
apply_only_to x cnr = record x { cnr = cnr; cnr_set = true }

pub applied_to : Container → Bytes → Bool
applied_to x cnr = not x.cnr_set || bytes_eq x.cnr cnr

pub for_container_verb : Container → ℕ → Container
for_container_verb x verb = record x { verb = verb }

pub assert_container_verb : Container → ℕ → Bool
assert_container_verb x verb = x.verb == verb

abbrev container_taken_over : Container → Container → Container
container_taken_over old t = record old {
  verb = t.verb;
  cnr_set = t.cnr_set;
  cnr = if t.cnr_set then t.cnr else old.cnr;
}

read_target_written :
    (x : Container) (s check : Bool) (c : Bytes)
    → (s ≡ true → length c ≡ 32)
    → read_target x (not s) (if s then some c else none) check
      ≡ ok (record x { cnr_set = s; cnr = if s then c else x.cnr })
unfolding read_target decode_id
read_target_written x true check c h = rw (h refl) refl
read_target_written x false check c h = refl

container_written :
    (old t : Container) (check : Bool)
    → (t.cnr_set ≡ true → length t.cnr ≡ 32)
    → t.verb < 256
    → read_container_context old (some (write_container_context t)) check
      ≡ ok (container_taken_over old t)
unfolding read_container_context write_container_context
container_written old t check h v =
    rw (read_target_written old t.cnr_set check t.cnr h, verb_back t.verb v) refl

-- Two sessions that no question tells apart and whose contexts are the same.
pub record SameContainerScope (a b : Container) : Type 0 where
  pub same_applied : (cnr : Bytes) → applied_to a cnr ≡ applied_to b cnr
  pub same_verb : (verb : ℕ) → assert_container_verb a verb ≡ assert_container_verb b verb
  pub same_context : write_container_context a ≡ write_container_context b

container_taken_over-SameContainerScope :
    (old t : Container) → SameContainerScope (container_taken_over old t) t
unfolding applied_to assert_container_verb write_container_context
container_taken_over-SameContainerScope old t = elim (Bool-cases t.cnr_set) [
  | inl s ↦ record {
    same_applied = λ cnr. simp s refl;
    same_verb = λ v. refl;
    same_context = simp s refl;
  }
  | inr s ↦ record {
    same_applied = λ cnr. simp s refl;
    same_verb = λ v. refl;
    same_context = simp s refl;
  }
]

-- With or without checks of presence, the context of a container session whose ID has 32 bytes and whose
-- verb is an int8 is read into any session, and the result applies to the same containers and verbs and
-- has the same context.
pub read_container_context-write :
    (old t : Container) (check : Bool)
    → (t.cnr_set ≡ true → length t.cnr ≡ 32)
    → t.verb < 256
    → (r : Container) × (read_container_context old (some (write_container_context t)) check ≡ ok r)
      × SameContainerScope r t
read_container_context-write old t check h v = (
  container_taken_over old t,
  container_written old t check h v,
  container_taken_over-SameContainerScope old t,
)
