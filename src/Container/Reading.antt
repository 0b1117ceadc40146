-- ===== src/Container/Reading.antt =====
-- Which messages `readFromV2` (container/container.go) reads.
use neofs_sdk_go.Prelude.{
  ℕ, ◌≡◌, ◌≢◌, ◌↔◌, refl, ap, Bool, true, false, not, ◌||◌, Option, none, some, List, [], ◌∷◌, ◌==◌,
  ==_iff, length, All, Bool-cases, arith, inl, inr,
}
use neofs_sdk_go.Prelude.Bytes.{Bytes, bytes_eq, bytes_eq_iff}
use neofs_sdk_go.Prelude.Result.{ok, >>=-eq-ok, guard_ok, Succeeds}
use neofs_sdk_go.Netmap.Container.{PlacementPolicy}
use neofs_sdk_go.Container.{
  ContainerEnv, Attribute, Container, missing_version, timestamp_key, is_int64, any_key,
  check_attributes, present, check_owner, check_uuid, check_nonce, check_policy, read_from_v2,
}
use neofs_sdk_go.Container.Attributes.{LacksKey, DistinctKeys}

abbrev NewKeys : List Bytes → List Attribute → Type 0
NewKeys keys [] = Unit
NewKeys keys (a ∷ as') = (any_key a.key keys ≡ false) × NewKeys keys as'

-- A key and a value, and a number where the key is the timestamp's.
abbrev pub GoodAttribute : Attribute → Type 0
GoodAttribute a = (a.key ≢ []) × (a.value ≢ []) × (timestamp_key ≡ a.key → is_int64 a.value ≡ true)

NewKeys-LacksKey :
    (k : Bytes) (keys : List Bytes) (as' : List Attribute)
    → NewKeys (k ∷ keys) as'
    → LacksKey k as' × NewKeys keys as'
unfolding any_key
NewKeys-LacksKey k keys [] h = (tt, tt)
NewKeys-LacksKey k keys (a ∷ as') (h, t) =
    let (l, w) = NewKeys-LacksKey k keys as' t in
    elim (Bool-cases (bytes_eq k a.key)) [
      | inl y ↦ ground arith
      | inr z ↦ ((λ e. (let y = (bytes_eq_iff k a.key).1 e in cc), l), (ground arith, w))
    ]

LacksKey-NewKeys :
    (k : Bytes) (keys : List Bytes) (as' : List Attribute)
    → LacksKey k as'
    → NewKeys keys as'
    → NewKeys (k ∷ keys) as'
unfolding any_key
LacksKey-NewKeys k keys [] l w = tt
LacksKey-NewKeys k keys (a ∷ as') (n, l) (b, w) = (
  elim (Bool-cases (bytes_eq k a.key)) [
    | inl y ↦ absurd (n ((bytes_eq_iff k a.key).0 y))
    | inr z ↦ rw (any_key, z, b) refl
  ],
  LacksKey-NewKeys k keys as' l w,
)

nothing-NewKeys : (as' : List Attribute) → NewKeys [] as'
unfolding any_key
nothing-NewKeys [] = tt
nothing-NewKeys (a ∷ as') = (refl, nothing-NewKeys as')

some_length {ℓ} : {A : Type ℓ} (bs : List A) → (not (length bs == 0) ≡ true) ↔ (bs ≢ [])
some_length [] = (λ h. cc, λ h. absurd (h refl))
some_length (b ∷ bs) = (λ h e. cc, λ h. ground arith)

stamped :
    (k v : Bytes)
    → ((not (bytes_eq timestamp_key k) || is_int64 v) ≡ true)
      ↔ (timestamp_key ≡ k → is_int64 v ≡ true)
stamped k v = elim (Bool-cases (bytes_eq timestamp_key k)) [
  | inl y ↦ rw y (λ h e. h, λ h. h ((bytes_eq_iff timestamp_key k).0 y))
  | inr z ↦ rw z (λ h e. (let y = (bytes_eq_iff timestamp_key k).1 e in cc), λ h. refl)
]

negated_iff : (b : Bool) → (not b ≡ true) ↔ (b ≡ false)
negated_iff true = (λ h. cc, λ h. cc)
negated_iff false = (λ h. refl, λ h. refl)

check_attributes→Good :
    (keys : List Bytes) (as' : List Attribute)
    → Succeeds (check_attributes keys as')
    → NewKeys keys as' × DistinctKeys as' × All GoodAttribute as'
unfolding check_attributes
check_attributes→Good keys [] h = (tt, tt, tt)
check_attributes→Good keys (a ∷ as') (n, h) =
    let (k, h1) = guard_ok (not (length a.key == 0)) _ _ h in
    let (u, h2) = guard_ok (not (any_key a.key keys)) _ _ h1 in
    let (v, h3) = guard_ok (not (length a.value == 0)) _ _ h2 in
    let (t, h4) = guard_ok (not (bytes_eq timestamp_key a.key) || is_int64 a.value) _ _ h3 in
    let (w, d, g) = check_attributes→Good (a.key ∷ keys) as' (n, h4) in
    let (l, w') = NewKeys-LacksKey a.key keys as' w in
    (
      ((negated_iff (any_key a.key keys)).0 u, w'),
      (l, d),
      (((some_length a.key).0 k, (some_length a.value).0 v, (stamped a.key a.value).0 t), g),
    )

Good→check_attributes :
    (keys : List Bytes) (as' : List Attribute)
    → NewKeys keys as'
    → DistinctKeys as'
    → All GoodAttribute as'
    → Succeeds (check_attributes keys as')
unfolding check_attributes
Good→check_attributes keys [] w d g = (0, refl)
Good→check_attributes keys (a ∷ as') (u, w) (l, d) ((k, v, t), g) =
    let (n, e) =
      Good→check_attributes (a.key ∷ keys) as' (LacksKey-NewKeys a.key keys as' l w) d g in
    (
      n,
      rw
          (
            check_attributes,
            (some_length a.key).1 k,
            (negated_iff (any_key a.key keys)).1 u,
            (some_length a.value).1 v,
            (stamped a.key a.value).1 t,
            e,
          )
          refl,
    )

-- A field that may be missing only where presence is not checked.
abbrev pub Here : {A : Type 0} → Bool → (A → Type 0) → Option A → Type 0
Here check P none = check ≡ false
Here check P (some a) = P a

owner_iff :
    (env : ContainerEnv) (check : Bool) (o : Option Bytes)
    → Succeeds (check_owner env check o) ↔ Here check (λ u. env.check_user u ≡ true) o
unfolding check_owner
owner_iff env true none = (λ (a, h). cc, λ h. cc)
owner_iff env false none = (λ h. refl, λ h. (0, refl))
owner_iff env true (some u) =
    (λ (a, h). (guard_ok (env.check_user u) _ _ h).0, λ h. (0, rw (check_owner, h) refl))
owner_iff env false (some u) =
    (λ (a, h). (guard_ok (env.check_user u) _ _ h).0, λ h. (0, rw (check_owner, h) refl))

version_iff :
    (check : Bool) (v : Option ℕ)
    → Succeeds (present missing_version check v) ↔ Here check (λ n. Unit) v
unfolding present
version_iff true none = (λ (a, h). cc, λ h. cc)
version_iff false none = (λ h. refl, λ h. (0, refl))
version_iff true (some v) = (λ h. tt, λ h. (0, refl))
version_iff false (some v) = (λ h. tt, λ h. (0, refl))

policy_iff :
    (env : ContainerEnv) (check : Bool) (p : Option PlacementPolicy)
    → Succeeds (check_policy env check p) ↔ Here check (λ q. q.replicas ≢ []) p
unfolding check_policy
policy_iff env true none = (λ (a, h). cc, λ h. cc)
policy_iff env false none = (λ h. refl, λ h. (0, refl))
policy_iff env true (some q) = (
  λ (a, h). (some_length q.replicas).0 (guard_ok (not (length q.replicas == 0)) _ _ h).0,
  λ h. (0, rw (check_policy, (some_length q.replicas).1 h) refl),
)
policy_iff env false (some q) = (
  λ (a, h). (some_length q.replicas).0 (guard_ok (not (length q.replicas == 0)) _ _ h).0,
  λ h. (0, rw (check_policy, (some_length q.replicas).1 h) refl),
)

-- A UUID of version 4, or none where presence is not checked.
abbrev pub GoodNonce : ContainerEnv → Bool → Bytes → Type 0
GoodNonce env check [] = check ≡ false
GoodNonce env check (b ∷ bs) = env.uuid_version (b ∷ bs) ≡ some 4

uuid_iff : (v : Option ℕ) → Succeeds (check_uuid v) ↔ (v ≡ some 4)
unfolding check_uuid
uuid_iff none = (λ (a, h). cc, λ h. cc)
uuid_iff (some v) = (
  λ (a, h). ap some ((==_iff v 4).0 (guard_ok (v == 4) _ _ h).0),
  λ h. (0, (let e : v ≡ 4 = cc in rw (check_uuid, (==_iff v 4).1 e) refl)),
)

nonce_iff :
    (env : ContainerEnv) (check : Bool) (n : Bytes)
    → Succeeds (check_nonce env check n) ↔ GoodNonce env check n
unfolding check_nonce
nonce_iff env true [] = (λ (a, h). cc, λ h. cc)
nonce_iff env false [] = (λ h. refl, λ h. (0, refl))
nonce_iff env true (b ∷ bs) = uuid_iff (env.uuid_version (b ∷ bs))
nonce_iff env false (b ∷ bs) = uuid_iff (env.uuid_version (b ∷ bs))

abbrev pub ContainerReadable : ContainerEnv → Container → Bool → Type 0
ContainerReadable env m check =
    Here check (λ u. env.check_user u ≡ true) m.owner
    × GoodNonce env check m.nonce
    × Here check (λ n. Unit) m.version
    × Here check (λ q. q.replicas ≢ []) m.policy
    × DistinctKeys m.attributes
    × All GoodAttribute m.attributes

-- A message is read, and kept as it is, exactly when its owner is a user's ID, its nonce a UUID of version
-- 4, its policy has replicas, the keys of its attributes all differ, no key or value is empty and the
-- timestamp is a 64-bit number; of the first four, and of the version, those that are missing are refused
-- only where presence is checked.
pub container_reads_iff :
    (env : ContainerEnv) (m : Container) (check : Bool)
    → (read_from_v2 env m check ≡ ok m) ↔ ContainerReadable env m check
unfolding read_from_v2
container_reads_iff env m check = (to, from)
  where
    to : read_from_v2 env m check ≡ ok m → ContainerReadable env m check
    to h =
        let (o, eo, h1) = >>=-eq-ok (check_owner env check m.owner) _ h in
        let (n, en, h2) = >>=-eq-ok (check_nonce env check m.nonce) _ h1 in
        let (v, ev, h3) = >>=-eq-ok (present missing_version check m.version) _ h2 in
        let (p, ep, h4) = >>=-eq-ok (check_policy env check m.policy) _ h3 in
        let (a, ea, h5) = >>=-eq-ok (check_attributes [] m.attributes) _ h4 in
        let (w, d, g) = check_attributes→Good [] m.attributes (a, ea) in
        (
          (owner_iff env check m.owner).0 (o, eo),
          (nonce_iff env check m.nonce).0 (n, en),
          (version_iff check m.version).0 (v, ev),
          (policy_iff env check m.policy).0 (p, ep),
          d,
          g,
        )

    from : ContainerReadable env m check → read_from_v2 env m check ≡ ok m
    from (o, n, v, p, d, g) =
        rw
          (
            read_from_v2,
            ((owner_iff env check m.owner).1 o).1,
            ((nonce_iff env check m.nonce).1 n).1,
            ((version_iff check m.version).1 v).1,
            ((policy_iff env check m.policy).1 p).1,
            (Good→check_attributes [] m.attributes (nothing-NewKeys m.attributes) d g).1,
          )
          refl
