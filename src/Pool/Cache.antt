-- ===== src/Pool/Cache.antt =====
-- The cache of session tokens: pool/cache.go, over an LRU cache of a third party, which is a parameter:
-- its operations, and what its documentation says of them. Keys are byte strings.
pub mod Laws
use neofs_sdk_go.Prelude.{
  ℕ, Bool, true, false, Option, none, some, List, [], ◌∷◌, ltb, ◌==◌, ◌&&◌, ◌≡◌, ◌⊎◌, ◌≢◌,
  if◌then◌else◌,
}
use neofs_sdk_go.Prelude.Bytes.{Bytes, bytes_eq}
use neofs_sdk_go.Prelude.Some.{Some}
use neofs_sdk_go.Session.{Object, CommonData, expired_at}

-- `get` may change the order of use; `lookup` is what it finds. `add` may evict another key.
pub record Lru : Type 1 where
  pub Cache : Type 0
  pub lookup : Cache → Bytes → Option Object
  pub get : Cache → Bytes → Cache
  pub add : Cache → Bytes → Object → Cache
  pub remove : Cache → Bytes → Cache
  pub keys : Cache → List Bytes
  pub lookup-get : (c : Cache) (k j : Bytes) → lookup (get c k) j ≡ lookup c j
  pub lookup-add : (c : Cache) (k : Bytes) (v : Object) → lookup (add c k v) k ≡ some v
  pub lookup-add_other :
      (c : Cache) (k j : Bytes) (v : Object)
      → k ≢ j
      → (lookup (add c k v) j ≡ lookup c j) ⊎ (lookup (add c k v) j ≡ none)
  pub lookup-remove :
      (c : Cache) (k j : Bytes)
      → lookup (remove c k) j ≡ (if bytes_eq k j then none else lookup c j)
  pub lookup-keys :
      (c : Cache) (j : Bytes) {v : Object} → lookup c j ≡ some v → Some (λ k. k ≡ j) (keys c)

-- `strings.HasPrefix`
pub has_prefix : Bytes → Bytes → Bool
has_prefix s [] = true
has_prefix [] (p ∷ ps) = false
has_prefix (b ∷ bs) (p ∷ ps) = b == p && has_prefix bs ps

module _ (lru : Lru) where
  open lru use {Cache, lookup, get, add, remove, keys}

  pub record SessionCache : Type 0 where
    pub cache : Cache
    pub current_epoch : ℕ

  pub expired : SessionCache → Object → Bool
  expired c token = expired_at token.common_data c.current_epoch

  -- `Get`
  pub get_session : SessionCache → Bytes → SessionCache × Option Object
  unfolding expired
  get_session c key = elim (lookup c.cache key) [
    | none ↦ (record c { cache = get c.cache key }, none)
    | some token ↦
        if expired c token
        then (record c { cache = remove (get c.cache key) key }, none)
        else (record c { cache = get c.cache key }, some token)
  ]

  -- `Put`
  pub put : SessionCache → Bytes → Object → SessionCache
  put c key token = record c { cache = add c.cache key token }

  -- The loop of `DeleteByPrefix` over the keys.
  pub delete_keys : Bytes → List Bytes → Cache → Cache
  unfolding has_prefix
  delete_keys prefix [] c = c
  delete_keys prefix (k ∷ ks) c =
      delete_keys prefix ks (if has_prefix k prefix then remove c k else c)

  pub delete_by_prefix : SessionCache → Bytes → SessionCache
  unfolding delete_keys
  delete_by_prefix c prefix = record c { cache = delete_keys prefix (keys c.cache) c.cache }

  pub update_epoch : SessionCache → ℕ → SessionCache
  update_epoch c new_epoch =
      if ltb c.current_epoch new_epoch then record c { current_epoch = new_epoch } else c
