-- ===== src/Pool/Cache/Laws.antt =====
-- What the cache of session tokens gives back (pool/cache.go).
use neofs_sdk_go.Prelude.{
  ℕ, max, ◌≡◌, refl, sym, ap, ◌∙◌, true, false, ◌&&◌, Option, none, some, List, [], ◌∷◌, ltb,
  if◌then◌else◌, Bool-cases, Option-cases, arith, inl, inr,
}
use neofs_sdk_go.Prelude.Bytes.{Bytes, bytes_eq, bytes_eq_iff}
use neofs_sdk_go.Prelude.Some.{Some}
use neofs_sdk_go.Session.{Object, expired_at}
use neofs_sdk_go.Pool.Cache.{
  Lru, has_prefix, SessionCache, expired, get_session, put, delete_keys, delete_by_prefix,
  update_epoch,
}

module _ (lru : Lru) where
  abbrev pub looks_up : SessionCache lru → Bytes → Option Object
  looks_up c j = lru.lookup c.cache j

  -- A token as long as it has not expired in the cache's epoch.
  abbrev pub alive : SessionCache lru → Option Object → Option Object
  alive c none = none
  alive c (some t) = if expired_at t.common_data c.current_epoch then none else some t

  module _ (c : SessionCache lru) (key : Bytes) where
    get_missing :
        looks_up c key ≡ none
        → get_session lru c key ≡ (record c { cache = lru.get c.cache key }, none)
    unfolding get_session
    get_missing e = rw (e, get_session)

    get_dead :
        {t : Object}
        → looks_up c key ≡ some t
        → expired_at t.common_data c.current_epoch ≡ true
        → get_session lru c key ≡ (record c { cache = lru.remove (lru.get c.cache key) key }, none)
    unfolding get_session expired
    get_dead e x = rw (e, get_session) (rw x)

    get_living :
        {t : Object}
        → looks_up c key ≡ some t
        → expired_at t.common_data c.current_epoch ≡ false
        → get_session lru c key ≡ (record c { cache = lru.get c.cache key }, some t)
    unfolding get_session expired
    get_living e x = rw (e, get_session) (rw x)

  -- Get returns the token of its key unless it has expired, and removes it if it has; other keys keep
  -- theirs.
  pub get_session_lem :
      (c : SessionCache lru) (key : Bytes)
      → ((get_session lru c key).1 ≡ alive c (looks_up c key))
        × ((j : Bytes)
            → looks_up (get_session lru c key).0 j
              ≡ (if bytes_eq key j then alive c (looks_up c key) else looks_up c j))
  get_session_lem c key = elim (Option-cases (looks_up c key)) [
    | inl e ↦ rw (get_missing c key e, e) (refl, λ j. lru.lookup-get c.cache key j ∙ same j e)
    | inr (t, e) ↦ elim (Bool-cases (expired_at t.common_data c.current_epoch)) [
      | inl x ↦
          rw (get_dead c key e x, e)
            (rw x (
              refl,
              λ j.
                  lru.lookup-remove (lru.get c.cache key) key j ∙ rw (lru.lookup-get c.cache key j),
            ))
      | inr x ↦
          rw (get_living c key e x, e) (rw x (refl, λ j. lru.lookup-get c.cache key j ∙ same j e))
    ]
  ]
    where
      same :
          (j : Bytes) {o : Option Object}
          → looks_up c key ≡ o
          → looks_up c j ≡ (if bytes_eq key j then o else looks_up c j)
      same j e = elim (Bool-cases (bytes_eq key j)) [
        | inl y ↦ rw y (ap (lru.lookup c.cache) (sym ((bytes_eq_iff key j).0 y)) ∙ e)
        | inr n ↦ rw n
      ]

  -- One round of the loop, at the key `j`.
  delete_round :
      (prefix k : Bytes) (c : lru.Cache) (j : Bytes)
      → lru.lookup (if has_prefix k prefix then lru.remove c k else c) j
        ≡ (if has_prefix k prefix && bytes_eq k j then none else lru.lookup c j)
  delete_round prefix k c j = elim (Bool-cases (has_prefix k prefix)) [
    | inl y ↦ rw y (lru.lookup-remove c k j)
    | inr n ↦ rw n
  ]

  delete_keys_missing :
      (prefix : Bytes) (ks : List Bytes) (c : lru.Cache) (j : Bytes)
      → lru.lookup c j ≡ none
      → lru.lookup (delete_keys lru prefix ks c) j ≡ none
  unfolding delete_keys
  delete_keys_missing prefix [] c j e = e
  delete_keys_missing prefix (k ∷ ks) c j e =
      delete_keys_missing prefix ks (if has_prefix k prefix then lru.remove c k else c) j
        (delete_round prefix k c j ∙ rw e (ground arith))

  delete_keys_other :
      (prefix : Bytes) (ks : List Bytes) (c : lru.Cache) (j : Bytes)
      → has_prefix j prefix ≡ false
      → lru.lookup (delete_keys lru prefix ks c) j ≡ lru.lookup c j
  unfolding delete_keys
  delete_keys_other prefix [] c j n = refl
  delete_keys_other prefix (k ∷ ks) c j n =
      delete_keys_other prefix ks (if has_prefix k prefix then lru.remove c k else c) j n
      ∙ delete_round prefix k c j
      ∙ elim (Bool-cases (bytes_eq k j)) [
        | inl y ↦ rw ((bytes_eq_iff k j).0 y) (rw n)
        | inr z ↦ rw z (ground arith)
      ]

  delete_keys_found :
      (prefix : Bytes) (ks : List Bytes) (c : lru.Cache) (j : Bytes)
      → Some (λ k. k ≡ j) ks
      → has_prefix j prefix ≡ true
      → lru.lookup (delete_keys lru prefix ks c) j ≡ none
  unfolding delete_keys
  delete_keys_found prefix [] c j m y = absurd m
  delete_keys_found prefix (k ∷ ks) c j (inl e) y =
      delete_keys_missing prefix ks (if has_prefix k prefix then lru.remove c k else c) j (
        delete_round prefix k c j
        ∙ rw (ap (λ q. has_prefix q prefix) e ∙ y, (bytes_eq_iff k j).1 e))
  delete_keys_found prefix (k ∷ ks) c j (inr m) y =
      delete_keys_found prefix ks (if has_prefix k prefix then lru.remove c k else c) j m y

  -- DeleteByPrefix removes the tokens of exactly the keys with the prefix.
  pub delete_by_prefix_lem :
      (c : SessionCache lru) (prefix j : Bytes)
      → looks_up (delete_by_prefix lru c prefix) j
        ≡ (if has_prefix j prefix then none else looks_up c j)
  unfolding delete_by_prefix
  delete_by_prefix_lem c prefix j = elim (Bool-cases (has_prefix j prefix)) [
    | inr n ↦ rw n (delete_keys_other prefix (lru.keys c.cache) c.cache j n)
    | inl y ↦ elim (Option-cases (looks_up c j)) [
      | inl e ↦ rw y (delete_keys_missing prefix (lru.keys c.cache) c.cache j e)
      | inr (t, e) ↦
          rw y
            (delete_keys_found prefix (lru.keys c.cache) c.cache j (lru.lookup-keys c.cache j e) y)
    ]
  ]

  pub put-looks_up :
      (c : SessionCache lru) (key : Bytes) (t : Object) → looks_up (put lru c key t) key ≡ some t
  unfolding put
  put-looks_up c key t = lru.lookup-add c.cache key t

  pub update_epoch_lem :
      (c : SessionCache lru) (e : ℕ)
      → ((update_epoch lru c e).current_epoch ≡ max c.current_epoch e)
        × ((update_epoch lru c e).cache ≡ c.cache)
  unfolding update_epoch
  update_epoch_lem c e = elim (Bool-cases (ltb c.current_epoch e)) [
    | inl y ↦ rw y (ground arith, refl)
    | inr n ↦ rw n (ground arith, refl)
  ]
