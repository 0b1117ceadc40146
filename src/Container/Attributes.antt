-- ===== src/Container/Attributes.antt =====
-- What a container's attributes keep: attributes, domains and the network's flag (container/container.go,
-- container/network.go).
use neofs_sdk_go.Prelude.{
  ◌≡◌, ◌≢◌, refl, sym, ap, ◌∙◌, Bool, true, false, not, ◌||◌, List, [], ◌∷◌, ◌==◌, if◌then◌else◌,
  length, Bool-cases, arith, inl, inr,
}
use neofs_sdk_go.Prelude.Bytes.{Bytes, bytes_eq, bytes_eq_iff, codes}
use neofs_sdk_go.Prelude.Result.{ok}
use neofs_sdk_go.Netmap.NetworkInfo.{StackItem, NetworkInfo, homomorphic_hashing_disabled}
use neofs_sdk_go.Container.{
  ContainerEnv, Attribute, Container, set_in, set_attribute, find_in, attribute, Domain, zone_of,
  write_domain, read_domain, disable_homomorphic_hashing, is_homomorphic_hashing_disabled,
  apply_network_config, assert_network_config,
}

-- All keys differ.
abbrev pub LacksKey : Bytes → List Attribute → Type 0
LacksKey k [] = Unit
LacksKey k (a ∷ as') = (k ≢ a.key) × LacksKey k as'

abbrev pub DistinctKeys : List Attribute → Type 0
DistinctKeys [] = Unit
DistinctKeys (a ∷ as') = LacksKey a.key as' × DistinctKeys as'

bytes_ne : (a b : Bytes) → a ≢ b → bytes_eq a b ≡ false
bytes_ne a b n = elim (Bool-cases (bytes_eq a b)) [
  | inl y ↦ absurd (n ((bytes_eq_iff a b).0 y))
  | inr z ↦ z
]

find_in-set_in :
    (key value j : Bytes) (as' : List Attribute)
    → find_in j (set_in key value as') ≡ (if bytes_eq key j then value else find_in j as')
unfolding find_in set_in
find_in-set_in key value j [] = refl
find_in-set_in key value j (a ∷ as') = elim (Bool-cases (bytes_eq a.key key)) [
  | inl y ↦ rw (y, find_in, (bytes_eq_iff a.key key).0 y) (ground arith)
  | inr n ↦
      rw (n, find_in, find_in-set_in key value j as')
        (elim (Bool-cases (bytes_eq key j)) [
          | inl y ↦ rw (y, ap (bytes_eq a.key) (sym ((bytes_eq_iff key j).0 y)) ∙ n) refl
          | inr z ↦ rw z refl
        ])
]

set_in-LacksKey :
    (key value k : Bytes) (as' : List Attribute)
    → k ≢ key
    → LacksKey k as'
    → LacksKey k (set_in key value as')
unfolding set_in
set_in-LacksKey key value k [] n l = (n, tt)
set_in-LacksKey key value k (a ∷ as') n (m, l) = elim (Bool-cases (bytes_eq a.key key)) [
  | inl y ↦ rw (set_in, y) (m, l)
  | inr z ↦ rw (set_in, z) (m, set_in-LacksKey key value k as' n l)
]

set_in-DistinctKeys :
    (key value : Bytes) (as' : List Attribute)
    → DistinctKeys as'
    → DistinctKeys (set_in key value as')
unfolding set_in
set_in-DistinctKeys key value [] d = (tt, tt)
set_in-DistinctKeys key value (a ∷ as') (l, d) = elim (Bool-cases (bytes_eq a.key key)) [
  | inl y ↦ rw (set_in, y) (l, d)
  | inr z ↦
      rw (set_in, z)
        (
          set_in-LacksKey key value a.key as' (λ e. (let y = (bytes_eq_iff a.key key).1 e in cc)) l,
          set_in-DistinctKeys key value as' d,
        )
]

set_attribute_ok :
    (x : Container) (key value : Bytes)
    → key ≢ []
    → value ≢ []
    → set_attribute x key value ≡ ok (record x { attributes = set_in key value x.attributes })
unfolding set_attribute
set_attribute_ok x [] value k v = absurd (k refl)
set_attribute_ok x (k ∷ ks) [] nk nv = absurd (nv refl)
set_attribute_ok x (k ∷ ks) (v ∷ vs) nk nv = refl

nonempty : (z : Bytes) → z ≢ [] → (length z == 0) ≡ false
nonempty [] n = absurd (n refl)
nonempty (b ∷ bs) n = ground arith

zone_nonempty : (z : Bytes) → (if length z == 0 then codes "container" else z) ≢ []
zone_nonempty [] e = cc
zone_nonempty (b ∷ bs) e =
    (let n : (length (b ∷ bs) == 0) ≡ false = ground arith in
      let q = sym (ap (λ c. if c then codes "container" else b ∷ bs) n) ∙ e in cc)

zone_set : (d : Domain) → zone_of d ≢ []
unfolding zone_of
zone_set d = zone_nonempty d.zone

module _ (env : ContainerEnv) where
  abbrev pub Says : Container → Container → Bytes → Bytes → Type 0
  Says x y key value =
      ((j : Bytes) → attribute y j ≡ (if bytes_eq key j then value else attribute x j))
      × (DistinctKeys x.attributes → DistinctKeys y.attributes)

  pub set_attribute_lem :
      (x : Container) (key value : Bytes)
      → key ≢ []
      → value ≢ []
      → (y : Container) × (set_attribute x key value ≡ ok y) × Says x y key value
  unfolding attribute
  set_attribute_lem x key value nk nv = (
    record x { attributes = set_in key value x.attributes },
    set_attribute_ok x key value nk nv,
    (λ j. find_in-set_in key value j x.attributes, set_in-DistinctKeys key value x.attributes),
  )

  write_domain_ok :
      (x : Container) (d : Domain)
      → d.name ≢ []
      → write_domain env x d
        ≡ ok (record x {
          attributes = set_in env.sys_zone (zone_of d) (set_in env.sys_name d.name x.attributes);
        })
  unfolding write_domain
  write_domain_ok x d n =
      rw (write_domain, set_attribute_ok x env.sys_name d.name env.sys_name_set n)
        (set_attribute_ok _ env.sys_zone (zone_of d) env.sys_zone_set (zone_set d))

  -- SetAttribute of a key and a value that are not empty does not panic, and Attribute then gives the value
  -- for the key, and for every other key what it gave before; keys that all differ stay so. After
  -- WriteDomain of a domain with a name, ReadDomain gives it back, a zone that was not set being
  -- "container", and keys that all differ stay so too.
  pub write_domain_lem :
      (x : Container)
      → ((key value : Bytes)
          → key ≢ []
          → value ≢ []
          → (y : Container) × (set_attribute x key value ≡ ok y) × Says x y key value)
        × ((d : Domain)
            → d.name ≢ []
            → (y : Container) × (write_domain env x d ≡ ok y)
              × (read_domain env y ≡ record { name = d.name; zone = zone_of d })
              × (DistinctKeys x.attributes → DistinctKeys y.attributes))
  unfolding attribute read_domain
  write_domain_lem x = (
    set_attribute_lem x,
    λ d n.
        let named = set_in env.sys_name d.name x.attributes in
        let y = record x { attributes = set_in env.sys_zone (zone_of d) named } in
        let apart : bytes_eq env.sys_zone env.sys_name ≡ false =
          bytes_ne env.sys_zone env.sys_name (λ e. env.sys_name_zone (sym e)) in
        let at_name : attribute y env.sys_name ≡ d.name =
          find_in-set_in env.sys_zone (zone_of d) env.sys_name named
          ∙ rw apart (
              find_in-set_in env.sys_name d.name env.sys_name x.attributes
              ∙ rw ((bytes_eq_iff env.sys_name env.sys_name).1 refl) refl) in
        let at_zone : attribute y env.sys_zone ≡ zone_of d =
          find_in-set_in env.sys_zone (zone_of d) env.sys_zone named
          ∙ rw ((bytes_eq_iff env.sys_zone env.sys_zone).1 refl) refl in
        (
          y,
          write_domain_ok x d n,
          rw (read_domain, at_name, at_zone, nonempty d.name n) refl,
          λ k.
              set_in-DistinctKeys env.sys_zone (zone_of d) named
                (set_in-DistinctKeys env.sys_name d.name x.attributes k),
        ),
  )

  -- ApplyNetworkConfig succeeds where the network's flag can be read, and AssertNetworkConfig of its
  -- result holds exactly if the flag is on or was off in the container before: a flag that is on in the
  -- container alone is not taken back.
  pub apply_network_config_lem :
      (item : StackItem) (x : Container) (cfg : NetworkInfo) (b : Bool)
      → homomorphic_hashing_disabled item cfg ≡ ok b
      → (y : Container) × (apply_network_config env item x cfg ≡ ok y)
        × (assert_network_config env item y cfg
            ≡ ok (b || not (is_homomorphic_hashing_disabled env x)))
  unfolding apply_network_config assert_network_config is_homomorphic_hashing_disabled
      disable_homomorphic_hashing attribute
  apply_network_config_lem item x cfg true h =
      let y = record x { attributes = set_in env.sys_hashing (codes "true") x.attributes } in
      (
        y,
        rw (apply_network_config, h)
            (set_attribute_ok x env.sys_hashing (codes "true") env.sys_hashing_set (λ e. cc)),
        rw
            (
              assert_network_config,
              h,
              is_homomorphic_hashing_disabled,
              find_in-set_in env.sys_hashing (codes "true") env.sys_hashing x.attributes,
              (bytes_eq_iff env.sys_hashing env.sys_hashing).1 refl,
            )
            refl,
      )
  apply_network_config_lem item x cfg false h =
      (x, rw (apply_network_config, h) refl, rw (assert_network_config, h) (ground arith))
