-- ===== src/Pool/Tests.antt =====
-- The theorems on pool/ at two nodes, and at a cache that is a list.
use neofs_sdk_go.Prelude.{
  ◌≡◌, ◌≢◌, ◌⊎◌, refl, map, Bool, true, false, Option, none, some, List, [], ◌∷◌, if◌then◌else◌,
  Bool-cases, arith, inl, inr, All,
}
use neofs_sdk_go.Prelude.Bytes.{Bytes, bytes_eq, bytes_eq_iff}
use neofs_sdk_go.Prelude.Some.{Some}
use neofs_sdk_go.Session.{Object}
use neofs_sdk_go.Pool.{
  server_internal, other_status, other_error, ClientStatusMonitor, InnerPool,
  new_client_status_monitor, connection,
}
use neofs_sdk_go.Pool.Health.{called, dial_failed, run, IsSound, run-IsSound, calls_lem}
use neofs_sdk_go.Pool.Choice.{IsFirst, OutOf, connection_lem}
use neofs_sdk_go.Pool.Cache.{Lru, SessionCache}

run-IsSound_example : IsSound 2 2 (
    run
      (new_client_status_monitor [] 2)
      (called (some server_internal) ∷ called none ∷ dial_failed ∷ called (some other_error) ∷ []))
run-IsSound_example =
    run-IsSound [] 2
      (called (some server_internal) ∷ called none ∷ dial_failed ∷ called (some other_error) ∷ [])
      (omega arith)

abbrev monitor : Bool → ClientStatusMonitor
monitor h = record {
  addr = [];
  healthy = h;
  error_threshold = 3;
  current_error_count = 1;
  overall_error_count = 5;
}

calls_lem_example :
    (run (monitor true) (map called (some server_internal ∷ some other_status ∷ []))).healthy ≡ true
calls_lem_example =
    calls_lem (monitor true) (some server_internal ∷ some other_status ∷ []) (omega arith)
      (omega arith)

abbrev pools : List InnerPool
pools =
    record { clients = monitor false ∷ []; next = λ k. 0 }
    ∷ record { clients = monitor false ∷ monitor true ∷ []; next = λ k. 1 }
    ∷ []

connection_lem_example :
    ((c : ClientStatusMonitor) × (connection pools ≡ some c) × IsFirst c pools)
    ⊎ (connection pools ≡ none) × All (λ p. OutOf p p.clients) pools
connection_lem_example = connection_lem pools

abbrev Entries : Type 0
Entries = List (Bytes × Object)

abbrev find : Entries → Bytes → Option Object
find [] j = none
find ((k, v) ∷ c) j = if bytes_eq k j then some v else find c j

abbrev without : Entries → Bytes → Entries
without [] k = []
without ((i, v) ∷ c) k = let rest = without c k in if bytes_eq i k then rest else (i, v) ∷ rest

abbrev keys_of : Entries → List Bytes
keys_of [] = []
keys_of ((k, v) ∷ c) = k ∷ keys_of c

find-without :
    (c : Entries) (k j : Bytes) → find (without c k) j ≡ (if bytes_eq k j then none else find c j)
find-without [] k j = ground arith
find-without ((i, v) ∷ c) k j =
    ground (arith, bytes_eq_iff i k, bytes_eq_iff i j, bytes_eq_iff k j, find-without c k j)

find-keys_of :
    (c : Entries) (j : Bytes) {v : Object} → find c j ≡ some v → Some (λ k. k ≡ j) (keys_of c)
find-keys_of [] j e = cc
find-keys_of ((k, w) ∷ c) j e = elim (Bool-cases (bytes_eq k j)) [
  | inl y ↦ inl ((bytes_eq_iff k j).0 y)
  | inr n ↦ inr (find-keys_of c j (rw n at e))
]

find_added : (c : Entries) (k : Bytes) (v : Object) → find ((k, v) ∷ c) k ≡ some v
find_added c k v = rw ((bytes_eq_iff k k).1 refl)

find_other :
    (c : Entries) (k j : Bytes) (v : Object)
    → k ≢ j
    → (find ((k, v) ∷ c) j ≡ find c j) ⊎ (find ((k, v) ∷ c) j ≡ none)
find_other c k j v n = elim (Bool-cases (bytes_eq k j)) [
  | inl y ↦ absurd (n ((bytes_eq_iff k j).0 y))
  | inr z ↦ inl (rw z)
]

abbrev unbounded : Lru
unbounded = record {
  Cache = Entries;
  lookup = find;
  get = λ c k. c;
  add = λ c k v. (k, v) ∷ c;
  remove = without;
  keys = keys_of;
  lookup-get = λ c k j. refl;
  lookup-add = find_added;
  lookup-add_other = find_other;
  lookup-remove = find-without;
  lookup-keys = find-keys_of;
}

abbrev test_token : Object
test_token = record {
  common_data = record {
    id_set = false;
    id = [];
    issuer_set = false;
    issuer = [];
    lifetime_set = true;
    iat = 1;
    nbf = 1;
    exp = 9;
    auth_key = [];
    sig_set = false;
    sig = [];
  };
  verb = 0;
  cnr_set = false;
  cnr = [];
  objs = none;
}

abbrev test_cache : SessionCache unbounded
test_cache = record { cache = []; current_epoch = 5 }
