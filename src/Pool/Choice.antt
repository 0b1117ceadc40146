-- ===== src/Pool/Choice.antt =====
-- Which connection the pool chooses, and how long its sessions live (pool/pool.go).
use neofs_sdk_go.Prelude.{
  ℕ, zero, suc, ◌+◌, ◌-◌, ◌*◌, ◌<◌, min, ◌≡◌, ◌⊎◌, refl, sym, subst, true, false, none, some, List,
  [], ◌∷◌, length, get_elem?, All, Bool-cases, arith, inl, inr,
}
use neofs_sdk_go.Prelude.Some.{Some}
use neofs_sdk_go.Pool.{
  ClientStatusMonitor, InnerPool, u64_mod, is_healthy_at, attempt, choose, inner_connection,
  connection, session_exp,
}

healthy_there :
    (cs : List ClientStatusMonitor) (i : ℕ)
    → is_healthy_at cs i ≡ true
    → (c : ClientStatusMonitor) × (get_elem? cs i ≡ some c)
      × (c.healthy ≡ true)
      × Some (λ d. d ≡ c) cs
healthy_there [] i h = absurd (cc)
healthy_there (c ∷ cs) zero h = (c, refl, h, inl refl)
healthy_there (c ∷ cs) (suc i) h = let (d, e, k, m) = healthy_there cs i h in (d, e, k, inr m)

-- No draw of those that are tried finds a healthy client.
abbrev pub AllUnhealthy : InnerPool → ℕ → ℕ → Type 0
AllUnhealthy p zero k = Unit {0}
AllUnhealthy p (suc left) k =
    (is_healthy_at p.clients (p.next k) ≡ false) × AllUnhealthy p left (suc k)

abbrev pub Good : InnerPool → ClientStatusMonitor → Type 0
Good p c = (c.healthy ≡ true) × Some (λ d. d ≡ c) p.clients

attempt_lem :
    (p : InnerPool) (left k : ℕ)
    → ((c : ClientStatusMonitor) × (attempt p left k ≡ some c) × Good p c)
      ⊎ (attempt p left k ≡ none) × AllUnhealthy p left k
unfolding attempt
attempt_lem p zero k = inr (refl, tt)
attempt_lem p (suc left) k = elim (Bool-cases (is_healthy_at p.clients (p.next k))) [
  | inl y ↦
      let (c, e, h, m) = healthy_there p.clients (p.next k) y in inl (c, rw (y, attempt) e, (h, m))
  | inr n ↦ elim (attempt_lem p left (suc k)) [
    | inl (c, e, g) ↦ inl (c, rw (n, attempt) e, g)
    | inr (e, a) ↦ inr (rw (n, attempt) e, (n, a))
  ]
]

-- What an inner pool without a connection is like: it has no clients, or one and it is unhealthy, or none
-- of three draws for each client finds a healthy one.
abbrev pub OutOf : InnerPool → List ClientStatusMonitor → Type 0
OutOf p [] = Unit {0}
OutOf p (c ∷ []) = c.healthy ≡ false
OutOf p (c ∷ d ∷ ds) = AllUnhealthy p (3 * length (c ∷ d ∷ ds)) 0

choose_lem :
    (p : InnerPool) (cs : List ClientStatusMonitor)
    → p.clients ≡ cs
    → ((c : ClientStatusMonitor) × (choose p cs ≡ some c) × Good p c)
      ⊎ (choose p cs ≡ none) × OutOf p cs
unfolding choose
choose_lem p [] e = inr (refl, tt)
choose_lem p (c ∷ []) e = elim (Bool-cases c.healthy) [
  | inl y ↦ inl (c, rw y refl, (y, subst (Some (λ d. d ≡ c)) (sym e) (inl refl)))
  | inr n ↦ inr (rw n refl, n)
]
choose_lem p (c ∷ d ∷ ds) e = attempt_lem p (3 * length (c ∷ d ∷ ds)) 0

inner_lem :
    (p : InnerPool)
    → ((c : ClientStatusMonitor) × (inner_connection p ≡ some c) × Good p c)
      ⊎ (inner_connection p ≡ none) × OutOf p p.clients
unfolding inner_connection
inner_lem p = choose_lem p p.clients refl

-- `c` is a healthy client of a pool, and all pools of a higher priority are out of connections.
abbrev pub IsFirst : ClientStatusMonitor → List InnerPool → Type 0
IsFirst c [] = ⊥
IsFirst c (p ∷ ps) = Good p c ⊎ OutOf p p.clients × IsFirst c ps

-- The pool always has an answer on a connection: a healthy client of the first inner pool that has one to
-- give, or none if every inner pool has no clients, or one that is unhealthy, or none of three draws for
-- each of its clients finds a healthy one.
pub connection_lem :
    (ps : List InnerPool)
    → ((c : ClientStatusMonitor) × (connection ps ≡ some c) × IsFirst c ps)
      ⊎ (connection ps ≡ none) × All (λ p. OutOf p p.clients) ps
unfolding connection
connection_lem [] = inr (refl, tt)
connection_lem (p ∷ ps) = elim (inner_lem p) [
  | inl (c, e, g) ↦ inl (c, rw (e, connection) refl, inl g)
  | inr (e, o) ↦ elim (connection_lem ps) [
    | inl (c, q, f) ↦ inl (c, rw (e, connection) q, inr (o, f))
    | inr (q, a) ↦ inr (rw (e, connection) q, (o, a))
  ]
]

-- A session opened in an epoch for a duration expires after their sum, or never where that is no uint64.
pub session_exp_lem :
    (epoch dur : ℕ)
    → epoch < u64_mod
    → dur < u64_mod
    → session_exp epoch dur ≡ min (u64_mod - 1) (epoch + dur)
unfolding session_exp
session_exp_lem epoch dur h k = ground arith
