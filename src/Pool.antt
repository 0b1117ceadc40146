-- ===== src/Pool.antt =====
-- The pool of connections: pool/pool.go. The health of a node, the choice of a connection, and how long a
-- session lives. The sampler, whose weights are floating-point numbers, is the sequence of what its
-- `Next` returns, indices of clients. Locks are left out: each method is one step.
pub mod Health
pub mod Choice
pub mod Cache
mod Tests
use neofs_sdk_go.Prelude.{
  ℕ, zero, suc, ◌+◌, ◌-◌, ◌*◌, ◌%◌, Bool, true, false, not, Option, none, some, List, [], ◌∷◌,
  length, get_elem?, ltb, leb, ◌==◌, if◌then◌else◌,
}
use neofs_sdk_go.Prelude.Bytes.{Bytes}

-- The errors that `updateErrorRate` tells apart: the four API errors that count, other API errors, split
-- information, and any other.
pub data CallError : Type 0 where
  server_internal wrong_magic_number signature_verification node_under_maintenance : CallError
  other_status split_info other_error : CallError

pub record ClientStatusMonitor : Type 0 where
  pub addr : Bytes
  pub healthy : Bool
  pub error_threshold : ℕ  -- uint32
  pub current_error_count : ℕ  -- uint32
  pub overall_error_count : ℕ  -- uint64

abbrev pub u32_mod : ℕ
u32_mod = 4294967296

abbrev pub u64_mod : ℕ
u64_mod = 18446744073709551616

pub new_client_status_monitor : Bytes → ℕ → ClientStatusMonitor
new_client_status_monitor addr threshold = record {
  addr = addr;
  healthy = true;
  error_threshold = threshold;
  current_error_count = 0;
  overall_error_count = 0;
}

pub set_healthy : ClientStatusMonitor → ClientStatusMonitor
set_healthy c = record c { healthy = true }

pub set_unhealthy : ClientStatusMonitor → ClientStatusMonitor
set_unhealthy c = record c { healthy = false }

pub inc_error_rate : ClientStatusMonitor → ClientStatusMonitor
unfolding set_unhealthy
inc_error_rate c =
    let current = (c.current_error_count + 1) % u32_mod in
    let c1 : ClientStatusMonitor = record c {
      current_error_count = current;
      overall_error_count = (c.overall_error_count + 1) % u64_mod;
    } in
    if leb c.error_threshold current
    then record (set_unhealthy c1) { current_error_count = 0 }
    else c1

abbrev pub counts : CallError → Bool
counts server_internal = true
counts wrong_magic_number = true
counts signature_verification = true
counts node_under_maintenance = true
counts other_status = false
counts split_info = false
counts other_error = true

-- `updateErrorRate`, where nil is none.
pub update_error_rate : ClientStatusMonitor → Option CallError → ClientStatusMonitor
unfolding inc_error_rate
update_error_rate c none = c
update_error_rate c (some e) = if counts e then inc_error_rate c else c

-- What `restartIfUnhealthy` meets, in order: the first request for the endpoint's information, where
-- `errPoolClientUnhealthy` is told from other errors, then whether a new client can be had, dialled and
-- asked.
pub data Probe : Type 0 where
  answered unhealthy failed : Probe

pub record Restart : Type 0 where
  pub endpoint_info : Probe
  pub new_client : Bool
  pub dialled : Bool
  pub answers : Bool

-- A new client in place of the old one; `was` is `wasHealthy`.
pub restart : ClientStatusMonitor → Bool → Restart → ClientStatusMonitor × Bool × Bool
unfolding set_healthy set_unhealthy
restart c was r =
    if r.new_client
    then if r.dialled
      then if r.answers then (set_healthy c, true, not was) else (set_unhealthy c, false, was)
      else (set_unhealthy c, false, was)
    else (set_unhealthy c, false, was)

-- `restartIfUnhealthy`: the monitor, and `(healthy, changed)`. The errors of its own requests are counted
-- by the callback.
pub restart_if_unhealthy : ClientStatusMonitor → Restart → ClientStatusMonitor × Bool × Bool
unfolding restart
restart_if_unhealthy c r = elim r.endpoint_info as (λ _. ClientStatusMonitor × Bool × Bool) [
  | answered ↦ (c, true, false)
  | unhealthy ↦ restart c false r
  | failed ↦ restart c true r
]

-- `innerPool`: its clients' monitors, and what the sampler gives at each call.
pub record InnerPool : Type 0 where
  pub clients : List ClientStatusMonitor
  pub next : ℕ → ℕ

abbrev pub is_healthy_at : List ClientStatusMonitor → ℕ → Bool
is_healthy_at cs i = elim (get_elem? cs i) [ none ↦ false | some c ↦ c.healthy ]

-- The loop of `innerPool.connection`: the attempts that are left, and the number of the next draw.
pub attempt : InnerPool → ℕ → ℕ → Option ClientStatusMonitor
attempt p zero k = none
attempt p (suc left) k =
    let rest = attempt p left (suc k) in
    if is_healthy_at p.clients (p.next k) then get_elem? p.clients (p.next k) else rest

abbrev pub if_healthy : ClientStatusMonitor → Option ClientStatusMonitor
if_healthy c = if c.healthy then some c else none

-- The branches of `innerPool.connection` on the number of clients.
pub choose : InnerPool → List ClientStatusMonitor → Option ClientStatusMonitor
unfolding attempt
choose p [] = none
choose p (c ∷ []) = if_healthy c
choose p (c ∷ d ∷ ds) = attempt p (3 * length (c ∷ d ∷ ds)) 0

pub inner_connection : InnerPool → Option ClientStatusMonitor
unfolding choose
inner_connection p = choose p p.clients

-- `Pool.connection` over the inner pools by priority.
pub connection : List InnerPool → Option ClientStatusMonitor
unfolding inner_connection
connection [] = none
connection (p ∷ ps) =
    let rest = connection ps in elim (inner_connection p) [ some c ↦ some c | none ↦ rest ]

-- The expiration that `initSessionForDuration` gives a session opened in `epoch`.
pub session_exp : ℕ → ℕ → ℕ
session_exp epoch dur =
    if ltb (u64_mod - 1 - epoch) dur then u64_mod - 1 else (epoch + dur) % u64_mod
