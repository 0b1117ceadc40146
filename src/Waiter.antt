-- ===== src/Waiter.antt =====
-- Waiting for a container to be put or removed and for its access table to be set: waiter/. What happens
-- while `poll` waits is a list of events, in order: a tick of the ticker, or the end of the context. Its
-- calls of the executor are answered by the state that the network has then, which an event may change.
-- Containers and tables stand as their bytes.
pub mod Confirm
mod Tests
use neofs_sdk_go.Prelude.{ℕ, Bool, true, false, Option, none, some, List, [], ◌∷◌, if◌then◌else◌}
use neofs_sdk_go.Prelude.Bytes.{Bytes, bytes_eq}
use neofs_sdk_go.Prelude.Result.{Result, ok, err}

-- What a callback returns: nil, errRetry, or a fatal error.
pub data Logic : Type 0 where
  confirmed retry : Logic
  fatal : ℕ → Logic

pub data WaitError : Type 0 where
  request_failed : ℕ → WaitError
  poller : ℕ → WaitError
  confirmation_timeout missing_eacl_container : WaitError

-- What `select` takes: a tick, with what the network holds at it, or the end of the context.
pub data Event (S : Type 0) : Type 0 where
  tick : S → Event S
  done : Event S

-- `poll`, which waits for ever where the events end (none).
module _ {S : Type 0} (logic : S → Logic) where
  pub poll : List (Event S) → Option (Result WaitError (Unit {0}))
  poll [] = none
  poll (done ∷ es) = some (err confirmation_timeout)
  poll (tick s ∷ es) = elim (logic s) [
    | confirmed ↦ some (ok tt)
    | retry ↦ poll es
    | fatal n ↦ some (err (poller n))
  ]

-- A reply of the network on a container or a table: it, `ErrContainerNotFound` or `ErrEACLNotFound`, or
-- another error.
pub data Reply : Type 0 where
  holds : Bytes → Reply
  not_found : Reply
  failed : ℕ → Reply

pub put_logic : Reply → Logic
put_logic (holds c) = confirmed
put_logic not_found = retry
put_logic (failed n) = fatal n

pub delete_logic : Reply → Logic
delete_logic (holds c) = retry
delete_logic not_found = confirmed
delete_logic (failed n) = fatal n

-- `new_binary` are the bytes of the table that is set.
pub eacl_logic : Bytes → Reply → Logic
eacl_logic new_binary (holds actual) = if bytes_eq new_binary actual then confirmed else retry
eacl_logic new_binary not_found = retry
eacl_logic new_binary (failed n) = fatal n

-- `ContainerPut`, given what the request returned, the ID or an error.
pub container_put :
    Result ℕ Bytes → List (Event Reply) → Option (Bytes × Result WaitError (Unit {0}))
unfolding poll put_logic
container_put (err n) es = some ([], err (request_failed n))
container_put (ok id) es = elim (poll put_logic es) [ none ↦ none | some r ↦ some (id, r) ]

pub container_delete :
    Result ℕ (Unit {0}) → List (Event Reply) → Option (Result WaitError (Unit {0}))
unfolding poll delete_logic
container_delete (err n) es = some (err (request_failed n))
container_delete (ok u) es = poll delete_logic es

-- `ContainerSetEACL` of a table with its container, where it has one, and its bytes.
pub container_set_eacl :
    Result ℕ (Unit {0})
    → Option Bytes
    → Bytes
    → List (Event Reply)
    → Option (Result WaitError (Unit {0}))
unfolding poll eacl_logic
container_set_eacl (err n) cid table es = some (err (request_failed n))
container_set_eacl (ok u) none table es = some (err missing_eacl_container)
container_set_eacl (ok u) (some cid) table es = poll (eacl_logic table) es
