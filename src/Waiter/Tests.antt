-- ===== src/Waiter/Tests.antt =====
-- The theorems on waiter/ at a network that is one tick late.
use neofs_sdk_go.Prelude.{◌≡◌, ◌↔◌, some, List, [], ◌∷◌}
use neofs_sdk_go.Prelude.Result.{ok}
use neofs_sdk_go.Waiter.{
  Event, tick, done, poll, Reply, holds, not_found, put_logic, container_put, container_delete,
  container_set_eacl,
}
use neofs_sdk_go.Waiter.Confirm.{Waits, Ends, poll_lem, Until, IsHeld, IsOther, waiters_lem}

abbrev late : List (Event Reply)
late = tick not_found ∷ tick (holds (1 ∷ [])) ∷ done ∷ []

poll_lem_example :
    (rest : List (Event Reply)) × Waits put_logic late rest
    × Ends put_logic rest (poll put_logic late)
poll_lem_example = poll_lem put_logic late

waiters_lem_example :
    ((container_put (ok (7 ∷ [])) late ≡ some (7 ∷ [], ok tt))
      ↔ Until (λ r. r ≡ not_found) IsHeld late)
    × ((container_delete (ok tt) late ≡ some (ok tt)) ↔ Until IsHeld (λ r. r ≡ not_found) late)
    × ((container_set_eacl (ok tt) (some (7 ∷ [])) (1 ∷ []) late ≡ some (ok tt))
        ↔ Until (IsOther (1 ∷ [])) (λ r. r ≡ holds (1 ∷ [])) late)
waiters_lem_example = waiters_lem (7 ∷ []) (1 ∷ []) late
