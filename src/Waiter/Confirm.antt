-- ===== src/Waiter/Confirm.antt =====
-- When the waiters of waiter/ return, and with what.
use neofs_sdk_go.Prelude.{
  ℕ, ◌≡◌, ◌≢◌, ◌↔◌, ◌⊎◌, refl, sym, ap, ◌∙◌, true, false, Option, none, some, List, [], ◌∷◌,
  Bool-cases, inl, inr,
}
use neofs_sdk_go.Prelude.Bytes.{Bytes, bytes_eq, bytes_eq_iff}
use neofs_sdk_go.Prelude.Result.{Result, ok, err}
use neofs_sdk_go.Waiter.{
  Logic, confirmed, retry, fatal, WaitError, poller, confirmation_timeout, Event, tick, done, poll,
  Reply, holds, not_found, failed, put_logic, delete_logic, eacl_logic, container_put,
  container_delete, container_set_eacl,
}

-- One round of waiting as a step: a tick at which the callback wants another one.
module _ {S : Type 0} (logic : S → Logic) where
  pub data Waits : List (Event S) → List (Event S) → Type 0 where
    here : {es : List (Event S)} → Waits es es
    again :
        {s : S} {es rest : List (Event S)}
        → logic s ≡ retry
        → Waits es rest
        → Waits (tick s ∷ es) rest

  -- How waiting ends.
  pub data Ends : List (Event S) → Option (Result WaitError (Unit {0})) → Type 0 where
    confirms :
        (s : S) {es : List (Event S)} → logic s ≡ confirmed → Ends (tick s ∷ es) (some (ok tt))
    fails :
        (s : S) (n : ℕ) {es : List (Event S)}
        → logic s ≡ fatal n
        → Ends (tick s ∷ es) (some (err (poller n)))
    times_out : {es : List (Event S)} → Ends (done ∷ es) (some (err confirmation_timeout))
    still_waits : Ends [] none

  Logic-cases : (l : Logic) → (l ≡ confirmed) ⊎ (l ≡ retry) ⊎ ((n : ℕ) × (l ≡ fatal n))
  Logic-cases confirmed = inl refl
  Logic-cases retry = inr (inl refl)
  Logic-cases (fatal n) = inr (inr (n, refl))

  -- Poll goes through the ticks that ask for another one, and returns by the first event that does not:
  -- nil, the error of the callback, or the time-out.
  pub poll_lem :
      (es : List (Event S)) → (rest : List (Event S)) × Waits es rest × Ends rest (poll logic es)
  unfolding poll
  poll_lem [] = ([], here, still_waits)
  poll_lem (done ∷ es) = (done ∷ es, here, times_out)
  poll_lem (tick s ∷ es) = elim (Logic-cases (logic s)) [
    | inl e ↦ (tick s ∷ es, here, rw (e, poll) (confirms s e))
    | inr (inl e) ↦ let (rest, w, x) = poll_lem es in (rest, again e w, rw (e, poll) x)
    | inr (inr (n, e)) ↦ (tick s ∷ es, here, rw (e, poll) (fails s n e))
  ]

-- Before the context ends, a tick comes at which `Good` holds, and at all ticks before it `Wait` does.
abbrev pub Until : {S : Type 0} → (S → Type 0) → (S → Type 0) → List (Event S) → Type 0
Until Wait Good [] = ⊥
Until Wait Good (done ∷ es) = ⊥
Until Wait Good (tick s ∷ es) = Good s ⊎ Wait s × Until Wait Good es

Until-mono :
    {S : Type 0} {Wait Good Wait' Good' : S → Type 0} (es : List (Event S))
    → ((s : S) → Wait s → Wait' s)
    → ((s : S) → Good s → Good' s)
    → Until Wait Good es
    → Until Wait' Good' es
Until-mono [] w g u = absurd u
Until-mono (done ∷ es) w g u = absurd u
Until-mono (tick s ∷ es) w g (inl y) = inl (g s y)
Until-mono (tick s ∷ es) w g (inr (y, u)) = inr (w s y, Until-mono es w g u)

module _ {S : Type 0} (logic : S → Logic) where
  poll→Until :
      (es : List (Event S))
      → poll logic es ≡ some (ok tt)
      → Until (λ s. logic s ≡ retry) (λ s. logic s ≡ confirmed) es
  unfolding poll
  poll→Until [] h = cc
  poll→Until (done ∷ es) h = cc
  poll→Until (tick s ∷ es) h = elim (Logic-cases logic (logic s)) [
    | inl e ↦ inl e
    | inr (inl e) ↦ inr (e, poll→Until es (rw (e, poll) at h))
    | inr (inr (n, e)) ↦ absurd (timed (rw (e, poll) at h))
  ]
    where
      timed : {x : WaitError} → some (err x) ≡ some (ok tt) → ⊥
      timed h = cc

  Until→poll :
      (es : List (Event S))
      → Until (λ s. logic s ≡ retry) (λ s. logic s ≡ confirmed) es
      → poll logic es ≡ some (ok tt)
  unfolding poll
  Until→poll [] u = absurd u
  Until→poll (done ∷ es) u = absurd u
  Until→poll (tick s ∷ es) (inl e) = rw (e, poll)
  Until→poll (tick s ∷ es) (inr (e, u)) = rw (e, poll) (Until→poll es u)

abbrev pub IsHeld : Reply → Type 0
IsHeld r = (c : Bytes) × (r ≡ holds c)

put_confirmed : (r : Reply) → (put_logic r ≡ confirmed) ↔ IsHeld r
unfolding put_logic
put_confirmed (holds c) = ((λ e. (c, refl)), λ h. refl)
put_confirmed not_found = ((λ e. cc), λ h. let (c, e) = h in cc)
put_confirmed (failed n) = ((λ e. cc), λ h. let (c, e) = h in cc)

put_retry : (r : Reply) → (put_logic r ≡ retry) ↔ (r ≡ not_found)
unfolding put_logic
put_retry (holds c) = ((λ e. cc), λ e. cc)
put_retry not_found = ((λ e. refl), λ e. refl)
put_retry (failed n) = ((λ e. cc), λ e. cc)

delete_confirmed : (r : Reply) → (delete_logic r ≡ confirmed) ↔ (r ≡ not_found)
unfolding delete_logic
delete_confirmed (holds c) = ((λ e. cc), λ e. cc)
delete_confirmed not_found = ((λ e. refl), λ e. refl)
delete_confirmed (failed n) = ((λ e. cc), λ e. cc)

delete_retry : (r : Reply) → (delete_logic r ≡ retry) ↔ IsHeld r
unfolding delete_logic
delete_retry (holds c) = ((λ e. (c, refl)), λ h. refl)
delete_retry not_found = ((λ e. cc), λ h. let (c, e) = h in cc)
delete_retry (failed n) = ((λ e. cc), λ h. let (c, e) = h in cc)

abbrev pub IsOther : Bytes → Reply → Type 0
IsOther table r = (r ≡ not_found) ⊎ (c : Bytes) × (r ≡ holds c) × (table ≢ c)

eacl_confirmed : (table : Bytes) (r : Reply) → (eacl_logic table r ≡ confirmed) ↔ (r ≡ holds table)
unfolding eacl_logic
eacl_confirmed table (holds c) = elim (Bool-cases (bytes_eq table c)) [
  | inl y ↦ ((λ e. ap holds (sym ((bytes_eq_iff table c).0 y))), λ e. rw y)
  | inr n ↦ ((λ e. absurd (retry_ne (rw n at e))), λ e. absurd (differ n e))
]
  where
    retry_ne : retry ≡ confirmed → ⊥
    retry_ne e = cc

    differ : {c : Bytes} → bytes_eq table c ≡ false → holds c ≡ holds table → ⊥
    differ {c} n e =
        let q : table ≡ c = cc in let t : true ≡ false = sym ((bytes_eq_iff table c).1 q) ∙ n in cc
eacl_confirmed table not_found = ((λ e. cc), λ e. cc)
eacl_confirmed table (failed n) = ((λ e. cc), λ e. cc)

eacl_retry : (table : Bytes) (r : Reply) → (eacl_logic table r ≡ retry) ↔ IsOther table r
unfolding eacl_logic
eacl_retry table (holds c) = elim (Bool-cases (bytes_eq table c)) [
  | inl y ↦ ((λ e. absurd (confirmed_ne (rw y at e))), λ o. absurd (same y o))
  | inr n ↦ ((λ e. inr (c, refl, λ q. differ n q)), λ o. rw n)
]
  where
    confirmed_ne : confirmed ≡ retry → ⊥
    confirmed_ne e = cc

    same : {c : Bytes} → bytes_eq table c ≡ true → IsOther table (holds c) → ⊥
    same y (inl e) = cc
    same {c} y (inr (c', e, n)) = n ((bytes_eq_iff table c).0 y ∙ (cc))

    differ : {c : Bytes} → bytes_eq table c ≡ false → table ≡ c → ⊥
    differ {c} n q = let t : true ≡ false = sym ((bytes_eq_iff table c).1 q) ∙ n in cc
eacl_retry table not_found = ((λ e. inl refl), λ o. refl)
eacl_retry table (failed n) = ((λ e. cc), λ o. absurd (none_of o))
  where
    none_of : IsOther table (failed n) → ⊥
    none_of (inl e) = cc
    none_of (inr (c, e, q)) = cc

some_id :
    {id : Bytes} (o : Option (Result WaitError (Unit {0})))
    → (elim o as (λ _. Option (Bytes × Result WaitError (Unit {0}))) [
      | none ↦ none
      | some r ↦ some (id, r)
    ]
        ≡ some (id, ok tt))
      ↔ (o ≡ some (ok tt))
some_id none = ((λ e. cc), λ e. cc)
some_id (some r) = ((λ e. cc), λ e. cc)

-- After a request that succeeds, ContainerPut returns nil exactly if before the context ends a tick finds
-- the container and all ticks before it do not; ContainerDelete exactly if a tick finds no container and
-- all before it do; ContainerSetEACL, of a table with its container, exactly if a tick finds that table and
-- all before it find none or another one. In particular, no tick before had any other error.
pub waiters_lem :
    (id table : Bytes) (es : List (Event Reply))
    → ((container_put (ok id) es ≡ some (id, ok tt)) ↔ Until (λ r. r ≡ not_found) IsHeld es)
      × ((container_delete (ok tt) es ≡ some (ok tt)) ↔ Until IsHeld (λ r. r ≡ not_found) es)
      × ((container_set_eacl (ok tt) (some id) table es ≡ some (ok tt))
          ↔ Until (IsOther table) (λ r. r ≡ holds table) es)
unfolding container_put container_delete container_set_eacl
waiters_lem id table es = (
  (
    (λ h.
        Until-mono es (λ s. (put_retry s).0) (λ s. (put_confirmed s).0)
          (poll→Until put_logic es ((some_id (poll put_logic es)).0 h))),
    λ u. (some_id (poll put_logic es)).1 (
        Until→poll put_logic es
          (Until-mono es (λ s. (put_retry s).1) (λ s. (put_confirmed s).1) u)),
  ),
  (
    (λ h.
        Until-mono es (λ s. (delete_retry s).0) (λ s. (delete_confirmed s).0)
          (poll→Until delete_logic es h)),
    λ u.
        Until→poll delete_logic es
          (Until-mono es (λ s. (delete_retry s).1) (λ s. (delete_confirmed s).1) u),
  ),
  (
    (λ h.
        Until-mono es (λ s. (eacl_retry table s).0) (λ s. (eacl_confirmed table s).0)
          (poll→Until (eacl_logic table) es h)),
    λ u.
        Until→poll (eacl_logic table) es
          (Until-mono es (λ s. (eacl_retry table s).1) (λ s. (eacl_confirmed table s).1) u),
  ),
)
