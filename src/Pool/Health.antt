-- ===== src/Pool/Health.antt =====
-- The health of a node of the pool as its monitor (pool/pool.go) keeps it.
use neofs_sdk_go.Prelude.{
  ℕ, suc, ◌+◌, ◌%◌, ◌<◌, ◌≤◌, max, ◌≡◌, refl, ap, ◌∙◌, subst, map, Bool, true, false, ◌&&◌, Option,
  none, some, List, [], ◌∷◌, ltb, if◌then◌else◌, Bool-cases, arith, inl, inr,
}
use neofs_sdk_go.Prelude.Bytes.{Bytes}
use neofs_sdk_go.Pool.{
  CallError, ClientStatusMonitor, u32_mod, u64_mod, new_client_status_monitor, set_healthy,
  set_unhealthy, inc_error_rate, counts, update_error_rate, Probe, answered, unhealthy, failed,
  Restart, restart, restart_if_unhealthy,
}

-- What happens to a node's monitor.
pub data Event : Type 0 where
  called : Option CallError → Event
  dial_failed : Event
  probed : Restart → Event

pub apply_event : ClientStatusMonitor → Event → ClientStatusMonitor
apply_event c (called e) = update_error_rate c e
apply_event c dial_failed = set_unhealthy c
apply_event c (probed r) = (restart_if_unhealthy c r).0

pub run : ClientStatusMonitor → List Event → ClientStatusMonitor
run c [] = c
run c (e ∷ es) = run (apply_event c e) es

abbrev pub is_counted : Event → Bool
is_counted (called none) = false
is_counted (called (some e)) = counts e
is_counted dial_failed = false
is_counted (probed r) = false

abbrev pub counted : List Event → ℕ
counted [] = 0
counted (e ∷ es) = if is_counted e then suc (counted es) else counted es

-- Between two events the current errors are below the threshold, and the threshold is what it was.
pub record IsSound (threshold total : ℕ) (c : ClientStatusMonitor) : Type 0 where
  pub threshold_of : c.error_threshold ≡ threshold
  pub below : c.current_error_count < max 1 threshold
  pub total_of : c.overall_error_count ≡ total % u64_mod

inc-IsSound :
    {t n : ℕ} (c : ClientStatusMonitor)
    → t < u32_mod
    → IsSound t n c
    → IsSound t (suc n) (inc_error_rate c)
unfolding inc_error_rate set_unhealthy
inc-IsSound c h s = ground (arith, s.threshold_of, s.below, s.total_of)

restart-IsSound :
    {t n : ℕ} (c : ClientStatusMonitor) (was : Bool) (r : Restart)
    → IsSound t n c
    → IsSound t n (restart c was r).0
unfolding restart set_healthy set_unhealthy
restart-IsSound c was r s = ground (arith, s.threshold_of, s.below, s.total_of)

probe-IsSound :
    {t n : ℕ} (c : ClientStatusMonitor) (r : Restart)
    → IsSound t n c
    → IsSound t n (restart_if_unhealthy c r).0
unfolding restart_if_unhealthy
probe-IsSound {t} {n} c r s = probe r.endpoint_info
  where
    probe :
        (p : Probe)
        → IsSound t n
            (elim p as (λ _. ClientStatusMonitor × Bool × Bool) [
              | answered ↦ (c, true, false)
              | unhealthy ↦ restart c false r
              | failed ↦ restart c true r
            ]).0
    probe answered = s
    probe unhealthy = restart-IsSound c false r s
    probe failed = restart-IsSound c true r s

apply_event-IsSound :
    {t n : ℕ} (c : ClientStatusMonitor) (e : Event)
    → t < u32_mod
    → IsSound t n c
    → IsSound t (if is_counted e then suc n else n) (apply_event c e)
unfolding apply_event update_error_rate set_unhealthy restart_if_unhealthy
apply_event-IsSound c (called none) h s = s
apply_event-IsSound c (called (some e)) h s = elim (Bool-cases (counts e)) [
  | inl y ↦ rw y (inc-IsSound c h s)
  | inr n ↦ rw n s
]
apply_event-IsSound c dial_failed h s = ground (arith, s.threshold_of, s.below, s.total_of)
apply_event-IsSound c (probed r) h s = probe-IsSound c r s

run_from :
    {t : ℕ} (c : ClientStatusMonitor) (es : List Event) (n : ℕ)
    → t < u32_mod
    → IsSound t n c
    → IsSound t (n + counted es) (run c es)
unfolding run
run_from c [] n h s = ground (arith, s.threshold_of, s.below, s.total_of)
run_from c (e ∷ es) n h s =
    let step = apply_event-IsSound c e h s in
    elim (Bool-cases (is_counted e)) [
      | inl y ↦ rw y (moved (omega arith) (run_from (apply_event c e) es (suc n) h (rw y at step)))
      | inr z ↦ rw z (run_from (apply_event c e) es n h (rw z at step))
    ]
  where
    moved : {t m k : ℕ} {d : ClientStatusMonitor} → m ≡ k → IsSound t m d → IsSound t k d
    moved {t} {d = d} q x = subst (λ m. IsSound t m d) q x

-- After any calls, dials and probes of a new monitor, its current errors are below the threshold (or
-- none, where that is zero), and its overall errors are, modulo 2^64, the calls with an error that counts.
pub run-IsSound :
    (addr : Bytes) (threshold : ℕ) (es : List Event)
    → threshold < u32_mod
    → IsSound threshold (0 + counted es) (run (new_client_status_monitor addr threshold) es)
unfolding new_client_status_monitor
run-IsSound addr threshold es h =
    run_from (new_client_status_monitor addr threshold) es 0 h
      (record { threshold_of = refl; below = omega arith; total_of = refl })

update_unhealthy :
    (c : ClientStatusMonitor) (e : Option CallError)
    → c.healthy ≡ false
    → (update_error_rate c e).healthy ≡ false
unfolding update_error_rate inc_error_rate set_unhealthy
update_unhealthy c none u = u
update_unhealthy c (some e) u = ground arith

update_counted :
    (c : ClientStatusMonitor) (e : CallError)
    → counts e ≡ true
    → c.error_threshold < u32_mod
    → c.current_error_count < c.error_threshold
    → ((update_error_rate c (some e)).error_threshold ≡ c.error_threshold)
      × (c.current_error_count + 1 < c.error_threshold
          → ((update_error_rate c (some e)).healthy ≡ c.healthy)
            × ((update_error_rate c (some e)).current_error_count ≡ c.current_error_count + 1))
      × (c.error_threshold ≤ c.current_error_count + 1
          → (update_error_rate c (some e)).healthy ≡ false)
unfolding update_error_rate inc_error_rate set_unhealthy
update_counted c e y h b = rw y (ground arith, (λ l. ground arith), λ l. ground arith)

update_passed :
    (c : ClientStatusMonitor) (e : CallError) → counts e ≡ false → update_error_rate c (some e) ≡ c
unfolding update_error_rate
update_passed c e n = rw n

stays_unhealthy :
    (c : ClientStatusMonitor) (es : List (Option CallError))
    → c.healthy ≡ false
    → (run c (map called es)).healthy ≡ false
unfolding run apply_event
stays_unhealthy c [] u = u
stays_unhealthy c (e ∷ es) u = stays_unhealthy (update_error_rate c e) es (update_unhealthy c e u)

update_none : (c : ClientStatusMonitor) → update_error_rate c none ≡ c
unfolding update_error_rate
update_none c = refl

-- Over calls alone, a monitor stays healthy exactly as long as the errors that count, with those before,
-- are fewer than the threshold: the one that reaches it makes the node unhealthy, and no call makes it
-- healthy again.
pub calls_lem :
    (c : ClientStatusMonitor) (es : List (Option CallError))
    → c.error_threshold < u32_mod
    → c.current_error_count < c.error_threshold
    → (run c (map called es)).healthy
      ≡ (c.healthy && ltb (c.current_error_count + counted (map called es)) c.error_threshold)
unfolding run apply_event
calls_lem c [] h b = ground arith
calls_lem c (none ∷ es) h b =
    ap (λ d. (run d (map called es)).healthy) (update_none c) ∙ calls_lem c es h b
calls_lem c (some e ∷ es) h b = elim (Bool-cases (counts e)) [
  | inr n ↦
      ap (λ d. (run d (map called es)).healthy) (update_passed c e n) ∙ calls_lem c es h b ∙ rw n
  | inl y ↦
      let (t, more, last) = update_counted c e y h b in
      rw y (elim (Bool-cases (ltb (c.current_error_count + 1) c.error_threshold)) [
        | inl l ↦
            let (g, k) = more (ground arith) in
            calls_lem (update_error_rate c (some e)) es (omega (arith, t)) (ground (arith, k, t, l))
            ∙ rw (g, k, t) (ground arith)
        | inr r ↦
            stays_unhealthy (update_error_rate c (some e)) es (last (ground arith)) ∙ ground arith
      ])
]
