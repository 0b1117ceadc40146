-- ===== src/Slicer/Writer/Keeps.antt =====
-- What every step of `Write` (object/slicer/slicer.go) keeps, `Write` keeps.
use neofs_sdk_go.Prelude.{
  ℕ, zero, suc, ◌+◌, ◌≡◌, ap, ◌∙◌, sym, true, false, ◌==◌, length, drop, Bool-cases, inl, inr,
}
use neofs_sdk_go.Prelude.Bytes.{Bytes}
use neofs_sdk_go.Prelude.Result.{ok, ◌>>=◌, >>=-eq-ok}
use neofs_sdk_go.Slicer.Object.{Env}
use neofs_sdk_go.Slicer.Writer.{PayloadWriter, limited_write, next_child, write_fuel, write}

write_fuel_spills :
    (env : Env) (f : ℕ) (w : PayloadWriter) (chunk : Bytes)
    → (length chunk == 0) ≡ false
    → (limited_write w chunk).2 ≡ true
    → write_fuel env (suc f) w chunk ≡ (
        next_child env (limited_write w chunk).0 >>= λ w2.
        write_fuel env f w2 (drop (limited_write w chunk).1 chunk) >>= λ r.
        ok ((limited_write w chunk).1 + r.0, r.1))
unfolding write_fuel
write_fuel_spills env f w chunk e o = rw (e, o)

nothing_written :
    (env : Env) (f : ℕ) (w : PayloadWriter) (chunk : Bytes) {n : ℕ} {w' : PayloadWriter}
    → (length chunk == 0) ≡ true
    → write_fuel env (suc f) w chunk ≡ ok (n, w')
    → w ≡ w'
unfolding write_fuel
nothing_written env f w chunk e h = cc (simp e at h)

all_written :
    (env : Env) (f : ℕ) (w : PayloadWriter) (chunk : Bytes) {n : ℕ} {w' : PayloadWriter}
    → (length chunk == 0) ≡ false
    → (limited_write w chunk).2 ≡ false
    → write_fuel env (suc f) w chunk ≡ ok (n, w')
    → (limited_write w chunk).0 ≡ w'
unfolding write_fuel
all_written env f w chunk e o h = cc (simp (e, o) at h)

spill_steps :
    (env : Env) (f : ℕ) (w : PayloadWriter) (chunk : Bytes) {n : ℕ} {w' : PayloadWriter}
    → (length chunk == 0) ≡ false
    → (limited_write w chunk).2 ≡ true
    → write_fuel env (suc f) w chunk ≡ ok (n, w')
    → (w2 : PayloadWriter) × (n3 : ℕ) × (next_child env (limited_write w chunk).0 ≡ ok w2)
      × (write_fuel env f w2 (drop (limited_write w chunk).1 chunk) ≡ ok (n3, w'))
spill_steps env f w chunk {n} {w'} e o h =
    let (w2, e2, k2) = >>=-eq-ok _ _ (sym (write_fuel_spills env f w chunk e o) ∙ h) in
    let ((n3, w3), e3, k3) = >>=-eq-ok _ _ k2 in
    let s : w3 ≡ w' = cc k3 in (w2, n3, e2, e3 ∙ ap (λ v. ok (n3, v)) s)

module _ {ℓ} (env : Env) (P : PayloadWriter → Type ℓ)
    (taken : (w : PayloadWriter) (p : Bytes) → P w → P (limited_write w p).0)
    (sent : (w w' : PayloadWriter) → P w → next_child env w ≡ ok w' → P w') where
  pub write_fuel_keeps :
      (f : ℕ) (w : PayloadWriter) (chunk : Bytes) {n : ℕ} {w' : PayloadWriter}
      → P w
      → write_fuel env f w chunk ≡ ok (n, w')
      → P w'
  write_fuel_keeps zero w chunk p h = unfold write_fuel in cc
  write_fuel_keeps (suc f) w chunk {n} {w'} p h = elim (Bool-cases (length chunk == 0)) [
    | inl e ↦ let s : w ≡ w' = nothing_written env f w chunk e h in rw (← s) p
    | inr e ↦ elim (Bool-cases (limited_write w chunk).2) [
      | inr o ↦
          let s : (limited_write w chunk).0 ≡ w' = all_written env f w chunk e o h in
          rw (← s) (taken w chunk p)
      | inl o ↦
          let (w2, n3, e2, e3) = spill_steps env f w chunk e o h in
          write_fuel_keeps f w2 _ (sent _ w2 (taken w chunk p) e2) e3
    ]
  ]

  pub write_keeps :
      (w : PayloadWriter) (chunk : Bytes) {n : ℕ} {w' : PayloadWriter}
      → P w
      → write env w chunk ≡ ok (n, w')
      → P w'
  unfolding write
  write_keeps w chunk p h = write_fuel_keeps (length chunk + 2) w chunk p h
