-- ===== src/Netmap/Text/Ambiguous.antt =====
-- Nested filters in the text of a policy (netmap/policy.go).
use neofs_sdk_go.Prelude.{ℕ, suc, true, false, ◌≡◌, refl, sym, ap, ◌∙◌, fun_ext, ◌++◌}
use neofs_sdk_go.Netmap.Node.{NodeInfo}
use neofs_sdk_go.Netmap.Filter.Nested.{either_of, both_of, match_either, match_both}
use neofs_sdk_go.Prelude.Bytes.{Bytes, codes}
use neofs_sdk_go.Prelude.Result.{Result, ok, err, ◌>>=◌}
use neofs_sdk_go.Netmap.Filter.{name, Context, match_fuel, FilterOp, op_and, op_or, Filter}
use neofs_sdk_go.Netmap.Text.{
  Writer, WriteError, write_string, write_head, write_name, write_filter, write_inner,
}

>>=_assoc :
    {E A B C : Type 0} (m : Result E A) (f : A → Result E B) (g : B → Result E C)
    → ((m >>= f) >>= g) ≡ (m >>= λ a. f a >>= g)
>>=_assoc (ok a) f g = refl
>>=_assoc (err e) f g = refl

>>=_ok : {E A : Type 0} (m : Result E A) → (m >>= λ a. ok a) ≡ m
>>=_ok (ok a) = refl
>>=_ok (err e) = refl

drop_ends :
    {E A : Type 0} (m : Result E A) (s f : A → Result E A)
    → ((m >>= λ o. (s o >>= f) >>= λ q. ok q) >>= λ q. ok q) ≡ (m >>= λ o. s o >>= f)
drop_ends (ok a) s f = >>=_ok ((s a >>= f) >>= λ q. ok q) ∙ >>=_ok (s a >>= f)
drop_ends (err e) s f = refl

module _ (w : Writer) where
  abbrev write_op : FilterOp → Bytes → Result WriteError Bytes
  write_op op o = write_string w (codes " " ++ (w.op_text op ++ codes " ")) o

  either_written :
      (x y : Filter) (out : Bytes)
      → write_filter w (either_of x y) out
        ≡ (write_filter w x out >>= λ o. write_op op_or o >>= write_filter w y)
  unfolding write_filter write_head write_name write_inner
  either_written x y out = drop_ends (write_filter w x out) (write_op op_or) (write_filter w y)

  both_written :
      (x y : Filter) (out : Bytes)
      → write_filter w (both_of x y) out
        ≡ (write_filter w x out >>= λ o. write_op op_and o >>= write_filter w y)
  unfolding write_filter write_head write_name write_inner
  both_written x y out = drop_ends (write_filter w x out) (write_op op_and) (write_filter w y)

  -- `(x OR y) AND z` is written in the same way as `x OR (y AND z)`, to every writer: no parentheses
  -- are written. On a node that an unnamed x accepts and an unnamed z does not, the first fails and the
  -- second holds.
  pub write_filter_ambiguous :
      (x y z : Filter) (n : ℕ) (c : Context) (b : NodeInfo)
      → name x ≡ ""
      → name z ≡ ""
      → match_fuel n c x b ≡ ok true
      → match_fuel (suc n) c z b ≡ ok false
      → ((out : Bytes)
          → write_filter w (both_of (either_of x y) z) out
            ≡ write_filter w (either_of x (both_of y z)) out)
        × (match_fuel (suc (suc n)) c (both_of (either_of x y) z) b ≡ ok false)
        × (match_fuel (suc n) c (either_of x (both_of y z)) b ≡ ok true)
  write_filter_ambiguous x y z n c b e d h k = (
    λ out.
        both_written (either_of x y) z out
        ∙ ap (λ m. m >>= λ o. write_op op_and o >>= write_filter w z) (either_written x y out)
        ∙ >>=_assoc (write_filter w x out) _ _
        ∙ ap (λ k. write_filter w x out >>= k)
            (fun_ext λ o.
              >>=_assoc (write_op op_or o) (write_filter w y) _
              ∙ ap (λ k. write_op op_or o >>= k) (fun_ext λ q. sym (both_written y z q)))
        ∙ sym (either_written x (both_of y z) out),
    match_both (suc n) c b (either_of x y) z refl d (match_either n c b x y e h) k,
    match_either n c b x (both_of y z) e h,
  )
