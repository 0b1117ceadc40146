-- ===== src/Netmap/Filter/Nested.antt =====
-- Filters nested in filters: what `match` (netmap/filter.go) makes of AND in OR, and of OR in AND.
use neofs_sdk_go.Prelude.{ℕ, suc, ◌≡◌, refl, String, true, false, some, str_eq}
use neofs_sdk_go.Prelude.Result.{ok}
use neofs_sdk_go.Netmap.Node.{NodeInfo, attribute}
use neofs_sdk_go.Netmap.Filter.{
  op_eq, op_and, op_or, Filter, filter, no_more, also, name, Context, resolve, match_inner,
  match_fuel,
}

-- Two filters under OR or AND, as the policies' language builds them.
abbrev pub either_of : Filter → Filter → Filter
either_of x y = filter "" "" op_or "" (also x (also y no_more))

abbrev pub both_of : Filter → Filter → Filter
both_of x y = filter "" "" op_and "" (also x (also y no_more))

pub match_leaf :
    (n : ℕ) (c : Context) (key value : String) (b : NodeInfo)
    → match_fuel (suc n) c (filter "" key op_eq value no_more) b
      ≡ ok (str_eq (attribute b key) value)
unfolding match_fuel
match_leaf n c key value b = refl

module _ (n : ℕ) (c : Context) (b : NodeInfo) where
  resolve_unnamed : (x : Filter) → name x ≡ "" → resolve c x ≡ some x
  unfolding resolve
  resolve_unnamed x e = rw (resolve, e) refl

  pub match_either :
      (x y : Filter)
      → name x ≡ ""
      → match_fuel n c x b ≡ ok true
      → match_fuel (suc n) c (either_of x y) b ≡ ok true
  unfolding match_fuel match_inner
  match_either x y e h = rw (match_inner, resolve_unnamed x e, h) refl

  pub match_both :
      (x y : Filter)
      → name x ≡ ""
      → name y ≡ ""
      → match_fuel n c x b ≡ ok true
      → match_fuel n c y b ≡ ok false
      → match_fuel (suc n) c (both_of x y) b ≡ ok false
  unfolding match_fuel match_inner
  match_both x y e d h k = rw (match_inner, resolve_unnamed x e, h, resolve_unnamed y d, k) refl
