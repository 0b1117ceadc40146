-- ===== src/Netmap/Node.antt =====
-- What placement reads of a node: netmap/node_info.go.
use neofs_sdk_go.Prelude.{
  ℕ, ◌+◌, ◌-◌, ◌*◌, ◌^◌, String, ◌&&◌, Option, none, some, List, [], ◌∷◌, ltb, leb, str_eq,
  if◌then◌else◌,
}
use neofs_sdk_go.Prelude.Bytes.{codes}
use neofs_sdk_go.Prelude.Result.{Result, ok, err}

-- The attributes of the node's message, keys and values.
pub record NodeInfo : Type 0 where
  pub attributes : List (String × String)

first_value : String → List (String × String) → String
first_value key [] = ""
first_value key ((k, v) ∷ as') = if str_eq k key then v else first_value key as'

-- `Attribute`: the first value of a key, empty where there is none.
unfoldable pub attribute : NodeInfo → String → String
unfolding first_value
attribute b key = first_value key b.attributes

parse_digits : ℕ → List ℕ → Option ℕ
parse_digits n [] = some n
parse_digits n (c ∷ cs) =
    let rest = parse_digits (n * 10 + (c - b'0')) cs in
    if leb b'0' c && leb c b'9'
    then (if ltb (n * 10 + (c - b'0')) (2 ^ 64) then rest else none)
    else none

unfoldable pub parse_codes : List ℕ → Option ℕ
unfolding parse_digits
parse_codes [] = none
parse_codes (c ∷ cs) = parse_digits 0 (c ∷ cs)

-- `strconv.ParseUint(s, 10, 64)`, none for its two errors.
unfoldable pub parse_uint : String → Option ℕ
unfolding parse_codes
parse_uint s = parse_codes (codes s)

-- What ends the program, and the fuel of the model.
pub data Fault : Type 0 where
  unexpected_attribute out_of_fuel : Fault

number : String → Result Fault ℕ
number val =
    if str_eq val ""
    then ok 0
    else elim (parse_uint val) [ none ↦ err unexpected_attribute | some n ↦ ok n ]

-- `Price` and `capacity`, which panic on a value that is no number.
unfoldable pub price : NodeInfo → Result Fault ℕ
unfolding number
price b = number (attribute b "Price")

unfoldable pub capacity : NodeInfo → Result Fault ℕ
unfolding number
capacity b = number (attribute b "Capacity")
