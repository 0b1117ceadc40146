-- ===== src/Acl/Text.antt =====
-- The text form of a basic ACL: `EncodeToString` and `DecodeString` of container/acl/acl_basic.go,
-- over the bytes of the text. `strconv.FormatUint` and `ParseUint` at base 16 and 32 bits,
-- `strings.ToLower` and `TrimPrefix` are the standard library's; `ToLower` is taken on ASCII, since
-- no other letter becomes a hexadecimal digit.
use neofs_sdk_go.Prelude.{
  ℕ, zero, suc, ◌+◌, ◌-◌, ◌*◌, ◌/◌, ◌%◌, ◌^◌, ◌<◌, ◌≡◌, refl, inl, inr, Bool, true, false, ◌&&◌,
  ◌||◌, List, [], ◌∷◌, map, arith, ltb, leb, ◌==◌, if◌then◌else◌, Bool-cases, ap, ◌∙◌,
}
use native.Mathlib.Nat.{pow-suc}
use neofs_sdk_go.Prelude.Bytes.{codes, bytes_eq, bytes_eq_iff}
use neofs_sdk_go.Prelude.Result.{Result, ok, err}
use neofs_sdk_go.Acl.{Basic, u32_mod}
use neofs_sdk_go.Acl.Presets.{
  private, private_extended, public_ro, public_ro_extended, public_rw, public_rw_extended,
  public_append, public_append_extended,
}

-- "0123456789abcdef"[d]
hex_digit : ℕ → ℕ
hex_digit d = if ltb d 10 then b'0' + d else b'a' + (d - 10)

-- `strconv.FormatUint(x, 16)`: digits by repeated division, the last first; eight are enough for
-- 32 bits.
format_hex : ℕ → ℕ → List ℕ → List ℕ
format_hex zero x acc = acc
format_hex (suc f) x acc =
    let rest = format_hex f (x / 16) (hex_digit (x % 16) ∷ acc) in
    if ltb x 16 then hex_digit x ∷ acc else rest

pub encode_to_string : Basic → List ℕ
encode_to_string x = format_hex 8 x []

pub data ParseError : Type 0 where
  syntax range : ParseError

-- `strings.ToLower` on one byte.
lower : ℕ → ℕ
lower c = if leb b'A' c && leb c b'Z' then c + 32 else c

-- the value of a digit, 16 or more where it is none
digit_value : ℕ → ℕ
digit_value c =
    if leb b'0' c && leb c b'9'
    then c - b'0'
    else if leb b'a' c && leb c b'z'
    then c - b'a' + 10
    else if leb b'A' c && leb c b'Z'
    then c - b'A' + 10
    else 16

-- The loop of `strconv.ParseUint(s, 16, 32)`.
parse_digits : ℕ → List ℕ → Result ParseError ℕ
unfolding digit_value
parse_digits n [] = ok n
parse_digits n (c ∷ cs) =
    let rest = parse_digits (n * 16 + digit_value c) cs in
    if leb 16 (digit_value c)
    then err syntax
    else if leb u32_mod (n * 16 + digit_value c)
    then err range
    else rest

parse_hex : List ℕ → Result ParseError ℕ
unfolding parse_digits
parse_hex [] = err syntax
parse_hex (c ∷ cs) = parse_digits 0 (c ∷ cs)

trim_prefix_0x : List ℕ → List ℕ
trim_prefix_0x (a ∷ b ∷ cs) = if a == b'0' && b == b'x' then cs else a ∷ b ∷ cs
trim_prefix_0x cs = cs

pub decode_string : List ℕ → Result ParseError Basic
decode_string s =
    if bytes_eq s (codes "private")
    then ok private
    else if bytes_eq s (codes "eacl-private")
    then ok private_extended
    else if bytes_eq s (codes "public-read")
    then ok public_ro
    else if bytes_eq s (codes "eacl-public-read")
    then ok public_ro_extended
    else if bytes_eq s (codes "public-read-write")
    then ok public_rw
    else if bytes_eq s (codes "eacl-public-read-write")
    then ok public_rw_extended
    else if bytes_eq s (codes "public-append")
    then ok public_append
    else if bytes_eq s (codes "eacl-public-append")
    then ok public_append_extended
    else parse_hex (trim_prefix_0x (map lower s))

-- What `EncodeToString` writes: lower-case hexadecimal digits.
is_hex : ℕ → Bool
is_hex c = leb b'0' c && leb c b'9' || leb b'a' c && leb c b'f'

all_hex : List ℕ → Bool
all_hex [] = true
all_hex (c ∷ cs) = is_hex c && all_hex cs

hex_digit-is_hex : (d : ℕ) → d < 16 → is_hex (hex_digit d) ≡ true
unfolding is_hex hex_digit
hex_digit-is_hex d h = ground arith

all_hex-format_hex :
    (f x : ℕ) (acc : List ℕ) → all_hex acc ≡ true → all_hex (format_hex f x acc) ≡ true
unfolding format_hex all_hex
all_hex-format_hex zero x acc h = h
all_hex-format_hex (suc f) x acc h = ground (
  arith,
  hex_digit-is_hex x,
  hex_digit-is_hex (x % 16),
  all_hex-format_hex f (x / 16) (hex_digit (x % 16) ∷ acc),
)

digit_value-hex_digit : (d : ℕ) → d < 16 → digit_value (hex_digit d) ≡ d
unfolding digit_value hex_digit
digit_value-hex_digit d h = ground arith

lower_hex : (c : ℕ) → is_hex c ≡ true → lower c ≡ c
unfolding is_hex lower
lower_hex c h = ground arith

map-lower : (s : List ℕ) → all_hex s ≡ true → map lower s ≡ s
unfolding all_hex
map-lower [] h = refl
map-lower (c ∷ cs) h = ground (arith, lower_hex c, map-lower cs)

trim_hex : (s : List ℕ) → all_hex s ≡ true → trim_prefix_0x s ≡ s
unfolding all_hex trim_prefix_0x is_hex
trim_hex [] h = refl
trim_hex (a ∷ []) h = refl
trim_hex (a ∷ b ∷ cs) h = ground arith

not_name : (s name : List ℕ) → all_hex s ≡ true → all_hex name ≡ false → bytes_eq s name ≡ false
not_name s name h n = elim (Bool-cases (bytes_eq s name)) [
  | inl e ↦ cc (ap all_hex ((bytes_eq_iff s name).0 e))
  | inr e ↦ e
]

decode_string_hex : (s : List ℕ) → all_hex s ≡ true → decode_string s ≡ parse_hex s
unfolding decode_string all_hex is_hex
decode_string_hex s h =
    simp
      (
        not_name s (codes "private") h refl,
        not_name s (codes "eacl-private") h refl,
        not_name s (codes "public-read") h refl,
        not_name s (codes "eacl-public-read") h refl,
        not_name s (codes "public-read-write") h refl,
        not_name s (codes "eacl-public-read-write") h refl,
        not_name s (codes "public-append") h refl,
        not_name s (codes "eacl-public-append") h refl,
      )
      (ap parse_hex (ap trim_prefix_0x (map-lower s h) ∙ trim_hex s h))

-- One digit more to read.
parse_digits_step :
    (n d : ℕ) (acc : List ℕ)
    → d < 16
    → n * 16 + d < u32_mod
    → parse_digits n (hex_digit d ∷ acc) ≡ parse_digits (n * 16 + d) acc
unfolding parse_digits
parse_digits_step n d acc h l = rw (digit_value-hex_digit d h) (ground arith)

first_digit :
    (d : ℕ) (acc : List ℕ)
    → d < 16
    → d < u32_mod
    → parse_digits 0 (hex_digit d ∷ acc) ≡ parse_digits d acc
first_digit d acc h l =
    let e : 0 * 16 + d ≡ d = omega arith in
    parse_digits_step 0 d acc h (omega arith) ∙ ap (λ n. parse_digits n acc) e

parse-format_hex :
    (f x : ℕ) (acc : List ℕ)
    → x < 16 ^ suc f
    → x < u32_mod
    → parse_digits 0 (format_hex (suc f) x acc) ≡ parse_digits x acc
unfolding format_hex
parse-format_hex zero x acc h l =
    let small : ltb x 16 ≡ true = ground arith in rw small (first_digit x acc (omega arith) l)
parse-format_hex (suc f) x acc h l = elim (Bool-cases (ltb x 16)) [
  | inl e ↦ rw e (first_digit x acc (ground arith) l)
  | inr e ↦
      let whole : x / 16 * 16 + x % 16 ≡ x = omega arith in
      rw e (
        parse-format_hex f (x / 16) (hex_digit (x % 16) ∷ acc) (omega (arith, pow-suc 16 (suc f)))
          (omega arith)
        ∙ parse_digits_step (x / 16) (x % 16) acc (omega arith) (omega arith)
        ∙ ap (λ n. parse_digits n acc) whole)
]

-- `parse_hex` refuses only the empty text, which `format_hex` never writes.
parse_hex-format_hex :
    (f x c : ℕ) (acc : List ℕ)
    → parse_hex (format_hex f x (c ∷ acc)) ≡ parse_digits 0 (format_hex f x (c ∷ acc))
unfolding format_hex parse_hex
parse_hex-format_hex zero x c acc = refl
parse_hex-format_hex (suc f) x c acc = elim (Bool-cases (ltb x 16)) [
  | inl e ↦ rw e
  | inr e ↦ rw e (parse_hex-format_hex f (x / 16) (hex_digit (x % 16)) (c ∷ acc))
]

format_hex_cons :
    (f x : ℕ) → parse_hex (format_hex (suc f) x []) ≡ parse_digits 0 (format_hex (suc f) x [])
unfolding format_hex parse_hex
format_hex_cons f x = elim (Bool-cases (ltb x 16)) [
  | inl e ↦ rw e
  | inr e ↦ rw e (parse_hex-format_hex f (x / 16) (hex_digit (x % 16)) [])
]

-- A 32-bit word is read back from its text.
pub decode_string-encode_to_string :
    (x : Basic) → x < u32_mod → decode_string (encode_to_string x) ≡ ok x
unfolding encode_to_string
decode_string-encode_to_string x h =
    decode_string_hex (format_hex 8 x []) (all_hex-format_hex 8 x [] (unfold all_hex in refl))
    ∙ format_hex_cons 7 x
    ∙ parse-format_hex 7 x [] h h
    ∙ unfold parse_digits in refl
