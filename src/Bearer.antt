-- ===== src/Bearer.antt =====
-- A bearer token: bearer/bearer.go. Its message is taken by the fields that the getters of the API
-- package return, an unset field being none. The table of access rules is converted as `Eacl/Message` does;
-- the bytes of a user stand in the message as they are, and `check_user` (the check of user/id.go over a
-- third party's hashes) accepts them.
pub mod Reading
mod Tests
use neofs_sdk_go.Prelude.{
  ℕ, zero, suc, Bool, true, false, not, ◌&&◌, ◌||◌, Option, none, some, List, [], ltb,
  if◌then◌else◌,
}
use neofs_sdk_go.Prelude.Bytes.{Bytes, bytes_eq}
use neofs_sdk_go.Prelude.Result.{Result, ok, err, ◌>>=◌}
use neofs_sdk_go.Eacl.{FilterNames, Table}
use neofs_sdk_go.Eacl.Message.{V2Table, table_to_v2, table_from_v2}

pub record Token : Type 0 where
  pub target_user_set : Bool
  pub target_user : Bytes
  pub eacl_table_set : Bool
  pub eacl_table : Table
  pub lifetime_set : Bool
  pub iat : ℕ
  pub nbf : ℕ
  pub exp : ℕ
  pub sig_set : Bool
  pub sig : Bytes

pub record Lifetime : Type 0 where
  pub issued : ℕ
  pub not_before : ℕ
  pub expires : ℕ

pub record Body : Type 0 where
  pub eacl : Option V2Table
  pub owner_id : Option Bytes
  pub lifetime : Option Lifetime

pub record Message : Type 0 where
  pub body : Option Body
  pub signature : Option Bytes

pub data ReadError : Type 0 where
  missing_body missing_eacl_table invalid_target_user missing_lifetime missing_signature : ReadError

-- The getters of a body, nil where the body is nil.
abbrev pub get_eacl : Option Body → Option V2Table
get_eacl none = none
get_eacl (some b) = b.eacl

abbrev pub get_owner_id : Option Body → Option Bytes
get_owner_id none = none
get_owner_id (some b) = b.owner_id

abbrev pub get_lifetime : Option Body → Option Lifetime
get_lifetime none = none
get_lifetime (some b) = b.lifetime

pub read_body : Option Body → Bool → Result ReadError (Unit {0})
read_body none true = err missing_body
read_body none false = ok tt
read_body (some b) check = ok tt

pub read_eacl : FilterNames → Token → Option V2Table → Bool → Result ReadError Token
read_eacl names b (some t) check =
    ok (record b { eacl_table_set = true; eacl_table = table_from_v2 names t })
read_eacl names b none true = err missing_eacl_table
read_eacl names b none false = ok (record b { eacl_table_set = false })

pub read_user : (Bytes → Bool) → Token → Option Bytes → Result ReadError Token
read_user check_user b none = ok (record b { target_user_set = false })
read_user check_user b (some u) =
    if check_user u
    then ok (record b { target_user_set = true; target_user = u })
    else err invalid_target_user

pub read_lifetime : Token → Option Lifetime → Bool → Result ReadError Token
read_lifetime b (some l) check =
    ok (record b { lifetime_set = true; iat = l.issued; nbf = l.not_before; exp = l.expires })
read_lifetime b none true = err missing_lifetime
read_lifetime b none false = ok (record b { lifetime_set = false })

pub read_signature : Token → Option Bytes → Bool → Result ReadError Token
read_signature b (some s) check = ok (record b { sig_set = true; sig = s })
read_signature b none true = err missing_signature
read_signature b none false = ok (record b { sig_set = false })

-- `readFromV2` into the token `b`.
pub read_from_v2 : FilterNames → (Bytes → Bool) → Token → Message → Bool → Result ReadError Token
unfolding read_body read_eacl read_user read_lifetime read_signature
read_from_v2 names check_user b m check = do
  _ ← read_body m.body check
  b1 ← read_eacl names b (get_eacl m.body) check
  b2 ← read_user check_user b1 (get_owner_id m.body)
  b3 ← read_lifetime b2 (get_lifetime m.body) check
  read_signature b3 m.signature check

abbrev pub set_or_nil {ℓ} : {A : Type ℓ} → Bool → A → Option A
set_or_nil true a = some a
set_or_nil false a = none

pub fill_body : FilterNames → Token → Option Body
fill_body names b =
    if not b.eacl_table_set && not b.target_user_set && not b.lifetime_set
    then none
    else some (record {
      eacl = set_or_nil b.eacl_table_set (table_to_v2 names b.eacl_table);
      owner_id = set_or_nil b.target_user_set b.target_user;
      lifetime =
          set_or_nil b.lifetime_set
            (record { issued = b.iat; not_before = b.nbf; expires = b.exp });
    })

-- `WriteToV2`
pub write_to_v2 : FilterNames → Token → Message
unfolding fill_body
write_to_v2 names b = record { body = fill_body names b; signature = set_or_nil b.sig_set b.sig }

pub set_exp : Token → ℕ → Token
set_exp b exp = record b { exp = exp; lifetime_set = true }

pub set_nbf : Token → ℕ → Token
set_nbf b nbf = record b { nbf = nbf; lifetime_set = true }

pub set_iat : Token → ℕ → Token
set_iat b iat = record b { iat = iat; lifetime_set = true }

pub invalid_at : Token → ℕ → Bool
invalid_at b epoch = not b.lifetime_set || ltb epoch b.nbf || ltb epoch b.iat || ltb b.exp epoch

pub set_eacl_table : Token → Table → Token
set_eacl_table b table = record b { eacl_table = table; eacl_table_set = true }

-- `!set || cnrTable.Equals(cnr)` on the table's container ID.
pub cid_equals : Option Bytes → Bytes → Bool
cid_equals none cnr = true
cid_equals (some id) cnr = bytes_eq id cnr

pub assert_container : Token → Bytes → Bool
unfolding cid_equals
assert_container b cnr = if not b.eacl_table_set then true else cid_equals b.eacl_table.cid cnr

pub for_user : Token → Bytes → Token
for_user b id = record b { target_user = id; target_user_set = true }

pub assert_user : Token → Bytes → Bool
assert_user b id = not b.target_user_set || bytes_eq b.target_user id
