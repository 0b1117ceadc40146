-- ===== src/Bearer/Reading.antt =====
-- What a bearer token (bearer/bearer.go) says, and that its message says the same.
use neofs_sdk_go.Prelude.{
  ℕ, ◌≤◌, ◌≡◌, ◌↔◌, refl, ap, ◌∙◌, sym, Bool, true, false, Option, none, some, arith, if◌then◌else◌,
  Bool-cases, inl, inr,
}
use neofs_sdk_go.Prelude.Bytes.{Bytes}
use neofs_sdk_go.Prelude.Result.{ok, >>=-eq-ok, Succeeds, Succeeds-bind}
use neofs_sdk_go.Eacl.{FilterNames, Table}
use neofs_sdk_go.Eacl.Equal.{TableView, table_view}
use neofs_sdk_go.Eacl.Message.{V2Table, table_to_v2, table_from_v2}
use neofs_sdk_go.Eacl.Message.Kept.{Sized, known_table, table_back, table_again}
use neofs_sdk_go.Bearer.{
  Token, Lifetime, Body, Message, get_eacl, get_owner_id, get_lifetime, read_body, read_eacl,
  read_user, read_lifetime, read_signature, read_from_v2, set_or_nil, fill_body, write_to_v2,
  invalid_at, assert_container, assert_user,
}

-- A token is valid in exactly the epochs from its issue and its first epoch on up to its last, and only
-- with a lifetime.
pub invalid_at_lem :
    (b : Token) (epoch : ℕ)
    → (invalid_at b epoch ≡ false)
      ↔ ((b.lifetime_set ≡ true) × (b.iat ≤ epoch) × (b.nbf ≤ epoch) × (epoch ≤ b.exp))
unfolding invalid_at
invalid_at_lem b epoch = ((λ h. ground arith), (λ h. ground arith))

get_filled :
    (names : FilterNames) (b : Token)
    → (get_eacl (fill_body names b) ≡ set_or_nil b.eacl_table_set (table_to_v2 names b.eacl_table))
      × (get_owner_id (fill_body names b) ≡ set_or_nil b.target_user_set b.target_user)
      × (get_lifetime (fill_body names b)
          ≡ set_or_nil b.lifetime_set
              (record { issued = b.iat; not_before = b.nbf; expires = b.exp }))
unfolding fill_body
get_filled names b = elim (Bool-cases b.eacl_table_set) [
  | inl e ↦ simp e (refl, refl, refl)
  | inr e ↦ elim (Bool-cases b.target_user_set) [
    | inl u ↦ simp (e, u) (refl, refl, refl)
    | inr u ↦ elim (Bool-cases b.lifetime_set) [
      | inl l ↦ simp (e, u, l) (refl, refl, refl)
      | inr l ↦ simp (e, u, l) (refl, refl, refl)
    ]
  ]
]

read_body_unchecked : (o : Option Body) → read_body o false ≡ ok tt
unfolding read_body
read_body_unchecked none = refl
read_body_unchecked (some b) = refl

read_eacl_set :
    (names : FilterNames) (b : Token) (s : Bool) (t : V2Table)
    → read_eacl names b (set_or_nil s t) false
      ≡ ok (record b {
        eacl_table_set = s;
        eacl_table = if s then table_from_v2 names t else b.eacl_table;
      })
unfolding read_eacl
read_eacl_set names b true t = refl
read_eacl_set names b false t = refl

read_user_set :
    (check_user : Bytes → Bool) (b : Token) (s : Bool) (u : Bytes)
    → (s ≡ true → check_user u ≡ true)
    → read_user check_user b (set_or_nil s u)
      ≡ ok (record b { target_user_set = s; target_user = if s then u else b.target_user })
unfolding read_user
read_user_set check_user b true u h = rw (h refl)
read_user_set check_user b false u h = refl

read_lifetime_set :
    (b : Token) (s : Bool) (l : Lifetime)
    → read_lifetime b (set_or_nil s l) false
      ≡ ok (record b {
        lifetime_set = s;
        iat = if s then l.issued else b.iat;
        nbf = if s then l.not_before else b.nbf;
        exp = if s then l.expires else b.exp;
      })
unfolding read_lifetime
read_lifetime_set b true l = refl
read_lifetime_set b false l = refl

read_signature_set :
    (b : Token) (s : Bool) (x : Bytes)
    → read_signature b (set_or_nil s x) false
      ≡ ok (record b { sig_set = s; sig = if s then x else b.sig })
unfolding read_signature
read_signature_set b true x = refl
read_signature_set b false x = refl

-- The flags of `t`, and its values where they are set.
abbrev taken_over : FilterNames → Token → Token → Token
taken_over names old t = record {
  target_user_set = t.target_user_set;
  target_user = if t.target_user_set then t.target_user else old.target_user;
  eacl_table_set = t.eacl_table_set;
  eacl_table =
      if t.eacl_table_set
      then table_from_v2 names (table_to_v2 names t.eacl_table)
      else old.eacl_table;
  lifetime_set = t.lifetime_set;
  iat = if t.lifetime_set then t.iat else old.iat;
  nbf = if t.lifetime_set then t.nbf else old.nbf;
  exp = if t.lifetime_set then t.exp else old.exp;
  sig_set = t.sig_set;
  sig = if t.sig_set then t.sig else old.sig;
}

read_written :
    (names : FilterNames) (check_user : Bytes → Bool) (old t : Token)
    → (t.target_user_set ≡ true → check_user t.target_user ≡ true)
    → read_from_v2 names check_user old (write_to_v2 names t) false ≡ ok (taken_over names old t)
unfolding read_from_v2 write_to_v2
read_written names check_user old t h =
    let (e, u, l) = get_filled names t in
    rw (read_body_unchecked (fill_body names t), e)
      (rw (read_eacl_set names old t.eacl_table_set (table_to_v2 names t.eacl_table), u)
        (rw (read_user_set check_user _ t.target_user_set t.target_user h, l)
          (rw (read_lifetime_set _ t.lifetime_set _) (
            read_signature_set
              (record (taken_over names old t) { sig_set = old.sig_set; sig = old.sig }) t.sig_set
              t.sig))))

set_same : {A : Type 0} (s : Bool) (a b : A) → set_or_nil s (if s then a else b) ≡ set_or_nil s a
set_same true a b = refl
set_same false a b = refl

set_same_lifetime :
    (s : Bool) (i n e i' n' e' : ℕ)
    → set_or_nil {A = Lifetime} s (record {
      issued = if s then i else i';
      not_before = if s then n else n';
      expires = if s then e else e';
    })
      ≡ set_or_nil s (record { issued = i; not_before = n; expires = e })
set_same_lifetime true i n e i' n' e' = refl
set_same_lifetime false i n e i' n' e' = refl

table_same :
    (names : FilterNames) (s : Bool) (t o : Table)
    → Sized t.cid
    → set_or_nil s (table_to_v2 names (if s then table_from_v2 names (table_to_v2 names t) else o))
      ≡ set_or_nil s (table_to_v2 names t)
table_same names true t o h = ap some (table_again names t h)
table_same names false t o h = refl

rules_same :
    (names : FilterNames) (s : Bool) (t o : Table)
    → Sized t.cid
    → set_or_nil s (table_view names (if s then table_from_v2 names (table_to_v2 names t) else o))
      ≡ set_or_nil s (known_table (table_view names t))
rules_same names true t o h = ap some (table_back names t h)
rules_same names false t o h = refl

container_same :
    (names : FilterNames) (old t : Token) (cnr : Bytes)
    → Sized t.eacl_table.cid
    → assert_container (taken_over names old t) cnr ≡ assert_container t cnr
unfolding assert_container
container_same names old t cnr h = elim (Bool-cases t.eacl_table_set) [
  | inl y ↦ rw (y, ap (λ (v : TableView). v.cid) (table_back names t.eacl_table h)) refl
  | inr n ↦ rw n refl
]

-- Two tokens that no question tells apart. The table of the first shows, in order, the container ID, version
-- and records of the second's, where a number that its enumeration does not name is the unknown one.
pub record SaysSame (names : FilterNames) (a b : Token) : Type 0 where
  pub same_container : (cnr : Bytes) → assert_container a cnr ≡ assert_container b cnr
  pub same_rules :
      set_or_nil a.eacl_table_set (table_view names a.eacl_table)
      ≡ set_or_nil b.eacl_table_set (known_table (table_view names b.eacl_table))
  pub same_user : (id : Bytes) → assert_user a id ≡ assert_user b id
  pub same_epochs : (epoch : ℕ) → invalid_at a epoch ≡ invalid_at b epoch
  pub same_message : write_to_v2 names a ≡ write_to_v2 names b

taken_over-SaysSame :
    (names : FilterNames) (old t : Token)
    → Sized t.eacl_table.cid
    → SaysSame names (taken_over names old t) t
unfolding assert_user invalid_at write_to_v2 fill_body
taken_over-SaysSame names old t h = record {
  same_container = λ cnr. container_same names old t cnr h;
  same_rules = rules_same names t.eacl_table_set t.eacl_table old.eacl_table h;
  same_user = λ id. ground arith;
  same_epochs = λ epoch. ground arith;
  same_message = rw (
    table_same names t.eacl_table_set t.eacl_table old.eacl_table h,
    set_same t.target_user_set t.target_user old.target_user,
    set_same_lifetime t.lifetime_set t.iat t.nbf t.exp old.iat old.nbf old.exp,
    set_same t.sig_set t.sig old.sig,
  );
}

-- Whatever token it is read into, the message of a token whose target user is valid and whose table's
-- container ID, where it has one, is of 32 bytes is read without checks of presence. The token read gives
-- the same answers on containers, users and epochs and the same message, and has a table where the first
-- has one: with its container ID, its version and, in order, its records with their action, operation,
-- targets and filters, where a number that no constant of its enumeration has becomes the unknown one.
pub read_from_v2-write_to_v2 :
    (names : FilterNames) (check_user : Bytes → Bool) (old t : Token)
    → (t.target_user_set ≡ true → check_user t.target_user ≡ true)
    → Sized t.eacl_table.cid
    → (r : Token) × (read_from_v2 names check_user old (write_to_v2 names t) false ≡ ok r)
      × SaysSame names r t
read_from_v2-write_to_v2 names check_user old t h s = (
  taken_over names old t,
  read_written names check_user old t h,
  taken_over-SaysSame names old t s,
)

-- What the checked reading asks of a message.
pub record Complete (check_user : Bytes → Bool) (m : Message) : Type 0 where
  pub body : Body
  pub body_is : m.body ≡ some body
  pub has_eacl : (t : V2Table) × (body.eacl ≡ some t)
  pub has_lifetime : (l : Lifetime) × (body.lifetime ≡ some l)
  pub has_signature : (s : Bytes) × (m.signature ≡ some s)
  pub valid_user : (u : Bytes) → body.owner_id ≡ some u → check_user u ≡ true

body_there : (o : Option Body) {u : Unit {0}} → read_body o true ≡ ok u → (b : Body) × (o ≡ some b)
unfolding read_body
body_there none h = absurd (cc h)
body_there (some b) h = (b, refl)

eacl_there :
    (names : FilterNames) (b : Token) (o : Option V2Table) {r : Token}
    → read_eacl names b o true ≡ ok r
    → (t : V2Table) × (o ≡ some t)
unfolding read_eacl
eacl_there names b none h = absurd (cc h)
eacl_there names b (some t) h = (t, refl)

lifetime_there :
    (b : Token) (o : Option Lifetime) {r : Token}
    → read_lifetime b o true ≡ ok r
    → (l : Lifetime) × (o ≡ some l)
unfolding read_lifetime
lifetime_there b none h = absurd (cc h)
lifetime_there b (some l) h = (l, refl)

signature_there :
    (b : Token) (o : Option Bytes) {r : Token}
    → read_signature b o true ≡ ok r
    → (s : Bytes) × (o ≡ some s)
unfolding read_signature
signature_there b none h = absurd (cc h)
signature_there b (some s) h = (s, refl)

user_checked :
    (check_user : Bytes → Bool) (b : Token) (o : Option Bytes) (u : Bytes) {r : Token}
    → read_user check_user b o ≡ ok r
    → o ≡ some u
    → check_user u ≡ true
unfolding read_user
user_checked check_user b none u h e = absurd (cc e)
user_checked check_user b (some v) u h e = elim (Bool-cases (check_user v)) [
  | inl y ↦ cc (y, e)
  | inr n ↦ absurd (cc (rw n at h))
]

read_user_total :
    (check_user : Bytes → Bool) (b : Token) (o : Option Bytes)
    → ((u : Bytes) → o ≡ some u → check_user u ≡ true)
    → (r : Token) × (read_user check_user b o ≡ ok r)
unfolding read_user
read_user_total check_user b none h = (_, refl)
read_user_total check_user b (some u) h =
    (record b { target_user_set = true; target_user = u }, rw (h u refl))

complete_lem :
    (names : FilterNames) (check_user : Bytes → Bool) (b : Token) (m : Message) {r : Token}
    → read_from_v2 names check_user b m true ≡ ok r
    → Complete check_user m
unfolding read_from_v2
complete_lem names check_user b m h =
    let (_, e0, k0) = >>=-eq-ok (read_body m.body true) _ h in
    let (b1, e1, k1) = >>=-eq-ok (read_eacl names b (get_eacl m.body) true) _ k0 in
    let (b2, e2, k2) = >>=-eq-ok (read_user check_user b1 (get_owner_id m.body)) _ k1 in
    let (b3, e3, k3) = >>=-eq-ok (read_lifetime b2 (get_lifetime m.body) true) _ k2 in
    let (body, q) = body_there m.body e0 in
    let (t, x) = eacl_there names b (get_eacl m.body) e1 in
    let (l, y) = lifetime_there b2 (get_lifetime m.body) e3 in
    record {
      body = body;
      body_is = q;
      has_eacl = (t, sym (ap get_eacl q) ∙ x);
      has_lifetime = (l, sym (ap get_lifetime q) ∙ y);
      has_signature = signature_there b3 m.signature k3;
      valid_user =
          λ u e. user_checked check_user b1 (get_owner_id m.body) u e2 (ap get_owner_id q ∙ e);
    }

eacl_total :
    (names : FilterNames) (b : Token) (o : Option V2Table) {t : V2Table}
    → o ≡ some t
    → Succeeds (read_eacl names b o true)
unfolding read_eacl
eacl_total names b none e = absurd (cc e)
eacl_total names b (some t) e = (_, refl)

lifetime_total :
    (b : Token) (o : Option Lifetime) {l : Lifetime}
    → o ≡ some l
    → Succeeds (read_lifetime b o true)
unfolding read_lifetime
lifetime_total b none e = absurd (cc e)
lifetime_total b (some l) e = (_, refl)

signature_total :
    (b : Token) (o : Option Bytes) {s : Bytes} → o ≡ some s → Succeeds (read_signature b o true)
unfolding read_signature
signature_total b none e = absurd (cc e)
signature_total b (some s) e = (_, refl)

body_total : (o : Option Body) {b : Body} → o ≡ some b → Succeeds (read_body o true)
unfolding read_body
body_total none e = absurd (cc e)
body_total (some b) e = (tt, refl)

read_from_v2_total :
    (names : FilterNames) (check_user : Bytes → Bool) (b : Token) (m : Message)
    → Complete check_user m
    → (r : Token) × (read_from_v2 names check_user b m true ≡ ok r)
unfolding read_from_v2
read_from_v2_total names check_user b m c =
    let (t, x) = c.has_eacl in
    let (l, y) = c.has_lifetime in
    let (s, z) = c.has_signature in
    let q = c.body_is in
    Succeeds-bind _ _ (body_total m.body q) λ u.
      Succeeds-bind _ _ (eacl_total names b (get_eacl m.body) (ap get_eacl q ∙ x)) λ b1.
        Succeeds-bind _ _
          (read_user_total check_user b1 (get_owner_id m.body)
            (λ v e. c.valid_user v (sym (ap get_owner_id q) ∙ e)))
          λ b2.
            Succeeds-bind _ _ (lifetime_total b2 (get_lifetime m.body) (ap get_lifetime q ∙ y))
              λ b3. signature_total b3 m.signature z

-- The checked reading succeeds exactly on messages with a body, a table, a lifetime and a signature
-- whose target user, where there is one, is valid.
pub read_from_v2_lem :
    (names : FilterNames) (check_user : Bytes → Bool) (b : Token) (m : Message)
    → ((r : Token) × (read_from_v2 names check_user b m true ≡ ok r)) ↔ Complete check_user m
read_from_v2_lem names check_user b m = (
  (λ h. let (r, e) = h in complete_lem names check_user b m e),
  read_from_v2_total names check_user b m,
)
