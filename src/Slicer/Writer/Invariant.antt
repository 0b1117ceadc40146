-- ===== src/Slicer/Writer/Invariant.antt =====
-- What holds of a `PayloadWriter` between two calls of `Write` (object/slicer/slicer.go).
use neofs_sdk_go.Prelude.{
  ◌-◌, ◌≤◌, ◌%◌, ◌≡◌, refl, ap, ◌∙◌, sym, true, false, not, Option, none, some, List, [], ◌∷◌, ◌++◌,
  append_assoc, map, arith, length, length-append, All,
}
use mathlib.Core.Option
use neofs_sdk_go.Prelude.Bytes.{Bytes}
use neofs_sdk_go.Slicer.Object.{Delivery}
use neofs_sdk_go.Slicer.Writer.{
  u64_mod, Metadata, accumulate, reset, PayloadWriter, tee, id_or_zero,
}
use neofs_sdk_go.Slicer.Writer.Limit.{InRange, fill}

abbrev pub payloads : List Delivery → Bytes
payloads [] = []
payloads (d ∷ ds) = d.payload ++ payloads ds

abbrev pub sent_id : Delivery → Bytes
sent_id d = id_or_zero d.object.id

pub payloads-append : (a b : List Delivery) → payloads (a ++ b) ≡ payloads a ++ payloads b
payloads-append [] b = refl
payloads-append (d ∷ a) b = rw (payloads-append a b, append_assoc)

-- The homomorphic hash, where it is computed, has seen the same bytes.
abbrev pub HashOf : Option Bytes → Bytes → Type 0
HashOf none d = Unit
HashOf (some b) d = b ≡ d

-- The metadata are those of the bytes `d`.
pub record Absorbed (m : Metadata) (d : Bytes) : Type 0 where
  pub len_of : m.len ≡ length d % u64_mod
  pub checksum_of : m.checksum ≡ d
  pub hash_of : HashOf m.homomorphic d

-- `data'` is all that was written so far.
pub record Inv (w : PayloadWriter) (data' : Bytes) : Type 0 where
  pub range : InRange w
  pub count : w.written ≡ length w.buf
  pub whole : payloads w.log ++ w.buf ≡ data'
  pub root : Absorbed w.root_meta data'
  pub child : w.with_split ≡ true → Absorbed w.child_meta w.buf
  pub teed : w.tee_child ≡ w.with_split
  pub header_step : w.is_header_write_step ≡ not w.with_split
  pub unsplit : w.with_split ≡ false → w.log ≡ []
  pub full : All (λ d. length d.payload ≡ w.limit) w.log
  pub ids : map sent_id w.log ≡ w.written_children

accumulate-HashOf :
    (h : Option Bytes) (d p : Bytes) → HashOf h d → HashOf (Option.map (λ x. x ++ p) h) (d ++ p)
accumulate-HashOf none d p e = tt
accumulate-HashOf (some b) d p e = ap (λ t. t ++ p) e

pub accumulate-Absorbed :
    (m : Metadata) (d p : Bytes) → Absorbed m d → Absorbed (accumulate m p) (d ++ p)
unfolding accumulate
accumulate-Absorbed m d p a = record {
  len_of = omega (arith, a.len_of, length-append d p);
  checksum_of = ap (λ t. t ++ p) a.checksum_of;
  hash_of = accumulate-HashOf m.homomorphic d p a.hash_of;
}

reset-HashOf : (h : Option Bytes) → HashOf (Option.map (λ _. []) h) []
reset-HashOf none = tt
reset-HashOf (some b) = refl

pub reset-Absorbed : (m : Metadata) → Absorbed (reset m) []
unfolding reset
reset-Absorbed m = record {
  len_of = refl;
  checksum_of = refl;
  hash_of = reset-HashOf m.homomorphic;
}

pub fill-Inv :
    (w : PayloadWriter) (d p : Bytes)
    → Inv w d
    → length p ≤ w.limit - w.written
    → Inv (fill w p) (d ++ p)
unfolding tee
fill-Inv w d p i l = record {
  range = record {
    limit_pos = i.range.limit_pos;
    limit_u64 = i.range.limit_u64;
    fits = omega (arith, i.range.fits);
  };
  count = omega (arith, i.count, length-append w.buf p);
  whole = sym (append_assoc (payloads w.log) w.buf p) ∙ ap (λ t. t ++ p) i.whole;
  root = accumulate-Absorbed w.root_meta d p i.root;
  child = λ s. rw (i.teed, s) (accumulate-Absorbed w.child_meta w.buf p (i.child s));
  teed = i.teed;
  header_step = i.header_step;
  unsplit = i.unsplit;
  full = i.full;
  ids = i.ids;
}
