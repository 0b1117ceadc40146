-- ===== src/Slicer/Writer/Limit.antt =====
-- `limitedWriter.Write` (object/slicer/slicer.go) on a writer whose counter is in range.
use neofs_sdk_go.Prelude.{
  ◌+◌, ◌-◌, ◌≤◌, ◌<◌, ◌%◌, ◌≡◌, true, false, arith, ltb, length, take, length-take,
}
use neofs_sdk_go.Prelude.Bytes.{Bytes}
use neofs_sdk_go.Slicer.Writer.{u64_mod, sub_u64, PayloadWriter, tee, limited_write}

-- `Written` is at most the limit, and the limit is a uint64.
pub record InRange (w : PayloadWriter) : Type 0 where
  pub limit_pos : 0 < w.limit
  pub limit_u64 : w.limit < u64_mod
  pub fits : w.written ≤ w.limit

-- The state after `part` has gone to the base.
abbrev pub fill : PayloadWriter → Bytes → PayloadWriter
fill w part = record (tee w part) { written = w.written + length part }

room_lem : (w : PayloadWriter) → InRange w → sub_u64 w.limit w.written ≡ w.limit - w.written
room_lem w h = omega arith

pub limited_write_fits :
    (w : PayloadWriter) (p : Bytes)
    → InRange w
    → length p ≤ w.limit - w.written
    → limited_write w p ≡ (fill w p, length p, false)
unfolding limited_write
limited_write_fits w p h l =
    let e : ltb (w.limit - w.written) (length p) ≡ false = ground arith in
    let m : (w.written + length p) % u64_mod ≡ w.written + length p = omega arith in
    rw (room_lem w h) (rw (e, m))

pub limited_write_over :
    (w : PayloadWriter) (p : Bytes)
    → InRange w
    → w.limit - w.written < length p
    → limited_write w p ≡ (fill w (take (w.limit - w.written) p), w.limit - w.written, true)
unfolding limited_write
limited_write_over w p h l =
    let e : ltb (w.limit - w.written) (length p) ≡ true = ground arith in
    let k : length (take (w.limit - w.written) p) ≡ w.limit - w.written =
      omega (arith, length-take (w.limit - w.written) p) in
    let m : (w.written + (w.limit - w.written)) % u64_mod ≡ w.written + (w.limit - w.written) =
      omega arith in
    rw (room_lem w h) (rw (e, k, m))
