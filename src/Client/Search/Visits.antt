-- ===== src/Client/Search/Visits.antt =====
-- Which IDs `Iterate` of client/object_search.go visits.
use neofs_sdk_go.Prelude.{
  ℕ, zero, suc, ◌<◌, ◌≡◌, refl, ap, ◌∙◌, Bool, true, false, none, some, List, [], ◌∷◌, length, drop,
  if◌then◌else◌, arith, Bool-cases, inl, inr,
}
use neofs_sdk_go.Prelude.Bytes.{Bytes}
use neofs_sdk_go.Client.Stream.{Source, read_chunk}
use neofs_sdk_go.Client.Stream.Queue.{pending, ending, read_chunk-Took, read_chunk-Drained}
use neofs_sdk_go.Client.Search.{
  id_list, read_id, copy_id_buffers, read, close_cause, visit, iterate,
}

-- The IDs up to the first that `f` stops at, and whether it stops.
abbrev pub up_to : (Bytes → Bool) → List Bytes → List Bytes
up_to f [] = []
up_to f (id ∷ ids) = id ∷ (if f id then [] else up_to f ids)

abbrev pub stops : (Bytes → Bool) → List Bytes → Bool
stops f [] = false
stops f (id ∷ ids) = if f id then true else stops f ids

abbrev pub AllIds : List Bytes → Type 0
AllIds [] = Unit {0}
AllIds (id ∷ ids) = (length id ≡ 32) × AllIds ids

abbrev queue : Source Bytes (List Bytes) → List Bytes
queue x = pending id_list x

module _ (f : Bytes → Bool) (fuel : ℕ) (b : Bytes) (x : Source Bytes (List Bytes)) where
  iterate_end :
      queue x ≡ []
      → iterate f (suc fuel) (b ∷ []) x ≡ some ([], close_cause (some (ending id_list x.stream)))
  unfolding iterate read
  iterate_end q =
      let t = read_chunk-Drained id_list x 1 (omega (arith, ap length q)) in
      rw (t.not_full, t.failed_with)

  iterate_next :
      {id : Bytes} {ids : List Bytes}
      → queue x ≡ id ∷ ids
      → length id ≡ 32
      → (x' : Source Bytes (List Bytes)) × (queue x' ≡ ids)
        × (ending id_list x'.stream ≡ ending id_list x.stream)
        × (iterate f (suc fuel) (b ∷ []) x
            ≡ (if f id then some (id ∷ [], none) else visit id (iterate f fuel (id ∷ []) x')))
  unfolding iterate read copy_id_buffers read_id
  iterate_next q l =
      let t = read_chunk-Took id_list x 1 (omega (arith, ap length q)) in
      (
        (read_chunk id_list x 1).source,
        t.left ∙ ap (drop 1) q,
        t.same_ending,
        rw (t.is_full, t.took, q) (rw l refl),
      )

-- Where every ID of the stream has 32 bytes, Iterate visits them in order up to the first that stops it.
-- It returns nil then; otherwise it returns the error that ends the stream, io.EOF being none. As many rounds as there are IDs,
-- and one more, are enough.
pub iterate_lem :
    (f : Bytes → Bool) (fuel : ℕ) (b : Bytes) (x : Source Bytes (List Bytes))
    → AllIds (pending id_list x)
    → length (pending id_list x) < fuel
    → iterate f fuel (b ∷ []) x
      ≡ some (
        up_to f (pending id_list x),
        if stops f (pending id_list x) then none else close_cause (some (ending id_list x.stream)),
      )
iterate_lem f fuel b x h l = go fuel b x (queue x) refl h l
  where
    go :
        (fuel : ℕ) (b : Bytes) (x : Source Bytes (List Bytes)) (ids : List Bytes)
        → queue x ≡ ids
        → AllIds ids
        → length ids < fuel
        → iterate f fuel (b ∷ []) x
          ≡ some (
            up_to f ids,
            if stops f ids then none else close_cause (some (ending id_list x.stream)),
          )
    go zero b x ids q h l = absurd (omega arith)
    go (suc fuel) b x [] q h l = iterate_end f fuel b x q
    go (suc fuel) b x (id ∷ ids) q (h, hs) l =
        let (x', q', e, step) = iterate_next f fuel b x q h in
        let ih = go fuel id x' ids q' hs (omega arith) in
        step ∙ elim (Bool-cases (f id)) [ inl y ↦ rw y | inr y ↦ rw (y, ih) (rw e) ]
