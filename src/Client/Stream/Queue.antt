-- ===== src/Client/Stream/Queue.antt =====
-- Readers of streams as queues: what is pending is the tail and then the elements of the messages up to
-- the first call that fails, and a buffer takes from its front.
use neofs_sdk_go.Prelude.{
  ℕ, ◌+◌, ◌-◌, ◌≤◌, ◌<◌, ◌≡◌, refl, sym, ap, ◌∙◌, true, false, none, some, List, [], ◌∷◌, ◌++◌,
  length, take, drop, take_all, drop_all, eq_nil, take_within, take_through, drop_within,
  drop_through, length-take, length-append, leb, ◌==◌, if◌then◌else◌, Bool-cases, arith, inl, inr,
}
use neofs_sdk_go.Prelude.Result.{Result, ok, err, Result-cases}
use neofs_sdk_go.Client.Stream.{
  ReadError, eof, Event, Source, Filled, event_part, prepend, fill, read_chunk,
}

module _ {A P : Type 0} (part_of : P → Result ReadError (List A)) where
  unfoldable pub elements : List (Event P) → List A
  elements [] = []
  elements (e ∷ es) =
      let rest = elements es in elim (event_part part_of e) [ err x ↦ [] | ok c ↦ c ++ rest ]

  unfoldable pub ending : List (Event P) → ReadError
  ending [] = eof
  ending (e ∷ es) = let rest = ending es in elim (event_part part_of e) [ err x ↦ x | ok c ↦ rest ]

  -- The queue that a reader stands for.
  abbrev pub pending : Source A P → List A
  pending s = s.tail ++ elements s.stream

  -- A full buffer took the front of the queue, and the rest is pending.
  pub record Took (n : ℕ) (q : List A) (last : ReadError) (f : Filled A P) : Type 0 where
    pub is_full : f.full ≡ true
    pub took : f.got ≡ take n q
    pub left : f.source.tail ++ elements f.source.stream ≡ drop n q
    pub same_ending : ending f.source.stream ≡ last

  -- A buffer that is not full took the whole queue, and the stream failed.
  pub record Drained (q : List A) (last : ReadError) (f : Filled A P) : Type 0 where
    pub not_full : f.full ≡ false
    pub took_all : f.got ≡ q
    pub failed_with : f.source.cause ≡ some last
    pub no_tail : f.source.tail ≡ []

  module _ (e : Event P) (es : List (Event P)) {c : List A} (q : event_part part_of e ≡ ok c) where
    fill_received :
        (room : ℕ)
        → fill part_of (e ∷ es) room ≡ (
            if length c == 0
            then fill part_of es room
            else if leb room (length c)
            then record {
              got = take room c;
              full = true;
              source = record { stream = es; cause = none; tail = drop room c };
            }
            else prepend part_of c (fill part_of es (room - length c)))
    unfolding fill
    fill_received room = rw (q, fill)

    elements_received : elements (e ∷ es) ≡ c ++ elements es
    unfolding elements
    elements_received = rw (q, elements)

    ending_received : ending (e ∷ es) ≡ ending es
    unfolding ending
    ending_received = rw (q, ending)

  module _ (e : Event P) (es : List (Event P)) {x : ReadError}
      (q : event_part part_of e ≡ err x) where
    fill_failed :
        (room : ℕ)
        → fill part_of (e ∷ es) room ≡ record {
          got = [];
          full = false;
          source = record { stream = es; cause = some x; tail = [] };
        }
    unfolding fill
    fill_failed room = rw (q, fill)

    elements_failed : elements (e ∷ es) ≡ []
    unfolding elements
    elements_failed = rw (q, elements)

    ending_failed : ending (e ∷ es) ≡ x
    unfolding ending
    ending_failed = rw (q, ending)

  module _ {n : ℕ} {q : List A} {last : ReadError} {f : Filled A P} (c : List A) where
    Took-skip : length c ≡ 0 → Took n q last f → Took n (c ++ q) last f
    Took-skip h t = rw (eq_nil c h) t

    Took-prepend :
        length c ≤ n → Took (n - length c) q last f → Took n (c ++ q) last (prepend part_of c f)
    Took-prepend h t = record {
      is_full = t.is_full;
      took = ap (λ x. c ++ x) t.took ∙ sym (take_through n c q h);
      left = t.left ∙ sym (drop_through n c q h);
      same_ending = t.same_ending;
    }

  module _ {q : List A} {last : ReadError} {f : Filled A P} (c : List A) where
    Drained-skip : length c ≡ 0 → Drained q last f → Drained (c ++ q) last f
    Drained-skip h t = rw (eq_nil c h) t

    Drained-prepend : Drained q last f → Drained (c ++ q) last (prepend part_of c f)
    Drained-prepend t = record {
      not_full = t.not_full;
      took_all = ap (λ x. c ++ x) t.took_all;
      failed_with = t.failed_with;
      no_tail = t.no_tail;
    }

  Took-within :
      (es : List (Event P)) (c : List A) (room : ℕ)
      → room ≤ length c
      → Took room (c ++ elements es) (ending es) (record {
        got = take room c;
        full = true;
        source = record { stream = es; cause = none; tail = drop room c };
      })
  Took-within es c room h = record {
    is_full = refl;
    took = sym (take_within room c (elements es) h);
    left = sym (drop_within room c (elements es) h);
    same_ending = refl;
  }

  fill-Took :
      (es : List (Event P)) (room : ℕ)
      → 0 < room
      → room ≤ length (elements es)
      → Took room (elements es) (ending es) (fill part_of es room)
  fill-Took [] room h l = absurd (unfold elements in omega arith)
  fill-Took (e ∷ es) room h l = elim (Result-cases (event_part part_of e)) [
    | inl (x, q) ↦ absurd (omega (arith, (rw (elements_failed e es q) at l)))
    | inr (c, q) ↦
        rw (fill_received e es q room, elements_received e es q, ending_received e es q)
          (elim (Bool-cases (length c == 0)) [
            | inl z ↦ rw z (
                Took-skip c (ground arith) (
                  fill-Took es room h
                    (reach c (rw (elements_received e es q) at l) (ground arith))))
            | inr z ↦ rw z (elim (Bool-cases (leb room (length c))) [
              | inl y ↦ rw y (Took-within es c room (ground arith))
              | inr y ↦ rw y (
                  Took-prepend c (ground arith) (
                    fill-Took es (room - length c) (ground arith)
                      (reach c (rw (elements_received e es q) at l) (ground arith))))
            ])
          ])
  ]
    where
      reach :
          {k : ℕ} (c : List A)
          → room ≤ length (c ++ elements es)
          → k + length c ≡ room
          → k ≤ length (elements es)
      reach c l r = omega (arith, length-append {0} c (elements es))

  fill-Drained :
      (es : List (Event P)) (room : ℕ)
      → length (elements es) < room
      → Drained (elements es) (ending es) (fill part_of es room)
  fill-Drained [] room l =
      unfold fill elements ending in
      record { not_full = refl; took_all = refl; failed_with = refl; no_tail = refl }
  fill-Drained (e ∷ es) room l = elim (Result-cases (event_part part_of e)) [
    | inl (x, q) ↦
        rw (fill_failed e es q room, elements_failed e es q, ending_failed e es q)
          (record { not_full = refl; took_all = refl; failed_with = refl; no_tail = refl })
    | inr (c, q) ↦
        rw (fill_received e es q room, elements_received e es q, ending_received e es q)
          (elim (Bool-cases (length c == 0)) [
            | inl z ↦ rw z (
                Drained-skip c (ground arith) (
                  fill-Drained es room
                    (short c (rw (elements_received e es q) at l) (ground arith))))
            | inr z ↦ rw z (elim (Bool-cases (leb room (length c))) [
              | inl y ↦ absurd (beyond c (rw (elements_received e es q) at l) (ground arith))
              | inr y ↦ rw y (
                  Drained-prepend c (
                    fill-Drained es (room - length c)
                      (short c (rw (elements_received e es q) at l) (ground arith))))
            ])
          ])
  ]
    where
      short :
          {k : ℕ} (c : List A)
          → length (c ++ elements es) < room
          → k + length c ≡ room
          → length (elements es) < k
      short c l r = omega (arith, length-append {0} c (elements es))

      beyond : (c : List A) → length (c ++ elements es) < room → room ≤ length c → ⊥
      beyond c l r = omega (arith, length-append {0} c (elements es))

  module _ (s : Source A P) (n : ℕ) where
    read_chunk_within :
        n ≤ length s.tail
        → read_chunk part_of s n
          ≡ record { got = take n s.tail; full = true; source = record s { tail = drop n s.tail } }
    unfolding read_chunk
    read_chunk_within h =
        rw
          (let e : (length (take n s.tail) == n) ≡ true = ground (arith, length-take n s.tail) in e)

    read_chunk_through :
        length s.tail < n
        → read_chunk part_of s n
          ≡ prepend part_of s.tail (fill part_of s.stream (n - length s.tail))
    unfolding read_chunk
    read_chunk_through h = rw (
      (let e : (length (take n s.tail) == n) ≡ false = ground (arith, length-take n s.tail) in e),
      take_all n s.tail (omega arith),
      drop_all n s.tail (omega arith),
    )

    pub read_chunk-Took :
        n ≤ length (pending s) → Took n (pending s) (ending s.stream) (read_chunk part_of s n)
    read_chunk-Took h = elim (Bool-cases (leb n (length s.tail))) [
      | inl y ↦ rw (read_chunk_within (ground arith)) (record {
        is_full = refl;
        took = sym (take_within n s.tail (elements s.stream) (ground arith));
        left = sym (drop_within n s.tail (elements s.stream) (ground arith));
        same_ending = refl;
      })
      | inr y ↦ rw (read_chunk_through (ground arith)) (
          Took-prepend s.tail (ground arith) (
            fill-Took s.stream (n - length s.tail) (ground arith)
              (omega (arith, length-append {0} s.tail (elements s.stream), h))))
    ]

    pub read_chunk-Drained :
        length (pending s) < n → Drained (pending s) (ending s.stream) (read_chunk part_of s n)
    read_chunk-Drained h =
        rw (read_chunk_through (omega (arith, length-append {0} s.tail (elements s.stream), h))) (
          Drained-prepend s.tail (
            fill-Drained s.stream (n - length s.tail)
              (omega (arith, length-append {0} s.tail (elements s.stream), h))))

    -- Refinement: a reader is the queue of what is pending. A buffer that the queue fills takes its front,
    -- in order, and the rest stays with the same end; any other takes all of it, and the reader's error is
    -- the one that ends the stream.
    pub read_chunk_lem :
        (n ≤ length (pending s) → Took n (pending s) (ending s.stream) (read_chunk part_of s n))
        × (length (pending s) < n → Drained (pending s) (ending s.stream) (read_chunk part_of s n))
    read_chunk_lem = (read_chunk-Took, read_chunk-Drained)
