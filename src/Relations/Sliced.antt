-- ===== src/Relations/Sliced.antt =====
-- `Get` of object/relations/relations.go on what the slicer of object/slicer/slicer.go has written.
use neofs_sdk_go.Prelude.{
  ℕ, ◌≤◌, ◌<◌, ◌+◌, ◌≡◌, ◌⊎◌, refl, sym, ap, ◌∙◌, subst, true, false, Option, none, some, List, [],
  ◌∷◌, ◌++◌, append-nil, map, All, length, arith, inl, inr,
}
use neofs_sdk_go.Prelude.Bytes.{Bytes}
use neofs_sdk_go.Prelude.Result.{ok, err}
use neofs_sdk_go.Slicer.Object.{Env, Object, Delivery}
use neofs_sdk_go.Slicer.Writer.{PayloadWriter, get_last, id_or_zero}
use neofs_sdk_go.Slicer.Writer.Invariant.{sent_id}
use neofs_sdk_go.Slicer.Writer.Chain.{Chain, Linked}
use neofs_sdk_go.Slicer.Writer.Outcome.{IsSplit}
use neofs_sdk_go.Relations.{
  Executor, SplitInfo, split_info_error, header, no_left_sibling, get_left_sibling,
  complete_split_info, with_link, collect_chain, get_parts, get, reply_split_info,
}
use neofs_sdk_go.Relations.Walk.{
  reverse_onto, reverse_twice, IsDistinct, IsFresh, reverse_onto-IsFresh, GoesLeft,
  collect_chain_lem,
}

length-reverse_onto : (xs c : List Bytes) → length (reverse_onto xs c) ≡ length xs + length c
length-reverse_onto [] c = omega arith
length-reverse_onto (x ∷ xs) c = omega (arith, length-reverse_onto xs (x ∷ c))

reverse_last :
    (xs : List Bytes) (p : Bytes) (ps : List Bytes) {l : Bytes}
    → get_last (p ∷ xs) ≡ some l
    → (ys : List Bytes) × (reverse_onto xs (p ∷ ps) ≡ l ∷ ys)
reverse_last [] p ps e = (ps, ap (λ q. q ∷ ps) (cc))
reverse_last (x ∷ xs) p ps e = reverse_last xs x (p ∷ ps) e

-- The first object of a chain has no left sibling.
abbrev pub Starts : List Delivery → Type 0
Starts [] = Unit {0}
Starts (d ∷ ds) = d.object.header.previous ≡ none

module _ (ex : Executor) where
  -- Heads of an object are answered with its header, raw or not.
  abbrev pub Serves : Delivery → Type 0
  Serves d =
      (ex.head true (sent_id d) ≡ header d.object.header)
      × (ex.head false (sent_id d) ≡ header d.object.header)

  abbrev Walk : List Bytes → Type 0
  Walk [] = Unit {0}
  Walk (x ∷ xs) = GoesLeft ex x xs

  left_of :
      (d : Delivery) {p : Bytes}
      → Serves d
      → d.object.header.previous ≡ some p
      → get_left_sibling ex (sent_id d) ≡ ok p
  unfolding get_left_sibling
  left_of d (_, h) e = rw h (rw e)

  no_left :
      (d : Delivery)
      → Serves d
      → d.object.header.previous ≡ none
      → get_left_sibling ex (sent_id d) ≡ err no_left_sibling
  unfolding get_left_sibling
  no_left d (_, h) e = rw h (rw e)

  walk_lem :
      (s : Bytes) (ds : List Delivery) (p : Bytes) (ps : List Bytes)
      → GoesLeft ex p ps
      → Linked s p ds
      → All Serves ds
      → Walk (reverse_onto (map sent_id ds) (p ∷ ps))
  walk_lem s [] p ps g l v = g
  walk_lem s (d ∷ ds) p ps g l (v, vs) =
      walk_lem s ds (sent_id d) (p ∷ ps) (left_of d v l.0, g) l.2 vs

  collect_all :
      (s : Bytes) (kids : List Delivery) (fuel : ℕ) {last : Bytes}
      → Chain s kids
      → Starts kids
      → All Serves kids
      → IsDistinct (map sent_id kids)
      → get_last (map sent_id kids) ≡ some last
      → length (map sent_id kids) ≤ fuel
      → collect_chain ex fuel last (last ∷ []) ≡ some (ok (map sent_id kids, none))
  collect_all s [] fuel c st v d e l = absurd (cc)
  collect_all s (k ∷ ks) fuel {last} c st (v, vs) d e l =
      let ids : List Bytes = map sent_id ks in
      let (ys, r) = reverse_last ids (sent_id k) [] e in
      let walk = walk_lem s ks (sent_id k) [] (no_left k v st) c vs in
      let fresh =
        reverse_onto-IsFresh (sent_id k ∷ ids) [] []
          (subst IsDistinct (sym (append-nil (sent_id k ∷ ids))) d) tt in
      let len = length-reverse_onto ids (sent_id k ∷ []) in
      collect_chain_lem ex fuel last ys (last ∷ []) (omega (arith, ap length r, len))
        (subst Walk r walk) (subst (λ q. IsFresh q []) r fresh).1
      ∙ ap (λ q. some (ok (q, none)))
          (ap (λ q. reverse_onto q []) (sym r)
            ∙ reverse_twice (sent_id k ∷ ids) [] []
            ∙ append-nil (sent_id k ∷ ids))

-- What the network answers on a split object that the slicer wrote: its parts have their headers and
-- different IDs; the first has no left sibling, the last no children. A raw head of the root gives split
-- information, and a search for its children finds some of the last part and the linking object. One of
-- the two is known.
pub record Network (ex : Executor) (root : Bytes) (kids : List Delivery) (last link : Delivery)
    : Type 0 where
  pub info : SplitInfo
  pub siblings : List Bytes
  pub serves_kids : All (Serves ex) kids
  pub serves_last : Serves ex last
  pub serves_link : Serves ex link
  pub starts : Starts kids
  pub childless : last.object.header.children ≡ []
  pub distinct : IsDistinct (map sent_id kids)
  pub head_of_root : ex.head true root ≡ split_info_error info
  pub info_link : (info.link ≡ none) ⊎ (info.link ≡ some (sent_id link))
  pub found : ex.search root ≡ ok siblings
  pub are_ends : All (λ id. (id ≡ sent_id last) ⊎ (id ≡ sent_id link)) siblings
  pub known :
      (info.link ≡ some (sent_id link))
      ⊎ (info.last_part ≡ some (sent_id last))
      ⊎ (0 < length siblings)

-- Split information that names the linking object or the last part, and nothing else.
record Names (link last : Bytes) (info : SplitInfo) : Type 0 where
  by : (info.link ≡ some link) ⊎ (info.link ≡ none) × (info.last_part ≡ some last)

module _ (ex : Executor) (last link : Delivery) {s : Bytes} {c : Bytes} {cs : List Bytes}
    (v_last : Serves ex last) (v_link : Serves ex link)
    (s_last : last.object.header.split_id ≡ some s) (s_link : link.object.header.split_id ≡ some s)
    (c_last : last.object.header.children ≡ [])
    (c_link : link.object.header.children ≡ c ∷ cs) where
  info_of_last :
      reply_split_info (sent_id last) (ex.head true (sent_id last))
      ≡ ok (record { split_id = some s; last_part = some (sent_id last); link = none })
  info_of_last = rw v_last.0 (rw s_last (rw c_last))

  info_of_link :
      reply_split_info (sent_id link) (ex.head true (sent_id link))
      ≡ ok (record { split_id = some s; last_part = none; link = some (sent_id link) })
  info_of_link = rw v_link.0 (rw s_link (rw c_link (ground arith)))

  reply_at :
      (id : Bytes) {id' : Bytes}
      → id ≡ id'
      → reply_split_info id (ex.head true id) ≡ reply_split_info id' (ex.head true id')
  reply_at id e = ap (λ q. reply_split_info q (ex.head true q)) e

  complete_lem :
      (info : SplitInfo) (ids : List Bytes)
      → info.link ≡ none
      → All (λ id. (id ≡ sent_id last) ⊎ (id ≡ sent_id link)) ids
      → (info.last_part ≡ some (sent_id last)) ⊎ (0 < length ids)
      → (info' : SplitInfo) × (complete_split_info ex info ids ≡ ok info')
        × Names (sent_id link) (sent_id last) info'
  unfolding complete_split_info
  complete_lem info [] n a (inl e) = (info, refl, record { by = inr (n, e) })
  complete_lem info [] n a (inr l) = absurd (omega arith)
  complete_lem info (id ∷ ids) n (inl e, a) k =
      let (i, q, m) =
        complete_lem (record info { last_part = some (sent_id last) }) ids n a (inl refl) in
      (i, rw (reply_at id e ∙ info_of_last, complete_split_info) q, m)
  complete_lem info (id ∷ ids) n (inr e, a) k = (
    record info { link = some (sent_id link) },
    rw (reply_at id e ∙ info_of_link, complete_split_info) refl,
    record { by = inl refl },
  )

  with_link_lem :
      (root : Bytes) (info : SplitInfo) (siblings : List Bytes)
      → ex.search root ≡ ok siblings
      → All (λ id. (id ≡ sent_id last) ⊎ (id ≡ sent_id link)) siblings
      → (info.link ≡ some (sent_id link))
        ⊎ (info.link ≡ none) × ((info.last_part ≡ some (sent_id last)) ⊎ (0 < length siblings))
      → (info' : SplitInfo) × (with_link ex root info ≡ ok info')
        × Names (sent_id link) (sent_id last) info'
  unfolding with_link
  with_link_lem root info siblings f a (inl e) = (info, ground (arith, e), record { by = inl e })
  with_link_lem root info siblings f a (inr (e, k)) =
      let (i, q, m) = complete_lem info siblings e a k in (i, rw (e, with_link) (rw f q), m)

  -- With the chain of all the parts, either name leads to them.
  get_parts_lem :
      (fuel : ℕ) (info : SplitInfo) (ids : List Bytes)
      → Names (sent_id link) (sent_id last) info
      → link.object.header.children ≡ ids
      → collect_chain ex fuel (sent_id last) (sent_id last ∷ []) ≡ some (ok (ids, none))
      → (l : Option Bytes) × (get_parts ex fuel info ≡ some (ok (ids, l)))
        × ((l ≡ none) ⊎ (l ≡ some (sent_id link)))
  unfolding get_parts
  get_parts_lem fuel info ids n c h = elim n.by [
    | inl e ↦ (some (sent_id link), rw (e, get_parts) (rw v_link.1 (rw c)), inr refl)
    | inr (e, m) ↦ (none, rw (e, get_parts) (rw m h), inl refl)
  ]

map_last :
    (children : List Delivery) (last : Delivery)
    → get_last (map sent_id (children ++ last ∷ [])) ≡ some (sent_id last)
map_last [] last = refl
map_last (x ∷ []) last = refl
map_last (x ∷ y ∷ ys) last = map_last (y ∷ ys) last

map_nonempty :
    (children : List Delivery) (last : Delivery)
    → (c : Bytes) × (cs : List Bytes) × (map sent_id (children ++ last ∷ []) ≡ c ∷ cs)
map_nonempty [] last = (sent_id last, [], refl)
map_nonempty (x ∷ xs) last = (sent_id x, map sent_id (xs ++ last ∷ []), refl)

known_by :
    {P Q : Type 0} {l : Bytes} (o : Option Bytes)
    → (o ≡ none) ⊎ (o ≡ some l)
    → (o ≡ some l) ⊎ P ⊎ Q
    → (o ≡ some l) ⊎ (o ≡ none) × (P ⊎ Q)
known_by o c (inl e) = inl e
known_by o (inl n) (inr k) = inr (n, k)
known_by o (inr e) (inr k) = inl e

-- The deliveries of a split payload: its last part, its linking object, and all parts.
module _ {env : Env} {o : Object} {limit : ℕ} {d : Bytes} {w : PayloadWriter} where
  abbrev pub last_of : IsSplit env o limit d w → Delivery
  last_of split = record { object = split.last; payload = split.rest }

  abbrev pub link_of : IsSplit env o limit d w → Delivery
  link_of split = record { object = split.link; payload = [] }

  abbrev pub kids_of : IsSplit env o limit d w → List Delivery
  kids_of split = split.children ++ last_of split ∷ []

-- From a network that holds what the slicer has written and knows the linking object or the last part,
-- Get of the root returns the IDs of all the children in the order of the payload, with the linking
-- object's ID or without it. As many steps along the chain as there are children are enough.
pub get-slice :
    (env : Env) (ex : Executor) (o : Object) (limit : ℕ) (d : Bytes) (w : PayloadWriter)
    (split : IsSplit env o limit d w) (fuel : ℕ)
    → Network ex (id_or_zero split.root.id) (kids_of split) (last_of split) (link_of split)
    → length (map sent_id (kids_of split)) ≤ fuel
    → (l : Option Bytes) × (get ex fuel (id_or_zero split.root.id)
        ≡ some (ok (map sent_id (kids_of split), l)))
      × ((l ≡ none) ⊎ (l ≡ some (sent_id (link_of split))))
unfolding get
get-slice env ex o limit d w split fuel net enough =
    let last = last_of split in
    let link = link_of split in
    let (c, cs, q) = map_nonempty split.children last in
    let some_children = split.is_link.children_of ∙ q in
    let (info, e, n) =
      with_link_lem ex last link net.serves_last net.serves_link split.last_end.split_id
        split.link_end.split_id net.childless some_children (id_or_zero split.root.id) net.info
        net.siblings net.found net.are_ends (known_by net.info.link net.info_link net.known) in
    let chain =
      collect_all ex env.split_id (kids_of split) fuel split.chain net.starts net.serves_kids
        net.distinct (map_last split.children last) enough in
    let (l, g, m) =
      get_parts_lem ex last link net.serves_last net.serves_link split.last_end.split_id
        split.link_end.split_id net.childless some_children fuel info (map sent_id (kids_of split))
        n split.is_link.children_of chain in
    (l, rw (net.head_of_root, get) (rw e g), m)
