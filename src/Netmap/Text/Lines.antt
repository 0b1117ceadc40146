-- ===== src/Netmap/Text/Lines.antt =====
-- What `WriteStringTo` (netmap/policy.go) writes as a whole.
use neofs_sdk_go.Prelude.{
  ℕ, ◌≡◌, refl, sym, ap, ◌∙◌, Bool, true, false, List, [], ◌∷◌, ◌++◌, map, append-nil, append_assoc,
  ltb, if◌then◌else◌,
}
use neofs_sdk_go.Prelude.Bytes.{Bytes, codes}
use neofs_sdk_go.Prelude.Result.{Result, ok, >>=-eq-ok}
use neofs_sdk_go.Netmap.Container.{PlacementPolicy}
use neofs_sdk_go.Netmap.Text.{
  Writer, WriteError, format_dec, Progress, write_string, write_each, write_replica, write_backup,
  write_selector, write_filter_line, write_string_to,
}
use neofs_sdk_go.Netmap.Text.Written.{
  filter_text, replica_text, selector_text, Prints, ln-Prints, replica-Prints, backup-Prints,
  selector-Prints, line-Prints,
}

-- Lines after what was written, a newline before each but the first of all.
abbrev pub joined : Bool → List Bytes → Bytes
joined written [] = []
joined written (l ∷ ls) = ((if written then codes "\n" else []) ++ l) ++ joined true ls

module _ (w : Writer) where
  abbrev after : Progress → List Bytes → Progress
  after t [] = t
  after t (l ∷ ls) =
      after
        (record {
          written_smth = true;
          out = (t.out ++ (if t.written_smth then codes "\n" else [])) ++ l;
        })
        ls

  module _ {A : Type 0} (statement : A → Bytes → Result WriteError Bytes) (text : A → Bytes)
      (prints : (a : A) → Prints w (statement a) (text a)) where
    each_ok :
        (as' : List A) (t t' : Progress)
        → write_each w statement as' t ≡ ok t'
        → t' ≡ after t (map text as')
    unfolding write_each
    each_ok [] t t' h = cc
    each_ok (a ∷ as') t t' h =
        let (o1, e1, h1) =
          >>=-eq-ok (if t.written_smth then write_string w (codes "\n") t.out else ok t.out) _ h in
        let (o2, e2, h2) = >>=-eq-ok (statement a o1) _ h1 in
        let q =
          (prints a o1).0 o2 e2
          ∙ ap (λ o. o ++ text a) ((ln-Prints w t.written_smth t.out).0 o1 e1) in
        each_ok as' (record { written_smth = true; out = o2 }) t' h2
        ∙ ap (λ o. after (record { written_smth = true; out = o }) (map text as')) q

    each_all :
        (as' : List A) (t : Progress)
        → ((o s : Bytes) → w.accepts o s ≡ true)
        → write_each w statement as' t ≡ ok (after t (map text as'))
    unfolding write_each
    each_all [] t all = refl
    each_all (a ∷ as') t all =
        rw (write_each, (ln-Prints w t.written_smth t.out).1 all, (prints a _).1 all)
          (each_all as' _ all)

  after-out :
      (t : Progress) (ls : List Bytes) → (after t ls).out ≡ t.out ++ joined t.written_smth ls
  after-out t [] = sym (append-nil t.out)
  after-out t (l ∷ ls) =
      after-out _ ls
      ∙ (ap (λ q. q ++ joined true ls)
            (append_assoc t.out (if t.written_smth then codes "\n" else []) l)
          ∙ append_assoc t.out ((if t.written_smth then codes "\n" else []) ++ l) (joined true ls))

  after-append : (t : Progress) (ls ms : List Bytes) → after (after t ls) ms ≡ after t (ls ++ ms)
  after-append t [] ms = refl
  after-append t (l ∷ ls) ms = after-append _ ls ms

  abbrev pub backups : PlacementPolicy → List ℕ
  backups p = if ltb 0 p.backup then p.backup ∷ [] else []

  abbrev replica_lines : PlacementPolicy → List Bytes
  replica_lines p = map (replica_text w) p.replicas

  abbrev backup_lines : PlacementPolicy → List Bytes
  backup_lines p = map (λ n. codes "CBF " ++ format_dec n) (backups p)

  abbrev selector_lines : PlacementPolicy → List Bytes
  selector_lines p = map (selector_text w) p.selectors

  abbrev filter_lines : PlacementPolicy → List Bytes
  filter_lines p = map (λ f. codes "FILTER " ++ filter_text w f) p.filters

  -- The statements of a policy, in their order.
  abbrev pub statements : PlacementPolicy → List Bytes
  statements p = replica_lines p ++ (backup_lines p ++ (selector_lines p ++ filter_lines p))

  start_text : Bytes → Progress
  start_text out = record { written_smth = false; out = out }

  module _ (p : PlacementPolicy) (out : Bytes) where
    abbrev after_replicas : Progress
    after_replicas = after (start_text out) (replica_lines p)

    abbrev after_backups : Progress
    after_backups = after after_replicas (backup_lines p)

    abbrev after_selectors : Progress
    after_selectors = after after_backups (selector_lines p)

    abbrev after_filters : Progress
    after_filters = after after_selectors (filter_lines p)

    whole_out : after_filters.out ≡ out ++ joined false (statements p)
    unfolding start_text
    whole_out =
        ap (λ t. t.out)
          (after-append after_backups (selector_lines p) (filter_lines p)
            ∙ after-append after_replicas (backup_lines p) (selector_lines p ++ filter_lines p)
            ∙ after-append (start_text out) (replica_lines p)
                (backup_lines p ++ (selector_lines p ++ filter_lines p)))
        ∙ after-out (start_text out) (statements p)

  -- Where WriteStringTo returns no error, it has written the statements of the policy: its replicas, its
  -- backup factor if it is positive, its selectors and its filters, in this order, each on a line of its
  -- own. It returns none where the writer refuses nothing.
  pub write_string_to_lem :
      (p : PlacementPolicy) (out : Bytes)
      → ((t : Progress)
          → write_string_to w p out ≡ ok t
          → t.out ≡ out ++ joined false (statements p))
        × (((o s : Bytes) → w.accepts o s ≡ true)
            → (t : Progress) × (write_string_to w p out ≡ ok t)
              × (t.out ≡ out ++ joined false (statements p)))
  unfolding write_string_to start_text
  write_string_to_lem p out = (
    λ t h.
        let (t1, e1, h1) =
          >>=-eq-ok (write_each w (write_replica w) p.replicas (start_text out)) _ h in
        let (t2, e2, h2) = >>=-eq-ok (write_each w (write_backup w) (backups p) t1) _ h1 in
        let (t3, e3, h3) = >>=-eq-ok (write_each w (write_selector w) p.selectors t2) _ h2 in
        let q1 = each_ok (write_replica w) (replica_text w) (replica-Prints w) p.replicas _ t1 e1 in
        let q2 = each_ok (write_backup w) _ (backup-Prints w) (backups p) t1 t2 e2 in
        let q3 =
          each_ok (write_selector w) (selector_text w) (selector-Prints w) p.selectors t2 t3 e3 in
        let q4 = each_ok (write_filter_line w) _ (line-Prints w) p.filters t3 t h3 in
        ap (λ u. u.out)
          (q4
            ∙ ap (λ u. after u (filter_lines p))
                (q3
                  ∙ ap (λ u. after u (selector_lines p))
                      (q2 ∙ ap (λ u. after u (backup_lines p)) q1)))
        ∙ whole_out p out,
    λ all. (
      after_filters p out,
      rw
          (
            each_all (write_replica w) (replica_text w) (replica-Prints w) p.replicas
                (start_text out) all,
            each_all (write_backup w) _ (backup-Prints w) (backups p) (after_replicas p out) all,
            each_all (write_selector w) (selector_text w) (selector-Prints w) p.selectors
                (after_backups p out) all,
          )
          (each_all (write_filter_line w) _ (line-Prints w) p.filters (after_selectors p out) all),
      whole_out p out,
    ),
  )
