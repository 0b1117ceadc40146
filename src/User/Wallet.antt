-- ===== src/User/Wallet.antt =====
-- Which IDs of user/id.go are read back from the message that they are written to.
use neofs_sdk_go.Prelude.{
  ℕ, ◌+◌, ◌-◌, ◌≤◌, ◌≡◌, ◌↔◌, refl, sym, ap, ◌∙◌, true, [], ◌∷◌, ◌++◌, ◌==◌, length, take, drop,
  arith, ==_iff, length-append, length-drop, take_within, take_all, drop_through, drop_all,
  append-nil,
}
use neofs_sdk_go.Prelude.Bytes.{Bytes, bytes_eq, bytes_eq_iff}
use neofs_sdk_go.Prelude.Result.{ok, ◌>>=◌, Succeeds, guard_ok}
use neofs_sdk_go.User.{WalletEnv, read_id, set_script_hash, encode_to_string, decode_string}

module _ (env : WalletEnv) where
  abbrev pub IsWallet : Bytes → Type 0
  IsWallet w =
      (length w ≡ 25) × (take 1 w ≡ env.neo3_prefix ∷ []) × (drop 21 w ≡ env.checksum (take 21 w))

  read_id→IsWallet : (b : ℕ) (bs : Bytes) → Succeeds (read_id env (b ∷ bs)) → IsWallet (b ∷ bs)
  unfolding read_id
  read_id→IsWallet b bs (w, h) =
      let (l, h1) = guard_ok (length (b ∷ bs) == 25) _ _ h in
      let (p, h2) = guard_ok (b == env.neo3_prefix) _ _ h1 in
      let (c, h3) =
        guard_ok (bytes_eq (drop 21 (b ∷ bs)) (env.checksum (take 21 (b ∷ bs)))) _ _ h2 in
      (
        (==_iff (length (b ∷ bs)) 25).0 l,
        ap (λ n. n ∷ []) ((==_iff b env.neo3_prefix).0 p),
        (bytes_eq_iff (drop 21 (b ∷ bs)) (env.checksum (take 21 (b ∷ bs)))).0 c,
      )

  IsWallet→read_id : (b : ℕ) (bs : Bytes) → IsWallet (b ∷ bs) → read_id env (b ∷ bs) ≡ ok (b ∷ bs)
  unfolding read_id
  IsWallet→read_id b bs (l, p, c) =
      rw
        (
          read_id,
          (let y : (length (b ∷ bs) == 25) ≡ true = (==_iff (length (b ∷ bs)) 25).1 l in y),
          (let y : (b == env.neo3_prefix) ≡ true = (==_iff b env.neo3_prefix).1 (ap head p) in y),
          (bytes_eq_iff (drop 21 (b ∷ bs)) (env.checksum (take 21 (b ∷ bs)))).1 c,
        )
        refl
    where
      head : Bytes → ℕ
      head [] = 0
      head (n ∷ ns) = n

  module _ (w hash : Bytes) (sized : length hash ≡ 20) where
    abbrev body : Bytes
    body = env.prefix ∷ hash

    length-set : length (set_script_hash env w hash) ≡ 25 + (length w - 25)
    unfolding set_script_hash
    length-set =
        length-append body (env.checksum body ++ drop 25 w)
        ∙ omega (
          arith,
          length-append (env.checksum body) (drop 25 w),
          env.length-checksum body,
          length-drop 25 w,
          sized,
        )

    take-set : take 21 (set_script_hash env w hash) ≡ body
    unfolding set_script_hash
    take-set =
        take_within 21 body (env.checksum body ++ drop 25 w) (omega (arith, sized))
        ∙ take_all 21 body (omega (arith, sized))

    drop-set : drop 21 (set_script_hash env w hash) ≡ env.checksum body ++ drop 25 w
    unfolding set_script_hash
    drop-set =
        drop_through 21 body (env.checksum body ++ drop 25 w) (omega (arith, sized))
        ∙ rw (let e : 21 - length body ≡ 0 = omega (arith, sized) in e) refl

  decoded :
      (w hash : Bytes)
      → decode_string env (encode_to_string env (set_script_hash env w hash))
        ≡ ok (set_script_hash env w hash)
  unfolding decode_string encode_to_string set_script_hash
  decoded w hash = rw (decode_string, env.decode-encode (set_script_hash env w hash) (λ e. cc)) refl

  -- An ID that SetScriptHash sets is read back from its message exactly if it had at most 25 bytes
  -- before and the prefix of addresses is Neo3's; in any case its bytes hold the hash. The same decides
  -- whether the ID that DecodeString makes of its text is read back.
  pub set_script_hash_lem :
      (w hash : Bytes)
      → length hash ≡ 20
      → (Succeeds (read_id env (set_script_hash env w hash))
          ↔ (length w ≤ 25) × (env.prefix ≡ env.neo3_prefix))
        × (take 21 (set_script_hash env w hash) ≡ env.prefix ∷ hash)
        × (Succeeds (
              decode_string env (encode_to_string env (set_script_hash env w hash)) >>= read_id env)
            ↔ (length w ≤ 25) × (env.prefix ≡ env.neo3_prefix))
  unfolding set_script_hash
  set_script_hash_lem w hash sized =
      ((to, from), take-set w hash sized, rw (decoded w hash) (to, from))
    where
      to :
          Succeeds (read_id env (set_script_hash env w hash))
          → (length w ≤ 25) × (env.prefix ≡ env.neo3_prefix)
      to h =
          let s = set_script_hash env w hash in
          let (l, p, c) = read_id→IsWallet env.prefix _ h in
          (omega (arith, l, length-set w hash sized), cc)

      from :
          (length w ≤ 25) × (env.prefix ≡ env.neo3_prefix)
          → Succeeds (read_id env (set_script_hash env w hash))
      from (l, p) =
          let cs = env.checksum (body w hash sized) in
          let c = ap (λ r. cs ++ r) (drop_all 25 w l) ∙ append-nil cs in
          (
            set_script_hash env w hash,
            IsWallet→read_id env.prefix _ (
              length-set w hash sized ∙ omega (arith, l),
              ap (λ n. n ∷ []) p,
              drop-set w hash sized ∙ c ∙ sym (ap env.checksum (take-set w hash sized)),
            ),
          )
