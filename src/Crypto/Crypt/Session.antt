-- ===== src/Crypto/Crypt/Session.antt =====
-- src/client/crypto/crypt.ts as src/client/transport/handler.ts uses it: the class `Crypt` behind
-- the interface `Cipher`, which has no state.
use teamspeak_js.Common.{
  ℕ, zero, suc, length-append, ◌≤◌, ◌⊎◌, ◌≡◌, refl, ap, ◌∙◌, ◌+◌, ◌^◌, ◌<◌, Bool, true, false, ◌||◌,
  not, ltb, ◌==◌, if◌then◌else◌, List, length, drop, Option, none, some, Bool-cases, inl, inr,
  arith,
}
use teamspeak_js.Common.Maps.{lookup}
use teamspeak_js.Crypto.Eax.{xor_bytes}
use teamspeak_js.Transport.Cipher.{Cipher}
use teamspeak_js.Crypto.Crypt.{
  Primitives, Crypt, set_shared_secret, encrypt, decrypt, init1_packet_type, iv_alpha_size, with_iv,
  mix_secret,
}
use teamspeak_js.Crypto.Crypt.Keys.{IsCoherent, Follows}
use teamspeak_js.Crypto.Crypt.Packets.{
  session, session_encrypt, with_state, returned, encrypt-session, decrypt-session,
}

chosen :
    (is_init plain : Bool) (x y : List ℕ × List ℕ) (o : Option (List ℕ × List ℕ))
    → o ≡ some (returned o)
    → (if is_init then some x else if plain then some y else o)
      ≡ some (returned (if is_init then some x else if plain then some y else o))
chosen true plain x y o h = refl
chosen false true x y o h = refl
chosen false false x y o h = h

length-xor_bytes : (n : ℕ) (a b : List ℕ) → length (xor_bytes n a b) ≡ n
unfolding xor_bytes
length-xor_bytes zero a b = refl
length-xor_bytes (suc n) a b = ap suc (length-xor_bytes n (drop 1 a) (drop 1 b))

length-mix_secret :
    (alpha beta shared_key : List ℕ) → length (mix_secret alpha beta shared_key) ≡ 10 + length beta
length-mix_secret alpha beta shared_key =
    rw
      (
        length-append (xor_bytes iv_alpha_size shared_key alpha)
            (xor_bytes (length beta) (drop iv_alpha_size shared_key) beta),
        length-xor_bytes iv_alpha_size shared_key alpha,
        length-xor_bytes (length beta) (drop iv_alpha_size shared_key) beta,
      )
      refl

module _ (p : Primitives) where
  -- The ciphers of the session that a `Crypt` is in.
  abbrev pub cipher_of : Crypt → Cipher
  cipher_of c = session p c.iv_struct c.fake_signature c.crypto_init_complete

  cipher_of-Follows : (c c' : Crypt) → Follows p c c' → cipher_of c' ≡ cipher_of c
  cipher_of-Follows c c' (_, e1, e2, e3) = rw (e1, e2, e3) refl

  encrypts :
      (packet_type packet_id generation_id : ℕ) (header plaintext : List ℕ)
      (dummy unencrypted : Bool) (iv_struct fake_signature : List ℕ) (init : Bool)
      → (dummy || init) ≡ true
      → session_encrypt p packet_type packet_id generation_id header plaintext dummy unencrypted
          iv_struct fake_signature init
        ≡ some (
            returned (
              session_encrypt p packet_type packet_id generation_id header plaintext dummy
                unencrypted iv_struct fake_signature init))
  encrypts packet_type packet_id generation_id header plaintext dummy unencrypted iv_struct
        fake_signature init ready =
      chosen (packet_type == init1_packet_type) unencrypted _ _ _
        (elim (Bool-cases dummy) [ inl e ↦ rw e refl | inr e ↦ rw (e, rw e at ready) refl ])

  -- While the keys are set up, or with the dummy key asked for, `encrypt` never throws: it returns
  -- what the session's cipher without a cache returns, leaves a coherent cache coherent and the
  -- session's cipher as it was. The type is below 16 and the generation below 2^32.
  pub encrypt-cipher_of :
      (packet_type packet_id generation_id : ℕ) (header plaintext : List ℕ)
      (dummy unencrypted : Bool) (c : Crypt)
      → packet_type < 16
      → generation_id < 2 ^ 32
      → IsCoherent p c
      → (dummy || c.crypto_init_complete) ≡ true
      → (c' : Crypt) × (encrypt p packet_type packet_id generation_id header plaintext dummy
            unencrypted c
          ≡ some (
            (cipher_of c).encrypt packet_type packet_id generation_id header plaintext dummy
                unencrypted,
            c',
          ))
        × IsCoherent p c'
        × (cipher_of c' ≡ cipher_of c)
  encrypt-cipher_of packet_type packet_id generation_id header plaintext dummy unencrypted c ht hg
        hc ready =
      let (c', same, follows) =
        encrypt-session p packet_type packet_id generation_id header plaintext dummy unencrypted c
          ht hg hc in
      (
        c',
        same
            ∙ ap (with_state c') (
                encrypts packet_type packet_id generation_id header plaintext dummy unencrypted
                  c.iv_struct c.fake_signature c.crypto_init_complete ready),
        follows.0,
        cipher_of-Follows c c' follows,
      )

  -- `decrypt` returns what the session's cipher without a cache returns, or throws where that does,
  -- leaves a coherent cache coherent and the session's cipher as it was. The type is below 16 and
  -- the generation below 2^32.
  pub decrypt-cipher_of :
      (packet_type packet_id generation_id : ℕ) (header ciphertext tag : List ℕ)
      (dummy unencrypted : Bool) (c : Crypt)
      → packet_type < 16
      → generation_id < 2 ^ 32
      → IsCoherent p c
      → (c' : Crypt) × (decrypt p packet_type packet_id generation_id header ciphertext tag dummy
            unencrypted c
          ≡ (
            (cipher_of c).decrypt packet_type packet_id generation_id header ciphertext tag dummy
                unencrypted,
            c',
          ))
        × IsCoherent p c'
        × (cipher_of c' ≡ cipher_of c)
  decrypt-cipher_of packet_type packet_id generation_id header ciphertext tag dummy unencrypted c ht
        hg hc =
      let (c', same, follows) =
        decrypt-session p packet_type packet_id generation_id header ciphertext tag dummy
          unencrypted c ht hg hc in
      (c', same, follows.0, cipher_of-Follows c c' follows)

  pub nothing_cached : (iv : List ℕ) → IsCoherent p (with_iv p iv)
  unfolding lookup
  nothing_cached iv from t gen kn ht hg found = cc found

  -- Whatever the cache held before: where `setSharedSecret` returns, the cache is coherent with the
  -- new IV, which is as long as alpha and beta together, and the keys are set up. It returns exactly
  -- where alpha is 10 bytes long, beta has at least one and the secret covers both.
  pub set_shared_secret-IsCoherent :
      (alpha beta shared_key : List ℕ) (c : Crypt)
      → ((c' : Crypt) × (set_shared_secret p alpha beta shared_key c ≡ some c')
          × IsCoherent p c'
          × (length c'.iv_struct ≡ length alpha + length beta)
          × (c'.crypto_init_complete ≡ true)
          × (length alpha ≡ 10)
          × (1 ≤ length beta)
          × (10 + length beta ≤ length shared_key))
        ⊎ ((set_shared_secret p alpha beta shared_key c ≡ none)
            × ((length alpha ≡ 10) → (1 ≤ length beta) → length shared_key < 10 + length beta))
  unfolding set_shared_secret
  set_shared_secret-IsCoherent alpha beta shared_key c =
      elim (Bool-cases (
        not (length alpha == iv_alpha_size)
        || ((length beta == 0) || ltb (length shared_key) (iv_alpha_size + length beta)))) [
          | inl e ↦ inr (rw e refl, ground arith)
          | inr e ↦ inl (
            with_iv p (mix_secret alpha beta shared_key),
            rw e refl,
            nothing_cached (mix_secret alpha beta shared_key),
            (let len = length-mix_secret alpha beta shared_key in ground arith),
            refl,
            ground arith,
            ground arith,
            ground arith,
          )
        ]
