-- ===== src/Crypto/Crypt/Packets.antt =====
-- src/client/crypto/crypt.ts: `getKeyNonce`, `encrypt` and `decrypt` against ciphers of a session
-- without a cache, and the interface of the packet handler.
use teamspeak_js.Common.{
  ℕ, ◌≡◌, refl, ◌^◌, ◌<◌, Bool, true, false, ◌==◌, if◌then◌else◌, List, [], take, eq_list, Option,
  none, some, Option-cases, Bool-cases, inl, inr,
}
use teamspeak_js.Crypto.Eax.{eax_encrypt, eax_decrypt}
use teamspeak_js.Crypto.Crypt.{
  Primitives, Crypt, derive, cached, get_key_nonce, mix_id, dummy_key, dummy_nonce, encrypt,
  decrypt, seal_with, open_with, init1_packet_type, init1_mac, fake_signature_size,
}
use teamspeak_js.Transport.Cipher.{Cipher}
use teamspeak_js.Crypto.Crypt.Keys.{IsCoherent, Follows, cached-derive}

-- A result together with a state.
abbrev pub with_state {ℓ} : {A : Type ℓ} → Crypt → Option A → Option (A × Crypt)
with_state c none = none
with_state c (some a) = some (a, c)

abbrev pub returned : Option (List ℕ × List ℕ) → List ℕ × List ℕ
returned none = ([], [])
returned (some out) = out

module _ (p : Primitives) where
  -- The key and the nonce of a packet, derived anew each time.
  abbrev pub session_key :
      (from_server : Bool) (packet_id generation_id packet_type : ℕ) (dummy : Bool)
      (iv_struct : List ℕ) (crypto_init_complete : Bool)
      → Option (List ℕ × List ℕ)
  session_key from_server packet_id generation_id packet_type true iv_struct crypto_init_complete =
      some (dummy_key, dummy_nonce)
  session_key from_server packet_id generation_id packet_type false iv_struct crypto_init_complete =
      let kn = derive p iv_struct from_server packet_type generation_id in
      if crypto_init_complete then some (mix_id packet_id kn.key, kn.nonce) else none

  session_key-Follows :
      (from_server : Bool) (packet_id generation_id packet_type : ℕ) (dummy : Bool) (c : Crypt)
      → packet_type < 16
      → generation_id < 2 ^ 32
      → IsCoherent p c
      → (c' : Crypt) × (get_key_nonce p from_server packet_id generation_id packet_type dummy c
          ≡ with_state c' (
              session_key from_server packet_id generation_id packet_type dummy c.iv_struct
                c.crypto_init_complete))
        × Follows p c c'
  unfolding get_key_nonce
  session_key-Follows from_server packet_id generation_id packet_type true c ht hg hc =
      (c, refl, (hc, refl, refl, refl))
  session_key-Follows from_server packet_id generation_id packet_type false c ht hg hc =
      let (same, follows) = cached-derive p from_server packet_type generation_id c ht hg hc in
      elim (Bool-cases c.crypto_init_complete) [
        | inl e ↦ ((cached p from_server packet_type generation_id c).1, rw (same, e) refl, follows)
        | inr e ↦ (c, rw e refl, (hc, refl, refl, refl))
      ]

  -- What the session encrypts and decrypts a packet to, without a cache.
  abbrev pub session_encrypt :
      (packet_type packet_id generation_id : ℕ) (header plaintext : List ℕ)
      (dummy unencrypted : Bool) (iv_struct fake_signature : List ℕ) (crypto_init_complete : Bool)
      → Option (List ℕ × List ℕ)
  session_encrypt packet_type packet_id generation_id header plaintext dummy unencrypted iv_struct
        fake_signature crypto_init_complete =
      if packet_type == init1_packet_type
      then some (plaintext, init1_mac)
      else if unencrypted
      then some (plaintext, fake_signature)
      else elim (session_key false packet_id generation_id packet_type dummy iv_struct
          crypto_init_complete) [
            | none ↦ none
            | some (key, nonce) ↦ some (eax_encrypt p.aes key nonce header plaintext)
          ]

  abbrev pub session_decrypt :
      (packet_type packet_id generation_id : ℕ) (header ciphertext tag : List ℕ)
      (dummy unencrypted : Bool) (iv_struct fake_signature : List ℕ) (crypto_init_complete : Bool)
      → Option (List ℕ)
  session_decrypt packet_type packet_id generation_id header ciphertext tag dummy unencrypted
        iv_struct fake_signature crypto_init_complete =
      if packet_type == init1_packet_type
      then some ciphertext
      else if unencrypted
      then (if eq_list (take fake_signature_size tag) fake_signature then some ciphertext else none)
      else elim (session_key true packet_id generation_id packet_type dummy iv_struct
          crypto_init_complete) [
            | none ↦ none
            | some (key, nonce) ↦ eax_decrypt p.aes key nonce header ciphertext tag
          ]

  pub encrypt-session :
      (packet_type packet_id generation_id : ℕ) (header plaintext : List ℕ)
      (dummy unencrypted : Bool) (c : Crypt)
      → packet_type < 16
      → generation_id < 2 ^ 32
      → IsCoherent p c
      → (c' : Crypt) × (encrypt p packet_type packet_id generation_id header plaintext dummy
            unencrypted c
          ≡ with_state c' (
              session_encrypt packet_type packet_id generation_id header plaintext dummy unencrypted
                c.iv_struct c.fake_signature c.crypto_init_complete))
        × Follows p c c'
  unfolding encrypt seal_with
  encrypt-session packet_type packet_id generation_id header plaintext dummy unencrypted c ht hg
        hc =
      elim (Bool-cases (packet_type == init1_packet_type)) [
        | inl e ↦ (c, rw e refl, (hc, refl, refl, refl))
        | inr e ↦ elim (Bool-cases unencrypted) [
          | inl u ↦ (c, rw (e, u) refl, (hc, refl, refl, refl))
          | inr u ↦
              let (c', same, follows) =
                session_key-Follows false packet_id generation_id packet_type dummy c ht hg hc in
              elim (Option-cases (
                session_key false packet_id generation_id packet_type dummy c.iv_struct
                  c.crypto_init_complete)) [
                    | inl k ↦ (c', rw (e, u, same, k) refl, follows)
                    | inr (key, k) ↦ (c', rw (e, u, same, k) refl, follows)
                  ]
        ]
      ]

  pub decrypt-session :
      (packet_type packet_id generation_id : ℕ) (header ciphertext tag : List ℕ)
      (dummy unencrypted : Bool) (c : Crypt)
      → packet_type < 16
      → generation_id < 2 ^ 32
      → IsCoherent p c
      → (c' : Crypt) × (decrypt p packet_type packet_id generation_id header ciphertext tag dummy
            unencrypted c
          ≡ (
            session_decrypt packet_type packet_id generation_id header ciphertext tag dummy
                unencrypted c.iv_struct c.fake_signature c.crypto_init_complete,
            c',
          ))
        × Follows p c c'
  unfolding decrypt open_with
  decrypt-session packet_type packet_id generation_id header ciphertext tag dummy unencrypted c ht
        hg hc =
      elim (Bool-cases (packet_type == init1_packet_type)) [
        | inl e ↦ (c, rw e refl, (hc, refl, refl, refl))
        | inr e ↦ elim (Bool-cases unencrypted) [
          | inl u ↦ (c, rw (e, u) refl, (hc, refl, refl, refl))
          | inr u ↦
              let (c', same, follows) =
                session_key-Follows true packet_id generation_id packet_type dummy c ht hg hc in
              elim (Option-cases (
                session_key true packet_id generation_id packet_type dummy c.iv_struct
                  c.crypto_init_complete)) [
                    | inl k ↦ (c, rw (e, u, same, k) refl, (hc, refl, refl, refl))
                    | inr (key, k) ↦ (c', rw (e, u, same, k) refl, follows)
                  ]
        ]
      ]

  -- The ciphers of a session as the packet handler uses them; where `encrypt` throws there is
  -- nothing to return.
  abbrev pub session : (iv_struct fake_signature : List ℕ) (crypto_init_complete : Bool) → Cipher
  session iv_struct fake_signature crypto_init_complete = record {
    crypto_init_complete = crypto_init_complete;
    encrypt = λ t id gen header plaintext dummy unencrypted. returned (
        session_encrypt t id gen header plaintext dummy unencrypted iv_struct fake_signature
          crypto_init_complete);
    decrypt = λ t id gen header ciphertext tag dummy unencrypted.
        session_decrypt t id gen header ciphertext tag dummy unencrypted iv_struct fake_signature
          crypto_init_complete;
  }
