-- ===== src/Crypto/Eax/Inverse.antt =====
-- src/client/crypto/eax.ts: `EAX.decrypt` against `EAX.encrypt`, for a counter mode that is its own
-- inverse, as an exclusive or with a key stream is.
use teamspeak_js.Common.{
  ℕ, ◌≡◌, refl, ap, ◌↔◌, List, take, eq_list, eq_list_iff, some, Bool-cases, inl, inr,
}
use teamspeak_js.Crypto.Eax.{Aes, eax_tag_size, tag_of, cmac, eax_encrypt, eax_decrypt}

module _ (aes : Aes)
    (ctr-ctr : (key iv bytes : List ℕ) → aes.ctr key iv (aes.ctr key iv bytes) ≡ bytes) where
  accepted :
      (key nonce header ciphertext tag plaintext : List ℕ)
      → eax_decrypt aes key nonce header ciphertext tag ≡ some plaintext
      → (tag_of aes key nonce header ciphertext ≡ take eax_tag_size tag)
        × (aes.ctr key (cmac aes key 0 nonce) ciphertext ≡ plaintext)
  unfolding eax_decrypt
  accepted key nonce header ciphertext tag plaintext h =
      elim (Bool-cases (eq_list (tag_of aes key nonce header ciphertext) (take eax_tag_size tag))) [
        | inl same ↦ ((eq_list_iff _ _).0 same, cc (rw same at h))
        | inr other ↦ absurd (cc (rw other at h))
      ]

  sealed :
      (key nonce header ciphertext tag plaintext : List ℕ)
      → tag_of aes key nonce header ciphertext ≡ take eax_tag_size tag
      → aes.ctr key (cmac aes key 0 nonce) ciphertext ≡ plaintext
      → eax_decrypt aes key nonce header ciphertext tag ≡ some plaintext
  unfolding eax_decrypt
  sealed key nonce header ciphertext tag plaintext tags texts =
      rw ((eq_list_iff (tag_of aes key nonce header ciphertext) (take eax_tag_size tag)).1 tags)
        (ap some texts)

  opened :
      (key nonce header ciphertext plaintext : List ℕ)
      → aes.ctr key (cmac aes key 0 nonce) ciphertext ≡ plaintext
      → aes.ctr key (cmac aes key 0 nonce) plaintext ≡ ciphertext
  opened key nonce header ciphertext plaintext h = rw (← h) (ctr-ctr key _ ciphertext)

  -- Where counter mode is its own inverse, `decrypt` returns a plaintext for exactly the ciphertext
  -- and the first eight tag bytes that `encrypt` makes of that plaintext with the same key, nonce
  -- and header.
  pub eax_decrypt-eax_encrypt :
      (key nonce header ciphertext tag plaintext : List ℕ)
      → (eax_decrypt aes key nonce header ciphertext tag ≡ some plaintext)
        ↔ (eax_encrypt aes key nonce header plaintext ≡ (ciphertext, take eax_tag_size tag))
  unfolding eax_encrypt
  eax_decrypt-eax_encrypt key nonce header ciphertext tag plaintext = (
    λ h.
        let (tags, texts) = accepted key nonce header ciphertext tag plaintext h in
        rw (opened key nonce header ciphertext plaintext texts, tags) refl,
    λ h.
        let texts : aes.ctr key (cmac aes key 0 nonce) plaintext ≡ ciphertext =
          ap (λ pair. pair.0) h in
        let tags : tag_of aes key nonce header (aes.ctr key (cmac aes key 0 nonce) plaintext)
            ≡ take eax_tag_size tag =
          ap (λ pair. pair.1) h in
        sealed key nonce header ciphertext tag plaintext (rw texts at tags)
          (rw (← texts) (ctr-ctr key _ plaintext)),
  )
