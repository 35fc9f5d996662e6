-- ===== src/Crypto/Crypt/Tests.antt =====
-- A `Crypt` over toy primitives: the shared secret, a packet encrypted, and one decrypted.
use teamspeak_js.Common.{
  ℕ, List, ◌+◌, ◌<◌, ◌≤◌, ◌≡◌, ◌⊎◌, refl, true, false, arith, [], ◌∷◌, length, replicate, take,
  none, some, ◌++◌,
}
use teamspeak_js.Crypto.Eax.Tests.{toy_aes}
use teamspeak_js.Crypto.Crypt.{
  Primitives, Crypt, set_shared_secret, encrypt, decrypt, with_iv, new_crypt,
}
use teamspeak_js.Crypto.Crypt.Keys.{IsCoherent}
use teamspeak_js.Crypto.Crypt.Session.{
  cipher_of, nothing_cached, encrypt-cipher_of, decrypt-cipher_of, set_shared_secret-IsCoherent,
}

abbrev toy : Primitives
toy = record {
  aes = toy_aes;
  sha1 = λ bytes. take 20 (bytes ++ replicate 20 1);
  sha256 = λ bytes. take 32 (bytes ++ replicate 32 2);
}

abbrev ready : Crypt
ready = with_iv toy (replicate 12 9)

encrypt-cipher_of_example :
    (c' : Crypt) × (encrypt toy 2 300 1 (0 ∷ []) (7 ∷ 8 ∷ []) false false ready
      ≡ some ((cipher_of toy ready).encrypt 2 300 1 (0 ∷ []) (7 ∷ 8 ∷ []) false false, c'))
    × IsCoherent toy c'
    × (cipher_of toy c' ≡ cipher_of toy ready)
encrypt-cipher_of_example =
    encrypt-cipher_of toy 2 300 1 (0 ∷ []) (7 ∷ 8 ∷ []) false false ready (omega arith)
      (omega arith) (nothing_cached toy (replicate 12 9)) refl

decrypt-cipher_of_example :
    (c' : Crypt) × (decrypt toy 2 300 1 (0 ∷ []) (7 ∷ 8 ∷ []) (replicate 8 3) false false ready ≡ (
      (cipher_of toy ready).decrypt 2 300 1 (0 ∷ []) (7 ∷ 8 ∷ []) (replicate 8 3) false false,
      c',
    ))
    × IsCoherent toy c'
    × (cipher_of toy c' ≡ cipher_of toy ready)
decrypt-cipher_of_example =
    decrypt-cipher_of toy 2 300 1 (0 ∷ []) (7 ∷ 8 ∷ []) (replicate 8 3) false false ready
      (omega arith) (omega arith) (nothing_cached toy (replicate 12 9))

abbrev alpha : List ℕ
alpha = replicate 10 1

abbrev beta : List ℕ
beta = 2 ∷ 3 ∷ []

abbrev secret : List ℕ
secret = replicate 20 4

set_shared_secret-IsCoherent_example :
    ((c' : Crypt) × (set_shared_secret toy alpha beta secret new_crypt ≡ some c')
      × IsCoherent toy c'
      × (length c'.iv_struct ≡ length alpha + length beta)
      × (c'.crypto_init_complete ≡ true)
      × (length alpha ≡ 10)
      × (1 ≤ length beta)
      × (10 + length beta ≤ length secret))
    ⊎ ((set_shared_secret toy alpha beta secret new_crypt ≡ none)
        × (length alpha ≡ 10 → 1 ≤ length beta → length secret < 10 + length beta))
set_shared_secret-IsCoherent_example = set_shared_secret-IsCoherent toy alpha beta secret new_crypt
