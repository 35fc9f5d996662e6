-- ===== src/Crypto/Eax/Tests.antt =====
-- `EAX` over a toy cipher: counter mode flips the last bit of each byte.
use teamspeak_js.Common.{
  ℕ, ◌+◌, ◌*◌, ◌-◌, ◌%◌, ◌≡◌, refl, ◌↔◌, arith, List, [], ◌∷◌, map, take, replicate, some,
}
use mathlib.Core.Path.{ap₂}
use teamspeak_js.Crypto.Eax.{Aes, eax_encrypt, eax_decrypt, eax_tag_size, shift_left1, shift_bytes}
use teamspeak_js.Crypto.Eax.Inverse.{eax_decrypt-eax_encrypt}

abbrev flip : ℕ → ℕ
flip b = b + 1 - b % 2 * 2

abbrev pub toy_aes : Aes
toy_aes = record {
  ctr = λ key iv bytes. map flip bytes;
  ecb = λ key block. block;
  cbc = λ key bytes. bytes;
}

flip-flip : (bytes : List ℕ) → map flip (map flip bytes) ≡ bytes
flip-flip [] = refl
flip-flip (b ∷ bytes) = ap₂ ◌∷◌ (omega arith) (flip-flip bytes)

eax_decrypt-eax_encrypt_example :
    (eax_decrypt toy_aes (replicate 16 1) (replicate 16 2) (3 ∷ []) (5 ∷ 4 ∷ []) (replicate 9 6)
      ≡ some (4 ∷ 5 ∷ []))
    ↔ (eax_encrypt toy_aes (replicate 16 1) (replicate 16 2) (3 ∷ []) (4 ∷ 5 ∷ [])
        ≡ (5 ∷ 4 ∷ [], take eax_tag_size (replicate 9 6)))
eax_decrypt-eax_encrypt_example =
    eax_decrypt-eax_encrypt toy_aes (λ key iv bytes. flip-flip bytes) (replicate 16 1)
      (replicate 16 2) (3 ∷ []) (5 ∷ 4 ∷ []) (replicate 9 6) (4 ∷ 5 ∷ [])

-- The carry goes over to the byte before.
shift_left1_test : shift_left1 (0x81 ∷ 0x80 ∷ 0x01 ∷ []) ≡ 0x03 ∷ 0x00 ∷ 0x02 ∷ []
unfolding shift_left1 shift_bytes
shift_left1_test = refl
