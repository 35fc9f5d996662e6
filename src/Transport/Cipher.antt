-- ===== src/Transport/Cipher.antt =====
-- What the packet handler uses of the class `Crypt` in src/client/crypto/crypt.ts: whether the
-- session keys are set up, and the two ciphers. Which bytes they yield is left open.
use teamspeak_js.Common.{ℕ, Bool, List, Option}

-- `decrypt` throws where a packet does not carry the right tag: `none`.
pub record Cipher : Type 0 where
  pub crypto_init_complete : Bool
  pub encrypt :
      (packet_type packet_id generation_id : ℕ) (header plaintext : List ℕ)
      (dummy unencrypted : Bool)
      → List ℕ × List ℕ
  pub decrypt :
      (packet_type packet_id generation_id : ℕ) (header ciphertext tag : List ℕ)
      (dummy unencrypted : Bool)
      → Option (List ℕ)
