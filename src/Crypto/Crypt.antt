-- ===== src/Crypto/Crypt.antt =====
-- src/client/crypto/crypt.ts: the class `Crypt`, from the shared secret on: the IV, the keys derived
-- from it and the ciphers of packets. The hashes of node:crypto are parameters. A byte is a number
-- below 256; a generation fits in 32 bits and a packet id in 16.
pub mod Keys
pub mod Packets
pub mod Session
mod Tests
use Prim.Native.Nat.{bit_and, bit_xor}
use teamspeak_js.Common.{
  eq_list, ℕ, ◌+◌, ◌*◌, ◌/◌, ◌%◌, ◌^◌, Bool, true, false, ◌||◌, not, ltb, ◌==◌, if◌then◌else◌, List,
  [], ◌∷◌, ◌++◌, length, get_or, take, drop, replicate, Option, none, some,
}
use teamspeak_js.Common.Maps.{lookup, insert}
use teamspeak_js.Crypto.Eax.{Aes, xor_bytes, eax_encrypt, eax_decrypt}
use teamspeak_js.Transport.Cipher.{Cipher}

-- AES and the hashes that keys and signatures are made with.
pub record Primitives : Type 0 where
  pub aes : Aes
  pub sha1 : List ℕ → List ℕ
  pub sha256 : List ℕ → List ℕ

-- `KeyNonce`.
pub record KeyNonce : Type 0 where
  pub key : List ℕ
  pub nonce : List ℕ
  pub gen : ℕ

-- The private fields of `Crypt` that packets use.
pub record Crypt : Type 0 where
  pub iv_struct : List ℕ
  pub fake_signature : List ℕ
  pub crypto_init_complete : Bool
  pub cached_keys : List (ℕ × KeyNonce)

-- `FAKE_SIGNATURE_SIZE`, `IV_ALPHA_SIZE`, `INIT1_PACKET_TYPE` and `INIT1_MAC`, "TS3INIT1".
abbrev pub fake_signature_size : ℕ
fake_signature_size = 8

abbrev pub iv_alpha_size : ℕ
iv_alpha_size = 10

abbrev pub init1_packet_type : ℕ
init1_packet_type = 8

abbrev pub init1_mac : List ℕ
init1_mac = 0x54 ∷ 0x53 ∷ 0x33 ∷ 0x49 ∷ 0x4e ∷ 0x49 ∷ 0x54 ∷ 0x31 ∷ []

-- `DUMMY_KEY`, "c:\windows\syste", and `DUMMY_NONCE`, "m\firewall32.cpl".
abbrev pub dummy_key : List ℕ
dummy_key =
    b'c' ∷ b':' ∷ 0x5c ∷ b'w' ∷ b'i' ∷ b'n' ∷ b'd' ∷ b'o' ∷ b'w' ∷ b's' ∷ 0x5c ∷ b's' ∷ b'y' ∷ b's'
    ∷ b't' ∷ b'e' ∷ []

abbrev pub dummy_nonce : List ℕ
dummy_nonce =
    b'm' ∷ 0x5c ∷ b'f' ∷ b'i' ∷ b'r' ∷ b'e' ∷ b'w' ∷ b'a' ∷ b'l' ∷ b'l' ∷ b'3' ∷ b'2' ∷ b'.' ∷ b'c'
    ∷ b'p' ∷ b'l' ∷ []

-- The fields of a new `Crypt`.
abbrev pub new_crypt : Crypt
new_crypt = record {
  iv_struct = [];
  fake_signature = replicate fake_signature_size 0;
  crypto_init_complete = false;
  cached_keys = [];
}

-- `makeCacheKey`: the fields stand in different bits.
unfoldable pub make_cache_key : (from_server : Bool) (packet_type generation_id : ℕ) → ℕ
make_cache_key from_server packet_type generation_id =
    (if from_server then 2 ^ 40 else 0) + packet_type % 16 * 2 ^ 32 + generation_id

-- `DataView.prototype.setUint32`, big-endian, as the four bytes that it writes.
unfoldable pub uint32_bytes : ℕ → List ℕ
uint32_bytes n = n / 2 ^ 24 % 256 ∷ n / 2 ^ 16 % 256 ∷ n / 2 ^ 8 % 256 ∷ n % 256 ∷ []

-- A write to the first two bytes of a fresh copy of the key.
unfoldable pub mix_id : ℕ → List ℕ → List ℕ
mix_id packet_id key =
    bit_xor (get_or key 0 0) (packet_id / 256 % 256)
    ∷ bit_xor (get_or key 1 0) (packet_id % 256)
    ∷ drop 2 key

-- The IV of `setSharedSecret`.
abbrev pub mix_secret : (alpha beta shared_key : List ℕ) → List ℕ
mix_secret alpha beta shared_key =
    xor_bytes iv_alpha_size shared_key alpha
    ++ xor_bytes (length beta) (drop iv_alpha_size shared_key) beta

module _ (p : Primitives) where
  -- The fields that `setSharedSecret` writes.
  abbrev pub with_iv : List ℕ → Crypt
  with_iv iv = record {
    iv_struct = iv;
    fake_signature = take fake_signature_size (p.sha1 iv);
    crypto_init_complete = true;
    cached_keys = [];
  }

  -- `setSharedSecret`; `none` where it throws.
  unfoldable pub set_shared_secret : (alpha beta shared_key : List ℕ) → Crypt → Option Crypt
  set_shared_secret alpha beta shared_key c =
      if not (length alpha == iv_alpha_size)
        || ((length beta == 0) || ltb (length shared_key) (iv_alpha_size + length beta))
      then none
      else some (with_iv (mix_secret alpha beta shared_key))

  -- The key and the nonce of a direction, a type and a generation.
  unfoldable pub derive : List ℕ → (from_server : Bool) (packet_type generation_id : ℕ) → KeyNonce
  derive iv from_server packet_type generation_id =
      let hash = p.sha256 (
        (if from_server then 0x30 else 0x31)
        ∷ packet_type % 16
        ∷ (uint32_bytes generation_id ++ iv)) in
      record { key = take 16 hash; nonce = take 16 (drop 16 hash); gen = generation_id }

  -- The key and the nonce, given what the cache has under `cache_key`, which is filled where it has
  -- nothing.
  unfoldable pub cached_or :
      (from_server : Bool) (packet_type generation_id cache_key : ℕ)
      → Crypt
      → Option KeyNonce
      → KeyNonce × Crypt
  cached_or from_server packet_type generation_id cache_key c (some kn) = (kn, c)
  cached_or from_server packet_type generation_id cache_key c none =
      let kn = derive c.iv_struct from_server packet_type generation_id in
      (kn, record c { cached_keys = insert cache_key kn c.cached_keys })

  -- The entry of the cache for a direction, a type and a generation.
  unfoldable pub cached :
      (from_server : Bool) (packet_type generation_id : ℕ) → Crypt → KeyNonce × Crypt
  cached from_server packet_type generation_id c =
      let cache_key = make_cache_key from_server packet_type generation_id in
      cached_or from_server packet_type generation_id cache_key c (lookup cache_key c.cached_keys)

  -- `getKeyNonce`: the key, the nonce and the cache after it; `none` where it throws.
  unfoldable pub get_key_nonce :
      (from_server : Bool) (packet_id generation_id packet_type : ℕ) (dummy : Bool)
      → Crypt
      → Option ((List ℕ × List ℕ) × Crypt)
  get_key_nonce from_server packet_id generation_id packet_type dummy c =
      let (kn, c') = cached from_server packet_type generation_id c in
      if dummy
      then some ((dummy_key, dummy_nonce), c)
      else if c.crypto_init_complete
      then some ((mix_id packet_id kn.key, kn.nonce), c')
      else none

  -- The last lines of `encrypt` and of `decrypt`, given what `getKeyNonce` yields.
  unfoldable pub seal_with :
      List ℕ → List ℕ → Option ((List ℕ × List ℕ) × Crypt) → Option ((List ℕ × List ℕ) × Crypt)
  seal_with header plaintext none = none
  seal_with header plaintext (some ((key, nonce), c)) =
      some (eax_encrypt p.aes key nonce header plaintext, c)

  unfoldable pub open_with :
      (header ciphertext tag : List ℕ)
      → Crypt
      → Option ((List ℕ × List ℕ) × Crypt)
      → Option (List ℕ) × Crypt
  open_with header ciphertext tag c none = (none, c)
  open_with header ciphertext tag c (some ((key, nonce), c')) =
      (eax_decrypt p.aes key nonce header ciphertext tag, c')

  -- `encrypt`: the ciphertext and the tag; `none` where it throws.
  unfoldable pub encrypt :
      (packet_type packet_id generation_id : ℕ) (header plaintext : List ℕ)
      (dummy unencrypted : Bool)
      → Crypt
      → Option ((List ℕ × List ℕ) × Crypt)
  encrypt packet_type packet_id generation_id header plaintext dummy unencrypted c =
      if packet_type == init1_packet_type
      then some ((plaintext, init1_mac), c)
      else if unencrypted
      then some ((plaintext, c.fake_signature), c)
      else seal_with header plaintext
          (get_key_nonce false packet_id generation_id packet_type dummy c)

  -- `decrypt`: the plaintext, or `none` where it throws, and the cache after it.
  unfoldable pub decrypt :
      (packet_type packet_id generation_id : ℕ) (header ciphertext tag : List ℕ)
      (dummy unencrypted : Bool)
      → Crypt
      → Option (List ℕ) × Crypt
  decrypt packet_type packet_id generation_id header ciphertext tag dummy unencrypted c =
      if packet_type == init1_packet_type
      then (some ciphertext, c)
      else if unencrypted
      then (
        if eq_list (take fake_signature_size tag) c.fake_signature then some ciphertext else none,
        c,
      )
      else open_with header ciphertext tag c
          (get_key_nonce true packet_id generation_id packet_type dummy c)
