-- ===== src/Crypto/Eax.antt =====
-- src/client/crypto/eax.ts: AES-EAX with a 64-bit tag, over the AES of node:crypto, which is a
-- parameter; the constructor's test of the key's length is not modelled. A byte is a number below 256, and `|` of bits in different places is their sum. The
-- subkeys of a key are derived at each use here, where the code looks them up by the key object.
pub mod Inverse
pub mod Tests
use Prim.Native.Nat.{bit_xor}
use teamspeak_js.Common.{
  eq_list, ℕ, zero, suc, ◌+◌, ◌-◌, ◌*◌, ◌/◌, ◌%◌, max, Bool, true, false, ◌&&◌, ltb, leb, ◌==◌,
  if◌then◌else◌, List, [], ◌∷◌, ◌++◌, length, get_or, set, take, drop, replicate, Option, none,
  some,
}

-- AES-128 of node:crypto: `aes-128-ctr` and `aes-128-ecb` on some bytes, and `aes-128-cbc` with the
-- zero IV and no padding, each from the key.
pub record Aes : Type 0 where
  pub ctr : (key iv bytes : List ℕ) → List ℕ
  pub ecb : (key block : List ℕ) → List ℕ
  pub cbc : (key bytes : List ℕ) → List ℕ

abbrev pub eax_tag_size : ℕ
eax_tag_size = 8

abbrev pub eax_block_size : ℕ
eax_block_size = 16

-- The first `n` bytes of the exclusive or; a byte that is not there counts as 0.
unfoldable pub xor_bytes : ℕ → List ℕ → List ℕ → List ℕ
xor_bytes zero a b = []
xor_bytes (suc n) a b = bit_xor (get_or a 0 0) (get_or b 0 0) ∷ xor_bytes n (drop 1 a) (drop 1 b)

-- `xorBlock`.
unfoldable pub xor_block : List ℕ → List ℕ → List ℕ
xor_block a b = xor_bytes eax_block_size a b

-- The loop of `shiftLeft1`, from the last byte on: the carry and the bytes.
unfoldable pub shift_bytes : List ℕ → ℕ × List ℕ
shift_bytes [] = (0, [])
shift_bytes (b ∷ bytes) =
    let (carry, out) = shift_bytes bytes in (b / 128, (b * 2 % 256 + carry) ∷ out)

-- `shiftLeft1`.
unfoldable pub shift_left1 : List ℕ → List ℕ
shift_left1 bytes = (shift_bytes bytes).1

-- `RB`.
abbrev pub rb : List ℕ
rb = replicate 15 0 ++ 0x87 ∷ []

-- One subkey from the block before it.
unfoldable pub double : List ℕ → List ℕ
double block =
    if leb 0x80 (get_or block 0 0) then xor_block (shift_left1 block) rb else shift_left1 block

-- What `aesCmac` does to its last block: the exclusive or with the subkey.
unfoldable pub mask_last : ℕ → List ℕ → List ℕ → List ℕ
mask_last last_start subkey padded =
    take last_start padded ++ xor_block (drop last_start padded) subkey

-- `n` of `aesCmac`.
abbrev pub block_count : ℕ → ℕ
block_count len = max 1 ((len + 15) / eax_block_size)

-- `lastBlockComplete` of `aesCmac`.
abbrev pub is_complete : ℕ → Bool
is_complete len = ltb 0 len && (len % eax_block_size == 0)

-- `padded` of `aesCmac`, before the exclusive or.
unfoldable pub padded : List ℕ → List ℕ
padded message =
    let len = length message in
    let zeros = message ++ replicate (block_count len * eax_block_size - len) 0 in
    if is_complete len then zeros else set zeros len 0x80

module _ (aes : Aes) where
  -- `generateSubkeys`.
  unfoldable pub generate_subkeys : List ℕ → List ℕ × List ℕ
  generate_subkeys key =
      let k1 = double (aes.ecb key (replicate eax_block_size 0)) in (k1, double k1)

  -- `aesCmac`.
  unfoldable pub aes_cmac : List ℕ → List ℕ → List ℕ
  aes_cmac key message =
      let (k1, k2) = generate_subkeys key in
      let n = block_count (length message) in
      let subkey = if is_complete (length message) then k1 else k2 in
      let out = aes.cbc key (mask_last ((n - 1) * eax_block_size) subkey (padded message)) in
      drop (length out - eax_block_size) out

  -- `#cmac`: the data behind a block that ends in the tag byte.
  unfoldable pub cmac : List ℕ → ℕ → List ℕ → List ℕ
  cmac key tag_byte bytes = aes_cmac key (replicate 15 0 ++ tag_byte ∷ bytes)

  -- The tag that `encrypt` returns and `decrypt` expects; the code computes it in each of them.
  unfoldable pub tag_of : (key nonce header ciphertext : List ℕ) → List ℕ
  tag_of key nonce header ciphertext =
      xor_bytes eax_tag_size (xor_bytes eax_tag_size (cmac key 0 nonce) (cmac key 1 header))
        (cmac key 2 ciphertext)

  -- `EAX.encrypt`: the ciphertext and the tag.
  unfoldable pub eax_encrypt : (key nonce header plaintext : List ℕ) → List ℕ × List ℕ
  eax_encrypt key nonce header plaintext =
      let ciphertext = aes.ctr key (cmac key 0 nonce) plaintext in
      (ciphertext, tag_of key nonce header ciphertext)

  -- `EAX.decrypt`; `none` where it throws.
  unfoldable pub eax_decrypt : (key nonce header ciphertext tag : List ℕ) → Option (List ℕ)
  eax_decrypt key nonce header ciphertext tag =
      if eq_list (tag_of key nonce header ciphertext) (take eax_tag_size tag)
      then some (aes.ctr key (cmac key 0 nonce) ciphertext)
      else none
