-- ===== src/Transport/Send/Flags.antt =====
-- src/client/transport/handler.ts: the flags that `#sendPacketRaw` gives a packet, in its type
-- byte.
use Prim.Native.Nat.{bit_and, bit_or}
use teamspeak_js.Common.{
  ℕ, ◌*◌, ◌<◌, ◌≡◌, refl, Bool, true, false, ◌&&◌, not, ◌==◌, if◌then◌else◌, arith, ==_iff,
  all_below, all_below_sound,
}
use teamspeak_js.Transport.Packet.{fragmented, unencrypted}
use teamspeak_js.Transport.Send.{apply_protocol_flags}

same : Bool → Bool → Bool
same true b = b
same false b = not b

same_sound : (a b : Bool) → same a b ≡ true → a ≡ b
unfolding same
same_sound a b h = ground arith

-- The flag bits of a packet of type `t` with the flags `32 k` and, if `frag`, the fragmented flag.
unfoldable pub flagged : ℕ → ℕ → Bool → ℕ
flagged t k frag = apply_protocol_flags t (if frag then bit_or (k * 32) fragmented else k * 32)

bits_hold : ℕ → ℕ → Bool → Bool
bits_hold t k frag =
    let type_flagged = bit_or t (flagged t k frag) in
    (bit_and type_flagged 0x0f == t)
    && (same (not (bit_and (bit_and type_flagged 0xf0) unencrypted == 0))
          (not (bit_and (flagged t k frag) unencrypted == 0))
        && same (not (bit_and (bit_and type_flagged 0xf0) fragmented == 0)) frag)

all_bits_hold :
    all_below 9 (λ t. all_below 8 (λ k. bits_hold t k true && bits_hold t k false)) ≡ true
unfolding all_below bits_hold flagged same apply_protocol_flags
all_bits_hold = refl

bits : (t k : ℕ) (frag : Bool) → t < 9 → k < 8 → bits_hold t k frag ≡ true
bits t k frag ht hk =
    let row = all_below_sound 9 _ t all_bits_hold ht in
    let both = all_below_sound 8 _ k row hk in of_both frag both
  where
    of_both :
        (frag : Bool)
        → (bits_hold t k true && bits_hold t k false) ≡ true
        → bits_hold t k frag ≡ true
    of_both true both = ground arith
    of_both false both = ground arith

three_true : (a b c : Bool) → (a && (b && c)) ≡ true → (a ≡ true) × (b ≡ true) × (c ≡ true)
three_true a b c h = ground arith

pub bit_facts :
    (t k : ℕ) (frag : Bool)
    → t < 9
    → k < 8
    → (bit_and (bit_or t (flagged t k frag)) 0x0f ≡ t)
      × (not (bit_and (bit_and (bit_or t (flagged t k frag)) 0xf0) unencrypted == 0)
          ≡ not (bit_and (flagged t k frag) unencrypted == 0))
      × (not (bit_and (bit_and (bit_or t (flagged t k frag)) 0xf0) fragmented == 0) ≡ frag)
unfolding bits_hold
bit_facts t k frag ht hk =
    let (a, b, c) = three_true _ _ _ (bits t k frag ht hk) in
    ((==_iff _ _).0 a, same_sound _ _ b, same_sound _ _ c)
