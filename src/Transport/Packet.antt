-- ===== src/Transport/Packet.antt =====
-- src/client/transport/packet.ts: packets, their types and flags, and their headers. A byte is a
-- number below 256 and a `Uint8Array` a list of bytes.
pub mod Header
mod Tests
use Prim.Native.Nat.{bit_and}
use teamspeak_js.Common.{
  ℕ, ◌+◌, ◌-◌, ◌*◌, ◌/◌, ◌%◌, ◌^◌, Bool, not, ◌==◌, List, [], ◌∷◌, Option, none, some,
}

-- `PacketType`.
abbrev pub voice : ℕ
voice = 0

abbrev pub voice_whisper : ℕ
voice_whisper = 1

abbrev pub command : ℕ
command = 2

abbrev pub command_low : ℕ
command_low = 3

abbrev pub ping : ℕ
ping = 4

abbrev pub pong : ℕ
pong = 5

abbrev pub ack : ℕ
ack = 6

abbrev pub ack_low : ℕ
ack_low = 7

abbrev pub init1 : ℕ
init1 = 8

-- `PacketFlags`.
abbrev pub fragmented : ℕ
fragmented = 0x10

abbrev pub new_protocol : ℕ
new_protocol = 0x20

abbrev pub compressed : ℕ
compressed = 0x40

abbrev pub unencrypted : ℕ
unencrypted = 0x80

-- `Packet`; `payload` is its `data`, and the clock counts whole milliseconds.
pub record Packet : Type 0 where
  pub type_flagged : ℕ
  pub id : ℕ
  pub client_id : ℕ
  pub generation_id : ℕ
  pub payload : List ℕ
  pub received_at : ℕ

-- `packetTypeOfByte`.
unfoldable pub packet_type_of_byte : ℕ → ℕ
packet_type_of_byte type_byte = bit_and type_byte 0x0f

-- `packetType`.
unfoldable pub packet_type : Packet → ℕ
unfolding packet_type_of_byte
packet_type p = packet_type_of_byte p.type_flagged

-- `packetFlags`.
unfoldable pub packet_flags : Packet → ℕ
packet_flags p = bit_and p.type_flagged 0xf0

-- `(packetFlags(p) & flag) !== 0`.
unfoldable pub has_flag : ℕ → Packet → Bool
unfolding packet_flags
has_flag flag p = not (bit_and (packet_flags p) flag == 0)

-- `isUnencrypted`.
unfoldable pub is_unencrypted : Packet → Bool
unfolding has_flag
is_unencrypted p = has_flag unencrypted p

-- `p.typeFlagged &= ~flag`, on 32 bits.
unfoldable pub clear_flag : ℕ → ℕ → ℕ
clear_flag flag type_flagged = bit_and type_flagged (0xffff_ffff - flag)

-- `DataView.prototype.setUint16`, big-endian, as the two bytes that it writes.
unfoldable pub uint16_bytes : ℕ → List ℕ
uint16_bytes n = n / 256 % 256 ∷ n % 256 ∷ []

-- `DataView.prototype.getUint16(0, false)`, which throws on fewer than two bytes.
unfoldable pub get_uint16 : List ℕ → Option ℕ
get_uint16 (hi ∷ lo ∷ _) = some (hi * 256 + lo)
get_uint16 _ = none

-- `buildC2SHeader`.
unfoldable pub build_c2s_header : Packet → List ℕ
build_c2s_header p =
    p.id / 256 % 256
    ∷ p.id % 256
    ∷ p.client_id / 256 % 256
    ∷ p.client_id % 256
    ∷ p.type_flagged % 256
    ∷ []

-- What `parseS2CHeader` and `parseC2SHeader` read.
pub record ServerHeader : Type 0 where
  pub id : ℕ
  pub type_flagged : ℕ

pub record ClientHeader : Type 0 where
  pub id : ℕ
  pub client_id : ℕ
  pub type_flagged : ℕ

-- `parseS2CHeader`; `none` where the bytes are too few, which its caller rules out.
unfoldable pub parse_s2c_header : List ℕ → Option ServerHeader
parse_s2c_header (a ∷ b ∷ t ∷ _) = some (record { id = a * 256 + b; type_flagged = t })
parse_s2c_header _ = none

-- `parseC2SHeader`.
unfoldable pub parse_c2s_header : List ℕ → Option ClientHeader
parse_c2s_header (a ∷ b ∷ c ∷ d ∷ t ∷ _) =
    some (record { id = a * 256 + b; client_id = c * 256 + d; type_flagged = t })
parse_c2s_header _ = none
