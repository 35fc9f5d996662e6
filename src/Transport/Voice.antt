-- ===== src/Transport/Voice.antt =====
-- src/client/transport/handler.ts: `sendVoicePacket`, `sendWhisperPacket`, `sendGroupWhisperPacket`
-- and `#sendWhisperPayload`. The numbers that the code tests are whole and at least 0 here. The
-- signature is `fakeSignature` of the class `Crypt`, eight bytes.
pub mod Layout
mod Tests
use Prim.Native.Nat.{bit_or}
use teamspeak_js.Common.{
  ℕ, ◌+◌, ◌*◌, ◌/◌, ◌%◌, ◌^◌, Bool, ◌&&◌, ◌||◌, ltb, ◌==◌, if◌then◌else◌, List, [], ◌∷◌, ◌++◌,
  length, any, Option, none, some,
}
use teamspeak_js.Transport.Packet.{
  Packet, new_protocol, unencrypted, voice, voice_whisper, build_c2s_header, uint16_bytes,
}
use teamspeak_js.Transport.Send.{Sender, count, write, packet_sent}

-- `DataView.prototype.setBigUint64`, big-endian, as the eight bytes that it writes.
unfoldable pub uint64_bytes : ℕ → List ℕ
uint64_bytes n =
    n / 2 ^ 56 % 256
    ∷ n / 2 ^ 48 % 256
    ∷ n / 2 ^ 40 % 256
    ∷ n / 2 ^ 32 % 256
    ∷ n / 2 ^ 24 % 256
    ∷ n / 2 ^ 16 % 256
    ∷ n / 2 ^ 8 % 256
    ∷ n % 256
    ∷ []

-- The loops that write the ids of the channels and of the clients.
unfoldable pub channel_bytes : List ℕ → List ℕ
channel_bytes [] = []
channel_bytes (id ∷ ids) = uint64_bytes id ++ channel_bytes ids

unfoldable pub client_bytes : List ℕ → List ℕ
client_bytes [] = []
client_bytes (id ∷ ids) = uint16_bytes id ++ client_bytes ids

-- The payloads behind the two bytes of the voice id.
unfoldable pub whisper_body : (bytes clients : List ℕ) (codec : ℕ) (channels : List ℕ) → List ℕ
whisper_body bytes clients codec channels =
    codec % 256
    ∷ length channels % 256
    ∷ length clients % 256
    ∷ (channel_bytes channels ++ (client_bytes clients ++ bytes))

unfoldable pub group_whisper_body : (bytes : List ℕ) (group_type scope id codec : ℕ) → List ℕ
group_whisper_body bytes group_type scope id codec =
    codec % 256 ∷ group_type % 256 ∷ scope % 256 ∷ (uint64_bytes id ++ bytes)

-- The guards of `sendWhisperPacket`.
unfoldable pub is_refused : (clients channels : List ℕ) → Bool
is_refused clients channels =
    ((length clients == 0) && (length channels == 0))
    || (ltb 32 (length clients)
        || (ltb 255 (length channels)
            || (any (λ id. ltb 0xffff id) clients
                || any (λ id. ltb 0xffff_ffff_ffff_ffff id) channels)))

module _ (fake_signature : List ℕ) where
  -- `final`: the signature, the header and the payload.
  unfoldable pub signed : Packet → List ℕ
  signed p = fake_signature ++ (build_c2s_header p ++ p.payload)

  -- What the three functions share: the packet takes the next number of its type, its payload
  -- begins with it, and it is written.
  unfoldable pub send_signed : (p_type : ℕ) (flags : ℕ) (body : List ℕ) → Sender → Sender
  send_signed p_type flags body s =
      let id = s.packet_counter p_type in
      write
        (signed (
          packet_sent s.client_id p_type (uint16_bytes id ++ body) (bit_or unencrypted flags)
            (id, s.generation_counter p_type)))
        (count p_type s)

  -- `sendVoicePacket`.
  unfoldable pub send_voice_packet : (bytes : List ℕ) (codec : ℕ) → Sender → Sender
  send_voice_packet bytes codec s = send_signed voice 0 (codec % 256 ∷ bytes) s

  -- `sendWhisperPacket`; `none` where it throws.
  unfoldable pub send_whisper_packet :
      (bytes clients : List ℕ) (codec : ℕ) (channels : List ℕ) → Sender → Option Sender
  send_whisper_packet bytes clients codec channels s =
      if is_refused clients channels
      then none
      else some (send_signed voice_whisper 0 (whisper_body bytes clients codec channels) s)

  -- `sendGroupWhisperPacket`; `none` where it throws.
  unfoldable pub send_group_whisper_packet :
      (bytes : List ℕ) (group_type scope id codec : ℕ) → Sender → Option Sender
  send_group_whisper_packet bytes group_type scope id codec s =
      if ltb 0xff group_type || (ltb 0xff scope || ltb 0xffff_ffff_ffff_ffff id)
      then none
      else some (
          send_signed voice_whisper new_protocol
            (group_whisper_body bytes group_type scope id codec) s)
