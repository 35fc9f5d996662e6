-- ===== src/Transport/Voice/Layout.antt =====
-- src/client/transport/handler.ts, `sendWhisperPacket`: the datagram against a reader of the layout
-- that its comment gives.
use teamspeak_js.Common.{
  ◌↔◌, ◌/◌, ℕ, zero, suc, ◌+◌, ◌*◌, ◌%◌, ◌^◌, ◌≡◌, refl, ap, ◌≤◌, ◌<◌, ◌⊎◌, inl, inr, Bool, true,
  false, ◌||◌, ◌&&◌, ltb, ◌==◌, Bool-cases, List, [], ◌∷◌, ◌++◌, length, any, All, Option, none,
  some, arith,
}
use teamspeak_js.Transport.Packet.{Packet, voice_whisper, unencrypted, uint16_bytes}
use teamspeak_js.Transport.Send.{Sender, count, write, packet_sent}
use Prim.Native.Nat.{bit_or}
use teamspeak_js.Transport.Send.Number.{IsAt, count-IsAt}
use teamspeak_js.Transport.Voice.{
  uint64_bytes, channel_bytes, client_bytes, whisper_body, is_refused, signed, send_signed,
  send_whisper_packet,
}

-- A whisper as the server reads it.
pub record Whisper : Type 0 where
  pub voice_id : ℕ
  pub codec : ℕ
  pub channels : List ℕ
  pub clients : List ℕ
  pub sound : List ℕ

prepend : ℕ → Option (List ℕ × List ℕ) → Option (List ℕ × List ℕ)
prepend id none = none
prepend id (some (ids, rest)) = some (id ∷ ids, rest)

-- Big-endian numbers of two and of eight bytes, and what is behind them.
read_clients : ℕ → List ℕ → Option (List ℕ × List ℕ)
unfolding prepend
read_clients zero bytes = some ([], bytes)
read_clients (suc n) (a ∷ b ∷ bytes) = prepend (a * 256 + b) (read_clients n bytes)
read_clients (suc n) _ = none

read_channels : ℕ → List ℕ → Option (List ℕ × List ℕ)
unfolding prepend
read_channels zero bytes = some ([], bytes)
read_channels (suc n) (a ∷ b ∷ c ∷ d ∷ e ∷ f ∷ g ∷ h ∷ bytes) =
    prepend
      (a * 2 ^ 56 + b * 2 ^ 48 + c * 2 ^ 40 + d * 2 ^ 32 + e * 2 ^ 24 + f * 2 ^ 16 + g * 2 ^ 8 + h)
      (read_channels n bytes)
read_channels (suc n) _ = none

targets : (voice_id codec : ℕ) (channels : List ℕ) → Option (List ℕ × List ℕ) → Option Whisper
targets voice_id codec channels none = none
targets voice_id codec channels (some (clients, sound)) = some (record {
  voice_id = voice_id;
  codec = codec;
  channels = channels;
  clients = clients;
  sound = sound;
})

behind_channels : (voice_id codec clients : ℕ) → Option (List ℕ × List ℕ) → Option Whisper
unfolding targets
behind_channels voice_id codec clients none = none
behind_channels voice_id codec clients (some (channels, bytes)) =
    targets voice_id codec channels (read_clients clients bytes)

-- Voice id, codec, the numbers of channels and clients, their ids, and the sound.
pub read_whisper : List ℕ → Option Whisper
unfolding behind_channels read_channels read_clients
read_whisper (a ∷ b ∷ codec ∷ n ∷ m ∷ bytes) =
    behind_channels (a * 256 + b) codec m (read_channels n bytes)
read_whisper _ = none

read_clients_lem :
    (ids sound : List ℕ)
    → All (λ id. id ≤ 0xffff) ids
    → read_clients (length ids) (client_bytes ids ++ sound) ≡ some (ids, sound)
unfolding read_clients client_bytes uint16_bytes prepend
read_clients_lem [] sound h = refl
read_clients_lem (id ∷ ids) sound (h, hs) =
    rw (read_clients_lem ids sound hs) (ap (λ i. some (i ∷ ids, sound)) (omega arith))

eight_digits :
    (id : ℕ)
    → id ≤ 0xffff_ffff_ffff_ffff
    → id / 2 ^ 56 % 256 * 2 ^ 56
        + id / 2 ^ 48 % 256 * 2 ^ 48
        + id / 2 ^ 40 % 256 * 2 ^ 40
        + id / 2 ^ 32 % 256 * 2 ^ 32
        + id / 2 ^ 24 % 256 * 2 ^ 24
        + id / 2 ^ 16 % 256 * 2 ^ 16
        + id / 2 ^ 8 % 256 * 2 ^ 8
        + id % 256
      ≡ id
eight_digits id h = omega arith

read_channels_lem :
    (ids bytes : List ℕ)
    → All (λ id. id ≤ 0xffff_ffff_ffff_ffff) ids
    → read_channels (length ids) (channel_bytes ids ++ bytes) ≡ some (ids, bytes)
unfolding read_channels channel_bytes uint64_bytes prepend
read_channels_lem [] bytes h = refl
read_channels_lem (id ∷ ids) bytes (h, hs) =
    rw (read_channels_lem ids bytes hs) (ap (λ i. some (i ∷ ids, bytes)) (eight_digits id h))

any-All :
    (bound : ℕ) (ids : List ℕ)
    → ((any (λ id. ltb bound id) ids ≡ false) → All (λ id. id ≤ bound) ids)
      × (All (λ id. id ≤ bound) ids → any (λ id. ltb bound id) ids ≡ false)
unfolding any
any-All bound [] = ((λ _. tt), (λ _. refl))
any-All bound (id ∷ ids) =
    let (reads, holds) = any-All bound ids in
    (λ e. ground (arith, reads), λ (h, hs). ground (arith, holds hs))

-- What a whisper may be sent to.
abbrev pub WithinLimits : (clients channels : List ℕ) → Type 0
WithinLimits clients channels =
    (1 ≤ length clients + length channels)
    × (length clients ≤ 32)
    × (length channels ≤ 255)
    × All (λ id. id ≤ 0xffff) clients
    × All (λ id. id ≤ 0xffff_ffff_ffff_ffff) channels

guards :
    (clients channels : ℕ) (p q : Bool)
    → (((clients == 0) && (channels == 0)) || (ltb 32 clients || (ltb 255 channels || (p || q)))
        ≡ false)
      ↔ ((1 ≤ clients + channels) × (clients ≤ 32) × (channels ≤ 255) × (p ≡ false) × (q ≡ false))
guards clients channels true q = ground arith
guards clients channels false q = ground arith

is_refused_iff :
    (clients channels : List ℕ)
    → (is_refused clients channels ≡ false) ↔ WithinLimits clients channels
unfolding is_refused
is_refused_iff clients channels =
    let tests = guards (length clients) (length channels) _ _ in
    let small = any-All 0xffff clients in
    let long = any-All 0xffff_ffff_ffff_ffff channels in
    (
      λ e. let (n, m, k, p, q) = tests.0 e in (n, m, k, small.0 p, long.0 q),
      λ (n, m, k, p, q). tests.1 (n, m, k, small.1 p, long.1 q),
    )

read_whisper_lem :
    (n codec : ℕ) (sound clients channels : List ℕ)
    → codec < 256
    → WithinLimits clients channels
    → read_whisper (uint16_bytes (n % 0x10000) ++ whisper_body sound clients codec channels)
      ≡ some (record {
        voice_id = n % 0x10000;
        codec = codec;
        channels = channels;
        clients = clients;
        sound = sound;
      })
unfolding read_whisper behind_channels targets uint16_bytes whisper_body
read_whisper_lem n codec sound clients channels c (_, m, k, small, long) =
    let ident : n % 0x10000 / 256 % 256 * 256 + n % 0x10000 % 256 ≡ n % 0x10000 = omega arith in
    let codec_is : codec % 256 ≡ codec = omega arith in
    let m_is : length clients % 256 ≡ length clients = omega arith in
    let k_is : length channels % 256 ≡ length channels = omega arith in
    rw
      (
        ident,
        codec_is,
        m_is,
        k_is,
        read_channels_lem channels (client_bytes clients ++ sound) long,
        read_clients_lem clients sound small,
      )
      refl

write-IsAt :
    (bytes : List ℕ) (p_type n : ℕ) (s : Sender)
    → s.is_open ≡ true
    → IsAt p_type n s
    → IsAt p_type n (write bytes s)
unfolding write
write-IsAt bytes p_type n s opened at =
    rw opened (record { id_at = at.id_at; generation_at = at.generation_at })

module _ (fake_signature : List ℕ) where
  pub send_signed-IsAt :
      (p_type n flags : ℕ) (body : List ℕ) (s : Sender)
      → IsAt p_type n s
      → s.is_open ≡ true
      → ((send_signed fake_signature p_type flags body s).written
          ≡ s.written
            ++ signed fake_signature (
                packet_sent s.client_id p_type
                  (uint16_bytes (n % 0x10000) ++ body)
                  (bit_or unencrypted flags)
                  (n % 0x10000, s.generation_counter p_type))
              ∷ [])
        × IsAt p_type (n + 1) (send_signed fake_signature p_type flags body s)
  unfolding send_signed write count
  send_signed-IsAt p_type n flags body s at opened = (
    rw (opened, at.id_at) refl,
    write-IsAt _ p_type (n + 1) (count p_type s) opened (count-IsAt p_type n s at),
  )

  -- On an open socket, where the next packet of the whisper type is number `n` and the codec is a
  -- byte: a whisper to at least one and at most 32 clients and 255 channels, with ids of 16 and of
  -- 64 bits, is written as one unencrypted datagram whose payload reads as what was given, under
  -- the number `n`, and the next number is `n + 1`; any other whisper is refused.
  pub send_whisper_packet-read_whisper :
      (n codec : ℕ) (sound clients channels : List ℕ) (s : Sender)
      → IsAt voice_whisper n s
      → s.is_open ≡ true
      → codec < 256
      → (WithinLimits clients channels
          × (p : Packet) × (s' : Sender) × (send_whisper_packet fake_signature sound clients codec
                channels s
              ≡ some s')
          × (s'.written ≡ s.written ++ signed fake_signature p ∷ [])
          × (p.id ≡ n % 0x10000)
          × (p.type_flagged ≡ 0x81)
          × (read_whisper p.payload
              ≡ some (record {
                voice_id = n % 0x10000;
                codec = codec;
                channels = channels;
                clients = clients;
                sound = sound;
              }))
          × IsAt voice_whisper (n + 1) s')
        ⊎ ((WithinLimits clients channels → ⊥)
            × (send_whisper_packet fake_signature sound clients codec channels s ≡ none))
  unfolding send_whisper_packet send_signed write
  send_whisper_packet-read_whisper n codec sound clients channels s at opened c =
      elim (Bool-cases (is_refused clients channels)) [
        | inl e ↦ inr (λ w. cc (e, (is_refused_iff clients channels).1 w), rw e refl)
        | inr e ↦
            let limits = (is_refused_iff clients channels).0 e in
            let (written, next) =
              send_signed-IsAt voice_whisper n 0 (whisper_body sound clients codec channels) s at
                opened in
            inl (
              limits,
              _,
              _,
              rw e refl,
              written,
              refl,
              refl,
              read_whisper_lem n codec sound clients channels c limits,
              next,
            )
      ]
