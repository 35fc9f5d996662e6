-- ===== src/Transport/Dispatch.antt =====
-- src/client/transport/handler.ts, what happens to a datagram: `#handleRawPacket` with
-- `#resolveGeneration`, `#decryptPacketData`, `#advanceReceiveGeneration`, `#sendPong`, `#sendAck`,
-- the two command queues and what follows them. The packets handed to `onPacket` are kept in order;
-- what the callback does is not modelled, nor are the traffic figures.
pub mod Authentic
mod Tests
use teamspeak_js.Common.{
  ℕ, ◌+◌, ◌-◌, ◌*◌, ◌%◌, Bool, true, false, ◌&&◌, ◌||◌, not, ltb, ◌==◌, if◌then◌else◌, List, [],
  ◌∷◌, ◌++◌, length, take, drop, any, filter_by, Option, none, some,
}
use teamspeak_js.Common.Maps.{lookup, delete}
use teamspeak_js.Transport.Packet.{
  Packet, ServerHeader, voice, voice_whisper, command, command_low, ping, pong, ack, ack_low, init1,
  unencrypted, has_flag, packet_type, packet_type_of_byte, uint16_bytes, get_uint16,
  parse_s2c_header,
}
use teamspeak_js.Transport.Window.{Window, get_generation, advance_after}
use teamspeak_js.Transport.Cipher.{Cipher}
use teamspeak_js.Transport.Receive.{Lane, Admission, Drained, admit, handle_packet_queue}
use teamspeak_js.Transport.Send.{Sender, send_packet_raw, update_post_receive_state}

-- `MAX_DATAGRAM_SIZE`.
abbrev pub max_datagram_size : ℕ
max_datagram_size = 4096

-- The fields of `PacketHandler` that receiving uses, with those that sending uses; `delivered` is
-- what was handed to `onPacket`, and `round_trips` what was added to the estimator.
pub record Handler : Type 0 where
  pub sender : Sender
  pub command_queue : List (ℕ × Packet)
  pub command_low_queue : List (ℕ × Packet)
  pub next_command_id : ℕ
  pub next_command_low_id : ℕ
  pub queued_bytes : ℕ
  pub window_command : Window
  pub window_command_low : Window
  pub window_voice : Window
  pub window_voice_whisper : Window
  pub window_ping : Window
  pub window_pong : Window
  pub pings_sent : List (ℕ × ℕ)
  pub round_trips : List ℕ
  pub last_message_received : ℕ
  pub delivered : List Packet

-- `UNENCRYPTED_TYPES.has`.
abbrev pub may_be_unencrypted : ℕ → Bool
may_be_unencrypted p_type =
    any (λ t. t == p_type) (voice ∷ voice_whisper ∷ ping ∷ pong ∷ ack ∷ ack_low ∷ init1 ∷ [])

-- `#resolveGeneration`.
unfoldable pub resolve_generation : ℕ → ℕ → Handler → ℕ
resolve_generation id p_type h =
    if p_type == command
    then get_generation h.window_command id
    else if p_type == command_low
    then get_generation h.window_command_low id
    else if p_type == ack
    then get_generation h.sender.send_window_command id
    else if p_type == ack_low
    then get_generation h.sender.send_window_command_low id
    else if p_type == voice
    then get_generation h.window_voice id
    else if p_type == voice_whisper
    then get_generation h.window_voice_whisper id
    else if p_type == ping
    then get_generation h.window_ping id
    else if p_type == pong
    then get_generation h.window_pong id
    else 0

-- `#advanceReceiveGeneration`.
unfoldable pub advance_receive_generation : ℕ → ℕ → Handler → Handler
advance_receive_generation p_type id h =
    if p_type == voice
    then record h { window_voice = advance_after h.window_voice id }
    else if p_type == voice_whisper
    then record h { window_voice_whisper = advance_after h.window_voice_whisper id }
    else if p_type == ping
    then record h { window_ping = advance_after h.window_ping id }
    else if p_type == pong
    then record h { window_pong = advance_after h.window_pong id }
    else h

-- What `#decryptPacketData` returns, with the ids of commands under the dummy key that are left.
pub record Decrypted : Type 0 where
  pub plaintext : List ℕ
  pub dummy_used : Bool
  pub dummy_command_ids : List ℕ

-- `Set.prototype.delete` of the id that an acknowledgement names, where it is there.
unfoldable pub take_id : Option ℕ → List ℕ → Option (List ℕ)
take_id none ids = none
take_id (some id) ids =
    if any (λ i. i == id) ids then some (filter_by (λ i. not (i == id)) ids) else none

-- The plaintext of an acknowledgement under the dummy key, where the id it names was there.
unfoldable pub accept : List ℕ → Option (List ℕ) → Option Decrypted
accept bytes none = none
accept bytes (some left) =
    some (record { plaintext = bytes; dummy_used = true; dummy_command_ids = left })

-- The second attempt of `#decryptPacketData`, given what the cipher returns.
unfoldable pub second_attempt : List ℕ → Option (List ℕ) → Option Decrypted
second_attempt ids none = none
second_attempt ids (some bytes) = accept bytes (take_id (get_uint16 bytes) ids)

-- The first attempt, given what the cipher returns, and the second behind it where it is made.
unfoldable pub first_attempt :
    (dummy retry : Bool) → List ℕ → Option (List ℕ) → Option Decrypted → Option Decrypted
first_attempt dummy retry ids none second = if retry then second else none
first_attempt dummy retry ids (some bytes) second =
    some (record { plaintext = bytes; dummy_used = dummy; dummy_command_ids = ids })

module _ (crypt : Cipher) where
  -- `#decryptPacketData`.
  unfoldable pub decrypt_packet_data :
      Packet → (header ciphertext tag ids : List ℕ) → Option Decrypted
  decrypt_packet_data p header ciphertext tag ids =
      let p_type = packet_type p in
      let plain = has_flag unencrypted p in
      let dummy = not crypt.crypto_init_complete in
      let gen = p.generation_id in
      if plain && not (may_be_unencrypted p_type)
      then none
      else first_attempt dummy (not dummy && ((p_type == ack) && not plain)) ids
          (crypt.decrypt p_type p.id gen header ciphertext tag dummy plain)
          (second_attempt ids (crypt.decrypt p_type p.id gen header ciphertext tag true false))

  -- `#sendAck` and `#sendPong`.
  unfoldable pub send_ack : (now id ack_type : ℕ) (dummy_used : Bool) → Handler → Handler
  send_ack now id ack_type dummy_used h = record h {
    sender = send_packet_raw crypt now ack_type (uint16_bytes id) 0 dummy_used h.sender;
  }

  unfoldable pub send_pong : (now id : ℕ) (dummy_used : Bool) → Handler → Handler
  send_pong now id dummy_used h = record h {
    sender = send_packet_raw crypt now pong (uint16_bytes id) unencrypted dummy_used h.sender;
  }

-- A command queue with its next id, its window and the count of held bytes, and its return.
abbrev pub lane : Bool → Handler → Lane
lane true h = record {
  queue = h.command_queue;
  next_id = h.next_command_id;
  window = h.window_command;
  queued_bytes = h.queued_bytes;
}
lane false h = record {
  queue = h.command_low_queue;
  next_id = h.next_command_low_id;
  window = h.window_command_low;
  queued_bytes = h.queued_bytes;
}

abbrev pub with_lane : Bool → Lane → Handler → Handler
with_lane true l h = record h {
  command_queue = l.queue;
  next_command_id = l.next_id;
  window_command = l.window;
  queued_bytes = l.queued_bytes;
}
with_lane false l h = record h {
  command_low_queue = l.queue;
  next_command_low_id = l.next_id;
  window_command_low = l.window;
  queued_bytes = l.queued_bytes;
}

-- The pong of a keepalive ping that is still waiting for it. The clock is monotonic, so the pong is
-- not received before the ping was sent.
unfoldable pub note_pong : Packet → Handler → Handler
note_pong p h = elim (get_uint16 p.payload) [
  | none ↦ h
  | some acked ↦ elim (lookup acked h.pings_sent) [
    | none ↦ h
    | some sent_at ↦ record h {
      pings_sent = delete acked h.pings_sent;
      round_trips = h.round_trips ++ (p.received_at - sent_at) ∷ [];
    }
  ]
]

-- `#updatePostReceiveState` and what is delivered before it.
unfoldable pub deliver_all : Packet → List Packet → Handler → Handler
deliver_all p out h = record h {
  sender = update_post_receive_state p h.sender;
  delivered = h.delivered ++ out;
}

-- The command branch at the end of `#handleRawPacket`, where the Boolean says which queue; `none`
-- means that the fuel of a loop ran out.
unfoldable pub handle_command :
    Cipher → ℕ → (is_command dummy_used : Bool) → Packet → Handler → Option Handler
handle_command crypt now is_command dummy_used p h =
    let admission = admit p (lane is_command h) in
    let acknowledged =
      if admission.acknowledged
      then send_ack crypt now p.id (if is_command then ack else ack_low) dummy_used h
      else h in
    let drained = handle_packet_queue p (lane is_command acknowledged) in
    if admission.taken
    then elim drained [
      | none ↦ none
      | some (l, out) ↦ some (deliver_all p out (with_lane is_command l acknowledged))
    ]
    else some acknowledged

-- `#handleRawPacket` from the pong on, for a packet that was decrypted.
unfoldable pub handle_packet : Cipher → ℕ → Bool → Packet → Handler → Option Handler
handle_packet crypt now dummy_used p h =
    let p_type = packet_type p in
    let noted = if p_type == pong then note_pong p h else h in
    if p_type == ping
    then some (send_pong crypt now p.id dummy_used noted)
    else if p_type == command
    then handle_command crypt now true dummy_used p noted
    else if p_type == command_low
    then handle_command crypt now false dummy_used p noted
    else some (deliver_all p (p ∷ []) noted)

-- The packet `p` of `#handleRawPacket`, before its data is set.
unfoldable pub packet_received : ServerHeader → ℕ → Handler → Packet
packet_received parsed received_at h = record {
  type_flagged = parsed.type_flagged;
  id = parsed.id;
  client_id = 0;
  generation_id = resolve_generation parsed.id (packet_type_of_byte parsed.type_flagged) h;
  payload = [];
  received_at = received_at;
}

-- `#handleRawPacket` once the packet is decrypted.
unfoldable pub handle_decrypted : Cipher → ℕ → Packet → Option Decrypted → Handler → Option Handler
handle_decrypted crypt now p none h = some h
handle_decrypted crypt now p (some d) h =
    let advanced = advance_receive_generation (packet_type p) p.id h in
    handle_packet crypt now d.dummy_used (record p { payload = d.plaintext })
      (record advanced {
        last_message_received = now;
        sender = record advanced.sender { dummy_command_ids = d.dummy_command_ids };
      })

-- `#handleRawPacket` behind the checks of the size and of a late Init1.
unfoldable pub handle_header :
    Cipher → (now received_at : ℕ) (raw : List ℕ) → Option ServerHeader → Handler → Option Handler
handle_header crypt now received_at raw none h = some h
handle_header crypt now received_at raw (some parsed) h =
    let p = packet_received parsed received_at h in
    if (packet_type_of_byte parsed.type_flagged == init1) && crypt.crypto_init_complete
    then some h
    else handle_decrypted crypt now p
        (decrypt_packet_data crypt p (take 3 (drop 8 raw)) (drop 11 raw) (take 8 raw)
          h.sender.dummy_command_ids)
        h

-- `#handleRawPacket`.
unfoldable pub handle_raw_packet :
    Cipher → (now received_at : ℕ) (raw : List ℕ) → Handler → Option Handler
handle_raw_packet crypt now received_at raw h =
    if ltb (length raw) 11 || ltb max_datagram_size (length raw)
    then some h
    else handle_header crypt now received_at raw (parse_s2c_header (take 3 (drop 8 raw))) h
