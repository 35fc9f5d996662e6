-- ===== src/Transport/Send.antt =====
-- src/client/transport/handler.ts, the send side: `sendPacket`, `#sendSplitPacket`,
-- `#sendPacketRaw`, `#nextPacketIdentity`, `#trackResend`, `#checkResends`, `#doResend` and the
-- removal of what the server acknowledged. The socket is the sequence of datagrams given to it
-- while it is open; what it does with them is not modelled, nor is an error that it throws, on which
-- `#write` closes the connection, nor what `#write` adds to the traffic figures. The clock counts
-- whole milliseconds.
pub mod Number
pub mod Flags
pub mod Piece
pub mod Split
pub mod Reads
pub mod Again
pub mod Resends
pub mod Acks
mod Tests
use Prim.Native.Nat.{bit_and, bit_or}
use teamspeak_js.Common.{
  ℕ, zero, suc, ◌+◌, ◌-◌, ◌*◌, ◌%◌, ◌^◌, min, Bool, true, false, ◌&&◌, ◌||◌, not, ltb, ◌==◌,
  if◌then◌else◌, List, [], ◌∷◌, ◌++◌, length, take, drop, replicate, any, Option, none, some,
}
use teamspeak_js.Common.Maps.{insert, delete, has}
use teamspeak_js.Transport.Packet.{
  Packet, fragmented, new_protocol, unencrypted, voice, voice_whisper, command, command_low, init1,
  ack, ack_low, has_flag, packet_type, build_c2s_header, get_uint16,
}
use teamspeak_js.Transport.Window.{Window, advance_to_excluded}
use teamspeak_js.Transport.Cipher.{Cipher}

-- `MAX_OUT_PACKET_SIZE - HEADER_SIZE - TAG_SIZE`, and the times of resending.
abbrev pub max_piece : ℕ
max_piece = 500 - 5 - 8

abbrev pub packet_timeout_ms : ℕ
packet_timeout_ms = 60000

abbrev pub max_retry_interval_ms : ℕ
max_retry_interval_ms = 1000

abbrev pub resend_base_interval_ms : ℕ
resend_base_interval_ms = 500

abbrev pub command_hole_timeout_ms : ℕ
command_hole_timeout_ms = 5000

-- `ResendPacket`.
pub record ResendPacket : Type 0 where
  pub packet : Packet
  pub first_send : ℕ
  pub last_send : ℕ
  pub retry_count : ℕ
  pub next_interval : ℕ
  pub dummy : Bool

-- The fields of `PacketHandler` that sending uses; `written` is what `#conn.send` was given.
pub record Sender : Type 0 where
  pub is_open : Bool
  pub client_id : ℕ
  pub packet_counter : ℕ → ℕ
  pub generation_counter : ℕ → ℕ
  pub send_window_command : Window
  pub send_window_command_low : Window
  pub ack_manager : List (ℕ × ResendPacket)
  pub init_packet_check : Option ResendPacket
  pub dummy_command_ids : List ℕ
  pub resends : ℕ
  pub written : List (List ℕ)

-- A write to one place of a counter array.
abbrev pub write_counter : (ℕ → ℕ) → ℕ → ℕ → ℕ → ℕ
write_counter counter t n u = if u == t then n else counter u

-- `applyProtocolFlags`.
unfoldable pub apply_protocol_flags : ℕ → ℕ → ℕ
apply_protocol_flags p_type flags =
    if (p_type == command) || (p_type == command_low) then bit_or flags new_protocol else flags

-- The send windows after a packet was numbered.
unfoldable pub follow : ℕ → ℕ → Sender → Sender
follow p_type id s =
    if p_type == command
    then record s { send_window_command = advance_to_excluded s.send_window_command id }
    else if p_type == command_low
    then record s { send_window_command_low = advance_to_excluded s.send_window_command_low id }
    else s

-- The counters of a type after one more packet.
unfoldable pub count : ℕ → Sender → Sender
count p_type s =
    let next_id = (s.packet_counter p_type + 1) % 0x10000 in
    let gen = s.generation_counter p_type in
    record s {
      packet_counter = write_counter s.packet_counter p_type next_id;
      generation_counter =
          write_counter s.generation_counter p_type
            (if next_id == 0 then (gen + 1) % 2 ^ 32 else gen);
    }

-- `#nextPacketIdentity`: the id and the generation.
unfoldable pub next_packet_identity : ℕ → Sender → (ℕ × ℕ) × Sender
next_packet_identity p_type s =
    let identity : ℕ × ℕ = (s.packet_counter p_type, s.generation_counter p_type) in
    if p_type == init1
    then (identity, s)
    else (identity, follow p_type (s.packet_counter p_type) (count p_type s))

-- `(pType << 16) | id`, for a 16-bit id.
abbrev pub ack_key : ℕ → ℕ → ℕ
ack_key p_type id = p_type * 0x10000 + id

-- `#trackResend`.
unfoldable pub track_resend : ℕ → ResendPacket → Sender → Sender
track_resend p_type rp s =
    if p_type == init1
    then record s { init_packet_check = some rp }
    else if (p_type == command) || (p_type == command_low)
    then record s { ack_manager = insert (ack_key p_type rp.packet.id) rp s.ack_manager }
    else s

-- `#write`.
unfoldable pub write : List ℕ → Sender → Sender
write bytes s = if s.is_open then record s { written = s.written ++ bytes ∷ [] } else s

-- `Set.prototype.add`.
unfoldable pub add_id : ℕ → List ℕ → List ℕ
add_id id ids = if any (λ i. i == id) ids then ids else ids ++ id ∷ []

-- The packet `p` of `#sendPacketRaw`.
abbrev pub packet_sent : ℕ → ℕ → List ℕ → ℕ → ℕ × ℕ → Packet
packet_sent client_id p_type payload flags (id, gen) = record {
  type_flagged = bit_or p_type flags;
  id = id;
  client_id = client_id;
  generation_id = gen;
  payload = payload;
  received_at = 0;
}

-- The flags of a piece: the first and the last of several carry the fragmented flag.
abbrev pub piece_flags : Bool → Bool → ℕ → ℕ
piece_flags true true flags = flags
piece_flags true false flags = bit_or flags fragmented
piece_flags false true flags = bit_or flags fragmented
piece_flags false false flags = flags

-- What `#checkResends` ends with: it goes on, or closes the connection with an error.
pub data Check : Type 0 where
  goes_on : Sender → Check
  times_out stalls : Sender → Check

-- `#triggerClose`: the socket is let go.
abbrev pub close : Sender → Sender
close s = record s { is_open = false }

module _ (crypt : Cipher) where
  -- `final`, as `#sendPacketRaw` and `#doResend` build it: tag, header and ciphertext.
  unfoldable pub datagram : ℕ → Packet → Bool → Bool → List ℕ
  datagram p_type p dummy plain =
      let header = build_c2s_header p in
      let (ciphertext, tag) =
        crypt.encrypt p_type p.id p.generation_id header p.payload dummy plain in
      take 8 (tag ++ replicate 8 0) ++ header ++ ciphertext

  -- `#sendPacketRaw` from the packet on.
  unfoldable pub send_numbered : ℕ → ℕ → Bool → Bool → Packet → Sender → Sender
  send_numbered now p_type dummy plain p s =
      let s1 = write (datagram p_type p dummy plain) s in
      let s2 =
        if dummy && (p_type == command)
        then record s1 { dummy_command_ids = add_id p.id s1.dummy_command_ids }
        else s1 in
      track_resend p_type
        (record {
          packet = p;
          first_send = now;
          last_send = now;
          retry_count = 0;
          next_interval = resend_base_interval_ms;
          dummy = dummy;
        })
        s2

  -- `#sendPacketRaw`.
  unfoldable pub send_packet_raw : ℕ → ℕ → List ℕ → ℕ → Bool → Sender → Sender
  send_packet_raw now p_type payload flags dummy s =
      let flags' = apply_protocol_flags p_type flags in
      let (identity, s') = next_packet_identity p_type s in
      send_numbered now p_type dummy (not (bit_and flags' unencrypted == 0))
        (packet_sent s.client_id p_type payload flags' identity) s'

  -- The loop of `#sendSplitPacket`; `none` means that the fuel ran out.
  unfoldable pub split_from :
      ℕ → ℕ → ℕ → List ℕ → ℕ → Bool → (at : ℕ) → (first : Bool) → Sender → Option Sender
  split_from zero now p_type payload flags dummy at first s = none
  split_from (suc fuel) now p_type payload flags dummy at first s =
      let block_size = min (length payload - at) max_piece in
      let last = at + block_size == length payload in
      let s' =
        send_packet_raw now p_type (take block_size (drop at payload))
          (piece_flags first last flags) dummy s in
      let rest = split_from fuel now p_type payload flags dummy (at + block_size) false s' in
      if ltb at (length payload) then rest else some s

  -- `#sendSplitPacket`.
  unfoldable pub send_split_packet : ℕ → ℕ → List ℕ → ℕ → Bool → Sender → Option Sender
  send_split_packet now p_type payload flags dummy s =
      split_from (length payload + 1) now p_type payload flags dummy 0 true s

  -- `sendPacket`.
  unfoldable pub send_packet : ℕ → ℕ → List ℕ → ℕ → Sender → Option Sender
  send_packet now p_type payload flags s =
      let dummy = not crypt.crypto_init_complete in
      if ltb max_piece (length payload) && (not (p_type == voice) && not (p_type == voice_whisper))
      then send_split_packet now p_type payload flags dummy s
      else some (send_packet_raw now p_type payload flags dummy s)

  -- `#doResend`: the entry and the sender after it.
  unfoldable pub do_resend : ℕ → ResendPacket → Sender → ResendPacket × Sender
  do_resend now rp s = if ltb now (rp.last_send + rp.next_interval) then (rp, s) else (
    record rp {
      last_send = now;
      retry_count = rp.retry_count + 1;
      next_interval = min (rp.next_interval * 2) max_retry_interval_ms;
    },
    write (datagram (packet_type rp.packet) rp.packet rp.dummy (has_flag unencrypted rp.packet))
        (record s { resends = s.resends + 1 }),
  )

  -- The loop of `#checkResends` over the entries that are left; the Boolean says whether one of
  -- them timed out.
  unfoldable pub resend_each :
      ℕ → List (ℕ × ResendPacket) → Sender → Bool × List (ℕ × ResendPacket) × Sender
  resend_each now [] s = (false, [], s)
  resend_each now ((key, rp) ∷ entries) s =
      let (rp', s') = do_resend now rp s in
      let (late, entries', s'') = resend_each now entries s' in
      if ltb (rp.first_send + packet_timeout_ms) now
      then (true, entries, s)
      else (late, (key, rp') ∷ entries', s'')

  -- The resending of `#checkResends`, once neither time has run out.
  unfoldable pub resend_all : ℕ → Sender → Check
  resend_all now s =
      let s' : Sender = elim s.init_packet_check [
        | none ↦ s
        | some rp ↦ let (rp', s') = do_resend now rp s in record s' { init_packet_check = some rp' }
      ] in
      let (late, entries, s'') = resend_each now s'.ack_manager s' in
      let s3 = record s'' { ack_manager = entries } in
      if late then times_out (close s3) else goes_on s3

-- `#hasStalledHole` behind its first test: some packet ahead of the hole has waited too long.
-- `(id - nextID + 0x10000) & 0xffff` of two 16-bit ids.
unfoldable pub has_waited : ℕ → ℕ → List (ℕ × Packet) → Bool
has_waited next_id now [] = false
has_waited next_id now ((id, p) ∷ queue) =
    let rest = has_waited next_id now queue in
    let diff = (id + 0x10000 - next_id) % 0x10000 in
    (ltb diff 0x8000 && ltb (p.received_at + command_hole_timeout_ms) now) || rest

-- `#hasStalledHole`.
unfoldable pub has_stalled_hole : List (ℕ × Packet) → ℕ → ℕ → Bool
has_stalled_hole queue next_id now = not (has next_id queue) && has_waited next_id now queue

-- `#checkResends`, given whether a queue has a stalled hole.
unfoldable pub check_resends : Cipher → (now last_received : ℕ) → (hole : Bool) → Sender → Check
check_resends crypt now last_received hole s =
    if ltb (last_received + packet_timeout_ms) now
    then times_out (close s)
    else if hole
    then stalls (close s)
    else resend_all crypt now s

-- `#updatePostReceiveState`, given the type and the id that the payload begins with.
unfoldable pub acknowledge : ℕ → Option ℕ → Sender → Sender
acknowledge p_type none s = s
acknowledge p_type (some id) s =
    let target = if p_type == ack then command else command_low in
    if (p_type == ack) || (p_type == ack_low)
    then record s { ack_manager = delete (ack_key target id) s.ack_manager }
    else s

-- `#updatePostReceiveState`.
unfoldable pub update_post_receive_state : Packet → Sender → Sender
update_post_receive_state p s = acknowledge (packet_type p) (get_uint16 p.payload) s
