-- ===== src/Transport/Dispatch/Tests.antt =====
-- Datagrams at a handler, with concrete ciphers, and the theorems at such inputs.
use teamspeak_js.Common.{
  ℕ, arith, false, eq_list, ==-false, ◌⊎◌, ◌≡◌, inl, refl, true, any, if◌then◌else◌, List, [], ◌∷◌,
  take, drop, ◌++◌, filter_by, none, some, replicate,
}
use teamspeak_js.Transport.Packet.{
  Packet, ServerHeader, packet_type_of_byte, packet_flags, packet_type, parse_s2c_header, has_flag,
  unencrypted, get_uint16,
}
use teamspeak_js.Transport.Window.{create}
use teamspeak_js.Transport.Cipher.{Cipher}
use teamspeak_js.Transport.Send.{Sender}
use teamspeak_js.Crypto.Eax.{eax_decrypt, tag_of, cmac, aes_cmac, xor_bytes}
use teamspeak_js.Crypto.Crypt.{Primitives, Crypt, with_iv}
use teamspeak_js.Crypto.Crypt.Session.{cipher_of}
use teamspeak_js.Transport.Dispatch.{
  Handler, Decrypted, decrypt_packet_data, handle_raw_packet, packet_received, first_attempt,
  second_attempt, accept, take_id,
}
use teamspeak_js.Transport.Dispatch.Authentic.{
  Rejects, UnderSession, UnderDummy, handle_raw_packet-Rejects, handle_raw_packet-unencrypted,
  decrypt_packet_data-dummy,
}

-- A cipher after the crypto init, whose dummy key accepts everything and whose own key nothing.
abbrev dummy_only : Cipher
dummy_only = record {
  crypto_init_complete = true;
  encrypt = λ _ _ _ _ plaintext _ _. (plaintext, replicate 8 0);
  decrypt = λ _ _ _ _ ciphertext _ dummy _. if dummy then some ciphertext else none;
}

abbrev accepting : Cipher
accepting = record dummy_only { decrypt = λ _ _ _ _ ciphertext _ _ _. some ciphertext }

-- The cipher of a `Crypt` whose hashes and whose AES give one value each.
abbrev constant : Primitives
constant = record {
  aes = record {
    ctr = λ key iv bytes. bytes;
    ecb = λ key block. replicate 16 0;
    cbc = λ key bytes. replicate 16 3;
  };
  sha1 = λ bytes. replicate 20 5;
  sha256 = λ bytes. replicate 32 2;
}

abbrev ready : Crypt
ready = with_iv constant (replicate 12 9)

abbrev sender : Sender
sender = record {
  is_open = true;
  client_id = 5;
  packet_counter = λ _. 0;
  generation_counter = λ _. 0;
  send_window_command = create 0x10000 1024;
  send_window_command_low = create 0x10000 1024;
  ack_manager = [];
  init_packet_check = none;
  dummy_command_ids = 7 ∷ 9 ∷ [];
  resends = 0;
  written = [];
}

abbrev handler : Handler
handler = record {
  sender = sender;
  command_queue = [];
  command_low_queue = [];
  next_command_id = 0;
  next_command_low_id = 0;
  queued_bytes = 0;
  window_command = create 0x10000 1024;
  window_command_low = create 0x10000 1024;
  window_voice = create 0x10000 0x8000;
  window_voice_whisper = create 0x10000 0x8000;
  window_ping = create 0x10000 0x8000;
  window_pong = create 0x10000 0x8000;
  pings_sent = [];
  round_trips = [];
  last_message_received = 0;
  delivered = [];
}

-- A datagram whose header says "command, unencrypted".
abbrev forged : List ℕ
forged = replicate 8 0 ++ 0 ∷ 0 ∷ 0x82 ∷ 1 ∷ 2 ∷ []

abbrev forged_header : ServerHeader
forged_header = record { id = 0; type_flagged = 0x82 }

forged_reads :
    (parse_s2c_header (take 3 (drop 8 forged)) ≡ some forged_header)
    × (packet_type_of_byte 0x82 ≡ 2)
    × (has_flag unencrypted (packet_received forged_header 10 handler) ≡ true)
unfolding parse_s2c_header packet_type_of_byte has_flag packet_flags packet_received
forged_reads = (refl, refl, refl)

-- A datagram whose header says "command", encrypted.
abbrev garbled : List ℕ
garbled = replicate 8 0 ++ 0 ∷ 0 ∷ 0x02 ∷ 1 ∷ 2 ∷ []

abbrev garbled_header : ServerHeader
garbled_header = record { id = 0; type_flagged = 0x02 }

garbled_reads :
    (parse_s2c_header (take 3 (drop 8 garbled)) ≡ some garbled_header)
    × (packet_type_of_byte 0x02 ≡ 2)
unfolding parse_s2c_header packet_type_of_byte
garbled_reads = (refl, refl)

-- Neither the tag of EAX nor the fake signature.
garbled-Rejects :
    Rejects (cipher_of constant ready) (take 3 (drop 8 garbled)) (drop 11 garbled) (take 8 garbled)
unfolding eq_list eax_decrypt tag_of cmac aes_cmac xor_bytes
garbled-Rejects t id gen true true ne = rw (==-false t 8 ne) refl
garbled-Rejects t id gen true false ne = rw (==-false t 8 ne) refl
garbled-Rejects t id gen false true ne = rw (==-false t 8 ne) refl
garbled-Rejects t id gen false false ne = rw (==-false t 8 ne) refl

handle_raw_packet-Rejects_example :
    handle_raw_packet (cipher_of constant ready) 20 10 garbled handler ≡ some handler
handle_raw_packet-Rejects_example =
    handle_raw_packet-Rejects (cipher_of constant ready) 20 10 garbled handler garbled_header
      garbled_reads.0 (inl (rw garbled_reads.1 (omega arith))) garbled-Rejects

handle_raw_packet-unencrypted_example :
    handle_raw_packet accepting 20 10 forged handler ≡ some handler
handle_raw_packet-unencrypted_example =
    handle_raw_packet-unencrypted accepting 20 10 forged handler forged_header forged_reads.0
      (inl forged_reads.1) forged_reads.2

-- The acknowledgement of command 7 under the dummy key.
abbrev late_ack : Packet
late_ack = record {
  type_flagged = 0x06;
  id = 0;
  client_id = 0;
  generation_id = 0;
  payload = [];
  received_at = 10;
}

abbrev accepted : Decrypted
accepted = record { plaintext = 0 ∷ 7 ∷ []; dummy_used = true; dummy_command_ids = 9 ∷ [] }

late_ack_reads :
    decrypt_packet_data dummy_only late_ack [] (0 ∷ 7 ∷ []) [] (7 ∷ 9 ∷ []) ≡ some accepted
unfolding decrypt_packet_data first_attempt second_attempt accept take_id packet_type has_flag any
    get_uint16 filter_by
late_ack_reads = refl

decrypt_packet_data-dummy_example :
    UnderSession (7 ∷ 9 ∷ []) none accepted
    ⊎ UnderDummy
        (packet_type late_ack)
        (has_flag unencrypted late_ack)
        (7 ∷ 9 ∷ [])
        none
        (some (0 ∷ 7 ∷ []))
        accepted
decrypt_packet_data-dummy_example =
    decrypt_packet_data-dummy dummy_only late_ack [] (0 ∷ 7 ∷ []) [] (7 ∷ 9 ∷ []) accepted refl
      late_ack_reads
