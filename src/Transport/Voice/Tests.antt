-- ===== src/Transport/Voice/Tests.antt =====
-- A whisper to one client and one channel, with ids that fill their width.
use teamspeak_js.Common.{
  ℕ, ◌+◌, ◌%◌, ◌≡◌, ◌⊎◌, refl, arith, true, List, [], ◌∷◌, ◌++◌, replicate, none, some,
}
use teamspeak_js.Transport.Packet.{Packet, voice_whisper}
use teamspeak_js.Transport.Window.{create}
use teamspeak_js.Transport.Send.{Sender}
use teamspeak_js.Transport.Send.Number.{IsAt}
use teamspeak_js.Transport.Voice.{signed, send_whisper_packet}
use teamspeak_js.Transport.Voice.Layout.{
  WithinLimits, read_whisper, send_whisper_packet-read_whisper,
}

abbrev signature : List ℕ
signature = replicate 8 1

abbrev clients : List ℕ
clients = 0xffff ∷ []

abbrev channels : List ℕ
channels = 0xffff_ffff_ffff_ffff ∷ []

abbrev sender : Sender
sender = record {
  is_open = true;
  client_id = 5;
  packet_counter = λ _. 0xffff;
  generation_counter = λ _. 2;
  send_window_command = create 0x10000 1024;
  send_window_command_low = create 0x10000 1024;
  ack_manager = [];
  init_packet_check = none;
  dummy_command_ids = [];
  resends = 0;
  written = [];
}

send_whisper_packet-read_whisper_example :
    (WithinLimits clients channels
      × (p : Packet) × (s' : Sender) × (send_whisper_packet signature
            (9 ∷ [])
            clients
            4
            channels
            sender
          ≡ some s')
      × (s'.written ≡ sender.written ++ signed signature p ∷ [])
      × (p.id ≡ 0x2_ffff % 0x10000)
      × (p.type_flagged ≡ 0x81)
      × (read_whisper p.payload
          ≡ some (record {
            voice_id = 0x2_ffff % 0x10000;
            codec = 4;
            channels = channels;
            clients = clients;
            sound = 9 ∷ [];
          }))
      × IsAt voice_whisper (0x2_ffff + 1) s')
    ⊎ ((WithinLimits clients channels → ⊥)
        × (send_whisper_packet signature (9 ∷ []) clients 4 channels sender ≡ none))
send_whisper_packet-read_whisper_example =
    send_whisper_packet-read_whisper signature 0x2_ffff 4 (9 ∷ []) clients channels sender
      (record { id_at = refl; generation_at = refl }) refl (omega arith)
