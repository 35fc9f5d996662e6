-- ===== src/Transport/Send/Tests.antt =====
-- A sender at work, with a cipher that leaves everything as it is, and the theorems at such inputs.
use teamspeak_js.Common.{
  ℕ, ◌<◌, sym, Bool-cases, ==_iff, inl, inr, ◌+◌, ◌*◌, ◌%◌, ◌≡◌, refl, ◌≤◌, ◌==◌, ◌||◌,
  if◌then◌else◌, Bool, true, false, any, List, [], ◌∷◌, All, map, replicate, none, some, arith,
}
use teamspeak_js.Common.Maps.{lookup, insert, IsMap}
use teamspeak_js.Transport.Packet.{
  Packet, ack, command, command_low, packet_type, packet_flags, has_flag, build_c2s_header,
  get_uint16,
}
use teamspeak_js.Transport.Window.{create, advance_to_excluded}
use teamspeak_js.Transport.Cipher.{Cipher}
use teamspeak_js.Transport.Receive.{Lane, combined, try_reassemble, whole}
use teamspeak_js.Transport.Receive.Reassembly.{HasRun}
use teamspeak_js.Transport.Receive.Stream.{slice, Holds, window_at, limit}
use teamspeak_js.Transport.Send.{
  Sender, ResendPacket, next_packet_identity, send_packet, resend_each, update_post_receive_state,
  ack_key, check_resends, goes_on, times_out, stalls, send_split_packet, split_from,
  send_packet_raw, send_numbered, write, datagram, count, follow, apply_protocol_flags,
  track_resend, resend_all, do_resend,
}
use teamspeak_js.Transport.Send.Number.{IsAt, identity, next_packet_identity_lem}
use teamspeak_js.Transport.Send.Piece.{Sends}
use teamspeak_js.Transport.Send.Split.{NumberedFrom, IsPiece, Framed, send_packet-Sends}
use teamspeak_js.Transport.Send.Reads.{try_reassemble-Framed}
use teamspeak_js.Transport.Send.Again.{due_again, sent_again, same_again}
use teamspeak_js.Transport.Send.Acks.{acknowledges, update_post_receive_state-acknowledges}
use teamspeak_js.Transport.Send.Resends.{
  IsFresh, is_late, constant, resend_each-is_late, resend_each-IsFresh,
}

abbrev plain_cipher : Cipher
plain_cipher = record {
  crypto_init_complete = true;
  encrypt = λ _ _ _ _ plaintext _ _. (plaintext, replicate 8 7);
  decrypt = λ _ _ _ _ ciphertext _ _ _. some ciphertext;
}

-- Every counter stands just before the wrap of the id.
abbrev sender : Sender
sender = record {
  is_open = true;
  client_id = 5;
  packet_counter = λ _. 0xffff;
  generation_counter = λ _. 2;
  send_window_command = create 0x10000 1024;
  send_window_command_low = create 0x10000 1024;
  ack_manager = [];
  init_packet_check = none;
  dummy_command_ids = [];
  resends = 0;
  written = [];
}

sender-IsAt : (p_type : ℕ) → IsAt p_type 0x2_ffff sender
sender-IsAt p_type = record { id_at = refl; generation_at = refl }

next_packet_identity_lem_example :
    ((next_packet_identity command sender).0 ≡ identity 0x2_ffff)
    × IsAt command 0x3_0000 (next_packet_identity command sender).1
    × IsAt ack 0x2_ffff (next_packet_identity command sender).1
next_packet_identity_lem_example =
    next_packet_identity_lem command 0x2_ffff ack 0x2_ffff sender (omega arith)
      (sender-IsAt command) (omega arith) (sender-IsAt ack)

-- A command of two pieces, over the wrap of the id.
send_packet-Sends_example :
    (s' : Sender) × (send_packet plain_cipher 1000 command (replicate 600 9) (0 * 32) sender
      ≡ some s')
    × (ps : List Packet) × Sends plain_cipher false command 0x2_ffff sender ps s'
    × NumberedFrom 0x2_ffff ps
    × (combined ps ≡ replicate 600 9)
    × All IsPiece ps
    × Framed ps
send_packet-Sends_example =
    send_packet-Sends plain_cipher 1000 command 0 0x2_ffff (replicate 600 9) sender (omega arith)
      (omega arith) (omega arith) (omega arith) refl (sender-IsAt command)

-- A stream whose packets 3 to 5 are one command.
abbrev stream : ℕ → Packet
stream n = record {
  type_flagged = if (n == 3) || (n == 5) then 0x32 else 0x22;
  id = n % 0x10000;
  client_id = 0;
  generation_id = 0;
  payload = n ∷ (n + 1) ∷ [];
  received_at = 0;
}

stream-Framed : Framed (slice stream 3 3)
unfolding has_flag
stream-Framed = (refl, (refl, refl))

-- A queue that holds the three in another order.
abbrev held : List (ℕ × Packet)
held = (5, stream 5) ∷ (3, stream 3) ∷ (4, stream 4) ∷ []

abbrev holding : Lane
holding = record { queue = held; next_id = 3; window = window_at 3; queued_bytes = 6 }

held_at :
    (id : ℕ) (p : Packet)
    → lookup id held ≡ some p
    → (m : ℕ) × (3 ≤ m) × (m < 3 + 1024) × (m < limit) × (id ≡ m % 0x10000) × (p ≡ stream m)
unfolding lookup
held_at id p e = elim (Bool-cases (5 == id)) [
  | inl is ↦ (5, omega arith, omega arith, omega arith, sym ((==_iff 5 id).0 is), cc (rw is at e))
  | inr no_5 ↦ elim (Bool-cases (3 == id)) [
    | inl is ↦ (
      3,
      omega arith,
      omega arith,
      omega arith,
      sym ((==_iff 3 id).0 is),
      cc (rw (no_5, is) at e),
    )
    | inr no_3 ↦ elim (Bool-cases (4 == id)) [
      | inl is ↦ (
        4,
        omega arith,
        omega arith,
        omega arith,
        sym ((==_iff 4 id).0 is),
        cc (rw (no_5, no_3, is) at e),
      )
      | inr no_4 ↦ absurd (cc (rw (no_5, no_3, no_4) at e))
    ]
  ]
]

holding-Holds : Holds stream 3 holding
holding-Holds = record {
  expects = refl;
  window_is = refl;
  in_limit = omega arith;
  is_map = omega arith;
  held = held_at;
}

holding-HasRun : HasRun stream holding 3 3
unfolding lookup
holding-HasRun = (refl, (refl, (refl, tt)))

try_reassemble-Framed_example :
    (p : Packet) × (l' : Lane) × (try_reassemble (stream 3) holding ≡ whole p l')
    × (p.payload ≡ 3 ∷ 4 ∷ 4 ∷ 5 ∷ 5 ∷ 6 ∷ [])
    × (p.id ≡ 3)
    × Holds stream 6 l'
try_reassemble-Framed_example =
    try_reassemble-Framed stream 2 3 holding stream-Framed (omega arith) holding-Holds
      holding-HasRun

-- A command packet that waits for its acknowledgement, and another that waits no more.
abbrev waiting : ResendPacket
waiting = record {
  packet = stream 0;
  first_send = 1000;
  last_send = 1000;
  retry_count = 0;
  next_interval = 500;
  dummy = false;
}

abbrev entries : List (ℕ × ResendPacket)
entries =
    (ack_key command 0, waiting) ∷ (ack_key command 1, record waiting { last_send = 1400 }) ∷ []

resend_each-is_late_example :
    (resend_each plain_cipher 1600 entries sender).0 ≡ any (is_late 1600) entries
resend_each-is_late_example = resend_each-is_late plain_cipher 1600 entries sender (omega arith)

none_late : any (is_late 1600) entries ≡ false
unfolding any
none_late = refl

resend_each-IsFresh_example :
    All (IsFresh 1600) (resend_each plain_cipher 1600 entries sender).1
    × (map constant (resend_each plain_cipher 1600 entries sender).1 ≡ map constant entries)
    × ((resend_each plain_cipher 1600 entries sender).2
        ≡ sent_again (due_again plain_cipher 1600 entries) sender)
resend_each-IsFresh_example =
    resend_each-IsFresh plain_cipher 1600 entries sender (omega arith) none_late

-- The first of the two is due.
due_again_test : due_again plain_cipher 1600 entries ≡ same_again plain_cipher waiting ∷ []
due_again_test = refl

abbrev acknowledgement : Packet
acknowledgement = record (stream 0) { type_flagged = 0x06; payload = 0 ∷ 1 ∷ [] }

abbrev with_entries : Sender
with_entries = record sender { ack_manager = entries }

update_post_receive_state-acknowledges_example :
    IsMap (update_post_receive_state acknowledgement with_entries).ack_manager
    × (lookup
          (ack_key command 1)
          (update_post_receive_state acknowledgement with_entries).ack_manager
        ≡ (if acknowledges acknowledgement command 1
            then none
            else lookup (ack_key command 1) entries))
    × (update_post_receive_state acknowledgement with_entries ≡ record with_entries {
      ack_manager = (update_post_receive_state acknowledgement with_entries).ack_manager;
    })
update_post_receive_state-acknowledges_example =
    update_post_receive_state-acknowledges acknowledgement command 1 with_entries (omega arith)
      (omega arith) (inl refl) (omega arith)

-- It is an acknowledgement of command 1, and of no low-priority command.
acknowledges_test :
    (acknowledges acknowledgement command 1 ≡ true)
    × (acknowledges acknowledgement command_low 1 ≡ false)
unfolding get_uint16 packet_type
acknowledges_test = (refl, refl)

-- The loop of splitting, the first resend and the timeouts, run.
runs : ℕ → List (List ℕ) × Bool
unfolding send_packet send_split_packet split_from send_packet_raw send_numbered write datagram
    next_packet_identity count follow apply_protocol_flags track_resend build_c2s_header
    check_resends resend_all resend_each do_resend has_flag packet_type packet_flags
    advance_to_excluded insert
runs now = elim (send_packet plain_cipher 1000 command (1 ∷ 2 ∷ []) 0 sender) [
  | none ↦ ([], false)
  | some s ↦ elim (check_resends plain_cipher now 1000 false s) [
    | goes_on s' ↦ (s'.written, s'.is_open)
    | times_out s' ↦ (s'.written, s'.is_open)
    | stalls s' ↦ (s'.written, s'.is_open)
  ]
]

abbrev once : List ℕ
once = 7 ∷ 7 ∷ 7 ∷ 7 ∷ 7 ∷ 7 ∷ 7 ∷ 7 ∷ 255 ∷ 255 ∷ 0 ∷ 5 ∷ 0x22 ∷ 1 ∷ 2 ∷ []

resends_when_due :
    (runs 1499 ≡ (once ∷ [], true))
    × (runs 1500 ≡ (once ∷ once ∷ [], true))
    × (runs 61001 ≡ (once ∷ [], false))
unfolding runs
resends_when_due = (refl, refl, refl)
