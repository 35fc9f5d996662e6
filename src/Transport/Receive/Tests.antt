-- ===== src/Transport/Receive/Tests.antt =====
-- A queue at work: a plain command, and one of three fragments that arrive out of order.
use teamspeak_js.Common.{
  ◌↔◌, ℕ, ◌+◌, ◌%◌, ◌≡◌, ◌≢◌, ◌≤◌, ◌⊎◌, true, refl, ◌||◌, ◌==◌, if◌then◌else◌, List, [], ◌∷◌, none,
  some, arith,
}
use teamspeak_js.Common.Maps.{lookup, has, insert, delete}
use teamspeak_js.Transport.Packet.{Packet, has_flag, packet_flags, clear_flag}
use teamspeak_js.Transport.Window.{advance, is_in_window, is_old_packet}
use teamspeak_js.Transport.Receive.{
  Lane, release, hold, collect, total_size, combined, release_next, release_all, joined,
  close_command, try_reassemble, try_decompress, drain, handle_packet_queue, needed_from,
  held_bytes, admit, receive, max_queued_bytes,
}
use teamspeak_js.Transport.Receive.Stream.{window_at, IsNumbered, Commands, Holds}
use teamspeak_js.Transport.Receive.Delivery.{Waits}
use teamspeak_js.Transport.Receive.Bytes.{bytes, Counts, receive-Counts}
use teamspeak_js.Transport.Receive.Admits.{IsNeeded, admit_limit}
use teamspeak_js.Transport.Receive.Arrival.{
  start, Session, begin, arrival, Session-Commands, Session-receive,
}

-- Packets 1 to 3 are one command.
abbrev sent : ℕ → Packet
sent n = record {
  type_flagged = if (n == 1) || (n == 3) then 0x32 else 0x22;
  id = n % 0x10000;
  client_id = 0;
  generation_id = 0;
  payload = (n + 65) ∷ [];
  received_at = 0;
}

sent-IsNumbered : IsNumbered sent
sent-IsNumbered n = refl

-- All that a run of the queue computes with.
run : Packet → Lane → List Packet
unfolding receive admit is_in_window is_old_packet handle_packet_queue needed_from held_bytes has
    hold drain try_reassemble close_command collect total_size joined combined release_all
    release_next release advance lookup insert delete has_flag packet_flags clear_flag
    try_decompress
run p l = elim (receive p l) [ none ↦ [] | some (_, out) ↦ out ]

abbrev after_0 : Lane
after_0 = record { queue = []; next_id = 1; window = window_at 1; queued_bytes = 0 }

abbrev after_2 : Lane
after_2 = record after_0 { queue = (2, sent 2) ∷ []; queued_bytes = 1 }

abbrev after_3 : Lane
after_3 = record after_0 { queue = (2, sent 2) ∷ (3, sent 3) ∷ []; queued_bytes = 2 }

abbrev after_1 : Lane
after_1 = record { queue = []; next_id = 4; window = window_at 4; queued_bytes = 0 }

abbrev whole_command : Packet
whole_command = record (sent 1) { type_flagged = 0x22; payload = 66 ∷ 67 ∷ 68 ∷ [] }

receive_0 : receive (sent 0) start ≡ some (after_0, sent 0 ∷ [])
unfolding run
receive_0 = refl

receive_2 : receive (sent 2) after_0 ≡ some (after_2, [])
unfolding run
receive_2 = refl

receive_3 : receive (sent 3) after_2 ≡ some (after_3, [])
unfolding run
receive_3 = refl

receive_1 : receive (sent 1) after_3 ≡ some (after_1, whole_command ∷ [])
unfolding run
receive_1 = refl

-- A packet that was delivered is acknowledged again, and not delivered again.
receive_again : receive (sent 2) after_1 ≡ some (after_1, [])
unfolding run
receive_again = refl

up_to_3 : Session sent after_3 (sent 0 ∷ [])
up_to_3 =
    arrival 3
      (arrival 2 (arrival 0 begin (omega arith) (omega arith) (omega arith) receive_0) (omega arith)
        (omega arith) (omega arith) receive_2)
      (omega arith) (omega arith) (omega arith) receive_3

up_to_1 : Session sent after_1 (sent 0 ∷ whole_command ∷ [])
up_to_1 = arrival 1 up_to_3 (omega arith) (omega arith) (omega arith) receive_1

Session-Commands_example :
    (n : ℕ) × Commands sent 0 n (sent 0 ∷ whole_command ∷ [])
    × Holds sent n after_1
    × Waits sent n after_1
Session-Commands_example = Session-Commands sent sent-IsNumbered up_to_1

Session-receive_example : receive (sent 1) after_3 ≢ none
Session-receive_example =
    Session-receive sent sent-IsNumbered 1 up_to_3 (omega arith) (omega arith) (omega arith)

after_2-Counts : Counts 5 (record after_2 { queued_bytes = 6 })
unfolding bytes
after_2-Counts = record { is_map = (tt, tt); exact = refl }

receive_3_shared :
    receive (sent 3) (record after_2 { queued_bytes = 6 })
    ≡ some (record after_3 { queued_bytes = 7 }, [])
unfolding run
receive_3_shared = refl

-- The other queue holds five bytes.
receive-Counts_example : Counts 5 (record after_3 { queued_bytes = 7 })
receive-Counts_example =
    receive-Counts 5 (sent 3) (record after_2 { queued_bytes = 6 })
      (record after_3 { queued_bytes = 7 }) [] after_2-Counts receive_3_shared

admit_limit_example :
    (((admit (sent 3) after_2).taken ≡ true) ↔ (
      (is_in_window after_2.window 3 ≡ true)
      × (IsNeeded 3 after_2 ⊎ ((hold (sent 3) after_2).queued_bytes ≤ max_queued_bytes))))
    × ((admit (sent 3) after_2).acknowledged ≡ (
        if is_in_window after_2.window 3
        then (admit (sent 3) after_2).taken
        else is_old_packet after_2.window 3))
admit_limit_example = admit_limit (sent 3) after_2 (tt, tt) (omega arith) (omega arith)
