-- ===== src/Transport/Receive/Stream.antt =====
-- What a server sends: command packets numbered from 0, some of them fragments of one command. The
-- commands of the stream, in order, are the specification of the receive queue.
use teamspeak_js.Common.{
  ℕ, zero, suc, ◌+◌, ◌*◌, ◌/◌, ◌%◌, ◌≤◌, ◌<◌, ◌≡◌, true, false, ltb, if◌then◌else◌, List, [], ◌∷◌,
  Option, none, some,
}
use teamspeak_js.Common.Maps.{lookup, IsMap}
use teamspeak_js.Transport.Packet.{Packet, fragmented, has_flag}
use teamspeak_js.Transport.Window.{Window, max_u32}
use teamspeak_js.Transport.Receive.{
  Lane, receive_packet_window_size, max_reassembled_size, total_size, joined, try_decompress,
}

-- The window whose base is packet `n`.
abbrev pub window_at : ℕ → Window
window_at n = record {
  modulus = 0x10000;
  receive_window = receive_packet_window_size;
  mapped_base_offset = n % 0x10000;
  generation = n / 0x10000;
}

-- Packet numbers whose generation fits in 32 bits.
abbrev pub limit : ℕ
limit = max_u32 * 0x10000

-- What is passed on of a command: nothing, if it was dropped or does not decompress.
abbrev pub passed : Option Packet → List Packet → List Packet
passed none out = out
passed (some p) out = p ∷ out

abbrev pub emit : Option Packet → List Packet → List Packet
emit none out = out
emit (some p) out = passed (try_decompress p) out

-- A stream gives each packet number its packet, whose id is the number's last 16 bits.
module _ (stream : ℕ → Packet) where
  abbrev pub IsNumbered : Type 0
  IsNumbered = (n : ℕ) → (stream n).id ≡ n % 0x10000

  abbrev pub slice : ℕ → ℕ → List Packet
  slice n zero = []
  slice n (suc c) = stream n ∷ slice (n + 1) c

  -- The rest of a fragmented command: `k` packets without the flag and one with it.
  abbrev pub Closes : ℕ → ℕ → Type 0
  Closes n zero = has_flag fragmented (stream n) ≡ true
  Closes n (suc k) = (has_flag fragmented (stream n) ≡ false) × Closes (n + 1) k

  -- The command that begins at packet `n` is `c + 1` packets long.
  abbrev pub Spans : ℕ → ℕ → Type 0
  Spans n zero = has_flag fragmented (stream n) ≡ false
  Spans n (suc k) = (has_flag fragmented (stream n) ≡ true) × Closes (n + 1) k

  -- That command as one packet; one in fragments that is over the size limit is dropped.
  abbrev pub command_at : ℕ → ℕ → Option Packet
  command_at n zero = some (stream n)
  command_at n (suc k) =
      if ltb max_reassembled_size (total_size (slice n (suc (suc k))))
      then none
      else some (joined (stream n) (slice n (suc (suc k))))

  -- The commands of packets `n` to `m`, in order.
  pub data Commands : ℕ → ℕ → List Packet → Type 0 where
    finish : {n : ℕ} → Commands n n []
    then_command :
        {n m : ℕ} {out : List Packet} (c : ℕ)
        → Spans n c
        → Commands (n + suc c) m out
        → Commands n m (emit (command_at n c) out)

  -- The queue holds packets of the stream from the next expected one, number `n`, on.
  pub record Holds (n : ℕ) (l : Lane) : Type 0 where
    pub expects : l.next_id ≡ n % 0x10000
    pub window_is : l.window ≡ window_at n
    pub in_limit : n ≤ limit
    pub is_map : IsMap l.queue
    pub held :
        (id : ℕ) (p : Packet)
        → lookup id l.queue ≡ some p
        → (m : ℕ) × (n ≤ m)
          × (m < n + receive_packet_window_size)
          × (m < limit)
          × (id ≡ m % 0x10000)
          × (p ≡ stream m)
