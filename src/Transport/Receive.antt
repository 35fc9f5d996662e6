-- ===== src/Transport/Receive.antt =====
-- src/client/transport/handler.ts, the receive side of one command queue: `#hold`, `#release`,
-- `#tryReassemble`, `#tryDecompress`, `#handlePacketQueue` and `#handleCommandWindowAndAck`.
-- The handler keeps two such queues, for commands and for low-priority commands, each with its
-- next id and its window; the count of held bytes is one for both. A `Lane` is one of the queues
-- with that count. The loop over fragments takes fuel for one more packet than a window holds, and
-- the loop over commands takes fuel for one more than the queue holds.
pub mod Stream
pub mod Reassembly
pub mod Delivery
pub mod Arrival
pub mod Bytes
pub mod Admits
mod Tests
use teamspeak_js.Common.{
  ℕ, zero, suc, ◌+◌, ◌-◌, ◌%◌, ◌^◌, Bool, true, false, ◌&&◌, not, ltb, leb, ◌==◌, if◌then◌else◌,
  List, [], ◌∷◌, ◌++◌, length, Option, none, some, pos,
}
use teamspeak_js.Common.Maps.{lookup, has, insert, delete}
use teamspeak_js.Transport.Packet.{
  Packet, fragmented, compressed, has_flag, clear_flag, packet_type, packet_flags,
}
use teamspeak_js.Transport.Window.{Window, advance, is_in_window, is_old_packet}
use teamspeak_js.Transport.Quicklz
use teamspeak_js.Transport.Quicklz.{decompress}

-- `RECEIVE_PACKET_WINDOW_SIZE`, `MAX_REASSEMBLED_SIZE` and `MAX_QUEUED_BYTES`.
abbrev pub receive_packet_window_size : ℕ
receive_packet_window_size = 1024

abbrev pub max_reassembled_size : ℕ
max_reassembled_size = 2 ^ 20

abbrev pub max_queued_bytes : ℕ
max_queued_bytes = 2 ^ 20

-- `#commandQueue`, `#nextCommandID` and `#recvWindowCommand`, or those of the low queue, and
-- `#queuedBytes`.
pub record Lane : Type 0 where
  pub queue : List (ℕ × Packet)
  pub next_id : ℕ
  pub window : Window
  pub queued_bytes : ℕ

-- `(id + 1) & 0xffff`.
abbrev pub next : ℕ → ℕ
next id = (id + 1) % 0x10000

-- `#release`.
unfoldable pub release : ℕ → Lane → Lane
release id l = elim (lookup id l.queue) [
  | none ↦ l
  | some held ↦ record l {
    queue = delete id l.queue;
    queued_bytes = l.queued_bytes - length held.payload;
  }
]

-- `#hold`.
unfoldable pub hold : Packet → Lane → Lane
hold p l =
    let r = release p.id l in
    record r { queue = insert p.id p r.queue; queued_bytes = r.queued_bytes + length p.payload }

-- What the loop over the fragments of a command finds: one is missing, or the command is closed.
pub data Fragments : Type 0 where
  missing : Fragments
  closed : List Packet → Fragments
  no_fuel : Fragments

abbrev pub with_fragment : Packet → Fragments → Fragments
with_fragment frag missing = missing
with_fragment frag (closed frags) = closed (frag ∷ frags)
with_fragment frag no_fuel = no_fuel

-- The loop of `#tryReassemble`; the Boolean is `startSeen`.
unfoldable pub collect : ℕ → ℕ → Bool → List (ℕ × Packet) → Fragments
collect zero id start_seen queue = no_fuel
collect (suc fuel) id start_seen queue = elim (lookup id queue) [
  | none ↦ missing
  | some frag ↦
      let rest = with_fragment frag (collect fuel (next id) true queue) in
      if start_seen
      then if has_flag fragmented frag then closed (frag ∷ []) else rest
      else if has_flag fragmented frag
      then rest
      else closed (frag ∷ [])
]

-- `totalSize` and `combined`.
unfoldable pub total_size : List Packet → ℕ
total_size [] = 0
total_size (p ∷ ps) = length p.payload + total_size ps

unfoldable pub combined : List Packet → List ℕ
combined [] = []
combined (p ∷ ps) = p.payload ++ combined ps

-- The next packet leaves the queue: `#release`, `win.advance(1)` and the next id.
unfoldable pub release_next : Lane → Lane
release_next l =
    let r = release l.next_id l in
    record r { window = advance r.window (pos 1); next_id = next l.next_id }

unfoldable pub release_all : List Packet → Lane → Lane
release_all [] l = l
release_all (_ ∷ ps) l = release_all ps (release_next l)

-- The result of `#tryReassemble`: `null`, a command over the size limit, or a command.
pub data Reassembled : Type 0 where
  waiting : Reassembled
  oversized : Lane → Reassembled
  whole : Packet → Lane → Reassembled
  out_of_fuel : Reassembled

-- The command made of its fragments.
unfoldable pub joined : Packet → List Packet → Packet
joined start frags = record start {
  payload = combined frags;
  type_flagged = clear_flag fragmented start.type_flagged;
}

unfoldable pub close_command : Packet → Lane → Fragments → Reassembled
close_command start l missing = waiting
close_command start l (closed frags) =
    if ltb max_reassembled_size (total_size frags)
    then oversized (release_all frags l)
    else whole (joined start frags) (release_all frags l)
close_command start l no_fuel = out_of_fuel

-- `#tryReassemble`.
unfoldable pub try_reassemble : Packet → Lane → Reassembled
try_reassemble start l =
    if has_flag fragmented start
    then close_command start l (collect (receive_packet_window_size + 1) l.next_id false l.queue)
    else whole start (release_next l)

-- `#tryDecompress`: the packet as it is passed on, or `none` where it is dropped.
unfoldable pub try_decompress : Packet → Option Packet
try_decompress p =
    if has_flag compressed p
    then elim (decompress p.payload) [
      | Quicklz.ok bytes ↦
          some (record p { payload = bytes; type_flagged = clear_flag compressed p.type_flagged })
      | Quicklz.err _ ↦ none
    ]
    else some p

-- What the loop of `#handlePacketQueue` has done: the queue after it, and the packets that were
-- handed to `onPacket`, in order.
abbrev pub Drained : Type 0
Drained = Option (Lane × List Packet)

abbrev pub deliver : Option Packet → Drained → Drained
deliver none r = r
deliver (some p) none = none
deliver (some p) (some (l, out)) = some (l, p ∷ out)

-- The loop of `#handlePacketQueue`; `none` means that the fuel ran out.
unfoldable pub drain : ℕ → Lane → Drained
drain zero l = none
drain (suc fuel) l = elim (lookup l.next_id l.queue) [
  | none ↦ some (l, [])
  | some p ↦ elim (try_reassemble p l) [
    | waiting ↦ some (l, [])
    | oversized l' ↦ drain fuel l'
    | whole command l' ↦ deliver (try_decompress command) (drain fuel l')
    | out_of_fuel ↦ none
  ]
]

-- `#handlePacketQueue` for a command packet.
unfoldable pub handle_packet_queue : Packet → Lane → Drained
handle_packet_queue p l = let held = hold p l in drain (suc (length held.queue)) held

-- `needed` of `#handleCommandWindowAndAck`, over the rounds left.
unfoldable pub needed_from : ℕ → ℕ → List (ℕ × Packet) → ℕ
needed_from zero needed queue = needed
needed_from (suc rounds) needed queue =
    let further = needed_from rounds (next needed) queue in
    if has needed queue then further else needed

-- `held` of `#handleCommandWindowAndAck`: the bytes that a packet with this id would replace.
unfoldable pub held_bytes : ℕ → List (ℕ × Packet) → ℕ
held_bytes id queue = elim (lookup id queue) [ none ↦ 0 | some p ↦ length p.payload ]

-- Whether a packet is acknowledged and whether it is taken.
pub record Admission : Type 0 where
  pub acknowledged : Bool
  pub taken : Bool

-- `#handleCommandWindowAndAck` for a command packet. `queuedBytes` counts at least the held bytes.
unfoldable pub admit : Packet → Lane → Admission
admit p l =
    let held = held_bytes p.id l.queue in
    let needed = needed_from (length l.queue) l.next_id l.queue in
    if not (is_in_window l.window p.id)
    then record { acknowledged = is_old_packet l.window p.id; taken = false }
    else if not (p.id == needed) && ltb max_queued_bytes (l.queued_bytes - held + length p.payload)
    then record { acknowledged = false; taken = false }
    else record { acknowledged = true; taken = true }

-- A command packet that decrypted: the two calls at the end of `#handleRawPacket`.
unfoldable pub receive : Packet → Lane → Drained
receive p l =
    let drained = handle_packet_queue p l in if (admit p l).taken then drained else some (l, [])
