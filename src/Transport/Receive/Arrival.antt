-- ===== src/Transport/Receive/Arrival.antt =====
-- src/client/transport/handler.ts: packets of a stream that arrive in any order, late, early or
-- again.
use mathlib.Core.Path.{subst, subst₂}
use teamspeak_js.Common.{
  ℕ, ◌+◌, ◌%◌, ◌≤◌, ◌<◌, ◌≡◌, ◌≢◌, refl, sym, ◌∙◌, ap, true, if◌then◌else◌, ◌==◌, ==_iff,
  ==-false→ne, Bool-cases, inl, inr, Option-cases, List, [], ◌++◌, Option, none, some, arith,
}
use teamspeak_js.Common.Maps.{
  lookup, lookup-insert, lookup-delete_ne, delete-IsMap, insert-IsMap, IsMap, lookup-Lacks,
}
use teamspeak_js.Transport.Packet.{Packet}
use teamspeak_js.Transport.Window.{is_in_window}
use teamspeak_js.Transport.Window.Place.{position}
use teamspeak_js.Transport.Receive.{
  Lane, release, hold, admit, handle_packet_queue, receive, receive_packet_window_size,
  try_decompress,
}
use teamspeak_js.Transport.Receive.Stream.{
  window_at, limit, IsNumbered, Commands, finish, then_command, passed, emit, command_at, Holds,
}
use teamspeak_js.Transport.Receive.Reassembly.{release-found}
use teamspeak_js.Transport.Receive.Delivery.{Waits, Delivers, drain-Delivers}

pub release-gone : (id : ℕ) (l : Lane) → lookup id l.queue ≡ none → release id l ≡ l
unfolding release
release-gone id l e = rw (e, release)

-- A release keeps the other packets, and what is not in the queue.
record Released (id : ℕ) (l r : Lane) : Type 0 where
  same_next : r.next_id ≡ l.next_id
  same_window : r.window ≡ l.window
  is_map : IsMap r.queue
  others : (j : ℕ) → id ≢ j → lookup j r.queue ≡ lookup j l.queue

release-Released : (id : ℕ) (l : Lane) → IsMap l.queue → Released id l (release id l)
release-Released id l m = elim (Option-cases (lookup id l.queue)) [
  | inl gone ↦
      rw (release-gone id l gone)
        (record { same_next = refl; same_window = refl; is_map = m; others = λ j ne. refl })
  | inr (q, here) ↦ rw (release-found id l q here) (record {
    same_next = refl;
    same_window = refl;
    is_map = delete-IsMap id l.queue m;
    others = λ j ne. lookup-delete_ne id j l.queue ne;
  })
]

lookup-hold :
    (p : Packet) (l : Lane) (j : ℕ)
    → IsMap l.queue
    → lookup j (hold p l).queue ≡ (if p.id == j then some p else lookup j l.queue)
unfolding hold
lookup-hold p l j m = elim (Bool-cases (p.id == j)) [
  | inl same ↦ rw (lookup-insert, same) refl
  | inr other ↦
      rw (lookup-insert, other) ((release-Released p.id l m).others j (==-false→ne p.id j other))
]

taken-in_window :
    (p : Packet) (l : Lane) → (admit p l).taken ≡ true → is_in_window l.window p.id ≡ true
unfolding admit
taken-in_window p l e = ground arith

in_window_at :
    (n m : ℕ)
    → m < n + 0x10000
    → n + receive_packet_window_size ≤ m + 0x10000
    → is_in_window (window_at n) (m % 0x10000) ≡ true
    → (n ≤ m) × (m < n + receive_packet_window_size)
unfolding is_in_window
in_window_at n m near recent e = ground arith

module _ (stream : ℕ → Packet) (numbered : IsNumbered stream) where
  -- Holding a packet from the window keeps the queue a queue of the stream's packets.
  hold-Holds :
      (n m : ℕ) (l : Lane)
      → Holds stream n l
      → n ≤ m
      → m < n + receive_packet_window_size
      → m < limit
      → Holds stream n (hold (stream m) l)
  unfolding hold
  hold-Holds n m l h le lt lim =
      let r = release-Released (stream m).id l h.is_map in
      record {
        expects = r.same_next ∙ h.expects;
        window_is = r.same_window ∙ h.window_is;
        in_limit = h.in_limit;
        is_map = insert-IsMap (stream m).id (stream m) (release (stream m).id l).queue r.is_map;
        held = λ id p e. found id p (sym (lookup-hold (stream m) l id h.is_map) ∙ e);
      }
    where
      found :
          (id : ℕ) (p : Packet)
          → (if (stream m).id == id then some (stream m) else lookup id l.queue) ≡ some p
          → (k : ℕ) × (n ≤ k)
            × (k < n + receive_packet_window_size)
            × (k < limit)
            × (id ≡ k % 0x10000)
            × (p ≡ stream k)
      found id p e = elim (Bool-cases ((stream m).id == id)) [
        | inl same ↦ (m, le, lt, lim, sym ((==_iff _ id).0 same) ∙ numbered m, cc (rw same at e))
        | inr other ↦ h.held id p (rw other at e)
      ]

  -- Only the packets of the window are taken, of those less than an id space away.
  taken_in_window :
      (n m : ℕ) (l : Lane)
      → Holds stream n l
      → m < n + 0x10000
      → n + receive_packet_window_size ≤ m + 0x10000
      → (admit (stream m) l).taken ≡ true
      → (n ≤ m) × (m < n + receive_packet_window_size)
  taken_in_window n m l h near recent e = in_window_at n m near recent (
      subst₂ (λ w id. is_in_window w id ≡ true) h.window_is (numbered m)
        (taken-in_window (stream m) l e))

  receive-Delivers :
      (n m : ℕ) (l : Lane)
      → Holds stream n l
      → Waits stream n l
      → m < limit
      → m < n + 0x10000
      → n + receive_packet_window_size ≤ m + 0x10000
      → Delivers stream n (receive (stream m) l)
  unfolding receive handle_packet_queue
  receive-Delivers n m l h waits lim near recent = elim (Bool-cases (admit (stream m) l).taken) [
    | inl taken ↦
        let (le, lt) = taken_in_window n m l h near recent taken in
        rw taken (
          drain-Delivers stream _ n (hold (stream m) l) (hold-Holds n m l h le lt lim)
            (omega arith))
    | inr refused ↦ rw refused (n, finish, h, waits)
  ]

-- The queue of a new handler: it expects packet 0.
abbrev pub start : Lane
start = record {
  queue = [];
  next_id = 0;
  window = record {
    modulus = 0x10000;
    receive_window = receive_packet_window_size;
    mapped_base_offset = 0;
    generation = 0;
  };
  queued_bytes = 0;
}

emit-append : (o : Option Packet) (a b : List Packet) → emit o (a ++ b) ≡ emit o a ++ b
emit-append none a b = refl
emit-append (some p) a b = go (try_decompress p)
  where
    go : (q : Option Packet) → passed q (a ++ b) ≡ passed q a ++ b
    go none = refl
    go (some q) = refl

-- The commands of one stretch of the stream and those of the next.
Commands-append :
    (stream : ℕ → Packet) {n m k : ℕ} {a b : List Packet}
    → Commands stream n m a
    → Commands stream m k b
    → Commands stream n k (a ++ b)
Commands-append stream finish d = d
Commands-append stream {n} {b = b} (then_command {out = out} c spans rest) d =
    subst (Commands stream n _) (emit-append (command_at stream n c) out b)
      (then_command c spans (Commands-append stream rest d))

position-window_at : (n : ℕ) → position (window_at n) ≡ n
position-window_at n = omega arith

module _ (stream : ℕ → Packet) where
  -- A connection so far: the queue, and all that was passed on. A packet that arrives is less than
  -- an id space past the next expected one, and not so old that its id means a new packet.
  pub data Session : Lane → List Packet → Type 0 where
    begin : Session start []
    arrival :
        {l l' : Lane} {out more : List Packet} (m : ℕ)
        → Session l out
        → m < limit
        → m < position l.window + 0x10000
        → position l.window + receive_packet_window_size ≤ m + 0x10000
        → receive (stream m) l ≡ some (l', more)
        → Session l' (out ++ more)

  module _ (numbered : IsNumbered stream) where
    start-Holds : Holds stream 0 start
    start-Holds = record {
      expects = refl;
      window_is = refl;
      in_limit = omega arith;
      is_map = tt;
      held = λ id p e. cc (sym (lookup-Lacks {V = Packet} id [] tt), e);
    }

    -- What has been passed on, whatever the order in which the packets arrived, are the commands of
    -- the stream from its first packet on, in order, each once; and the next one is not all there.
    pub Session-Commands :
        {l : Lane} {out : List Packet}
        → Session l out
        → (n : ℕ) × Commands stream 0 n out × Holds stream n l × Waits stream n l
    Session-Commands begin =
        (0, finish, start-Holds, λ c spans run. cc (sym (lookup-Lacks {V = Packet} 0 [] tt), run.0))
    Session-Commands (arrival {l} {l'} {out} {more} m session lim near recent e) =
        let (n, commands, holds, waits) = Session-Commands session in
        let at : position l.window ≡ n = ap position holds.window_is ∙ position-window_at n in
        let (k, further, holds', waits') =
          rw e at
            (receive-Delivers stream numbered n m l holds waits lim (omega arith) (omega arith)) in
        (k, Commands-append stream commands further, holds', waits')

    -- No packet makes the loops of the queue run out of fuel.
    pub Session-receive :
        {l : Lane} {out : List Packet} (m : ℕ)
        → Session l out
        → m < limit
        → m < position l.window + 0x10000
        → position l.window + receive_packet_window_size ≤ m + 0x10000
        → receive (stream m) l ≢ none
    Session-receive {l} m session lim near recent e =
        let (n, commands, holds, waits) = Session-Commands session in
        let at : position l.window ≡ n = ap position holds.window_is ∙ position-window_at n in
        rw e at (receive-Delivers stream numbered n m l holds waits lim (omega arith) (omega arith))
