-- ===== src/Transport/Receive/Delivery.antt =====
-- src/client/transport/handler.ts: what `#handlePacketQueue` passes on of a stream.
use native.Mathlib.Nat.{add-zero}
use teamspeak_js.Common.{
  ℕ, zero, suc, ◌+◌, ◌%◌, ◌≤◌, ◌<◌, ◌≡◌, refl, ◌∙◌, ap, ltb, Bool-cases, inl, inr, Option-cases, [],
  length, Option, none, some, arith,
}
use teamspeak_js.Common.Maps.{lookup}
use teamspeak_js.Transport.Packet.{Packet, fragmented, has_flag}
use teamspeak_js.Transport.Receive.{
  Lane, release_next, release_all, Fragments, missing, closed, no_fuel, Reassembled, waiting,
  oversized, whole, out_of_fuel, close_command, try_reassemble, total_size, max_reassembled_size,
  Drained, deliver, drain, try_decompress, receive_packet_window_size,
}
use teamspeak_js.Transport.Receive.Stream.{
  slice, Spans, command_at, Commands, finish, then_command, Holds,
}
use teamspeak_js.Transport.Receive.Reassembly.{
  HasRun, Starts, lookup_at, release_next-Holds, length-release_next, lookup-release_next,
  collect_command,
}

-- One round of the loop.
pub drain_step :
    (fuel : ℕ) (l : Lane) (p : Packet) (r : Reassembled)
    → lookup l.next_id l.queue ≡ some p
    → try_reassemble p l ≡ r
    → drain (suc fuel) l ≡ elim r [
      | waiting ↦ some (l, [])
      | oversized l' ↦ drain fuel l'
      | whole command l' ↦ deliver (try_decompress command) (drain fuel l')
      | out_of_fuel ↦ none
    ]
unfolding drain
drain_step fuel l p r here e = rw (here, e, drain)

pub drain_gone :
    (fuel : ℕ) (l : Lane) → lookup l.next_id l.queue ≡ none → drain (suc fuel) l ≡ some (l, [])
unfolding drain
drain_gone fuel l gone = rw (gone, drain)

module _ (stream : ℕ → Packet) where
  HasRun-release_next :
      (n : ℕ) (l : Lane) (h : Holds stream n l) (c m : ℕ)
      → lookup (n % 0x10000) l.queue ≡ some (stream n)
      → n < m
      → m ≤ n + receive_packet_window_size
      → HasRun stream l m c
      → HasRun stream (release_next l) m c
  HasRun-release_next n l h zero m first lt le run = tt
  HasRun-release_next n l h (suc c) m first lt le (here, run) =
      let inside = (lookup_at stream n l h m (stream m) (omega arith) le here).1 in
      (
        lookup-release_next stream n l h (stream n) first m lt inside ∙ here,
        HasRun-release_next n l h c (m + 1) first (omega arith) (omega arith) run,
      )

  -- Releasing a run from the front leaves the queue expecting the packet behind it.
  release_all-Holds :
      (c n : ℕ) (l : Lane)
      → Holds stream n l
      → HasRun stream l n c
      → Holds stream (n + c) (release_all (slice stream n c) l)
        × (length (release_all (slice stream n c) l).queue + c ≡ length l.queue)
  unfolding release_all
  release_all-Holds zero n l h run = (rw add-zero h, omega arith)
  release_all-Holds (suc c) n l h (here, run) =
      let l' = release_next l in
      let shorter = length-release_next stream n l h (stream n) here in
      let (holds, len) =
        release_all-Holds c (n + 1) l' (release_next-Holds stream n l h (stream n) here)
          (HasRun-release_next n l h c (n + 1) here (omega arith) (omega arith) run) in
      let e : n + 1 + c ≡ n + suc c = omega arith in (rw (← e) holds, omega arith)

  -- What `#tryReassemble` does at packet `n`: it takes the whole command there off the queue, or the
  -- queue does not hold all of it.
  abbrev pub Reassembles : ℕ → Lane → Reassembled → Type 0
  Reassembles n l waiting = (c : ℕ) → Spans stream n c → HasRun stream l n (suc c) → ⊥
  Reassembles n l (oversized l') =
      (c : ℕ) × Spans stream n c
      × (command_at stream n c ≡ none)
      × Holds stream (n + suc c) l'
      × (length l'.queue < length l.queue)
  Reassembles n l (whole p l') =
      (c : ℕ) × Spans stream n c
      × (command_at stream n c ≡ some p)
      × Holds stream (n + suc c) l'
      × (length l'.queue < length l.queue)
  Reassembles n l out_of_fuel = ⊥

  module _ (n : ℕ) (l : Lane) (h : Holds stream n l)
      (here : lookup (n % 0x10000) l.queue ≡ some (stream n)) where
    close_command-Reassembles :
        (r : Fragments) → Starts stream l n r → Reassembles n l (close_command (stream n) l r)
    unfolding close_command
    close_command-Reassembles missing u = u
    close_command-Reassembles (closed frags) (c, is, spans, run) =
        let (holds, len) = release_all-Holds (suc (suc c)) n l h run in
        rw is
          (elim (Bool-cases
            (ltb max_reassembled_size (total_size (slice stream n (suc (suc c)))))) [
              | inl large ↦ rw large (suc c, spans, rw large refl, holds, omega arith)
              | inr fits ↦ rw fits (suc c, spans, rw fits refl, holds, omega arith)
            ])
    close_command-Reassembles no_fuel u = u

    pub try_reassemble-Reassembles : Reassembles n l (try_reassemble (stream n) l)
    unfolding try_reassemble
    try_reassemble-Reassembles = elim (Bool-cases (has_flag fragmented (stream n))) [
      | inl flag ↦ rw flag (close_command-Reassembles _ (collect_command stream n l h flag here))
      | inr no_flag ↦ rw no_flag (
        0,
        no_flag,
        refl,
        release_next-Holds stream n l h (stream n) here,
        omega (arith, length-release_next stream n l h (stream n) here),
      )
    ]

  -- The queue does not hold all packets of the command at packet `n`.
  abbrev pub Waits : ℕ → Lane → Type 0
  Waits n l = (c : ℕ) → Spans stream n c → HasRun stream l n (suc c) → ⊥

  -- From packet `n` on the commands up to some packet were passed on, and the queue waits there.
  abbrev pub Delivers : ℕ → Drained → Type 0
  Delivers n none = ⊥
  Delivers n (some (l, out)) = (m : ℕ) × Commands stream n m out × Holds stream m l × Waits m l

  module _ (n c : ℕ) (spans : Spans stream n c) where
    dropped-Delivers :
        (r : Drained) → command_at stream n c ≡ none → Delivers (n + suc c) r → Delivers n r
    dropped-Delivers none gone u = u
    dropped-Delivers (some (l, out)) gone (m, commands, holds, waits) =
        (m, rw gone at (then_command c spans commands), holds, waits)

    passed-Delivers :
        (r : Drained) (p : Packet) (q : Option Packet)
        → command_at stream n c ≡ some p
        → try_decompress p ≡ q
        → Delivers (n + suc c) r
        → Delivers n (deliver q r)
    passed-Delivers none p none is e u = u
    passed-Delivers none p (some q) is e u = u
    passed-Delivers (some (l, out)) p none is e (m, commands, holds, waits) =
        (m, rw (is, e) at (then_command c spans commands), holds, waits)
    passed-Delivers (some (l, out)) p (some q) is e (m, commands, holds, waits) =
        (m, rw (is, e) at (then_command c spans commands), holds, waits)

  -- With more fuel than the queue has packets the loop ends. It passes on the commands of the stream
  -- from packet `n` on, in order, and stops only where the queue does not hold a whole command.
  pub drain-Delivers :
      (fuel n : ℕ) (l : Lane) → Holds stream n l → length l.queue < fuel → Delivers n (drain fuel l)
  drain-Delivers zero n l h lt = absurd (omega arith)
  drain-Delivers (suc fuel) n l h lt = elim (Option-cases (lookup (n % 0x10000) l.queue)) [
    | inl gone ↦
        rw (drain_gone fuel l (ap (λ i. lookup i l.queue) h.expects ∙ gone))
          (n, finish, h, λ c spans run. cc (gone, run.0))
    | inr (p, here) ↦
        let is = (lookup_at stream n l h n p (omega arith) (omega arith) here).0 in
        let here' = here ∙ ap some is in
        step here' (drain-Delivers fuel) (try_reassemble (stream n) l) refl
          (try_reassemble-Reassembles n l h here')
  ]
    where
      at_front :
          lookup (n % 0x10000) l.queue ≡ some (stream n)
          → lookup l.next_id l.queue ≡ some (stream n)
      at_front here = ap (λ i. lookup i l.queue) h.expects ∙ here

      step :
          lookup (n % 0x10000) l.queue ≡ some (stream n)
          → ((n : ℕ) (l : Lane)
              → Holds stream n l
              → length l.queue < fuel
              → Delivers n (drain fuel l))
          → (r : Reassembled) → try_reassemble (stream n) l ≡ r
          → Reassembles n l r
          → Delivers n (drain (suc fuel) l)
      step here rest waiting e u =
          rw (drain_step fuel l (stream n) waiting (at_front here) e) (n, finish, h, u)
      step here rest (oversized l') e (c, spans, gone, holds, shorter) =
          rw (drain_step fuel l (stream n) (oversized l') (at_front here) e)
            (dropped-Delivers n c spans _ gone (rest (n + suc c) l' holds (omega arith)))
      step here rest (whole p l') e (c, spans, is, holds, shorter) =
          rw (drain_step fuel l (stream n) (whole p l') (at_front here) e)
            (passed-Delivers n c spans _ p _ is refl (rest (n + suc c) l' holds (omega arith)))
      step here rest out_of_fuel e u = absurd u
