-- ===== src/Transport/Send/Split.antt =====
-- src/client/transport/handler.ts, `sendPacket` and `#sendSplitPacket`: the pieces of a payload.
use Prim.Native.Nat.{bit_or}
use teamspeak_js.Common.{
  ℕ, zero, suc, ◌+◌, ◌-◌, ◌*◌, ◌≤◌, ◌<◌, min, ◌≡◌, ◌≢◌, refl, sym, ◌∙◌, Bool, true, false, not,
  ◌==◌, if◌then◌else◌, ltb, inl, inr, List, [], ◌∷◌, ◌++◌, append-nil, length, take, drop, All,
  some, arith, Bool-cases, ==_iff, length-take, length-drop, take-append-drop, drop-drop, take_all,
  lt→ltb, le→ltb-false, ==-false→ne, ==-false, ltb→lt, ltb-false→le,
}
use mathlib.Core.Path.{ap₂}
use teamspeak_js.Transport.Packet.{Packet, init1, voice, voice_whisper, fragmented, has_flag}
use teamspeak_js.Transport.Cipher.{Cipher}
use teamspeak_js.Transport.Receive.{combined}
use teamspeak_js.Transport.Send.{
  Sender, max_piece, piece_flags, send_packet_raw, split_from, send_split_packet, send_packet,
}
use teamspeak_js.Transport.Send.Piece.{
  Sends, Sends-append, piece, piece-IsPacket, send_packet_raw-Sends,
}
use teamspeak_js.Transport.Send.Number.{IsAt, identity}

-- The end of a command in several packets: only the last has the fragmented flag.
abbrev pub Closed : List Packet → Type 0
Closed [] = ⊥
Closed (p ∷ []) = has_flag fragmented p ≡ true
Closed (p ∷ q ∷ ps) = (has_flag fragmented p ≡ false) × Closed (q ∷ ps)

-- A command in one packet has no flag; in several, the first and the last have it.
abbrev pub Framed : List Packet → Type 0
Framed [] = ⊥
Framed (p ∷ []) = has_flag fragmented p ≡ false
Framed (p ∷ q ∷ ps) = (has_flag fragmented p ≡ true) × Closed (q ∷ ps)

abbrev FramedFrom : Bool → List Packet → Type 0
FramedFrom true = Framed
FramedFrom false = Closed

-- The packets are numbers `n`, `n + 1` and so on of their type.
abbrev pub NumberedFrom : ℕ → List Packet → Type 0
NumberedFrom n [] = Unit
NumberedFrom n (p ∷ ps) = (identity n ≡ (p.id, p.generation_id)) × NumberedFrom (n + 1) ps

abbrev pub IsPiece : Packet → Type 0
IsPiece p = length p.payload ≤ max_piece

-- Whether a piece carries the fragmented flag.
frag_of : Bool → Bool → Bool
frag_of first last = if first then not last else last

frag_of_last :
    (first : Bool) (p : Packet)
    → has_flag fragmented p ≡ frag_of first true
    → FramedFrom first (p ∷ [])
unfolding frag_of
frag_of_last true p h = h
frag_of_last false p h = h

frag_of_more :
    (first : Bool) (p : Packet) (ps : List Packet)
    → has_flag fragmented p ≡ frag_of first false
    → Closed ps
    → FramedFrom first (p ∷ ps)
unfolding frag_of
frag_of_more first p [] h closed = absurd closed
frag_of_more true p (q ∷ ps) h closed = (h, closed)
frag_of_more false p (q ∷ ps) h closed = (h, closed)

piece_flags_lem :
    (first last : Bool) (flags : ℕ)
    → piece_flags first last flags ≡ (if frag_of first last then bit_or flags fragmented else flags)
unfolding frag_of
piece_flags_lem true true flags = refl
piece_flags_lem true false flags = refl
piece_flags_lem false true flags = refl
piece_flags_lem false false flags = refl

module _ (crypt : Cipher) (dummy : Bool) (now : ℕ) (p_type k : ℕ) (type_lt : p_type < 9)
    (k_lt : k < 8) (counts : p_type ≢ init1) (payload : List ℕ) where
  -- The packets from `s` to `s'` carry the payload from `at` on.
  abbrev Carries : Bool → ℕ → ℕ → Sender → Sender → Type 0
  Carries first at n s s' =
      (ps : List Packet) × Sends crypt dummy p_type n s ps s'
      × NumberedFrom n ps
      × (combined ps ≡ drop at payload)
      × All IsPiece ps
      × FramedFrom first ps

  -- One round of the loop.
  module _ (first : Bool) (at n : ℕ) (s : Sender) (is_open : s.is_open ≡ true)
      (numbered : IsAt p_type n s) (before_end : at < length payload) where
    block_size : ℕ
    block_size = min (length payload - at) max_piece

    round : Bool → Sender
    unfolding block_size
    round last =
        send_packet_raw crypt now p_type (take block_size (drop at payload))
          (piece_flags first last (k * 32)) dummy s

    one_piece :
        (last : Bool)
        → (p : Packet) × Sends crypt dummy p_type n s (p ∷ []) (round last)
          × (identity n ≡ (p.id, p.generation_id))
          × (p.payload ≡ take block_size (drop at payload))
          × (has_flag fragmented p ≡ frag_of first last)
    unfolding round
    one_piece last =
        let part = take block_size (drop at payload) in
        let frag = frag_of first last in
        let p = piece crypt dummy now p_type k type_lt k_lt part frag n s in
        let (is, bytes, flag) =
          piece-IsPacket crypt dummy now p_type k type_lt k_lt part frag n s in
        (
          p,
          rw (piece_flags_lem first last (k * 32)) (
              send_packet_raw-Sends crypt dummy now p_type k type_lt k_lt part frag n s counts
                is_open numbered),
          is,
          bytes,
          flag,
        )

    part_small : length (take block_size (drop at payload)) ≤ max_piece
    unfolding block_size
    part_small = omega (arith, length-take (min (length payload - at) max_piece) (drop at payload))

    last_round : at + block_size ≡ length payload → Carries first at n s (round true)
    unfolding combined
    last_round end =
        let (p, sent, is, bytes, flag) = one_piece true in
        (
          p ∷ [],
          sent,
          (is, tt),
          append-nil p.payload
              ∙ bytes
              ∙ take_all block_size (drop at payload) (omega (arith, length-drop at payload)),
          (rw bytes part_small, tt),
          frag_of_last first p flag,
        )

    more_rounds :
        (s' : Sender)
        → Carries false (at + block_size) (n + 1) (round false) s'
        → Carries first at n s s'
    unfolding combined
    more_rounds s' (ps, more, numbers, rest, small, closed) =
        let (p, sent, is, bytes, flag) = one_piece false in
        (
          p ∷ ps,
          Sends-append crypt dummy p sent more,
          (is, numbers),
          ap₂ ◌++◌ bytes (rest ∙ sym (drop-drop at block_size payload))
              ∙ take-append-drop block_size (drop at payload),
          (rw bytes part_small, small),
          frag_of_more first p ps flag closed,
        )

    round_open : (last : Bool) → ((round last).is_open ≡ true) × IsAt p_type (n + 1) (round last)
    round_open last = let (p, sent, _, _, _) = one_piece last in (sent.open_is, sent.next_is)

    split_from-round :
        (fuel : ℕ) (last : Bool)
        → (at + block_size == length payload) ≡ last
        → split_from crypt (suc fuel) now p_type payload (k * 32) dummy at first s
          ≡ split_from crypt fuel now p_type payload
              (k * 32)
              dummy
              (at + block_size)
              false
              (round last)
    unfolding split_from round block_size
    split_from-round fuel last e = rw (lt→ltb at (length payload) before_end, e) refl

  split_from_end :
      (fuel : ℕ) (first : Bool) (at : ℕ) (s : Sender)
      → length payload ≤ at
      → split_from crypt (suc fuel) now p_type payload (k * 32) dummy at first s ≡ some s
  unfolding split_from
  split_from_end fuel first at s h = rw (le→ltb-false at (length payload) h) refl

  -- With more fuel than bytes are left the loop ends, and the packets carry what is left.
  split_from-Carries :
      (fuel : ℕ) (first : Bool) (at n : ℕ) (s : Sender)
      → s.is_open ≡ true
      → IsAt p_type n s
      → at < length payload
      → length payload - at < fuel
      → (s' : Sender) × (split_from crypt fuel now p_type payload (k * 32) dummy at first s
          ≡ some s')
        × Carries first at n s s'
  split_from-Carries zero first at n s is_open numbered before fuel_lt = absurd (omega arith)
  split_from-Carries (suc zero) first at n s is_open numbered before fuel_lt = absurd (omega arith)
  split_from-Carries (suc (suc fuel)) first at n s is_open numbered before fuel_lt =
      elim (Bool-cases (at + size == length payload)) [
        | inl last ↦ (
          after true,
          split_from-round first at n s is_open numbered before (suc fuel) true last
              ∙ split_from_end fuel false (at + size) (after true)
                  (omega (arith, (==_iff _ _).0 last)),
          last_round first at n s is_open numbered before ((==_iff _ _).0 last),
        )
        | inr more ↦
            let (is_open', numbered') = round_open first at n s is_open numbered before false in
            let (s', ends, carries) =
              split_from-Carries (suc fuel) false (at + size) (n + 1) (after false) is_open'
                numbered' (unfold block_size in omega (arith, ==-false→ne _ _ more))
                (unfold block_size in omega arith) in
            (
              s',
              split_from-round first at n s is_open numbered before (suc fuel) false more ∙ ends,
              more_rounds first at n s is_open numbered before s' carries,
            )
      ]
    where
      size : ℕ
      size = block_size first at n s is_open numbered before

      after : Bool → Sender
      after = round first at n s is_open numbered before

-- On an open socket `sendPacket` writes packets that carry the payload, all of it and in order: none holds more than
-- 487 bytes, they are numbered one after another from the next number of their type on, and they
-- are framed, one by its missing flag, several by the flags of the first and the last. This holds
-- for every type but Init1 and voice, and for the flags other than the fragmented one.
pub send_packet-Sends :
    (crypt : Cipher) (now p_type k n : ℕ) (payload : List ℕ) (s : Sender)
    → p_type < 8
    → k < 8
    → p_type ≢ voice
    → p_type ≢ voice_whisper
    → s.is_open ≡ true
    → IsAt p_type n s
    → (s' : Sender) × (send_packet crypt now p_type payload (k * 32) s ≡ some s')
      × (ps : List Packet) × Sends crypt (not crypt.crypto_init_complete) p_type n s ps s'
      × NumberedFrom n ps
      × (combined ps ≡ payload)
      × All IsPiece ps
      × Framed ps
unfolding send_packet send_split_packet
send_packet-Sends crypt now p_type k n payload s type_lt k_lt not_voice not_whisper is_open
      numbered =
    let dummy = not crypt.crypto_init_complete in
    let lt : p_type < 9 = omega arith in
    let counts : p_type ≢ init1 = λ e. omega arith in
    elim (Bool-cases (ltb max_piece (length payload))) [
      | inl large ↦
          let (s', ends, carries) =
            split_from-Carries crypt dummy now p_type k lt k_lt counts payload (length payload + 1)
              true 0 n s is_open numbered (omega (arith, ltb→lt _ _ large)) (omega arith) in
          let (ps, sent, numbers, all, small, framed) = carries in
          rw (large, ==-false p_type voice not_voice, ==-false p_type voice_whisper not_whisper)
            (s', ends, ps, sent, numbers, all, small, framed)
      | inr small ↦
          let p = piece crypt dummy now p_type k lt k_lt payload false n s in
          let (is, bytes, flag) =
            piece-IsPacket crypt dummy now p_type k lt k_lt payload false n s in
          rw small (
            send_packet_raw crypt now p_type payload (k * 32) dummy s,
            refl,
            p ∷ [],
            send_packet_raw-Sends crypt dummy now p_type k lt k_lt payload false n s counts is_open
                numbered,
            (is, tt),
            unfold combined in append-nil p.payload ∙ bytes,
            (rw bytes (ltb-false→le _ _ small), tt),
            flag,
          )
    ]
