-- ===== src/Transport/Send/Piece.antt =====
-- src/client/transport/handler.ts, `#sendPacketRaw`: the packet and the datagram of one call.
use Prim.Native.Nat.{bit_and, bit_or}
use teamspeak_js.Common.{
  ℕ, ◌+◌, ◌*◌, ◌<◌, ◌≡◌, ◌≢◌, refl, sym, ap, ◌∙◌, Bool, true, not, ◌==◌, if◌then◌else◌, List, [],
  ◌∷◌, ◌++◌, map, append_assoc, length, arith,
}
use mathlib.Core.Path.{subst}
use teamspeak_js.Transport.Packet.{
  Packet, init1, fragmented, unencrypted, has_flag, packet_type, packet_flags,
}
use teamspeak_js.Transport.Cipher.{Cipher}
use teamspeak_js.Transport.Send.{
  Sender, next_packet_identity, track_resend, write, datagram, packet_sent, send_numbered,
  send_packet_raw,
}
use teamspeak_js.Transport.Send.Flags.{flagged, bit_facts}
use teamspeak_js.Transport.Send.Number.{
  IsAt, identity, next_packet_identity-IsAt, next_packet_identity_keeps,
}

module _ (crypt : Cipher) (dummy : Bool) where
  -- The datagram of a packet, as it is sent and as it is sent again.
  abbrev pub wire : Packet → List ℕ
  wire p = datagram crypt (packet_type p) p dummy (has_flag unencrypted p)

  -- From `s` to `s'` the packets `ps` were written, the first of them number `n` of its type.
  pub record Sends (p_type n : ℕ) (s : Sender) (ps : List Packet) (s' : Sender) : Type 0 where
    pub written_is : s'.written ≡ s.written ++ map wire ps
    pub open_is : s'.is_open ≡ true
    pub next_is : IsAt p_type (n + length ps) s'

  module _ (now : ℕ) (p_type k : ℕ) (type_lt : p_type < 9) (k_lt : k < 8) where
    module _ (plain : Bool) (p : Packet) (s : Sender) where
      send_numbered_keeps :
          s.is_open ≡ true
          → ((send_numbered crypt now p_type dummy plain p s).written
              ≡ s.written ++ datagram crypt p_type p dummy plain ∷ [])
            × ((send_numbered crypt now p_type dummy plain p s).is_open ≡ true)
            × ((send_numbered crypt now p_type dummy plain p s).packet_counter ≡ s.packet_counter)
            × ((send_numbered crypt now p_type dummy plain p s).generation_counter
                ≡ s.generation_counter)
      unfolding send_numbered write track_resend
      send_numbered_keeps h = ground arith

    -- One packet of the type, number `n`, with these bytes and this fragmented flag.
    abbrev pub IsPacket : ℕ → List ℕ → Bool → Packet → Type 0
    IsPacket n payload frag p =
        (identity n ≡ (p.id, p.generation_id))
        × (p.payload ≡ payload)
        × (has_flag fragmented p ≡ frag)

    module _ (payload : List ℕ) (frag : Bool) (n : ℕ) (s : Sender) where
      pub piece : Packet
      piece = packet_sent s.client_id p_type payload (flagged p_type k frag) (identity n)

      piece-packet_type : packet_type piece ≡ p_type
      unfolding packet_type piece
      piece-packet_type = (bit_facts p_type k frag type_lt k_lt).0

      piece-unencrypted :
          has_flag unencrypted piece ≡ not (bit_and (flagged p_type k frag) unencrypted == 0)
      unfolding has_flag packet_flags piece
      piece-unencrypted = (bit_facts p_type k frag type_lt k_lt).1

      pub piece-IsPacket : IsPacket n payload frag piece
      unfolding has_flag packet_flags piece
      piece-IsPacket = (refl, refl, (bit_facts p_type k frag type_lt k_lt).2)

      plain : Bool
      plain = not (bit_and (flagged p_type k frag) unencrypted == 0)

      numbered-Sends :
          (s1 : Sender)
          → s1.written ≡ s.written
          → s1.is_open ≡ true
          → IsAt p_type (n + 1) s1
          → Sends p_type n s (piece ∷ []) (send_numbered crypt now p_type dummy plain piece s1)
      unfolding plain
      numbered-Sends s1 same_written is_open at =
          let (written_is, open_is, ids, gens) = send_numbered_keeps plain piece s1 is_open in
          record {
            written_is =
                rw (piece-packet_type, piece-unencrypted)
                  (written_is
                    ∙ ap (λ w. w ++ datagram crypt p_type piece dummy plain ∷ []) same_written);
            open_is = open_is;
            next_is = record {
              id_at = ap (λ c. c p_type) ids ∙ at.id_at;
              generation_at = ap (λ c. c p_type) gens ∙ at.generation_at;
            };
          }

      -- `#sendPacketRaw` writes that packet.
      pub send_packet_raw-Sends :
          p_type ≢ init1
          → s.is_open ≡ true
          → IsAt p_type n s
          → Sends p_type n s (piece ∷ []) (
              send_packet_raw crypt now p_type payload
                (if frag then bit_or (k * 32) fragmented else k * 32)
                dummy
                s)
      unfolding send_packet_raw flagged plain piece
      send_packet_raw-Sends counts is_open at =
          let (is, next_is, _) = next_packet_identity-IsAt p_type n s counts at in
          let (same_written, same_open, _) = next_packet_identity_keeps p_type s in
          let s1 = (next_packet_identity p_type s).1 in
          subst
            (λ i. Sends p_type n s (piece ∷ []) (
              send_numbered crypt now p_type dummy plain
                (packet_sent s.client_id p_type payload (flagged p_type k frag) i) s1))
            (sym is) (numbered-Sends s1 same_written (same_open ∙ is_open) next_is)

  pub Sends-append :
      {p_type n : ℕ} {s s1 s2 : Sender} {ps : List Packet} (p : Packet)
      → Sends p_type n s (p ∷ []) s1
      → Sends p_type (n + 1) s1 ps s2
      → Sends p_type n s (p ∷ ps) s2
  Sends-append {p_type} {n} {s} {s1} {s2} {ps} p one more = record {
    written_is =
        more.written_is
        ∙ ap (λ w. w ++ map wire ps) one.written_is
        ∙ append_assoc s.written (wire p ∷ []) (map wire ps);
    open_is = more.open_is;
    next_is = subst (λ m. IsAt p_type m s2) (omega arith) more.next_is;
  }
