-- ===== src/Transport/Send/Again.antt =====
-- src/client/transport/handler.ts, `#doResend`: the datagrams that are sent again.
use teamspeak_js.Common.{
  ℕ, ◌+◌, ◌∙◌, ◌≡◌, refl, sym, ap, Bool, true, false, Bool-cases, ltb, leb, not, if◌then◌else◌, inl,
  inr, List, [], ◌∷◌, ◌++◌, append_assoc, append-nil, length, length-append, arith,
}
use teamspeak_js.Transport.Packet.{packet_type, has_flag, unencrypted}
use teamspeak_js.Transport.Cipher.{Cipher}
use teamspeak_js.Transport.Send.{Sender, ResendPacket, do_resend, datagram, write}

-- Whether the time until the next sending of an entry has passed.
abbrev pub is_due : ℕ → ResendPacket → Bool
is_due now rp = leb (rp.last_send + rp.next_interval) now

-- The datagram of an entry: its packet under the key that it was first sent under.
abbrev pub same_again : Cipher → ResendPacket → List ℕ
same_again crypt rp =
    datagram crypt (packet_type rp.packet) rp.packet rp.dummy (has_flag unencrypted rp.packet)

-- The datagrams of the entries that are due, in order.
abbrev pub due_again : Cipher → ℕ → List (ℕ × ResendPacket) → List (List ℕ)
due_again crypt now [] = []
due_again crypt now ((key, rp) ∷ entries) =
    (if is_due now rp then same_again crypt rp ∷ [] else []) ++ due_again crypt now entries

-- A sender that sent datagrams again: an open socket was given them, and each was counted.
abbrev pub sent_again : List (List ℕ) → Sender → Sender
sent_again bytes s = record s {
  written = s.written ++ (if s.is_open then bytes else []);
  resends = s.resends + length bytes;
}

pub due_again_cons :
    (crypt : Cipher) (now key : ℕ) (rp : ResendPacket) (entries : List (ℕ × ResendPacket))
    → due_again crypt now ((0, rp) ∷ []) ++ due_again crypt now entries
      ≡ due_again crypt now ((key, rp) ∷ entries)
due_again_cons crypt now key rp entries = elim (Bool-cases (is_due now rp)) [
  | inl due ↦ rw due refl
  | inr early ↦ rw early refl
]

sender_eq :
    (s : Sender) {written written' : List (List ℕ)} {resends resends' : ℕ}
    → written ≡ written'
    → resends ≡ resends'
    → Path Sender
        (record s { written = written; resends = resends })
        (record s { written = written'; resends = resends' })
sender_eq s e f = rw (e, f) refl

pub sent_again-sent_again :
    (b c : List (List ℕ)) (s : Sender) → sent_again c (sent_again b s) ≡ sent_again (b ++ c) s
sent_again-sent_again b c s = elim (Bool-cases s.is_open) [
  | inl opened ↦
      sender_eq s (rw opened (append_assoc s.written b c)) (omega (arith, length-append b c))
  | inr shut ↦
      sender_eq s (rw shut (append_assoc s.written [] [])) (omega (arith, length-append b c))
]

-- A datagram written to an open socket, and a count that goes on either way.
write_one :
    (opened : Bool) (bytes : List ℕ) (s : Sender)
    → (if opened
        then record s { written = s.written ++ bytes ∷ []; resends = s.resends + 1 }
        else record s { resends = s.resends + 1 })
      ≡ record s {
        written = s.written ++ (if opened then bytes ∷ [] else []);
        resends = s.resends + 1;
      }
write_one true bytes s = refl
write_one false bytes s =
    ap (λ w. record s { written = w; resends = s.resends + 1 }) (sym (append-nil s.written))

none_of : (opened : Bool) → Path (List (List ℕ)) (if opened then [] else []) []
none_of true = refl
none_of false = refl

pub sent_again-nil : (s : Sender) → sent_again [] s ≡ s
sent_again-nil s =
    sender_eq s (ap (λ b. s.written ++ b) (none_of s.is_open) ∙ append-nil s.written) (omega arith)

due_not : (now at : ℕ) → ltb now at ≡ not (leb at now)
due_not now at = ground arith

pub do_resend-sent_again :
    (crypt : Cipher) (now : ℕ) (rp : ResendPacket) (s : Sender)
    → (do_resend crypt now rp s).1 ≡ sent_again (due_again crypt now ((0, rp) ∷ [])) s
unfolding do_resend write
do_resend-sent_again crypt now rp s = elim (Bool-cases (is_due now rp)) [
  | inl due ↦
      rw (due_not now (rp.last_send + rp.next_interval), due)
        (write_one s.is_open (same_again crypt rp) s)
  | inr early ↦ rw (due_not now (rp.last_send + rp.next_interval), early) (sym (sent_again-nil s))
]
