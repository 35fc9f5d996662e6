-- ===== src/Transport/Send/Resends.antt =====
-- src/client/transport/handler.ts, `#checkResends`, `#doResend` and the end of resending.
use teamspeak_js.Common.{
  ◌∙◌, sym, ap, ℕ, ◌+◌, ◌≤◌, ◌<◌, ◌≡◌, refl, false, Bool, Bool-cases, ltb, ltb→lt, ltb-false→le,
  inl, inr, List, [], ◌∷◌, map, any, All, arith,
}
use mathlib.Core.Path.{ap₂}
use teamspeak_js.Transport.Packet.{Packet}
use teamspeak_js.Transport.Cipher.{Cipher}
use teamspeak_js.Transport.Send.{
  Sender, ResendPacket, packet_timeout_ms, max_retry_interval_ms, do_resend, resend_each,
}
use teamspeak_js.Transport.Send.Again.{
  due_again, sent_again, sent_again-sent_again, sent_again-nil, do_resend-sent_again,
  due_again_cons,
}

-- The time until a packet is sent again is positive and at most a second.
abbrev pub IsTimed : ResendPacket → Type 0
IsTimed rp = (0 < rp.next_interval) × (rp.next_interval ≤ max_retry_interval_ms)

-- An entry whose packet has waited too long for its acknowledgement.
abbrev pub is_late : ℕ → ℕ × ResendPacket → Bool
is_late now (key, rp) = ltb (rp.first_send + packet_timeout_ms) now

-- An entry that is neither late nor due.
abbrev pub IsFresh : ℕ → ℕ × ResendPacket → Type 0
IsFresh now (key, rp) =
    IsTimed rp × (now < rp.last_send + rp.next_interval) × (now ≤ rp.first_send + packet_timeout_ms)

-- What of an entry never changes: its key, its packet, when it was first sent and under which key.
abbrev pub constant : ℕ × ResendPacket → ℕ × Packet × ℕ × Bool
constant (key, rp) = (key, rp.packet, rp.first_send, rp.dummy)

module _ (crypt : Cipher) (now : ℕ) where
  do_resend-IsFresh :
      (key : ℕ) (rp : ResendPacket) (s : Sender)
      → IsTimed rp
      → is_late now (key, rp) ≡ false
      → IsFresh now (key, (do_resend crypt now rp s).0)
        × (constant (key, (do_resend crypt now rp s).0) ≡ constant (key, rp))
  unfolding do_resend
  do_resend-IsFresh key rp s timed early =
      elim (Bool-cases (ltb now (rp.last_send + rp.next_interval))) [
        | inl waits ↦ rw waits (omega (arith, ltb→lt _ _ waits, ltb-false→le _ _ early), refl)
        | inr due ↦ rw due (omega (arith, ltb-false→le _ _ early), refl)
      ]

  -- The Boolean of a pass, and the entries where it is false.
  resend_each-Checked :
      (entries : List (ℕ × ResendPacket)) (s : Sender)
      → All (λ entry. IsTimed entry.1) entries
      → ((resend_each crypt now entries s).0 ≡ any (is_late now) entries)
        × ((resend_each crypt now entries s).0 ≡ false
            → All (IsFresh now) (resend_each crypt now entries s).1
              × (map constant (resend_each crypt now entries s).1 ≡ map constant entries))
  unfolding resend_each any
  resend_each-Checked [] s timed = (refl, λ _. (tt, refl))
  resend_each-Checked ((key, rp) ∷ entries) s (timed, more) =
      let (late_is, fresh) = resend_each-Checked entries (do_resend crypt now rp s).1 more in
      elim (Bool-cases (is_late now (key, rp))) [
        | inl late ↦ rw late (refl, λ e. cc e)
        | inr early ↦
            let (fresh_here, same) = do_resend-IsFresh key rp s timed early in
            rw early (
              late_is,
              λ e.
                  let (fresh_there, same_there) = fresh e in
                  ((fresh_here, fresh_there), ap₂ ◌∷◌ same same_there),
            )
      ]

  -- A pass over the packets that wait for an acknowledgement times out exactly when one of them is
  -- late.
  pub resend_each-is_late :
      (entries : List (ℕ × ResendPacket)) (s : Sender)
      → All (λ entry. IsTimed entry.1) entries
      → (resend_each crypt now entries s).0 ≡ any (is_late now) entries
  resend_each-is_late entries s timed = (resend_each-Checked entries s timed).0

  -- What such a pass leaves of the sender.
  resend_each-sent_again :
      (entries : List (ℕ × ResendPacket)) (s : Sender)
      → any (is_late now) entries ≡ false
      → (resend_each crypt now entries s).2 ≡ sent_again (due_again crypt now entries) s
  unfolding resend_each any
  resend_each-sent_again [] s early = sym (sent_again-nil s)
  resend_each-sent_again ((key, rp) ∷ entries) s early = elim (Bool-cases (is_late now (key, rp))) [
    | inl late ↦ cc (rw late at early)
    | inr in_time ↦ rw in_time (
        resend_each-sent_again entries (do_resend crypt now rp s).1 (rw in_time at early)
        ∙ ap (sent_again (due_again crypt now entries)) (do_resend-sent_again crypt now rp s)
        ∙ sent_again-sent_again (due_again crypt now ((0, rp) ∷ [])) (due_again crypt now entries) s
        ∙ ap (λ b. sent_again b s) (due_again_cons crypt now key rp entries))
  ]

  -- A pass in which no packet is late keeps every entry, and leaves each with a time for the next
  -- sending that is still to come and at most a second after the last. On an open socket it writes
  -- the datagrams of the entries that were due, in order and as they were first sent, and no others;
  -- it counts them, and leaves the rest of the sender as it was.
  pub resend_each-IsFresh :
      (entries : List (ℕ × ResendPacket)) (s : Sender)
      → All (λ entry. IsTimed entry.1) entries
      → any (is_late now) entries ≡ false
      → All (IsFresh now) (resend_each crypt now entries s).1
        × (map constant (resend_each crypt now entries s).1 ≡ map constant entries)
        × ((resend_each crypt now entries s).2 ≡ sent_again (due_again crypt now entries) s)
  resend_each-IsFresh entries s timed early =
      let (late_is, fresh) = resend_each-Checked entries s timed in
      let (fresh_all, same) = fresh (late_is ∙ early) in
      (fresh_all, same, resend_each-sent_again entries s early)
