-- ===== src/Transport/Send/Reads.antt =====
-- src/client/transport/handler.ts: what one side sends in pieces, put together by the receive queue
-- of the other.
use teamspeak_js.Common.{
  ℕ, zero, suc, ◌+◌, ◌≤◌, ◌≡◌, refl, sym, ap, ◌∙◌, List, [], ◌∷◌, ◌++◌, length, length-append,
  append-nil, none, some, le→ltb-false, arith,
}
use mathlib.Core.Path.{subst}
use mathlib.Core.Option.{some-injective}
use teamspeak_js.Transport.Packet.{Packet}
use teamspeak_js.Transport.Receive.{
  Lane, combined, total_size, joined, max_reassembled_size, Reassembled, waiting, oversized, whole,
  out_of_fuel, try_reassemble,
}
use teamspeak_js.Transport.Receive.Stream.{slice, Closes, Spans, command_at, Holds}
use teamspeak_js.Transport.Receive.Reassembly.{HasRun}
use teamspeak_js.Transport.Receive.Delivery.{Reassembles, try_reassemble-Reassembles}
use teamspeak_js.Transport.Send.Split.{Closed, Framed}

-- The bytes of packets, in order.
abbrev pub bytes_of : List Packet → List ℕ
bytes_of [] = []
bytes_of (p ∷ ps) = p.payload ++ bytes_of ps

combined-bytes_of : (ps : List Packet) → combined ps ≡ bytes_of ps
unfolding combined
combined-bytes_of [] = refl
combined-bytes_of (p ∷ ps) = ap (λ b. p.payload ++ b) (combined-bytes_of ps)

total_size-bytes_of : (ps : List Packet) → total_size ps ≡ length (bytes_of ps)
unfolding total_size
total_size-bytes_of [] = refl
total_size-bytes_of (p ∷ ps) =
    omega (arith, total_size-bytes_of ps, length-append p.payload (bytes_of ps))

module _ (stream : ℕ → Packet) where
  Closed-Closes : (k n : ℕ) → Closed (slice stream n (suc k)) → Closes stream n k
  Closed-Closes zero n closed = closed
  Closed-Closes (suc k) n (no_flag, closed) = (no_flag, Closed-Closes k (n + 1) closed)

  Framed-Spans : (c n : ℕ) → Framed (slice stream n (suc c)) → Spans stream n c
  Framed-Spans zero n framed = framed
  Framed-Spans (suc k) n (flag, closed) = (flag, Closed-Closes k (n + 1) closed)

  -- A command ends where its second flag is, so it has one length.
  same_close : (k k' n : ℕ) → Closes stream n k → Closes stream n k' → k ≡ k'
  same_close zero zero n a b = refl
  same_close zero (suc k') n a (b, _) = absurd (cc (a, b))
  same_close (suc k) zero n (a, _) b = absurd (cc (a, b))
  same_close (suc k) (suc k') n (_, a) (_, b) = ap suc (same_close k k' (n + 1) a b)

  same_span : (c c' n : ℕ) → Spans stream n c → Spans stream n c' → c ≡ c'
  same_span zero zero n a b = refl
  same_span zero (suc c') n a (b, _) = absurd (cc (a, b))
  same_span (suc c) zero n (a, _) b = absurd (cc (a, b))
  same_span (suc c) (suc c') n (_, a) (_, b) = ap suc (same_close c c' (n + 1) a b)

  command_at-bytes_of :
      (c n : ℕ)
      → length (bytes_of (slice stream n (suc c))) ≤ max_reassembled_size
      → (p : Packet) × (command_at stream n c ≡ some p)
        × (p.payload ≡ bytes_of (slice stream n (suc c)))
        × (p.id ≡ (stream n).id)
  unfolding joined
  command_at-bytes_of zero n small = (stream n, refl, sym (append-nil (stream n).payload), refl)
  command_at-bytes_of (suc k) n small =
      let all = slice stream n (suc (suc k)) in
      (
        joined (stream n) all,
        rw
            (le→ltb-false max_reassembled_size (total_size all)
              (subst (λ size. size ≤ max_reassembled_size) (sym (total_size-bytes_of all)) small))
            refl,
        combined-bytes_of all,
        refl,
      )

  -- Where a queue that expects packet `n` of a stream holds `c + 1` packets from there on that are
  -- framed as a sender frames a command, and their bytes are within the limit, `#tryReassemble` makes
  -- of them one packet that has the first one's id and all the bytes, in order, and the queue goes on
  -- behind them.
  pub try_reassemble-Framed :
      (c n : ℕ) (l : Lane)
      → Framed (slice stream n (suc c))
      → length (bytes_of (slice stream n (suc c))) ≤ max_reassembled_size
      → Holds stream n l
      → HasRun stream l n (suc c)
      → (p : Packet) × (l' : Lane) × (try_reassemble (stream n) l ≡ whole p l')
        × (p.payload ≡ bytes_of (slice stream n (suc c)))
        × (p.id ≡ (stream n).id)
        × Holds stream (n + suc c) l'
  try_reassemble-Framed c n l framed small h run =
      result (try_reassemble (stream n) l) refl (try_reassemble-Reassembles stream n l h run.0)
    where
      spans : Spans stream n c
      spans = Framed-Spans c n framed

      result :
          (r : Reassembled)
          → try_reassemble (stream n) l ≡ r
          → Reassembles stream n l r
          → (p : Packet) × (l' : Lane) × (try_reassemble (stream n) l ≡ whole p l')
            × (p.payload ≡ bytes_of (slice stream n (suc c)))
            × (p.id ≡ (stream n).id)
            × Holds stream (n + suc c) l'
      result waiting e waits = absurd (waits c spans run)
      result (oversized l') e (c', spans', gone, _, _) =
          let (p, is, _, _) = command_at-bytes_of c n small in
          let same = same_span c c' n spans spans' in
          absurd (cc (is, subst (λ k. command_at stream n k ≡ none) (sym same) gone))
      result (whole q l') e (c', spans', is', holds, _) =
          let (p, is, bytes, id) = command_at-bytes_of c n small in
          let same = same_span c c' n spans spans' in
          let is_p : p ≡ q =
            some-injective p q
              (sym is ∙ subst (λ k. command_at stream n k ≡ some q) (sym same) is') in
          (
            q,
            l',
            e,
            ap (λ t. t.payload) (sym is_p) ∙ bytes,
            ap (λ t. t.id) (sym is_p) ∙ id,
            subst (λ k. Holds stream (n + suc k) l') (sym same) holds,
          )
      result out_of_fuel e u = absurd u
