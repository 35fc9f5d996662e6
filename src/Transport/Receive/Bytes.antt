-- ===== src/Transport/Receive/Bytes.antt =====
-- src/client/transport/handler.ts: `#queuedBytes`, the bytes of both queues.
use teamspeak_js.Common.{
  ℕ, zero, suc, ◌+◌, ◌≡◌, refl, ltb, Bool-cases, inl, inr, Option-cases, List, [], ◌∷◌, length,
  Option, none, some, arith,
}
use teamspeak_js.Common.Maps.{
  lookup, delete, insert, IsMap, delete-IsMap, insert-IsMap, lookup-delete_self,
}
use teamspeak_js.Transport.Packet.{Packet, has_flag, fragmented}
use teamspeak_js.Transport.Receive.{
  Lane, release, hold, release_next, release_all, Fragments, missing, closed, no_fuel, Reassembled,
  waiting, oversized, whole, out_of_fuel, close_command, try_reassemble, Drained, deliver, drain,
  handle_packet_queue, admit, receive, max_reassembled_size, total_size,
}
use teamspeak_js.Transport.Receive.Reassembly.{release-found}
use teamspeak_js.Transport.Receive.Delivery.{drain_step, drain_gone}
use teamspeak_js.Transport.Receive.Arrival.{release-gone}

unfoldable pub bytes : List (ℕ × Packet) → ℕ
bytes [] = 0
bytes ((_, p) ∷ q) = length p.payload + bytes q

bytes-delete :
    (k : ℕ) (p : Packet) (q : List (ℕ × Packet))
    → lookup k q ≡ some p
    → bytes (delete k q) + length p.payload ≡ bytes q
unfolding bytes lookup delete
bytes-delete k p [] e = cc
bytes-delete k p ((j, r) ∷ q) e = ground (arith, bytes-delete k p q)

bytes-insert :
    (k : ℕ) (p : Packet) (q : List (ℕ × Packet))
    → lookup k q ≡ none
    → bytes (insert k p q) ≡ bytes q + length p.payload
unfolding bytes lookup insert
bytes-insert k p [] e = omega arith
bytes-insert k p ((j, r) ∷ q) e = ground (arith, bytes-insert k p q)

module _ (other : ℕ) where
  -- The count is the bytes of this queue and the `other` bytes of the other queue.
  pub record Counts (l : Lane) : Type 0 where
    pub is_map : IsMap l.queue
    pub exact : l.queued_bytes ≡ bytes l.queue + other

  release-Counts : (id : ℕ) (l : Lane) → Counts l → Counts (release id l)
  release-Counts id l c = elim (Option-cases (lookup id l.queue)) [
    | inl gone ↦ rw (release-gone id l gone) c
    | inr (p, here) ↦ rw (release-found id l p here) (record {
      is_map = delete-IsMap id l.queue c.is_map;
      exact = omega (arith, c.exact, bytes-delete id p l.queue here);
    })
  ]

  released_gone : (id : ℕ) (l : Lane) → IsMap l.queue → lookup id (release id l).queue ≡ none
  released_gone id l m = elim (Option-cases (lookup id l.queue)) [
    | inl gone ↦ rw (release-gone id l gone) gone
    | inr (p, here) ↦ rw (release-found id l p here) (lookup-delete_self id l.queue m)
  ]

  hold-Counts : (p : Packet) (l : Lane) → Counts l → Counts (hold p l)
  unfolding hold
  hold-Counts p l c =
      let r = release p.id l in
      let rc = release-Counts p.id l c in
      record {
        is_map = insert-IsMap p.id p r.queue rc.is_map;
        exact =
            omega (arith, rc.exact, bytes-insert p.id p r.queue (released_gone p.id l c.is_map));
      }

  release_next-Counts : (l : Lane) → Counts l → Counts (release_next l)
  unfolding release_next
  release_next-Counts l c =
      let rc = release-Counts l.next_id l c in record { is_map = rc.is_map; exact = rc.exact }

  release_all-Counts : (ps : List Packet) (l : Lane) → Counts l → Counts (release_all ps l)
  unfolding release_all
  release_all-Counts [] l c = c
  release_all-Counts (p ∷ ps) l c = release_all-Counts ps (release_next l) (release_next-Counts l c)

  abbrev Leaves : Reassembled → Type 0
  Leaves waiting = Unit
  Leaves (oversized l) = Counts l
  Leaves (whole p l) = Counts l
  Leaves out_of_fuel = Unit

  close_command-Leaves :
      (p : Packet) (l : Lane) (r : Fragments) → Counts l → Leaves (close_command p l r)
  unfolding close_command
  close_command-Leaves p l missing c = tt
  close_command-Leaves p l (closed ps) c =
      elim (Bool-cases (ltb max_reassembled_size (total_size ps))) [
        | inl large ↦ rw large (release_all-Counts ps l c)
        | inr fits ↦ rw fits (release_all-Counts ps l c)
      ]
  close_command-Leaves p l no_fuel c = tt

  try_reassemble-Leaves : (p : Packet) (l : Lane) → Counts l → Leaves (try_reassemble p l)
  unfolding try_reassemble
  try_reassemble-Leaves p l c = elim (Bool-cases (has_flag fragmented p)) [
    | inl flag ↦ rw flag (close_command-Leaves p l _ c)
    | inr plain ↦ rw plain (release_next-Counts l c)
  ]

  -- The queue that is left counts its bytes.
  abbrev pub KeepsCount : Drained → Type 0
  KeepsCount none = Unit
  KeepsCount (some (l, _)) = Counts l

  deliver-KeepsCount : (q : Option Packet) (r : Drained) → KeepsCount r → KeepsCount (deliver q r)
  deliver-KeepsCount none r k = k
  deliver-KeepsCount (some p) none k = tt
  deliver-KeepsCount (some p) (some (l, out)) k = k

  drain-KeepsCount : (fuel : ℕ) (l : Lane) → Counts l → KeepsCount (drain fuel l)
  drain-KeepsCount zero l c = unfold drain in tt
  drain-KeepsCount (suc fuel) l c = elim (Option-cases (lookup l.next_id l.queue)) [
    | inl gone ↦ rw (drain_gone fuel l gone) c
    | inr (p, here) ↦
        step p here (drain-KeepsCount fuel) (try_reassemble p l) refl (try_reassemble-Leaves p l c)
  ]
    where
      step :
          (p : Packet)
          → lookup l.next_id l.queue ≡ some p
          → ((l : Lane) → Counts l → KeepsCount (drain fuel l))
          → (r : Reassembled) → try_reassemble p l ≡ r
          → Leaves r
          → KeepsCount (drain (suc fuel) l)
      step p here rest waiting e u = rw (drain_step fuel l p waiting here e) c
      step p here rest (oversized l') e c' =
          rw (drain_step fuel l p (oversized l') here e) (rest l' c')
      step p here rest (whole q l') e c' =
          rw (drain_step fuel l p (whole q l') here e) (deliver-KeepsCount _ _ (rest l' c'))
      step p here rest out_of_fuel e u = rw (drain_step fuel l p out_of_fuel here e) tt

  receive-KeepsCount : (p : Packet) (l : Lane) → Counts l → KeepsCount (receive p l)
  unfolding receive handle_packet_queue
  receive-KeepsCount p l c = elim (Bool-cases (admit p l).taken) [
    | inl taken ↦ rw taken (drain-KeepsCount _ (hold p l) (hold-Counts p l c))
    | inr refused ↦ rw refused c
  ]

  -- A packet that is received keeps the count exact: the bytes of this queue and of the other one.
  pub receive-Counts :
      (p : Packet) (l l' : Lane) (out : List Packet)
      → Counts l
      → receive p l ≡ some (l', out)
      → Counts l'
  receive-Counts p l l' out c e = rw e at (receive-KeepsCount p l c)
