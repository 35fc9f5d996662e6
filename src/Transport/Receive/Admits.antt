-- ===== src/Transport/Receive/Admits.antt =====
-- src/client/transport/handler.ts, `#handleCommandWindowAndAck`: which packets a queue takes.
use native.Mathlib.Nat.{add-zero}
use teamspeak_js.Common.{
  ℕ, zero, suc, ◌+◌, ◌-◌, ◌%◌, ◌≤◌, ◌<◌, ◌≡◌, ◌≢◌, ◌⊎◌, ◌↔◌, refl, sym, ap, ◌∙◌, true, false, ◌==◌,
  ==_iff, ltb, Bool-cases, if◌then◌else◌, inl, inr, Option-cases, List, length, some, arith,
}
use teamspeak_js.Common.Maps.{
  lookup, has, delete, IsMap, delete-IsMap, lookup-delete_ne, length-delete,
}
use teamspeak_js.Transport.Packet.{Packet}
use teamspeak_js.Transport.Window.{is_in_window, is_old_packet}
use teamspeak_js.Transport.Receive.{
  Lane, release, hold, admit, max_queued_bytes, needed_from, held_bytes,
}
use teamspeak_js.Transport.Receive.Reassembly.{release-found, next-mod}
use teamspeak_js.Transport.Receive.Arrival.{release-gone}

-- The id that is `k` behind `start`.
abbrev pub ahead : ℕ → ℕ → ℕ
ahead start k = (start + k) % 0x10000

-- The ids from `start` on, `k` of them, are all held.
abbrev pub HasAll : ℕ → ℕ → List (ℕ × Packet) → Type 0
HasAll start k queue = (j : ℕ) → j < k → has (ahead start j) queue ≡ true

-- The first id from the next expected one on that the queue does not hold.
abbrev pub IsNeeded : ℕ → Lane → Type 0
IsNeeded id l =
    (k : ℕ) × (id ≡ ahead l.next_id k) × HasAll l.next_id k l.queue × (has id l.queue ≡ false)

has-delete :
    (key other : ℕ) (queue : List (ℕ × Packet))
    → key ≢ other
    → has other (delete key queue) ≡ has other queue
unfolding has
has-delete key other queue ne = rw (has, lookup-delete_ne key other queue ne) refl

has-some :
    (key : ℕ) (queue : List (ℕ × Packet))
    → has key queue ≡ true
    → (p : Packet) × (lookup key queue ≡ some p)
unfolding has
has-some key queue e = elim (Option-cases (lookup key queue)) [
  | inl gone ↦ absurd (cc (rw (has, gone) at e))
  | inr found ↦ found
]

-- A queue that holds different ids is at least as long as they are many.
length-HasAll :
    (start k : ℕ) (queue : List (ℕ × Packet))
    → IsMap queue
    → k ≤ 0x10000
    → HasAll start k queue
    → k ≤ length queue
length-HasAll start zero queue m le all = omega arith
length-HasAll start (suc k) queue m le all =
    let (p, here) = has-some (ahead start k) queue (all k (omega arith)) in
    let shorter = length-delete (ahead start k) p queue here in
    let rest =
      length-HasAll start k (delete (ahead start k) queue) (delete-IsMap (ahead start k) queue m)
        (omega (arith, le))
        (λ j lt.
          has-delete (ahead start k) (ahead start j) queue (λ e. omega (arith, le, lt, e))
          ∙ all j (omega (arith, lt))) in
    omega (arith, shorter, rest)

-- The loop of `needed` stops at an id that is not held, or when its rounds are over.
needed_from-HasAll :
    (rounds start : ℕ) (queue : List (ℕ × Packet))
    → (k : ℕ) × (needed_from rounds (start % 0x10000) queue ≡ ahead start k)
      × HasAll start k queue
      × ((has (ahead start k) queue ≡ false) ⊎ (k ≡ rounds))
unfolding needed_from
needed_from-HasAll zero start queue =
    (0, omega arith, (λ j lt. absurd (omega (arith, lt))), inr refl)
needed_from-HasAll (suc rounds) start queue = elim (Bool-cases (has (start % 0x10000) queue)) [
  | inr gone ↦
      rw gone (0, omega arith, (λ j lt. absurd (omega (arith, lt))), inl (rw add-zero gone))
  | inl here ↦
      let (k, e, all, stop) = needed_from-HasAll rounds (start + 1) queue in
      let at : ahead (start + 1) k ≡ ahead start (suc k) = omega arith in
      rw (here, next-mod start)
        (
          suc k,
          e ∙ at,
          first here all,
          elim stop [ inl gone ↦ inl (rw (← at) gone) | inr over ↦ inr (ap suc over) ],
        )
]
  where
    first :
        {k : ℕ}
        → has (start % 0x10000) queue ≡ true
        → HasAll (start + 1) k queue
        → HasAll start (suc k) queue
    first here all zero lt = rw add-zero here
    first here all (suc j) lt =
        let at : ahead (start + 1) j ≡ ahead start (suc j) = omega arith in
        rw (← at) (all j (omega (arith, lt)))

module _ (l : Lane) (m : IsMap l.queue) (short : length l.queue < 0x10000)
    (in_range : l.next_id < 0x10000) where
  needed_from-IsNeeded : IsNeeded (needed_from (length l.queue) l.next_id l.queue) l
  needed_from-IsNeeded =
      let (k, e, all, stop) = needed_from-HasAll (length l.queue) l.next_id l.queue in
      let from : l.next_id % 0x10000 ≡ l.next_id = omega (arith, in_range) in
      let is = rw from at e in
      elim (Bool-cases (has (ahead l.next_id k) l.queue)) [
        | inr gone ↦ (k, is, all, rw is gone)
        | inl here ↦ elim stop [
          | inl gone ↦ absurd (cc (here, gone))
          | inr over ↦
              let more : HasAll l.next_id (suc k) l.queue = λ j lt. one_more k all here j lt in
              absurd (
                omega (
                  arith,
                  short,
                  over,
                  length-HasAll l.next_id (suc k) l.queue m (omega (arith, short, over)) more,
                ))
        ]
      ]
    where
      one_more :
          (k : ℕ)
          → HasAll l.next_id k l.queue
          → has (ahead l.next_id k) l.queue ≡ true
          → (j : ℕ) → j < suc k
          → has (ahead l.next_id j) l.queue ≡ true
      one_more k all here j lt = elim (Bool-cases (j == k)) [
        | inl e ↦ rw ((==_iff j k).0 e) here
        | inr e ↦ all j (ground (arith, e, lt))
      ]

  same_needed : (a b : ℕ) → IsNeeded a l → IsNeeded b l → a ≡ b
  same_needed a b (k, is, all, gone) (k', is', all', gone') = elim (Bool-cases (ltb k k')) [
    | inl less ↦ absurd (cc (is, gone, all' k (ground (arith, less))))
    | inr more ↦ elim (Bool-cases (ltb k' k)) [
      | inl less ↦ absurd (cc (is', gone', all k' (ground (arith, less))))
      | inr same ↦
          let e : k ≡ k' = ground (arith, more, same) in is ∙ ap (ahead l.next_id) e ∙ sym is'
    ]
  ]

queued_bytes-release :
    (id : ℕ) (l : Lane) → (release id l).queued_bytes ≡ l.queued_bytes - held_bytes id l.queue
unfolding held_bytes
queued_bytes-release id l = elim (Option-cases (lookup id l.queue)) [
  | inl gone ↦ rw (release-gone id l gone, gone, held_bytes) (omega arith)
  | inr (p, here) ↦ rw (release-found id l p here, here, held_bytes) refl
]

admit_iff :
    (p : Packet) (l : Lane)
    → ((admit p l).taken ≡ true) ↔ (
        (is_in_window l.window p.id ≡ true)
        × ((p.id ≡ needed_from (length l.queue) l.next_id l.queue)
            ⊎ ((hold p l).queued_bytes ≤ max_queued_bytes)))
unfolding admit hold
admit_iff p l = (
  (λ e. (ground (arith, e), ground (arith, e, queued_bytes-release p.id l))),
  λ (inside, why). ground (arith, inside, why, queued_bytes-release p.id l),
)

admit-acknowledged :
    (p : Packet) (l : Lane)
    → (admit p l).acknowledged
      ≡ (if is_in_window l.window p.id then (admit p l).taken else is_old_packet l.window p.id)
unfolding admit
admit-acknowledged p l = ground arith

-- A packet is taken exactly if its id is in the window and it is the one the queue needs, the first
-- from the next expected id on that it does not hold, or the count of bytes stays within the limit
-- with it. What is taken is acknowledged; of the rest only what is behind the window is.
pub admit_limit :
    (p : Packet) (l : Lane)
    → IsMap l.queue
    → length l.queue < 0x10000
    → l.next_id < 0x10000
    → (((admit p l).taken ≡ true) ↔ (
        (is_in_window l.window p.id ≡ true)
        × (IsNeeded p.id l ⊎ ((hold p l).queued_bytes ≤ max_queued_bytes))))
      × ((admit p l).acknowledged
          ≡ (if is_in_window l.window p.id then (admit p l).taken else is_old_packet l.window p.id))
admit_limit p l m short in_range =
    let needed = needed_from (length l.queue) l.next_id l.queue in
    let is_needed = needed_from-IsNeeded l m short in_range in
    let (taken, takes) = admit_iff p l in
    (
      (
        (λ e.
            let (inside, why) = taken e in
            (inside, elim why [ inl is ↦ inl (rw is is_needed) | inr fits ↦ inr fits ])),
        λ (inside, why). takes (
          inside,
          elim why [
            | inl is ↦ inl (same_needed l m short in_range p.id needed is is_needed)
            | inr fits ↦ inr fits
          ],
        ),
      ),
      admit-acknowledged p l,
    )
