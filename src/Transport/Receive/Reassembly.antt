-- ===== src/Transport/Receive/Reassembly.antt =====
-- src/client/transport/handler.ts: `#tryReassemble` on a queue that holds packets of a stream.
use mathlib.Core.Path.{subst}
use native.Mathlib.Decide.{ℕ_discrete}
use teamspeak_js.Common.{
  ℕ, zero, suc, ◌+◌, ◌-◌, ◌%◌, ◌≤◌, ◌<◌, ◌≡◌, ◌≢◌, refl, sym, ◌∙◌, ap, true, false, if◌then◌else◌,
  Bool-cases, inl, inr, Option-cases, List, [], ◌∷◌, length, none, some, pos, arith,
}
use teamspeak_js.Common.Maps.{
  lookup, delete, lookup-delete_ne, lookup-delete_self, length-delete, delete-IsMap,
}
use teamspeak_js.Transport.Packet.{Packet, fragmented, has_flag}
use teamspeak_js.Transport.Window.{advance}
use teamspeak_js.Transport.Receive.{
  Lane, next, release, release_next, collect, Fragments, missing, closed, no_fuel, with_fragment,
  receive_packet_window_size,
}
use teamspeak_js.Transport.Receive.Stream.{window_at, limit, slice, Closes, Spans, Holds}

-- The window of packet `n` moves on to packet `n + 1`.
pub advance-window_at : (n : ℕ) → n < limit → advance (window_at n) (pos 1) ≡ window_at (n + 1)
unfolding advance
advance-window_at n h = ground arith

pub next-mod : (n : ℕ) → next (n % 0x10000) ≡ (n + 1) % 0x10000
next-mod n = omega arith

pub release-found :
    (id : ℕ) (l : Lane) (p : Packet)
    → lookup id l.queue ≡ some p
    → release id l
      ≡ record l { queue = delete id l.queue; queued_bytes = l.queued_bytes - length p.payload }
unfolding release
release-found id l p e = rw (e, release)

-- What `release_next` makes of a queue that holds the next packet.
pub release_next-found :
    (l : Lane) (p : Packet)
    → lookup l.next_id l.queue ≡ some p
    → release_next l ≡ record {
      queue = delete l.next_id l.queue;
      next_id = next l.next_id;
      window = advance l.window (pos 1);
      queued_bytes = l.queued_bytes - length p.payload;
    }
unfolding release_next
release_next-found l p e = rw (release-found l.next_id l p e)

module _ (stream : ℕ → Packet) (n : ℕ) (l : Lane) (h : Holds stream n l) where
  -- What the queue holds under the id of a packet just ahead is that packet.
  pub lookup_at :
      (m : ℕ) (p : Packet)
      → n ≤ m
      → m ≤ n + receive_packet_window_size
      → lookup (m % 0x10000) l.queue ≡ some p
      → (p ≡ stream m) × (m < n + receive_packet_window_size) × (m < limit)
  lookup_at m p le ge e =
      let (m', le', lt', lim, same, is) = h.held (m % 0x10000) p e in
      let here : m' ≡ m = omega arith in (is ∙ ap stream here, omega arith, omega arith)

  module _ (p : Packet) (first : lookup (n % 0x10000) l.queue ≡ some p) where
    at_front : lookup l.next_id l.queue ≡ some p
    at_front = rw h.expects first

    front_lt_limit : n < limit
    front_lt_limit = (lookup_at n p (omega arith) (omega arith) first).2

    pub release_next-queue : (release_next l).queue ≡ delete (n % 0x10000) l.queue
    release_next-queue = rw (release_next-found l p at_front, h.expects) refl

    -- The other packets stay, and none of them is the one released.
    left_held :
        (id : ℕ) (q : Packet)
        → lookup id (delete (n % 0x10000) l.queue) ≡ some q
        → (m : ℕ) × (n + 1 ≤ m)
          × (m < n + 1 + receive_packet_window_size)
          × (m < limit)
          × (id ≡ m % 0x10000)
          × (q ≡ stream m)
    left_held id q e = elim (ℕ_discrete (n % 0x10000) id) [
      | yes same ↦ cc (
        sym (lookup-delete_self (n % 0x10000) l.queue h.is_map),
        ap (λ i. lookup i (delete (n % 0x10000) l.queue)) same,
        e,
      )
      | no other ↦
          let (m, le, lt, lim, is_id, is) =
            h.held id q (sym (lookup-delete_ne _ id l.queue other) ∙ e) in
          let ne : n ≢ m = λ (same : n ≡ m). other (ap (λ i. i % 0x10000) same ∙ sym is_id) in
          (m, omega arith, omega arith, lim, is_id, is)
    ]

    -- Releasing the packet at the front leaves the queue expecting the one after it.
    pub release_next-Holds : Holds stream (n + 1) (release_next l)
    release_next-Holds = rw (release_next-found l p at_front) (record {
      expects = ap next h.expects ∙ next-mod n;
      window_is = ap (λ w. advance w (pos 1)) h.window_is ∙ advance-window_at n front_lt_limit;
      in_limit = omega (arith, front_lt_limit);
      is_map = delete-IsMap l.next_id l.queue h.is_map;
      held = rw h.expects left_held;
    })

    pub length-release_next : suc (length (release_next l).queue) ≡ length l.queue
    length-release_next = rw release_next-queue (length-delete (n % 0x10000) p l.queue first)

    -- The packets behind it are found as before.
    pub lookup-release_next :
        (m : ℕ)
        → n < m
        → m < n + receive_packet_window_size
        → lookup (m % 0x10000) (release_next l).queue ≡ lookup (m % 0x10000) l.queue
    lookup-release_next m lt le =
        rw release_next-queue (lookup-delete_ne (n % 0x10000) (m % 0x10000) l.queue (omega arith))

-- The queue holds the `c` packets of the stream from packet `m` on.
abbrev pub HasRun : (ℕ → Packet) → Lane → ℕ → ℕ → Type 0
HasRun stream l m zero = Unit
HasRun stream l m (suc c) =
    (lookup (m % 0x10000) l.queue ≡ some (stream m)) × HasRun stream l (m + 1) c

-- What the loop over fragments finds from packet `m` on: the rest of the command, or that the queue
-- does not hold all of it.
abbrev pub Collects : (ℕ → Packet) → Lane → ℕ → Fragments → Type 0
Collects stream l m missing = (c : ℕ) → Closes stream m c → HasRun stream l m (suc c) → ⊥
Collects stream l m (closed frags) =
    (c : ℕ) × (frags ≡ slice stream m (suc c)) × Closes stream m c × HasRun stream l m (suc c)
Collects stream l m no_fuel = ⊥

-- What the whole loop finds: a command of the stream that begins at packet `m`, or that the queue
-- does not hold all of it.
abbrev pub Starts : (ℕ → Packet) → Lane → ℕ → Fragments → Type 0
Starts stream l m missing = (c : ℕ) → Spans stream m c → HasRun stream l m (suc c) → ⊥
Starts stream l m (closed frags) =
    (c : ℕ) × (frags ≡ slice stream m (suc (suc c)))
    × Spans stream m (suc c)
    × HasRun stream l m (suc (suc c))
Starts stream l m no_fuel = ⊥

module _ (fuel id : ℕ) (queue : List (ℕ × Packet)) where
  collect_missing : lookup id queue ≡ none → collect (suc fuel) id true queue ≡ missing
  unfolding collect
  collect_missing e = rw (e, collect)

  module _ (frag : Packet) (here : lookup id queue ≡ some frag) where
    collect_step : collect (suc fuel) id true queue ≡ (
        if has_flag fragmented frag
        then closed (frag ∷ [])
        else with_fragment frag (collect fuel (next id) true queue))
    unfolding collect
    collect_step = rw (here, collect)

    collect_start : collect (suc fuel) id false queue ≡ (
        if has_flag fragmented frag
        then with_fragment frag (collect fuel (next id) true queue)
        else closed (frag ∷ []))
    unfolding collect
    collect_start = rw (here, collect)

module _ (stream : ℕ → Packet) (n : ℕ) (l : Lane) (h : Holds stream n l) where
  with_fragment-Collects :
      (m : ℕ) (r : Fragments)
      → has_flag fragmented (stream m) ≡ false
      → lookup (m % 0x10000) l.queue ≡ some (stream m)
      → Collects stream l (m + 1) r
      → Collects stream l m (with_fragment (stream m) r)
  with_fragment-Collects m missing no_flag here u = λ c closes run. more c closes run
    where
      more : (c : ℕ) → Closes stream m c → HasRun stream l m (suc c) → ⊥
      more zero flag run = cc
      more (suc c) (_, closes) (_, run) = u c closes run
  with_fragment-Collects m (closed frags) no_flag here (c, is, closes, run) =
      (suc c, ap (λ t. stream m ∷ t) is, (no_flag, closes), (here, run))
  with_fragment-Collects m no_fuel no_flag here u = u

  -- Behind the start of a command the loop stops before its fuel runs out, since an id past the
  -- window is not in the queue, and what it collects is a run of the stream up to its closing packet.
  pub collect-Collects :
      (fuel m : ℕ)
      → n ≤ m
      → n + receive_packet_window_size < m + fuel
      → m ≤ n + receive_packet_window_size
      → Collects stream l m (collect fuel (m % 0x10000) true l.queue)
  collect-Collects zero m le f lt = absurd (omega arith)
  collect-Collects (suc fuel) m le f lt = elim (Option-cases (lookup (m % 0x10000) l.queue)) [
    | inl gone ↦ rw (collect_missing fuel _ l.queue gone) (λ c closes run. cc (gone, run.0))
    | inr (p, here) ↦
        let (is, lt', _) = lookup_at stream n l h m p le lt here in
        let here' = here ∙ ap some is in
        rw (collect_step fuel (m % 0x10000) l.queue (stream m) here', next-mod m)
          (elim (Bool-cases (has_flag fragmented (stream m))) [
            | inl flag ↦ rw flag (0, refl, flag, (here', tt))
            | inr no_flag ↦ rw no_flag (
                with_fragment-Collects m _ no_flag here'
                  (collect-Collects fuel (m + 1) (omega arith) (omega arith) (omega arith)))
          ])
  ]

  -- The whole loop, from the start of a fragmented command at packet `n`.
  pub collect_command :
      has_flag fragmented (stream n) ≡ true
      → lookup (n % 0x10000) l.queue ≡ some (stream n)
      → Starts stream l n (collect (receive_packet_window_size + 1) l.next_id false l.queue)
  collect_command flag here =
      subst (λ id. Starts stream l n (collect (receive_packet_window_size + 1) id false l.queue))
        (sym h.expects) start
    where
      with_start :
          (r : Fragments)
          → Collects stream l (n + 1) r
          → Starts stream l n (with_fragment (stream n) r)
      with_start missing u = λ c spans run. more c spans run
        where
          more : (c : ℕ) → Spans stream n c → HasRun stream l n (suc c) → ⊥
          more zero no_flag run = cc
          more (suc c) (_, closes) (_, run) = u c closes run
      with_start (closed frags) (c, is, closes, run) =
          (c, ap (λ t. stream n ∷ t) is, (flag, closes), (here, run))
      with_start no_fuel u = u

      start :
          Starts stream l n (collect (receive_packet_window_size + 1) (n % 0x10000) false l.queue)
      start =
          rw
            (
              collect_start receive_packet_window_size (n % 0x10000) l.queue (stream n) here,
              flag,
              next-mod n,
            )
            (with_start _ (
              collect-Collects receive_packet_window_size (n + 1) (omega arith) (omega arith)
                (omega arith)))
