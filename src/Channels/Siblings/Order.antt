-- ===== src/Channels/Siblings/Order.antt =====
-- src/core/channel-tree.ts: siblings that `sortSiblings` leaves consistent.
use teamspeak_js.Common.{
  ℕ, zero, suc, ◌+◌, ◌*◌, ◌≤◌, ◌<◌, ◌≡◌, refl, sym, inl, inr, Bool, true, false, ◌&&◌, ◌||◌, ◌==◌,
  ==_iff, Bool-cases, if◌then◌else◌, List, [], ◌∷◌, ◌++◌, length, All, All-append, Option, some,
  arith,
}
use mathlib.Core.Path.{subst}
use mathlib.Core.Option.{some-injective}
use teamspeak_js.Common.Maps.{lookup, insert, lookup-insert}
use teamspeak_js.Channels.Tree.{top, Channel}
use teamspeak_js.Channels.Siblings.{
  holds, channels_of, is_named, all_named, group, Sorting, entered, flag_entered, mark_seen,
  follow_stack, follow_from, follow_rest,
}
use teamspeak_js.Channels.Siblings.Sorted.{
  ids_of, Among, Good, Fits, mark_seen-Good, follow_from-Ends, follow_rest-Ends,
}

-- Whether a sibling `id` names `before` as its order.
unfoldable pub names : List Channel → (id before : ℕ) → Bool
names [] id before = false
names (c ∷ cs) id before = (c.id == id && c.order == before) || names cs id before

-- Each names the one before it.
abbrev pub InOrder : List Channel → ℕ → List ℕ → Type 0
InOrder siblings before [] = Unit
InOrder siblings before (id ∷ ids) = (names siblings id before ≡ true) × InOrder siblings id ids

abbrev last_of : ℕ → List ℕ → ℕ
last_of before [] = before
last_of before (id ∷ ids) = last_of id ids

InOrder-more :
    (siblings : List Channel) (before id : ℕ) (ids : List ℕ)
    → InOrder siblings before ids
    → names siblings id (last_of before ids) ≡ true
    → InOrder siblings before (ids ++ id ∷ [])
InOrder-more siblings before id [] h e = (e, tt)
InOrder-more siblings before id (x ∷ xs) (one, h) e = (one, InOrder-more siblings x id xs h e)

last_of-more : (before id : ℕ) (ids : List ℕ) → last_of before (ids ++ id ∷ []) ≡ id
last_of-more before id [] = refl
last_of-more before id (x ∷ xs) = last_of-more x id xs

-- The lists of `after` have siblings that name their key.
abbrev Naming : List Channel → ℕ → List Channel → Type 0
Naming siblings key = All (λ c. names siblings c.id key ≡ true)

abbrev pub Named : List Channel → List (ℕ × List Channel) → Type 0
Named siblings after = (key : ℕ) → Naming siblings key (entered after key)

or_nil-Naming :
    (b : Bool) (siblings list : List Channel) (o : Option (List Channel)) (key : ℕ)
    → (b ≡ true → Naming siblings key list)
    → Naming siblings key (channels_of o)
    → Naming siblings key (channels_of (if b then some list else o))
or_nil-Naming true siblings list o key h g = h refl
or_nil-Naming false siblings list o key h g = g

key_of_named :
    (b : Bool) (order : ℕ) → (order == top || b) ≡ true → (if b then order else top) ≡ order
key_of_named true order e = refl
key_of_named false order e = ground (arith, e)

pub group-Named :
    (siblings : List Channel) (ids : List ℕ) (channels : List Channel)
    (after : List (ℕ × List Channel))
    → all_named ids channels ≡ true
    → All (λ c. names siblings c.id c.order ≡ true) channels
    → Named siblings after
    → Named siblings (group ids channels after)
unfolding group all_named
group-Named siblings ids [] after e a h = h
group-Named siblings ids (c ∷ cs) after e (one, a) h =
    let key = if is_named ids c then c.order else top in
    let list = entered after key ++ c ∷ [] in
    let same : key ≡ c.order = key_of_named (is_named ids c) c.order (ground (arith, e)) in
    group-Named siblings ids cs (insert key list after) (ground (arith, e)) a (λ other.
      rw (lookup-insert key other list after) (
        or_nil-Naming (key == other) siblings list (lookup other after) other
          (λ here.
            subst (λ k. Naming siblings k list) ((==_iff key other).0 here)
              (All-append (λ d. names siblings d.id key ≡ true) (entered after key) (c ∷ []) (h key)
                (rw same one, tt)))
          (h other)))

-- While the flag is set: the list is in order, and only the last list entered can have one left.
abbrev Last : List Channel → ℕ → List (List Channel) → Type 0
Last siblings key [] = Unit
Last siblings key (list ∷ stack) =
    (length list ≤ 1) × (Naming siblings key list × All (λ l. l ≡ []) stack)

abbrev Chained : List Channel → List (List Channel) → Sorting → Type 0
Chained siblings stack s =
    s.consistent ≡ true → InOrder siblings top s.out × Last siblings (last_of top s.out) stack

Last-empty :
    (siblings : List Channel) (key : ℕ) (stack : List (List Channel))
    → All (λ l. l ≡ []) stack
    → Last siblings key stack
Last-empty siblings key [] a = tt
Last-empty siblings key ([] ∷ stack) (e, a) = (omega arith, (tt, a))
Last-empty siblings key ((c ∷ cs) ∷ stack) (e, a) = absurd (cc e)

none_left : (c : Channel) (list : List Channel) → length (c ∷ list) ≤ 1 → list ≡ []
none_left c [] less = refl
none_left c (d ∷ list) less = absurd (omega (arith, less))

follow_stack-InOrder :
    (siblings : List Channel) (after : List (ℕ × List Channel))
    → Named siblings after
    → (fuel : ℕ) (stack : List (List Channel)) (s s' : Sorting) → Chained siblings stack s
    → follow_stack fuel after stack s ≡ some s'
    → s'.consistent ≡ true
    → InOrder siblings top s'.out
unfolding follow_stack
follow_stack-InOrder siblings after named zero stack s s' h e kept = absurd (cc e)
follow_stack-InOrder siblings after named (suc fuel) [] s s' h e kept =
    let same = some-injective s s' e in
    subst (λ t. t.consistent ≡ true → InOrder siblings top t.out) same (λ y. (h y).0) kept
follow_stack-InOrder siblings after named (suc fuel) ([] ∷ stack) s s' h e kept =
    follow_stack-InOrder siblings after named fuel stack s s'
      (λ y. ((h y).0, Last-empty siblings (last_of top s.out) stack (h y).1.1.1)) e kept
follow_stack-InOrder siblings after named (suc fuel) ((c ∷ list) ∷ stack) s s' h e kept =
    let next = entered after c.id in
    let marked = flag_entered next (mark_seen c.id s) in
    elim (Bool-cases (holds c.id s.out)) [
      | inl seen ↦
          follow_stack-InOrder siblings after named fuel (list ∷ stack) s s'
            (λ y. (
              (h y).0,
              Last-empty siblings (last_of top s.out) (list ∷ stack)
                  (none_left c list (h y).1.0, (h y).1.1.1),
            ))
            (rw seen at e) kept
      | inr new ↦
          follow_stack-InOrder siblings after named fuel (next ∷ list ∷ stack) marked s'
            (λ y.
              let was : s.consistent ≡ true = ground (arith, y) in
              let (order, (short, ((one, _), empty))) = h was in
              (
                InOrder-more siblings top c.id s.out order one,
                (
                  ground (arith, y),
                  (
                    subst (λ k. Naming siblings k next) (sym (last_of-more top c.id s.out))
                        (named c.id),
                    (none_left c list short, empty),
                  ),
                ),
              ))
            (rw new at e) kept
    ]

-- The list of the first ones is entered, and its siblings follow.
pub follow_from-InOrder :
    (siblings : List Channel) (after : List (ℕ × List Channel))
    → Named siblings after
    → (fuel : ℕ) (consistent : Bool) (s : Sorting)
    → follow_from fuel after top (record { out = []; consistent = consistent }) ≡ some s
    → s.consistent ≡ true
    → InOrder siblings top s.out
unfolding follow_from
follow_from-InOrder siblings after named fuel consistent s e kept =
    let list = entered after top in
    follow_stack-InOrder siblings after named fuel (list ∷ [])
      (flag_entered list (record { out = []; consistent = consistent })) s
      (λ y. (tt, (ground (arith, y), (named top, tt)))) e kept

module _ (siblings : List Channel) (after : List (ℕ × List Channel)) (n : ℕ)
    (fits : Fits n (ids_of siblings) after) where
  -- A sibling that no first one leads to leaves the draft inconsistent, so there was none.
  pub follow_rest-InOrder :
      (fuel : ℕ) (channels : List Channel) (s s' : Sorting)
      → Among (ids_of siblings) channels
      → Good (ids_of siblings) s
      → suc n * (length siblings + 1) < fuel
      → follow_rest fuel after channels (some s) ≡ some s'
      → (s.consistent ≡ true → InOrder siblings top s.out)
      → s'.consistent ≡ true
      → InOrder siblings top s'.out
  unfolding follow_rest
  follow_rest-InOrder fuel [] s s' a good less e h kept =
      subst (λ t. t.consistent ≡ true → InOrder siblings top t.out) (some-injective s s' e) h kept
  follow_rest-InOrder fuel (c ∷ cs) s s' (one, a) good less e h kept =
      elim (Bool-cases (holds c.id s.out)) [
        | inl seen ↦ follow_rest-InOrder fuel cs s s' a good less (rw seen at e) h kept
        | inr new ↦
            let start = record (mark_seen c.id s) { consistent = false } in
            let (mid, (f, (good_mid, (_, y)))) =
              follow_from-Ends siblings after n fits fuel c.id start
                (mark_seen-Good (ids_of siblings) c.id s one new good) less in
            let (end, (f', (_, ((_, y'), _)))) =
              follow_rest-Ends siblings after n fits fuel cs mid a good_mid less in
            absurd (cc (y' (y refl), kept, f', rw (new, f) at e))
      ]
