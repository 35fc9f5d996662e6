-- ===== src/Channels/Siblings/Sorted.antt =====
-- src/core/channel-tree.ts: `sortSiblings` ends, and has each sibling once.
use teamspeak_js.Common.{
  ℕ, zero, suc, ◌+◌, ◌*◌, ◌≤◌, ◌<◌, ◌≡◌, ◌≢◌, refl, sym, inl, inr, Bool, true, false, ◌||◌, ◌==◌,
  ==_iff, Bool-cases, if◌then◌else◌, List, [], ◌∷◌, ◌++◌, length, length-append, map, All,
  All-append, Option, some, arith,
}
use teamspeak_js.Common.Maps.{lookup, insert, lookup-insert}
use teamspeak_js.Channels.Tree.{top, Channel}
use teamspeak_js.Channels.Tree.Lists.{Avoids, Distinct}
use teamspeak_js.Channels.Siblings.{
  holds, channels_of, is_named, group, Sorting, entered, flag_entered, mark_seen, follow_stack,
  follow_from, follow_rest,
}

abbrev pub ids_of : List Channel → List ℕ
ids_of siblings = map (λ channel. channel.id) siblings

holds-append : (id : ℕ) (xs ys : List ℕ) → holds id (xs ++ ys) ≡ (holds id xs || holds id ys)
unfolding holds
holds-append id [] ys = refl
holds-append id (x ∷ xs) ys = ground (arith, holds-append id xs ys)

pub holds_self : (id : ℕ) → holds id (id ∷ []) ≡ true
unfolding holds
holds_self id = ground arith

Avoids-holds : (id : ℕ) (ids : List ℕ) → holds id ids ≡ false → Avoids id ids
unfolding holds
Avoids-holds id [] e = tt
Avoids-holds id (x ∷ xs) e = (ground arith, Avoids-holds id xs (ground arith))

mark_seen-Distinct :
    (id : ℕ) (ids : List ℕ) → Distinct ids → holds id ids ≡ false → Distinct (ids ++ id ∷ [])
unfolding holds
mark_seen-Distinct id [] d e = (tt, tt)
mark_seen-Distinct id (x ∷ xs) (a, d) e = (
  All-append (λ s. s ≢ x) xs (id ∷ []) a (ground arith, tt),
  mark_seen-Distinct id xs d (ground arith),
)

-- What one more round for each sibling that is not in `out` yet adds up to.
abbrev budget : (w : ℕ) → List Channel → List ℕ → ℕ
budget w [] out = 0
budget w (channel ∷ channels) out = (if holds channel.id out then 0 else w) + budget w channels out

budget_le :
    (w id : ℕ) (channels : List Channel) (out : List ℕ)
    → budget w channels (out ++ id ∷ []) ≤ budget w channels out
unfolding holds
budget_le w id [] out = omega arith
budget_le w id (c ∷ cs) out = ground (arith, holds-append c.id out (id ∷ []), budget_le w id cs out)

-- A sibling that is put in `out` frees its part.
budget_less :
    (w id : ℕ) (channels : List Channel) (out : List ℕ)
    → holds id (ids_of channels) ≡ true
    → holds id out ≡ false
    → budget w channels (out ++ id ∷ []) + w ≤ budget w channels out
unfolding holds
budget_less w id [] out h e = absurd (cc h)
budget_less w id (c ∷ cs) out h e = elim (Bool-cases (c.id == id)) [
  | inl same ↦
      rw ((==_iff c.id id).0 same)
        (ground (arith, e, holds-append id out (id ∷ []), budget_le w id cs out))
  | inr other ↦ ground (
    arith,
    other,
    holds-append c.id out (id ∷ []),
    budget_less w id cs out (ground (arith, other, h)) e,
  )
]

-- Lists of siblings, at most `n` in each.
abbrev pub Among : List ℕ → List Channel → Type 0
Among ids = All (λ channel. holds channel.id ids ≡ true)

abbrev pub Fits : ℕ → List ℕ → List (ℕ × List Channel) → Type 0
Fits n ids after = (key : ℕ) → (length (entered after key) ≤ n) × Among ids (entered after key)

or_nil_Fits :
    (b : Bool) (list : List Channel) (o : Option (List Channel)) (n : ℕ) (ids : List ℕ)
    → (length list ≤ n) × Among ids list
    → (length (channels_of o) ≤ n) × Among ids (channels_of o)
    → (length (channels_of (if b then some list else o)) ≤ n)
      × Among ids (channels_of (if b then some list else o))
or_nil_Fits true list o n ids h g = h
or_nil_Fits false list o n ids h g = g

pub group-Fits :
    (ids : List ℕ) (channels : List Channel) (after : List (ℕ × List Channel)) (n : ℕ)
    → Among ids channels
    → Fits n ids after
    → Fits (n + length channels) ids (group ids channels after)
unfolding group
group-Fits ids [] after n a f = λ key. (omega (arith, (f key).0), (f key).1)
group-Fits ids (channel ∷ channels) after n (one, a) f =
    let key = if is_named ids channel then channel.order else top in
    let list = entered after key ++ channel ∷ [] in
    let rest = group-Fits ids channels (insert key list after) (n + 1) a (λ other.
      rw (lookup-insert key other list after) (
        or_nil_Fits (key == other) list (lookup other after) (n + 1) ids
          (
            omega (arith, length-append (entered after key) (channel ∷ []), (f key).0),
            All-append (λ c. holds c.id ids ≡ true) (entered after key) (channel ∷ []) (f key).1
                (one, tt),
          )
          (omega (arith, (f other).0), (f other).1))) in
    λ other. (omega (arith, (rest other).0), (rest other).1)

-- What a run keeps: each sibling stands at most once in `out`, and `out` only grows.
abbrev AmongOut : List ℕ → Sorting → Type 0
AmongOut ids s = (id : ℕ) → holds id s.out ≡ true → holds id ids ≡ true

abbrev pub Good : List ℕ → Sorting → Type 0
Good ids s = Distinct s.out × AmongOut ids s

abbrev pub Grows : Sorting → Sorting → Type 0
Grows s s' =
    ((id : ℕ) → holds id s.out ≡ true → holds id s'.out ≡ true)
    × (s.consistent ≡ false → s'.consistent ≡ false)

abbrev Ends : List ℕ → Sorting → Option Sorting → Type 0
Ends ids s o = (s' : Sorting) × ((o ≡ some s') × (Good ids s' × Grows s s'))

Ends-after :
    (ids : List ℕ) (s s' : Sorting) (o : Option Sorting) → Grows s s' → Ends ids s' o → Ends ids s o
Ends-after ids s s' o (f, x) (end, (e, (good, (g, y)))) =
    (end, (e, (good, ((λ id h. g id (f id h)), λ h. y (x h)))))

pub mark_seen-Good :
    (ids : List ℕ) (id : ℕ) (s : Sorting)
    → holds id ids ≡ true
    → holds id s.out ≡ false
    → Good ids s
    → Good ids (mark_seen id s)
unfolding holds
mark_seen-Good ids id s h e (d, among) = (
  mark_seen-Distinct id s.out d e,
  λ other there. elim (Bool-cases (id == other)) [
    | inl same ↦ rw (sym ((==_iff id other).0 same)) h
    | inr ne ↦ among other (ground (arith, holds-append other s.out (id ∷ []), there, ne))
  ],
)

mark_seen-Grows : (id : ℕ) (s : Sorting) → Grows s (mark_seen id s)
mark_seen-Grows id s = ((λ other h. ground (arith, holds-append other s.out (id ∷ []), h)), λ h. h)

flag-Grows : (list : List Channel) (s s' : Sorting) → Grows s s' → Grows s (flag_entered list s')
flag-Grows list s s' (f, x) = (f, λ h. rw (x h) refl)

abbrev stack_cost : List (List Channel) → ℕ
stack_cost [] = 0
stack_cost (list ∷ stack) = suc (length list) + stack_cost stack

module _ (siblings : List Channel) (after : List (ℕ × List Channel)) (n : ℕ)
    (fits : Fits n (ids_of siblings) after) where
  follow_stack-Ends :
      (fuel : ℕ) (stack : List (List Channel)) (s : Sorting)
      → All (Among (ids_of siblings)) stack
      → Good (ids_of siblings) s
      → stack_cost stack + budget (suc n) siblings s.out < fuel
      → Ends (ids_of siblings) s (follow_stack fuel after stack s)
  unfolding follow_stack
  follow_stack-Ends zero stack s a good less = absurd (omega (arith, less))
  follow_stack-Ends (suc fuel) [] s a good less = (s, (refl, (good, ((λ id h. h), λ h. h))))
  follow_stack-Ends (suc fuel) ([] ∷ stack) s (_, a) good less =
      follow_stack-Ends fuel stack s a good (omega (arith, less))
  follow_stack-Ends (suc fuel) ((c ∷ list) ∷ stack) s ((one, l), a) good less =
      let next = entered after c.id in
      let s' = flag_entered next (mark_seen c.id s) in
      elim (Bool-cases (holds c.id s.out)) [
        | inl seen ↦
            rw seen (follow_stack-Ends fuel (list ∷ stack) s (l, a) good (omega (arith, less)))
        | inr new ↦ rw new (
            Ends-after (ids_of siblings) s s' (follow_stack fuel after (next ∷ list ∷ stack) s')
              (flag-Grows next s (mark_seen c.id s) (mark_seen-Grows c.id s))
              (follow_stack-Ends fuel (next ∷ list ∷ stack) s' ((fits c.id).1, (l, a))
                (mark_seen-Good (ids_of siblings) c.id s one new good)
                (omega
                  (arith, less, (fits c.id).0, budget_less (suc n) c.id siblings s.out one new))))
      ]

  budget_all :
      (w : ℕ) (channels : List Channel) (out : List ℕ)
      → budget w channels out + w ≤ w * (length channels + 1)
  budget_all w [] out = omega arith
  budget_all w (c ∷ cs) out = elim (Bool-cases (holds c.id out)) [
    | inl e ↦ rw e (grind (arith, budget_all w cs out))
    | inr e ↦ rw e (grind (arith, budget_all w cs out))
  ]

  pub follow_from-Ends :
      (fuel start : ℕ) (s : Sorting)
      → Good (ids_of siblings) s
      → suc n * (length siblings + 1) < fuel
      → Ends (ids_of siblings) s (follow_from fuel after start s)
  unfolding follow_from
  follow_from-Ends fuel start s good less =
      let list = entered after start in
      let s' = flag_entered list s in
      Ends-after (ids_of siblings) s s' (follow_stack fuel after (list ∷ []) s')
        (flag-Grows list s s ((λ id h. h), λ h. h))
        (follow_stack-Ends fuel (list ∷ []) s' ((fits start).1, tt) good
          (omega (arith, less, (fits start).0, budget_all (suc n) siblings s.out)))

  pub follow_rest-Ends :
      (fuel : ℕ) (channels : List Channel) (s : Sorting)
      → Among (ids_of siblings) channels
      → Good (ids_of siblings) s
      → suc n * (length siblings + 1) < fuel
      → (s' : Sorting) × ((follow_rest fuel after channels (some s) ≡ some s')
          × (Good (ids_of siblings) s'
              × (Grows s s' × All (λ channel. holds channel.id s'.out ≡ true) channels)))
  unfolding follow_rest
  follow_rest-Ends fuel [] s a good less = (s, (refl, (good, (((λ id h. h), λ h. h), tt))))
  follow_rest-Ends fuel (c ∷ cs) s (one, a) good less = elim (Bool-cases (holds c.id s.out)) [
    | inl seen ↦
        let (s', (e, (good', (grows, all)))) = follow_rest-Ends fuel cs s a good less in
        rw seen (s', (e, (good', (grows, (grows.0 c.id seen, all)))))
    | inr new ↦
        let start = record (mark_seen c.id s) { consistent = false } in
        let (mid, (f, (good_mid, (g, y)))) =
          follow_from-Ends fuel c.id start (mark_seen-Good (ids_of siblings) c.id s one new good)
            less in
        let (s', (e, (good', ((g', y'), all)))) = follow_rest-Ends fuel cs mid a good_mid less in
        rw (new, f)
          (
            s',
            (
              e,
              (
                good',
                (
                  ((λ id h. g' id (g id ((mark_seen-Grows c.id s).0 id h))), λ h. y' (y refl)),
                  (
                    g' c.id (
                        g c.id
                          (ground (arith, holds-append c.id s.out (c.id ∷ []), holds_self c.id))),
                    all,
                  ),
                ),
              ),
            ),
          )
  ]
