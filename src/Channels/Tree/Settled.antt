-- ===== src/Channels/Tree/Settled.antt =====
-- src/core/channel-tree.ts: trees in which each list has the channels of its parent, in the order
-- that they name; and `settle`, which makes a list so.
use teamspeak_js.Common.{
  ℕ, ◌≡◌, ◌≢◌, refl, sym, ap, ◌∙◌, ◌==◌, ==_iff, ==_refl, ==-false→ne, ==-false, Bool-cases,
  Option-cases, inl, inr, List, [], ◌∷◌, All, Option, none, some,
}
use mathlib.Core.Option.{some-injective}
use teamspeak_js.Common.Maps.{lookup, lookup-insert, IsMap, insert-IsMap}
use teamspeak_js.Channels.Tree.{top, Channel, with_order, settle}
use teamspeak_js.Channels.Tree.Lists.{Avoids, Distinct}

-- The channel is held, and its parent is `parent`.
abbrev pub IsUnder : (channels : List (ℕ × Channel)) (parent id : ℕ) → Type 0
IsUnder channels parent id = (c : Channel) × (lookup id channels ≡ some c) × (c.parent_id ≡ parent)

-- The siblings are held, are of that parent, and each names the one before it.
abbrev pub Ordered : (channels : List (ℕ × Channel)) (parent before : ℕ) → List ℕ → Type 0
Ordered channels parent before [] = Unit
Ordered channels parent before (id ∷ ids) =
    ((c : Channel) × (lookup id channels ≡ some c) × (c.parent_id ≡ parent) × (c.order ≡ before))
    × Ordered channels parent id ids

-- Each channel is held under its id.
abbrev pub Numbered : List (ℕ × Channel) → Type 0
Numbered channels = (k : ℕ) (c : Channel) → lookup k channels ≡ some c → c.id ≡ k

-- Each channel is held under its id, and each list is that of its parent's children in order.
pub record IsTree (channels : List (ℕ × Channel)) (kids : List (ℕ × List ℕ)) : Type 0 where
  pub channels_map : IsMap channels
  pub kids_map : IsMap kids
  pub ids : Numbered channels
  pub listed :
      (parent : ℕ) (siblings : List ℕ)
      → lookup parent kids ≡ some siblings
      → Distinct siblings × Ordered channels parent top siblings

-- A round of `settle`.
with_order-lookup :
    (id order k : ℕ) (o : Option Channel) (channels : List (ℕ × Channel))
    → k ≢ id
    → lookup k (with_order id order o channels) ≡ lookup k channels
unfolding with_order
with_order-lookup id order k none channels h = refl
with_order-lookup id order k (some c) channels h = elim (Bool-cases (c.order == order)) [
  | inl e ↦ rw e refl
  | inr e ↦ rw e (
      lookup-insert id k (record c { order = order }) channels
      ∙ rw (==-false id k (λ s. h (sym s))) refl)
]

with_order_self :
    (id order : ℕ) (c : Channel) (channels : List (ℕ × Channel))
    → lookup id channels ≡ some c
    → lookup id (with_order id order (some c) channels) ≡ some (record c { order = order })
unfolding with_order
with_order_self id order c channels h = elim (Bool-cases (c.order == order)) [
  | inl e ↦ rw e (h ∙ ap (λ o. some (record c { order = o })) ((==_iff _ _).0 e))
  | inr e ↦ rw e (lookup-insert id id (record c { order = order }) channels ∙ rw (==_refl id) refl)
]

-- The channels of the second are of the first, with their parents.
abbrev pub Tame : (channels channels' : List (ℕ × Channel)) → Type 0
Tame channels channels' =
    (k : ℕ) (c' : Channel) → lookup k channels' ≡ some c' → IsUnder channels c'.parent_id k

-- A round changes at most the order of one channel.
module _ (id order : ℕ) (channels : List (ℕ × Channel)) where
  abbrev after : List (ℕ × Channel)
  after = with_order id order (lookup id channels) channels

  round-IsMap : IsMap channels → IsMap after
  unfolding with_order
  round-IsMap h = elim (Option-cases (lookup id channels)) [
    | inl n ↦ rw n h
    | inr (c, n) ↦ elim (Bool-cases (c.order == order)) [
      | inl e ↦ rw (n, e) h
      | inr e ↦ rw (n, e) (insert-IsMap id (record c { order = order }) channels h)
    ]
  ]

  -- The channel after the round.
  round_self :
      (c : Channel)
      → lookup id channels ≡ some c
      → lookup id after ≡ some (record c { order = order })
  round_self c h =
      ap (λ o. lookup id (with_order id order o channels)) h ∙ with_order_self id order c channels h

  round-IsUnder : (parent k : ℕ) → IsUnder channels parent k → IsUnder after parent k
  round-IsUnder parent k (c, held, under) = elim (Bool-cases (k == id)) [
    | inl e ↦
        let same = (==_iff k id).0 e in
        (
          record c { order = order },
          ap (λ j. lookup j after) same
              ∙ round_self c (ap (λ j. lookup j channels) (sym same) ∙ held),
          under,
        )
    | inr e ↦ (c, with_order-lookup id order k _ channels (==-false→ne k id e) ∙ held, under)
  ]

  round-Numbered : Numbered channels → Numbered after
  unfolding with_order
  round-Numbered h k c' held' = elim (Bool-cases (k == id)) [
    | inr e ↦ h k c' (sym (with_order-lookup id order k _ channels (==-false→ne k id e)) ∙ held')
    | inl e ↦
        let same = (==_iff k id).0 e in
        elim (Option-cases (lookup id channels)) [
          | inl n ↦ h k c' (sym (ap (λ o. lookup k (with_order id order o channels)) n) ∙ held')
          | inr (c, n) ↦
              let is : some (record c { order = order }) ≡ some c' =
                sym (round_self c n) ∙ ap (λ j. lookup j after) (sym same) ∙ held' in
              let one : record c { order = order } ≡ c' = some-injective _ _ is in
              sym (ap (λ r. r.id) one) ∙ h id c n ∙ sym same
        ]
  ]

  round-Tame : Tame channels after
  unfolding with_order
  round-Tame k c' held' = elim (Bool-cases (k == id)) [
    | inr e ↦ (c', sym (with_order-lookup id order k _ channels (==-false→ne k id e)) ∙ held', refl)
    | inl e ↦
        let same = (==_iff k id).0 e in
        elim (Option-cases (lookup id channels)) [
          | inl n ↦ (c', sym (ap (λ o. lookup k (with_order id order o channels)) n) ∙ held', refl)
          | inr (c, n) ↦
              let is : some (record c { order = order }) ≡ some c' =
                sym (round_self c n) ∙ ap (λ j. lookup j after) (sym same) ∙ held' in
              let one : record c { order = order } ≡ c' = some-injective _ _ is in
              (c, ap (λ j. lookup j channels) same ∙ n, ap (λ r. r.parent_id) one)
        ]
  ]

pub Tame-trans :
    (channels channels' channels'' : List (ℕ × Channel))
    → Tame channels channels'
    → Tame channels' channels''
    → Tame channels channels''
Tame-trans channels channels' channels'' f g k c'' held'' =
    let (c', held', under') = g k c'' held'' in
    let (c, held, under) = f k c' held' in (c, held, under ∙ under')

pub settle-Tame :
    (before : ℕ) (ids : List ℕ) (channels : List (ℕ × Channel))
    → Tame channels (settle before ids channels)
unfolding settle
settle-Tame before [] channels = λ k c held. (c, held, refl)
settle-Tame before (id ∷ ids) channels =
    Tame-trans channels (after id before channels) (settle id ids (after id before channels))
      (round-Tame id before channels) (settle-Tame id ids (after id before channels))

-- What `settle` leaves as it is.
pub settle-lookup :
    (before k : ℕ) (ids : List ℕ) (channels : List (ℕ × Channel))
    → Avoids k ids
    → lookup k (settle before ids channels) ≡ lookup k channels
unfolding settle
settle-lookup before k [] channels h = refl
settle-lookup before k (id ∷ ids) channels (n, h) =
    settle-lookup id k ids (after id before channels) h
    ∙ with_order-lookup id before k _ channels (λ e. n (sym e))

pub settle-IsMap :
    (before : ℕ) (ids : List ℕ) (channels : List (ℕ × Channel))
    → IsMap channels
    → IsMap (settle before ids channels)
unfolding settle
settle-IsMap before [] channels h = h
settle-IsMap before (id ∷ ids) channels h =
    settle-IsMap id ids (after id before channels) (round-IsMap id before channels h)

pub settle-Numbered :
    (before : ℕ) (ids : List ℕ) (channels : List (ℕ × Channel))
    → Numbered channels
    → Numbered (settle before ids channels)
unfolding settle
settle-Numbered before [] channels h = h
settle-Numbered before (id ∷ ids) channels h =
    settle-Numbered id ids (after id before channels) (round-Numbered id before channels h)

pub All-map : (P Q : ℕ → Type 0) (ids : List ℕ) → ((k : ℕ) → P k → Q k) → All P ids → All Q ids
All-map P Q [] f h = tt
All-map P Q (id ∷ ids) f (p, h) = (f id p, All-map P Q ids f h)

-- Siblings that are held under their parent are in order once they are settled.
pub settle-Ordered :
    (parent before : ℕ) (ids : List ℕ) (channels : List (ℕ × Channel))
    → Distinct ids
    → All (IsUnder channels parent) ids
    → Ordered (settle before ids channels) parent before ids
unfolding settle
settle-Ordered parent before [] channels d h = tt
settle-Ordered parent before (id ∷ ids) channels (a, d) ((c, held, under), h) = (
  (
    record c { order = before },
    settle-lookup id id ids (after id before channels) a ∙ round_self id before channels c held,
    under,
    refl,
  ),
  settle-Ordered parent id ids (after id before channels) d (
      All-map (IsUnder channels parent) (IsUnder (after id before channels) parent) ids
        (round-IsUnder id before channels parent) h),
)

-- A list whose channels are the same is in order as before.
pub Ordered-ext :
    (parent before : ℕ) (ids : List ℕ) (channels channels' : List (ℕ × Channel))
    → All (λ k. lookup k channels' ≡ lookup k channels) ids
    → Ordered channels parent before ids
    → Ordered channels' parent before ids
Ordered-ext parent before [] channels channels' e h = tt
Ordered-ext parent before (id ∷ ids) channels channels' (e, es) ((c, held, under, named), h) =
    ((c, e ∙ held, under, named), Ordered-ext parent id ids channels channels' es h)

pub Ordered-IsUnder :
    (parent before : ℕ) (ids : List ℕ) (channels : List (ℕ × Channel))
    → Ordered channels parent before ids
    → All (IsUnder channels parent) ids
Ordered-IsUnder parent before [] channels h = tt
Ordered-IsUnder parent before (id ∷ ids) channels ((c, held, under, _), h) =
    ((c, held, under), Ordered-IsUnder parent id ids channels h)

-- A channel is under one parent.
pub IsUnder-Avoids :
    (parent other k : ℕ) (ids : List ℕ) (channels : List (ℕ × Channel))
    → parent ≢ other
    → IsUnder channels other k
    → All (IsUnder channels parent) ids
    → Avoids k ids
IsUnder-Avoids parent other k [] channels n u h = tt
IsUnder-Avoids parent other k (id ∷ ids) channels n (c, held, under) ((c', held', under'), h) = (
  λ e.
      let same : c' ≡ c = some-injective _ _ (sym held' ∙ ap (λ j. lookup j channels) e ∙ held) in
      n (sym under' ∙ ap (λ r. r.parent_id) same ∙ under),
  IsUnder-Avoids parent other k ids channels n (c, held, under) h,
)
