-- ===== src/Channels/Tree/Kept.antt =====
-- src/core/channel-tree.ts: every event on a tree whose lists are in order.
use teamspeak_js.Common.{
  ℕ, ◌≡◌, refl, ap, ◌∙◌, ◌==◌, Bool, ◌||◌, true, false, Bool-cases, Option-cases, inl, inr, List,
  Option, none, some,
}
use mathlib.Core.Path.{subst}
use teamspeak_js.Common.Maps.{lookup, has}
use teamspeak_js.Channels.Tree.{
  top, Details, Channel, Draft, Changes, Event, created, edited, moved, deleted, apply_changes,
  flaw, insert_under, detach, parent_of,
}
use teamspeak_js.Channels.Tree.Placed.{
  Nowhere, IsOrdered, detach-IsDetached, insert_under-IsOrdered,
}
use teamspeak_js.Channels.Tree.Removed.{IsRemoved, remove-IsRemoved}
use teamspeak_js.Channels.Tree.Written.{
  lookup_new, new-IsOrdered, changed-IsOrdered, unheld-Nowhere,
}
use teamspeak_js.Channels.Tree.Steps.{
  set_channel, order_or, create_new, create_after, create_channel, edit_held, move_to, move_held,
  step, change_tree, channel_of,
}

abbrev IsKept : Option Draft → Type 0
IsKept none = Unit
IsKept (some d) = IsOrdered d

removed_none :
    (id : ℕ) (channels : List (ℕ × Channel)) → has id channels ≡ false → lookup id channels ≡ none
unfolding has
removed_none id channels e = elim (Option-cases (lookup id channels)) [
  | inl n ↦ n
  | inr (c, n) ↦ absurd (cc (rw (has, n) at e))
]

-- `parentOf` changes neither the channels nor the lists.
pub parent_of-IsOrdered :
    (parent : ℕ) (d : Draft)
    → IsOrdered d
    → IsOrdered (parent_of parent d).1 × ((parent_of parent d).1.channels ≡ d.channels)
unfolding parent_of
parent_of-IsOrdered parent d t = elim (Bool-cases ((parent == top) || has parent d.channels)) [
  | inl e ↦ rw e (t, refl)
  | inr e ↦ rw e (t, refl)
]

-- A channel that is in no list, written and put under its parent.
put-IsOrdered :
    (id : ℕ) (c : Channel) (after : Option ℕ) (d : Draft)
    → IsOrdered d
    → c.id ≡ id
    → Nowhere id d.kids
    → IsOrdered (insert_under c.parent_id id after (set_channel id c d))
put-IsOrdered id c after d t is nowhere =
    insert_under-IsOrdered c.parent_id id after (set_channel id c d)
      (new-IsOrdered id c d t is nowhere) (c, lookup_new id c d.channels, refl) nowhere

create_new-IsOrdered :
    (defaults : Details) (id parent : ℕ) (order : Option ℕ) (changes : Changes) (d : Draft)
    → IsOrdered d
    → lookup id d.channels ≡ none
    → IsOrdered (create_new defaults id parent order changes d)
unfolding create_new
create_new-IsOrdered defaults id parent order changes d t n =
    let (t', channels_same) = parent_of-IsOrdered parent d t in
    let d' = (parent_of parent d).1 in
    put-IsOrdered id
      (record {
        id = id;
        parent_id = (parent_of parent d).0;
        order = order_or top order;
        details = apply_changes changes defaults;
      })
      order d' t' refl (unheld-Nowhere id d' t' (ap (λ m. lookup id m) channels_same ∙ n))

create_after-IsKept :
    (defaults : Details) (id parent : ℕ) (order : Option ℕ) (changes : Changes) (d : Draft)
    (o : Option Draft)
    → IsRemoved id d o
    → IsKept (create_after defaults id parent order changes o)
create_after-IsKept defaults id parent order changes d none h = tt
create_after-IsKept defaults id parent order changes d (some d') (t, _, gone) =
    create_new-IsOrdered defaults id parent order changes d' t gone

create_channel-IsKept :
    (fuel : ℕ) (defaults : Details) (id parent : ℕ) (order : Option ℕ) (changes : Changes)
    (d : Draft)
    → IsOrdered d
    → IsKept (create_channel fuel defaults id parent order changes d)
unfolding create_channel
create_channel-IsKept fuel defaults id parent order changes d t =
    elim (Bool-cases (has id d.channels)) [
      | inl e ↦ rw e (
          create_after-IsKept defaults id parent order changes (flaw d) _
            (remove-IsRemoved fuel id (flaw d) t))
      | inr e ↦
          rw e (
            create_new-IsOrdered defaults id parent order changes d t
              (removed_none id d.channels e))
    ]

edit_held-IsOrdered :
    (o : Option Channel) (order : Option ℕ) (changes : Changes) (id : ℕ) (d : Draft)
    → IsOrdered d
    → lookup id d.channels ≡ o
    → IsOrdered (edit_held o order changes d)
unfolding edit_held
edit_held-IsOrdered none order changes id d t e = t
edit_held-IsOrdered (some c) none changes id d t e =
    changed-IsOrdered c (record c { details = apply_changes changes c.details }) d t
      (ap (λ k. lookup k d.channels) (t.ids id c e) ∙ e) refl refl refl
edit_held-IsOrdered (some c) (some order) changes id d t e =
    let c' : Channel = record c { details = apply_changes changes c.details } in
    let here = ap (λ k. lookup k d.channels) (t.ids id c e) ∙ e in
    let d' = set_channel c.id c' d in
    let written = lookup_new c.id c' d.channels in
    let (t', nowhere, same, _) =
      detach-IsDetached c d' (changed-IsOrdered c c' d t here refl refl refl) (c', written, refl) in
    insert_under-IsOrdered c.parent_id c.id (some order) (detach c d') t' (c', same ∙ written, refl)
      nowhere

moved-IsOrdered :
    (c : Channel) (parent order : ℕ) (d : Draft)
    → IsOrdered d
    → lookup c.id d.channels ≡ some c
    → IsOrdered (
        insert_under parent c.id
          (some order)
          (set_channel c.id (record c { parent_id = parent }) (detach c d)))
moved-IsOrdered c parent order d t here =
    let (t', nowhere, _, _) = detach-IsDetached c d t (c, here, refl) in
    put-IsOrdered c.id (record c { parent_id = parent }) (some order) (detach c d) t' refl nowhere

move_to-IsKept :
    (c : Channel) (parent order : ℕ) (d : Draft) (o : Option Bool)
    → IsOrdered d
    → lookup c.id d.channels ≡ some c
    → IsKept (move_to c parent order d o)
unfolding move_to
move_to-IsKept c parent order d none t here = tt
move_to-IsKept c parent order d (some true) t here =
    moved-IsOrdered c c.parent_id order (flaw d) t here
move_to-IsKept c parent order d (some false) t here = moved-IsOrdered c parent order d t here

move_held-IsKept :
    (fuel : ℕ) (o : Option Channel) (parent order id : ℕ) (d : Draft)
    → IsOrdered d
    → lookup id d.channels ≡ o
    → IsKept (move_held fuel o parent order d)
unfolding move_held
move_held-IsKept fuel none parent order id d t e = t
move_held-IsKept fuel (some c) parent order id d t e =
    let (t', same) = parent_of-IsOrdered parent d t in
    move_to-IsKept c (parent_of parent d).0 order (parent_of parent d).1 _ t'
      (ap (λ m. lookup c.id m) same ∙ ap (λ k. lookup k d.channels) (t.ids id c e) ∙ e)

deleted-IsKept : (id : ℕ) (d : Draft) (o : Option Draft) → IsRemoved id d o → IsKept o
deleted-IsKept id d none h = tt
deleted-IsKept id d (some d') h = h.0

step-IsKept :
    (fuel : ℕ) (defaults : Details) (event : Event) (d : Draft)
    → IsOrdered d
    → IsKept (step fuel defaults event d)
unfolding step
step-IsKept fuel defaults (created id parent order changes) d t =
    create_channel-IsKept fuel defaults id parent order changes d t
step-IsKept fuel defaults (edited id order changes) d t =
    edit_held-IsOrdered _ order changes id d t refl
step-IsKept fuel defaults (moved id parent order) d t =
    move_held-IsKept fuel _ parent order id d t refl
step-IsKept fuel defaults (deleted id) d t = deleted-IsKept id d _ (remove-IsRemoved fuel id d t)

pub change_tree-IsKept :
    (fuel : ℕ) (defaults : Details) (event : Event) (d d' : Draft)
    → IsOrdered d
    → change_tree fuel defaults event d ≡ some d'
    → IsOrdered d'
unfolding change_tree
change_tree-IsKept fuel defaults event d d' t e = elim (Bool-cases (channel_of event == top)) [
  | inl b ↦ let is : some (flaw d) ≡ some d' = rw b at e in subst IsKept is t
  | inr b ↦
      let is : step fuel defaults event d ≡ some d' = rw b at e in
      subst IsKept is (step-IsKept fuel defaults event d t)
]
