-- ===== src/Channels/Tree/Flaws.antt =====
-- src/core/channel-tree.ts: what the operations make of `consistent`.
use teamspeak_js.Common.{
  ◌∙◌, ℕ, zero, suc, ◌≡◌, refl, ◌==◌, Bool, ◌||◌, true, false, Bool-cases, Option-cases, inl, inr,
  List, [], ◌∷◌, Option, none, some,
}
use mathlib.Core.Path.{subst}
use teamspeak_js.Common.Maps.{lookup, has}
use teamspeak_js.Channels.Tree.{
  top, Details, Channel, Draft, Changes, Event, created, edited, moved, deleted, flaw, list_of,
  placed, without, set_left, detach_from, insert_under, detach, parent_of,
}
use teamspeak_js.Channels.Tree.Steps.{
  each, forget, remove_below, remove_held, remove, create_new, create_after, create_channel,
  edit_held, move_to, move_held, step, change_tree, channel_of,
}

-- A result, where there is one, is flawed.
abbrev IsFlawed : Option Draft → Type 0
IsFlawed none = Unit
IsFlawed (some d) = d.consistent ≡ false

insert_under_flawed :
    (parent id : ℕ) (after : Option ℕ) (d : Draft)
    → d.consistent ≡ false
    → (insert_under parent id after d).consistent ≡ false
unfolding insert_under
insert_under_flawed parent id after d h =
    elim (Bool-cases (placed after id (list_of (lookup parent d.kids))).1) [
      | inl e ↦ rw e h
      | inr e ↦ rw e refl
    ]

set_left_flawed :
    (parent : ℕ) (ids : List ℕ) (d : Draft) → (set_left parent ids d).consistent ≡ d.consistent
set_left_flawed parent [] d = refl
set_left_flawed parent (id ∷ ids) d = refl

detach_from_flawed :
    (parent id : ℕ) (o : Option (List ℕ)) (d : Draft)
    → (detach_from parent id o d).consistent ≡ d.consistent
unfolding detach_from
detach_from_flawed parent id none d = refl
detach_from_flawed parent id (some ids) d = set_left_flawed parent (without id ids) d

detach_flawed : (c : Channel) (d : Draft) → (detach c d).consistent ≡ d.consistent
unfolding detach
detach_flawed c d = detach_from_flawed c.parent_id c.id _ d

parent_of_flawed :
    (parent : ℕ) (d : Draft) → d.consistent ≡ false → (parent_of parent d).1.consistent ≡ false
unfolding parent_of
parent_of_flawed parent d h = elim (Bool-cases ((parent == top) || has parent d.channels)) [
  | inl e ↦ rw e h
  | inr e ↦ rw e refl
]

each-IsFlawed :
    (f : ℕ → Draft → Option Draft) (ids : List ℕ) (d : Draft)
    → ((id : ℕ) (d : Draft) → d.consistent ≡ false → IsFlawed (f id d))
    → d.consistent ≡ false
    → IsFlawed (each f ids d)
each-IsFlawed f [] d hf h = h
each-IsFlawed f (id ∷ ids) d hf h = elim (Option-cases (f id d)) [
  | inl e ↦ rw e tt
  | inr (d', e) ↦ rw e (each-IsFlawed f ids d' hf (rw e at (hf id d h)))
]

forget-IsFlawed : (id : ℕ) (o : Option Draft) → IsFlawed o → IsFlawed (forget id o)
forget-IsFlawed id none h = tt
forget-IsFlawed id (some d) h = h

remove_below-IsFlawed :
    (f : ℕ → Draft → Option Draft) (id : ℕ) (o : Option (List ℕ)) (d : Draft)
    → ((id : ℕ) (d : Draft) → d.consistent ≡ false → IsFlawed (f id d))
    → d.consistent ≡ false
    → IsFlawed (remove_below f id o d)
remove_below-IsFlawed f id none d hf h = forget-IsFlawed id (some d) h
remove_below-IsFlawed f id (some below) d hf h =
    forget-IsFlawed id _ (each-IsFlawed f below (flaw d) hf refl)

remove_held-IsFlawed :
    (f : ℕ → Draft → Option Draft) (id : ℕ) (o : Option Channel) (d : Draft)
    → ((id : ℕ) (d : Draft) → d.consistent ≡ false → IsFlawed (f id d))
    → d.consistent ≡ false
    → IsFlawed (remove_held f id o d)
remove_held-IsFlawed f id none d hf h = refl
remove_held-IsFlawed f id (some c) d hf h =
    remove_below-IsFlawed f id _ (detach c d) hf (detach_flawed c d ∙ h)

remove-IsFlawed : (fuel id : ℕ) (d : Draft) → d.consistent ≡ false → IsFlawed (remove fuel id d)
unfolding remove
remove-IsFlawed zero id d h = tt
remove-IsFlawed (suc fuel) id d h =
    remove_held-IsFlawed (remove fuel) id _ d (remove-IsFlawed fuel) h

create_new_flawed :
    (defaults : Details) (id parent : ℕ) (order : Option ℕ) (changes : Changes) (d : Draft)
    → d.consistent ≡ false
    → (create_new defaults id parent order changes d).consistent ≡ false
unfolding create_new
create_new_flawed defaults id parent order changes d h =
    insert_under_flawed _ id order _ (parent_of_flawed parent d h)

create_after-IsFlawed :
    (defaults : Details) (id parent : ℕ) (order : Option ℕ) (changes : Changes) (o : Option Draft)
    → IsFlawed o
    → IsFlawed (create_after defaults id parent order changes o)
create_after-IsFlawed defaults id parent order changes none h = tt
create_after-IsFlawed defaults id parent order changes (some d) h =
    create_new_flawed defaults id parent order changes d h

create-IsFlawed :
    (fuel : ℕ) (defaults : Details) (id parent : ℕ) (order : Option ℕ) (changes : Changes)
    (d : Draft)
    → d.consistent ≡ false
    → IsFlawed (create_channel fuel defaults id parent order changes d)
unfolding create_channel
create-IsFlawed fuel defaults id parent order changes d h = elim (Bool-cases (has id d.channels)) [
  | inl e ↦ rw e (
      create_after-IsFlawed defaults id parent order changes _
        (remove-IsFlawed fuel id (flaw d) refl))
  | inr e ↦ rw e (create_new_flawed defaults id parent order changes d h)
]

edit_held_flawed :
    (o : Option Channel) (order : Option ℕ) (changes : Changes) (d : Draft)
    → d.consistent ≡ false
    → (edit_held o order changes d).consistent ≡ false
unfolding edit_held
edit_held_flawed none order changes d h = refl
edit_held_flawed (some c) none changes d h = h
edit_held_flawed (some c) (some order) changes d h =
    insert_under_flawed c.parent_id c.id (some order) _ (detach_flawed c _ ∙ h)

move_to-IsFlawed :
    (c : Channel) (parent order : ℕ) (d : Draft) (o : Option Bool)
    → d.consistent ≡ false
    → IsFlawed (move_to c parent order d o)
unfolding move_to
move_to-IsFlawed c parent order d none h = tt
move_to-IsFlawed c parent order d (some true) h =
    insert_under_flawed c.parent_id c.id (some order) _ (detach_flawed c _)
move_to-IsFlawed c parent order d (some false) h =
    insert_under_flawed parent c.id (some order) _ (detach_flawed c _ ∙ h)

move_held-IsFlawed :
    (fuel : ℕ) (o : Option Channel) (parent order : ℕ) (d : Draft)
    → d.consistent ≡ false
    → IsFlawed (move_held fuel o parent order d)
unfolding move_held
move_held-IsFlawed fuel none parent order d h = refl
move_held-IsFlawed fuel (some c) parent order d h =
    move_to-IsFlawed c _ order _ _ (parent_of_flawed parent d h)

step-IsFlawed :
    (fuel : ℕ) (defaults : Details) (event : Event) (d : Draft)
    → d.consistent ≡ false
    → IsFlawed (step fuel defaults event d)
unfolding step
step-IsFlawed fuel defaults (created id parent order changes) d h =
    create-IsFlawed fuel defaults id parent order changes d h
step-IsFlawed fuel defaults (edited id order changes) d h = edit_held_flawed _ order changes d h
step-IsFlawed fuel defaults (moved id parent order) d h = move_held-IsFlawed fuel _ parent order d h
step-IsFlawed fuel defaults (deleted id) d h = remove-IsFlawed fuel id d h

-- A tree that is not consistent is not after any event, whatever the event names.
pub change_tree-consistent :
    (fuel : ℕ) (defaults : Details) (event : Event) (d d' : Draft)
    → d.consistent ≡ false
    → change_tree fuel defaults event d ≡ some d'
    → d'.consistent ≡ false
unfolding change_tree
change_tree-consistent fuel defaults event d d' h e = elim (Bool-cases (channel_of event == top)) [
  | inl t ↦ cc (rw t at e)
  | inr t ↦
      let step_is : step fuel defaults event d ≡ some d' = rw t at e in
      subst IsFlawed step_is (step-IsFlawed fuel defaults event d h)
]
