-- ===== src/Channels/Tree/Events.antt =====
-- src/core/channel-tree.ts: the next tree after an event.
use teamspeak_js.Common.{
  ℕ, ◌+◌, ◌≤◌, ◌≡◌, refl, sym, ap, ◌==◌, Bool, Bool-cases, inl, inr, Option, none, some, arith,
}
use mathlib.Core.Path.{subst}
use teamspeak_js.Common.Maps.{has}
use teamspeak_js.Channels.Tree.{
  top, Details, Channel, Draft, Changes, Event, created, edited, moved, deleted, flaw, parent_of,
}
use teamspeak_js.Channels.Tree.Placed.{IsOrdered}
use teamspeak_js.Channels.Tree.Kept.{change_tree-IsKept, parent_of-IsOrdered}
use teamspeak_js.Channels.Tree.Returns.{Returns, RankedBy, is_within-some, remove-Ends}
use teamspeak_js.Channels.Tree.Steps.{
  create_new, create_after, create_channel, remove, move_to, move_held, step, change_tree,
  channel_of,
}

module _ (rank : ℕ → ℕ) (bound fuel : ℕ) (enough : bound + 2 ≤ fuel) (defaults : Details) where
  remove-Returns :
      (id : ℕ) (d : Draft)
      → IsOrdered d
      → RankedBy rank bound d.channels
      → Returns (remove fuel id d)
  remove-Returns id d t r =
      let (d', is, _, _) =
        remove-Ends rank bound fuel id d t r
          (omega (arith, enough), λ c held. omega (arith, enough)) in
      (d', is)

  create_channel-Returns :
      (id parent : ℕ) (order : Option ℕ) (changes : Changes) (d : Draft)
      → IsOrdered d
      → RankedBy rank bound d.channels
      → Returns (create_channel fuel defaults id parent order changes d)
  unfolding create_channel
  create_channel-Returns id parent order changes d t r = elim (Bool-cases (has id d.channels)) [
    | inl e ↦
        let (d', is) = remove-Returns id (flaw d) t r in
        (
          create_new defaults id parent order changes d',
          rw e (ap (create_after defaults id parent order changes) is),
        )
    | inr e ↦ (create_new defaults id parent order changes d, rw e refl)
  ]

  move_to-Returns :
      (c : Channel) (parent order : ℕ) (d : Draft) (o : Option Bool) (b : Bool)
      → o ≡ some b
      → Returns (move_to c parent order d o)
  unfolding move_to
  move_to-Returns c parent order d o b e = (_, ap (move_to c parent order d) e)

  move_held-Returns :
      (o : Option Channel) (parent order : ℕ) (d : Draft)
      → IsOrdered d
      → RankedBy rank bound d.channels
      → Returns (move_held fuel o parent order d)
  unfolding move_held
  move_held-Returns none parent order d t r = (_, refl)
  move_held-Returns (some c) parent order d t r =
      let (_, same) = parent_of-IsOrdered parent d t in
      let r' = subst (RankedBy rank bound) (sym same) r in
      let at = (parent_of parent d).0 in
      let (b, is) =
        is_within-some rank bound fuel at c.id (parent_of parent d).1.channels r'
          (omega (arith, enough))
          (λ p held. let low = r'.most at p held in omega (arith, low, enough)) in
      move_to-Returns c at order (parent_of parent d).1 _ b is

  step-Returns :
      (event : Event) (d : Draft)
      → IsOrdered d
      → RankedBy rank bound d.channels
      → Returns (step fuel defaults event d)
  unfolding step
  step-Returns (created id parent order changes) d t r =
      create_channel-Returns id parent order changes d t r
  step-Returns (edited id order changes) d t r = (_, refl)
  step-Returns (moved id parent order) d t r = move_held-Returns _ parent order d t r
  step-Returns (deleted id) d t r = remove-Returns id d t r

  -- Let a tree have no loop, its channels having ranks up to a bound that grow from parent to child,
  -- and fuel two above the bound; and let each list of it have channels that are held, each once,
  -- all of that list's parent and each naming the one before it as its order. Then there is a next
  -- tree after any event, placed or not, and its lists are so as well.
  pub change_tree-IsOrdered :
      (event : Event) (d : Draft)
      → IsOrdered d
      → RankedBy rank bound d.channels
      → (d' : Draft) × (change_tree fuel defaults event d ≡ some d') × IsOrdered d'
  unfolding change_tree
  change_tree-IsOrdered event d t r = elim (Bool-cases (channel_of event == top)) [
    | inl e ↦ (flaw d, rw e refl, t)
    | inr e ↦
        let (d', is) = step-Returns event d t r in
        let done : change_tree fuel defaults event d ≡ some d' = rw e is in
        (d', done, change_tree-IsKept fuel defaults event d d' t done)
  ]
