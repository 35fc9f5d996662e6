-- ===== src/Channels/Siblings/Tests.antt =====
-- Siblings in another order than theirs, and two that both name one predecessor.
use teamspeak_js.Common.{ℕ, ◌≡◌, refl, true, false, List, [], ◌∷◌, some, arith}
use teamspeak_js.Common.Maps.{lookup, insert}
use teamspeak_js.Channels.Tree.{top, Channel}
use teamspeak_js.Channels.Siblings.{
  Sorting, sort_siblings, holds, all_named, group, follow_from, follow_rest, follow_stack,
}
use teamspeak_js.Channels.Siblings.Once.{Sorts, sort_siblings-Sorts}

abbrev child : ℕ → ℕ → Channel
child id order = record { id = id; parent_id = top; order = order; details = [] }

abbrev shuffled : List Channel
shuffled = child 3 2 ∷ child 1 top ∷ child 2 1 ∷ []

shuffled_test :
    sort_siblings 20 shuffled true ≡ some (record { out = 1 ∷ 2 ∷ 3 ∷ []; consistent = true })
unfolding sort_siblings holds all_named group follow_from follow_rest follow_stack lookup insert
shuffled_test = refl

-- A loop beside a first sibling.
looping_test :
    sort_siblings 20 (child 3 2 ∷ child 2 3 ∷ child 1 top ∷ []) true
    ≡ some (record { out = 1 ∷ 3 ∷ 2 ∷ []; consistent = false })
unfolding sort_siblings holds all_named group follow_from follow_rest follow_stack lookup insert
looping_test = refl

sort_siblings-Sorts_example :
    (s : Sorting) × ((sort_siblings 17 shuffled true ≡ some s) × Sorts shuffled true s)
sort_siblings-Sorts_example = sort_siblings-Sorts 17 shuffled true (omega arith)
