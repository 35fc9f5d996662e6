-- ===== src/Channels/Tree/Tests.antt =====
-- A channel with one below it, and events on them.
use teamspeak_js.Common.{
  ℕ, ◌≤◌, ◌<◌, ◌≡◌, refl, ◌==◌, ==_iff, true, false, Bool-cases, inl, inr, [], ◌∷◌, none, some,
  if◌then◌else◌, arith, filter_by,
}
use mathlib.Core.Path.{subst}
use mathlib.Core.Option.{some-injective}
use teamspeak_js.Common.Maps.{lookup, has, insert, delete}
use teamspeak_js.Channels.Tree.{
  top, Channel, Draft, created, moved, deleted, settle, with_order, placed, place_behind,
  insert_under, detach, detach_from, is_within, parent_of, apply_changes,
}
use teamspeak_js.Channels.Tree.Settled.{Ordered}
use teamspeak_js.Channels.Tree.Lists.{Distinct}
use teamspeak_js.Channels.Tree.Placed.{IsOrdered}
use teamspeak_js.Channels.Tree.Returns.{RankedBy}
use teamspeak_js.Channels.Tree.Events.{change_tree-IsOrdered}
use teamspeak_js.Channels.Tree.Flaws.{change_tree-consistent}
use teamspeak_js.Channels.Tree.Steps.{
  change_tree, step, move_held, move_to, create_channel, create_new,
}

abbrev lobby : Channel
lobby = record { id = 1; parent_id = top; order = top; details = [] }

abbrev room : Channel
room = record { id = 2; parent_id = 1; order = top; details = [] }

abbrev tree : Draft
tree = record {
  channels = (1, lobby) ∷ (2, room) ∷ [];
  kids = (top, 1 ∷ []) ∷ (1, 2 ∷ []) ∷ [];
  consistent = true;
}

-- What holds of both entries of a map holds of what is looked up.
two_entries :
    {V : Type 0} (P : ℕ → V → Type 0) (a b : ℕ) (v w : V)
    → P a v
    → P b w
    → (k : ℕ) (x : V) → lookup k ((a, v) ∷ (b, w) ∷ []) ≡ some x
    → P k x
unfolding lookup
two_entries P a b v w p q k x e = elim (Bool-cases (a == k)) [
  | inl s ↦ subst (P k) (some-injective _ _ (rw s at e)) (subst (λ j. P j v) ((==_iff a k).0 s) p)
  | inr s ↦ elim (Bool-cases (b == k)) [
    | inl r ↦
        subst (P k) (some-injective _ _ (rw (s, r) at e)) (subst (λ j. P j w) ((==_iff b k).0 r) q)
    | inr r ↦ absurd (cc (rw (s, r) at e))
  ]
]

tree-IsOrdered : IsOrdered tree
unfolding lookup
tree-IsOrdered = record {
  channels_map = ((λ e. omega (arith, e), tt), (tt, tt));
  kids_map = ((λ e. omega (arith, e), tt), (tt, tt));
  ids = two_entries (λ k c. c.id ≡ k) 1 2 lobby room refl refl;
  listed =
      two_entries (λ parent ids. Distinct ids × Ordered tree.channels parent top ids) top 1 (1 ∷ [])
        (2 ∷ []) ((tt, tt), ((lobby, refl, refl, refl), tt))
        ((tt, tt), ((room, refl, refl, refl), tt));
}

-- The rank of a channel is how deep it is.
abbrev depth : ℕ → ℕ
depth id = if id == 2 then 2 else if id == 1 then 1 else 0

tree-RankedBy : RankedBy depth 2 tree.channels
unfolding lookup
tree-RankedBy = record {
  up = λ id c p held parent.
      two_entries
        (λ k r.
          (q : Channel) → lookup r.parent_id tree.channels ≡ some q → depth r.parent_id < depth k)
        1 2 lobby room (λ q e. omega arith) (λ q e. omega arith) id c held p parent;
  most = two_entries (λ k r. depth k ≤ 2) 1 2 lobby room (omega arith) (omega arith);
}

-- The lobby is deleted before the room in it.
change_tree-IsOrdered_example :
    (d' : Draft) × (change_tree 4 [] (deleted 1) tree ≡ some d') × IsOrdered d'
change_tree-IsOrdered_example =
    change_tree-IsOrdered depth 2 4 (omega arith) [] (deleted 1) tree tree-IsOrdered tree-RankedBy

abbrev flawed : Draft
flawed = record { channels = []; kids = []; consistent = false }

abbrev hall : Draft
hall = record {
  channels = (3, record { id = 3; parent_id = 0; order = 0; details = [] }) ∷ [];
  kids = (0, 3 ∷ []) ∷ [];
  consistent = false;
}

with_hall : change_tree 4 [] (created 3 0 none []) flawed ≡ some hall
unfolding change_tree step create_channel create_new insert_under settle with_order placed parent_of
    apply_changes lookup has insert
with_hall = refl

change_tree-consistent_example : hall.consistent ≡ false
change_tree-consistent_example =
    change_tree-consistent 4 [] (created 3 0 none []) flawed hall refl with_hall

-- A move puts the room behind the lobby, and leaves no list of the lobby.
moved_test :
    change_tree 4 [] (moved 2 0 1) tree
    ≡ some (record {
      channels = (1, lobby) ∷ (2, record room { parent_id = 0; order = 1 }) ∷ [];
      kids = (0, 1 ∷ 2 ∷ []) ∷ [];
      consistent = true;
    })
unfolding change_tree step move_held move_to is_within detach detach_from insert_under settle
    with_order placed place_behind parent_of lookup has insert delete filter_by
moved_test = refl
