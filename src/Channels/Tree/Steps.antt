-- ===== src/Channels/Tree/Steps.antt =====
-- src/core/channel-tree.ts: `create`, `edit`, `move`, `remove` and `#change`, and what a tree is
-- asked for. The walks up and down the tree run on fuel.
use teamspeak_js.Common.{
  ℕ, zero, suc, Bool, ◌==◌, if◌then◌else◌, List, [], ◌∷◌, length, Option, none, some,
}
use teamspeak_js.Common.Maps.{lookup, has, insert, delete}
use teamspeak_js.Channels.Tree.{
  top, Details, Channel, Draft, Changes, Event, created, edited, moved, deleted, apply_changes,
  flaw, list_of, insert_under, detach, is_within, parent_of,
}

-- A change of the channels.
abbrev pub set_channel : ℕ → Channel → Draft → Draft
set_channel id c d = record d { channels = insert id c d.channels }

abbrev pub and_then : Option Draft → (Draft → Option Draft) → Option Draft
and_then none f = none
and_then (some d) f = f d

-- The loop over `below` in `remove`.
abbrev pub each : (ℕ → Draft → Option Draft) → List ℕ → Draft → Option Draft
each f [] d = some d
each f (id ∷ ids) d = and_then (f id d) (each f ids)

-- The last two lines of `remove`.
abbrev pub forget : ℕ → Option Draft → Option Draft
forget id none = none
forget id (some d) = some (record d { kids = delete id d.kids; channels = delete id d.channels })

-- `remove` behind `detach`, given the list of children that is left.
abbrev pub remove_below : (ℕ → Draft → Option Draft) → ℕ → Option (List ℕ) → Draft → Option Draft
remove_below f id none d = forget id (some d)
remove_below f id (some below) d = forget id (each f below (flaw d))

abbrev pub remove_held : (ℕ → Draft → Option Draft) → ℕ → Option Channel → Draft → Option Draft
remove_held f id none d = some (flaw d)
remove_held f id (some c) d = let d' = detach c d in remove_below f id (lookup id d'.kids) d'

-- `remove`; `none` means that the fuel ran out.
unfoldable pub remove : ℕ → ℕ → Draft → Option Draft
remove zero id d = none
remove (suc fuel) id d = remove_held (remove fuel) id (lookup id d.channels) d

-- `order` of a created channel before it is placed.
abbrev pub order_or : ℕ → Option ℕ → ℕ
order_or old none = old
order_or old (some order) = order

-- `create` behind its first test.
unfoldable pub create_new :
    (defaults : Details) (id parent : ℕ) (order : Option ℕ) → Changes → Draft → Draft
create_new defaults id parent order changes d =
    let (parent', d') = parent_of parent d in
    let c : Channel = record {
      id = id;
      parent_id = parent';
      order = order_or top order;
      details = apply_changes changes defaults;
    } in
    insert_under parent' id order (set_channel id c d')

abbrev pub create_after :
    (defaults : Details) (id parent : ℕ) (order : Option ℕ) → Changes → Option Draft → Option Draft
create_after defaults id parent order changes none = none
create_after defaults id parent order changes (some d) =
    some (create_new defaults id parent order changes d)

-- `create`.
unfoldable pub create_channel :
    ℕ → (defaults : Details) (id parent : ℕ) (order : Option ℕ) → Changes → Draft → Option Draft
create_channel fuel defaults id parent order changes d =
    if has id d.channels
    then create_after defaults id parent order changes (remove fuel id (flaw d))
    else some (create_new defaults id parent order changes d)

-- `edit`, given the channel.
unfoldable pub edit_held : Option Channel → (order : Option ℕ) → Changes → Draft → Draft
edit_held none order changes d = flaw d
edit_held (some c) none changes d =
    set_channel c.id (record c { details = apply_changes changes c.details }) d
edit_held (some c) (some order) changes d =
    let c' : Channel = record c { details = apply_changes changes c.details } in
    insert_under c.parent_id c.id (some order) (detach c (set_channel c.id c' d))

-- `move` behind `isWithin`.
unfoldable pub move_to : Channel → (parent order : ℕ) → Draft → Option Bool → Option Draft
move_to c parent order d none = none
move_to c parent order d (some within) =
    let parent' = if within then c.parent_id else parent in
    let d' = if within then flaw d else d in
    some (
      insert_under parent' c.id (some order)
        (set_channel c.id (record c { parent_id = parent' }) (detach c d')))

-- `move`, given the channel.
unfoldable pub move_held : ℕ → Option Channel → (parent order : ℕ) → Draft → Option Draft
move_held fuel none parent order d = some (flaw d)
move_held fuel (some c) parent order d =
    let (parent', d') = parent_of parent d in
    move_to c parent' order d' (is_within fuel (lookup parent' d'.channels) c.id d'.channels)

-- The change of an event on a channel that can be named.
unfoldable pub step : ℕ → Details → Event → Draft → Option Draft
step fuel defaults (created id parent order changes) d =
    create_channel fuel defaults id parent order changes d
step fuel defaults (edited id order changes) d =
    some (edit_held (lookup id d.channels) order changes d)
step fuel defaults (moved id parent order) d = move_held fuel (lookup id d.channels) parent order d
step fuel defaults (deleted id) d = remove fuel id d

abbrev pub channel_of : Event → ℕ
channel_of (created id parent order changes) = id
channel_of (edited id order changes) = id
channel_of (moved id parent order) = id
channel_of (deleted id) = id

-- `#change`: the next tree.
unfoldable pub change_tree : ℕ → Details → Event → Draft → Option Draft
change_tree fuel defaults event d =
    if channel_of event == top then some (flaw d) else step fuel defaults event d

-- `children`; the code asserts that each is held.
abbrev pub held_of : List ℕ → List (ℕ × Channel) → List Channel
held_of [] channels = []
held_of (id ∷ ids) channels = elim (lookup id channels) [
  | none ↦ held_of ids channels
  | some c ↦ c ∷ held_of ids channels
]

unfoldable pub children : ℕ → Draft → List Channel
children parent d = held_of (list_of (lookup parent d.kids)) d.channels

-- The loop of `path`, which has a bound: `out` grows at its front.
unfoldable pub path_from : ℕ → Option Channel → List Channel → List (ℕ × Channel) → List Channel
path_from zero at out channels = out
path_from (suc rounds) none out channels = out
path_from (suc rounds) (some c) out channels =
    path_from rounds (lookup c.parent_id channels) (c ∷ out) channels

-- `path`.
unfoldable pub path : ℕ → Draft → List Channel
path id d = path_from (suc (length d.channels)) (lookup id d.channels) [] d.channels
