-- ===== src/Channels/Tree.antt =====
-- src/core/channel-tree.ts: the class `ChannelTree` and the functions that build the next tree. The
-- properties of a channel but its id, parent and order are a map from their numbers to their values;
-- a created channel starts from the ones given as `defaults`. Where the code asserts that a channel
-- is held (`!`), a missing one is left alone here. `ChannelTree.from` is not modelled.
pub mod Steps
pub mod Flaws
pub mod Lists
pub mod Settled
pub mod Placed
pub mod Removed
pub mod Written
pub mod Kept
pub mod Returns
pub mod Events
mod Tests
use teamspeak_js.Common.{
  ℕ, zero, suc, ◌+◌, Bool, true, false, ◌||◌, not, ◌==◌, if◌then◌else◌, List, [], ◌∷◌, ◌++◌, length,
  filter_by, Option, none, some,
}
use teamspeak_js.Common.Maps.{lookup, has, insert, delete}
use teamspeak_js.Language.Text.{Text}

-- `TOP`: the parent of a top-level channel, and the order of a first sibling.
abbrev pub top : ℕ
top = 0

abbrev pub Details : Type 0
Details = List (ℕ × Text)

-- `Channel`.
pub record Channel : Type 0 where
  pub id : ℕ
  pub parent_id : ℕ
  pub order : ℕ
  pub details : Details

-- `Draft`, and the fields of a `ChannelTree`.
pub record Draft : Type 0 where
  pub channels : List (ℕ × Channel)
  pub kids : List (ℕ × List ℕ)
  pub consistent : Bool

-- The events; a property without a value is one to delete.
abbrev pub Changes : Type 0
Changes = List (ℕ × Option Text)

pub data Event : Type 0 where
  created : (channel_id parent_id : ℕ) → (order : Option ℕ) → Changes → Event
  edited : (channel_id : ℕ) → (order : Option ℕ) → Changes → Event
  moved : (channel_id parent_id order : ℕ) → Event
  deleted : (channel_id : ℕ) → Event

-- `applyChannelChanges`, of src/core/api/command.ts, on those properties.
unfoldable pub apply_changes : Changes → Details → Details
apply_changes [] details = details
apply_changes ((key, none) ∷ changes) details = apply_changes changes (delete key details)
apply_changes ((key, some value) ∷ changes) details =
    apply_changes changes (insert key value details)

-- `draft.consistent = false`.
abbrev pub flaw : Draft → Draft
flaw d = record d { consistent = false }

-- One round of the loop of `settle`.
unfoldable pub with_order :
    (id order : ℕ) → Option Channel → List (ℕ × Channel) → List (ℕ × Channel)
with_order id order none channels = channels
with_order id order (some c) channels =
    if c.order == order then channels else insert id (record c { order = order }) channels

-- `settle`, behind the channel `before`.
unfoldable pub settle : (before : ℕ) → List ℕ → List (ℕ × Channel) → List (ℕ × Channel)
settle before [] channels = channels
settle before (id ∷ ids) channels =
    settle id ids (with_order id before (lookup id channels) channels)

abbrev pub behind_first : ℕ → Option (List ℕ) → Option (List ℕ)
behind_first sibling none = none
behind_first sibling (some ids) = some (sibling ∷ ids)

-- A list with `id` behind the first place where it has `after`.
unfoldable pub place_behind : (after id : ℕ) → List ℕ → Option (List ℕ)
place_behind after id [] = none
place_behind after id (sibling ∷ ids) =
    if sibling == after
    then some (sibling ∷ id ∷ ids)
    else behind_first sibling (place_behind after id ids)

-- `?? []`.
abbrev pub list_of : Option (List ℕ) → List ℕ
list_of none = []
list_of (some ids) = ids

-- `next` of `insert`, and whether the place was found.
unfoldable pub placed : (after : Option ℕ) (id : ℕ) → List ℕ → List ℕ × Bool
placed none id ids = (ids ++ id ∷ [], false)
placed (some after) id ids =
    if after == top then (id ∷ ids, true) else elim (place_behind after id ids) [
      | none ↦ (ids ++ id ∷ [], false)
      | some next ↦ (next, true)
    ]

-- `draft.kids.set(parent, next); settle(draft, next)`.
abbrev pub set_kids : ℕ → List ℕ → Draft → Draft
set_kids parent next d = record d {
  kids = insert parent next d.kids;
  channels = settle top next d.channels;
}

-- `insert`.
unfoldable pub insert_under : (parent id : ℕ) (after : Option ℕ) → Draft → Draft
insert_under parent id after d =
    let (next, found) = placed after id (list_of (lookup parent d.kids)) in
    let d' = set_kids parent next d in if found then d' else flaw d'

-- A list of children without `id`, which goes when nothing is left.
abbrev pub set_left : ℕ → List ℕ → Draft → Draft
set_left parent [] d = record d { kids = delete parent d.kids }
set_left parent (next ∷ ids) d = set_kids parent (next ∷ ids) d

abbrev pub without : ℕ → List ℕ → List ℕ
without id = filter_by (λ sibling. not (sibling == id))

-- `detach`, given the list of the parent.
unfoldable pub detach_from : (parent id : ℕ) → Option (List ℕ) → Draft → Draft
detach_from parent id none d = d
detach_from parent id (some ids) d = set_left parent (without id ids) d

-- `detach`, of a channel that is held.
unfoldable pub detach : Channel → Draft → Draft
detach c d = detach_from c.parent_id c.id (lookup c.parent_id d.kids) d

-- `isWithin`, from the channel that was looked up; `none` means that the fuel ran out.
unfoldable pub is_within : ℕ → Option Channel → (ancestor : ℕ) → List (ℕ × Channel) → Option Bool
is_within zero at ancestor channels = none
is_within (suc fuel) none ancestor channels = some false
is_within (suc fuel) (some c) ancestor channels =
    let further = is_within fuel (lookup c.parent_id channels) ancestor channels in
    if c.id == ancestor then some true else further

-- `parentOf`.
unfoldable pub parent_of : ℕ → Draft → ℕ × Draft
parent_of parent d = if (parent == top) || has parent d.channels then (parent, d) else (top, flaw d)
