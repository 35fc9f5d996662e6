-- ===== src/Channels/Siblings.antt =====
-- src/core/channel-tree.ts: the function `sortSiblings`. `out` holds what `seen` holds, and a frame of
-- the stack is what is left of its list.
pub mod Sorted
pub mod Order
pub mod Once
mod Tests
use teamspeak_js.Common.{
  ℕ, zero, suc, ◌+◌, Bool, true, false, ◌&&◌, ◌||◌, not, ◌==◌, ltb, if◌then◌else◌, List, [], ◌∷◌,
  ◌++◌, length, map, Option, none, some,
}
use teamspeak_js.Common.Maps.{lookup, insert}
use teamspeak_js.Channels.Tree.{top, Channel}

-- `Set.prototype.has`.
unfoldable pub holds : ℕ → List ℕ → Bool
holds id [] = false
holds id (other ∷ ids) = other == id || holds id ids

abbrev pub channels_of : Option (List Channel) → List Channel
channels_of none = []
channels_of (some list) = list

-- The loop that fills `after`, and whether it leaves the draft consistent.
abbrev pub is_named : List ℕ → Channel → Bool
is_named ids channel = not (channel.order == top) && holds channel.order ids

unfoldable pub all_named : List ℕ → List Channel → Bool
all_named ids [] = true
all_named ids (channel ∷ channels) =
    (channel.order == top || is_named ids channel) && all_named ids channels

unfoldable pub group : List ℕ → List Channel → List (ℕ × List Channel) → List (ℕ × List Channel)
group ids [] after = after
group ids (channel ∷ channels) after =
    let key = if is_named ids channel then channel.order else top in
    group ids channels (insert key (channels_of (lookup key after) ++ channel ∷ []) after)

-- What the loops change.
pub record Sorting : Type 0 where
  pub out : List ℕ
  pub consistent : Bool

-- `enter`: the list that it pushes, and the flag.
abbrev pub entered : List (ℕ × List Channel) → ℕ → List Channel
entered after from = channels_of (lookup from after)

abbrev pub flag_entered : List Channel → Sorting → Sorting
flag_entered list s = record s { consistent = s.consistent && not (ltb 1 (length list)) }

-- One more in `out` and `seen`.
abbrev pub mark_seen : ℕ → Sorting → Sorting
mark_seen id s = record s { out = s.out ++ id ∷ [] }

-- The loop of `follow`.
unfoldable pub follow_stack :
    (fuel : ℕ) → List (ℕ × List Channel) → List (List Channel) → Sorting → Option Sorting
follow_stack zero after stack s = none
follow_stack (suc fuel) after [] s = some s
follow_stack (suc fuel) after ([] ∷ stack) s = follow_stack fuel after stack s
follow_stack (suc fuel) after ((channel ∷ list) ∷ stack) s =
    let next = entered after channel.id in
    let seen = holds channel.id s.out in
    follow_stack fuel after (if seen then list ∷ stack else next ∷ list ∷ stack)
      (if seen then s else flag_entered next (mark_seen channel.id s))

-- `follow`.
unfoldable pub follow_from : (fuel : ℕ) → List (ℕ × List Channel) → ℕ → Sorting → Option Sorting
follow_from fuel after start s =
    let list = entered after start in follow_stack fuel after (list ∷ []) (flag_entered list s)

-- The last loop: those that no first one leads to.
unfoldable pub follow_rest :
    (fuel : ℕ) → List (ℕ × List Channel) → List Channel → Option Sorting → Option Sorting
follow_rest fuel after [] o = o
follow_rest fuel after (channel ∷ channels) none = none
follow_rest fuel after (channel ∷ channels) (some s) = follow_rest fuel after channels (
    if holds channel.id s.out
    then some s
    else follow_from fuel after channel.id (record (mark_seen channel.id s) { consistent = false }))

-- `sortSiblings`.
unfoldable pub sort_siblings : (fuel : ℕ) → List Channel → Bool → Option Sorting
sort_siblings fuel siblings consistent =
    let ids = map (λ channel. channel.id) siblings in
    let after = group ids siblings [] in
    follow_rest fuel after siblings (
      follow_from fuel after top
        (record { out = []; consistent = consistent && all_named ids siblings }))
