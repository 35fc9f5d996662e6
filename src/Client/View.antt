-- ===== src/Client/View.antt =====
-- src/client/view.ts: the classes `ViewStore` and `Roster`. A record of the roster or of a group is a
-- text, the channel of a client stands beside it, and properties of the server have numbers. The
-- entries that `serverEntries` picks are given. What `whenReady` returned is a number among
-- `waiters` until it is settled; then it stands in `outcomes`. `tree_from` is `ChannelTree.from`, and
-- a channel event that runs out of fuel leaves the store as it was.
pub mod Calls
pub mod Keeps
pub mod Contract
pub mod Waiters
mod Tests
use teamspeak_js.Common.{
  ℕ, zero, suc, ◌+◌, Bool, true, false, ◌&&◌, ◌||◌, not, ◌==◌, if◌then◌else◌, List, [], ◌∷◌, ◌++◌,
  length, map, eq_list, Option, none, some, ltb,
}
use teamspeak_js.Common.Maps.{lookup, has, insert, delete}
use teamspeak_js.Language.Text.{Text}
use teamspeak_js.Channels.Tree.{Channel, Draft, Event, Details}
use teamspeak_js.Channels.Tree.Steps.{change_tree}

-- `ViewStatus`.
pub data ViewStatus : Type 0 where
  empty loading live stale : ViewStatus

abbrev pub is_loading : ViewStatus → Bool
is_loading loading = true
is_loading _ = false

abbrev pub is_live : ViewStatus → Bool
is_live live = true
is_live _ = false

-- A client of the roster: its channel and the rest of its record.
pub record ClientEntry : Type 0 where
  pub channel_id : ℕ
  pub rest : Text

-- How a promise of `whenReady` was settled.
pub data Outcome : Type 0 where
  resolved : Outcome
  rejected : Option ℕ → Outcome

-- The fields of `ViewStore` but for its caches; `notified` counts the calls of `changed`.
pub record ViewStore : Type 0 where
  pub status : ViewStatus
  pub revision : ℕ
  pub tree : Draft
  pub rows : List Channel
  pub roster : List (ℕ × ClientEntry)
  pub server_groups : List (ℕ × Text)
  pub channel_groups : List (ℕ × Text)
  pub server_groups_seen : Bool
  pub channel_groups_seen : Bool
  pub server : List (ℕ × Text)
  pub announced : ℕ
  pub waiters : List ℕ
  pub outcomes : List (ℕ × Outcome)
  pub ended_by : Option ℕ
  pub notified : ℕ

-- `#bump`.
abbrev pub bump : ViewStore → ViewStore
bump s = record s {
  revision = s.revision + 1;
  notified = if is_loading s.status then s.notified else s.notified + 1;
}

abbrev pub bump_if : Bool → ViewStore → ViewStore
bump_if true s = bump s
bump_if false s = s

-- `#groupsLoaded`.
abbrev pub groups_loaded : ViewStore → Bool
groups_loaded s = s.server_groups_seen && s.channel_groups_seen

-- `Roster.set`, `Roster.delete` and `Roster.clear`.
unfoldable pub roster_set : ℕ → ClientEntry → ViewStore → ViewStore
roster_set id entry s = bump (record s { roster = insert id entry s.roster })

unfoldable pub roster_delete : ℕ → ViewStore → ViewStore
roster_delete id s = if has id s.roster then bump (record s { roster = delete id s.roster }) else s

unfoldable pub roster_clear : ViewStore → ViewStore
roster_clear s = bump_if (ltb 0 (length s.roster)) (record s { roster = [] })

-- Whether a view is one to wait for, which is also one with nothing to announce.
abbrev pub is_early : ViewStatus → Bool
is_early empty = true
is_early loading = true
is_early live = false
is_early stale = false

-- `#accepting`.
abbrev pub is_accepting : ViewStatus → Bool
is_accepting status = is_loading status || is_live status

-- `announce`, the revision to announce first.
unfoldable pub announce : ViewStore → Option ℕ × ViewStore
announce s =
    if is_early s.status
    then (none, s)
    else if s.revision == s.announced
    then (none, s)
    else (some s.revision, record s { announced = s.revision })

-- The loops over `#waiters`: each is settled and taken out.
abbrev pub all_with : Outcome → List ℕ → List (ℕ × Outcome)
all_with outcome [] = []
all_with outcome (waiter ∷ waiters) = (waiter, outcome) ∷ all_with outcome waiters

abbrev pub settle_all : Outcome → ViewStore → ViewStore
settle_all outcome s = record s {
  outcomes = s.outcomes ++ all_with outcome s.waiters;
  waiters = [];
}

-- `collect`.
unfoldable pub collect_row : Channel → ViewStore → ViewStore
collect_row row s = if is_loading s.status then record s { rows = s.rows ++ row ∷ [] } else s

-- The loop of `dropChannel`.
unfoldable pub drop_each : (self channel_id : ℕ) → List (ℕ × ClientEntry) → ViewStore → ViewStore
drop_each self channel_id [] s = s
drop_each self channel_id ((id, entry) ∷ entries) s =
    if (entry.channel_id == channel_id) && not (id == self)
    then drop_each self channel_id entries (roster_delete id s)
    else drop_each self channel_id entries s

-- `dropChannel`.
unfoldable pub drop_channel : (self channel_id : ℕ) → ViewStore → ViewStore
drop_channel self channel_id s = drop_each self channel_id s.roster s

-- `sameGroups`.
unfoldable pub same_groups : (a b : List (ℕ × Text)) → Bool
same_groups [] [] = true
same_groups ((id, group) ∷ a) ((other, there) ∷ b) =
    id == other && (eq_list group there && same_groups a b)
same_groups _ _ = false

-- `next` of `setServerGroups`.
unfoldable pub group_map : List (ℕ × Text) → List (ℕ × Text) → List (ℕ × Text)
group_map [] next = next
group_map ((id, group) ∷ groups) next = group_map groups (insert id group next)

-- `setServerGroups` behind its first test.
abbrev pub take_server_groups : List (ℕ × Text) → ViewStore → ViewStore
take_server_groups next s =
    let changed = not (same_groups s.server_groups next) in
    bump_if (changed || not s.server_groups_seen && s.channel_groups_seen) (record s {
      server_groups_seen = true;
      server_groups = if changed then next else s.server_groups;
    })

-- `setServerGroups` and `setChannelGroups`.
unfoldable pub set_server_groups : List (ℕ × Text) → ViewStore → ViewStore
set_server_groups groups s =
    if is_accepting s.status then take_server_groups (group_map groups []) s else s

abbrev pub take_channel_groups : List (ℕ × Text) → ViewStore → ViewStore
take_channel_groups next s =
    let changed = not (same_groups s.channel_groups next) in
    bump_if (changed || not s.channel_groups_seen && s.server_groups_seen) (record s {
      channel_groups_seen = true;
      channel_groups = if changed then next else s.channel_groups;
    })

unfoldable pub set_channel_groups : List (ℕ × Text) → ViewStore → ViewStore
set_channel_groups groups s =
    if is_accepting s.status then take_channel_groups (group_map groups []) s else s

-- `entries.every` of `#mergeServer`, and the record that it merges them into.
abbrev pub has_value : Option Text → Text → Bool
has_value none value = false
has_value (some old) value = eq_list old value

unfoldable pub holds_all : List (ℕ × Text) → List (ℕ × Text) → Bool
holds_all [] server = true
holds_all ((key, value) ∷ entries) server =
    has_value (lookup key server) value && holds_all entries server

-- `#mergeServer`.
unfoldable pub merge_server : List (ℕ × Text) → ViewStore → ViewStore
merge_server entries s =
    if not (is_accepting s.status)
    then s
    else if holds_all entries s.server
    then s
    else bump (record s { server = group_map entries s.server })

-- `end`; the error is none for a disconnect.
unfoldable pub end_view : Option ℕ → ViewStore → ViewStore
end_view error s =
    if is_accepting s.status
    then settle_all (rejected error)
        (record (bump (record s { status = stale })) { ended_by = error })
    else s

-- `whenReady`, for a signal that has not aborted: the promise `waiter`, given the status.
unfoldable pub when_ready_in : ViewStatus → (waiter : ℕ) → ViewStore → ViewStore
when_ready_in live waiter s = record s { outcomes = s.outcomes ++ (waiter, resolved) ∷ [] }
when_ready_in stale waiter s = record s {
  outcomes = s.outcomes ++ (waiter, rejected s.ended_by) ∷ [];
}
when_ready_in empty waiter s = record s { waiters = s.waiters ++ waiter ∷ [] }
when_ready_in loading waiter s = record s { waiters = s.waiters ++ waiter ∷ [] }

unfoldable pub when_ready : (waiter : ℕ) → ViewStore → ViewStore
when_ready waiter s = when_ready_in s.status waiter s
