-- ===== src/Client/View/Calls.antt =====
-- src/client/view.ts: the methods of `ViewStore` that build or change the tree, and its calls in turn.
use teamspeak_js.Common.{ℕ, false, if◌then◌else◌, List, [], map, Option, none, some}
use teamspeak_js.Common.Maps.{delete}
use teamspeak_js.Language.Text.{Text}
use teamspeak_js.Channels.Tree.{Channel, Draft, Event, Details}
use teamspeak_js.Channels.Tree.Steps.{change_tree}
use teamspeak_js.Client.View.{
  ViewStore, ClientEntry, resolved, bump, empty, loading, live, is_loading, is_live, roster_clear,
  roster_set, roster_delete, announce, collect_row, drop_channel, set_server_groups,
  set_channel_groups, merge_server, end_view, when_ready, settle_all,
}

-- The properties `totalClients` and `totalFamilyClients` of a channel, and a row without them.
abbrev pub total_clients : ℕ
total_clients = 0

abbrev pub total_family_clients : ℕ
total_family_clients = 1

abbrev pub without_counts : Channel → Channel
without_counts row = record row {
  details = delete total_family_clients (delete total_clients row.details);
}

module _ (tree_from : List Channel → Draft) (fuel : ℕ) (defaults : Details) where
  -- `reset`.
  unfoldable pub reset_view : ViewStore → ViewStore
  reset_view s = bump (record (roster_clear s) {
    rows = [];
    tree = tree_from [];
    server_groups = [];
    channel_groups = [];
    server_groups_seen = false;
    channel_groups_seen = false;
    server = [];
    status = loading;
  })

  -- `finish` behind its first test.
  abbrev pub finished : ViewStore → ViewStore
  finished s =
      let s' =
        bump
          (record s { rows = []; tree = tree_from (map without_counts s.rows); status = live }) in
      settle_all resolved (record s' { announced = s'.revision })

  -- `finish`.
  unfoldable pub finish : ViewStore → ViewStore
  finish s = if is_loading s.status then finished s else s

  abbrev pub with_tree : Option Draft → ViewStore → ViewStore
  with_tree none s = s
  with_tree (some tree) s = bump (record s { tree = tree })

  -- `#change`, for `applyCreated`, `applyEdited`, `applyMoved` and `applyDeleted`.
  unfoldable pub change_view : Event → ViewStore → ViewStore
  change_view event s =
      if is_live s.status then with_tree (change_tree fuel defaults event s.tree) s else s

  -- A new store.
  abbrev pub new_view : ViewStore
  new_view = record {
    status = empty;
    revision = 0;
    tree = tree_from [];
    rows = [];
    roster = [];
    server_groups = [];
    channel_groups = [];
    server_groups_seen = false;
    channel_groups_seen = false;
    server = [];
    announced = 0;
    waiters = [];
    outcomes = [];
    ended_by = none;
    notified = 0;
  }

  -- A call of the store by the packet handler.
  pub data Call : Type 0 where
    reset finishes announces clears : Call
    collects : Channel → Call
    changes : Event → Call
    sets : (id : ℕ) → ClientEntry → Call
    removes : (id : ℕ) → Call
    drops : (self channel_id : ℕ) → Call
    lists_server_groups lists_channel_groups : List (ℕ × Text) → Call
    merges : List (ℕ × Text) → Call
    ends : Option ℕ → Call
    waits : (waiter : ℕ) → Call

  abbrev pub call : Call → ViewStore → ViewStore
  call reset s = reset_view s
  call finishes s = finish s
  call announces s = (announce s).1
  call clears s = roster_clear s
  call (collects row) s = collect_row row s
  call (changes event) s = change_view event s
  call (sets id entry) s = roster_set id entry s
  call (removes id) s = roster_delete id s
  call (drops self channel_id) s = drop_channel self channel_id s
  call (lists_server_groups groups) s = set_server_groups groups s
  call (lists_channel_groups groups) s = set_channel_groups groups s
  call (merges entries) s = merge_server entries s
  call (ends error) s = end_view error s
  call (waits waiter) s = when_ready waiter s
