-- ===== src/Client/View/Contract.antt =====
-- src/client/view.ts: what the revision says of a view over any calls, and who still waits for it.
use teamspeak_js.Common.{ℕ, refl, inl, inr, Bool-cases, List, [], ◌∷◌, Option, none, some, arith}
use teamspeak_js.Channels.Tree.{Channel, Draft, Event, Details}
use teamspeak_js.Channels.Tree.Steps.{change_tree}
use teamspeak_js.Client.View.{
  ViewStore, is_loading, is_live, roster_set, roster_clear, drop_channel,
}
use teamspeak_js.Client.View.Calls.{
  reset_view, finish, with_tree, change_view, Call, call, reset, finishes, announces, clears,
  collects, changes, sets, removes, drops, lists_server_groups, lists_channel_groups, merges, ends,
  waits,
}
use teamspeak_js.Client.View.Keeps.{
  Moves, IsSettled, Keeps, same, Keeps-trans, roster_delete-Keeps, drop_each-Keeps,
  roster_clear-Keeps, set_server_groups-Keeps, set_channel_groups-Keeps, merge_server-Keeps,
  end_view-Keeps, announce-Keeps, when_ready-Keeps, collect_row-Keeps,
}

module _ (tree_from : List Channel → Draft) (fuel : ℕ) (defaults : Details) where
  reset_view-Keeps : (s : ViewStore) → Keeps s (reset_view tree_from fuel defaults s)
  unfolding reset_view
  reset_view-Keeps s =
      Keeps-trans s (roster_clear s) (reset_view tree_from fuel defaults s) (roster_clear-Keeps s)
        (inl (omega arith), λ (w, a). (λ late. absurd (cc late), omega (arith, a)))

  finish-Keeps : (s : ViewStore) → Keeps s (finish tree_from fuel defaults s)
  unfolding finish
  finish-Keeps s = elim (Bool-cases (is_loading s.status)) [
    | inl e ↦ rw e (inl (omega arith), λ (w, a). ((λ _. refl), omega arith))
    | inr e ↦ rw e (same s)
  ]

  with_tree-Keeps :
      (o : Option Draft) (s : ViewStore) → Keeps s (with_tree tree_from fuel defaults o s)
  with_tree-Keeps none s = same s
  with_tree-Keeps (some tree) s = (inl (omega arith), λ (w, a). (w, omega (arith, a)))

  change_view-Keeps :
      (event : Event) (s : ViewStore) → Keeps s (change_view tree_from fuel defaults event s)
  unfolding change_view
  change_view-Keeps event s = elim (Bool-cases (is_live s.status)) [
    | inl e ↦ rw e (with_tree-Keeps (change_tree fuel defaults event s.tree) s)
    | inr e ↦ rw e (same s)
  ]

  call-Keeps :
      (c : Call tree_from fuel defaults) (s : ViewStore)
      → Keeps s (call tree_from fuel defaults c s)
  unfolding roster_set drop_channel
  call-Keeps reset s = reset_view-Keeps s
  call-Keeps finishes s = finish-Keeps s
  call-Keeps announces s = announce-Keeps s
  call-Keeps clears s = roster_clear-Keeps s
  call-Keeps (collects row) s = collect_row-Keeps row s
  call-Keeps (changes event) s = change_view-Keeps event s
  call-Keeps (sets id entry) s = (inl (omega arith), λ (w, a). (w, omega (arith, a)))
  call-Keeps (removes id) s = roster_delete-Keeps id s
  call-Keeps (drops self channel_id) s = drop_each-Keeps self channel_id s.roster s
  call-Keeps (lists_server_groups groups) s = set_server_groups-Keeps groups s
  call-Keeps (lists_channel_groups groups) s = set_channel_groups-Keeps groups s
  call-Keeps (merges entries) s = merge_server-Keeps entries s
  call-Keeps (ends error) s = end_view-Keeps error s
  call-Keeps (waits waiter) s = when_ready-Keeps waiter s

  abbrev pub calls : List (Call tree_from fuel defaults) → ViewStore → ViewStore
  calls [] s = s
  calls (c ∷ cs) s = calls cs (call tree_from fuel defaults c s)

  calls-Keeps : (cs : List (Call tree_from fuel defaults)) (s : ViewStore) → Keeps s (calls cs s)
  calls-Keeps [] s = same s
  calls-Keeps (c ∷ cs) s =
      let next = call tree_from fuel defaults c s in
      Keeps-trans s next (calls cs next) (call-Keeps c s) (calls-Keeps cs next)

  -- Over any calls, in any order: either the revision grows or the view shows what it showed. And
  -- where nobody waits for a view that is live or over and no later revision was announced, as of a
  -- new store, this stays so.
  pub calls-Moves :
      (cs : List (Call tree_from fuel defaults)) (s : ViewStore)
      → IsSettled s
      → Moves s (calls cs s) × IsSettled (calls cs s)
  calls-Moves cs s h = let (moves, settled) = calls-Keeps cs s in (moves, settled h)
