-- ===== src/Client/View/Tests.antt =====
-- Calls of a new store: somebody waits, and the connection ends before the welcome.
use teamspeak_js.Common.{◌≡◌, refl, arith, true, false, none, List, [], ◌∷◌, ◌++◌}
use teamspeak_js.Common.Maps.{insert}
use teamspeak_js.Channels.Tree.{Channel, Draft}
use teamspeak_js.Client.View.{
  ViewStore, rejected, resolved, is_early, roster_set, roster_clear, set_server_groups, same_groups,
  group_map, end_view, when_ready, when_ready_in,
}
use teamspeak_js.Client.View.Calls.{
  Call, new_view, reset, sets, finishes, ends, waits, reset_view, finish, change_view,
  lists_server_groups,
}
use teamspeak_js.Client.View.Waiters.{calls-promises, promises, waits_of, numbers}
use teamspeak_js.Client.View.Contract.{calls, calls-Moves}
use teamspeak_js.Client.View.Keeps.{Moves, IsSettled}

abbrev no_channels : List Channel → Draft
no_channels rows = record { channels = []; kids = []; consistent = true }

abbrev made : ViewStore
made = new_view no_channels 4 []

abbrev some_calls : List (Call no_channels 4 [])
some_calls =
    waits 1
    ∷ reset
    ∷ sets 5 (record { channel_id = 1; rest = [] })
    ∷ finishes
    ∷ lists_server_groups ((6, []) ∷ [])
    ∷ ends none
    ∷ waits 2
    ∷ []

calls-Moves_example :
    Moves made (calls no_channels 4 [] some_calls made)
    × IsSettled (calls no_channels 4 [] some_calls made)
calls-Moves_example = calls-Moves no_channels 4 [] some_calls made ((λ late. refl), omega arith)

calls-promises_example :
    (promises (calls no_channels 4 [] some_calls made)
      ≡ promises made ++ waits_of no_channels 4 [] some_calls)
    × (is_early (calls no_channels 4 [] some_calls made).status ≡ false
        → numbers (calls no_channels 4 [] some_calls made).outcomes
          ≡ promises made ++ waits_of no_channels 4 [] some_calls)
calls-promises_example =
    calls-promises no_channels 4 [] some_calls made ((λ late. refl), omega arith)

-- The first promise is resolved by the welcome, the second rejected with no error.
some_calls-outcomes_test :
    (calls no_channels 4 [] some_calls made).outcomes ≡ (1, resolved) ∷ (2, rejected none) ∷ []
unfolding reset_view finish change_view roster_set roster_clear set_server_groups same_groups
    group_map end_view when_ready when_ready_in insert
some_calls-outcomes_test = refl
