-- ===== src/Client/View/Waiters.antt =====
-- src/client/view.ts: the promises of `whenReady`.
use teamspeak_js.Common.{
  ℕ, ◌≡◌, refl, sym, ap, ◌∙◌, Bool, true, false, not, ◌&&◌, ◌||◌, ◌==◌, if◌then◌else◌, List, [],
  ◌∷◌, ◌++◌, append_assoc, append-nil, Bool-cases, inl, inr, length, Option, none, some, ltb,
}
use teamspeak_js.Common.Maps.{has}
use teamspeak_js.Language.Text.{Text}
use teamspeak_js.Channels.Tree.{Channel, Draft, Event, Details}
use teamspeak_js.Channels.Tree.Steps.{change_tree}
use teamspeak_js.Client.View.{
  ViewStatus, ClientEntry, ViewStore, Outcome, is_early, is_loading, is_live, is_accepting, bump_if,
  roster_delete, roster_clear, announce, collect_row, drop_each, drop_channel, same_groups,
  group_map, set_server_groups, set_channel_groups, take_server_groups, take_channel_groups,
  holds_all, merge_server, end_view, when_ready, when_ready_in, all_with, rejected, resolved,
  roster_set, empty, loading, live, stale,
}
use teamspeak_js.Client.View.Calls.{
  reset_view, finish, with_tree, change_view, Call, call, reset, finishes, announces, clears,
  collects, changes, sets, removes, drops, lists_server_groups, lists_channel_groups, merges, ends,
  waits,
}
use teamspeak_js.Client.View.Contract.{calls, calls-Moves}
use teamspeak_js.Client.View.Keeps.{IsSettled}

-- The numbers of the promises that were settled, in that order.
abbrev pub numbers : List (ℕ × Outcome) → List ℕ
numbers [] = []
numbers ((waiter, outcome) ∷ outcomes) = waiter ∷ numbers outcomes

-- The promises that were settled and then those that wait.
abbrev pub promises : ViewStore → List ℕ
promises s = numbers s.outcomes ++ s.waiters

promises-if :
    (b : Bool) (s s' : ViewStore) (ps : List ℕ)
    → promises s ≡ ps
    → promises s' ≡ ps
    → promises (if b then s else s') ≡ ps
promises-if true s s' ps e e' = e
promises-if false s s' ps e e' = e'

promises-bump_if : (b : Bool) (s : ViewStore) → promises (bump_if b s) ≡ promises s
promises-bump_if true s = refl
promises-bump_if false s = refl

promises-announce : (s : ViewStore) → promises (announce s).1 ≡ promises s
unfolding announce
promises-announce s = elim (Bool-cases (is_early s.status)) [
  | inl e ↦ rw e refl
  | inr e ↦ elim (Bool-cases (s.revision == s.announced)) [
    | inl f ↦ rw e (rw f refl)
    | inr f ↦ rw e (rw f refl)
  ]
]

promises-roster_delete : (id : ℕ) (s : ViewStore) → promises (roster_delete id s) ≡ promises s
unfolding roster_delete
promises-roster_delete id s = promises-if (has id s.roster) _ s _ refl refl

promises-roster_clear : (s : ViewStore) → promises (roster_clear s) ≡ promises s
unfolding roster_clear
promises-roster_clear s = promises-bump_if (ltb 0 (length s.roster)) _

promises-drop_each :
    (self channel_id : ℕ) (entries : List (ℕ × ClientEntry)) (s : ViewStore)
    → promises (drop_each self channel_id entries s) ≡ promises s
unfolding drop_each
promises-drop_each self channel_id [] s = refl
promises-drop_each self channel_id ((id, entry) ∷ entries) s =
    promises-if ((entry.channel_id == channel_id) && not (id == self))
      (drop_each self channel_id entries (roster_delete id s)) (drop_each self channel_id entries s)
      (promises s)
      (promises-drop_each self channel_id entries (roster_delete id s)
        ∙ promises-roster_delete id s)
      (promises-drop_each self channel_id entries s)

promises-set_server_groups :
    (groups : List (ℕ × Text)) (s : ViewStore) → promises (set_server_groups groups s) ≡ promises s
unfolding set_server_groups
promises-set_server_groups groups s =
    let next = group_map groups [] in
    let changed = not (same_groups s.server_groups next) in
    promises-if (is_accepting s.status) (take_server_groups next s) s (promises s)
      (promises-bump_if (changed || not s.server_groups_seen && s.channel_groups_seen) (record s {
        server_groups_seen = true;
        server_groups = if changed then next else s.server_groups;
      }))
      refl

promises-set_channel_groups :
    (groups : List (ℕ × Text)) (s : ViewStore) → promises (set_channel_groups groups s) ≡ promises s
unfolding set_channel_groups
promises-set_channel_groups groups s =
    let next = group_map groups [] in
    let changed = not (same_groups s.channel_groups next) in
    promises-if (is_accepting s.status) (take_channel_groups next s) s (promises s)
      (promises-bump_if (changed || not s.channel_groups_seen && s.server_groups_seen) (record s {
        channel_groups_seen = true;
        channel_groups = if changed then next else s.channel_groups;
      }))
      refl

promises-merge_server :
    (entries : List (ℕ × Text)) (s : ViewStore) → promises (merge_server entries s) ≡ promises s
unfolding merge_server
promises-merge_server entries s =
    promises-if (not (is_accepting s.status)) s _ _ refl
      (promises-if (holds_all entries s.server) s _ _ refl refl)

promises-collect_row : (row : Channel) (s : ViewStore) → promises (collect_row row s) ≡ promises s
unfolding collect_row
promises-collect_row row s = promises-if (is_loading s.status) _ s _ refl refl

numbers-all_with :
    (outcome : Outcome) (outcomes : List (ℕ × Outcome)) (waiters : List ℕ)
    → numbers (outcomes ++ all_with outcome waiters) ++ [] ≡ numbers outcomes ++ waiters
numbers-all_with outcome [] [] = refl
numbers-all_with outcome [] (waiter ∷ waiters) =
    ap (λ ws. waiter ∷ ws) (numbers-all_with outcome [] waiters)
numbers-all_with outcome ((waiter, o) ∷ outcomes) waiters =
    ap (λ ws. waiter ∷ ws) (numbers-all_with outcome outcomes waiters)

promises-end_view : (error : Option ℕ) (s : ViewStore) → promises (end_view error s) ≡ promises s
unfolding end_view
promises-end_view error s =
    promises-if (is_accepting s.status) _ s _
      (numbers-all_with (rejected error) s.outcomes s.waiters) refl

-- One more promise, behind the others or settled at once.
numbers-more :
    (outcomes : List (ℕ × Outcome)) (waiter : ℕ) (outcome : Outcome)
    → numbers (outcomes ++ (waiter, outcome) ∷ []) ≡ numbers outcomes ++ waiter ∷ []
numbers-more [] waiter outcome = refl
numbers-more ((w, o) ∷ outcomes) waiter outcome =
    ap (λ ws. w ∷ ws) (numbers-more outcomes waiter outcome)

numbers-settled :
    (outcomes : List (ℕ × Outcome)) (waiters : List ℕ) (waiter : ℕ) (outcome : Outcome)
    → waiters ≡ []
    → numbers (outcomes ++ (waiter, outcome) ∷ []) ++ waiters
      ≡ (numbers outcomes ++ waiters) ++ waiter ∷ []
numbers-settled outcomes waiters waiter outcome e = rw e (
    append-nil (numbers (outcomes ++ (waiter, outcome) ∷ []))
    ∙ numbers-more outcomes waiter outcome
    ∙ ap (λ ws. ws ++ waiter ∷ []) (sym (append-nil (numbers outcomes))))

promises-when_ready_in :
    (status : ViewStatus) (waiter : ℕ) (s : ViewStore)
    → (is_early status ≡ false → s.waiters ≡ [])
    → promises (when_ready_in status waiter s) ≡ promises s ++ waiter ∷ []
unfolding when_ready_in
promises-when_ready_in live waiter s h =
    numbers-settled s.outcomes s.waiters waiter resolved (h refl)
promises-when_ready_in stale waiter s h =
    numbers-settled s.outcomes s.waiters waiter (rejected s.ended_by) (h refl)
promises-when_ready_in empty waiter s h =
    sym (append_assoc (numbers s.outcomes) s.waiters (waiter ∷ []))
promises-when_ready_in loading waiter s h =
    sym (append_assoc (numbers s.outcomes) s.waiters (waiter ∷ []))

module _ (tree_from : List Channel → Draft) (fuel : ℕ) (defaults : Details) where
  promises-finish : (s : ViewStore) → promises (finish tree_from fuel defaults s) ≡ promises s
  unfolding finish
  promises-finish s =
      promises-if (is_loading s.status) _ s _ (numbers-all_with resolved s.outcomes s.waiters) refl

  promises-with_tree :
      (o : Option Draft) (s : ViewStore)
      → promises (with_tree tree_from fuel defaults o s) ≡ promises s
  promises-with_tree none s = refl
  promises-with_tree (some tree) s = refl

  promises-change_view :
      (event : Event) (s : ViewStore)
      → promises (change_view tree_from fuel defaults event s) ≡ promises s
  unfolding change_view
  promises-change_view event s =
      promises-if (is_live s.status) _ s _
        (promises-with_tree (change_tree fuel defaults event s.tree) s) refl

  -- The promises that calls ask for.
  abbrev asked : Call tree_from fuel defaults → List ℕ
  asked (waits waiter) = waiter ∷ []
  asked _ = []

  abbrev pub waits_of : List (Call tree_from fuel defaults) → List ℕ
  waits_of [] = []
  waits_of (c ∷ cs) = asked c ++ waits_of cs

  quiet : (s : ViewStore) (ps : List ℕ) → ps ≡ promises s → ps ≡ promises s ++ []
  quiet s ps e = e ∙ sym (append-nil (promises s))

  promises-call :
      (c : Call tree_from fuel defaults) (s : ViewStore)
      → IsSettled s
      → promises (call tree_from fuel defaults c s) ≡ promises s ++ asked c
  unfolding roster_set drop_channel reset_view when_ready
  promises-call reset s h = quiet s _ (promises-roster_clear s)
  promises-call finishes s h = quiet s _ (promises-finish s)
  promises-call announces s h = quiet s _ (promises-announce s)
  promises-call clears s h = quiet s _ (promises-roster_clear s)
  promises-call (collects row) s h = quiet s _ (promises-collect_row row s)
  promises-call (changes event) s h = quiet s _ (promises-change_view event s)
  promises-call (sets id entry) s h = quiet s _ refl
  promises-call (removes id) s h = quiet s _ (promises-roster_delete id s)
  promises-call (drops self channel_id) s h =
      quiet s _ (promises-drop_each self channel_id s.roster s)
  promises-call (lists_server_groups groups) s h = quiet s _ (promises-set_server_groups groups s)
  promises-call (lists_channel_groups groups) s h = quiet s _ (promises-set_channel_groups groups s)
  promises-call (merges entries) s h = quiet s _ (promises-merge_server entries s)
  promises-call (ends error) s h = quiet s _ (promises-end_view error s)
  promises-call (waits waiter) s h = promises-when_ready_in s.status waiter s h.0

  promises-calls :
      (cs : List (Call tree_from fuel defaults)) (s : ViewStore)
      → IsSettled s
      → promises (calls tree_from fuel defaults cs s) ≡ promises s ++ waits_of cs
  promises-calls [] s h = sym (append-nil (promises s))
  promises-calls (c ∷ cs) s h =
      promises-calls cs (call tree_from fuel defaults c s)
        (calls-Moves tree_from fuel defaults (c ∷ []) s h).1
      ∙ ap (λ ps. ps ++ waits_of cs) (promises-call c s h)
      ∙ append_assoc (promises s) (asked c) (waits_of cs)

  -- Of a store where nobody waits for a view that is live or over, and after any calls: the promises
  -- that were settled and those that wait are those from before and then those that the calls asked
  -- for, each once and in order. Where the view is then live or over, all of them were settled.
  pub calls-promises :
      (cs : List (Call tree_from fuel defaults)) (s : ViewStore)
      → IsSettled s
      → (promises (calls tree_from fuel defaults cs s) ≡ promises s ++ waits_of cs)
        × (is_early (calls tree_from fuel defaults cs s).status ≡ false
            → numbers (calls tree_from fuel defaults cs s).outcomes ≡ promises s ++ waits_of cs)
  calls-promises cs s h =
      let after = calls tree_from fuel defaults cs s in
      let e = promises-calls cs s h in
      let settled = (calls-Moves tree_from fuel defaults cs s h).1 in
      (
        e,
        λ late.
            sym (append-nil (numbers after.outcomes))
            ∙ ap (λ ws. numbers after.outcomes ++ ws) (sym (settled.0 late))
            ∙ e,
      )
