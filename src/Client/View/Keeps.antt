-- ===== src/Client/View/Keeps.antt =====
-- src/client/view.ts: what one call of the store does to its revision and to those who wait.
use teamspeak_js.Common.{
  ℕ, ◌<◌, ◌≤◌, ◌≡◌, refl, sym, ap, ◌∙◌, ◌⊎◌, inl, inr, Bool, true, false, ◌&&◌, ◌||◌, not, ltb,
  ◌==◌, Bool-cases, if◌then◌else◌, List, [], ◌∷◌, length, Option, none, some, arith,
}
use teamspeak_js.Common.Maps.{has}
use teamspeak_js.Language.Text.{Text}
use teamspeak_js.Channels.Tree.{Channel, Draft}
use teamspeak_js.Client.View.{
  ViewStatus, ClientEntry, ViewStore, is_early, is_loading, is_accepting, groups_loaded, bump_if,
  roster_delete, roster_clear, announce, collect_row, drop_each, same_groups, group_map,
  set_server_groups, set_channel_groups, holds_all, merge_server, end_view, when_ready,
  when_ready_in, empty, loading, live, stale,
}

-- What a view shows.
pub record Shown : Type 0 where
  pub status : ViewStatus
  pub tree : Draft
  pub roster : List (ℕ × ClientEntry)
  pub server_groups : List (ℕ × Text)
  pub channel_groups : List (ℕ × Text)
  pub groups_are_loaded : Bool
  pub server : List (ℕ × Text)

abbrev pub shown : ViewStore → Shown
shown s = record {
  status = s.status;
  tree = s.tree;
  roster = s.roster;
  server_groups = s.server_groups;
  channel_groups = s.channel_groups;
  groups_are_loaded = groups_loaded s;
  server = s.server;
}

-- The revision grows, or the view shows the same.
abbrev pub Moves : ViewStore → ViewStore → Type 0
Moves s s' = (s.revision < s'.revision) ⊎ ((s'.revision ≡ s.revision) × (shown s' ≡ shown s))

-- Nobody waits for a view that is live or over, and what was announced is no later revision.
abbrev pub IsSettled : ViewStore → Type 0
IsSettled s = (is_early s.status ≡ false → s.waiters ≡ []) × (s.announced ≤ s.revision)

abbrev pub Keeps : ViewStore → ViewStore → Type 0
Keeps s s' = Moves s s' × (IsSettled s → IsSettled s')

pub same : (s : ViewStore) → Keeps s s
same s = (inr (refl, refl), λ h. h)

pub Keeps-trans : (s s' s'' : ViewStore) → Keeps s s' → Keeps s' s'' → Keeps s s''
Keeps-trans s s' s'' (inl less, f) (inl less', g) = (inl (omega (arith, less, less')), λ h. g (f h))
Keeps-trans s s' s'' (inl less, f) (inr (e, _), g) = (inl (omega (arith, less, e)), λ h. g (f h))
Keeps-trans s s' s'' (inr (e, _), f) (inl less', g) = (inl (omega (arith, e, less')), λ h. g (f h))
Keeps-trans s s' s'' (inr (e, v), f) (inr (e', v'), g) = (inr (e' ∙ e, v' ∙ v), λ h. g (f h))

-- A change of the view, or none.
pub roster_delete-Keeps : (id : ℕ) (s : ViewStore) → Keeps s (roster_delete id s)
unfolding roster_delete
roster_delete-Keeps id s = elim (Bool-cases (has id s.roster)) [
  | inl e ↦ rw e (inl (omega arith), λ (w, a). (w, omega (arith, a)))
  | inr e ↦ rw e (same s)
]

pub drop_each-Keeps :
    (self channel_id : ℕ) (entries : List (ℕ × ClientEntry)) (s : ViewStore)
    → Keeps s (drop_each self channel_id entries s)
unfolding drop_each
drop_each-Keeps self channel_id [] s = same s
drop_each-Keeps self channel_id ((id, entry) ∷ entries) s =
    elim (Bool-cases ((entry.channel_id == channel_id) && not (id == self))) [
      | inl e ↦ rw e (
          Keeps-trans s (roster_delete id s)
            (drop_each self channel_id entries (roster_delete id s)) (roster_delete-Keeps id s)
            (drop_each-Keeps self channel_id entries (roster_delete id s)))
      | inr e ↦ rw e (drop_each-Keeps self channel_id entries s)
    ]

bump_if-Keeps :
    (b : Bool) (s s' : ViewStore)
    → s'.revision ≡ s.revision
    → s'.announced ≡ s.announced
    → ((is_early s.status ≡ false → s.waiters ≡ []) → is_early s'.status ≡ false → s'.waiters ≡ [])
    → (b ≡ false → shown s' ≡ shown s)
    → Keeps s (bump_if b s')
bump_if-Keeps true s s' r a w v = (inl (omega (arith, r)), λ (h, k). (w h, omega (arith, r, a, k)))
bump_if-Keeps false s s' r a w v = (inr (r, v refl), λ (h, k). (w h, omega (arith, r, a, k)))

pub roster_clear-Keeps : (s : ViewStore) → Keeps s (roster_clear s)
unfolding roster_clear
roster_clear-Keeps s =
    bump_if-Keeps (ltb 0 (length s.roster)) s (record s { roster = [] }) refl refl (λ w. w)
      (λ e. ap (λ r. shown (record s { roster = r })) (sym (nobody s.roster e)))
  where
    nobody : (m : List (ℕ × ClientEntry)) → ltb 0 (length m) ≡ false → m ≡ []
    nobody [] e = refl
    nobody (entry ∷ m) e = absurd (ground arith)

-- A list of groups that changes nothing, not even whether both lists are there.
unchanged :
    (changed seen other : Bool) (old next : List (ℕ × Text))
    → (changed || not seen && other) ≡ false
    → ((if changed then next else old) ≡ old) × (other ≡ (seen && other))
unchanged true seen other old next e = absurd (cc e)
unchanged false true other old next e = (refl, refl)
unchanged false false true old next e = absurd (cc e)
unchanged false false false old next e = (refl, refl)

pub set_server_groups-Keeps :
    (groups : List (ℕ × Text)) (s : ViewStore) → Keeps s (set_server_groups groups s)
unfolding set_server_groups
set_server_groups-Keeps groups s = elim (Bool-cases (is_accepting s.status)) [
  | inr e ↦ rw e (same s)
  | inl e ↦
      let next = group_map groups [] in
      let changed = not (same_groups s.server_groups next) in
      rw e (
        bump_if-Keeps _ s _ refl refl (λ w. w)
          (λ b.
            let (list, both) =
              unchanged changed s.server_groups_seen s.channel_groups_seen s.server_groups next b in
            rw (list, ← both) refl))
]

both_ways : (seen other : Bool) → other ≡ (seen && other) → (other && true) ≡ (other && seen)
both_ways true other e = refl
both_ways false true e = absurd (cc e)
both_ways false false e = refl

pub set_channel_groups-Keeps :
    (groups : List (ℕ × Text)) (s : ViewStore) → Keeps s (set_channel_groups groups s)
unfolding set_channel_groups
set_channel_groups-Keeps groups s = elim (Bool-cases (is_accepting s.status)) [
  | inr e ↦ rw e (same s)
  | inl e ↦
      let next = group_map groups [] in
      let changed = not (same_groups s.channel_groups next) in
      rw e (
        bump_if-Keeps _ s _ refl refl (λ w. w)
          (λ b.
            let (list, both) =
              unchanged changed s.channel_groups_seen s.server_groups_seen s.channel_groups next
                b in
            rw (list, both_ways s.channel_groups_seen s.server_groups_seen both) refl))
]

pub merge_server-Keeps :
    (entries : List (ℕ × Text)) (s : ViewStore) → Keeps s (merge_server entries s)
unfolding merge_server
merge_server-Keeps entries s = elim (Bool-cases (is_accepting s.status)) [
  | inr e ↦ rw e (same s)
  | inl e ↦ elim (Bool-cases (holds_all entries s.server)) [
    | inl h ↦ rw (e, h) (same s)
    | inr h ↦ rw (e, h) (inl (omega arith), λ (w, a). (w, omega (arith, a)))
  ]
]

pub end_view-Keeps : (error : Option ℕ) (s : ViewStore) → Keeps s (end_view error s)
unfolding end_view
end_view-Keeps error s = elim (Bool-cases (is_accepting s.status)) [
  | inr e ↦ rw e (same s)
  | inl e ↦ rw e (inl (omega arith), λ (w, a). ((λ _. refl), omega (arith, a)))
]

announced_or :
    (quiet told : Bool) (s : ViewStore)
    → let out : Option ℕ × ViewStore =
        if quiet
        then (none, s)
        else if told
        then (none, s)
        else (some s.revision, record s { announced = s.revision }) in
      Keeps s out.1
announced_or true told s = same s
announced_or false true s = same s
announced_or false false s = (inr (refl, refl), λ (w, a). (w, omega arith))

pub announce-Keeps : (s : ViewStore) → Keeps s (announce s).1
unfolding announce
announce-Keeps s = announced_or (is_early s.status) (s.revision == s.announced) s

when_ready_in-Keeps :
    (status : ViewStatus) (waiter : ℕ) (s : ViewStore)
    → s.status ≡ status
    → Keeps s (when_ready_in status waiter s)
unfolding when_ready_in
when_ready_in-Keeps live waiter s e = (inr (refl, refl), λ h. h)
when_ready_in-Keeps stale waiter s e = (inr (refl, refl), λ h. h)
when_ready_in-Keeps empty waiter s e =
    (inr (refl, refl), λ (_, a). (λ late. absurd (cc (rw e at late)), a))
when_ready_in-Keeps loading waiter s e =
    (inr (refl, refl), λ (_, a). (λ late. absurd (cc (rw e at late)), a))

pub when_ready-Keeps : (waiter : ℕ) (s : ViewStore) → Keeps s (when_ready waiter s)
unfolding when_ready
when_ready-Keeps waiter s = when_ready_in-Keeps s.status waiter s refl

pub collect_row-Keeps : (row : Channel) (s : ViewStore) → Keeps s (collect_row row s)
unfolding collect_row
collect_row-Keeps row s = elim (Bool-cases (is_loading s.status)) [
  | inl e ↦ rw e (inr (refl, refl), λ h. h)
  | inr e ↦ rw e (same s)
]
