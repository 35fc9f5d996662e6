-- ===== src/Channels/Tree/Returns.antt =====
-- src/core/channel-tree.ts: the fuel of `isWithin` and `remove`, for a tree without a loop: its
-- channels have ranks that grow from a parent to its children.
use teamspeak_js.Common.{
  ℕ, zero, suc, ◌+◌, ◌≤◌, ◌<◌, ◌≡◌, refl, ap, ◌∙◌, ◌==◌, Bool, true, false, Bool-cases,
  Option-cases, inl, inr, List, [], ◌∷◌, All, Option, none, some, arith,
}
use mathlib.Core.Path.{subst}
use teamspeak_js.Common.Maps.{lookup, delete, lookup-delete-some}
use teamspeak_js.Channels.Tree.{
  top, Channel, Draft, flaw, detach, detach_from, set_left, without, is_within,
}
use teamspeak_js.Channels.Tree.Settled.{
  IsUnder, Ordered-IsUnder, Tame, Tame-trans, settle-Tame, All-map,
}
use teamspeak_js.Channels.Tree.Placed.{IsOrdered, detach-IsDetached}
use teamspeak_js.Channels.Tree.Removed.{IsRemoved, remove-IsRemoved}
use teamspeak_js.Channels.Tree.Steps.{and_then, each, forget, remove_below, remove}

-- There is a result.
abbrev pub Returns : Option Draft → Type 0
Returns o = (d' : Draft) × (o ≡ some d')

detach-Tame : (c : Channel) (d : Draft) → Tame d.channels (detach c d).channels
unfolding detach detach_from
detach-Tame c d = go (lookup c.parent_id d.kids)
  where
    left : (ids : List ℕ) → Tame d.channels (set_left c.parent_id ids d).channels
    left [] = λ k r held. (r, held, refl)
    left (s ∷ ids) = settle-Tame top (s ∷ ids) d.channels

    go : (o : Option (List ℕ)) → Tame d.channels (detach_from c.parent_id c.id o d).channels
    go none = λ k r held. (r, held, refl)
    go (some ids) = left (without c.id ids)

-- Ranks of the channels that are held, up to a bound.
pub record RankedBy (rank : ℕ → ℕ) (bound : ℕ) (channels : List (ℕ × Channel)) : Type 0 where
  pub up :
      (id : ℕ) (c p : Channel)
      → lookup id channels ≡ some c
      → lookup c.parent_id channels ≡ some p
      → rank c.parent_id < rank id
  pub most : (id : ℕ) (c : Channel) → lookup id channels ≡ some c → rank id ≤ bound

module _ (rank : ℕ → ℕ) (bound : ℕ) where
  Tame-RankedBy :
      (channels channels' : List (ℕ × Channel))
      → Tame channels channels'
      → RankedBy rank bound channels
      → RankedBy rank bound channels'
  Tame-RankedBy channels channels' f r = record {
    up = λ id c' p' held parent.
        let (c, was, under) = f id c' held in
        let (p, parent_was, _) = f c'.parent_id p' parent in
        subst (λ q. rank q < rank id) under
          (r.up id c p was (ap (λ q. lookup q channels) under ∙ parent_was));
    most = λ id c' held. let (c, was, _) = f id c' held in r.most id c was;
  }

  pub is_within-some :
      (fuel at ancestor : ℕ) (channels : List (ℕ × Channel))
      → RankedBy rank bound channels
      → 1 ≤ fuel
      → ((c : Channel) → lookup at channels ≡ some c → rank at + 1 < fuel)
      → (b : Bool) × (is_within fuel (lookup at channels) ancestor channels ≡ some b)
  unfolding is_within
  is_within-some zero at ancestor channels r one h = absurd (omega arith)
  is_within-some (suc fuel) at ancestor channels r one h =
      elim (Option-cases (lookup at channels)) [
        | inl n ↦ (false, rw n refl)
        | inr (c, n) ↦ elim (Bool-cases (c.id == ancestor)) [
          | inl e ↦ (true, rw (n, e) refl)
          | inr e ↦
              let enough = h c n in
              let (b, is) =
                is_within-some fuel c.parent_id ancestor channels r (omega (arith, enough))
                  (λ p m. let less = r.up at c p n m in omega (arith, less, enough)) in
              (b, rw (n, e) is)
        ]
      ]

  -- What a removal below a channel is given, and what it leaves.
  abbrev pub Enough : ℕ → ℕ → Draft → Type 0
  Enough fuel id d =
      (1 ≤ fuel) × ((c : Channel) → lookup id d.channels ≡ some c → bound + 1 < rank id + fuel)

  abbrev pub Ends : Draft → Option Draft → Type 0
  Ends d o = (d' : Draft) × (o ≡ some d') × IsOrdered d' × Tame d.channels d'.channels

  module _ (f : ℕ → Draft → Option Draft) (fuel : ℕ)
      (ends : (id : ℕ) (d : Draft)
        → IsOrdered d
        → RankedBy rank bound d.channels
        → Enough fuel id d
        → Ends d (f id d)) where
    each-Ends :
        (above : ℕ) (ids : List ℕ) (d : Draft)
        → IsOrdered d
        → RankedBy rank bound d.channels
        → 1 ≤ fuel
        → bound + 1 ≤ above + fuel
        → All (λ k. above < rank k) ids
        → Ends d (each f ids d)
    each-Ends above [] d t r one enough low = (d, refl, t, λ k c held. (c, held, refl))
    each-Ends above (id ∷ ids) d t r one enough (lower, low) =
        let (d', is, t', tame) = ends id d t r (one, λ c held. omega (arith, lower, enough)) in
        let (d'', is', t'', tame') =
          each-Ends above ids d' t' (Tame-RankedBy d.channels d'.channels tame r) one enough low in
        (
          d'',
          ap (λ o. and_then o (each f ids)) is ∙ is',
          t'',
          Tame-trans d.channels d'.channels d''.channels tame tame',
        )

  -- The children that are left below a channel have a higher rank.
  below-rank :
      (id : ℕ) (below : List ℕ) (c : Channel) (d : Draft)
      → IsOrdered d
      → RankedBy rank bound d.channels
      → lookup id d.channels ≡ some c
      → lookup id d.kids ≡ some below
      → All (λ k. rank id < rank k) below
  below-rank id below c d t r held e =
      All-map (IsUnder d.channels id) (λ k. rank id < rank k) below
        (λ k (child, is, under).
          subst (λ q. rank q < rank k) under
            (r.up k child c is (ap (λ q. lookup q d.channels) under ∙ held)))
        (Ordered-IsUnder id top below d.channels (t.listed id below e).1)

  -- What `forget` leaves is of the channels before.
  forget-Tame :
      (id : ℕ) (d d' : Draft)
      → IsOrdered d'
      → Tame d.channels d'.channels
      → Tame d.channels (delete id d'.channels)
  forget-Tame id d d' t tame =
      Tame-trans d.channels d'.channels (delete id d'.channels) tame
        (λ k c held. (c, (lookup-delete-some id k c d'.channels t.channels_map held).1, refl))

  Finds : Draft → Option Draft → Type 0
  Finds d o = (d' : Draft) × (o ≡ some d') × Tame d.channels d'.channels

  below-Finds :
      (fuel id : ℕ) (c : Channel) (o : Option (List ℕ)) (d d' : Draft)
      → ((id : ℕ) (d : Draft)
          → IsOrdered d
          → RankedBy rank bound d.channels
          → Enough fuel id d
          → Ends d (remove fuel id d))
      → IsOrdered d'
      → RankedBy rank bound d'.channels
      → Tame d.channels d'.channels
      → lookup id d'.channels ≡ some c
      → lookup id d'.kids ≡ o
      → bound + 1 < rank id + suc fuel
      → Finds d (remove_below (remove fuel) id o d')
  unfolding Finds
  below-Finds fuel id c none d d' ends t r tame held e enough =
      (_, refl, forget-Tame id d d' t tame)
  below-Finds fuel id c (some below) d d' ends t r tame held e enough =
      let low = r.most id c held in
      let (d'', is, t'', tame') =
        each-Ends (remove fuel) fuel ends (rank id) below (flaw d') t r (omega (arith, low, enough))
          (omega (arith, enough)) (below-rank id below c d' t r held e) in
      (
        _,
        ap (forget id) is,
        forget-Tame id d d'' t'' (Tame-trans d.channels d'.channels d''.channels tame tame'),
      )

  pub remove-Ends :
      (fuel id : ℕ) (d : Draft)
      → IsOrdered d
      → RankedBy rank bound d.channels
      → Enough fuel id d
      → Ends d (remove fuel id d)
  unfolding remove Finds
  remove-Ends zero id d t r (one, h) = absurd (omega arith)
  remove-Ends (suc fuel) id d t r (one, h) = elim (Option-cases (lookup id d.channels)) [
    | inl n ↦ (flaw d, rw n refl, t, λ k c held. (c, held, refl))
    | inr (c, n) ↦
        let is : c.id ≡ id = t.ids id c n in
        let (t', _, same, _) =
          detach-IsDetached c d t (c, ap (λ k. lookup k d.channels) is ∙ n, refl) in
        let tame = detach-Tame c d in
        let held : lookup id (detach c d).channels ≡ some c =
          subst (λ k. lookup k (detach c d).channels ≡ lookup k d.channels) is same ∙ n in
        let (d', found, tame') =
          below-Finds fuel id c _ d (detach c d) (remove-Ends fuel) t'
            (Tame-RankedBy d.channels (detach c d).channels tame r) tame held refl (h c n) in
        let done : remove (suc fuel) id d ≡ some d' = rw n found in
        (d', done, (subst (IsRemoved id d) done (remove-IsRemoved (suc fuel) id d t)).0, tame')
  ]
