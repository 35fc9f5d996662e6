-- ===== src/Channels/Siblings/Once.antt =====
-- src/core/channel-tree.ts: the siblings that `sortSiblings` returns.
use teamspeak_js.Common.{
  ℕ, suc, ◌+◌, ◌*◌, ◌<◌, ◌≡◌, refl, sym, inl, inr, Bool, true, false, ◌&&◌, ==_iff, ◌==◌,
  Bool-cases, List, [], ◌∷◌, length, All, some, arith,
}
use teamspeak_js.Common.Maps.{lookup}
use teamspeak_js.Channels.Tree.{top, Channel}
use teamspeak_js.Channels.Tree.Lists.{Distinct}
use teamspeak_js.Channels.Siblings.{holds, all_named, group, Sorting, sort_siblings}
use teamspeak_js.Channels.Siblings.Order.{
  names, InOrder, Named, group-Named, follow_from-InOrder, follow_rest-InOrder,
}
use teamspeak_js.Channels.Siblings.Sorted.{
  Fits, Good, ids_of, Among, group-Fits, follow_from-Ends, follow_rest-Ends,
}

-- Each sibling once and nothing else, the flag is not set again, and where it is set the list is in
-- order.
abbrev pub Sorts : List Channel → Bool → Sorting → Type 0
Sorts siblings consistent s =
    Distinct s.out
    × (((id : ℕ) → holds id s.out ≡ holds id (ids_of siblings))
        × ((consistent ≡ false → s.consistent ≡ false)
            × (s.consistent ≡ true → InOrder siblings top s.out)))

Among-more :
    (c : Channel) (ids : List ℕ) (channels : List Channel)
    → Among ids channels
    → Among (c.id ∷ ids) channels
unfolding holds
Among-more c ids [] a = tt
Among-more c ids (d ∷ ds) (one, a) = (ground (arith, one), Among-more c ids ds a)

Among-self : (channels : List Channel) → Among (ids_of channels) channels
unfolding holds
Among-self [] = tt
Among-self (c ∷ cs) = (ground arith, Among-more c (ids_of cs) cs (Among-self cs))

holds_each :
    (id : ℕ) (out : List ℕ) (channels : List Channel)
    → All (λ channel. holds channel.id out ≡ true) channels
    → holds id (ids_of channels) ≡ true
    → holds id out ≡ true
unfolding holds
holds_each id out [] a h = absurd (cc h)
holds_each id out (c ∷ cs) (one, a) h = elim (Bool-cases (c.id == id)) [
  | inl same ↦ rw (sym ((==_iff c.id id).0 same)) one
  | inr other ↦ holds_each id out cs a (ground (arith, h, other))
]

both : (a b : Bool) → (a ≡ true → b ≡ true) → (b ≡ true → a ≡ true) → a ≡ b
both true b f g = sym (f refl)
both false true f g = g refl
both false false f g = refl

names_more :
    (c : Channel) (siblings channels : List Channel)
    → All (λ d. names siblings d.id d.order ≡ true) channels
    → All (λ d. names (c ∷ siblings) d.id d.order ≡ true) channels
unfolding names
names_more c siblings [] a = tt
names_more c siblings (d ∷ ds) (one, a) = (ground (arith, one), names_more c siblings ds a)

names_own : (siblings : List Channel) → All (λ c. names siblings c.id c.order ≡ true) siblings
unfolding names
names_own [] = tt
names_own (c ∷ cs) = (ground arith, names_more c cs cs (names_own cs))

siblings-Fits :
    (siblings : List Channel)
    → Fits (0 + length siblings) (ids_of siblings) (group (ids_of siblings) siblings [])
unfolding lookup
siblings-Fits siblings =
    group-Fits (ids_of siblings) siblings [] 0 (Among-self siblings) (λ key. (omega arith, tt))

siblings-Named :
    (siblings : List Channel)
    → all_named (ids_of siblings) siblings ≡ true
    → Named siblings (group (ids_of siblings) siblings [])
unfolding lookup
siblings-Named siblings e =
    group-Named siblings (ids_of siblings) siblings [] e (names_own siblings) (λ key. tt)

none-Good :
    (siblings : List Channel) (flag : Bool)
    → Good (ids_of siblings) (record { out = []; consistent = flag })
unfolding holds
none-Good siblings flag = (tt, λ id h. absurd (cc h))

-- With fuel above the square of one more than the number of siblings: the sort ends, its list has
-- the siblings' ids, each once, and no others; a draft that is not consistent stays so; and where it
-- is consistent, each sibling names the one before it in the list as its order, and the first names
-- none.
pub sort_siblings-Sorts :
    (fuel : ℕ) (siblings : List Channel) (consistent : Bool)
    → (length siblings + 1) * (length siblings + 1) < fuel
    → (s : Sorting) × ((sort_siblings fuel siblings consistent ≡ some s)
        × Sorts siblings consistent s)
unfolding sort_siblings
sort_siblings-Sorts fuel siblings consistent less =
    let ids = ids_of siblings in
    let n = 0 + length siblings in
    let after = group ids siblings [] in
    let flag = consistent && all_named ids siblings in
    let fits = siblings-Fits siblings in
    let among = Among-self siblings in
    let enough : suc n * (length siblings + 1) < fuel = grind (arith, less) in
    let (mid, (e, (good, (g, y)))) =
      follow_from-Ends siblings after n fits fuel top (record { out = []; consistent = flag })
        (none-Good siblings flag) enough in
    let (s, (e', (good', ((g', y'), all)))) =
      follow_rest-Ends siblings after n fits fuel siblings mid among good enough in
    let stays : flag ≡ false → s.consistent ≡ false = λ unset. y' (y unset) in
    let order : s.consistent ≡ true → InOrder siblings top s.out = λ kept.
      elim (Bool-cases (all_named ids siblings)) [
        | inl named ↦
            follow_rest-InOrder siblings after n fits fuel siblings mid s among good enough e'
              (follow_from-InOrder siblings after (siblings-Named siblings named) fuel flag mid e)
              kept
        | inr unset ↦ absurd (cc (kept, stays (ground (arith, unset))))
      ] in
    rw e (
      s,
      (
        e',
        (
          good'.0,
          (
            (λ id.
                both (holds id s.out) (holds id ids) (good'.1 id)
                  (holds_each id s.out siblings all)),
            ((λ unset. stays (rw unset refl)), order),
          ),
        ),
      ),
    )
