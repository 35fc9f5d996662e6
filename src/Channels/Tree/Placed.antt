-- ===== src/Channels/Tree/Placed.antt =====
-- src/core/channel-tree.ts: `insert` and `detach` on a tree whose lists are in order.
use teamspeak_js.Common.{
  ℕ, ◌≡◌, ◌≢◌, refl, sym, ap, ◌==◌, ==_iff, ==-false→ne, ==-false, false, Bool-cases, Option-cases,
  inl, inr, List, [], ◌∷◌, All, Option, none, some,
}
use mathlib.Core.Path.{subst}
use mathlib.Core.Option.{some-injective}
use teamspeak_js.Common.Maps.{
  lookup, insert, delete, lookup-insert, lookup-delete-some, insert-IsMap, delete-IsMap,
}
use teamspeak_js.Channels.Tree.{
  top, Channel, Draft, settle, set_kids, set_left, list_of, placed, without, insert_under, detach,
  detach_from,
}
use teamspeak_js.Channels.Tree.Lists.{
  Avoids, Distinct, placed-Put, Put-All, Put-Distinct, without-All, without-Avoids,
  without-Distinct,
}
use teamspeak_js.Channels.Tree.Settled.{
  IsUnder, Ordered, IsTree, Ordered-ext, Ordered-IsUnder, IsUnder-Avoids, settle-lookup,
  settle-IsMap, settle-Numbered, settle-Ordered, All-map,
}

-- The channel is in no list.
abbrev pub Nowhere : ℕ → List (ℕ × List ℕ) → Type 0
Nowhere id kids = (parent : ℕ) (ids : List ℕ) → lookup parent kids ≡ some ids → Avoids id ids

-- The draft's lists are in order.
abbrev pub IsOrdered : Draft → Type 0
IsOrdered d = IsTree d.channels d.kids

-- A new list of a parent, of channels under it.
pub set_kids-IsOrdered :
    (parent : ℕ) (next : List ℕ) (d : Draft)
    → IsOrdered d
    → Distinct next
    → All (IsUnder d.channels parent) next
    → IsOrdered (set_kids parent next d)
set_kids-IsOrdered parent next d t distinct under = record {
  channels_map = settle-IsMap top next d.channels t.channels_map;
  kids_map = insert-IsMap parent next d.kids t.kids_map;
  ids = settle-Numbered top next d.channels t.ids;
  listed = λ q siblings e. elim (Bool-cases (parent == q)) [
    | inl same ↦
        let is : next ≡ siblings =
          some-injective _ _ (rw (lookup-insert parent q next d.kids, same) at e) in
        subst (λ s. Distinct s × Ordered (settle top next d.channels) q top s) is
          (
            distinct,
            subst (λ k. Ordered (settle top next d.channels) k top next) ((==_iff parent q).0 same)
                (settle-Ordered parent top next d.channels distinct under),
          )
    | inr other ↦
        let here : lookup q d.kids ≡ some siblings =
          rw (lookup-insert parent q next d.kids, other) at e in
        let (once, ordered) = t.listed q siblings here in
        (
          once,
          Ordered-ext q top siblings d.channels (settle top next d.channels)
              (All-map (IsUnder d.channels q)
                (λ k. lookup k (settle top next d.channels) ≡ lookup k d.channels) siblings
                (λ k u.
                  settle-lookup top k next d.channels (
                    IsUnder-Avoids parent q k next d.channels (==-false→ne parent q other) u under))
                (Ordered-IsUnder q top siblings d.channels ordered))
              ordered,
        )
  ];
}

siblings-Ordered :
    (parent : ℕ) (d : Draft)
    → IsOrdered d
    → Distinct (list_of (lookup parent d.kids))
      × Ordered d.channels parent top (list_of (lookup parent d.kids))
siblings-Ordered parent d t = elim (Option-cases (lookup parent d.kids)) [
  | inl n ↦ rw n (tt, tt)
  | inr (ids, n) ↦ rw n (t.listed parent ids n)
]

siblings-Avoids :
    (id parent : ℕ) (d : Draft) → Nowhere id d.kids → Avoids id (list_of (lookup parent d.kids))
siblings-Avoids id parent d h = elim (Option-cases (lookup parent d.kids)) [
  | inl n ↦ rw n tt
  | inr (ids, n) ↦ rw n (h parent ids n)
]

-- A channel that is held under the parent and in no list is put in that parent's list.
pub insert_under-IsOrdered :
    (parent id : ℕ) (after : Option ℕ) (d : Draft)
    → IsOrdered d
    → IsUnder d.channels parent id
    → Nowhere id d.kids
    → IsOrdered (insert_under parent id after d)
unfolding insert_under
insert_under-IsOrdered parent id after d t under nowhere =
    let siblings = list_of (lookup parent d.kids) in
    let (once, ordered) = siblings-Ordered parent d t in
    let put = placed-Put after id siblings in
    let done =
      set_kids-IsOrdered parent (placed after id siblings).0 d t
        (Put-Distinct id siblings _ put (siblings-Avoids id parent d nowhere) once)
        (Put-All (IsUnder d.channels parent) id siblings _ put under
          (Ordered-IsUnder parent top siblings d.channels ordered)) in
    elim (Bool-cases (placed after id siblings).1) [ inl e ↦ rw e done | inr e ↦ rw e done ]

-- A channel is in no list but its parent's.
elsewhere :
    (id parent q : ℕ) (ids : List ℕ) (d : Draft)
    → IsOrdered d
    → IsUnder d.channels parent id
    → (q == parent) ≡ false
    → lookup q d.kids ≡ some ids
    → Avoids id ids
elsewhere id parent q ids d t under other e =
    IsUnder-Avoids q parent id ids d.channels (==-false→ne q parent other) under
      (Ordered-IsUnder q top ids d.channels (t.listed q ids e).1)

-- What is in no list of the first is in no list of the second.
abbrev pub Shrinks : Draft → Draft → Type 0
Shrinks d d' = (k : ℕ) → Nowhere k d.kids → Nowhere k d'.kids

-- What is so once a channel is taken out of its parent's list.
abbrev pub IsDetached : ℕ → Draft → Draft → Type 0
IsDetached id d d' =
    IsOrdered d'
    × Nowhere id d'.kids
    × (lookup id d'.channels ≡ lookup id d.channels)
    × Shrinks d d'

module _ (id parent : ℕ) (d : Draft) (t : IsOrdered d) (under : IsUnder d.channels parent id) where
  left-IsDetached :
      (next : List ℕ)
      → Distinct next
      → All (IsUnder d.channels parent) next
      → Avoids id next
      → ((k : ℕ) → Nowhere k d.kids → Avoids k next)
      → IsDetached id d (set_left parent next d)
  left-IsDetached [] once unders avoids fewer = (
    record {
      channels_map = t.channels_map;
      kids_map = delete-IsMap parent d.kids t.kids_map;
      ids = t.ids;
      listed = λ q siblings e. t.listed q siblings (before q siblings e).1;
    },
    λ q siblings e.
        let (other, held) = before q siblings e in
        elsewhere id parent q siblings d t under other held,
    refl,
    λ k nowhere q siblings e. nowhere q siblings (before q siblings e).1,
  )
    where
      before :
          (q : ℕ) (siblings : List ℕ)
          → lookup q (delete parent d.kids) ≡ some siblings
          → ((q == parent) ≡ false) × (lookup q d.kids ≡ some siblings)
      before q siblings e = lookup-delete-some parent q siblings d.kids t.kids_map e
  left-IsDetached (s ∷ next) once unders avoids fewer = (
    set_kids-IsOrdered parent (s ∷ next) d t once unders,
    λ q siblings e.
        listed_as (Avoids id) q siblings e avoids
          (λ other held. elsewhere id parent q siblings d t under other held),
    settle-lookup top id (s ∷ next) d.channels avoids,
    λ k nowhere q siblings e.
        listed_as (Avoids k) q siblings e (fewer k nowhere) (λ other held. nowhere q siblings held),
  )
    where
      listed_as :
          (P : List ℕ → Type 0) (q : ℕ) (siblings : List ℕ)
          → lookup q (insert parent (s ∷ next) d.kids) ≡ some siblings
          → P (s ∷ next)
          → ((q == parent) ≡ false → lookup q d.kids ≡ some siblings → P siblings)
          → P siblings
      listed_as P q siblings e new old = elim (Bool-cases (parent == q)) [
        | inl same ↦
            let is : s ∷ next ≡ siblings =
              some-injective _ _ (rw (lookup-insert parent q (s ∷ next) d.kids, same) at e) in
            subst P is new
        | inr other ↦
            old (==-false q parent (λ w. ==-false→ne parent q other (sym w)))
              (rw (lookup-insert parent q (s ∷ next) d.kids, other) at e)
      ]

  detach_from-IsDetached :
      (o : Option (List ℕ)) → lookup parent d.kids ≡ o → IsDetached id d (detach_from parent id o d)
  unfolding detach_from
  detach_from-IsDetached none e = (
    t,
    λ q siblings held. elim (Bool-cases (q == parent)) [
      | inl same ↦ absurd (cc (e, ap (λ k. lookup k d.kids) ((==_iff q parent).0 same), held))
      | inr other ↦ elsewhere id parent q siblings d t under other held
    ],
    refl,
    λ k nowhere. nowhere,
  )
  detach_from-IsDetached (some ids) e =
      let (once, ordered) = t.listed parent ids e in
      left-IsDetached (without id ids) (without-Distinct id ids once)
        (without-All (IsUnder d.channels parent) id ids
          (Ordered-IsUnder parent top ids d.channels ordered))
        (without-Avoids id ids)
        (λ k nowhere. without-All (λ s. s ≢ k) id ids (nowhere parent ids e))

pub detach-IsDetached :
    (c : Channel) (d : Draft)
    → IsOrdered d
    → IsUnder d.channels c.parent_id c.id
    → IsDetached c.id d (detach c d)
unfolding detach
detach-IsDetached c d t under = detach_from-IsDetached c.id c.parent_id d t under _ refl
