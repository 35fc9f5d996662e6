-- ===== src/Channels/Tree/Written.antt =====
-- src/core/channel-tree.ts: a channel that is written to a draft whose lists are in order.
use teamspeak_js.Common.{
  ℕ, ◌≡◌, ◌≢◌, refl, sym, ap, ◌∙◌, ◌==◌, ==_iff, ==_refl, ==-false, ==-false→ne, Bool-cases, inl,
  inr, List, [], ◌∷◌, none, some,
}
use mathlib.Core.Option.{some-injective}
use teamspeak_js.Common.Maps.{lookup, insert, lookup-insert, insert-IsMap}
use teamspeak_js.Channels.Tree.{top, Channel, Draft}
use teamspeak_js.Channels.Tree.Settled.{IsUnder, Ordered, Ordered-ext, Ordered-IsUnder, All-map}
use teamspeak_js.Channels.Tree.Placed.{Nowhere, IsOrdered}
use teamspeak_js.Channels.Tree.Steps.{set_channel}

pub lookup_new :
    (id : ℕ) (c : Channel) (channels : List (ℕ × Channel))
    → lookup id (insert id c channels) ≡ some c
lookup_new id c channels = lookup-insert id id c channels ∙ rw (==_refl id) refl

lookup_old :
    (id k : ℕ) (c : Channel) (channels : List (ℕ × Channel))
    → k ≢ id
    → lookup k (insert id c channels) ≡ lookup k channels
lookup_old id k c channels h =
    lookup-insert id k c channels ∙ rw (==-false id k (λ e. h (sym e))) refl

-- A channel that is written under its id, where the lists stay in order.
written-IsOrdered :
    (id : ℕ) (c : Channel) (d : Draft)
    → IsOrdered d
    → c.id ≡ id
    → ((q : ℕ) (siblings : List ℕ)
        → lookup q d.kids ≡ some siblings
        → Ordered (insert id c d.channels) q top siblings)
    → IsOrdered (set_channel id c d)
written-IsOrdered id c d t is ordered = record {
  channels_map = insert-IsMap id c d.channels t.channels_map;
  kids_map = t.kids_map;
  ids = λ k c' e. elim (Bool-cases (k == id)) [
    | inl same ↦
        let k_is = (==_iff k id).0 same in
        let one : c ≡ c' = some-injective _ _ (
          sym (lookup_new id c d.channels)
          ∙ ap (λ j. lookup j (insert id c d.channels)) (sym k_is)
          ∙ e) in
        sym (ap (λ r. r.id) one) ∙ is ∙ sym k_is
    | inr other ↦ t.ids k c' (sym (lookup_old id k c d.channels (==-false→ne k id other)) ∙ e)
  ];
  listed = λ q siblings e. ((t.listed q siblings e).0, ordered q siblings e);
}

-- A channel in no list.
pub new-IsOrdered :
    (id : ℕ) (c : Channel) (d : Draft)
    → IsOrdered d
    → c.id ≡ id
    → Nowhere id d.kids
    → IsOrdered (set_channel id c d)
new-IsOrdered id c d t is nowhere = written-IsOrdered id c d t is (λ q siblings e.
    Ordered-ext q top siblings d.channels (insert id c d.channels)
      (All-map (λ s. s ≢ id) (λ k. lookup k (insert id c d.channels) ≡ lookup k d.channels) siblings
        (λ k other. lookup_old id k c d.channels other) (nowhere q siblings e))
      (t.listed q siblings e).1)

-- A channel whose place stays.
changed-Ordered :
    (c c' : Channel) (q before : ℕ) (siblings : List ℕ) (channels : List (ℕ × Channel))
    → lookup c.id channels ≡ some c
    → c'.parent_id ≡ c.parent_id
    → c'.order ≡ c.order
    → Ordered channels q before siblings
    → Ordered (insert c.id c' channels) q before siblings
changed-Ordered c c' q before [] channels held p o h = tt
changed-Ordered c c' q before (k ∷ siblings) channels held p o ((r, is, under, named), h) =
    let rest = changed-Ordered c c' q k siblings channels held p o h in
    elim (Bool-cases (k == c.id)) [
      | inl same ↦
          let k_is = (==_iff k c.id).0 same in
          let one : c ≡ r =
            some-injective _ _ (sym held ∙ ap (λ j. lookup j channels) (sym k_is) ∙ is) in
          (
            (
              c',
              ap (λ j. lookup j (insert c.id c' channels)) k_is ∙ lookup_new c.id c' channels,
              p ∙ ap (λ x. x.parent_id) one ∙ under,
              o ∙ ap (λ x. x.order) one ∙ named,
            ),
            rest,
          )
      | inr other ↦
          ((r, lookup_old c.id k c' channels (==-false→ne k c.id other) ∙ is, under, named), rest)
    ]

pub changed-IsOrdered :
    (c c' : Channel) (d : Draft)
    → IsOrdered d
    → lookup c.id d.channels ≡ some c
    → c'.id ≡ c.id
    → c'.parent_id ≡ c.parent_id
    → c'.order ≡ c.order
    → IsOrdered (set_channel c.id c' d)
changed-IsOrdered c c' d t held i p o = written-IsOrdered c.id c' d t i (λ q siblings e.
    changed-Ordered c c' q top siblings d.channels held p o (t.listed q siblings e).1)

-- A channel that is not held is in no list.
pub unheld-Nowhere :
    (id : ℕ) (d : Draft) → IsOrdered d → lookup id d.channels ≡ none → Nowhere id d.kids
unheld-Nowhere id d t n q siblings e =
    All-map (IsUnder d.channels q) (λ s. s ≢ id) siblings
      (λ k (c, held, _) same. absurd (cc (n, ap (λ j. lookup j d.channels) same, held)))
      (Ordered-IsUnder q top siblings d.channels (t.listed q siblings e).1)
