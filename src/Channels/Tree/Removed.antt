-- ===== src/Channels/Tree/Removed.antt =====
-- src/core/channel-tree.ts: `remove` on a tree whose lists are in order.
use teamspeak_js.Common.{
  ℕ, zero, suc, ◌≡◌, ◌≢◌, refl, sym, ap, ◌∙◌, List, [], ◌∷◌, Option, none, some,
}
use mathlib.Core.Path.{subst}
use teamspeak_js.Common.Maps.{
  lookup, delete, lookup-delete-some, lookup-delete_self, lookup-delete_ne, delete-IsMap,
}
use teamspeak_js.Channels.Tree.{top, Channel, Draft, flaw, detach}
use teamspeak_js.Channels.Tree.Settled.{Ordered-ext, All-map}
use teamspeak_js.Channels.Tree.Placed.{Nowhere, IsOrdered, Shrinks, detach-IsDetached}
use teamspeak_js.Channels.Tree.Steps.{and_then, each, forget, remove_below, remove_held, remove}

-- A result, where there is one, is in order and lists nothing new.
abbrev IsSmaller : Draft → Option Draft → Type 0
IsSmaller d none = Unit
IsSmaller d (some d') = IsOrdered d' × Shrinks d d'

-- Moreover it does not hold the channel.
abbrev pub IsRemoved : ℕ → Draft → Option Draft → Type 0
IsRemoved id d none = Unit
IsRemoved id d (some d') = IsOrdered d' × Shrinks d d' × (lookup id d'.channels ≡ none)

forgotten-IsRemoved :
    (id : ℕ) (d d' : Draft)
    → IsOrdered d'
    → Shrinks d d'
    → Nowhere id d'.kids
    → IsRemoved id d (forget id (some d'))
forgotten-IsRemoved id d d' t fewer nowhere = (
  record {
    channels_map = delete-IsMap id d'.channels t.channels_map;
    kids_map = delete-IsMap id d'.kids t.kids_map;
    ids = λ k c e. t.ids k c (lookup-delete-some id k c d'.channels t.channels_map e).1;
    listed = λ q siblings e.
        let held = (lookup-delete-some id q siblings d'.kids t.kids_map e).1 in
        let (once, ordered) = t.listed q siblings held in
        (
          once,
          Ordered-ext q top siblings d'.channels (delete id d'.channels)
              (All-map (λ s. s ≢ id) (λ k. lookup k (delete id d'.channels) ≡ lookup k d'.channels)
                siblings (λ k other. lookup-delete_ne id k d'.channels (λ s. other (sym s)))
                (nowhere q siblings held))
              ordered,
        );
  },
  λ k out q siblings e.
      fewer k out q siblings (lookup-delete-some id q siblings d'.kids t.kids_map e).1,
  lookup-delete_self id d'.channels t.channels_map,
)

then-IsSmaller : (d d' : Draft) (o : Option Draft) → Shrinks d d' → IsSmaller d' o → IsSmaller d o
then-IsSmaller d d' none fewer h = tt
then-IsSmaller d d' (some d'') fewer (t, fewer') = (t, λ k nowhere. fewer' k (fewer k nowhere))

module _ (f : ℕ → Draft → Option Draft)
    (removes : (id : ℕ) (d : Draft) → IsOrdered d → IsRemoved id d (f id d)) where
  and_then-IsSmaller :
      (ids : List ℕ) (id : ℕ) (d : Draft) (o : Option Draft)
      → IsRemoved id d o
      → ((d' : Draft) → IsOrdered d' → IsSmaller d' (each f ids d'))
      → IsSmaller d (and_then o (each f ids))
  and_then-IsSmaller ids id d none h more = tt
  and_then-IsSmaller ids id d (some d') (t, fewer, _) more =
      then-IsSmaller d d' (each f ids d') fewer (more d' t)

  each-IsSmaller : (ids : List ℕ) (d : Draft) → IsOrdered d → IsSmaller d (each f ids d)
  each-IsSmaller [] d t = (t, λ k nowhere. nowhere)
  each-IsSmaller (id ∷ ids) d t =
      and_then-IsSmaller ids id d (f id d) (removes id d t) (λ d' t'. each-IsSmaller ids d' t')

  each-forget :
      (id : ℕ) (d d' : Draft) (o : Option Draft)
      → Shrinks d d'
      → Nowhere id d'.kids
      → IsSmaller d' o
      → IsRemoved id d (forget id o)
  each-forget id d d' none fewer nowhere h = tt
  each-forget id d d' (some d'') fewer nowhere (t, fewer') =
      forgotten-IsRemoved id d d'' t (λ k out. fewer' k (fewer k out)) (fewer' id nowhere)

  below-IsRemoved :
      (id : ℕ) (o : Option (List ℕ)) (d d' : Draft)
      → IsOrdered d'
      → Shrinks d d'
      → Nowhere id d'.kids
      → IsRemoved id d (remove_below f id o d')
  below-IsRemoved id none d d' t fewer nowhere = forgotten-IsRemoved id d d' t fewer nowhere
  below-IsRemoved id (some below) d d' t fewer nowhere =
      each-forget id d (flaw d') (each f below (flaw d')) fewer nowhere
        (each-IsSmaller below (flaw d') t)

  held-IsRemoved :
      (id : ℕ) (o : Option Channel) (d : Draft)
      → IsOrdered d
      → lookup id d.channels ≡ o
      → IsRemoved id d (remove_held f id o d)
  held-IsRemoved id none d t e = (t, λ k nowhere. nowhere, e)
  held-IsRemoved id (some c) d t e =
      let is : c.id ≡ id = t.ids id c e in
      let (t', nowhere, _, fewer) =
        detach-IsDetached c d t (c, ap (λ k. lookup k d.channels) is ∙ e, refl) in
      below-IsRemoved id _ d (detach c d) t' fewer
        (subst (λ k. Nowhere k (detach c d).kids) is nowhere)

-- Removing a channel, with the channels below it, leaves lists that are in order.
pub remove-IsRemoved : (fuel id : ℕ) (d : Draft) → IsOrdered d → IsRemoved id d (remove fuel id d)
unfolding remove
remove-IsRemoved zero id d t = tt
remove-IsRemoved (suc fuel) id d t =
    held-IsRemoved (remove fuel) (remove-IsRemoved fuel) id _ d t refl
