-- ===== src/Common/Maps.antt =====
-- A JavaScript `Map` with number keys: an association list in insertion order.
use Prim.Native.Nat.{ℕ, suc}
use mathlib.Core.Path.{◌≡◌, refl, sym, ap, ◌∙◌}
use mathlib.Core.Logic.{◌≢◌, inl, inr}
use mathlib.Core.Bool.{Bool, true, false}
use mathlib.Core.List.{List, [], ◌∷◌}
use mathlib.Core.Option.{Option, none, some}
use native.Mathlib.Omega.{arith}
use teamspeak_js.Common.Tests.{◌==◌, if◌then◌else◌, ==_iff, ==-false→ne, Bool-cases}
use teamspeak_js.Common.Lists.{length}

module _ {ℓ} {V : Type ℓ} where
  -- `Map.prototype.get`.
  unfoldable pub lookup : ℕ → List (ℕ × V) → Option V
  lookup key [] = none
  lookup key ((at, here) ∷ entries) = if at == key then some here else lookup key entries

  -- `Map.prototype.has`.
  unfoldable pub has : ℕ → List (ℕ × V) → Bool
  has k m = elim (lookup k m) [ none ↦ false | some _ ↦ true ]

  -- `Map.prototype.delete`. A key stands once in a `Map`, so the first entry is the only one.
  unfoldable pub delete : ℕ → List (ℕ × V) → List (ℕ × V)
  delete k [] = []
  delete k ((j, v) ∷ m) = if j == k then m else (j, v) ∷ delete k m

  -- `Map.prototype.set` keeps the place of a key that is there.
  unfoldable pub insert : ℕ → V → List (ℕ × V) → List (ℕ × V)
  insert key new [] = (key, new) ∷ []
  insert key new ((at, here) ∷ entries) =
      if at == key then (key, new) ∷ entries else (at, here) ∷ insert key new entries

  pub lookup-insert :
      (key other : ℕ) (new : V) (entries : List (ℕ × V))
      → lookup other (insert key new entries)
        ≡ (if key == other then some new else lookup other entries)
  unfolding insert lookup
  lookup-insert key other new [] = refl
  lookup-insert key other new ((at, here) ∷ entries) =
      ground (arith, lookup-insert key other new entries)

  pub lookup-delete_ne : (k j : ℕ) (m : List (ℕ × V)) → k ≢ j → lookup j (delete k m) ≡ lookup j m
  unfolding lookup delete
  lookup-delete_ne k j [] h = refl
  lookup-delete_ne k j ((i, w) ∷ m) h = ground (arith, lookup-delete_ne k j m h)

  -- Every key stands once.
  abbrev pub Lacks : ℕ → List (ℕ × V) → Type 0
  Lacks k [] = Unit
  Lacks k ((j, v) ∷ m) = (j ≢ k) × Lacks k m

  abbrev pub IsMap : List (ℕ × V) → Type 0
  IsMap [] = Unit
  IsMap ((k, v) ∷ m) = Lacks k m × IsMap m

  pub lookup-Lacks : (k : ℕ) (m : List (ℕ × V)) → Lacks k m → lookup k m ≡ none
  unfolding lookup
  lookup-Lacks k [] h = refl
  lookup-Lacks k ((j, v) ∷ m) h = ground (arith, lookup-Lacks k m h.1)

  pub delete-Lacks : (k j : ℕ) (m : List (ℕ × V)) → Lacks j m → Lacks j (delete k m)
  unfolding delete
  delete-Lacks k j [] h = tt
  delete-Lacks k j ((i, v) ∷ m) h = ground (arith, delete-Lacks k j m h.1)

  pub insert-Lacks :
      (k j : ℕ) (v : V) (m : List (ℕ × V)) → k ≢ j → Lacks j m → Lacks j (insert k v m)
  unfolding insert
  insert-Lacks k j v [] n h = (n, tt)
  insert-Lacks k j v ((i, w) ∷ m) n h = ground (arith, insert-Lacks k j v m n h.1)

  pub delete-IsMap : (k : ℕ) (m : List (ℕ × V)) → IsMap m → IsMap (delete k m)
  unfolding delete
  delete-IsMap k [] h = tt
  delete-IsMap k ((j, v) ∷ m) h = ground (arith, delete-IsMap k m h.1, delete-Lacks k j m h.0)

  pub insert-IsMap : (k : ℕ) (v : V) (m : List (ℕ × V)) → IsMap m → IsMap (insert k v m)
  unfolding insert
  insert-IsMap k v [] h = (tt, tt)
  insert-IsMap k v ((j, w) ∷ m) h = elim (Bool-cases (j == k)) [
    | inl same ↦ rw same (rw ((==_iff j k).0 same) at h.0, h.1)
    | inr other ↦
        rw other
          (insert-Lacks k j v m (λ e. ==-false→ne j k other (sym e)) h.0, insert-IsMap k v m h.1)
  ]

  pub lookup-delete_self : (k : ℕ) (m : List (ℕ × V)) → IsMap m → lookup k (delete k m) ≡ none
  unfolding lookup delete
  lookup-delete_self k [] h = refl
  lookup-delete_self k ((j, v) ∷ m) h = elim (Bool-cases (j == k)) [
    | inl same ↦ rw same (lookup-Lacks k m (rw ((==_iff j k).0 same) at h.0))
    | inr other ↦ rw (other, other) (lookup-delete_self k m h.1)
  ]

  pub length-delete :
      (k : ℕ) (v : V) (m : List (ℕ × V))
      → lookup k m ≡ some v
      → suc (length (delete k m)) ≡ length m
  unfolding lookup delete
  length-delete k v [] h = cc
  length-delete k v ((j, w) ∷ m) h = ground (arith, length-delete k v m)

  -- What is left after a key is deleted was there, under another key.
  pub lookup-delete-some :
      (k j : ℕ) (v : V) (m : List (ℕ × V))
      → IsMap m
      → lookup j (delete k m) ≡ some v
      → ((j == k) ≡ false) × (lookup j m ≡ some v)
  lookup-delete-some k j v m h e = elim (Bool-cases (j == k)) [
    | inl same ↦
        let gone : lookup j (delete k m) ≡ none =
          ap (λ i. lookup i (delete k m)) ((==_iff j k).0 same) ∙ lookup-delete_self k m h in
        absurd (cc (gone, e))
    | inr other ↦ (other, sym (lookup-delete_ne k j m (λ s. ==-false→ne j k other (sym s))) ∙ e)
  ]
