-- ===== src/Channels/Tree/Lists.antt =====
-- src/core/channel-tree.ts: lists of siblings, each channel once, and where a channel is put in one.
use teamspeak_js.Common.{
  ℕ, ◌≡◌, ◌≢◌, refl, sym, ◌==◌, ==-false→ne, true, false, Bool-cases, Option-cases, inl, inr, List,
  [], ◌∷◌, ◌++◌, All, Option, none, some, filter_by,
}
use mathlib.Core.Path.{subst}
use teamspeak_js.Channels.Tree.{top, place_behind, placed, without}

-- A channel that is none of the list.
abbrev pub Avoids : ℕ → List ℕ → Type 0
Avoids id = All (λ sibling. sibling ≢ id)

abbrev pub Distinct : List ℕ → Type 0
Distinct [] = Unit
Distinct (id ∷ ids) = Avoids id ids × Distinct ids

without-keeps :
    (id s : ℕ) (ids : List ℕ) → (s == id) ≡ false → without id (s ∷ ids) ≡ s ∷ without id ids
unfolding filter_by
without-keeps id s ids e = rw (filter_by, e) refl

without-drops : (id s : ℕ) (ids : List ℕ) → (s == id) ≡ true → without id (s ∷ ids) ≡ without id ids
unfolding filter_by
without-drops id s ids e = rw (filter_by, e) refl

-- What holds of all siblings holds of those left, which do not have `id`.
pub without-All : (P : ℕ → Type 0) (id : ℕ) (ids : List ℕ) → All P ids → All P (without id ids)
unfolding filter_by
without-All P id [] h = tt
without-All P id (s ∷ ids) (p, h) = elim (Bool-cases (s == id)) [
  | inl e ↦ subst (All P) (sym (without-drops id s ids e)) (without-All P id ids h)
  | inr e ↦ subst (All P) (sym (without-keeps id s ids e)) (p, without-All P id ids h)
]

pub without-Avoids : (id : ℕ) (ids : List ℕ) → Avoids id (without id ids)
unfolding filter_by
without-Avoids id [] = tt
without-Avoids id (s ∷ ids) = elim (Bool-cases (s == id)) [
  | inl e ↦ subst (Avoids id) (sym (without-drops id s ids e)) (without-Avoids id ids)
  | inr e ↦
      subst (Avoids id) (sym (without-keeps id s ids e)) (==-false→ne s id e, without-Avoids id ids)
]

pub without-Distinct : (id : ℕ) (ids : List ℕ) → Distinct ids → Distinct (without id ids)
unfolding filter_by
without-Distinct id [] h = tt
without-Distinct id (s ∷ ids) (a, h) = elim (Bool-cases (s == id)) [
  | inl e ↦ subst Distinct (sym (without-drops id s ids e)) (without-Distinct id ids h)
  | inr e ↦
      subst Distinct (sym (without-keeps id s ids e))
        (without-All (λ t. t ≢ s) id ids a, without-Distinct id ids h)
]

-- The second list is the first with `id` put in somewhere.
pub data Put (id : ℕ) : List ℕ → List ℕ → Type 0 where
  here : (ids : List ℕ) → Put id ids (id ∷ ids)
  there : (s : ℕ) (ids next : List ℕ) → Put id ids next → Put id (s ∷ ids) (s ∷ next)

last-Put : (id : ℕ) (ids : List ℕ) → Put id ids (ids ++ id ∷ [])
last-Put id [] = here []
last-Put id (s ∷ ids) = there s ids (ids ++ id ∷ []) (last-Put id ids)

place_behind-Put :
    (after id : ℕ) (ids next : List ℕ) → place_behind after id ids ≡ some next → Put id ids next
unfolding place_behind
place_behind-Put after id [] next e = absurd (cc e)
place_behind-Put after id (s ∷ ids) next e = elim (Bool-cases (s == after)) [
  | inl same ↦ subst (Put id (s ∷ ids)) (cc (rw same at e)) (there s ids (id ∷ ids) (here ids))
  | inr other ↦ elim (Option-cases (place_behind after id ids)) [
    | inl n ↦ absurd (cc (rw (other, n) at e))
    | inr (more, n) ↦
        subst (Put id (s ∷ ids)) (cc (rw (other, n) at e))
          (there s ids more (place_behind-Put after id ids more n))
  ]
]

pub placed-Put : (after : Option ℕ) (id : ℕ) (ids : List ℕ) → Put id ids (placed after id ids).0
unfolding placed
placed-Put none id ids = last-Put id ids
placed-Put (some after) id ids = elim (Bool-cases (after == top)) [
  | inl e ↦ rw e (here ids)
  | inr e ↦ elim (Option-cases (place_behind after id ids)) [
    | inl n ↦ rw (e, n) (last-Put id ids)
    | inr (next, n) ↦ rw (e, n) (place_behind-Put after id ids next n)
  ]
]

pub Put-All :
    (P : ℕ → Type 0) (id : ℕ) (ids next : List ℕ) → Put id ids next → P id → All P ids → All P next
Put-All P id _ _ (here ids) p h = (p, h)
Put-All P id _ _ (there s ids next put) p (q, h) = (q, Put-All P id ids next put p h)

pub Put-Distinct :
    (id : ℕ) (ids next : List ℕ) → Put id ids next → Avoids id ids → Distinct ids → Distinct next
Put-Distinct id _ _ (here ids) a h = (a, h)
Put-Distinct id _ _ (there s ids next put) (n, a) (b, h) =
    (Put-All (λ t. t ≢ s) id ids next put (λ e. n (sym e)) b, Put-Distinct id ids next put a h)
