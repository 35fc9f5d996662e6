-- ===== src/Language/Text.antt =====
-- The string operations that the command language uses, over lists of UTF-16 code units.
use teamspeak_js.Common.{
  ℕ, ◌≡◌, ◌≢◌, refl, ap, ◌==◌, ==-false, ==_refl, if◌then◌else◌, List, [], ◌∷◌, ◌++◌, All, Option,
  none, some,
}

abbrev pub Text : Type 0
Text = List ℕ

abbrev pub on_head : ℕ → List Text → List Text
on_head c [] = (c ∷ []) ∷ []
on_head c (part ∷ parts) = (c ∷ part) ∷ parts

-- `String.prototype.split` by one character. There is always a part.
unfoldable pub split : ℕ → Text → List Text
split sep [] = [] ∷ []
split sep (c ∷ s) = let parts = split sep s in if c == sep then [] ∷ parts else on_head c parts

-- `Array.prototype.join` with one character.
unfoldable pub join : ℕ → List Text → Text
join sep [] = []
join sep (part ∷ []) = part
join sep (part ∷ next ∷ parts) = part ++ sep ∷ join sep (next ∷ parts)

-- `indexOf` of one character, as the text before it and the text behind it.
unfoldable pub cut : ℕ → Text → Option (Text × Text)
cut sep [] = none
cut sep (c ∷ s) =
    let rest = cut sep s in
    if c == sep
    then some ([], s)
    else elim rest [ none ↦ none | some (before, behind) ↦ some (c ∷ before, behind) ]

abbrev pub Lacks : ℕ → Text → Type 0
Lacks d = All (λ c. c ≢ d)

-- A text without the separator stays whole in front of one.
pub split_at :
    (sep : ℕ) (part s : Text) → Lacks sep part → split sep (part ++ sep ∷ s) ≡ part ∷ split sep s
unfolding split
split_at sep [] s h = rw (==_refl sep)
split_at sep (c ∷ part) s (hc, h) = rw (==-false c sep hc, split_at sep part s h)

pub split_whole : (sep : ℕ) (part : Text) → Lacks sep part → split sep part ≡ part ∷ []
unfolding split
split_whole sep [] h = refl
split_whole sep (c ∷ part) (hc, h) = rw (==-false c sep hc, split_whole sep part h)

-- Splitting undoes joining, for at least one part and parts without the separator.
pub split-join :
    (sep : ℕ) (part : Text) (parts : List Text)
    → Lacks sep part
    → All (Lacks sep) parts
    → split sep (join sep (part ∷ parts)) ≡ part ∷ parts
unfolding join
split-join sep part [] h hs = split_whole sep part h
split-join sep part (next ∷ parts) h (hn, hs) =
    rw (split_at sep part (join sep (next ∷ parts)) h)
      (ap (λ t. part ∷ t) (split-join sep next parts hn hs))

pub cut_at :
    (sep : ℕ) (before s : Text) → Lacks sep before → cut sep (before ++ sep ∷ s) ≡ some (before, s)
unfolding cut
cut_at sep [] s h = rw (==_refl sep)
cut_at sep (c ∷ before) s (hc, h) = rw (==-false c sep hc, cut_at sep before s h)

pub cut-none : (sep : ℕ) (s : Text) → Lacks sep s → cut sep s ≡ none
unfolding cut
cut-none sep [] h = refl
cut-none sep (c ∷ s) (hc, h) = rw (==-false c sep hc, cut-none sep s h)
