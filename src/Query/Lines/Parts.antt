-- ===== src/Query/Lines/Parts.antt =====
-- The parts of a text between newlines: those that a newline ends, and the last one.
use teamspeak_js.Common.{
  ℕ, ◌≤◌, ◌≡◌, refl, sym, ap, ◌∙◌, ◌≢◌, ==-false, ==_refl, List, [], ◌∷◌, ◌++◌, length,
  length-append, All, arith,
}
use mathlib.Core.Path.{subst}
use native.Mathlib.Decide.{ℕ_discrete}
use teamspeak_js.Language.Text.{Text, split, on_head, Lacks}
use teamspeak_js.Query.Lines.{newline}

-- Behind the last newline, and the parts before each newline.
unfoldable pub last_part : List Text → Text
last_part [] = []
last_part (part ∷ []) = part
last_part (_ ∷ next ∷ parts) = last_part (next ∷ parts)

unfoldable pub line_parts : List Text → List Text
line_parts [] = []
line_parts (part ∷ []) = []
line_parts (part ∷ next ∷ parts) = part ∷ line_parts (next ∷ parts)

-- Bytes in front of the first of some parts.
abbrev pub in_front : Text → List Text → List Text
in_front s [] = s ∷ []
in_front s (part ∷ parts) = (s ++ part) ∷ parts

in_front_cons :
    (c : ℕ) (s : Text) (parts : List Text) → in_front (c ∷ s) parts ≡ on_head c (in_front s parts)
in_front_cons c s [] = refl
in_front_cons c s (part ∷ parts) = refl

module _ (sep : ℕ) where
  split_sep : (c : ℕ) (s : Text) → c ≡ sep → split sep (c ∷ s) ≡ [] ∷ split sep s
  unfolding split
  split_sep c s e = rw (e, ==_refl sep) refl

  split_char : (c : ℕ) (s : Text) → c ≢ sep → split sep (c ∷ s) ≡ on_head c (split sep s)
  unfolding split
  split_char c s h = rw (==-false c sep h) refl

  abbrev pub IsSplit : List Text → Type 0
  IsSplit parts = (part : Text) × (rest : List Text) × (parts ≡ part ∷ rest)

  on_head-IsSplit : (c : ℕ) (parts : List Text) → IsSplit (on_head c parts)
  on_head-IsSplit c [] = (_, _, refl)
  on_head-IsSplit c (part ∷ parts) = (_, _, refl)

  pub split-IsSplit : (s : Text) → IsSplit (split sep s)
  split-IsSplit [] = unfold split in (_, _, refl)
  split-IsSplit (c ∷ s) = elim (ℕ_discrete c sep) [
    | yes e ↦ rw (split_sep c s e) ([], split sep s, refl)
    | no h ↦ rw (split_char c s h) (on_head-IsSplit c (split sep s))
  ]

  -- Bytes without the separator belong to the first part.
  pub in_front-split : (s t : Text) → Lacks sep s → in_front s (split sep t) ≡ split sep (s ++ t)
  in_front-split [] t h = let (part, rest, e) = split-IsSplit t in rw e refl
  in_front-split (c ∷ s) t (hc, h) =
      in_front_cons c s (split sep t)
      ∙ ap (on_head c) (in_front-split s t h)
      ∙ sym (split_char c (s ++ t) hc)

  last_part-on_head :
      (c : ℕ) (parts : List Text)
      → c ≢ sep
      → Lacks sep (last_part parts)
      → Lacks sep (last_part (on_head c parts))
  unfolding last_part
  last_part-on_head c [] hc h = (hc, tt)
  last_part-on_head c (part ∷ []) hc h = (hc, h)
  last_part-on_head c (part ∷ next ∷ parts) hc h = h

  pub last_part-Lacks : (s : Text) → Lacks sep (last_part (split sep s))
  unfolding last_part
  last_part-Lacks [] = unfold split in tt
  last_part-Lacks (c ∷ s) = elim (ℕ_discrete c sep) [
    | yes e ↦
        let (part, rest, is) = split-IsSplit s in
        rw (split_sep c s e, is) (rw is at (last_part-Lacks s))
    | no h ↦ rw (split_char c s h) (last_part-on_head c (split sep s) h (last_part-Lacks s))
  ]

  -- The parts of two texts in a row.
  abbrev pub Continues : Text → List Text → List Text → Type 0
  Continues t whole parts = whole ≡ line_parts parts ++ split sep (last_part parts ++ t)

  Continues-on_head :
      (c : ℕ) (t : Text) (whole parts : List Text)
      → c ≢ sep
      → Continues t whole parts
      → Continues t (on_head c whole) (on_head c parts)
  unfolding line_parts last_part
  Continues-on_head c t whole [] hc e = ap (on_head c) e ∙ sym (split_char c t hc)
  Continues-on_head c t whole (part ∷ []) hc e =
      ap (on_head c) e ∙ sym (split_char c (part ++ t) hc)
  Continues-on_head c t whole (part ∷ next ∷ parts) hc e = ap (on_head c) e

  Continues-sep :
      (t : Text) (whole parts : List Text)
      → IsSplit parts
      → Continues t whole parts
      → Continues t ([] ∷ whole) ([] ∷ parts)
  unfolding line_parts last_part
  Continues-sep t whole [] (part, rest, is) e = cc is
  Continues-sep t whole (part ∷ parts) is e = ap (λ w. [] ∷ w) e

  pub split-append : (s t : Text) → Continues t (split sep (s ++ t)) (split sep s)
  split-append [] t = unfold split line_parts last_part in refl
  split-append (c ∷ s) t = elim (ℕ_discrete c sep) [
    | yes e ↦
        rw (split_sep c s e, split_sep c (s ++ t) e)
          (Continues-sep t (split sep (s ++ t)) (split sep s) (split-IsSplit s) (split-append s t))
    | no h ↦
        rw (split_char c s h, split_char c (s ++ t) h)
          (Continues-on_head c t (split sep (s ++ t)) (split sep s) h (split-append s t))
  ]

module _ {ℓ} {A : Type ℓ} (P : A → Type 0) where
  All-left : (xs ys : List A) → All P (xs ++ ys) → All P xs
  All-left [] ys h = tt
  All-left (x ∷ xs) ys (px, h) = (px, All-left xs ys h)

  pub All-right : (xs ys : List A) → All P (xs ++ ys) → All P ys
  All-right [] ys h = h
  All-right (x ∷ xs) ys (px, h) = All-right xs ys h

-- Every line is within the limit.
abbrev pub Fits : ℕ → List Text → Type 0
Fits limit = All (λ line. length line ≤ limit)

parts-Fits :
    (limit : ℕ) (parts : List Text)
    → Fits limit (line_parts parts)
    → length (last_part parts) ≤ limit
    → Fits limit parts
unfolding line_parts last_part
parts-Fits limit [] lines last = tt
parts-Fits limit (part ∷ []) lines last = (last, tt)
parts-Fits limit (part ∷ next ∷ parts) (fits, lines) last =
    (fits, parts-Fits limit (next ∷ parts) lines last)

pub first-Fits :
    (limit : ℕ) (s t : Text)
    → Lacks newline s
    → Fits limit (split newline (s ++ t))
    → length s ≤ limit
first-Fits limit s t part fits =
    let (first, rest, is) = split-IsSplit newline t in
    let e : in_front s (first ∷ rest) ≡ split newline (s ++ t) =
      ap (in_front s) (sym is) ∙ in_front-split newline s t part in
    omega (arith, (subst (Fits limit) (sym e) fits).0, length-append s first)

pub prefix-Fits :
    (limit : ℕ) (s t : Text) → Fits limit (split newline (s ++ t)) → Fits limit (split newline s)
prefix-Fits limit s t fits =
    let fits' = subst (Fits limit) (split-append newline s t) fits in
    parts-Fits limit (split newline s) (All-left _ (line_parts (split newline s)) _ fits') (
      first-Fits limit (last_part (split newline s)) t (last_part-Lacks newline s)
        (All-right _ (line_parts (split newline s)) _ fits'))

pub parts-append :
    (lines parts : List Text)
    → IsSplit newline parts
    → (line_parts (lines ++ parts) ≡ lines ++ line_parts parts)
      × (last_part (lines ++ parts) ≡ last_part parts)
unfolding line_parts last_part
parts-append [] parts is = (refl, refl)
parts-append (line ∷ []) parts (part, rest, is) = rw is (refl, refl)
parts-append (line ∷ next ∷ lines) parts is =
    let (first, last) = parts-append (next ∷ lines) parts is in (ap (λ l. line ∷ l) first, last)
