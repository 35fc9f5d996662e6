-- ===== src/Language/Escape/RoundTrip.antt =====
-- src/core/command/command.ts: the passes of `escape`, character by character, and `unescape` after
-- them.
use teamspeak_js.Common.{
  ℕ, ◌≡◌, ◌≢◌, refl, ◌∙◌, ap, if◌then◌else◌, ◌==◌, ==_iff, ==-false, Bool-cases, inl, inr, List, [],
  ◌∷◌, ◌++◌, All, Option, none, some, arith,
}
use teamspeak_js.Language.Escape.{
  backslash, escape_map, replace_all, replace_each, escape, unescaped, unescape,
}

-- What `escape` puts behind a backslash for a character, if anything.
abbrev pub escape_of : ℕ → List (ℕ × ℕ) → Option ℕ
escape_of c [] = none
escape_of c ((from, to) ∷ entries) = if c == from then some to else escape_of c entries

abbrev pub escaped : ℕ → Option ℕ → List ℕ
escaped c none = c ∷ []
escaped c (some to) = backslash ∷ to ∷ []

-- No entry replaces the character.
abbrev Spares : ℕ → List (ℕ × ℕ) → Type 0
Spares c = All (λ (e : ℕ × ℕ). c ≢ e.0)

-- What one entry puts in is spared by those behind it.
abbrev IsOrdered : List (ℕ × ℕ) → Type 0
IsOrdered [] = Unit
IsOrdered ((from, to) ∷ entries) = Spares backslash entries × Spares to entries × IsOrdered entries

escape_map-IsOrdered : IsOrdered escape_map
escape_map-IsOrdered = omega arith

replace_all-append :
    (from to : ℕ) (s t : List ℕ)
    → replace_all from to (s ++ t) ≡ replace_all from to s ++ replace_all from to t
unfolding replace_all
replace_all-append from to [] t = refl
replace_all-append from to (c ∷ s) t = ground (arith, replace_all-append from to s t)

replace_each-append :
    (entries : List (ℕ × ℕ)) (s t : List ℕ)
    → replace_each entries (s ++ t) ≡ replace_each entries s ++ replace_each entries t
unfolding replace_each
replace_each-append [] s t = refl
replace_each-append ((from, to) ∷ entries) s t =
    rw (replace_all-append from to s t) (replace_each-append entries _ _)

replace_all_one :
    (from to c : ℕ)
    → replace_all from to (c ∷ []) ≡ (if c == from then backslash ∷ to ∷ [] else c ∷ [])
unfolding replace_all
replace_all_one from to c = refl

replace_each_spared :
    (entries : List (ℕ × ℕ)) (c d : ℕ)
    → Spares c entries
    → Spares d entries
    → replace_each entries (c ∷ d ∷ []) ≡ c ∷ d ∷ []
unfolding replace_each replace_all
replace_each_spared [] c d h k = refl
replace_each_spared ((from, to) ∷ entries) c d (hc, h) (kd, k) =
    rw (==-false c from hc, ==-false d from kd) (replace_each_spared entries c d h k)

-- The passes together turn a character into itself or into its escape.
replace_each_one :
    (entries : List (ℕ × ℕ)) (c : ℕ)
    → IsOrdered entries
    → replace_each entries (c ∷ []) ≡ escaped c (escape_of c entries)
unfolding replace_each replace_all
replace_each_one [] c o = refl
replace_each_one ((from, to) ∷ entries) c (ob, ot, o) = elim (Bool-cases (c == from)) [
  | inl same ↦ rw same (replace_each_spared entries backslash to ob ot)
  | inr other ↦ rw other (replace_each_one entries c o)
]

pub escape-cons :
    (c : ℕ) (s : List ℕ) → escape (c ∷ s) ≡ escaped c (escape_of c escape_map) ++ escape s
unfolding escape
escape-cons c s =
    replace_each-append escape_map (c ∷ []) s
    ∙ ap (λ t. t ++ replace_each escape_map s) (replace_each_one escape_map c escape_map-IsOrdered)

pub escape-nil : escape [] ≡ []
unfolding escape replace_each replace_all
escape-nil = refl

-- Every escape is read back.
abbrev IsReadBack : List (ℕ × ℕ) → Type 0
IsReadBack = All (λ (e : ℕ × ℕ). unescaped e.1 ≡ some e.0)

escape_map-IsReadBack : IsReadBack escape_map
unfolding unescaped
escape_map-IsReadBack =
    (refl, (refl, (refl, (refl, (refl, (refl, (refl, (refl, (refl, (refl, (refl, tt)))))))))))

unescaped-escape_of :
    (entries : List (ℕ × ℕ)) (c to : ℕ)
    → IsReadBack entries
    → escape_of c entries ≡ some to
    → unescaped to ≡ some c
unescaped-escape_of [] c to h e = cc
unescaped-escape_of ((from, t) ∷ entries) c to (h, hs) e = elim (Bool-cases (c == from)) [
  | inl same ↦ cc ((==_iff c from).0 same, rw same at e, h)
  | inr other ↦ unescaped-escape_of entries c to hs (rw other at e)
]

backslash_is_escaped : (c : ℕ) → escape_of c escape_map ≡ none → c ≢ backslash
backslash_is_escaped c e = ground arith

unescape_plain : (c : ℕ) (s : List ℕ) → c ≢ backslash → unescape (c ∷ s) ≡ c ∷ unescape s
unfolding unescape
unescape_plain c [] h = refl
unescape_plain c (d ∷ s) h = rw (==-false c backslash h)

unescape_pair :
    (to c : ℕ) (s : List ℕ) → unescaped to ≡ some c → unescape (backslash ∷ to ∷ s) ≡ c ∷ unescape s
unfolding unescape
unescape_pair to c s e = rw (e, unescape)

-- What stands for a character is read back as that character, whatever follows.
unescape-escaped :
    (c : ℕ) (s : List ℕ) (o : Option ℕ)
    → escape_of c escape_map ≡ o
    → unescape (escaped c o ++ s) ≡ c ∷ unescape s
unescape-escaped c s none e = unescape_plain c s (backslash_is_escaped c e)
unescape-escaped c s (some to) e =
    unescape_pair to c s (unescaped-escape_of escape_map c to escape_map-IsReadBack e)

-- `unescape` undoes `escape`, for every text.
pub unescape-escape : (s : List ℕ) → unescape (escape s) ≡ s
unescape-escape [] = rw escape-nil (unfold unescape in refl)
unescape-escape (c ∷ s) =
    rw (escape-cons c s, unescape-escaped c (escape s) _ refl) (ap (λ t. c ∷ t) (unescape-escape s))
