-- ===== src/Language/Rows/Fields.antt =====
-- src/core/helpers.ts, `resolveRow` and `lastPerField`: the fields that a row inherits. What a row
-- says of a field is the last of its tokens of that field.
use teamspeak_js.Common.{
  ◌≡◌, refl, sym, ap, ◌∙◌, true, false, Bool, not, if◌then◌else◌, any, filter_by, eq_list,
  eq_list_iff, Bool-cases, Option-cases, inl, inr, List, [], ◌∷◌, ◌++◌, Option, none, some,
}
use mathlib.Core.Path.{subst}
use teamspeak_js.Language.Text.{Text}
use teamspeak_js.Language.Rows.{
  field_name, names, resolve_row, keep_last, keep_each, last_per_field,
}

abbrev pub or_else : {A : Type 0} → Option A → Option A → Option A
or_else none later = later
or_else (some a) later = some a

-- The last token of a field.
unfoldable pub last_of : Text → List Text → Option Text
last_of name [] = none
last_of name (token ∷ tokens) =
    or_else (last_of name tokens) (if names name token then some token else none)

last_of-append :
    (name : Text) (xs ys : List Text)
    → last_of name (xs ++ ys) ≡ or_else (last_of name ys) (last_of name xs)
unfolding last_of
last_of-append name [] ys = elim (Option-cases (last_of name ys)) [
  | inl e ↦ rw e refl
  | inr (t, e) ↦ rw e refl
]
last_of-append name (x ∷ xs) ys =
    rw (last_of-append name xs ys)
      (elim (Option-cases (last_of name ys)) [ inl e ↦ rw e refl | inr (t, e) ↦ rw e refl ])

or_else-none : (o : Option Text) → or_else o none ≡ o
or_else-none none = refl
or_else-none (some t) = refl

or_else_assoc : (o p q : Option Text) → or_else (or_else o p) q ≡ or_else o (or_else p q)
or_else_assoc none p q = refl
or_else_assoc (some t) p q = refl

none-any :
    (name : Text) (tokens : List Text)
    → last_of name tokens ≡ none
    → any (names name) tokens ≡ false
unfolding any last_of
none-any name [] h = refl
none-any name (token ∷ tokens) h = elim (Option-cases (last_of name tokens)) [
  | inr (t, e) ↦ absurd (cc (rw e at h))
  | inl e ↦ elim (Bool-cases (names name token)) [
    | inl n ↦ absurd (cc (rw (e, n) at h))
    | inr n ↦ rw (n, none-any name tokens e) refl
  ]
]

filter_keeps :
    (p : Text → Bool) (x : Text) (xs : List Text)
    → p x ≡ true
    → filter_by p (x ∷ xs) ≡ x ∷ filter_by p xs
unfolding filter_by
filter_keeps p x xs e = rw (filter_by, e) refl

filter_drops :
    (p : Text → Bool) (x : Text) (xs : List Text)
    → p x ≡ false
    → filter_by p (x ∷ xs) ≡ filter_by p xs
unfolding filter_by
filter_drops p x xs e = rw (filter_by, e) refl

-- A token of a field that the tokens name is not of one that they do not name.
other_name :
    (name token : Text) (tokens : List Text)
    → last_of name tokens ≡ none
    → any (names (field_name token)) tokens ≡ true
    → names name token ≡ false
other_name name token tokens h e = elim (Bool-cases (names name token)) [
  | inl n ↦ absurd (
      cc (
        subst (λ m. any (names m) tokens ≡ true) ((eq_list_iff (field_name token) name).0 n) e,
        none-any name tokens h,
      ))
  | inr n ↦ n
]

-- The row before says of a field that the new tokens do not name what it said.
kept-last_of :
    (name : Text) (tokens previous : List Text)
    → last_of name tokens ≡ none
    → last_of name (filter_by (λ token. not (any (names (field_name token)) tokens)) previous)
      ≡ last_of name previous
unfolding last_of filter_by
kept-last_of name tokens [] h = refl
kept-last_of name tokens (token ∷ previous) h =
    elim (Bool-cases (any (names (field_name token)) tokens)) [
      | inl e ↦
          ap (last_of name)
            (filter_drops (λ t. not (any (names (field_name t)) tokens)) token previous (ap not e))
          ∙ kept-last_of name tokens previous h
          ∙ sym (rw (other_name name token tokens h e) (or_else-none (last_of name previous)))
      | inr e ↦
          ap (last_of name)
            (filter_keeps (λ t. not (any (names (field_name t)) tokens)) token previous (ap not e))
          ∙ rw (kept-last_of name tokens previous h) refl
    ]

last_of-resolve_row :
    (name : Text) (previous tokens : List Text)
    → last_of name (resolve_row previous tokens)
      ≡ or_else (last_of name tokens) (last_of name previous)
unfolding resolve_row
last_of-resolve_row name previous tokens =
    last_of-append name _ tokens ∙ elim (Option-cases (last_of name tokens)) [
      | inl e ↦ rw e (kept-last_of name tokens previous e)
      | inr (t, e) ↦ rw e refl
    ]

-- Each field has one token.
Distinct : List Text → Type 0
unfolding last_of
Distinct [] = Unit
Distinct (token ∷ tokens) = (last_of (field_name token) tokens ≡ none) × Distinct tokens

here : Text → Text → Option Text
here name token = if names name token then some token else none

here_same :
    (name : Text) (token other : Text)
    → names (field_name token) other ≡ true
    → names name other ≡ names name token
here_same name token other h = ap (λ m. eq_list m name) ((eq_list_iff _ _).0 h)

last_of-keep_last :
    (name token : Text) (kept : List Text)
    → Distinct kept
    → last_of name (keep_last token kept) ≡ or_else (here name token) (last_of name kept)
unfolding last_of keep_last Distinct here
last_of-keep_last name token [] h = sym (or_else-none _)
last_of-keep_last name token (k ∷ kept) (lone, h) = elim (Bool-cases (names (field_name token) k)) [
  | inl same ↦ elim (Bool-cases (names name token)) [
    | inl n ↦
        let first : last_of name kept ≡ none =
          subst (λ m. last_of m kept ≡ none) ((eq_list_iff _ _).0 (here_same name token k same ∙ n))
            lone in
        rw (same, here_same name token k same, n, first) refl
    | inr n ↦ rw (same, here_same name token k same, n) refl
  ]
  | inr other ↦
      rw (other, last_of-keep_last name token kept h)
        (or_else_assoc (here name token) (last_of name kept) _)
]

not_named : (token k : Text) → names (field_name token) k ≡ false → here (field_name k) token ≡ none
unfolding here
not_named token k other = elim (Bool-cases (names (field_name k) token)) [
  | inl n ↦
      absurd (
        cc (other, (eq_list_iff (field_name k) (field_name token)).1 (sym ((eq_list_iff _ _).0 n))))
  | inr n ↦ rw n refl
]

keep_last-Distinct :
    (token : Text) (kept : List Text) → Distinct kept → Distinct (keep_last token kept)
unfolding keep_last Distinct last_of
keep_last-Distinct token [] h = (refl, tt)
keep_last-Distinct token (k ∷ kept) (lone, h) = elim (Bool-cases (names (field_name token) k)) [
  | inl same ↦ rw same (subst (λ m. last_of m kept ≡ none) ((eq_list_iff _ _).0 same) lone, h)
  | inr other ↦ rw other (
    (rw (last_of-keep_last (field_name k) token kept h, not_named token k other) lone),
    keep_last-Distinct token kept h,
  )
]

last_of-keep_each :
    (name : Text) (tokens kept : List Text)
    → Distinct kept
    → last_of name (keep_each tokens kept) ≡ or_else (last_of name tokens) (last_of name kept)
unfolding keep_each last_of here
last_of-keep_each name [] kept h = refl
last_of-keep_each name (token ∷ tokens) kept h =
    last_of-keep_each name tokens (keep_last token kept) (keep_last-Distinct token kept h)
    ∙ rw (last_of-keep_last name token kept h)
        (sym (or_else_assoc (last_of name tokens) (here name token) (last_of name kept)))

-- A row that inherits from the row before it says of each field what its own tokens say, or else
-- what the row before it said.
pub resolve_row-last_per_field :
    (name : Text) (previous tokens : List Text)
    → last_of name (resolve_row (last_per_field previous) tokens)
      ≡ or_else (last_of name tokens) (last_of name previous)
unfolding last_per_field last_of Distinct
resolve_row-last_per_field name previous tokens =
    last_of-resolve_row name (last_per_field previous) tokens
    ∙ ap (λ o. or_else (last_of name tokens) o)
        (last_of-keep_each name previous [] tt ∙ or_else-none (last_of name previous))
