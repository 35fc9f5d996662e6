-- ===== src/Query/Lines/Whole.antt =====
-- src/query/lines.ts: the lines of a stream that comes in chunks.
use teamspeak_js.Common.{
  ℕ, ◌+◌, ◌≤◌, ◌≡◌, refl, sym, ap, ◌∙◌, le→ltb-false, List, [], ◌∷◌, ◌++◌, map, append_assoc,
  append-nil, length, length-append, All, none, some, arith,
}
use mathlib.Core.Path.{subst, ap₂}
use teamspeak_js.Language.Text.{Text, split, split_whole, Lacks}
use teamspeak_js.Query.Lines.{
  LineReader, Pushed, pushed, too_long, newline, empty_reader, concat, added, add, with_line,
  push_parts, push, with_lines, push_all, trim_carriage_returns,
}
use teamspeak_js.Query.Lines.Parts.{
  last_part, line_parts, in_front, split-IsSplit, in_front-split, last_part-Lacks, split-append,
  All-right, Fits, prefix-Fits, parts-append,
}

-- What is held of the line still being read.
abbrev pub held : LineReader → List ℕ
held r = concat r.parts

abbrev pub IsValid : LineReader → Type 0
IsValid r = r.size ≡ length (held r)

concat-append :
    (parts : List (List ℕ)) (part : List ℕ) → concat (parts ++ part ∷ []) ≡ concat parts ++ part
unfolding concat
concat-append [] part = append-nil part
concat-append (p ∷ parts) part =
    ap (λ t. p ++ t) (concat-append parts part) ∙ sym (append_assoc p (concat parts) part)

-- A part is added to what is held.
added_lem :
    (part : List ℕ) (r : LineReader)
    → IsValid r
    → (held (added part r) ≡ held r ++ part)
      × IsValid (added part r)
      × ((added part r).limit ≡ r.limit)
unfolding added
added_lem [] r valid = (sym (append-nil (held r)), valid, refl)
added_lem (c ∷ part) r valid =
    let is = concat-append r.parts (c ∷ part) in
    (is, omega (arith, valid, length-append (held r) (c ∷ part), ap length is), refl)

add-added :
    (part : List ℕ) (r : LineReader)
    → IsValid r
    → length (held r ++ part) ≤ r.limit
    → add part r ≡ some (added part r)
unfolding add
add-added part r valid fits =
    rw
      (le→ltb-false r.limit (r.size + length part)
        (omega (arith, valid, fits, length-append (held r) part)))
      refl

module _ (decode : List ℕ → Text) where
  abbrev pub line_of : List ℕ → Text
  line_of bytes = trim_carriage_returns (decode bytes)

  -- Where no line is over the limit, `push` returns the lines that its parts end.
  push_parts_lem :
      (part : List ℕ) (parts : List (List ℕ)) (r : LineReader)
      → IsValid r
      → All (λ line. length line ≤ r.limit) (in_front (held r) (part ∷ parts))
      → (r' : LineReader) × (push_parts decode (part ∷ parts) r
          ≡ pushed (map line_of (line_parts (in_front (held r) (part ∷ parts)))) r')
        × (held r' ≡ last_part (in_front (held r) (part ∷ parts)))
        × IsValid r'
        × (r'.limit ≡ r.limit)
  unfolding push_parts line_parts last_part empty_reader concat
  push_parts_lem part [] r valid (fits, _) =
      let (is, valid', same) = added_lem part r valid in
      (added part r, rw (push_parts, add-added part r valid fits) refl, is, valid', same)
  push_parts_lem part (next ∷ parts) r valid (fits, more) =
      let (is, _, _) = added_lem part r valid in
      let (r', runs, holds, valid', same) =
        push_parts_lem next parts (empty_reader r.limit) refl more in
      (
        r',
        subst
            (λ o.
              elim o [
                | none ↦ too_long (empty_reader r.limit)
                | some r' ↦
                    with_line (line_of (held r'))
                      (push_parts decode (next ∷ parts) (empty_reader r.limit))
              ]
              ≡ pushed (line_of (held r ++ part) ∷ map line_of (line_parts (next ∷ parts))) r')
            (sym (add-added part r valid fits))
            (ap
                (λ h.
                  with_line (line_of h) (push_parts decode (next ∷ parts) (empty_reader r.limit)))
                is
              ∙ ap (with_line (line_of (held r ++ part))) runs),
        holds,
        valid',
        same,
      )

map-append : (f : List ℕ → Text) (xs ys : List Text) → map f (xs ++ ys) ≡ map f xs ++ map f ys
map-append f [] ys = refl
map-append f (x ∷ xs) ys = ap (λ l. f x ∷ l) (map-append f xs ys)

module _ (decode : List ℕ → Text) where
  -- A reader that holds part of a line, and what it held before some bytes came.
  abbrev pub Reads : ℕ → List ℕ → Pushed → Type 0
  Reads limit bytes (too_long r) = ⊥
  Reads limit bytes (pushed lines r) =
      (lines ≡ map (line_of decode) (line_parts (split newline bytes)))
      × (held r ≡ last_part (split newline bytes))
      × IsValid r
      × (r.limit ≡ limit)

  push-Reads :
      (chunk : List ℕ) (r : LineReader)
      → IsValid r
      → Lacks newline (held r)
      → All (λ line. length line ≤ r.limit) (split newline (held r ++ chunk))
      → Reads r.limit (held r ++ chunk) (push decode chunk r)
  unfolding push
  push-Reads chunk r valid part fits =
      let (first, rest, is) = split-IsSplit newline chunk in
      let e : in_front (held r) (first ∷ rest) ≡ split newline (held r ++ chunk) =
        ap (in_front (held r)) (sym is) ∙ in_front-split newline (held r) chunk part in
      let (r', runs, holds, valid', same) =
        push_parts_lem decode first rest r valid
          (subst (All (λ line. length line ≤ r.limit)) (sym e) fits) in
      rw (is, runs)
        (ap (λ p. map (line_of decode) (line_parts p)) e, holds ∙ ap last_part e, valid', same)

  -- The calls for two chunks after each other.
  with_lines-Reads :
      (limit : ℕ) (s t : List ℕ) (lines : List Text) (q : Pushed)
      → lines ≡ map (line_of decode) (line_parts (split newline s))
      → Reads limit (last_part (split newline s) ++ t) q
      → Reads limit (s ++ t) (with_lines decode lines q)
  with_lines-Reads limit s t lines (too_long r) e reads = reads
  with_lines-Reads limit s t lines (pushed more r) e (more_is, holds, valid, same) =
      let whole = split-append newline s t in
      let (first, last) =
        parts-append (line_parts (split newline s)) _
          (split-IsSplit newline (last_part (split newline s) ++ t)) in
      (
        ap₂ ◌++◌ e more_is
            ∙ sym (map-append (line_of decode) (line_parts (split newline s)) _)
            ∙ ap (map (line_of decode)) (sym first ∙ ap line_parts (sym whole)),
        holds ∙ sym last ∙ ap last_part (sym whole),
        valid,
        same,
      )

  -- However a stream of bytes is cut into chunks, the reader returns the lines of the stream, and
  -- holds what is behind its last newline, where no line is over the limit.
  pub push_all-Reads :
      (chunks : List (List ℕ)) (r : LineReader)
      → IsValid r
      → Lacks newline (held r)
      → Fits r.limit (split newline (held r ++ concat chunks))
      → Reads r.limit (held r ++ concat chunks) (push_all decode chunks r)
  unfolding push_all concat
  push_all-Reads [] r valid part fits =
      rw (append-nil (held r), split_whole newline (held r) part)
        (unfold line_parts last_part in (refl, refl, valid, refl))
  push_all-Reads (chunk ∷ chunks) r valid part fits =
      let e = append_assoc (held r) chunk (concat chunks) in
      let fits' = subst (λ b. Fits r.limit (split newline b)) (sym e) fits in
      subst (λ b. Reads r.limit b (push_all decode (chunk ∷ chunks) r)) e
        (step (push_all-Reads chunks) fits' (push decode chunk r) refl (
          push-Reads chunk r valid part
            (prefix-Fits r.limit (held r ++ chunk) (concat chunks) fits')))
    where
      Rest : Type 0
      Rest =
          (r' : LineReader)
          → IsValid r'
          → Lacks newline (held r')
          → Fits r'.limit (split newline (held r' ++ concat chunks))
          → Reads r'.limit (held r' ++ concat chunks) (push_all decode chunks r')

      later :
          Rest
          → Fits r.limit (split newline ((held r ++ chunk) ++ concat chunks))
          → (r' : LineReader) → held r' ≡ last_part (split newline (held r ++ chunk))
          → IsValid r'
          → r'.limit ≡ r.limit
          → Reads r.limit
              (last_part (split newline (held r ++ chunk)) ++ concat chunks)
              (push_all decode chunks r')
      later rest fits r' holds valid' same =
          let fits' =
            All-right _ (line_parts (split newline (held r ++ chunk))) _ (
              subst (Fits r.limit) (split-append newline (held r ++ chunk) (concat chunks)) fits) in
          subst (λ b. Reads r.limit (b ++ concat chunks) (push_all decode chunks r')) holds
            (subst (λ n. Reads n (held r' ++ concat chunks) (push_all decode chunks r')) same
              (rest r' valid'
                (subst (Lacks newline) (sym holds) (last_part-Lacks newline (held r ++ chunk)))
                (subst (λ n. Fits n (split newline (held r' ++ concat chunks))) (sym same)
                  (subst (λ b. Fits r.limit (split newline (b ++ concat chunks))) (sym holds)
                    fits'))))

      step :
          Rest
          → Fits r.limit (split newline ((held r ++ chunk) ++ concat chunks))
          → (q : Pushed) → push decode chunk r ≡ q
          → Reads r.limit (held r ++ chunk) q
          → Reads r.limit ((held r ++ chunk) ++ concat chunks) (push_all decode (chunk ∷ chunks) r)
      step rest fits (too_long r') is reads = absurd reads
      step rest fits (pushed lines r') is (lines_are, holds, valid', same) =
          subst
            (λ o. Reads r.limit ((held r ++ chunk) ++ concat chunks) (elim o [
              | pushed lines r' ↦ with_lines decode lines (push_all decode chunks r')
              | too_long r' ↦ too_long r'
            ]))
            (sym is)
            (with_lines-Reads r.limit (held r ++ chunk) (concat chunks) lines
              (push_all decode chunks r') lines_are (later rest fits r' holds valid' same))
