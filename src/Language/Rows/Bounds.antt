-- ===== src/Language/Rows/Bounds.antt =====
-- src/core/helpers.ts, `splitCommandRows` and `rowLimits`: how much the rows hold.
use teamspeak_js.Common.{
  true, ◌==◌, ◌==◌, ℕ, ◌+◌, ◌*◌, ◌≤◌, max, ltb, ltb-false→le, Bool-cases, inl, inr, any, List, [],
  ◌∷◌, length, arith,
}
use teamspeak_js.Language.Text.{Text, split}
use teamspeak_js.Language.Rows.{
  Progress, tokens_of, next_row, rows_of, or_line, split_command_rows, drop_limit, inherit_limit,
  prefix_and_rest, pipe,
}

-- How many characters the rows hold together.
abbrev pub total : List Text → ℕ
total [] = 0
total (row ∷ rows) = length row + total rows

total-rows_of :
    (prefix : Text) (inherit drop : ℕ) (parts : List Text) (st : Progress)
    → st.used ≤ drop
    → st.used + total (rows_of prefix inherit drop parts st) ≤ drop
unfolding rows_of
total-rows_of prefix inherit drop [] st h = omega arith
total-rows_of prefix inherit drop ([] ∷ parts) st h = total-rows_of prefix inherit drop parts st h
total-rows_of prefix inherit drop ((c ∷ part) ∷ parts) st h =
    let row = (next_row prefix inherit drop (tokens_of (c ∷ part)) st).0 in
    let after = record (next_row prefix inherit drop (tokens_of (c ∷ part)) st).1 {
      used = st.used + length row;
    } in
    elim (Bool-cases (ltb drop (st.used + length row))) [
      | inl e ↦ rw e (omega arith)
      | inr e ↦
          let ih = total-rows_of prefix inherit drop parts after (ltb-false→le _ _ e) in
          rw e (omega (arith, ih))
    ]

total-or_line :
    (line : Text) (rows : List Text) (limit : ℕ)
    → total rows ≤ limit
    → length line ≤ limit
    → total (or_line line rows) ≤ limit
total-or_line line [] limit h fits = omega arith
total-or_line line (row ∷ rows) limit h fits = h

-- The rows of any line hold together at most 64 times as many characters as the line, and at most
-- twice the larger of four times the line and 64 KiB.
pub total-split_command_rows :
    (line : Text)
    → (total (split_command_rows line) ≤ 64 * length line)
      × (total (split_command_rows line) ≤ 2 * max (4 * length line) (64 * 1024))
unfolding split_command_rows
total-split_command_rows line =
    let n = length line in
    let rows =
      rows_of (prefix_and_rest line).0 (inherit_limit n) (drop_limit n)
        (split pipe (prefix_and_rest line).1)
        (record { used = 0; previous = []; inheriting = true }) in
    let sum =
      total-rows_of (prefix_and_rest line).0 (inherit_limit n) (drop_limit n)
        (split pipe (prefix_and_rest line).1)
        (record { used = 0; previous = []; inheriting = true }) (omega arith) in
    let fits : total rows ≤ drop_limit n = omega (arith, sum) in
    let here : total (or_line line rows) ≤ drop_limit n =
      total-or_line line rows (drop_limit n) fits (omega arith) in
    elim (Bool-cases (any (λ c. c == pipe) (prefix_and_rest line).1)) [
      | inl e ↦ rw e (omega (arith, here), omega (arith, here))
      | inr e ↦ rw e (omega arith, omega arith)
    ]
