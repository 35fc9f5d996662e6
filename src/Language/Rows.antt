-- ===== src/Language/Rows.antt =====
-- src/core/helpers.ts: `splitCommandRows` with its helpers, and `parseUint64`. A text is a list of
-- UTF-16 code units, and the lengths are those of the texts.
pub mod Bounds
pub mod Fields
pub mod Numbers
mod Tests
use teamspeak_js.Common.{
  ℕ, ◌+◌, ◌*◌, ◌^◌, ◌-◌, min, max, Bool, true, false, ◌&&◌, ◌||◌, not, leb, ltb, ◌==◌,
  if◌then◌else◌, List, [], ◌∷◌, ◌++◌, length, any, filter_by, eq_list, Option, none, some,
}
use teamspeak_js.Language.Text.{Text, split, join, cut}
use teamspeak_js.Language.Command.{space, is_command_name}

abbrev pub pipe : ℕ
pipe = b'|'

-- `MIN_ROW_BUDGET`, `ROW_GROWTH` and `MAX_ROW_AMPLIFICATION`.
abbrev pub min_row_budget : ℕ
min_row_budget = 64 * 1024

abbrev pub row_growth : ℕ
row_growth = 4

abbrev pub max_row_amplification : ℕ
max_row_amplification = 64

-- `fieldName`: the text before an equals sign that is not the first character.
abbrev pub name_before : Text → Option (Text × Text) → Text
name_before token none = token
name_before token (some ([], behind)) = token
name_before token (some (c ∷ before, behind)) = c ∷ before

unfoldable pub field_name : Text → Text
field_name token = name_before token (cut b'=' token)

-- Whether a token is of the field `name`.
abbrev pub names : Text → Text → Bool
names name token = eq_list (field_name token) name

-- `resolveRow`.
unfoldable pub resolve_row : (previous tokens : List Text) → List Text
resolve_row previous tokens =
    filter_by (λ token. not (any (names (field_name token)) tokens)) previous ++ tokens

-- One round of the loop of `lastPerField`: the token takes the place of the one that its field has.
unfoldable pub keep_last : Text → List Text → List Text
keep_last token [] = token ∷ []
keep_last token (kept ∷ others) =
    if names (field_name token) kept then token ∷ others else kept ∷ keep_last token others

unfoldable pub keep_each : (tokens kept : List Text) → List Text
keep_each [] kept = kept
keep_each (token ∷ tokens) kept = keep_each tokens (keep_last token kept)

-- `lastPerField`.
unfoldable pub last_per_field : List Text → List Text
last_per_field tokens = keep_each tokens []

-- `drop` and `inherit` of `rowLimits`.
abbrev pub drop_limit : ℕ → ℕ
drop_limit n = min (2 * max (row_growth * n) min_row_budget) (max_row_amplification * n)

abbrev pub inherit_limit : ℕ → ℕ
inherit_limit n = min (max (row_growth * n) min_row_budget) (drop_limit n)

-- The variables of the loop of `splitCommandRows`, but for `rows`, which is what the loop returns.
pub record Progress : Type 0 where
  pub used : ℕ
  pub previous : List Text
  pub inheriting : Bool

-- `line.split(" ").filter(Boolean)`.
unfoldable pub tokens_of : Text → List Text
tokens_of part = filter_by (λ token. ltb 0 (length token)) (split space part)

module _ (prefix : Text) (inherit drop : ℕ) where
  -- A row that inherits no fields; from then on none does, when it should have inherited some.
  abbrev pub own_row : List Text → Progress → Text × Progress
  own_row tokens st = (
    prefix ++ join space tokens,
    if st.inheriting then record st { inheriting = false; previous = [] } else st,
  )

  -- `row`, with the variables after it.
  unfoldable pub next_row : List Text → Progress → Text × Progress
  next_row tokens st =
      let resolved = resolve_row st.previous tokens in
      let inherited = prefix ++ join space resolved in
      if st.inheriting && leb (st.used + length inherited) inherit
      then (inherited, record st { previous = last_per_field resolved })
      else own_row tokens st

  -- The loop of `splitCommandRows`.
  unfoldable pub rows_of : (parts : List Text) → Progress → List Text
  rows_of [] st = []
  rows_of ([] ∷ parts) st = rows_of parts st
  rows_of ((c ∷ part) ∷ parts) st =
      let (row, st') = next_row (tokens_of (c ∷ part)) st in
      let used = st.used + length row in
      let rest = rows_of parts (record st' { used = used }) in
      if ltb drop used then [] else row ∷ rest

-- `rows.length === 0 ? [line] : rows`.
abbrev pub or_line : Text → List Text → List Text
or_line line [] = line ∷ []
or_line line (row ∷ rows) = row ∷ rows

-- `prefix` and `rest` of `splitCommandRows`.
abbrev pub prefix_and_rest : Text → Text × Text
prefix_and_rest line = elim (cut space line) [
  | none ↦ if is_command_name line then (line ++ space ∷ [], []) else ([], line)
  | some (head, behind) ↦ if is_command_name head then (head ++ space ∷ [], behind) else ([], line)
]

-- `splitCommandRows`.
unfoldable pub split_command_rows : Text → List Text
split_command_rows line =
    let (prefix, rest) = prefix_and_rest line in
    let n = length line in
    let rows =
      rows_of prefix (inherit_limit n) (drop_limit n) (split pipe rest)
        (record { used = 0; previous = []; inheriting = true }) in
    if any (λ c. c == pipe) rest then or_line line rows else line ∷ []

-- `/^[0-9]+$/`.
abbrev pub is_digit : ℕ → Bool
is_digit c = leb b'0' c && leb c b'9'

abbrev pub is_number : Text → Bool
is_number s = ltb 0 (length s) && not (any (λ c. not (is_digit c)) s)

-- Leading zeros dropped, up to the last character.
unfoldable pub without_zeros : Text → Text
without_zeros [] = []
without_zeros (c ∷ []) = c ∷ []
without_zeros (c ∷ d ∷ s) =
    let rest = without_zeros (d ∷ s) in if c == b'0' then rest else c ∷ d ∷ s

-- `BigInt`, of a text of digits.
unfoldable pub big_int : ℕ → Text → ℕ
big_int value [] = value
big_int value (c ∷ s) = big_int (value * 10 + (c - b'0')) s

abbrev pub max_uint64 : ℕ
max_uint64 = 2 ^ 64 - 1

-- `parseUint64`.
unfoldable pub parse_uint64 : Text → ℕ
parse_uint64 s =
    let digits = without_zeros s in
    let value = big_int 0 digits in
    if not (is_number s)
    then 0
    else if ltb 20 (length digits)
    then 0
    else if ltb max_uint64 value
    then 0
    else value
