-- ===== src/Language/Escape.antt =====
-- src/core/command/command.ts: `escape` and `unescape`. A string is the list of its UTF-16 code
-- units.
pub mod RoundTrip
pub mod Safe
use teamspeak_js.Common.{ℕ, ◌==◌, if◌then◌else◌, List, [], ◌∷◌, Option, none, some}

abbrev pub backslash : ℕ
backslash = 0x5c

-- `ESCAPE_MAP`: a character and what stands behind the backslash for it.
abbrev pub escape_map : List (ℕ × ℕ)
escape_map =
    (backslash, backslash)
    ∷ (b'/', b'/')
    ∷ (b' ', b's')
    ∷ (b'|', b'p')
    ∷ (0x07, b'a')
    ∷ (0x08, b'b')
    ∷ (0x0c, b'f')
    ∷ (0x0a, b'n')
    ∷ (0x0d, b'r')
    ∷ (0x09, b't')
    ∷ (0x0b, b'v')
    ∷ []

-- `result.split(from).join(to)`: every `from` becomes a backslash and `to`.
unfoldable pub replace_all : ℕ → ℕ → List ℕ → List ℕ
replace_all from to [] = []
replace_all from to (c ∷ s) =
    let rest = replace_all from to s in if c == from then backslash ∷ to ∷ rest else c ∷ rest

-- The loop of `escape`, one pass for each entry.
unfoldable pub replace_each : List (ℕ × ℕ) → List ℕ → List ℕ
replace_each [] s = s
replace_each ((from, to) ∷ entries) s = replace_each entries (replace_all from to s)

-- `escape`.
unfoldable pub escape : List ℕ → List ℕ
escape s = replace_each escape_map s

-- The `switch` of `unescape`: the character that a backslash and `next` stand for, if any.
unfoldable pub unescaped : ℕ → Option ℕ
unescaped next =
    if next == backslash
    then some backslash
    else if next == b'/'
    then some b'/'
    else if next == b's'
    then some b' '
    else if next == b'p'
    then some b'|'
    else if next == b'a'
    then some 0x07
    else if next == b'b'
    then some 0x08
    else if next == b'f'
    then some 0x0c
    else if next == b'n'
    then some 0x0a
    else if next == b'r'
    then some 0x0d
    else if next == b't'
    then some 0x09
    else if next == b'v'
    then some 0x0b
    else none

-- `unescape`, one pass over the text. A backslash that begins no escape stands for itself.
unfoldable pub unescape : List ℕ → List ℕ
unescape [] = []
unescape (c ∷ []) = c ∷ []
unescape (c ∷ next ∷ s) =
    let after_pair = unescape s in
    let after_one = unescape (next ∷ s) in
    if c == backslash
    then elim (unescaped next) [ none ↦ c ∷ after_one | some d ↦ d ∷ after_pair ]
    else c ∷ after_one
