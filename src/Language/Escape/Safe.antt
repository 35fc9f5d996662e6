-- ===== src/Language/Escape/Safe.antt =====
-- src/core/command/command.ts: the delimiters of a command line, in escaped text.
use teamspeak_js.Common.{ℕ, ◌≡◌, ◌≢◌, ◌⊎◌, List, [], ◌∷◌, All-append, arith}
use teamspeak_js.Language.Text.{Lacks}
use teamspeak_js.Language.Escape.{escape_map, escape}
use teamspeak_js.Language.Escape.RoundTrip.{escape_of, escaped, escape-cons, escape-nil}

-- A character that splits lines, rows or parameters, or is not printable: it stands in `escape_map`
-- and stands for no other.
abbrev pub IsDelimiter : ℕ → Type 0
IsDelimiter d =
    (d ≡ b' ')
    ⊎ (d ≡ b'|')
    ⊎ (d ≡ 0x07)
    ⊎ (d ≡ 0x08)
    ⊎ (d ≡ 0x09)
    ⊎ (d ≡ 0x0a)
    ⊎ (d ≡ 0x0b)
    ⊎ (d ≡ 0x0c)
    ⊎ (d ≡ 0x0d)

escaped-Lacks_delimiter : (c d : ℕ) → IsDelimiter d → Lacks d (escaped c (escape_of c escape_map))
escaped-Lacks_delimiter c d h = ground arith

-- Escaped text holds no space, no bar and no control character of the map.
pub escape-Lacks_delimiter : (s : List ℕ) (d : ℕ) → IsDelimiter d → Lacks d (escape s)
escape-Lacks_delimiter [] d h = rw escape-nil tt
escape-Lacks_delimiter (c ∷ s) d h =
    rw (escape-cons c s)
      (All-append _ _ (escape s) (escaped-Lacks_delimiter c d h) (escape-Lacks_delimiter s d h))

escaped-Lacks_equals : (c : ℕ) → c ≢ b'=' → Lacks b'=' (escaped c (escape_of c escape_map))
escaped-Lacks_equals c h = ground arith

-- A text without an equals sign has none when it is escaped.
pub escape-Lacks_equals : (s : List ℕ) → Lacks b'=' s → Lacks b'=' (escape s)
escape-Lacks_equals [] h = rw escape-nil tt
escape-Lacks_equals (c ∷ s) (hc, h) =
    rw (escape-cons c s)
      (All-append _ _ (escape s) (escaped-Lacks_equals c hc) (escape-Lacks_equals s h))
