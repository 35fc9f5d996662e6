-- ===== src/Language/Command.antt =====
-- src/core/command/command.ts and src/core/command/parser.ts: building and parsing command lines. A
-- record of parameters is a list of keys and values, each key once, in the order in which it was
-- filled.
pub mod Parse
use teamspeak_js.Common.{
  eq_list, ℕ, ◌≡◌, true, false, Bool, not, ◌&&◌, ◌||◌, leb, ◌==◌, if◌then◌else◌, List, [], ◌∷◌,
  ◌++◌, map, Option, none, some,
}
use teamspeak_js.Language.Text.{Text, split, join, cut}
use teamspeak_js.Language.Escape.{escape, unescape}

abbrev pub space : ℕ
space = b' '

-- `Command`.
pub record Command : Type 0 where
  pub name : Text
  pub params : List (Text × Text)

-- `params[key] = value`.
unfoldable pub put : Text → Text → List (Text × Text) → List (Text × Text)
put key value [] = (key, value) ∷ []
put key value ((k, v) ∷ params) =
    if eq_list k key then (k, value) ∷ params else (k, v) ∷ put key value params

-- A character of `[A-Za-z0-9]`.
abbrev pub is_alphanumeric : ℕ → Bool
is_alphanumeric c =
    leb b'A' c && leb c b'Z' || (leb b'a' c && leb c b'z') || (leb b'0' c && leb c b'9')

all_alphanumeric : Text → Bool
all_alphanumeric [] = true
all_alphanumeric (c ∷ s) = is_alphanumeric c && all_alphanumeric s

-- `isCommandName`.
unfoldable pub is_command_name : Text → Bool
unfolding all_alphanumeric
is_command_name [] = false
is_command_name (c ∷ s) = all_alphanumeric (c ∷ s)

-- The parameter of one token: its key and its value.
unfoldable pub parse_token : Text → Text × Text
parse_token p = elim (cut b'=' p) [
  | none ↦ (unescape p, [])
  | some (key, value) ↦ (unescape key, unescape value)
]

-- The loop of `parseCommand` over the tokens.
unfoldable pub parse_tokens : List Text → List (Text × Text) → List (Text × Text)
parse_tokens [] params = params
parse_tokens ([] ∷ parts) params = parse_tokens parts params
parse_tokens ((c ∷ p) ∷ parts) params =
    let (key, value) = parse_token (c ∷ p) in parse_tokens parts (put key value params)

-- The text from its first printable character on, if it has one.
unfoldable pub from_printable : Text → Option Text
from_printable [] = none
from_printable (c ∷ s) =
    let rest = from_printable s in if leb 32 c && leb c 126 then some (c ∷ s) else rest

-- The skipping of unprintable bytes at the start, which keeps a line that has none else.
unfoldable pub skip_unprintable : Text → Text
skip_unprintable s = elim (from_printable s) [ none ↦ s | some t ↦ t ]

-- `parseCommand` from the tokens on.
unfoldable pub parse_parts : List Text → Option Command
parse_parts [] = none
parse_parts ([] ∷ parts) = none
parse_parts ((c ∷ first) ∷ parts) =
    if is_command_name (c ∷ first)
    then some (record { name = c ∷ first; params = parse_tokens parts [] })
    else some (record { name = []; params = parse_tokens ((c ∷ first) ∷ parts) [] })

-- `parseCommand`.
unfoldable pub parse_command : Text → Option Command
parse_command [] = none
parse_command (c ∷ s) = parse_parts (split space (skip_unprintable (c ∷ s)))

-- A key and its value as a token.
abbrev pub assignment : Text × Text → Text
assignment (k, v) = escape k ++ b'=' ∷ escape v

-- `buildCommand`.
unfoldable pub build_command : Text → List (Text × Text) → Text
build_command cmd params = join space (escape cmd ∷ map assignment params)

-- A parameter of `buildCommandOrdered`: a flag is a bare switch.
unfoldable pub ordered_token : Text × Text → Text
ordered_token ([], v) = assignment ([], v)
ordered_token ((c ∷ k), []) = if c == b'-' then escape (c ∷ k) else assignment (c ∷ k, [])
ordered_token ((c ∷ k), (d ∷ v)) = assignment (c ∷ k, d ∷ v)

-- `buildCommandOrdered`.
unfoldable pub build_command_ordered : Text → List (Text × Text) → Text
build_command_ordered cmd params = join space (escape cmd ∷ map ordered_token params)
