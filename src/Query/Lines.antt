-- ===== src/Query/Lines.antt =====
-- src/query/lines.ts and src/query/trim.ts: `LineReader`, which cuts a stream of bytes into lines,
-- and the trimming of them. The decoding of UTF-8 is Node's and a parameter of `push`.
pub mod Parts
pub mod Whole
mod Tests
use teamspeak_js.Common.{
  ℕ, ◌+◌, Bool, true, false, ltb, ◌==◌, if◌then◌else◌, List, [], ◌∷◌, ◌++◌, length, Option, none,
  some,
}
use teamspeak_js.Language.Text.{Text, split}

abbrev pub newline : ℕ
newline = 0x0a

-- `trimCarriageReturns` and `trimTrailingSlashes`: a character taken off the start, and off the end.
unfoldable pub trim_start : ℕ → Text → Text
trim_start sep [] = []
trim_start sep (c ∷ s) = let rest = trim_start sep s in if c == sep then rest else c ∷ s

abbrev pub trim_cons : ℕ → ℕ → Text → Text
trim_cons sep c [] = if c == sep then [] else c ∷ []
trim_cons sep c (d ∷ s) = c ∷ d ∷ s

unfoldable pub trim_end : ℕ → Text → Text
trim_end sep [] = []
trim_end sep (c ∷ s) = trim_cons sep c (trim_end sep s)

unfoldable pub trim_trailing_slashes : Text → Text
trim_trailing_slashes text = trim_end 0x2f text

unfoldable pub trim_carriage_returns : Text → Text
trim_carriage_returns text = trim_end 0x0d (trim_start 0x0d text)

-- `LineReader`: the chunks of the line still being read, their length, and the limit.
pub record LineReader : Type 0 where
  pub parts : List (List ℕ)
  pub size : ℕ
  pub limit : ℕ

-- The constructor, and the state between lines.
unfoldable pub empty_reader : ℕ → LineReader
empty_reader limit = record { parts = []; size = 0; limit = limit }

-- `Buffer.concat`.
unfoldable pub concat : List (List ℕ) → List ℕ
concat [] = []
concat (part ∷ parts) = part ++ concat parts

-- `#add` within the limit: an empty part is not kept.
unfoldable pub added : List ℕ → LineReader → LineReader
added [] r = r
added (c ∷ part) r = record r {
  size = r.size + length (c ∷ part);
  parts = r.parts ++ (c ∷ part) ∷ [];
}

-- `#add`; `none` where it throws, and then the reader is empty again.
unfoldable pub add : List ℕ → LineReader → Option LineReader
add part r = if ltb r.limit (r.size + length part) then none else some (added part r)

-- What `push` does: it returns lines, or throws a `LineTooLongError`, and leaves a reader.
pub data Pushed : Type 0 where
  pushed : List Text → LineReader → Pushed
  too_long : LineReader → Pushed

-- A line in front of what the rest of `push` does. An error loses the lines before it.
abbrev pub with_line : Text → Pushed → Pushed
with_line line (pushed lines r) = pushed (line ∷ lines) r
with_line line (too_long r) = too_long r

module _ (decode : List ℕ → Text) where
  -- The loop of `push` over the parts of the chunk that newlines end, and the part behind the last.
  unfoldable pub push_parts : List (List ℕ) → LineReader → Pushed
  push_parts [] r = pushed [] r
  push_parts (part ∷ []) r = elim (add part r) [
    | none ↦ too_long (empty_reader r.limit)
    | some r' ↦ pushed [] r'
  ]
  push_parts (part ∷ next ∷ parts) r =
      let rest = push_parts (next ∷ parts) (empty_reader r.limit) in
      elim (add part r) [
        | none ↦ too_long (empty_reader r.limit)
        | some r' ↦ with_line (trim_carriage_returns (decode (concat r'.parts))) rest
      ]

  -- `push`.
  unfoldable pub push : List ℕ → LineReader → Pushed
  push chunk r = push_parts (split newline chunk) r

  -- Lines in front of what a later `push` does.
  abbrev pub with_lines : List Text → Pushed → Pushed
  with_lines lines (pushed more r) = pushed (lines ++ more) r
  with_lines lines (too_long r) = too_long r

  -- The calls of `push` for the chunks of a stream, up to the first that throws.
  unfoldable pub push_all : List (List ℕ) → LineReader → Pushed
  push_all [] r = pushed [] r
  push_all (chunk ∷ chunks) r = elim (push chunk r) [
    | pushed lines r' ↦ with_lines lines (push_all chunks r')
    | too_long r' ↦ too_long r'
  ]
