-- ===== src/Query/Lines/Tests.antt =====
-- A stream of bytes in chunks, read as lines, and the theorem at such a stream.
use teamspeak_js.Common.{ℕ, ◌≡◌, refl, List, [], ◌∷◌, ◌++◌, arith}
use teamspeak_js.Language.Text.{Text, split}
use teamspeak_js.Query.Lines.{
  LineReader, Pushed, pushed, too_long, newline, empty_reader, concat, added, add, push_parts, push,
  push_all, trim_carriage_returns, trim_start, trim_end, trim_trailing_slashes,
}
use teamspeak_js.Query.Lines.Parts.{Fits}
use teamspeak_js.Query.Lines.Whole.{held, Reads, push_all-Reads}

-- "ok", newline, carriage return, "e" in one chunk; "nd", newline in another.
abbrev chunks : List (List ℕ)
chunks = (b'o' ∷ b'k' ∷ 10 ∷ 13 ∷ b'e' ∷ []) ∷ (b'n' ∷ b'd' ∷ 10 ∷ []) ∷ []

abbrev ascii : List ℕ → Text
ascii bytes = bytes

abbrev reader : LineReader
reader = record { parts = []; size = 0; limit = 4 }

reads : List (List ℕ) → Pushed
unfolding push_all push push_parts split added add concat empty_reader trim_carriage_returns
    trim_start trim_end
reads cs = push_all ascii cs reader

two_lines : reads chunks ≡ pushed ((b'o' ∷ b'k' ∷ []) ∷ (b'e' ∷ b'n' ∷ b'd' ∷ []) ∷ []) reader
unfolding reads
two_lines = refl

-- A line over the limit, in one chunk or in two.
over_limit :
    (reads ((1 ∷ 2 ∷ 3 ∷ 4 ∷ 5 ∷ []) ∷ []) ≡ too_long reader)
    × (reads ((1 ∷ 2 ∷ 3 ∷ []) ∷ (4 ∷ 5 ∷ []) ∷ []) ≡ too_long reader)
unfolding reads
over_limit = (refl, refl)

slashes : trim_trailing_slashes (b'/' ∷ b'a' ∷ b'/' ∷ b'/' ∷ []) ≡ b'/' ∷ b'a' ∷ []
unfolding trim_trailing_slashes trim_end
slashes = refl

chunks_fit : Fits 4 (split newline (concat chunks))
unfolding split concat
chunks_fit = omega arith

nothing_held : held reader ++ concat chunks ≡ concat chunks
unfolding concat
nothing_held = refl

reader_holds : held reader ≡ []
unfolding concat
reader_holds = refl

push_all-Reads_example : Reads ascii 4 (held reader ++ concat chunks) (push_all ascii chunks reader)
push_all-Reads_example =
    push_all-Reads ascii chunks reader (unfold concat in refl) (unfold concat in tt)
      (unfold concat in chunks_fit)
