-- ===== src/Language/Rows/Tests.antt =====
-- A batch of two rows, of which the second leaves out a field, and the readers at some texts.
use teamspeak_js.Common.{
  ◌*◌, ◌≤◌, ◌≡◌, ◌&&◌, refl, leb, max, if◌then◌else◌, [], ◌∷◌, length, replicate, any, filter_by,
  eq_list,
}
use teamspeak_js.Language.Text.{Text, split, join, cut}
use teamspeak_js.Language.Command.{is_command_name}
use teamspeak_js.Language.Rows.{
  split_command_rows, rows_of, next_row, tokens_of, resolve_row, last_per_field, keep_each,
  keep_last, field_name, parse_uint64, without_zeros, big_int, is_number, max_uint64,
}
use teamspeak_js.Language.Rows.Bounds.{total, total-split_command_rows}
use teamspeak_js.Language.Rows.Fields.{last_of, or_else, resolve_row-last_per_field}
use teamspeak_js.Language.Rows.Numbers.{decimal, parse_uint64-decimal}

-- "n a=1 b=2|b=3"
abbrev batch : Text
batch =
    b'n' ∷ b' ' ∷ b'a' ∷ b'=' ∷ b'1' ∷ b' ' ∷ b'b' ∷ b'=' ∷ b'2' ∷ b'|' ∷ b'b' ∷ b'=' ∷ b'3' ∷ []

abbrev a1 : Text
a1 = b'a' ∷ b'=' ∷ b'1' ∷ []

abbrev b2 : Text
b2 = b'b' ∷ b'=' ∷ b'2' ∷ []

abbrev b3 : Text
b3 = b'b' ∷ b'=' ∷ b'3' ∷ []

-- "n a=1 b=2" and "n a=1 b=3".
split_command_rows_test :
    split_command_rows batch
    ≡ (b'n' ∷ b' ' ∷ b'a' ∷ b'=' ∷ b'1' ∷ b' ' ∷ b'b' ∷ b'=' ∷ b'2' ∷ [])
      ∷ (b'n' ∷ b' ' ∷ b'a' ∷ b'=' ∷ b'1' ∷ b' ' ∷ b'b' ∷ b'=' ∷ b'3' ∷ [])
      ∷ []
unfolding split_command_rows rows_of next_row tokens_of resolve_row last_per_field keep_each
    keep_last field_name is_command_name split join cut any filter_by eq_list
split_command_rows_test = refl

total-split_command_rows_example :
    (total (split_command_rows batch) ≤ 64 * length batch)
    × (total (split_command_rows batch) ≤ 2 * max (4 * length batch) (64 * 1024))
total-split_command_rows_example = total-split_command_rows batch

resolve_row-last_per_field_example :
    last_of (b'a' ∷ []) (resolve_row (last_per_field (a1 ∷ b2 ∷ [])) (b3 ∷ []))
    ≡ or_else (last_of (b'a' ∷ []) (b3 ∷ [])) (last_of (b'a' ∷ []) (a1 ∷ b2 ∷ []))
resolve_row-last_per_field_example = resolve_row-last_per_field (b'a' ∷ []) (a1 ∷ b2 ∷ []) (b3 ∷ [])

abbrev long_number : Text
long_number = b'0' ∷ b'0' ∷ replicate 20 b'1'

parse_uint64-decimal_example : parse_uint64 long_number ≡ (
    if is_number long_number && leb (decimal long_number) max_uint64
    then decimal long_number
    else 0)
parse_uint64-decimal_example = parse_uint64-decimal long_number

parse_uint64_test : parse_uint64 long_number ≡ 11111111111111111111
unfolding parse_uint64 without_zeros big_int any
parse_uint64_test = refl
