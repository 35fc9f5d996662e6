-- ===== src/Transport/Quicklz/Tests.antt =====
-- QuickLZ blocks: a stored one, a compressed one of literals, refused ones, and the theorems at
-- such blocks.
use teamspeak_js.Common.{ℕ, ◌*◌, ◌≤◌, ◌≡◌, ◌≢◌, refl, List, [], ◌∷◌, length}
use teamspeak_js.Transport.Quicklz.{
  LzHeader, ok, err, unsupported_level, stored_short, points_ahead, no_fuel, parse_qlz_header,
  update_hashtable, ensure_control, copy_match, process_reference, copy_literal, copy_tail,
  decompress, max_decompressed_size,
}
use teamspeak_js.Transport.Quicklz.Ends.{decompress-Sized, decompress-ne-no_fuel}

-- A stored block: "abc" behind its header.
abbrev stored : List ℕ
stored = 0x04 ∷ 6 ∷ 3 ∷ 97 ∷ 98 ∷ 99 ∷ []

-- A control word of literals only, and five of them.
abbrev literals : List ℕ
literals = 0x05 ∷ 12 ∷ 5 ∷ 0 ∷ 0 ∷ 0 ∷ 0x80 ∷ 1 ∷ 2 ∷ 3 ∷ 4 ∷ 5 ∷ []

-- A back-reference before anything is written.
abbrev ahead : List ℕ
ahead = 0x05 ∷ 9 ∷ 20 ∷ 1 ∷ 0 ∷ 0 ∷ 0x80 ∷ 0x01 ∷ 0 ∷ []

stored_runs : decompress stored ≡ ok (97 ∷ 98 ∷ 99 ∷ [])
unfolding decompress
stored_runs = refl

literals_run : decompress literals ≡ ok (1 ∷ 2 ∷ 3 ∷ 4 ∷ 5 ∷ [])
unfolding decompress ensure_control process_reference copy_literal copy_tail update_hashtable
    copy_match
literals_run = refl

refused :
    (decompress (0x04 ∷ 6 ∷ 4 ∷ 97 ∷ []) ≡ err stored_short)
    × (decompress (0x00 ∷ 6 ∷ 4 ∷ 97 ∷ []) ≡ err unsupported_level)
    × (decompress ahead ≡ err points_ahead)
unfolding decompress
refused = (refl, refl, refl)

decompress-Sized_example :
    (h : LzHeader) × (parse_qlz_header literals ≡ ok h)
    × (5 ≡ h.decompressed_size)
    × (5 ≤ length literals * 128)
    × (5 ≤ max_decompressed_size)
decompress-Sized_example = decompress-Sized literals literals_run

decompress-ne-no_fuel_example : decompress ahead ≢ err no_fuel
decompress-ne-no_fuel_example = decompress-ne-no_fuel ahead
