-- ===== src/Transport/Quicklz.antt =====
-- src/client/transport/quicklz.ts: decompression of QuickLZ level 1 blocks. A byte is a number
-- below 256; `|` of bytes in different places is their sum, a shift is a division or a product by a
-- power of two, and the hash table, 4096 numbers, is a function. The main loop takes fuel.
pub mod Ends
mod Tests
use Prim.Native.Nat.{bit_and, bit_xor}
use teamspeak_js.Common.{
  ℕ, zero, suc, ◌+◌, ◌-◌, ◌*◌, ◌/◌, ◌%◌, ◌^◌, max, Bool, true, false, ltb, leb, ◌==◌, if◌then◌else◌,
  List, length, get_or, set, take, drop, replicate,
}

-- Why a block is refused, one for each `throw`. The last is the model's own: the fuel ran out.
pub data QuickLzError : Type 0 where
  too_short unsupported_level short_header oversized stored_short over_expanded : QuickLzError
  ends_early points_ahead overruns no_fuel : QuickLzError

pub data Result {ℓ} (A : Type ℓ) : Type ℓ where
  ok : A → Result A
  err : QuickLzError → Result A

infixl 5 ◌>>=◌
abbrev pub ◌>>=◌ {ℓ κ} : {A : Type ℓ} {B : Type κ} → Result A → (A → Result B) → Result B
ok a >>= f = f a
err e >>= f = err e

-- `MAX_DECOMPRESSED_SIZE` and `MAX_EXPANSION`.
abbrev pub max_decompressed_size : ℕ
max_decompressed_size = 2 ^ 20

abbrev pub max_expansion : ℕ
max_expansion = 128

-- `data[i]!`, where the index is in range.
abbrev pub byte_at : List ℕ → ℕ → ℕ
byte_at bytes i = get_or bytes i 0

-- Four bytes from `i`, little-endian.
abbrev pub word_at : List ℕ → ℕ → ℕ
word_at bytes i =
    byte_at bytes i
    + byte_at bytes (i + 1) * 2 ^ 8
    + byte_at bytes (i + 2) * 2 ^ 16
    + byte_at bytes (i + 3) * 2 ^ 24

pub record LzHeader : Type 0 where
  pub header_len : ℕ
  pub decompressed_size : ℕ
  pub flags : ℕ

-- `parseQlzHeader`.
unfoldable pub parse_qlz_header : List ℕ → Result LzHeader
parse_qlz_header bytes =
    let flags = byte_at bytes 0 in
    let long = flags / 2 % 2 == 1 in
    let header_len : ℕ = if long then 9 else 3 in
    let size = if long then word_at bytes 5 else byte_at bytes 2 in
    if ltb (length bytes) 3
    then err too_short
    else if (flags / 4 % 4 == 1)
    then if ltb (length bytes) header_len
      then err short_header
      else if ltb max_decompressed_size size
      then err oversized
      else ok (record { header_len = header_len; decompressed_size = size; flags = flags })
    else err unsupported_level

-- `QlzState`, with the output buffer and the hash table that the methods share.
pub record Lz : Type 0 where
  pub control : ℕ
  pub source_pos : ℕ
  pub dest_pos : ℕ
  pub next_hashed : ℕ
  pub dest : List ℕ
  pub hashtable : ℕ → ℕ

abbrev pub write_table : (ℕ → ℕ) → ℕ → ℕ → ℕ → ℕ
write_table table k v j = if j == k then v else table j

-- The body of `#updateHashtable`'s loop, over the rounds left.
hash_from : ℕ → Lz → Lz
hash_from zero st = st
hash_from (suc rounds) st =
    let i = st.next_hashed in
    let v =
      byte_at st.dest i + byte_at st.dest (i + 1) * 2 ^ 8 + byte_at st.dest (i + 2) * 2 ^ 16 in
    let hash = bit_and (bit_xor (v / 2 ^ 12) v) 0xfff in
    let next =
      hash_from rounds
        (record st { next_hashed = i + 1; hashtable = write_table st.hashtable hash i }) in
    if ltb (length st.dest) (i + 3) then st else next

-- `#updateHashtable`: one round for each position from `nextHashed` to `end`.
unfoldable pub update_hashtable : ℕ → Lz → Lz
unfolding hash_from
update_hashtable end st = hash_from (end - st.next_hashed) st

-- `#ensureControl`, which the tail of `#processLiteral` repeats.
unfoldable pub ensure_control : List ℕ → Lz → Result Lz
ensure_control bytes st =
    if st.control == 1
    then if ltb (length bytes) (st.source_pos + 4)
      then err ends_early
      else ok (record st { control = word_at bytes st.source_pos; source_pos = st.source_pos + 4 })
    else ok st

-- The copy of a back-reference, byte by byte, so that it may read what it has written.
unfoldable pub copy_match : ℕ → ℕ → ℕ → List ℕ → List ℕ
copy_match zero offset at dest = dest
copy_match (suc n) offset at dest =
    copy_match n (offset + 1) (at + 1) (set dest at (byte_at dest offset))

-- The match length: in the low nibble of the first byte, or in a byte of its own.
match_length : List ℕ → ℕ → ℕ → Result (ℕ × ℕ)
match_length bytes b1 source_pos =
    if b1 % 16 == 0
    then if leb (length bytes) source_pos
      then err ends_early
      else ok (byte_at bytes source_pos, source_pos + 1)
    else ok (b1 % 16 + 2, source_pos)

-- `#processReference` from the check of the offset on.
copy_reference : ℕ → ℕ → Lz → Result Lz
unfolding copy_match update_hashtable
copy_reference offset matchlen st =
    if leb st.dest_pos offset
    then err points_ahead
    else if ltb (length st.dest) (st.dest_pos + matchlen)
    then err overruns
    else let copied = record st {
      dest = copy_match matchlen offset st.dest_pos st.dest;
      dest_pos = st.dest_pos + matchlen;
    } in
      let hashed = update_hashtable (copied.dest_pos + 1 - matchlen) copied in
      ok (record hashed { next_hashed = hashed.dest_pos })

-- `#processReference`.
unfoldable pub process_reference : List ℕ → Lz → Result Lz
unfolding match_length copy_reference
process_reference bytes st =
    let b1 = byte_at bytes st.source_pos in
    let b2 = byte_at bytes (st.source_pos + 1) in
    let hash = b1 / 16 + b2 * 16 in
    if ltb (length bytes) (st.source_pos + 2)
    then err ends_early
    else (match_length bytes b1 (st.source_pos + 2) >>= λ (matchlen, source_pos).
        copy_reference (st.hashtable hash) matchlen
          (record st { control = st.control / 2; source_pos = source_pos }))

-- One literal: `dest[st.destPos++] = data[st.sourcePos++]` and the shift of the control word.
unfoldable pub copy_literal : List ℕ → Lz → Result Lz
copy_literal bytes st =
    if leb (length bytes) st.source_pos
    then err ends_early
    else ok (record st {
      control = st.control / 2;
      source_pos = st.source_pos + 1;
      dest_pos = st.dest_pos + 1;
      dest = set st.dest st.dest_pos (byte_at bytes st.source_pos);
    })

-- The last literals of a block, over the bytes left to write.
unfoldable pub copy_tail : List ℕ → ℕ → Lz → Result Lz
unfolding ensure_control copy_literal
copy_tail bytes zero st = ok st
copy_tail bytes (suc left) st =
    ensure_control bytes st >>= λ st. copy_literal bytes st >>= λ st. copy_tail bytes left st

-- `#processLiteral` before the tail.
literal_step : List ℕ → Lz → Result Lz
unfolding copy_literal update_hashtable
literal_step bytes st = copy_literal bytes st >>= λ st.
    let end = st.dest_pos - 2 in
    let hashed = update_hashtable end st in
    ok (record hashed { next_hashed = max hashed.next_hashed end })

-- `#processLiteral`, which says whether it has copied the tail.
process_literal : List ℕ → ℕ → Lz → Result (Bool × Lz)
unfolding copy_tail literal_step
process_literal bytes size st =
    if leb (max size 10 - 10) st.dest_pos
    then (copy_tail bytes (size - st.dest_pos) st >>= λ st. ok (true, st))
    else (literal_step bytes st >>= λ st. ok (false, st))

-- The body of the loop of `decompress`, which says whether it breaks off.
lz_round : List ℕ → ℕ → Lz → Result (Bool × Lz)
unfolding ensure_control process_reference process_literal
lz_round bytes size st = ensure_control bytes st >>= λ st.
    if st.control % 2 == 1
    then (process_reference bytes st >>= λ st. ok (false, st))
    else process_literal bytes size st

-- The loop of `decompress`.
unfoldable pub lz_loop : ℕ → List ℕ → ℕ → Lz → Result Lz
unfolding lz_round
lz_loop zero bytes size st = err no_fuel
lz_loop (suc fuel) bytes size st =
    if ltb st.dest_pos size
    then (lz_round bytes size st >>= λ (done, st'). elim done [
      | true ↦ ok st'
      | false ↦ lz_loop fuel bytes size st'
    ])
    else ok st

abbrev pub lz_start : LzHeader → Lz
lz_start h = record {
  control = 1;
  source_pos = h.header_len;
  dest_pos = 0;
  next_hashed = 0;
  dest = replicate h.decompressed_size 0;
  hashtable = λ _. 0;
}

-- A stored block, and the body of a compressed one.
decompress_block : List ℕ → LzHeader → Result (List ℕ)
unfolding lz_loop
decompress_block bytes h =
    if (h.flags % 2 == 0)
    then if ltb (length bytes) (h.header_len + h.decompressed_size)
      then err stored_short
      else ok (take h.decompressed_size (drop h.header_len bytes))
    else if ltb ((length bytes - h.header_len) * max_expansion) h.decompressed_size
    then err over_expanded
    else (lz_loop (length bytes + 1) bytes h.decompressed_size (lz_start h) >>= λ st.
        if st.dest_pos == h.decompressed_size then ok st.dest else err ends_early)

-- `Qlz.decompress`.
unfoldable pub decompress : List ℕ → Result (List ℕ)
unfolding parse_qlz_header decompress_block
decompress bytes = parse_qlz_header bytes >>= decompress_block bytes
