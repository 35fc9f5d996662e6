-- ===== src/Transport/Quicklz/Ends.antt =====
-- src/client/transport/quicklz.ts: how many rounds the loops take, and the size of the buffer.
use teamspeak_js.Common.{
  ℕ, zero, suc, ◌+◌, ◌-◌, ◌*◌, ◌/◌, ltb-false→le, ◌≤◌, ◌<◌, ◌≡◌, ◌≢◌, take, drop, refl, ◌∙◌, Bool,
  true, false, if◌then◌else◌, ◌%◌, ◌⊎◌, ltb, leb, ◌==◌, List, length, length-set, length-replicate,
  length-take, length-drop, Bool-cases, inl, inr, max, set, arith,
}
use teamspeak_js.Transport.Quicklz.{
  no_fuel, stored_short, over_expanded, ends_early, max_expansion, Result, ok, err, ◌>>=◌, Lz,
  LzHeader, byte_at, hash_from, update_hashtable, ensure_control, copy_match, match_length,
  copy_reference, process_reference, copy_literal, copy_tail, process_literal, lz_round,
  literal_step, lz_loop, lz_start, decompress_block, decompress, parse_qlz_header,
  max_decompressed_size,
}

-- The result satisfies `P`, or is an error of the source's.
abbrev pub Outcome {ℓ} : {A : Type ℓ} → (A → Type 0) → Result A → Type 0
Outcome P (ok a) = P a
Outcome P (err e) = e ≢ no_fuel

pub Outcome->>= {ℓ κ} :
    {A : Type ℓ} {B : Type κ} (P : A → Type 0) (Q : B → Type 0) (m : Result A) (f : A → Result B)
    → Outcome P m
    → ((a : A) → P a → Outcome Q (f a))
    → Outcome Q (m >>= f)
Outcome->>= P Q (ok a) f h k = k a h
Outcome->>= P Q (err e) f h k = h

-- `st'` is `st` after reading on in `bytes`, at least `n` bytes further.
record Reads (bytes : List ℕ) (n : ℕ) (st st' : Lz) : Type 0 where
  same_size : length st'.dest ≡ length st.dest
  reads : st.source_pos + n ≤ st'.source_pos
  in_bounds : st'.source_pos ≤ length bytes

hash_from-keeps :
    (n : ℕ) (st : Lz)
    → ((hash_from n st).dest ≡ st.dest)
      × ((hash_from n st).source_pos ≡ st.source_pos)
      × ((hash_from n st).dest_pos ≡ st.dest_pos)
      × ((hash_from n st).control ≡ st.control)
unfolding hash_from
hash_from-keeps zero st = (refl, refl, refl, refl)
hash_from-keeps (suc n) st = elim (Bool-cases (ltb (length st.dest) (st.next_hashed + 3))) [
  | inl stop ↦ rw stop (refl, refl, refl, refl)
  | inr go ↦ rw go (hash_from-keeps n _)
]

length-copy_match :
    (n offset at : ℕ) (dest : List ℕ) → length (copy_match n offset at dest) ≡ length dest
unfolding copy_match
length-copy_match zero offset at dest = refl
length-copy_match (suc n) offset at dest = omega (
  arith,
  length-copy_match n (offset + 1) (at + 1) (set dest at (byte_at dest offset)),
  length-set {0} dest at (byte_at dest offset),
)

module _ (bytes : List ℕ) (st : Lz) (within : st.source_pos ≤ length bytes) where
  ensure_control-Reads : Outcome (Reads bytes 0 st) (ensure_control bytes st)
  unfolding ensure_control
  ensure_control-Reads = ground arith

  copy_literal-Reads : Outcome (Reads bytes 1 st) (copy_literal bytes st)
  unfolding copy_literal
  copy_literal-Reads = ground (arith, length-set st.dest st.dest_pos (byte_at bytes st.source_pos))

Reads-trans :
    (bytes : List ℕ) (m n : ℕ) {a b c : Lz}
    → Reads bytes m a b
    → Reads bytes n b c
    → Reads bytes (m + n) a c
Reads-trans bytes m n r s = omega arith

Reads-weaken : (bytes : List ℕ) (m n : ℕ) {a b : Lz} → n ≤ m → Reads bytes m a b → Reads bytes n a b
Reads-weaken bytes m n h r = omega arith

-- A step that reads, and then one that reads on from where the first stopped.
then-Reads :
    (bytes : List ℕ) (m n : ℕ) (st : Lz) (r : Result Lz) (f : Lz → Result Lz)
    → Outcome (Reads bytes m st) r
    → ((a : Lz) → a.source_pos ≤ length bytes → Outcome (Reads bytes n a) (f a))
    → Outcome (Reads bytes (m + n) st) (r >>= f)
then-Reads bytes m n st (ok a) f h k = lift (f a) (k a h.in_bounds)
  where
    lift : (r : Result Lz) → Outcome (Reads bytes n a) r → Outcome (Reads bytes (m + n) st) r
    lift (ok b) s = Reads-trans bytes m n h s
    lift (err e) s = s
then-Reads bytes m n st (err e) f h k = h

copy_tail-Reads :
    (bytes : List ℕ) (left : ℕ) (st : Lz)
    → st.source_pos ≤ length bytes
    → Outcome (Reads bytes 0 st) (copy_tail bytes left st)
unfolding copy_tail
copy_tail-Reads bytes zero st h = omega arith
copy_tail-Reads bytes (suc left) st h =
    then-Reads bytes 0 0 st _ _ (ensure_control-Reads bytes st h) λ a ha.
      then-Reads bytes 0 0 a _ _ (drop_one a (copy_literal bytes a) (copy_literal-Reads bytes a ha))
        λ b hb. copy_tail-Reads bytes left b hb
  where
    drop_one : (a : Lz) (r : Result Lz) → Outcome (Reads bytes 1 a) r → Outcome (Reads bytes 0 a) r
    drop_one a (ok b) s = Reads-weaken bytes 1 0 (omega arith) s
    drop_one a (err e) s = s

literal_step-Reads :
    (bytes : List ℕ) (st : Lz)
    → st.source_pos ≤ length bytes
    → Outcome (Reads bytes 1 st) (literal_step bytes st)
unfolding literal_step update_hashtable
literal_step-Reads bytes st h =
    Outcome->>= (Reads bytes 1 st) (Reads bytes 1 st) (copy_literal bytes st) _
      (copy_literal-Reads bytes st h)
      λ a r. ground (arith, hash_from-keeps (a.dest_pos - 2 - a.next_hashed) a, r)

copy_reference-Reads :
    (bytes : List ℕ) (offset matchlen : ℕ) (st : Lz)
    → st.source_pos ≤ length bytes
    → Outcome (Reads bytes 0 st) (copy_reference offset matchlen st)
unfolding copy_reference update_hashtable
copy_reference-Reads bytes offset n st h =
    let copied = record st {
      dest = copy_match n offset st.dest_pos st.dest;
      dest_pos = st.dest_pos + n;
    } in
    ground (
      arith,
      hash_from-keeps (st.dest_pos + n + 1 - n - st.next_hashed) copied,
      length-copy_match n offset st.dest_pos st.dest,
    )

match_length-reads :
    (bytes : List ℕ) (b1 source_pos : ℕ)
    → source_pos ≤ length bytes
    → Outcome (λ m. (source_pos ≤ m.1) × (m.1 ≤ length bytes)) (match_length bytes b1 source_pos)
unfolding match_length
match_length-reads bytes b1 source_pos h = ground arith

process_reference-Reads :
    (bytes : List ℕ) (st : Lz)
    → st.source_pos ≤ length bytes
    → Outcome (Reads bytes 1 st) (process_reference bytes st)
unfolding process_reference
process_reference-Reads bytes st h = elim (Bool-cases (ltb (length bytes) (st.source_pos + 2))) [
  | inl short ↦ rw short (cc)
  | inr room ↦ rw room (
      Outcome->>= (λ m. (st.source_pos + 2 ≤ m.1) × (m.1 ≤ length bytes)) (Reads bytes 1 st) _ _
        (match_length-reads bytes (byte_at bytes st.source_pos) (st.source_pos + 2)
          (ltb-false→le _ _ room))
        λ (m : ℕ × ℕ) (r : (st.source_pos + 2 ≤ m.1) × (m.1 ≤ length bytes)).
          widen m _ (copy_reference-Reads bytes _ m.0 (next m) r.1) r.0)
]
  where
    next : ℕ × ℕ → Lz
    next m = record st { control = st.control / 2; source_pos = m.1 }

    widen :
        (m : ℕ × ℕ) (r : Result Lz)
        → Outcome (Reads bytes 0 (record st { control = st.control / 2; source_pos = m.1 })) r
        → st.source_pos + 2 ≤ m.1
        → Outcome (Reads bytes 1 st) r
    widen m (ok a) s le = omega arith
    widen m (err e) s le = s

-- The outcome of a round: it is done, or it has read on.
abbrev Round : List ℕ → Lz → Result (Bool × Lz) → Type 0
Round bytes st = Outcome (λ r.
    (length r.1.dest ≡ length st.dest)
    × (r.1.source_pos ≤ length bytes)
    × ((r.0 ≡ true) ⊎ (st.source_pos < r.1.source_pos)))

finish :
    (bytes : List ℕ) (n : ℕ) (done : Bool) (st : Lz) (r : Result Lz)
    → (done ≡ true) ⊎ (0 < n)
    → Outcome (Reads bytes n st) r
    → Round bytes st (r >>= λ st'. ok (done, st'))
finish bytes n done st (ok a) d h = ground arith
finish bytes n done st (err e) d h = h

process_literal-Round :
    (bytes : List ℕ) (size : ℕ) (st : Lz)
    → st.source_pos ≤ length bytes
    → Round bytes st (process_literal bytes size st)
unfolding process_literal
process_literal-Round bytes size st h = elim (Bool-cases (leb (max size 10 - 10) st.dest_pos)) [
  | inl tail ↦ rw tail (finish bytes 0 true st _ (inl refl) (copy_tail-Reads bytes _ st h))
  | inr more ↦
      rw more (finish bytes 1 false st _ (inr (omega arith)) (literal_step-Reads bytes st h))
]

lz_round-Round :
    (bytes : List ℕ) (size : ℕ) (st : Lz)
    → st.source_pos ≤ length bytes
    → Round bytes st (lz_round bytes size st)
unfolding lz_round
lz_round-Round bytes size st h = go (ensure_control bytes st) (ensure_control-Reads bytes st h)
  where
    choose :
        (a : Lz)
        → a.source_pos ≤ length bytes
        → Round bytes a (
            if a.control % 2 == 1
            then (process_reference bytes a >>= λ a. ok (false, a))
            else process_literal bytes size a)
    choose a ha = elim (Bool-cases (a.control % 2 == 1)) [
      | inl odd ↦
          rw odd (finish bytes 1 false a _ (inr (omega arith)) (process_reference-Reads bytes a ha))
      | inr even ↦ rw even (process_literal-Round bytes size a ha)
    ]

    widen :
        (a : Lz) (r : Result (Bool × Lz)) → Reads bytes 0 st a → Round bytes a r → Round bytes st r
    widen a (ok b) s t = ground arith
    widen a (err e) s t = t

    go :
        (r : Result Lz)
        → Outcome (Reads bytes 0 st) r
        → Round bytes st (
            r >>= λ a.
            if a.control % 2 == 1
            then (process_reference bytes a >>= λ a. ok (false, a))
            else process_literal bytes size a)
    go (ok a) s = widen a _ s (choose a s.in_bounds)
    go (err e) s = s

-- With more fuel than bytes left the loop ends, by a result or by an error of the source's.
lz_loop-ends :
    (fuel : ℕ) (bytes : List ℕ) (size : ℕ) (st : Lz)
    → st.source_pos ≤ length bytes
    → length bytes < fuel + st.source_pos
    → Outcome (λ st'. length st'.dest ≡ length st.dest) (lz_loop fuel bytes size st)
unfolding lz_loop
lz_loop-ends zero bytes size st h f = absurd (omega arith)
lz_loop-ends (suc fuel) bytes size st h f = elim (Bool-cases (ltb st.dest_pos size)) [
  | inr over ↦ rw over refl
  | inl more ↦ rw more (
      Outcome->>= _ _ (lz_round bytes size st) _ (lz_round-Round bytes size st h)
        λ (r : Bool × Lz) k.
          next (lz_loop fuel bytes size) (lz_loop-ends fuel bytes size) r.0 r.1 k)
]
  where
    transport :
        (a : Lz) (r : Result Lz)
        → length a.dest ≡ length st.dest
        → Outcome (λ st'. length st'.dest ≡ length a.dest) r
        → Outcome (λ st'. length st'.dest ≡ length st.dest) r
    transport a (ok b) e s = s ∙ e
    transport a (err x) e s = s

    next :
        (loop : Lz → Result Lz)
        → ((a : Lz)
            → a.source_pos ≤ length bytes
            → length bytes < fuel + a.source_pos
            → Outcome (λ st'. length st'.dest ≡ length a.dest) (loop a))
        → (done : Bool) (a : Lz)
        → (length a.dest ≡ length st.dest)
          × (a.source_pos ≤ length bytes)
          × ((done ≡ true) ⊎ (st.source_pos < a.source_pos))
        → Outcome
            (λ st'. length st'.dest ≡ length st.dest)
            (elim done [ true ↦ ok a | false ↦ loop a ])
    next loop ends true a k = k.0
    next loop ends false a k = transport a _ k.0 (ends a k.1 (ground (arith, k.2)))

-- What an accepted header guarantees.
pub parse_qlz_header_bounds :
    (bytes : List ℕ)
    → Outcome
        (λ h. (h.header_len ≤ length bytes) × (h.decompressed_size ≤ max_decompressed_size))
        (parse_qlz_header bytes)
unfolding parse_qlz_header
parse_qlz_header_bounds bytes = ground arith

abbrev Sized : List ℕ → LzHeader → List ℕ → Type 0
Sized bytes h out = (length out ≡ h.decompressed_size) × (length out ≤ length bytes * 128)

stored-Sized :
    (bytes : List ℕ) (h : LzHeader)
    → h.header_len ≤ length bytes
    → Outcome (Sized bytes h) (
        if ltb (length bytes) (h.header_len + h.decompressed_size)
        then err stored_short
        else ok (take h.decompressed_size (drop h.header_len bytes)))
stored-Sized bytes h le = ground (
  arith,
  length-take h.decompressed_size (drop h.header_len bytes),
  length-drop h.header_len bytes,
)

packed-Sized :
    (bytes : List ℕ) (h : LzHeader) (r : Result Lz)
    → h.header_len ≤ length bytes
    → Outcome (λ st. length st.dest ≡ length (lz_start h).dest) r
    → Outcome (Sized bytes h) (
        if ltb ((length bytes - h.header_len) * max_expansion) h.decompressed_size
        then err over_expanded
        else (r >>= λ st.
            if st.dest_pos == h.decompressed_size then ok st.dest else err ends_early))
packed-Sized bytes h (ok st) le e = ground (arith, length-replicate {A = ℕ} h.decompressed_size 0)
packed-Sized bytes h (err x) le e = ground arith

decompress_block-Sized :
    (bytes : List ℕ) (h : LzHeader)
    → h.header_len ≤ length bytes
    → Outcome (Sized bytes h) (decompress_block bytes h)
unfolding decompress_block
decompress_block-Sized bytes h le = elim (Bool-cases (h.flags % 2 == 0)) [
  | inl stored ↦ rw stored (stored-Sized bytes h le)
  | inr packed ↦ rw packed (
      packed-Sized bytes h _ le
        (lz_loop-ends _ bytes h.decompressed_size (lz_start h) le (omega arith)))
]

decompress_cases :
    (bytes : List ℕ) (r : Result LzHeader)
    → Outcome (λ h. (h.header_len ≤ length bytes) × (h.decompressed_size ≤ max_decompressed_size)) r
    → Outcome
        (λ out.
          (h : LzHeader) × (r ≡ ok h) × Sized bytes h out × (length out ≤ max_decompressed_size))
        (r >>= decompress_block bytes)
decompress_cases bytes (ok h) (le, small) =
    go (decompress_block bytes h) (decompress_block-Sized bytes h le)
  where
    go :
        (r : Result (List ℕ))
        → Outcome (Sized bytes h) r
        → Outcome
            (λ out.
              (h' : LzHeader) × (ok h ≡ ok h')
              × Sized bytes h' out
              × (length out ≤ max_decompressed_size))
            r
    go (ok out) sized = (h, refl, sized, omega arith)
    go (err e) ne = ne
decompress_cases bytes (err e) ne = ne

decompress-Outcome :
    (bytes : List ℕ)
    → Outcome
        (λ out.
          (h : LzHeader) × (parse_qlz_header bytes ≡ ok h)
          × Sized bytes h out
          × (length out ≤ max_decompressed_size))
        (decompress bytes)
unfolding decompress
decompress-Outcome bytes = decompress_cases bytes _ (parse_qlz_header_bounds bytes)

-- The fuel is always enough: whatever the bytes, decompression returns or throws.
pub decompress-ne-no_fuel : (bytes : List ℕ) → decompress bytes ≢ err no_fuel
decompress-ne-no_fuel bytes e = (rw e at (decompress-Outcome bytes)) refl

-- A block that decompresses has exactly the size its header declares, at most 2^20 bytes and at
-- most 128 times the block.
pub decompress-Sized :
    (bytes : List ℕ) {out : List ℕ}
    → decompress bytes ≡ ok out
    → (h : LzHeader) × (parse_qlz_header bytes ≡ ok h)
      × (length out ≡ h.decompressed_size)
      × (length out ≤ length bytes * 128)
      × (length out ≤ max_decompressed_size)
decompress-Sized bytes e =
    let (h, parsed, sized, small) = rw e at (decompress-Outcome bytes) in
    (h, parsed, sized.0, sized.1, small)
