-- ===== src/Language/Rows/Numbers.antt =====
-- src/core/helpers.ts, `parseUint64`: the value of a text of digits, with the cuts that the function
-- makes before it computes one.
use teamspeak_js.Common.{
  ℕ, zero, suc, ◌≡◌, refl, ◌∙◌, ◌≤◌, ◌<◌, ◌+◌, ◌*◌, ◌-◌, ◌==◌, true, false, ◌&&◌, ==_iff,
  Bool-cases, inl, inr, ltb, leb, if◌then◌else◌, any, length, [], ◌∷◌, arith,
}
use teamspeak_js.Language.Text.{Text}
use teamspeak_js.Language.Rows.{
  is_digit, is_number, without_zeros, big_int, max_uint64, parse_uint64,
}

abbrev power : ℕ → ℕ
power zero = 1
power (suc n) = 10 * power n

-- The number that a text of digits is the decimal notation of.
abbrev pub decimal : Text → ℕ
decimal [] = 0
decimal (c ∷ s) = (c - b'0') * power (length s) + decimal s

big_int-decimal : (v : ℕ) (s : Text) → big_int v s ≡ v * power (length s) + decimal s
unfolding big_int
big_int-decimal v [] = omega arith
big_int-decimal v (c ∷ s) =
    big_int-decimal (v * 10 + (c - b'0')) s ∙ spread v (c - b'0') (power (length s)) (decimal s)
  where
    spread : (v d p t : ℕ) → (v * 10 + d) * p + t ≡ v * (10 * p) + (d * p + t)
    spread v d p t = grind arith

zero_digit : (c : ℕ) → (c == b'0') ≡ true → c - b'0' ≡ 0
zero_digit c e = ground arith

decimal-without_zeros : (s : Text) → decimal (without_zeros s) ≡ decimal s
unfolding without_zeros
decimal-without_zeros [] = refl
decimal-without_zeros (c ∷ []) = refl
decimal-without_zeros (c ∷ d ∷ s) = elim (Bool-cases (c == b'0')) [
  | inl e ↦ rw e (decimal-without_zeros (d ∷ s) ∙ rw (zero_digit c e) (omega arith))
  | inr e ↦ rw e refl
]

power_large : (n : ℕ) → 20 ≤ n → power 20 ≤ power n
power_large zero h = absurd (omega arith)
power_large (suc n) h = elim (Bool-cases (n == 19)) [
  | inl e ↦ rw ((==_iff n 19).0 e) (omega arith)
  | inr e ↦ let ih = power_large n (ground arith) in omega (arith, ih)
]

number_tail :
    (c d : ℕ) (s : Text)
    → is_number (c ∷ d ∷ s) ≡ true
    → (is_digit c ≡ true) × (is_number (d ∷ s) ≡ true)
unfolding any
number_tail c d s n = ground arith

first_digit :
    (c d : ℕ) (s : Text) → is_number (c ∷ d ∷ s) ≡ true → (c == b'0') ≡ false → 1 ≤ c - b'0'
first_digit c d s n e = let (digit, _) = number_tail c d s n in ground arith

mul_large : (a p : ℕ) → 1 ≤ a → p ≤ a * p
mul_large zero p h = absurd (omega arith)
mul_large (suc a) p h = grind arith

-- What is left begins with a digit that counts, when more than one digit is left.
without_zeros_large :
    (s : Text)
    → is_number s ≡ true
    → 20 < length (without_zeros s)
    → max_uint64 < decimal (without_zeros s)
unfolding without_zeros
without_zeros_large [] n h = absurd (omega arith)
without_zeros_large (c ∷ []) n h = absurd (omega arith)
without_zeros_large (c ∷ d ∷ s) n h = elim (Bool-cases (c == b'0')) [
  | inl e ↦ rw e (without_zeros_large (d ∷ s) (number_tail c d s n).1 (rw e at h))
  | inr e ↦
      let large = power_large (length (d ∷ s)) (let long = rw e at h in omega (arith, long)) in
      let digit : 1 ≤ c - b'0' = first_digit c d s n e in
      let first = mul_large (c - b'0') (power (length (d ∷ s))) digit in
      rw e (omega (arith, first, large))
]

cuts :
    (n v : ℕ)
    → (20 < n → max_uint64 < v)
    → (if ltb 20 n then 0 else if ltb max_uint64 v then 0 else v)
      ≡ (if leb v max_uint64 then v else 0)
cuts n v large = ground (arith, large)

-- A text of digits whose number fits in 64 bits is read as that number, and every other text as 0,
-- whatever leading zeros it has and however long it is.
pub parse_uint64-decimal :
    (s : Text)
    → parse_uint64 s ≡ (if is_number s && leb (decimal s) max_uint64 then decimal s else 0)
unfolding parse_uint64
parse_uint64-decimal s = elim (Bool-cases (is_number s)) [
  | inr e ↦ rw e refl
  | inl e ↦
      let same : big_int 0 (without_zeros s) ≡ decimal s =
        big_int-decimal 0 (without_zeros s) ∙ omega (arith, decimal-without_zeros s) in
      let large = without_zeros_large s e in
      let value = decimal-without_zeros s in
      rw (e, same) (cuts (length (without_zeros s)) (decimal s) (λ l. rw value at large l))
]
