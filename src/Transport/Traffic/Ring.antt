-- ===== src/Transport/Traffic/Ring.antt =====
-- src/client/transport/traffic.ts: the ring of buckets against the whole record of what was counted,
-- newest first. A bucket stands for the second `u - 60`: numbering from 60 gives the seconds before
-- the first one a place, where nothing was counted.
use teamspeak_js.Common.{
  ℕ, zero, suc, ◌+◌, ◌-◌, ◌/◌, ◌%◌, min, ◌≤◌, ◌<◌, ◌≡◌, ◌≢◌, refl, sym, ap, ◌∙◌, Bool, true, false,
  leb, ◌==◌, if◌then◌else◌, Bool-cases, inl, inr, List, [], ◌∷◌, length, arith, All, leb→le, ==_iff,
  ==_refl, ==-false, ==-false→ne,
}
use teamspeak_js.Transport.Traffic.{
  Counter, new_counter, write_bucket, clear_buckets, advance_counter, add_bytes, window_seconds,
}

-- Times in milliseconds, and bytes.
abbrev pub Log : Type 0
Log = List (ℕ × ℕ)

-- The bytes counted at the seconds of which the test holds.
abbrev pub sum_where : (ℕ → Bool) → Log → ℕ
sum_where p [] = 0
sum_where p ((now, bytes) ∷ log) = (if p (now / 1000) then bytes else 0) + sum_where p log

-- The counter after all of the record.
pub run : Log → Counter
run [] = new_counter
run ((now, bytes) ∷ log) = add_bytes bytes now (run log)

-- No time is before an earlier one.
abbrev pub IsOrdered : Log → Type 0
IsOrdered [] = Unit
IsOrdered ((now, bytes) ∷ log) = All (λ entry. entry.0 ≤ now) log × IsOrdered log

other_place :
    (second gap i : ℕ) → i ≤ suc gap → (second + i) % 60 ≢ (second + suc gap) % 60 → i ≤ gap
other_place second gap i k other = elim (Bool-cases (i == suc gap)) [
  | inl e ↦ absurd (other (ap (λ j. (second + j) % 60) ((==_iff i (suc gap)).0 e)))
  | inr e ↦ ground arith
]

cleared :
    (second gap i : ℕ) (buckets : ℕ → ℕ)
    → 1 ≤ i
    → i ≤ gap
    → clear_buckets second gap buckets ((second + i) % 60) ≡ 0
unfolding clear_buckets
cleared second zero i buckets h k = absurd (omega arith)
cleared second (suc gap) i buckets h k =
    elim (Bool-cases ((second + i) % 60 == (second + suc gap) % 60)) [
      | inl e ↦ rw e refl
      | inr e ↦
          rw e (cleared second gap i buckets h (other_place second gap i k (==-false→ne _ _ e)))
    ]

kept :
    (second gap j : ℕ) (buckets : ℕ → ℕ)
    → ((i : ℕ) → 1 ≤ i → i ≤ gap → j ≢ (second + i) % 60)
    → clear_buckets second gap buckets j ≡ buckets j
unfolding clear_buckets
kept second zero j buckets h = refl
kept second (suc gap) j buckets h =
    rw (==-false j ((second + suc gap) % 60) (h (suc gap) (omega arith) (omega arith)))
      (kept second gap j buckets (λ i low high. h i low (omega arith)))

pub sum_where_ext :
    (p q : ℕ → Bool) (log : Log) → ((t : ℕ) → p t ≡ q t) → sum_where p log ≡ sum_where q log
sum_where_ext p q [] h = refl
sum_where_ext p q ((now, bytes) ∷ log) h = rw (h (now / 1000), sum_where_ext p q log h) refl

pub sum_where_split :
    (p q r : ℕ → Bool) (log : Log)
    → ((t : ℕ) (b : ℕ) → (if p t then b else 0) ≡ (if q t then b else 0) + (if r t then b else 0))
    → sum_where p log ≡ sum_where q log + sum_where r log
sum_where_split p q r [] h = omega arith
sum_where_split p q r ((now, bytes) ∷ log) h =
    omega (arith, h (now / 1000) bytes, sum_where_split p q r log h)

-- What holds of a counter: its buckets are those of the seconds up to its own, and nothing was
-- counted later.
pub record Mirrors (log : Log) (c : Counter) : Type 0 where
  pub packets_are : c.packets ≡ length log
  pub bytes_are : c.bytes ≡ sum_where (λ _. true) log
  pub none_later : (u : ℕ) → c.second + 60 < u → sum_where (λ t. t + 60 == u) log ≡ 0
  pub buckets_are :
      (u : ℕ)
      → c.second < u
      → u ≤ c.second + 60
      → c.buckets (u % 60) ≡ sum_where (λ t. t + 60 == u) log

aged :
    (log : Log) (c : Counter) (second u : ℕ)
    → Mirrors log c
    → c.second < second
    → second < u
    → u ≤ second + 60
    → clear_buckets c.second (min (second - c.second) window_seconds) c.buckets (u % 60)
      ≡ sum_where (λ t. t + 60 == u) log
aged log c second u m h low high = elim (Bool-cases (leb u (c.second + 60))) [
  | inl e ↦
      let near = leb→le u (c.second + 60) e in
      kept c.second (min (second - c.second) window_seconds) (u % 60) c.buckets
        (λ i one most same. omega (arith, same, near))
      ∙ m.buckets_are u (omega arith) near
  | inr e ↦
      let far : c.second + 60 < u = ground arith in
      let i = 1 + (u - c.second - 1) % 60 in
      let place : u % 60 ≡ (c.second + i) % 60 = omega arith in
      ap (clear_buckets c.second (min (second - c.second) window_seconds) c.buckets) place
      ∙ cleared c.second (min (second - c.second) window_seconds) i c.buckets (omega arith)
          (omega arith)
      ∙ sym (m.none_later u far)
]

pub advance_counter-Mirrors :
    (log : Log) (c : Counter) (second : ℕ)
    → Mirrors log c
    → c.second ≤ second
    → Mirrors log (advance_counter second c) × ((advance_counter second c).second ≡ second)
unfolding advance_counter
advance_counter-Mirrors log c second m h = elim (Bool-cases (leb second c.second)) [
  | inl e ↦ rw e (m, omega (arith, leb→le second c.second e))
  | inr e ↦ rw e (
    record {
      packets_are = m.packets_are;
      bytes_are = m.bytes_are;
      none_later = λ u far. m.none_later u (omega arith);
      buckets_are = λ u low high. aged log c second u m (ground arith) low high;
    },
    refl,
  )
]

-- The counter after some bytes in its own second.
abbrev counted : ℕ → Counter → Counter
counted bytes c = record c {
  packets = c.packets + 1;
  bytes = c.bytes + bytes;
  buckets =
      write_bucket c.buckets (c.second % window_seconds)
        (c.buckets (c.second % window_seconds) + bytes);
}

counted-Mirrors :
    (now bytes : ℕ) (log : Log) (c : Counter)
    → Mirrors log c
    → c.second ≡ now / 1000
    → Mirrors ((now, bytes) ∷ log) (counted bytes c)
counted-Mirrors now bytes log c m at = record {
  packets_are = omega (arith, m.packets_are);
  bytes_are = omega (arith, m.bytes_are);
  none_later = λ u far. later u far;
  buckets_are = λ u low high. bucket u low high;
}
  where
    later : (u : ℕ) → c.second + 60 < u → sum_where (λ t. t + 60 == u) ((now, bytes) ∷ log) ≡ 0
    later u far = let none_is = m.none_later u far in ground (arith, none_is)

    bucket :
        (u : ℕ)
        → c.second < u
        → u ≤ c.second + 60
        → write_bucket c.buckets (c.second % 60) (c.buckets (c.second % 60) + bytes) (u % 60)
          ≡ sum_where (λ t. t + 60 == u) ((now, bytes) ∷ log)
    bucket u low high =
        let is = m.buckets_are u low high in
        elim (Bool-cases (now / 1000 + 60 == u)) [
          | inl e ↦
              let place : u % 60 ≡ c.second % 60 = ground arith in
              rw e (
                rw (place, ==_refl (c.second % 60))
                  (let is' = rw place at is in omega (arith, is')))
          | inr e ↦
              let place : (u % 60 == c.second % 60) ≡ false = ground arith in
              rw (e, place) (omega (arith, is))
        ]

pub run-Mirrors :
    (log : Log)
    → IsOrdered log
    → Mirrors log (run log)
      × ((t : ℕ) → All (λ entry. entry.0 ≤ t) log → (run log).second ≤ t / 1000)
unfolding run add_bytes
run-Mirrors [] h = (
  record {
    packets_are = refl;
    bytes_are = refl;
    none_later = λ u far. refl;
    buckets_are = λ u low high. refl;
  },
  λ t _. omega arith,
)
run-Mirrors ((now, bytes) ∷ log) (latest, h) =
    let (m, before) = run-Mirrors log h in
    let (m', at) = advance_counter-Mirrors log (run log) (now / 1000) m (before now latest) in
    (
      counted-Mirrors now bytes log (advance_counter (now / 1000) (run log)) m' at,
      λ t (le, _). omega (arith, at, le),
    )
