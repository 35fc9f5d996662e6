-- ===== src/Transport/Traffic/Minute.antt =====
-- src/client/transport/traffic.ts, `snapshot`: its figures against the whole record of what was
-- counted.
use teamspeak_js.Common.{
  ℕ, zero, suc, ◌+◌, ◌-◌, ◌*◌, ◌/◌, ◌%◌, ◌≤◌, ◌≡◌, refl, sym, ap, ◌∙◌, Bool, true, ◌&&◌, leb, ltb,
  ◌==◌, if◌then◌else◌, [], ◌∷◌, length, arith, All,
}
use teamspeak_js.Transport.Traffic.{
  Counter, advance_counter, minute_sum, figures, TrafficFigures, window_seconds,
}
use teamspeak_js.Transport.Traffic.Ring.{
  Log, sum_where, run, IsOrdered, Mirrors, sum_where_ext, sum_where_split, advance_counter-Mirrors,
  run-Mirrors,
}

one_more :
    (s n t b : ℕ)
    → n ≤ 58
    → (if leb (s + 60 - suc n) (t + 60) && ltb t s then b else 0)
      ≡ (if leb (s + 60 - n) (t + 60) && ltb t s then b else 0)
        + (if t + 60 == s + 60 - suc n then b else 0)
one_more s n t b h = ground arith

none_yet : (s : ℕ) (log : Log) → sum_where (λ t. leb (s + 60 - 0) (t + 60) && ltb t s) log ≡ 0
none_yet s [] = refl
none_yet s ((now, bytes) ∷ log) = ground (arith, none_yet s log)

minute_sum_lem :
    (n : ℕ) (log : Log) (c : Counter)
    → Mirrors log c
    → n ≤ 59
    → minute_sum n c ≡ sum_where (λ t. leb (c.second + 60 - n) (t + 60) && ltb t c.second) log
unfolding minute_sum
minute_sum_lem zero log c m h = sym (none_yet c.second log)
minute_sum_lem (suc n) log c m h =
    let ih = minute_sum_lem n log c m (omega arith) in
    let place : (c.second + 120 - suc n) % 60 ≡ (c.second + 60 - suc n) % 60 = omega arith in
    let bucket = m.buckets_are (c.second + 60 - suc n) (omega arith) (omega arith) in
    let parts =
      sum_where_split (λ t. leb (c.second + 60 - suc n) (t + 60) && ltb t c.second)
        (λ t. leb (c.second + 60 - n) (t + 60) && ltb t c.second)
        (λ t. t + 60 == c.second + 60 - suc n) log (λ t b. one_more c.second n t b (omega arith)) in
    rw place (omega (arith, ih, bucket, parts))

-- The seconds of the last minute: the one in progress and the 59 before it.
abbrev pub in_last_minute : (second t : ℕ) → Bool
in_last_minute second t = ltb second (t + 60) && leb t second

the_last :
    (s t b : ℕ)
    → (if in_last_minute s t then b else 0)
      ≡ (if leb (s + 60 - 59) (t + 60) && ltb t s then b else 0)
        + (if t + 60 == s + 60 then b else 0)
the_last s t b = ground arith

minute_step :
    (n : ℕ) (c : Counter)
    → minute_sum (suc n) c
      ≡ minute_sum n c + c.buckets ((c.second + window_seconds * 2 - suc n) % window_seconds)
unfolding minute_sum
minute_step n c = refl

minute-Mirrors :
    (log : Log) (c : Counter)
    → Mirrors log c
    → minute_sum 60 c ≡ sum_where (in_last_minute c.second) log
minute-Mirrors log c m =
    let most = minute_sum_lem 59 log c m (omega arith) in
    let place : (c.second + 120 - 60) % 60 ≡ (c.second + 60) % 60 = omega arith in
    let bucket = m.buckets_are (c.second + 60) (omega arith) (omega arith) in
    let parts =
      sum_where_split (in_last_minute c.second)
        (λ t. leb (c.second + 60 - 59) (t + 60) && ltb t c.second) (λ t. t + 60 == c.second + 60)
        log (λ t b. the_last c.second t b) in
    minute_step 59 c ∙ rw place (omega (arith, most, bucket, parts))

figures_eq :
    {a a' b b' c c' d d' : ℕ}
    → a ≡ a'
    → b ≡ b'
    → c ≡ c'
    → d ≡ d'
    → Path TrafficFigures
        (record { packets = a; bytes = b; bytes_last_second = c; bytes_last_minute = d })
        (record { packets = a'; bytes = b'; bytes_last_second = c'; bytes_last_minute = d' })
figures_eq p q r s = rw (p, q, r, s) refl

last_second :
    (log : Log) (c : Counter)
    → Mirrors log c
    → c.buckets ((c.second + window_seconds - 1) % window_seconds)
      ≡ sum_where (λ t. t + 1 == c.second) log
last_second log c m =
    let place : (c.second + 60 - 1) % 60 ≡ (c.second + 59) % 60 = omega arith in
    ap c.buckets place
    ∙ m.buckets_are (c.second + 59) (omega arith) (omega arith)
    ∙ sum_where_ext _ _ log (λ t. same_second t c.second)
  where
    same_second : (t s : ℕ) → (t + 60 == s + 59) ≡ (t + 1 == s)
    same_second t s = ground arith

-- For times that never go back, a snapshot reports of a counter all the packets and bytes counted,
-- the bytes of the second before the one in progress, and those of the second in progress and the
-- 59 before it, as a sum over everything that was counted.
pub figures-sum_where :
    (now : ℕ) (log : Log)
    → IsOrdered log
    → All (λ entry. entry.0 ≤ now) log
    → (figures now (run log)).0 ≡ (record {
      packets = length log;
      bytes = sum_where (λ _. true) log;
      bytes_last_second = sum_where (λ t. t + 1 == now / 1000) log;
      bytes_last_minute = sum_where (in_last_minute (now / 1000)) log;
    })
unfolding figures
figures-sum_where now log h latest =
    let (m, before) = run-Mirrors log h in
    let (m', at) = advance_counter-Mirrors log (run log) (now / 1000) m (before now latest) in
    figures_eq m'.packets_are m'.bytes_are
      (last_second log (advance_counter (now / 1000) (run log)) m'
        ∙ ap (λ s. sum_where (λ t. t + 1 == s) log) at)
      (minute-Mirrors log (advance_counter (now / 1000) (run log)) m'
        ∙ ap (λ s. sum_where (in_last_minute s) log) at)
