-- ===== src/Transport/Traffic/Tests.antt =====
-- Four packets, of which the first is more than a minute old in the end.
use teamspeak_js.Common.{◌+◌, ◌/◌, ◌==◌, ◌≡◌, refl, true, arith, [], ◌∷◌, length}
use teamspeak_js.Transport.Traffic.{figures}
use teamspeak_js.Transport.Traffic.Ring.{Log, sum_where, run}
use teamspeak_js.Transport.Traffic.Minute.{in_last_minute, figures-sum_where}

abbrev packets : Log
packets = (61_500, 8) ∷ (60_100, 4) ∷ (2_000, 2) ∷ (900, 1) ∷ []

figures-sum_where_example : (figures 61_900 (run packets)).0 ≡ (record {
  packets = length packets;
  bytes = sum_where (λ _. true) packets;
  bytes_last_second = sum_where (λ t. t + 1 == 61_900 / 1000) packets;
  bytes_last_minute = sum_where (in_last_minute (61_900 / 1000)) packets;
})
figures-sum_where_example =
    figures-sum_where 61_900 packets
      (
        (omega arith, (omega arith, (omega arith, tt))),
        ((omega arith, (omega arith, tt)), ((omega arith, tt), (tt, tt))),
      )
      (omega arith, (omega arith, (omega arith, (omega arith, tt))))

last_minute_test : sum_where (in_last_minute 61) packets ≡ 14
last_minute_test = refl
