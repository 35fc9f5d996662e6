-- ===== src/Transport/Traffic.antt =====
-- src/client/transport/traffic.ts: the counters of a connection. Times are whole milliseconds that
-- do not go back, and a bucket holds a natural number of bytes. The average over the last minute is
-- given here as the sum that the code divides by 60, and of
-- `RoundTripEstimator` only the samples are: its mean and its deviation are floating-point numbers.
pub mod Ring
pub mod Minute
mod Tests
use teamspeak_js.Common.{
  ℕ, zero, suc, ◌+◌, ◌-◌, ◌*◌, ◌/◌, ◌%◌, min, Bool, ◌||◌, leb, ltb, ◌==◌, if◌then◌else◌, List, [],
  ◌∷◌, ◌++◌, length, drop,
}
use teamspeak_js.Transport.Packet.{voice, voice_whisper, ping, pong}

-- `TrafficClass`.
pub data TrafficClass : Type 0 where
  speech keepalive control : TrafficClass

-- `trafficClassOf`.
unfoldable pub traffic_class_of : ℕ → TrafficClass
traffic_class_of p_type =
    if (p_type == voice) || (p_type == voice_whisper)
    then speech
    else if (p_type == ping) || (p_type == pong)
    then keepalive
    else control

-- `TrafficFigures`, with the minute as a sum.
pub record TrafficFigures : Type 0 where
  pub packets : ℕ
  pub bytes : ℕ
  pub bytes_last_second : ℕ
  pub bytes_last_minute : ℕ

abbrev pub window_seconds : ℕ
window_seconds = 60

-- `Counter`; the buckets as a function of the index, which is below 60.
pub record Counter : Type 0 where
  pub packets : ℕ
  pub bytes : ℕ
  pub buckets : ℕ → ℕ
  pub second : ℕ

abbrev pub new_counter : Counter
new_counter = record { packets = 0; bytes = 0; buckets = λ _. 0; second = 0 }

-- A write to one bucket.
abbrev pub write_bucket : (ℕ → ℕ) → ℕ → ℕ → ℕ → ℕ
write_bucket buckets i v j = if j == i then v else buckets j

-- The loop of `advance`, for `i` from 1 to the gap.
unfoldable pub clear_buckets : (second gap : ℕ) → (ℕ → ℕ) → ℕ → ℕ
clear_buckets second zero buckets = buckets
clear_buckets second (suc gap) buckets =
    write_bucket (clear_buckets second gap buckets) ((second + suc gap) % window_seconds) 0

-- `advance`.
unfoldable pub advance_counter : ℕ → Counter → Counter
advance_counter second c = if leb second c.second then c else record c {
  buckets = clear_buckets c.second (min (second - c.second) window_seconds) c.buckets;
  second = second;
}

-- `#add`.
unfoldable pub add_bytes : (bytes now : ℕ) → Counter → Counter
add_bytes bytes now c =
    let c' = advance_counter (now / 1000) c in
    let at = c'.second % window_seconds in
    record c' {
      packets = c'.packets + 1;
      bytes = c'.bytes + bytes;
      buckets = write_bucket c'.buckets at (c'.buckets at + bytes);
    }

-- The loop of `read` over the minute, for `i` from 1 to `n`.
unfoldable pub minute_sum : ℕ → Counter → ℕ
minute_sum zero c = 0
minute_sum (suc n) c =
    minute_sum n c + c.buckets ((c.second + window_seconds * 2 - suc n) % window_seconds)

-- One round of `read` in `snapshot`: the figures, and the counter after it.
unfoldable pub figures : ℕ → Counter → TrafficFigures × Counter
figures now c =
    let c' = advance_counter (now / 1000) c in
    let previous = (c'.second + window_seconds - 1) % window_seconds in
    (
      record {
        packets = c'.packets;
        bytes = c'.bytes;
        bytes_last_second = c'.buckets previous;
        bytes_last_minute = minute_sum window_seconds c';
      },
      c',
    )

-- `TrafficMeter`: a counter for each class and direction.
pub record TrafficMeter : Type 0 where
  pub sent : TrafficClass → Counter
  pub received : TrafficClass → Counter

-- A change of one counter.
abbrev pub change :
    (TrafficClass → Counter) → TrafficClass → (Counter → Counter) → TrafficClass → Counter
change counters speech f speech = f (counters speech)
change counters keepalive f keepalive = f (counters keepalive)
change counters control f control = f (counters control)
change counters _ f other = counters other

-- `recordSent` and `recordReceived`.
unfoldable pub record_sent : (p_type bytes now : ℕ) → TrafficMeter → TrafficMeter
record_sent p_type bytes now m = record m {
  sent = change m.sent (traffic_class_of p_type) (add_bytes bytes now);
}

unfoldable pub record_received : (p_type bytes now : ℕ) → TrafficMeter → TrafficMeter
record_received p_type bytes now m = record m {
  received = change m.received (traffic_class_of p_type) (add_bytes bytes now);
}

-- `snapshot`: the figures of each class in both directions, and the meter after it.
unfoldable pub snapshot :
    ℕ
    → TrafficMeter
    → (TrafficClass → TrafficFigures) × (TrafficClass → TrafficFigures) × TrafficMeter
snapshot now m = (
  λ class. (figures now (m.sent class)).0,
  λ class. (figures now (m.received class)).0,
  record {
    sent = λ class. (figures now (m.sent class)).1;
    received = λ class. (figures now (m.received class)).1;
  },
)

-- `RoundTripEstimator.add`, on the samples.
unfoldable pub add_sample : ℕ → List ℕ → List ℕ
add_sample ms samples =
    let more = samples ++ ms ∷ [] in if ltb 10 (length more) then drop 1 more else more
