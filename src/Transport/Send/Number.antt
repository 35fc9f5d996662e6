-- ===== src/Transport/Send/Number.antt =====
-- src/client/transport/handler.ts, `#nextPacketIdentity`: the numbers of packets, for each type.
use teamspeak_js.Common.{
  ℕ, ◌+◌, ◌%◌, ◌/◌, ◌^◌, ◌≡◌, ◌≢◌, ◌∙◌, ◌==◌, arith, ap, ==-false, if◌then◌else◌,
}
use mathlib.Core.Path.{ap₂}
use teamspeak_js.Transport.Packet.{init1}
use teamspeak_js.Transport.Send.{Sender, follow, next_packet_identity, write_counter, count}

-- The next packet of a type is its packet number `n`: the counters hold the number's last 16 bits
-- and the 32 bits before them.
pub record IsAt (p_type n : ℕ) (s : Sender) : Type 0 where
  pub id_at : s.packet_counter p_type ≡ n % 0x10000
  pub generation_at : s.generation_counter p_type ≡ n / 0x10000 % 2 ^ 32

-- Identities of packet numbers.
abbrev pub identity : ℕ → ℕ × ℕ
identity n = (n % 0x10000, n / 0x10000 % 2 ^ 32)

next_generation :
    (n gen : ℕ)
    → gen ≡ n / 0x10000 % 2 ^ 32
    → (if (n % 0x10000 + 1) % 0x10000 == 0 then (gen + 1) % 2 ^ 32 else gen)
      ≡ (n + 1) / 0x10000 % 2 ^ 32
next_generation n gen h = ground arith

-- A packet type that counts, and the counters after one more packet of it.
module _ (p_type : ℕ) where
  counter_here : (counter : ℕ → ℕ) (n : ℕ) → write_counter counter p_type n p_type ≡ n
  counter_here counter n = ground arith

  counter_there :
      (counter : ℕ → ℕ) (n u : ℕ) → u ≢ p_type → write_counter counter p_type n u ≡ counter u
  counter_there counter n u h = ground arith

  follow_keeps :
      (id : ℕ) (s : Sender)
      → ((follow p_type id s).packet_counter ≡ s.packet_counter)
        × ((follow p_type id s).generation_counter ≡ s.generation_counter)
        × ((follow p_type id s).written ≡ s.written)
        × ((follow p_type id s).is_open ≡ s.is_open)
        × ((follow p_type id s).client_id ≡ s.client_id)
  unfolding follow
  follow_keeps id s = ground arith

  follow-IsAt : (id u m : ℕ) (s : Sender) → IsAt u m s → IsAt u m (follow p_type id s)
  follow-IsAt id u m s at =
      let (ids, gens, _, _, _) = follow_keeps id s in
      record {
        id_at = ap (λ c. c u) ids ∙ at.id_at;
        generation_at = ap (λ c. c u) gens ∙ at.generation_at;
      }

  pub count-IsAt : (n : ℕ) (s : Sender) → IsAt p_type n s → IsAt p_type (n + 1) (count p_type s)
  unfolding count
  count-IsAt n s at = record {
    id_at = counter_here s.packet_counter _ ∙ omega (arith, at.id_at);
    generation_at =
        counter_here s.generation_counter _ ∙ rw at.id_at (next_generation n _ at.generation_at);
  }

  count-IsAt_other : (u m : ℕ) (s : Sender) → u ≢ p_type → IsAt u m s → IsAt u m (count p_type s)
  unfolding count
  count-IsAt_other u m s h at = record {
    id_at = counter_there s.packet_counter _ u h ∙ at.id_at;
    generation_at = counter_there s.generation_counter _ u h ∙ at.generation_at;
  }

-- One more packet of a type, and the counters of that type and of the others.
pub next_packet_identity-IsAt :
    (p_type n : ℕ) (s : Sender)
    → p_type ≢ init1
    → IsAt p_type n s
    → ((next_packet_identity p_type s).0 ≡ identity n)
      × IsAt p_type (n + 1) (next_packet_identity p_type s).1
      × ((u m : ℕ) → u ≢ p_type → IsAt u m s → IsAt u m (next_packet_identity p_type s).1)
unfolding next_packet_identity
next_packet_identity-IsAt p_type n s h at = rw (==-false p_type init1 h) (
  ap₂ (λ id gen. (id, gen)) at.id_at at.generation_at,
  follow-IsAt p_type _ p_type (n + 1) (count p_type s) (count-IsAt p_type n s at),
  λ u m other there.
      follow-IsAt p_type _ u m (count p_type s) (count-IsAt_other p_type u m s other there),
)

-- Numbering changes neither the client's id nor what was written.
pub next_packet_identity_keeps :
    (p_type : ℕ) (s : Sender)
    → ((next_packet_identity p_type s).1.written ≡ s.written)
      × ((next_packet_identity p_type s).1.is_open ≡ s.is_open)
      × ((next_packet_identity p_type s).1.client_id ≡ s.client_id)
unfolding next_packet_identity follow count
next_packet_identity_keeps p_type s = ground arith

-- Packet number `n` of a type other than Init1 gets its number's id and generation, and the next
-- one of the type is number `n + 1`; the next number of any other type stays.
pub next_packet_identity_lem :
    (p_type n u m : ℕ) (s : Sender)
    → p_type ≢ init1
    → IsAt p_type n s
    → u ≢ p_type
    → IsAt u m s
    → ((next_packet_identity p_type s).0 ≡ identity n)
      × IsAt p_type (n + 1) (next_packet_identity p_type s).1
      × IsAt u m (next_packet_identity p_type s).1
next_packet_identity_lem p_type n u m s counts at other there =
    let (is, next_is, others) = next_packet_identity-IsAt p_type n s counts at in
    (is, next_is, others u m other there)
