-- ===== src/Transport/Window/Place.antt =====
-- src/client/transport/generation-window.ts: the generation, the index and the class that the
-- window gives a packet near its base.
use native.Mathlib.Nat.{mul-le-mul_right}
use teamspeak_js.Common.{
  ℕ, suc, ◌+◌, ◌*◌, ◌≤◌, ◌<◌, ◌&&◌, not, ◌≡◌, ◌⊎◌, ltb, leb, sub_ℕ, pos_part-sub_ℕ, neg_part-sub_ℕ,
  ltb_ℤ_sub_pos, ltb_ℤ_pos_sub, leb_ℤ_pos_sub, leb_ℤ_sub_sub, -ℤ_sub_ℕ, sub_ℕ_eq, ap, arith,
}
use teamspeak_js.Transport.Window.{
  Window, create, is_in_window, mapped_to_index, is_next_gen, is_behind_across_wrap, is_old_packet,
  is_future_packet, get_generation,
}

-- The base lies in the id space, which is at least twice the receive window.
pub record IsValid (w : Window) : Type 0 where
  pub base_in : w.mapped_base_offset < w.modulus
  pub positive : 0 < w.receive_window
  pub half : w.receive_window + w.receive_window ≤ w.modulus

-- The number of the packet at the base, counted from the start of the connection.
abbrev pub position : Window → ℕ
position w = w.generation * w.modulus + w.mapped_base_offset

pub create-IsValid : (m size : ℕ) → 0 < size → size + size ≤ m → IsValid (create m size)
unfolding create
create-IsValid m size p q = omega arith

-- Generations two apart are at least two moduli apart.
pub far_generations : (m g h : ℕ) → h + 2 ≤ g → h * m + m + m ≤ g * m
far_generations m g h p = omega (arith, mul-le-mul_right {m = h + 2} {n = g} m p)

next_generation : (m g h : ℕ) → suc h ≡ g → h * m + m ≡ g * m
next_generation m g h p = omega (arith, ap (λ (t : ℕ). t * m) p)

-- A packet number within half the id space of the base is in the base's generation or next to it.
near_generations :
    (m g h a b : ℕ)
    → a < m
    → b < m
    → h * m + b < g * m + a + m
    → g * m + a < h * m + b + m
    → (g ≡ h) ⊎ (suc h ≡ g) ⊎ (suc g ≡ h)
near_generations m g h a b p q r s = ground (arith, far_generations m g h, far_generations m h g)

-- `v` is the id of the packet whose number is `g * modulus + v`, and that number is less than a
-- receive window above the base, or at most one below it.
pub record Near (w : Window) (g v : ℕ) : Type 0 where
  pub id_in : v < w.modulus
  pub not_below : position w ≤ g * w.modulus + v + w.receive_window
  pub not_above : g * w.modulus + v < position w + w.receive_window

module _ (w : Window) (v : ℕ) where
  is_next_gen_lem : is_next_gen w v ≡ (
      ltb w.modulus (w.receive_window + w.mapped_base_offset)
      && ltb (v + w.modulus) (w.mapped_base_offset + w.receive_window))
  unfolding is_next_gen
  is_next_gen_lem = rw (ltb_ℤ_sub_pos, ltb_ℤ_pos_sub)

  is_behind_lem : is_behind_across_wrap w (sub_ℕ v w.mapped_base_offset) ≡ (
      ltb 0 w.generation
      && leb (w.receive_window + w.mapped_base_offset) v
      && leb (w.modulus + w.mapped_base_offset) (v + w.receive_window))
  unfolding is_behind_across_wrap
  is_behind_lem = rw (leb_ℤ_pos_sub, leb_ℤ_sub_sub)

  -- Of every id exactly one of "old", "in the window" and "future" holds.
  pub classes :
      IsValid w
      → v < w.modulus
      → is_in_window w v ≡ (not (is_old_packet w v) && not (is_future_packet w v))
  unfolding is_old_packet is_in_window is_future_packet mapped_to_index
  classes i n =
      rw (is_next_gen_lem, is_behind_lem, -ℤ_sub_ℕ)
        (ground (
          arith,
          pos_part-sub_ℕ (v + w.modulus) w.mapped_base_offset,
          neg_part-sub_ℕ (v + w.modulus) w.mapped_base_offset,
          pos_part-sub_ℕ v (w.mapped_base_offset + w.modulus),
          neg_part-sub_ℕ v (w.mapped_base_offset + w.modulus),
          pos_part-sub_ℕ v w.mapped_base_offset,
          neg_part-sub_ℕ v w.mapped_base_offset,
        ))

module _ (w : Window) (g v : ℕ) where
  generations :
      IsValid w → Near w g v → (g ≡ w.generation) ⊎ (suc w.generation ≡ g) ⊎ (suc g ≡ w.generation)
  generations i n =
      near_generations w.modulus g w.generation v w.mapped_base_offset n.id_in i.base_in
        (omega (arith, n, i)) (omega (arith, n, i))

  -- A packet near the base is given its own generation.
  pub get_generation_lem : IsValid w → Near w g v → get_generation w v ≡ g
  unfolding get_generation
  get_generation_lem i n =
      rw (is_next_gen_lem w v, is_behind_lem w v)
        (ground (
          arith,
          generations i n,
          next_generation w.modulus g w.generation,
          next_generation w.modulus w.generation g,
        ))

  -- Its index is its distance from the base, negative for one behind it.
  pub mapped_to_index_lem :
      IsValid w → Near w g v → mapped_to_index w v ≡ sub_ℕ (g * w.modulus + v) (position w)
  unfolding mapped_to_index
  mapped_to_index_lem i n =
      rw (is_next_gen_lem w v, is_behind_lem w v, -ℤ_sub_ℕ)
        (ground (
          arith,
          generations i n,
          next_generation w.modulus g w.generation,
          next_generation w.modulus w.generation g,
          sub_ℕ_eq (v + w.modulus) w.mapped_base_offset (g * w.modulus + v) (position w),
          sub_ℕ_eq v (w.mapped_base_offset + w.modulus) (g * w.modulus + v) (position w),
          sub_ℕ_eq v w.mapped_base_offset (g * w.modulus + v) (position w),
        ))
