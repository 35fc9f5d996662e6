-- ===== src/Transport/Window/Follow.antt =====
-- src/client/transport/generation-window.ts: a window that follows the packets that arrive.
use native.Mathlib.Nat.{div-add-mod, add-mul, mul_comm}
use mathlib.Core.Path.{ap₂}
use native.Mathlib.Decide.{dec_lt}
use teamspeak_js.Common.{
  ℕ, ◌+◌, ◌-◌, ◌*◌, ◌/◌, ◌%◌, ◌≤◌, ◌<◌, max, List, [], ◌∷◌, ◌≡◌, refl, sym, pos, sub_ℕ_pos,
  ltb_ℤ_sub_pos, +ℤ_sub_ℕ, arith,
}
use teamspeak_js.Transport.Window.{
  Window, max_u32, advance_by, advance, advance_after, get_generation,
}
use teamspeak_js.Transport.Window.Place.{
  IsValid, position, far_generations, Near, get_generation_lem, mapped_to_index_lem,
}

-- The window after a move, with what a move keeps.
pub record Moved (w w' : Window) (n : ℕ) : Type 0 where
  pub valid : IsValid w'
  pub at : position w' ≡ n
  pub same_modulus : w'.modulus ≡ w.modulus
  pub same_window : w'.receive_window ≡ w.receive_window

position_split : (g m b n : ℕ) → 0 < m → (g + (b + n) / m) * m + (b + n) % m ≡ g * m + b + n
position_split g m b n h =
    omega (arith, div-add-mod (b + n) m, add-mul g ((b + n) / m) m, mul_comm ((b + n) / m) m)

advance_by-Moved :
    (w : Window) (n : ℕ)
    → IsValid w
    → w.generation + (w.mapped_base_offset + n) / w.modulus ≤ max_u32
    → Moved w (advance_by w n) (position w + n)
unfolding advance_by
advance_by-Moved w n i h =
    ground (arith, position_split w.generation w.modulus w.mapped_base_offset n)

advance-pos : (w : Window) (n : ℕ) → 0 < n → advance w (pos n) ≡ advance_by w n
unfolding advance
advance-pos w n h = ground arith

-- The generation after a move to at most the end of generation `g` is at most one more.
generation_bound :
    (w : Window) (n g : ℕ)
    → 0 < w.modulus
    → position w + n ≤ g * w.modulus + w.modulus
    → w.generation + (w.mapped_base_offset + n) / w.modulus ≤ g + 1
generation_bound w n g p q = ground (
  arith,
  position_split w.generation w.modulus w.mapped_base_offset n p,
  far_generations w.modulus (w.generation + (w.mapped_base_offset + n) / w.modulus) g,
)

module _ {w : Window} (g v : ℕ) where
  pub advance_after_old :
      IsValid w → Near w g v → g * w.modulus + v < position w → advance_after w v ≡ w
  unfolding advance_after
  advance_after_old i n h = rw (mapped_to_index_lem w g v i n, ltb_ℤ_sub_pos) (ground arith)

  advance_after_new :
      IsValid w
      → Near w g v
      → position w ≤ g * w.modulus + v
      → advance_after w v ≡ advance w (pos (g * w.modulus + v + 1 - position w))
  unfolding advance_after
  advance_after_new i n h =
      rw
        (
          mapped_to_index_lem w g v i n,
          ltb_ℤ_sub_pos,
          +ℤ_sub_ℕ,
          sub_ℕ_pos (g * w.modulus + v + 1) (position w) (omega arith),
        )
        (ground arith)

  advance-Moved :
      IsValid w
      → v < w.modulus
      → g < max_u32
      → position w ≤ g * w.modulus + v
      → Moved w (advance w (pos (g * w.modulus + v + 1 - position w))) (g * w.modulus + v + 1)
  advance-Moved i p h q =
      let n = g * w.modulus + v + 1 - position w in
      let fits = generation_bound w n g (omega arith) (omega arith) in
      rw (advance-pos w n (omega arith)) (omega (arith, advance_by-Moved w n i (omega arith)))

  -- The base moves just past the packet, unless the packet is behind it.
  pub advance_after-Moved :
      IsValid w
      → Near w g v
      → g < max_u32
      → Moved w (advance_after w v) (max (position w) (g * w.modulus + v + 1))
  advance_after-Moved i n h = elim (dec_lt (g * w.modulus + v) (position w)) [
    | yes old ↦ rw (advance_after_old i n old) (omega arith)
    | no new ↦
        rw (advance_after_new i n (omega arith))
          (omega (arith, advance-Moved i n.id_in h (omega arith)))
  ]

-- Packets that arrive in any order, each less than a receive window from the newest so far (`top`
-- is one more than the newest packet number). A packet is a generation and an id.
abbrev pub Arrives : (m r top : ℕ) → List (ℕ × ℕ) → Type 0
Arrives m r top [] = Unit
Arrives m r top ((g, v) ∷ ps) =
    (v < m)
    × (g < max_u32)
    × (top ≤ g * m + v + r)
    × (g * m + v < top + r)
    × Arrives m r (max top (g * m + v + 1)) ps

Arrives-at :
    (ps : List (ℕ × ℕ)) {m m' r r' t t' : ℕ}
    → m ≡ m'
    → r ≡ r'
    → t ≡ t'
    → Arrives m r t ps
    → Arrives m' r' t' ps
Arrives-at ps em er et a = rw (← em, ← er, ← et) a

-- What the receive path does with the ids of non-command packets: each is given its generation by
-- `#resolveGeneration`, and then `#advanceReceiveGeneration` moves the window past it.
pub place_all : Window → List ℕ → List ℕ
place_all w [] = []
place_all w (v ∷ vs) = get_generation w v ∷ place_all (advance_after w v) vs

abbrev pub ids : List (ℕ × ℕ) → List ℕ
ids [] = []
ids ((g, v) ∷ ps) = v ∷ ids ps

abbrev pub generations : List (ℕ × ℕ) → List ℕ
generations [] = []
generations ((g, v) ∷ ps) = g ∷ generations ps

-- Every packet is given its own generation on arrival, however the packets were reordered,
-- repeated or lost, as long as each number is less than a receive window from the newest so far.
pub place_all_lem :
    (ps : List (ℕ × ℕ)) (w : Window)
    → IsValid w
    → Arrives w.modulus w.receive_window (position w) ps
    → place_all w (ids ps) ≡ generations ps
unfolding place_all
place_all_lem [] w i a = refl
place_all_lem ((g, v) ∷ ps) w i (p, h, below, above, a) =
    let near : Near w g v = record { id_in = p; not_below = below; not_above = above } in
    let moved = advance_after-Moved g v i near h in
    ap₂ ◌∷◌ (get_generation_lem w g v i near) (
      place_all_lem ps (advance_after w v) moved.valid
        (Arrives-at ps (sym moved.same_modulus) (sym moved.same_window) (sym moved.at) a))
