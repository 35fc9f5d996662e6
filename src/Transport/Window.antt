-- ===== src/Transport/Window.antt =====
-- src/client/transport/generation-window.ts: the window that places a 16-bit packet id in its
-- generation. The JavaScript numbers of the class are whole and stay far below 2^53, so they are
-- natural numbers here, and the differences that may be negative are integers.
pub mod Place
pub mod Follow
mod Tests
use teamspeak_js.Common.{
  ℕ, ◌+◌, ◌-◌, ◌/◌, ◌%◌, min, Bool, ◌&&◌, ◌||◌, ltb, leb, if◌then◌else◌, ℤ, pos, pos_part, sub_ℕ,
  ltb_ℤ, leb_ℤ, ◌-ℤ◌, ◌+ℤ◌,
}

-- `GenerationWindow`.
pub record Window : Type 0 where
  pub modulus : ℕ
  pub receive_window : ℕ
  pub mapped_base_offset : ℕ
  pub generation : ℕ

abbrev pub max_u32 : ℕ
max_u32 = 0xffff_ffff

-- The constructor.
unfoldable pub create : ℕ → ℕ → Window
create m size = record {
  modulus = m;
  receive_window = size;
  mapped_base_offset = 0;
  generation = 0;
}

-- `advance` behind its guard: the amount is positive.
advance_by : Window → ℕ → Window
advance_by w amount =
    let new_base_offset = w.mapped_base_offset + amount in
    let gen_step = new_base_offset / w.modulus in
    record w {
      generation = if ltb 0 gen_step then min (w.generation + gen_step) max_u32 else w.generation;
      mapped_base_offset = new_base_offset % w.modulus;
    }

-- `advance`.
unfoldable pub advance : Window → ℤ → Window
unfolding advance_by
advance w amount = if leb_ℤ amount (pos 0) then w else advance_by w (pos_part amount)

-- `moveDist` of `advanceToExcluded` and `syncTo`.
abbrev move_dist : Window → ℕ → ℤ
move_dist w mapped_value =
    let d = sub_ℕ mapped_value w.mapped_base_offset in
    if ltb_ℤ d (pos 0) then d +ℤ pos w.modulus else d

-- `advanceToExcluded`.
unfoldable pub advance_to_excluded : Window → ℕ → Window
unfolding advance
advance_to_excluded w mapped_value = advance w (move_dist w mapped_value +ℤ pos 1)

-- `syncTo`.
unfoldable pub sync_to : Window → ℕ → Window
unfolding advance
sync_to w mapped_value = advance w (move_dist w mapped_value)

-- `isInWindow`.
unfoldable pub is_in_window : Window → ℕ → Bool
is_in_window w mapped_value =
    let max_offset = w.mapped_base_offset + w.receive_window in
    if ltb max_offset w.modulus
    then leb w.mapped_base_offset mapped_value && ltb mapped_value max_offset
    else leb w.mapped_base_offset mapped_value || ltb mapped_value (max_offset - w.modulus)

-- `#isNextGen`.
is_next_gen : Window → ℕ → Bool
is_next_gen w mapped_value =
    ltb_ℤ (sub_ℕ w.modulus w.receive_window) (pos w.mapped_base_offset)
    && ltb_ℤ (pos mapped_value) (sub_ℕ (w.mapped_base_offset + w.receive_window) w.modulus)

-- `#isBehindAcrossWrap`.
is_behind_across_wrap : Window → ℤ → Bool
is_behind_across_wrap w index =
    ltb 0 w.generation
    && leb_ℤ (pos w.receive_window) index
    && leb_ℤ (sub_ℕ w.modulus w.receive_window) index

-- `mappedToIndex`.
unfoldable pub mapped_to_index : Window → ℕ → ℤ
unfolding is_next_gen is_behind_across_wrap
mapped_to_index w mapped_value =
    let index = sub_ℕ mapped_value w.mapped_base_offset in
    if is_next_gen w mapped_value
    then sub_ℕ (mapped_value + w.modulus) w.mapped_base_offset
    else if is_behind_across_wrap w index
    then index -ℤ pos w.modulus
    else index

-- `advanceAfter`.
unfoldable pub advance_after : Window → ℕ → Window
unfolding advance mapped_to_index
advance_after w mapped_value =
    let index = mapped_to_index w mapped_value in
    if ltb_ℤ index (pos 0) then w else advance w (index +ℤ pos 1)

-- `isOldPacket`.
unfoldable pub is_old_packet : Window → ℕ → Bool
unfolding mapped_to_index
is_old_packet w mapped_value = ltb_ℤ (mapped_to_index w mapped_value) (pos 0)

-- `isFuturePacket`.
unfoldable pub is_future_packet : Window → ℕ → Bool
unfolding mapped_to_index
is_future_packet w mapped_value = leb_ℤ (pos w.receive_window) (mapped_to_index w mapped_value)

-- `getGeneration`. The generation is positive in the branch that subtracts from it.
unfoldable pub get_generation : Window → ℕ → ℕ
unfolding is_next_gen is_behind_across_wrap
get_generation w mapped_value =
    if is_next_gen w mapped_value
    then w.generation + 1
    else if is_behind_across_wrap w (sub_ℕ mapped_value w.mapped_base_offset)
    then w.generation - 1
    else w.generation

-- `reset`.
unfoldable pub reset : Window → Window
reset w = record w { mapped_base_offset = 0; generation = 0 }
