-- ===== src/Transport/Window/Tests.antt =====
-- Windows of the handler's sizes on concrete ids, and the theorems about them at such inputs.
use teamspeak_js.Common.{
  ℕ, List, [], ◌∷◌, ◌≡◌, refl, true, ◌&&◌, not, ◌*◌, ◌+◌, max, sub_ℕ, ◌+ℤ◌, ◌-ℤ◌, arith,
}
use teamspeak_js.Transport.Window.{
  Window, create, advance_after, advance_to_excluded, sync_to, reset, get_generation, is_in_window,
  is_old_packet, is_future_packet, mapped_to_index,
}
use teamspeak_js.Transport.Window.Place.{
  IsValid, position, get_generation_lem, mapped_to_index_lem, classes,
}
use teamspeak_js.Transport.Window.Follow.{
  Moved, place_all, ids, generations, place_all_lem, advance_after-Moved,
}

-- The window of a command queue in generation 3, ten ids before the wrap.
abbrev late : Window
late = record { modulus = 65536; receive_window = 1024; mapped_base_offset = 65526; generation = 3 }

-- The same a little after the wrap.
abbrev early : Window
early = record { modulus = 65536; receive_window = 1024; mapped_base_offset = 5; generation = 4 }

late-IsValid : IsValid late
late-IsValid = omega arith

early-IsValid : IsValid early
early-IsValid = omega arith

wraps :
    (get_generation late 7 ≡ 4)
    × (get_generation late 65530 ≡ 3)
    × (get_generation early 65530 ≡ 3)
    × (is_in_window late 7 ≡ true)
    × (is_old_packet early 65530 ≡ true)
    × (is_future_packet early 2000 ≡ true)
unfolding get_generation is_in_window is_old_packet is_future_packet sub_ℕ ◌-ℤ◌
wraps = (refl, refl, refl, refl, refl, refl)

moves :
    (advance_to_excluded late 3 ≡ record late { mapped_base_offset = 4; generation = 4 })
    × (sync_to late 3 ≡ record late { mapped_base_offset = 3; generation = 4 })
    × (advance_after early 65530 ≡ early)
    × (reset early ≡ create 65536 1024)
unfolding advance_to_excluded sync_to advance_after reset create ◌+ℤ◌ ◌-ℤ◌
moves = (refl, refl, refl, refl)

get_generation_lem_example : get_generation late 7 ≡ 4
get_generation_lem_example =
    get_generation_lem late 4 7 late-IsValid
      (record { id_in = omega arith; not_below = omega arith; not_above = omega arith })

mapped_to_index_lem_example :
    mapped_to_index early 65530 ≡ sub_ℕ (3 * 65536 + 65530) (position early)
mapped_to_index_lem_example =
    mapped_to_index_lem early 3 65530 early-IsValid
      (record { id_in = omega arith; not_below = omega arith; not_above = omega arith })

classes_example :
    is_in_window late 7 ≡ (not (is_old_packet late 7) && not (is_future_packet late 7))
classes_example = classes late 7 late-IsValid (omega arith)

advance_after-Moved_example :
    Moved late (advance_after late 7) (max (position late) (4 * 65536 + 7 + 1))
advance_after-Moved_example =
    advance_after-Moved 4 7 late-IsValid
      (record { id_in = omega arith; not_below = omega arith; not_above = omega arith })
      (omega arith)

-- Reordered and repeated packets round the wrap.
abbrev arrivals : List (ℕ × ℕ)
arrivals = (3, 65530) ∷ (4, 2) ∷ (3, 65535) ∷ (4, 2) ∷ (4, 900) ∷ []

place_all_lem_example : place_all late (ids arrivals) ≡ generations arrivals
place_all_lem_example = place_all_lem arrivals late late-IsValid (omega arith)
