-- ===== src/Tests/Maps.antt =====
-- A map with a number and an atom.
use swm_core.Prelude.{ℕ, List, [], ◌∷◌, ◌≡◌, refl, Bytes, codes, pos}
use swm_core.Numbers.{print_int}
use swm_core.Decode.{done}
use swm_core.Decode.Terms.{binary, string, small}
use swm_core.Decode.Maps.{to_map, atom_value, number_value, stop, next, to_map-AreEntries}
use swm_core.Tests.Buffers.{Cell, map_cell, bin_cell, text_cell, int_cell, atom_cell, cells}

abbrev buffer : List Cell
buffer =
    map_cell 2
    ∷ bin_cell (codes "cpu")
    ∷ int_cell (pos 4)
    ∷ text_cell (codes "kind")
    ∷ atom_cell (codes "spot")
    ∷ []

abbrev map_entries : List (Bytes × Bytes)
map_entries = (codes "cpu", print_int (pos 4)) ∷ (codes "kind", codes "spot") ∷ []

abbrev no_text : ℕ → Bytes
no_text d = []

to_map-AreEntries_example : to_map cells buffer 0 no_text 0 [] ≡ done 5 map_entries
to_map-AreEntries_example = to_map-AreEntries cells buffer 0 no_text map_entries 0 1 5 refl (
    next 2 3 (binary (1, refl) refl refl)
      (number_value (pos 4) (1, refl) (small (1, refl), refl) refl) tt
      (next 4 5 (string (1, refl) refl refl) (atom_value ((1, refl), refl, refl)) (refl, tt)
        (stop 5)))
