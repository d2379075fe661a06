-- ===== src/Tests/Entity/Process.antt =====
-- A process list in a buffer.
use swm_core.Prelude.{List, [], ◌∷◌, ◌≡◌, refl, inl, codes, pos, negsuc}
use swm_core.Decode.{done}
use swm_core.Decode.Terms.{binary, small, stop, next, cons}
use swm_core.Entity.Process.{Process, process_tuple, to_processes, to_processes-IsListOf}
use swm_core.Tests.Buffers.{
  Cell, tuple_cell, list_cell, atom_cell, bin_cell, int_cell, nil_cell, cells,
}

abbrev a_process : Process
a_process = record {
  pid = pos 1;
  state = codes "sta1";
  exitcode = pos 3;
  signal = negsuc 3;
  comment = codes "com4";
}

abbrev no_process : Process
no_process = record {
  pid = pos 999;
  state = [];
  exitcode = pos 999;
  signal = pos 999;
  comment = [];
}

abbrev buffer : List Cell
buffer =
    list_cell 1
    ∷ tuple_cell 6
    ∷ atom_cell (codes "process")
    ∷ int_cell (pos 1)
    ∷ bin_cell (codes "sta1")
    ∷ int_cell (pos 3)
    ∷ int_cell (negsuc 3)
    ∷ bin_cell (codes "com4")
    ∷ nil_cell
    ∷ []

to_processes-IsListOf_example : to_processes cells buffer no_process 0 [] ≡ done 9 (a_process ∷ [])
to_processes-IsListOf_example = to_processes-IsListOf cells buffer no_process (a_process ∷ []) 0 9 (
    cons 1 8 (1, refl) refl refl
      (next {j = 8}
        (process_tuple 3 4 5 6 7 (inl (1, refl), 6, 2, refl, refl) ((small (1, refl), refl))
          (binary (1, refl) refl refl) ((small (1, refl), refl)) ((small (1, refl), refl))
          (binary (1, refl) refl refl))
        (stop 8))
      refl)
