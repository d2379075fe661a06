-- ===== src/Tests/Entity/Timetable.antt =====
-- A timetable list in a buffer.
use swm_core.Prelude.{List, [], ◌∷◌, ◌≡◌, refl, inl, codes, pos}
use swm_core.Decode.{done}
use swm_core.Decode.Terms.{binary, string, small, stop, next, cons}
use swm_core.Entity.Timetable.{Timetable, timetable_tuple, to_timetables, to_timetables-IsListOf}
use swm_core.Tests.Buffers.{
  Cell, tuple_cell, list_cell, atom_cell, text_cell, bin_cell, int_cell, nil_cell, cells,
}

abbrev a_timetable : Timetable
a_timetable = record {
  start_time = 7;
  job_id = codes "job1";
  job_nodes = codes "x" ∷ codes "y" ∷ [];
}

abbrev no_timetable : Timetable
no_timetable = record { start_time = 999; job_id = []; job_nodes = [] }

abbrev buffer : List Cell
buffer =
    list_cell 1
    ∷ tuple_cell 4
    ∷ atom_cell (codes "timetable")
    ∷ int_cell (pos 7)
    ∷ bin_cell (codes "job1")
    ∷ list_cell 2
    ∷ bin_cell (codes "x")
    ∷ text_cell (codes "y")
    ∷ nil_cell
    ∷ nil_cell
    ∷ []

to_timetables-IsListOf_example :
    to_timetables cells buffer no_timetable 0 [] ≡ done 10 (a_timetable ∷ [])
to_timetables-IsListOf_example =
    to_timetables-IsListOf cells buffer no_timetable (a_timetable ∷ []) 0 10 (
      cons 1 9 (1, refl) refl refl
        (next {j = 9}
          (timetable_tuple 3 4 5 (inl (1, refl), 4, 2, refl, refl) ((small (1, refl), refl))
            (binary (1, refl) refl refl)
            (cons 6 8 (1, refl) refl refl
              (next {j = 7} (binary (1, refl) refl refl)
                (next {j = 8} (string (1, refl) refl refl) (stop 8)))
              refl))
          (stop 9))
        refl)
