-- ===== src/Tests/Entity/Scheduler.antt =====
-- A scheduler list in a buffer.
use swm_core.Prelude.{List, [], ◌∷◌, ◌≡◌, refl, inl, codes, pos}
use swm_core.Decode.{done}
use swm_core.Decode.Terms.{binary, string, small, stop, next, cons}
use swm_core.Entity.Scheduler.{Scheduler, scheduler_tuple, to_schedulers, to_schedulers-IsListOf}
use swm_core.Entity.Executable.{executable_tuple}
use swm_core.Tests.Buffers.{
  Cell, tuple_cell, list_cell, atom_cell, text_cell, bin_cell, int_cell, nil_cell, cells,
}

abbrev a_scheduler : Scheduler
a_scheduler = record {
  id = 7;
  name = codes "nam1";
  state = codes "stat";
  start_time = codes "sta3";
  stop_time = codes "sto4";
  run_interval = 12;
  path = record {
    name = codes "nam0";
    path = codes "pat1";
    user = codes "use2";
    comment = codes "com3";
    revision = 11;
  };
  family = codes "fam7";
  version = codes "ver8";
  cu = 16;
  comment = codes "com10";
  revision = 18;
}

abbrev no_scheduler : Scheduler
no_scheduler = record {
  id = 999;
  name = [];
  state = [];
  start_time = [];
  stop_time = [];
  run_interval = 999;
  path = record { name = []; path = []; user = []; comment = []; revision = 999 };
  family = [];
  version = [];
  cu = 999;
  comment = [];
  revision = 999;
}

abbrev buffer : List Cell
buffer =
    list_cell 1
    ∷ tuple_cell 13
    ∷ atom_cell (codes "scheduler")
    ∷ int_cell (pos 7)
    ∷ bin_cell (codes "nam1")
    ∷ atom_cell (codes "stat")
    ∷ bin_cell (codes "sta3")
    ∷ bin_cell (codes "sto4")
    ∷ int_cell (pos 12)
    ∷ tuple_cell 6
    ∷ atom_cell (codes "executable")
    ∷ bin_cell (codes "nam0")
    ∷ bin_cell (codes "pat1")
    ∷ text_cell (codes "use2")
    ∷ bin_cell (codes "com3")
    ∷ int_cell (pos 11)
    ∷ bin_cell (codes "fam7")
    ∷ text_cell (codes "ver8")
    ∷ int_cell (pos 16)
    ∷ bin_cell (codes "com10")
    ∷ int_cell (pos 18)
    ∷ nil_cell
    ∷ []

to_schedulers-IsListOf_example :
    to_schedulers cells buffer no_scheduler 0 [] ≡ done 22 (a_scheduler ∷ [])
to_schedulers-IsListOf_example =
    to_schedulers-IsListOf cells buffer no_scheduler (a_scheduler ∷ []) 0 22 (
      cons 1 21 (1, refl) refl refl
        (next {j = 21}
          (scheduler_tuple 3 4 5 6 7 8 9 16 17 18 19 20 (inl (1, refl), 13, 2, refl, refl)
            ((small (1, refl), refl)) (binary (1, refl) refl refl) (((1, refl), refl, refl))
            (binary (1, refl) refl refl) (binary (1, refl) refl refl) ((small (1, refl), refl))
            (executable_tuple 11 12 13 14 15 (inl (1, refl), 6, 10, refl, refl)
              (binary (1, refl) refl refl) (binary (1, refl) refl refl) (string (1, refl) refl refl)
              (binary (1, refl) refl refl) ((small (1, refl), refl)))
            (binary (1, refl) refl refl) (string (1, refl) refl refl) ((small (1, refl), refl))
            (binary (1, refl) refl refl) ((small (1, refl), refl)))
          (stop 21))
        refl)
