-- ===== src/Tests/Entity/Job.antt =====
-- A job list in a buffer.
use swm_core.Prelude.{ℕ, List, [], ◌∷◌, ◌≡◌, refl, inl, codes, pos}
use swm_core.Decode.{done}
use swm_core.Decode.Terms.{binary, small, stop, next, nil, cons}
use swm_core.Decode.Maps.{atom_value}
use swm_core.Decode.Maps.AreEntries.{next as map_next, stop as map_stop}
use swm_core.Entity.Resource.{resource_of, no_resources, IsResource}
use swm_core.Tests.Buffers.{
  Cell, tuple_cell, list_cell, map_cell, atom_cell, bin_cell, int_cell, nil_cell, cells,
}
use swm_core.Entity.Job.{Job, to_jobs}
use swm_core.Entity.Job.Terms.{job_tuple, to_jobs-IsListOf}
use swm_core.Tests.Entity.Resource.{junk}

abbrev buffer : List Cell
buffer =
    list_cell 1
    ∷ tuple_cell 39
    ∷ atom_cell (codes "job")
    ∷ bin_cell (codes "id0")
    ∷ bin_cell (codes "nam1")
    ∷ bin_cell (codes "clu2")
    ∷ nil_cell
    ∷ bin_cell (codes "sta4")
    ∷ bin_cell (codes "sta5")
    ∷ bin_cell (codes "sta6")
    ∷ bin_cell (codes "sub7")
    ∷ bin_cell (codes "end8")
    ∷ int_cell (pos 16)
    ∷ bin_cell (codes "job10")
    ∷ bin_cell (codes "job11")
    ∷ bin_cell (codes "job12")
    ∷ nil_cell
    ∷ list_cell 2
    ∷ bin_cell (codes "x")
    ∷ bin_cell (codes "y")
    ∷ nil_cell
    ∷ bin_cell (codes "wor15")
    ∷ bin_cell (codes "use16")
    ∷ nil_cell
    ∷ list_cell 1
    ∷ tuple_cell 2
    ∷ bin_cell (codes "a18")
    ∷ bin_cell (codes "b18")
    ∷ nil_cell
    ∷ list_cell 1
    ∷ tuple_cell 2
    ∷ atom_cell (codes "a19")
    ∷ bin_cell (codes "b19")
    ∷ nil_cell
    ∷ bin_cell (codes "acc20")
    ∷ bin_cell (codes "gan21")
    ∷ bin_cell (codes "exe22")
    ∷ bin_cell (codes "scr23")
    ∷ list_cell 1
    ∷ tuple_cell 8
    ∷ atom_cell (codes "resource")
    ∷ bin_cell (codes "nam0")
    ∷ int_cell (pos 8)
    ∷ list_cell 2
    ∷ bin_cell (codes "x")
    ∷ bin_cell (codes "y")
    ∷ nil_cell
    ∷ nil_cell
    ∷ map_cell 1
    ∷ bin_cell (codes "key")
    ∷ atom_cell (codes "v")
    ∷ int_cell (pos 12)
    ∷ nil_cell
    ∷ nil_cell
    ∷ list_cell 1
    ∷ tuple_cell 8
    ∷ atom_cell (codes "resource")
    ∷ bin_cell (codes "nam0")
    ∷ int_cell (pos 8)
    ∷ list_cell 2
    ∷ bin_cell (codes "x")
    ∷ bin_cell (codes "y")
    ∷ nil_cell
    ∷ nil_cell
    ∷ map_cell 1
    ∷ bin_cell (codes "key")
    ∷ atom_cell (codes "v")
    ∷ int_cell (pos 12)
    ∷ nil_cell
    ∷ nil_cell
    ∷ bin_cell (codes "con26")
    ∷ atom_cell (codes "relo")
    ∷ atom_cell (codes "keep")
    ∷ bin_cell (codes "che29")
    ∷ bin_cell (codes "che30")
    ∷ int_cell (pos 38)
    ∷ bin_cell (codes "las32")
    ∷ int_cell (pos 40)
    ∷ int_cell (pos 41)
    ∷ int_cell (pos 42)
    ∷ bin_cell (codes "com36")
    ∷ int_cell (pos 44)
    ∷ nil_cell
    ∷ []

abbrev no_job : Job (List Cell)
no_job = record {
  id = [];
  name = [];
  cluster_id = [];
  nodes = [];
  state = [];
  state_details = [];
  start_time = [];
  submit_time = [];
  end_time = [];
  duration = 999;
  job_stdin = [];
  job_stdout = [];
  job_stderr = [];
  input_files = [];
  output_files = [];
  workdir = [];
  user_id = [];
  hooks = [];
  env = [];
  deps = [];
  account_id = [];
  gang_id = [];
  execution_path = [];
  script_content = [];
  request = [];
  resources = [];
  container = [];
  relocatable = [];
  keep_resources = [];
  checkpoint = [];
  checkpoint_dir = [];
  checkpoint_interval = 999;
  last_checkpoint_time = [];
  exitcode = 999;
  signal = 999;
  priority = 999;
  comment = [];
  revision = 999;
}

abbrev jobs : List (Job (List Cell))
jobs =
    record {
      id = codes "id0";
      name = codes "nam1";
      cluster_id = codes "clu2";
      nodes = [];
      state = codes "sta4";
      state_details = codes "sta5";
      start_time = codes "sta6";
      submit_time = codes "sub7";
      end_time = codes "end8";
      duration = 16;
      job_stdin = codes "job10";
      job_stdout = codes "job11";
      job_stderr = codes "job12";
      input_files = [];
      output_files = codes "x" ∷ codes "y" ∷ [];
      workdir = codes "wor15";
      user_id = codes "use16";
      hooks = [];
      env = (codes "a18", codes "b18") ∷ [];
      deps = (codes "a19", codes "b19") ∷ [];
      account_id = codes "acc20";
      gang_id = codes "gan21";
      execution_path = codes "exe22";
      script_content = codes "scr23";
      request =
          (resource_of (codes "nam0") (8) (codes "x" ∷ codes "y" ∷ []) ([])
            ((codes "key", codes "v") ∷ []) (12) no_resources)
          ∷ [];
      resources =
          (resource_of (codes "nam0") (8) (codes "x" ∷ codes "y" ∷ []) ([])
            ((codes "key", codes "v") ∷ []) (12) no_resources)
          ∷ [];
      container = codes "con26";
      relocatable = codes "relo";
      keep_resources = codes "keep";
      checkpoint = codes "che29";
      checkpoint_dir = codes "che30";
      checkpoint_interval = 38;
      last_checkpoint_time = codes "las32";
      exitcode = 40;
      signal = 41;
      priority = 42;
      comment = codes "com36";
      revision = 44;
    }
    ∷ []

to_jobs-IsListOf_example : to_jobs cells buffer 0 (λ (d : ℕ). []) junk 1 no_job 0 [] ≡ done 83 jobs
unfolding IsResource
to_jobs-IsListOf_example =
    to_jobs-IsListOf cells buffer 0 (λ (d : ℕ). []) junk 1 no_job jobs 0 83
      (cons 1 82 (1, refl) refl refl
        (next {j = 82}
          (job_tuple 3 4 5 6 7 8 9 10 11 12 13 14 15 16 17 21 22 23 24 29 34 35 36 37 38 54 70 71 72
            73 74 75 76 77 78 79 80 81 (inl (1, refl), 39, 2, refl, refl)
            (binary (1, refl) refl refl) (binary (1, refl) refl refl) (binary (1, refl) refl refl)
            (nil (1, refl) refl refl) (binary (1, refl) refl refl) (binary (1, refl) refl refl)
            (binary (1, refl) refl refl) (binary (1, refl) refl refl) (binary (1, refl) refl refl)
            (small (1, refl), refl) (binary (1, refl) refl refl) (binary (1, refl) refl refl)
            (binary (1, refl) refl refl) (nil (1, refl) refl refl)
            (cons 18 20 (1, refl) refl refl
              (next {j = 19} (binary (1, refl) refl refl)
                (next {j = 20} (binary (1, refl) refl refl) (stop 20)))
              refl)
            (binary (1, refl) refl refl) (binary (1, refl) refl refl) (nil (1, refl) refl refl)
            (cons 25 28 (1, refl) refl refl
              (next {j = 28}
                (
                  26,
                  27,
                  (inl (1, refl), refl),
                  (binary (1, refl) refl refl),
                  (binary (1, refl) refl refl),
                )
                (stop 28))
              refl)
            (cons 30 33 (1, refl) refl refl
              (next {j = 33}
                (
                  31,
                  32,
                  (inl (1, refl), refl),
                  ((1, refl), refl, refl),
                  (binary (1, refl) refl refl),
                )
                (stop 33))
              refl)
            (binary (1, refl) refl refl) (binary (1, refl) refl refl) (binary (1, refl) refl refl)
            (binary (1, refl) refl refl)
            (cons 39 53 (1, refl) refl refl
              (next {j = 53}
                (
                  41,
                  42,
                  43,
                  47,
                  48,
                  51,
                  52,
                  (inl (1, refl), 8, 40, refl, refl),
                  (binary (1, refl) refl refl),
                  (small (1, refl), refl),
                  (cons 44 46 (1, refl) refl refl
                      (next {j = 45} (binary (1, refl) refl refl)
                        (next {j = 46} (binary (1, refl) refl refl) (stop 46)))
                      refl),
                  (nil (1, refl) refl refl),
                  (
                    49,
                    refl,
                    map_next 50 51 (binary (1, refl) refl refl) (atom_value ((1, refl), refl, refl))
                        tt (map_stop 51),
                  ),
                  (small (1, refl), refl),
                  (nil (1, refl) refl refl),
                )
                (stop 53))
              refl)
            (cons 55 69 (1, refl) refl refl
              (next {j = 69}
                (
                  57,
                  58,
                  59,
                  63,
                  64,
                  67,
                  68,
                  (inl (1, refl), 8, 56, refl, refl),
                  (binary (1, refl) refl refl),
                  (small (1, refl), refl),
                  (cons 60 62 (1, refl) refl refl
                      (next {j = 61} (binary (1, refl) refl refl)
                        (next {j = 62} (binary (1, refl) refl refl) (stop 62)))
                      refl),
                  (nil (1, refl) refl refl),
                  (
                    65,
                    refl,
                    map_next 66 67 (binary (1, refl) refl refl) (atom_value ((1, refl), refl, refl))
                        tt (map_stop 67),
                  ),
                  (small (1, refl), refl),
                  (nil (1, refl) refl refl),
                )
                (stop 69))
              refl)
            (binary (1, refl) refl refl) ((1, refl), refl, refl) ((1, refl), refl, refl)
            (binary (1, refl) refl refl) (binary (1, refl) refl refl) (small (1, refl), refl)
            (binary (1, refl) refl refl) (small (1, refl), refl) (small (1, refl), refl)
            (small (1, refl), refl) (binary (1, refl) refl refl) (small (1, refl), refl))
          (stop 82))
        refl)
