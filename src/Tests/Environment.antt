-- ===== src/Tests/Environment.antt =====
-- The variables of a job's process.
use swm_core.Prelude.{[], ◌∷◌, some, none, ◌≡◌, refl, codes, until, join}
use swm_core.Entity.Job.{Job}
use swm_core.Porter.Environment.{Environment, Passwd, lookup, swm_path_dirs, set_env}
use swm_core.Porter.Environment.Path.{search_path}
use swm_core.Porter.Environment.Precedence.{given, path_name, pwd_name, lookup-set_env}
use swm_core.Tests.Buffers.{cells}

-- A job that sets its own PATH, and tries to set the job's id.
abbrev job : Job (cells.Buf)
job = record {
  id = codes "j1";
  name = codes "n";
  cluster_id = [];
  nodes = codes "n1" ∷ codes "n2" ∷ [];
  state = [];
  state_details = [];
  start_time = [];
  submit_time = [];
  end_time = [];
  duration = 0;
  job_stdin = [];
  job_stdout = [];
  job_stderr = [];
  input_files = [];
  output_files = [];
  workdir = codes "/w";
  user_id = [];
  hooks = [];
  env = (codes "SWM_JOB_ID", codes "x") ∷ (codes "PATH", codes "/b") ∷ [];
  deps = [];
  account_id = [];
  gang_id = [];
  execution_path = [];
  script_content = [];
  request = [];
  resources = [];
  container = [];
  relocatable = [];
  keep_resources = [];
  checkpoint = [];
  checkpoint_dir = [];
  checkpoint_interval = 0;
  last_checkpoint_time = [];
  exitcode = 0;
  signal = 0;
  priority = 0;
  comment = [];
  revision = 0;
}

abbrev user : Passwd
user = record { pw_name = codes "u"; pw_dir = codes "/home/u" }

abbrev inherited : Environment
inherited = (codes "PATH", codes "/bin") ∷ []

lookup-set_env_example :
    (lookup (codes "SWM_JOB_ID") (set_env cells user job [] none inherited)
      ≡ given cells user job [] none inherited (codes "SWM_JOB_ID"))
    × (lookup path_name (set_env cells user job [] none inherited)
        ≡ some (
            until 0 (
              join b':' (
                search_path
                  (codes "/w")
                  (swm_path_dirs none)
                  (given cells user job [] none inherited path_name)))))
    × (lookup pwd_name (set_env cells user job [] none inherited) ≡ some (codes "/w"))
lookup-set_env_example = lookup-set_env cells user job [] none inherited (codes "SWM_JOB_ID") refl
