-- ===== src/Entity/Job.antt =====
-- A job: c_src/lib/wm_job.cpp and its header.
pub mod Terms
use swm_core.Prelude.{ℕ, List, [], ◌≡◌, Bytes}
use swm_core.Ei.{Ei}
use swm_core.Decode.{Read, done, to_str, to_atom, to_uint64}
use swm_core.Decode.Vectors.{
  entity, field, to_entities, to_strs, to_tuples_str_str, to_tuples_atom_str,
}
use swm_core.Decode.Terms.{
  IsEntity, IsTuple, entity-IsEntity, IsListOf, to_entities-IsListOf, IsText, IsAtom, IsUnsigned,
  IsTexts, to_str-IsText, to_atom-IsAtom, to_uint64-IsUnsigned, to_strs-IsTexts,
}
use swm_core.Decode.Tuples.{
  IsTextPair, IsNamedText, to_tuples_str_str-IsListOf, to_tuples_atom_str-IsListOf,
}
use swm_core.Entity.Resource.{Resource, Members, to_resources, IsResource, to_resources-IsListOf}

pub record Job (B : Type 0) : Type 0 where
  pub id : Bytes
  pub name : Bytes
  pub cluster_id : Bytes
  pub nodes : List Bytes
  pub state : Bytes
  pub state_details : Bytes
  pub start_time : Bytes
  pub submit_time : Bytes
  pub end_time : Bytes
  pub duration : ℕ
  pub job_stdin : Bytes
  pub job_stdout : Bytes
  pub job_stderr : Bytes
  pub input_files : List Bytes
  pub output_files : List Bytes
  pub workdir : Bytes
  pub user_id : Bytes
  pub hooks : List Bytes
  pub env : List (Bytes × Bytes)
  pub deps : List (Bytes × Bytes)
  pub account_id : Bytes
  pub gang_id : Bytes
  pub execution_path : Bytes
  pub script_content : Bytes
  pub request : List (Resource B)
  pub resources : List (Resource B)
  pub container : Bytes
  pub relocatable : Bytes
  pub keep_resources : Bytes
  pub checkpoint : Bytes
  pub checkpoint_dir : Bytes
  pub checkpoint_interval : ℕ
  pub last_checkpoint_time : Bytes
  pub exitcode : ℕ
  pub signal : ℕ
  pub priority : ℕ
  pub comment : Bytes
  pub revision : ℕ

module _ (E : Ei) (b : E.Buf) (zero_d : E.Double) (print_double : E.Double → Bytes)
    (inner : Members E.Buf) (levels : ℕ) where
  -- `inner` and `levels` are the numbers and the fuel of the resources.
  -- The members in the order of the tuple.
  unfoldable fields : ℕ → (Job E.Buf) → Read (Job E.Buf)
  fields i o =
      field E b (to_str E b i o.id) (λ x. record o { id = x })
        (λ i o.
          field E b (to_str E b i o.name) (λ x. record o { name = x })
            (λ i o.
              field E b (to_str E b i o.cluster_id) (λ x. record o { cluster_id = x })
                (λ i o.
                  field E b (to_strs E b i o.nodes) (λ x. record o { nodes = x })
                    (λ i o.
                      field E b (to_str E b i o.state) (λ x. record o { state = x })
                        (λ i o.
                          field E b (to_str E b i o.state_details)
                            (λ x. record o { state_details = x })
                            (λ i o.
                              field E b (to_str E b i o.start_time)
                                (λ x. record o { start_time = x })
                                (λ i o.
                                  field E b (to_str E b i o.submit_time)
                                    (λ x. record o { submit_time = x })
                                    (λ i o.
                                      field E b (to_str E b i o.end_time)
                                        (λ x. record o { end_time = x })
                                        (λ i o.
                                          field E b (to_uint64 E b i o.duration)
                                            (λ x. record o { duration = x })
                                            (λ i o.
                                              field E b (to_str E b i o.job_stdin)
                                                (λ x. record o { job_stdin = x })
                                                (λ i o.
                                                  field E b (to_str E b i o.job_stdout)
                                                    (λ x. record o { job_stdout = x })
                                                    (λ i o.
                                                      field E b (to_str E b i o.job_stderr)
                                                        (λ x. record o { job_stderr = x })
                                                        (λ i o.
                                                          field E b (to_strs E b i o.input_files)
                                                            (λ x. record o { input_files = x })
                                                            (λ i o.
                                                            field E b (to_strs E b i o.output_files)
                                                            (λ x. record o { output_files = x })
                                                            (λ i o.
                                                            field E b (to_str E b i o.workdir)
                                                            (λ x. record o { workdir = x })
                                                            (λ i o.
                                                            field E b (to_str E b i o.user_id)
                                                            (λ x. record o { user_id = x })
                                                            (λ i o.
                                                            field E b (to_strs E b i o.hooks)
                                                            (λ x. record o { hooks = x })
                                                            (λ i o.
                                                            field E b
                                                            (to_tuples_str_str E b i o.env)
                                                            (λ x. record o { env = x })
                                                            (λ i o.
                                                            field E b
                                                            (to_tuples_atom_str E b i o.deps)
                                                            (λ x. record o { deps = x })
                                                            (λ i o.
                                                            field E b (to_str E b i o.account_id)
                                                            (λ x. record o { account_id = x })
                                                            (λ i o.
                                                            field E b (to_str E b i o.gang_id)
                                                            (λ x. record o { gang_id = x })
                                                            (λ i o.
                                                            field E b
                                                            (to_str E b i o.execution_path)
                                                            (λ x. record o { execution_path = x })
                                                            (λ i o.
                                                            field E b
                                                            (to_str E b i o.script_content)
                                                            (λ x. record o { script_content = x })
                                                            (λ i o.
                                                            field E b
                                                            (to_resources E b zero_d print_double
                                                            inner levels i o.request)
                                                            (λ x. record o { request = x })
                                                            (λ i o.
                                                            field E b
                                                            (to_resources E b zero_d print_double
                                                            inner levels i o.resources)
                                                            (λ x. record o { resources = x })
                                                            (λ i o.
                                                            field E b (to_str E b i o.container)
                                                            (λ x. record o { container = x })
                                                            (λ i o.
                                                            field E b (to_atom E b i o.relocatable)
                                                            (λ x. record o { relocatable = x })
                                                            (λ i o.
                                                            field E b
                                                            (to_atom E b i o.keep_resources)
                                                            (λ x. record o { keep_resources = x })
                                                            (λ i o.
                                                            field E b (to_str E b i o.checkpoint)
                                                            (λ x. record o { checkpoint = x })
                                                            (λ i o.
                                                            field E b
                                                            (to_str E b i o.checkpoint_dir)
                                                            (λ x. record o { checkpoint_dir = x })
                                                            (λ i o.
                                                            field E b
                                                            (to_uint64 E b i o.checkpoint_interval)
                                                            (λ x. record o {
                                                            checkpoint_interval = x;
                                                            })
                                                            (λ i o.
                                                            field E b
                                                            (to_str E b i o.last_checkpoint_time)
                                                            (λ x. record o {
                                                            last_checkpoint_time = x;
                                                            })
                                                            (λ i o.
                                                            field E b (to_uint64 E b i o.exitcode)
                                                            (λ x. record o { exitcode = x })
                                                            (λ i o.
                                                            field E b (to_uint64 E b i o.signal)
                                                            (λ x. record o { signal = x })
                                                            (λ i o.
                                                            field E b (to_uint64 E b i o.priority)
                                                            (λ x. record o { priority = x })
                                                            (λ i o.
                                                            field E b (to_str E b i o.comment)
                                                            (λ x. record o { comment = x })
                                                            (λ i o.
                                                            field E b (to_uint64 E b i o.revision)
                                                            (λ x. record o { revision = x })
                                                            done)))))))))))))))))))))))))))))))))))))

  -- The constructor. The numbers have no initial values: they are those of `junk`.
  unfoldable job : (Job E.Buf) → ℕ → ℕ × (Job E.Buf)
  unfolding fields entity
  job junk = entity E b fields (record junk {
    id = [];
    name = [];
    cluster_id = [];
    nodes = [];
    state = [];
    state_details = [];
    start_time = [];
    submit_time = [];
    end_time = [];
    job_stdin = [];
    job_stdout = [];
    job_stderr = [];
    input_files = [];
    output_files = [];
    workdir = [];
    user_id = [];
    hooks = [];
    env = [];
    deps = [];
    account_id = [];
    gang_id = [];
    execution_path = [];
    script_content = [];
    request = [];
    resources = [];
    container = [];
    relocatable = [];
    keep_resources = [];
    checkpoint = [];
    checkpoint_dir = [];
    last_checkpoint_time = [];
    comment = [];
  })

  unfoldable to_job : (Job E.Buf) → ℕ → Read (Job E.Buf)
  unfolding job
  to_job junk i = let (j, o) = job junk i in done j o

  pub to_jobs : (Job E.Buf) → ℕ → List (Job E.Buf) → Read (List (Job E.Buf))
  unfolding job to_entities
  to_jobs junk = to_entities E b (job junk)
