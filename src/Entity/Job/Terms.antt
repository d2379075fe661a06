-- ===== src/Entity/Job/Terms.antt =====
-- What it means that a buffer holds a job.
use swm_core.Prelude.{ℕ, List, [], ◌≡◌, Bytes}
use swm_core.Ei.{Ei}
use swm_core.Decode.{done}
use swm_core.Decode.Terms.{
  IsEntity, IsTuple, entity-IsEntity, IsListOf, to_entities-IsListOf, IsText, IsAtom, IsUnsigned,
  IsTexts, to_str-IsText, to_atom-IsAtom, to_uint64-IsUnsigned, to_strs-IsTexts,
}
use swm_core.Decode.Tuples.{
  IsTextPair, IsNamedText, to_tuples_str_str-IsListOf, to_tuples_atom_str-IsListOf,
}
use swm_core.Entity.Resource.{Members, IsResource, to_resources-IsListOf}
use swm_core.Entity.Job.{Job, fields, job, to_jobs}

module _ (E : Ei) (b : E.Buf) (zero_d : E.Double) (print_double : E.Double → Bytes)
    (inner : Members E.Buf) (levels : ℕ) where
  -- A job record from `i` to `j`.
  pub data IsJob (o : (Job E.Buf)) (i j : ℕ) : Type 0 where
    job_tuple :
        (k k1 k2 k3 k4 k5 k6 k7 k8 k9 k10 k11 k12 k13 k14 k15 k16 k17 k18 k19 k20 k21 k22 k23 k24
          k25 k26 k27 k28 k29 k30 k31 k32 k33 k34 k35 k36 k37 : ℕ)
        → IsEntity E b i k
        → IsText E b o.id k k1
        → IsText E b o.name k1 k2
        → IsText E b o.cluster_id k2 k3
        → IsTexts E b o.nodes k3 k4
        → IsText E b o.state k4 k5
        → IsText E b o.state_details k5 k6
        → IsText E b o.start_time k6 k7
        → IsText E b o.submit_time k7 k8
        → IsText E b o.end_time k8 k9
        → IsUnsigned E b o.duration k9 k10
        → IsText E b o.job_stdin k10 k11
        → IsText E b o.job_stdout k11 k12
        → IsText E b o.job_stderr k12 k13
        → IsTexts E b o.input_files k13 k14
        → IsTexts E b o.output_files k14 k15
        → IsText E b o.workdir k15 k16
        → IsText E b o.user_id k16 k17
        → IsTexts E b o.hooks k17 k18
        → IsListOf E b (IsTextPair E b) o.env k18 k19
        → IsListOf E b (IsNamedText E b) o.deps k19 k20
        → IsText E b o.account_id k20 k21
        → IsText E b o.gang_id k21 k22
        → IsText E b o.execution_path k22 k23
        → IsText E b o.script_content k23 k24
        → IsListOf E b (IsResource E b zero_d print_double levels) o.request k24 k25
        → IsListOf E b (IsResource E b zero_d print_double levels) o.resources k25 k26
        → IsText E b o.container k26 k27
        → IsAtom E b o.relocatable k27 k28
        → IsAtom E b o.keep_resources k28 k29
        → IsText E b o.checkpoint k29 k30
        → IsText E b o.checkpoint_dir k30 k31
        → IsUnsigned E b o.checkpoint_interval k31 k32
        → IsText E b o.last_checkpoint_time k32 k33
        → IsUnsigned E b o.exitcode k33 k34
        → IsUnsigned E b o.signal k34 k35
        → IsUnsigned E b o.priority k35 k36
        → IsText E b o.comment k36 k37
        → IsUnsigned E b o.revision k37 j
        → IsJob o i j

  job-IsJob :
      (junk o : (Job E.Buf)) (i j : ℕ)
      → IsJob o i j
      → job E b zero_d print_double inner levels junk i ≡ (j, o)
  unfolding job fields
  job-IsJob junk o i j
        (job_tuple k k1 k2 k3 k4 k5 k6 k7 k8 k9 k10 k11 k12 k13 k14 k15 k16 k17 k18 k19 k20 k21 k22
          k23 k24 k25 k26 k27 k28 k29 k30 k31 k32 k33 k34 k35 k36 k37 t h1 h2 h3 h4 h5 h6 h7 h8 h9
          h10 h11 h12 h13 h14 h15 h16 h17 h18 h19 h20 h21 h22 h23 h24 h25 h26 h27 h28 h29 h30 h31
          h32 h33 h34 h35 h36 h37 h38) =
      entity-IsEntity E b (fields E b zero_d print_double inner levels)
        (record junk {
          id = [];
          name = [];
          cluster_id = [];
          nodes = [];
          state = [];
          state_details = [];
          start_time = [];
          submit_time = [];
          end_time = [];
          job_stdin = [];
          job_stdout = [];
          job_stderr = [];
          input_files = [];
          output_files = [];
          workdir = [];
          user_id = [];
          hooks = [];
          env = [];
          deps = [];
          account_id = [];
          gang_id = [];
          execution_path = [];
          script_content = [];
          request = [];
          resources = [];
          container = [];
          relocatable = [];
          keep_resources = [];
          checkpoint = [];
          checkpoint_dir = [];
          last_checkpoint_time = [];
          comment = [];
        })
        o i j k t
        (rw (
          to_str-IsText E b o.id k k1 h1,
          to_str-IsText E b o.name k1 k2 h2,
          to_str-IsText E b o.cluster_id k2 k3 h3,
          to_strs-IsTexts E b o.nodes k3 k4 h4,
          to_str-IsText E b o.state k4 k5 h5,
          to_str-IsText E b o.state_details k5 k6 h6,
          to_str-IsText E b o.start_time k6 k7 h7,
          to_str-IsText E b o.submit_time k7 k8 h8,
          to_str-IsText E b o.end_time k8 k9 h9,
          to_uint64-IsUnsigned E b o.duration junk.duration k9 k10 h10,
          to_str-IsText E b o.job_stdin k10 k11 h11,
          to_str-IsText E b o.job_stdout k11 k12 h12,
          to_str-IsText E b o.job_stderr k12 k13 h13,
          to_strs-IsTexts E b o.input_files k13 k14 h14,
          to_strs-IsTexts E b o.output_files k14 k15 h15,
          to_str-IsText E b o.workdir k15 k16 h16,
          to_str-IsText E b o.user_id k16 k17 h17,
          to_strs-IsTexts E b o.hooks k17 k18 h18,
          to_tuples_str_str-IsListOf E b o.env k18 k19 h19,
          to_tuples_atom_str-IsListOf E b o.deps k19 k20 h20,
          to_str-IsText E b o.account_id k20 k21 h21,
          to_str-IsText E b o.gang_id k21 k22 h22,
          to_str-IsText E b o.execution_path k22 k23 h23,
          to_str-IsText E b o.script_content k23 k24 h24,
          to_resources-IsListOf E b zero_d print_double inner levels o.request k24 k25 h25,
          to_resources-IsListOf E b zero_d print_double inner levels o.resources k25 k26 h26,
          to_str-IsText E b o.container k26 k27 h27,
          to_atom-IsAtom E b o.relocatable [] k27 k28 h28,
          to_atom-IsAtom E b o.keep_resources [] k28 k29 h29,
          to_str-IsText E b o.checkpoint k29 k30 h30,
          to_str-IsText E b o.checkpoint_dir k30 k31 h31,
          to_uint64-IsUnsigned E b o.checkpoint_interval junk.checkpoint_interval k31 k32 h32,
          to_str-IsText E b o.last_checkpoint_time k32 k33 h33,
          to_uint64-IsUnsigned E b o.exitcode junk.exitcode k33 k34 h34,
          to_uint64-IsUnsigned E b o.signal junk.signal k34 k35 h35,
          to_uint64-IsUnsigned E b o.priority junk.priority k35 k36 h36,
          to_str-IsText E b o.comment k36 k37 h37,
          to_uint64-IsUnsigned E b o.revision junk.revision k37 j h38,
        ))

  IsTuple-IsJob : (o : (Job E.Buf)) (i j : ℕ) → IsJob o i j → IsTuple E b i
  IsTuple-IsJob o i j
        (job_tuple k k1 k2 k3 k4 k5 k6 k7 k8 k9 k10 k11 k12 k13 k14 k15 k16 k17 k18 k19 k20 k21 k22
          k23 k24 k25 k26 k27 k28 k29 k30 k31 k32 k33 k34 k35 k36 k37 t _ _ _ _ _ _ _ _ _ _ _ _ _ _
          _ _ _ _ _ _ _ _ _ _ _ _ _ _ _ _ _ _ _ _ _ _ _ _) =
      t.0

  -- A list of job records is read into an empty vector in order, each with its 38 members, and
  -- the index is left behind the list.
  pub to_jobs-IsListOf :
      (junk : (Job E.Buf)) (os : List (Job E.Buf)) (i j : ℕ)
      → IsListOf E b IsJob os i j
      → to_jobs E b zero_d print_double inner levels junk i [] ≡ done j os
  unfolding to_jobs
  to_jobs-IsListOf junk =
      to_entities-IsListOf E b IsJob (job E b zero_d print_double inner levels junk)
        (job-IsJob junk) IsTuple-IsJob
