-- ===== src/Entity/Scheduler.antt =====
-- A scheduler: c_src/lib/wm_scheduler.cpp and its header.
use swm_core.Prelude.{ℕ, List, [], ◌≡◌, Bytes}
use swm_core.Ei.{Ei}
use swm_core.Decode.{Read, done, to_atom, to_str, to_uint64}
use swm_core.Decode.Vectors.{entity, field, to_entities}
use swm_core.Decode.Terms.{
  IsEntity, IsTuple, entity-IsEntity, IsListOf, to_entities-IsListOf, IsAtom, IsText, IsUnsigned,
  to_atom-IsAtom, to_str-IsText, to_uint64-IsUnsigned,
}
use swm_core.Entity.Executable.{Executable, to_executable, IsExecutable, to_executable-IsExecutable}

pub record Scheduler : Type 0 where
  pub id : ℕ
  pub name : Bytes
  pub state : Bytes
  pub start_time : Bytes
  pub stop_time : Bytes
  pub run_interval : ℕ
  pub path : Executable
  pub family : Bytes
  pub version : Bytes
  pub cu : ℕ
  pub comment : Bytes
  pub revision : ℕ

module _ (E : Ei) (b : E.Buf) where
  -- The members in the order of the tuple.
  unfoldable fields : ℕ → Scheduler → Read Scheduler
  fields i o =
      field E b (to_uint64 E b i o.id) (λ x. record o { id = x })
        (λ i o.
          field E b (to_str E b i o.name) (λ x. record o { name = x })
            (λ i o.
              field E b (to_atom E b i o.state) (λ x. record o { state = x })
                (λ i o.
                  field E b (to_str E b i o.start_time) (λ x. record o { start_time = x })
                    (λ i o.
                      field E b (to_str E b i o.stop_time) (λ x. record o { stop_time = x })
                        (λ i o.
                          field E b (to_uint64 E b i o.run_interval)
                            (λ x. record o { run_interval = x })
                            (λ i o.
                              field E b (to_executable E b o.path i) (λ x. record o { path = x })
                                (λ i o.
                                  field E b (to_str E b i o.family) (λ x. record o { family = x })
                                    (λ i o.
                                      field E b (to_str E b i o.version)
                                        (λ x. record o { version = x })
                                        (λ i o.
                                          field E b (to_uint64 E b i o.cu)
                                            (λ x. record o { cu = x })
                                            (λ i o.
                                              field E b (to_str E b i o.comment)
                                                (λ x. record o { comment = x })
                                                (λ i o.
                                                  field E b (to_uint64 E b i o.revision)
                                                    (λ x. record o { revision = x }) done)))))))))))

  -- The constructor. The numbers have no initial values: they are those of `junk`.
  unfoldable scheduler : Scheduler → ℕ → ℕ × Scheduler
  unfolding fields entity
  scheduler junk = entity E b fields (record junk {
    name = [];
    state = [];
    start_time = [];
    stop_time = [];
    family = [];
    version = [];
    comment = [];
  })

  unfoldable to_scheduler : Scheduler → ℕ → Read Scheduler
  unfolding scheduler
  to_scheduler junk i = let (j, o) = scheduler junk i in done j o

  pub to_schedulers : Scheduler → ℕ → List Scheduler → Read (List Scheduler)
  unfolding scheduler to_entities
  to_schedulers junk = to_entities E b (scheduler junk)

  -- A scheduler record from `i` to `j`.
  pub data IsScheduler (o : Scheduler) (i j : ℕ) : Type 0 where
    scheduler_tuple :
        (k k1 k2 k3 k4 k5 k6 k7 k8 k9 k10 k11 : ℕ)
        → IsEntity E b i k
        → IsUnsigned E b o.id k k1
        → IsText E b o.name k1 k2
        → IsAtom E b o.state k2 k3
        → IsText E b o.start_time k3 k4
        → IsText E b o.stop_time k4 k5
        → IsUnsigned E b o.run_interval k5 k6
        → IsExecutable E b o.path k6 k7
        → IsText E b o.family k7 k8
        → IsText E b o.version k8 k9
        → IsUnsigned E b o.cu k9 k10
        → IsText E b o.comment k10 k11
        → IsUnsigned E b o.revision k11 j
        → IsScheduler o i j

  scheduler-IsScheduler :
      (junk o : Scheduler) (i j : ℕ) → IsScheduler o i j → scheduler junk i ≡ (j, o)
  unfolding scheduler fields
  scheduler-IsScheduler junk o i j
        (scheduler_tuple k k1 k2 k3 k4 k5 k6 k7 k8 k9 k10 k11 t h1 h2 h3 h4 h5 h6 h7 h8 h9 h10 h11
          h12) =
      entity-IsEntity E b fields
        (record junk {
          name = [];
          state = [];
          start_time = [];
          stop_time = [];
          family = [];
          version = [];
          comment = [];
        })
        o i j k t
        (rw (
          to_uint64-IsUnsigned E b o.id junk.id k k1 h1,
          to_str-IsText E b o.name k1 k2 h2,
          to_atom-IsAtom E b o.state [] k2 k3 h3,
          to_str-IsText E b o.start_time k3 k4 h4,
          to_str-IsText E b o.stop_time k4 k5 h5,
          to_uint64-IsUnsigned E b o.run_interval junk.run_interval k5 k6 h6,
          to_executable-IsExecutable E b o.path junk.path k6 k7 h7,
          to_str-IsText E b o.family k7 k8 h8,
          to_str-IsText E b o.version k8 k9 h9,
          to_uint64-IsUnsigned E b o.cu junk.cu k9 k10 h10,
          to_str-IsText E b o.comment k10 k11 h11,
          to_uint64-IsUnsigned E b o.revision junk.revision k11 j h12,
        ))

  IsTuple-IsScheduler : (o : Scheduler) (i j : ℕ) → IsScheduler o i j → IsTuple E b i
  IsTuple-IsScheduler o i j
        (scheduler_tuple k k1 k2 k3 k4 k5 k6 k7 k8 k9 k10 k11 t _ _ _ _ _ _ _ _ _ _ _ _) =
      t.0

  -- A list of scheduler records is read into an empty vector in order, each with its 12 members, and
  -- the index is left behind the list.
  pub to_schedulers-IsListOf :
      (junk : Scheduler) (os : List Scheduler) (i j : ℕ)
      → IsListOf E b IsScheduler os i j
      → to_schedulers junk i [] ≡ done j os
  unfolding to_schedulers
  to_schedulers-IsListOf junk =
      to_entities-IsListOf E b IsScheduler (scheduler junk) (scheduler-IsScheduler junk)
        IsTuple-IsScheduler
