-- ===== src/Entity/SchedulerResult.antt =====
-- A scheduler result: c_src/lib/wm_scheduler_result.cpp and its header.
use swm_core.Prelude.{ℕ, List, [], ◌≡◌, Bytes}
use swm_core.Ei.{Ei}
use swm_core.Decode.{Read, done, to_str, to_uint64, to_double}
use swm_core.Decode.Vectors.{entity, field, to_entities}
use swm_core.Decode.Terms.{
  IsEntity, IsTuple, entity-IsEntity, IsListOf, to_entities-IsListOf, IsText, IsUnsigned, IsFloat,
  to_str-IsText, to_uint64-IsUnsigned, to_double-IsFloat,
}
use swm_core.Entity.Timetable.{Timetable, to_timetables, IsTimetable, to_timetables-IsListOf}
use swm_core.Entity.Metric.{Metric, to_metrics, IsMetric, to_metrics-IsListOf}

record SchedulerResult (D : Type 0) : Type 0 where
  timetable : List Timetable
  metrics : List (Metric D)
  request_id : Bytes
  status : ℕ
  astro_time : D
  idle_time : D
  work_time : D

module _ (E : Ei) (b : E.Buf) (timetable_junk : Timetable) (metric_junk : Metric E.Double) where
  -- The members in the order of the tuple.
  unfoldable fields : ℕ → (SchedulerResult E.Double) → Read (SchedulerResult E.Double)
  fields i o =
      field E b (to_timetables E b timetable_junk i o.timetable) (λ x. record o { timetable = x })
        (λ i o.
          field E b (to_metrics E b metric_junk i o.metrics) (λ x. record o { metrics = x })
            (λ i o.
              field E b (to_str E b i o.request_id) (λ x. record o { request_id = x })
                (λ i o.
                  field E b (to_uint64 E b i o.status) (λ x. record o { status = x })
                    (λ i o.
                      field E b (to_double E b i o.astro_time) (λ x. record o { astro_time = x })
                        (λ i o.
                          field E b (to_double E b i o.idle_time) (λ x. record o { idle_time = x })
                            (λ i o.
                              field E b (to_double E b i o.work_time)
                                (λ x. record o { work_time = x }) done))))))

  -- The constructor. The numbers have no initial values: they are those of `junk`.
  unfoldable scheduler_result : (SchedulerResult E.Double) → ℕ → ℕ × (SchedulerResult E.Double)
  unfolding fields entity
  scheduler_result junk =
      entity E b fields (record junk { timetable = []; metrics = []; request_id = [] })

  unfoldable to_scheduler_result : (SchedulerResult E.Double) → ℕ → Read (SchedulerResult E.Double)
  unfolding scheduler_result
  to_scheduler_result junk i = let (j, o) = scheduler_result junk i in done j o

  unfoldable to_scheduler_results :
      (SchedulerResult E.Double)
      → ℕ
      → List (SchedulerResult E.Double)
      → Read (List (SchedulerResult E.Double))
  unfolding scheduler_result to_entities
  to_scheduler_results junk = to_entities E b (scheduler_result junk)

  -- A scheduler result record from `i` to `j`.
  data IsSchedulerResult (o : (SchedulerResult E.Double)) (i j : ℕ) : Type 0 where
    scheduler_result_tuple :
        (k k1 k2 k3 k4 k5 k6 : ℕ)
        → IsEntity E b i k
        → IsListOf E b (IsTimetable E b) o.timetable k k1
        → IsListOf E b (IsMetric E b) o.metrics k1 k2
        → IsText E b o.request_id k2 k3
        → IsUnsigned E b o.status k3 k4
        → IsFloat E b o.astro_time k4 k5
        → IsFloat E b o.idle_time k5 k6
        → IsFloat E b o.work_time k6 j
        → IsSchedulerResult o i j

  scheduler_result-IsSchedulerResult :
      (junk o : (SchedulerResult E.Double)) (i j : ℕ)
      → IsSchedulerResult o i j
      → scheduler_result junk i ≡ (j, o)
  unfolding scheduler_result fields
  scheduler_result-IsSchedulerResult junk o i j
        (scheduler_result_tuple k k1 k2 k3 k4 k5 k6 t h1 h2 h3 h4 h5 h6 h7) =
      entity-IsEntity E b fields (record junk { timetable = []; metrics = []; request_id = [] }) o i
        j k t
        (rw (
          to_timetables-IsListOf E b timetable_junk o.timetable k k1 h1,
          to_metrics-IsListOf E b metric_junk o.metrics k1 k2 h2,
          to_str-IsText E b o.request_id k2 k3 h3,
          to_uint64-IsUnsigned E b o.status junk.status k3 k4 h4,
          to_double-IsFloat E b o.astro_time junk.astro_time k4 k5 h5,
          to_double-IsFloat E b o.idle_time junk.idle_time k5 k6 h6,
          to_double-IsFloat E b o.work_time junk.work_time k6 j h7,
        ))

  IsTuple-IsSchedulerResult :
      (o : (SchedulerResult E.Double)) (i j : ℕ) → IsSchedulerResult o i j → IsTuple E b i
  IsTuple-IsSchedulerResult o i j (scheduler_result_tuple k k1 k2 k3 k4 k5 k6 t _ _ _ _ _ _ _) = t.0

  -- A list of scheduler result records is read into an empty vector in order, each with its 7 members, and
  -- the index is left behind the list.
  to_scheduler_results-IsListOf :
      (junk : (SchedulerResult E.Double)) (os : List (SchedulerResult E.Double)) (i j : ℕ)
      → IsListOf E b IsSchedulerResult os i j
      → to_scheduler_results junk i [] ≡ done j os
  unfolding to_scheduler_results
  to_scheduler_results-IsListOf junk =
      to_entities-IsListOf E b IsSchedulerResult (scheduler_result junk)
        (scheduler_result-IsSchedulerResult junk) IsTuple-IsSchedulerResult
