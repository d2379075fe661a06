-- ===== src/Entity/Timetable.antt =====
-- A timetable: c_src/lib/wm_timetable.cpp and its header.
use swm_core.Prelude.{ℕ, List, [], ◌≡◌, Bytes}
use swm_core.Ei.{Ei}
use swm_core.Decode.{Read, done, to_str, to_uint64}
use swm_core.Decode.Vectors.{entity, field, to_entities, to_strs}
use swm_core.Decode.Terms.{
  IsEntity, IsTuple, entity-IsEntity, IsListOf, to_entities-IsListOf, IsText, IsTexts, IsUnsigned,
  to_str-IsText, to_strs-IsTexts, to_uint64-IsUnsigned,
}

pub record Timetable : Type 0 where
  pub start_time : ℕ
  pub job_id : Bytes
  pub job_nodes : List Bytes

module _ (E : Ei) (b : E.Buf) where
  -- The members in the order of the tuple.
  unfoldable fields : ℕ → Timetable → Read Timetable
  fields i o =
      field E b (to_uint64 E b i o.start_time) (λ x. record o { start_time = x })
        (λ i o.
          field E b (to_str E b i o.job_id) (λ x. record o { job_id = x })
            (λ i o. field E b (to_strs E b i o.job_nodes) (λ x. record o { job_nodes = x }) done))

  -- The constructor. The numbers have no initial values: they are those of `junk`.
  unfoldable timetable : Timetable → ℕ → ℕ × Timetable
  unfolding fields entity
  timetable junk = entity E b fields (record junk { job_id = []; job_nodes = [] })

  unfoldable to_timetable : Timetable → ℕ → Read Timetable
  unfolding timetable
  to_timetable junk i = let (j, o) = timetable junk i in done j o

  pub to_timetables : Timetable → ℕ → List Timetable → Read (List Timetable)
  unfolding timetable to_entities
  to_timetables junk = to_entities E b (timetable junk)

  -- A timetable record from `i` to `j`.
  pub data IsTimetable (o : Timetable) (i j : ℕ) : Type 0 where
    timetable_tuple :
        (k k1 k2 : ℕ)
        → IsEntity E b i k
        → IsUnsigned E b o.start_time k k1
        → IsText E b o.job_id k1 k2
        → IsTexts E b o.job_nodes k2 j
        → IsTimetable o i j

  timetable-IsTimetable :
      (junk o : Timetable) (i j : ℕ) → IsTimetable o i j → timetable junk i ≡ (j, o)
  unfolding timetable fields
  timetable-IsTimetable junk o i j (timetable_tuple k k1 k2 t h1 h2 h3) =
      entity-IsEntity E b fields (record junk { job_id = []; job_nodes = [] }) o i j k t
        (rw (
          to_uint64-IsUnsigned E b o.start_time junk.start_time k k1 h1,
          to_str-IsText E b o.job_id k1 k2 h2,
          to_strs-IsTexts E b o.job_nodes k2 j h3,
        ))

  IsTuple-IsTimetable : (o : Timetable) (i j : ℕ) → IsTimetable o i j → IsTuple E b i
  IsTuple-IsTimetable o i j (timetable_tuple k k1 k2 t _ _ _) = t.0

  -- A list of timetable records is read into an empty vector in order, each with its 3 members, and
  -- the index is left behind the list.
  pub to_timetables-IsListOf :
      (junk : Timetable) (os : List Timetable) (i j : ℕ)
      → IsListOf E b IsTimetable os i j
      → to_timetables junk i [] ≡ done j os
  unfolding to_timetables
  to_timetables-IsListOf junk =
      to_entities-IsListOf E b IsTimetable (timetable junk) (timetable-IsTimetable junk)
        IsTuple-IsTimetable
