-- ===== src/Entity/Metric.antt =====
-- A metric: c_src/lib/wm_metric.cpp and its header.
use swm_core.Prelude.{ℕ, List, [], ◌≡◌, Bytes}
use swm_core.Ei.{Ei}
use swm_core.Decode.{Read, done, to_atom, to_double, to_uint64}
use swm_core.Decode.Vectors.{entity, field, to_entities}
use swm_core.Decode.Terms.{
  IsEntity, IsTuple, entity-IsEntity, IsListOf, to_entities-IsListOf, IsAtom, IsFloat, IsUnsigned,
  to_atom-IsAtom, to_double-IsFloat, to_uint64-IsUnsigned,
}

pub record Metric (D : Type 0) : Type 0 where
  pub name : Bytes
  pub value_integer : ℕ
  pub value_float64 : D

module _ (E : Ei) (b : E.Buf) where
  -- The members in the order of the tuple.
  unfoldable fields : ℕ → (Metric E.Double) → Read (Metric E.Double)
  fields i o =
      field E b (to_atom E b i o.name) (λ x. record o { name = x })
        (λ i o.
          field E b (to_uint64 E b i o.value_integer) (λ x. record o { value_integer = x })
            (λ i o.
              field E b (to_double E b i o.value_float64) (λ x. record o { value_float64 = x })
                done))

  -- The constructor. The numbers have no initial values: they are those of `junk`.
  unfoldable metric : (Metric E.Double) → ℕ → ℕ × (Metric E.Double)
  unfolding fields entity
  metric junk = entity E b fields (record junk { name = [] })

  unfoldable to_metric : (Metric E.Double) → ℕ → Read (Metric E.Double)
  unfolding metric
  to_metric junk i = let (j, o) = metric junk i in done j o

  pub to_metrics : (Metric E.Double) → ℕ → List (Metric E.Double) → Read (List (Metric E.Double))
  unfolding metric to_entities
  to_metrics junk = to_entities E b (metric junk)

  -- A metric record from `i` to `j`.
  pub data IsMetric (o : (Metric E.Double)) (i j : ℕ) : Type 0 where
    metric_tuple :
        (k k1 k2 : ℕ)
        → IsEntity E b i k
        → IsAtom E b o.name k k1
        → IsUnsigned E b o.value_integer k1 k2
        → IsFloat E b o.value_float64 k2 j
        → IsMetric o i j

  metric-IsMetric : (junk o : (Metric E.Double)) (i j : ℕ) → IsMetric o i j → metric junk i ≡ (j, o)
  unfolding metric fields
  metric-IsMetric junk o i j (metric_tuple k k1 k2 t h1 h2 h3) =
      entity-IsEntity E b fields (record junk { name = [] }) o i j k t
        (rw (
          to_atom-IsAtom E b o.name [] k k1 h1,
          to_uint64-IsUnsigned E b o.value_integer junk.value_integer k1 k2 h2,
          to_double-IsFloat E b o.value_float64 junk.value_float64 k2 j h3,
        ))

  IsTuple-IsMetric : (o : (Metric E.Double)) (i j : ℕ) → IsMetric o i j → IsTuple E b i
  IsTuple-IsMetric o i j (metric_tuple k k1 k2 t _ _ _) = t.0

  -- A list of metric records is read into an empty vector in order, each with its 3 members, and
  -- the index is left behind the list.
  pub to_metrics-IsListOf :
      (junk : (Metric E.Double)) (os : List (Metric E.Double)) (i j : ℕ)
      → IsListOf E b IsMetric os i j
      → to_metrics junk i [] ≡ done j os
  unfolding to_metrics
  to_metrics-IsListOf junk =
      to_entities-IsListOf E b IsMetric (metric junk) (metric-IsMetric junk) IsTuple-IsMetric
