-- ===== src/Tests/Entity/Metric.antt =====
-- A metric list in a buffer.
use swm_core.Prelude.{ℕ, List, [], ◌∷◌, ◌≡◌, refl, inl, codes, pos}
use swm_core.Decode.{done}
use swm_core.Decode.Terms.{small, stop, next, cons}
use swm_core.Entity.Metric.{Metric, metric_tuple, to_metrics, to_metrics-IsListOf}
use swm_core.Tests.Buffers.{
  Cell, tuple_cell, list_cell, atom_cell, int_cell, float_cell, nil_cell, cells,
}

abbrev a_metric : (Metric ℕ)
a_metric = record { name = codes "name"; value_integer = 8; value_float64 = 2 }

abbrev no_metric : (Metric ℕ)
no_metric = record { name = []; value_integer = 999; value_float64 = 999 }

abbrev buffer : List Cell
buffer =
    list_cell 1
    ∷ tuple_cell 4
    ∷ atom_cell (codes "metric")
    ∷ atom_cell (codes "name")
    ∷ int_cell (pos 8)
    ∷ float_cell 2
    ∷ nil_cell
    ∷ []

to_metrics-IsListOf_example : to_metrics cells buffer no_metric 0 [] ≡ done 7 (a_metric ∷ [])
to_metrics-IsListOf_example = to_metrics-IsListOf cells buffer no_metric (a_metric ∷ []) 0 7 (
    cons 1 6 (1, refl) refl refl
      (next {j = 6}
        (metric_tuple 3 4 5 (inl (1, refl), 4, 2, refl, refl) (((1, refl), refl, refl))
          ((small (1, refl), refl)) (((1, refl), refl)))
        (stop 6))
      refl)
