-- ===== src/Entity/Grid.antt =====
-- A grid: c_src/lib/wm_grid.cpp and its header.
use swm_core.Prelude.{ℕ, List, [], ◌≡◌, Bytes, Option}
use swm_core.Ei.{Ei}
use swm_core.Decode.{Read, done, to_str, to_atom, to_uint64}
use swm_core.Decode.Vectors.{entity, field, to_entities, to_strs, to_tuples_atom_buff}
use swm_core.Decode.Terms.{
  IsEntity, IsTuple, entity-IsEntity, IsListOf, to_entities-IsListOf, IsText, IsAtom, IsUnsigned,
  IsTexts, to_str-IsText, to_atom-IsAtom, to_uint64-IsUnsigned, to_strs-IsTexts,
}
use swm_core.Decode.Tuples.{IsNamedTerm, to_tuples_atom_buff-IsListOf}
use swm_core.Entity.Resource.{Resource, Members, to_resources, IsResource, to_resources-IsListOf}

record Grid (B : Type 0) : Type 0 where
  id : Bytes
  name : Bytes
  state : Bytes
  manager : Bytes
  clusters : List Bytes
  hooks : List Bytes
  scheduler : ℕ
  resources : List (Resource B)
  properties : List (Bytes × Option B)
  comment : Bytes
  revision : ℕ

module _ (E : Ei) (b : E.Buf) (zero_d : E.Double) (print_double : E.Double → Bytes)
    (inner : Members E.Buf) (levels : ℕ) where
  -- `inner` and `levels` are the numbers and the fuel of the resources.
  -- The members in the order of the tuple.
  unfoldable fields : ℕ → (Grid E.Buf) → Read (Grid E.Buf)
  fields i o =
      field E b (to_str E b i o.id) (λ x. record o { id = x })
        (λ i o.
          field E b (to_str E b i o.name) (λ x. record o { name = x })
            (λ i o.
              field E b (to_atom E b i o.state) (λ x. record o { state = x })
                (λ i o.
                  field E b (to_str E b i o.manager) (λ x. record o { manager = x })
                    (λ i o.
                      field E b (to_strs E b i o.clusters) (λ x. record o { clusters = x })
                        (λ i o.
                          field E b (to_strs E b i o.hooks) (λ x. record o { hooks = x })
                            (λ i o.
                              field E b (to_uint64 E b i o.scheduler)
                                (λ x. record o { scheduler = x })
                                (λ i o.
                                  field E b
                                    (to_resources E b zero_d print_double inner levels i
                                      o.resources)
                                    (λ x. record o { resources = x })
                                    (λ i o.
                                      field E b (to_tuples_atom_buff E b i o.properties)
                                        (λ x. record o { properties = x })
                                        (λ i o.
                                          field E b (to_str E b i o.comment)
                                            (λ x. record o { comment = x })
                                            (λ i o.
                                              field E b (to_uint64 E b i o.revision)
                                                (λ x. record o { revision = x }) done))))))))))

  -- The constructor. The numbers have no initial values: they are those of `junk`.
  unfoldable grid : (Grid E.Buf) → ℕ → ℕ × (Grid E.Buf)
  unfolding fields entity
  grid junk = entity E b fields (record junk {
    id = [];
    name = [];
    state = [];
    manager = [];
    clusters = [];
    hooks = [];
    resources = [];
    properties = [];
    comment = [];
  })

  unfoldable to_grid : (Grid E.Buf) → ℕ → Read (Grid E.Buf)
  unfolding grid
  to_grid junk i = let (j, o) = grid junk i in done j o

  unfoldable to_grids : (Grid E.Buf) → ℕ → List (Grid E.Buf) → Read (List (Grid E.Buf))
  unfolding grid to_entities
  to_grids junk = to_entities E b (grid junk)

  -- A grid record from `i` to `j`.
  data IsGrid (o : (Grid E.Buf)) (i j : ℕ) : Type 0 where
    grid_tuple :
        (k k1 k2 k3 k4 k5 k6 k7 k8 k9 k10 : ℕ)
        → IsEntity E b i k
        → IsText E b o.id k k1
        → IsText E b o.name k1 k2
        → IsAtom E b o.state k2 k3
        → IsText E b o.manager k3 k4
        → IsTexts E b o.clusters k4 k5
        → IsTexts E b o.hooks k5 k6
        → IsUnsigned E b o.scheduler k6 k7
        → IsListOf E b (IsResource E b zero_d print_double levels) o.resources k7 k8
        → IsListOf E b (IsNamedTerm E b) o.properties k8 k9
        → IsText E b o.comment k9 k10
        → IsUnsigned E b o.revision k10 j
        → IsGrid o i j

  grid-IsGrid : (junk o : (Grid E.Buf)) (i j : ℕ) → IsGrid o i j → grid junk i ≡ (j, o)
  unfolding grid fields
  grid-IsGrid junk o i j
        (grid_tuple k k1 k2 k3 k4 k5 k6 k7 k8 k9 k10 t h1 h2 h3 h4 h5 h6 h7 h8 h9 h10 h11) =
      entity-IsEntity E b fields
        (record junk {
          id = [];
          name = [];
          state = [];
          manager = [];
          clusters = [];
          hooks = [];
          resources = [];
          properties = [];
          comment = [];
        })
        o i j k t
        (rw (
          to_str-IsText E b o.id k k1 h1,
          to_str-IsText E b o.name k1 k2 h2,
          to_atom-IsAtom E b o.state [] k2 k3 h3,
          to_str-IsText E b o.manager k3 k4 h4,
          to_strs-IsTexts E b o.clusters k4 k5 h5,
          to_strs-IsTexts E b o.hooks k5 k6 h6,
          to_uint64-IsUnsigned E b o.scheduler junk.scheduler k6 k7 h7,
          to_resources-IsListOf E b zero_d print_double inner levels o.resources k7 k8 h8,
          to_tuples_atom_buff-IsListOf E b o.properties k8 k9 h9,
          to_str-IsText E b o.comment k9 k10 h10,
          to_uint64-IsUnsigned E b o.revision junk.revision k10 j h11,
        ))

  IsTuple-IsGrid : (o : (Grid E.Buf)) (i j : ℕ) → IsGrid o i j → IsTuple E b i
  IsTuple-IsGrid o i j (grid_tuple k k1 k2 k3 k4 k5 k6 k7 k8 k9 k10 t _ _ _ _ _ _ _ _ _ _ _) = t.0

  -- A list of grid records is read into an empty vector in order, each with its 11 members, and
  -- the index is left behind the list.
  to_grids-IsListOf :
      (junk : (Grid E.Buf)) (os : List (Grid E.Buf)) (i j : ℕ)
      → IsListOf E b IsGrid os i j
      → to_grids junk i [] ≡ done j os
  unfolding to_grids
  to_grids-IsListOf junk =
      to_entities-IsListOf E b IsGrid (grid junk) (grid-IsGrid junk) IsTuple-IsGrid
