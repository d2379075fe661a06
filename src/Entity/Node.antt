-- ===== src/Entity/Node.antt =====
-- A node: c_src/lib/wm_node.cpp and its header.
use swm_core.Prelude.{ℕ, List, [], ◌≡◌, Bytes, Option}
use swm_core.Ei.{Ei}
use swm_core.Decode.{Read, done, to_str, to_atom, to_uint64}
use swm_core.Decode.Vectors.{entity, field, to_entities, to_uint64s, to_tuples_atom_buff}
use swm_core.Decode.Maps.{to_map}
use swm_core.Decode.Terms.{
  IsEntity, IsTuple, entity-IsEntity, IsListOf, to_entities-IsListOf, IsText, IsAtom, IsUnsigned,
  IsNumbers, to_str-IsText, to_atom-IsAtom, to_uint64-IsUnsigned, to_uint64s-IsNumbers,
}
use swm_core.Decode.Tuples.{IsNamedTerm, IsMap, to_tuples_atom_buff-IsListOf, to_map-IsMap}
use swm_core.Entity.Resource.{Resource, Members, to_resources, IsResource, to_resources-IsListOf}

record Node (B : Type 0) : Type 0 where
  id : Bytes
  name : Bytes
  host : Bytes
  api_port : ℕ
  parent : Bytes
  state_power : Bytes
  state_alloc : Bytes
  roles : List ℕ
  resources : List (Resource B)
  properties : List (Bytes × Option B)
  subdivision : Bytes
  subdivision_id : Bytes
  comment : Bytes
  remote_id : Bytes
  is_template : Bytes
  gateway : Bytes
  prices : List (Bytes × Bytes)
  revision : ℕ

module _ (E : Ei) (b : E.Buf) (zero_d : E.Double) (print_double : E.Double → Bytes)
    (inner : Members E.Buf) (levels : ℕ) where
  -- `inner` and `levels` are the numbers and the fuel of the resources.
  -- The members in the order of the tuple.
  unfoldable fields : ℕ → (Node E.Buf) → Read (Node E.Buf)
  fields i o =
      field E b (to_str E b i o.id) (λ x. record o { id = x })
        (λ i o.
          field E b (to_str E b i o.name) (λ x. record o { name = x })
            (λ i o.
              field E b (to_str E b i o.host) (λ x. record o { host = x })
                (λ i o.
                  field E b (to_uint64 E b i o.api_port) (λ x. record o { api_port = x })
                    (λ i o.
                      field E b (to_str E b i o.parent) (λ x. record o { parent = x })
                        (λ i o.
                          field E b (to_atom E b i o.state_power)
                            (λ x. record o { state_power = x })
                            (λ i o.
                              field E b (to_atom E b i o.state_alloc)
                                (λ x. record o { state_alloc = x })
                                (λ i o.
                                  field E b (to_uint64s E b i o.roles) (λ x. record o { roles = x })
                                    (λ i o.
                                      field E b
                                        (to_resources E b zero_d print_double inner levels i
                                          o.resources)
                                        (λ x. record o { resources = x })
                                        (λ i o.
                                          field E b (to_tuples_atom_buff E b i o.properties)
                                            (λ x. record o { properties = x })
                                            (λ i o.
                                              field E b (to_atom E b i o.subdivision)
                                                (λ x. record o { subdivision = x })
                                                (λ i o.
                                                  field E b (to_str E b i o.subdivision_id)
                                                    (λ x. record o { subdivision_id = x })
                                                    (λ i o.
                                                      field E b (to_str E b i o.comment)
                                                        (λ x. record o { comment = x })
                                                        (λ i o.
                                                          field E b (to_str E b i o.remote_id)
                                                            (λ x. record o { remote_id = x })
                                                            (λ i o.
                                                            field E b (to_atom E b i o.is_template)
                                                            (λ x. record o { is_template = x })
                                                            (λ i o.
                                                            field E b (to_str E b i o.gateway)
                                                            (λ x. record o { gateway = x })
                                                            (λ i o.
                                                            field E b
                                                            (to_map E b zero_d print_double i
                                                            o.prices)
                                                            (λ x. record o { prices = x })
                                                            (λ i o.
                                                            field E b (to_uint64 E b i o.revision)
                                                            (λ x. record o { revision = x })
                                                            done)))))))))))))))))

  -- The constructor. The numbers have no initial values: they are those of `junk`.
  unfoldable node : (Node E.Buf) → ℕ → ℕ × (Node E.Buf)
  unfolding fields entity
  node junk = entity E b fields (record junk {
    id = [];
    name = [];
    host = [];
    parent = [];
    state_power = [];
    state_alloc = [];
    roles = [];
    resources = [];
    properties = [];
    subdivision = [];
    subdivision_id = [];
    comment = [];
    remote_id = [];
    is_template = [];
    gateway = [];
    prices = [];
  })

  unfoldable to_node : (Node E.Buf) → ℕ → Read (Node E.Buf)
  unfolding node
  to_node junk i = let (j, o) = node junk i in done j o

  unfoldable to_nodes : (Node E.Buf) → ℕ → List (Node E.Buf) → Read (List (Node E.Buf))
  unfolding node to_entities
  to_nodes junk = to_entities E b (node junk)

  -- A node record from `i` to `j`.
  data IsNode (o : (Node E.Buf)) (i j : ℕ) : Type 0 where
    node_tuple :
        (k k1 k2 k3 k4 k5 k6 k7 k8 k9 k10 k11 k12 k13 k14 k15 k16 k17 : ℕ)
        → IsEntity E b i k
        → IsText E b o.id k k1
        → IsText E b o.name k1 k2
        → IsText E b o.host k2 k3
        → IsUnsigned E b o.api_port k3 k4
        → IsText E b o.parent k4 k5
        → IsAtom E b o.state_power k5 k6
        → IsAtom E b o.state_alloc k6 k7
        → IsNumbers E b o.roles k7 k8
        → IsListOf E b (IsResource E b zero_d print_double levels) o.resources k8 k9
        → IsListOf E b (IsNamedTerm E b) o.properties k9 k10
        → IsAtom E b o.subdivision k10 k11
        → IsText E b o.subdivision_id k11 k12
        → IsText E b o.comment k12 k13
        → IsText E b o.remote_id k13 k14
        → IsAtom E b o.is_template k14 k15
        → IsText E b o.gateway k15 k16
        → IsMap E b zero_d print_double o.prices k16 k17
        → IsUnsigned E b o.revision k17 j
        → IsNode o i j

  node-IsNode : (junk o : (Node E.Buf)) (i j : ℕ) → IsNode o i j → node junk i ≡ (j, o)
  unfolding node fields
  node-IsNode junk o i j
        (node_tuple k k1 k2 k3 k4 k5 k6 k7 k8 k9 k10 k11 k12 k13 k14 k15 k16 k17 t h1 h2 h3 h4 h5 h6
          h7 h8 h9 h10 h11 h12 h13 h14 h15 h16 h17 h18) =
      entity-IsEntity E b fields
        (record junk {
          id = [];
          name = [];
          host = [];
          parent = [];
          state_power = [];
          state_alloc = [];
          roles = [];
          resources = [];
          properties = [];
          subdivision = [];
          subdivision_id = [];
          comment = [];
          remote_id = [];
          is_template = [];
          gateway = [];
          prices = [];
        })
        o i j k t
        (rw (
          to_str-IsText E b o.id k k1 h1,
          to_str-IsText E b o.name k1 k2 h2,
          to_str-IsText E b o.host k2 k3 h3,
          to_uint64-IsUnsigned E b o.api_port junk.api_port k3 k4 h4,
          to_str-IsText E b o.parent k4 k5 h5,
          to_atom-IsAtom E b o.state_power [] k5 k6 h6,
          to_atom-IsAtom E b o.state_alloc [] k6 k7 h7,
          to_uint64s-IsNumbers E b o.roles k7 k8 h8,
          to_resources-IsListOf E b zero_d print_double inner levels o.resources k8 k9 h9,
          to_tuples_atom_buff-IsListOf E b o.properties k9 k10 h10,
          to_atom-IsAtom E b o.subdivision [] k10 k11 h11,
          to_str-IsText E b o.subdivision_id k11 k12 h12,
          to_str-IsText E b o.comment k12 k13 h13,
          to_str-IsText E b o.remote_id k13 k14 h14,
          to_atom-IsAtom E b o.is_template [] k14 k15 h15,
          to_str-IsText E b o.gateway k15 k16 h16,
          to_map-IsMap E b zero_d print_double o.prices k16 k17 h17,
          to_uint64-IsUnsigned E b o.revision junk.revision k17 j h18,
        ))

  IsTuple-IsNode : (o : (Node E.Buf)) (i j : ℕ) → IsNode o i j → IsTuple E b i
  IsTuple-IsNode o i j
        (node_tuple k k1 k2 k3 k4 k5 k6 k7 k8 k9 k10 k11 k12 k13 k14 k15 k16 k17 t _ _ _ _ _ _ _ _ _
          _ _ _ _ _ _ _ _ _) =
      t.0

  -- A list of node records is read into an empty vector in order, each with its 18 members, and
  -- the index is left behind the list.
  to_nodes-IsListOf :
      (junk : (Node E.Buf)) (os : List (Node E.Buf)) (i j : ℕ)
      → IsListOf E b IsNode os i j
      → to_nodes junk i [] ≡ done j os
  unfolding to_nodes
  to_nodes-IsListOf junk =
      to_entities-IsListOf E b IsNode (node junk) (node-IsNode junk) IsTuple-IsNode
