-- ===== src/Entity/Partition.antt =====
-- A partition: c_src/lib/wm_partition.cpp and its header.
use swm_core.Prelude.{ℕ, List, [], ◌≡◌, Bytes, Option}
use swm_core.Ei.{Ei}
use swm_core.Decode.{Read, done, to_str, to_atom, to_uint64}
use swm_core.Decode.Vectors.{entity, field, to_entities, to_strs, to_tuples_atom_buff}
use swm_core.Decode.Maps.{to_map}
use swm_core.Decode.Terms.{
  IsEntity, IsTuple, entity-IsEntity, IsListOf, to_entities-IsListOf, IsText, IsAtom, IsUnsigned,
  IsTexts, to_str-IsText, to_atom-IsAtom, to_uint64-IsUnsigned, to_strs-IsTexts,
}
use swm_core.Decode.Tuples.{IsNamedTerm, IsMap, to_tuples_atom_buff-IsListOf, to_map-IsMap}
use swm_core.Entity.Resource.{Resource, Members, to_resources, IsResource, to_resources-IsListOf}

record Partition (B : Type 0) : Type 0 where
  id : Bytes
  name : Bytes
  state : Bytes
  manager : Bytes
  nodes : List Bytes
  partitions : List Bytes
  hooks : List Bytes
  scheduler : ℕ
  jobs_per_node : ℕ
  resources : List (Resource B)
  properties : List (Bytes × Option B)
  subdivision : Bytes
  subdivision_id : Bytes
  created : Bytes
  updated : Bytes
  external_id : Bytes
  addresses : List (Bytes × Bytes)
  comment : Bytes
  revision : ℕ

module _ (E : Ei) (b : E.Buf) (zero_d : E.Double) (print_double : E.Double → Bytes)
    (inner : Members E.Buf) (levels : ℕ) where
  -- `inner` and `levels` are the numbers and the fuel of the resources.
  -- The members in the order of the tuple.
  unfoldable fields : ℕ → (Partition E.Buf) → Read (Partition E.Buf)
  fields i o =
      field E b (to_str E b i o.id) (λ x. record o { id = x })
        (λ i o.
          field E b (to_str E b i o.name) (λ x. record o { name = x })
            (λ i o.
              field E b (to_atom E b i o.state) (λ x. record o { state = x })
                (λ i o.
                  field E b (to_str E b i o.manager) (λ x. record o { manager = x })
                    (λ i o.
                      field E b (to_strs E b i o.nodes) (λ x. record o { nodes = x })
                        (λ i o.
                          field E b (to_strs E b i o.partitions) (λ x. record o { partitions = x })
                            (λ i o.
                              field E b (to_strs E b i o.hooks) (λ x. record o { hooks = x })
                                (λ i o.
                                  field E b (to_uint64 E b i o.scheduler)
                                    (λ x. record o { scheduler = x })
                                    (λ i o.
                                      field E b (to_uint64 E b i o.jobs_per_node)
                                        (λ x. record o { jobs_per_node = x })
                                        (λ i o.
                                          field E b
                                            (to_resources E b zero_d print_double inner levels i
                                              o.resources)
                                            (λ x. record o { resources = x })
                                            (λ i o.
                                              field E b (to_tuples_atom_buff E b i o.properties)
                                                (λ x. record o { properties = x })
                                                (λ i o.
                                                  field E b (to_atom E b i o.subdivision)
                                                    (λ x. record o { subdivision = x })
                                                    (λ i o.
                                                      field E b (to_str E b i o.subdivision_id)
                                                        (λ x. record o { subdivision_id = x })
                                                        (λ i o.
                                                          field E b (to_str E b i o.created)
                                                            (λ x. record o { created = x })
                                                            (λ i o.
                                                            field E b (to_str E b i o.updated)
                                                            (λ x. record o { updated = x })
                                                            (λ i o.
                                                            field E b (to_str E b i o.external_id)
                                                            (λ x. record o { external_id = x })
                                                            (λ i o.
                                                            field E b
                                                            (to_map E b zero_d print_double i
                                                            o.addresses)
                                                            (λ x. record o { addresses = x })
                                                            (λ i o.
                                                            field E b (to_str E b i o.comment)
                                                            (λ x. record o { comment = x })
                                                            (λ i o.
                                                            field E b (to_uint64 E b i o.revision)
                                                            (λ x. record o { revision = x })
                                                            done))))))))))))))))))

  -- The constructor. The numbers have no initial values: they are those of `junk`.
  unfoldable partition : (Partition E.Buf) → ℕ → ℕ × (Partition E.Buf)
  unfolding fields entity
  partition junk = entity E b fields (record junk {
    id = [];
    name = [];
    state = [];
    manager = [];
    nodes = [];
    partitions = [];
    hooks = [];
    resources = [];
    properties = [];
    subdivision = [];
    subdivision_id = [];
    created = [];
    updated = [];
    external_id = [];
    addresses = [];
    comment = [];
  })

  unfoldable to_partition : (Partition E.Buf) → ℕ → Read (Partition E.Buf)
  unfolding partition
  to_partition junk i = let (j, o) = partition junk i in done j o

  unfoldable to_partitions :
      (Partition E.Buf) → ℕ → List (Partition E.Buf) → Read (List (Partition E.Buf))
  unfolding partition to_entities
  to_partitions junk = to_entities E b (partition junk)

  -- A partition record from `i` to `j`.
  data IsPartition (o : (Partition E.Buf)) (i j : ℕ) : Type 0 where
    partition_tuple :
        (k k1 k2 k3 k4 k5 k6 k7 k8 k9 k10 k11 k12 k13 k14 k15 k16 k17 k18 : ℕ)
        → IsEntity E b i k
        → IsText E b o.id k k1
        → IsText E b o.name k1 k2
        → IsAtom E b o.state k2 k3
        → IsText E b o.manager k3 k4
        → IsTexts E b o.nodes k4 k5
        → IsTexts E b o.partitions k5 k6
        → IsTexts E b o.hooks k6 k7
        → IsUnsigned E b o.scheduler k7 k8
        → IsUnsigned E b o.jobs_per_node k8 k9
        → IsListOf E b (IsResource E b zero_d print_double levels) o.resources k9 k10
        → IsListOf E b (IsNamedTerm E b) o.properties k10 k11
        → IsAtom E b o.subdivision k11 k12
        → IsText E b o.subdivision_id k12 k13
        → IsText E b o.created k13 k14
        → IsText E b o.updated k14 k15
        → IsText E b o.external_id k15 k16
        → IsMap E b zero_d print_double o.addresses k16 k17
        → IsText E b o.comment k17 k18
        → IsUnsigned E b o.revision k18 j
        → IsPartition o i j

  partition-IsPartition :
      (junk o : (Partition E.Buf)) (i j : ℕ) → IsPartition o i j → partition junk i ≡ (j, o)
  unfolding partition fields
  partition-IsPartition junk o i j
        (partition_tuple k k1 k2 k3 k4 k5 k6 k7 k8 k9 k10 k11 k12 k13 k14 k15 k16 k17 k18 t h1 h2 h3
          h4 h5 h6 h7 h8 h9 h10 h11 h12 h13 h14 h15 h16 h17 h18 h19) =
      entity-IsEntity E b fields
        (record junk {
          id = [];
          name = [];
          state = [];
          manager = [];
          nodes = [];
          partitions = [];
          hooks = [];
          resources = [];
          properties = [];
          subdivision = [];
          subdivision_id = [];
          created = [];
          updated = [];
          external_id = [];
          addresses = [];
          comment = [];
        })
        o i j k t
        (rw (
          to_str-IsText E b o.id k k1 h1,
          to_str-IsText E b o.name k1 k2 h2,
          to_atom-IsAtom E b o.state [] k2 k3 h3,
          to_str-IsText E b o.manager k3 k4 h4,
          to_strs-IsTexts E b o.nodes k4 k5 h5,
          to_strs-IsTexts E b o.partitions k5 k6 h6,
          to_strs-IsTexts E b o.hooks k6 k7 h7,
          to_uint64-IsUnsigned E b o.scheduler junk.scheduler k7 k8 h8,
          to_uint64-IsUnsigned E b o.jobs_per_node junk.jobs_per_node k8 k9 h9,
          to_resources-IsListOf E b zero_d print_double inner levels o.resources k9 k10 h10,
          to_tuples_atom_buff-IsListOf E b o.properties k10 k11 h11,
          to_atom-IsAtom E b o.subdivision [] k11 k12 h12,
          to_str-IsText E b o.subdivision_id k12 k13 h13,
          to_str-IsText E b o.created k13 k14 h14,
          to_str-IsText E b o.updated k14 k15 h15,
          to_str-IsText E b o.external_id k15 k16 h16,
          to_map-IsMap E b zero_d print_double o.addresses k16 k17 h17,
          to_str-IsText E b o.comment k17 k18 h18,
          to_uint64-IsUnsigned E b o.revision junk.revision k18 j h19,
        ))

  IsTuple-IsPartition : (o : (Partition E.Buf)) (i j : ℕ) → IsPartition o i j → IsTuple E b i
  IsTuple-IsPartition o i j
        (partition_tuple k k1 k2 k3 k4 k5 k6 k7 k8 k9 k10 k11 k12 k13 k14 k15 k16 k17 k18 t _ _ _ _
          _ _ _ _ _ _ _ _ _ _ _ _ _ _ _) =
      t.0

  -- A list of partition records is read into an empty vector in order, each with its 19 members, and
  -- the index is left behind the list.
  to_partitions-IsListOf :
      (junk : (Partition E.Buf)) (os : List (Partition E.Buf)) (i j : ℕ)
      → IsListOf E b IsPartition os i j
      → to_partitions junk i [] ≡ done j os
  unfolding to_partitions
  to_partitions-IsListOf junk =
      to_entities-IsListOf E b IsPartition (partition junk) (partition-IsPartition junk)
        IsTuple-IsPartition
