-- ===== src/Entity/Cluster.antt =====
-- A cluster: c_src/lib/wm_cluster.cpp and its header.
use swm_core.Prelude.{ℕ, List, [], ◌≡◌, Bytes, Option}
use swm_core.Ei.{Ei}
use swm_core.Decode.{Read, done, to_str, to_atom, to_uint64}
use swm_core.Decode.Vectors.{entity, field, to_entities, to_strs, to_tuples_atom_buff}
use swm_core.Decode.Terms.{
  IsEntity, IsTuple, entity-IsEntity, IsListOf, to_entities-IsListOf, IsText, IsAtom, IsUnsigned,
  IsTexts, to_str-IsText, to_atom-IsAtom, to_uint64-IsUnsigned, to_strs-IsTexts,
}
use swm_core.Decode.Tuples.{IsNamedTerm, to_tuples_atom_buff-IsListOf}
use swm_core.Entity.Resource.{Resource, Members, to_resources, IsResource, to_resources-IsListOf}

record Cluster (B : Type 0) : Type 0 where
  id : Bytes
  name : Bytes
  state : Bytes
  manager : Bytes
  partitions : List Bytes
  hooks : List Bytes
  scheduler : ℕ
  resources : List (Resource B)
  properties : List (Bytes × Option B)
  comment : Bytes
  revision : ℕ

module _ (E : Ei) (b : E.Buf) (zero_d : E.Double) (print_double : E.Double → Bytes)
    (inner : Members E.Buf) (levels : ℕ) where
  -- `inner` and `levels` are the numbers and the fuel of the resources.
  -- The members in the order of the tuple.
  unfoldable fields : ℕ → (Cluster E.Buf) → Read (Cluster E.Buf)
  fields i o =
      field E b (to_str E b i o.id) (λ x. record o { id = x })
        (λ i o.
          field E b (to_str E b i o.name) (λ x. record o { name = x })
            (λ i o.
              field E b (to_atom E b i o.state) (λ x. record o { state = x })
                (λ i o.
                  field E b (to_str E b i o.manager) (λ x. record o { manager = x })
                    (λ i o.
                      field E b (to_strs E b i o.partitions) (λ x. record o { partitions = x })
                        (λ i o.
                          field E b (to_strs E b i o.hooks) (λ x. record o { hooks = x })
                            (λ i o.
                              field E b (to_uint64 E b i o.scheduler)
                                (λ x. record o { scheduler = x })
                                (λ i o.
                                  field E b
                                    (to_resources E b zero_d print_double inner levels i
                                      o.resources)
                                    (λ x. record o { resources = x })
                                    (λ i o.
                                      field E b (to_tuples_atom_buff E b i o.properties)
                                        (λ x. record o { properties = x })
                                        (λ i o.
                                          field E b (to_str E b i o.comment)
                                            (λ x. record o { comment = x })
                                            (λ i o.
                                              field E b (to_uint64 E b i o.revision)
                                                (λ x. record o { revision = x }) done))))))))))

  -- The constructor. The numbers have no initial values: they are those of `junk`.
  unfoldable cluster : (Cluster E.Buf) → ℕ → ℕ × (Cluster E.Buf)
  unfolding fields entity
  cluster junk = entity E b fields (record junk {
    id = [];
    name = [];
    state = [];
    manager = [];
    partitions = [];
    hooks = [];
    resources = [];
    properties = [];
    comment = [];
  })

  unfoldable to_cluster : (Cluster E.Buf) → ℕ → Read (Cluster E.Buf)
  unfolding cluster
  to_cluster junk i = let (j, o) = cluster junk i in done j o

  unfoldable to_clusters : (Cluster E.Buf) → ℕ → List (Cluster E.Buf) → Read (List (Cluster E.Buf))
  unfolding cluster to_entities
  to_clusters junk = to_entities E b (cluster junk)

  -- A cluster record from `i` to `j`.
  data IsCluster (o : (Cluster E.Buf)) (i j : ℕ) : Type 0 where
    cluster_tuple :
        (k k1 k2 k3 k4 k5 k6 k7 k8 k9 k10 : ℕ)
        → IsEntity E b i k
        → IsText E b o.id k k1
        → IsText E b o.name k1 k2
        → IsAtom E b o.state k2 k3
        → IsText E b o.manager k3 k4
        → IsTexts E b o.partitions k4 k5
        → IsTexts E b o.hooks k5 k6
        → IsUnsigned E b o.scheduler k6 k7
        → IsListOf E b (IsResource E b zero_d print_double levels) o.resources k7 k8
        → IsListOf E b (IsNamedTerm E b) o.properties k8 k9
        → IsText E b o.comment k9 k10
        → IsUnsigned E b o.revision k10 j
        → IsCluster o i j

  cluster-IsCluster :
      (junk o : (Cluster E.Buf)) (i j : ℕ) → IsCluster o i j → cluster junk i ≡ (j, o)
  unfolding cluster fields
  cluster-IsCluster junk o i j
        (cluster_tuple k k1 k2 k3 k4 k5 k6 k7 k8 k9 k10 t h1 h2 h3 h4 h5 h6 h7 h8 h9 h10 h11) =
      entity-IsEntity E b fields
        (record junk {
          id = [];
          name = [];
          state = [];
          manager = [];
          partitions = [];
          hooks = [];
          resources = [];
          properties = [];
          comment = [];
        })
        o i j k t
        (rw (
          to_str-IsText E b o.id k k1 h1,
          to_str-IsText E b o.name k1 k2 h2,
          to_atom-IsAtom E b o.state [] k2 k3 h3,
          to_str-IsText E b o.manager k3 k4 h4,
          to_strs-IsTexts E b o.partitions k4 k5 h5,
          to_strs-IsTexts E b o.hooks k5 k6 h6,
          to_uint64-IsUnsigned E b o.scheduler junk.scheduler k6 k7 h7,
          to_resources-IsListOf E b zero_d print_double inner levels o.resources k7 k8 h8,
          to_tuples_atom_buff-IsListOf E b o.properties k8 k9 h9,
          to_str-IsText E b o.comment k9 k10 h10,
          to_uint64-IsUnsigned E b o.revision junk.revision k10 j h11,
        ))

  IsTuple-IsCluster : (o : (Cluster E.Buf)) (i j : ℕ) → IsCluster o i j → IsTuple E b i
  IsTuple-IsCluster o i j (cluster_tuple k k1 k2 k3 k4 k5 k6 k7 k8 k9 k10 t _ _ _ _ _ _ _ _ _ _ _) =
      t.0

  -- A list of cluster records is read into an empty vector in order, each with its 11 members, and
  -- the index is left behind the list.
  to_clusters-IsListOf :
      (junk : (Cluster E.Buf)) (os : List (Cluster E.Buf)) (i j : ℕ)
      → IsListOf E b IsCluster os i j
      → to_clusters junk i [] ≡ done j os
  unfolding to_clusters
  to_clusters-IsListOf junk =
      to_entities-IsListOf E b IsCluster (cluster junk) (cluster-IsCluster junk) IsTuple-IsCluster
