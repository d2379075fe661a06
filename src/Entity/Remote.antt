-- ===== src/Entity/Remote.antt =====
-- A remote: c_src/lib/wm_remote.cpp and its header.
use swm_core.Prelude.{ℕ, List, [], ◌≡◌, Bytes}
use swm_core.Ei.{Ei}
use swm_core.Decode.{Read, done, to_str, to_atom, to_uint64}
use swm_core.Decode.Vectors.{entity, field, to_entities}
use swm_core.Decode.Maps.{to_map}
use swm_core.Decode.Terms.{
  IsEntity, IsTuple, entity-IsEntity, IsListOf, to_entities-IsListOf, IsText, IsAtom, IsUnsigned,
  to_str-IsText, to_atom-IsAtom, to_uint64-IsUnsigned,
}
use swm_core.Decode.Tuples.{IsMap, to_map-IsMap}

record Remote : Type 0 where
  id : Bytes
  account_id : Bytes
  default_image_id : Bytes
  default_flavor_id : Bytes
  name : Bytes
  kind : Bytes
  location : Bytes
  server : Bytes
  port : ℕ
  runtime : List (Bytes × Bytes)
  revision : ℕ

module _ (E : Ei) (b : E.Buf) (zero_d : E.Double) (print_double : E.Double → Bytes) where
  -- The members in the order of the tuple.
  unfoldable fields : ℕ → Remote → Read Remote
  fields i o =
      field E b (to_str E b i o.id) (λ x. record o { id = x })
        (λ i o.
          field E b (to_str E b i o.account_id) (λ x. record o { account_id = x })
            (λ i o.
              field E b (to_str E b i o.default_image_id) (λ x. record o { default_image_id = x })
                (λ i o.
                  field E b (to_str E b i o.default_flavor_id)
                    (λ x. record o { default_flavor_id = x })
                    (λ i o.
                      field E b (to_atom E b i o.name) (λ x. record o { name = x })
                        (λ i o.
                          field E b (to_atom E b i o.kind) (λ x. record o { kind = x })
                            (λ i o.
                              field E b (to_str E b i o.location) (λ x. record o { location = x })
                                (λ i o.
                                  field E b (to_str E b i o.server) (λ x. record o { server = x })
                                    (λ i o.
                                      field E b (to_uint64 E b i o.port)
                                        (λ x. record o { port = x })
                                        (λ i o.
                                          field E b (to_map E b zero_d print_double i o.runtime)
                                            (λ x. record o { runtime = x })
                                            (λ i o.
                                              field E b (to_uint64 E b i o.revision)
                                                (λ x. record o { revision = x }) done))))))))))

  -- The constructor. The numbers have no initial values: they are those of `junk`.
  unfoldable remote : Remote → ℕ → ℕ × Remote
  unfolding fields entity
  remote junk = entity E b fields (record junk {
    id = [];
    account_id = [];
    default_image_id = [];
    default_flavor_id = [];
    name = [];
    kind = [];
    location = [];
    server = [];
    runtime = [];
  })

  unfoldable to_remote : Remote → ℕ → Read Remote
  unfolding remote
  to_remote junk i = let (j, o) = remote junk i in done j o

  unfoldable to_remotes : Remote → ℕ → List Remote → Read (List Remote)
  unfolding remote to_entities
  to_remotes junk = to_entities E b (remote junk)

  -- A remote record from `i` to `j`.
  data IsRemote (o : Remote) (i j : ℕ) : Type 0 where
    remote_tuple :
        (k k1 k2 k3 k4 k5 k6 k7 k8 k9 k10 : ℕ)
        → IsEntity E b i k
        → IsText E b o.id k k1
        → IsText E b o.account_id k1 k2
        → IsText E b o.default_image_id k2 k3
        → IsText E b o.default_flavor_id k3 k4
        → IsAtom E b o.name k4 k5
        → IsAtom E b o.kind k5 k6
        → IsText E b o.location k6 k7
        → IsText E b o.server k7 k8
        → IsUnsigned E b o.port k8 k9
        → IsMap E b zero_d print_double o.runtime k9 k10
        → IsUnsigned E b o.revision k10 j
        → IsRemote o i j

  remote-IsRemote : (junk o : Remote) (i j : ℕ) → IsRemote o i j → remote junk i ≡ (j, o)
  unfolding remote fields
  remote-IsRemote junk o i j
        (remote_tuple k k1 k2 k3 k4 k5 k6 k7 k8 k9 k10 t h1 h2 h3 h4 h5 h6 h7 h8 h9 h10 h11) =
      entity-IsEntity E b fields
        (record junk {
          id = [];
          account_id = [];
          default_image_id = [];
          default_flavor_id = [];
          name = [];
          kind = [];
          location = [];
          server = [];
          runtime = [];
        })
        o i j k t
        (rw (
          to_str-IsText E b o.id k k1 h1,
          to_str-IsText E b o.account_id k1 k2 h2,
          to_str-IsText E b o.default_image_id k2 k3 h3,
          to_str-IsText E b o.default_flavor_id k3 k4 h4,
          to_atom-IsAtom E b o.name [] k4 k5 h5,
          to_atom-IsAtom E b o.kind [] k5 k6 h6,
          to_str-IsText E b o.location k6 k7 h7,
          to_str-IsText E b o.server k7 k8 h8,
          to_uint64-IsUnsigned E b o.port junk.port k8 k9 h9,
          to_map-IsMap E b zero_d print_double o.runtime k9 k10 h10,
          to_uint64-IsUnsigned E b o.revision junk.revision k10 j h11,
        ))

  IsTuple-IsRemote : (o : Remote) (i j : ℕ) → IsRemote o i j → IsTuple E b i
  IsTuple-IsRemote o i j (remote_tuple k k1 k2 k3 k4 k5 k6 k7 k8 k9 k10 t _ _ _ _ _ _ _ _ _ _ _) =
      t.0

  -- A list of remote records is read into an empty vector in order, each with its 11 members, and
  -- the index is left behind the list.
  to_remotes-IsListOf :
      (junk : Remote) (os : List Remote) (i j : ℕ)
      → IsListOf E b IsRemote os i j
      → to_remotes junk i [] ≡ done j os
  unfolding to_remotes
  to_remotes-IsListOf junk =
      to_entities-IsListOf E b IsRemote (remote junk) (remote-IsRemote junk) IsTuple-IsRemote
