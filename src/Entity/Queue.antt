-- ===== src/Entity/Queue.antt =====
-- A queue: c_src/lib/wm_queue.cpp and its header.
use swm_core.Prelude.{ℕ, List, [], ◌≡◌, Bytes, ℤ}
use swm_core.Ei.{Ei}
use swm_core.Decode.{Read, done, to_atom, to_int64, to_str, to_uint64}
use swm_core.Decode.Vectors.{entity, field, to_entities, to_strs}
use swm_core.Decode.Terms.{
  IsEntity, IsTuple, entity-IsEntity, IsListOf, to_entities-IsListOf, IsAtom, IsSigned, IsText,
  IsTexts, IsUnsigned, to_atom-IsAtom, to_int64-IsSigned, to_str-IsText, to_strs-IsTexts,
  to_uint64-IsUnsigned,
}

record Queue : Type 0 where
  id : ℕ
  name : Bytes
  state : Bytes
  jobs : List Bytes
  nodes : List Bytes
  users : List Bytes
  admins : List Bytes
  hooks : List Bytes
  priority : ℤ
  comment : Bytes
  revision : ℕ

module _ (E : Ei) (b : E.Buf) where
  -- The members in the order of the tuple.
  unfoldable fields : ℕ → Queue → Read Queue
  fields i o =
      field E b (to_uint64 E b i o.id) (λ x. record o { id = x })
        (λ i o.
          field E b (to_str E b i o.name) (λ x. record o { name = x })
            (λ i o.
              field E b (to_atom E b i o.state) (λ x. record o { state = x })
                (λ i o.
                  field E b (to_strs E b i o.jobs) (λ x. record o { jobs = x })
                    (λ i o.
                      field E b (to_strs E b i o.nodes) (λ x. record o { nodes = x })
                        (λ i o.
                          field E b (to_strs E b i o.users) (λ x. record o { users = x })
                            (λ i o.
                              field E b (to_strs E b i o.admins) (λ x. record o { admins = x })
                                (λ i o.
                                  field E b (to_strs E b i o.hooks) (λ x. record o { hooks = x })
                                    (λ i o.
                                      field E b (to_int64 E b i o.priority)
                                        (λ x. record o { priority = x })
                                        (λ i o.
                                          field E b (to_str E b i o.comment)
                                            (λ x. record o { comment = x })
                                            (λ i o.
                                              field E b (to_uint64 E b i o.revision)
                                                (λ x. record o { revision = x }) done))))))))))

  -- The constructor. The numbers have no initial values: they are those of `junk`.
  unfoldable queue : Queue → ℕ → ℕ × Queue
  unfolding fields entity
  queue junk = entity E b fields (record junk {
    name = [];
    state = [];
    jobs = [];
    nodes = [];
    users = [];
    admins = [];
    hooks = [];
    comment = [];
  })

  unfoldable to_queue : Queue → ℕ → Read Queue
  unfolding queue
  to_queue junk i = let (j, o) = queue junk i in done j o

  to_queues : Queue → ℕ → List Queue → Read (List Queue)
  unfolding queue to_entities
  to_queues junk = to_entities E b (queue junk)

  -- A queue record from `i` to `j`.
  data IsQueue (o : Queue) (i j : ℕ) : Type 0 where
    queue_tuple :
        (k k1 k2 k3 k4 k5 k6 k7 k8 k9 k10 : ℕ)
        → IsEntity E b i k
        → IsUnsigned E b o.id k k1
        → IsText E b o.name k1 k2
        → IsAtom E b o.state k2 k3
        → IsTexts E b o.jobs k3 k4
        → IsTexts E b o.nodes k4 k5
        → IsTexts E b o.users k5 k6
        → IsTexts E b o.admins k6 k7
        → IsTexts E b o.hooks k7 k8
        → IsSigned E b o.priority k8 k9
        → IsText E b o.comment k9 k10
        → IsUnsigned E b o.revision k10 j
        → IsQueue o i j

  queue-IsQueue : (junk o : Queue) (i j : ℕ) → IsQueue o i j → queue junk i ≡ (j, o)
  unfolding queue fields
  queue-IsQueue junk o i j
        (queue_tuple k k1 k2 k3 k4 k5 k6 k7 k8 k9 k10 t h1 h2 h3 h4 h5 h6 h7 h8 h9 h10 h11) =
      entity-IsEntity E b fields
        (record junk {
          name = [];
          state = [];
          jobs = [];
          nodes = [];
          users = [];
          admins = [];
          hooks = [];
          comment = [];
        })
        o i j k t
        (rw (
          to_uint64-IsUnsigned E b o.id junk.id k k1 h1,
          to_str-IsText E b o.name k1 k2 h2,
          to_atom-IsAtom E b o.state [] k2 k3 h3,
          to_strs-IsTexts E b o.jobs k3 k4 h4,
          to_strs-IsTexts E b o.nodes k4 k5 h5,
          to_strs-IsTexts E b o.users k5 k6 h6,
          to_strs-IsTexts E b o.admins k6 k7 h7,
          to_strs-IsTexts E b o.hooks k7 k8 h8,
          to_int64-IsSigned E b o.priority junk.priority k8 k9 h9,
          to_str-IsText E b o.comment k9 k10 h10,
          to_uint64-IsUnsigned E b o.revision junk.revision k10 j h11,
        ))

  IsTuple-IsQueue : (o : Queue) (i j : ℕ) → IsQueue o i j → IsTuple E b i
  IsTuple-IsQueue o i j (queue_tuple k k1 k2 k3 k4 k5 k6 k7 k8 k9 k10 t _ _ _ _ _ _ _ _ _ _ _) = t.0

  -- A list of queue records is read into an empty vector in order, each with its 11 members, and
  -- the index is left behind the list.
  to_queues-IsListOf :
      (junk : Queue) (os : List Queue) (i j : ℕ)
      → IsListOf E b IsQueue os i j
      → to_queues junk i [] ≡ done j os
  unfolding to_queues
  to_queues-IsListOf junk =
      to_entities-IsListOf E b IsQueue (queue junk) (queue-IsQueue junk) IsTuple-IsQueue
