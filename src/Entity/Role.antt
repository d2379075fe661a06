-- ===== src/Entity/Role.antt =====
-- A role: c_src/lib/wm_role.cpp and its header.
use swm_core.Prelude.{ℕ, List, [], ◌≡◌, Bytes}
use swm_core.Ei.{Ei}
use swm_core.Decode.{Read, done, to_str, to_uint64}
use swm_core.Decode.Vectors.{entity, field, to_entities, to_uint64s}
use swm_core.Decode.Terms.{
  IsEntity, IsTuple, entity-IsEntity, IsListOf, to_entities-IsListOf, IsNumbers, IsText, IsUnsigned,
  to_str-IsText, to_uint64-IsUnsigned, to_uint64s-IsNumbers,
}

record Role : Type 0 where
  id : ℕ
  name : Bytes
  services : List ℕ
  comment : Bytes
  revision : ℕ

module _ (E : Ei) (b : E.Buf) where
  -- The members in the order of the tuple.
  unfoldable fields : ℕ → Role → Read Role
  fields i o =
      field E b (to_uint64 E b i o.id) (λ x. record o { id = x })
        (λ i o.
          field E b (to_str E b i o.name) (λ x. record o { name = x })
            (λ i o.
              field E b (to_uint64s E b i o.services) (λ x. record o { services = x })
                (λ i o.
                  field E b (to_str E b i o.comment) (λ x. record o { comment = x })
                    (λ i o.
                      field E b (to_uint64 E b i o.revision) (λ x. record o { revision = x })
                        done))))

  -- The constructor. The numbers have no initial values: they are those of `junk`.
  unfoldable role : Role → ℕ → ℕ × Role
  unfolding fields entity
  role junk = entity E b fields (record junk { name = []; services = []; comment = [] })

  unfoldable to_role : Role → ℕ → Read Role
  unfolding role
  to_role junk i = let (j, o) = role junk i in done j o

  to_roles : Role → ℕ → List Role → Read (List Role)
  unfolding role to_entities
  to_roles junk = to_entities E b (role junk)

  -- A role record from `i` to `j`.
  data IsRole (o : Role) (i j : ℕ) : Type 0 where
    role_tuple :
        (k k1 k2 k3 k4 : ℕ)
        → IsEntity E b i k
        → IsUnsigned E b o.id k k1
        → IsText E b o.name k1 k2
        → IsNumbers E b o.services k2 k3
        → IsText E b o.comment k3 k4
        → IsUnsigned E b o.revision k4 j
        → IsRole o i j

  role-IsRole : (junk o : Role) (i j : ℕ) → IsRole o i j → role junk i ≡ (j, o)
  unfolding role fields
  role-IsRole junk o i j (role_tuple k k1 k2 k3 k4 t h1 h2 h3 h4 h5) =
      entity-IsEntity E b fields (record junk { name = []; services = []; comment = [] }) o i j k t
        (rw (
          to_uint64-IsUnsigned E b o.id junk.id k k1 h1,
          to_str-IsText E b o.name k1 k2 h2,
          to_uint64s-IsNumbers E b o.services k2 k3 h3,
          to_str-IsText E b o.comment k3 k4 h4,
          to_uint64-IsUnsigned E b o.revision junk.revision k4 j h5,
        ))

  IsTuple-IsRole : (o : Role) (i j : ℕ) → IsRole o i j → IsTuple E b i
  IsTuple-IsRole o i j (role_tuple k k1 k2 k3 k4 t _ _ _ _ _) = t.0

  -- A list of role records is read into an empty vector in order, each with its 5 members, and
  -- the index is left behind the list.
  to_roles-IsListOf :
      (junk : Role) (os : List Role) (i j : ℕ)
      → IsListOf E b IsRole os i j
      → to_roles junk i [] ≡ done j os
  unfolding to_roles
  to_roles-IsListOf junk =
      to_entities-IsListOf E b IsRole (role junk) (role-IsRole junk) IsTuple-IsRole
