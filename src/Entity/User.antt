-- ===== src/Entity/User.antt =====
-- A user: c_src/lib/wm_user.cpp and its header.
use swm_core.Prelude.{ℕ, List, [], ◌≡◌, Bytes, ℤ}
use swm_core.Ei.{Ei}
use swm_core.Decode.{Read, done, to_int64, to_str, to_uint64}
use swm_core.Decode.Vectors.{entity, field, to_entities}
use swm_core.Decode.Terms.{
  IsEntity, IsTuple, entity-IsEntity, IsListOf, to_entities-IsListOf, IsSigned, IsText, IsUnsigned,
  to_int64-IsSigned, to_str-IsText, to_uint64-IsUnsigned,
}

pub record User : Type 0 where
  pub id : Bytes
  pub name : Bytes
  pub acl : Bytes
  pub priority : ℤ
  pub comment : Bytes
  pub revision : ℕ

module _ (E : Ei) (b : E.Buf) where
  -- The members in the order of the tuple.
  unfoldable fields : ℕ → User → Read User
  fields i o =
      field E b (to_str E b i o.id) (λ x. record o { id = x })
        (λ i o.
          field E b (to_str E b i o.name) (λ x. record o { name = x })
            (λ i o.
              field E b (to_str E b i o.acl) (λ x. record o { acl = x })
                (λ i o.
                  field E b (to_int64 E b i o.priority) (λ x. record o { priority = x })
                    (λ i o.
                      field E b (to_str E b i o.comment) (λ x. record o { comment = x })
                        (λ i o.
                          field E b (to_uint64 E b i o.revision) (λ x. record o { revision = x })
                            done)))))

  -- The constructor. The numbers have no initial values: they are those of `junk`.
  unfoldable user : User → ℕ → ℕ × User
  unfolding fields entity
  user junk = entity E b fields (record junk { id = []; name = []; acl = []; comment = [] })

  unfoldable to_user : User → ℕ → Read User
  unfolding user
  to_user junk i = let (j, o) = user junk i in done j o

  pub to_users : User → ℕ → List User → Read (List User)
  unfolding user to_entities
  to_users junk = to_entities E b (user junk)

  -- A user record from `i` to `j`.
  pub data IsUser (o : User) (i j : ℕ) : Type 0 where
    user_tuple :
        (k k1 k2 k3 k4 k5 : ℕ)
        → IsEntity E b i k
        → IsText E b o.id k k1
        → IsText E b o.name k1 k2
        → IsText E b o.acl k2 k3
        → IsSigned E b o.priority k3 k4
        → IsText E b o.comment k4 k5
        → IsUnsigned E b o.revision k5 j
        → IsUser o i j

  user-IsUser : (junk o : User) (i j : ℕ) → IsUser o i j → user junk i ≡ (j, o)
  unfolding user fields
  user-IsUser junk o i j (user_tuple k k1 k2 k3 k4 k5 t h1 h2 h3 h4 h5 h6) =
      entity-IsEntity E b fields (record junk { id = []; name = []; acl = []; comment = [] }) o i j
        k t
        (rw (
          to_str-IsText E b o.id k k1 h1,
          to_str-IsText E b o.name k1 k2 h2,
          to_str-IsText E b o.acl k2 k3 h3,
          to_int64-IsSigned E b o.priority junk.priority k3 k4 h4,
          to_str-IsText E b o.comment k4 k5 h5,
          to_uint64-IsUnsigned E b o.revision junk.revision k5 j h6,
        ))

  IsTuple-IsUser : (o : User) (i j : ℕ) → IsUser o i j → IsTuple E b i
  IsTuple-IsUser o i j (user_tuple k k1 k2 k3 k4 k5 t _ _ _ _ _ _) = t.0

  -- A list of user records is read into an empty vector in order, each with its 6 members, and
  -- the index is left behind the list.
  pub to_users-IsListOf :
      (junk : User) (os : List User) (i j : ℕ)
      → IsListOf E b IsUser os i j
      → to_users junk i [] ≡ done j os
  unfolding to_users
  to_users-IsListOf junk =
      to_entities-IsListOf E b IsUser (user junk) (user-IsUser junk) IsTuple-IsUser
