-- ===== src/Entity/Account.antt =====
-- An account: c_src/lib/wm_account.cpp and its header.
use swm_core.Prelude.{ℕ, List, [], ◌≡◌, Bytes}
use swm_core.Ei.{Ei}
use swm_core.Decode.{Read, done, to_atom, to_str, to_uint64}
use swm_core.Decode.Vectors.{entity, field, to_entities, to_strs}
use swm_core.Decode.Terms.{
  IsEntity, IsTuple, entity-IsEntity, IsListOf, to_entities-IsListOf, IsAtom, IsText, IsTexts,
  IsUnsigned, to_atom-IsAtom, to_str-IsText, to_strs-IsTexts, to_uint64-IsUnsigned,
}

record Account : Type 0 where
  id : Bytes
  name : Bytes
  price_list : Bytes
  users : List Bytes
  admins : List Bytes
  comment : Bytes
  revision : ℕ

module _ (E : Ei) (b : E.Buf) where
  -- The members in the order of the tuple.
  unfoldable fields : ℕ → Account → Read Account
  fields i o =
      field E b (to_str E b i o.id) (λ x. record o { id = x })
        (λ i o.
          field E b (to_atom E b i o.name) (λ x. record o { name = x })
            (λ i o.
              field E b (to_str E b i o.price_list) (λ x. record o { price_list = x })
                (λ i o.
                  field E b (to_strs E b i o.users) (λ x. record o { users = x })
                    (λ i o.
                      field E b (to_strs E b i o.admins) (λ x. record o { admins = x })
                        (λ i o.
                          field E b (to_str E b i o.comment) (λ x. record o { comment = x })
                            (λ i o.
                              field E b (to_uint64 E b i o.revision)
                                (λ x. record o { revision = x }) done))))))

  -- The constructor. The numbers have no initial values: they are those of `junk`.
  unfoldable account : Account → ℕ → ℕ × Account
  unfolding fields entity
  account junk =
      entity E b fields
        (record junk { id = []; name = []; price_list = []; users = []; admins = []; comment = [] })

  unfoldable to_account : Account → ℕ → Read Account
  unfolding account
  to_account junk i = let (j, o) = account junk i in done j o

  to_accounts : Account → ℕ → List Account → Read (List Account)
  unfolding account to_entities
  to_accounts junk = to_entities E b (account junk)

  -- An account record from `i` to `j`.
  data IsAccount (o : Account) (i j : ℕ) : Type 0 where
    account_tuple :
        (k k1 k2 k3 k4 k5 k6 : ℕ)
        → IsEntity E b i k
        → IsText E b o.id k k1
        → IsAtom E b o.name k1 k2
        → IsText E b o.price_list k2 k3
        → IsTexts E b o.users k3 k4
        → IsTexts E b o.admins k4 k5
        → IsText E b o.comment k5 k6
        → IsUnsigned E b o.revision k6 j
        → IsAccount o i j

  account-IsAccount : (junk o : Account) (i j : ℕ) → IsAccount o i j → account junk i ≡ (j, o)
  unfolding account fields
  account-IsAccount junk o i j (account_tuple k k1 k2 k3 k4 k5 k6 t h1 h2 h3 h4 h5 h6 h7) =
      entity-IsEntity E b fields
        (record junk { id = []; name = []; price_list = []; users = []; admins = []; comment = [] })
        o i j k t
        (rw (
          to_str-IsText E b o.id k k1 h1,
          to_atom-IsAtom E b o.name [] k1 k2 h2,
          to_str-IsText E b o.price_list k2 k3 h3,
          to_strs-IsTexts E b o.users k3 k4 h4,
          to_strs-IsTexts E b o.admins k4 k5 h5,
          to_str-IsText E b o.comment k5 k6 h6,
          to_uint64-IsUnsigned E b o.revision junk.revision k6 j h7,
        ))

  IsTuple-IsAccount : (o : Account) (i j : ℕ) → IsAccount o i j → IsTuple E b i
  IsTuple-IsAccount o i j (account_tuple k k1 k2 k3 k4 k5 k6 t _ _ _ _ _ _ _) = t.0

  -- A list of account records is read into an empty vector in order, each with its 7 members, and
  -- the index is left behind the list.
  to_accounts-IsListOf :
      (junk : Account) (os : List Account) (i j : ℕ)
      → IsListOf E b IsAccount os i j
      → to_accounts junk i [] ≡ done j os
  unfolding to_accounts
  to_accounts-IsListOf junk =
      to_entities-IsListOf E b IsAccount (account junk) (account-IsAccount junk) IsTuple-IsAccount
