-- ===== src/Entity/Global.antt =====
-- A global: c_src/lib/wm_global.cpp and its header.
use swm_core.Prelude.{ℕ, List, [], ◌≡◌, Bytes}
use swm_core.Ei.{Ei}
use swm_core.Decode.{Read, done, to_atom, to_str, to_uint64}
use swm_core.Decode.Vectors.{entity, field, to_entities}
use swm_core.Decode.Terms.{
  IsEntity, IsTuple, entity-IsEntity, IsListOf, to_entities-IsListOf, IsAtom, IsText, IsUnsigned,
  to_atom-IsAtom, to_str-IsText, to_uint64-IsUnsigned,
}

record Global : Type 0 where
  name : Bytes
  value : Bytes
  comment : Bytes
  revision : ℕ

module _ (E : Ei) (b : E.Buf) where
  -- The members in the order of the tuple.
  unfoldable fields : ℕ → Global → Read Global
  fields i o =
      field E b (to_atom E b i o.name) (λ x. record o { name = x })
        (λ i o.
          field E b (to_str E b i o.value) (λ x. record o { value = x })
            (λ i o.
              field E b (to_str E b i o.comment) (λ x. record o { comment = x })
                (λ i o.
                  field E b (to_uint64 E b i o.revision) (λ x. record o { revision = x }) done)))

  -- The constructor. The numbers have no initial values: they are those of `junk`.
  unfoldable global : Global → ℕ → ℕ × Global
  unfolding fields entity
  global junk = entity E b fields (record junk { name = []; value = []; comment = [] })

  unfoldable to_global : Global → ℕ → Read Global
  unfolding global
  to_global junk i = let (j, o) = global junk i in done j o

  to_globals : Global → ℕ → List Global → Read (List Global)
  unfolding global to_entities
  to_globals junk = to_entities E b (global junk)

  -- A global record from `i` to `j`.
  data IsGlobal (o : Global) (i j : ℕ) : Type 0 where
    global_tuple :
        (k k1 k2 k3 : ℕ)
        → IsEntity E b i k
        → IsAtom E b o.name k k1
        → IsText E b o.value k1 k2
        → IsText E b o.comment k2 k3
        → IsUnsigned E b o.revision k3 j
        → IsGlobal o i j

  global-IsGlobal : (junk o : Global) (i j : ℕ) → IsGlobal o i j → global junk i ≡ (j, o)
  unfolding global fields
  global-IsGlobal junk o i j (global_tuple k k1 k2 k3 t h1 h2 h3 h4) =
      entity-IsEntity E b fields (record junk { name = []; value = []; comment = [] }) o i j k t
        (rw (
          to_atom-IsAtom E b o.name [] k k1 h1,
          to_str-IsText E b o.value k1 k2 h2,
          to_str-IsText E b o.comment k2 k3 h3,
          to_uint64-IsUnsigned E b o.revision junk.revision k3 j h4,
        ))

  IsTuple-IsGlobal : (o : Global) (i j : ℕ) → IsGlobal o i j → IsTuple E b i
  IsTuple-IsGlobal o i j (global_tuple k k1 k2 k3 t _ _ _ _) = t.0

  -- A list of global records is read into an empty vector in order, each with its 4 members, and
  -- the index is left behind the list.
  to_globals-IsListOf :
      (junk : Global) (os : List Global) (i j : ℕ)
      → IsListOf E b IsGlobal os i j
      → to_globals junk i [] ≡ done j os
  unfolding to_globals
  to_globals-IsListOf junk =
      to_entities-IsListOf E b IsGlobal (global junk) (global-IsGlobal junk) IsTuple-IsGlobal
