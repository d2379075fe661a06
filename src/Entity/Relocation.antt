-- ===== src/Entity/Relocation.antt =====
-- A relocation: c_src/lib/wm_relocation.cpp and its header.
use swm_core.Prelude.{ℕ, List, [], ◌≡◌, Bytes}
use swm_core.Ei.{Ei}
use swm_core.Decode.{Read, done, to_atom, to_str, to_uint64}
use swm_core.Decode.Vectors.{entity, field, to_entities}
use swm_core.Decode.Terms.{
  IsEntity, IsTuple, entity-IsEntity, IsListOf, to_entities-IsListOf, IsAtom, IsText, IsUnsigned,
  to_atom-IsAtom, to_str-IsText, to_uint64-IsUnsigned,
}

record Relocation : Type 0 where
  id : ℕ
  job_id : Bytes
  template_node_id : Bytes
  canceled : Bytes

module _ (E : Ei) (b : E.Buf) where
  -- The members in the order of the tuple.
  unfoldable fields : ℕ → Relocation → Read Relocation
  fields i o =
      field E b (to_uint64 E b i o.id) (λ x. record o { id = x })
        (λ i o.
          field E b (to_str E b i o.job_id) (λ x. record o { job_id = x })
            (λ i o.
              field E b (to_str E b i o.template_node_id) (λ x. record o { template_node_id = x })
                (λ i o.
                  field E b (to_atom E b i o.canceled) (λ x. record o { canceled = x }) done)))

  -- The constructor. The numbers have no initial values: they are those of `junk`.
  unfoldable relocation : Relocation → ℕ → ℕ × Relocation
  unfolding fields entity
  relocation junk =
      entity E b fields (record junk { job_id = []; template_node_id = []; canceled = [] })

  unfoldable to_relocation : Relocation → ℕ → Read Relocation
  unfolding relocation
  to_relocation junk i = let (j, o) = relocation junk i in done j o

  to_relocations : Relocation → ℕ → List Relocation → Read (List Relocation)
  unfolding relocation to_entities
  to_relocations junk = to_entities E b (relocation junk)

  -- A relocation record from `i` to `j`.
  data IsRelocation (o : Relocation) (i j : ℕ) : Type 0 where
    relocation_tuple :
        (k k1 k2 k3 : ℕ)
        → IsEntity E b i k
        → IsUnsigned E b o.id k k1
        → IsText E b o.job_id k1 k2
        → IsText E b o.template_node_id k2 k3
        → IsAtom E b o.canceled k3 j
        → IsRelocation o i j

  relocation-IsRelocation :
      (junk o : Relocation) (i j : ℕ) → IsRelocation o i j → relocation junk i ≡ (j, o)
  unfolding relocation fields
  relocation-IsRelocation junk o i j (relocation_tuple k k1 k2 k3 t h1 h2 h3 h4) =
      entity-IsEntity E b fields (record junk { job_id = []; template_node_id = []; canceled = [] })
        o i j k t
        (rw (
          to_uint64-IsUnsigned E b o.id junk.id k k1 h1,
          to_str-IsText E b o.job_id k1 k2 h2,
          to_str-IsText E b o.template_node_id k2 k3 h3,
          to_atom-IsAtom E b o.canceled [] k3 j h4,
        ))

  IsTuple-IsRelocation : (o : Relocation) (i j : ℕ) → IsRelocation o i j → IsTuple E b i
  IsTuple-IsRelocation o i j (relocation_tuple k k1 k2 k3 t _ _ _ _) = t.0

  -- A list of relocation records is read into an empty vector in order, each with its 4 members, and
  -- the index is left behind the list.
  to_relocations-IsListOf :
      (junk : Relocation) (os : List Relocation) (i j : ℕ)
      → IsListOf E b IsRelocation os i j
      → to_relocations junk i [] ≡ done j os
  unfolding to_relocations
  to_relocations-IsListOf junk =
      to_entities-IsListOf E b IsRelocation (relocation junk) (relocation-IsRelocation junk)
        IsTuple-IsRelocation
