-- ===== src/Entity/Executable.antt =====
-- An executable: c_src/lib/wm_executable.cpp and its header.
use swm_core.Prelude.{ℕ, List, [], ◌≡◌, Bytes}
use swm_core.Ei.{Ei}
use swm_core.Decode.{Read, done, to_str, to_uint64}
use swm_core.Decode.Vectors.{entity, field, to_entities}
use swm_core.Decode.Terms.{
  IsEntity, IsTuple, entity-IsEntity, IsListOf, to_entities-IsListOf, IsText, IsUnsigned,
  to_str-IsText, to_uint64-IsUnsigned,
}

pub record Executable : Type 0 where
  pub name : Bytes
  pub path : Bytes
  pub user : Bytes
  pub comment : Bytes
  pub revision : ℕ

module _ (E : Ei) (b : E.Buf) where
  -- The members in the order of the tuple.
  unfoldable fields : ℕ → Executable → Read Executable
  fields i o =
      field E b (to_str E b i o.name) (λ x. record o { name = x })
        (λ i o.
          field E b (to_str E b i o.path) (λ x. record o { path = x })
            (λ i o.
              field E b (to_str E b i o.user) (λ x. record o { user = x })
                (λ i o.
                  field E b (to_str E b i o.comment) (λ x. record o { comment = x })
                    (λ i o.
                      field E b (to_uint64 E b i o.revision) (λ x. record o { revision = x })
                        done))))

  -- The constructor. The numbers have no initial values: they are those of `junk`.
  unfoldable executable : Executable → ℕ → ℕ × Executable
  unfolding fields entity
  executable junk =
      entity E b fields (record junk { name = []; path = []; user = []; comment = [] })

  pub to_executable : Executable → ℕ → Read Executable
  unfolding executable
  to_executable junk i = let (j, o) = executable junk i in done j o

  to_executables : Executable → ℕ → List Executable → Read (List Executable)
  unfolding executable to_entities
  to_executables junk = to_entities E b (executable junk)

  -- An executable record from `i` to `j`.
  pub data IsExecutable (o : Executable) (i j : ℕ) : Type 0 where
    executable_tuple :
        (k k1 k2 k3 k4 : ℕ)
        → IsEntity E b i k
        → IsText E b o.name k k1
        → IsText E b o.path k1 k2
        → IsText E b o.user k2 k3
        → IsText E b o.comment k3 k4
        → IsUnsigned E b o.revision k4 j
        → IsExecutable o i j

  executable-IsExecutable :
      (junk o : Executable) (i j : ℕ) → IsExecutable o i j → executable junk i ≡ (j, o)
  unfolding executable fields
  executable-IsExecutable junk o i j (executable_tuple k k1 k2 k3 k4 t h1 h2 h3 h4 h5) =
      entity-IsEntity E b fields (record junk { name = []; path = []; user = []; comment = [] }) o i
        j k t
        (rw (
          to_str-IsText E b o.name k k1 h1,
          to_str-IsText E b o.path k1 k2 h2,
          to_str-IsText E b o.user k2 k3 h3,
          to_str-IsText E b o.comment k3 k4 h4,
          to_uint64-IsUnsigned E b o.revision junk.revision k4 j h5,
        ))

  IsTuple-IsExecutable : (o : Executable) (i j : ℕ) → IsExecutable o i j → IsTuple E b i
  IsTuple-IsExecutable o i j (executable_tuple k k1 k2 k3 k4 t _ _ _ _ _) = t.0

  pub to_executable-IsExecutable :
      (o junk : Executable) (i j : ℕ) → IsExecutable o i j → to_executable junk i ≡ done j o
  unfolding to_executable
  to_executable-IsExecutable o junk i j h = rw (executable-IsExecutable junk o i j h)

  -- A list of executable records is read into an empty vector in order, each with its 5 members, and
  -- the index is left behind the list.
  to_executables-IsListOf :
      (junk : Executable) (os : List Executable) (i j : ℕ)
      → IsListOf E b IsExecutable os i j
      → to_executables junk i [] ≡ done j os
  unfolding to_executables
  to_executables-IsListOf junk =
      to_entities-IsListOf E b IsExecutable (executable junk) (executable-IsExecutable junk)
        IsTuple-IsExecutable
