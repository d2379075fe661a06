-- ===== src/Entity/Hook.antt =====
-- A hook: c_src/lib/wm_hook.cpp and its header.
use swm_core.Prelude.{ℕ, List, [], ◌≡◌, Bytes}
use swm_core.Ei.{Ei}
use swm_core.Decode.{Read, done, to_atom, to_str, to_uint64}
use swm_core.Decode.Vectors.{entity, field, to_entities}
use swm_core.Decode.Terms.{
  IsEntity, IsTuple, entity-IsEntity, IsListOf, to_entities-IsListOf, IsAtom, IsText, IsUnsigned,
  to_atom-IsAtom, to_str-IsText, to_uint64-IsUnsigned,
}
use swm_core.Entity.Executable.{Executable, to_executable, IsExecutable, to_executable-IsExecutable}

record Hook : Type 0 where
  id : Bytes
  name : Bytes
  event : Bytes
  state : Bytes
  executable : Executable
  comment : Bytes
  revision : ℕ

module _ (E : Ei) (b : E.Buf) where
  -- The members in the order of the tuple.
  unfoldable fields : ℕ → Hook → Read Hook
  fields i o =
      field E b (to_str E b i o.id) (λ x. record o { id = x })
        (λ i o.
          field E b (to_str E b i o.name) (λ x. record o { name = x })
            (λ i o.
              field E b (to_atom E b i o.event) (λ x. record o { event = x })
                (λ i o.
                  field E b (to_atom E b i o.state) (λ x. record o { state = x })
                    (λ i o.
                      field E b (to_executable E b o.executable i)
                        (λ x. record o { executable = x })
                        (λ i o.
                          field E b (to_str E b i o.comment) (λ x. record o { comment = x })
                            (λ i o.
                              field E b (to_uint64 E b i o.revision)
                                (λ x. record o { revision = x }) done))))))

  -- The constructor. The numbers have no initial values: they are those of `junk`.
  unfoldable hook : Hook → ℕ → ℕ × Hook
  unfolding fields entity
  hook junk =
      entity E b fields (record junk { id = []; name = []; event = []; state = []; comment = [] })

  unfoldable to_hook : Hook → ℕ → Read Hook
  unfolding hook
  to_hook junk i = let (j, o) = hook junk i in done j o

  to_hooks : Hook → ℕ → List Hook → Read (List Hook)
  unfolding hook to_entities
  to_hooks junk = to_entities E b (hook junk)

  -- A hook record from `i` to `j`.
  data IsHook (o : Hook) (i j : ℕ) : Type 0 where
    hook_tuple :
        (k k1 k2 k3 k4 k5 k6 : ℕ)
        → IsEntity E b i k
        → IsText E b o.id k k1
        → IsText E b o.name k1 k2
        → IsAtom E b o.event k2 k3
        → IsAtom E b o.state k3 k4
        → IsExecutable E b o.executable k4 k5
        → IsText E b o.comment k5 k6
        → IsUnsigned E b o.revision k6 j
        → IsHook o i j

  hook-IsHook : (junk o : Hook) (i j : ℕ) → IsHook o i j → hook junk i ≡ (j, o)
  unfolding hook fields
  hook-IsHook junk o i j (hook_tuple k k1 k2 k3 k4 k5 k6 t h1 h2 h3 h4 h5 h6 h7) =
      entity-IsEntity E b fields
        (record junk { id = []; name = []; event = []; state = []; comment = [] }) o i j k t
        (rw (
          to_str-IsText E b o.id k k1 h1,
          to_str-IsText E b o.name k1 k2 h2,
          to_atom-IsAtom E b o.event [] k2 k3 h3,
          to_atom-IsAtom E b o.state [] k3 k4 h4,
          to_executable-IsExecutable E b o.executable junk.executable k4 k5 h5,
          to_str-IsText E b o.comment k5 k6 h6,
          to_uint64-IsUnsigned E b o.revision junk.revision k6 j h7,
        ))

  IsTuple-IsHook : (o : Hook) (i j : ℕ) → IsHook o i j → IsTuple E b i
  IsTuple-IsHook o i j (hook_tuple k k1 k2 k3 k4 k5 k6 t _ _ _ _ _ _ _) = t.0

  -- A list of hook records is read into an empty vector in order, each with its 7 members, and
  -- the index is left behind the list.
  to_hooks-IsListOf :
      (junk : Hook) (os : List Hook) (i j : ℕ)
      → IsListOf E b IsHook os i j
      → to_hooks junk i [] ≡ done j os
  unfolding to_hooks
  to_hooks-IsListOf junk =
      to_entities-IsListOf E b IsHook (hook junk) (hook-IsHook junk) IsTuple-IsHook
