-- ===== src/Entity/Process.antt =====
-- A process: c_src/lib/wm_process.cpp and its header.
use swm_core.Prelude.{ℕ, List, [], ◌≡◌, Bytes, ℤ}
use swm_core.Ei.{Ei}
use swm_core.Decode.{Read, done, to_int64, to_str}
use swm_core.Decode.Vectors.{entity, field, to_entities}
use swm_core.Decode.Terms.{
  IsEntity, IsTuple, entity-IsEntity, IsListOf, to_entities-IsListOf, IsSigned, IsText,
  to_int64-IsSigned, to_str-IsText,
}

pub record Process : Type 0 where
  pub pid : ℤ
  pub state : Bytes
  pub exitcode : ℤ
  pub signal : ℤ
  pub comment : Bytes

module _ (E : Ei) (b : E.Buf) where
  -- The members in the order of the tuple.
  unfoldable fields : ℕ → Process → Read Process
  fields i o =
      field E b (to_int64 E b i o.pid) (λ x. record o { pid = x })
        (λ i o.
          field E b (to_str E b i o.state) (λ x. record o { state = x })
            (λ i o.
              field E b (to_int64 E b i o.exitcode) (λ x. record o { exitcode = x })
                (λ i o.
                  field E b (to_int64 E b i o.signal) (λ x. record o { signal = x })
                    (λ i o.
                      field E b (to_str E b i o.comment) (λ x. record o { comment = x }) done))))

  -- The constructor. The numbers have no initial values: they are those of `junk`.
  unfoldable process : Process → ℕ → ℕ × Process
  unfolding fields entity
  process junk = entity E b fields (record junk { state = []; comment = [] })

  unfoldable to_process : Process → ℕ → Read Process
  unfolding process
  to_process junk i = let (j, o) = process junk i in done j o

  pub to_processes : Process → ℕ → List Process → Read (List Process)
  unfolding process to_entities
  to_processes junk = to_entities E b (process junk)

  -- A process record from `i` to `j`.
  pub data IsProcess (o : Process) (i j : ℕ) : Type 0 where
    process_tuple :
        (k k1 k2 k3 k4 : ℕ)
        → IsEntity E b i k
        → IsSigned E b o.pid k k1
        → IsText E b o.state k1 k2
        → IsSigned E b o.exitcode k2 k3
        → IsSigned E b o.signal k3 k4
        → IsText E b o.comment k4 j
        → IsProcess o i j

  process-IsProcess : (junk o : Process) (i j : ℕ) → IsProcess o i j → process junk i ≡ (j, o)
  unfolding process fields
  process-IsProcess junk o i j (process_tuple k k1 k2 k3 k4 t h1 h2 h3 h4 h5) =
      entity-IsEntity E b fields (record junk { state = []; comment = [] }) o i j k t
        (rw (
          to_int64-IsSigned E b o.pid junk.pid k k1 h1,
          to_str-IsText E b o.state k1 k2 h2,
          to_int64-IsSigned E b o.exitcode junk.exitcode k2 k3 h3,
          to_int64-IsSigned E b o.signal junk.signal k3 k4 h4,
          to_str-IsText E b o.comment k4 j h5,
        ))

  IsTuple-IsProcess : (o : Process) (i j : ℕ) → IsProcess o i j → IsTuple E b i
  IsTuple-IsProcess o i j (process_tuple k k1 k2 k3 k4 t _ _ _ _ _) = t.0

  -- A list of process records is read into an empty vector in order, each with its 5 members, and
  -- the index is left behind the list.
  pub to_processes-IsListOf :
      (junk : Process) (os : List Process) (i j : ℕ)
      → IsListOf E b IsProcess os i j
      → to_processes junk i [] ≡ done j os
  unfolding to_processes
  to_processes-IsListOf junk =
      to_entities-IsListOf E b IsProcess (process junk) (process-IsProcess junk) IsTuple-IsProcess
