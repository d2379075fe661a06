-- ===== src/Entity/BootInfo.antt =====
-- A boot info: c_src/lib/wm_boot_info.cpp and its header.
use swm_core.Prelude.{ℕ, List, [], ◌≡◌, Bytes}
use swm_core.Ei.{Ei}
use swm_core.Decode.{Read, done, to_str, to_uint64}
use swm_core.Decode.Vectors.{entity, field, to_entities}
use swm_core.Decode.Terms.{
  IsEntity, IsTuple, entity-IsEntity, IsListOf, to_entities-IsListOf, IsText, IsUnsigned,
  to_str-IsText, to_uint64-IsUnsigned,
}

record BootInfo : Type 0 where
  node_host : Bytes
  node_port : ℕ
  parent_host : Bytes
  parent_port : ℕ

module _ (E : Ei) (b : E.Buf) where
  -- The members in the order of the tuple.
  unfoldable fields : ℕ → BootInfo → Read BootInfo
  fields i o =
      field E b (to_str E b i o.node_host) (λ x. record o { node_host = x })
        (λ i o.
          field E b (to_uint64 E b i o.node_port) (λ x. record o { node_port = x })
            (λ i o.
              field E b (to_str E b i o.parent_host) (λ x. record o { parent_host = x })
                (λ i o.
                  field E b (to_uint64 E b i o.parent_port) (λ x. record o { parent_port = x })
                    done)))

  -- The constructor. The numbers have no initial values: they are those of `junk`.
  unfoldable boot_info : BootInfo → ℕ → ℕ × BootInfo
  unfolding fields entity
  boot_info junk = entity E b fields (record junk { node_host = []; parent_host = [] })

  unfoldable to_boot_info : BootInfo → ℕ → Read BootInfo
  unfolding boot_info
  to_boot_info junk i = let (j, o) = boot_info junk i in done j o

  to_boot_infos : BootInfo → ℕ → List BootInfo → Read (List BootInfo)
  unfolding boot_info to_entities
  to_boot_infos junk = to_entities E b (boot_info junk)

  -- A boot info record from `i` to `j`.
  data IsBootInfo (o : BootInfo) (i j : ℕ) : Type 0 where
    boot_info_tuple :
        (k k1 k2 k3 : ℕ)
        → IsEntity E b i k
        → IsText E b o.node_host k k1
        → IsUnsigned E b o.node_port k1 k2
        → IsText E b o.parent_host k2 k3
        → IsUnsigned E b o.parent_port k3 j
        → IsBootInfo o i j

  boot_info-IsBootInfo :
      (junk o : BootInfo) (i j : ℕ) → IsBootInfo o i j → boot_info junk i ≡ (j, o)
  unfolding boot_info fields
  boot_info-IsBootInfo junk o i j (boot_info_tuple k k1 k2 k3 t h1 h2 h3 h4) =
      entity-IsEntity E b fields (record junk { node_host = []; parent_host = [] }) o i j k t
        (rw (
          to_str-IsText E b o.node_host k k1 h1,
          to_uint64-IsUnsigned E b o.node_port junk.node_port k1 k2 h2,
          to_str-IsText E b o.parent_host k2 k3 h3,
          to_uint64-IsUnsigned E b o.parent_port junk.parent_port k3 j h4,
        ))

  IsTuple-IsBootInfo : (o : BootInfo) (i j : ℕ) → IsBootInfo o i j → IsTuple E b i
  IsTuple-IsBootInfo o i j (boot_info_tuple k k1 k2 k3 t _ _ _ _) = t.0

  -- A list of boot info records is read into an empty vector in order, each with its 4 members, and
  -- the index is left behind the list.
  to_boot_infos-IsListOf :
      (junk : BootInfo) (os : List BootInfo) (i j : ℕ)
      → IsListOf E b IsBootInfo os i j
      → to_boot_infos junk i [] ≡ done j os
  unfolding to_boot_infos
  to_boot_infos-IsListOf junk =
      to_entities-IsListOf E b IsBootInfo (boot_info junk) (boot_info-IsBootInfo junk)
        IsTuple-IsBootInfo
