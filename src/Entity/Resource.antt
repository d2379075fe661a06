-- ===== src/Entity/Resource.antt =====
-- A resource, which holds a list of resources: c_src/lib/wm_resource.cpp and its header.
use swm_core.Prelude.{ℕ, zero, suc, List, [], ◌∷◌, Option, ◌≡◌, refl, ◌∙◌, ap, Bytes}
use swm_core.Ei.{Ei}
use swm_core.Decode.{Read, done, to_str, to_uint64}
use swm_core.Decode.Vectors.{entity, field, to_entities, to_strs, to_tuples_atom_buff}
use swm_core.Decode.Maps.{to_map}
use swm_core.Decode.Terms.{
  IsEntity, IsTuple, entity-IsEntity, IsListOf, to_entities-IsListOf, IsText, IsTexts, IsUnsigned,
  to_str-IsText, to_strs-IsTexts, to_uint64-IsUnsigned,
}
use swm_core.Decode.Tuples.{IsNamedTerm, to_tuples_atom_buff-IsListOf, IsMap, to_map-IsMap}

-- `Resources` is the vector of resources in a resource. `B` is the type of buffers.
mutual
  pub data Resource (B : Type 0) : Type 0 where
    resource_of :
        (name : Bytes) (count : ℕ) (hooks : List Bytes) (properties : List (Bytes × Option B))
        (prices : List (Bytes × Bytes)) (usage_time : ℕ)
        → Resources B
        → Resource B

  pub data Resources (B : Type 0) : Type 0 where
    no_resources : Resources B
    and_resource : Resource B → Resources B → Resources B

abbrev pub to_list : {B : Type 0} → Resources B → List (Resource B)
to_list no_resources = []
to_list (and_resource r rs) = r ∷ to_list rs

abbrev pub of_list : {B : Type 0} → List (Resource B) → Resources B
of_list [] = no_resources
of_list (r ∷ rs) = and_resource r (of_list rs)

of_list-to_list : {B : Type 0} (rs : Resources B) → of_list (to_list rs) ≡ rs
of_list-to_list no_resources = refl
of_list-to_list (and_resource r rs) = ap (and_resource r) (of_list-to_list rs)

-- The members, with the resources as a list.
pub record Members (B : Type 0) : Type 0 where
  pub name : Bytes
  pub count : ℕ
  pub hooks : List Bytes
  pub properties : List (Bytes × Option B)
  pub prices : List (Bytes × Bytes)
  pub usage_time : ℕ
  pub resources : List (Resource B)

abbrev pub of_members : {B : Type 0} → Members B → Resource B
of_members m =
    resource_of m.name m.count m.hooks m.properties m.prices m.usage_time (of_list m.resources)

abbrev pub members : {B : Type 0} → Resource B → Members B
members (resource_of n c hs ps qs u rs) = record {
  name = n;
  count = c;
  hooks = hs;
  properties = ps;
  prices = qs;
  usage_time = u;
  resources = to_list rs;
}

of_members-members : {B : Type 0} (r : Resource B) → of_members (members r) ≡ r
of_members-members (resource_of n c hs ps qs u rs) =
    ap (resource_of n c hs ps qs u) (of_list-to_list rs)

module _ (E : Ei) (b : E.Buf) (zero_d : E.Double) (print_double : E.Double → Bytes) where
  -- The members in the order of the tuple; `inner` makes a resource of the list.
  unfoldable fields : (ℕ → ℕ × Resource E.Buf) → ℕ → Members E.Buf → Read (Members E.Buf)
  fields inner i o =
      field E b (to_str E b i o.name) (λ x. record o { name = x })
        (λ i o.
          field E b (to_uint64 E b i o.count) (λ x. record o { count = x })
            (λ i o.
              field E b (to_strs E b i o.hooks) (λ x. record o { hooks = x })
                (λ i o.
                  field E b (to_tuples_atom_buff E b i o.properties)
                    (λ x. record o { properties = x })
                    (λ i o.
                      field E b (to_map E b zero_d print_double i o.prices)
                        (λ x. record o { prices = x })
                        (λ i o.
                          field E b (to_uint64 E b i o.usage_time)
                            (λ x. record o { usage_time = x })
                            (λ i o.
                              field E b (to_entities E b inner i o.resources)
                                (λ x. record o { resources = x }) done))))))

  abbrev blank : Members E.Buf → Members E.Buf
  blank junk = record junk { name = []; hooks = []; properties = []; prices = []; resources = [] }

  -- The constructor, on a unit of fuel for each level of resources in resources. The numbers have no
  -- initial values: they are those of `junk`.
  unfoldable resource : Members E.Buf → ℕ → ℕ → ℕ × Resource E.Buf
  unfolding fields entity
  resource junk zero i = (i, of_members junk)
  resource junk (suc levels) i =
      let (j, m) = entity E b (fields (resource junk levels)) (blank junk) i in (j, of_members m)

  pub to_resource : Members E.Buf → ℕ → ℕ → Read (Resource E.Buf)
  unfolding resource
  to_resource junk levels i = let (j, o) = resource junk levels i in done j o

  pub to_resources : Members E.Buf → ℕ → ℕ → List (Resource E.Buf) → Read (List (Resource E.Buf))
  unfolding resource to_entities
  to_resources junk levels = to_entities E b (resource junk levels)

  -- A resource from `i` to `j`, with less than `levels` levels of resources in it.
  unfoldable pub IsResource : ℕ → Resource E.Buf → ℕ → ℕ → Type 0
  IsResource zero o i j = ⊥
  IsResource (suc levels) o i j =
      (k : ℕ) × (k1 : ℕ) × (k2 : ℕ) × (k3 : ℕ) × (k4 : ℕ) × (k5 : ℕ) × (k6 : ℕ) × IsEntity E b i k
      × IsText E b (members o).name k k1
      × IsUnsigned E b (members o).count k1 k2
      × IsTexts E b (members o).hooks k2 k3
      × IsListOf E b (IsNamedTerm E b) (members o).properties k3 k4
      × IsMap E b zero_d print_double (members o).prices k4 k5
      × IsUnsigned E b (members o).usage_time k5 k6
      × IsListOf E b (IsResource levels) (members o).resources k6 j

  IsTuple-IsResource :
      (levels : ℕ) (o : Resource E.Buf) (i j : ℕ) → IsResource levels o i j → IsTuple E b i
  unfolding IsResource
  IsTuple-IsResource zero o i j h = absurd h
  IsTuple-IsResource (suc levels) o i j (k, k1, k2, k3, k4, k5, k6, t, _, _, _, _, _, _, _) = t.0

  resource-IsResource :
      (junk : Members E.Buf) (levels : ℕ) (o : Resource E.Buf) (i j : ℕ)
      → IsResource levels o i j
      → resource junk levels i ≡ (j, o)
  unfolding resource fields IsResource
  resource-IsResource junk zero o i j h = absurd h
  resource-IsResource junk (suc levels) o i j
        (k, k1, k2, k3, k4, k5, k6, t, h1, h2, h3, h4, h5, h6, h7) =
      let m = members o in
      let inner =
        to_entities-IsListOf E b (IsResource levels) (resource junk levels)
          (λ r x y. resource-IsResource junk levels r x y) (IsTuple-IsResource levels) in
      ap (λ (p : ℕ × Members E.Buf). (p.0, of_members p.1))
        (entity-IsEntity E b (fields (resource junk levels)) (blank junk) m i j k t (
          rw (
            to_str-IsText E b m.name k k1 h1,
            to_uint64-IsUnsigned E b m.count junk.count k1 k2 h2,
            to_strs-IsTexts E b m.hooks k2 k3 h3,
            to_tuples_atom_buff-IsListOf E b m.properties k3 k4 h4,
            to_map-IsMap E b zero_d print_double m.prices k4 k5 h5,
            to_uint64-IsUnsigned E b m.usage_time junk.usage_time k5 k6 h6,
            inner m.resources k6 j h7,
          )))
      ∙ ap (λ r. (j, r)) (of_members-members o)

  -- A list of resource records is read into an empty vector in order, each with its 7 members and
  -- with the resources inside it, to any depth below the number of levels, and the index is left
  -- behind the list.
  pub to_resources-IsListOf :
      (junk : Members E.Buf) (levels : ℕ) (os : List (Resource E.Buf)) (i j : ℕ)
      → IsListOf E b (IsResource levels) os i j
      → to_resources junk levels i [] ≡ done j os
  unfolding to_resources
  to_resources-IsListOf junk levels =
      to_entities-IsListOf E b (IsResource levels) (resource junk levels)
        (resource-IsResource junk levels) (IsTuple-IsResource levels)
