-- ===== src/Tests/Entity/Resource.antt =====
-- A resource with a resource in it, read out of a buffer.
use swm_core.Prelude.{ℕ, List, [], ◌∷◌, ◌≡◌, refl, inl, codes, pos}
use swm_core.Decode.{done}
use swm_core.Decode.Terms.{binary, small, stop, next, nil, cons}
use swm_core.Decode.Maps.{atom_value}
use swm_core.Decode.Maps.AreEntries.{next as map_next, stop as map_stop}
use swm_core.Entity.Resource.{
  Resource, Members, resource_of, of_list, no_resources, IsResource, to_resources,
  to_resources-IsListOf,
}
use swm_core.Tests.Buffers.{
  Cell, tuple_cell, list_cell, map_cell, atom_cell, bin_cell, int_cell, nil_cell, cells,
}

abbrev buffer : List Cell
buffer =
    list_cell 1
    ∷ tuple_cell 8
    ∷ atom_cell (codes "resource")
    ∷ bin_cell (codes "nam0")
    ∷ int_cell (pos 8)
    ∷ list_cell 2
    ∷ bin_cell (codes "x")
    ∷ bin_cell (codes "y")
    ∷ nil_cell
    ∷ nil_cell
    ∷ map_cell 1
    ∷ bin_cell (codes "key")
    ∷ atom_cell (codes "v")
    ∷ int_cell (pos 12)
    ∷ list_cell 1
    ∷ tuple_cell 8
    ∷ atom_cell (codes "resource")
    ∷ bin_cell (codes "nam0")
    ∷ int_cell (pos 8)
    ∷ list_cell 2
    ∷ bin_cell (codes "x")
    ∷ bin_cell (codes "y")
    ∷ nil_cell
    ∷ nil_cell
    ∷ map_cell 1
    ∷ bin_cell (codes "key")
    ∷ atom_cell (codes "v")
    ∷ int_cell (pos 12)
    ∷ nil_cell
    ∷ nil_cell
    ∷ nil_cell
    ∷ []

abbrev pub junk : Members (List Cell)
junk = record {
  name = [];
  count = 999;
  hooks = [];
  properties = [];
  prices = [];
  usage_time = 999;
  resources = [];
}

abbrev resources : List (Resource (List Cell))
resources =
    (resource_of (codes "nam0") (8) (codes "x" ∷ codes "y" ∷ []) ([])
      ((codes "key", codes "v") ∷ []) (12)
      (of_list (
        (resource_of (codes "nam0") (8) (codes "x" ∷ codes "y" ∷ []) ([])
          ((codes "key", codes "v") ∷ []) (12) no_resources)
        ∷ [])))
    ∷ []

to_resources-IsListOf_example :
    to_resources cells buffer 0 (λ (d : ℕ). []) junk 2 0 [] ≡ done 31 resources
unfolding IsResource
to_resources-IsListOf_example =
    to_resources-IsListOf cells buffer 0 (λ (d : ℕ). []) junk 2 resources 0 31
      (cons 1 30 (1, refl) refl refl
        (next {j = 30}
          (
            3,
            4,
            5,
            9,
            10,
            13,
            14,
            (inl (1, refl), 8, 2, refl, refl),
            (binary (1, refl) refl refl),
            (small (1, refl), refl),
            (cons 6 8 (1, refl) refl refl
                (next {j = 7} (binary (1, refl) refl refl)
                  (next {j = 8} (binary (1, refl) refl refl) (stop 8)))
                refl),
            (nil (1, refl) refl refl),
            (
              11,
              refl,
              map_next 12 13 (binary (1, refl) refl refl) (atom_value ((1, refl), refl, refl)) tt
                  (map_stop 13),
            ),
            (small (1, refl), refl),
            (cons 15 29 (1, refl) refl refl
                (next {j = 29}
                  (
                    17,
                    18,
                    19,
                    23,
                    24,
                    27,
                    28,
                    (inl (1, refl), 8, 16, refl, refl),
                    (binary (1, refl) refl refl),
                    (small (1, refl), refl),
                    (cons 20 22 (1, refl) refl refl
                        (next {j = 21} (binary (1, refl) refl refl)
                          (next {j = 22} (binary (1, refl) refl refl) (stop 22)))
                        refl),
                    (nil (1, refl) refl refl),
                    (
                      25,
                      refl,
                      map_next 26 27 (binary (1, refl) refl refl)
                          (atom_value ((1, refl), refl, refl)) tt (map_stop 27),
                    ),
                    (small (1, refl), refl),
                    (nil (1, refl) refl refl),
                  )
                  (stop 29))
                refl),
          )
          (stop 30))
        refl)
