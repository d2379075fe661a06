-- ===== src/Tests/Entity/User.antt =====
-- A user list in a buffer.
use swm_core.Prelude.{List, [], ◌∷◌, ◌≡◌, refl, inl, codes, pos, negsuc}
use swm_core.Decode.{done}
use swm_core.Decode.Terms.{binary, string, small, stop, next, cons}
use swm_core.Entity.User.{User, user_tuple, to_users, to_users-IsListOf}
use swm_core.Tests.Buffers.{
  Cell, tuple_cell, list_cell, atom_cell, text_cell, bin_cell, int_cell, nil_cell, cells,
}

abbrev a_user : User
a_user = record {
  id = codes "id0";
  name = codes "nam1";
  acl = codes "acl2";
  priority = negsuc 3;
  comment = codes "com4";
  revision = 12;
}

abbrev no_user : User
no_user = record { id = []; name = []; acl = []; priority = pos 999; comment = []; revision = 999 }

abbrev buffer : List Cell
buffer =
    list_cell 1
    ∷ tuple_cell 7
    ∷ atom_cell (codes "user")
    ∷ bin_cell (codes "id0")
    ∷ bin_cell (codes "nam1")
    ∷ text_cell (codes "acl2")
    ∷ int_cell (negsuc 3)
    ∷ bin_cell (codes "com4")
    ∷ int_cell (pos 12)
    ∷ nil_cell
    ∷ []

to_users-IsListOf_example : to_users cells buffer no_user 0 [] ≡ done 10 (a_user ∷ [])
to_users-IsListOf_example = to_users-IsListOf cells buffer no_user (a_user ∷ []) 0 10 (
    cons 1 9 (1, refl) refl refl
      (next {j = 9}
        (user_tuple 3 4 5 6 7 8 (inl (1, refl), 7, 2, refl, refl) (binary (1, refl) refl refl)
          (binary (1, refl) refl refl) (string (1, refl) refl refl) ((small (1, refl), refl))
          (binary (1, refl) refl refl) ((small (1, refl), refl)))
        (stop 9))
      refl)
