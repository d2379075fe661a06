-- ===== src/Ei/Item.antt =====
-- What the encoder of the Erlang interface library is asked to append to a term, call by call.
use swm_core.Prelude.{ℕ, zero, suc, ◌+◌, List, [], ◌∷◌, Option, none, some, ◌≡◌, Bytes, ℤ}

-- The calls `ei_x_encode_*`.
pub data Item : Type 0 where
  version empty_list : Item
  tuple_header list_header map_header ulong : ℕ → Item
  atom str binary : Bytes → Item
  long : ℤ → Item

-- The terms to come behind an item, if there are `k` behind all that it opens: the elements of a tuple,
-- a list with its tail, or a map.
abbrev pub opened : Item → ℕ → ℕ
opened (tuple_header n) k = n + k
opened (list_header n) k = suc (n + k)
opened (map_header n) k = n + n + k
opened version k = k
opened empty_list k = k
opened (ulong n) k = k
opened (atom s) k = k
opened (str s) k = k
opened (binary s) k = k
opened (long z) k = k

-- The number of terms that are still to come, behind a part of the items; `none` if an item comes
-- where the term is whole.
abbrev pub to_come : ℕ → List Item → Option ℕ
to_come n [] = some n
to_come zero (x ∷ xs) = none
to_come (suc n) (x ∷ xs) = to_come (opened x n) xs

-- The items are one whole term behind the version.
abbrev pub IsTerm : List Item → Type 0
IsTerm [] = ⊥
IsTerm (version ∷ xs) = to_come 1 xs ≡ some 0
IsTerm (_ ∷ xs) = ⊥
