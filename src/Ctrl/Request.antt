-- ===== src/Ctrl/Request.antt =====
-- The request of the porter to the Erlang side: `send_porter_req` of c_src/porter/wm_porter_ctrl.cpp.
use swm_core.Prelude.{
  ℕ, suc, ◌+◌, Bool, true, false, List, [], ◌∷◌, ◌++◌, length, some, if◌then◌else◌, ◌≡◌, refl, ap,
  ◌∙◌, arith, Bytes, codes, until,
}
use swm_core.Ei.Item.{
  Item, version, empty_list, tuple_header, list_header, map_header, atom, str, binary, to_come,
  IsTerm,
}
use swm_core.Ctrl.{Spawn}

-- An argument ends at its first zero byte.
unfoldable strings : List Bytes → List Item
strings [] = []
strings (a ∷ rest) = str (until 0 a) ∷ strings rest

unfoldable command : List Bytes → List Item
unfolding strings
command [] = empty_list ∷ []
command (a ∷ rest) = list_header (length (a ∷ rest)) ∷ (strings (a ∷ rest) ++ empty_list ∷ [])

pub porter_req : Bytes → Bytes → Spawn → List Item
unfolding command
porter_req ref method s =
    version
    ∷ tuple_header 4
    ∷ atom (codes "porter_req")
    ∷ binary ref
    ∷ atom method
    ∷ map_header 2
    ∷ atom (codes "pmix")
    ∷ atom (if s.pmix then codes "true" else codes "false")
    ∷ atom (codes "cmd")
    ∷ command s.argv

-- The answer (true for 0), and what is written. `encodes` tells whether every call of the encoder
-- succeeds.
unfoldable send_porter_req : Bool → Bytes → Bytes → Spawn → Bool × List (List Item)
send_porter_req encodes ref method s =
    if encodes then (true, porter_req ref method s ∷ []) else (false, [])

to_come-strings :
    (argv : List Bytes) (n : ℕ) (xs : List Item)
    → to_come (length argv + n) (strings argv ++ xs) ≡ to_come n xs
unfolding strings
to_come-strings [] n xs = ap (λ k. to_come k xs) (omega arith)
to_come-strings (a ∷ rest) n xs =
    let next : length (a ∷ rest) + n ≡ suc (length rest + n) = omega arith in
    ap (λ k. to_come k (strings (a ∷ rest) ++ xs)) next ∙ to_come-strings rest n xs

to_come-command : (argv : List Bytes) → to_come 1 (command argv) ≡ some 0
unfolding command
to_come-command [] = refl
to_come-command (a ∷ rest) =
    let size : suc (length (a ∷ rest) + 0) ≡ length (a ∷ rest) + 1 = omega arith in
    ap (λ n. to_come n (strings (a ∷ rest) ++ empty_list ∷ [])) size
    ∙ to_come-strings (a ∷ rest) 1 (empty_list ∷ [])

-- What is written for a request is one whole term, for every reference, method and command: the sizes
-- in the headers of the tuple, the map and the list are the numbers of the terms behind them.
pub porter_req-IsTerm : (ref method : Bytes) (s : Spawn) → IsTerm (porter_req ref method s)
unfolding porter_req command
porter_req-IsTerm ref method s = to_come-command s.argv
