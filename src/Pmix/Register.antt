-- ===== src/Pmix/Register.antt =====
-- The REGISTER command of swm-pmix: how `main` of c_src/pmix/pmix_server_main.cpp reads its arguments,
-- `REGISTER <nprocs> [local_size] [peers]`.
pub mod RoundTrip
use swm_core.Prelude.{
  ℕ, zero, suc, ◌+◌, ◌%◌, ◌^◌, ◌&&◌, ◌||◌, Bool, true, false, List, [], ◌∷◌, ◌++◌, is_empty, Option,
  none, some, ltb, ◌==◌, if◌then◌else◌, Bytes,
}
use swm_core.Numbers.{print_nat, stoul}

pub record Register : Type 0 where
  pub nprocs : ℕ
  pub local : ℕ
  pub peers : Bytes

unfoldable skip_spaces : Bytes → Bytes
skip_spaces [] = []
skip_spaces (c ∷ s) = let rest = skip_spaces s in if c == b' ' then rest else c ∷ s

-- Without the spaces and carriage returns at the end.
unfoldable trim : Bytes → Bytes
trim [] = []
trim (c ∷ s) = let t = trim s in if is_empty t && (c == b' ' || c == 13) then [] else c ∷ t

-- A number that cannot be read puts all three back.
abbrev unread : Register
unread = record { nprocs = 1; local = 0; peers = [] }

unfoldable local_and_peers : ℕ → Bytes → Register
unfolding skip_spaces trim
local_and_peers n [] = record { nprocs = n; local = 0; peers = [] }
local_and_peers n (c ∷ s) = elim (stoul (c ∷ s)) [
  | none ↦ unread
  | some (l, rest) ↦ record { nprocs = n; local = l; peers = trim (skip_spaces rest) }
]

unfoldable parse_register : Bytes → Register
unfolding local_and_peers
parse_register args = elim (stoul args) [
  | none ↦ unread
  | some (n, rest) ↦ local_and_peers n (skip_spaces rest)
]

-- The ranks from `i` on, `n` of them, behind a comma but for the first.
pub rank_list : ℕ → ℕ → Bytes
rank_list zero i = []
rank_list (suc n) i =
    let later = rank_list n (i + 1) in (if i == 0 then [] else b',' ∷ []) ++ (print_nat i ++ later)

-- One rank by default, and the ranks from 0 on.
unfoldable with_defaults : Register → Register
unfolding rank_list
with_defaults r =
    let local = if r.local == 0 then 1 else r.local in
    record {
      nprocs = r.nprocs;
      local = local;
      peers = if is_empty r.peers then rank_list local 0 else r.peers;
    }

-- A rank has 32 bits; a token that is no number is passed over.
unfoldable token_rank : Bytes → List ℕ
token_rank [] = []
token_rank (c ∷ s) = elim (stoul (c ∷ s)) [ none ↦ [] | some (n, rest) ↦ n % 2 ^ 32 ∷ [] ]

-- The tokens between the commas, `tok` being the part of the first that was read.
unfoldable ranks_from : Bytes → Bytes → List ℕ
unfolding token_rank
ranks_from tok [] = token_rank tok
ranks_from tok (c ∷ s) =
    let later = ranks_from [] s in
    let longer = ranks_from (tok ++ c ∷ []) s in
    if c == b',' then token_rank tok ++ later else longer

pub ranks_of : Bytes → List ℕ
unfolding ranks_from
ranks_of = ranks_from []

pub read_register : Bytes → Register
unfolding parse_register with_defaults
read_register args = with_defaults (parse_register args)
