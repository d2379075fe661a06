-- ===== src/Pmix/Fence.antt =====
-- The fences of swm-pmix. Clients call `fencenb`; the node's Erlang side gathers the contributions of
-- all nodes and answers with a FENCE_OUT line; the answer goes to the callback of the fence. The two
-- threads meet in the map of pending fences, under its mutex, so a history is a list of whole calls.
pub mod Count
pub mod Answers
pub mod Line
use swm_core.Prelude.{
  ℕ, zero, suc, ◌+◌, ◌%◌, ◌^◌, Bool, true, false, ◌&&◌, ◌||◌, not, List, [], ◌∷◌, ◌++◌, Option,
  none, some, is_empty, length, ltb, ◌==◌, if◌then◌else◌, Bytes, codes, find_after, until, ℤ, pos,
  negsuc, int_eq,
}
use swm_core.Numbers.{print_nat, print_int, stoi, stoul}
use swm_core.Pmix.Base64.{b64_encode, b64_decode}

-- `none` is a null callback; a number names a function or a client's pointer.
pub record PendingFence : Type 0 where
  pub cbfunc : Option ℕ
  pub cbdata : ℕ
  pub local_data : Bytes

-- The globals: `g_fence_seq`, `g_contrib_id`, and `g_pending_fences` in the order of its keys.
pub record Fences : Type 0 where
  pub seq : ℕ
  pub contrib : ℤ
  pub pending : List (ℕ × PendingFence)

-- A line on stdout, or a call of a callback with its status, data and `cbdata`; the null pointer and
-- size 0 are the empty data.
pub data Event : Type 0 where
  line : Bytes → Event
  answer : ℕ → ℤ → Bytes → ℕ → Event

-- The arguments `data` and `ndata`.
pub data Contribution : Type 0 where
  null : ℕ → Contribution
  buffer : Bytes → Contribution

abbrev pub ndata : Contribution → ℕ
ndata (null n) = n
ndata (buffer b) = length b

abbrev pub bytes_of : Contribution → Bytes
bytes_of (null n) = []
bytes_of (buffer b) = b

module _ {A : Type 0} where
  -- `operator[]` of `std::map`.
  pub assign : ℕ → A → List (ℕ × A) → List (ℕ × A)
  assign k v [] = (k, v) ∷ []
  assign k v ((j, w) ∷ m) =
      let later = (j, w) ∷ assign k v m in
      if k == j then (k, v) ∷ m else if ltb k j then (k, v) ∷ (j, w) ∷ m else later

  pub find : ℕ → List (ℕ × A) → Option A
  find k [] = none
  find k ((j, w) ∷ m) = let later = find k m in if j == k then some w else later

  pub erase : ℕ → List (ℕ × A) → List (ℕ × A)
  erase k [] = []
  erase k ((j, w) ∷ m) = let later = (j, w) ∷ erase k m in if j == k then m else later

-- The FENCE_IN line.
fence_in : ℕ → ℤ → Contribution → Bytes
fence_in id contrib c =
    codes "FENCE_IN id="
    ++ print_nat id
    ++ codes " contrib="
    ++ print_int contrib
    ++ codes " nbytes="
    ++ print_nat (ndata c)
    ++ codes " b64="
    ++ b64_encode (bytes_of c)

-- `fencenb`; the sequence number has 64 bits.
pub fence_nb : Fences → Option ℕ → ℕ → Contribution → Fences × List Event
unfolding assign fence_in
fence_nb f cbfunc cbdata c = (
  record f {
    seq = (f.seq + 1) % 2 ^ 64;
    pending =
        assign f.seq (record { cbfunc = cbfunc; cbdata = cbdata; local_data = bytes_of c })
          f.pending;
  },
  line (fence_in f.seq f.contrib c) ∷ [],
)

-- A call of a callback, if there is one.
unfoldable call : Option ℕ → ℤ → Bytes → ℕ → List Event
call none status blob cbdata = []
call (some fn) status blob cbdata = answer fn status blob cbdata ∷ []

-- `parse_kv_token`.
parse_kv_token : Bytes → Bytes → Option Bytes
parse_kv_token l key = elim (find_after (key ++ codes "=") l) [
  | none ↦ none
  | some rest ↦ some (until b' ' rest)
]

or_empty : Option Bytes → Bytes
or_empty none = []
or_empty (some s) = s

read_id : Option Bytes → Option ℕ
read_id none = none
read_id (some s) = elim (stoul s) [ none ↦ none | some (n, rest) ↦ some n ]

read_status : Option Bytes → Option ℤ
read_status none = none
read_status (some s) = stoi s

-- The status codes are those of the PMIx library.
module _ (pmix_success pmix_error : ℤ) where
  pub complete_fence : Fences → ℕ → ℤ → Bytes → Fences × List Event
  unfolding find erase call
  complete_fence f id status blob = elim (find id f.pending) [
    | none ↦ (f, [])
    | some p ↦ (
      record f { pending = erase id f.pending },
      call p.cbfunc status (if int_eq status pmix_success then blob else []) p.cbdata,
    )
  ]

  -- The numbers of a FENCE_OUT line are there, and are numbers.
  finish : Fences → Bytes → ℕ → ℤ → Fences × List Event
  finish f b64 id status = elim (b64_decode b64) [
    | none ↦ complete_fence f id pmix_error []
    | some blob ↦ complete_fence f id status blob
  ]

  -- A line without its numbers is dropped.
  pub handle_fence_out : Fences → Bytes → Fences × List Event
  unfolding finish parse_kv_token or_empty read_id read_status
  handle_fence_out f l = elim (read_id (parse_kv_token l (codes "id"))) [
    | none ↦ (f, [])
    | some id ↦ elim (read_status (parse_kv_token l (codes "status"))) [
      | none ↦ (f, [])
      | some status ↦ finish f (or_empty (find_after (codes "b64=") l)) id status
    ]
  ]

  -- The end of `main`: what is still pending is answered with an error.
  answer_all : List (ℕ × PendingFence) → List Event
  unfolding call
  answer_all [] = []
  answer_all ((id, p) ∷ m) = call p.cbfunc pmix_error [] p.cbdata ++ answer_all m

  unfoldable pub stop : Fences → Fences × List Event
  unfolding answer_all
  stop f = (record f { pending = [] }, answer_all f.pending)
