-- ===== src/Pmix/Register/RoundTrip.antt =====
-- The arguments of REGISTER that src/srv/compute/wm_pmix.erl writes, as swm-pmix reads them.
use swm_core.Prelude.{
  ℕ, ◌%◌, ◌^◌, ◌<◌, false, List, [], ◌∷◌, ◌++◌, append-nil, append_assoc, map, is_empty, some, ◌==◌,
  ◌≡◌, ◌≢◌, refl, sym, ◌∙◌, ap, arith, Bytes, All, All-append, Lacks, join,
}
use swm_core.Numbers.{print_nat, stoul, is_digit}
use swm_core.Numbers.RoundTrip.{stoul-[], stoul-print_nat, print_nat-Lacks}
use swm_core.Pmix.Register.{
  Register, skip_spaces, trim, local_and_peers, parse_register, with_defaults, read_register,
  token_rank, ranks_from, ranks_of,
}

-- A text with a number at its front.
token_rank-stoul :
    (t rest : Bytes) (n : ℕ) → stoul t ≡ some (n, rest) → token_rank t ≡ n % 2 ^ 32 ∷ []
unfolding token_rank
token_rank-stoul [] rest n h = absurd (cc stoul-[])
token_rank-stoul (c ∷ s) rest n h = rw (h, token_rank)

token_rank-print_nat : (n : ℕ) → n < 2 ^ 32 → token_rank (print_nat n) ≡ n ∷ []
token_rank-print_nat n h =
    token_rank-stoul (print_nat n) [] n
      (ap stoul (sym (append-nil (print_nat n))) ∙ stoul-print_nat n [] (omega arith) tt)
    ∙ ap (λ m. m ∷ []) (omega arith)

ranks_from-append :
    (tok s rest : Bytes) → Lacks b',' s → ranks_from tok (s ++ rest) ≡ ranks_from (tok ++ s) rest
unfolding ranks_from
ranks_from-append tok [] rest h = rw append-nil
ranks_from-append tok (c ∷ s) rest (h, hs) =
    ground (arith, ranks_from-append (tok ++ c ∷ []) s rest hs, append_assoc tok (c ∷ []) s)

abbrev pub AreRanks : List ℕ → Type 0
AreRanks = All (λ n. n < 2 ^ 32)

ranks_from-token :
    (n : ℕ) (rest : Bytes)
    → n < 2 ^ 32
    → ranks_from [] (print_nat n ++ b',' ∷ rest) ≡ n ∷ ranks_from [] rest
unfolding ranks_from
ranks_from-token n rest h =
    ranks_from-append [] (print_nat n) (b',' ∷ rest) (print_nat-Lacks b',' n refl)
    ∙ ap (λ (t : List ℕ). t ++ ranks_from [] rest) (token_rank-print_nat n h)

ranks_from-last : (n : ℕ) → n < 2 ^ 32 → ranks_from [] (print_nat n) ≡ n ∷ []
unfolding ranks_from
ranks_from-last n h =
    ap (ranks_from []) (sym (append-nil (print_nat n)))
    ∙ (ranks_from-append [] (print_nat n) [] (print_nat-Lacks b',' n refl)
        ∙ token_rank-print_nat n h)

ranks_of-join : (rs : List ℕ) → AreRanks rs → ranks_of (join b',' (map print_nat rs)) ≡ rs
unfolding ranks_of
ranks_of-join [] h = unfold ranks_from token_rank in refl
ranks_of-join (r ∷ []) (h, hs) = ranks_from-last r h
ranks_of-join (r ∷ q ∷ rs) (h, hs) =
    ranks_from-token r (join b',' (map print_nat (q ∷ rs))) h
    ∙ ap (λ (t : List ℕ). r ∷ t) (ranks_of-join (q ∷ rs) hs)

trim-Lacks : (s : Bytes) → Lacks b' ' s → Lacks 13 s → trim s ≡ s
unfolding trim
trim-Lacks [] h k = refl
trim-Lacks (c ∷ s) (h, hs) (k, ks) = ground (arith, trim-Lacks s hs ks)

join-Lacks :
    (b : ℕ) (ns : List ℕ)
    → (b == b',') ≡ false
    → is_digit b ≡ false
    → Lacks b (join b',' (map print_nat ns))
join-Lacks b [] h d = tt
join-Lacks b (n ∷ []) h d = print_nat-Lacks b n d
join-Lacks b (n ∷ m ∷ ns) h d =
    All-append (λ c. c ≢ b) (print_nat n) (b',' ∷ join b',' (map print_nat (m ∷ ns)))
      (print_nat-Lacks b n d) ((λ e. absurd (ground arith)), join-Lacks b (m ∷ ns) h d)

is_empty-stoul : (t rest : Bytes) (n : ℕ) → stoul t ≡ some (n, rest) → is_empty t ≡ false
is_empty-stoul [] rest n h = absurd (cc stoul-[])
is_empty-stoul (c ∷ s) rest n h = refl

is_empty-print_nat : (n : ℕ) → n < 2 ^ 64 → is_empty (print_nat n) ≡ false
is_empty-print_nat n h =
    is_empty-stoul (print_nat n) [] n
      (ap stoul (sym (append-nil (print_nat n))) ∙ stoul-print_nat n [] h tt)

skip_spaces-append :
    (s t : Bytes) → is_empty s ≡ false → Lacks b' ' s → skip_spaces (s ++ t) ≡ s ++ t
unfolding skip_spaces
skip_spaces-append [] t e h = absurd (cc)
skip_spaces-append (c ∷ s) t e (h, hs) = ground arith

local_and_peers-stoul :
    (n l : ℕ) (s rest : Bytes)
    → stoul s ≡ some (l, rest)
    → local_and_peers n s ≡ record { nprocs = n; local = l; peers = trim (skip_spaces rest) }
unfolding local_and_peers
local_and_peers-stoul n l [] rest h = absurd (cc stoul-[])
local_and_peers-stoul n l (c ∷ s) rest h = rw (h, local_and_peers)

abbrev pub peers_text : List ℕ → Bytes
peers_text rs = join b',' (map print_nat rs)

is_empty-append : (s t : Bytes) → is_empty s ≡ false → is_empty (s ++ t) ≡ false
is_empty-append [] t h = absurd (cc)
is_empty-append (c ∷ s) t h = refl

is_empty-peers_text : (r : ℕ) (rs : List ℕ) → r < 2 ^ 64 → is_empty (peers_text (r ∷ rs)) ≡ false
is_empty-peers_text r [] h = is_empty-print_nat r h
is_empty-peers_text r (q ∷ rs) h =
    is_empty-append (print_nat r) (b',' ∷ peers_text (q ∷ rs)) (is_empty-print_nat r h)

skip_space_lem : (s : Bytes) → skip_spaces (b' ' ∷ s) ≡ skip_spaces s
unfolding skip_spaces
skip_space_lem s = refl

-- The arguments behind `REGISTER `.
abbrev pub register_args : ℕ → ℕ → List ℕ → Bytes
register_args n l rs = print_nat n ++ (b' ' ∷ (print_nat l ++ (b' ' ∷ peers_text rs)))

parse_register-args :
    (n l r : ℕ) (rs : List ℕ)
    → n < 2 ^ 64
    → l < 2 ^ 64
    → r < 2 ^ 64
    → parse_register (register_args n l (r ∷ rs))
      ≡ record { nprocs = n; local = l; peers = peers_text (r ∷ rs) }
unfolding parse_register
parse_register-args n l r rs hn hl hr =
    let peers = peers_text (r ∷ rs) in
    let rest = print_nat l ++ (b' ' ∷ peers) in
    let no_space = join-Lacks b' ' (r ∷ rs) refl refl in
    let no_return = join-Lacks 13 (r ∷ rs) refl refl in
    let skipped : skip_spaces (b' ' ∷ rest) ≡ rest =
      skip_space_lem rest
      ∙ skip_spaces-append (print_nat l) (b' ' ∷ peers) (is_empty-print_nat l hl)
          (print_nat-Lacks b' ' l refl) in
    let whole : skip_spaces peers ≡ peers =
      ap skip_spaces (sym (append-nil peers))
      ∙ (skip_spaces-append peers [] (is_empty-peers_text r rs hr) no_space ∙ append-nil peers) in
    rw (stoul-print_nat n (b' ' ∷ rest) hn refl, parse_register)
      (ap (local_and_peers n) skipped
        ∙ (local_and_peers-stoul n l rest (b' ' ∷ peers) (stoul-print_nat l (b' ' ∷ peers) hl refl)
            ∙ ap (λ p. record { nprocs = n; local = l; peers = p })
                (ap trim (skip_space_lem peers ∙ whole) ∙ trim-Lacks peers no_space no_return)))

with_defaults_lem :
    (n l : ℕ) (peers : Bytes)
    → 0 < l
    → is_empty peers ≡ false
    → with_defaults (record { nprocs = n; local = l; peers = peers })
      ≡ record { nprocs = n; local = l; peers = peers }
unfolding with_defaults
with_defaults_lem n l peers some_local left = ground arith

-- REGISTER is read as it is written: with the number of processes and a number of local ones that is
-- not 0, both of 64 bits, and at least one rank, all of 32 bits, the arguments give these numbers, and
-- the peers give the ranks in their order.
pub read_register-args :
    (n l r : ℕ) (rs : List ℕ)
    → n < 2 ^ 64
    → 0 < l
    → l < 2 ^ 64
    → AreRanks (r ∷ rs)
    → (read_register (register_args n l (r ∷ rs))
        ≡ record { nprocs = n; local = l; peers = peers_text (r ∷ rs) })
      × (ranks_of (read_register (register_args n l (r ∷ rs))).peers ≡ r ∷ rs)
unfolding read_register
read_register-args n l r rs hn some_local hl hs =
    let small : r < 2 ^ 64 = omega (arith, hs.0) in
    let left = is_empty-peers_text r rs small in
    let read =
      ap with_defaults (parse_register-args n l r rs hn hl small)
      ∙ with_defaults_lem n l (peers_text (r ∷ rs)) some_local left in
    (read, ap (λ (p : Register). ranks_of p.peers) read ∙ ranks_of-join (r ∷ rs) hs)
