-- ===== src/Task/Session.antt =====
-- A whole run of swm-task: from the command line to the request, and from the answer to the exit code.
use swm_core.Prelude.{
  ℕ, zero, suc, ◌+◌, ◌≤◌, ◌<◌, Bool, true, false, ◌||◌, List, [], ◌∷◌, ◌++◌, is_empty, length,
  append-nil, append_assoc, length-append, none, some, ltb, ◌≡◌, ◌≢◌, refl, ap, ap₂, arith, Bytes,
  codes, All, All-append, Lacks, ℤ, bytes_eq, bytes_eq_iff, starts_with, Bool-cases, inl, inr,
}
use swm_core.Numbers.{print_int}
use swm_core.Numbers.RoundTrip.{InInt, stoi-print_int, print_int-Lacks}
use swm_core.Ctrl.{newline}
use swm_core.WriteLoop.{GetsOn, writes, write_all, write_all_total}
use swm_core.Task.{spawn_request}
use swm_core.Task.Args.{run, read_args}
use swm_core.Task.Reply.{ReadResult, got, line, read_line, verdict, await_lines, await_reply}
use swm_core.Task.Run.{Env, connect_porter_ctrl, after_write, run_via_porter}

-- The bytes of a text, one for each call.
abbrev pub feed : Bytes → List ReadResult
feed [] = []
feed (c ∷ s) = got c ∷ feed s

read_line-feed :
    (l : Bytes) (rs : List ReadResult) (out : Bytes)
    → Lacks newline l
    → read_line (feed l ++ got newline ∷ rs) out ≡ line (out ++ l) rs
unfolding read_line
read_line-feed [] rs out h = rw append-nil
read_line-feed (c ∷ l) rs out (h, hs) =
    ground (arith, read_line-feed l rs (out ++ c ∷ []) hs, append_assoc out (c ∷ []) l)

-- Lines with their newlines.
abbrev pub feed_lines : List Bytes → List ReadResult → List ReadResult
feed_lines [] rs = rs
feed_lines (l ∷ ls) rs = feed l ++ got newline ∷ feed_lines ls rs

-- A line that decides nothing, such as `OK <ref>`.
abbrev pub IsPending : Bytes → Type 0
IsPending l = Lacks newline l × (verdict l ≡ none)

await_lines-feed_lines :
    (ls : List Bytes) (l : Bytes) (z : ℤ) (rs : List ReadResult) (f : ℕ)
    → All IsPending ls
    → Lacks newline l
    → verdict l ≡ some z
    → length ls < f
    → await_lines f (feed_lines ls (feed l ++ got newline ∷ rs)) ≡ some z
unfolding await_lines
await_lines-feed_lines ls l z rs zero hs h v lt = absurd (omega arith)
await_lines-feed_lines [] l z rs (suc f) hs h v lt =
    rw (read_line-feed l rs [] h, await_lines) (rw (v, await_lines))
await_lines-feed_lines (p ∷ ls) l z rs (suc f) ((hp, vp), hs) h v lt =
    rw (read_line-feed p (feed_lines ls (feed l ++ got newline ∷ rs)) [] hp, await_lines)
      (rw (vp, await_lines) (await_lines-feed_lines ls l z rs f hs h v (omega arith)))

length-feed_lines :
    (ls : List Bytes) (rs : List ReadResult) → length ls + length rs ≤ length (feed_lines ls rs)
length-feed_lines [] rs = omega arith
length-feed_lines (l ∷ ls) rs =
    omega (arith, length-append (feed l) (got newline ∷ feed_lines ls rs), length-feed_lines ls rs)

verdict_done : (z : ℤ) → InInt z → verdict (codes "DONE " ++ print_int z) ≡ some z
unfolding verdict
verdict_done z h = rw (← append-nil (print_int z)) (rw (stoi-print_int z [] h tt))

-- The environment in which the request gets through: the control socket is named and accepts, no
-- write fails for good, and there are enough writes for the request.
pub record GetsThrough (e : Env) (pmix : Bool) (argv : List Bytes) : Type 0 where
  pub path : Bytes
  pub named : e.ctrl ≡ some path
  pub not_empty : is_empty path ≡ false
  pub connected : connect_porter_ctrl e path ≡ true
  pub steady : All GetsOn e.writes
  pub enough : length (spawn_request pmix argv) ≤ writes e.writes

-- A request that gets through is sent whole, whatever is answered.
request_sent :
    (e : Env) (pmix : Bool) (argv : List Bytes)
    → GetsThrough e pmix argv
    → write_all e.writes (spawn_request pmix argv) ≡ (spawn_request pmix argv, some true)
request_sent e pmix argv g = write_all_total e.writes (spawn_request pmix argv) g.steady g.enough

pub run_via_porter_sent :
    (e : Env) (pmix : Bool) (argv : List Bytes)
    → GetsThrough e pmix argv
    → (run_via_porter e pmix argv).sent ≡ spawn_request pmix argv
unfolding run_via_porter after_write
run_via_porter_sent e pmix argv g =
    rw (g.named, run_via_porter)
      (rw (g.not_empty, g.connected)
        (ap (λ w. (after_write e w).sent) (request_sent e pmix argv g)))

-- If the request gets through and the porter answers with any number of lines that decide nothing
-- and then `DONE` with the code of the task, swm-task has sent exactly the request, and it exits
-- with that code, for every code that fits an `int`, however the writes are split or interrupted.
pub run_via_porter_done :
    (e : Env) (pmix : Bool) (argv : List Bytes) (ls : List Bytes) (z : ℤ) (rs : List ReadResult)
    → GetsThrough e pmix argv
    → All IsPending ls
    → InInt z
    → e.reads ≡ feed_lines ls (feed (codes "DONE " ++ print_int z) ++ got newline ∷ rs)
    → run_via_porter e pmix argv ≡ record { sent = spawn_request pmix argv; code = some z }
unfolding run_via_porter after_write await_reply
run_via_porter_done e pmix argv ls z rs g hs h r =
    rw (g.named, run_via_porter)
      (rw (g.not_empty, g.connected)
        (rw (sent, after_write)
          (rw (ap (λ p. p.0) sent, r)
            (ap (λ c. record { sent = spawn_request pmix argv; code = c })
              (await_lines-feed_lines ls (codes "DONE " ++ print_int z) z rs
                (suc (
                  length (feed_lines ls (feed (codes "DONE " ++ print_int z) ++ got newline ∷ rs))))
                hs
                (All-append (λ c. c ≢ newline) (codes "DONE ") (print_int z) (omega arith)
                  (print_int-Lacks newline z refl (omega arith)))
                (verdict_done z h)
                (omega (
                  arith,
                  length-feed_lines ls (feed (codes "DONE " ++ print_int z) ++ got newline ∷ rs),
                )))))))
  where
    sent : write_all e.writes (spawn_request pmix argv) ≡ (spawn_request pmix argv, some true)
    sent = request_sent e pmix argv g

-- The flags in front of a command.
abbrev pub flags : ℕ → List Bytes
flags zero = []
flags (suc n) = codes "--pmix" ∷ flags n

-- swm-task runs a command only if its arguments are some `--pmix` flags and then the command, whose
-- first word is there and does not start with a dash; it asks for PMIx exactly if there is a flag.
pub read_args-run :
    (pmix p : Bool) (args argv : List Bytes)
    → read_args pmix args ≡ run p argv
    → (n : ℕ) × (a : Bytes) × (rest : List Bytes) × (argv ≡ a ∷ rest)
      × (args ≡ flags n ++ argv)
      × (starts_with (codes "-") a ≡ false)
      × (p ≡ (pmix || ltb 0 n))
unfolding read_args
read_args-run pmix p [] argv h = absurd (cc)
read_args-run pmix p (a ∷ rest) argv h =
    elim (Bool-cases (bytes_eq a (codes "-h") || bytes_eq a (codes "--help"))) [
      | inl e ↦ absurd (ground arith)
      | inr e ↦ elim (Bool-cases (bytes_eq a (codes "--pmix"))) [
        | inl f ↦
            let (n, b, r, shape, whole, dash, flag) =
              read_args-run true p rest argv (ground arith) in
            (
              suc n,
              b,
              r,
              shape,
              ap₂ ◌∷◌ ((bytes_eq_iff a (codes "--pmix")).0 f) whole,
              dash,
              ground arith,
            )
        | inr f ↦ elim (Bool-cases (starts_with (codes "-") a)) [
          | inl k ↦ absurd (ground arith)
          | inr k ↦ (0, a, rest, ground arith, ground arith, k, ground arith)
        ]
      ]
    ]
