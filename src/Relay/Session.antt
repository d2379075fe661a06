-- ===== src/Relay/Session.antt =====
-- A request of swm-task from end to end: its bytes to the porter, the porter's request to the Erlang
-- side, the reply frame, and the answer that swm-task exits with.
use swm_core.Prelude.{
  ℕ, ◌+◌, ◌≤◌, ◌<◌, length, Bool, true, false, ◌||◌, List, [], ◌∷◌, ◌++◌, is_empty, append-nil, map,
  Option, none, some, ◌≡◌, ◌≢◌, refl, ◌∙◌, ap, arith, Bytes, codes, All, All-append, Lacks, ℤ,
}
use swm_core.Ei.{Ei}
use swm_core.Numbers.{print_int}
use swm_core.Numbers.RoundTrip.{InInt}
use swm_core.Ctrl.{newline}
use swm_core.Ctrl.RoundTrip.{kept, asks_pmix, parse_spawn-spawn_line}
use swm_core.Task.{escape_byte, escape_arg, escape_args, spawn_line, spawn_request}
use swm_core.Task.Reply.{ReadResult, got}
use swm_core.Task.Run.{Env, Outcome, run_via_porter}
use swm_core.Task.Session.{feed, GetsThrough, run_via_porter_sent, run_via_porter_done}
use swm_core.Relay.{
  Event, reply, request, Requests, Relay, ReadCall, bytes, put, spawn, handle_ctrl_line, lines,
  read_all,
}
use swm_core.Relay.Framing.{concat, relay, read_all-bytes, on_relay, lines_part}
use swm_core.Io.Length.{be32}
use swm_core.Relay.Stdin.{ctrl_reply, max_frame}
use swm_core.Relay.Stdin.Frame.{Delivers, read_frame-Delivers}
use swm_core.Relay.Reply.{find_ref, try_read_stdin_reply}
use swm_core.Relay.Reply.Done.{find-put, drop-put, DoneFrame, handle_reply-DoneFrame}

-- An escaped argument has no newline if the argument has none.
escape_arg-Lacks : (a : Bytes) → Lacks newline a → Lacks newline (escape_arg a)
unfolding escape_arg escape_byte
escape_arg-Lacks [] h = tt
escape_arg-Lacks (c ∷ a) (h, hs) = ground (arith, escape_arg-Lacks a hs)

escape_args-Lacks :
    (argv : List Bytes) → All (Lacks newline) argv → Lacks newline (escape_args argv)
unfolding escape_args
escape_args-Lacks [] h = tt
escape_args-Lacks (a ∷ rest) (h, hs) = (
  omega arith,
  All-append (λ c. c ≢ newline) (escape_arg a) (escape_args rest) (escape_arg-Lacks a h)
      (escape_args-Lacks rest hs),
)

spawn_line-Lacks :
    (pmix : Bool) (argv : List Bytes)
    → All (Lacks newline) argv
    → Lacks newline (spawn_line pmix argv)
unfolding spawn_line
spawn_line-Lacks true argv h = ground (arith, escape_args-Lacks argv h)
spawn_line-Lacks false argv h = ground (arith, escape_args-Lacks argv h)

-- What a client is sent.
abbrev pub written : List Event → Bytes
written [] = []
written (reply fd l ∷ es) = l ++ newline ∷ written es
written (request ref s ∷ es) = written es

feed-append :
    (s : Bytes) (rs : List ReadResult) (t : Bytes) → feed (s ++ t) ++ rs ≡ feed s ++ (feed t ++ rs)
feed-append [] rs t = refl
feed-append (c ∷ s) rs t = rw (feed-append s rs t)

-- The requests behind a line that was sent.
abbrev pub with_ref : (ℕ → Bytes) → Option ℕ → Requests → Requests
with_ref make_ref fd q = record { pending = put (make_ref q.made) fd q.pending; made = q.made + 1 }

module _ (make_ref : ℕ → Bytes) (sends : ℕ → Bool) where
  handle-spawn_line :
      (client : Option ℕ) (q : Requests) (pmix : Bool) (argv : List Bytes)
      → is_empty (kept argv) ≡ false
      → sends q.made ≡ true
      → handle_ctrl_line make_ref sends client q (spawn_line pmix argv) ≡ (
        with_ref make_ref client q,
        request (make_ref q.made) (record { pmix = pmix || asks_pmix argv; argv = kept argv }) ∷ [],
      )
  unfolding handle_ctrl_line spawn
  handle-spawn_line client q pmix argv some_left sent =
      rw (parse_spawn-spawn_line pmix argv) (rw some_left (rw sent))

  lines-newline :
      (client : Option ℕ) (q : Requests) (l : Bytes)
      → lines make_ref sends client q l (newline ∷ []) ≡ (
        (handle_ctrl_line make_ref sends client q l).0,
        [],
        (handle_ctrl_line make_ref sends client q l).1,
      )
  unfolding lines
  lines-newline client q l = rw append-nil

  read_all-spawn_request :
      (fd : ℕ) (q : Requests) (chunks : List Bytes) (pmix : Bool) (argv : List Bytes)
      → All (Lacks newline) argv
      → is_empty (kept argv) ≡ false
      → sends q.made ≡ true
      → concat chunks ≡ spawn_request pmix argv
      → read_all make_ref sends (relay fd q []) (map bytes chunks) ≡ (
        relay fd (with_ref make_ref (some fd) q) [],
        request (make_ref q.made) (record { pmix = pmix || asks_pmix argv; argv = kept argv }) ∷ [],
      )
  unfolding spawn_request
  read_all-spawn_request fd q chunks pmix argv no_newline some_left sent same =
      let l = spawn_line pmix argv in
      read_all-bytes make_ref sends fd q [] chunks tt
      ∙ ap (on_relay make_ref sends fd) (
          ap (lines make_ref sends (some fd) q []) same
          ∙ (lines_part make_ref sends (some fd) q [] l (newline ∷ [])
                (spawn_line-Lacks pmix argv no_newline)
              ∙ (lines-newline (some fd) q l
                  ∙ ap (λ p. (p.0, [], p.1))
                      (handle-spawn_line (some fd) q pmix argv some_left sent))))

-- The calls of read(2) that give a reply frame, its body in the parts of `parts`.
abbrev pub frame_calls : Bytes → List ReadCall → List ReadCall → List ReadCall
frame_calls body parts rest = bytes (ctrl_reply ∷ []) ∷ bytes (be32 (length body)) ∷ (parts ++ rest)

-- What a call wrote.
abbrev pub events : Option (Relay × List Event × List ReadCall) → List Event
events none = []
events (some (r, es, calls)) = es

-- A request without the references of the new one.
abbrev pub made_one : Requests → Requests
made_one q = record q { made = q.made + 1 }

module _ (E : Ei) (make_ref : ℕ → Bytes) (fd : ℕ) (q : Requests) where
  try_read_stdin_reply-DoneFrame :
      (z : ℤ) (body : Bytes) (parts rest : List ReadCall)
      → 0 < length body
      → length body ≤ max_frame
      → Delivers body parts
      → DoneFrame E (E.of_bytes body) (make_ref q.made) z
      → find_ref (make_ref q.made) q.pending ≡ none
      → try_read_stdin_reply E
          (relay fd (with_ref make_ref (some fd) q) [])
          (frame_calls body parts rest)
        ≡ some (relay fd (made_one q) [], reply fd (codes "DONE " ++ print_int z) ∷ [], rest)
  unfolding try_read_stdin_reply
  try_read_stdin_reply-DoneFrame z body parts rest some_bytes fits d done fresh =
      let ref = make_ref q.made in
      let handled =
        handle_reply-DoneFrame E (E.of_bytes body) ref z fd (with_ref make_ref (some fd) q) done
          (find-put ref (some fd) q.pending) in
      rw (read_frame-Delivers body parts rest some_bytes fits d, try_read_stdin_reply)
        (rw (handled, try_read_stdin_reply) (rw (drop-put ref (some fd) q.pending fresh)))

written-feed :
    (fd : ℕ) (l : Bytes) (rs : List ReadResult)
    → feed (written (reply fd l ∷ [])) ++ rs ≡ feed l ++ got newline ∷ rs
written-feed fd l rs = feed-append l rs (newline ∷ [])

-- A request of swm-task from end to end. If swm-task's bytes reach the porter in any chunks, the
-- arguments have no newline and one of them is kept, the request can be sent under a reference that
-- is not pending, a reply frame of up to 16 MiB says that the task of this reference is done with a
-- code that fits an `int`, however the frame's body is split, and swm-task reads what the porter
-- wrote, then the porter sends exactly one request, with the kept arguments, the reply is answered
-- with `DONE` and the code to this client and leaves the pending requests as they were, and swm-task
-- exits with the code of the task.
pub run_via_porter-read_all :
    (E : Ei) (make_ref : ℕ → Bytes) (sends : ℕ → Bool) (e : Env) (pmix : Bool) (argv : List Bytes)
    (fd : ℕ) (q : Requests) (chunks : List Bytes) (z : ℤ) (body : Bytes)
    (parts rest : List ReadCall) (rs : List ReadResult)
    → GetsThrough e pmix argv
    → concat chunks ≡ (run_via_porter e pmix argv).sent
    → All (Lacks newline) argv
    → is_empty (kept argv) ≡ false
    → sends q.made ≡ true
    → find_ref (make_ref q.made) q.pending ≡ none
    → 0 < length body
    → length body ≤ max_frame
    → Delivers body parts
    → DoneFrame E (E.of_bytes body) (make_ref q.made) z
    → InInt z
    → e.reads
      ≡ feed (
          written (
            events (
              try_read_stdin_reply E
                (read_all make_ref sends (relay fd q []) (map bytes chunks)).0
                (frame_calls body parts rest))))
        ++ rs
    → ((read_all make_ref sends (relay fd q []) (map bytes chunks)).1
        ≡ request (make_ref q.made) (record { pmix = pmix || asks_pmix argv; argv = kept argv })
          ∷ [])
      × (try_read_stdin_reply E
            (read_all make_ref sends (relay fd q []) (map bytes chunks)).0
            (frame_calls body parts rest)
          ≡ some (relay fd (made_one q) [], reply fd (codes "DONE " ++ print_int z) ∷ [], rest))
      × ((run_via_porter e pmix argv).code ≡ some z)
run_via_porter-read_all E make_ref sends e pmix argv fd q chunks z body parts rest rs g same
      no_newline some_left sent fresh some_bytes fits d done in_int reads =
    (
      ap (λ p. p.1) relayed,
      replied,
      ap (λ (o : Outcome). o.code)
          (run_via_porter_done e pmix argv [] z rs g tt in_int (
            reads
            ∙ (ap (λ r. feed (written (events r)) ++ rs) replied
                ∙ written-feed fd (codes "DONE " ++ print_int z) rs))),
    )
  where
    relayed : read_all make_ref sends (relay fd q []) (map bytes chunks) ≡ (
      relay fd (with_ref make_ref (some fd) q) [],
      request (make_ref q.made) (record { pmix = pmix || asks_pmix argv; argv = kept argv }) ∷ [],
    )
    relayed =
        read_all-spawn_request make_ref sends fd q chunks pmix argv no_newline some_left sent
          (same ∙ run_via_porter_sent e pmix argv g)

    replied :
        try_read_stdin_reply E
          (read_all make_ref sends (relay fd q []) (map bytes chunks)).0
          (frame_calls body parts rest)
        ≡ some (relay fd (made_one q) [], reply fd (codes "DONE " ++ print_int z) ∷ [], rest)
    replied =
        ap (λ p. try_read_stdin_reply E p.0 (frame_calls body parts rest)) relayed
        ∙ try_read_stdin_reply-DoneFrame E make_ref fd q z body parts rest some_bytes fits d done
            fresh
