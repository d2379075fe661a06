-- ===== src/Pmix/Server/Life.antt =====
-- The life of swm-pmix: the commands and the fences of the clients, in the order in which they take the
-- mutex of the fences, up to STOP or the end of the input. A client's fence behind the end is not part
-- of a history.
use swm_core.Prelude.{
  ℕ, ◌+◌, ◌-◌, ◌^◌, ◌<◌, Bool, List, [], ◌∷◌, ◌++◌, length, Option, if◌then◌else◌, ◌≡◌, refl, sym,
  subst, ap, arith, Bool-cases, inl, inr, Bytes, codes, ℤ,
}
use swm_core.Pmix.Fence.{Fences, Event, line, Contribution, fence_nb, stop}
use swm_core.Pmix.Fence.Count.{hit, answers, waiting, answers-append, KeysBelow}
use swm_core.Pmix.Fence.Answers.{
  initial, Balanced, Balanced-idle, handle_fence_out-Balanced, fence_nb-Moved, answers-stop,
}
use swm_core.Pmix.Register.{Register, ranks_of}
use swm_core.Pmix.Server.{
  LibCall, Server, Command, stops, register, contrib_id, setup_fork, fence_out, stop_server, ping,
  unread, other, read_command, lib, register_clients, register_client, deregistered, register_job,
  do_register, server_fork_env, env_lines, obey,
}

pub data Input : Type 0 where
  said : Bytes → Input
  client_fence : Option ℕ → ℕ → Contribution → Input

-- How often a callback is handed over before STOP.
abbrev pub asked_in : ℕ → ℕ → List Input → ℕ
asked_in fn cbdata [] = 0
asked_in fn cbdata (client_fence g d c ∷ is) = hit fn cbdata g d + asked_in fn cbdata is
asked_in fn cbdata (said l ∷ is) =
    let later = asked_in fn cbdata is in if stops (read_command l) then 0 else later

module _ (succeeds : List LibCall → LibCall → Bool) (env : List LibCall → ℕ → Option (List Bytes))
    (pmix_success pmix_error : ℤ) where
  -- The end of `main`.
  unfoldable shut_down : Server → Server × List Event
  shut_down s =
      let (f, es) = stop pmix_success pmix_error s.fences in
      (record s { fences = f }, es ++ line (codes "STOPPED") ∷ [])

  pub serve : Server → List Input → Server × List Event
  unfolding shut_down
  serve s [] = shut_down s
  serve s (client_fence g d c ∷ is) =
      let (f, es) = fence_nb s.fences g d c in
      let (t, fs) = serve (record s { fences = f }) is in (t, es ++ fs)
  serve s (said l ∷ is) =
      let (t, es) = obey succeeds env pmix_success pmix_error (read_command l) s in
      let (u, fs) = serve t is in
      let on : Server × List Event = (u, es ++ fs) in
      if stops (read_command l) then shut_down s else on

  -- The library's calls leave the fences.
  register_clients-fences :
      (rs : List ℕ) (s : Server) → (register_clients succeeds env rs s).1.fences ≡ s.fences
  unfolding register_clients lib
  register_clients-fences [] s = refl
  register_clients-fences (r ∷ rs) s =
      register_clients-fences rs (lib succeeds env (register_client r) s).1

  deregistered-fences : (s : Server) → (deregistered succeeds env s).fences ≡ s.fences
  unfolding deregistered lib
  deregistered-fences s = ground arith

  register_job-fences :
      (n l : ℕ) (p : Bytes) (s : Server) → (register_job succeeds env n l p s).1.fences ≡ s.fences
  unfolding register_job lib
  register_job-fences n l p s = ground (arith, deregistered-fences s)

  do_register-fences :
      (r : Register) (s : Server) → (do_register succeeds env r s).0.fences ≡ s.fences
  unfolding do_register
  do_register-fences r s =
      let t = (register_job succeeds env r.nprocs r.local r.peers s).1 in
      ground (
        arith,
        register_job-fences r.nprocs r.local r.peers s,
        register_clients-fences (ranks_of r.peers) t,
      )

  module _ (fn cbdata : ℕ) where
    answers-env_lines : (kvs : List (Bytes × Bytes)) → answers fn cbdata (env_lines kvs) ≡ 0
    unfolding env_lines
    answers-env_lines [] = refl
    answers-env_lines ((k, v) ∷ kvs) = answers-env_lines kvs

    -- An operation that answers nothing and keeps what is pending.
    lines_only :
        (f g : Fences) (es : List Event)
        → g.pending ≡ f.pending
        → g.seq ≡ f.seq
        → answers fn cbdata es ≡ 0
        → Balanced fn cbdata f (g, es)
    lines_only f g es p q e = record {
      balance = rw e (omega (arith, ap (waiting fn cbdata) p));
      same_seq = q;
      below = λ b. subst (KeysBelow f.seq) (sym p) b;
    }

    answers-do_register :
        (r : Register) (s : Server) → answers fn cbdata (do_register succeeds env r s).1 ≡ 0
    unfolding do_register
    answers-do_register r s = ground arith

    obey-Balanced :
        (c : Command) (s : Server)
        → Balanced fn cbdata s.fences (
          (obey succeeds env pmix_success pmix_error c s).0.fences,
          (obey succeeds env pmix_success pmix_error c s).1,
        )
    unfolding obey
    obey-Balanced (register r) s =
        lines_only s.fences (do_register succeeds env r s).0.fences (do_register succeeds env r s).1
          (ap (λ (f : Fences). f.pending) (do_register-fences r s))
          (ap (λ (f : Fences). f.seq) (do_register-fences r s)) (answers-do_register r s)
    obey-Balanced (contrib_id z) s = lines_only s.fences _ _ refl refl refl
    obey-Balanced (setup_fork rank) s =
        lines_only s.fences _ _ refl refl
          (answers-env_lines (server_fork_env (env (register_client rank ∷ s.calls) rank)).vars)
    obey-Balanced (fence_out l) s =
        handle_fence_out-Balanced fn cbdata pmix_success pmix_error s.fences l
    obey-Balanced stop_server s = Balanced-idle fn cbdata s.fences
    obey-Balanced ping s = lines_only s.fences s.fences _ refl refl refl
    obey-Balanced unread s = lines_only s.fences s.fences _ refl refl refl
    obey-Balanced other s = Balanced-idle fn cbdata s.fences

    shut_down-answers :
        (s : Server) → answers fn cbdata (shut_down s).1 ≡ waiting fn cbdata s.fences.pending
    unfolding shut_down
    shut_down-answers s = omega (
      arith,
      answers-append fn cbdata (stop pmix_success pmix_error s.fences).1
          (line (codes "STOPPED") ∷ []),
      answers-stop fn cbdata pmix_success pmix_error s.fences,
    )

    serve_balance :
        (s : Server) (is : List Input)
        → KeysBelow s.fences.seq s.fences.pending
        → s.fences.seq + length is < 2 ^ 64
        → answers fn cbdata (serve s is).1
          ≡ waiting fn cbdata s.fences.pending + asked_in fn cbdata is
    unfolding serve
    serve_balance s [] b h = omega (arith, shut_down-answers s)
    serve_balance s (client_fence g d c ∷ is) b h =
        let u = fence_nb-Moved fn cbdata pmix_success pmix_error s.fences g d c b (omega arith) in
        let t : Server = record s { fences = (fence_nb s.fences g d c).0 } in
        omega (
          arith,
          u.moved,
          serve_balance t is u.keys_below (omega (arith, u.seq_next)),
          answers-append fn cbdata (fence_nb s.fences g d c).1 (serve t is).1,
        )
    serve_balance s (said l ∷ is) b h = elim (Bool-cases (stops (read_command l))) [
      | inl e ↦ rw e (omega (arith, shut_down-answers s))
      | inr e ↦
          let c = read_command l in
          let (t, es) = obey succeeds env pmix_success pmix_error c s in
          let u = obey-Balanced c s in
          let below = subst (λ n. KeysBelow n t.fences.pending) (sym u.same_seq) (u.below b) in
          rw e (
            omega (
              arith,
              u.balance,
              serve_balance t is below (omega (arith, u.same_seq)),
              answers-append fn cbdata es (serve t is).1,
            ))
    ]

  serve-pending : (s : Server) (is : List Input) → (serve s is).0.fences.pending ≡ []
  unfolding serve shut_down
  serve-pending s [] = unfold stop in refl
  serve-pending s (client_fence g d c ∷ is) =
      serve-pending (record s { fences = (fence_nb s.fences g d c).0 }) is
  serve-pending s (said l ∷ is) = elim (Bool-cases (stops (read_command l))) [
    | inl e ↦ rw e (unfold stop in refl)
    | inr e ↦
        rw e (serve-pending (obey succeeds env pmix_success pmix_error (read_command l) s).0 is)
  ]

-- The server before its first command.
abbrev pub started : Bool → List LibCall → Server
started registered calls = record {
  fences = initial;
  nspace_registered = registered;
  calls = calls;
}

-- Whatever commands come, in whatever order, among the fences of the clients, and whatever the PMIx
-- library answers, each fence of a history is answered exactly once by the end of the process: a
-- callback has been called with its client's data exactly as often as the two were handed over before
-- STOP or the end of the input, and nothing is pending then. There is room for 2 ^ 64 - 2 fences and
-- commands.
pub serve-answers :
    (succeeds : List LibCall → LibCall → Bool) (env : List LibCall → ℕ → Option (List Bytes))
    (pmix_success pmix_error : ℤ) (registered : Bool) (calls : List LibCall) (is : List Input)
    (fn cbdata : ℕ)
    → length is < 2 ^ 64 - 1
    → (answers fn cbdata
          (serve succeeds env pmix_success pmix_error (started registered calls) is).1
        ≡ asked_in fn cbdata is)
      × ((serve succeeds env pmix_success pmix_error (started registered calls) is).0.fences.pending
          ≡ [])
serve-answers succeeds env pmix_success pmix_error registered calls is fn cbdata h = (
  omega (
    arith,
    serve_balance succeeds env pmix_success pmix_error fn cbdata (started registered calls) is tt
        (omega arith),
  ),
  serve-pending succeeds env pmix_success pmix_error (started registered calls) is,
)
