-- ===== src/Pmix/Fence/Answers.antt =====
-- What the operations on fences do to those that wait and to the answers.
use swm_core.Prelude.{
  ℕ, Option, ◌+◌, ◌%◌, ◌^◌, ◌≤◌, ◌<◌, List, [], ◌∷◌, ◌≡◌, refl, sym, arith, Bytes, ℤ, pos,
  Option-cases, inl, inr, codes, find_after, All-append,
}
use swm_core.Pmix.Base64.{b64_decode}
use swm_core.Pmix.Fence.{
  PendingFence, Contribution, Fences, Event, bytes_of, find, fence_nb, complete_fence, finish,
  or_empty, read_id, read_status, parse_kv_token, handle_fence_out, answer_all, stop,
}
use swm_core.Pmix.Fence.Count.{
  hit, answers, waiting, answers-append, answers-call, KeysBelow, KeysBelow-mono, KeysBelow-erase,
  assign_fresh, waiting-append, waiting-erase,
}

module _ (fn cbdata : ℕ) where
  -- An operation that answers what it takes off the map, and adds no key.
  pub record Balanced (f : Fences) (r : Fences × List Event) : Type 0 where
    pub balance :
        answers fn cbdata r.1 + waiting fn cbdata r.0.pending ≡ waiting fn cbdata f.pending
    pub same_seq : r.0.seq ≡ f.seq
    pub below : KeysBelow f.seq f.pending → KeysBelow f.seq r.0.pending

  pub Balanced-idle : (f : Fences) → Balanced f (f, [])
  Balanced-idle f = record { balance = omega arith; same_seq = refl; below = λ b. b }

  module _ (pmix_success pmix_error : ℤ) where
    complete_fence-Balanced :
        (f : Fences) (id : ℕ) (status : ℤ) (blob : Bytes)
        → Balanced f (complete_fence pmix_success pmix_error f id status blob)
    unfolding complete_fence
    complete_fence-Balanced f id status blob = elim (Option-cases (find id f.pending)) [
      | inl e ↦ rw (e, complete_fence) (Balanced-idle f)
      | inr (p, e) ↦
          rw (e, complete_fence)
            (record {
              balance =
                  rw (answers-call fn cbdata) (sym (waiting-erase fn cbdata id p f.pending e));
              same_seq = refl;
              below = KeysBelow-erase id f.seq f.pending;
            })
    ]

    finish-Balanced :
        (f : Fences) (b64 : Bytes) (id : ℕ) (status : ℤ)
        → Balanced f (finish pmix_success pmix_error f b64 id status)
    unfolding finish
    finish-Balanced f b64 id status = elim (Option-cases (b64_decode b64)) [
      | inl e ↦ rw (e, finish) (complete_fence-Balanced f id pmix_error [])
      | inr (blob, e) ↦ rw (e, finish) (complete_fence-Balanced f id status blob)
    ]

    pub handle_fence_out-Balanced :
        (f : Fences) (l : Bytes) → Balanced f (handle_fence_out pmix_success pmix_error f l)
    unfolding handle_fence_out
    handle_fence_out-Balanced f l = elim (Option-cases (read_id (parse_kv_token l (codes "id")))) [
      | inl e ↦ rw (e, handle_fence_out) (Balanced-idle f)
      | inr (id, e) ↦ elim (Option-cases (read_status (parse_kv_token l (codes "status")))) [
        | inl e' ↦ rw (e, handle_fence_out) (rw (e', handle_fence_out) (Balanced-idle f))
        | inr (status, e') ↦
            rw (e, handle_fence_out)
              (rw (e', handle_fence_out)
                (finish-Balanced f (or_empty (find_after (codes "b64=") l)) id status))
      ]
    ]

    -- An operation that brings in `n` askings; a fence takes the next number.
    pub record Moved (f : Fences) (n : ℕ) (r : Fences × List Event) : Type 0 where
      pub moved :
          answers fn cbdata r.1 + waiting fn cbdata r.0.pending ≡ waiting fn cbdata f.pending + n
      pub seq_next : r.0.seq ≤ f.seq + 1
      pub keys_below : KeysBelow r.0.seq r.0.pending

    pub fence_nb-Moved :
        (f : Fences) (g : Option ℕ) (d : ℕ) (c : Contribution)
        → KeysBelow f.seq f.pending
        → f.seq + 1 < 2 ^ 64
        → Moved f (hit fn cbdata g d) (fence_nb f g d c)
    unfolding fence_nb
    fence_nb-Moved f g d c b h = record {
      moved =
          rw (assign_fresh f.seq p f.pending b)
            (omega (arith, waiting-append fn cbdata f.pending ((f.seq, p) ∷ [])));
      seq_next = omega arith;
      keys_below = rw (assign_fresh f.seq p f.pending b) (
          All-append (λ e. e.0 < (f.seq + 1) % 2 ^ 64) f.pending ((f.seq, p) ∷ [])
            (KeysBelow-mono f.pending (omega arith) b) (omega arith, tt));
    }
      where
        p : PendingFence
        p = record { cbfunc = g; cbdata = d; local_data = bytes_of c }

    answers-answer_all :
        (l : List (ℕ × PendingFence))
        → answers fn cbdata (answer_all pmix_success pmix_error l) ≡ waiting fn cbdata l
    unfolding answer_all
    answers-answer_all [] = refl
    answers-answer_all ((id, p) ∷ l) = rw (answers-append fn cbdata) (
        omega (arith, answers-call fn cbdata p.cbfunc pmix_error [] p.cbdata, answers-answer_all l))

    pub answers-stop :
        (f : Fences)
        → answers fn cbdata (stop pmix_success pmix_error f).1 ≡ waiting fn cbdata f.pending
    unfolding stop
    answers-stop f = answers-answer_all f.pending

-- The state in which the process starts: numbers from 1, nothing pending.
abbrev pub initial : Fences
initial = record { seq = 1; contrib = pos 0; pending = [] }
