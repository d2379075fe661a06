-- ===== src/WriteLoop.antt =====
-- The loop over write(2) that swm-task and swm-porter share: `write_all` of c_src/task/task.cpp, and
-- the same loop in `porter_ctrl_write_line` of c_src/porter/wm_porter_ctrl.cpp. The results of the
-- calls are an argument; a call writes at most what it is given.
use swm_core.Prelude.{
  ℕ, zero, suc, ◌≤◌, ◌<◌, Bool, true, false, List, [], ◌∷◌, ◌++◌, take, drop, length, All,
  length-drop, take-append-drop, append_assoc, Option, none, some, ◌≡◌, refl, arith, Bytes,
  is_empty, sym, ◌∙◌, ap, append-nil,
}

-- `interrupted` is -1 with EINTR, `failed` any other error.
pub data WriteResult : Type 0 where
  wrote : ℕ → WriteResult
  interrupted failed : WriteResult

-- What reached the descriptor, and the answer; `none` while the loop is still in a call.
unfoldable pub write_all : List WriteResult → Bytes → Bytes × Option Bool
write_all ws [] = ([], some true)
write_all [] (c ∷ s) = ([], none)
write_all (wrote n ∷ ws) (c ∷ s) =
    let (out, answer) = write_all ws (drop n (c ∷ s)) in (take n (c ∷ s) ++ out, answer)
write_all (interrupted ∷ ws) (c ∷ s) = write_all ws (c ∷ s)
write_all (failed ∷ ws) (c ∷ s) = ([], some false)

abbrev pub succeeded : Option Bool → Bool
succeeded none = false
succeeded (some answer) = answer

-- Whatever the calls do, only a front part of the message reaches the descriptor, and the loop
-- reports success exactly if nothing of the message is left behind that part.
pub write_all_sound :
    (ws : List WriteResult) (msg : Bytes)
    → (rest : Bytes) × ((write_all ws msg).0 ++ rest ≡ msg)
      × (succeeded (write_all ws msg).1 ≡ is_empty rest)
unfolding write_all
write_all_sound ws [] = ([], refl, refl)
write_all_sound [] (c ∷ s) = (c ∷ s, refl, refl)
write_all_sound (wrote n ∷ ws) (c ∷ s) =
    let (rest, e, done) = write_all_sound ws (drop n (c ∷ s)) in
    (rest, rw append_assoc (rw e (take-append-drop n (c ∷ s))), done)
write_all_sound (interrupted ∷ ws) (c ∷ s) = write_all_sound ws (c ∷ s)
write_all_sound (failed ∷ ws) (c ∷ s) = (c ∷ s, refl, refl)

is_empty-[] : (s : Bytes) → is_empty s ≡ true → s ≡ []
is_empty-[] [] e = refl
is_empty-[] (c ∷ s) e = absurd (cc)

pub write_all_done :
    (ws : List WriteResult) (msg : Bytes)
    → (write_all ws msg).1 ≡ some true
    → (write_all ws msg).0 ≡ msg
write_all_done ws msg e =
    let (rest, whole, done) = write_all_sound ws msg in
    let none_left : rest ≡ [] = is_empty-[] rest (sym done ∙ ap succeeded e) in
    sym (append-nil (write_all ws msg).0)
    ∙ (ap (λ s. (write_all ws msg).0 ++ s) (sym none_left) ∙ whole)

-- A call that gets on: it is not refused for good, and writes something if it writes.
abbrev pub GetsOn : WriteResult → Type 0
GetsOn (wrote n) = 0 < n
GetsOn interrupted = Unit {0}
GetsOn failed = ⊥

-- The number of calls that write.
abbrev pub writes : List WriteResult → ℕ
writes [] = 0
writes (wrote n ∷ ws) = suc (writes ws)
writes (interrupted ∷ ws) = writes ws
writes (failed ∷ ws) = writes ws

-- Short writes and interrupts only delay the loop: if no call fails and there are as many writing
-- calls as bytes, then the loop ends with success and the whole message is written.
pub write_all_total :
    (ws : List WriteResult) (msg : Bytes)
    → All GetsOn ws
    → length msg ≤ writes ws
    → write_all ws msg ≡ (msg, some true)
unfolding write_all
write_all_total ws [] h le = refl
write_all_total [] (c ∷ s) h le = absurd (omega arith)
write_all_total (wrote zero ∷ ws) (c ∷ s) (h, hs) le = absurd (omega arith)
write_all_total (wrote (suc n) ∷ ws) (c ∷ s) (h, hs) le =
    rw (write_all_total ws (drop n s) hs (omega (arith, length-drop n s)))
      (rw (take-append-drop n s))
write_all_total (interrupted ∷ ws) (c ∷ s) (h, hs) le = write_all_total ws (c ∷ s) hs le
write_all_total (failed ∷ ws) (c ∷ s) (h, hs) le = absurd h
