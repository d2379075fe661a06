-- ===== src/Ctrl/Listen/Held.antt =====
-- What the porter holds when `porter_ctrl_listen` returns.
use swm_core.Prelude.{
  if◌then◌else◌, ap, ℕ, Bool, true, false, ◌&&◌, not, List, [], ◌∷◌, ◌++◌, is_empty, Option, none,
  some, ◌==◌, Bytes, length, ltb, ◌<◌, ◌≡◌, ◌⊎◌, inl, inr, refl, ◌∙◌, arith, Bool-cases,
  Option-cases, bytes_eq, bytes_eq_iff,
}
use swm_core.SafeFile.{slash, job_runtime_dir, ensure_private_dir}
use swm_core.Porter.Text.{rfind}
use swm_core.Ctrl.Listen.{
  Call, mkdtemp, unlink, get_flags, set_nonblocking, files, socket, bind, chmod, chown, listen,
  close, Net, Listening, sun_path_size, owner_only, backlog, make_ctrl_path, behind,
  start_listening, handed_over, set_owner, bind_socket, open_socket, enter_dir, prepare_dir,
  porter_ctrl_listen,
}

-- The socket that is open; the path that it is bound to, with the mode and the owner that its file was
-- given; and whether it listens.
pub record Held : Type 0 where
  pub fd : Option ℕ
  pub bound : Option Bytes
  pub mode : Option ℕ
  pub owner : Option (ℕ × ℕ)
  pub listens : Bool

abbrev pub nothing_held : Held
nothing_held = record { fd = none; bound = none; mode = none; owner = none; listens = false }

-- Whether `n` is the socket, and whether its file is at `p`.
abbrev pub is_socket : ℕ → Held → Bool
is_socket n h = elim h.fd [ none ↦ false | some m ↦ m == n ]

abbrev pub is_file : Bytes → Held → Bool
is_file p h = elim h.bound [ none ↦ false | some q ↦ bytes_eq q p ]

-- What a call changes: those on another descriptor or another path change nothing.
abbrev pub held_by : Call → Held → Held
held_by mkdtemp h = h
held_by (files es) h = h
held_by (get_flags n) h = h
held_by (set_nonblocking n) h = h
held_by (socket n) h = record h { fd = n }
held_by (unlink p) h =
    if is_file p h then record h { bound = none; mode = none; owner = none } else h
held_by (bind n p ok) h = if ok && is_socket n h then record h { bound = some p } else h
held_by (chmod p m ok) h = if ok && is_file p h then record h { mode = some m } else h
held_by (chown p u g ok) h = if ok && is_file p h then record h { owner = some (u, g) } else h
held_by (listen n queue ok) h = if ok && is_socket n h then record h { listens = true } else h
held_by (close n) h = if is_socket n h then record h { fd = none; listens = false } else h

abbrev pub after : List Call → Held → Held
after [] h = h
after (c ∷ cs) h = after cs (held_by c h)

-- The owner that the file is given.
abbrev pub owner_of : ℕ → ℕ → Option (ℕ × ℕ)
owner_of uid gid = if handed_over uid gid then some (uid, gid) else none

abbrev pub serving : ℕ → Bytes → Option (ℕ × ℕ) → Held
serving n path owner = record {
  fd = some n;
  bound = some path;
  mode = some owner_only;
  owner = owner;
  listens = true;
}

-- Nothing is held, or the socket serves at the path.
abbrev pub AllOrNothing : Bytes → Option (ℕ × ℕ) → Held → Listening → Type 0
AllOrNothing path owner h l =
    ((l.path ≡ []) × (l.listen_fd ≡ none) × (after l.calls h ≡ nothing_held))
    ⊎ ((n : ℕ) × (l.path ≡ path)
        × (l.listen_fd ≡ some n)
        × (after l.calls h ≡ serving n path owner)
        × (length path < sun_path_size))

after-append : (cs ds : List Call) (h : Held) → after (cs ++ ds) h ≡ after ds (after cs h)
after-append [] ds h = refl
after-append (c ∷ cs) ds h = after-append cs ds (held_by c h)

behind-AllOrNothing :
    (path : Bytes) (owner : Option (ℕ × ℕ)) (h h' : Held) (cs : List Call) (l : Listening)
    → after cs h ≡ h'
    → AllOrNothing path owner h' l
    → AllOrNothing path owner h (behind cs l)
behind-AllOrNothing path owner h h' cs l e (inl (p, f, a)) =
    inl (p, f, after-append cs l.calls h ∙ (ap (after l.calls) e ∙ a))
behind-AllOrNothing path owner h h' cs l e (inr (n, p, f, a, small)) =
    inr (n, p, f, after-append cs l.calls h ∙ (ap (after l.calls) e ∙ a), small)

-- A socket that is open; and one that is bound, with a mode and an owner of its file.
abbrev pub opened : ℕ → Held
opened n = record nothing_held { fd = some n }

abbrev pub named : ℕ → Bytes → Option ℕ → Option (ℕ × ℕ) → Held
named n path mode owner = record (opened n) { bound = some path; mode = mode; owner = owner }

same_fd : (n : ℕ) → (n == n) ≡ true
same_fd n = ground arith

same_path : (p : Bytes) → bytes_eq p p ≡ true
same_path p = (bytes_eq_iff p p).1 refl

-- What the calls on this socket and this path do.
after-close : (n : ℕ) → after (close n ∷ []) (opened n) ≡ nothing_held
after-close n = rw (same_fd n)

after-unlink :
    (n : ℕ) (path : Bytes) (mode : Option ℕ) (owner : Option (ℕ × ℕ))
    → after (close n ∷ unlink path ∷ []) (named n path mode owner) ≡ nothing_held
after-unlink n path mode owner = rw (same_fd n) (rw (same_path path))

after-bind :
    (n : ℕ) (path : Bytes) → after (bind n path true ∷ []) (opened n) ≡ named n path none none
after-bind n path = rw (same_fd n)

after-chmod :
    (n : ℕ) (path : Bytes)
    → after (chmod path owner_only true ∷ []) (named n path none none)
      ≡ named n path (some owner_only) none
after-chmod n path = rw (same_path path)

after-chown :
    (n : ℕ) (path : Bytes) (uid gid : ℕ)
    → after (chmod path owner_only true ∷ chown path uid gid true ∷ []) (named n path none none)
      ≡ named n path (some owner_only) (some (uid, gid))
after-chown n path uid gid = rw (same_path path) (rw (same_path path))

after-listen :
    (n : ℕ) (path : Bytes) (owner : Option (ℕ × ℕ))
    → after (listen n backlog true ∷ []) (named n path (some owner_only) owner)
      ≡ serving n path owner
after-listen n path owner = rw (same_fd n)

start_listening-AllOrNothing :
    (net : Net) (n : ℕ) (path : Bytes) (owner : Option (ℕ × ℕ))
    → length path < sun_path_size
    → AllOrNothing path owner (named n path (some owner_only) owner) (start_listening net n path)
unfolding start_listening
start_listening-AllOrNothing net n path owner small = elim (Bool-cases net.listen_ok) [
  | inr bad ↦ rw bad (inl (refl, refl, after-unlink n path (some owner_only) owner))
  | inl good ↦ elim (Bool-cases net.flags_ok) [
    | inr bad ↦ rw (good, bad) (inr (n, refl, refl, after-listen n path owner, small))
    | inl fl ↦ rw (good, fl) (inr (n, refl, refl, after-listen n path owner, small))
  ]
]

set_owner-AllOrNothing :
    (net : Net) (n : ℕ) (path : Bytes) (uid gid : ℕ)
    → length path < sun_path_size
    → AllOrNothing path (owner_of uid gid) (named n path none none) (set_owner net n path uid gid)
unfolding set_owner
set_owner-AllOrNothing net n path uid gid small =
    let rest = start_listening net n path in
    let serves = λ (o : Option (ℕ × ℕ)). start_listening-AllOrNothing net n path o small in
    elim (Bool-cases (net.os.chmod_ok path)) [
      | inr bad ↦ rw bad (inl (refl, refl, after-unlink n path none none))
      | inl good ↦ elim (Bool-cases (handed_over uid gid)) [
        | inr own ↦
            rw (good, own)
              (behind-AllOrNothing path none (named n path none none)
                (named n path (some owner_only) none) (chmod path owner_only true ∷ []) rest
                (after-chmod n path) (serves none))
        | inl other ↦ elim (Bool-cases (net.os.chown_ok path)) [
          | inr bad ↦
              rw (good, other, bad)
                (inl (
                  refl,
                  refl,
                  ap (after (close n ∷ unlink path ∷ [])) (after-chmod n path)
                      ∙ after-unlink n path (some owner_only) none,
                ))
          | inl ok ↦
              rw (good, other, ok)
                (behind-AllOrNothing path (some (uid, gid)) (named n path none none)
                  (named n path (some owner_only) (some (uid, gid)))
                  (chmod path owner_only true ∷ chown path uid gid true ∷ []) rest
                  (after-chown n path uid gid) (serves (some (uid, gid))))
        ]
      ]
    ]

bind_socket-AllOrNothing :
    (net : Net) (n : ℕ) (path : Bytes) (uid gid : ℕ)
    → AllOrNothing path (owner_of uid gid) (opened n) (bind_socket net n path uid gid)
unfolding bind_socket set_owner start_listening
bind_socket-AllOrNothing net n path uid gid = elim (Bool-cases (ltb (length path) sun_path_size)) [
  | inr long ↦ rw long (inl (refl, refl, after-close n))
  | inl short ↦ elim (Bool-cases net.bind_ok) [
    | inr bad ↦ rw (short, bad) (inl (refl, refl, after-close n))
    | inl ok ↦
        rw (short, ok)
          (behind-AllOrNothing path (owner_of uid gid) (opened n) (named n path none none)
            (bind n path true ∷ []) (set_owner net n path uid gid) (after-bind n path)
            (set_owner-AllOrNothing net n path uid gid (ground (arith, short))))
  ]
]

open_socket-AllOrNothing :
    (net : Net) (path : Bytes) (uid gid : ℕ)
    → AllOrNothing path (owner_of uid gid) nothing_held (open_socket net path uid gid)
unfolding open_socket bind_socket set_owner start_listening
open_socket-AllOrNothing net path uid gid = elim (Option-cases net.socket_fd) [
  | inl bad ↦ rw bad (inl (refl, refl, refl))
  | inr (n, ok) ↦ rw ok (
      behind-AllOrNothing path (owner_of uid gid) nothing_held (opened n)
        (unlink path ∷ socket (some n) ∷ []) (bind_socket net n path uid gid) refl
        (bind_socket-AllOrNothing net n path uid gid))
]

enter_dir-AllOrNothing :
    (net : Net) (dir path : Bytes) (uid gid : ℕ)
    → AllOrNothing path (owner_of uid gid) nothing_held (enter_dir net dir path uid gid)
unfolding enter_dir
enter_dir-AllOrNothing net dir path uid gid =
    let rest = open_socket-AllOrNothing net path uid gid in
    elim (Bool-cases (net.os.euid == 0 && not (uid == 0))) [
      | inr stays ↦ rw stays rest
      | inl given ↦ elim (Bool-cases (net.os.chown_ok dir)) [
        | inr bad ↦ rw (given, bad) (inl (refl, refl, refl))
        | inl ok ↦
            rw (given, ok)
              (behind-AllOrNothing path (owner_of uid gid) nothing_held nothing_held
                (chown dir uid gid true ∷ []) (open_socket net path uid gid) refl rest)
      ]
    ]

prepare_dir-AllOrNothing :
    (net : Net) (path : Bytes) (uid gid : ℕ)
    → AllOrNothing path (owner_of uid gid) nothing_held (prepare_dir net path uid gid)
unfolding prepare_dir
prepare_dir-AllOrNothing net path uid gid = elim (Option-cases (rfind slash path)) [
  | inl bad ↦ rw (bad, prepare_dir) (inl (refl, refl, refl))
  | inr ((dir, file), cut) ↦ elim (Bool-cases (is_empty dir)) [
    | inl root ↦ rw (cut, prepare_dir, root) (inl (refl, refl, refl))
    | inr deep ↦ elim (Bool-cases (ensure_private_dir net.os dir uid).0) [
      | inr bad ↦ rw (cut, prepare_dir, deep, bad) (inl (refl, refl, refl))
      | inl ok ↦
          rw (cut, prepare_dir, deep, ok)
            (behind-AllOrNothing path (owner_of uid gid) nothing_held nothing_held
              (files (ensure_private_dir net.os dir uid).1 ∷ []) (enter_dir net dir path uid gid)
              refl (enter_dir-AllOrNothing net dir path uid gid))
    ]
  ]
]

make_ctrl_path_lem :
    (net : Net) (job_id : Bytes) → after (make_ctrl_path net job_id).1 nothing_held ≡ nothing_held
unfolding make_ctrl_path
make_ctrl_path_lem net job_id = elim (Bool-cases (is_empty (job_runtime_dir job_id net.spool))) [
  | inr some_dir ↦ rw some_dir refl
  | inl without ↦ elim (Option-cases net.temporary) [
    | inl bad ↦ rw (without, bad) refl
    | inr (d, there) ↦ rw (without, there) refl
  ]
]

-- The control socket is there as a whole or not at all, where unlink(2) and close(2) succeed:
-- `porter_ctrl_listen` returns either no path and no descriptor, and then no socket is left open and
-- no file of it is left, whichever call failed, or the path and a descriptor, and then the socket is
-- open, bound to this path and listening, the mode of its file was set to 0600, its owner to the user
-- and the group exactly if one of them is not 0, and the path is short enough for the address.
pub porter_ctrl_listen-AllOrNothing :
    (net : Net) (job_id : Bytes) (uid gid : ℕ)
    → AllOrNothing
        (make_ctrl_path net job_id).0
        (owner_of uid gid)
        nothing_held
        (porter_ctrl_listen net job_id uid gid)
unfolding porter_ctrl_listen
porter_ctrl_listen-AllOrNothing net job_id uid gid =
    let (path, cs) = make_ctrl_path net job_id in
    behind-AllOrNothing path (owner_of uid gid) nothing_held nothing_held cs
      (prepare_dir net path uid gid) (make_ctrl_path_lem net job_id)
      (prepare_dir-AllOrNothing net path uid gid)
