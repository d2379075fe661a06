-- ===== src/Relay.antt =====
-- The relay of the porter's parent process: the lines of a client of the control socket, in `main` of
-- c_src/porter/porter.cpp. A client is its descriptor.
pub mod Framing
pub mod Stdin
pub mod Reply
pub mod Session
use swm_core.Prelude.{
  ℕ, ◌+◌, Bool, true, false, List, [], ◌∷◌, ◌++◌, Option, none, some, ◌==◌, if◌then◌else◌, Bytes,
  codes, bytes_eq,
}
use swm_core.Ctrl.{newline, Spawn, parse_spawn}

-- What the porter writes: a line to a client, or a request to the Erlang side with its reference.
pub data Event : Type 0 where
  reply : ℕ → Bytes → Event
  request : Bytes → Spawn → Event

-- `pending_refs`, and how many references were made.
pub record Requests : Type 0 where
  pub pending : List (Bytes × Option ℕ)
  pub made : ℕ

-- `ctrl_client` and `ctrl_buf`; a descriptor of -1 is `none`.
pub record Relay : Type 0 where
  pub client : Option ℕ
  pub buf : Bytes
  pub requests : Requests

-- The result of read(2) on the client. `again` is EAGAIN or EWOULDBLOCK.
pub data ReadCall : Type 0 where
  bytes : Bytes → ReadCall
  closed again failed : ReadCall

unfoldable put : Bytes → Option ℕ → List (Bytes × Option ℕ) → List (Bytes × Option ℕ)
put ref fd [] = (ref, fd) ∷ []
put ref fd ((k, v) ∷ m) =
    let later = (k, v) ∷ put ref fd m in if bytes_eq k ref then (ref, fd) ∷ m else later

unfoldable drop_ref : Bytes → List (Bytes × Option ℕ) → List (Bytes × Option ℕ)
drop_ref ref [] = []
drop_ref ref ((k, v) ∷ m) =
    let later = (k, v) ∷ drop_ref ref m in if bytes_eq k ref then m else later

-- `porter_ctrl_write_line` to a client; to a descriptor of -1 nothing is written.
unfoldable answer : Option ℕ → Bytes → List Event
answer none text = []
answer (some fd) text = reply fd text ∷ []

-- `make_ref` gives a reference for each number; `sends` tells whether the request can be encoded.
module _ (make_ref : ℕ → Bytes) (sends : ℕ → Bool) where
  -- The line is a SPAWN line.
  unfoldable spawn : Option ℕ → Requests → Spawn → Requests × List Event
  unfolding put drop_ref answer
  spawn client q s =
      let ref = make_ref q.made in
      let pending = put ref client q.pending in
      if sends q.made
      then (record { pending = pending; made = q.made + 1 }, request ref s ∷ [])
      else (
        record { pending = drop_ref ref pending; made = q.made + 1 },
        answer client (codes "ERR relay failed"),
      )

  unfoldable handle_ctrl_line : Option ℕ → Requests → Bytes → Requests × List Event
  unfolding spawn answer
  handle_ctrl_line client q line =
      let (ok, s) = parse_spawn line in
      if ok then spawn client q s else (q, answer client (codes "ERR bad SPAWN line"))

  -- The loop over the lines; `cur` is the line up to here, and what is left of it at the end.
  unfoldable lines : Option ℕ → Requests → Bytes → Bytes → Requests × Bytes × List Event
  lines client q cur [] = (q, cur, [])
  lines client q cur (c ∷ s) =
      let (q', es) = handle_ctrl_line client q cur in
      let (q'', left, fs) = lines client q' [] s in
      let longer = lines client q (cur ++ c ∷ []) s in
      if c == newline then (q'', left, es ++ fs) else longer

  -- A client that is closed leaves the buffer as it is.
  pub try_read_ctrl_client : Relay → ReadCall → Relay × List Event
  unfolding lines handle_ctrl_line
  try_read_ctrl_client r call = elim r.client [
    | none ↦ (r, [])
    | some fd ↦ elim call [
      | bytes s ↦
          let (q, left, es) = lines (some fd) r.requests [] (r.buf ++ s) in
          (record r { requests = q; buf = left }, es)
      | closed ↦ (record r { client = none }, [])
      | again ↦ (r, [])
      | failed ↦ (record r { client = none }, [])
    ]
  ]

  -- The rounds of the parent loop, as far as they read from the client.
  pub read_all : Relay → List ReadCall → Relay × List Event
  unfolding try_read_ctrl_client
  read_all r [] = (r, [])
  read_all r (call ∷ calls) =
      let (r', es) = try_read_ctrl_client r call in
      let (r'', fs) = read_all r' calls in (r'', es ++ fs)
