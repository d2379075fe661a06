-- ===== src/Relay/Reply.antt =====
-- What a reply frame does: the second half of `try_read_stdin_reply` in `main` of
-- c_src/porter/porter.cpp. The frame holds the term {porter_rep, Ref, Msg}. An atom fits the array that
-- it is read into.
pub mod Done
use swm_core.Prelude.{
  ℕ, ◌+◌, Bool, true, false, ◌&&◌, ◌||◌, List, [], ◌∷◌, ◌++◌, Option, none, some, leb, ◌==◌,
  if◌then◌else◌, Bytes, codes, bytes_eq, starts_with, ℤ, pos,
}
use swm_core.Ei.{Ei}
use swm_core.Ei.Tag.{
  atom_ext, small_tuple_ext, large_tuple_ext, string_ext, binary_ext, small_atom_ext, atom_utf8_ext,
  small_atom_utf8_ext,
}
use swm_core.Decode.{c_string}
use swm_core.Numbers.{print_int}
use swm_core.Relay.{Event, Requests, Relay, ReadCall, drop_ref, answer}
use swm_core.Relay.Stdin.{nothing, frame, waiting, read_frame}

-- `Msg`; one that nothing is done for is `unknown`.
pub data Message : Type 0 where
  finished : ℤ → Message
  accepted refused unknown : Message

unfoldable pub find_ref : Bytes → List (Bytes × Option ℕ) → Option (Option ℕ)
find_ref ref [] = none
find_ref ref ((k, v) ∷ m) = let later = find_ref ref m in if bytes_eq k ref then some v else later

-- `DONE` and `ERR` end a request.
unfoldable respond : Message → Bytes → Option ℕ → Requests → Requests × List Event
respond (finished z) ref fd q =
    (record q { pending = drop_ref ref q.pending }, answer fd (codes "DONE " ++ print_int z))
respond accepted ref fd q = (q, answer fd (codes "OK " ++ ref))
respond refused ref fd q =
    (record q { pending = drop_ref ref q.pending }, answer fd (codes "ERR task failed"))
respond unknown ref fd q = (q, [])

module _ (E : Ei) (b : E.Buf) where
  open E use {
    get_type, decode_version, decode_tuple_header, decode_atom, decode_string, decode_binary,
    decode_long,
  }

  unfoldable c_strings : Option (Bytes × ℕ) → Option (Bytes × ℕ)
  c_strings none = none
  c_strings (some (s, j)) = some (c_string s, j)

  -- The reference is a binary or a string.
  unfoldable ref_at : ℕ → Option (Bytes × ℕ)
  unfolding c_strings
  ref_at i = elim (get_type b i) [
    | none ↦ none
    | some (type, size) ↦
        if type == binary_ext
        then c_strings (decode_binary b i)
        else if type == string_ext
        then c_strings (decode_string b i)
        else none
  ]

  unfoldable behind_header : ℕ × ℕ → Option (Bytes × ℕ)
  unfolding ref_at
  behind_header (arity, i) =
      if leb 3 arity
      then (elim (decode_atom b i) [ none ↦ none | some (name, j) ↦ ref_at j ])
      else none

  -- The reference, and the index of `Msg`.
  unfoldable reply_ref : Option (Bytes × ℕ)
  unfolding behind_header
  reply_ref = elim (decode_version b 0) [
    | none ↦ none
    | some (version, i) ↦ elim (decode_tuple_header b i) [ none ↦ none | some h ↦ behind_header h ]
  ]

  -- The code of `done`, which is 1 where it cannot be read.
  unfoldable code_at : ℕ → ℤ
  code_at i = elim (decode_long b i) [ none ↦ pos 1 | some (z, j) ↦ z ]

  unfoldable tagged : ℕ → Bytes → ℕ → Message
  unfolding code_at
  tagged arity tag i =
      if bytes_eq tag (codes "done") && leb 2 arity
      then finished (code_at i)
      else if bytes_eq tag (codes "ok")
      then accepted
      else if bytes_eq tag (codes "error")
      then refused
      else unknown

  unfoldable tuple_message : ℕ → Message
  unfolding tagged
  tuple_message i = elim (decode_tuple_header b i) [
    | none ↦ unknown
    | some (arity, j) ↦
        if leb 1 arity
        then (elim (decode_atom b j) [
          | none ↦ unknown
          | some (tag, k) ↦ tagged arity (c_string tag) k
        ])
        else unknown
  ]

  unfoldable atom_message : ℕ → Message
  atom_message i = elim (decode_atom b i) [
    | none ↦ unknown
    | some (name, j) ↦ if starts_with (codes "ok") (c_string name) then accepted else unknown
  ]

  abbrev is_atom : ℕ → Bool
  is_atom t =
      (t == atom_ext || t == atom_utf8_ext) || (t == small_atom_ext || t == small_atom_utf8_ext)

  unfoldable message : ℕ → Message
  unfolding tuple_message atom_message
  message i = elim (get_type b i) [
    | none ↦ unknown
    | some (type, size) ↦
        if is_atom type
        then atom_message i
        else if type == small_tuple_ext || type == large_tuple_ext
        then tuple_message i
        else unknown
  ]

  -- A reference that is not pending is ignored.
  pub handle_reply : Requests → Requests × List Event
  unfolding reply_ref message find_ref respond
  handle_reply q = elim reply_ref [
    | none ↦ (q, [])
    | some (ref, i) ↦ elim (find_ref ref q.pending) [
      | none ↦ (q, [])
      | some fd ↦ respond (message i) ref fd q
    ]
  ]

-- One call: the relay, what was written, and the calls of read(2) that were not made. `none` while the
-- call waits for the rest of a frame.
unfoldable pub try_read_stdin_reply :
    (E : Ei) → Relay → List ReadCall → Option (Relay × List Event × List ReadCall)
unfolding handle_reply
try_read_stdin_reply E r calls = elim (read_frame calls) [
  | nothing rest ↦ some (r, [], rest)
  | waiting ↦ none
  | frame buf rest ↦
      let (q, es) = handle_reply E (E.of_bytes buf) r.requests in
      some (record r { requests = q }, es, rest)
]
