-- ===== src/Tests/Relay.antt =====
-- Frames on the standard input of the porter, and a request from end to end.
use swm_core.Prelude.{
  ℕ, ◌++◌, true, false, List, [], ◌∷◌, map, some, none, Option, sym, ◌∙◌, ◌≡◌, refl, arith, Bytes,
  codes, negsuc,
}
use swm_core.Numbers.{print_int}
use swm_core.Io.Length.{be32}
use swm_core.Ei.{Ei}
use swm_core.WriteLoop.{wrote}
use swm_core.Task.{escape_byte, escape_arg, escape_args, spawn_line, spawn_request}
use swm_core.Task.Run.{Env, connect_porter_ctrl, run_via_porter}
use swm_core.Task.Session.{feed, GetsThrough, run_via_porter_sent}
use swm_core.Relay.{Event, Relay, Requests, ReadCall, bytes, again, request, reply, read_all}
use swm_core.Relay.Stdin.{frame, ctrl_reply, read_frame}
use swm_core.Relay.Stdin.Frame.{Delivers, stop, later, part, read_frame-Delivers}
use swm_core.Relay.Framing.{relay}
use swm_core.Relay.Reply.{find_ref, try_read_stdin_reply}
use swm_core.Relay.Reply.Done.{DoneFrame}
use swm_core.Relay.Session.{written, events, frame_calls, made_one, run_via_porter-read_all}
use swm_core.Tests.Buffers.{Cell, tuple_cell, atom_cell, bin_cell, int_cell, cells}

abbrev parts : List ReadCall
parts = bytes (1 ∷ []) ∷ again ∷ bytes (2 ∷ 3 ∷ []) ∷ []

delivered : Delivers (1 ∷ 2 ∷ 3 ∷ []) parts
delivered = part 1 [] refl (later (part 2 (3 ∷ []) refl stop))

read_frame-Delivers_example :
    read_frame (bytes (ctrl_reply ∷ []) ∷ bytes (be32 3) ∷ (parts ++ again ∷ []))
    ≡ frame (1 ∷ 2 ∷ 3 ∷ []) (again ∷ [])
read_frame-Delivers_example =
    read_frame-Delivers (1 ∷ 2 ∷ 3 ∷ []) parts (again ∷ []) (omega arith) (omega arith) delivered

-- A decoder for which every frame is {porter_rep, <<"r">>, {done, -9}}.
abbrev done_cells : List Cell
done_cells =
    tuple_cell 3
    ∷ atom_cell (codes "porter_rep")
    ∷ bin_cell (codes "r")
    ∷ tuple_cell 2
    ∷ atom_cell (codes "done")
    ∷ int_cell (negsuc 8)
    ∷ []

abbrev done_only : Ei
done_only = record cells { of_bytes = λ s. done_cells }

r_done : DoneFrame done_only done_cells (codes "r") (negsuc 8)
r_done = record {
  i1 = 0;
  i2 = 1;
  i3 = 2;
  i4 = 3;
  i5 = 4;
  i6 = 5;
  i7 = 6;
  version = 131;
  name = codes "porter_rep";
  size = 1;
  msg_size = 1;
  raw = codes "r";
  has_version = refl;
  has_header = refl;
  has_name = refl;
  ref_type = refl;
  has_ref = refl;
  ref_text = refl;
  msg_type = refl;
  msg_header = refl;
  msg_tag = refl;
  msg_code = refl;
}

-- `SPAWN a b`, in two reads.
abbrev command : List Bytes
command = codes "a" ∷ codes "b" ∷ []

abbrev two_chunks : List Bytes
two_chunks = codes "SPAW" ∷ codes "N a b\n" ∷ []

abbrev nothing_pending : Requests
nothing_pending = record { pending = []; made = 0 }

abbrev numbered : ℕ → Bytes
numbered n = codes "r"

abbrev replied : Option (Relay × List Event × List ReadCall)
replied =
    try_read_stdin_reply done_only
      (read_all numbered (λ n. true) (relay 7 nothing_pending []) (map bytes two_chunks)).0
      (frame_calls (1 ∷ 2 ∷ 3 ∷ []) parts [])

abbrev session : Env
session = record {
  ctrl = some (codes "/c");
  has_socket = true;
  connects = true;
  writes =
      wrote 4
      ∷ wrote 4
      ∷ wrote 1
      ∷ wrote 1
      ∷ wrote 1
      ∷ wrote 1
      ∷ wrote 1
      ∷ wrote 1
      ∷ wrote 1
      ∷ wrote 1
      ∷ [];
  reads = feed (written (events replied)) ++ [];
}

through : GetsThrough session false command
unfolding connect_porter_ctrl spawn_request spawn_line escape_args escape_arg escape_byte
through = record {
  path = codes "/c";
  named = refl;
  not_empty = refl;
  connected = refl;
  steady = ground arith;
  enough = omega arith;
}

request_text : spawn_request false command ≡ codes "SPAWN a b\n"
unfolding spawn_request spawn_line escape_args escape_arg escape_byte
request_text = refl

none_pending : find_ref (codes "r") [] ≡ none
unfolding find_ref
none_pending = refl

run_via_porter-read_all_example :
    ((read_all numbered (λ n. true) (relay 7 nothing_pending []) (map bytes two_chunks)).1
      ≡ request (codes "r") (record { pmix = false; argv = command }) ∷ [])
    × (replied
        ≡ some (
          relay 7 (made_one nothing_pending) [],
          reply 7 (codes "DONE " ++ print_int (negsuc 8)) ∷ [],
          [],
        ))
    × ((run_via_porter session false command).code ≡ some (negsuc 8))
run_via_porter-read_all_example =
    run_via_porter-read_all done_only numbered (λ n. true) session false command 7 nothing_pending
      two_chunks (negsuc 8) (1 ∷ 2 ∷ 3 ∷ []) parts [] [] through
      (sym request_text ∙ sym (run_via_porter_sent session false command through)) (omega arith)
      refl refl none_pending (omega arith) (omega arith) delivered r_done (omega arith) refl
