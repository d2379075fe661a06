-- ===== src/Tests/Protocol.antt =====
-- Runs of swm-task, of the line that it sends, and of the loop that writes.
use swm_core.Prelude.{
  ℕ, true, false, ◌||◌, List, [], ◌∷◌, ◌++◌, is_empty, some, ltb, ◌≡◌, refl, arith, Bytes, codes,
  negsuc, starts_with,
}
use swm_core.Numbers.{print_int}
use swm_core.WriteLoop.{
  WriteResult, wrote, interrupted, write_all, succeeded, write_all_sound, write_all_total,
}
use swm_core.Ctrl.{newline, parse_spawn}
use swm_core.Ctrl.RoundTrip.{parse_spawn-spawn_line}
use swm_core.Task.{escape_byte, escape_arg, escape_args, spawn_line, spawn_request}
use swm_core.Task.Args.{run, read_args}
use swm_core.Task.Reply.{ReadResult, got, verdict}
use swm_core.Task.Run.{Env, connect_porter_ctrl, run_via_porter}
use swm_core.Task.Session.{
  feed, feed_lines, IsPending, GetsThrough, run_via_porter_done, flags, read_args-run,
}

-- An argument with a space and a backslash, an empty one, and the flag.
abbrev argv : List Bytes
argv = codes "ls" ∷ codes "a b\\" ∷ [] ∷ codes "--pmix" ∷ []

parse_spawn-spawn_line_example :
    parse_spawn (spawn_line false argv)
    ≡ (true, record { pmix = true; argv = codes "ls" ∷ codes "a b\\" ∷ [] })
parse_spawn-spawn_line_example = parse_spawn-spawn_line false argv

abbrev short_writes : List WriteResult
short_writes = wrote 2 ∷ interrupted ∷ wrote 1 ∷ wrote 9 ∷ []

write_all_sound_example :
    (rest : Bytes) × ((write_all short_writes (codes "abc")).0 ++ rest ≡ codes "abc")
    × (succeeded (write_all short_writes (codes "abc")).1 ≡ is_empty rest)
write_all_sound_example = write_all_sound short_writes (codes "abc")

write_all_total_example : write_all short_writes (codes "abc") ≡ (codes "abc", some true)
write_all_total_example =
    write_all_total short_writes (codes "abc") (omega arith, (tt, (omega arith, (omega arith, tt))))
      (omega arith)

-- A session: the request is `SPAWN true` and a newline.
abbrev command : List Bytes
command = codes "true" ∷ []

abbrev replies : List ReadResult
replies =
    feed_lines (codes "OK 7" ∷ [])
      (feed (codes "DONE " ++ print_int (negsuc 8)) ++ got newline ∷ [])

abbrev session : Env
session = record {
  ctrl = some (codes "/run/ctrl");
  has_socket = true;
  connects = true;
  writes =
      wrote 1
      ∷ wrote 1
      ∷ interrupted
      ∷ wrote 1
      ∷ wrote 1
      ∷ wrote 1
      ∷ wrote 1
      ∷ wrote 1
      ∷ wrote 1
      ∷ wrote 1
      ∷ wrote 1
      ∷ wrote 1
      ∷ wrote 1
      ∷ [];
  reads = replies;
}

session-GetsThrough : GetsThrough session false command
unfolding connect_porter_ctrl spawn_request spawn_line escape_args escape_arg escape_byte
session-GetsThrough = record {
  path = codes "/run/ctrl";
  named = refl;
  not_empty = refl;
  connected = refl;
  steady = ground arith;
  enough = omega arith;
}

ok-IsPending : IsPending (codes "OK 7")
unfolding verdict
ok-IsPending = (omega arith, refl)

run_via_porter_done_example :
    run_via_porter session false command
    ≡ record { sent = spawn_request false command; code = some (negsuc 8) }
run_via_porter_done_example =
    run_via_porter_done session false command (codes "OK 7" ∷ []) (negsuc 8) [] session-GetsThrough
      (ok-IsPending, tt) (omega arith) refl

words : read_args false (codes "--pmix" ∷ command) ≡ run true command
unfolding read_args
words = refl

read_args-run_example :
    (n : ℕ) × (a : Bytes) × (rest : List Bytes) × (command ≡ a ∷ rest)
    × (codes "--pmix" ∷ command ≡ flags n ++ command)
    × (starts_with (codes "-") a ≡ false)
    × (true ≡ (false || ltb 0 n))
read_args-run_example = read_args-run false true (codes "--pmix" ∷ command) command words
