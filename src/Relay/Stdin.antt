-- ===== src/Relay/Stdin.antt =====
-- A reply frame of the Erlang side on the standard input of the porter: the first half of
-- `try_read_stdin_reply` in `main` of c_src/porter/porter.cpp. The descriptor does not block.
pub mod Frame
use swm_core.Prelude.{
  ℕ, zero, suc, ◌+◌, ◌-◌, ◌*◌, ◌||◌, List, [], ◌∷◌, ◌++◌, take, length, ltb, ◌==◌, if◌then◌else◌,
  Bytes,
}
use swm_core.Io.{word}
use swm_core.Relay.{ReadCall, bytes, closed, again, failed}

-- The end of the call: nothing to handle, a frame, or still in a call of read(2). The calls that were
-- not made are left.
pub data Reading : Type 0 where
  nothing : List ReadCall → Reading
  frame : Bytes → List ReadCall → Reading
  waiting : Reading

-- `PORTER_COMMAND_CTRL_REPLY`.
abbrev pub ctrl_reply : ℕ
ctrl_reply = 2

abbrev pub max_frame : ℕ
max_frame = 16 * 1024 * 1024

-- The loop that fills the buffer: the bytes that are missing, and those that are there.
unfoldable gather : ℕ → Bytes → List ReadCall → Reading
gather zero got calls = frame got calls
gather (suc left) got [] = waiting
gather (suc left) got (bytes [] ∷ calls) = nothing calls
gather (suc left) got (bytes (c ∷ s) ∷ calls) =
    let part = take (suc left) (c ∷ s) in gather (suc left - length part) (got ++ part) calls
gather (suc left) got (closed ∷ calls) = nothing calls
gather (suc left) got (again ∷ calls) = gather (suc left) got calls
gather (suc left) got (failed ∷ calls) = nothing calls

unfoldable sized : ℕ → List ReadCall → Reading
unfolding gather
sized len calls = if len == 0 || ltb max_frame len then nothing calls else gather len [] calls

-- The four bytes of the length, by one read.
unfoldable read_size : List ReadCall → Reading
unfolding sized
read_size [] = waiting
read_size (bytes h ∷ calls) =
    if length (take 4 h) == 4 then sized (word (take 4 h)) calls else nothing calls
read_size (closed ∷ calls) = nothing calls
read_size (again ∷ calls) = nothing calls
read_size (failed ∷ calls) = nothing calls

unfoldable pub read_frame : List ReadCall → Reading
unfolding read_size
read_frame [] = waiting
read_frame (bytes [] ∷ calls) = nothing calls
read_frame (bytes (c ∷ s) ∷ calls) = if c == ctrl_reply then read_size calls else nothing calls
read_frame (closed ∷ calls) = nothing calls
read_frame (again ∷ calls) = nothing calls
read_frame (failed ∷ calls) = nothing calls
