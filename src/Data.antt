-- ===== src/Data.antt =====
-- What the porter is started with: `get_porter_data` of c_src/porter/wm_porter_data.cpp.
pub mod Chunks
use swm_core.Prelude.{
  ℕ, zero, suc, ◌+◌, ◌-◌, ◌*◌, ◌/◌, ◌%◌, ◌^◌, Bool, true, false, ◌&&◌, not, List, [], ◌∷◌, ◌++◌,
  take, drop, length, Option, none, some, ltb, ◌==◌, if◌then◌else◌, Bytes,
}
use swm_core.Ei.{Ei}
use swm_core.Io.{Stream, read_exact, read_length}

-- `BUF_SIZE`.
abbrev pub buf_size : ℕ
buf_size = 32

-- `read_bytes`, in `uint32_t`.
pub chunk : ℕ → ℕ → ℕ
chunk marker len =
    if ltb ((marker + buf_size) % 2 ^ 32) len then buf_size else (len + 2 ^ 32 - marker) % 2 ^ 32

-- A write of `b` at `data[i] + marker`; the list is the part of the buffer that was written.
pub write_at : ℕ → Bytes → Bytes → Bytes
write_at marker b buf = take marker buf ++ (b ++ drop (marker + length b) buf)

-- The loop over the chunks, on fuel; `none` is fuel that ran out.
pub read_chunks : ℕ → ℕ → ℕ → Bytes → Stream → Option (Bool × Bytes × Stream)
read_chunks zero marker len buf s = none
read_chunks (suc f) marker len buf s =
    let (ok, b, t) = read_exact (chunk marker len) s in
    let next = read_chunks f ((marker + buf_size) % 2 ^ 32) len (write_at marker b buf) t in
    if ltb marker len then (if ok then next else some (false, buf, t)) else some (true, buf, s)

-- Enough for `len` bytes.
abbrev pub chunk_fuel : ℕ → ℕ
chunk_fuel len = len / buf_size + 2

abbrev pub erlang_binary_format_version : ℕ
erlang_binary_format_version = 131

-- A byte that must be `n`.
is_byte : ℕ → Bytes → Bool
is_byte n [] = false
is_byte n (c ∷ rest) = c == n

expect : ℕ → Stream → Bool × Stream
unfolding is_byte
expect n s = let (ok, b, t) = read_exact 1 s in (ok && is_byte n b, t)

module _ (E : Ei) where
  open E use {of_bytes, get_type, decode_version}

  -- The checks on a block: its version and that it starts a term.
  accepted : Bytes → Bool
  accepted b = elim (decode_version (of_bytes b) 0) [
    | none ↦ false
    | some (version, index) ↦
        if version == erlang_binary_format_version
        then elim (get_type (of_bytes b) index) [ none ↦ false | some t ↦ true ]
        else false
  ]

  -- The data of a round are in.
  check_block : Stream → Option (Bool × Bytes × Stream) → Option Bytes × Stream
  unfolding accepted
  check_block u none = (none, u)
  check_block u (some (ok, b, v)) = if ok && accepted b then (some b, v) else (none, v)

  -- The length of a round is in.
  read_data : Option ℕ × Stream → Option Bytes × Stream
  unfolding check_block
  read_data (none, u) = (none, u)
  read_data (some len, u) = check_block u (read_chunks (chunk_fuel len) 0 len [] u)

  -- One round: the type byte, the length and the data. The type byte is not used.
  unfoldable read_block : Stream → Option Bytes × Stream
  unfolding read_data
  read_block s =
      let (ok, type, t) = read_exact 1 s in if not ok then (none, t) else read_data (read_length t)

  second_block : Bytes → Option Bytes × Stream → Option (Bytes × Bytes) × Stream
  second_block a (none, w) = (none, w)
  second_block a (some b, w) = (some (a, b), w)

  both_blocks : Option Bytes × Stream → Option (Bytes × Bytes) × Stream
  unfolding second_block
  both_blocks (none, v) = (none, v)
  both_blocks (some a, v) = second_block a (read_block v)

  -- The command, the number of blocks, and the two blocks; `none` is the answer -1.
  unfoldable get_porter_data : Stream → Option (Bytes × Bytes) × Stream
  unfolding expect both_blocks
  get_porter_data s =
      let (run, t) = expect 1 s in
      let (two, u) = expect 2 t in
      if not run then (none, t) else if not two then (none, u) else both_blocks (read_block u)
