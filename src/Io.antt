-- ===== src/Io.antt =====
-- Reading from a stream: c_src/lib/wm_io.cpp. A stream is never null here.
pub mod Length
use swm_core.Prelude.{
  ℕ, ◌+◌, ◌*◌, ◌^◌, Bool, true, false, ◌&&◌, List, [], ◌∷◌, take, drop, length, Option, none, some,
  leb, if◌then◌else◌, Bytes,
}

-- What is left to read, and whether no read failed before.
pub record Stream : Type 0 where
  pub left : Bytes
  pub good : Bool

-- `swm_read_exact`: the answer, the bytes, and the stream. A stream that is too short is used up and
-- bad; a bad one gives nothing.
unfoldable pub read_exact : ℕ → Stream → Bool × Bytes × Stream
read_exact n s =
    if s.good
    then (if leb n (length s.left)
        then (true, take n s.left, record s { left = drop n s.left })
        else (false, s.left, record { left = []; good = false }))
    else (false, [], s)

-- The four bytes as a number, the first one the highest.
abbrev pub word : Bytes → ℕ
word (a ∷ b ∷ c ∷ d ∷ rest) = a * 2 ^ 24 + b * 2 ^ 16 + c * 2 ^ 8 + d
word _ = 0

-- `swm_read_length`.
pub read_length : Stream → Option ℕ × Stream
unfolding read_exact
read_length s = let (ok, buf, t) = read_exact 4 s in if ok then (some (word buf), t) else (none, t)
