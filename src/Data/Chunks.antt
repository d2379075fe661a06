-- ===== src/Data/Chunks.antt =====
-- Reading in chunks of 32 bytes is reading at once.
use swm_core.Prelude.{
  take_all, drop_all, ℕ, zero, suc, ◌+◌, ◌-◌, ◌*◌, ◌%◌, ◌^◌, ◌≤◌, ◌<◌, true, false, [], ◌∷◌, ◌++◌,
  take, drop, length, length-append, take-length, drop-length, length-take, length-drop,
  take-append-drop, append-nil, append_assoc, some, ltb, ◌≡◌, refl, sym, ◌∙◌, ap, arith, Bytes,
  Bool-cases, inl, inr, lt→ltb, ltb→lt,
}
use swm_core.Io.{Stream, read_exact}
use swm_core.Data.{buf_size, chunk, write_at, read_chunks, chunk_fuel}

abbrev pub stream : Bytes → Stream
stream b = record { left = b; good = true }

-- A write at the end appends.
write_at_end : (b buf : Bytes) → write_at (length buf) b buf ≡ buf ++ b
unfolding write_at
write_at_end b buf =
    rw (take_all (length buf) buf (omega arith), drop_all (length buf + length b) buf (omega arith))
      (rw append-nil)

read_exact_enough :
    (n : ℕ) (b : Bytes)
    → n ≤ length b
    → read_exact n (stream b) ≡ (true, take n b, stream (drop n b))
unfolding read_exact
read_exact_enough n b h = ground arith

read_exact_short :
    (n : ℕ) (b : Bytes)
    → length b < n
    → read_exact n (stream b) ≡ (false, b, record { left = []; good = false })
unfolding read_exact
read_exact_short n b h = ground arith

-- The size of a chunk, while the marker does not wrap.
chunk_lem :
    (marker len : ℕ)
    → marker < len
    → len ≤ 2 ^ 32 - 32
    → (chunk marker len ≤ 32)
      × (marker + chunk marker len ≤ len)
      × ((marker + 32 < len) → chunk marker len ≡ 32)
      × ((len ≤ marker + 32) → chunk marker len ≡ len - marker)
unfolding chunk
chunk_lem marker len h k = (ground arith, ground arith, λ l. ground arith, λ l. ground arith)

take_front : (n : ℕ) (b r : Bytes) → n ≤ length b → take n (b ++ r) ≡ take n b
take_front zero b r h = refl
take_front (suc n) [] r h = absurd (omega arith)
take_front (suc n) (c ∷ b) r h = ap (λ s. c ∷ s) (take_front n b r (omega arith))

drop_front : (n : ℕ) (b r : Bytes) → n ≤ length b → drop n (b ++ r) ≡ drop n b ++ r
drop_front zero b r h = refl
drop_front (suc n) [] r h = absurd (omega arith)
drop_front (suc n) (c ∷ b) r h = drop_front n b r (omega arith)

-- One round with its data there.
read_chunks_round :
    (f marker len : ℕ) (buf body rest : Bytes)
    → marker < len
    → len ≤ 2 ^ 32 - 32
    → length buf ≡ marker
    → chunk marker len ≤ length body
    → read_chunks (suc f) marker len buf (stream (body ++ rest))
      ≡ read_chunks f
          (marker + 32)
          len
          (buf ++ take (chunk marker len) body)
          (stream (drop (chunk marker len) body ++ rest))
unfolding read_chunks
read_chunks_round f marker len buf body rest h k e l =
    rw
      (read_exact_enough (chunk marker len) (body ++ rest) (omega (arith, length-append body rest)))
      (rw (take_front (chunk marker len) body rest l, drop_front (chunk marker len) body rest l)
        (rw (lt→ltb marker len h, wrap)
          (ap
            (λ b. read_chunks f (marker + 32) len b (stream (drop (chunk marker len) body ++ rest)))
            (rw (← e) (write_at_end (take (chunk (length buf) len) body) buf)))))
  where
    wrap : (marker + buf_size) % 2 ^ 32 ≡ marker + 32
    wrap = omega arith

read_chunks_done :
    (f marker len : ℕ) (buf : Bytes) (s : Stream)
    → len ≤ marker
    → read_chunks (suc f) marker len buf s ≡ some (true, buf, s)
unfolding read_chunks
read_chunks_done f marker len buf s h = ground arith

read_chunks_body :
    (f marker len : ℕ) (buf body rest : Bytes)
    → len ≤ 2 ^ 32 - 32
    → length buf ≡ marker
    → marker + length body ≡ len
    → len + 32 ≤ marker + 32 * f
    → read_chunks f marker len buf (stream (body ++ rest)) ≡ some (true, buf ++ body, stream rest)
read_chunks_body zero marker len buf body rest k e l enough = absurd (omega arith)
read_chunks_body (suc f) marker len buf [] rest k e l enough =
    read_chunks_done f marker len buf (stream rest) (omega arith) ∙ rw append-nil
read_chunks_body (suc zero) marker len buf (c ∷ b) rest k e l enough = absurd (omega arith)
read_chunks_body (suc (suc f)) marker len buf (c ∷ b) rest k e l enough =
    read_chunks_round (suc f) marker len buf body rest less k e (omega (arith, facts.1))
    ∙ elim (Bool-cases (ltb (marker + 32) len)) [
      | inl more ↦
          let early : marker + 32 < len = ltb→lt (marker + 32) len more in
          let full : n ≡ 32 = facts.2 early in
          read_chunks_body (suc f) (marker + 32) len (buf ++ take n body) (drop n body) rest k
            (omega (arith, full, length-append buf (take n body), length-take n body))
            (omega (arith, full, length-drop n body, facts.1)) (omega arith)
          ∙ ap (λ x. some (true, x, stream rest))
              (append_assoc buf (take n body) (drop n body)
                ∙ ap (λ x. buf ++ x) (take-append-drop n body))
      | inr last ↦
          let all : n ≡ len - marker = facts.3 (ground arith) in
          read_chunks_done f (marker + 32) len (buf ++ take n body) (stream (drop n body ++ rest))
            (ground arith)
          ∙ rw (take_all n body (omega (arith, all)), drop_all n body (omega (arith, all)))
    ]
  where
    body : Bytes
    body = c ∷ b

    n : ℕ
    n = chunk marker len

    less : marker < len
    less = omega arith

    facts :
        (n ≤ 32)
        × (marker + n ≤ len)
        × ((marker + 32 < len) → n ≡ 32)
        × ((len ≤ marker + 32) → n ≡ len - marker)
    facts = chunk_lem marker len less k

-- What the chunks give is what one read of `len` bytes would give: the block and the stream behind it.
-- The fuel is enough, and the marker of 32 bits does not wrap, up to 2 ^ 32 - 32 bytes.
pub read_chunks_lem :
    (body rest : Bytes)
    → length body ≤ 2 ^ 32 - 32
    → read_chunks (chunk_fuel (length body)) 0 (length body) [] (stream (body ++ rest))
      ≡ some (read_exact (length body) (stream (body ++ rest)))
read_chunks_lem body rest k =
    read_chunks_body (chunk_fuel (length body)) 0 (length body) [] body rest k refl (omega arith)
      (omega arith)
    ∙ ap some (
        sym (
          read_exact_enough (length body) (body ++ rest) (omega (arith, length-append body rest))
          ∙ rw (take-length body rest, drop-length body rest)))

-- For a longer block the marker wraps: in the last round the porter reads a whole chunk, which is more
-- than is left of the block, and then it goes on at the front of the buffer instead of stopping: if
-- the stream has the 32 bytes, the loop at 2 ^ 32 - 32 goes on as the loop at 0 with these bytes
-- written.
pub read_chunks_wraps :
    (f len : ℕ) (buf body rest : Bytes)
    → 2 ^ 32 - 32 < len
    → len < 2 ^ 32
    → length body ≡ 32
    → (len - (2 ^ 32 - 32) < chunk (2 ^ 32 - 32) len)
      × (read_chunks (suc f) (2 ^ 32 - 32) len buf (stream (body ++ rest))
          ≡ read_chunks f 0 len (write_at (2 ^ 32 - 32) body buf) (stream rest))
unfolding chunk read_chunks
read_chunks_wraps f len buf body rest h k e =
    let whole : chunk (2 ^ 32 - 32) len ≡ length body = ground (arith, e) in
    let marker : (2 ^ 32 - 32 + buf_size) % 2 ^ 32 ≡ 0 = refl in
    let one : read_exact (chunk (2 ^ 32 - 32) len) (stream (body ++ rest))
        ≡ (true, body, stream rest) =
      ap (λ n. read_exact n (stream (body ++ rest))) whole
      ∙ (read_exact_enough (length body) (body ++ rest) (omega (arith, length-append body rest))
          ∙ rw (take-length body rest, drop-length body rest)) in
    (ground (arith, e), rw (one, lt→ltb (2 ^ 32 - 32) len h))
