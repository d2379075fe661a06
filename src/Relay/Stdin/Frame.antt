-- ===== src/Relay/Stdin/Frame.antt =====
-- How the body of a frame arrives plays no part.
use swm_core.Prelude.{
  ℕ, suc, ◌-◌, ◌^◌, ◌≤◌, ◌<◌, List, [], ◌∷◌, ◌++◌, append_assoc, append-nil, take, length,
  length-append, take_all, ◌≡◌, refl, ◌∙◌, ap, arith, Bytes,
}
use swm_core.Io.{word}
use swm_core.Io.Length.{be32}
use swm_core.Relay.{ReadCall, bytes, again}
use swm_core.Relay.Stdin.{frame, ctrl_reply, max_frame, gather, sized, read_size, read_frame}

-- Calls that give the bytes of a text in parts, and in between find nothing to read.
pub data Delivers : Bytes → List ReadCall → Type 0 where
  stop : Delivers [] []
  later :
      {c : ℕ} {s : Bytes} {calls : List ReadCall}
      → Delivers (c ∷ s) calls
      → Delivers (c ∷ s) (again ∷ calls)
  part :
      {s t : Bytes} {calls : List ReadCall} (c : ℕ) (p : Bytes)
      → t ≡ (c ∷ p) ++ s
      → Delivers s calls
      → Delivers t (bytes (c ∷ p) ∷ calls)

-- One part of what is missing.
gather_part :
    (c : ℕ) (p s got : Bytes) (calls : List ReadCall)
    → gather (suc (length (p ++ s))) got (bytes (c ∷ p) ∷ calls)
      ≡ gather (length s) (got ++ c ∷ p) calls
unfolding gather
gather_part c p s got calls =
    let n : ℕ = length (p ++ s) in
    let whole : take n p ≡ p = take_all n p (omega (arith, length-append p s)) in
    let left : suc n - suc (length p) ≡ length s = omega (arith, length-append p s) in
    ap (λ q. gather (suc n - suc (length q)) (got ++ c ∷ q) calls) whole
    ∙ ap (λ k. gather k (got ++ c ∷ p) calls) left

gather_later :
    (left : ℕ) (got : Bytes) (calls : List ReadCall)
    → gather (suc left) got (again ∷ calls) ≡ gather (suc left) got calls
unfolding gather
gather_later left got calls = refl

gather-Delivers :
    (t got : Bytes) (calls rest : List ReadCall)
    → Delivers t calls
    → gather (length t) got (calls ++ rest) ≡ frame (got ++ t) rest
gather-Delivers t got calls rest stop = unfold gather in rw append-nil
gather-Delivers t got calls rest (later {c} {s} {calls = calls'} d) =
    gather_later (length s) got (calls' ++ rest) ∙ gather-Delivers (c ∷ s) got calls' rest d
gather-Delivers t got calls rest (part {s} {calls = calls'} c p e d) = rw e (
    gather_part c p s got (calls' ++ rest)
    ∙ (gather-Delivers s (got ++ c ∷ p) calls' rest d
        ∙ ap (λ x. frame x rest) (append_assoc got (c ∷ p) s)))

word-be32 : (n : ℕ) → n < 2 ^ 32 → word (be32 n) ≡ n
word-be32 n h = omega arith

-- A reply frame is read whole and unchanged, up to 16 MiB, however its body is split into reads and
-- however often there is nothing to read in between: the command byte, the length by one read, and
-- then the body.
pub read_frame-Delivers :
    (body : Bytes) (calls rest : List ReadCall)
    → 0 < length body
    → length body ≤ max_frame
    → Delivers body calls
    → read_frame (bytes (ctrl_reply ∷ []) ∷ bytes (be32 (length body)) ∷ (calls ++ rest))
      ≡ frame body rest
unfolding read_frame read_size sized
read_frame-Delivers body calls rest some_bytes fits d =
    let size : word (be32 (length body)) ≡ length body = word-be32 (length body) (omega arith) in
    ground (arith, size, gather-Delivers body [] calls rest d)
