-- ===== src/Pmix/Base64.antt =====
-- The base64 codec of swm-pmix. A byte is a number below 256, an `unsigned` has 32 bits.
pub mod RoundTrip
pub mod Shape
use swm_core.Prelude.{
  ℕ, zero, suc, ◌+◌, ◌-◌, ◌*◌, ◌/◌, ◌%◌, ◌^◌, Bool, true, false, ◌&&◌, ◌||◌, List, [], ◌∷◌, ◌++◌,
  Option, none, some, get_or, leb, ◌==◌, if◌then◌else◌, Bytes, codes,
}

-- `kB64`.
alphabet : Bytes
alphabet = codes "ABCDEFGHIJKLMNOPQRSTUVWXYZabcdefghijklmnopqrstuvwxyz0123456789+/"

abbrev pub pad : ℕ
pad = b'='

unfoldable b64_char : ℕ → ℕ
unfolding alphabet
b64_char d = get_or alphabet d 0

-- `kB64[(n >> k) & 63]`.
pub digit : ℕ → ℕ → ℕ
digit n k = b64_char (n / 2 ^ k % 64)

-- Bytes are shifted into disjoint bits, so `|` adds.
pub b64_encode : Bytes → Bytes
unfolding digit b64_char
b64_encode [] = []
b64_encode (a ∷ []) = let n = a * 2 ^ 16 in digit n 18 ∷ digit n 12 ∷ pad ∷ pad ∷ []
b64_encode (a ∷ b ∷ []) =
    let n = a * 2 ^ 16 + b * 2 ^ 8 in digit n 18 ∷ digit n 12 ∷ digit n 6 ∷ pad ∷ []
b64_encode (a ∷ b ∷ c ∷ s) =
    let n = a * 2 ^ 16 + b * 2 ^ 8 + c in
    digit n 18 ∷ digit n 12 ∷ digit n 6 ∷ digit n 0 ∷ b64_encode s

-- `none` is the answer -1.
unfoldable b64_val : ℕ → Option ℕ
b64_val c =
    if leb b'A' c && leb c b'Z'
    then some (c - b'A')
    else if leb b'a' c && leb c b'z'
    then some (c - b'a' + 26)
    else if leb b'0' c && leb c b'9'
    then some (c - b'0' + 52)
    else if c == b'+'
    then some 62
    else if c == b'/'
    then some 63
    else none

abbrev pub ends : ℕ → Bool
ends c = c == pad || c == 10 || c == 13

-- The loop. `val` is the accumulator as a word of 32 bits: `val << 6` drops what leaves the word.
-- `held` is `valb + 8`, the bits that are not written yet.
pub decode_loop : Bytes → ℕ → ℕ → Bytes → Option Bytes
decode_loop [] val held out = some out
decode_loop (c ∷ s) val held out =
    let more = λ (d : ℕ).
      let val' = (val * 2 ^ 6 + d) % 2 ^ 32 in
      let full = leb 8 (held + 6) in
      decode_loop s val' (if full then held + 6 - 8 else held + 6)
        (if full then out ++ (val' / 2 ^ (held + 6 - 8) % 256) ∷ [] else out) in
    if ends c then some out else elim (b64_val c) [ none ↦ none | some d ↦ more d ]

-- `none` is the answer false.
unfoldable pub b64_decode : Bytes → Option Bytes
unfolding decode_loop b64_val
b64_decode s = decode_loop s 0 0 []
