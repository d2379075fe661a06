-- ===== src/Pmix/Base64/Shape.antt =====
-- The text of an encoded blob.
use swm_core.Prelude.{
  ℕ, ◌+◌, ◌*◌, ◌/◌, ◌%◌, ◌^◌, [], ◌∷◌, some, length, ◌≡◌, refl, ◌⊎◌, inl, inr, arith, Bytes, All,
}
use swm_core.Pmix.Base64.{pad, digit, b64_encode, b64_val}
use swm_core.Pmix.Base64.RoundTrip.{b64_val-b64_char}

-- The text has four characters for each three bytes begun.
pub length-b64_encode : (s : Bytes) → length (b64_encode s) ≡ (length s + 2) / 3 * 4
unfolding b64_encode
length-b64_encode [] = omega arith
length-b64_encode (a ∷ []) = omega arith
length-b64_encode (a ∷ b ∷ []) = omega arith
length-b64_encode (a ∷ b ∷ c ∷ s) = omega (arith, length-b64_encode s)

-- A character that the decoder reads as a digit, or the padding.
abbrev pub IsB64 : ℕ → Type 0
IsB64 c = ((d : ℕ) × (b64_val c ≡ some d)) ⊎ (c ≡ pad)

digit-IsB64 : (n k : ℕ) → IsB64 (digit n k)
unfolding digit
digit-IsB64 n k = inl (_, (b64_val-b64_char (n / 2 ^ k % 64) (omega arith)).0)

b64_encode-IsB64 : (s : Bytes) → All IsB64 (b64_encode s)
unfolding b64_encode
b64_encode-IsB64 [] = tt
b64_encode-IsB64 (a ∷ []) =
    let n = a * 2 ^ 16 in (digit-IsB64 n 18, (digit-IsB64 n 12, (inr refl, (inr refl, tt))))
b64_encode-IsB64 (a ∷ b ∷ []) =
    let n = a * 2 ^ 16 + b * 2 ^ 8 in
    (digit-IsB64 n 18, (digit-IsB64 n 12, (digit-IsB64 n 6, (inr refl, tt))))
b64_encode-IsB64 (a ∷ b ∷ c ∷ s) =
    let n = a * 2 ^ 16 + b * 2 ^ 8 + c in
    (digit-IsB64 n 18, (digit-IsB64 n 12, (digit-IsB64 n 6, (digit-IsB64 n 0, b64_encode-IsB64 s))))

-- The text of a blob has four characters for each three bytes begun, and all of them are digits of
-- the decoder or the padding.
pub b64_encode_shape :
    (s : Bytes) → (length (b64_encode s) ≡ (length s + 2) / 3 * 4) × All IsB64 (b64_encode s)
b64_encode_shape s = (length-b64_encode s, b64_encode-IsB64 s)
