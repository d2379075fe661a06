-- ===== src/Pmix/Base64/RoundTrip.antt =====
-- Decoding what was encoded.
use swm_core.Prelude.{
  ℕ, zero, suc, ◌+◌, ◌-◌, ◌*◌, ◌/◌, ◌%◌, ◌^◌, ◌<◌, Bool, true, false, ◌&&◌, not, [], ◌∷◌, ◌++◌,
  append_assoc, append-nil, Option, none, some, leb, ◌==◌, ==_iff, if◌then◌else◌, ◌≡◌, refl, ◌∙◌,
  sym, ap, ap₂, arith, Bytes, All,
}
use swm_core.Pmix.Base64.{b64_char, pad, digit, b64_encode, b64_val, ends, decode_loop, b64_decode}

-- The test passes at every digit from `top` down.
passes_from : (ℕ → Bool) → ℕ → Bool
passes_from test zero = test 0
passes_from test (suc top) = let lower = passes_from test top in test (suc top) && lower

passes_at :
    (test : ℕ → Bool) (top d : ℕ) → passes_from test top ≡ true → d < top + 1 → test d ≡ true
unfolding passes_from
passes_at test zero d passed low = let here : 0 ≡ d = omega arith in ap test (sym here) ∙ passed
passes_at test (suc top) d passed low = grind (arith, passes_at test top d)

is_value : ℕ → Option ℕ → Bool
is_value d none = false
is_value d (some e) = e == d

is_value-eq : (d : ℕ) (o : Option ℕ) → is_value d o ≡ true → o ≡ some d
unfolding is_value
is_value-eq d none h = absurd (cc)
is_value-eq d (some e) h = ap some ((==_iff e d).0 h)

abbrev fits : ℕ → Bool
fits d = is_value d (b64_val (b64_char d)) && not (ends (b64_char d))

table : passes_from fits 63 ≡ true
unfolding passes_from b64_val is_value b64_char
table = refl

fits_sound :
    (d : ℕ)
    → fits d ≡ true
    → (is_value d (b64_val (b64_char d)) ≡ true) × (ends (b64_char d) ≡ false)
fits_sound d h = ground arith

pub b64_val-b64_char :
    (d : ℕ) → d < 64 → (b64_val (b64_char d) ≡ some d) × (ends (b64_char d) ≡ false)
b64_val-b64_char d h =
    let (value, going) = fits_sound d (passes_at fits 63 d table h) in
    (is_value-eq d (b64_val (b64_char d)) value, going)

-- The state of the loop behind one digit.
abbrev val_after : ℕ → ℕ → ℕ
val_after val d = (val * 2 ^ 6 + d) % 2 ^ 32

decode_digit :
    (d : ℕ) (s : Bytes) (val held : ℕ) (out : Bytes)
    → d < 64
    → decode_loop (b64_char d ∷ s) val held out
      ≡ decode_loop s (val_after val d) (if leb 8 (held + 6) then held + 6 - 8 else held + 6) (
          if leb 8 (held + 6)
          then out ++ (val_after val d / 2 ^ (held + 6 - 8) % 256) ∷ []
          else out)
unfolding decode_loop
decode_digit d s val held out h =
    let (value, going) = b64_val-b64_char d h in rw (going, value, decode_loop)

-- Two digits are one byte and four bits.
decode_two :
    (d e : ℕ) (s : Bytes) (val : ℕ) (out : Bytes)
    → d < 64
    → e < 64
    → decode_loop (b64_char d ∷ b64_char e ∷ s) val 0 out
      ≡ decode_loop s (val_after (val_after val d) e) 4 (out ++ (d * 4 + e / 16) ∷ [])
decode_two d e s val out hd he =
    decode_digit d (b64_char e ∷ s) val 0 out hd
    ∙ (decode_digit e s (val_after val d) 6 out he
        ∙ ap (λ b. decode_loop s (val_after (val_after val d) e) 4 (out ++ b ∷ [])) (omega arith))

decode_third :
    (c d : ℕ) (s : Bytes) (val : ℕ) (out : Bytes)
    → c < 64
    → d < 64
    → decode_loop (b64_char d ∷ s) (val_after val c) 4 out
      ≡ decode_loop s (val_after (val_after val c) d) 2 (out ++ (c % 16 * 16 + d / 4) ∷ [])
decode_third c d s val out hc hd =
    decode_digit d s (val_after val c) 4 out hd
    ∙ ap (λ b. decode_loop s (val_after (val_after val c) d) 2 (out ++ b ∷ [])) (omega arith)

decode_fourth :
    (c d : ℕ) (s : Bytes) (val : ℕ) (out : Bytes)
    → c < 64
    → d < 64
    → decode_loop (b64_char d ∷ s) (val_after val c) 2 out
      ≡ decode_loop s (val_after (val_after val c) d) 0 (out ++ (c % 4 * 64 + d) ∷ [])
decode_fourth c d s val out hc hd =
    decode_digit d s (val_after val c) 2 out hd
    ∙ ap (λ b. decode_loop s (val_after (val_after val c) d) 0 (out ++ b ∷ [])) (omega arith)

decode_pad :
    (s : Bytes) (val held : ℕ) (out : Bytes) → decode_loop (pad ∷ s) val held out ≡ some out
unfolding decode_loop
decode_pad s val held out = refl

-- The numbers below 256.
abbrev pub IsByte : ℕ → Type 0
IsByte b = b < 256

first_byte :
    (n a r : ℕ)
    → n ≡ a * 2 ^ 16 + r
    → r < 2 ^ 16
    → IsByte a
    → n / 2 ^ 18 % 64 * 4 + n / 2 ^ 12 % 64 / 16 ≡ a
first_byte n a r e h b = omega arith

second_byte :
    (n a b r : ℕ)
    → n ≡ a * 2 ^ 16 + b * 2 ^ 8 + r
    → r < 2 ^ 8
    → IsByte b
    → n / 2 ^ 12 % 64 % 16 * 16 + n / 2 ^ 6 % 64 / 4 ≡ b
second_byte n a b r e h hb = omega arith

third_byte :
    (n a b c : ℕ)
    → n ≡ a * 2 ^ 16 + b * 2 ^ 8 + c
    → IsByte c
    → n / 2 ^ 6 % 64 % 4 * 64 + n / 2 ^ 0 % 64 ≡ c
third_byte n a b c e hc = omega arith

four_parts :
    (out : Bytes) (x y z : ℕ) (s : Bytes)
    → (((out ++ x ∷ []) ++ y ∷ []) ++ z ∷ []) ++ s ≡ out ++ x ∷ y ∷ z ∷ s
four_parts out x y z s = simp append_assoc

decode_loop-b64_encode :
    (s : Bytes) (val : ℕ) (out : Bytes)
    → All IsByte s
    → decode_loop (b64_encode s) val 0 out ≡ some (out ++ s)
unfolding b64_encode digit
decode_loop-b64_encode [] val out h = unfold decode_loop in rw append-nil
decode_loop-b64_encode (a ∷ []) val out (ha, _) =
    decode_two _ _ (pad ∷ pad ∷ []) val out (omega arith) (omega arith)
    ∙ (decode_pad _ _ _ _
        ∙ ap (λ x. some (out ++ x ∷ []))
            (first_byte (a * 2 ^ 16) a 0 (omega arith) (omega arith) ha))
decode_loop-b64_encode (a ∷ b ∷ []) val out (ha, (hb, _)) =
    let n = a * 2 ^ 16 + b * 2 ^ 8 in
    decode_two _ _ (b64_char (n / 2 ^ 6 % 64) ∷ pad ∷ []) val out (omega arith) (omega arith)
    ∙ (decode_third (n / 2 ^ 12 % 64) _ (pad ∷ []) _ _ (omega arith) (omega arith)
        ∙ (decode_pad _ _ _ _
            ∙ ap some (
                append_assoc out _ _
                ∙ ap₂ (λ x y. out ++ x ∷ y ∷ [])
                    (first_byte n a (b * 2 ^ 8) (omega arith) (omega arith) ha)
                    (second_byte n a b 0 (omega arith) (omega arith) hb))))
decode_loop-b64_encode (a ∷ b ∷ c ∷ s) val out (ha, (hb, (hc, hs))) =
    let n = a * 2 ^ 16 + b * 2 ^ 8 + c in
    let t = b64_encode s in
    decode_two _ _ (b64_char (n / 2 ^ 6 % 64) ∷ b64_char (n / 2 ^ 0 % 64) ∷ t) val out (omega arith)
      (omega arith)
    ∙ (decode_third (n / 2 ^ 12 % 64) _ (b64_char (n / 2 ^ 0 % 64) ∷ t) _ _ (omega arith)
          (omega arith)
        ∙ (decode_fourth (n / 2 ^ 6 % 64) _ t _ _ (omega arith) (omega arith)
            ∙ (decode_loop-b64_encode s _ _ hs
                ∙ ap some (
                    four_parts out _ _ _ s
                    ∙ (ap₂ (λ x y. out ++ x ∷ y ∷ (n / 2 ^ 6 % 64 % 4 * 64 + n / 2 ^ 0 % 64) ∷ s)
                          (first_byte n a (b * 2 ^ 8 + c) (omega arith) (omega arith) ha)
                          (second_byte n a b c (omega arith) hc hb)
                        ∙ ap (λ z. out ++ a ∷ b ∷ z ∷ s) (third_byte n a b c refl hc))))))

-- Whatever bytes a blob holds, decoding its base64 text gives the blob back.
pub b64_decode-b64_encode : (s : Bytes) → All IsByte s → b64_decode (b64_encode s) ≡ some s
unfolding b64_decode
b64_decode-b64_encode s h = decode_loop-b64_encode s 0 [] h
