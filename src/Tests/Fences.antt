-- ===== src/Tests/Fences.antt =====
-- Lines for fences, and base64 texts.
use swm_core.Prelude.{[], ◌∷◌, length, some, none, ◌≡◌, refl, arith, Bytes, codes, All, pos, negsuc}
use swm_core.Pmix.Base64.{b64_encode, b64_decode}
use swm_core.Pmix.Base64.RoundTrip.{b64_decode-b64_encode}
use swm_core.Pmix.Base64.Shape.{IsB64, b64_encode_shape}
use swm_core.Pmix.Fence.{Fences, complete_fence, handle_fence_out}
use swm_core.Pmix.Fence.Line.{fence_out_line, handle_fence_out-line}

b64_decode-b64_encode_example :
    b64_decode (b64_encode (255 ∷ 0 ∷ 128 ∷ 7 ∷ [])) ≡ some (255 ∷ 0 ∷ 128 ∷ 7 ∷ [])
b64_decode-b64_encode_example = b64_decode-b64_encode (255 ∷ 0 ∷ 128 ∷ 7 ∷ []) (omega arith)

b64_encode_shape_example :
    (length (b64_encode (codes "blob")) ≡ 8) × All IsB64 (b64_encode (codes "blob"))
b64_encode_shape_example = b64_encode_shape (codes "blob")

-- A text that is none of base64.
abbrev broken : Bytes
broken = codes "A!"

broken_lem : b64_decode broken ≡ none
unfolding b64_decode
broken_lem = refl

abbrev waiting_state : Fences
waiting_state = record {
  seq = 4;
  contrib = pos 0;
  pending = (3, record { cbfunc = some 5; cbdata = 9; local_data = [] }) ∷ [];
}

handle_fence_out-line_example :
    (handle_fence_out
        (pos 0)
        (negsuc 0)
        waiting_state
        (fence_out_line 3 (negsuc 24) 2 (b64_encode (codes "ok")))
      ≡ complete_fence (pos 0) (negsuc 0) waiting_state 3 (negsuc 24) (codes "ok"))
    × (handle_fence_out (pos 0) (negsuc 0) waiting_state (fence_out_line 3 (negsuc 24) 2 broken)
        ≡ complete_fence (pos 0) (negsuc 0) waiting_state 3 (negsuc 0) [])
handle_fence_out-line_example =
    handle_fence_out-line (pos 0) (negsuc 0) waiting_state 3 (negsuc 24) 2 (codes "ok") broken
      (omega arith) (omega arith) (omega arith) broken_lem
