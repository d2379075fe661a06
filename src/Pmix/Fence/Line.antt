-- ===== src/Pmix/Fence/Line.antt =====
-- The FENCE_OUT line that src/srv/compute/wm_pmix.erl writes, as swm-pmix reads it.
use swm_core.Prelude.{
  ℕ, ◌^◌, ◌<◌, [], ◌++◌, append-nil, none, some, ◌≡◌, refl, ◌∙◌, ap, arith, Bytes, codes, All, ℤ,
  find_after, find_after_skip, until, until-append,
}
use swm_core.Numbers.{print_nat, print_int}
use swm_core.Numbers.RoundTrip.{
  InInt, stoul-print_nat, stoi-print_int, print_nat-Lacks, print_int-Lacks,
}
use swm_core.Pmix.Base64.{b64_encode, b64_decode}
use swm_core.Pmix.Base64.RoundTrip.{IsByte, b64_decode-b64_encode}
use swm_core.Pmix.Fence.{
  Fences, complete_fence, finish, parse_kv_token, or_empty, read_id, read_status, handle_fence_out,
}

abbrev pub after_status : ℕ → Bytes → Bytes
after_status n b64 = codes " nbytes=" ++ (print_nat n ++ (codes " b64=" ++ b64))

-- The line without its newline.
abbrev pub fence_out_line : ℕ → ℤ → ℕ → Bytes → Bytes
fence_out_line id status n b64 =
    codes "FENCE_OUT id="
    ++ (print_nat id ++ (codes " status=" ++ (print_int status ++ after_status n b64)))

parse_kv_token_found :
    (l key rest : Bytes)
    → find_after (key ++ codes "=") l ≡ some rest
    → parse_kv_token l key ≡ some (until b' ' rest)
unfolding parse_kv_token
parse_kv_token_found l key rest e = rw (e, parse_kv_token)

read_id-print_nat : (id : ℕ) → id < 2 ^ 64 → read_id (some (print_nat id)) ≡ some id
unfolding read_id
read_id-print_nat id h = rw (← append-nil (print_nat id)) (rw (stoul-print_nat id [] h tt, read_id))

read_status-print_int : (z : ℤ) → InInt z → read_status (some (print_int z)) ≡ some z
unfolding read_status
read_status-print_int z h = rw (← append-nil (print_int z)) (stoi-print_int z [] h tt)

module _ (id : ℕ) (status : ℤ) (n : ℕ) (b64 : Bytes) where
  read_id-line :
      id < 2 ^ 64 → read_id (parse_kv_token (fence_out_line id status n b64) (codes "id")) ≡ some id
  read_id-line h =
      ap read_id (
        parse_kv_token_found (fence_out_line id status n b64) (codes "id") _ refl
        ∙ ap some (until-append b' ' (print_nat id) _ (print_nat-Lacks b' ' id refl)))
      ∙ read_id-print_nat id h

  read_status-line :
      InInt status
      → read_status (parse_kv_token (fence_out_line id status n b64) (codes "status")) ≡ some status
  read_status-line h =
      ap read_status (
        parse_kv_token_found (fence_out_line id status n b64) (codes "status")
          (print_int status ++ after_status n b64)
          (find_after_skip b's' (codes "tatus=") (print_nat id) _ (print_nat-Lacks b's' id refl))
        ∙ ap some (
            until-append b' ' (print_int status) _
              (print_int-Lacks b' ' status refl (omega arith))))
      ∙ read_status-print_int status h

  blob-line : find_after (codes "b64=") (fence_out_line id status n b64) ≡ some b64
  blob-line =
      find_after_skip b'b' (codes "64=") (print_nat id) _ (print_nat-Lacks b'b' id refl)
      ∙ (find_after_skip b'b' (codes "64=") (print_int status) (after_status n b64)
            (print_int-Lacks b'b' status refl (omega arith))
          ∙ find_after_skip b'b' (codes "64=") (print_nat n) _ (print_nat-Lacks b'b' n refl))

handle_parts :
    (pmix_success pmix_error : ℤ) (f : Fences) (id : ℕ) (status : ℤ) (l b64 : Bytes)
    → read_id (parse_kv_token l (codes "id")) ≡ some id
    → read_status (parse_kv_token l (codes "status")) ≡ some status
    → find_after (codes "b64=") l ≡ some b64
    → handle_fence_out pmix_success pmix_error f l ≡ finish pmix_success pmix_error f b64 id status
unfolding handle_fence_out
handle_parts pmix_success pmix_error f id status l b64 p q r =
    rw (p, handle_fence_out) (rw (q, handle_fence_out) (rw (r, or_empty)))

module _ (pmix_success pmix_error : ℤ) (f : Fences) (id : ℕ) (status : ℤ) (n : ℕ) where
  handle-line :
      (b64 : Bytes)
      → id < 2 ^ 64
      → InInt status
      → handle_fence_out pmix_success pmix_error f (fence_out_line id status n b64)
        ≡ finish pmix_success pmix_error f b64 id status
  handle-line b64 h k =
      handle_parts pmix_success pmix_error f id status (fence_out_line id status n b64) b64
        (read_id-line id status n b64 h) (read_status-line id status n b64 k)
        (blob-line id status n b64)

  -- A FENCE_OUT line whose id has 64 bits and whose status fits an `int` completes the fence that it
  -- names, with its status and the blob of bytes that its base64 text stands for; where the text is
  -- none of base64 the fence is completed with an error and no blob. The number of bytes in the line
  -- plays no part.
  pub handle_fence_out-line :
      (blob bad : Bytes)
      → id < 2 ^ 64
      → InInt status
      → All IsByte blob
      → b64_decode bad ≡ none
      → (handle_fence_out pmix_success pmix_error f (fence_out_line id status n (b64_encode blob))
          ≡ complete_fence pmix_success pmix_error f id status blob)
        × (handle_fence_out pmix_success pmix_error f (fence_out_line id status n bad)
            ≡ complete_fence pmix_success pmix_error f id pmix_error [])
  unfolding finish
  handle_fence_out-line blob bad h k bytes broken = (
    handle-line (b64_encode blob) h k ∙ rw (b64_decode-b64_encode blob bytes, finish),
    handle-line bad h k ∙ rw (broken, finish),
  )
