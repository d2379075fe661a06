-- ===== src/Tests/Server.antt =====
-- A life of swm-pmix.
use swm_core.Prelude.{true, List, [], ◌∷◌, some, none, ◌≡◌, arith, codes, pos, negsuc}
use swm_core.Pmix.Fence.{buffer}
use swm_core.Pmix.Fence.Count.{answers}
use swm_core.Pmix.Register.{ranks_of, read_register}
use swm_core.Pmix.Register.RoundTrip.{register_args, peers_text, read_register-args}
use swm_core.Pmix.Server.Life.{Input, said, client_fence, asked_in, serve, started, serve-answers}

read_register-args_example :
    (read_register (register_args 4 2 (2 ∷ 3 ∷ []))
      ≡ record { nprocs = 4; local = 2; peers = peers_text (2 ∷ 3 ∷ []) })
    × (ranks_of (read_register (register_args 4 2 (2 ∷ 3 ∷ []))).peers ≡ 2 ∷ 3 ∷ [])
read_register-args_example =
    read_register-args 4 2 2 (3 ∷ []) (omega arith) (omega arith) (omega arith)
      (omega arith, (omega arith, tt))

abbrev inputs : List Input
inputs =
    said (codes "REGISTER 2 1 0")
    ∷ client_fence (some 5) 9 (buffer (codes "x"))
    ∷ said (codes "FENCE_OUT id=1 status=0 nbytes=0 b64=")
    ∷ client_fence (some 5) 9 (buffer (codes "y"))
    ∷ said (codes "STOP")
    ∷ []

serve-answers_example :
    (answers 5 9
        (serve (λ made c. true) (λ made rank. none) (pos 0) (negsuc 0) (started true []) inputs).1
      ≡ asked_in 5 9 inputs)
    × ((serve
          (λ made c. true)
          (λ made rank. none)
          (pos 0)
          (negsuc 0)
          (started true [])
          inputs).0.fences.pending
        ≡ [])
serve-answers_example =
    serve-answers (λ made c. true) (λ made rank. none) (pos 0) (negsuc 0) true [] inputs 5 9
      (omega arith)
