-- ===== src/Io/Length.antt =====
-- A length as it is sent.
use swm_core.Prelude.{ℕ, ◌/◌, ◌%◌, ◌^◌, ◌<◌, true, [], ◌∷◌, ◌++◌, some, ◌≡◌, arith, Bytes}
use swm_core.Io.{read_length}

-- `Size:32/big` of the Erlang side.
abbrev pub be32 : ℕ → Bytes
be32 n = (n / 2 ^ 24) ∷ (n / 2 ^ 16 % 256) ∷ (n / 2 ^ 8 % 256) ∷ (n % 256) ∷ []

-- A length of 32 bits is read as it was sent, and the stream stands behind it.
pub read_length-be32 :
    (n : ℕ) (rest : Bytes)
    → n < 2 ^ 32
    → read_length (record { left = be32 n ++ rest; good = true })
      ≡ (some n, record { left = rest; good = true })
unfolding read_length
read_length-be32 n rest h = ground arith
