-- ===== src/Tests/Files.antt =====
-- Streams, chunks and files.
use swm_core.Prelude.{
  ◌-◌, ◌^◌, ◌<◌, true, List, [], ◌∷◌, ◌++◌, some, ◌≡◌, refl, arith, Bytes, codes,
}
use swm_core.WriteLoop.{wrote, interrupted}
use swm_core.Io.{read_exact, read_length}
use swm_core.Io.Length.{be32, read_length-be32}
use swm_core.Data.{chunk, write_at, read_chunks, chunk_fuel}
use swm_core.Data.Chunks.{stream, read_chunks_lem, read_chunks_wraps}
use swm_core.SafeFile.{Effect, Os, Owner, ensure_private_dir}
use swm_core.SafeFile.Exclusive.{kept_file}

read_length-be32_example :
    read_length (record { left = be32 70000 ++ codes "x"; good = true })
    ≡ (some 70000, record { left = codes "x"; good = true })
read_length-be32_example = read_length-be32 70000 (codes "x") (omega arith)

-- Two chunks, of 32 and of 4 bytes.
abbrev block : Bytes
block = codes "0123456789abcdefghijklmnopqrstuvwxyz"

read_chunks_lem_example :
    read_chunks (chunk_fuel 36) 0 36 [] (stream (block ++ codes "next"))
    ≡ some (read_exact 36 (stream (block ++ codes "next")))
read_chunks_lem_example = read_chunks_lem block (codes "next") (omega arith)

read_chunks_wraps_example :
    (4294967295 - (2 ^ 32 - 32) < chunk (2 ^ 32 - 32) 4294967295)
    × (read_chunks 4
          (2 ^ 32 - 32)
          4294967295
          (codes "end")
          (stream (codes "0123456789abcdefghijklmnopqrstuv" ++ codes "next"))
        ≡ read_chunks 3 0 4294967295
            (write_at (2 ^ 32 - 32) (codes "0123456789abcdefghijklmnopqrstuv") (codes "end"))
            (stream (codes "next")))
read_chunks_wraps_example =
    read_chunks_wraps 3 4294967295 (codes "end") (codes "0123456789abcdefghijklmnopqrstuv")
      (codes "next") (omega arith) (omega arith) refl

-- A host on which every call succeeds.
abbrev pub willing : Os
willing = record {
  euid = 1000;
  mkdir_ok = λ p. true;
  chmod_ok = λ p. true;
  chown_ok = λ p. true;
  open_ok = λ p f m. true;
  writes = wrote 1 ∷ interrupted ∷ wrote 5 ∷ [];
  fchmod_ok = true;
  fchown_ok = true;
  close_ok = true;
}

abbrev owner : Owner
owner = record { uid = 1000; gid = 100; mode = 384 }

abbrev effects : List Effect
effects =
    (ensure_private_dir willing (codes "/j") 1000).1 ++ kept_file (codes "/j/n") (codes "hi") owner
