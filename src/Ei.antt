-- ===== src/Ei.antt =====
-- The Erlang interface library, which is not part of the repository: the functions of ei.h that the
-- code calls, on a buffer and an index. A call fails (`none`) and leaves the index, or it gives what
-- it read and the index behind it. A term's type is the number of its tag.
pub mod Tag
pub mod Item
use swm_core.Prelude.{ℕ, Option, Bytes, ℤ}

pub record Ei : Type 1 where
  pub Buf : Type 0
  pub Double : Type 0
  -- A buffer with the bytes that were read.
  pub of_bytes : Bytes → Buf
  -- The type and the size of the term.
  pub get_type : Buf → ℕ → Option (ℕ × ℕ)
  -- The index behind a term that was printed.
  pub print_term : Buf → ℕ → ℕ
  pub skip_term : Buf → ℕ → Option ℕ
  -- The bytes of the term as a buffer of its own.
  pub copy_term : Buf → ℕ → Option Buf
  pub decode_version : Buf → ℕ → Option (ℕ × ℕ)
  -- The number of elements.
  pub decode_tuple_header : Buf → ℕ → Option (ℕ × ℕ)
  pub decode_list_header : Buf → ℕ → Option (ℕ × ℕ)
  pub decode_map_header : Buf → ℕ → Option (ℕ × ℕ)
  pub decode_atom : Buf → ℕ → Option (Bytes × ℕ)
  pub decode_string : Buf → ℕ → Option (Bytes × ℕ)
  pub decode_binary : Buf → ℕ → Option (Bytes × ℕ)
  pub decode_iodata : Buf → ℕ → Option (Bytes × ℕ)
  pub decode_ulong : Buf → ℕ → Option (ℕ × ℕ)
  pub decode_long : Buf → ℕ → Option (ℤ × ℕ)
  pub decode_double : Buf → ℕ → Option (Double × ℕ)
