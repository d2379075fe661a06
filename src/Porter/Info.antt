-- ===== src/Porter/Info.antt =====
-- The process info for the Erlang side: `send_process_info` of c_src/porter/porter.cpp.
use swm_core.Prelude.{
  ℕ, ◌+◌, ◌-◌, ◌%◌, ◌^◌, Bool, true, false, List, [], ◌∷◌, if◌then◌else◌, codes, until, ℤ, pos,
  negsuc,
}
use swm_core.Ei.Item.{Item, version, tuple_header, atom, str, ulong, long}
use swm_core.Entity.Process.{Process}

-- A number as an unsigned one of 64 bits.
abbrev unsigned : ℤ → ℕ
unsigned (pos n) = n % 2 ^ 64
unsigned (negsuc n) = (2 ^ 64 - (n + 1) % 2 ^ 64) % 2 ^ 64

unfoldable pub process_info : Process → List Item
process_info p =
    version
    ∷ tuple_header 6
    ∷ atom (codes "process")
    ∷ ulong (unsigned p.pid)
    ∷ str (until 0 p.state)
    ∷ long p.exitcode
    ∷ long p.signal
    ∷ str (until 0 p.comment)
    ∷ []

-- The answer (true for 0), and what is written.
unfoldable pub send_process_info : Bool → Process → Bool × List (List Item)
send_process_info encodes p = if encodes then (true, process_info p ∷ []) else (false, [])
