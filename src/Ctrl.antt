-- ===== src/Ctrl.antt =====
-- The control protocol between swm-task and swm-porter, porter side:
-- c_src/porter/wm_porter_ctrl.cpp.
pub mod RoundTrip
pub mod Request
pub mod Listen
pub mod Write
use swm_core.Prelude.{
  ℕ, Bool, true, false, not, ◌&&◌, ◌||◌, List, [], ◌∷◌, ◌++◌, drop, is_empty, ◌==◌, if◌then◌else◌,
  Bytes, codes, bytes_eq, starts_with,
}

abbrev pub space : ℕ
space = b' '

abbrev pub backslash : ℕ
backslash = b'\\'

abbrev pub newline : ℕ
newline = 10

-- A backslash with a byte behind it stands for that byte; a last backslash for itself.
unfoldable unescape_token : Bytes → Bytes
unescape_token [] = []
unescape_token (c ∷ []) = c ∷ []
unescape_token (c ∷ d ∷ s) =
    let escaped = d ∷ unescape_token s in
    let plain = c ∷ unescape_token (d ∷ s) in if c == backslash then escaped else plain

-- The two out parameters of `porter_ctrl_parse_spawn`.
pub record Spawn : Type 0 where
  pub pmix : Bool
  pub argv : List Bytes

abbrev pub pmix_flag : Bytes
pmix_flag = codes "--pmix"

add_token : Bytes → Spawn → Spawn
add_token tok s =
    if bytes_eq tok pmix_flag
    then record s { pmix = true }
    else record s { argv = s.argv ++ tok ∷ [] }

-- The lambda `flush`; its `cur.clear()` is the empty string that the caller goes on with.
flush : Bytes → Spawn → Spawn
unfolding add_token
flush cur s = if is_empty cur then s else add_token (unescape_token cur) s

-- The loop over the rest of the line, with `cur` and the out parameters.
scan : Bytes → Bytes → Spawn → Spawn
unfolding flush
scan [] cur s = flush cur s
scan (c ∷ []) cur s = if c == space then flush [] (flush cur s) else flush (cur ++ c ∷ []) s
scan (c ∷ d ∷ rest) cur s =
    let pair = scan rest (cur ++ c ∷ d ∷ []) s in
    let cut = scan (d ∷ rest) [] (flush cur s) in
    let one = scan (d ∷ rest) (cur ++ c ∷ []) s in
    if c == backslash then pair else if c == space then cut else one

skip_spaces : Bytes → Bytes
skip_spaces [] = []
skip_spaces (c ∷ s) = let rest = skip_spaces s in if c == space then rest else c ∷ s

abbrev pub spawn_word : Bytes
spawn_word = codes "SPAWN"

abbrev pub no_spawn : Spawn
no_spawn = record { pmix = false; argv = [] }

-- The result and the out parameters of `porter_ctrl_parse_spawn`.
pub parse_spawn : Bytes → Bool × Spawn
unfolding scan skip_spaces
parse_spawn line =
    if starts_with spawn_word line
    then (let s = scan (skip_spaces (drop 5 line)) [] no_spawn in (not (is_empty s.argv), s))
    else (false, no_spawn)
