-- ===== src/Ctrl/RoundTrip.antt =====
-- What the porter reads out of a request that swm-task wrote.
use swm_core.Prelude.{
  ℕ, Bool, true, false, not, ◌||◌, List, [], ◌∷◌, ◌++◌, is_empty, append_assoc, append-nil, ◌==◌,
  if◌then◌else◌, ◌≡◌, refl, sym, inl, inr, arith, Bytes, bytes_eq, Bool-cases, ◌&&◌, ap, ◌∙◌,
  ==_iff,
}
use swm_core.Ctrl.{
  space, unescape_token, Spawn, pmix_flag, add_token, flush, scan, skip_spaces, no_spawn,
  spawn_word, parse_spawn,
}
use swm_core.Task.{escape_byte, escape_arg, escape_args, spawn_line}

-- What one argument adds: nothing if it is empty, the flag if it is spelled so, else itself.
abbrev keep : Bytes → Spawn → Spawn
keep a s = if is_empty a then s else add_token a s

abbrev keep_all : List Bytes → Spawn → Spawn
keep_all [] s = s
keep_all (a ∷ rest) s = keep_all rest (keep a s)

unescape-escape_byte :
    (c : ℕ) (rest : Bytes) → unescape_token (escape_byte c ++ rest) ≡ c ∷ unescape_token rest
unfolding unescape_token escape_byte
unescape-escape_byte c [] = ground arith
unescape-escape_byte c (d ∷ rest) = ground arith

unescape-escape_arg : (a : Bytes) → unescape_token (escape_arg a) ≡ a
unfolding escape_arg
unescape-escape_arg [] = unfold unescape_token in refl
unescape-escape_arg (c ∷ a) = rw unescape-escape_byte (rw (unescape-escape_arg a))

scan-escape_byte :
    (c : ℕ) (rest cur : Bytes) (s : Spawn)
    → scan (escape_byte c ++ rest) cur s ≡ scan rest (cur ++ escape_byte c) s
unfolding scan escape_byte
scan-escape_byte c [] cur s = ground arith
scan-escape_byte c (d ∷ rest) cur s = ground arith

scan-escape_arg :
    (a rest cur : Bytes) (s : Spawn)
    → scan (escape_arg a ++ rest) cur s ≡ scan rest (cur ++ escape_arg a) s
unfolding escape_arg
scan-escape_arg [] rest cur s = rw append-nil
scan-escape_arg (c ∷ a) rest cur s =
    rw (append_assoc, scan-escape_byte) (rw (scan-escape_arg a, append_assoc))

scan-space : (rest cur : Bytes) (s : Spawn) → scan (space ∷ rest) cur s ≡ scan rest [] (flush cur s)
unfolding scan
scan-space [] cur s = refl
scan-space (d ∷ rest) cur s = refl

is_empty-escape_arg : (a : Bytes) → is_empty (escape_arg a) ≡ is_empty a
unfolding escape_arg escape_byte
is_empty-escape_arg [] = refl
is_empty-escape_arg (c ∷ a) = ground arith

flush-escape_arg : (a : Bytes) (s : Spawn) → flush (escape_arg a) s ≡ keep a s
unfolding flush
flush-escape_arg a s = rw (is_empty-escape_arg a, unescape-escape_arg a)

scan-escape_args :
    (argv : List Bytes) (cur : Bytes) (s : Spawn)
    → scan (escape_args argv) cur s ≡ keep_all argv (flush cur s)
unfolding escape_args
scan-escape_args [] cur s = unfold scan in refl
scan-escape_args (a ∷ rest) cur s =
    rw (scan-space, scan-escape_arg a) (rw (scan-escape_args rest, flush-escape_arg))

-- A token can only start behind the spaces at the front.
scan-skip_spaces : (x : Bytes) (s : Spawn) → scan (skip_spaces x) [] s ≡ scan x [] s
unfolding skip_spaces flush scan
scan-skip_spaces [] s = refl
scan-skip_spaces (c ∷ x) s = elim (Bool-cases (c == space)) [
  | inl e ↦ rw e (
      scan-skip_spaces x s
      ∙ (sym (scan-space x [] s) ∙ ap (λ d. scan (d ∷ x) [] s) (sym ((==_iff c space).0 e))))
  | inr e ↦ rw e
]

abbrev pub is_kept : Bytes → Bool
is_kept a = not (is_empty a) && not (bytes_eq a pmix_flag)

-- The arguments that are not empty and not the flag.
abbrev pub kept : List Bytes → List Bytes
kept [] = []
kept (a ∷ rest) = if is_kept a then a ∷ kept rest else kept rest

-- The flag stands among the arguments.
abbrev pub asks_pmix : List Bytes → Bool
asks_pmix [] = false
asks_pmix (a ∷ rest) = bytes_eq a pmix_flag || asks_pmix rest

keep_all-kept :
    (argv : List Bytes) (s : Spawn)
    → keep_all argv s ≡ record { pmix = s.pmix || asks_pmix argv; argv = s.argv ++ kept argv }
unfolding add_token
keep_all-kept [] s = ground (arith, append-nil s.argv)
keep_all-kept ([] ∷ rest) s = keep_all-kept rest s
keep_all-kept ((c ∷ a) ∷ rest) s = elim (Bool-cases (bytes_eq (c ∷ a) pmix_flag)) [
  | inl e ↦ rw e (keep_all-kept rest _ ∙ ground arith)
  | inr e ↦
      rw e (keep_all-kept rest _ ∙ ground (arith, append_assoc s.argv ((c ∷ a) ∷ []) (kept rest)))
]

-- The line as one list of escaped arguments, the flag being the first of them.
spawn_line-escape_args :
    (pmix : Bool) (argv : List Bytes)
    → spawn_line pmix argv ≡ spawn_word ++ escape_args (if pmix then pmix_flag ∷ argv else argv)
unfolding spawn_line escape_args escape_arg escape_byte
spawn_line-escape_args true argv = refl
spawn_line-escape_args false argv = refl

parse_spawn-escape_args :
    (argv : List Bytes)
    → parse_spawn (spawn_word ++ escape_args argv)
      ≡ (not (is_empty (kept argv)), record { pmix = asks_pmix argv; argv = kept argv })
unfolding parse_spawn
parse_spawn-escape_args argv =
    ap (λ s. (not (is_empty s.argv), s))
      (scan-skip_spaces (escape_args argv) no_spawn
        ∙ (scan-escape_args argv [] no_spawn ∙ keep_all-kept argv no_spawn))

-- The porter reads back exactly what swm-task was given: the line is accepted if and only if an
-- argument is left, the arguments are those given, in their order and byte for byte, less the empty
-- ones and those spelled `--pmix`, and PMIx is asked for if the flag was given or an argument is
-- spelled `--pmix`.
pub parse_spawn-spawn_line :
    (pmix : Bool) (argv : List Bytes)
    → parse_spawn (spawn_line pmix argv)
      ≡ (not (is_empty (kept argv)), record { pmix = pmix || asks_pmix argv; argv = kept argv })
parse_spawn-spawn_line true argv =
    rw spawn_line-escape_args (parse_spawn-escape_args (pmix_flag ∷ argv))
parse_spawn-spawn_line false argv = rw spawn_line-escape_args (parse_spawn-escape_args argv)
