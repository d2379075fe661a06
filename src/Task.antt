-- ===== src/Task.antt =====
-- swm-task, c_src/task/task.cpp: it reads its arguments, and asks the porter to spawn the command.
pub mod Args
pub mod Reply
pub mod Run
pub mod Session
use swm_core.Prelude.{ℕ, Bool, true, List, [], ◌∷◌, ◌++◌, ◌||◌, ◌==◌, if◌then◌else◌, Bytes, codes}
use swm_core.Ctrl.{space, backslash, newline, spawn_word}

-- One byte of an argument in the request.
unfoldable pub escape_byte : ℕ → Bytes
escape_byte c = if c == space || c == backslash then backslash ∷ c ∷ [] else c ∷ []

unfoldable pub escape_arg : Bytes → Bytes
escape_arg [] = []
escape_arg (c ∷ s) = escape_byte c ++ escape_arg s

-- The loop over `argv` in `run_via_porter`.
unfoldable pub escape_args : List Bytes → Bytes
escape_args [] = []
escape_args (a ∷ rest) = space ∷ (escape_arg a ++ escape_args rest)

-- The request of `run_via_porter` before the newline is appended.
unfoldable pub spawn_line : Bool → List Bytes → Bytes
spawn_line pmix argv = spawn_word ++ ((if pmix then codes " --pmix" else []) ++ escape_args argv)

unfoldable pub spawn_request : Bool → List Bytes → Bytes
spawn_request pmix argv = spawn_line pmix argv ++ newline ∷ []
