-- ===== src/Task/Args.antt =====
-- The command line of swm-task: the argument loop of `main`.
use swm_core.Prelude.{
  Bool, true, ◌||◌, List, [], ◌∷◌, if◌then◌else◌, Bytes, codes, bytes_eq, starts_with,
}

-- What `main` does next; the argument of `unknown` is the option that it names.
pub data Command : Type 0 where
  help no_command : Command
  unknown : Bytes → Command
  run : Bool → List Bytes → Command

unfoldable pub read_args : Bool → List Bytes → Command
read_args pmix [] = no_command
read_args pmix (a ∷ rest) =
    let flagged = read_args true rest in
    if bytes_eq a (codes "-h") || bytes_eq a (codes "--help")
    then help
    else if bytes_eq a (codes "--pmix")
    then flagged
    else if starts_with (codes "-") a
    then unknown a
    else run pmix (a ∷ rest)
