-- ===== src/Porter/Environment/Precedence.antt =====
-- Which of the values for a variable the job's process has.
use swm_core.Prelude.{
  ◌&&◌, ◌||◌, Bool, false, not, List, [], ◌∷◌, is_empty, Option, none, some, if◌then◌else◌, ◌≡◌,
  refl, ◌∙◌, ap, arith, Bytes, codes, bytes_eq, bytes_eq_iff, until, Bool-cases, inl, inr, join,
  sym,
}
use swm_core.Ei.{Ei}
use swm_core.Porter.Environment.Path.{search_path, path-join}
use swm_core.Entity.Job.{Job}
use swm_core.Porter.Environment.{
  Environment, lookup, replaced, has_equals, named_only, setenv, set_all, Passwd, swm_path_dirs,
  job_path, exports, own, computed, set_env,
}

-- A name sets the variable `k`.
abbrev pub names : Bytes → Bytes → Bool
names k name = let n = until 0 name in not (is_empty n) && (not (has_equals n) && bytes_eq n k)

-- The last value that is set for a variable.
abbrev pub last_set : Bytes → List (Bytes × Bytes) → Option Bytes
last_set k [] = none
last_set k ((name, v) ∷ kvs) = elim (last_set k kvs) [
  | none ↦ if names k name then some (until 0 v) else none
  | some w ↦ some w
]

abbrev pub or : Option Bytes → Option Bytes → Option Bytes
or none other = other
or (some v) other = some v

lookup-replaced :
    (k j v : Bytes) (e : Environment)
    → lookup k (replaced j v e) ≡ (if bytes_eq j k then some v else lookup k e)
lookup-replaced k j v [] = refl
lookup-replaced k j v ((l, w) ∷ e) =
    ground (arith, lookup-replaced k j v e, bytes_eq_iff l j, bytes_eq_iff l k, bytes_eq_iff j k)

lookup-setenv :
    (k name v : Bytes) (e : Environment)
    → lookup k (setenv name v e) ≡ (if names k name then some (until 0 v) else lookup k e)
unfolding setenv
lookup-setenv k name v e = ground (arith, lookup-replaced k (until 0 name) (until 0 v) e)

or-if :
    (o : Option Bytes) (b : Bool) (v : Bytes) (r : Option Bytes)
    → or o (if b then some v else r)
      ≡ or (elim o [ none ↦ if b then some v else none | some w ↦ some w ]) r
or-if none b v r = ground arith
or-if (some w) b v r = refl

lookup-set_all :
    (k : Bytes) (kvs : List (Bytes × Bytes)) (e : Environment)
    → lookup k (set_all kvs e) ≡ or (last_set k kvs) (lookup k e)
unfolding set_all
lookup-set_all k [] e = refl
lookup-set_all k ((name, v) ∷ kvs) e =
    lookup-set_all k kvs (setenv name v e)
    ∙ (ap (or (last_set k kvs)) (lookup-setenv k name v e)
        ∙ or-if (last_set k kvs) (names k name) (until 0 v) (lookup k e))

-- The variables that are computed last.
abbrev pub path_name : Bytes
path_name = codes "PATH"

abbrev pub pwd_name : Bytes
pwd_name = codes "PWD"

abbrev pub is_last : Bytes → Bool
is_last k = bytes_eq path_name k || bytes_eq pwd_name k

last_set-computed : (k cwd path : Bytes) → is_last k ≡ false → last_set k (computed cwd path) ≡ none
unfolding computed
last_set-computed k cwd path h = elim (Bool-cases (is_empty cwd)) [
  | inl e ↦ rw e (ground arith)
  | inr e ↦ rw e (ground arith)
]

last_set-path : (cwd path : Bytes) → last_set path_name (computed cwd path) ≡ some (until 0 path)
unfolding computed
last_set-path cwd path = elim (Bool-cases (is_empty cwd)) [ inl e ↦ rw e | inr e ↦ rw e ]

-- What the user's entry gives for a variable.
abbrev pub of_user : Passwd → Bytes → Option Bytes
of_user pw k =
    if bytes_eq (codes "USER") k
    then some (until 0 pw.pw_name)
    else if bytes_eq (codes "HOME") k
    then some (until 0 pw.pw_dir)
    else none

-- What the first two settings add to the value of the later ones.
abbrev behind_user : Passwd → Bytes → Option Bytes → Option Bytes
behind_user pw k o =
    let home = if names k (codes "HOME") then some (until 0 pw.pw_dir) else none in
    let user = if names k (codes "USER") then some (until 0 pw.pw_name) else none in
    let later : Option Bytes = elim o [ none ↦ user | some w ↦ some w ] in
    elim later [ none ↦ home | some w ↦ some w ]

behind_user_lem :
    (pw : Passwd) (k : Bytes) (o : Option Bytes) → behind_user pw k o ≡ or o (of_user pw k)
behind_user_lem pw k (some w) = refl
behind_user_lem pw k none = elim (Bool-cases (bytes_eq (codes "USER") k)) [
  | inl e ↦ rw e refl
  | inr e ↦ rw e refl
]

kept_or : (o : Option Bytes) → (elim o [ none ↦ none | some w ↦ some w ]) ≡ o
kept_or none = refl
kept_or (some w) = refl

last_set-named_only :
    (E : Ei) (k : Bytes) (kvs : List (Bytes × Bytes))
    → last_set k (named_only E kvs) ≡ last_set k kvs
last_set-named_only E k [] = refl
last_set-named_only E k (([], v) ∷ kvs) =
    last_set-named_only E k kvs ∙ sym (kept_or (last_set k kvs))
last_set-named_only E k ((c ∷ s, v) ∷ kvs) =
    ap (λ o. elim o [ none ↦ if names k (c ∷ s) then some (until 0 v) else none | some w ↦ some w ])
      (last_set-named_only E k kvs)

last_set-pwd :
    (cwd path : Bytes)
    → last_set pwd_name (computed cwd path) ≡ (if is_empty cwd then none else some (until 0 cwd))
unfolding computed
last_set-pwd cwd path = elim (Bool-cases (is_empty cwd)) [ inl e ↦ rw e | inr e ↦ rw e ]

or_workdir :
    (cwd : Bytes) (o v : Option Bytes)
    → o ≡ v
    → or (if is_empty cwd then none else some (until 0 cwd)) o
      ≡ (if is_empty cwd then v else some (until 0 cwd))
or_workdir cwd o v e = ground (arith, e)

or_assoc : (a b c : Option Bytes) → or (or a b) c ≡ or a (or b c)
or_assoc none b c = refl
or_assoc (some v) b c = refl

module _ (E : Ei) (pw : Passwd) (job : Job E.Buf) (ctrl_path : Bytes) (exe : Option Bytes)
    (e : Environment) where
  last_set-own : (k : Bytes) → last_set k (own E pw job) ≡ or (last_set k job.env) (of_user pw k)
  last_set-own k =
      ap (behind_user pw k) (last_set-named_only E k job.env)
      ∙ behind_user_lem pw k (last_set k job.env)

  -- What a variable has behind the exports.
  abbrev pub given : Bytes → Option Bytes
  given k =
      or (last_set k (exports E job ctrl_path))
        (or (last_set k job.env) (or (of_user pw k) (lookup k e)))

  given_lem :
      (k : Bytes)
      → lookup k (set_all (exports E job ctrl_path) (set_all (own E pw job) e)) ≡ given k
  given_lem k =
      lookup-set_all k (exports E job ctrl_path) (set_all (own E pw job) e)
      ∙ ap (or (last_set k (exports E job ctrl_path))) (
          lookup-set_all k (own E pw job) e
          ∙ (ap (λ o. or o (lookup k e)) (last_set-own k)
              ∙ or_assoc (last_set k job.env) (of_user pw k) (lookup k e)))

  -- The variables of the job's process. Each but PATH and PWD has the value that SWM exports, if it
  -- exports one; else the last that the job gives for it; else, for HOME and USER, the user's; else the
  -- inherited one. PATH is, with colons between them, the working directory, unless that is empty, the
  -- directories of SWM, and the path that the rules give, unless that is empty or missing. PWD is the
  -- working directory, or if that is empty what the rules give. A name that is empty or has `=` in it
  -- gives nothing, and a value ends at its first zero byte.
  pub lookup-set_env :
      (k : Bytes)
      → is_last k ≡ false
      → (lookup k (set_env E pw job ctrl_path exe e) ≡ given k)
        × (lookup path_name (set_env E pw job ctrl_path exe e)
            ≡ some (
                until 0
                  (join b':' (search_path job.workdir (swm_path_dirs exe) (given path_name)))))
        × (lookup pwd_name (set_env E pw job ctrl_path exe e)
            ≡ (if is_empty job.workdir then given pwd_name else some (until 0 job.workdir)))
  unfolding set_env
  lookup-set_env k h =
      let f = set_all (exports E job ctrl_path) (set_all (own E pw job) e) in
      let old = lookup path_name f in
      let path = job_path job.workdir (swm_path_dirs exe) in
      (
        lookup-set_all k (computed job.workdir (path old)) f
            ∙ (ap (λ o. or o (lookup k f)) (last_set-computed k job.workdir (path old) h)
                ∙ given_lem k),
        lookup-set_all path_name (computed job.workdir (path old)) f
            ∙ (ap (λ o. or o old) (last_set-path job.workdir (path old))
                ∙ (ap (λ o. some (until 0 (path o))) (given_lem path_name)
                    ∙ ap (λ p. some (until 0 p)) (path-join job.workdir exe (given path_name)))),
        lookup-set_all pwd_name (computed job.workdir (path old)) f
            ∙ (ap (λ o. or o (lookup pwd_name f)) (last_set-pwd job.workdir (path old))
                ∙ or_workdir job.workdir (lookup pwd_name f) (given pwd_name) (given_lem pwd_name)),
      )
