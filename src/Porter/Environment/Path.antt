-- ===== src/Porter/Environment/Path.antt =====
-- PATH of the job's process, directory by directory.
use swm_core.Prelude.{
  ◌||◌, false, List, [], ◌∷◌, ◌++◌, is_empty, Option, none, some, if◌then◌else◌, ◌≡◌, refl, sym,
  ◌∙◌, ap, arith, Bytes, bytes_eq, until, join, append_assoc, append-nil, Bool-cases, Option-cases,
  inl, inr,
}
use swm_core.Porter.Text.{rfind}
use swm_core.Porter.Environment.{swm_bin, colon, add_dirs, swm_path_dirs, job_path}

join-append :
    (p a : Bytes) (ds : List Bytes)
    → join b':' ((p ++ b':' ∷ a) ∷ ds) ≡ p ++ b':' ∷ join b':' (a ∷ ds)
join-append p a [] = refl
join-append p a (d ∷ ds) = append_assoc p (b':' ∷ a) (b':' ∷ join b':' (d ∷ ds))

join_last :
    (p s : Bytes) (ds : List Bytes)
    → join b':' (p ∷ (ds ++ s ∷ [])) ≡ join b':' (p ∷ ds) ++ b':' ∷ s
join_last p s [] = refl
join_last p s (d ∷ ds) =
    ap (λ r. p ++ b':' ∷ r) (join_last d s ds)
    ∙ sym (append_assoc p (b':' ∷ join b':' (d ∷ ds)) (b':' ∷ s))

is_empty-append : (p s : Bytes) → is_empty p ≡ false → is_empty (p ++ s) ≡ false
is_empty-append [] s h = absurd (cc)
is_empty-append (c ∷ p) s h = refl

is_empty-join :
    (p : Bytes) (ds : List Bytes) → is_empty p ≡ false → is_empty (join b':' (p ∷ ds)) ≡ false
is_empty-join p [] h = h
is_empty-join p (d ∷ ds) h = is_empty-append p (b':' ∷ join b':' (d ∷ ds)) h

add_dirs-join :
    (p : Bytes) (ds : List Bytes) → is_empty p ≡ false → add_dirs p ds ≡ join b':' (p ∷ ds)
unfolding add_dirs
add_dirs-join p [] h = refl
add_dirs-join p (a ∷ ds) h =
    rw h (add_dirs-join (p ++ b':' ∷ a) ds (is_empty-append p (b':' ∷ a) h) ∙ join-append p a ds)

-- A text, unless it is empty or missing.
abbrev pub unless_empty : Option Bytes → List Bytes
unless_empty none = []
unless_empty (some []) = []
unless_empty (some (c ∷ s)) = (c ∷ s) ∷ []

-- The directories of PATH in their order.
abbrev pub search_path : Bytes → List Bytes → Option Bytes → List Bytes
search_path workdir dirs old = unless_empty (some workdir) ++ (dirs ++ unless_empty old)

abbrev with_old : Bytes → Option Bytes → Bytes
with_old path old = elim old [ none ↦ path | some s ↦ if is_empty s then path else colon path s ]

with_old-join :
    (p : Bytes) (ds : List Bytes) (old : Option Bytes)
    → is_empty p ≡ false
    → with_old (join b':' (p ∷ ds)) old ≡ join b':' (p ∷ (ds ++ unless_empty old))
with_old-join p ds none h = ap (λ xs. join b':' (p ∷ xs)) (sym (append-nil ds))
with_old-join p ds (some []) h = ap (λ xs. join b':' (p ∷ xs)) (sym (append-nil ds))
with_old-join p ds (some (c ∷ s)) h = rw (is_empty-join p ds h) (sym (join_last p (c ∷ s) ds))

job_path-join :
    (workdir : Bytes) (dirs : List Bytes) (old : Option Bytes)
    → job_path workdir (swm_bin ∷ dirs) old ≡ join b':' (search_path workdir (swm_bin ∷ dirs) old)
unfolding job_path add_dirs
job_path-join [] dirs old =
    ap (λ path. with_old path old) (add_dirs-join swm_bin dirs refl)
    ∙ with_old-join swm_bin dirs old refl
job_path-join (c ∷ w) dirs old =
    ap (λ path. with_old path old) (add_dirs-join (c ∷ w) (swm_bin ∷ dirs) refl)
    ∙ with_old-join (c ∷ w) (swm_bin ∷ dirs) old refl

-- /opt/swm/current/bin comes first.
swm_path_dirs-head : (exe : Option Bytes) → (ds : List Bytes) × (swm_path_dirs exe ≡ swm_bin ∷ ds)
unfolding swm_path_dirs
swm_path_dirs-head none = ([], refl)
swm_path_dirs-head (some exe) = elim (Option-cases (rfind b'/' (until 0 exe))) [
  | inl e ↦ ([], rw (e, swm_path_dirs))
  | inr ((dir, rest), e) ↦ elim (Bool-cases (is_empty dir || bytes_eq dir swm_bin)) [
    | inl known ↦ ([], rw (e, swm_path_dirs) (ground arith))
    | inr other ↦ (dir ∷ [], rw (e, swm_path_dirs) (ground arith))
  ]
]

pub path-join :
    (workdir : Bytes) (exe old : Option Bytes)
    → job_path workdir (swm_path_dirs exe) old
      ≡ join b':' (search_path workdir (swm_path_dirs exe) old)
path-join workdir exe old =
    let (ds, e) = swm_path_dirs-head exe in
    ap (λ dirs. job_path workdir dirs old) e
    ∙ (job_path-join workdir ds old ∙ ap (λ dirs. join b':' (search_path workdir dirs old)) (sym e))
