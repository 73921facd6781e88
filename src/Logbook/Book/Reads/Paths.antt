-- ===== src/Logbook/Book/Reads/Paths.antt =====
-- The paths of `addReferencedPaths` against the versions of `branchToVersionInfos`.
use repo_4636_qri.Prelude.{
  ℕ, zero, suc, ◌-◌, ◌≤◌, ◌≡◌, refl, sym, ap, subst, ◌∙◌, Bool, true, false, List, [], ◌∷◌, ◌++◌,
  Text, if◌then◌else◌, ◌==◌, ltb, leb, length, take, set, take_all, length-append, Outcome, ok, err,
  panic, ◌>>=◌, arith,
}
use repo_4636_qri.Prelude.Int.{pos}
use repo_4636_qri.Dsref.Ref.{Ref}
use repo_4636_qri.Dsref.VersionInfo.{VersionInfo}
use repo_4636_qri.Oplog.Op.{Op}
use repo_4636_qri.Oplog.Log.{LogError}
use repo_4636_qri.Logbook.Models.{run_model}
use repo_4636_qri.Logbook.History.{
  publish, commit_op_run_id, version_info_from_op, branch_to_version_infos,
}
use repo_4636_qri.Logbook.History.Stack.{Versions, save, amend, pop, mark, stack_op, stack_ops}
use repo_4636_qri.Logbook.History.Refines.{branch_to_version_infos-stack}
use repo_4636_qri.Logbook.Book.{BookError}
use repo_4636_qri.Logbook.Book.Commits.Counting.{
  next_count, NoRuns, NoRunIds, Counted, stack_op-Counted, joins_run-none,
}
use repo_4636_qri.Logbook.Book.Reads.{path_op, path_ops}

-- The paths of the versions, oldest first.
abbrev pub paths_of : Versions → List Text
paths_of [] = []
paths_of (v ∷ vs) = paths_of vs ++ v.path ∷ []

set-append_last :
    (ps : List Text) (x y : Text) → set (ps ++ x ∷ []) (length (ps ++ x ∷ []) - 1) y ≡ ps ++ y ∷ []
set-append_last ps x y =
    set_at ps x y (length (ps ++ x ∷ []) - 1) (omega (arith, length-append ps (x ∷ [])))
  where
    set_at :
        (ps : List Text) (x y : Text) (n : ℕ)
        → n ≡ length ps
        → set (ps ++ x ∷ []) n y ≡ ps ++ y ∷ []
    set_at [] x y n h = rw h refl
    set_at (p ∷ ps) x y n h = rw h (ap (λ r. p ∷ r) (set_at ps x y (length ps) refl))

take-append_front :
    (n : ℕ) (ps : List Text) (x : Text) → n ≤ length ps → take n (ps ++ x ∷ []) ≡ take n ps
take-append_front zero ps x h = refl
take-append_front (suc n) [] x h = absurd (omega arith)
take-append_front (suc n) (p ∷ ps) x h = ap (λ r. p ∷ r) (take-append_front n ps x (omega arith))

-- If versions are returned, their paths are the paths of the second call.
abbrev HasPaths : Outcome LogError Versions → Outcome BookError (List Text) → Type 0
HasPaths (ok vs) p = p ≡ ok (paths_of vs)
HasPaths (err e) p = Unit
HasPaths panic p = Unit

cut : ℕ → List Text → Outcome BookError (List Text)
cut n ps = if leb n (length ps) then ok (take (length ps - n) ps) else panic

replace_last : Text → List Text → Outcome BookError (List Text)
replace_last t ps = if ltb 0 (length ps) then ok (set ps (length ps - 1) t) else panic

cut-snoc : (n : ℕ) (ps : List Text) (x : Text) → cut (suc n) (ps ++ x ∷ []) ≡ cut n ps
unfolding cut
cut-snoc n ps x = cut_at (length (ps ++ x ∷ [])) (omega (arith, length-append ps (x ∷ [])))
  where
    cut_at :
        (k : ℕ)
        → k ≡ suc (length ps)
        → Path
            (Outcome BookError (List Text))
            (if leb (suc n) k then ok (take (k - suc n) (ps ++ x ∷ [])) else panic)
            (if leb n (length ps) then ok (take (length ps - n) ps) else panic)
    cut_at k h = ground (arith, h, take-append_front (length ps - n) ps x (omega arith))

replace_last-snoc :
    (t : Text) (ps : List Text) (x : Text) → replace_last t (ps ++ x ∷ []) ≡ ok (ps ++ t ∷ [])
unfolding replace_last
replace_last-snoc t ps x =
    rw (set-append_last ps x t)
      (found (length (ps ++ x ∷ [])) (omega (arith, length-append ps (x ∷ []))))
  where
    found :
        (k : ℕ)
        → 1 ≤ k
        → Path
            (Outcome BookError (List Text))
            (if ltb 0 k then ok (ps ++ t ∷ []) else panic)
            (ok (ps ++ t ∷ []))
    found k h = ground arith

pop-HasPaths : (n : ℕ) (vs : Versions) → HasPaths (pop n vs) (cut n (paths_of vs))
unfolding pop
pop-HasPaths zero vs = cut_none (paths_of vs)
  where
    cut_none : (ps : List Text) → cut 0 ps ≡ ok ps
    cut_none ps = unfold cut in ground (arith, take_all (length ps) ps (omega arith))
pop-HasPaths (suc n) [] = tt
pop-HasPaths (suc n) (v ∷ vs) =
    subst (HasPaths (pop n vs)) (sym (cut-snoc n (paths_of vs) v.path)) (pop-HasPaths n vs)

amend-HasPaths :
    (ref : Ref) (op : Op) (vs : Versions)
    → HasPaths (amend ref op vs) (replace_last op.ref (paths_of vs))
unfolding amend version_info_from_op
amend-HasPaths ref op [] = tt
amend-HasPaths ref op (v ∷ vs) = replace_last-snoc op.ref (paths_of vs) v.path

save-HasPaths :
    (ref : Ref) (op : Op) (vs : Versions)
    → NoRunIds vs
    → HasPaths (ok (save ref op vs)) (ok (paths_of vs ++ op.ref ∷ []))
unfolding save version_info_from_op
save-HasPaths ref op [] h = refl
save-HasPaths ref op (v ∷ vs) h = rw (joins_run-none (commit_op_run_id op) v h.0) refl

mark-HasPaths : (b : Bool) (n : ℕ) (vs : Versions) → HasPaths (mark b n vs) (ok (paths_of vs))
unfolding mark
mark-HasPaths b zero vs = refl
mark-HasPaths b (suc n) [] = tt
mark-HasPaths b (suc n) (v ∷ vs) = next b v vs (mark b n vs) (mark-HasPaths b n vs)
  where
    next :
        (b : Bool) (v : VersionInfo) (vs : Versions) (m : Outcome LogError Versions)
        → HasPaths m (ok (paths_of vs))
        → HasPaths (m >>= λ r. ok (publish b v ∷ r)) (ok (paths_of (v ∷ vs)))
    next b v vs (ok r) h = ap (λ p. p >>= λ ps. ok (ps ++ v.path ∷ [])) h
    next b v vs (err e) h = tt
    next b v vs panic h = tt

-- One operation: the slice of paths follows the stack of versions.
stack_op-HasPaths :
    (ref : Ref) (op : Op) (vs : Versions)
    → (op.model == run_model) ≡ false
    → NoRunIds vs
    → HasPaths (stack_op ref op vs) (path_op op (paths_of vs))
unfolding stack_op path_op cut replace_last
stack_op-HasPaths ref op vs r h = ground (
  arith,
  save-HasPaths ref op vs h,
  amend-HasPaths ref op vs,
  pop-HasPaths op.size vs,
  mark-HasPaths true op.size vs,
  mark-HasPaths false op.size vs,
)

stack_ops-HasPaths :
    (ref : Ref) (ops : List Op) (vs : Versions)
    → NoRuns ops
    → NoRunIds vs
    → HasPaths (stack_ops ref ops vs) (path_ops ops (paths_of vs))
unfolding stack_ops path_ops
stack_ops-HasPaths ref [] vs r h = refl
stack_ops-HasPaths ref (op ∷ ops) vs r h =
    next (stack_op ref op vs) (path_op op (paths_of vs)) (stack_op-HasPaths ref op vs r.0 h)
      (stack_op-Counted ref op vs r.0 h) (λ ws. stack_ops-HasPaths ref ops ws r.1)
  where
    next :
        (m : Outcome LogError Versions) (p : Outcome BookError (List Text))
        → HasPaths m p
        → Counted (next_count (pos (length vs)) op) m
        → ((ws : Versions)
            → NoRunIds ws
            → HasPaths (stack_ops ref ops ws) (path_ops ops (paths_of ws)))
        → HasPaths (m >>= stack_ops ref ops) (p >>= path_ops ops)
    next (ok ws) p e c ih =
        subst (λ q. HasPaths (stack_ops ref ops ws) (q >>= path_ops ops)) (sym e) (ih ws c.1)
    next (err e) p h c ih = tt
    next panic p h c ih = tt

-- For a branch without runs, if `branchToVersionInfos` with every delete collapsed returns the
-- versions, `addReferencedPaths` collects exactly their paths from the operations of the branch.
pub path_ops-paths_of :
    (ref : Ref) (ops : List Op) (vs : Versions)
    → NoRuns ops
    → branch_to_version_infos true ref ops ≡ ok vs
    → path_ops ops [] ≡ ok (paths_of vs)
path_ops-paths_of ref ops vs r h =
    subst (λ m. HasPaths m (path_ops ops [])) (sym (branch_to_version_infos-stack ref ops) ∙ h)
      (stack_ops-HasPaths ref ops [] r tt)
