-- ===== src/Collection/Maintainer/Meaning.antt =====
-- The closures of the handler, against what they mean for a version.
use repo_4636_qri.Prelude.{
  suc, zero, ◌≡◌, refl, sym, ap, ◌∙◌, inl, inr, true, Text, text_eq, text_eq_iff, is_empty,
  Bool-cases, arith,
}
use repo_4636_qri.Prelude.Int.{ℤ, pos, negsuc, ◌+ℤ◌, ◌-ℤ◌}
use repo_4636_qri.Dsref.VersionInfo.{VersionInfo}
use repo_4636_qri.Collection.Updates.{renamed}
use repo_4636_qri.Collection.Maintainer.{commit_mutate, lowered}
use repo_4636_qri.Collection.Maintainer.Effect.{committed, up, down, owned_by, HasRun}

-- What the closure of a commit makes of a version.
abbrev pub replaced : VersionInfo → VersionInfo → VersionInfo
replaced vi m = (commit_mutate vi m).1

pub replaced-committed : (vi m : VersionInfo) → replaced vi m ≡ committed vi m
unfolding commit_mutate
replaced-committed vi m = elim (Bool-cases (is_empty vi.run_id)) [
  | inl e ↦ rw e refl
  | inr e ↦ rw e refl
]

pub replaced-again :
    (vi r m m' : VersionInfo)
    → HasRun vi r m
    → HasRun vi r m'
    → replaced (replaced vi m) m' ≡ replaced vi m'
unfolding commit_mutate
replaced-again vi r m m' (inl f) b = rw (f, f) refl
replaced-again vi r m m' (inr a) (inl f) = rw (f, f) refl
replaced-again vi r m m' (inr a) (inr b) = elim (Bool-cases (is_empty vi.run_id)) [
  | inr e ↦ rw (e, e) refl
  | inl e ↦ elim (Bool-cases (is_empty m.run_id)) [
    | inl t ↦ rw (e, t) refl
    | inr t ↦
        rw (e, t)
          (λ i. record vi {
            workflow_id = m'.workflow_id;
            run_id = (sym a.0 ∙ b.0) i;
            run_status = (sym a.1 ∙ b.1) i;
            run_duration = (sym a.2 ∙ b.2) i;
            run_start = (sym a.3 ∙ b.3) i;
            run_count = m'.run_count;
            download_count = m'.download_count;
            follower_count = m'.follower_count;
            open_issue_count = m'.open_issue_count;
          })
  ]
]

pub +ℤ-up : (n : ℤ) → n +ℤ pos 1 ≡ up n
unfolding ◌+ℤ◌
+ℤ-up (pos n) = ground arith
+ℤ-up (negsuc zero) = ground arith
+ℤ-up (negsuc (suc n)) = ground arith

pub lowered-down : (n : ℤ) → lowered n ≡ down n
unfolding ◌-ℤ◌
lowered-down (pos zero) = refl
lowered-down (pos (suc n)) = ground arith
lowered-down (negsuc n) = ground arith

pub renamed-owned_by :
    (profile_id name : Text) (vi : VersionInfo)
    → renamed profile_id name vi ≡ owned_by profile_id name vi
renamed-owned_by profile_id name vi = elim (Bool-cases (text_eq vi.profile_id profile_id)) [
  | inr e ↦ rw e refl
  | inl e ↦ elim (Bool-cases (text_eq vi.username name)) [
    | inr f ↦ rw (e, f) refl
    | inl f ↦
        let g : text_eq vi.username name ≡ true = f in
        rw (e, f) (ap (λ u. record vi { username = u }) ((text_eq_iff vi.username name).0 g))
  ]
]
