-- ===== src/Logbook/Book/Datasets/Naming.antt =====
-- A dataset that `WriteDatasetInit` made is found under its name and can be written to.
use repo_4636_qri.Prelude.{
  ◌≡◌, refl, sym, ap, ◌∙◌, inl, inr, true, false, [], ◌∷◌, Text, text_eq, text_eq_refl, is_empty,
  ok, err, Bool-cases, Outcome-cases, err_not_ok, arith,
}
use repo_4636_qri.Dsref.Ref.{empty_ref}
use repo_4636_qri.Dsref.Scan.{is_valid_name, is_alpha_numeric}
use repo_4636_qri.Oplog.Op.{Op}
use repo_4636_qri.Oplog.Log.{
  LogError, not_found, Entry, Log, Logs, node, nil, cons, entry, entry_id, id, find, find_in, name,
  removed, model, first_op_author_id, add_to,
}
use repo_4636_qri.Oplog.Journal.{head_ref, head_ref_in, journal_head_ref}
use repo_4636_qri.Oplog.Journal.Changing.{find-here, find_in-first, find_in-later}
use repo_4636_qri.Oplog.Journal.Authors.{is_authored, get_author_id-first}
use repo_4636_qri.Logbook.Models.{user_model}
use repo_4636_qri.Logbook.Book.{
  Profile, BookError, store, username_required, ref_name_required, lift, user_log,
}
use repo_4636_qri.Logbook.Book.Datasets.{dataset_ref}

abbrev pub snoc : Logs → Log → Logs
snoc nil x = cons x nil
snoc (cons l ls) x = cons l (snoc ls x)

module _ (hash : Op → Text) where
  -- The log is not in the list: it is neither the first, nor below it, nor later.
  pub absent_cons :
      (i : Text) (l : Log) (ls : Logs)
      → find_in hash i (cons l ls) ≡ err not_found
      → (e : LogError) × (find hash i l ≡ err e) × (find_in hash i ls ≡ err not_found)
  unfolding find_in
  absent_cons i l ls h = elim (Outcome-cases (find hash i l)) [
    | inl (x, e) ↦ absurd (err_not_ok (sym h ∙ find_in-first hash i l ls x e))
    | inr (inl (x, e)) ↦ (x, e, sym (find_in-later hash i l ls x e) ∙ h)
    | inr (inr e) ↦ absurd (ground (arith, h, e))
  ]

  pub absent_id :
      (i : Text) (l : Log) (x : LogError)
      → find hash i l ≡ err x
      → text_eq (entry_id hash (entry l)) i ≡ false
  absent_id i l x h = elim (Bool-cases (text_eq (entry_id hash (entry l)) i)) [
    | inl t ↦ absurd (err_not_ok (sym h ∙ find-here hash i l t))
    | inr t ↦ t
  ]

  -- A new log is added as the last child.
  pub add_to-new :
      (l : Log) (kids : Logs)
      → find_in hash (id hash l) kids ≡ err not_found
      → add_to hash l kids ≡ snoc kids l
  unfolding add_to
  add_to-new l nil h = refl
  add_to-new l (cons c ls) h =
      let (x, e, later) = absent_cons (id hash l) c ls h in
      rw (absent_id (id hash l) c x e) (ap (cons c) (add_to-new l ls later))

  pub find_in-snoc :
      (i : Text) (kids : Logs) (l : Log)
      → find_in hash i kids ≡ err not_found
      → find_in hash i (snoc kids l) ≡ find_in hash i (cons l nil)
  find_in-snoc i nil l h = refl
  find_in-snoc i (cons c ls) l h =
      let (x, e, later) = absent_cons i c ls h in
      find_in-later hash i c (snoc ls l) x e ∙ find_in-snoc i ls l later

pub head_ref_in-snoc :
    (n : Text) (kids : Logs) (l : Log)
    → head_ref_in n [] kids ≡ err not_found
    → head_ref_in n [] (snoc kids l) ≡ head_ref_in n [] (cons l nil)
unfolding head_ref_in
head_ref_in-snoc n nil l h = refl
head_ref_in-snoc n (cons x ls) l h = ground (arith, h, head_ref_in-snoc n ls l)

-- The log of the profile is the first of the journal; it has the name of the profile and is not
-- removed.
pub record IsFirstUser (author : Profile) (e : Entry) : Type 0 where
  pub is_user : model e ≡ ok user_model
  pub authored : first_op_author_id e ≡ ok author.id
  pub named : name e ≡ ok author.peername
  pub present : removed e ≡ ok false

pub valid_name-nonempty : (n : Text) → is_valid_name n ≡ true → is_empty n ≡ false
unfolding is_valid_name is_alpha_numeric is_empty
valid_name-nonempty [] h = cc
valid_name-nonempty (c ∷ n) h = refl

pub first_user-authored :
    (author : Profile) (e : Entry)
    → IsFirstUser author e
    → is_authored user_model author.id e ≡ ok true
unfolding is_authored
first_user-authored author e u = rw (u.is_user, u.authored, text_eq_refl author.id) refl

pub user_log-first :
    (author : Profile) (e : Entry) (kids rest : Logs)
    → IsFirstUser author e
    → user_log author.id (cons (node e kids) rest) ≡ ok (node e kids)
unfolding user_log
user_log-first author e kids rest u =
    ap lift
      (get_author_id-first user_model author.id (node e kids) rest (first_user-authored author e u))

pub head_ref-first :
    (author : Profile) (n : Text) (e : Entry) (kids rest : Logs)
    → IsFirstUser author e
    → journal_head_ref (author.peername ∷ n ∷ []) (cons (node e kids) rest) ≡ head_ref_in n [] kids
unfolding journal_head_ref head_ref_in head_ref
head_ref-first author n e kids rest u = rw (u.named, text_eq_refl author.peername, u.present) refl

pub dataset_ref-absent :
    (author : Profile) (n : Text) (e : Entry) (kids rest : Logs)
    → IsFirstUser author e
    → head_ref_in n [] kids ≡ err not_found
    → (x : BookError) × (dataset_ref
          (record empty_ref { username = author.peername; name = n })
          (cons (node e kids) rest)
        ≡ err x)
unfolding dataset_ref
dataset_ref-absent author n e kids rest u h = elim (Bool-cases (is_empty author.peername)) [
  | inl t ↦ (username_required, (rw t refl))
  | inr t ↦ elim (Bool-cases (is_empty n)) [
    | inl m ↦ (ref_name_required, rw (t, m) refl)
    | inr m ↦ (store not_found, rw (t, m, head_ref-first author n e kids rest u, h) refl)
  ]
]
