-- ===== src/Oplog/Journal/Authors.antt =====
-- `GetAuthorID` over logs with the same entries.
use repo_4636_qri.Prelude.{
  ℕ, ◌≡◌, refl, sym, ap, ◌∙◌, inl, inr, true, false, Text, text_eq, Outcome, ok, err, panic, ◌>>=◌,
  Outcome-cases, ok_injective, err_not_ok, panic_not_ok, arith, Bool, if◌then◌else◌, ◌==◌,
}
use repo_4636_qri.Oplog.Log.{
  LogError, Entry, Log, Logs, nil, cons, entry, model, first_op_author_id,
}
use repo_4636_qri.Oplog.Journal.{get_author_id, change_author}
use repo_4636_qri.Oplog.Journal.Changing.{SameEntries}

-- The test of one log in `GetAuthorID`.
unfoldable pub is_authored : ℕ → Text → Entry → Outcome LogError Bool
is_authored m a e = model e >>= λ lm.
    if lm == m then (first_op_author_id e >>= λ la. ok (text_eq la a)) else ok false

pub get_author_id-first :
    (m : ℕ) (a : Text) (x : Log) (ls : Logs)
    → is_authored m a (entry x) ≡ ok true
    → get_author_id m a (cons x ls) ≡ ok x
unfolding get_author_id is_authored
get_author_id-first m a x ls h = ground (arith, h)

pub change_author-first :
    (f : Log → Outcome LogError Log) (m : ℕ) (a : Text) (x y : Log) (ls : Logs)
    → is_authored m a (entry x) ≡ ok true
    → f x ≡ ok y
    → change_author f m a (cons x ls) ≡ ok (cons y ls)
unfolding change_author is_authored
change_author-first f m a x y ls h e = ground (arith, h, e)

get_author_id-later :
    (m : ℕ) (a : Text) (x : Log) (ls : Logs)
    → is_authored m a (entry x) ≡ ok false
    → get_author_id m a (cons x ls) ≡ get_author_id m a ls
unfolding get_author_id is_authored
get_author_id-later m a x ls h = ground (arith, h)

get_author_id-err :
    (m : ℕ) (a : Text) (x : Log) (ls : Logs) (e : LogError)
    → is_authored m a (entry x) ≡ err e
    → get_author_id m a (cons x ls) ≡ err e
unfolding get_author_id is_authored
get_author_id-err m a x ls e h = ground (arith, h)

get_author_id-panic :
    (m : ℕ) (a : Text) (x : Log) (ls : Logs)
    → is_authored m a (entry x) ≡ panic
    → get_author_id m a (cons x ls) ≡ panic
unfolding get_author_id is_authored
get_author_id-panic m a x ls h = ground (arith, h)

-- A user log that was found by its author is found after the change, with the same entry.
pub record FoundAuthor (m : ℕ) (a : Text) (logs : Logs) (l : Log) : Type 0 where
  pub log : Log
  pub found : get_author_id m a logs ≡ ok log
  pub same : entry log ≡ entry l

pub get_author_id-SameEntries :
    (m : ℕ) (a : Text) (ls ms : Logs) (l : Log)
    → SameEntries ls ms
    → get_author_id m a ls ≡ ok l
    → FoundAuthor m a ms l
get_author_id-SameEntries m a nil nil l s h = record { log = l; found = h; same = refl }
get_author_id-SameEntries m a nil (cons y ms) l s h = absurd s
get_author_id-SameEntries m a (cons x ls) nil l s h = absurd s
get_author_id-SameEntries m a (cons x ls) (cons y ms) l (same, s) h =
    elim (Outcome-cases (is_authored m a (entry x))) [
      | inl (true, e) ↦ record {
        log = y;
        found = get_author_id-first m a y ms (ap (is_authored m a) same ∙ e);
        same = same ∙ ap entry (ok_injective (sym (get_author_id-first m a x ls e) ∙ h));
      }
      | inl (false, e) ↦
          let r =
            get_author_id-SameEntries m a ls ms l s (sym (get_author_id-later m a x ls e) ∙ h) in
          record {
            log = r.log;
            found = get_author_id-later m a y ms (ap (is_authored m a) same ∙ e) ∙ r.found;
            same = r.same;
          }
      | inr (inl (e, bad)) ↦ absurd (err_not_ok (sym (get_author_id-err m a x ls e bad) ∙ h))
      | inr (inr bad) ↦ absurd (panic_not_ok (sym (get_author_id-panic m a x ls bad) ∙ h))
    ]
