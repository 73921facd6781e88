-- ===== src/Automation/RunQueue/Blocking.antt =====
-- A cancelation of a run that is not running blocks the queue.
use repo_4636_qri.Prelude.{◌≡◌, refl, true, false, none, some, Text, arith}
use repo_4636_qri.Automation.RunQueue.{
  Cancels, has_run, add_run_cancel, remove_run_cancel, receive_cancelation,
}

-- One call that got the lock.
pub data Step (s t : Cancels) : Type 0 where
  adds : (i : Text) → add_run_cancel i s ≡ some t → Step s t
  removes : (i : Text) → remove_run_cancel i s ≡ some t → Step s t
  receives : (i : Text) → receive_cancelation i s ≡ some t → Step s t

pub data Reaches : Cancels → Cancels → Type 0 where
  stay : {s : Cancels} → Reaches s s
  step : {s t u : Cancels} → Step s t → Reaches t u → Reaches s u

no_step : (s t : Cancels) → s.held ≡ true → Step s t → ⊥
no_step s t h (adds i e) = unfold add_run_cancel in ground (arith, h, e)
no_step s t h (removes i e) = unfold remove_run_cancel in ground (arith, h, e)
no_step s t h (receives i e) = unfold receive_cancelation in ground (arith, h, e)

held-Reaches : {s u : Cancels} → s.held ≡ true → Reaches s u → u.held ≡ true
held-Reaches h stay = h
held-Reaches h (step {s} {t} p r) = absurd (no_step s t h p)

locked :
    (i : Text) (s t : Cancels)
    → has_run i s.runs ≡ false
    → receive_cancelation i s ≡ some t
    → t.held ≡ true
unfolding receive_cancelation
locked i s t n e = ground (arith, n, e)

-- After the listener has received the id of a run without a cancel function, in every state that is
-- reached adding and removing a cancel function and receiving an id all wait for the lock.
pub receive_cancelation-blocks :
    (i j : Text) (s t u : Cancels)
    → has_run i s.runs ≡ false
    → receive_cancelation i s ≡ some t
    → Reaches t u
    → (add_run_cancel j u ≡ none)
      × (remove_run_cancel j u ≡ none)
      × (receive_cancelation j u ≡ none)
unfolding receive_cancelation add_run_cancel remove_run_cancel
receive_cancelation-blocks i j s t u n e r =
    let h = held-Reaches (locked i s t n e) r in (rw h refl, rw h refl, rw h refl)
