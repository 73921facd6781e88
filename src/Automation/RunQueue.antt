-- ===== src/Automation/RunQueue.antt =====
-- `runQueue` of automation/run_queue.go: the queue under its own lock, and the cancel functions with
-- the lock `clk`, which one branch of the listener leaves held. A function of a run is of the type
-- `F`; the goroutines that publish are left out.
pub mod Order
pub mod Blocking
use repo_4636_qri.Prelude.{
  ℕ, suc, Bool, true, false, not, Option, none, some, List, [], ◌∷◌, ◌++◌, Text, text_eq,
  if◌then◌else◌, Outcome, ok, err, panic,
}

pub data QueueError : Type 0 where
  empty_queue : QueueError

module _ (F : Type 0) where
  pub record RunQueueInfo : Type 0 where
    pub owner_id : Text
    pub run_id : Text
    pub mode : Text
    pub f : F

  abbrev pub Queue : Type 0
  Queue = List RunQueueInfo

  unfoldable pub push : Text → Text → Text → F → Queue → Queue
  push owner_id run_id mode f queue =
      queue ++ record { owner_id = owner_id; run_id = run_id; mode = mode; f = f } ∷ []

  unfoldable pub pop : Queue → Outcome QueueError (RunQueueInfo × Queue)
  pop [] = err empty_queue
  pop (info ∷ queue) = ok (info, queue)

  -- What callers of the queue do, one after the other as they get its lock.
  pub data Action : Type 0 where
    pushes : RunQueueInfo → Action
    pops : Action

  abbrev push_info : RunQueueInfo → Queue → Queue
  push_info i queue = push i.owner_id i.run_id i.mode i.f queue

  abbrev popped_first : RunQueueInfo → Queue × Queue → Queue × Queue
  popped_first i (popped, rest) = (i ∷ popped, rest)

  -- The runs that the pops of a sequence return, in order, and the queue after it. A pop of an empty
  -- queue returns none: the poller goes on.
  unfoldable pub after_actions : List Action → Queue → Queue × Queue
  unfolding push pop
  after_actions [] queue = ([], queue)
  after_actions (pushes i ∷ acts) queue = after_actions acts (push_info i queue)
  after_actions (pops ∷ acts) queue = elim (pop queue) [
    | err e ↦ after_actions acts queue
    | panic ↦ ([], [])
    | ok (i, rest) ↦ popped_first i (after_actions acts rest)
  ]

-- The map of cancel functions by its keys, whether `clk` is held, and the functions called.
pub record Cancels : Type 0 where
  pub runs : List Text
  pub held : Bool
  pub called : List Text

unfoldable pub has_run : Text → List Text → Bool
has_run i [] = false
has_run i (r ∷ runs) = let rest = has_run i runs in if text_eq i r then true else rest

unfoldable pub without_run : Text → List Text → List Text
without_run i [] = []
without_run i (r ∷ runs) = let rest = without_run i runs in if text_eq i r then rest else r ∷ rest

-- `none`: the call waits for the lock.
unfoldable pub add_run_cancel : Text → Cancels → Option Cancels
unfolding without_run
add_run_cancel i s = if s.held then none else some (record s { runs = i ∷ without_run i s.runs })

unfoldable pub remove_run_cancel : Text → Cancels → Option Cancels
unfolding without_run
remove_run_cancel i s = if s.held then none else some (record s { runs = without_run i s.runs })

-- What `listenForCancelations` does with one id: the `continue` leaves the lock held.
unfoldable pub receive_cancelation : Text → Cancels → Option Cancels
unfolding has_run
receive_cancelation i s =
    if s.held
    then none
    else if not (has_run i s.runs)
    then some (record s { held = true })
    else some (record s { called = s.called ++ i ∷ [] })
