-- ===== src/Event/Examples.antt =====
-- A bus with three handlers that note their numbers.
use repo_4636_qri.Prelude.{
  ℕ, zero, suc, refl, none, some, List, [], ◌∷◌, ◌++◌, Text, codes, text_eq, is_empty,
}
use repo_4636_qri.Prelude.Int.{pos}
use repo_4636_qri.Prelude.Dict.{lookup, insert}
use repo_4636_qri.Event.{
  Event, Bus, Handler, new_bus, subscribe_types, subscribe_id, subscribe_all, publish,
}
use repo_4636_qri.Event.Order.{Runs, publish-subscribe_types}

-- The handler fails on the payload 0.
abbrev note : ℕ → Handler (List ℕ) ℕ Text
note n e w = (elim e.payload [ zero ↦ some (codes "fails") | suc k ↦ none ], w ++ n ∷ [])

abbrev created : Event ℕ
created = record {
  type = codes "created";
  timestamp = pos 5;
  session_id = codes "s";
  profile_id = codes "p";
  payload = 1;
}

abbrev bus : Bus (List ℕ) ℕ Text
bus = subscribe_all (note 1) (subscribe_id (note 2) (codes "s") new_bus)

publish-subscribe_types_example : Runs created (note 3 ∷ note 3 ∷ note 2 ∷ note 1 ∷ []) [] (
    publish
      (subscribe_types (note 3) (codes "created" ∷ codes "created" ∷ []) bus)
      (codes "created")
      (codes "s")
      1
      (codes "p")
      (pos 5)
      [])
unfolding subscribe_id subscribe_all insert lookup text_eq is_empty
publish-subscribe_types_example =
    publish-subscribe_types (note 3) (codes "created" ∷ codes "created" ∷ []) bus created [] refl
