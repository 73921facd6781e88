-- ===== src/Collection/Viewing.antt =====
-- A set as the function that `Get` shows: what each operation does to it, and to the ids.
use repo_4636_qri.Prelude.{
  ◌≡◌, refl, sym, ap, subst, ◌∙◌, inl, inr, false, Option, none, some, List, [], ◌∷◌, map, Text,
  text_eq, text_eq_iff, if◌then◌else◌, Bool-cases, Option-cases, arith,
}
use mathlib.Core.Option
use repo_4636_qri.Prelude.Dict.{Pair, lookup, insert, lookup-insert_same, lookup-insert_other}
use repo_4636_qri.Dsref.VersionInfo.{VersionInfo}
use repo_4636_qri.Collection.{Infos, Collections, find, items_of}
use repo_4636_qri.Collection.Ids.{ids, times, IsUnique, find-has_id}
use repo_4636_qri.Collection.Updates.Walking.{shape}
use repo_4636_qri.Collection.Updates.Saving.{change_all}

-- The version with an id in the collection of a profile.
abbrev pub look : Text → Text → Collections → Option VersionInfo
look q k cs = elim (lookup q cs) [ none ↦ none | some col ↦ find k col ]

-- In each collection the ids are unique and not empty.
abbrev pub AllUnique : List (Pair (List Text)) → Type 0
AllUnique [] = Unit
AllUnique (p ∷ ps) = IsUnique p.value × AllUnique ps

abbrev pub IsSound : Collections → Type 0
IsSound cs = AllUnique (shape cs)

pub IsSound-items_of :
    (pid : Text) (cs : Collections) → IsSound cs → IsUnique (ids (items_of pid cs))
unfolding lookup times
IsSound-items_of pid [] h = λ id. omega arith
IsSound-items_of pid (p ∷ ps) h = elim (Bool-cases (text_eq p.key pid)) [
  | inl e ↦ rw (e, items_of) h.0
  | inr e ↦ rw (e, items_of) (IsSound-items_of pid ps h.1)
]

pub insert-IsSound :
    (pid : Text) (col : Infos) (cs : Collections)
    → IsUnique (ids col)
    → IsSound cs
    → IsSound (insert pid col cs)
unfolding insert
insert-IsSound pid col [] u h = (u, tt)
insert-IsSound pid col (p ∷ ps) u h = elim (Bool-cases (text_eq p.key pid)) [
  | inl e ↦ rw e (u, h.1)
  | inr e ↦ rw e (h.0, insert-IsSound pid col ps u h.1)
]

pub look-insert :
    (pid q k : Text) (col : Infos) (cs : Collections)
    → look q k (insert pid col cs) ≡ (if text_eq pid q then find k col else look q k cs)
look-insert pid q k col cs = elim (Bool-cases (text_eq pid q)) [
  | inl e ↦ rw e (
      subst (λ r. look r k (insert pid col cs) ≡ find k col) ((text_eq_iff pid q).0 e)
        (rw (lookup-insert_same pid col cs, look) refl))
  | inr e ↦ rw (e, lookup-insert_other pid q col cs e, look) refl
]

pub find-items_of : (pid k : Text) (cs : Collections) → find k (items_of pid cs) ≡ look pid k cs
unfolding find
find-items_of pid k cs = elim (Option-cases (lookup pid cs)) [
  | inl e ↦ rw (e, look, items_of) refl
  | inr (col, e) ↦ rw (e, look, items_of) refl
]

-- A change of every version that keeps its id is one of what is found.
module _ (g : VersionInfo → VersionInfo)
    (keeps : (vi : VersionInfo) → (g vi).init_id ≡ vi.init_id) where
  find-map : (k : Text) (vis : Infos) → find k (map g vis) ≡ Option.map g (find k vis)
  unfolding find
  find-map k [] = refl
  find-map k (vi ∷ vis) =
      let e = ap (λ t. text_eq t k) (keeps vi) in
      elim (Bool-cases (text_eq vi.init_id k)) [
        | inl t ↦ rw (e, t) refl
        | inr t ↦ rw (e, t) (find-map k vis)
      ]

  pub look-map :
      (q k : Text) (cs : Collections)
      → look q k (map (λ p. record { key = p.key; value = map g p.value }) cs)
        ≡ Option.map g (look q k cs)
  unfolding lookup
  look-map q k [] = refl
  look-map q k (p ∷ ps) = elim (Bool-cases (text_eq p.key q)) [
    | inl t ↦ rw (t, look) (find-map k p.value)
    | inr t ↦ rw (t, look) (look-map q k ps)
  ]

look-has_id :
    (q k : Text) (cs : Collections) {vi : VersionInfo} → look q k cs ≡ some vi → vi.init_id ≡ k
look-has_id q k cs h = elim (Option-cases (lookup q cs)) [
  | inl e ↦ cc (rw (e, look) at h)
  | inr (col, e) ↦ find-has_id k col (rw (e, look) at h)
]

-- The versions with the id change, and no others.
pub look-change_all :
    (f : VersionInfo → VersionInfo) (id q k : Text) (cs : Collections)
    → ((vi : VersionInfo) → vi.init_id ≡ id → (f vi).init_id ≡ vi.init_id)
    → look q k (change_all f id cs)
      ≡ (if text_eq id k then Option.map f (look q k cs) else look q k cs)
look-change_all f id q k cs keeps =
    let g = λ (vi : VersionInfo). if text_eq vi.init_id id then f vi else vi in
    look-map g (changed-init_id f id keeps) q k cs ∙ elim (Option-cases (look q k cs)) [
      | inl e ↦ elim (Bool-cases (text_eq id k)) [ inl t ↦ rw (e, t) refl | inr t ↦ rw (e, t) refl ]
      | inr (vi, e) ↦
          let has = look-has_id q k cs e in
          elim (Bool-cases (text_eq id k)) [
            | inl t ↦
                let same = (text_eq_iff vi.init_id id).1 (has ∙ sym ((text_eq_iff id k).0 t)) in
                rw (e, t, same) refl
            | inr t ↦
                let other : text_eq vi.init_id id ≡ false =
                  ground (arith, text_eq_iff vi.init_id id, text_eq_iff id k, has, t) in
                rw (e, t, other) refl
          ]
    ]
  where
    changed-init_id :
        (f : VersionInfo → VersionInfo) (id : Text)
        → ((vi : VersionInfo) → vi.init_id ≡ id → (f vi).init_id ≡ vi.init_id)
        → (vi : VersionInfo) → (if text_eq vi.init_id id then f vi else vi).init_id ≡ vi.init_id
    changed-init_id f id keeps vi = elim (Bool-cases (text_eq vi.init_id id)) [
      | inl e ↦ rw e (keeps vi ((text_eq_iff vi.init_id id).0 e))
      | inr e ↦ rw e refl
    ]
