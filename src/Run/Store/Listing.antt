-- ===== src/Run/Store/Listing.antt =====
-- `List` of the in-memory store of runs: the runs of a workflow, newest first, page by page.
use repo_4636_qri.Prelude.{
  ℕ, suc, ◌+◌, ◌-◌, ◌<◌, ◌≡◌, refl, sym, ap, subst, ◌∙◌, ◌⊎◌, inl, inr, Bool-cases, some, List, [],
  ◌∷◌, ◌++◌, map, Text, ok, panic, ltb, length, take, take_all, take-nil, drop, drop_all,
  length-drop, map-take, map-drop, arith,
}
use mathlib.Core.List.{reverse, reverse-cons}
use repo_4636_qri.Prelude.Int.{pos, negsuc, int_eq, ◌+ℤ◌}
use repo_4636_qri.Prelude.Dict.{lookup}
use repo_4636_qri.Params.{ListParams, is_all, validate_list, no_error}
use repo_4636_qri.Run.State.{State}
use repo_4636_qri.Run.Store.{MemStore, WorkflowMeta, fetch_runs, slice_runs, list_runs}
use repo_4636_qri.Run.Store.Sound.{IsIn, here, there, IsSound}

IsIn-append : (i : Text) (is js : List Text) → IsIn i (is ++ js) → IsIn i is ⊎ IsIn i js
IsIn-append i [] js p = inr p
IsIn-append i (k ∷ is) js here = inl here
IsIn-append i (k ∷ is) js (there q) = elim (IsIn-append i is js q) [
  | inl e ↦ inl (there e)
  | inr r ↦ inr r
]

IsIn-reverse : (i : Text) (is : List Text) → IsIn i (reverse is) → IsIn i is
IsIn-reverse i [] p = elim p [ ]
IsIn-reverse i (k ∷ is) p =
    elim (IsIn-append i (reverse is) (k ∷ []) (subst (IsIn i) (reverse-cons k is) p)) [
      | inl q ↦ there (IsIn-reverse i is q)
      | inr q ↦ only_head i k is q
    ]
  where
    only_head : (i k : Text) (is : List Text) → IsIn i (k ∷ []) → IsIn i (k ∷ is)
    only_head i k is here = here
    only_head i k is (there q) = elim q [ ]

abbrev pub ids_of : List State → List Text
ids_of rs = map (λ r. r.id) rs

fetch_all :
    (s : MemStore) (is : List Text)
    → IsSound s
    → ((i : Text) → IsIn i is → (r : State) × (lookup i s.runs ≡ some r))
    → (rs : List State) × (fetch_runs is s ≡ ok rs) × (ids_of rs ≡ is)
unfolding fetch_runs
fetch_all s [] sound found = ([], refl, refl)
fetch_all s (i ∷ is) sound found =
    let (rs, q, e) = fetch_all s is sound (λ j p. found j (there p)) in
    let (r, f) = found i here in
    (r ∷ rs, rw (f, q, fetch_runs) refl, ground (arith, e, (sound.runs_sound i r f).own_key))

length-ids : (rs : List State) → length (ids_of rs) ≡ length rs
length-ids [] = refl
length-ids (r ∷ rs) = ap suc (length-ids rs)

length-reverse : (is : List Text) → length (reverse is) ≡ length is
length-reverse [] = refl
length-reverse (i ∷ is) = rw (reverse-cons, snoc_length (reverse is) i) (ap suc (length-reverse is))
  where
    snoc_length : (is : List Text) (i : Text) → length (is ++ i ∷ []) ≡ suc (length is)
    snoc_length [] i = refl
    snoc_length (j ∷ is) i = ap suc (snoc_length is i)

-- The runs of a known workflow, newest first, before the page is cut.
list_fetched :
    (s : MemStore) (w : Text) (m : WorkflowMeta) (lp : ListParams)
    → IsSound s
    → lookup w s.workflows ≡ some m
    → validate_list lp ≡ no_error
    → (rs : List State) × (list_runs w lp s ≡ slice_runs lp rs) × (ids_of rs ≡ reverse m.run_ids)
unfolding list_runs slice_runs
list_fetched s w m lp sound h v =
    let t = sound.workflows_sound w m h in
    let (rs, q, e) =
      fetch_all s (reverse m.run_ids) sound
        (λ i p. let (r, f, o) = t.stored i (IsIn-reverse i m.run_ids p) in (r, f)) in
    (rs, rw (v, h, q, list_runs) refl, e)

validate_list-unlimited :
    (lp : ListParams) (k : ℕ)
    → lp.limit ≡ negsuc 0
    → lp.offset ≡ pos k
    → validate_list lp ≡ no_error
unfolding validate_list int_eq
validate_list-unlimited lp k l o = ground (arith, l, o)

slice_runs-unlimited :
    (lp : ListParams) (k : ℕ) (rs : List State)
    → lp.limit ≡ negsuc 0
    → lp.offset ≡ pos (suc k)
    → suc k < length rs
    → slice_runs lp rs ≡ panic
unfolding slice_runs ◌+ℤ◌ is_all int_eq
slice_runs-unlimited lp k rs l o b = ground (arith, l, o)

-- The limit -1 with an offset that is not 0 passes `Validate` and is not `All`: if the offset is
-- below the number of runs of a known workflow of a sound store, `List` slices from the offset to
-- one place before it and panics.
list_runs-panics :
    (s : MemStore) (w : Text) (m : WorkflowMeta) (lp : ListParams) (k : ℕ)
    → IsSound s
    → lookup w s.workflows ≡ some m
    → lp.limit ≡ negsuc 0
    → lp.offset ≡ pos (suc k)
    → suc k < length m.run_ids
    → (validate_list lp ≡ no_error) × (list_runs w lp s ≡ panic)
list_runs-panics s w m lp k sound h l o b =
    let v : validate_list lp ≡ no_error = validate_list-unlimited lp (suc k) l o in
    let (rs, q, e) = list_fetched s w m lp sound h v in
    let size : length rs ≡ length m.run_ids =
      sym (length-ids rs) ∙ ap length e ∙ length-reverse m.run_ids in
    (v, q ∙ slice_runs-unlimited lp k rs l o (omega (arith, size)))

slice_runs-page :
    (lp : ListParams) (n k : ℕ) (rs : List State)
    → lp.limit ≡ pos n
    → lp.offset ≡ pos k
    → slice_runs lp rs ≡ ok (take n (drop k rs))
unfolding slice_runs ◌+ℤ◌ is_all int_eq
slice_runs-page lp n k rs l o =
    let size : length (drop k rs) ≡ length rs - k = length-drop k rs in
    elim (Bool-cases (ltb k (length rs))) [
      | inr past ↦
          let none_left : drop k rs ≡ [] = drop_all k rs (ground (arith, past)) in
          let nothing : take n (drop k rs) ≡ [] = ap (take n) none_left ∙ take-nil n in
          ground (arith, l, o, past, nothing)
      | inl inside ↦ elim (Bool-cases (ltb (length rs) (k + n))) [
        | inl long ↦
            let whole : take (length rs - k) (drop k rs) ≡ take n (drop k rs) =
              take_all (length rs - k) (drop k rs) (omega (arith, size))
              ∙ sym (take_all n (drop k rs) (ground (arith, size, long))) in
            ground (arith, l, o, inside, long, whole)
        | inr short ↦
            let width : k + n - k ≡ n = omega arith in
            let page : take (k + n - k) (drop k rs) ≡ take n (drop k rs) =
              ap (λ j. take j (drop k rs)) width in
            ground (arith, l, o, inside, short, page)
      ]
    ]

validate_list-page :
    (lp : ListParams) (n k : ℕ) → lp.limit ≡ pos n → lp.offset ≡ pos k → validate_list lp ≡ no_error
unfolding validate_list int_eq
validate_list-page lp n k l o = ground (arith, l, o)

-- For a known workflow of a sound store, with a limit and an offset that are not negative, `List`
-- returns the runs of the workflow, newest first, from the offset on and as many as the limit.
pub list_runs-page :
    (s : MemStore) (w : Text) (m : WorkflowMeta) (lp : ListParams) (n k : ℕ)
    → IsSound s
    → lookup w s.workflows ≡ some m
    → lp.limit ≡ pos n
    → lp.offset ≡ pos k
    → (rs : List State) × (list_runs w lp s ≡ ok rs)
      × (ids_of rs ≡ take n (drop k (reverse m.run_ids)))
list_runs-page s w m lp n k sound h l o =
    let (rs, q, e) = list_fetched s w m lp sound h (validate_list-page lp n k l o) in
    (
      take n (drop k rs),
      q ∙ slice_runs-page lp n k rs l o,
      map-take _ n (drop k rs) ∙ ap (take n) (map-drop _ k rs ∙ ap (drop k) e),
    )
