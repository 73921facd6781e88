-- ===== src/Refstore/Examples.antt =====
-- A store of two references for the theorems about it.
use repo_4636_qri.Prelude.{
  ◌≡◌, refl, inl, inr, false, Bool, Option, some, [], ◌∷◌, Text, codes, text_eq, is_empty, length,
  ok, arith, if◌then◌else◌, Bool-cases,
}
use mathlib.Core.List.{Permᴰ}
use mathlib.Core.List.Permᴰ as P
use repo_4636_qri.Prelude.Int.{pos}
use repo_4636_qri.Refstore.{
  DatasetRef, Refs, empty_ref, put_ref, get_ref, matches, ref_less, references,
}
use repo_4636_qri.Refstore.Finding.{put_ref-get_ref}
use repo_4636_qri.Refstore.Listing.{references-page}
use repo_4636_qri.Refstore.Files.{Disk, file_refs, write_refs, file_put_ref}
use repo_4636_qri.Refstore.Files.Agreeing.{file_put_ref-put_ref}

abbrev worms : DatasetRef (Unit {0})
worms = record empty_ref {
  peername = codes "bob";
  profile_id = codes "Qm";
  name = codes "worms";
  path = codes "/a";
}

abbrev ants : DatasetRef (Unit {0})
ants = record worms { name = codes "ants"; path = codes "/b" }

abbrev bees : DatasetRef (Unit {0})
bees = record worms { name = codes "bees"; path = codes "/c" }

-- Insertion sort.
place :
    (DatasetRef (Unit {0}) → DatasetRef (Unit {0}) → Bool)
    → DatasetRef (Unit {0})
    → Refs (Unit {0})
    → Refs (Unit {0})
place before x [] = x ∷ []
place before x (y ∷ ys) =
    let rest = place before x ys in if before y x then y ∷ rest else x ∷ y ∷ ys

sort : (DatasetRef (Unit {0}) → DatasetRef (Unit {0}) → Bool) → Refs (Unit {0}) → Refs (Unit {0})
unfolding place
sort before [] = []
sort before (x ∷ xs) = place before x (sort before xs)

place-Permᴰ :
    (before : DatasetRef (Unit {0}) → DatasetRef (Unit {0}) → Bool) (x : DatasetRef (Unit {0}))
    (xs : Refs (Unit {0}))
    → Permᴰ (x ∷ xs) (place before x xs)
unfolding place
place-Permᴰ before x [] = P.refl (x ∷ [])
place-Permᴰ before x (y ∷ ys) = elim (Bool-cases (before y x)) [
  | inl e ↦ rw e (P.trans (P.swap refl refl) (P.cons refl (place-Permᴰ before x ys)))
  | inr e ↦ rw e (P.refl (x ∷ y ∷ ys))
]

sort-Permᴰ : (xs : Refs (Unit {0})) → Permᴰ xs (sort ref_less xs)
unfolding sort
sort-Permᴰ [] = P.nil
sort-Permᴰ (x ∷ xs) =
    P.trans (P.cons refl (sort-Permᴰ xs)) (place-Permᴰ ref_less x (sort ref_less xs))

put_ref-get_ref_example :
    (rs : Refs (Unit {0})) × (put_ref sort bees (worms ∷ ants ∷ []) ≡ ok rs)
    × (get_ref bees rs ≡ ok bees)
    × (length rs ≡ 3)
unfolding get_ref matches text_eq is_empty
put_ref-get_ref_example = put_ref-get_ref sort bees (worms ∷ ants ∷ []) sort-Permᴰ refl

references-page_example : references (pos 1) (pos 1) (ants ∷ worms ∷ []) ≡ ok (worms ∷ [])
references-page_example = references-page 1 1 (ants ∷ worms ∷ [])

-- A file whose text stands for two references.
abbrev file : Disk (Option Text) (Unit {0})
file = record {
  read = λ w. ok w;
  write = λ text w. (some text, false);
  decode = λ text. some (worms ∷ ants ∷ []);
  encode = λ refs. codes "refs";
  sort = sort;
}

file_put_ref-put_ref_example :
    (rs : Refs (Unit {0})) × (ms : Refs (Unit {0})) × (file_put_ref file bees (some (codes "refs"))
      ≡ write_refs file rs (some (codes "refs")))
    × (put_ref sort bees (worms ∷ ants ∷ []) ≡ ok ms)
    × Permᴰ rs ms
unfolding matches text_eq is_empty file_refs
file_put_ref-put_ref_example =
    file_put_ref-put_ref file sort bees (worms ∷ ants ∷ []) (some (codes "refs")) sort-Permᴰ
      sort-Permᴰ refl refl refl (omega arith)
