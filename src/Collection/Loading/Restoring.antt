-- ===== src/Collection/Loading/Restoring.antt =====
-- What is loaded from the files of a directory is what was saved there.
use repo_4636_qri.Prelude.{
  ℕ, ◌<◌, ◌≡◌, refl, ap, ◌∙◌, inl, inr, true, false, Option, none, some, [], ◌∷◌, ◌++◌, map, Text,
  text_eq, text_eq_iff, text_eq_refl, is_empty, codes, subst, length, length-append, ok, err_not_ok,
  Bool-cases, Option-cases, arith,
}
use repo_4636_qri.Prelude.Dict.{Pair, lookup, insert, lookup-insert_same, lookup-insert_other}
use repo_4636_qri.Profile.{encode, id_b58_decode}
use repo_4636_qri.Collection.{
  Infos, Collections, Host, Files, LocalSet, stop, after, checked, items_of, file_of,
  save_profile_collection,
}
use repo_4636_qri.Collection.Updates.Saving.{after-ok}
use repo_4636_qri.Collection.Loading.{
  trim_suffix, has_suffix, json_suffix, is_collection_filename, load_profile_collection, load_files,
  load_items, load_all,
}

-- A text is no shorter one.
text_eq-longer : (s t : Text) → length t < length s → text_eq s t ≡ false
unfolding text_eq
text_eq-longer [] t h = absurd (omega arith)
text_eq-longer (x ∷ s) [] h = refl
text_eq-longer (x ∷ s) (y ∷ t) h = ground (arith, text_eq-longer s t (omega arith))

trim_suffix-append : (s : Text) (c : ℕ) (t : Text) → trim_suffix (s ++ (c ∷ t)) (c ∷ t) ≡ s
unfolding trim_suffix
trim_suffix-append [] c t = rw (text_eq_refl (c ∷ t)) refl
trim_suffix-append (x ∷ s) c t =
    rw (text_eq-longer (x ∷ (s ++ (c ∷ t))) (c ∷ t) (omega (arith, length-append s (c ∷ t))))
      (ap (λ r. x ∷ r) (trim_suffix-append s c t))

has_suffix-append : (s : Text) (c : ℕ) (t : Text) → has_suffix (s ++ (c ∷ t)) (c ∷ t) ≡ true
unfolding has_suffix
has_suffix-append [] c t = rw (text_eq_refl (c ∷ t)) refl
has_suffix-append (x ∷ s) c t =
    rw (text_eq-longer (x ∷ (s ++ (c ∷ t))) (c ∷ t) (omega (arith, length-append s (c ∷ t))))
      (has_suffix-append s c t)

module _ (host : Host) where
  abbrev pub file_name : Text → Text
  file_name pid = encode host.peers pid ++ json_suffix

  -- An id of a peer survives base 58.
  abbrev pub Decodes : Type 0
  Decodes =
      (pid : Text)
      → host.peers.is_peer pid ≡ true
      → host.peers.decode (host.peers.pretty pid) ≡ some pid

  -- The file of a collection holds JSON that is read as the collection.
  pub record IsStored (base : Text) (files : Files) (p : Pair Infos) : Type 0 where
    pub text : Text
    pub reads : host.unmarshal text ≡ some p.value
    pub found : lookup (base ++ (b'/' ∷ file_name p.key)) files ≡ some text
    pub is_peer : host.peers.is_peer p.key ≡ true

  abbrev pub AllStored : Text → Files → Collections → Type 0
  AllStored base files [] = Unit
  AllStored base files (p ∷ ps) = IsStored base files p × AllStored base files ps

  abbrev pub insert_all : Collections → Collections → Collections
  insert_all acc [] = acc
  insert_all acc (p ∷ ps) = insert_all (insert p.key p.value acc) ps

  abbrev with : Collections → LocalSet → LocalSet
  with cs s = record s { collections = cs }

  module _ (decodes : Decodes) where
    load-stored :
        (p : Pair Infos) (s : LocalSet)
        → IsStored s.base_path s.files p
        → load_profile_collection host (file_name p.key) s
          ≡ stop (ok tt) (with (insert p.key p.value s.collections) s)
    unfolding load_profile_collection id_b58_decode encode
    load-stored p s h =
        let name = trim_suffix-append (encode host.peers p.key) b'.' (codes "json") in
        after-ok
          (stop (checked (id_b58_decode host.peers (trim_suffix (file_name p.key) json_suffix))) s)
          (λ pid t. load_items host (file_name p.key) pid t) p.key
          (ap (λ n. checked (id_b58_decode host.peers n)) name ∙ decoded p.key h.is_peer)
        ∙ rw (h.found, h.reads, load_items) refl
      where
        decoded :
            (pid : Text)
            → host.peers.is_peer pid ≡ true
            → checked (id_b58_decode host.peers (encode host.peers pid)) ≡ ok pid
        decoded pid is = rw (decodes pid is, id_b58_decode) refl

    load_files-stored :
        (ps : Collections) (s : LocalSet)
        → AllStored s.base_path s.files ps
        → load_files host (map (λ p. file_name p.key) ps) s
          ≡ stop (ok tt) (with (insert_all s.collections ps) s)
    unfolding load_files is_collection_filename
    load_files-stored [] s h = refl
    load_files-stored (p ∷ ps) s h =
        let name = has_suffix-append (encode host.peers p.key) b'.' (codes "json") in
        rw name (
          ap (λ o. after o λ _ t. load_files host (map (λ p. file_name p.key) ps) t)
            (load-stored p s h.0)
          ∙ load_files-stored ps (with (insert p.key p.value s.collections) s) h.1)

  -- No key stands twice.
  abbrev pub DistinctKeys : Collections → Type 0
  DistinctKeys [] = Unit
  DistinctKeys (p ∷ ps) = (lookup p.key ps ≡ none) × DistinctKeys ps

  lookup-insert_all :
      (q : Text) (acc ps : Collections)
      → DistinctKeys ps
      → lookup q (insert_all acc ps)
        ≡ (elim (lookup q ps) [ none ↦ lookup q acc | some v ↦ some v ])
  unfolding lookup
  lookup-insert_all q acc [] d = refl
  lookup-insert_all q acc (p ∷ ps) d = elim (Bool-cases (text_eq p.key q)) [
    | inl e ↦
        let absent = subst (λ k. lookup k ps ≡ none) ((text_eq_iff p.key q).0 e) d.0 in
        let found =
          subst (λ k. lookup k (insert p.key p.value acc) ≡ some p.value)
            ((text_eq_iff p.key q).0 e) (lookup-insert_same p.key p.value acc) in
        lookup-insert_all q (insert p.key p.value acc) ps d.1 ∙ rw (absent, found, e) refl
    | inr e ↦
        lookup-insert_all q (insert p.key p.value acc) ps d.1 ∙ elim (Option-cases (lookup q ps)) [
          | inl n ↦ rw (e, n) (lookup-insert_other p.key q p.value acc e)
          | inr (v, n) ↦ rw (e, n) refl
        ]
  ]

  -- If ids of peers survive base 58, and the files of a directory hold the collections of distinct
  -- peers, then `loadAll` of their names, in whatever order, succeeds, and every profile has the
  -- collection that its file holds and no other, whatever the set had before.
  pub load_all-stored :
      (decodes : Decodes) (ps : Collections) (s : LocalSet)
      → AllStored s.base_path s.files ps
      → DistinctKeys ps
      → ((load_all host (map (λ p. file_name p.key) ps) s).result ≡ ok tt)
        × ((q : Text)
            → lookup q (load_all host (map (λ p. file_name p.key) ps) s).set.collections
              ≡ lookup q ps)
  unfolding load_all lookup
  load_all-stored decodes ps s h d =
      let done = load_files-stored decodes ps (with [] s) h in
      (
        ap (λ o. o.result) done,
        λ q.
            ap (λ o. lookup q o.set.collections) done
            ∙ lookup-insert_all q [] ps d
            ∙ same (lookup q ps),
      )
    where
      same : (o : Option Infos) → (elim o [ none ↦ none | some v ↦ some v ]) ≡ o
      same none = refl
      same (some v) = refl

  -- If JSON is read as what it was made of and a write that does not fail is found in the files, a
  -- collection that is saved to a directory without an error is stored there.
  pub save-IsStored :
      (pid : Text) (s : LocalSet)
      → ((path text : Text) (files : Files)
          → (host.write path text files).1 ≡ false
          → lookup path (host.write path text files).0 ≡ some text)
      → ((vis : Infos) (text : Text)
          → host.marshal vis ≡ some text
          → host.unmarshal text ≡ some vis)
      → is_empty s.base_path ≡ false
      → host.peers.is_peer pid ≡ true
      → (save_profile_collection host pid s).result ≡ ok tt
      → IsStored s.base_path
          (save_profile_collection host pid s).set.files
          (record { key = pid; value = items_of pid s.collections })
  unfolding save_profile_collection
  save-IsStored pid s writes reads base is h =
      elim (Option-cases (host.marshal (items_of pid s.collections))) [
        | inl m ↦ absurd (err_not_ok (rw (base, m) at h))
        | inr (t, m) ↦ elim (Bool-cases (host.write (file_of host pid s) t s.files).1) [
          | inl w ↦ absurd (err_not_ok (rw (base, m, w) at h))
          | inr w ↦ record {
            text = t;
            reads = reads (items_of pid s.collections) t m;
            found = rw (base, m) (writes (file_of host pid s) t s.files w);
            is_peer = is;
          }
        ]
      ]
