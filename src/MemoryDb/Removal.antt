-- ===== src/MemoryDb/Removal.antt =====
-- Deletions: `set_in` without a file. With two or more directories on the way nothing is unwound;
-- with one, the directory of the file is, and panics when it becomes empty.
use rufs.Base.{
  ◌≡◌, refl, ◌≢◌, ◌∙◌, sym, subst, ok_injective, >>=-eq-ok, decrement, ℤ, pos, Dict, none, some,
  true, Str, ℕ, zero, suc, ◌+◌, ◌≤◌, eq_iff, eq_refl, Option-cases, inl, inr, lookup, delete,
  contains, lookup-delete, List, [], ◌∷◌, length, ok, panic, ◌>>=◌, arith,
}
use rufs.Common.{FileInfo}
use rufs.MemoryDb.{
  Directory, Subdirs, directory, dirs, files, find_dir, put_dir, Owners, set_in, set_leaf,
  remove_file, unwind,
}
use rufs.MemoryDb.Files.{
  file_at, IsOwnedAt, after_release, release_old-after_release, contains-after_release, IsBelow,
  IsBelow-some, lift-others, lift-there,
}

pub record IsRemoved (ex : List Str) (t : Directory) (ow : Owners) (t' : Directory) (ow' : Owners)
    : Type 0 where
  pub gone : file_at ex t' ≡ none
  pub others : (q : List Str) → q ≢ ex → file_at q t' ≡ file_at q t
  pub keeps : (h : Str) → contains h ow ≡ true → contains h ow' ≡ true

unchanged :
    (ex : List Str) (t : Directory) (ow : Owners) → file_at ex t ≡ none → IsRemoved ex t ow t ow
unchanged ex t ow h = record { gone = h; others = λ q ne. refl; keeps = λ k c. c }

lift-IsRemoved :
    (p : Str) (sd sd' : Directory) (ds : Subdirs) (fs : Dict FileInfo) (r : ℤ)
    → IsBelow p (directory ds fs r) sd
    → (q : Str) (rest : List Str) {ow ow' : Owners} → IsRemoved (q ∷ rest) sd ow sd' ow'
    → IsRemoved (p ∷ q ∷ rest) (directory ds fs r) ow (directory (put_dir p sd' ds) fs r) ow'
lift-IsRemoved p sd sd' ds fs r below q rest s = record {
  gone = lift-there p sd sd' ds fs r r below q rest s.gone;
  others = lift-others p sd sd' ds fs r r below q rest s.others;
  keeps = s.keeps;
}

module _ (owner : Str) where
  -- The deletion of the entry alone.
  deleted-IsRemoved :
      (p : Str) (ds : Subdirs) (fs : Dict FileInfo) (r r' : ℤ) (ow : Owners)
      → IsRemoved
          (p ∷ [])
          (directory ds fs r)
          ow
          (directory ds (delete p fs) r')
          (after_release (lookup p fs) owner ow)
  unfolding file_at
  deleted-IsRemoved p ds fs r r' ow = record {
    gone = rw (file_at, lookup-delete, eq_refl);
    others = elim [
      | [] ↦ λ ne. refl
      | x ∷ [] ↦ λ ne. rw (file_at, lookup-delete) (ground (arith, eq_iff p x))
      | x ∷ y ∷ ys ↦ λ ne. refl
    ];
    keeps = λ k c. contains-after_release owner ow (lookup p fs) k c;
  }

  set_leaf-none :
      (depth : ℕ) (p : Str) (t : Directory) (ow : Owners)
      → IsOwnedAt (lookup p (files t)) ow
      → set_leaf depth p none owner t ow
        ≡ remove_file depth p t (after_release (lookup p (files t)) owner ow)
  unfolding set_leaf
  set_leaf-none depth p t ow h = rw release_old-after_release refl

  remove_absent :
      (depth : ℕ) (p : Str) (ds : Subdirs) (fs : Dict FileInfo) (r : ℤ) (ow : Owners)
      → lookup p fs ≡ none
      → remove_file depth p (directory ds fs r) (after_release (lookup p fs) owner ow)
        ≡ ok (directory ds fs r, ow)
  unfolding remove_file after_release
  remove_absent depth p ds fs r ow e = rw (e, after_release) (rw (e, remove_file) refl)

  remove_present :
      (depth : ℕ) (p : Str) (ds : Subdirs) (fs : Dict FileInfo) (r : ℤ) (ow : Owners) (f : FileInfo)
      → lookup p fs ≡ some f
      → remove_file depth p (directory ds fs r) ow
        ≡ (unwind depth (directory ds (delete p fs) r) >>= λ t. ok (t, ow))
  unfolding remove_file
  remove_present depth p ds fs r ow f e = rw (e, remove_file) refl

  pub unwind_keeps :
      (depth : ℕ) (ds : Subdirs) (fs : Dict FileInfo) (r : ℤ) (t' : Directory)
      → unwind depth (directory ds fs r) ≡ ok t'
      → (r' : ℤ) × (directory ds fs r' ≡ t')
  unfolding unwind
  unwind_keeps zero ds fs r t' h = cc
  unwind_keeps (suc zero) ds fs r t' h = (decrement r, ground arith)
  unwind_keeps (suc (suc n)) ds fs r t' h = (r, cc)

  -- A deletion that returns has removed the entry, whatever the depth.
  set_leaf_removes :
      (depth : ℕ) (p : Str) (t : Directory) (ow : Owners) (t' : Directory) (ow' : Owners)
      → IsOwnedAt (lookup p (files t)) ow
      → set_leaf depth p none owner t ow ≡ ok (t', ow')
      → IsRemoved (p ∷ []) t ow t' ow'
  unfolding file_at
  set_leaf_removes depth p (directory ds fs r) ow t' ow' h run = elim (Option-cases (lookup p fs)) [
    | inl e ↦
        let same =
          sym (remove_absent depth p ds fs r ow e) ∙ sym (set_leaf-none depth p _ ow h) ∙ run in
        subst (λ x. IsRemoved (p ∷ []) (directory ds fs r) ow x.0 x.1) (ok_injective same)
          (unchanged (p ∷ []) _ ow (rw (file_at, e)))
    | inr (f, e) ↦
        let same =
          sym (remove_present depth p ds fs r _ f e) ∙ sym (set_leaf-none depth p _ ow h) ∙ run in
        let (u, ran, eq) = >>=-eq-ok (unwind depth (directory ds (delete p fs) r)) _ same in
        let (r', back) = unwind_keeps depth ds (delete p fs) r u ran in
        subst (λ x. IsRemoved (p ∷ []) (directory ds fs r) ow x.0 x.1) (ok_injective eq)
          (subst
            (λ x.
              IsRemoved (p ∷ []) (directory ds fs r) ow x (after_release (lookup p fs) owner ow))
            back (deleted-IsRemoved p ds fs r r' ow))
  ]

  set_leaf-IsRemoved :
      (depth : ℕ) (p : Str) (t : Directory) (ow : Owners)
      → 2 ≤ depth
      → IsOwnedAt (lookup p (files t)) ow
      → (t' : Directory) × (ow' : Owners) × (set_leaf depth p none owner t ow ≡ ok (t', ow'))
        × IsRemoved (p ∷ []) t ow t' ow'
  unfolding file_at unwind
  set_leaf-IsRemoved zero p t ow d h = absurd (omega arith)
  set_leaf-IsRemoved (suc zero) p t ow d h = absurd (omega arith)
  set_leaf-IsRemoved (suc (suc n)) p (directory ds fs r) ow d h =
      elim (Option-cases (lookup p fs)) [
        | inl e ↦ (
          directory ds fs r,
          ow,
          set_leaf-none _ p (directory ds fs r) ow h ∙ remove_absent _ p ds fs r ow e,
          unchanged (p ∷ []) _ ow (rw (file_at, e)),
        )
        | inr (f, e) ↦ (
          directory ds (delete p fs) r,
          after_release (lookup p fs) owner ow,
          set_leaf-none _ p (directory ds fs r) ow h ∙ remove_present _ p ds fs r _ f e,
          deleted-IsRemoved p ds fs r r ow,
        )
      ]

  pub set_in-IsRemoved :
      (depth : ℕ) (p : Str) (rest : List Str) (t : Directory) (ow : Owners)
      → 2 ≤ depth + length rest
      → IsOwnedAt (file_at (p ∷ rest) t) ow
      → (t' : Directory) × (ow' : Owners) × (set_in depth (p ∷ rest) none owner t ow ≡ ok (t', ow'))
        × IsRemoved (p ∷ rest) t ow t' ow'
  unfolding set_in file_at
  set_in-IsRemoved depth p [] t ow d h = set_leaf-IsRemoved depth p t ow (omega arith) h
  set_in-IsRemoved depth p (q ∷ rest) (directory ds fs r) ow d h =
      elim (Option-cases (find_dir p ds)) [
        | inl e ↦ (
          directory ds fs r,
          ow,
          rw (e, set_in) refl,
          unchanged (p ∷ q ∷ rest) _ ow (rw (file_at, e)),
        )
        | inr (sd, e) ↦
            let below = IsBelow-some p sd ds fs r e in
            let (t', ow', run, s) =
              set_in-IsRemoved (suc depth) q rest sd ow (omega arith)
                (subst (λ o. IsOwnedAt o ow) (below q rest) h) in
            (
              directory (put_dir p t' ds) fs r,
              ow',
              rw (e, set_in, run) refl,
              lift-IsRemoved p sd t' ds fs r below q rest s,
            )
      ]

  pub set_in_removes :
      (depth : ℕ) (p : Str) (rest : List Str) (t : Directory) (ow : Owners) (t' : Directory)
      (ow' : Owners)
      → IsOwnedAt (file_at (p ∷ rest) t) ow
      → set_in depth (p ∷ rest) none owner t ow ≡ ok (t', ow')
      → IsRemoved (p ∷ rest) t ow t' ow'
  unfolding set_in file_at
  set_in_removes depth p [] t ow t' ow' h run = set_leaf_removes depth p t ow t' ow' h run
  set_in_removes depth p (q ∷ rest) (directory ds fs r) ow t' ow' h run =
      elim (Option-cases (find_dir p ds)) [
        | inl e ↦
            let same = rw (e, set_in) at run in
            subst (λ x. IsRemoved (p ∷ q ∷ rest) (directory ds fs r) ow x.0 x.1) (ok_injective same)
              (unchanged (p ∷ q ∷ rest) _ ow (rw (file_at, e)))
        | inr (sd, e) ↦
            let below = IsBelow-some p sd ds fs r e in
            let ((sd', o), ran, eq) =
              >>=-eq-ok (set_in (suc depth) (q ∷ rest) none owner sd ow) _
                (rw (e, set_in) at run) in
            let s =
              set_in_removes (suc depth) q rest sd ow sd' o
                (subst (λ o. IsOwnedAt o ow) (below q rest) h) ran in
            subst (λ x. IsRemoved (p ∷ q ∷ rest) (directory ds fs r) ow x.0 x.1) (ok_injective eq)
              (lift-IsRemoved p sd sd' ds fs r below q rest s)
      ]

  -- One directory on the way, which stays non-empty: the entry goes and its count falls.
  pub set_in_shallow :
      (u n : Str) (t : Directory) (ow : Owners) (sub : Subdirs) (fs : Dict FileInfo) (k : ℕ)
      → (f : FileInfo) → find_dir u (dirs t) ≡ some (directory sub fs (pos (suc (suc k))))
      → lookup n fs ≡ some f
      → contains f.hash ow ≡ true
      → (t' : Directory) × (ow' : Owners) × (set_in 0 (u ∷ n ∷ []) none owner t ow ≡ ok (t', ow'))
        × IsRemoved (u ∷ n ∷ []) t ow t' ow'
  unfolding set_in file_at unwind
  set_in_shallow u n (directory ds fs0 r) ow sub fs k f e l c =
      let sd = directory sub fs (pos (suc (suc k))) in
      let t' = directory sub (delete n fs) (pos (suc k)) in
      let below = IsBelow-some u sd ds fs0 r e in
      let s = deleted-IsRemoved n sub fs (pos (suc (suc k))) (pos (suc k)) ow in
      (
        directory (put_dir u t' ds) fs0 r,
        after_release (lookup n fs) owner ow,
        rw (e, set_in, set_leaf-none 1 n sd ow (rw l c), remove_present 1 n sub fs _ _ f l) refl,
        lift-IsRemoved u sd t' ds fs0 r below n [] s,
      )

  -- One directory on the way, of which the file is the only entry.
  pub set_in_panics :
      (u n : Str) (t : Directory) (ow : Owners) (sub : Subdirs) (fs : Dict FileInfo) (f : FileInfo)
      → find_dir u (dirs t) ≡ some (directory sub fs (pos 1))
      → lookup n fs ≡ some f
      → contains f.hash ow ≡ true
      → set_in 0 (u ∷ n ∷ []) none owner t ow ≡ panic
  unfolding set_in unwind
  set_in_panics u n (directory ds fs0 r) ow sub fs f e l c =
      rw
        (
          e,
          set_in,
          set_leaf-none 1 n (directory sub fs (pos 1)) ow (rw l c),
          remove_present 1 n sub fs _ _ f l,
        )
        refl
