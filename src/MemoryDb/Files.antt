-- ===== src/MemoryDb/Files.antt =====
-- The tree of directories as a map from paths to files, and what `set_in` does to that map.
use rufs.Base.{
  All, false, ◌≡◌, refl, ◌≢◌, sym, ◌∙◌, subst, ℤ, increment, Dict, insert, lookup-insert_self,
  Option, none, some, Bool, true, ◌||◌, Str, ◌==◌, ℕ, suc, eq_iff, eq_refl, eq-cases, Option-cases,
  inl, inr, lookup, contains, lookup-insert, List, [], ◌∷◌, ok, arith, if◌then◌else◌,
}
use rufs.Common.{FileInfo}
use rufs.MemoryDb.{
  is_bad_part, Directory, Subdirs, directory, nil, cons, empty_dir, files, find_dir, put_dir,
  Owners, set_in, set_leaf, release_old, add_owner,
}
use rufs.MemoryDb.Owners.{
  is_listed, is_listed-add_owner, released, release_owner-released, contains-released,
  contains-add_owner,
}

-- Every part of a path may stand in the name of a file.
abbrev pub IsGood : List Str → Type 0
IsGood = All (λ part. is_bad_part part ≡ false)

-- The file at a path, as the map `t.files` of its directory has it.
unfoldable pub file_at : List Str → Directory → Option FileInfo
file_at [] t = none
file_at (p ∷ []) t = lookup p (files t)
file_at (p ∷ q ∷ rest) (directory ds fs r) = elim (find_dir p ds) [
  | none ↦ none
  | some sd ↦ file_at (q ∷ rest) sd
]

pub find_dir-put_dir :
    (p q : Str) (sd : Directory) (ds : Subdirs)
    → find_dir q (put_dir p sd ds) ≡ (if p == q then some sd else find_dir q ds)
unfolding find_dir put_dir
find_dir-put_dir p q sd nil = refl
find_dir-put_dir p q sd (cons j w ds) =
    ground (arith, eq_iff p q, eq_iff j p, eq_iff j q, find_dir-put_dir p q sd ds)

-- The hash of a file that the table of owners must have.
abbrev pub IsOwnedAt : Option FileInfo → Owners → Type 0
IsOwnedAt none ow = Unit
IsOwnedAt (some f) ow = contains f.hash ow ≡ true

-- Everything that a publication at `ex` promises of the tree and the table that it leaves.
pub record IsStored (ex : List Str) (fi : FileInfo) (owner : Str) (t : Directory) (ow : Owners)
    (t' : Directory) (ow' : Owners) : Type 0 where
  pub there : file_at ex t' ≡ some fi
  pub others : (q : List Str) → q ≢ ex → file_at q t' ≡ file_at q t
  pub owned : contains fi.hash ow' ≡ true
  pub listed : is_listed fi.hash owner ow' ≡ true
  pub keeps : (h : Str) → contains h ow ≡ true → contains h ow' ≡ true

unfoldable pub after_release : Option FileInfo → Str → Owners → Owners
after_release none owner ow = ow
after_release (some f) owner ow = released f.hash owner ow

module _ (owner : Str) (ow : Owners) where
  pub release_old-after_release :
      (old : Option FileInfo)
      → IsOwnedAt old ow
      → release_old old owner ow ≡ ok (after_release old owner ow)
  unfolding release_old after_release
  release_old-after_release none h = refl
  release_old-after_release (some f) h = release_owner-released f.hash owner ow h

  pub contains-after_release :
      (old : Option FileInfo) (h : Str)
      → contains h ow ≡ true
      → contains h (after_release old owner ow) ≡ true
  unfolding after_release
  contains-after_release none h c = c
  contains-after_release (some f) h c = ground (arith, contains-released f.hash owner ow h)

pub file_at-empty : (ex : List Str) → file_at ex empty_dir ≡ none
unfolding file_at lookup find_dir
file_at-empty [] = refl
file_at-empty (p ∷ []) = refl
file_at-empty (p ∷ q ∷ ex) = refl

-- The directory has below `p` what `sd` has.
abbrev pub IsBelow : Str → Directory → Directory → Type 0
IsBelow p t sd = (y : Str) (ys : List Str) → file_at (p ∷ y ∷ ys) t ≡ file_at (y ∷ ys) sd

pub IsBelow-some :
    (p : Str) (sd : Directory) (ds : Subdirs) (fs : Dict FileInfo) (r : ℤ)
    → find_dir p ds ≡ some sd
    → IsBelow p (directory ds fs r) sd
unfolding file_at
IsBelow-some p sd ds fs r e y ys = rw (file_at, e)

pub IsBelow-none :
    (p : Str) (ds : Subdirs) (fs : Dict FileInfo) (r : ℤ)
    → find_dir p ds ≡ none
    → IsBelow p (directory ds fs r) empty_dir
unfolding file_at
IsBelow-none p ds fs r e y ys = rw (file_at, e) (sym (file_at-empty (y ∷ ys)))

-- What holds of a subdirectory holds of the directory that gets it back at `p`.
module _ (p : Str) (sd sd' : Directory) (ds : Subdirs) (fs : Dict FileInfo) (r r' : ℤ)
    (below : IsBelow p (directory ds fs r) sd) (q : Str) (rest : List Str) where
  pub lift-others :
      ((x : List Str) → x ≢ q ∷ rest → file_at x sd' ≡ file_at x sd)
      → (x : List Str) → x ≢ p ∷ q ∷ rest
      → file_at x (directory (put_dir p sd' ds) fs r') ≡ file_at x (directory ds fs r)
  unfolding file_at
  lift-others h [] ne = refl
  lift-others h (x ∷ []) ne = refl
  lift-others h (x ∷ y ∷ ys) ne = elim (eq-cases p x) [
    | inl e ↦
        rw (← e, file_at, find_dir-put_dir, eq_refl) (h (y ∷ ys) (λ w. ne (cc)) ∙ sym (below y ys))
    | inr e ↦ rw (file_at, find_dir-put_dir, e)
  ]

  pub lift-there :
      {v : Option FileInfo}
      → file_at (q ∷ rest) sd' ≡ v
      → file_at (p ∷ q ∷ rest) (directory (put_dir p sd' ds) fs r') ≡ v
  unfolding file_at
  lift-there h = rw (file_at, find_dir-put_dir, eq_refl) h

  lift-IsStored :
      {fi : FileInfo} {owner : Str} {ow ow' : Owners}
      → IsStored (q ∷ rest) fi owner sd ow sd' ow'
      → IsStored
          (p ∷ q ∷ rest)
          fi
          owner
          (directory ds fs r)
          ow
          (directory (put_dir p sd' ds) fs r')
          ow'
  lift-IsStored s = record {
    there = lift-there s.there;
    others = lift-others s.others;
    owned = s.owned;
    listed = s.listed;
    keeps = s.keeps;
  }

or-true : (a b : Bool) → b ≡ true → (a || b) ≡ true
or-true a b h = ground arith

module _ (fi : FileInfo) (owner : Str) where
  set_leaf-IsStored :
      (depth : ℕ) (p : Str) (t : Directory) (ow : Owners)
      → IsOwnedAt (lookup p (files t)) ow
      → (t' : Directory) × (ow' : Owners) × (set_leaf depth p (some fi) owner t ow ≡ ok (t', ow'))
        × IsStored (p ∷ []) fi owner t ow t' ow'
  unfolding set_leaf file_at
  set_leaf-IsStored depth p (directory ds fs r) ow h = (
    directory ds (insert p fi fs) (if contains p fs then r else increment r),
    add_owner fi.hash owner (after_release (lookup p fs) owner ow),
    rw release_old-after_release refl,
    record {
      there = lookup-insert_self p fi fs;
      others = elim [
        | [] ↦ λ ne. refl
        | x ∷ [] ↦ λ ne. rw (file_at, lookup-insert) (ground (arith, eq_iff p x))
        | x ∷ y ∷ ys ↦ λ ne. refl
      ];
      owned = rw (contains-add_owner, eq_refl);
      listed = is_listed-add_owner fi.hash owner (after_release (lookup p fs) owner ow);
      keeps = λ k c.
          rw contains-add_owner (or-true _ _ (contains-after_release owner ow (lookup p fs) k c));
    },
  )

  pub set_in-IsStored :
      (depth : ℕ) (p : Str) (rest : List Str) (t : Directory) (ow : Owners)
      → IsOwnedAt (file_at (p ∷ rest) t) ow
      → (t' : Directory) × (ow' : Owners) × (set_in depth (p ∷ rest) (some fi) owner t ow
          ≡ ok (t', ow'))
        × IsStored (p ∷ rest) fi owner t ow t' ow'
  unfolding set_in file_at
  set_in-IsStored depth p [] t ow h = set_leaf-IsStored depth p t ow h
  set_in-IsStored depth p (q ∷ rest) (directory ds fs r) ow h =
      elim (Option-cases (find_dir p ds)) [
        | inl e ↦
            let (t', ow', run, s) =
              set_in-IsStored (suc depth) q rest empty_dir ow (rw file_at-empty tt) in
            (
              directory (put_dir p t' ds) fs (increment r),
              ow',
              rw (e, set_in, run) refl,
              lift-IsStored p empty_dir t' ds fs r (increment r) (IsBelow-none p ds fs r e) q rest
                  s,
            )
        | inr (sd, e) ↦
            let below = IsBelow-some p sd ds fs r e in
            let (t', ow', run, s) =
              set_in-IsStored (suc depth) q rest sd ow
                (subst (λ o. IsOwnedAt o ow) (below q rest) h) in
            (
              directory (put_dir p t' ds) fs r,
              ow',
              rw (e, set_in, run) refl,
              lift-IsStored p sd t' ds fs r r below q rest s,
            )
      ]
