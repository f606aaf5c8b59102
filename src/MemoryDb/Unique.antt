-- ===== src/MemoryDb/Unique.antt =====
-- Go's maps have one entry for each key: the tree and the table keep that under `SetFile`.
use rufs.Base.{
  ℕ, suc, ◌≡◌, refl, ◌∙◌, subst, IsMap, insert-IsMap, delete-IsMap, ne_swap, delete, lookup, Option,
  none, some, Option-cases, Bool-cases, Str, ◌==◌, eq-cases, eq_refl, inl, inr, List, [], ◌∷◌, ok,
  ok_injective, >>=-eq-ok,
}
use rufs.Common.{FileInfo}
use rufs.MemoryDb.{
  Database, Directory, directory, Subdirs, nil, cons, empty_dir, files, find_dir, put_dir, Owners,
  release_owner, release_old, add_owner, unwind, remove_file, store_file, set_leaf, set_in,
  set_file, new_database,
}
use rufs.MemoryDb.Files.{find_dir-put_dir}
use rufs.MemoryDb.Removal.{unwind_keeps}

unfoldable mutual
  -- No directory has two entries of a name.
  pub IsTree : Directory → Type 0
  IsTree (directory ds fs r) = IsMap fs × IsTrees ds

  pub IsTrees : Subdirs → Type 0
  IsTrees nil = Unit
  IsTrees (cons n t ds) = (find_dir n ds ≡ none) × IsTree t × IsTrees ds

pub record IsUnique (d : Database) : Type 0 where
  pub tree : IsTree d.file_tree
  pub table : IsMap d.owners

empty_dir-IsTree : IsTree empty_dir
unfolding IsTree
empty_dir-IsTree = (tt, tt)

pub new_database-IsUnique : IsUnique new_database
unfolding new_database
new_database-IsUnique = record { tree = empty_dir-IsTree; table = tt }

find_dir-IsTree :
    (p : Str) (sd : Directory) (ds : Subdirs) → IsTrees ds → find_dir p ds ≡ some sd → IsTree sd
unfolding IsTree find_dir
find_dir-IsTree p sd nil h e = cc
find_dir-IsTree p sd (cons q t ds) h e = elim (Bool-cases (q == p)) [
  | inl same ↦
      let z : ◌≡◌ {A = Option Directory} (some t) (some sd) = rw same at e in
      subst IsTree (cc z) h.1
  | inr other ↦ find_dir-IsTree p sd ds h.2 (rw other at e)
]

put_dir-IsTrees :
    (p : Str) (sd : Directory) (ds : Subdirs) → IsTrees ds → IsTree sd → IsTrees (put_dir p sd ds)
unfolding IsTree put_dir
put_dir-IsTrees p sd nil h s = (unfold find_dir in refl, s, tt)
put_dir-IsTrees p sd (cons q t ds) h s = elim (eq-cases q p) [
  | inl same ↦ rw (same, put_dir, eq_refl) (rw same at h.0, s, h.2)
  | inr other ↦
      rw (put_dir, other)
        (
          find_dir-put_dir p q sd ds ∙ rw (ne_swap q p other) h.0,
          h.1,
          put_dir-IsTrees p sd ds h.2 s,
        )
]

release_old-IsMap :
    (old : Option FileInfo) (owner : Str) (ow ow' : Owners)
    → IsMap ow
    → release_old old owner ow ≡ ok ow'
    → IsMap ow'
unfolding release_old release_owner
release_old-IsMap none owner ow ow' h run = subst IsMap (ok_injective run) h
release_old-IsMap (some f) owner ow ow' h run = elim (Option-cases (lookup f.hash ow)) [
  | inl e ↦ absurd (cc (rw (release_owner, e) at run))
  | inr (m, e) ↦
      subst IsMap (ok_injective (rw (release_owner, e) at run)) (insert-IsMap f.hash _ ow h)
]

-- What a step on a directory and the table has to keep.
abbrev IsKept : Directory × Owners → Type 0
IsKept (t, ow) = IsTree t × IsMap ow

remove_file-IsKept :
    (depth : ℕ) (p : Str) (t : Directory) (ow : Owners) (out : Directory × Owners)
    → IsKept (t, ow)
    → remove_file depth p t ow ≡ ok out
    → IsKept out
unfolding remove_file IsTree
remove_file-IsKept depth p (directory ds fs r) ow out h run = elim (Option-cases (lookup p fs)) [
  | inl e ↦ subst IsKept (ok_injective (rw (remove_file, e) at run)) h
  | inr (f, e) ↦
      let (u, ran, eq) =
        >>=-eq-ok (unwind depth (directory ds (delete p fs) r)) _ (rw (remove_file, e) at run) in
      let (r', back) = unwind_keeps [] depth ds (delete p fs) r u ran in
      let kept : IsKept (directory ds (delete p fs) r', ow) =
        ((delete-IsMap p fs h.0.0, h.0.1), h.1) in
      subst IsKept (ok_injective eq) (subst (λ x. IsKept (x, ow)) back kept)
]

set_leaf-IsKept :
    (depth : ℕ) (p : Str) (v : Option FileInfo) (owner : Str) (t : Directory) (ow : Owners)
    (out : Directory × Owners)
    → IsKept (t, ow)
    → set_leaf depth p v owner t ow ≡ ok out
    → IsKept out
unfolding set_leaf store_file add_owner IsTree
set_leaf-IsKept depth p none owner t ow out h run =
    let (o, ran, eq) = >>=-eq-ok (release_old (lookup p (files t)) owner ow) _ run in
    remove_file-IsKept depth p t o out
      (h.0, release_old-IsMap (lookup p (files t)) owner ow o h.1 ran) eq
set_leaf-IsKept depth p (some fi) owner (directory ds fs r) ow out h run =
    let (o, ran, eq) = >>=-eq-ok (release_old (lookup p fs) owner ow) _ run in
    let table = release_old-IsMap (lookup p fs) owner ow o h.1 ran in
    subst IsKept (ok_injective eq)
      ((insert-IsMap p fi fs h.0.0, h.0.1), insert-IsMap fi.hash _ o table)

set_in-IsKept :
    (depth : ℕ) (ex : List Str) (v : Option FileInfo) (owner : Str) (t : Directory) (ow : Owners)
    (out : Directory × Owners)
    → IsKept (t, ow)
    → set_in depth ex v owner t ow ≡ ok out
    → IsKept out
unfolding set_in IsTree
set_in-IsKept depth [] v owner t ow out h run = cc run
set_in-IsKept depth (p ∷ []) v owner t ow out h run = set_leaf-IsKept depth p v owner t ow out h run
set_in-IsKept depth (p ∷ q ∷ rest) v owner (directory ds fs r) ow out h run =
    elim (Option-cases (find_dir p ds)) [
      | inr (sd, e) ↦
          let ((sd', o), ran, eq) =
            >>=-eq-ok (set_in (suc depth) (q ∷ rest) v owner sd ow) _ (rw (e, set_in) at run) in
          let k =
            set_in-IsKept (suc depth) (q ∷ rest) v owner sd ow (sd', o)
              (find_dir-IsTree p sd ds h.0.1 e, h.1) ran in
          subst IsKept (ok_injective eq) ((h.0.0, put_dir-IsTrees p sd' ds h.0.1 k.0), k.1)
      | inl e ↦ elim (Option-cases v) [
        | inl gone ↦ subst IsKept (ok_injective (rw (e, gone, set_in) at run)) h
        | inr (fi, given) ↦
            let ((sd', o), ran, eq) =
              >>=-eq-ok (set_in (suc depth) (q ∷ rest) (some fi) owner empty_dir ow) _
                (rw (e, given, set_in) at run) in
            let k =
              set_in-IsKept (suc depth) (q ∷ rest) (some fi) owner empty_dir ow (sd', o)
                (empty_dir-IsTree, h.1) ran in
            subst IsKept (ok_injective eq) ((h.0.0, put_dir-IsTrees p sd' ds h.0.1 k.0), k.1)
      ]
    ]

-- A `SetFile` that returns keeps one entry for each key.
pub set_file-IsUnique :
    (ex : List Str) (v : Option FileInfo) (owner : Str) (d d' : Database)
    → IsUnique d
    → set_file ex v owner d ≡ ok d'
    → IsUnique d'
unfolding set_file
set_file-IsUnique ex v owner d d' h run =
    let ((t, ow), ran, eq) = >>=-eq-ok (set_in 0 ex v owner d.file_tree d.owners) _ run in
    let k = set_in-IsKept 0 ex v owner d.file_tree d.owners (t, ow) (h.tree, h.table) ran in
    subst IsUnique (ok_injective eq) (record { tree = k.0; table = k.1 })
