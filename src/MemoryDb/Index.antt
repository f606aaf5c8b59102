-- ===== src/MemoryDb/Index.antt =====
-- `Database.SetFile` as a whole: the index is a map from paths to files, and every indexed file
-- has an entry in the table of owners, so that no release writes to a missing map.
use rufs.Base.{
  ◌≡◌, refl, ◌≢◌, ◌⊎◌, true, pos, ℤ, increment, insert, sym, subst, Dict, Option, none, some, Str,
  eq-cases, eq_refl, inl, inr, lookup, contains, List, [], ◌∷◌, ok, panic, ◌∙◌, ok_injective,
  >>=-eq-ok, arith,
}
use rufs.Common.{FileInfo}
use rufs.MemoryDb.{
  Database, Directory, directory, Subdirs, dirs, find_dir, put_dir, nil, add_owner, new_database,
  set_file, set_in, Owners, get_owners, map_or_empty,
}
use rufs.MemoryDb.Files.{find_dir-put_dir, file_at, file_at-empty, IsOwnedAt, set_in-IsStored}
use rufs.MemoryDb.Owners.{contains-add_owner, has_name, has_name-keys}
use rufs.MemoryDb.Removal.{set_in-IsRemoved, set_in_panics, set_in_removes}

pub record IsIndexed (d : Database) : Type 0 where
  pub owned : (q : List Str) → IsOwnedAt (file_at q d.file_tree) d.owners

pub path-cases : (p q : List Str) → (p ≡ q) ⊎ (p ≢ q)
path-cases [] [] = inl refl
path-cases [] (y ∷ q) = inr (λ e. cc)
path-cases (x ∷ p) [] = inr (λ e. cc)
path-cases (x ∷ p) (y ∷ q) = elim (eq-cases x y) [
  | inl e ↦ elim (path-cases p q) [ inl f ↦ inl (cc) | inr f ↦ inr (λ g. f (cc)) ]
  | inr e ↦ inr (λ g. cc (eq_refl x))
]

IsOwnedAt-keeps :
    (o : Option FileInfo) (ow ow' : Owners)
    → ((h : Str) → contains h ow ≡ true → contains h ow' ≡ true)
    → IsOwnedAt o ow
    → IsOwnedAt o ow'
IsOwnedAt-keeps none ow ow' k h = tt
IsOwnedAt-keeps (some f) ow ow' k h = k f.hash h

pub new_database-IsIndexed : IsIndexed new_database
unfolding new_database
new_database-IsIndexed = record { owned = λ q. rw file_at-empty tt }

-- What a successful `SetFile` leaves at its path and elsewhere.
pub record IsSetTo (ex : List Str) (v : Option FileInfo) (d d' : Database) : Type 0 where
  pub here : file_at ex d'.file_tree ≡ v
  pub others : (q : List Str) → q ≢ ex → file_at q d'.file_tree ≡ file_at q d.file_tree
  pub indexed : IsIndexed d'

module _ (d : Database) (owner : Str) (valid : IsIndexed d) where
  transfer :
      (ex : List Str) (t' : Directory) (ow' : Owners)
      → IsOwnedAt (file_at ex t') ow'
      → ((q : List Str) → q ≢ ex → file_at q t' ≡ file_at q d.file_tree)
      → ((h : Str) → contains h d.owners ≡ true → contains h ow' ≡ true)
      → (q : List Str) → IsOwnedAt (file_at q t') ow'
  transfer ex t' ow' h others keeps q = elim (path-cases q ex) [
    | inl e ↦ subst (λ p. IsOwnedAt (file_at p t') ow') (sym e) h
    | inr ne ↦
        subst (λ o. IsOwnedAt o ow') (sym (others q ne))
          (IsOwnedAt-keeps (file_at q d.file_tree) d.owners ow' keeps (valid.owned q))
  ]

  -- `SetFile` with a file returns, the file is found at its path, every other path has what it
  -- had, and the index stays valid.
  pub set_file_stores :
      (p : Str) (rest : List Str) (fi : FileInfo)
      → (d' : Database) × (set_file (p ∷ rest) (some fi) owner d ≡ ok d')
        × IsSetTo (p ∷ rest) (some fi) d d'
  unfolding set_file
  set_file_stores p rest fi =
      let (t', ow', run, s) =
        set_in-IsStored fi owner 0 p rest d.file_tree d.owners (valid.owned (p ∷ rest)) in
      (
        record { file_tree = t'; owners = ow' },
        rw run refl,
        record {
          here = s.there;
          others = s.others;
          indexed = record {
            owned = transfer (p ∷ rest) t' ow' (rw s.there s.owned) s.others s.keeps;
          };
        },
      )

  -- `SetFile` without a file, at a path of three or more parts, returns, the path has no file,
  -- every other path has what it had, and the index stays valid.
  pub set_file_removes :
      (u p q : Str) (rest : List Str)
      → (d' : Database) × (set_file (u ∷ p ∷ q ∷ rest) none owner d ≡ ok d')
        × IsSetTo (u ∷ p ∷ q ∷ rest) none d d'
  unfolding set_file
  set_file_removes u p q rest =
      let (t', ow', run, s) =
        set_in-IsRemoved owner 0 u (p ∷ q ∷ rest) d.file_tree d.owners (omega arith)
          (valid.owned (u ∷ p ∷ q ∷ rest)) in
      (
        record { file_tree = t'; owners = ow' },
        rw run refl,
        record {
          here = s.gone;
          others = s.others;
          indexed = record {
            owned = transfer (u ∷ p ∷ q ∷ rest) t' ow' (rw s.gone tt) s.others s.keeps;
          };
        },
      )

  -- A `SetFile` that returns, with a file or without: the path has what was given, every other
  -- path has what it had, and the index stays valid.
  pub set_file_sets :
      (p : Str) (rest : List Str) (v : Option FileInfo) (d' : Database)
      → set_file (p ∷ rest) v owner d ≡ ok d'
      → IsSetTo (p ∷ rest) v d d'
  unfolding set_file
  set_file_sets p rest (some fi) d' run =
      let (e, ran, s) = set_file_stores p rest fi in
      subst (IsSetTo (p ∷ rest) (some fi) d) (ok_injective (sym ran ∙ run)) s
  set_file_sets p rest none d' run =
      let ((t', ow'), ran, eq) =
        >>=-eq-ok (set_in 0 (p ∷ rest) none owner d.file_tree d.owners) _ run in
      let s =
        set_in_removes owner 0 p rest d.file_tree d.owners t' ow' (valid.owned (p ∷ rest)) ran in
      subst (IsSetTo (p ∷ rest) none d) (ok_injective eq) (record {
        here = s.gone;
        others = s.others;
        indexed = record { owned = transfer (p ∷ rest) t' ow' (rw s.gone tt) s.others s.keeps };
      })

-- The first file of a user, at the top of the user's directory.
set_in_creates :
    (u n : Str) (fi : FileInfo) (owner : Str) (ds : Subdirs) (fs : Dict FileInfo) (r : ℤ)
    (ow : Owners)
    → find_dir u ds ≡ none
    → set_in 0 (u ∷ n ∷ []) (some fi) owner (directory ds fs r) ow
      ≡ ok (
        directory (put_dir u (directory nil ((n, fi) ∷ []) (pos 1)) ds) fs (increment r),
        add_owner fi.hash owner ow,
      )
unfolding set_in lookup insert contains
set_in_creates u n fi owner ds fs r ow h = rw (h, set_in) refl

withdraw_in :
    (u n : Str) (fi : FileInfo) (owner : Str) (t : Directory) (ow : Owners)
    → find_dir u (dirs t) ≡ none
    → (t' : Directory) × (ow' : Owners) × (set_in 0 (u ∷ n ∷ []) (some fi) owner t ow
        ≡ ok (t', ow'))
      × (set_in 0 (u ∷ n ∷ []) none owner t' ow' ≡ panic)
unfolding lookup
withdraw_in u n fi owner (directory ds fs r) ow h =
    let sub = directory nil ((n, fi) ∷ []) (pos 1) in
    let ow' = add_owner fi.hash owner ow in
    (
      directory (put_dir u sub ds) fs (increment r),
      ow',
      set_in_creates u n fi owner ds fs r ow h,
      set_in_panics owner u n _ ow' nil ((n, fi) ∷ []) fi (rw (find_dir-put_dir, eq_refl) refl)
          (rw (lookup, eq_refl) refl) (rw (contains-add_owner, eq_refl) refl),
    )

-- On a database whose index is valid, a user with no directory yet publishes one file at the top of
-- it and withdraws it: the first call returns a database that has the file at its path, and the
-- second call, on that database, panics.
pub withdraw_last_panics :
    (d : Database) (owner u n : Str) (fi : FileInfo)
    → IsIndexed d
    → find_dir u (dirs d.file_tree) ≡ none
    → (d' : Database) × (set_file (u ∷ n ∷ []) (some fi) owner d ≡ ok d')
      × (file_at (u ∷ n ∷ []) d'.file_tree ≡ some fi)
      × (set_file (u ∷ n ∷ []) none owner d' ≡ panic)
unfolding set_file
withdraw_last_panics d owner u n fi valid h =
    let (t', ow', run, p) = withdraw_in u n fi owner d.file_tree d.owners h in
    let d' : Database = record { file_tree = t'; owners = ow' } in
    let stores : set_file (u ∷ n ∷ []) (some fi) owner d ≡ ok d' = rw run refl in
    (d', stores, (set_file_sets d owner valid u (n ∷ []) (some fi) d' stores).here, rw p refl)

-- After a `SetFile` with a file that returns, on a database whose index is valid, `GetOwners`
-- lists its owner under the file's hash.
pub set_file_lists_owner :
    (d : Database) (owner : Str) (valid : IsIndexed d) (p : Str) (rest : List Str) (fi : FileInfo)
    (d' : Database)
    → set_file (p ∷ rest) (some fi) owner d ≡ ok d'
    → has_name owner (get_owners fi.hash d') ≡ true
unfolding set_file get_owners
set_file_lists_owner d owner valid p rest fi d' run =
    let (t', ow', ran, s) =
      set_in-IsStored fi owner 0 p rest d.file_tree d.owners (valid.owned (p ∷ rest)) in
    let made : set_file (p ∷ rest) (some fi) owner d
        ≡ ok (record { file_tree = t'; owners = ow' }) =
      rw ran refl in
    subst (λ e. has_name owner (get_owners fi.hash e) ≡ true) (ok_injective (sym made ∙ run))
      (has_name-keys owner (map_or_empty (lookup fi.hash ow')) ∙ s.listed)
