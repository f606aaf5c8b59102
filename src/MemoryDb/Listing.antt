-- ===== src/MemoryDb/Listing.antt =====
-- `GetDir` against the tree as a map from paths to files.
use rufs.Base.{
  ℤ, ◌≡◌, refl, sym, ◌∙◌, ap, Dict, Option, none, some, Option-cases, inl, inr, Str, lookup, List,
  [], ◌∷◌, ◌++◌, ok, ok_injective, >>=-eq-ok, else_of_ok,
}
use rufs.Common.{FileInfo}
use rufs.MemoryDb.{
  Database, Directory, directory, Subdirs, files, dirs, dir_names, find_dir, is_bad_part, walk_dir,
  path_parts, get_dir, set_file,
}
use rufs.MemoryDb.Files.{file_at, IsGood}
use rufs.MemoryDb.Index.{IsIndexed, set_file_sets}

below : Str → Option Directory → List Str → Option FileInfo
unfolding file_at
below n none ex = none
below n (some sd) ex = file_at (ex ++ n ∷ []) sd

file_at-cons :
    (p n : Str) (ex : List Str) (ds : Subdirs) (fs : Dict FileInfo) (r : ℤ)
    → file_at (p ∷ ex ++ n ∷ []) (directory ds fs r) ≡ below n (find_dir p ds) ex
unfolding file_at below
file_at-cons p n [] ds fs r = elim (Option-cases (find_dir p ds)) [
  | inl e ↦ rw (file_at, e) refl
  | inr (sd, e) ↦ rw (file_at, e) refl
]
file_at-cons p n (q ∷ ex) ds fs r = elim (Option-cases (find_dir p ds)) [
  | inl e ↦ rw (file_at, e) refl
  | inr (sd, e) ↦ rw (file_at, e) refl
]

-- Where the walk arrives at a directory, that is the one whose files stand below the path.
files_at :
    (n : Str) (ps : List Str) (t t' : Directory)
    → walk_dir ps t ≡ ok t'
    → lookup n (files t') ≡ file_at (ps ++ n ∷ []) t
unfolding walk_dir file_at below
files_at n [] t t' h = ap (λ u. lookup n (files u)) (sym (ok_injective h))
files_at n (p ∷ ps) (directory ds fs r) t' h =
    let (g, rest) = else_of_ok (is_bad_part p) _ _ h in
    elim (Option-cases (find_dir p ds)) [
      | inl e ↦ cc (rw e at rest)
      | inr (sd, e) ↦
          files_at n ps sd t' (rw e at rest)
          ∙ sym (file_at-cons p n ps ds fs r ∙ rw (below, e) refl)
    ]

walks :
    (n : Str) (fi : FileInfo) (ps : List Str) (t : Directory)
    → IsGood ps
    → file_at (ps ++ n ∷ []) t ≡ some fi
    → (t' : Directory) × (walk_dir ps t ≡ ok t')
unfolding walk_dir below
walks n fi [] t g h = (t, refl)
walks n fi (p ∷ ps) (directory ds fs r) g h =
    let there = sym (file_at-cons p n ps ds fs r) ∙ h in
    elim (Option-cases (find_dir p ds)) [
      | inl e ↦
          let gone : ◌≡◌ {A = Option FileInfo} none (some fi) = rw (below, e) at there in
          absurd (cc gone)
      | inr (sd, e) ↦
          let (t', run) = walks n fi ps sd g.1 (rw (below, e) at there) in
          (t', rw (walk_dir, g.0, e) run)
    ]

set_here :
    (n : Str) (ps : List Str) (fi : FileInfo) (owner : Str) (d d' : Database)
    → IsIndexed d
    → set_file (ps ++ n ∷ []) (some fi) owner d ≡ ok d'
    → file_at (ps ++ n ∷ []) d'.file_tree ≡ some fi
set_here n [] fi owner d d' v run = (set_file_sets d owner v n [] (some fi) d' run).here
set_here n (p ∷ ps) fi owner d d' v run =
    (set_file_sets d owner v p (ps ++ n ∷ []) (some fi) d' run).here

-- A listing that `GetDir` gives has a file under a name exactly where the tree has it below the
-- listed path.
pub lookup-get_dir :
    (dir n : Str) (d : Database) (fs : Dict FileInfo) (ds : List Str)
    → get_dir dir d ≡ ok (fs, ds)
    → lookup n fs ≡ file_at (path_parts dir ++ n ∷ []) d.file_tree
unfolding get_dir
lookup-get_dir dir n d fs ds run =
    let (t, a, b) = >>=-eq-ok (walk_dir (path_parts dir) d.file_tree) _ run in
    ap (λ p. lookup n p.0) (sym (ok_injective b)) ∙ files_at n (path_parts dir) d.file_tree t a

-- Where the tree has a file, `GetDir` lists its directory.
pub get_dir_returns :
    (dir n : Str) (fi : FileInfo) (d : Database)
    → IsGood (path_parts dir)
    → file_at (path_parts dir ++ n ∷ []) d.file_tree ≡ some fi
    → (fs : Dict FileInfo) × (ds : List Str) × (get_dir dir d ≡ ok (fs, ds))
unfolding get_dir
get_dir_returns dir n fi d g h =
    let (t, e) = walks n fi (path_parts dir) d.file_tree g h in
    (files t, dir_names (dirs t), rw e refl)

-- A file that `SetFile` has stored below a path whose parts are good is found by `GetDir`: it
-- returns, and the listing has the file under its name.
pub get_dir_finds :
    (dir n : Str) (fi : FileInfo) (owner : Str) (d d' : Database)
    → IsIndexed d
    → IsGood (path_parts dir)
    → set_file (path_parts dir ++ n ∷ []) (some fi) owner d ≡ ok d'
    → (fs : Dict FileInfo) × (ds : List Str) × (get_dir dir d' ≡ ok (fs, ds))
      × (lookup n fs ≡ some fi)
unfolding get_dir
get_dir_finds dir n fi owner d d' v g run =
    let here = set_here n (path_parts dir) fi owner d d' v run in
    let (t, e) = walks n fi (path_parts dir) d'.file_tree g here in
    (files t, dir_names (dirs t), rw e refl, files_at n (path_parts dir) d'.file_tree t e ∙ here)
