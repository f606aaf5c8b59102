-- ===== src/MemoryDb.antt =====
-- database_inmem.go: the master's index as a tree of directories and a table of owners.
-- The pointers of the source form a tree, in which no directory is shared: an update along a path
-- gives back the tree with that path replaced.
pub mod Owners
pub mod Disconnect
pub mod Files
pub mod Instance
pub mod Index
pub mod Removal
pub mod Unique
pub mod Victims
pub mod Spared
pub mod Leaving
pub mod Listing
mod Tests
use rufs.Base.{
  ℕ, zero, suc, List, [], ◌∷◌, ◌++◌, Option, none, some, Bool, true, false, ℤ, pos, increment,
  decrement, is_zero, is_positive, Str, slash, split, ◌==◌, Dict, lookup, insert, delete, contains,
  keys, length, nat_eq, ◌&&◌, ◌||◌, if◌then◌else◌, invalid_part, enoent, Result, ok, err, panic,
  ◌>>=◌,
}
use rufs.Common.{FileInfo}

mutual
  pub data Directory : Type 0 where
    directory : Subdirs → Dict FileInfo → ℤ → Directory

  pub data Subdirs : Type 0 where
    nil : Subdirs
    cons : Str → Directory → Subdirs → Subdirs

abbrev pub empty_dir : Directory
empty_dir = directory nil [] (pos 0)

abbrev pub dirs : Directory → Subdirs
dirs (directory ds fs r) = ds

abbrev pub files : Directory → Dict FileInfo
files (directory ds fs r) = fs

abbrev pub refs : Directory → ℤ
refs (directory ds fs r) = r

-- `t.dirs[p]`
unfoldable pub find_dir : Str → Subdirs → Option Directory
find_dir p nil = none
find_dir p (cons q t ds) = if q == p then some t else find_dir p ds

-- `t.dirs[p] = sd`
unfoldable pub put_dir : Str → Directory → Subdirs → Subdirs
put_dir p sd nil = cons p sd nil
put_dir p sd (cons q t ds) = if q == p then cons p sd ds else cons q t (put_dir p sd ds)

unfoldable pub dir_names : Subdirs → List Str
dir_names nil = []
dir_names (cons q t ds) = q ∷ dir_names ds

-- hash ↦ owner ↦ number of files
abbrev pub Owners : Type 0
Owners = Dict (Dict ℤ)

pub record Database : Type 0 where
  pub file_tree : Directory
  pub owners : Owners

unfoldable pub new_database : Database
new_database = record { file_tree = empty_dir; owners = [] }

abbrev pub count_or_zero : Option ℤ → ℤ
count_or_zero none = pos 0
count_or_zero (some n) = n

-- `d.owners[f.Hash][owner]--` and the removal of a count of zero. A write to the nil map that a
-- missing hash gives panics.
unfoldable pub release_owner : Str → Str → Owners → Result Owners
release_owner hash owner ow = elim (lookup hash ow) [
  | none ↦ panic
  | some m ↦
      let n = decrement (count_or_zero (lookup owner m)) in
      ok (insert hash (if is_zero n then delete owner m else insert owner n m) ow)
]

abbrev pub map_or_empty : Option (Dict ℤ) → Dict ℤ
map_or_empty none = []
map_or_empty (some m) = m

-- `d.owners[fi.Hash][owner]++`, after the map of the hash was made if it was missing.
unfoldable pub add_owner : Str → Str → Owners → Owners
add_owner hash owner ow =
    let m = map_or_empty (lookup hash ow) in
    insert hash (insert owner (increment (count_or_zero (lookup owner m))) m) ow

-- The loop `for i := len(trace) - 1; 0 >= i; i++` after a file was deleted; the first argument is
-- len(trace), and the last directory of the trace is the one of the file. With two or more the
-- test fails at once. With one, i is 0: refs falls, and unless it stays above zero `trace[i-1]`
-- is out of range. With none, `trace[i]` is.
unfoldable pub unwind : ℕ → Directory → Result Directory
unwind zero t = panic
unwind (suc zero) (directory ds fs r) =
    if is_positive (decrement r) then ok (directory ds fs (decrement r)) else panic
unwind (suc (suc n)) t = ok t

-- The first `if f, found := t.files[basename]` of `setFileLocked`.
unfoldable pub release_old : Option FileInfo → Str → Owners → Result Owners
unfolding release_owner
release_old none owner ow = ok ow
release_old (some f) owner ow = release_owner f.hash owner ow

-- What follows it when `fi` is nil. The owners are already released.
unfoldable pub remove_file : ℕ → Str → Directory → Owners → Result (Directory × Owners)
unfolding unwind
remove_file depth basename (directory ds fs r) ow = elim (lookup basename fs) [
  | none ↦ ok (directory ds fs r, ow)
  | some f ↦ do t ← unwind depth (directory ds (delete basename fs) r); ok (t, ow)
]

-- What follows it when `fi` is not nil.
unfoldable pub store_file : Str → FileInfo → Str → Directory → Owners → Directory × Owners
unfolding add_owner
store_file basename fi owner (directory ds fs r) ow = (
  directory ds (insert basename fi fs) (if contains basename fs then r else increment r),
  add_owner fi.hash owner ow,
)

-- `setFileLocked` from the line `basename := ex[len(ex)-1]` on.
unfoldable pub set_leaf :
    ℕ → Str → Option FileInfo → Str → Directory → Owners → Result (Directory × Owners)
unfolding release_old remove_file store_file
set_leaf depth basename none owner t ow = do
  ow' ← release_old (lookup basename (files t)) owner ow
  remove_file depth basename t ow'
set_leaf depth basename (some fi) owner t ow = do
  ow' ← release_old (lookup basename (files t)) owner ow
  ok (store_file basename fi owner t ow')

abbrev pub is_nil {ℓ} : {A : Type ℓ} → Option A → Bool
is_nil none = true
is_nil (some a) = false

-- The walk of `setFileLocked` along the path; the first argument is len(trace). An empty path has
-- no last element.
unfoldable pub set_in :
    ℕ → List Str → Option FileInfo → Str → Directory → Owners → Result (Directory × Owners)
unfolding set_leaf find_dir put_dir
set_in depth [] fi owner t ow = panic
set_in depth (p ∷ []) fi owner t ow = set_leaf depth p fi owner t ow
set_in depth (p ∷ q ∷ rest) fi owner (directory ds fs r) ow = elim (find_dir p ds) [
  | some sd ↦ do
    (sd', ow') ← set_in (suc depth) (q ∷ rest) fi owner sd ow
    ok (directory (put_dir p sd' ds) fs r, ow')
  | none ↦
      let created = set_in (suc depth) (q ∷ rest) fi owner empty_dir ow in
      if is_nil fi
      then ok (directory ds fs r, ow)
      else do (sd', ow') ← created; ok (directory (put_dir p sd' ds) fs (increment r), ow')
]

unfoldable pub set_file : List Str → Option FileInfo → Str → Database → Result Database
unfolding set_in
set_file ex fi owner d = do
  (t, ow) ← set_in 0 ex fi owner d.file_tree d.owners
  ok (record { file_tree = t; owners = ow })

-- The hashes that `owner` alone has.
unfoldable pub victims_of : Str → Owners → List Str
victims_of owner [] = []
victims_of owner ((hash, m) ∷ ow) =
    let rest = victims_of owner ow in
    if contains owner m && nat_eq (length m) 1 then hash ∷ rest else rest

unfoldable pub is_victim : Str → List Str → Bool
is_victim hash [] = false
is_victim hash (v ∷ vs) = v == hash || is_victim hash vs

-- The first loop of `searchAndDestroy`. A deletion takes nothing but the visited entry from the
-- map, so the loop runs over the entries at its start. `setFileLocked` returns no error.
unfoldable pub destroy_files :
    Dict FileInfo → List Str → List Str → Str → Database → Result Database
unfolding is_victim set_file
destroy_files [] victims parents owner d = ok d
destroy_files ((fn, fi) ∷ fs) victims parents owner d = do
  d' ← (if is_victim fi.hash victims then set_file (parents ++ fn ∷ []) none owner d else ok d)
  destroy_files fs victims parents owner d'

-- `searchAndDestroy`, over the tree at its start: deletions leave the directories in place. The
-- order of Go's iteration over maps is open; here it is that of the entries.
unfoldable mutual
  unfolding destroy_files

  pub search_and_destroy : Directory → List Str → List Str → Str → Database → Result Database
  search_and_destroy (directory ds fs r) victims parents owner d = do
    d' ← destroy_files fs victims parents owner d
    search_subdirs ds victims parents owner d'

  pub search_subdirs : Subdirs → List Str → List Str → Str → Database → Result Database
  search_subdirs nil victims parents owner d = ok d
  search_subdirs (cons dn t ds) victims parents owner d = do
    d' ← search_and_destroy t victims (parents ++ dn ∷ []) owner d
    search_subdirs ds victims parents owner d'

unfoldable pub peer_disconnected : Str → Database → Result Database
unfolding victims_of search_and_destroy
peer_disconnected owner d = search_and_destroy d.file_tree (victims_of owner d.owners) [] owner d

unfoldable pub get_owners : Str → Database → List Str
get_owners hash d = keys (map_or_empty (lookup hash d.owners))

-- `len(p) == 0 || p[0] == '.'`
unfoldable pub is_bad_part : Str → Bool
is_bad_part [] = true
is_bad_part (c ∷ p) = nat_eq c b'.'

unfoldable pub walk_dir : List Str → Directory → Result Directory
unfolding is_bad_part find_dir
walk_dir [] t = ok t
walk_dir (p ∷ ex) (directory ds fs r) =
    if is_bad_part p
    then err (invalid_part p)
    else elim (find_dir p ds) [ some sd ↦ walk_dir ex sd | none ↦ err enoent ]

unfoldable pub path_parts : Str → List Str
path_parts [] = []
path_parts (c ∷ s) = split slash (c ∷ s)

unfoldable pub get_dir : Str → Database → Result (Dict FileInfo × List Str)
unfolding walk_dir path_parts dir_names
get_dir dir d = do t ← walk_dir (path_parts dir) d.file_tree; ok (files t, dir_names (dirs t))
