-- ===== src/SqliteDb.antt =====
-- database_sqlite.go, which the build tag sqlite puts in place of database_inmem.go. The
-- statements of the source are read as what they say of the table `fs`; how the engine answers
-- each of them, with success or an error, is a parameter. What a transaction that is left open
-- does to later calls is not modelled: an error of the engine leaves the rows as they were, and
-- comes before the first row of a query.
pub mod Table
pub mod Peers
pub mod Listing
pub mod Names
pub mod Ancestors
mod Tests
use rufs.Base.{
  ℕ, zero, suc, ◌*◌, ◌/◌, List, [], ◌∷◌, ◌++◌, Option, none, some, Bool, true, false, not, ◌&&◌,
  Str, slash, split, join, ◌==◌, Dict, lookup, insert, contains, length, take, get_elem?, map,
  if◌then◌else◌, Error, other_error, Result, ok, err, panic, ◌>>=◌,
}
use rufs.Common.{FileInfo}
use rufs.Fuse.{is_name}

-- A row of `fs`; its key is the directory, the file and the peer.
pub record Row : Type 0 where
  pub directory : Str
  pub file : Str
  pub size : ℕ
  pub mtime : ℕ
  pub hash : Str
  pub peer : Str

pub record Database : Type 0 where
  pub rows : List Row
  pub dir_cache : Option (Dict (List Str))

abbrev done : Option Error → Result (Unit {0})
done none = ok tt
done (some e) = err e

-- The calls of `newDatabase`, in their order: the opening, the making of the table, three settings,
-- and the six statements that are prepared.
pub data SetupCall : Type 0 where
  open_file create_table no_synchronous no_journal exclusive : SetupCall
  prepare_add prepare_delete prepare_disconnect : SetupCall
  prepare_owners prepare_dir prepare_all_dirs : SetupCall

-- `newDatabase` with the error of each call, if it fails: the first error is returned, and a
-- database that was opened has an empty table and no cache.
unfoldable pub new_database : (SetupCall → Option Error) → Result Database
new_database io = do
  opened ← done (io open_file)
  created ← done (io create_table)
  off ← done (io no_synchronous)
  none_kept ← done (io no_journal)
  locked ← done (io exclusive)
  added ← done (io prepare_add)
  deleted ← done (io prepare_delete)
  gone ← done (io prepare_disconnect)
  asked ← done (io prepare_owners)
  listed ← done (io prepare_dir)
  all ← done (io prepare_all_dirs)
  ok (record { rows = []; dir_cache = none })

-- The calls of the engine that can fail.
pub data Statement : Type 0 where
  begin delete_file add_file commit disconnect all_dirs owners dir : Statement

-- The error of a statement, if it fails.
abbrev pub Engine : Type 0
Engine = Statement → Option Error

-- Times are counted in nanoseconds; `Unix` and `time.Unix` are in seconds.
abbrev pub nanos : ℕ
nanos = 1_000_000_000

unfoldable pub row_of : Str → Str → FileInfo → Str → Row
row_of dn f fi owner = record {
  directory = dn;
  file = f;
  size = fi.size;
  mtime = fi.mtime / nanos;
  hash = fi.hash;
  peer = owner;
}

unfoldable pub info_of : Row → FileInfo
info_of r = record { size = r.size; hash = r.hash; mtime = r.mtime * nanos }

-- Whether a row has a key.
unfoldable pub has_key : Str → Str → Str → Row → Bool
has_key dn f owner r = r.directory == dn && (r.file == f && r.peer == owner)

unfoldable pub select : (Row → Bool) → List Row → List Row
select p [] = []
select p (r ∷ rows) = let rest = select p rows in if p r then r ∷ rest else rest

-- The first row that passes a test.
unfoldable pub find_row : (Row → Bool) → List Row → Option Row
find_row p [] = none
find_row p (r ∷ rows) = let rest = find_row p rows in if p r then some r else rest

-- stmtDeleteFile
unfoldable pub delete_rows : (Row → Bool) → List Row → List Row
unfolding select
delete_rows p rows = select (λ r. not (p r)) rows

-- stmtAddFile: the primary key may not be taken.
unfoldable pub add_row : Row → List Row → Result (List Row)
unfolding find_row
add_row r rows = elim (find_row (has_key r.directory r.file r.peer) rows) [
  | none ↦ ok (r ∷ rows)
  | some old ↦ err (other_error 19)
]

-- `d.dirCache[dn]`; a missing name gives nil.
abbrev pub list_or_empty : Option (List Str) → List Str
list_or_empty none = []
list_or_empty (some ns) = ns

abbrev pub str_or_empty : Option Str → Str
str_or_empty none = []
str_or_empty (some s) = s

-- `d.dirCache[dn] = append(d.dirCache[dn], f)`
unfoldable pub append_to : Str → Str → Dict (List Str) → Dict (List Str)
append_to dn f c = insert dn (list_or_empty (lookup dn c) ++ f ∷ []) c

-- The loop of `SetFile` over the parents; the number is `s`, and the list is of the directories.
unfoldable pub extend_up : ℕ → List Str → Dict (List Str) → Dict (List Str)
unfolding append_to
extend_up zero dirs c = c
extend_up (suc s) dirs c =
    let rest =
      extend_up s dirs (append_to (join slash (take s dirs)) (str_or_empty (get_elem? dirs s)) c) in
    if contains (join slash (take (suc s) dirs)) c then c else rest

-- What `SetFile` does to the cache of directories when it adds a file.
unfoldable pub extend_cache : List Str → Option (Dict (List Str)) → Option (Dict (List Str))
unfolding extend_up
extend_cache dirs none = none
extend_cache dirs (some c) =
    let dn = join slash dirs in
    if contains dn c then some c else some (insert dn [] (extend_up (length dirs) dirs c))

-- `fnEx[:len(fnEx)-1]` and the last part.
unfoldable pub parts_of : Str → List Str → List Str × Str
parts_of p [] = ([], p)
parts_of p (q ∷ ps) = let (dirs, f) = parts_of q ps in (p ∷ dirs, f)

abbrev pub after_statement {ℓ} :
    {A : Type ℓ} → Option Error → Database → Database × Result A → Database × Result A
after_statement none d k = k
after_statement (some e) d k = (d, err e)

-- `tx.Commit()`
abbrev pub committed : Option Error → List Row → Database → Database × Result (Unit {0})
committed none rows d = (record d { rows = rows }, ok tt)
committed (some e) rows d = (d, err e)

unfoldable pub set_file :
    Engine → List Str → Option FileInfo → Str → Database → Database × Result (Unit {0})
set_file io [] v owner d = (d, panic)
set_file io (p ∷ ps) v owner d =
    let (dirs, f) = parts_of p ps in
    let dn = join slash dirs in
    let rows = delete_rows (has_key dn f owner) d.rows in
    after_statement (io begin) d (
      after_statement (io delete_file) d (elim v [
        | none ↦ committed (io commit) rows (record d { dir_cache = none })
        | some fi ↦ after_statement (io add_file) d (elim (add_row (row_of dn f fi owner) rows) [
          | ok rows' ↦
              committed (io commit) rows' (record d { dir_cache = extend_cache dirs d.dir_cache })
          | err e ↦ (d, err e)
          | panic ↦ (d, panic)
        ])
      ]))

-- stmtDisconnect. The cache is dropped also after an error.
unfoldable pub peer_disconnected : Engine → Str → Database → Database × Result (Unit {0})
peer_disconnected io owner d = elim (io disconnect) [
  | none ↦ (record { rows = delete_rows (λ r. r.peer == owner) d.rows; dir_cache = none }, ok tt)
  | some e ↦ (record d { dir_cache = none }, err e)
]

-- DISTINCT
unfoldable pub distinct : List Str → List Str
unfolding is_name
distinct [] = []
distinct (n ∷ ns) = let rest = distinct ns in if is_name n rest then rest else n ∷ rest

-- stmtGetOwners
unfoldable pub get_owners : Engine → Str → Database → Result (List Str)
get_owners io hash d = elim (io owners) [
  | none ↦ ok (distinct (map (λ r. r.peer) (select (λ r. r.hash == hash) d.rows)))
  | some e ↦ err e
]

-- The inner loop of `updateDirCache` over the parts of one directory; the number is `s + 1`.
unfoldable pub climb : ℕ → List Str → Dict (List Str) → Dict (List Str)
unfolding append_to is_name
climb zero ex c = c
climb (suc s) ex c =
    let dn = join slash (take s ex) in
    let f = str_or_empty (get_elem? ex s) in
    let rest = climb s ex (append_to dn f c) in
    if is_name f (list_or_empty (lookup dn c)) then c else rest

unfoldable pub climb_all : List Str → Dict (List Str) → Dict (List Str)
unfolding climb
climb_all [] c = c
climb_all (d ∷ ds) c = let ex = split slash d in climb_all ds (climb (length ex) ex c)

-- `updateDirCache`, where the query succeeds.
unfoldable pub update_dir_cache : List Row → Dict (List Str)
unfolding climb_all distinct
update_dir_cache rows = climb_all (distinct (map (λ r. r.directory) rows)) []

-- The cache that `GetDir` reads. An error of the query is dropped, and the cache stays nil.
unfoldable pub fill_cache : Engine → Database → Option (Dict (List Str))
unfolding update_dir_cache
fill_cache io d = elim d.dir_cache [
  | some c ↦ some c
  | none ↦ elim (io all_dirs) [ none ↦ some (update_dir_cache d.rows) | some e ↦ none ]
]

abbrev pub dirs_in : Str → Option (Dict (List Str)) → List Str
dirs_in dn none = []
dirs_in dn (some c) = list_or_empty (lookup dn c)

-- The rows of a directory, with the first one of each file: of the rows that GROUP BY joins SQLite
-- gives any one, and `order` is the order in which it comes to them.
unfoldable pub files_of : List Row → Dict FileInfo
unfolding info_of
files_of [] = []
files_of (r ∷ rows) = insert r.file (info_of r) (files_of rows)

unfoldable pub get_dir :
    Engine → (List Row → List Row) → Str → Database → Database × Result (Dict FileInfo × List Str)
unfolding fill_cache
get_dir io order dn d =
    let cache = fill_cache io d in
    (
      record d { dir_cache = cache },
      elim (io dir) [
        | none ↦ ok (files_of (order (select (λ r. r.directory == dn) d.rows)), dirs_in dn cache)
        | some e ↦ err e
      ],
    )
