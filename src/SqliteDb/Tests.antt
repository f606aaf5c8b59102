-- ===== src/SqliteDb/Tests.antt =====
-- Two peers on the SQLite database.
use rufs.Base.{
  Error, Option, err, other_error, arith, true, ◌≡◌, refl, none, some, not, ◌&&◌, Str, text, slash,
  join, split, ◌==◌, List, [], ◌∷◌, Dict, lookup, insert, contains, if◌then◌else◌, ok,
}
use mathlib.Core.List.{Mem}
use mathlib.Core.List.Perm
use rufs.Common.{FileInfo}
use rufs.Fuse.{is_name}
use rufs.SqliteDb.{
  SetupCall, create_table, Row, Database, Engine, new_database, row_of, info_of, has_key, select,
  find_row, delete_rows, add_row, append_to, extend_up, extend_cache, parts_of, set_file,
  peer_disconnected, distinct, get_owners, climb, climb_all, update_dir_cache, fill_cache, dirs_in,
  files_of, get_dir,
}
use rufs.SqliteDb.Table.{IsTable, row_at, row_for, same_key, set_file_writes}
use rufs.SqliteDb.Peers.{peer_disconnected_forgets}
use rufs.SqliteDb.Listing.{has_file, get_dir_lists_rows}
use rufs.SqliteDb.Ancestors.{listed, update_dir_cache_lists}
use rufs.SqliteDb.Names.{IsOnce, names_in, extended, set_file_lists_parent_only}

program : Unit {0}
unfolding new_database row_of info_of has_key select find_row delete_rows add_row append_to
    extend_up extend_cache parts_of set_file peer_disconnected distinct get_owners climb climb_all
    update_dir_cache fill_cache files_of get_dir is_name join split ◌==◌ lookup insert contains
    has_file
program = tt

-- An engine without errors.
abbrev fine : Engine
fine s = none

abbrev empty : Database
empty = record { rows = []; dir_cache = none }

opens : new_database (λ c. none) ≡ ok empty
unfolding program
opens = refl

-- A disk on which no table can be made.
abbrev broken : SetupCall → Option Error
broken create_table = some (other_error 10)
broken c = none

not_opened : new_database broken ≡ err (other_error 10)
unfolding program
not_opened = refl

abbrev song : FileInfo
song = record { size = 5; hash = text "h"; mtime = 3_000_000_007 }

abbrev row : Str → Row
row peer = record {
  directory = text "amy";
  file = text "song";
  size = 5;
  mtime = 3;
  hash = text "h";
  peer = peer;
}

abbrev two_rows : Database
two_rows = record {
  rows = row (text "amy@1") ∷ row (text "amy@2") ∷ [];
  dir_cache = some (([], text "amy" ∷ []) ∷ (text "amy", []) ∷ []);
}

-- The time comes back in whole seconds.
seconds : (info_of (row_of (text "amy") (text "song") song (text "amy@1"))).mtime ≡ 3_000_000_000
unfolding program
seconds = refl

published :
    (set_file fine (text "amy" ∷ text "song" ∷ []) (some song) (text "amy@1") empty).0.rows
    ≡ row (text "amy@1") ∷ []
unfolding program
published = refl

abbrev deep : List Str
deep = text "amy" ∷ text "x" ∷ text "y" ∷ []

-- A file in amy/x/y: the cached listing of amy does not get x.
unlisted : dirs_in (text "amy") (extend_cache deep two_rows.dir_cache) ≡ []
unfolding program
unlisted = refl

-- Read from the rows, it has x.
x_listed :
    names_in
      (text "amy")
      (update_dir_cache (row_of (join slash deep) (text "f") song (text "amy@1") ∷ two_rows.rows))
    ≡ text "x" ∷ []
unfolding program
x_listed = refl

-- A directory without subdirectories, filled from the rows: the next file in it lists it twice.
twice :
    dirs_in (text "amy/x") (
      extend_cache deep
        (some (update_dir_cache (row_of (join slash deep) (text "f") song (text "amy@1") ∷ []))))
    ≡ text "y" ∷ text "y" ∷ []
unfolding program
twice = refl

set_file_writes_example :
    ((set_file fine (text "amy" ∷ text "song" ∷ []) none (text "amy@2") two_rows).1 ≡ ok tt)
    × IsTable (set_file fine (text "amy" ∷ text "song" ∷ []) none (text "amy@2") two_rows).0.rows
    × ((a b o : Str)
        → row_at a b o
            (set_file fine (text "amy" ∷ text "song" ∷ []) none (text "amy@2") two_rows).0.rows
          ≡ (if same_key (join slash (text "amy" ∷ [])) (text "song") (text "amy@2") a b o
              then row_for (join slash (text "amy" ∷ [])) (text "song") (text "amy@2") none
              else row_at a b o two_rows.rows))
unfolding program
set_file_writes_example =
    set_file_writes fine refl refl refl refl (text "amy") (text "song") (text "amy@2")
      (text "song" ∷ []) (text "amy" ∷ []) none two_rows refl (refl, (refl, tt))

peer_disconnected_forgets_example :
    (before after : List Str) × (get_owners fine (text "h") two_rows ≡ ok before)
    × ((peer_disconnected fine (text "amy@1") two_rows).1 ≡ ok tt)
    × (get_owners fine (text "h") (peer_disconnected fine (text "amy@1") two_rows).0 ≡ ok after)
    × ((o : Str) → is_name o after ≡ (not (text "amy@1" == o) && is_name o before))
peer_disconnected_forgets_example =
    peer_disconnected_forgets fine refl (text "amy@1") (text "h") two_rows refl

get_dir_lists_rows_example :
    (files : Dict FileInfo) × ((get_dir fine (λ rows. rows) (text "amy") two_rows).1
      ≡ ok (files, dirs_in (text "amy") (fill_cache fine two_rows)))
    × ((n : Str) → contains n files ≡ has_file (text "amy") n two_rows.rows)
    × ((n : Str) (i : FileInfo)
        → lookup n files ≡ some i
        → (r : Row) × Mem r two_rows.rows
          × (r.directory ≡ text "amy")
          × (r.file ≡ n)
          × (info_of r ≡ i))
get_dir_lists_rows_example =
    get_dir_lists_rows fine (λ rows. rows) (λ rows. Perm.rfl) refl (text "amy") two_rows

set_file_lists_parent_only_example :
    (c' : Dict (List Str)) × ((set_file fine
        (text "amy" ∷ text "x" ∷ text "y" ∷ text "f" ∷ [])
        (some song)
        (text "amy@1")
        two_rows).0.dir_cache
      ≡ some c')
    × ((k : Str) → lookup k c' ≡ extended deep 2 k (([], text "amy" ∷ []) ∷ (text "amy", []) ∷ []))
unfolding program
set_file_lists_parent_only_example =
    set_file_lists_parent_only fine refl refl refl refl (text "amy") (text "f") (text "amy@1")
      (text "x" ∷ text "y" ∷ text "f" ∷ []) deep song two_rows
      (([], text "amy" ∷ []) ∷ (text "amy", []) ∷ []) 2 refl refl refl refl

abbrev deep_rows : List Row
deep_rows = row_of (join slash deep) (text "f") song (text "amy@1") ∷ two_rows.rows

update_dir_cache_lists_example :
    (listed (update_dir_cache deep_rows) deep 1 ≡ true)
    × IsOnce (names_in (text "amy") (update_dir_cache deep_rows))
unfolding program
update_dir_cache_lists_example =
    update_dir_cache_lists deep_rows (text "amy") (text "x" ∷ text "y" ∷ []) 1
      (
        (text "amy", text "x" ∷ text "y" ∷ [], ground arith, refl),
        ((text "amy", [], ground arith, refl), ((text "amy", [], ground arith, refl), tt)),
      )
      (ground arith) refl (omega arith)
