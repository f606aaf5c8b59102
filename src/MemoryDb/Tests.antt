-- ===== src/MemoryDb/Tests.antt =====
-- Runs of the database in memory, and the theorems at concrete inputs.
use rufs.Base.{
  true, ne_of_false, Dict, ◌≡◌, refl, none, some, Str, text, List, [], ◌∷◌, ok, err, panic, map_ok,
  pos, ◌==◌, lookup, insert, delete, contains, split, enoent, invalid_part,
}
use rufs.Common.{FileInfo}
use rufs.MemoryDb.{
  Database, directory, nil, cons, new_database, set_file, peer_disconnected, get_owners, get_dir,
}
use rufs.MemoryDb.Files.{file_at}
use rufs.MemoryDb.Listing.{lookup-get_dir, get_dir_finds}
use rufs.MemoryDb.Owners.{has_name}
use rufs.MemoryDb.Index.{
  set_file_lists_owner, IsIndexed, IsSetTo, new_database-IsIndexed, set_file_stores,
  set_file_removes, set_file_sets, withdraw_last_panics,
}
use rufs.MemoryDb.Disconnect.{disconnect_leaves_shared}

program : Unit {0}
unfolding new_database set_file peer_disconnected get_owners get_dir file_at ◌==◌ lookup insert
    delete contains split
program = tt

abbrev song : FileInfo
song = record { size = 3; hash = text "h1"; mtime = 5 }

abbrev stored : Database
stored = record {
  file_tree =
      directory
        (cons (text "amy")
          (directory (cons (text "music") (directory nil ((text "song", song) ∷ []) (pos 1)) nil) []
            (pos 1))
          nil)
        [] (pos 1);
  owners = (text "h1", (text "amy@x", pos 1) ∷ []) ∷ [];
}

-- The same with a second owner.
abbrev shared : Database
shared = record stored {
  owners = (text "h1", (text "amy@x", pos 1) ∷ (text "bob@y", pos 1) ∷ []) ∷ [];
}

abbrev song_path : List Str
song_path = text "amy" ∷ text "music" ∷ text "song" ∷ []

store_runs : set_file song_path (some song) (text "amy@x") new_database ≡ ok stored
unfolding program
store_runs = refl

listing_runs :
    (get_dir (text "amy/music") stored ≡ ok ((text "song", song) ∷ [], []))
    × (get_dir (text "") stored ≡ ok ([], text "amy" ∷ []))
    × (get_dir (text "amy/films") stored ≡ err enoent)
    × (get_dir (text "amy/.x") stored ≡ err (invalid_part (text ".x")))
unfolding program
listing_runs = (refl, refl, refl, refl)

disconnect_runs :
    (map_ok (λ d. file_at song_path d.file_tree) (peer_disconnected (text "amy@x") stored)
      ≡ ok none)
    × (map_ok (get_owners (text "h1")) (peer_disconnected (text "amy@x") stored) ≡ ok [])
unfolding program
disconnect_runs = (refl, refl)

stored-IsIndexed : IsIndexed stored
stored-IsIndexed =
    (set_file_sets new_database (text "amy@x") new_database-IsIndexed (text "amy")
      (text "music" ∷ text "song" ∷ []) (some song) stored store_runs).indexed

set_file_stores_example :
    (d' : Database) × (set_file song_path (some song) (text "bob@y") stored ≡ ok d')
    × IsSetTo song_path (some song) stored d'
set_file_stores_example =
    set_file_stores stored (text "bob@y") stored-IsIndexed (text "amy")
      (text "music" ∷ text "song" ∷ []) song

set_file_removes_example :
    (d' : Database) × (set_file song_path none (text "amy@x") stored ≡ ok d')
    × IsSetTo song_path none stored d'
set_file_removes_example =
    set_file_removes stored (text "amy@x") stored-IsIndexed (text "amy") (text "music")
      (text "song") []

withdraw_last_panics_example :
    (d' : Database) × (set_file
        (text "amy" ∷ text "song" ∷ [])
        (some song)
        (text "amy@x")
        new_database
      ≡ ok d')
    × (file_at (text "amy" ∷ text "song" ∷ []) d'.file_tree ≡ some song)
    × (set_file (text "amy" ∷ text "song" ∷ []) none (text "amy@x") d' ≡ panic)
unfolding program
withdraw_last_panics_example =
    withdraw_last_panics new_database (text "amy@x") (text "amy") (text "song") song
      new_database-IsIndexed refl

abbrev emptied : Database
emptied = record {
  file_tree =
      directory
        (cons (text "amy")
          (directory (cons (text "music") (directory nil [] (pos 1)) nil) [] (pos 1)) nil)
        [] (pos 1);
  owners = (text "h1", []) ∷ [];
}

disconnect_leaves_shared_example :
    (d' : Database) × (peer_disconnected (text "amy@x") shared ≡ ok d')
    × (d' ≡ shared)
    × (has_name (text "amy@x") (get_owners (text "h1") d') ≡ true)
unfolding program
disconnect_leaves_shared_example =
    disconnect_leaves_shared (text "amy@x") (text "h1") shared
      ((λ has. (text "bob@y", refl, ne_of_false _ _ refl)), tt) refl

abbrev amy_music : Str
amy_music = text "amy/music"

lookup-get_dir_example :
    lookup (text "song") ((text "song", song) ∷ []) ≡ file_at song_path stored.file_tree
unfolding program
lookup-get_dir_example =
    lookup-get_dir amy_music (text "song") stored ((text "song", song) ∷ []) [] refl

get_dir_finds_example :
    (fs : Dict FileInfo) × (ds : List Str) × (get_dir amy_music stored ≡ ok (fs, ds))
    × (lookup (text "song") fs ≡ some song)
unfolding program
get_dir_finds_example =
    get_dir_finds amy_music (text "song") song (text "amy@x") new_database stored
      new_database-IsIndexed (refl, (refl, tt)) refl

set_file_lists_owner_example : has_name (text "amy@x") (get_owners (text "h1") stored) ≡ true
set_file_lists_owner_example =
    set_file_lists_owner new_database (text "amy@x") new_database-IsIndexed (text "amy")
      (text "music" ∷ text "song" ∷ []) song stored store_runs
