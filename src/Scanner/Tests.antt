-- ===== src/Scanner/Tests.antt =====
-- A pass over a folder of two files.
use rufs.Base.{
  if◌then◌else◌, ◌≡◌, refl, true, none, some, text, ◌==◌, Dict, [], ◌∷◌, nat_eq, lookup, insert,
  delete, contains,
}
use rufs.Scanner.{
  Listener, set_info, Stat, Entries, folder, file, cons, nil, scan_filesystem, notify, Scanner,
  normal_pass, fast_pass, new_scanner,
}
use rufs.Fuse.{join_path}
use rufs.Common.{FileInfo}
use rufs.Scanner.Listeners.{occurs, called, export_of, set_info-exports}
use rufs.Scanner.Restart.{
  complete, torn, save, start_up, round, cache_file_name, dashed, restart_hashes_changes,
}
use rufs.Scanner.Pass.{after_pass, refreshed, lookup-normal_pass}

program : Unit {0}
unfolding save start_up round cache_file_name dashed join_path new_scanner fast_pass refreshed
    scan_filesystem notify normal_pass after_pass ◌==◌ lookup insert delete contains
program = tt

abbrev tree : Entries
tree =
    cons
      (folder (text "rock") (cons (file (text "song") true (record { size = 3; mtime = 5 })) nil))
      (cons
        (folder (text ".git") (cons (file (text "head") true (record { size = 1; mtime = 1 })) nil))
        (cons (file (text "note") true (record { size = 9; mtime = 2 })) nil))

abbrev found : Dict Stat
found =
    (text "rock/song", record { size = 3; mtime = 5 })
    ∷ (text "note", record { size = 9; mtime = 2 })
    ∷ []

found_is : scan_filesystem [] tree ≡ found
unfolding program
found_is = refl

abbrev before : Scanner
before = record {
  file_cache =
      (text "note", record { size = 9; hash = text "h9"; mtime = 2 })
      ∷ (text "gone", record { size = 2; hash = text "h2"; mtime = 2 })
      ∷ [];
  listeners = 1 ∷ 2 ∷ [];
  exports = [];
}

-- The first of three listeners is done: the last takes its place, and both others are called.
notify_moves :
    notify 3 0
      (λ l. nat_eq l 1)
      (λ l. record { listener = l; path = text "p"; info = none; old = none })
      (1 ∷ 2 ∷ 3 ∷ [])
      []
    ≡ (
      3 ∷ 2 ∷ [],
      record { listener = 2; path = text "p"; info = none; old = none }
          ∷ record { listener = 3; path = text "p"; info = none; old = none }
          ∷ [],
    )
unfolding program
notify_moves = refl

lookup-normal_pass_example :
    lookup
      (text "rock/song")
      (normal_pass (λ l. nat_eq l 1) (λ p. some (text "h")) found before).file_cache
    ≡ some (record { size = 3; hash = text "h"; mtime = 5 })
unfolding program
lookup-normal_pass_example =
    lookup-normal_pass (λ l. nat_eq l 1) (λ p. some (text "h")) (text "rock/song") found before
      (refl, (refl, tt))

-- Listener 1 is done, listener 2 hears that the note is gone.
abbrev after : Scanner
after = set_info (λ l. nat_eq l 1) (text "note") none before

set_info-exports_example :
    (after.exports
      ≡ called
          (export_of (text "note") none (lookup (text "note") before.file_cache))
          after.listeners
          [])
    × ((l : Listener)
        → occurs l after.listeners ≡ (if nat_eq l 1 then 0 else occurs l (1 ∷ 2 ∷ [])))
set_info-exports_example = set_info-exports (λ l. nat_eq l 1) (text "note") none before

named : cache_file_name (text "/var") (text "/music/rock") ≡ text "/var/hashcache--music-rock.dat"
unfolding program
named = refl

-- The disk knows the song as it is, and an older note.
abbrev disk : Dict FileInfo
disk =
    (text "rock/song", record { size = 3; hash = text "h3"; mtime = 5 })
    ∷ (text "note", record { size = 8; hash = text "h8"; mtime = 1 })
    ∷ []

restart_hashes_changes_example :
    ((start_up (λ l. true) (λ p. some (text "new")) found complete (some disk) new_scanner).1
      ≡ some
          (start_up
            (λ l. true)
            (λ p. some (text "new"))
            found
            complete
            (some disk)
            new_scanner).0.file_cache)
    × (lookup
          (text "note")
          (start_up
            (λ l. true)
            (λ p. some (text "new"))
            found
            complete
            (some disk)
            new_scanner).0.file_cache
        ≡ some (record { size = 9; hash = text "new"; mtime = 2 }))
unfolding program
restart_hashes_changes_example =
    restart_hashes_changes (λ l. true) (λ p. some (text "new")) found disk (text "note")
      (refl, (refl, tt))

-- An error that the closing of the file has is dropped, and with it the hashes.
lost : save torn before (some disk) ≡ none
unfolding program
lost = refl
