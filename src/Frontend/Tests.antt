-- ===== src/Frontend/Tests.antt =====
-- A listing in the cache, tick by tick.
use rufs.Base.{
  ◌≡◌, refl, none, some, text, ◌==◌, trim_slashes, [], ◌∷◌, lookup, insert, delete, contains, ok,
  enoent,
}
use rufs.Frontend.{DirReply, Frontend, Remote, tick, get_dir_cached, get_file_info, split_path}
use rufs.Frontend.Expiry.{three_ticks}

program : Unit {0}
unfolding tick get_dir_cached get_file_info split_path trim_slashes ◌==◌ lookup insert delete
    contains
program = tt

abbrev listing : DirReply
listing = record {
  dirs = text "rock" ∷ [];
  files = (text "song", record { size = 3; hash = text "h1"; mtime = 5 }) ∷ [];
}

abbrev master : Remote DirReply
master dn = ok listing

abbrev fresh : Frontend
fresh = record { cache = []; cache_expiry = [] }

splits : split_path (text "amy/music/song") ≡ (text "amy/music/", text "song")
unfolding program
splits = refl

info_found :
    (get_file_info enoent master (text "amy/music/song") fresh).1
    ≡ ok (record { size = 3; hash = text "h1"; mtime = 5 })
unfolding program
info_found = refl

three_ticks_example :
    (lookup (text "amy") (tick (tick (get_dir_cached master (text "/amy/") fresh).0)).cache
      ≡ some listing)
    × (lookup (text "amy") (tick (tick (tick (get_dir_cached master (text "/amy/") fresh).0))).cache
        ≡ none)
unfolding program
three_ticks_example = three_ticks master (text "/amy/") listing fresh tt refl refl
