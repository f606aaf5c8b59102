-- ===== src/Ftp/Tests.antt =====
-- An FTP client on a small share.
use rufs.Base.{
  ◌*◌, ◌≡◌, refl, none, some, true, text, ◌==◌, trim_slashes, split, [], ◌∷◌, lookup, insert,
  delete, contains, ok, err, not_a_directory, arith,
}
use rufs.Common.{FileInfo}
use rufs.Fetch.{Bytes, Fetcher, Handle, new_handle, idle}
use rufs.Fetch.Blocks.{block}
use rufs.Fetch.Stream.{Stream, drain}
use rufs.Frontend.{DirReply, Frontend, Remote, get_dir_cached, get_file_info, split_path}
use rufs.Fuse.{attr, is_name}
use rufs.Ftp.{dir_info, file_info, stat, change_dir, listing, list_dir, get_file}
use rufs.Ftp.Files.{get_file-drains}

program : Unit {0}
unfolding stat change_dir listing list_dir get_file attr new_handle get_dir_cached get_file_info
    split_path trim_slashes split is_name ◌==◌ lookup insert delete contains
program = tt

abbrev song : FileInfo
song = record { size = 5; hash = text "h1"; mtime = 7 }

abbrev shared : DirReply
shared = record {
  dirs = text "rock" ∷ text "jazz" ∷ [];
  files = (text "song", song) ∷ (text "note", song) ∷ [];
}

abbrev master : Remote DirReply
master dn = ok shared

abbrev fresh : Frontend
fresh = record { cache = []; cache_expiry = [] }

abbrev warm : Frontend
warm = record { cache = (text "amy", shared) ∷ []; cache_expiry = (text "amy", 3) ∷ [] }

sorted :
    listing shared
    ≡ dir_info (text "jazz")
      ∷ dir_info (text "rock")
      ∷ file_info (text "note") song
      ∷ file_info (text "song") song
      ∷ []
unfolding program
sorted = refl

into_file : (change_dir master (text "/amy/song") fresh).1 ≡ err not_a_directory
unfolding program
into_file = refl

abbrev content : Bytes
content = 10 ∷ 11 ∷ 12 ∷ 13 ∷ 14 ∷ []

abbrev fetcher : Fetcher
fetcher = record { peers = []; block_size = 4; prefetch_blocks = 0 }

abbrev connected : Fetcher
connected = record { peers = (text "amy@x", tt) ∷ []; block_size = 4; prefetch_blocks = 0 }

abbrev opened : Handle
opened = record {
  hash = text "h1";
  size = 5;
  peers = text "amy@x" ∷ [];
  cache = none ∷ none ∷ [];
  active = idle ∷ idle ∷ [];
  last_err = none;
}

get_file-drains_example :
    (s : Stream) × (get_file
        (λ a u. true)
        master
        (λ h. ok (text "amy@x" ∷ []))
        (text "amy/song")
        (1 * 2)
        fetcher
        fresh
      ≡ (warm, ok (connected, ok (5, s))))
    × (drain 3 connected (λ b. ok (block 4 content b)) 2 s ≡ some (12 ∷ 13 ∷ 14 ∷ []))
unfolding program
get_file-drains_example =
    get_file-drains (λ a u. true) master (λ h. ok (text "amy@x" ∷ [])) (text "amy/song") fresh warm
      fetcher connected song (text "amy@x" ∷ []) opened content (λ b. ok (block 4 content b)) 2 2 2
      1 refl refl refl refl (omega arith) (omega arith) refl (λ b. refl) (omega arith)
