-- ===== src/Fuse/Tests.antt =====
-- Lookups and opens on a small mount.
use rufs.Base.{
  ◌≡◌, refl, split, take, drop, none, some, Str, text, ◌==◌, trim_slashes, List, [], ◌∷◌, lookup,
  insert, delete, contains, ok, arith, true, if◌then◌else◌,
}
use rufs.Frontend.{
  DirReply, Frontend, Remote, get_dir_cached, get_file_info, split_path, purge_cache_entry,
}
use rufs.Fetch.{Bytes, Fetcher, Handle, idle, new_handle}
use rufs.Fetch.Blocks.{block}
use rufs.Fuse.{file, lookup_node, open_file, is_member}
use rufs.Fuse.Mount.{
  Mount, Accounts, user_ids, parse_allowed, new_mount, allow_other, open_handle, handle_read,
}
use rufs.Fuse.Serving.{mount_reads}

program : Unit {0}
unfolding lookup_node open_file is_member get_dir_cached get_file_info split_path purge_cache_entry
    trim_slashes split user_ids parse_allowed new_mount allow_other open_handle new_handle ◌==◌
    lookup insert delete contains
program = tt

abbrev listing : DirReply
listing = record {
  dirs = [];
  files = (text "song", record { size = 3; hash = text "h1"; mtime = 5 }) ∷ [];
}

abbrev master : Remote DirReply
master dn = ok listing

abbrev owners : Remote (List Str)
owners hash = ok (text "amy@10.0.0.1:1667" ∷ [])

abbrev fresh : Frontend
fresh = record { cache = []; cache_expiry = [] }

found : (lookup_node master (text "amy") (text "song") fresh).1 ≡ ok (file (text "amy/song"))
unfolding program
found = refl

opened :
    (open_file none master owners 1 (text "amy/song") fresh).1
    ≡ ok (text "h1", 3, text "amy@10.0.0.1:1667" ∷ [])
unfolding program
opened = refl

-- Amy, and everyone else.
abbrev accounts : Accounts
accounts = record {
  find_user = λ u. ok u;
  parse_uint = λ s. if s == text "amy" then 1000 else 1001;
}

abbrev content : Bytes
content = 10 ∷ 11 ∷ 12 ∷ []

abbrev fetcher : Fetcher
fetcher = record { peers = []; block_size = 2; prefetch_blocks = 0 }

abbrev connected : Fetcher
connected = record fetcher { peers = (text "amy@10.0.0.1:1667", tt) ∷ [] }

abbrev mount : Mount
mount = record {
  mountpoint = text "/mnt";
  allowed_users = some (1000 ∷ []);
  frontend = fresh;
  fetcher = fetcher;
}

abbrev warm : Frontend
warm = record { cache = (text "amy", listing) ∷ []; cache_expiry = (text "amy", 3) ∷ [] }

abbrev handle : Handle
handle = record {
  hash = text "h1";
  size = 3;
  peers = text "amy@10.0.0.1:1667" ∷ [];
  cache = none ∷ none ∷ [];
  active = idle ∷ idle ∷ [];
  last_err = none;
}

-- A list with a user makes the mount one for others.
for_others : allow_other mount ≡ true
unfolding program
for_others = refl

mount_reads_example :
    (m' : Mount) × (h' : Handle) × (open_handle
        (λ a u. true)
        master
        owners
        1000
        (text "amy/song")
        mount
      ≡ ok (m', ok handle))
    × (handle_read m'.fetcher (λ b. ok (block 2 content b)) 1 2 handle
        ≡ ok (h', ok (take 2 (drop 1 content))))
unfolding program
mount_reads_example =
    mount_reads accounts (text "amy") (text "/mnt") (ok fetcher) mount 1000 (λ a u. true) master
      owners (text "amy/song") warm (record { size = 3; hash = text "h1"; mtime = 5 })
      (text "amy@10.0.0.1:1667" ∷ []) connected handle content (λ b. ok (block 2 content b)) 1 2
      refl refl refl refl refl refl refl (omega arith) (omega arith) (omega arith) (λ b. refl)
