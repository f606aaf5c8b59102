-- ===== src/Server.antt =====
-- server.go: which hashes the server offers and under which paths, and the reads of its peers.
pub mod Offers
pub mod Setup
pub mod Creating
pub mod Exporting
pub mod Running
pub mod Threads
pub mod Answering
mod Tests
use rufs.Base.{
  ℕ, suc, List, [], ◌∷◌, ◌++◌, Option, none, some, Bool, true, false, Str, text, split, ◌==◌, Dict,
  lookup, insert, delete, contains, length, nat_eq, ltb, take, drop, if◌then◌else◌, enoent,
  duplicate_share, Result, ok, err, panic, slash,
}
use mathlib.Core.List.{reverse}
use rufs.Common.{FileInfo}
use rufs.Fuse.{join_path}

-- `SetFileRequest`
pub record SetFileRequest : Type 0 where
  pub path : Str
  pub info : Option FileInfo

abbrev pub PathSet : Type 0
PathSet = Dict (Unit {0})

pub record Server : Type 0 where
  pub shares : Dict Str
  pub hash_to_path : Dict PathSet
  -- What was sent on `setFileRequestChan`, the last request first.
  pub requests : List SetFileRequest

abbrev pub set_or_empty : Option PathSet → PathSet
set_or_empty none = []
set_or_empty (some m) = m

-- strings.SplitN(s, "=", 2): the name and the folder, or the whole.
unfoldable pub split_share : Str → Option (Str × Str)
split_share [] = none
split_share (c ∷ s) = elim (split_share s) [
  | none ↦ if nat_eq c b'=' then some ([], s) else none
  | some (name, folder) ↦ if nat_eq c b'=' then some ([], s) else some (c ∷ name, folder)
]

-- The loop over the items of `--share`. `get_path` and `base` are the functions of main.go and of
-- package path.
unfoldable pub add_shares : (Str → Str) → (Str → Str) → List Str → Dict Str → Dict Str
unfolding split_share
add_shares get_path base [] shares = shares
add_shares get_path base (s ∷ items) shares = add_shares get_path base items (elim (split_share s) [
  | none ↦ insert (base s) (get_path s) shares
  | some (name, folder) ↦ insert name (get_path folder) shares
])

-- The shares of `newServer`. Split gives at least one item.
unfoldable pub parse_shares : (Str → Str) → (Str → Str) → Str → Result (Dict Str)
unfolding add_shares
parse_shares get_path base flag =
    let items = split b',' flag in
    let shares = add_shares get_path base items [] in
    if flag == []
    then ok []
    else if ltb 1 (length items)
    then (if nat_eq (length shares) (length items) then ok shares else err duplicate_share)
    else ok (insert [] flag [])

-- `share + "\x00" + path`
abbrev pub share_plus_path : Str → Str → Str
share_plus_path share path = share ++ 0 ∷ path

-- `delete(s.hashToPath, old.Hash)` if no path is left.
unfoldable pub keep_paths : Str → PathSet → Dict PathSet → Dict PathSet
keep_paths hash [] m = delete hash m
keep_paths hash (p ∷ ps) m = insert hash (p ∷ ps) m

-- The block `if old != nil` of `SetFile`; on a missing map there is nothing to delete.
unfoldable pub drop_old : Str → Option FileInfo → Dict PathSet → Dict PathSet
unfolding keep_paths
drop_old spp none m = m
drop_old spp (some old) m = keep_paths old.hash (delete spp (set_or_empty (lookup old.hash m))) m

-- The block `if info != nil` of `SetFile`.
unfoldable pub add_new : Str → Option FileInfo → Dict PathSet → Dict PathSet
add_new spp none m = m
add_new spp (some info) m = insert info.hash (insert spp tt (set_or_empty (lookup info.hash m))) m

unfoldable pub set_file : Str → Str → Option FileInfo → Option FileInfo → Server → Server
unfolding drop_old add_new
set_file share path info old s =
    let spp = share_plus_path share path in
    record s {
      hash_to_path = add_new spp info (drop_old spp old s.hash_to_path);
      requests = record { path = join_path share path; info = info } ∷ s.requests;
    }

-- The parts of `share + "\x00" + path` at the NUL bytes, as `Read` takes them: the first two.
unfoldable pub split_share_path : Str → Result (Str × Str)
split_share_path spp = elim (split 0 spp) [
  | [] ↦ panic
  | share ∷ rest ↦ elim rest [ [] ↦ panic | path ∷ more ↦ ok (share, path) ]
]

abbrev pub str_or_empty : Option Str → Str
str_or_empty none = []
str_or_empty (some s) = s

-- The loop of `Read` over the paths: the first file that opens, or the last error. `open` gives a
-- file's content.
unfoldable pub open_first :
    (Str → Result (List ℕ)) → Dict Str → PathSet → Result (List ℕ) → Result (List ℕ)
open_first open_path shares [] last = last
open_first open_path shares ((spp, u) ∷ ps) last = elim (split_share_path spp) [
  | panic ↦ panic
  | err e ↦ err e
  | ok (share, path) ↦ elim (open_path (join_path (str_or_empty (lookup share shares)) path)) [
    | ok content ↦ ok content
    | err e ↦ open_first open_path shares ps (err e)
    | panic ↦ panic
  ]
]

-- `Read` of `RUFSService`: the bytes at the offset, fewer at the end of the file.
unfoldable pub read : (Str → Result (List ℕ)) → Str → ℕ → ℕ → Server → Result (List ℕ)
unfolding open_first
read open_path hash offset size s = elim (set_or_empty (lookup hash s.hash_to_path)) [
  | [] ↦ err enoent
  | p ∷ ps ↦ elim (open_first open_path s.shares (p ∷ ps) (err enoent)) [
    | ok content ↦ ok (take size (drop offset content))
    | err e ↦ err e
    | panic ↦ panic
  ]
]
