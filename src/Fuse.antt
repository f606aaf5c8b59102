-- ===== src/Fuse.antt =====
-- fuse.go: the nodes of the mount. A path is relative to the mount and has no slash at its ends.
pub mod Nodes
pub mod Mount
pub mod Serving
pub mod Running
mod Tests
use rufs.Base.{
  ℕ, List, [], ◌∷◌, ◌++◌, Option, none, some, Bool, true, false, Str, slash, ◌==◌, Dict, lookup,
  keys, nat_eq, if◌then◌else◌, map, Error, enoent, eperm, enosys, eintr, Result, ok, err, panic,
}
use rufs.Common.{FileInfo}
use rufs.Frontend.{
  DirReply, Frontend, Remote, get_dir_cached, get_file_info, purge_cache_entry, split_path,
}

pub data Node : Type 0 where
  dir : Str → Node
  file : Str → Node

-- What `Attr` fills in.
pub data Attr : Type 0 where
  dir_attr : Attr
  file_attr : ℕ → ℕ → Attr

pub data DirentType : Type 0 where
  dt_dir dt_file : DirentType

-- The users of `--allow_users`; without the flag there is no list.
abbrev pub AllowedUsers : Type 0
AllowedUsers = Option (List ℕ)

unfoldable pub is_member : ℕ → List ℕ → Bool
is_member uid [] = false
is_member uid (u ∷ us) = if nat_eq u uid then true else is_member uid us

-- `checkAccess` and `Access`
unfoldable pub check_access : AllowedUsers → ℕ → Result (Unit {0})
unfolding is_member
check_access none uid = ok tt
check_access (some us) uid = if is_member uid us then ok tt else err eperm

unfoldable pub is_name : Str → List Str → Bool
is_name n [] = false
is_name n (d ∷ ds) = if d == n then true else is_name n ds

-- The last part of `Attr` and of `Lookup`: a file first, then a directory.
unfoldable pub attr_in : Str → DirReply → Result Attr
unfolding is_name
attr_in name r = elim (lookup name r.files) [
  | some f ↦ ok (file_attr f.size f.mtime)
  | none ↦ if is_name name r.dirs then ok dir_attr else err enoent
]

unfoldable pub attr : Remote DirReply → Str → Frontend → Frontend × Result Attr
unfolding attr_in
attr get_dir path f =
    if path == []
    then (f, ok dir_attr)
    else let (dn, name) = split_path path in
      let (f', reply) = get_dir_cached get_dir dn f in
      (f', elim reply [ ok r ↦ attr_in name r | err e ↦ err e | panic ↦ panic ])

-- filepath.Join of a path and a name that filepath.Clean leaves as they are: the listings and the
-- walks of the program have names without a slash, and paths that were joined of such names. Of a
-- name such as `a/` or `../y` on the command line it is not what filepath.Join gives.
unfoldable pub join_path : Str → Str → Str
join_path [] name = name
join_path (c ∷ d) name = c ∷ d ++ slash ∷ name

-- `Lookup`: a miss drops the listing, which may be stale.
unfoldable pub node_in : Str → Str → DirReply → Result Node
unfolding is_name join_path
node_in path name r = elim (lookup name r.files) [
  | some f ↦ ok (file (join_path path name))
  | none ↦ if is_name name r.dirs then ok (dir (join_path path name)) else err enoent
]

unfoldable pub lookup_node : Remote DirReply → Str → Str → Frontend → Frontend × Result Node
unfolding node_in
lookup_node get_dir path name f =
    let (f', reply) = get_dir_cached get_dir path f in
    elim reply [
      | err e ↦ (f', err e)
      | panic ↦ (f', panic)
      | ok r ↦ elim (node_in path name r) [
        | ok n ↦ (f', ok n)
        | err e ↦ (purge_cache_entry path f', err e)
        | panic ↦ (f', panic)
      ]
    ]

unfoldable pub read_dir_all :
    Remote DirReply → Str → Frontend → Frontend × Result (List (Str × DirentType))
read_dir_all get_dir path f =
    let (f', reply) = get_dir_cached get_dir path f in
    (
      f',
      elim reply [
        | err e ↦ err e
        | panic ↦ panic
        | ok r ↦ ok (map (λ d. (d, dt_dir)) r.dirs ++ map (λ n. (n, dt_file)) (keys r.files))
      ],
    )

-- `Open` up to the call of `NewHandle`: the hash, the size and the owners that it is given. After
-- an error the cache entry of the file's own path is dropped.
unfoldable pub open_file :
    AllowedUsers
    → Remote DirReply
    → Remote (List Str)
    → ℕ
    → Str
    → Frontend
    → Frontend × Result (Str × ℕ × List Str)
unfolding check_access
open_file allowed get_dir get_owners uid path f = elim (check_access allowed uid) [
  | err e ↦ (f, err e)
  | panic ↦ (f, panic)
  | ok u ↦
      let (f', info) = get_file_info enoent get_dir path f in
      elim info [
        | err e ↦ (purge_cache_entry path f', err e)
        | panic ↦ (f', panic)
        | ok fi ↦ elim (get_owners fi.hash) [
          | err e ↦ (purge_cache_entry path f', err e)
          | panic ↦ (f', panic)
          | ok owners ↦ (f', ok (fi.hash, fi.size, owners))
        ]
      ]
]

-- The calls that the mount does not have: `Setattr`, `Getxattr`, `Setxattr`, `Create`, `Mkdir`,
-- `Remove`, `Write` and `Fsync`.
pub data Unsupported : Type 0 where
  setattr getxattr setxattr create mkdir remove write fsync : Unsupported

unfoldable pub unsupported : Unsupported → Result (Unit {0})
unsupported call = err enosys
