-- ===== src/Fuse/Mount.antt =====
-- fuse.go: how the mount is made, and a file from its Open to its reads. The file holds a copy of
-- felib.go's methods on the cache; the copies have one definition here, in Frontend. The handling
-- of the mount by the system is library code.
use rufs.Base.{
  ℕ, List, [], ◌∷◌, none, some, Bool, true, false, Str, split, ◌==◌, if◌then◌else◌, enoent, eintr,
  interrupted, Result, ok, err, panic, ◌>>=◌, map_ok,
}
use rufs.Common.{FileInfo}
use rufs.Fetch.{Bytes, Fetcher, Handle, new_handle}
use rufs.Fetch.Read.{read}
use rufs.Frontend.{
  DirReply, Frontend, Remote, get_file_info, tick, purge_cache_entry, get_dir_cached,
}
use rufs.Fuse.{AllowedUsers, Node, dir, open_file}

-- `FuseMnt`, with the fetcher that is shared by the front ends.
pub record Mount : Type 0 where
  pub mountpoint : Str
  pub allowed_users : AllowedUsers
  pub frontend : Frontend
  pub fetcher : Fetcher

-- osUser.Lookup, as far as the numeric id in it goes, and the number that strconv.ParseUint gives
-- for it; the error of the second is dropped.
pub record Accounts : Type 0 where
  pub find_user : Str → Result Str
  pub parse_uint : Str → ℕ

-- The loop of `newFuseMnt` over the names.
unfoldable pub user_ids : Accounts → List Str → Result (List ℕ)
user_ids accounts [] = ok []
user_ids accounts (u ∷ us) = do
  uid ← accounts.find_user u
  rest ← user_ids accounts us
  ok (accounts.parse_uint uid ∷ rest)

-- The users of the flag `--allow_users`.
unfoldable pub parse_allowed : Accounts → Str → Result AllowedUsers
unfolding user_ids
parse_allowed accounts allow_users =
    if allow_users == [] then ok none else map_ok some (user_ids accounts (split b',' allow_users))

-- `newFuseMnt`; `get_fetcher` is what `GetFetcher` gives.
unfoldable pub new_mount : Accounts → Str → Str → Result Fetcher → Result Mount
new_mount accounts allow_users mountpoint get_fetcher = do
  allowed ← parse_allowed accounts allow_users
  fetcher ← get_fetcher
  ok (record {
    mountpoint = mountpoint;
    allowed_users = allowed;
    frontend = record { cache = []; cache_expiry = [] };
    fetcher = fetcher;
  })

-- The methods of FuseMnt that stand in front of those of its FrontendLib: the same code again. The
-- error that reads ENOENT is the mount's ENOENT; both are `enoent` here.
unfoldable pub cache_purger : Mount → Mount
unfolding tick
cache_purger m = record m { frontend = tick m.frontend }

unfoldable pub purge_entry : Str → Mount → Mount
unfolding purge_cache_entry
purge_entry dn m = record m { frontend = purge_cache_entry dn m.frontend }

unfoldable pub cached_dir : Remote DirReply → Str → Mount → Mount × Result DirReply
unfolding get_dir_cached
cached_dir get_dir dn m =
    let (f', r) = get_dir_cached get_dir dn m.frontend in (record m { frontend = f' }, r)

unfoldable pub file_info : Remote DirReply → Str → Mount → Mount × Result FileInfo
unfolding get_file_info
file_info get_dir fn m =
    let (f', r) = get_file_info enoent get_dir fn m.frontend in (record m { frontend = f' }, r)

-- Whether `Run` mounts with the option allow_other.
unfoldable pub allow_other : Mount → Bool
allow_other m = elim m.allowed_users [
  | none ↦ false
  | some us ↦ elim us [ [] ↦ false | u ∷ rest ↦ true ]
]

unfoldable pub root : Node
root = dir []

-- `Open` of a file: what `open_file` finds is opened.
unfoldable pub open_handle :
    (Str → Str → Bool)
    → Remote DirReply
    → Remote (List Str)
    → ℕ
    → Str
    → Mount
    → Result (Mount × Result Handle)
open_handle connects get_dir get_owners uid path m =
    let (f', found) = open_file m.allowed_users get_dir get_owners uid path m.frontend in
    elim found [
      | err e ↦ ok (record m { frontend = f' }, err e)
      | panic ↦ panic
      | ok (hash, size, owners) ↦ do
        (fetcher', opened) ← new_handle connects hash size owners m.fetcher
        ok (record m { frontend = f'; fetcher = fetcher' }, opened)
    ]

-- `Read` of a handle.
unfoldable pub handle_read :
    Fetcher → (ℕ → Result Bytes) → ℕ → ℕ → Handle → Result (Handle × Result Bytes)
handle_read f answer offset size h = do
  (h', got) ← read f answer offset size h
  ok (
    h',
    elim got [
      | ok bytes ↦ ok bytes
      | panic ↦ panic
      | err e ↦ elim e [ interrupted ↦ err eintr | other ↦ err other ]
    ],
  )
