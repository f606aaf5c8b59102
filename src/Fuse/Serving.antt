-- ===== src/Fuse/Serving.antt =====
-- A file through the mount: who may open it, and what its reads give.
use rufs.Base.{
  ℕ, ◌<◌, ◌≤◌, ◌+◌, ◌≡◌, ◌∙◌, refl, ap, sym, subst, List, [], ◌∷◌, some, Bool, true, false, ◌||◌,
  Str, split, ◌==◌, nat_eq, length, take, drop, enoent, Result, ok, err, panic, >>=-eq-ok,
  ok_injective, map_ok, arith,
}
use rufs.Common.{FileInfo}
use rufs.Fetch.{Bytes, Fetcher, Handle, new_handle}
use rufs.Fetch.Blocks.{block}
use rufs.Fetch.Steady.{IsSteady}
use rufs.Fetch.Opening.{new_handle-IsSteady}
use rufs.Fetch.Reading.{read-content}
use rufs.Frontend.{DirReply, Frontend, Remote, get_file_info}
use rufs.Fuse.{AllowedUsers, is_member, check_access, open_file}
use rufs.Fuse.Mount.{Mount, Accounts, user_ids, parse_allowed, new_mount, open_handle, handle_read}

-- Whether one of the names of the flag is that of a user.
abbrev pub is_named : Accounts → ℕ → List Str → Bool
is_named accounts uid [] = false
is_named accounts uid (u ∷ us) =
    let rest = is_named accounts uid us in
    elim (accounts.find_user u) [
      | ok s ↦ nat_eq (accounts.parse_uint s) uid || rest
      | err e ↦ rest
      | panic ↦ rest
    ]

is_member_more :
    (accounts : Accounts) (uid : ℕ) (u s : Str) (us : List Str) (rest : List ℕ)
    → accounts.find_user u ≡ ok s
    → is_member uid rest ≡ is_named accounts uid us
    → is_member uid (accounts.parse_uint s ∷ rest) ≡ is_named accounts uid (u ∷ us)
unfolding is_member
is_member_more accounts uid u s us rest found ih =
    rw (is_named, found, is_member, ih) (ground arith)

is_member-user_ids :
    (accounts : Accounts) (uid : ℕ) (us : List Str) (ids : List ℕ)
    → user_ids accounts us ≡ ok ids
    → is_member uid ids ≡ is_named accounts uid us
unfolding user_ids is_member
is_member-user_ids accounts uid [] ids run = ap (is_member uid) (sym (ok_injective run))
is_member-user_ids accounts uid (u ∷ us) ids run =
    let (s, found, run₁) = >>=-eq-ok (accounts.find_user u) _ run in
    let (rest, others, made) = >>=-eq-ok (user_ids accounts us) _ run₁ in
    ap (is_member uid) (sym (ok_injective made))
    ∙ is_member_more accounts uid u s us rest found (is_member-user_ids accounts uid us rest others)

listed :
    (r : Result (List ℕ)) (a : AllowedUsers)
    → map_ok some r ≡ ok a
    → (ids : List ℕ) × (a ≡ some ids) × (r ≡ ok ids)
listed (ok ids) a h = (ids, sym (ok_injective h), refl)
listed (err e) a h = cc h
listed panic a h = cc h

parsed :
    (accounts : Accounts) (allow_users : Str) (a : AllowedUsers)
    → parse_allowed accounts allow_users ≡ ok a
    → (allow_users == []) ≡ false
    → (ids : List ℕ) × (a ≡ some ids) × (user_ids accounts (split b',' allow_users) ≡ ok ids)
unfolding parse_allowed
parsed accounts allow_users a h given =
    listed (user_ids accounts (split b',' allow_users)) a (rw given at h)

-- The list of users that a mount is made with, for a flag that is not empty.
allowed-new_mount :
    (accounts : Accounts) (allow_users mountpoint : Str) (fetched : Result Fetcher) (m : Mount)
    → new_mount accounts allow_users mountpoint fetched ≡ ok m
    → (allow_users == []) ≡ false
    → (ids : List ℕ) × (m.allowed_users ≡ some ids)
      × (user_ids accounts (split b',' allow_users) ≡ ok ids)
      × (fetched ≡ ok m.fetcher)
unfolding new_mount
allowed-new_mount accounts allow_users mountpoint fetched m run given =
    let (a, flags, run₁) = >>=-eq-ok (parse_allowed accounts allow_users) _ run in
    let (fetcher, got, made) = >>=-eq-ok fetched _ run₁ in
    let (ids, is, found) = parsed accounts allow_users a flags given in
    (
      ids,
      ap (λ n. n.allowed_users) (sym (ok_injective made)) ∙ is,
      found,
      got ∙ ap (λ n. ok n.fetcher) (ok_injective made),
    )

open_file-ok :
    (allowed : AllowedUsers) (ids : List ℕ) (uid : ℕ) (get_dir : Remote DirReply)
    (get_owners : Remote (List Str)) (path : Str) (f f₁ : Frontend) (fi : FileInfo)
    (owners : List Str)
    → allowed ≡ some ids
    → is_member uid ids ≡ true
    → get_file_info enoent get_dir path f ≡ (f₁, ok fi)
    → get_owners fi.hash ≡ ok owners
    → open_file allowed get_dir get_owners uid path f ≡ (f₁, ok (fi.hash, fi.size, owners))
unfolding open_file check_access
open_file-ok allowed ids uid get_dir get_owners path f f₁ fi owners a may info owned =
    rw (a, open_file, check_access, may, info, owned, info) refl

-- The whole way of a file through a mount: made with a flag that names the user, a file that the
-- master lists and that a peer has opens, and a read of one or more bytes that lies inside the
-- file, with owners that answer with its blocks, returns exactly the bytes that were asked for.
pub mount_reads :
    (accounts : Accounts) (allow_users mountpoint : Str) (fetched : Result Fetcher) (m : Mount)
    (uid : ℕ) (connects : Str → Str → Bool) (get_dir : Remote DirReply)
    (get_owners : Remote (List Str)) (path : Str) (f₁ : Frontend) (fi : FileInfo)
    (owners : List Str) (fetcher₁ : Fetcher) (h : Handle) (content : Bytes)
    (answer : ℕ → Result Bytes) (offset size : ℕ)
    → new_mount accounts allow_users mountpoint fetched ≡ ok m
    → (allow_users == []) ≡ false
    → is_named accounts uid (split b',' allow_users) ≡ true
    → get_file_info enoent get_dir path m.frontend ≡ (f₁, ok fi)
    → get_owners fi.hash ≡ ok owners
    → new_handle connects fi.hash fi.size owners m.fetcher ≡ ok (fetcher₁, ok h)
    → fi.size ≡ length content
    → 0 < m.fetcher.block_size
    → 0 < size
    → offset + size ≤ length content
    → ((b : ℕ) → answer b ≡ ok (block m.fetcher.block_size content b))
    → (m' : Mount) × (h' : Handle) × (open_handle connects get_dir get_owners uid path m
        ≡ ok (m', ok h))
      × (handle_read m'.fetcher answer offset size h
          ≡ ok (h', ok (take size (drop offset content))))
unfolding open_handle handle_read
mount_reads accounts allow_users mountpoint fetched m uid connects get_dir get_owners path f₁ fi
      owners fetcher₁ h content answer offset size made given named info owned opened sized p q
      inside right =
    let (ids, allowed, found, got) =
      allowed-new_mount accounts allow_users mountpoint fetched m made given in
    let may : is_member uid ids ≡ true =
      is_member-user_ids accounts uid (split b',' allow_users) ids found ∙ named in
    let (same, steady) =
      new_handle-IsSteady connects fi.hash content owners m.fetcher fetcher₁ h
        (rw sized at opened) in
    let (h', reads, kept) =
      read-content fetcher₁ content answer offset size h (rw same p) q inside
        (λ b. right b ∙ ap (λ bs. ok (block bs content b)) (sym same))
        (subst (λ bs. IsSteady bs content h) (sym same) steady) in
    let opens =
      open_file-ok m.allowed_users ids uid get_dir get_owners path m.frontend f₁ fi owners allowed
        may info owned in
    (
      record m { frontend = f₁; fetcher = fetcher₁ },
      h',
      rw (open_handle, opens, opened, opens) refl,
      rw (handle_read, reads) refl,
    )
