-- ===== src/BoltDb.antt =====
-- database_bolt.go, which the build tag bolt puts in place of database_inmem.go. The library's
-- file of nested buckets and the JSON of a FileInfo are parameters; a bucket is named by its path
-- of names.
pub mod Pieces
pub mod Owners
mod Tests
use rufs.Base.{
  List, [], ◌∷◌, ◌++◌, map, Option, none, some, Bool, true, false, Str, text, slash, split, join,
  ◌==◌, Dict, insert, if◌then◌else◌, Error, enoent, other_error, Result, ok, err, panic, ◌>>=◌,
  ◌>>◌,
}
use mathlib.Core.List.{reverse}
use rufs.Common.{FileInfo}
use rufs.SqliteDb.{parts_of}

-- The calls of the library inside of a transaction. `bucket` says whether there is one, `get`
-- gives no value for a missing key, and `cursor` gives the keys in order, with no value for a
-- bucket.
pub record Bolt (T : Type 0) : Type 0 where
  pub bucket : List Str → T → Bool
  pub create_bucket : List Str → Str → T → Result T
  pub delete_bucket : List Str → Str → T → Result T
  pub get : List Str → Str → T → Option Str
  pub put : List Str → Str → Str → T → Result T
  pub delete : List Str → Str → T → Result T
  pub cursor : List Str → T → List (Str × Option Str)

-- json.Marshal and json.Unmarshal, where they give a value.
pub record Json : Type 0 where
  pub marshal : FileInfo → Option Str
  pub unmarshal : Str → Option FileInfo

abbrev pub files : Str
files = text "files"

abbrev pub by_hash : Str
by_hash = text "byHash"

abbrev pub by_owner : Str
by_owner = text "byOwner"

-- A nil slice has no bytes.
abbrev pub bytes_or_empty : Option Str → Str
bytes_or_empty none = []
bytes_or_empty (some v) = v

abbrev pub value_or_panic {ℓ} : {A : Type ℓ} → Option A → Result A
value_or_panic none = panic
value_or_panic (some a) = ok a

unfoldable pub encode_file_info : Json → FileInfo → Result Str
encode_file_info json fi = value_or_panic (json.marshal fi)

unfoldable pub decode_file_info : Json → Option Str → Result FileInfo
decode_file_info json buf = value_or_panic (json.unmarshal (bytes_or_empty buf))

-- The loop of `SetFile` over the old owners.
unfoldable pub without_owner : Str → List Str → List Str
without_owner owner [] = []
without_owner owner (o ∷ os) =
    let rest = without_owner owner os in if o == owner then rest else o ∷ rest

-- The owners of a hash, separated by a zero byte, after a file has come or gone.
unfoldable pub new_owners : Option FileInfo → Str → Str → Str
unfolding without_owner
new_owners none owner owners =
    if owners == [] then [] else join 0 (without_owner owner (split 0 owners))
new_owners (some fi) owner owners = if owners == [] then owner else owners ++ 0 ∷ owner

module _ {T : Type 0} (bolt : Bolt T) (json : Json) where
  -- A bucket in another one, created where it is missing.
  unfoldable pub ensure : List Str → Str → T → Result T
  ensure at n t = if bolt.bucket (at ++ n ∷ []) t then ok t else bolt.create_bucket at n t

  -- The part of `SetFile` that writes to byOwner.
  unfoldable pub note_owner : Str → Option FileInfo → Str → T → Result T
  note_owner path none owner t =
      if bolt.bucket (by_owner ∷ owner ∷ []) t
      then bolt.delete (by_owner ∷ owner ∷ []) path t
      else ok t
  note_owner path (some fi) owner t =
      ensure (by_owner ∷ []) owner t >>= bolt.put (by_owner ∷ owner ∷ []) path []

  -- The buckets of the directories below one, each of them created where it is missing.
  unfoldable pub open_dirs : List Str → List Str → T → Result T
  open_dirs at [] t = ok t
  open_dirs at (dn ∷ dirs) t = ensure at dn t >>= open_dirs (at ++ dn ∷ []) dirs

  -- The empty buckets upwards; the list is of the directories, the innermost first.
  unfoldable pub delete_empty : List Str → T → Result T
  delete_empty [] t = ok t
  delete_empty (dn ∷ up) t = elim (bolt.cursor (files ∷ reverse (dn ∷ up)) t) [
    | [] ↦ bolt.delete_bucket (files ∷ reverse up) dn t >>= delete_empty up
    | entry ∷ rest ↦ ok t
  ]

  -- The part of `SetFile` that writes to the bucket of a directory, and the hash whose owners change.
  unfoldable pub write_file : List Str → Str → Option FileInfo → T → Result (T × Str)
  unfolding decode_file_info encode_file_info delete_empty
  write_file dirs fn none t = do
    old ← decode_file_info json (bolt.get (files ∷ dirs) fn t)
    t' ← bolt.delete (files ∷ dirs) fn t
    t'' ← delete_empty (reverse dirs) t'
    ok (t'', old.hash)
  write_file dirs fn (some fi) t = do
    buf ← encode_file_info json fi
    t' ← bolt.put (files ∷ dirs) fn buf t
    ok (t', fi.hash)

  -- The part of `SetFile` that writes to byHash.
  unfoldable pub write_owners : Option FileInfo → Str → Str → T → Result T
  write_owners v owner hash t =
      let owners = new_owners v owner (bytes_or_empty (bolt.get (by_hash ∷ []) hash t)) in
      if owners == []
      then bolt.delete (by_hash ∷ []) hash t
      else bolt.put (by_hash ∷ []) hash owners t

  -- The function that `SetFile` passes to Update.
  unfoldable pub update : Str → List Str → Option FileInfo → Str → T → Result T
  update p ps v owner t = do
    noted ← note_owner (join slash (p ∷ ps)) v owner t
    opened ← open_dirs (files ∷ []) (parts_of p ps).0 noted
    (written, hash) ← write_file (parts_of p ps).0 (parts_of p ps).1 v opened
    write_owners v owner hash written

  -- An error of the function, or of the library at the end of the transaction, rolls it back.
  unfoldable pub finish : Option Error → T → Result T → T × Result (Unit {0})
  finish none t (ok t') = (t', ok tt)
  finish (some e) t (ok t') = (t, err e)
  finish commit t (err e) = (t, err e)
  finish commit t panic = (t, panic)

  unfoldable pub set_file :
      Option Error → List Str → Option FileInfo → Str → T → T × Result (Unit {0})
  unfolding finish
  set_file commit [] v owner t = (t, panic)
  set_file commit (p ∷ ps) v owner t = finish commit t (update p ps v owner t)

  -- `newDatabase` of the file that was opened, which has no buckets. It returns no error of this
  -- transaction.
  unfoldable pub new_database : Option Error → T → T
  unfolding finish
  new_database commit t =
      (finish commit t (
        bolt.create_bucket [] files t
        >>= bolt.create_bucket [] by_hash
        >>= bolt.create_bucket [] by_owner)).0

  -- The keys of byOwner/owner.
  unfoldable pub files_of_owner : Str → T → List Str
  files_of_owner owner t =
      if bolt.bucket (by_owner ∷ owner ∷ []) t
      then map (λ e. e.0) (bolt.cursor (by_owner ∷ owner ∷ []) t)
      else []

  -- The loop of `PeerDisconnected`, with the last error. A panic ends it.
  unfoldable pub delete_all :
      (Str → Option Error) → List Str → Str → Result (Unit {0}) → T → T × Result (Unit {0})
  unfolding set_file
  delete_all commit [] owner last t = (t, last)
  delete_all commit (fn ∷ fns) owner last t =
      let (t', r) = set_file (commit fn) (split slash fn) none owner t in
      elim r [
        | ok u ↦ delete_all commit fns owner last t'
        | err e ↦ delete_all commit fns owner (err e) t'
        | panic ↦ (t', panic)
      ]

  unfoldable pub peer_disconnected :
      Option Error → (Str → Option Error) → Str → T → T × Result (Unit {0})
  unfolding files_of_owner delete_all
  peer_disconnected view commit owner t = elim view [
    | none ↦ delete_all commit (files_of_owner owner t) owner (ok tt) t
    | some e ↦ (t, err e)
  ]

  unfoldable pub get_owners : Option Error → Str → T → Result (List Str)
  get_owners view hash t = elim view [
    | some e ↦ err e
    | none ↦
        let v = bytes_or_empty (bolt.get (by_hash ∷ []) hash t) in
        if v == [] then err (other_error 2) else ok (split slash v)
  ]

  -- The walk of `GetDir` down to the bucket of the directory.
  unfoldable pub find_bucket : List Str → List Str → T → Result (List Str)
  find_bucket at [] t = ok at
  find_bucket at (dn ∷ dns) t =
      let rest = find_bucket (at ++ dn ∷ []) dns t in
      if bolt.bucket (at ++ dn ∷ []) t then rest else err enoent

  -- The loop of `GetDir` over the keys of the bucket.
  unfoldable pub collect :
      List (Str × Option Str) → Dict FileInfo → List Str → Result (Dict FileInfo × List Str)
  unfolding decode_file_info
  collect [] fs dirs = ok (fs, dirs)
  collect ((k, none) ∷ es) fs dirs = collect es fs (dirs ++ k ∷ [])
  collect ((k, some v) ∷ es) fs dirs = do
    fi ← decode_file_info json (some v)
    collect es (insert k fi fs) dirs

  unfoldable pub get_dir : Option Error → Str → T → Result (Dict FileInfo × List Str)
  unfolding find_bucket collect
  get_dir view dir t = elim view [
    | some e ↦ err e
    | none ↦ do
      at ← find_bucket (files ∷ []) (if dir == [] then [] else split slash dir) t
      collect (bolt.cursor at t) [] []
  ]
