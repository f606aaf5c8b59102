-- ===== src/BoltDb/Tests.antt =====
-- Two owners of one file, over a file of buckets that is a list of its values.
use rufs.Base.{
  ◌≡◌, refl, sym, ◌∙◌, ap, List, [], ◌∷◌, Option, none, some, Bool, true, false, ◌&&◌, Str, text,
  slash, split, join, ◌==◌, eq_refl, All, if◌then◌else◌, insert, contains, ok, panic, ok_injective,
  arith,
}
use rufs.Common.{FileInfo}
use rufs.SqliteDb.{parts_of}
use rufs.BoltDb.{
  Bolt, Json, encode_file_info, decode_file_info, without_owner, new_owners, ensure, note_owner,
  open_dirs, delete_empty, write_file, write_owners, update, finish, set_file, files_of_owner,
  delete_all, peer_disconnected, get_owners, find_bucket, collect, get_dir,
}
use rufs.BoltDb.Pieces.{IsFree}
use rufs.BoltDb.Owners.{IsOwner, Laws, set_file_runs_owners_together}

program : Unit {0}
unfolding split join ◌==◌ insert contains parts_of encode_file_info decode_file_info without_owner
    new_owners ensure note_owner open_dirs delete_empty write_file write_owners update finish
    set_file files_of_owner delete_all peer_disconnected get_owners find_bucket collect get_dir
program = tt

abbrev same_path : List Str → List Str → Bool
same_path [] [] = true
same_path [] (q ∷ qs) = false
same_path (p ∷ ps) [] = false
same_path (p ∷ ps) (q ∷ qs) = p == q && same_path ps qs

same_path_refl : (p : List Str) → same_path p p ≡ true
same_path_refl [] = refl
same_path_refl (n ∷ p) = rw (eq_refl n) (same_path_refl p)

-- A value stands at a bucket and a key.
abbrev Values : Type 0
Values = List (List Str × Str × Str)

abbrev value_at : List Str → Str → Values → Option Str
value_at p k [] = none
value_at p k ((q, j, v) ∷ t) =
    let rest = value_at p k t in if same_path q p && j == k then some v else rest

abbrev remove : List Str → Str → Values → Values
remove p k [] = []
remove p k ((q, j, v) ∷ t) =
    let rest = remove p k t in if same_path q p && j == k then rest else (q, j, v) ∷ rest

abbrev keys_of : List Str → Values → List (Str × Option Str)
keys_of p [] = []
keys_of p ((q, j, v) ∷ t) =
    let rest = keys_of p t in if same_path q p then (j, some v) ∷ rest else rest

-- Every bucket is there.
abbrev buckets : Bolt Values
buckets = record {
  bucket = λ p t. true;
  create_bucket = λ p n t. ok t;
  delete_bucket = λ p n t. ok t;
  get = value_at;
  put = λ p k v t. ok ((p, k, v) ∷ t);
  delete = λ p k t. ok (remove p k t);
  cursor = keys_of;
}

buckets_laws : Laws buckets
buckets_laws = record {
  get-put = λ p k v t t' h. rw (sym (ok_injective h), same_path_refl p, eq_refl k) refl;
  get-put_apart =
      λ a b p q k j v t t' ne h. ap (value_at (b ∷ q) j) (sym (ok_injective h)) ∙ rw ne refl;
  get-create_apart = λ a b p q n j t t' ne h. ap (value_at (b ∷ q) j) (sym (ok_injective h));
}

-- The hash alone stands for a record.
abbrev hashes : Json
hashes = record {
  marshal = λ fi. some fi.hash;
  unmarshal = λ v. if v == [] then none else some (record { size = 0; hash = v; mtime = 0 });
}

abbrev song : FileInfo
song = record { size = 5; hash = text "h"; mtime = 7 }

abbrev path : List Str
path = text "amy" ∷ text "song" ∷ []

abbrev one_owner : Values
one_owner = (set_file buckets hashes none path (some song) (text "amy@1") []).0

abbrev two_owners : Values
two_owners = (set_file buckets hashes none path (some song) (text "amy@2") one_owner).0

first : get_owners buckets hashes none (text "h") one_owner ≡ ok (text "amy@1" ∷ [])
unfolding program
first = refl

-- A file that is not there cannot be withdrawn.
missing : (set_file buckets hashes none path none (text "amy@1") []).1 ≡ panic
unfolding program
missing = refl

found :
    get_dir buckets hashes none (text "amy") one_owner
    ≡ ok ((text "song", record { size = 0; hash = text "h"; mtime = 0 }) ∷ [], [])
unfolding program
found = refl

amys : IsOwner (text "amy@1") × IsOwner (text "amy@2")
unfolding ◌==◌
amys = ground arith

slashless : All (IsFree slash) (text "amy@1" ∷ text "amy@2" ∷ [])
slashless = ground arith

set_file_runs_owners_together_example :
    get_owners buckets hashes none (text "h") two_owners
    ≡ ok (join 0 (text "amy@1" ∷ text "amy@2" ∷ []) ∷ [])
unfolding program
set_file_runs_owners_together_example =
    set_file_runs_owners_together buckets hashes buckets_laws (text "amy") (text "amy@2")
      (text "song" ∷ []) (text "amy@1" ∷ []) song one_owner two_owners refl refl (amys.0, tt) amys.1
      slashless
