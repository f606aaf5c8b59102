-- ===== src/Frontend.antt =====
-- felib.go, and what fuse.go does with its own copy of the same methods: directory listings of the
-- master are cached, each for three ticks of the purger.
pub mod Expiry
mod Tests
use rufs.Base.{
  ℕ, ◌-◌, List, [], ◌∷◌, ◌++◌, Option, none, some, Bool, true, false, not, Str, text, slash,
  trim_slashes, ◌==◌, Dict, lookup, insert, delete, contains, keys, nat_eq, leb, if◌then◌else◌,
  Error, enoent, eperm, enosys, Result, ok, err, panic,
}
use mathlib.Core.List.{reverse}
use rufs.Common.{FileInfo}

-- `GetDirReply`
pub record DirReply : Type 0 where
  pub dirs : List Str
  pub files : Dict FileInfo

pub record Frontend : Type 0 where
  pub cache : Dict DirReply
  pub cache_expiry : Dict ℕ

-- The answer of the master to a call.
abbrev pub Remote : Type 0 → Type 0
Remote A = Str → Result A

-- The body of the loop of `cachePurger`.
unfoldable pub purge_one : Str → ℕ → Frontend → Frontend
purge_one dn exp f =
    if leb exp 1
    then record f { cache = delete dn f.cache; cache_expiry = delete dn f.cache_expiry }
    else record f { cache_expiry = insert dn (exp - 1) f.cache_expiry }

-- The loop of `cachePurger`, over the entries at its start: the body only touches its own entry.
unfoldable pub purge_all : Dict ℕ → Frontend → Frontend
unfolding purge_one
purge_all [] f = f
purge_all ((dn, exp) ∷ es) f = purge_all es (purge_one dn exp f)

-- One tick of `cachePurger`.
unfoldable pub tick : Frontend → Frontend
unfolding purge_all
tick f = purge_all f.cache_expiry f

unfoldable pub purge_cache_entry : Str → Frontend → Frontend
purge_cache_entry dn f =
    if contains dn f.cache
    then record f { cache = delete dn f.cache; cache_expiry = delete dn f.cache_expiry }
    else f

-- `GetDirCached`. An error of the master is passed on, and nothing is cached.
unfoldable pub get_dir_cached : Remote DirReply → Str → Frontend → Frontend × Result DirReply
get_dir_cached get_dir dn f =
    let dn' = trim_slashes dn in
    elim (lookup dn' f.cache) [
      | some reply ↦ (f, ok reply)
      | none ↦ elim (get_dir dn') [
        | ok reply ↦ (
          record { cache = insert dn' reply f.cache; cache_expiry = insert dn' 3 f.cache_expiry },
          ok reply,
        )
        | err e ↦ (f, err e)
        | panic ↦ (f, panic)
      ]
    ]

-- filepath.Split on a reversed path: the name, and the directory with its slash, both reversed.
split_reversed : Str → Str × Str
split_reversed [] = ([], [])
split_reversed (c ∷ s) =
    let (name, rest) = split_reversed s in if nat_eq c slash then ([], c ∷ s) else (c ∷ name, rest)

-- filepath.Split: the path up to its last slash, and what follows.
unfoldable pub split_path : Str → Str × Str
unfolding split_reversed
split_path p = let (name, d) = split_reversed (reverse p) in (reverse d, reverse name)

abbrev pub file_or : Error → Option FileInfo → Result FileInfo
file_or e none = err e
file_or e (some fi) = ok fi

abbrev pub map_reply {ℓ} : {A : Type ℓ} → (DirReply → Result A) → Result DirReply → Result A
map_reply k (ok r) = k r
map_reply k (err e) = err e
map_reply k panic = panic

-- `GetFileInfo`; the error for a missing file is "file not found" or ENOENT.
unfoldable pub get_file_info : Error → Remote DirReply → Str → Frontend → Frontend × Result FileInfo
unfolding split_path get_dir_cached
get_file_info missing get_dir fn f =
    let (dn, name) = split_path fn in
    let (f', reply) = get_dir_cached get_dir dn f in
    (f', map_reply (λ r. file_or missing (lookup name r.files)) reply)
