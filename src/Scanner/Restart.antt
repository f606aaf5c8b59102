-- ===== src/Scanner/Restart.antt =====
-- filescanner.go: what a scanner keeps on disk, and how it starts with it. The encoding of the map
-- and the file system are library code.
use rufs.Base.{
  ◌≡◌, refl, ◌∙◌, ap, Option, none, some, Bool, false, Bool-cases, Option-cases, eq-cases, eq_refl,
  inl, inr, Str, text, slash, nat_eq, ◌++◌, ◌==◌, Dict, [], ◌∷◌, lookup, IsMap, if◌then◌else◌,
  arith,
}
use rufs.Common.{FileInfo}
use rufs.Fuse.{join_path}
use rufs.Scanner.{
  Stat, Listener, Scanner, new_scanner, is_same, seed_one, seed_all, fast_pass, normal_pass,
}
use rufs.Scanner.Pass.{refreshed, after_pass, lookup-set_info, lookup-normal_pass}

-- `strings.Replace(m.baseDir, "/", "-", -1)`
unfoldable pub dashed : Str → Str
dashed [] = []
dashed (c ∷ s) = let rest = dashed s in if nat_eq c slash then b'-' ∷ rest else c ∷ rest

unfoldable pub cache_file_name : Str → Str → Str
unfolding dashed join_path
cache_file_name cache_dir base_dir =
    join_path cache_dir (text "hashcache-" ++ dashed base_dir ++ text ".dat")

-- What the file of the hash cache decodes to, if it can be read.
abbrev pub Disk : Type 0
Disk = Option (Dict FileInfo)

-- How a write ends: the new file takes the place of the old one; an error is reported, and the old
-- one stays; or the error comes with the closing of the file, where it is dropped, and a file that
-- cannot be read takes the place of the old one.
pub data Writing : Type 0 where
  complete refused torn : Writing

-- `save` and `writeHashCache`
unfoldable pub save : Writing → Scanner → Disk → Disk
save complete m disk = some m.file_cache
save refused m disk = disk
save torn m disk = none

-- `Run` up to the first `save` of its loop; the saves that go on beside the first normal pass are
-- left out.
unfoldable pub start_up :
    (Listener → Bool) → (Str → Option Str) → Dict Stat → Writing → Disk → Scanner → Scanner × Disk
unfolding save
start_up is_done hash_file found writing disk m =
    let m' = normal_pass is_done hash_file found (fast_pass is_done disk found m) in
    (m', save writing m' disk)

-- A round of the loop of `Run`, up to its next `save`.
unfoldable pub round :
    (Listener → Bool) → (Str → Option Str) → Dict Stat → Writing → Disk → Scanner → Scanner × Disk
unfolding save
round is_done hash_file found writing disk m =
    let m' = normal_pass is_done hash_file found m in (m', save writing m' disk)

-- What the fast pass leaves for a file that it meets.
abbrev pub seeded : Dict FileInfo → Str → Stat → Option FileInfo → Option FileInfo
seeded seed k st old = elim (lookup k seed) [
  | none ↦ old
  | some f ↦ if is_same f st then some f else old
]

abbrev met_or : Dict FileInfo → Str → Option Stat → Option FileInfo → Option FileInfo
met_or seed k none old = old
met_or seed k (some st) old = seeded seed k st old

-- What a scanner that starts has for a file: what the disk has, where size and time are those of
-- the file, and else what hashing it gives.
abbrev pub restarted : (Str → Option Str) → Dict FileInfo → Str → Option Stat → Option FileInfo
restarted hash_file seed k none = none
restarted hash_file seed k (some st) = elim (lookup k seed) [
  | none ↦ refreshed hash_file k st none
  | some f ↦ if is_same f st then some f else refreshed hash_file k st none
]

module _ (is_done : Listener → Bool) (seed : Dict FileInfo) where
  seeded_same :
      (path : Str) (st : Stat) (m : Scanner)
      → lookup path (seed_one is_done seed path st m).file_cache
        ≡ seeded seed path st (lookup path m.file_cache)
  unfolding seed_one
  seeded_same path st m = elim (Option-cases (lookup path seed)) [
    | inl n ↦ ground arith
    | inr (f, e) ↦ ground (arith, eq_refl path, lookup-set_info is_done path path (some f) m)
  ]

  seeded_other :
      (path k : Str) (st : Stat) (m : Scanner)
      → (path == k) ≡ false
      → lookup k (seed_one is_done seed path st m).file_cache ≡ lookup k m.file_cache
  unfolding seed_one
  seeded_other path k st m e = elim (Option-cases (lookup path seed)) [
    | inl n ↦ ground arith
    | inr (f, s) ↦ ground (arith, lookup-set_info is_done path k (some f) m)
  ]

  pub lookup-seed_one :
      (path k : Str) (st : Stat) (m : Scanner)
      → lookup k (seed_one is_done seed path st m).file_cache ≡ (
          if path == k
          then seeded seed path st (lookup path m.file_cache)
          else lookup k m.file_cache)
  lookup-seed_one path k st m = elim (eq-cases path k) [
    | inl e ↦ rw (← e) (rw eq_refl (seeded_same path st m))
    | inr e ↦ rw e (seeded_other path k st m e)
  ]

  lookup-seed_all :
      (k : Str) (found : Dict Stat) (m : Scanner)
      → IsMap found
      → lookup k (seed_all is_done seed found m).file_cache
        ≡ met_or seed k (lookup k found) (lookup k m.file_cache)
  unfolding seed_all lookup
  lookup-seed_all k [] m h = refl
  lookup-seed_all k ((path, st) ∷ found) m h =
      lookup-seed_all k found (seed_one is_done seed path st m) h.1 ∙ elim (eq-cases path k) [
        | inl e ↦
            let absent : lookup k found ≡ none = rw e at h.0 in
            rw (absent, lookup-seed_one, e, eq_refl) refl
        | inr e ↦ rw (lookup-seed_one, e) refl
      ]

refreshed-seeded :
    (hash_file : Str → Option Str) (seed : Dict FileInfo) (k : Str) (st : Stat)
    → refreshed hash_file k st (seeded seed k st none) ≡ restarted hash_file seed k (some st)
unfolding refreshed
refreshed-seeded hash_file seed k st = elim (Option-cases (lookup k seed)) [
  | inl n ↦ ground arith
  | inr (f, e) ↦ elim (Bool-cases (is_same f st)) [
    | inl same ↦ ground arith
    | inr other ↦ ground arith
  ]
]

after_restart :
    (hash_file : Str → Option Str) (seed : Dict FileInfo) (found : Dict Stat) (k : Str)
    → after_pass hash_file found k (met_or seed k (lookup k found) none)
      ≡ restarted hash_file seed k (lookup k found)
unfolding after_pass
after_restart hash_file seed found k = elim (Option-cases (lookup k found)) [
  | inl n ↦ rw (n, after_pass) refl
  | inr (st, e) ↦ rw (e, after_pass, e) (refreshed-seeded hash_file seed k st)
]

-- A scanner that starts on what the disk has, over a folder that the walk reads as a map, and
-- whose cache can be written: for every path its cache then has nothing where the walk did not
-- meet it, the entry of the disk where size and time are those of the file, whatever hashing it
-- would give, and else what hashing gives; and the disk has that cache.
pub restart_hashes_changes :
    (is_done : Listener → Bool) (hash_file : Str → Option Str) (found : Dict Stat)
    (seed : Dict FileInfo) (k : Str)
    → IsMap found
    → ((start_up is_done hash_file found complete (some seed) new_scanner).1
        ≡ some (start_up is_done hash_file found complete (some seed) new_scanner).0.file_cache)
      × (lookup k (start_up is_done hash_file found complete (some seed) new_scanner).0.file_cache
          ≡ restarted hash_file seed k (lookup k found))
unfolding start_up fast_pass
restart_hashes_changes is_done hash_file found seed k h = (
  refl,
  lookup-normal_pass is_done hash_file k found (seed_all is_done seed found new_scanner) h
      ∙ ap (after_pass hash_file found k) (lookup-seed_all is_done seed k found new_scanner h)
      ∙ unfold lookup new_scanner in after_restart hash_file seed found k,
)
