-- ===== src/Scanner.antt =====
-- filescanner/filescanner.go: the hashes of a shared folder are kept up to date, and every change
-- is exported to the listeners.
pub mod Pass
pub mod Listeners
pub mod Restart
pub mod Saving
mod Tests
use rufs.Base.{
  ℕ, zero, suc, ◌-◌, ◌+◌, List, [], ◌∷◌, ◌++◌, Option, none, some, Bool, true, false, not, ◌&&◌,
  ◌||◌, Str, text, slash, ◌==◌, Dict, lookup, insert, delete, contains, keys, nat_eq, ltb, length,
  get_elem?, set, take, if◌then◌else◌, Result, ok, err, panic,
}
use rufs.Common.{FileInfo}
use rufs.Fuse.{join_path}

-- What os.FileInfo says of a regular file.
pub record Stat : Type 0 where
  pub size : ℕ
  pub mtime : ℕ

-- A shared folder: files, of which only the regular ones are scanned, and folders.
mutual
  pub data Entry : Type 0 where
    file : Str → Bool → Stat → Entry
    folder : Str → Entries → Entry

  pub data Entries : Type 0 where
    nil : Entries
    cons : Entry → Entries → Entries

-- The test on `base` in `scanFilesystem`.
unfoldable pub is_hidden : Str → Bool
is_hidden [] = false
is_hidden (c ∷ s) = nat_eq c b'.' && (not (c ∷ s == text ".") && not (c ∷ s == text ".."))

-- `scanFilesystem`: the relative paths of the regular files, in the order of the walk. A hidden
-- folder is skipped with all that it holds.
unfoldable mutual
  unfolding is_hidden join_path

  pub scan_entry : Str → Entry → Dict Stat
  scan_entry rel (file name regular st) =
      if is_hidden name then [] else if regular then (join_path rel name, st) ∷ [] else []
  scan_entry rel (folder name es) =
      let inner = scan_filesystem (join_path rel name) es in if is_hidden name then [] else inner

  pub scan_filesystem : Str → Entries → Dict Stat
  scan_filesystem rel nil = []
  scan_filesystem rel (cons e es) = scan_entry rel e ++ scan_filesystem rel es

-- A listener by the number of its context.
abbrev pub Listener : Type 0
Listener = ℕ

-- A call of a listener's callback: the path, the new information and the old.
pub record Export : Type 0 where
  pub listener : Listener
  pub path : Str
  pub info : Option FileInfo
  pub old : Option FileInfo

pub record Scanner : Type 0 where
  pub file_cache : Dict FileInfo
  pub listeners : List Listener
  -- The calls made so far, the last one first.
  pub exports : List Export

unfoldable pub new_scanner : Scanner
new_scanner = record { file_cache = []; listeners = []; exports = [] }

abbrev pub last_or : Listener → List Listener → Listener
last_or d [] = d
last_or d (x ∷ xs) = last_or x xs

-- The loop of `set` over the listeners from place `i` on. The last listener takes the place of
-- one whose context `is_done`. A round lowers the number of listeners or raises `i`, so the number of
-- listeners is fuel enough.
unfoldable pub notify :
    ℕ
    → ℕ
    → (Listener → Bool)
    → (Listener → Export)
    → List Listener
    → List Export
    → List Listener × List Export
notify zero i is_done call ls log = (ls, log)
notify (suc fuel) i is_done call ls log = elim (get_elem? ls i) [
  | none ↦ (ls, log)
  | some l ↦ elim (is_done l) [
    | true ↦ notify fuel i is_done call (take (length ls - 1) (set ls i (last_or l ls))) log
    | false ↦ notify fuel (i + 1) is_done call ls (call l ∷ log)
  ]
]

-- The zero value that the map gives for a missing key.
abbrev pub zero_info : FileInfo
zero_info = record { size = 0; hash = []; mtime = 0 }

abbrev pub info_or_zero : Option FileInfo → FileInfo
info_or_zero none = zero_info
info_or_zero (some f) = f

abbrev pub put_or_delete : Str → Option FileInfo → Dict FileInfo → Dict FileInfo
put_or_delete path none m = delete path m
put_or_delete path (some fi) m = insert path fi m

unfoldable pub set_info : (Listener → Bool) → Str → Option FileInfo → Scanner → Scanner
unfolding notify
set_info is_done path fi m =
    let old = info_or_zero (lookup path m.file_cache) in
    let call : Listener → Export =
      λ l. record { listener = l; path = path; info = fi; old = some old } in
    let (ls, log) = notify (length m.listeners) 0 is_done call m.listeners m.exports in
    record { file_cache = put_or_delete path fi m.file_cache; listeners = ls; exports = log }

-- `f.Size == info.Size() && f.Mtime == info.ModTime()`
abbrev pub is_same : FileInfo → Stat → Bool
is_same f st = nat_eq f.size st.size && nat_eq f.mtime st.mtime

-- The callback of `fastPass`.
unfoldable pub seed_one : (Listener → Bool) → Dict FileInfo → Str → Stat → Scanner → Scanner
unfolding set_info
seed_one is_done seed path st m = elim (lookup path seed) [
  | none ↦ m
  | some f ↦ if is_same f st then set_info is_done path (some f) m else m
]

unfoldable pub seed_all : (Listener → Bool) → Dict FileInfo → Dict Stat → Scanner → Scanner
unfolding seed_one
seed_all is_done seed [] m = m
seed_all is_done seed ((path, st) ∷ found) m =
    seed_all is_done seed found (seed_one is_done seed path st m)

-- `fastPass`; the seed is the hash cache of the disk, if it could be read.
unfoldable pub fast_pass :
    (Listener → Bool) → Option (Dict FileInfo) → Dict Stat → Scanner → Scanner
unfolding seed_all
fast_pass is_done none found m = m
fast_pass is_done (some seed) found m = seed_all is_done seed found m

-- The callback of `normalPass`; `hash_file` is none where the file could not be hashed.
unfoldable pub refresh_one : (Listener → Bool) → (Str → Option Str) → Str → Stat → Scanner → Scanner
unfolding set_info
refresh_one is_done hash_file path st m =
    let hashed : Scanner = elim (hash_file path) [
      | none ↦ m
      | some h ↦
          set_info is_done path (some (record { size = st.size; hash = h; mtime = st.mtime })) m
    ] in
    elim (lookup path m.file_cache) [ none ↦ hashed | some f ↦ if is_same f st then m else hashed ]

-- `scanFilesystemAndReportMissing` with the callback of `normalPass`: the names that were not met,
-- and the scanner.
unfoldable pub refresh_all :
    (Listener → Bool)
    → (Str → Option Str)
    → Dict Stat
    → Dict FileInfo
    → Scanner
    → Dict FileInfo × Scanner
unfolding refresh_one
refresh_all is_done hash_file [] missing m = (missing, m)
refresh_all is_done hash_file ((path, st) ∷ found) missing m =
    refresh_all is_done hash_file found (delete path missing)
      (refresh_one is_done hash_file path st m)

unfoldable pub forget_all : (Listener → Bool) → Dict FileInfo → Scanner → Scanner
unfolding set_info
forget_all is_done [] m = m
forget_all is_done ((fn, fi) ∷ missing) m = forget_all is_done missing (set_info is_done fn none m)

-- `normalPass`; of the names in the file cache only the keys matter.
unfoldable pub normal_pass : (Listener → Bool) → (Str → Option Str) → Dict Stat → Scanner → Scanner
unfolding refresh_all forget_all
normal_pass is_done hash_file found m =
    let (missing, m') = refresh_all is_done hash_file found m.file_cache m in
    forget_all is_done missing m'

-- The calls of `ContinuousExport` for what is cached; it stops once its context is done.
unfoldable pub export_all : Bool → Listener → Dict FileInfo → List Export → List Export
export_all is_done l [] log = log
export_all is_done l ((fn, fi) ∷ m) log =
    let rest =
      export_all is_done l m
        (record { listener = l; path = fn; info = some fi; old = none } ∷ log) in
    if is_done then log else rest

unfoldable pub continuous_export : (Listener → Bool) → Listener → Scanner → Scanner
unfolding export_all
continuous_export is_done l m = record m {
  listeners = m.listeners ++ l ∷ [];
  exports = export_all (is_done l) l m.file_cache m.exports;
}
