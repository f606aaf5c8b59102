-- ===== src/Scanner/Saving.antt =====
-- filescanner.go: the saves that go on beside a pass. The goroutine of
-- `normalPassWithIntermediateAutoSaving` saves the cache at any time between two changes of it,
-- and the process may end after any of them.
mod Tests
use rufs.Base.{
  ◌≡◌, refl, sym, ◌∙◌, subst, Result, ◌>>=◌, Option, none, some, Bool, true, false, ◌⊎◌, inl, inr,
  eq-cases, eq_refl, Bool-cases, Option-cases, Str, ◌==◌, Dict, [], ◌∷◌, lookup, if◌then◌else◌,
  arith,
}
use mathlib.Core.Option.{none-ne-some, some-injective}
use rufs.Common.{FileInfo}
use rufs.Scanner.{Stat, Listener, Scanner, new_scanner, is_same, set_info, seed_one, refresh_one}
use rufs.Scanner.Pass.{refreshed, lookup-set_info, lookup-refresh_one}
use rufs.Scanner.Restart.{Disk, Writing, complete, refused, torn, save, seeded, lookup-seed_one}

-- `readHashCache`: opening the file, gzip and gob may each fail.
unfoldable pub read_hash_cache :
    {F Z : Type 0}
    → Result F
    → (F → Result Z)
    → (Z → Result (Dict FileInfo))
    → Result (Dict FileInfo)
read_hash_cache opened unzip decode = do fh ← opened; gz ← unzip fh; decode gz

-- A scanner and its disk.
pub record Saved : Type 0 where
  pub scanner : Scanner
  pub disk : Disk

-- A scanner that starts on what the disk has.
unfoldable pub start_saving : Disk → Saved
start_saving disk = record { scanner = new_scanner; disk = disk }

from_seed :
    (st : Stat) (o old : Option FileInfo) (fi : FileInfo)
    → (elim o as (λ x. Option FileInfo) [
      | none ↦ old
      | some f ↦ if is_same f st then some f else old
    ])
      ≡ some fi
    → (o ≡ some fi) ⊎ (old ≡ some fi)
from_seed st none old fi e = inr e
from_seed st (some f) old fi e = elim (Bool-cases (is_same f st)) [
  | inl t ↦ inl (rw t at e)
  | inr t ↦ inr (rw t at e)
]

from_refresh :
    (hash_file : Str → Option Str) (k : Str) (st : Stat) (old : Option FileInfo) (fi : FileInfo)
    → refreshed hash_file k st old ≡ some fi
    → (old ≡ some fi)
      ⊎ ((h : Str) × (hash_file k ≡ some h)
          × (record { size = st.size; hash = h; mtime = st.mtime } ≡ fi))
unfolding refreshed
from_refresh hash_file k st none fi e = elim (Option-cases (hash_file k)) [
  | inl n ↦ inl (rw (refreshed, n) at e)
  | inr (h, s) ↦ let z = rw (refreshed, s) at e in inr (h, s, some-injective _ _ z)
]
from_refresh hash_file k st (some f) fi e = elim (Bool-cases (is_same f st)) [
  | inl t ↦ inl (rw (refreshed, t) at e)
  | inr t ↦ elim (Option-cases (hash_file k)) [
    | inl n ↦ inl (rw (refreshed, t, n) at e)
    | inr (h, s) ↦ let z = rw (refreshed, t, s) at e in inr (h, s, some-injective _ _ z)
  ]
]

-- The folder may change at any time: a walk may meet a file with any size and time that it ever
-- has (`Met`), and hashing it later may give any hash that it ever has (`Hashes`), or fail. `seed`
-- is what the fast pass has read. A file may also be found missing.
module _ (is_done : Listener → Bool) (Met : Str → Stat → Type 0) (Hashes : Str → Str → Type 0)
    (seed : Dict FileInfo) where
  pub data Step (s : Saved) : Saved → Type 0 where
    seeds :
        (path : Str) (st : Stat)
        → Met path st
        → Step s (record s { scanner = seed_one is_done seed path st s.scanner })
    refreshes :
        (path : Str) (st : Stat) (hash_file : Str → Option Str)
        → Met path st
        → ((h : Str) → hash_file path ≡ some h → Hashes path h)
        → Step s (record s { scanner = refresh_one is_done hash_file path st s.scanner })
    forgets : (path : Str) → Step s (record s { scanner = set_info is_done path none s.scanner })
    saves : (writing : Writing) → Step s (record s { disk = save writing s.scanner s.disk })

  pub data Reach : Saved → Type 0 where
    started : Reach (start_saving (some seed))
    later : {s t : Saved} → Reach s → Step s t → Reach t

  -- An entry that the disk had before, or what hashing gives for a file that the walk met, with
  -- its size and time.
  abbrev pub IsHonest : Str → FileInfo → Type 0
  IsHonest k fi =
      (lookup k seed ≡ some fi)
      ⊎ ((st : Stat) × (h : Str) × Met k st
          × Hashes k h
          × (record { size = st.size; hash = h; mtime = st.mtime } ≡ fi))

  abbrev IsHonestMap : Dict FileInfo → Type 0
  IsHonestMap m = (k : Str) (fi : FileInfo) → lookup k m ≡ some fi → IsHonest k fi

  abbrev IsHonestDisk : Disk → Type 0
  IsHonestDisk none = Unit
  IsHonestDisk (some m) = IsHonestMap m

  Step-IsHonest :
      {s t : Saved}
      → Step s t
      → IsHonestMap s.scanner.file_cache × IsHonestDisk s.disk
      → IsHonestMap t.scanner.file_cache × IsHonestDisk t.disk
  unfolding save
  Step-IsHonest {s} (seeds path st met) (cache, disk) = (
    λ k fi e. elim (eq-cases path k) [
      | inl same ↦
          let old = lookup k s.scanner.file_cache in
          let now : lookup k (seed_one is_done seed path st s.scanner).file_cache
              ≡ seeded seed k st old =
            lookup-seed_one is_done seed path k st s.scanner ∙ rw (same, eq_refl) refl in
          elim (from_seed st (lookup k seed) old fi (sym now ∙ e)) [
            | inl i ↦ inl i
            | inr i ↦ cache k fi i
          ]
      | inr other ↦
          cache k fi (sym (lookup-seed_one is_done seed path k st s.scanner ∙ rw other refl) ∙ e)
    ],
    disk,
  )
  Step-IsHonest {s} (refreshes path st hash_file met hashes) (cache, disk) = (
    λ k fi e. elim (eq-cases path k) [
      | inl same ↦
          let old = lookup k s.scanner.file_cache in
          let now : lookup k (refresh_one is_done hash_file path st s.scanner).file_cache
              ≡ refreshed hash_file k st old =
            lookup-refresh_one is_done hash_file path k st s.scanner ∙ rw (same, eq_refl) refl in
          elim (from_refresh hash_file k st old fi (sym now ∙ e)) [
            | inl i ↦ cache k fi i
            | inr (h, g, i) ↦
                let there : Met k st = subst (λ p. Met p st) same met in
                let gives : Hashes k h = subst (λ p. Hashes p h) same (hashes h (rw same g)) in
                inr (st, h, there, gives, i)
          ]
      | inr other ↦
          cache k fi
            (sym (lookup-refresh_one is_done hash_file path k st s.scanner ∙ rw other refl) ∙ e)
    ],
    disk,
  )
  Step-IsHonest {s} (forgets path) (cache, disk) = (
    λ k fi e. elim (eq-cases path k) [
      | inl same ↦
          let gone : lookup k (set_info is_done path none s.scanner).file_cache ≡ none =
            lookup-set_info is_done path k none s.scanner ∙ rw (same, eq_refl) refl in
          absurd (none-ne-some fi (sym gone ∙ e))
      | inr other ↦
          cache k fi (sym (lookup-set_info is_done path k none s.scanner ∙ rw other refl) ∙ e)
    ],
    disk,
  )
  Step-IsHonest {s} (saves complete) (cache, disk) = (cache, cache)
  Step-IsHonest {s} (saves refused) (cache, disk) = (cache, disk)
  Step-IsHonest {s} (saves torn) (cache, disk) = (cache, tt)

  reach-IsHonest : {s : Saved} → Reach s → IsHonestMap s.scanner.file_cache × IsHonestDisk s.disk
  unfolding start_saving new_scanner lookup
  reach-IsHonest started = (λ k fi e. absurd (none-ne-some fi e), λ k fi e. inl e)
  reach-IsHonest (later r st) = Step-IsHonest st (reach-IsHonest r)

  -- A scanner that starts on what the disk has, and that may be ended at any point: whatever files
  -- its walks have got to, and whenever and however its saves have ended, each entry that the disk
  -- then has is one that it had before, or a hash of a file that a walk met, with the size and time
  -- that it met, also where the folder changes at any time.
  pub saved_honest :
      (s : Saved) (m : Dict FileInfo) (k : Str) (fi : FileInfo)
      → Reach s
      → s.disk ≡ some m
      → lookup k m ≡ some fi
      → (lookup k seed ≡ some fi)
        ⊎ ((st : Stat) × (h : Str) × Met k st
            × Hashes k h
            × (record { size = st.size; hash = h; mtime = st.mtime } ≡ fi))
  saved_honest s m k fi reach e is = subst IsHonestDisk e (reach-IsHonest reach).1 k fi is
