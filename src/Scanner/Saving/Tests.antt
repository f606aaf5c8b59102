-- ===== src/Scanner/Saving/Tests.antt =====
-- A scan of two files that ends after the first of them was hashed and saved.
use rufs.Base.{
  ◌≡◌, refl, ◌⊎◌, Bool, [], ◌∷◌, Option, some, false, Str, text, ◌==◌, Dict, lookup, insert,
}
use rufs.Common.{FileInfo}
use rufs.Scanner.{Stat, Listener, new_scanner, set_info, seed_one, refresh_one}
use rufs.Scanner.Restart.{complete, save}
use rufs.Scanner.Saving.{
  Saved, start_saving, seeds, refreshes, saves, Reach, started, later, saved_honest,
}

program : Unit {0}
unfolding start_saving new_scanner set_info seed_one refresh_one save ◌==◌ lookup insert
program = tt

abbrev nothing_done : Listener → Bool
nothing_done l = false

abbrev named_hash : Str → Option Str
named_hash fn = some fn

abbrev found : Dict Stat
found = (text "a", record { size = 1; mtime = 2 }) ∷ (text "b", record { size = 3; mtime = 4 }) ∷ []

abbrev seed : Dict FileInfo
seed = (text "b", record { size = 3; hash = text "hb"; mtime = 4 }) ∷ []

abbrev hashed : FileInfo
hashed = record { size = 1; hash = text "a"; mtime = 2 }

abbrev IsFound : Str → Stat → Type 0
IsFound fn st = lookup fn found ≡ some st

abbrev IsNamed : Str → Str → Type 0
IsNamed fn h = named_hash fn ≡ some h

saved_once :
    (s : Saved) × Reach nothing_done IsFound IsNamed seed s
    × (s.disk
        ≡ some (
            (text "b", record { size = 3; hash = text "hb"; mtime = 4 }) ∷ (text "a", hashed) ∷ []))
unfolding program
saved_once = (
  _,
  later
      (later (later started (seeds (text "b") (record { size = 3; mtime = 4 }) refl))
        (refreshes (text "a") (record { size = 1; mtime = 2 }) named_hash refl (λ h e. e)))
      (saves complete),
  refl,
)

there :
    lookup
      (text "a")
      ((text "b", record { size = 3; hash = text "hb"; mtime = 4 }) ∷ (text "a", hashed) ∷ [])
    ≡ some hashed
unfolding program
there = refl

saved_honest_example :
    (lookup (text "a") seed ≡ some hashed)
    ⊎ ((st : Stat) × (h : Str) × (lookup (text "a") found ≡ some st)
        × (named_hash (text "a") ≡ some h)
        × (record { size = st.size; hash = h; mtime = st.mtime } ≡ hashed))
saved_honest_example =
    saved_honest nothing_done IsFound IsNamed seed saved_once.0
      ((text "b", record { size = 3; hash = text "hb"; mtime = 4 }) ∷ (text "a", hashed) ∷ [])
      (text "a") hashed saved_once.1 saved_once.2 there
