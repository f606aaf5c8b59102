-- ===== src/Server/Running/Tests.antt =====
-- A song that changes, with exports before, during and after it.
use rufs.Base.{
  ◌≡◌, refl, [], ◌∷◌, none, some, true, Str, text, ◌==◌, Dict, lookup, insert, delete, contains,
}
use rufs.Common.{FileInfo}
use rufs.Fuse.{join_path}
use rufs.Client.{new_client, set_callback, append_callback}
use rufs.Server.{share_plus_path, set_file}
use rufs.Server.Offers.{offers}
use rufs.Server.Running.{
  start_shares, is_clean, Running, start_running, changes, starts, exports, others, Reach, started,
  later, cancels, changes_unheard,
}
use rufs.Server.Running.Offering.{reach_offers}

program : Unit {0}
unfolding start_shares start_running set_file offers set_callback append_callback new_client
    join_path is_clean ◌==◌ lookup insert delete contains
program = tt

abbrev old_song : FileInfo
old_song = record { size = 3; hash = text "h1"; mtime = 5 }

abbrev new_song : FileInfo
new_song = record { size = 4; hash = text "h2"; mtime = 6 }

abbrev shares : Dict Str
shares = (text "m", text "/music") ∷ []

-- The callbacks of two shares come behind the one that signs in.
callbacks_in_order :
    (start_shares
      ((text "a", text "/a") ∷ (text "b", text "/b") ∷ [])
      1
      (set_callback 0 (new_client 3))).1.callbacks
    ≡ 0 ∷ 1 ∷ 2 ∷ []
unfolding program
callbacks_in_order = refl

clean : is_clean (text "m") ≡ true
unfolding program
clean = refl

-- The song was exported, and changes.
changed :
    (r : Running) × Reach (text "m") shares r
    × (r.is_live ≡ true)
    × (r.pending ≡ [])
    × (lookup (text "song") r.cache ≡ some new_song)
unfolding program
changed = (
  _,
  later
      (later
        (later (later started starts) (others (text "b") (text "x") (some old_song) none refl refl))
        (changes (text "song") (some old_song) refl))
      (changes (text "song") (some new_song) refl),
  refl,
  refl,
  refl,
)

reach_offers_example :
    offers (text "h2") (share_plus_path (text "m") (text "song")) changed.0.server.hash_to_path
    ≡ true
reach_offers_example =
    reach_offers (text "m") shares changed.0 (text "song") new_song clean changed.1 changed.2
      changed.3 changed.4

-- The song changes between the copy of an export and its call: the stale entry is sent last, so
-- the server offers the song under both hashes, and the last that the master hears is the old one.
stale_export :
    (r : Running) × Reach (text "m") shares r
    × (offers (text "h1") (share_plus_path (text "m") (text "song")) r.server.hash_to_path ≡ true)
    × (lookup (text "song") r.cache ≡ some new_song)
    × (r.server.requests
        ≡ record { path = text "m/song"; info = some old_song }
          ∷ record { path = text "m/song"; info = some new_song }
          ∷ record { path = text "m/song"; info = some old_song }
          ∷ [])
unfolding program
stale_export = (
  _,
  later
      (later
        (later (later (later started starts) (changes (text "song") (some old_song) refl)) starts)
        (changes (text "song") (some new_song) refl))
      (exports [] [] (text "song") old_song refl),
  refl,
  refl,
  refl,
)

-- The song changes between the end of a context and the start of the next export: the server goes
-- on to offer it under its old hash too.
missed_change :
    (r : Running) × Reach (text "m") shares r
    × (r.pending ≡ [])
    × (offers (text "h1") (share_plus_path (text "m") (text "song")) r.server.hash_to_path ≡ true)
    × (lookup (text "song") r.cache ≡ some new_song)
unfolding program
missed_change = (
  _,
  later
      (later
        (later
          (later (later (later started starts) (changes (text "song") (some old_song) refl))
            cancels)
          (changes_unheard (text "song") (some new_song) refl))
        starts)
      (exports [] [] (text "song") new_song refl),
  refl,
  refl,
  refl,
)
