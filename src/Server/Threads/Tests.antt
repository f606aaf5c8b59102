-- ===== src/Server/Threads/Tests.antt =====
-- Requests of a server for two files, and the threads that bring them to the master.
use rufs.Base.{
  ◌++◌, replicate, Dict, IsMap, slash, split, lookup, ℕ, ◌≡◌, ◌≢◌, ◌≤◌, ◌<◌, refl, ap, List, [],
  ◌∷◌, none, some, Str, text, All, ok, value_or, ◌==◌, insert, delete, contains, arith,
}
use mathlib.Core.List.{Permᴰ}
use rufs.Common.{FileInfo}
use rufs.MemoryDb
use rufs.MemoryDb.{Database}
use rufs.MemoryDb.Instance.{memory_store, memory_store-Laws}
use rufs.Master
use rufs.Master.{Peer}
use rufs.Server.{SetFileRequest}
use rufs.Server.Threads.{Threads, start_threads, takes, serves, Reach, here, later}
use rufs.Server.Threads.Ending.{IsIdle, threads_keep}
use rufs.Fuse.{join_path}
use rufs.Server.Threads.Publication.{export_requests, export_publishes}
use rufs.Server.Threads.Delivery.{serve_all, filed_at, delivered_in_any_order, overtaken}

program : Unit {0}
unfolding start_threads serve_all Master.set_file MemoryDb.new_database MemoryDb.set_file ◌==◌
    lookup insert delete contains split
program = tt

abbrev amy : Peer
amy = record { user = text "amy"; address = text "h:1"; ident = text "amy@h:1" }

abbrev info : FileInfo
info = record { hash = text "h1"; size = 1; mtime = 1 }

abbrev adds : SetFileRequest
adds = record { path = text "d/f"; info = some info }

abbrev removes : SetFileRequest
removes = record { path = text "d/f"; info = none }

abbrev adds_other : SetFileRequest
adds_other = record { path = text "d/g"; info = some info }

-- The second request is served first.
abbrev swapped : Threads
swapped = record {
  waiting = [];
  threads = replicate 4 none;
  served = adds_other ∷ adds ∷ [];
  failed = [];
}

swapped_reached : Reach (start_threads (adds ∷ adds_other ∷ [])) swapped
unfolding program
swapped_reached =
    later
      (later
        (later (later here (takes 0 adds (adds_other ∷ []) refl refl))
          (takes 1 adds_other [] refl refl))
        (serves 1 adds_other refl))
      (serves 0 adds refl)

-- Both requests are held.
abbrev both_held : Threads
both_held = record {
  waiting = [];
  threads = some adds ∷ some adds_other ∷ none ∷ none ∷ [];
  served = [];
  failed = [];
}

held_reached : Reach (start_threads (adds ∷ adds_other ∷ [])) both_held
unfolding program
held_reached =
    later (later here (takes 0 adds (adds_other ∷ []) refl refl)) (takes 1 adds_other [] refl refl)

abbrev empty : Database
empty = MemoryDb.new_database

abbrev after : List SetFileRequest → Database
after qs = value_or empty (serve_all memory_store memory_store-Laws amy qs empty)

both_served :
    serve_all memory_store memory_store-Laws amy (adds_other ∷ adds ∷ []) empty
    ≡ ok (after (adds_other ∷ adds ∷ []))
unfolding program
both_served = refl

wrong_order_served :
    serve_all memory_store memory_store-Laws amy (removes ∷ adds ∷ []) empty
    ≡ ok (after (removes ∷ adds ∷ []))
unfolding program
wrong_order_served = refl

-- The first byte of the third part.
abbrev third_byte : List Str → ℕ
third_byte (a ∷ b ∷ (c ∷ cs) ∷ rest) = c
third_byte _ = 0

distinct_bytes : (m n : ℕ) → m < n → ¬ (m ≡ n)
distinct_bytes m n l e = omega arith

apart : filed_at (text "amy") adds ≢ filed_at (text "amy") adds_other
unfolding split
apart e = distinct_bytes 102 103 (omega arith) (ap third_byte e)

threads_keep_example :
    Permᴰ (adds ∷ adds_other ∷ []) (adds ∷ adds_other ∷ [])
    × (2 ≤ 4)
    × ((t : Threads) × Reach both_held t
        × IsIdle t
        × Permᴰ (adds ∷ adds_other ∷ []) (t.failed ++ t.served))
threads_keep_example = threads_keep (adds ∷ adds_other ∷ []) both_held held_reached

delivered_in_any_order_example :
    All
      (λ q.
        memory_store-Laws.file_at (filed_at (text "amy") q) (after (adds_other ∷ adds ∷ []))
        ≡ q.info)
      (adds ∷ adds_other ∷ [])
delivered_in_any_order_example =
    delivered_in_any_order memory_store memory_store-Laws amy (adds ∷ adds_other ∷ []) swapped empty
      (after (adds_other ∷ adds ∷ [])) memory_store-Laws.init-IsValid ((apart, tt), (tt, tt))
      swapped_reached refl refl refl both_served

overtaken_example :
    (t : Threads) × Reach (start_threads (adds ∷ removes ∷ [])) t
    × (t.served ≡ removes ∷ adds ∷ [])
    × (memory_store-Laws.file_at (filed_at (text "amy") adds) (after (removes ∷ adds ∷ []))
        ≡ some info)
overtaken_example =
    overtaken memory_store memory_store-Laws amy adds removes empty (after (removes ∷ adds ∷ []))
      memory_store-Laws.init-IsValid wrong_order_served

abbrev cache : Dict FileInfo
cache = (text "f", info) ∷ (text "g", info) ∷ []

export_reached : Reach (start_threads (export_requests (text "d") cache)) swapped
unfolding join_path
export_reached = swapped_reached

cache-IsMap : IsMap cache
unfolding program
cache-IsMap = (refl, (refl, tt))

cached : lookup (text "f") cache ≡ some info
unfolding program
cached = refl

export_publishes_example :
    memory_store-Laws.file_at
      (text "amy" ∷ split slash (join_path (text "d") (text "f")))
      (after (adds_other ∷ adds ∷ []))
    ≡ some info
export_publishes_example =
    export_publishes memory_store memory_store-Laws amy (text "d") (text "f") info cache swapped
      empty (after (adds_other ∷ adds ∷ [])) memory_store-Laws.init-IsValid cache-IsMap
      export_reached refl refl refl both_served cached
