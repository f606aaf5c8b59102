-- ===== src/Store.antt =====
-- The database that the master is built with. The build tags choose one of database_inmem.go,
-- database_bolt.go and database_sqlite.go, which declare the same type `Database` with the same
-- methods. The master's proofs use the laws below alone.
use rufs.Base.{
  ℕ, ◌≡◌, ◌≢◌, Option, none, some, Str, slash, split, List, [], ◌∷◌, ◌++◌, Dict, lookup, Result, ok,
}
use mathlib.Core.List.{Mem}
use rufs.MemoryDb.Files.{IsGood}
use rufs.Common.{FileInfo}

pub record Store : Type 1 where
  pub State : Type 0
  pub init : State
  pub set_file : List Str → Option FileInfo → Str → State → Result State
  pub peer_disconnected : Str → State → Result State
  pub get_owners : Str → State → Result (List Str)
  pub get_dir : Str → State → Result (Dict FileInfo × List Str)

-- What a database promises: its states form a map from paths to files, which `SetFile` writes at one
-- path, from which `PeerDisconnected` takes the files that the owner alone has, and which `GetDir`
-- and `GetOwners` show.
pub record Laws (db : Store) : Type 1 where
  pub IsValid : db.State → Type 0
  pub file_at : List Str → db.State → Option FileInfo
  pub init-IsValid : IsValid db.init
  pub init-empty : (q : List Str) (f : FileInfo) → ¬ (file_at q db.init ≡ some f)
  pub set_file-IsValid :
      (p : Str) (rest : List Str) (v : Option FileInfo) (owner : Str) (s s' : db.State)
      → IsValid s
      → db.set_file (p ∷ rest) v owner s ≡ ok s'
      → IsValid s'
  pub set_file_here :
      (p : Str) (rest : List Str) (v : Option FileInfo) (owner : Str) (s s' : db.State)
      → IsValid s
      → db.set_file (p ∷ rest) v owner s ≡ ok s'
      → file_at (p ∷ rest) s' ≡ v
  pub set_file_others :
      (p : Str) (rest : List Str) (v : Option FileInfo) (owner : Str) (s s' : db.State)
      → IsValid s
      → db.set_file (p ∷ rest) v owner s ≡ ok s'
      → (q : List Str) → q ≢ p ∷ rest
      → file_at q s' ≡ file_at q s
  pub disconnected-IsValid :
      (owner : Str) (s s' : db.State)
      → IsValid s
      → db.peer_disconnected owner s ≡ ok s'
      → IsValid s'
  pub disconnected_shrinks :
      (owner : Str) (s s' : db.State)
      → IsValid s
      → db.peer_disconnected owner s ≡ ok s'
      → (q : List Str) (f : FileInfo) → file_at q s' ≡ some f
      → file_at q s ≡ some f
  pub disconnected_removes :
      (owner : Str) (s s' : db.State)
      → IsValid s
      → db.peer_disconnected owner s ≡ ok s'
      → (q : List Str) (f : FileInfo) → file_at q s ≡ some f
      → db.get_owners f.hash s ≡ ok (owner ∷ [])
      → file_at q s' ≡ none
  pub disconnected_keeps :
      (owner : Str) (s s' : db.State)
      → IsValid s
      → db.peer_disconnected owner s ≡ ok s'
      → (q : List Str) (f : FileInfo) → file_at q s ≡ some f
      → db.get_owners f.hash s ≢ ok (owner ∷ [])
      → file_at q s' ≡ some f
  pub set_file_lists_owner :
      (p : Str) (rest : List Str) (fi : FileInfo) (owner : Str) (s s' : db.State)
      → IsValid s
      → db.set_file (p ∷ rest) (some fi) owner s ≡ ok s'
      → (owners : List Str) × (db.get_owners fi.hash s' ≡ ok owners) × Mem owner owners
  pub get_dir_lists :
      (c : ℕ) (dir n : Str) (s : db.State) (files : Dict FileInfo) (dirs : List Str)
      → IsValid s
      → db.get_dir (c ∷ dir) s ≡ ok (files, dirs)
      → lookup n files ≡ file_at (split slash (c ∷ dir) ++ n ∷ []) s
  pub get_dir_returns :
      (c : ℕ) (dir n : Str) (f : FileInfo) (s : db.State)
      → IsValid s
      → IsGood (split slash (c ∷ dir))
      → file_at (split slash (c ∷ dir) ++ n ∷ []) s ≡ some f
      → (files : Dict FileInfo) × (dirs : List Str) × (db.get_dir (c ∷ dir) s ≡ ok (files, dirs))
