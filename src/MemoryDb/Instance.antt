-- ===== src/MemoryDb/Instance.antt =====
-- The database in memory as a `Store`, with the laws of the interface.
use rufs.Base.{◌≡◌, refl, ap, ok, ok_injective, true, eq-cases, inl, inr, Str, List, [], ◌∷◌}
use mathlib.Core.List.{Mem, mem-cons_self, mem-cons_of_mem}
use rufs.MemoryDb
use rufs.MemoryDb.{Database}
use rufs.MemoryDb.Files.{file_at, file_at-empty}
use rufs.MemoryDb.Index.{IsIndexed, new_database-IsIndexed, set_file_sets, set_file_lists_owner}
use rufs.MemoryDb.Unique.{IsUnique, new_database-IsUnique, set_file-IsUnique}
use rufs.MemoryDb.Owners.{has_name}
use rufs.MemoryDb.Listing.{lookup-get_dir, get_dir_returns}
use rufs.MemoryDb.Disconnect.{peer_disconnected-IsShrunk}
use rufs.MemoryDb.Leaving.{
  peer_disconnected-removes, peer_disconnected-keeps, peer_disconnected-IsUnique,
}
use rufs.Store.{Store, Laws}

abbrev pub memory_store : Store
memory_store = record {
  State = Database;
  init = MemoryDb.new_database;
  set_file = MemoryDb.set_file;
  peer_disconnected = MemoryDb.peer_disconnected;
  get_owners = λ hash d. ok (MemoryDb.get_owners hash d);
  get_dir = MemoryDb.get_dir;
}

abbrev IsValid : Database → Type 0
IsValid d = IsIndexed d × IsUnique d

has_name-Mem : (n : Str) (xs : List Str) → has_name n xs ≡ true → Mem n xs
has_name-Mem n [] h = cc
has_name-Mem n (x ∷ xs) h = elim (eq-cases x n) [
  | inl same ↦ rw same mem-cons_self
  | inr other ↦ mem-cons_of_mem x (has_name-Mem n xs (rw other at h))
]

-- The database in memory is a map from paths to files: a `SetFile` that returns has written its
-- path alone, and `GetOwners` then lists its owner; a `PeerDisconnected` that returns has taken the
-- files whose hash `GetOwners` listed with the owner alone, and no others; `GetDir` of a path other
-- than the top lists what the map has below it, and does so where the map has a file there and no
-- part of the path is empty or begins with a dot.
pub memory_store-Laws : Laws memory_store
unfolding MemoryDb.new_database MemoryDb.path_parts
memory_store-Laws = record {
  IsValid = IsValid;
  file_at = λ q d. file_at q d.file_tree;
  init-IsValid = (new_database-IsIndexed, new_database-IsUnique);
  init-empty = λ q f e. cc (e, file_at-empty q);
  set_file-IsValid = λ p rest v owner s s' h run. (
    (set_file_sets s owner h.0 p rest v s' run).indexed,
    set_file-IsUnique (p ∷ rest) v owner s s' h.1 run,
  );
  set_file_here = λ p rest v owner s s' h run. (set_file_sets s owner h.0 p rest v s' run).here;
  set_file_others = λ p rest v owner s s' h run. (set_file_sets s owner h.0 p rest v s' run).others;
  disconnected-IsValid = λ owner s s' h run. (
    (peer_disconnected-IsShrunk owner s s' h.0 run).indexed,
    peer_disconnected-IsUnique owner s s' h.0 h.1 run,
  );
  disconnected_shrinks = λ owner s s' h run. (peer_disconnected-IsShrunk owner s s' h.0 run).kept;
  disconnected_removes = λ owner s s' h run q f there alone.
      peer_disconnected-removes owner s s' h.0 h.1 run q f there (ok_injective alone);
  disconnected_keeps = λ owner s s' h run q f there shared.
      peer_disconnected-keeps owner s s' h.0 h.1 run q f there (λ alone. shared (ap ok alone));
  set_file_lists_owner = λ p rest fi owner s s' h run. (
    MemoryDb.get_owners fi.hash s',
    refl,
    has_name-Mem owner _ (set_file_lists_owner s owner h.0 p rest fi s' run),
  );
  get_dir_lists = λ c dir n s files dirs h run. lookup-get_dir (c ∷ dir) n s files dirs run;
  get_dir_returns = λ c dir n f s h good there. get_dir_returns (c ∷ dir) n f s good there;
}
