-- ===== src/Fuse/Nodes.antt =====
-- What a failed `Lookup` leaves in the cache, and who may open a file.
use rufs.Base.{
  ℕ, ◌≡◌, refl, inl, inr, none, some, false, Option-cases, Str, trim_slashes, eq_refl, List, lookup,
  lookup-delete, contains, Error, eperm, err, arith,
}
use rufs.Frontend.{DirReply, Frontend, Remote, get_dir_cached, purge_cache_entry}
use rufs.Fuse.{lookup_node, check_access, open_file, is_member}

pub purged : (dn : Str) (f : Frontend) → lookup dn (purge_cache_entry dn f).cache ≡ none
unfolding purge_cache_entry contains
purged dn f = elim (Option-cases (lookup dn f.cache)) [
  | inl e ↦ rw (e, purge_cache_entry, contains) e
  | inr (r, e) ↦ rw (e, purge_cache_entry, contains) (rw (lookup-delete, eq_refl) refl)
]

-- A listing that the master refuses is not cached.
refused :
    (get_dir : Remote DirReply) (dn : Str) (f f' : Frontend) (e : Error)
    → get_dir_cached get_dir dn f ≡ (f', err e)
    → lookup (trim_slashes dn) f'.cache ≡ none
unfolding get_dir_cached
refused get_dir dn f f' e h = ground arith

-- After a `Lookup` that fails, for whatever reason, the listing of the directory is not in the
-- cache: the next one asks the master. The path is one without slashes at its ends.
pub lookup_failure_drops :
    (get_dir : Remote DirReply) (path name : Str) (f f' : Frontend) (e : Error)
    → trim_slashes path ≡ path
    → lookup_node get_dir path name f ≡ (f', err e)
    → lookup path f'.cache ≡ none
unfolding lookup_node
lookup_failure_drops get_dir path name f f' e t h = ground (
  arith,
  purged path (get_dir_cached get_dir path f).0,
  refused get_dir path f (get_dir_cached get_dir path f).0 e,
)

-- `Open` by a user that is not on the list of allowed users is refused, whatever the file, and
-- asks nothing of the master.
pub open_file_denied :
    (us : List ℕ) (get_dir : Remote DirReply) (get_owners : Remote (List Str)) (uid : ℕ)
    (path : Str) (f : Frontend)
    → is_member uid us ≡ false
    → open_file (some us) get_dir get_owners uid path f ≡ (f, err eperm)
unfolding open_file
open_file_denied us get_dir get_owners uid path f h = rw (h, open_file, check_access) refl
