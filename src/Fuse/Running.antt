-- ===== src/Fuse/Running.antt =====
-- fuse.go: the life of the mount. Mounting, serving and unmounting are library code.
use rufs.Base.{
  [], ◌==◌, map_ok, if◌then◌else◌, ℕ, ◌*◌, ◌≡◌, ◌↔◌, Option, none, some, Option-cases, inl, inr,
  Bool, true, false, Str, text, Error, Result, ok, arith,
}
use rufs.Fetch.{Handle}
use rufs.Fuse.{create, mkdir, remove, write, fsync, unsupported}
use rufs.Fuse.Mount.{Mount, allow_other}

-- The function that `init` registers: no mount point, no mount; `made` is what `newFuseMnt` gives.
unfoldable pub fuse_module : Str → Result Mount → Result (Option Mount)
fuse_module mountpoint made = if mountpoint == [] then ok none else map_ok some made

-- The options of the mount.
pub record MountOptions : Type 0 where
  pub fs_name : Str
  pub subtype : Str
  pub volume_name : Str
  pub is_read_only : Bool
  pub max_readahead : ℕ
  pub is_for_others : Bool

unfoldable pub mount_options : Mount → MountOptions
unfolding allow_other
mount_options m = record {
  fs_name = text "rufs";
  subtype = text "rufs";
  volume_name = text "rufs";
  is_read_only = true;
  max_readahead = 1024 * 1024;
  is_for_others = allow_other m;
}

-- How the calls of the library end: the mount, the serving, what the connection reports once it is
-- ready, and its closing.
pub record Mounting : Type 0 where
  pub mounted : Option Error
  pub serving : Option Error
  pub mount_error : Option Error
  pub closing : Option Error

-- The error of the connection's closing counts where there is no other.
abbrev or_closing : Option Error → Option Error → Option Error
or_closing (some e) closing = some e
or_closing none closing = closing

-- `Run`, with the error that it returns.
unfoldable pub run_mount : Mounting → Option Error
run_mount env = elim env.mounted [
  | some e ↦ some e
  | none ↦ or_closing (elim env.serving [ some e ↦ some e | none ↦ env.mount_error ]) env.closing
]

-- `Run` returns without an error exactly where none of its four calls has one.
run_mount_lem :
    (env : Mounting)
    → (run_mount env ≡ none) ↔ (
        (env.mounted ≡ none)
        × (env.serving ≡ none)
        × (env.mount_error ≡ none)
        × (env.closing ≡ none))
unfolding run_mount
run_mount_lem env = elim (Option-cases env.mounted) [
  | inr (e, a) ↦ ground arith
  | inl a ↦ elim (Option-cases env.serving) [
    | inr (e, b) ↦ ground arith
    | inl b ↦ elim (Option-cases env.mount_error) [
      | inr (e, c) ↦ ground arith
      | inl c ↦ ground arith
    ]
  ]
]

-- What the goroutine of `Run` does once the context is done: it unmounts a mount that is ready
-- without an error, and closes the connection of one that is not ready within five seconds.
pub data Ending : Type 0 where
  unmounts closes leaves : Ending

unfoldable pub ending : Bool → Option Error → Ending
ending false e = closes
ending true none = unmounts
ending true (some e) = leaves

-- `Create`, `Mkdir`, `Remove`, `Write` and `Fsync`.
unfoldable pub create_node : Result (Unit {0})
unfolding unsupported
create_node = unsupported create

unfoldable pub make_dir : Result (Unit {0})
unfolding unsupported
make_dir = unsupported mkdir

unfoldable pub remove_node : Result (Unit {0})
unfolding unsupported
remove_node = unsupported remove

unfoldable pub write_handle : Result (Unit {0})
unfolding unsupported
write_handle = unsupported write

unfoldable pub fsync_handle : Result (Unit {0})
unfolding unsupported
fsync_handle = unsupported fsync

-- `Release`: `Close` of a handle does nothing.
unfoldable pub release_handle : Handle → Handle × Result (Unit {0})
release_handle h = (h, ok tt)
