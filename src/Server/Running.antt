-- ===== src/Server/Running.antt =====
-- server.go: `Run` of a server with a folder that is scanned while exports go on. A scanner calls
-- `setFile` for each change, and an export calls it for the entries of a copy of the cache, one by
-- one, with no lock between them; other shares do the same with the same server.
pub mod Offering
mod Tests
use rufs.Base.{
  ℕ, suc, ◌≡◌, List, [], ◌∷◌, ◌++◌, Option, none, some, Bool, true, false, not, ◌&&◌, Str, ◌==◌,
  nat_eq, Dict, lookup, ◌+◌,
}
use rufs.Common.{FileInfo}
use rufs.Client.{MasterClient, append_callback}
use rufs.Scanner.{Listener, Scanner, new_scanner, info_or_zero, put_or_delete, continuous_export}
use rufs.Server.{Server, set_file}

-- A share with its folder, its scanner, and the context of its exports.
pub record Shared : Type 0 where
  pub share : Str
  pub base_dir : Str
  pub scanner : Scanner
  pub context : Listener

-- The loop of `Run` over the shares, with the number of the next context. The callback with the
-- number of a context starts the exports of its share again.
unfoldable pub start_shares : Dict Str → Listener → MasterClient → List Shared × MasterClient
unfolding append_callback continuous_export new_scanner
start_shares [] next c = ([], c)
start_shares ((share, base_dir) ∷ shares) next c =
    let (rest, c') = start_shares shares (next + 1) (append_callback next c) in
    (
      record {
        share = share;
        base_dir = base_dir;
        scanner = continuous_export (λ l. false) next new_scanner;
        context = next;
      }
          ∷ rest,
      c',
    )

-- The callback of a share: its context ends, and its exports start with a new one.
unfoldable pub export_again : Listener → Shared → Shared
unfolding continuous_export
export_again next s = record s {
  scanner = continuous_export (λ l. nat_eq l s.context) next s.scanner;
  context = next;
}

-- No byte of a share's name is zero: the names come from the command line.
unfoldable pub is_clean : Str → Bool
is_clean [] = true
is_clean (c ∷ s) = not (nat_eq c 0) && is_clean s

-- The server, and one share: the cache of its scanner, what the last export has still to send and
-- what those before it have, and whether the context of the last export is not done.
pub record Running : Type 0 where
  pub server : Server
  pub cache : Dict FileInfo
  pub pending : Dict FileInfo
  pub stale : Dict FileInfo
  pub is_live : Bool

unfoldable pub start_running : Dict Str → Running
start_running shares = record {
  server = record { shares = shares; hash_to_path = []; requests = [] };
  cache = [];
  pending = [];
  stale = [];
  is_live = false;
}

-- A change is heard where the context is live. An export starts with a copy of the cache, as at
-- the beginning of `Run` and after a reconnect, and sends it in any order; one whose context is done
-- may leave an entry out.
pub data Step (share : Str) (r : Running) : Running → Type 0 where
  changes :
      (path : Str) (info : Option FileInfo)
      → r.is_live ≡ true
      → Step share r (record r {
        cache = put_or_delete path info r.cache;
        server = set_file share path info (some (info_or_zero (lookup path r.cache))) r.server;
      })
  changes_unheard :
      (path : Str) (info : Option FileInfo)
      → r.is_live ≡ false
      → Step share r (record r { cache = put_or_delete path info r.cache })
  cancels : Step share r (record r { stale = r.stale ++ r.pending; pending = []; is_live = false })
  leaves_out :
      (before after : Dict FileInfo) (path : Str) (info : FileInfo)
      → r.stale ≡ before ++ (path, info) ∷ after
      → Step share r (record r { stale = before ++ after })
  starts :
      Step share r (record r { stale = r.stale ++ r.pending; pending = r.cache; is_live = true })
  exports :
      (before after : Dict FileInfo) (path : Str) (info : FileInfo)
      → r.pending ≡ before ++ (path, info) ∷ after
      → Step share r (record r {
        pending = before ++ after;
        server = set_file share path (some info) none r.server;
      })
  exports_stale :
      (before after : Dict FileInfo) (path : Str) (info : FileInfo)
      → r.stale ≡ before ++ (path, info) ∷ after
      → Step share r (record r {
        stale = before ++ after;
        server = set_file share path (some info) none r.server;
      })
  others :
      (other path : Str) (info old : Option FileInfo)
      → is_clean other ≡ true
      → (other == share) ≡ false
      → Step share r (record r { server = set_file other path info old r.server })

pub data Reach (share : Str) (shares : Dict Str) : Running → Type 0 where
  started : Reach share shares (start_running shares)
  later : {r t : Running} → Reach share shares r → Step share r t → Reach share shares t
