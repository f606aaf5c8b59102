-- ===== src/Server/Exporting.antt =====
-- server.go: what the exports of a scanner do to the server. After the first export, and after a
-- reconnect, a scanner calls the server with every file that it has cached.
use rufs.Base.{
  Bool, true, false, ◌&&◌, ◌||◌, ◌≡◌, refl, sym, ◌∙◌, ap, none, some, eq-cases, eq_iff, eq_refl,
  inl, inr, Str, ◌==◌, Dict, List, [], ◌∷◌, lookup, IsMap, All, arith,
}
use rufs.Common.{FileInfo}
use rufs.Fuse.{join_path}
use rufs.Scanner.{Listener, Export, Scanner, export_all, continuous_export}
use rufs.Server.{Server, SetFileRequest, share_plus_path, set_file}
use rufs.Server.Offers.{has_hash, offers-set_file, IsTracking, prefix_eq}

-- The `setFile` that `Run` gives a scanner, called for each export of a log, the last one first.
unfoldable pub deliver : Str → List Export → Server → Server
deliver share [] s = s
deliver share (e ∷ log) s = set_file share e.path e.info e.old (deliver share log s)

-- The requests to the master for what is cached, the last one first.
abbrev pub sent : Str → Dict FileInfo → List SetFileRequest → List SetFileRequest
sent share [] requests = requests
sent share ((fn, fi) ∷ m) requests =
    sent share m (record { path = join_path share fn; info = some fi } ∷ requests)

twice : (b : Bool) → (b && true || b) ≡ b
twice b = ground arith

neither : (b c : Bool) → (b && false || c) ≡ c
neither b c = ground arith

again :
    (share fn : Str) (fi : FileInfo) (cache : Dict FileInfo) (s : Server)
    → lookup fn cache ≡ some fi
    → IsTracking share cache s
    → IsTracking share cache (set_file share fn (some fi) none s)
again share fn fi cache s is t k h =
    offers-set_file share fn (some fi) none s h (share_plus_path share k)
    ∙ rw (prefix_eq, t k h)
        (elim (eq-cases fn k) [
          | inl e ↦
              let there : lookup k cache ≡ some fi = ap (λ j. lookup j cache) (sym e) ∙ is in
              rw (there, (eq_iff fn k).1 e) (twice (fi.hash == h))
          | inr e ↦ rw e (neither (fi.hash == h) (has_hash h (lookup k cache)))
        ])

export_keeps :
    (share : Str) (l : Listener) (cache m : Dict FileInfo) (log : List Export) (s : Server)
    → All (λ e. lookup e.0 cache ≡ some e.1) m
    → IsTracking share cache (deliver share log s)
    → IsTracking share cache (deliver share (export_all false l m log) s)
      × ((deliver share (export_all false l m log) s).requests
          ≡ sent share m (deliver share log s).requests)
unfolding export_all deliver set_file
export_keeps share l cache [] log s h t = (t, refl)
export_keeps share l cache ((fn, fi) ∷ m) log s h t =
    export_keeps share l cache m
      (record { listener = l; path = fn; info = some fi; old = none } ∷ log) s h.1
      (again share fn fi cache (deliver share log s) h.0 t)

-- Every entry of a map is what it looks up.
entries_in :
    (c m : Dict FileInfo)
    → IsMap m
    → ((k : Str) (fi : FileInfo) → lookup k m ≡ some fi → lookup k c ≡ some fi)
    → All (λ e. lookup e.0 c ≡ some e.1) m
unfolding lookup
entries_in c [] h sub = tt
entries_in c ((k, v) ∷ m) h sub = (
  sub k v (rw (eq_refl k) refl),
  entries_in c m h.1 (λ j fi is.
      sub j fi
        (elim (eq-cases k j) [ inl e ↦ cc (h.0, ap (λ i. lookup i m) e, is) | inr e ↦ rw e is ])),
)

-- A scanner whose exports so far have left the server offering exactly what it has cached, and
-- that starts another export to a listener that is not done, as after a reconnect: the server
-- offers exactly that again, and has sent the master one more request for each cached file, in
-- order.
pub continuous_export-IsTracking :
    (share : Str) (l : Listener) (is_done : Listener → Bool) (m : Scanner) (s : Server)
    → IsMap m.file_cache
    → is_done l ≡ false
    → IsTracking share m.file_cache (deliver share m.exports s)
    → IsTracking share m.file_cache (deliver share (continuous_export is_done l m).exports s)
      × ((deliver share (continuous_export is_done l m).exports s).requests
          ≡ sent share m.file_cache (deliver share m.exports s).requests)
unfolding continuous_export
continuous_export-IsTracking share l is_done m s h live t = rw live (
    export_keeps share l m.file_cache m.file_cache m.exports s
      (entries_in m.file_cache m.file_cache h (λ k fi is. is)) t)
