-- ===== src/Server/Offers.antt =====
-- What the server offers, against the file cache of the scanner that drives it.
use rufs.Base.{
  ◌≡◌, refl, sym, ◌∙◌, ap, Option, none, some, Bool, true, false, not, ◌&&◌, ◌||◌, eq-cases,
  eq_refl, eq_iff, inl, inr, Str, ◌==◌, Dict, [], ◌∷◌, lookup, contains, lookup-insert,
  lookup-delete, contains-insert, contains-delete, if◌then◌else◌, arith, nat_eq,
}
use rufs.Common.{FileInfo}
use rufs.Scanner.{put_or_delete, info_or_zero}
use rufs.Server.{
  Server, PathSet, set_or_empty, share_plus_path, keep_paths, drop_old, add_new, set_file,
}

-- Whether a path is offered under a hash.
unfoldable pub offers : Str → Str → Dict PathSet → Bool
offers h p m = contains p (set_or_empty (lookup h m))

abbrev pub has_hash : Str → Option FileInfo → Bool
has_hash h none = false
has_hash h (some f) = f.hash == h

offers-add_new :
    (spp h p : Str) (info : Option FileInfo) (m : Dict PathSet)
    → offers h p (add_new spp info m) ≡ (has_hash h info && spp == p || offers h p m)
unfolding offers add_new
offers-add_new spp h p none m = refl
offers-add_new spp h p (some i) m = elim (eq-cases i.hash h) [
  | inl e ↦ rw (← e) (simp (lookup-insert, eq_refl) (contains-insert spp p tt _))
  | inr e ↦ simp (lookup-insert, e)
]

offers-keep_paths :
    (hash h p : Str) (d : PathSet) (m : Dict PathSet)
    → offers h p (keep_paths hash d m) ≡ (if hash == h then contains p d else offers h p m)
unfolding offers keep_paths
offers-keep_paths hash h p [] m = elim (eq-cases hash h) [
  | inl e ↦ rw (← e) (simp (lookup-delete, eq_refl) (unfold contains lookup in refl))
  | inr e ↦ simp (lookup-delete, e)
]
offers-keep_paths hash h p (q ∷ d) m = elim (eq-cases hash h) [
  | inl e ↦ rw (← e) (simp (lookup-insert, eq_refl))
  | inr e ↦ simp (lookup-insert, e)
]

offers-drop_old :
    (spp h p : Str) (old : Option FileInfo) (m : Dict PathSet)
    → offers h p (drop_old spp old m) ≡ (not (has_hash h old && spp == p) && offers h p m)
unfolding drop_old
offers-drop_old spp h p none m = refl
offers-drop_old spp h p (some o) m = elim (eq-cases o.hash h) [
  | inl e ↦
      offers-keep_paths o.hash h p _ m
      ∙ rw (← e) (simp (eq_refl, contains-delete) (unfold offers in refl))
  | inr e ↦ offers-keep_paths o.hash h p _ m ∙ simp e
]

pub prefix_eq : (s k j : Str) → (share_plus_path s k == share_plus_path s j) ≡ (k == j)
unfolding ◌==◌
prefix_eq [] k j = refl
prefix_eq (c ∷ s) k j = let same : nat_eq c c ≡ true = ground arith in rw same (prefix_eq s k j)

-- `SetFile` offers the path under the new hash and no longer under the old one, and changes no
-- other offer.
pub offers-set_file :
    (share path : Str) (info old : Option FileInfo) (s : Server) (h p : Str)
    → offers h p (set_file share path info old s).hash_to_path ≡ (
        has_hash h info && share_plus_path share path == p
        || (not (has_hash h old && share_plus_path share path == p) && offers h p s.hash_to_path))
unfolding set_file
offers-set_file share path info old s h p =
    offers-add_new (share_plus_path share path) h p info _
    ∙ ap (λ b. has_hash h info && share_plus_path share path == p || b)
        (offers-drop_old (share_plus_path share path) h p old s.hash_to_path)

-- The server offers a path of the share under a hash exactly if the cache has the path with it.
abbrev pub IsTracking : Str → Dict FileInfo → Server → Type 0
IsTracking share cache s =
    (k h : Str) → offers h (share_plus_path share k) s.hash_to_path ≡ has_hash h (lookup k cache)

pub lookup-put_or_delete :
    (path k : Str) (info : Option FileInfo) (cache : Dict FileInfo)
    → lookup k (put_or_delete path info cache) ≡ (if path == k then info else lookup k cache)
lookup-put_or_delete path k none cache = lookup-delete path k cache
lookup-put_or_delete path k (some fi) cache = lookup-insert path k fi cache

untouched : (a b c : Bool) → (a && false || (not (b && false) && c)) ≡ c
untouched a b c = ground arith

-- `old` and `now` are what the cache has at `path` and at `k`.
moved :
    (h : Str) (b : Bool) (now : Option FileInfo)
    → (b && true || (not ((info_or_zero now).hash == h && true) && has_hash h now)) ≡ b
moved h b none = ground arith
moved h b (some f) = ground arith

tracked :
    (h : Str) (info : Option FileInfo) (path k : Str) (old now : Option FileInfo)
    → (path ≡ k → old ≡ now)
    → (has_hash h info && path == k
        || (not ((info_or_zero old).hash == h && path == k) && has_hash h now))
      ≡ has_hash h (if path == k then info else now)
tracked h info path k old now same = elim (eq-cases path k) [
  | inl e ↦ rw ((eq_iff path k).1 e) (rw (same e) (moved h (has_hash h info) now))
  | inr e ↦ rw e (untouched (has_hash h info) ((info_or_zero old).hash == h) (has_hash h now))
]

-- The scanner changes an entry of its cache and calls `SetFile` with the new information and the
-- old: the server then offers exactly what the cache has again.
pub set_file-IsTracking :
    (share path : Str) (info : Option FileInfo) (cache : Dict FileInfo) (s : Server)
    → IsTracking share cache s
    → IsTracking share
        (put_or_delete path info cache)
        (set_file share path info (some (info_or_zero (lookup path cache))) s)
set_file-IsTracking share path info cache s t k h =
    offers-set_file share path info (some (info_or_zero (lookup path cache))) s h
      (share_plus_path share k)
    ∙ rw (prefix_eq, t k h)
        (tracked h info path k (lookup path cache) (lookup k cache)
            (λ e. ap (λ j. lookup j cache) e)
          ∙ ap (has_hash h) (sym (lookup-put_or_delete path k info cache)))
