-- ===== src/Ftp/Listing.antt =====
-- What a client of `ListDir` is called back with.
use rufs.Base.{◌≡◌, refl, List, [], ◌∷◌, ◌++◌, map, Str, lookup, keys, All, Error, Result, ok, err}
use mathlib.Core.List.{Perm}
use rufs.Frontend.{DirReply, Frontend, Remote, get_dir_cached}
use rufs.Ftp.{Info, dir_info, file_info, info_or_zero, sort, listing, call_back, list_dir}
use rufs.Ftp.Sorting.{IsAscending, sort-IsAscending, sort-perm}

module _ (cb : Info → Result (Unit {0})) where
  call_back-ok : (is : List Info) → All (λ i. cb i ≡ ok tt) is → call_back cb is ≡ (is, ok tt)
  unfolding call_back
  call_back-ok [] h = refl
  call_back-ok (i ∷ is) h = rw (h.0, call_back, call_back-ok is h.1) refl

  call_back-err :
      (before after : List Info) (i : Info) (e : Error)
      → All (λ j. cb j ≡ ok tt) before
      → cb i ≡ err e
      → call_back cb (before ++ i ∷ after) ≡ (before ++ i ∷ [], err e)
  unfolding call_back
  call_back-err [] after i e h f = rw (call_back, f) refl
  call_back-err (j ∷ before) after i e h f =
      rw (h.0, call_back, call_back-err before after i e h.1 f) refl

  module _ (get_dir : Remote DirReply) (dir : Str) (f f' : Frontend) (r : DirReply) where
    -- A listing that is at hand, with a callback that takes what it gets: `ListDir` calls back
    -- first once for each directory, then once for each file with what the listing has of it, both
    -- in ascending order of their names.
    pub list_dir_sorts :
        get_dir_cached get_dir dir f ≡ (f', ok r)
        → All (λ i. cb i ≡ ok tt) (listing r)
        → (ds : List Str) × (fs : List Str) × (list_dir get_dir cb dir f ≡ (
          f',
          map dir_info ds ++ map (λ n. file_info n (info_or_zero (lookup n r.files))) fs,
          ok tt,
        ))
          × IsAscending ds
          × IsAscending fs
          × Perm ds r.dirs
          × Perm fs (keys r.files)
    unfolding list_dir listing
    list_dir_sorts e h = (
      sort r.dirs,
      sort (keys r.files),
      rw (list_dir, e, call_back-ok (listing r) h, e) refl,
      sort-IsAscending r.dirs,
      sort-IsAscending (keys r.files),
      sort-perm r.dirs,
      sort-perm (keys r.files),
    )

    -- The first error of the callback ends the listing, and is its result.
    pub list_dir_stops :
        (before after : List Info) (i : Info) (e : Error)
        → get_dir_cached get_dir dir f ≡ (f', ok r)
        → listing r ≡ before ++ i ∷ after
        → All (λ j. cb j ≡ ok tt) before
        → cb i ≡ err e
        → list_dir get_dir cb dir f ≡ (f', before ++ i ∷ [], err e)
    unfolding list_dir
    list_dir_stops before after i e reply split h fails =
        rw (list_dir, reply, split, call_back-err before after i e h fails, reply) refl
