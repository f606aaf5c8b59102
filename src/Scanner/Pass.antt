-- ===== src/Scanner/Pass.antt =====
-- What a pass leaves in the file cache.
use rufs.Base.{
  ◌≡◌, refl, ◌∙◌, ap₂, Option, none, some, Bool, false, Option-cases, eq-cases, eq_refl, inl, inr,
  Str, ◌==◌, Dict, [], ◌∷◌, lookup, delete, lookup-insert, lookup-delete, IsMap, if◌then◌else◌,
  arith,
}
use rufs.Common.{FileInfo}
use rufs.Scanner.{
  Stat, Listener, Scanner, set_info, is_same, refresh_one, refresh_all, forget_all, normal_pass,
}

-- What the cache should have for a file after a pass, from what it had before: the same where size
-- and time have not changed, else the new hash, or the old entry where hashing failed.
unfoldable pub refreshed : (Str → Option Str) → Str → Stat → Option FileInfo → Option FileInfo
refreshed hash_file path st old =
    let hashed : Option FileInfo = elim (hash_file path) [
      | none ↦ old
      | some h ↦ some (record { size = st.size; hash = h; mtime = st.mtime })
    ] in
    elim old [ none ↦ hashed | some f ↦ if is_same f st then some f else hashed ]

-- What the cache should have for any path: nothing where the walk did not meet it.
unfoldable pub after_pass : (Str → Option Str) → Dict Stat → Str → Option FileInfo → Option FileInfo
unfolding refreshed
after_pass hash_file found k old = elim (lookup k found) [
  | none ↦ none
  | some st ↦ refreshed hash_file k st old
]

abbrev gone_or : Option FileInfo → Option FileInfo → Option FileInfo
gone_or none x = x
gone_or (some f) x = none

gone_none : (o : Option FileInfo) → gone_or o none ≡ none
gone_none none = refl
gone_none (some f) = refl

abbrev met_or : (Str → Option Str) → Str → Option Stat → Option FileInfo → Option FileInfo
met_or hash_file k none old = old
met_or hash_file k (some st) old = refreshed hash_file k st old

abbrev missed_or : Option Stat → Option FileInfo → Option FileInfo
missed_or none x = x
missed_or (some st) x = none

settled :
    (hash_file : Str → Option Str) (k : Str) (met : Option Stat) (old : Option FileInfo)
    → gone_or (missed_or met old) (met_or hash_file k met old)
      ≡ elim met [ none ↦ none | some st ↦ refreshed hash_file k st old ]
settled hash_file k none none = refl
settled hash_file k none (some f) = refl
settled hash_file k (some st) old = refl

module _ (is_done : Listener → Bool) where
  pub lookup-set_info :
      (path k : Str) (fi : Option FileInfo) (m : Scanner)
      → lookup k (set_info is_done path fi m).file_cache
        ≡ (if path == k then fi else lookup k m.file_cache)
  unfolding set_info
  lookup-set_info path k none m = lookup-delete path k m.file_cache
  lookup-set_info path k (some fi) m = lookup-insert path k fi m.file_cache

  module _ (hash_file : Str → Option Str) where
    same :
        (path : Str) (st : Stat) (m : Scanner)
        → lookup path (refresh_one is_done hash_file path st m).file_cache
          ≡ refreshed hash_file path st (lookup path m.file_cache)
    unfolding refresh_one refreshed
    same path st m = elim (Option-cases (hash_file path)) [
      | inl n ↦ ground arith
      | inr (h, e) ↦ ground (
        arith,
        eq_refl path,
        lookup-set_info path path (some (record { size = st.size; hash = h; mtime = st.mtime })) m,
      )
    ]

    other :
        (path k : Str) (st : Stat) (m : Scanner)
        → (path == k) ≡ false
        → lookup k (refresh_one is_done hash_file path st m).file_cache ≡ lookup k m.file_cache
    unfolding refresh_one
    other path k st m e = elim (Option-cases (hash_file path)) [
      | inl n ↦ ground arith
      | inr (h, f) ↦ ground (
        arith,
        lookup-set_info path k (some (record { size = st.size; hash = h; mtime = st.mtime })) m,
      )
    ]

    pub lookup-refresh_one :
        (path k : Str) (st : Stat) (m : Scanner)
        → lookup k (refresh_one is_done hash_file path st m).file_cache ≡ (
            if path == k
            then refreshed hash_file path st (lookup path m.file_cache)
            else lookup k m.file_cache)
    lookup-refresh_one path k st m = elim (eq-cases path k) [
      | inl e ↦ rw (← e) (rw eq_refl (same path st m))
      | inr e ↦ rw e (other path k st m e)
    ]

    lookup-refresh_all :
        (k : Str) (found : Dict Stat) (missing : Dict FileInfo) (m : Scanner)
        → IsMap found
        → (lookup k (refresh_all is_done hash_file found missing m).1.file_cache
            ≡ met_or hash_file k (lookup k found) (lookup k m.file_cache))
          × (lookup k (refresh_all is_done hash_file found missing m).0
              ≡ missed_or (lookup k found) (lookup k missing))
    unfolding refresh_all lookup
    lookup-refresh_all k [] missing m h = (refl, refl)
    lookup-refresh_all k ((path, st) ∷ found) missing m h =
        let (c, d) =
          lookup-refresh_all k found (delete path missing) (refresh_one is_done hash_file path st m)
            h.1 in
        elim (eq-cases path k) [
          | inl e ↦
              let absent : lookup k found ≡ none = rw e at h.0 in
              (
                c ∙ rw (absent, lookup-refresh_one, e, eq_refl) refl,
                d ∙ rw (absent, lookup-delete, e, eq_refl) refl,
              )
          | inr e ↦ (c ∙ rw (lookup-refresh_one, e) refl, d ∙ rw (lookup-delete, e) refl)
        ]

  lookup-forget_all :
      (k : Str) (missing : Dict FileInfo) (m : Scanner)
      → lookup k (forget_all is_done missing m).file_cache
        ≡ gone_or (lookup k missing) (lookup k m.file_cache)
  unfolding forget_all lookup
  lookup-forget_all k [] m = refl
  lookup-forget_all k ((fn, fi) ∷ missing) m =
      lookup-forget_all k missing (set_info is_done fn none m) ∙ (elim (eq-cases fn k) [
        | inl e ↦ rw (lookup-set_info, e, eq_refl) (gone_none (lookup k missing))
        | inr e ↦ rw (lookup-set_info, e) refl
      ])

  -- After a pass the cache has, for every path, what the walk and the hashes say: nothing for a
  -- path that the walk did not meet; for one that it met the old entry where size and time are the
  -- same or hashing failed, and the new hash otherwise.
  pub lookup-normal_pass :
      (hash_file : Str → Option Str) (k : Str) (found : Dict Stat) (m : Scanner)
      → IsMap found
      → lookup k (normal_pass is_done hash_file found m).file_cache
        ≡ after_pass hash_file found k (lookup k m.file_cache)
  unfolding normal_pass after_pass
  lookup-normal_pass hash_file k found m h =
      let (c, d) = lookup-refresh_all hash_file k found m.file_cache m h in
      lookup-forget_all k _ _
      ∙ ap₂ gone_or d c
      ∙ settled hash_file k (lookup k found) (lookup k m.file_cache)
