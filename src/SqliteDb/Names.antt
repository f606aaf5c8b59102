-- ===== src/SqliteDb/Names.antt =====
-- The cache of directory names: as `updateDirCache` fills it, and as SetFile changes it.
use rufs.Base.{
  ◌≡◌, refl, sym, subst, ◌∙◌, ap, ℕ, zero, suc, List, [], ◌∷◌, ◌++◌, map, false, Bool-cases, ◌||◌,
  inl, inr, Str, slash, join, split, ◌==◌, eq_iff, eq_refl, eq-cases, Dict, lookup, insert,
  lookup-insert, contains, contains-insert, if◌then◌else◌, Option, none, some, take, length,
  get_elem?, arith,
}
use rufs.Common.{FileInfo}
use rufs.Fuse.{is_name}
use rufs.SqliteDb.{
  Row, Database, Engine, begin, delete_file, add_file, commit, parts_of, list_or_empty,
  str_or_empty, append_to, extend_up, extend_cache, set_file, distinct, climb, climb_all,
  update_dir_cache,
}
use rufs.SqliteDb.Table.{set_file_adds}

-- No name stands twice.
abbrev pub IsOnce : List Str → Type 0
IsOnce [] = Unit
IsOnce (n ∷ ns) = (is_name n ns ≡ false) × IsOnce ns

-- The names that a cache has for a directory.
abbrev pub names_in : Str → Dict (List Str) → List Str
names_in k c = list_or_empty (lookup k c)

pub is_name-append :
    (n f : Str) (ns : List Str) → is_name n (ns ++ f ∷ []) ≡ (is_name n ns || f == n)
unfolding is_name
is_name-append n f [] = ground arith
is_name-append n f (m ∷ ns) = rw (is_name, is_name-append n f ns) (ground arith)

append-IsOnce : (f : Str) (ns : List Str) → is_name f ns ≡ false → IsOnce ns → IsOnce (ns ++ f ∷ [])
unfolding is_name
append-IsOnce f [] h o = (refl, tt)
append-IsOnce f (m ∷ ns) h o = (
  is_name-append m f ns ∙ ground (arith, eq_iff m f, eq_iff f m, o.0),
  append-IsOnce f ns (ground arith) o.1,
)

lookup-append_to :
    (dn f k : Str) (c : Dict (List Str))
    → lookup k (append_to dn f c) ≡ (if dn == k then some (names_in k c ++ f ∷ []) else lookup k c)
unfolding append_to
lookup-append_to dn f k c = elim (eq-cases dn k) [
  | inl e ↦ rw (e, append_to, lookup-insert, eq_refl) refl
  | inr e ↦ rw (e, append_to, lookup-insert, e) refl
]

pub names_in-append_to :
    (dn f k : Str) (c : Dict (List Str))
    → names_in k (append_to dn f c) ≡ (if dn == k then names_in dn c ++ f ∷ [] else names_in k c)
unfolding append_to
names_in-append_to dn f k c = rw (append_to, lookup-insert) (ground arith)

append_to-IsOnce :
    (dn f : Str) (c : Dict (List Str))
    → is_name f (names_in dn c) ≡ false
    → ((k : Str) → IsOnce (names_in k c))
    → (k : Str) → IsOnce (names_in k (append_to dn f c))
append_to-IsOnce dn f c new h k = elim (Bool-cases (dn == k)) [
  | inl e ↦
      subst IsOnce (sym (names_in-append_to dn f k c))
        (rw e (append-IsOnce f (names_in dn c) new (h dn)))
  | inr e ↦ subst IsOnce (sym (names_in-append_to dn f k c)) (rw e (h k))
]

climb-IsOnce :
    (s : ℕ) (ex : List Str) (c : Dict (List Str))
    → ((k : Str) → IsOnce (names_in k c))
    → (k : Str) → IsOnce (names_in k (climb s ex c))
unfolding climb
climb-IsOnce zero ex c h = h
climb-IsOnce (suc s) ex c h =
    elim (Bool-cases
      (is_name (str_or_empty (get_elem? ex s)) (names_in (join slash (take s ex)) c))) [
        | inl e ↦ rw e h
        | inr e ↦ rw e (climb-IsOnce s ex _ (append_to-IsOnce _ _ c e h))
      ]

climb_all-IsOnce :
    (ds : List Str) (c : Dict (List Str))
    → ((k : Str) → IsOnce (names_in k c))
    → (k : Str) → IsOnce (names_in k (climb_all ds c))
unfolding climb_all
climb_all-IsOnce [] c h = h
climb_all-IsOnce (d ∷ ds) c h =
    climb_all-IsOnce ds _ (climb-IsOnce (length (split slash d)) (split slash d) c h)

-- In the cache that is filled from the rows no directory has a name twice.
pub update_dir_cache-IsOnce :
    (rows : List Row) (k : Str) → IsOnce (names_in k (update_dir_cache rows))
unfolding update_dir_cache
update_dir_cache-IsOnce rows =
    climb_all-IsOnce (distinct (map (λ r. r.directory) rows)) [] (λ k. unfold lookup in tt)

-- SetFile in a directory that the cache does not have: what the cache then has for a directory.
abbrev pub extended : List Str → ℕ → Str → Dict (List Str) → Option (List Str)
extended dirs s k c =
    if join slash dirs == k
    then some []
    else if join slash (take s dirs) == k
    then some (names_in k c ++ str_or_empty (get_elem? dirs s) ∷ [])
    else lookup k c

take-all : (xs : List Str) → take (length xs) xs ≡ xs
take-all [] = refl
take-all (x ∷ xs) = ap (λ ys. x ∷ ys) (take-all xs)

-- The loop stops after its first round: the directory it has just listed a name in is now in the
-- cache.
extend_up-stops :
    (s : ℕ) (dirs : List Str) (c : Dict (List Str))
    → contains (join slash (take (suc s) dirs)) c ≡ false
    → extend_up (suc s) dirs c
      ≡ append_to (join slash (take s dirs)) (str_or_empty (get_elem? dirs s)) c
unfolding extend_up append_to
extend_up-stops zero dirs c h = rw (extend_up, h) refl
extend_up-stops (suc s) dirs c h = rw (extend_up, h, extend_up, contains-insert, eq_refl) refl

extend_cache_lem :
    (s : ℕ) (dirs : List Str) (c : Dict (List Str))
    → length dirs ≡ suc s
    → contains (join slash dirs) c ≡ false
    → extend_cache dirs (some c)
      ≡ some (
          insert
            (join slash dirs)
            []
            (append_to (join slash (take s dirs)) (str_or_empty (get_elem? dirs s)) c))
unfolding extend_cache
extend_cache_lem s dirs c long new =
    let whole : take (suc s) dirs ≡ dirs = subst (λ n. take n dirs ≡ dirs) long (take-all dirs) in
    rw (extend_cache, new, long, extend_up-stops s dirs c (rw whole new)) refl

module _ (io : Engine) (begins : io begin ≡ none) (deletes : io delete_file ≡ none)
    (adds : io add_file ≡ none) (commits : io commit ≡ none) where
  -- SetFile with a file, in a directory of at least one part that the cache does not have, with an
  -- engine that does not fail: in the cache the directory is then empty, its parent has got its
  -- name at the end, whether or not it was there, and every directory further up is as it was.
  pub set_file_lists_parent_only :
      (p f owner : Str) (ps dirs : List Str) (fi : FileInfo) (d : Database) (c : Dict (List Str))
      (s : ℕ)
      → parts_of p ps ≡ (dirs, f)
      → length dirs ≡ suc s
      → d.dir_cache ≡ some c
      → contains (join slash dirs) c ≡ false
      → (c' : Dict (List Str)) × ((set_file io (p ∷ ps) (some fi) owner d).0.dir_cache ≡ some c')
        × ((k : Str) → lookup k c' ≡ extended dirs s k c)
  set_file_lists_parent_only p f owner ps dirs fi d c s parts long cached new =
      let dn = join slash dirs in
      let up = join slash (take s dirs) in
      let n = str_or_empty (get_elem? dirs s) in
      (
        insert dn [] (append_to up n c),
        rw (set_file_adds io begins deletes adds commits p f owner ps dirs fi d parts, cached)
            (extend_cache_lem s dirs c long new),
        λ k.
            lookup-insert dn k [] (append_to up n c)
            ∙ ap (λ v. if dn == k then some [] else v) (lookup-append_to up n k c),
      )
