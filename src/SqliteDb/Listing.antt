-- ===== src/SqliteDb/Listing.antt =====
-- What GetDir lists, against the rows of `fs`.
use rufs.Base.{
  ◌≡◌, refl, sym, ◌∙◌, List, [], ◌∷◌, Bool, true, false, Bool-cases, ◌&&◌, ◌||◌, inl, inr, Str,
  ◌==◌, eq_iff, eq_refl, eq-cases, Dict, lookup, lookup-insert, contains, contains-insert, none,
  some, ok, arith,
}
use mathlib.Core.List.{Perm}
use mathlib.Core.List.Perm
use mathlib.Core.List.{foldr}
use mathlib.Core.List.{
  Mem, Mem-prop, mem-cons_self, mem-cons_of_mem, eq-or-mem_of_mem-cons, not-mem-nil,
}
use mathlib.Core.Logic.Or
use mathlib.Core.Bool.{Bool-set}
use rufs.Common.{FileInfo}
use rufs.SqliteDb.{
  Row, Database, Engine, dir, dirs_in, fill_cache, info_of, select, files_of, get_dir,
}

-- Whether a peer has a file of that name in a directory.
unfoldable pub has_file : Str → Str → List Row → Bool
has_file dn n [] = false
has_file dn n (r ∷ rows) = r.directory == dn && r.file == n || has_file dn n rows

-- Whether some row, of those of one directory, names a file.
abbrev named : Str → List Row → Bool
named n rows = foldr (λ r b. r.file == n || b) false rows

named-perm : (n : Str) (rs ss : List Row) → Perm rs ss → named n rs ≡ named n ss
named-perm n rs ss p =
    Perm.foldr-eq Bool-set (λ r b. r.file == n || b) (λ r s b. ground arith) p false

contains-files_of : (n : Str) (rows : List Row) → contains n (files_of rows) ≡ named n rows
unfolding files_of
contains-files_of n [] = unfold contains lookup in refl
contains-files_of n (r ∷ rows) =
    rw (files_of, contains-insert r.file n (info_of r) (files_of rows), contains-files_of n rows)
      refl

named-select :
    (dn n : Str) (rows : List Row)
    → named n (select (λ r. r.directory == dn) rows) ≡ has_file dn n rows
unfolding select has_file
named-select dn n [] = refl
named-select dn n (r ∷ rows) = elim (Bool-cases (r.directory == dn)) [
  | inl e ↦ rw (e, named-select dn n rows) refl
  | inr e ↦ rw e (named-select dn n rows)
]

lookup-files_of :
    (n : Str) (i : FileInfo) (rows : List Row)
    → lookup n (files_of rows) ≡ some i
    → (r : Row) × Mem r rows × (r.file ≡ n) × (info_of r ≡ i)
unfolding files_of
lookup-files_of n i [] h = unfold lookup in cc h
lookup-files_of n i (r ∷ rows) h =
    let stored = sym (lookup-insert r.file n (info_of r) (files_of rows)) ∙ h in
    elim (eq-cases r.file n) [
      | inl e ↦
          let same : some (info_of r) ≡ some i = rw (e, eq_refl) at stored in
          (r, mem-cons_self, e, cc same)
      | inr e ↦
          let (s, m, names, has) = lookup-files_of n i rows (rw e at stored) in
          (s, mem-cons_of_mem r m, names, has)
    ]

module _ (p : Row → Bool) where
  mem_of_select : (r : Row) (rows : List Row) → Mem r (select p rows) → Mem r rows
  unfolding select
  mem_of_select r [] m = m
  mem_of_select r (s ∷ rows) m = elim (Bool-cases (p s)) [
    | inl e ↦
        Or.elim Mem-prop (eq-or-mem_of_mem-cons (rw e at m)) (λ same. rw same mem-cons_self)
          (λ m'. mem-cons_of_mem s (mem_of_select r rows m'))
    | inr e ↦ mem-cons_of_mem s (mem_of_select r rows (rw e at m))
  ]

  passes_of_select : (r : Row) (rows : List Row) → Mem r (select p rows) → p r ≡ true
  unfolding select
  passes_of_select r [] m = absurd (not-mem-nil m)
  passes_of_select r (s ∷ rows) m = elim (Bool-cases (p s)) [
    | inl e ↦
        Or.elim (Bool-set (p r) true) (eq-or-mem_of_mem-cons (rw e at m))
          (λ same. rw (same, e) refl) (λ m'. passes_of_select r rows m')
    | inr e ↦ passes_of_select r rows (rw e at m)
  ]

module _ (io : Engine) (order : List Row → List Row)
    (reorders : (rows : List Row) → Perm (order rows) rows) (answers : io dir ≡ none) where
  -- With an engine that answers, and in whatever order the rows come, GetDir lists a file name
  -- exactly where the directory has a row with it, and what it gives for a name is the information
  -- of such a row.
  pub get_dir_lists_rows :
      (dn : Str) (d : Database)
      → (files : Dict FileInfo) × ((get_dir io order dn d).1
          ≡ ok (files, dirs_in dn (fill_cache io d)))
        × ((n : Str) → contains n files ≡ has_file dn n d.rows)
        × ((n : Str) (i : FileInfo)
            → lookup n files ≡ some i
            → (r : Row) × Mem r d.rows × (r.directory ≡ dn) × (r.file ≡ n) × (info_of r ≡ i))
  unfolding get_dir
  get_dir_lists_rows dn d =
      let here = select (λ r. r.directory == dn) d.rows in
      (
        files_of (order here),
        rw (get_dir, answers) refl,
        λ n.
            contains-files_of n (order here)
            ∙ (named-perm n (order here) here (reorders here) ∙ named-select dn n d.rows),
        λ n i h.
            let (r, m, names, has) = lookup-files_of n i (order here) h in
            let m' = (Perm.mem_iff (reorders here)).0 m in
            let stands =
              (eq_iff r.directory dn).0 (passes_of_select (λ s. s.directory == dn) r d.rows m') in
            (r, mem_of_select (λ s. s.directory == dn) r d.rows m', stands, names, has),
      )
