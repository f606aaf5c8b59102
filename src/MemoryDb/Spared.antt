-- ===== src/MemoryDb/Spared.antt =====
-- What `PeerDisconnected` leaves: every path at which its search meets no victim, and one entry for
-- each key.
use rufs.Base.{
  ◌≡◌, refl, sym, ◌∙◌, ap, subst, Dict, IsMap, lookup, none, some, Bool-cases, false, Str, eq-cases,
  eq_refl, inl, inr, List, [], ◌∷◌, ◌++◌, ok, ok_injective, >>=-eq-ok, if◌then◌else◌,
}
use mathlib.Core.List.{append_assoc}
use mathlib.Core.Option.{none-ne-some}
use rufs.Common.{FileInfo}
use rufs.MemoryDb.{
  Database, Directory, directory, Subdirs, nil, cons, find_dir, set_file, is_victim, destroy_files,
  search_and_destroy, search_subdirs,
}
use rufs.MemoryDb.Files.{file_at}
use rufs.MemoryDb.Index.{IsIndexed}
use rufs.MemoryDb.Unique.{IsTree, IsTrees, IsUnique, set_file-IsUnique}
use rufs.MemoryDb.Victims.{withdraw_sets}
use rufs.MemoryDb.Disconnect.{one, destroy_files-IsShrunk, search-IsShrunk}

module _ (victims : List Str) (owner : Str) where
  -- A path at which a search of the tree below `parents` meets no victim.
  abbrev IsSparedIn : List Str → List Str → Directory → Type 0
  IsSparedIn q parents t =
      (r : List Str) (f : FileInfo)
      → q ≡ parents ++ r
      → file_at r t ≡ some f
      → is_victim f.hash victims ≡ false

  abbrev IsSparedFile : List Str → List Str → Dict FileInfo → Type 0
  IsSparedFile q parents fs =
      (n : Str) (f : FileInfo)
      → q ≡ parents ++ n ∷ []
      → lookup n fs ≡ some f
      → is_victim f.hash victims ≡ false

  abbrev IsSparedBelow : List Str → List Str → Subdirs → Type 0
  IsSparedBelow q parents ds =
      (n : Str) (sd : Directory) → find_dir n ds ≡ some sd → IsSparedIn q (parents ++ n ∷ []) sd

  -- A name of the rest is not that of the first entry.
  later_name :
      (k n : Str) (fi f : FileInfo) (fs : Dict FileInfo)
      → lookup k fs ≡ none
      → lookup n fs ≡ some f
      → lookup n ((k, fi) ∷ fs) ≡ some f
  unfolding lookup
  later_name k n fi f fs free h = elim (eq-cases k n) [
    | inl same ↦ absurd (none-ne-some f (sym free ∙ rw same h))
    | inr other ↦ rw other h
  ]

  later_dir :
      (k n : Str) (t sd : Directory) (ds : Subdirs)
      → find_dir k ds ≡ none
      → find_dir n ds ≡ some sd
      → find_dir n (cons k t ds) ≡ some sd
  unfolding find_dir
  later_dir k n t sd ds free h = elim (eq-cases k n) [
    | inl same ↦ absurd (none-ne-some sd (sym free ∙ rw same h))
    | inr other ↦ rw other h
  ]

  not_destroyed :
      (fs : Dict FileInfo) (parents q : List Str) (d d' : Database)
      → IsIndexed d
      → IsMap fs
      → destroy_files fs victims parents owner d ≡ ok d'
      → IsSparedFile q parents fs
      → file_at q d'.file_tree ≡ file_at q d.file_tree
  unfolding destroy_files
  not_destroyed [] parents q d d' v m run h =
      ap (λ x. file_at q x.file_tree) (sym (ok_injective run))
  not_destroyed ((k, fi) ∷ fs) parents q d d' v m run h =
      let (e, ran, rest) =
        >>=-eq-ok
          (if is_victim fi.hash victims then set_file (parents ++ k ∷ []) none owner d else ok d)
          (λ e. destroy_files fs victims parents owner e) run in
      let s = one victims owner (is_victim fi.hash victims) parents k d e v ran in
      let behind =
        not_destroyed fs parents q e d' s.indexed m.1 rest
          (λ n f at there. h n f at (later_name k n fi f fs m.0 there)) in
      elim (Bool-cases (is_victim fi.hash victims)) [
        | inl hit ↦
            let set = withdraw_sets victims owner parents k d e v (rw hit at ran) in
            let head : lookup k ((k, fi) ∷ fs) ≡ some fi = unfold lookup in rw (eq_refl) refl in
            behind ∙ set.others q (λ at. absurd (cc (hit, h k fi at head)))
        | inr miss ↦
            let same : d ≡ e = ok_injective (rw miss at ran) in
            behind ∙ ap (λ x. file_at q x.file_tree) (sym same)
      ]

  mutual
    unfolding search_and_destroy file_at find_dir IsTree

    pub not_searched :
        (t : Directory) (parents q : List Str) (d d' : Database)
        → IsIndexed d
        → IsTree t
        → search_and_destroy t victims parents owner d ≡ ok d'
        → IsSparedIn q parents t
        → file_at q d'.file_tree ≡ file_at q d.file_tree
    not_searched (directory ds fs r) parents q d d' v m run h =
        let (e, ran, rest) =
          >>=-eq-ok (destroy_files fs victims parents owner d)
            (λ e. search_subdirs ds victims parents owner e) run in
        let s = destroy_files-IsShrunk victims owner fs parents d e v ran in
        subdirs_not_searched ds parents q e d' s.indexed m.1 rest (λ n sd found. elim [
          | [] ↦ λ f at there. absurd (none-ne-some f there)
          | y ∷ ys ↦ λ f at there.
              h (n ∷ y ∷ ys) f (at ∙ append_assoc parents (n ∷ []) (y ∷ ys))
                (rw (file_at, found) there)
        ])
        ∙ not_destroyed fs parents q d e v m.0 ran (λ n f at there. h (n ∷ []) f at there)

    subdirs_not_searched :
        (ds : Subdirs) (parents q : List Str) (d d' : Database)
        → IsIndexed d
        → IsTrees ds
        → search_subdirs ds victims parents owner d ≡ ok d'
        → IsSparedBelow q parents ds
        → file_at q d'.file_tree ≡ file_at q d.file_tree
    subdirs_not_searched nil parents q d d' v m run h =
        ap (λ x. file_at q x.file_tree) (sym (ok_injective run))
    subdirs_not_searched (cons k t ds) parents q d d' v m run h =
        let (e, ran, rest) =
          >>=-eq-ok (search_and_destroy t victims (parents ++ k ∷ []) owner d)
            (λ e. search_subdirs ds victims parents owner e) run in
        let s = search-IsShrunk victims owner t (parents ++ k ∷ []) d e v ran in
        let head : find_dir k (cons k t ds) ≡ some t = rw (find_dir, eq_refl) refl in
        subdirs_not_searched ds parents q e d' s.indexed m.2 rest
          (λ n sd found. h n sd (later_dir k n t sd ds m.0 found))
        ∙ not_searched t (parents ++ k ∷ []) q d e v m.1 ran (h k t head)

  destroy_files-IsUnique :
      (fs : Dict FileInfo) (parents : List Str) (d d' : Database)
      → IsUnique d
      → destroy_files fs victims parents owner d ≡ ok d'
      → IsUnique d'
  unfolding destroy_files
  destroy_files-IsUnique [] parents d d' u run = subst IsUnique (ok_injective run) u
  destroy_files-IsUnique ((k, fi) ∷ fs) parents d d' u run =
      let (e, ran, rest) =
        >>=-eq-ok
          (if is_victim fi.hash victims then set_file (parents ++ k ∷ []) none owner d else ok d)
          (λ e. destroy_files fs victims parents owner e) run in
      destroy_files-IsUnique fs parents e d'
        (elim (Bool-cases (is_victim fi.hash victims)) [
          | inl hit ↦ set_file-IsUnique (parents ++ k ∷ []) none owner d e u (rw hit at ran)
          | inr miss ↦ subst IsUnique (ok_injective (rw miss at ran)) u
        ])
        rest

  mutual
    unfolding search_and_destroy

    pub search-IsUnique :
        (t : Directory) (parents : List Str) (d d' : Database)
        → IsUnique d
        → search_and_destroy t victims parents owner d ≡ ok d'
        → IsUnique d'
    search-IsUnique (directory ds fs r) parents d d' u run =
        let (e, ran, rest) =
          >>=-eq-ok (destroy_files fs victims parents owner d)
            (λ e. search_subdirs ds victims parents owner e) run in
        subdirs-IsUnique ds parents e d' (destroy_files-IsUnique fs parents d e u ran) rest

    subdirs-IsUnique :
        (ds : Subdirs) (parents : List Str) (d d' : Database)
        → IsUnique d
        → search_subdirs ds victims parents owner d ≡ ok d'
        → IsUnique d'
    subdirs-IsUnique nil parents d d' u run = subst IsUnique (ok_injective run) u
    subdirs-IsUnique (cons k t ds) parents d d' u run =
        let (e, ran, rest) =
          >>=-eq-ok (search_and_destroy t victims (parents ++ k ∷ []) owner d)
            (λ e. search_subdirs ds victims parents owner e) run in
        subdirs-IsUnique ds parents e d' (search-IsUnique t (parents ++ k ∷ []) d e u ran) rest
