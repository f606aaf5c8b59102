-- ===== src/MemoryDb/Victims.antt =====
-- What `PeerDisconnected` withdraws: every file whose hash is a victim.
use rufs.Base.{
  ◌≡◌, sym, ◌∙◌, subst, Dict, lookup, Option, none, some, Option-cases, true, Str, eq-cases,
  eq_refl, inl, inr, List, [], ◌∷◌, ◌++◌, ok, >>=-eq-ok, if◌then◌else◌,
}
use mathlib.Core.List.{append_assoc}
use mathlib.Core.Option.{none-ne-some}
use rufs.Common.{FileInfo}
use rufs.MemoryDb.{
  Database, Directory, directory, Subdirs, nil, cons, find_dir, set_file, is_victim, destroy_files,
  search_and_destroy, search_subdirs,
}
use rufs.MemoryDb.Files.{file_at}
use rufs.MemoryDb.Index.{IsIndexed, IsSetTo, set_file_sets}
use rufs.MemoryDb.Disconnect.{
  IsShrunk, one, destroy_files-IsShrunk, search-IsShrunk, subdirs-IsShrunk,
}

gone_stays :
    (q : List Str) (d d' : Database)
    → IsShrunk d d'
    → file_at q d.file_tree ≡ none
    → file_at q d'.file_tree ≡ none
gone_stays q d d' s h = elim (Option-cases (file_at q d'.file_tree)) [
  | inl e ↦ e
  | inr (f, e) ↦ absurd (none-ne-some f (sym h ∙ s.kept q f e))
]

module _ (victims : List Str) (owner : Str) where
  pub withdraw_sets :
      (parents : List Str) (fn : Str) (d d' : Database)
      → IsIndexed d
      → set_file (parents ++ fn ∷ []) none owner d ≡ ok d'
      → IsSetTo (parents ++ fn ∷ []) none d d'
  withdraw_sets [] fn d d' v run = set_file_sets d owner v fn [] none d' run
  withdraw_sets (p ∷ ps) fn d d' v run = set_file_sets d owner v p (ps ++ fn ∷ []) none d' run

  destroyed :
      (fs : Dict FileInfo) (parents : List Str) (fn : Str) (f : FileInfo) (d d' : Database)
      → IsIndexed d
      → destroy_files fs victims parents owner d ≡ ok d'
      → lookup fn fs ≡ some f
      → is_victim f.hash victims ≡ true
      → file_at (parents ++ fn ∷ []) d'.file_tree ≡ none
  unfolding destroy_files lookup
  destroyed [] parents fn f d d' v run h victim = cc
  destroyed ((k, fi) ∷ fs) parents fn f d d' v run h victim =
      let (e, ran, rest) =
        >>=-eq-ok
          (if is_victim fi.hash victims then set_file (parents ++ k ∷ []) none owner d else ok d)
          (λ e. destroy_files fs victims parents owner e) run in
      let s = one victims owner (is_victim fi.hash victims) parents k d e v ran in
      elim (eq-cases k fn) [
        | inl same ↦
            let first : ◌≡◌ {A = Option FileInfo} (some fi) (some f) = rw (same, eq_refl) at h in
            let hit : is_victim fi.hash victims ≡ true = cc in
            let set = withdraw_sets parents k d e v (rw hit at ran) in
            gone_stays (parents ++ fn ∷ []) e d'
              (destroy_files-IsShrunk victims owner fs parents e d' s.indexed rest)
              (subst (λ n. file_at (parents ++ n ∷ []) e.file_tree ≡ none) same set.here)
        | inr other ↦ destroyed fs parents fn f e d' s.indexed rest (rw other at h) victim
      ]

  mutual
    unfolding search_and_destroy file_at find_dir

    pub searched :
        (t : Directory) (parents q : List Str) (f : FileInfo) (d d' : Database)
        → IsIndexed d
        → search_and_destroy t victims parents owner d ≡ ok d'
        → file_at q t ≡ some f
        → is_victim f.hash victims ≡ true
        → file_at (parents ++ q) d'.file_tree ≡ none
    searched t parents [] f d d' v run h victim = cc
    searched (directory ds fs r) parents (p ∷ []) f d d' v run h victim =
        let (e, ran, rest) =
          >>=-eq-ok (destroy_files fs victims parents owner d)
            (λ e. search_subdirs ds victims parents owner e) run in
        let s = destroy_files-IsShrunk victims owner fs parents d e v ran in
        gone_stays (parents ++ p ∷ []) e d'
          (subdirs-IsShrunk victims owner ds parents e d' s.indexed rest)
          (destroyed fs parents p f d e v ran h victim)
    searched (directory ds fs r) parents (p ∷ y ∷ ys) f d d' v run h victim =
        let (e, ran, rest) =
          >>=-eq-ok (destroy_files fs victims parents owner d)
            (λ e. search_subdirs ds victims parents owner e) run in
        let s = destroy_files-IsShrunk victims owner fs parents d e v ran in
        elim (Option-cases (find_dir p ds)) [
          | inl missing ↦ absurd (none-ne-some f (rw (file_at, missing) at h))
          | inr (sd, found) ↦
              subdirs_searched ds parents p (y ∷ ys) sd f e d' s.indexed rest found
                (rw (file_at, found) at h) victim
        ]

    subdirs_searched :
        (ds : Subdirs) (parents : List Str) (p : Str) (q : List Str) (sd : Directory) (f : FileInfo)
        (d d' : Database)
        → IsIndexed d
        → search_subdirs ds victims parents owner d ≡ ok d'
        → find_dir p ds ≡ some sd
        → file_at q sd ≡ some f
        → is_victim f.hash victims ≡ true
        → file_at (parents ++ p ∷ q) d'.file_tree ≡ none
    subdirs_searched nil parents p q sd f d d' v run found h victim = cc
    subdirs_searched (cons k t ds) parents p q sd f d d' v run found h victim =
        let (e, ran, rest) =
          >>=-eq-ok (search_and_destroy t victims (parents ++ k ∷ []) owner d)
            (λ e. search_subdirs ds victims parents owner e) run in
        let s = search-IsShrunk victims owner t (parents ++ k ∷ []) d e v ran in
        elim (eq-cases k p) [
          | inl same ↦
              let first : ◌≡◌ {A = Option Directory} (some t) (some sd) =
                rw (same, eq_refl) at found in
              let there : file_at q t ≡ some f = cc in
              let gone = searched t (parents ++ k ∷ []) q f d e v ran there victim in
              gone_stays (parents ++ p ∷ q) e d'
                (subdirs-IsShrunk victims owner ds parents e d' s.indexed rest)
                (subst (λ n. file_at (parents ++ n ∷ q) e.file_tree ≡ none) same
                  (subst (λ x. file_at x e.file_tree ≡ none) (append_assoc parents (k ∷ []) q)
                    gone))
          | inr other ↦
              subdirs_searched ds parents p q sd f e d' s.indexed rest (rw other at found) h victim
        ]
