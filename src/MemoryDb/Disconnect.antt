-- ===== src/MemoryDb/Disconnect.antt =====
-- `PeerDisconnected`: it only withdraws files.
use rufs.Base.{
  ℤ, All, ◌≢◌, ◌&&◌, nat_eq, length, contains, lookup, eq-cases, Bool-cases, arith, ◌≡◌, refl, sym,
  ◌∙◌, subst, Dict, none, some, Bool, true, false, Str, List, [], ◌∷◌, ◌++◌, inl, inr, ok,
  ok_injective, >>=-eq-ok, if◌then◌else◌,
}
use rufs.Common.{FileInfo}
use rufs.MemoryDb.{
  Database, Owners, Directory, directory, Subdirs, nil, cons, set_file, is_victim, victims_of,
  destroy_files, search_and_destroy, search_subdirs, peer_disconnected, get_owners,
}
use rufs.MemoryDb.Owners.{has_name}
use rufs.MemoryDb.Files.{file_at}
use rufs.MemoryDb.Index.{IsIndexed, IsSetTo, set_file_sets, path-cases}

-- No path has a file that it did not have before.
pub record IsShrunk (d d' : Database) : Type 0 where
  pub kept :
      (q : List Str) (f : FileInfo)
      → file_at q d'.file_tree ≡ some f
      → file_at q d.file_tree ≡ some f
  pub indexed : IsIndexed d'

IsShrunk-refl : (d : Database) → IsIndexed d → IsShrunk d d
IsShrunk-refl d h = record { kept = λ q f e. e; indexed = h }

IsShrunk-trans : {a b c : Database} → IsShrunk a b → IsShrunk b c → IsShrunk a c
IsShrunk-trans s t = record { kept = λ q f e. s.kept q f (t.kept q f e); indexed = t.indexed }

gone_shrinks : (ex : List Str) (d d' : Database) → IsSetTo ex none d d' → IsShrunk d d'
gone_shrinks ex d d' s = record {
  kept = λ q f e. elim (path-cases q ex) [
    | inl same ↦ cc (s.here, subst (λ p. file_at p d'.file_tree ≡ some f) same e)
    | inr ne ↦ sym (s.others q ne) ∙ e
  ];
  indexed = s.indexed;
}

module _ (victims : List Str) (owner : Str) where
  -- A path that ends in a name has a first part.
  withdraw-IsShrunk :
      (parents : List Str) (fn : Str) (d d' : Database)
      → IsIndexed d
      → set_file (parents ++ fn ∷ []) none owner d ≡ ok d'
      → IsShrunk d d'
  withdraw-IsShrunk [] fn d d' v run =
      gone_shrinks (fn ∷ []) d d' (set_file_sets d owner v fn [] none d' run)
  withdraw-IsShrunk (p ∷ ps) fn d d' v run =
      gone_shrinks (p ∷ ps ++ fn ∷ []) d d' (set_file_sets d owner v p (ps ++ fn ∷ []) none d' run)

  pub one :
      (b : Bool) (parents : List Str) (fn : Str) (d d' : Database)
      → IsIndexed d
      → (if b then set_file (parents ++ fn ∷ []) none owner d else ok d) ≡ ok d'
      → IsShrunk d d'
  one true parents fn d d' v run = withdraw-IsShrunk parents fn d d' v run
  one false parents fn d d' v run = subst (IsShrunk d) (ok_injective run) (IsShrunk-refl d v)

  pub destroy_files-IsShrunk :
      (fs : Dict FileInfo) (parents : List Str) (d d' : Database)
      → IsIndexed d
      → destroy_files fs victims parents owner d ≡ ok d'
      → IsShrunk d d'
  unfolding destroy_files
  destroy_files-IsShrunk [] parents d d' v run =
      subst (IsShrunk d) (ok_injective run) (IsShrunk-refl d v)
  destroy_files-IsShrunk ((fn, fi) ∷ fs) parents d d' v run =
      let (e, ran, rest) =
        >>=-eq-ok
          (if is_victim fi.hash victims then set_file (parents ++ fn ∷ []) none owner d else ok d)
          (λ e. destroy_files fs victims parents owner e) run in
      let s = one (is_victim fi.hash victims) parents fn d e v ran in
      IsShrunk-trans s (destroy_files-IsShrunk fs parents e d' s.indexed rest)

  mutual
    unfolding search_and_destroy

    pub search-IsShrunk :
        (t : Directory) (parents : List Str) (d d' : Database)
        → IsIndexed d
        → search_and_destroy t victims parents owner d ≡ ok d'
        → IsShrunk d d'
    search-IsShrunk (directory ds fs r) parents d d' v run =
        let (e, ran, rest) =
          >>=-eq-ok (destroy_files fs victims parents owner d)
            (λ e. search_subdirs ds victims parents owner e) run in
        let s = destroy_files-IsShrunk fs parents d e v ran in
        IsShrunk-trans s (subdirs-IsShrunk ds parents e d' s.indexed rest)

    pub subdirs-IsShrunk :
        (ds : Subdirs) (parents : List Str) (d d' : Database)
        → IsIndexed d
        → search_subdirs ds victims parents owner d ≡ ok d'
        → IsShrunk d d'
    subdirs-IsShrunk nil parents d d' v run =
        subst (IsShrunk d) (ok_injective run) (IsShrunk-refl d v)
    subdirs-IsShrunk (cons dn t ds) parents d d' v run =
        let (e, ran, rest) =
          >>=-eq-ok (search_and_destroy t victims (parents ++ dn ∷ []) owner d)
            (λ e. search_subdirs ds victims parents owner e) run in
        let s = search-IsShrunk t (parents ++ dn ∷ []) d e v ran in
        IsShrunk-trans s (subdirs-IsShrunk ds parents e d' s.indexed rest)

-- A disconnect that returns gives no path a file that it did not have, and the index stays valid.
pub peer_disconnected-IsShrunk :
    (owner : Str) (d d' : Database)
    → IsIndexed d
    → peer_disconnected owner d ≡ ok d'
    → IsShrunk d d'
unfolding peer_disconnected
peer_disconnected-IsShrunk owner d d' v run =
    search-IsShrunk (victims_of owner d.owners) owner d.file_tree [] d d' v run

module _ (owner : Str) where
  spared_files :
      (fs : Dict FileInfo) (parents : List Str) (d : Database)
      → destroy_files fs [] parents owner d ≡ ok d
  unfolding destroy_files
  spared_files [] parents d = refl
  spared_files ((fn, fi) ∷ fs) parents d = spared_files fs parents d

  mutual
    unfolding search_and_destroy

    spared :
        (t : Directory) (parents : List Str) (d : Database)
        → search_and_destroy t [] parents owner d ≡ ok d
    spared (directory ds fs r) parents d = rw spared_files (spared_subdirs ds parents d)

    spared_subdirs :
        (ds : Subdirs) (parents : List Str) (d : Database)
        → search_subdirs ds [] parents owner d ≡ ok d
    spared_subdirs nil parents d = refl
    spared_subdirs (cons dn t ds) parents d =
        rw (spared t (parents ++ dn ∷ []) d) (spared_subdirs ds parents d)

-- Somebody else than the owner has the hash of this map too.
abbrev pub HasOther : Str → Str × Dict ℤ → Type 0
HasOther owner (hash, m) =
    contains owner m ≡ true → (other : Str) × (contains other m ≡ true) × (other ≢ owner)

only_key : (n k : Str) (v : ℤ) → contains n ((k, v) ∷ []) ≡ true → k ≡ n
unfolding contains lookup
only_key n k v h = elim (eq-cases k n) [
  | inl same ↦ same
  | inr other ↦ absurd (ground (arith, other))
]

spares :
    (owner hash : Str) (m : Dict ℤ)
    → HasOther owner (hash, m)
    → (contains owner m && nat_eq (length m) 1) ≡ false
unfolding contains lookup
spares owner hash [] h = refl
spares owner hash ((k, v) ∷ []) h = elim (Bool-cases (contains owner ((k, v) ∷ []))) [
  | inl has ↦
      let (other, has_other, ne) = h has in
      absurd (ne (sym (only_key other k v has_other) ∙ only_key owner k v has))
  | inr e ↦ rw e refl
]
spares owner hash (x ∷ y ∷ m) h = ground arith

no_victims : (owner : Str) (ow : Owners) → All (HasOther owner) ow → victims_of owner ow ≡ []
unfolding victims_of
no_victims owner [] h = refl
no_victims owner ((hash, m) ∷ ow) h = rw (spares owner hash m h.0) (no_victims owner ow h.1)

-- Where somebody else has every hash that an owner has, a disconnect of the owner returns and
-- changes nothing, so that GetOwners still lists the owner that has gone under each hash under
-- which it did before.
pub disconnect_leaves_shared :
    (owner hash : Str) (d : Database)
    → All (HasOther owner) d.owners
    → has_name owner (get_owners hash d) ≡ true
    → (d' : Database) × (peer_disconnected owner d ≡ ok d')
      × (d' ≡ d)
      × (has_name owner (get_owners hash d') ≡ true)
unfolding peer_disconnected
disconnect_leaves_shared owner hash d h listed =
    let same : search_and_destroy d.file_tree (victims_of owner d.owners) [] owner d ≡ ok d =
      rw (no_victims owner d.owners h) (spared owner d.file_tree [] d) in
    (d, same, refl, listed)
