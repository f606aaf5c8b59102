-- ===== src/MemoryDb/Leaving.antt =====
-- `PeerDisconnected` against the table of owners: it withdraws the files whose hash the owner alone
-- has, and no others.
use rufs.Base.{
  ◌≡◌, ◌≢◌, refl, sym, ◌∙◌, ap, subst, Dict, IsMap, ℤ, lookup, Option, none, some, Option-cases,
  Bool, Bool-cases, true, false, Str, eq-cases, eq_refl, inl, inr, List, [], ◌∷◌, keys, contains,
  length, nat_eq, ◌&&◌, ok, arith,
}
use mathlib.Core.Option.{some-injective}
use rufs.Common.{FileInfo}
use rufs.MemoryDb.{Database, Owners, is_victim, victims_of, peer_disconnected, get_owners}
use rufs.MemoryDb.Files.{file_at}
use rufs.MemoryDb.Index.{IsIndexed}
use rufs.MemoryDb.Unique.{IsUnique}
use rufs.MemoryDb.Victims.{searched}
use rufs.MemoryDb.Spared.{not_searched, search-IsUnique}

-- Whether the owner is the only key.
unfoldable alone : Str → Dict ℤ → Bool
alone owner m = contains owner m && nat_eq (length m) 1

unfoldable alone_in : Str → Option (Dict ℤ) → Bool
alone_in owner none = false
alone_in owner (some m) = alone owner m

is_victim-victims_of :
    (owner hash : Str) (ow : Owners)
    → IsMap ow
    → is_victim hash (victims_of owner ow) ≡ alone_in owner (lookup hash ow)
unfolding is_victim victims_of lookup alone_in alone
is_victim-victims_of owner hash [] h = refl
is_victim-victims_of owner hash ((k, m) ∷ ow) h =
    let rest = is_victim-victims_of owner hash ow h.1 in
    elim (eq-cases k hash) [
      | inl same ↦
          let none_here : lookup hash ow ≡ none = rw same at h.0 in
          let no_more : is_victim hash (victims_of owner ow) ≡ false = rest ∙ rw none_here refl in
          elim (Bool-cases (contains owner m && nat_eq (length m) 1)) [
            | inl t ↦ rw (t, is_victim, same, eq_refl) (sym t)
            | inr t ↦ rw (t, same, eq_refl) (no_more ∙ sym t)
          ]
      | inr other ↦ elim (Bool-cases (contains owner m && nat_eq (length m) 1)) [
        | inl t ↦ rw (t, is_victim, other) rest
        | inr t ↦ rw (t, other) rest
      ]
    ]

keys-alone : (owner : Str) (m : Dict ℤ) → alone owner m ≡ true → keys m ≡ owner ∷ []
unfolding alone contains lookup
keys-alone owner [] h = cc
keys-alone owner ((k, v) ∷ []) h = elim (eq-cases k owner) [
  | inl same ↦ ap (λ n. n ∷ []) same
  | inr other ↦ absurd (ground (arith, other))
]
keys-alone owner (x ∷ y ∷ m) h = absurd (ground arith)

alone-keys : (owner : Str) (m : Dict ℤ) → keys m ≡ owner ∷ [] → alone owner m ≡ true
unfolding alone contains lookup
alone-keys owner [] h = cc
alone-keys owner ((k, v) ∷ []) h =
    let same : k ≡ owner = cc in rw (same, contains, lookup, eq_refl) refl
alone-keys owner (x ∷ y ∷ m) h = cc

module _ (owner : Str) (d d' : Database) (valid : IsIndexed d) (unique : IsUnique d)
    (run : peer_disconnected owner d ≡ ok d') where
  victim-keys :
      (hash : Str)
      → get_owners hash d ≡ owner ∷ []
      → is_victim hash (victims_of owner d.owners) ≡ true
  unfolding get_owners alone_in
  victim-keys hash h =
      is_victim-victims_of owner hash d.owners unique.table
      ∙ elim (Option-cases (lookup hash d.owners)) [
        | inl e ↦ absurd (cc (rw e at h))
        | inr (m, e) ↦ rw e (alone-keys owner m (rw e at h))
      ]

  keys-victim :
      (hash : Str)
      → get_owners hash d ≢ owner ∷ []
      → is_victim hash (victims_of owner d.owners) ≡ false
  unfolding get_owners alone_in
  keys-victim hash h =
      is_victim-victims_of owner hash d.owners unique.table
      ∙ elim (Option-cases (lookup hash d.owners)) [
        | inl e ↦ rw e refl
        | inr (m, e) ↦ rw e (elim (Bool-cases (alone owner m)) [
          | inl t ↦ absurd (h (rw e (keys-alone owner m t)))
          | inr t ↦ t
        ])
      ]

  -- A file whose hash GetOwners lists with the owner alone is gone.
  pub peer_disconnected-removes :
      (q : List Str) (f : FileInfo)
      → file_at q d.file_tree ≡ some f
      → get_owners f.hash d ≡ owner ∷ []
      → file_at q d'.file_tree ≡ none
  unfolding peer_disconnected
  peer_disconnected-removes q f h alone =
      searched (victims_of owner d.owners) owner d.file_tree [] q f d d' valid run h
        (victim-keys f.hash alone)

  -- Any other file stays.
  pub peer_disconnected-keeps :
      (q : List Str) (f : FileInfo)
      → file_at q d.file_tree ≡ some f
      → get_owners f.hash d ≢ owner ∷ []
      → file_at q d'.file_tree ≡ some f
  unfolding peer_disconnected
  peer_disconnected-keeps q f h shared =
      not_searched (victims_of owner d.owners) owner d.file_tree [] q d d' valid unique.tree run
        (λ r g same there.
          let again : file_at q d.file_tree ≡ some g =
            subst (λ x. file_at x d.file_tree ≡ some g) (sym same) there in
          let one : f ≡ g = some-injective _ _ (sym h ∙ again) in
          subst (λ x. is_victim x.hash (victims_of owner d.owners) ≡ false) one
            (keys-victim f.hash shared))
      ∙ h

  pub peer_disconnected-IsUnique : IsUnique d'
  unfolding peer_disconnected
  peer_disconnected-IsUnique =
      search-IsUnique (victims_of owner d.owners) owner d.file_tree [] d d' unique run
