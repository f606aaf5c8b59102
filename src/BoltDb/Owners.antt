-- ===== src/BoltDb/Owners.antt =====
-- What byHash holds: the names of the owners, and what GetOwners makes of them.
use rufs.Base.{
  ◌≡◌, refl, sym, ◌∙◌, ap, subst, List, [], ◌∷◌, ◌++◌, false, Bool-cases, inl, inr, none, some, Str,
  slash, join, ◌==◌, All, Result, ok, err, panic, ◌>>=◌, >>=-eq-ok, ok_injective, arith,
}
use rufs.Common.{FileInfo}
use rufs.SqliteDb.{parts_of}
use rufs.BoltDb.{
  Bolt, Json, files, by_hash, by_owner, bytes_or_empty, without_owner, new_owners, ensure,
  note_owner, open_dirs, encode_file_info, write_file, write_owners, update, finish, set_file,
  get_owners,
}
use rufs.BoltDb.Pieces.{IsFree, split_free, split-join, join-snoc, join-IsFree}

-- A name of an owner: not empty, and without the byte that separates the names.
abbrev pub IsOwner : Str → Type 0
IsOwner o = ((o == []) ≡ false) × IsFree 0 o

owners-IsFree : (os : List Str) → All IsOwner os → All (IsFree 0) os
owners-IsFree [] h = tt
owners-IsFree (o ∷ os) h = (h.0.1, owners-IsFree os h.1)

joined_empty : (o : Str) (os : List Str) → IsOwner o → (join 0 (o ∷ os) == []) ≡ false
unfolding join ◌==◌
joined_empty o [] h = h.0
joined_empty [] (p ∷ os) h = refl
joined_empty (c ∷ o) (p ∷ os) h = refl

snoc_left :
    (os : List Str) (owner : Str)
    → All IsOwner os
    → IsOwner owner
    → (join 0 (os ++ owner ∷ []) == []) ≡ false
snoc_left [] owner h k = unfold join in k.0
snoc_left (o ∷ os) owner h k = joined_empty o (os ++ owner ∷ []) h.0

-- Of a list of owners whose names are not empty and have no zero byte, SetFile makes the text of
-- that list with the new owner at its end, whether or not it was there, and a withdrawal that of
-- the list without the owner, wherever it stood.
pub new_owners-join :
    (os : List Str) (owner : Str) (fi : FileInfo)
    → All IsOwner os
    → IsOwner owner
    → (new_owners (some fi) owner (join 0 os) ≡ join 0 (os ++ owner ∷ []))
      × (new_owners none owner (join 0 os) ≡ join 0 (without_owner owner os))
unfolding new_owners
new_owners-join [] owner fi h k = unfold join without_owner ◌==◌ in (refl, refl)
new_owners-join (o ∷ os) owner fi h k =
    let some_left = joined_empty o os h.0 in
    (
      rw (new_owners, some_left) (join-snoc 0 o owner os),
      rw (new_owners, some_left)
          (ap (λ l. join 0 (without_owner owner l)) (split-join 0 o os (owners-IsFree (o ∷ os) h))),
    )

-- What the library documents of its buckets: a key has the value that was put last, and a write to
-- one bucket changes no value in another.
pub record Laws {T : Type 0} (bolt : Bolt T) : Type 0 where
  pub get-put :
      (p : List Str) (k v : Str) (t t' : T) → bolt.put p k v t ≡ ok t' → bolt.get p k t' ≡ some v
  pub get-put_apart :
      (a b : Str) (p q : List Str) (k j v : Str) (t t' : T)
      → (a == b) ≡ false
      → bolt.put (a ∷ p) k v t ≡ ok t'
      → bolt.get (b ∷ q) j t' ≡ bolt.get (b ∷ q) j t
  pub get-create_apart :
      (a b : Str) (p q : List Str) (n j : Str) (t t' : T)
      → (a == b) ≡ false
      → bolt.create_bucket (a ∷ p) n t ≡ ok t'
      → bolt.get (b ∷ q) j t' ≡ bolt.get (b ∷ q) j t

module _ {T : Type 0} (bolt : Bolt T) (json : Json) (laws : Laws bolt) where
  module _ (a : Str) (hash : Str) (apart : (a == by_hash) ≡ false) where
    ensure_keeps :
        (at : List Str) (n : Str) (t t' : T)
        → ensure bolt json (a ∷ at) n t ≡ ok t'
        → bolt.get (by_hash ∷ []) hash t' ≡ bolt.get (by_hash ∷ []) hash t
    unfolding ensure
    ensure_keeps at n t t' run = elim (Bool-cases (bolt.bucket (a ∷ at ++ n ∷ []) t)) [
      | inl e ↦
          let there : ok t ≡ ok t' = rw e at run in
          ap (bolt.get (by_hash ∷ []) hash) (sym (ok_injective there))
      | inr e ↦ laws.get-create_apart a by_hash at [] n hash t t' apart (rw e at run)
    ]

    open_dirs_keeps :
        (dirs at : List Str) (t t' : T)
        → open_dirs bolt json (a ∷ at) dirs t ≡ ok t'
        → bolt.get (by_hash ∷ []) hash t' ≡ bolt.get (by_hash ∷ []) hash t
    unfolding open_dirs
    open_dirs_keeps [] at t t' run = ap (bolt.get (by_hash ∷ []) hash) (sym (ok_injective run))
    open_dirs_keeps (dn ∷ dirs) at t t' run =
        let (t₁, made, opened) =
          >>=-eq-ok (ensure bolt json (a ∷ at) dn t) (open_dirs bolt json (a ∷ at ++ dn ∷ []) dirs)
            run in
        open_dirs_keeps dirs (at ++ dn ∷ []) t₁ t' opened ∙ ensure_keeps at dn t t₁ made

  note_owner_keeps :
      (path owner hash : Str) (fi : FileInfo) (t t' : T)
      → note_owner bolt json path (some fi) owner t ≡ ok t'
      → bolt.get (by_hash ∷ []) hash t' ≡ bolt.get (by_hash ∷ []) hash t
  unfolding note_owner
  note_owner_keeps path owner hash fi t t' run =
      let apart : (by_owner == by_hash) ≡ false = unfold ◌==◌ in refl in
      let (t₁, made, put) =
        >>=-eq-ok (ensure bolt json (by_owner ∷ []) owner t)
          (bolt.put (by_owner ∷ owner ∷ []) path []) run in
      laws.get-put_apart by_owner by_hash (owner ∷ []) [] path hash [] t₁ t' apart put
      ∙ ensure_keeps by_owner hash apart [] owner t t₁ made

  write_file_keeps :
      (dirs : List Str) (fn hash h : Str) (fi : FileInfo) (t t' : T)
      → write_file bolt json dirs fn (some fi) t ≡ ok (t', h)
      → (h ≡ fi.hash) × (bolt.get (by_hash ∷ []) hash t' ≡ bolt.get (by_hash ∷ []) hash t)
  unfolding write_file
  write_file_keeps dirs fn hash h fi t t' run =
      let apart : (files == by_hash) ≡ false = unfold ◌==◌ in refl in
      let (buf, made, stored) =
        >>=-eq-ok (encode_file_info json fi)
          (λ b. bolt.put (files ∷ dirs) fn b t >>= λ t'. ok (t', fi.hash)) run in
      let (t₁, put, out) =
        >>=-eq-ok (bolt.put (files ∷ dirs) fn buf t) (λ t'. ok (t', fi.hash)) stored in
      let same = ok_injective out in
      (
        ap (λ r. r.1) (sym same),
        ap (λ r. bolt.get (by_hash ∷ []) hash r.0) (sym same)
            ∙ laws.get-put_apart files by_hash dirs [] fn hash buf t t₁ apart put,
      )

  write_owners_stores :
      (owner hash v : Str) (fi : FileInfo) (t t' : T)
      → new_owners (some fi) owner (bytes_or_empty (bolt.get (by_hash ∷ []) hash t)) ≡ v
      → (v == []) ≡ false
      → write_owners bolt json (some fi) owner hash t ≡ ok t'
      → bolt.get (by_hash ∷ []) hash t' ≡ some v
  unfolding write_owners
  write_owners_stores owner hash v fi t t' joined left run =
      laws.get-put (by_hash ∷ []) hash v t t' (rw (joined, left) at run)

  update_owners :
      (p owner v : Str) (ps : List Str) (fi : FileInfo) (t t' : T)
      → update bolt json p ps (some fi) owner t ≡ ok t'
      → new_owners (some fi) owner (bytes_or_empty (bolt.get (by_hash ∷ []) fi.hash t)) ≡ v
      → (v == []) ≡ false
      → bolt.get (by_hash ∷ []) fi.hash t' ≡ some v
  unfolding update
  update_owners p owner v ps fi t t' run joined left =
      let path = join slash (p ∷ ps) in
      let (dirs, fn) = parts_of p ps in
      let (t₁, noted, run₁) = >>=-eq-ok (note_owner bolt json path (some fi) owner t) _ run in
      let (t₂, opened, run₂) = >>=-eq-ok (open_dirs bolt json (files ∷ []) dirs t₁) _ run₁ in
      let ((t₃, h), written, run₃) = >>=-eq-ok (write_file bolt json dirs fn (some fi) t₂) _ run₂ in
      let apart : (files == by_hash) ≡ false = unfold ◌==◌ in refl in
      let (named, kept) = write_file_keeps dirs fn fi.hash h fi t₂ t₃ written in
      let same =
        kept
        ∙ (open_dirs_keeps files fi.hash apart dirs [] t₁ t₂ opened
            ∙ note_owner_keeps path owner fi.hash fi t t₁ noted) in
      write_owners_stores owner fi.hash v fi t₃ t'
        (ap (λ g. new_owners (some fi) owner (bytes_or_empty g)) same ∙ joined) left
        (subst (λ k. write_owners bolt json (some fi) owner k t₃ ≡ ok t') named run₃)

  finish-ok : (t t' : T) (r : Result T) → finish bolt json none t r ≡ (t', ok tt) → r ≡ ok t'
  unfolding finish
  finish-ok t t' (ok u) h = ap (λ x. ok x.0) h
  finish-ok t t' (err e) h = cc (ap (λ x. x.1) h)
  finish-ok t t' panic h = cc (ap (λ x. x.1) h)

  -- Over a library that keeps its buckets apart, a SetFile with a file that returns, where byHash
  -- has any list of owners of the hash, no name with a zero byte or a slash in it: GetOwners then
  -- answers with a single text, which is all the owners, the new one last, with zero bytes between
  -- them.
  pub set_file_runs_owners_together :
      (p owner : Str) (ps os : List Str) (fi : FileInfo) (t t' : T)
      → set_file bolt json none (p ∷ ps) (some fi) owner t ≡ (t', ok tt)
      → bytes_or_empty (bolt.get (by_hash ∷ []) fi.hash t) ≡ join 0 os
      → All IsOwner os
      → IsOwner owner
      → All (IsFree slash) (os ++ owner ∷ [])
      → get_owners bolt json none fi.hash t' ≡ ok (join 0 (os ++ owner ∷ []) ∷ [])
  unfolding set_file get_owners
  set_file_runs_owners_together p owner ps os fi t t' run held good new slashless =
      let v = join 0 (os ++ owner ∷ []) in
      let left = snoc_left os owner good new in
      let stored =
        update_owners p owner v ps fi t t'
          (finish-ok t t' (update bolt json p ps (some fi) owner t) run)
          (ap (new_owners (some fi) owner) held ∙ (new_owners-join os owner fi good new).0) left in
      rw (stored, left)
        (ap ok
          (split_free slash v (join-IsFree 0 slash (os ++ owner ∷ []) (ground arith) slashless)))
