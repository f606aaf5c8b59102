-- ===== src/SqliteDb/Peers.antt =====
-- GetOwners against the rows of `fs`, and the rows of a peer that has gone.
use rufs.Base.{
  ◌≡◌, refl, ◌∙◌, List, [], ◌∷◌, Bool, false, Bool-cases, not, ◌&&◌, ◌||◌, inl, inr, Str, ◌==◌,
  eq_iff, map, none, ok, arith,
}
use rufs.Fuse.{is_name}
use rufs.SqliteDb.{
  Row, Database, Engine, disconnect, owners, select, delete_rows, peer_disconnected, distinct,
  get_owners,
}

-- Whether a peer has a row with a hash.
unfoldable pub has_hash : Str → Str → List Row → Bool
has_hash h o [] = false
has_hash h o (r ∷ rows) = r.hash == h && r.peer == o || has_hash h o rows

pub is_name-distinct : (n : Str) (ns : List Str) → is_name n (distinct ns) ≡ is_name n ns
unfolding is_name distinct
is_name-distinct n [] = refl
is_name-distinct n (m ∷ ns) = elim (Bool-cases (is_name m (distinct ns))) [
  | inl e ↦ rw e (ground (arith, eq_iff m n, is_name-distinct n ns))
  | inr e ↦ rw (e, is_name) (ground (arith, eq_iff m n, is_name-distinct n ns))
]

is_name-peers :
    (h o : Str) (rows : List Row)
    → is_name o (map (λ r. r.peer) (select (λ r. r.hash == h) rows)) ≡ has_hash h o rows
unfolding is_name select has_hash
is_name-peers h o [] = refl
is_name-peers h o (r ∷ rows) = elim (Bool-cases (r.hash == h)) [
  | inl e ↦ rw e (rw (is_name, is_name-peers h o rows) (ground arith))
  | inr e ↦ rw e (is_name-peers h o rows)
]

has_hash-delete_rows :
    (h o gone : Str) (rows : List Row)
    → has_hash h o (delete_rows (λ r. r.peer == gone) rows) ≡ (not (gone == o) && has_hash h o rows)
unfolding delete_rows select has_hash
has_hash-delete_rows h o gone [] = ground arith
has_hash-delete_rows h o gone (r ∷ rows) =
    ground (
      arith,
      has_hash-delete_rows h o gone rows,
      eq_iff r.peer gone,
      eq_iff r.peer o,
      eq_iff gone o,
    )

module _ (io : Engine) (asks : io owners ≡ none) where
  get_owners_lists :
      (h : Str) (d : Database)
      → (ns : List Str) × (get_owners io h d ≡ ok ns)
        × ((o : Str) → is_name o ns ≡ has_hash h o d.rows)
  unfolding get_owners
  get_owners_lists h d = (
    distinct (map (λ r. r.peer) (select (λ r. r.hash == h) d.rows)),
    rw (get_owners, asks) refl,
    λ o. is_name-distinct o _ ∙ is_name-peers h o d.rows,
  )

  -- With an engine that answers, PeerDisconnected returns, and for every hash GetOwners then lists
  -- those owners that it listed before, but for the one that has gone.
  pub peer_disconnected_forgets :
      (gone h : Str) (d : Database)
      → io disconnect ≡ none
      → (before after : List Str) × (get_owners io h d ≡ ok before)
        × ((peer_disconnected io gone d).1 ≡ ok tt)
        × (get_owners io h (peer_disconnected io gone d).0 ≡ ok after)
        × ((o : Str) → is_name o after ≡ (not (gone == o) && is_name o before))
  unfolding peer_disconnected
  peer_disconnected_forgets gone h d drops =
      let (before, asked, listed) = get_owners_lists h d in
      let left : Database = record {
        rows = delete_rows (λ r. r.peer == gone) d.rows;
        dir_cache = none;
      } in
      let (after, asked', listed') = get_owners_lists h left in
      rw (peer_disconnected, drops)
        (
          before,
          after,
          asked,
          refl,
          asked',
          λ o. listed' o ∙ (has_hash-delete_rows h o gone d.rows ∙ rw (listed o) refl),
        )
