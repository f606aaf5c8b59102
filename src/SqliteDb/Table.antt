-- ===== src/SqliteDb/Table.antt =====
-- The rows of `fs` under SetFile and PeerDisconnected.
use rufs.Base.{
  ◌≡◌, refl, ◌∙◌, List, [], ◌∷◌, Option, none, some, Bool, true, false, Bool-cases, ◌&&◌, inl, inr,
  Str, slash, join, ◌==◌, eq_iff, if◌then◌else◌, ok, arith,
}
use rufs.Common.{FileInfo}
use rufs.SqliteDb.{
  Row, Database, Engine, begin, delete_file, add_file, commit, row_of, has_key, select, find_row,
  delete_rows, add_row, parts_of, extend_cache, set_file,
}

-- The primary key: no two rows have the same directory, file and peer.
abbrev pub IsTable : List Row → Type 0
IsTable [] = Unit
IsTable (r ∷ rows) = (find_row (has_key r.directory r.file r.peer) rows ≡ none) × IsTable rows

-- The row of a file that a peer has.
abbrev pub row_at : Str → Str → Str → List Row → Option Row
row_at dn f owner rows = find_row (has_key dn f owner) rows

module _ (p : Row → Bool) where
  find_row-delete_rows_self : (rows : List Row) → find_row p (delete_rows p rows) ≡ none
  unfolding find_row delete_rows select
  find_row-delete_rows_self [] = refl
  find_row-delete_rows_self (r ∷ rows) = elim (Bool-cases (p r)) [
    | inl e ↦ rw e (find_row-delete_rows_self rows)
    | inr e ↦ rw (e, find_row, e) (find_row-delete_rows_self rows)
  ]

  find_row-delete_rows :
      (q : Row → Bool) (rows : List Row)
      → ((r : Row) → q r ≡ true → p r ≡ false)
      → find_row q (delete_rows p rows) ≡ find_row q rows
  unfolding find_row delete_rows select
  find_row-delete_rows q [] apart = refl
  find_row-delete_rows q (r ∷ rows) apart =
      let ih = find_row-delete_rows q rows apart in
      elim (Bool-cases (q r)) [
        | inl e ↦ rw (apart r e, find_row, e) refl
        | inr e ↦ elim (Bool-cases (p r)) [ inl d ↦ rw (d, e) ih | inr d ↦ rw (d, find_row, e) ih ]
      ]

  find_row_still_none :
      (q : Row → Bool) (rows : List Row)
      → find_row q rows ≡ none
      → find_row q (delete_rows p rows) ≡ none
  unfolding find_row delete_rows select
  find_row_still_none q [] h = refl
  find_row_still_none q (r ∷ rows) h = ground (arith, find_row_still_none q rows)

  delete_rows-IsTable : (rows : List Row) → IsTable rows → IsTable (delete_rows p rows)
  unfolding delete_rows select
  delete_rows-IsTable [] h = tt
  delete_rows-IsTable (r ∷ rows) h = elim (Bool-cases (p r)) [
    | inl e ↦ rw e (delete_rows-IsTable rows h.1)
    | inr e ↦ rw e (find_row_still_none _ rows h.0, delete_rows-IsTable rows h.1)
  ]

-- Whether two keys are the same.
abbrev pub same_key : Str → Str → Str → Str → Str → Str → Bool
same_key dn f owner a b o = dn == a && (f == b && owner == o)

keys_apart :
    (dn f owner a b o : Str) (r : Row)
    → same_key dn f owner a b o ≡ false
    → has_key a b o r ≡ true
    → has_key dn f owner r ≡ false
unfolding has_key
keys_apart dn f owner a b o r h e = ground (
  arith,
  eq_iff r.directory a,
  eq_iff r.directory dn,
  eq_iff r.file b,
  eq_iff r.file f,
  eq_iff r.peer o,
  eq_iff r.peer owner,
  eq_iff dn a,
  eq_iff f b,
  eq_iff owner o,
)

row_at-delete_rows :
    (dn f owner a b o : Str) (rows : List Row)
    → row_at a b o (delete_rows (has_key dn f owner) rows)
      ≡ (if same_key dn f owner a b o then none else row_at a b o rows)
row_at-delete_rows dn f owner a b o rows = elim (Bool-cases (same_key dn f owner a b o)) [
  | inl e ↦
      let at : dn ≡ a = ground (arith, eq_iff dn a) in
      let name : f ≡ b = ground (arith, eq_iff dn a, eq_iff f b) in
      let by : owner ≡ o = ground (arith, eq_iff dn a, eq_iff f b, eq_iff owner o) in
      rw (e, ← at, ← name, ← by) (find_row-delete_rows_self (has_key dn f owner) rows)
  | inr e ↦ rw e (
      find_row-delete_rows (has_key dn f owner) (has_key a b o) rows
        (λ r. keys_apart dn f owner a b o r e))
]

-- What SetFile puts in the row.
abbrev pub row_for : Str → Str → Str → Option FileInfo → Option Row
row_for dn f owner none = none
row_for dn f owner (some fi) = some (row_of dn f fi owner)

add_row_lem :
    (dn f owner : Str) (fi : FileInfo) (rows : List Row)
    → row_at dn f owner rows ≡ none
    → add_row (row_of dn f fi owner) rows ≡ ok (row_of dn f fi owner ∷ rows)
unfolding add_row row_of
add_row_lem dn f owner fi rows free = rw (add_row, free) refl

key-row_of :
    (dn f owner : Str) (fi : FileInfo) (rows : List Row)
    → (row_at dn f owner rows ≡ none) × IsTable rows
    → IsTable (row_of dn f fi owner ∷ rows)
unfolding row_of
key-row_of dn f owner fi rows h = h

row_at-row_of :
    (dn f owner a b o : Str) (fi : FileInfo) (rows : List Row)
    → row_at a b o (row_of dn f fi owner ∷ rows)
      ≡ (if same_key dn f owner a b o then row_for dn f owner (some fi) else row_at a b o rows)
unfolding find_row has_key row_of
row_at-row_of dn f owner a b o fi rows = refl

row_at-absorbed :
    (dn f owner a b o : Str) (v : Option Row) (rows : List Row)
    → (if same_key dn f owner a b o
        then v
        else row_at a b o (delete_rows (has_key dn f owner) rows))
      ≡ (if same_key dn f owner a b o then v else row_at a b o rows)
row_at-absorbed dn f owner a b o v rows =
    rw (row_at-delete_rows dn f owner a b o rows) (ground arith)

module _ (io : Engine) (begins : io begin ≡ none) (deletes : io delete_file ≡ none)
    (adds : io add_file ≡ none) (commits : io commit ≡ none) where
  pub set_file_adds :
      (p f owner : Str) (ps dirs : List Str) (fi : FileInfo) (d : Database)
      → parts_of p ps ≡ (dirs, f)
      → set_file io (p ∷ ps) (some fi) owner d ≡ (
        record {
          rows =
              row_of (join slash dirs) f fi owner
              ∷ delete_rows (has_key (join slash dirs) f owner) d.rows;
          dir_cache = extend_cache dirs d.dir_cache;
        },
        ok tt,
      )
  unfolding set_file
  set_file_adds p f owner ps dirs fi d parts =
      let dn = join slash dirs in
      let kept = delete_rows (has_key dn f owner) d.rows in
      let added =
        add_row_lem dn f owner fi kept (find_row-delete_rows_self (has_key dn f owner) d.rows) in
      rw (set_file, parts, begins, deletes, adds, added, commits, parts) refl

  -- SetFile with an engine that does not fail, on rows whose keys are unique, returns: the row of
  -- its directory, file and owner is then what was given, or gone where nothing was given, the row
  -- of every other key is as it was, and keys stay unique.
  pub set_file_writes :
      (p f owner : Str) (ps dirs : List Str) (v : Option FileInfo) (d : Database)
      → parts_of p ps ≡ (dirs, f)
      → IsTable d.rows
      → ((set_file io (p ∷ ps) v owner d).1 ≡ ok tt)
        × IsTable (set_file io (p ∷ ps) v owner d).0.rows
        × ((a b o : Str)
            → row_at a b o (set_file io (p ∷ ps) v owner d).0.rows ≡ (
                if same_key (join slash dirs) f owner a b o
                then row_for (join slash dirs) f owner v
                else row_at a b o d.rows))
  unfolding set_file
  set_file_writes p f owner ps dirs none d parts t =
      rw (set_file, parts, begins, deletes, commits)
        (
          refl,
          delete_rows-IsTable (has_key (join slash dirs) f owner) d.rows t,
          λ a b o. row_at-delete_rows (join slash dirs) f owner a b o d.rows,
        )
  set_file_writes p f owner ps dirs (some fi) d parts t =
      let dn = join slash dirs in
      let kept = delete_rows (has_key dn f owner) d.rows in
      let free = find_row-delete_rows_self (has_key dn f owner) d.rows in
      rw (set_file_adds p f owner ps dirs fi d parts) (
        refl,
        key-row_of dn f owner fi kept (free, delete_rows-IsTable _ d.rows t),
        λ a b o. row_at-row_of dn f owner a b o fi kept ∙ row_at-absorbed dn f owner a b o _ d.rows,
      )
