-- ===== src/SqliteDb/Ancestors.antt =====
-- The cache that `updateDirCache` fills lists every directory of a row in its parent, up to the top.
use rufs.Base.{
  ◌≡◌, refl, sym, ◌∙◌, ap, subst, ℕ, zero, suc, ◌≤◌, ◌<◌, List, [], ◌∷◌, map, Bool, true, false,
  Bool-cases, ◌||◌, inl, inr, ◌⊎◌, Str, slash, join, split, ◌==◌, eq_iff, eq_refl, eq-cases, Dict,
  if◌then◌else◌, take, length, get_elem?, All, lookup, arith,
}
use rufs.BoltDb.Pieces.{IsFree, split-join}
use rufs.Fuse.{is_name}
use rufs.SqliteDb.{Row, str_or_empty, append_to, distinct, climb, climb_all, update_dir_cache}
use rufs.SqliteDb.Names.{
  IsOnce, update_dir_cache-IsOnce, names_in, is_name-append, names_in-append_to,
}
use rufs.SqliteDb.Peers.{is_name-distinct}

-- A part of a path: not empty, and without a slash.
abbrev pub IsPart : Str → Type 0
IsPart p = ((p == []) ≡ false) × IsFree slash p

parts-IsFree : (ps : List Str) → All IsPart ps → All (IsFree slash) ps
parts-IsFree [] h = tt
parts-IsFree (p ∷ ps) h = (h.0.1, parts-IsFree ps h.1)

joined_left : (p : Str) (ps : List Str) → IsPart p → (join slash (p ∷ ps) == []) ≡ false
unfolding join ◌==◌
joined_left p [] h = h.0
joined_left [] (q ∷ ps) h = refl
joined_left (c ∷ p) (q ∷ ps) h = refl

-- Paths of good parts are apart where their texts are.
join_injective :
    (ps qs : List Str) → All IsPart ps → All IsPart qs → join slash ps ≡ join slash qs → ps ≡ qs
join_injective [] [] h k e = refl
join_injective [] (q ∷ qs) h k e =
    unfold join ◌==◌ in cc (ap (λ t. t == []) e, joined_left q qs k.0)
join_injective (p ∷ ps) [] h k e =
    unfold join ◌==◌ in cc (ap (λ t. t == []) e, joined_left p ps h.0)
join_injective (p ∷ ps) (q ∷ qs) h k e =
    sym (split-join slash p ps (parts-IsFree (p ∷ ps) h))
    ∙ ap (split slash) e
    ∙ split-join slash q qs (parts-IsFree (q ∷ qs) k)

take-IsPart : (n : ℕ) (ps : List Str) → All IsPart ps → All IsPart (take n ps)
take-IsPart zero ps h = tt
take-IsPart (suc n) [] h = tt
take-IsPart (suc n) (p ∷ ps) h = (h.0, take-IsPart n ps h.1)

length-take : (n : ℕ) (ps : List Str) → n ≤ length ps → length (take n ps) ≡ n
length-take zero ps h = refl
length-take (suc n) [] h = omega arith
length-take (suc n) (p ∷ ps) h = ap suc (length-take n ps (omega arith))

-- Paths that share `n + 1` parts share `n`, and the next.
take_shorter :
    (n : ℕ) (ps qs : List Str) → take (suc n) ps ≡ take (suc n) qs → take n ps ≡ take n qs
take_shorter n ps qs e = less n ps ∙ ap (take n) e ∙ sym (less n qs)
  where
    less : (n : ℕ) (ps : List Str) → take n ps ≡ take n (take (suc n) ps)
    less zero ps = refl
    less (suc n) [] = refl
    less (suc n) (p ∷ ps) = ap (λ t. p ∷ t) (less n ps)

next_same :
    (n : ℕ) (ps qs : List Str) → take (suc n) ps ≡ take (suc n) qs → get_elem? ps n ≡ get_elem? qs n
next_same n ps qs e = at n ps ∙ ap (λ t. get_elem? t n) e ∙ sym (at n qs)
  where
    at : (n : ℕ) (ps : List Str) → get_elem? ps n ≡ get_elem? (take (suc n) ps) n
    at n [] = refl
    at zero (p ∷ ps) = refl
    at (suc n) (p ∷ ps) = at n ps

-- Whether the part at a place of a path is listed in the directory above it.
abbrev pub listed : Dict (List Str) → List Str → ℕ → Bool
listed c ex i = is_name (str_or_empty (get_elem? ex i)) (names_in (join slash (take i ex)) c)

-- Every directory above a listed one is listed.
abbrev IsClosed : Dict (List Str) → Type 0
IsClosed c =
    (ex : List Str) (i : ℕ)
    → All IsPart ex
    → i < length ex
    → listed c ex i ≡ true
    → (j : ℕ) → j < i
    → listed c ex j ≡ true

-- The same in the middle of a climb, which has still to list the first `s` parts of a path: of the
-- directories below these the ones above are only listed from there on.
abbrev IsOpen : List Str → ℕ → Dict (List Str) → Type 0
IsOpen top s c =
    (ex : List Str) (i : ℕ)
    → All IsPart ex
    → i < length ex
    → listed c ex i ≡ true
    → ((j : ℕ) → j < i → listed c ex j ≡ true)
      ⊎ ((take s ex ≡ take s top) × (s ≤ i) × ((j : ℕ) → s ≤ j → j < i → listed c ex j ≡ true))

same_listed :
    (s : ℕ) (ex top : List Str) (c : Dict (List Str))
    → take (suc s) ex ≡ take (suc s) top
    → listed c ex s ≡ listed c top s
same_listed s ex top c e =
    ap (λ n. is_name (str_or_empty n) (names_in (join slash (take s ex)) c)) (next_same s ex top e)
    ∙ ap (λ t. is_name (str_or_empty (get_elem? top s)) (names_in (join slash t) c))
        (take_shorter s ex top e)

module _ (dn f : Str) (c : Dict (List Str)) where
  appended :
      (n k : Str)
      → is_name n (names_in k (append_to dn f c))
        ≡ (if dn == k then is_name n (names_in dn c) || f == n else is_name n (names_in k c))
  appended n k = elim (Bool-cases (dn == k)) [
    | inl e ↦
        ap (is_name n) (names_in-append_to dn f k c) ∙ rw e (is_name-append n f (names_in dn c))
    | inr e ↦ ap (is_name n) (names_in-append_to dn f k c) ∙ rw e refl
  ]

  kept :
      (n k : Str)
      → is_name n (names_in k c) ≡ true
      → is_name n (names_in k (append_to dn f c)) ≡ true
  kept n k h = appended n k ∙ (elim (eq-cases dn k) [
    | inl e ↦
        let old : is_name n (names_in dn c) ≡ true = ap (λ t. is_name n (names_in t c)) e ∙ h in
        rw (← e) (rw (eq_refl dn, old) refl)
    | inr e ↦ rw e h
  ])

  new_name : is_name f (names_in dn (append_to dn f c)) ≡ true
  new_name = appended f dn ∙ rw (eq_refl dn, eq_refl f) (ground arith)

  old_or_new :
      (n k : Str)
      → is_name n (names_in k (append_to dn f c)) ≡ true
      → (is_name n (names_in k c) ≡ true) ⊎ ((dn ≡ k) × (f ≡ n))
  old_or_new n k h = elim (eq-cases dn k) [
    | inl e ↦
        let both : (is_name n (names_in dn c) || f == n) ≡ true =
          sym (appended n dn ∙ rw (eq_refl dn) refl)
          ∙ (ap (λ t. is_name n (names_in t (append_to dn f c))) e ∙ h) in
        elim (Bool-cases (f == n)) [
          | inl same ↦ inr (e, (eq_iff f n).0 same)
          | inr other ↦
              let old : is_name n (names_in dn c) ≡ true = ground (arith, both, other) in
              inl (ap (λ t. is_name n (names_in t c)) (sym e) ∙ old)
        ]
    | inr e ↦ inl (sym (appended n k ∙ rw e refl) ∙ h)
  ]

order-cases : (m n : ℕ) → (m < n) ⊎ ((m ≡ n) ⊎ (n < m))
order-cases zero zero = inr (inl refl)
order-cases zero (suc n) = inl (omega arith)
order-cases (suc m) zero = inr (inr (omega arith))
order-cases (suc m) (suc n) = elim (order-cases m n) [
  | inl a ↦ inl (omega arith)
  | inr r ↦ elim r [ inl e ↦ inr (inl (ap suc e)) | inr b ↦ inr (inr (omega arith)) ]
]

-- A climb takes no name away.
climb_keeps :
    (s : ℕ) (top : List Str) (c : Dict (List Str)) (n k : Str)
    → is_name n (names_in k c) ≡ true
    → is_name n (names_in k (climb s top c)) ≡ true
unfolding climb
climb_keeps zero top c n k h = h
climb_keeps (suc s) top c n k h = elim (Bool-cases (listed c top s)) [
  | inl e ↦ rw e h
  | inr e ↦ rw e (climb_keeps s top _ n k (kept _ _ c n k h))
]

-- A name that was there ends the climb: what it still had to list is there.
found_closes :
    (s : ℕ) (top : List Str) (c : Dict (List Str))
    → IsOpen top (suc s) c
    → listed c top s ≡ true
    → IsClosed c
found_closes s top c so_far found ex i good inside is j below = elim (so_far ex i good inside is) [
  | inl up ↦ up j below
  | inr (same, high, above) ↦
      let at_s : listed c ex s ≡ true = same_listed s ex top c same ∙ found in
      elim (order-cases j s) [
        | inl low ↦ elim (so_far ex s good (omega arith) at_s) [
          | inl up ↦ up j low
          | inr (again, wrong, rest) ↦ absurd (omega arith)
        ]
        | inr r ↦ elim r [
          | inl e ↦ ap (listed c ex) e ∙ at_s
          | inr up ↦ above j (omega arith) below
        ]
      ]
]

-- A name that was not there is added, and the climb has one part less to list.
added_opens :
    (s : ℕ) (top : List Str) (c : Dict (List Str))
    → All IsPart top
    → s < length top
    → IsOpen top (suc s) c
    → IsOpen top s (append_to (join slash (take s top)) (str_or_empty (get_elem? top s)) c)
added_opens s top c good_top inside_top so_far ex i good inside is =
    let dn = join slash (take s top) in
    let f = str_or_empty (get_elem? top s) in
    elim (old_or_new dn f c (str_or_empty (get_elem? ex i)) (join slash (take i ex)) is) [
      | inr (there, same) ↦
          let cut =
            join_injective (take s top) (take i ex) (take-IsPart s top good_top)
              (take-IsPart i ex good) there in
          let places : s ≡ i =
            sym (length-take s top (omega arith))
            ∙ ap length cut
            ∙ length-take i ex (omega arith) in
          inr (
            ap (λ m. take m ex) places ∙ sym cut,
            omega arith,
            λ j from below. absurd (omega arith),
          )
      | inl old ↦ elim (so_far ex i good inside old) [
        | inl up ↦ inl (λ j below. kept dn f c _ _ (up j below))
        | inr (same, high, above) ↦ inr (
          take_shorter s ex top same,
          omega arith,
          λ j from below. elim (order-cases j s) [
            | inl low ↦ absurd (omega arith)
            | inr r ↦ elim r [
              | inl e ↦
                  ap (listed (append_to dn f c) ex) e
                  ∙ same_listed s ex top (append_to dn f c) same
                  ∙ new_name dn f c
              | inr up ↦ kept dn f c _ _ (above j (omega arith) below)
            ]
          ],
        )
      ]
    ]

climb-IsClosed :
    (s : ℕ) (top : List Str) (c : Dict (List Str))
    → All IsPart top
    → s ≤ length top
    → IsOpen top s c
    → IsClosed (climb s top c)
unfolding climb
climb-IsClosed zero top c good inside so_far = λ ex i good' inside' is j below.
    elim (so_far ex i good' inside' is) [
      | inl up ↦ up j below
      | inr (same, high, above) ↦ above j (omega arith) below
    ]
climb-IsClosed (suc s) top c good inside so_far = elim (Bool-cases (listed c top s)) [
  | inl e ↦ rw e (found_closes s top c so_far e)
  | inr e ↦
      rw e
        (climb-IsClosed s top _ good (omega arith) (added_opens s top c good (omega arith) so_far))
]

-- The path itself is listed after its climb.
climb_lists :
    (s : ℕ) (top : List Str) (c : Dict (List Str)) → listed (climb (suc s) top c) top s ≡ true
unfolding climb
climb_lists s top c = elim (Bool-cases (listed c top s)) [
  | inl e ↦ rw e e
  | inr e ↦ rw e (climb_keeps s top _ _ _ (new_name _ _ c))
]

-- The directory of a row: one good part or more.
abbrev pub IsDir : Str → Type 0
IsDir d = (p : Str) × (ps : List Str) × All IsPart (p ∷ ps) × (d ≡ join slash (p ∷ ps))

parts_of_dir :
    (d p : Str) (ps : List Str)
    → All IsPart (p ∷ ps)
    → d ≡ join slash (p ∷ ps)
    → split slash d ≡ p ∷ ps
parts_of_dir d p ps good e = ap (split slash) e ∙ split-join slash p ps (parts-IsFree (p ∷ ps) good)

climb_all_keeps :
    (ds : List Str) (c : Dict (List Str)) (n k : Str)
    → is_name n (names_in k c) ≡ true
    → is_name n (names_in k (climb_all ds c)) ≡ true
unfolding climb_all
climb_all_keeps [] c n k h = h
climb_all_keeps (d ∷ ds) c n k h =
    climb_all_keeps ds _ n k (climb_keeps (length (split slash d)) (split slash d) c n k h)

climb_all-IsClosed :
    (ds : List Str) (c : Dict (List Str)) → All IsDir ds → IsClosed c → IsClosed (climb_all ds c)
unfolding climb_all
climb_all-IsClosed [] c h closed = closed
climb_all-IsClosed (d ∷ ds) c ((p, ps, good, e), h) closed =
    let top = p ∷ ps in
    let once : IsClosed (climb (length top) top c) =
      climb-IsClosed (length top) top c good (omega arith)
        (λ ex i good' inside is. inl (λ j below. closed ex i good' inside is j below)) in
    climb_all-IsClosed ds _ h
      (subst (λ t. IsClosed (climb (length t) t c)) (sym (parts_of_dir d p ps good e)) once)

climb_all_lists :
    (ds : List Str) (c : Dict (List Str)) (d p : Str) (ps : List Str)
    → All IsPart (p ∷ ps)
    → d ≡ join slash (p ∷ ps)
    → is_name d ds ≡ true
    → listed (climb_all ds c) (p ∷ ps) (length ps) ≡ true
unfolding climb_all is_name
climb_all_lists [] c d p ps good e is = cc is
climb_all_lists (x ∷ ds) c d p ps good e is = elim (eq-cases x d) [
  | inl same ↦
      let parts = parts_of_dir x p ps good (same ∙ e) in
      climb_all_keeps ds _ _ _ (
        subst (λ t. listed (climb (length t) t c) (p ∷ ps) (length ps) ≡ true) (sym parts)
          (climb_lists (length ps) (p ∷ ps) c))
  | inr other ↦ climb_all_lists ds _ d p ps good e (rw other at is)
]

dirs-distinct : (ns : List Str) → All IsDir ns → All IsDir (distinct ns)
unfolding distinct
dirs-distinct [] h = h
dirs-distinct (n ∷ ns) h = elim (Bool-cases (is_name n (distinct ns))) [
  | inl e ↦ rw e (dirs-distinct ns h.1)
  | inr e ↦ rw e (h.0, dirs-distinct ns h.1)
]

every_part :
    (rows : List Row) (p : Str) (ps : List Str) (i : ℕ)
    → All IsDir (map (λ r. r.directory) rows)
    → All IsPart (p ∷ ps)
    → is_name (join slash (p ∷ ps)) (map (λ r. r.directory) rows) ≡ true
    → i < length (p ∷ ps)
    → listed (update_dir_cache rows) (p ∷ ps) i ≡ true
unfolding update_dir_cache
every_part rows p ps i dirs good is inside =
    let names = map (λ r. r.directory) rows in
    let d = join slash (p ∷ ps) in
    let last =
      climb_all_lists (distinct names) [] d p ps good refl (is_name-distinct d names ∙ is) in
    let closed =
      climb_all-IsClosed (distinct names) [] (dirs-distinct names dirs)
        (λ ex j good' inside' has. unfold is_name lookup in cc has) in
    elim (order-cases i (length ps)) [
      | inl low ↦ closed (p ∷ ps) (length ps) good (omega arith) last i low
      | inr r ↦ elim r [
        | inl e ↦ ap (listed (update_dir_cache rows) (p ∷ ps)) e ∙ last
        | inr up ↦ absurd (omega arith)
      ]
    ]

-- In the cache that is filled from rows whose directories have good parts, every part of the
-- directory of a row is listed in the directory above it, up to the top, and no name is listed
-- there twice.
pub update_dir_cache_lists :
    (rows : List Row) (p : Str) (ps : List Str) (i : ℕ)
    → All IsDir (map (λ r. r.directory) rows)
    → All IsPart (p ∷ ps)
    → is_name (join slash (p ∷ ps)) (map (λ r. r.directory) rows) ≡ true
    → i < length (p ∷ ps)
    → (listed (update_dir_cache rows) (p ∷ ps) i ≡ true)
      × IsOnce (names_in (join slash (take i (p ∷ ps))) (update_dir_cache rows))
update_dir_cache_lists rows p ps i dirs good is inside =
    (every_part rows p ps i dirs good is inside, update_dir_cache-IsOnce rows _)
