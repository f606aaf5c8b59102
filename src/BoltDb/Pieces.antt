-- ===== src/BoltDb/Pieces.antt =====
-- strings.Split and strings.Join with a separator of one byte undo each other.
use rufs.Base.{
  ℕ, ◌≡◌, refl, ◌∙◌, ap, List, [], ◌∷◌, ◌++◌, true, false, Str, nat_eq, split, join, All, arith,
}
use mathlib.Core.List.{append_assoc}

-- No byte of the text is the separator.
abbrev pub IsFree : ℕ → Str → Type 0
IsFree sep [] = Unit
IsFree sep (c ∷ s) = (nat_eq c sep ≡ false) × IsFree sep s

pub split_free : (sep : ℕ) (p : Str) → IsFree sep p → split sep p ≡ p ∷ []
unfolding split
split_free sep [] h = refl
split_free sep (c ∷ p) h = rw (split, split_free sep p h.1, h.0) refl

split_first :
    (sep : ℕ) (p s q : Str) (qs : List Str)
    → IsFree sep p
    → split sep s ≡ q ∷ qs
    → split sep (p ++ sep ∷ s) ≡ p ∷ q ∷ qs
unfolding split
split_first sep [] s q qs h e =
    rw (split, e) (let same : nat_eq sep sep ≡ true = ground arith in rw same refl)
split_first sep (c ∷ p) s q qs h e = rw (split, split_first sep p s q qs h.1 e, h.0) refl

pub split-join :
    (sep : ℕ) (p : Str) (ps : List Str)
    → All (IsFree sep) (p ∷ ps)
    → split sep (join sep (p ∷ ps)) ≡ p ∷ ps
unfolding join
split-join sep p [] h = split_free sep p h.0
split-join sep p (q ∷ ps) h =
    split_first sep p (join sep (q ∷ ps)) q ps h.0 (split-join sep q ps h.1)

pub join-snoc :
    (sep : ℕ) (p last : Str) (ps : List Str)
    → join sep (p ∷ ps) ++ sep ∷ last ≡ join sep (p ∷ ps ++ last ∷ [])
unfolding join
join-snoc sep p last [] = refl
join-snoc sep p last (q ∷ ps) =
    append_assoc p (sep ∷ join sep (q ∷ ps)) (sep ∷ last)
    ∙ ap (λ t. p ++ sep ∷ t) (join-snoc sep q last ps)

pub append-IsFree : (sep : ℕ) (s t : Str) → IsFree sep s → IsFree sep t → IsFree sep (s ++ t)
append-IsFree sep [] t h k = k
append-IsFree sep (c ∷ s) t h k = (h.0, append-IsFree sep s t h.1 k)

-- A text that a separator joins is free of another one.
pub join-IsFree :
    (sep other : ℕ) (ps : List Str)
    → nat_eq sep other ≡ false
    → All (IsFree other) ps
    → IsFree other (join sep ps)
unfolding join
join-IsFree sep other [] ne h = tt
join-IsFree sep other (p ∷ []) ne h = h.0
join-IsFree sep other (p ∷ q ∷ ps) ne h =
    append-IsFree other p (sep ∷ join sep (q ∷ ps)) h.0 (ne, join-IsFree sep other (q ∷ ps) ne h.1)
