-- ===== src/Ftp/Sorting.antt =====
-- `sort` gives the ascending rearrangement of its input.
use rufs.Base.{◌≡◌, refl, List, [], ◌∷◌, true, false, Bool-cases, inl, inr, Str, All, arith}
use mathlib.Core.List.{Perm}
use mathlib.Core.List.Perm
use rufs.Ftp.{str_ltb, insert_sorted, sort}

ltb_asymm : (s t : Str) → str_ltb s t ≡ true → str_ltb t s ≡ false
unfolding str_ltb
ltb_asymm s [] h = cc
ltb_asymm [] (b ∷ t) h = refl
ltb_asymm (a ∷ s) (b ∷ t) h = ground (arith, ltb_asymm s t)

-- Of three strings, the first no smaller than the second and the second no smaller than the third.
ge_trans : (s t u : Str) → str_ltb s t ≡ false → str_ltb t u ≡ false → str_ltb s u ≡ false
unfolding str_ltb
ge_trans s t [] h k = refl
ge_trans [] [] (c ∷ u) h k = k
ge_trans [] (b ∷ t) (c ∷ u) h k = cc
ge_trans (a ∷ s) [] (c ∷ u) h k = cc
ge_trans (a ∷ s) (b ∷ t) (c ∷ u) h k = ground (arith, ge_trans s t u)

-- No later string comes before an earlier one.
abbrev pub IsAscending : List Str → Type 0
IsAscending [] = Unit
IsAscending (n ∷ ns) = All (λ m. str_ltb m n ≡ false) ns × IsAscending ns

above :
    (n m : Str) (ms : List Str)
    → str_ltb m n ≡ false
    → All (λ x. str_ltb x m ≡ false) ms
    → All (λ x. str_ltb x n ≡ false) ms
above n m [] h k = tt
above n m (x ∷ ms) h k = (ge_trans x m n k.0 h, above n m ms h k.1)

All-insert_sorted :
    (m n : Str) (ms : List Str)
    → str_ltb n m ≡ false
    → All (λ x. str_ltb x m ≡ false) ms
    → All (λ x. str_ltb x m ≡ false) (insert_sorted n ms)
unfolding insert_sorted
All-insert_sorted m n [] h k = (h, tt)
All-insert_sorted m n (x ∷ ms) h k = elim (Bool-cases (str_ltb x n)) [
  | inl e ↦ rw e (k.0, All-insert_sorted m n ms h k.1)
  | inr e ↦ rw e (h, k)
]

insert_sorted-IsAscending :
    (n : Str) (ms : List Str) → IsAscending ms → IsAscending (insert_sorted n ms)
unfolding insert_sorted
insert_sorted-IsAscending n [] h = (tt, tt)
insert_sorted-IsAscending n (m ∷ ms) h = elim (Bool-cases (str_ltb m n)) [
  | inl e ↦
      rw e (All-insert_sorted m n ms (ltb_asymm m n e) h.0, insert_sorted-IsAscending n ms h.1)
  | inr e ↦ rw e ((e, above n m ms e h.0), h)
]

pub sort-IsAscending : (ns : List Str) → IsAscending (sort ns)
unfolding sort
sort-IsAscending [] = tt
sort-IsAscending (n ∷ ns) = insert_sorted-IsAscending n (sort ns) (sort-IsAscending ns)

insert_sorted-perm : (n : Str) (ms : List Str) → Perm (insert_sorted n ms) (n ∷ ms)
unfolding insert_sorted
insert_sorted-perm n [] = Perm.rfl
insert_sorted-perm n (m ∷ ms) = elim (Bool-cases (str_ltb m n)) [
  | inl e ↦ rw e (Perm.trans (Perm.cons m (insert_sorted-perm n ms)) (Perm.swap n m ms))
  | inr e ↦ rw e Perm.rfl
]

pub sort-perm : (ns : List Str) → Perm (sort ns) ns
unfolding sort
sort-perm [] = Perm.rfl
sort-perm (n ∷ ns) = Perm.trans (insert_sorted-perm n (sort ns)) (Perm.cons n (sort-perm ns))
