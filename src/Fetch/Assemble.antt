-- ===== src/Fetch/Assemble.antt =====
-- The end of `Read`: from whole blocks it cuts out exactly the bytes that were asked for.
use rufs.Base.{
  ℕ, zero, suc, ◌+◌, ◌*◌, ◌%◌, ◌≤◌, ◌<◌, ◌≡◌, refl, sym, ap, ◌∙◌, subst, List, [], ◌∷◌, length,
  take, drop, ltb, leb, if◌then◌else◌, true, Bool-cases, inl, inr, ok, ◌>>=◌, arith,
}
use mathlib.Core.List.{append-nil}
use native.Mathlib.Decide.{dec_lt}
use native.Mathlib.Nat.{mod-eq_of_lt, mod_self, mul-add-mod_self_right}
use rufs.Fetch.{Bytes}
use rufs.Fetch.Read.{concat, cut_last, drop_first, assemble}
use rufs.Fetch.Slices.{
  take_sum, take_of_length-le, take-take_le, length-take, drop-append_le, drop-take_sum,
}

-- The first `n` blocks of a text.
unfoldable pub pieces : ℕ → ℕ → Bytes → List Bytes
pieces bs zero xs = []
pieces bs (suc n) xs = take bs xs ∷ pieces bs n (drop bs xs)

-- The last block, of which `r` bytes are asked for: where it is not cut, it is cut by its length.
abbrev cut_at : ℕ → ℕ → List Bytes → List Bytes
cut_at bs r bufs = if ltb 0 (r % bs) then cut_last (r % bs) bufs else bufs

take_cut : (cut : ℕ) (b : Bytes) → (if ltb cut (length b) then take cut b else b) ≡ take cut b
take_cut cut b = elim (Bool-cases (ltb cut (length b))) [
  | inl e ↦ rw e
  | inr e ↦ rw e (sym (take_of_length-le cut b (ground arith)))
]

module _ (bs : ℕ) (positive : 0 < bs) where
  concat-cut_last :
      (n r m : ℕ) (xs : Bytes)
      → r ≤ bs
      → m ≡ n * bs + r
      → concat (cut_last r (pieces bs (suc n) xs)) ≡ take m xs
  unfolding concat cut_last pieces
  concat-cut_last zero r m xs h e =
      rw (take_cut, append-nil, take-take_le, h) (ap (λ k. take k xs) (omega arith))
  concat-cut_last (suc n) r m xs h e =
      rw (concat-cut_last n r (n * bs + r) (drop bs xs) h refl)
        (sym (take_sum bs (n * bs + r) m xs (omega arith)))

  concat-pieces : (n m : ℕ) (xs : Bytes) → m ≡ n * bs → concat (pieces bs n xs) ≡ take m xs
  unfolding concat pieces
  concat-pieces zero m xs e = ap (λ k. take k xs) (let z : 0 ≡ m = omega arith in z)
  concat-pieces (suc n) m xs e =
      rw (concat-pieces n (n * bs) (drop bs xs) refl)
        (sym (take_sum bs (n * bs) m xs (omega arith)))

pub concat-drop_first :
    (bo : ℕ) (b : Bytes) (bufs : List Bytes)
    → bo ≤ length b
    → (drop_first bo (b ∷ bufs) >>= λ r. ok (concat r)) ≡ ok (drop bo (concat (b ∷ bufs)))
unfolding concat drop_first
concat-drop_first bo b bufs h =
    let t : leb bo (length b) ≡ true = ground arith in
    rw (t, drop-append_le bo b (concat bufs) h) refl

-- The trimmed blocks: they hold the first `m` bytes, and the first of them reaches over `bo`.
abbrev IsTrimmed : ℕ → ℕ → Bytes → List Bytes → Type 0
IsTrimmed bo m xs bufs =
    (b : Bytes) × (rest : List Bytes) × (bufs ≡ b ∷ rest)
    × (bo ≤ length b)
    × (concat (b ∷ rest) ≡ take m xs)

module _ (bs bo m : ℕ) (xs : Bytes) (inside : bo < bs) (there : bo ≤ length xs) where
  trim_short :
      (n r : ℕ)
      → m ≡ n * bs + r
      → r < bs
      → bo ≤ m
      → IsTrimmed bo m xs (cut_last r (pieces bs (suc n) xs))
  unfolding cut_last pieces
  trim_short zero r e h k = (
    take r (take bs xs),
    [],
    rw take_cut,
    omega (arith, length-take r (take bs xs), length-take bs xs),
    subst (λ bufs. concat bufs ≡ take m xs) (rw take_cut)
        (concat-cut_last bs (omega arith) zero r m xs (omega arith) e),
  )
  trim_short (suc n) r e h k = (
    take bs xs,
    cut_last r (pieces bs (suc n) (drop bs xs)),
    refl,
    omega (arith, length-take bs xs),
    concat-cut_last bs (omega arith) (suc n) r m xs (omega arith) e,
  )

  trim_whole : (n : ℕ) → m ≡ n * bs + bs → IsTrimmed bo m xs (pieces bs (suc n) xs)
  unfolding pieces
  trim_whole n e = (
    take bs xs,
    pieces bs n (drop bs xs),
    refl,
    omega (arith, length-take bs xs),
    concat-pieces bs (omega arith) (suc n) m xs (omega arith),
  )

  trimmed :
      (n r : ℕ)
      → m ≡ n * bs + r
      → 0 < r
      → r ≤ bs
      → bo ≤ m
      → IsTrimmed bo m xs (
          if ltb 0 (m % bs) then cut_last (m % bs) (pieces bs (suc n) xs) else pieces bs (suc n) xs)
  trimmed n r e p h k = elim (dec_lt r bs) [
    | yes q ↦
        let c : m % bs ≡ r = rw (e, mul-add-mod_self_right, mod-eq_of_lt, q) refl in
        let t : ltb 0 r ≡ true = ground arith in rw (c, t) (trim_short n r e q k)
    | no q ↦
        let same : r ≡ bs = omega arith in
        let c : m % bs ≡ 0 = rw (e, mul-add-mod_self_right, same, mod_self) refl in
        rw c (trim_whole n (e ∙ ap (λ k. n * bs + k) same))
  ]

-- From the blocks that cover them, `assemble` cuts out the `size` bytes after the first `bo`.
pub assemble-pieces :
    (bs bo size n r : ℕ) (xs : Bytes)
    → bo < bs
    → bo ≤ length xs
    → bo + size ≡ n * bs + r
    → 0 < r
    → r ≤ bs
    → assemble bs bo size (pieces bs (suc n) xs) ≡ ok (take size (drop bo xs))
unfolding assemble
assemble-pieces bs bo size n r xs inside there e p h =
    let (b, rest, split, reach, whole) =
      trimmed bs bo (bo + size) xs inside there n r e p h (omega arith) in
    rw split (
      concat-drop_first bo b rest reach
      ∙ ap ok (ap (drop bo) whole ∙ drop-take_sum bo size (bo + size) xs refl))
