-- ===== src/Fetch/Blocks.antt =====
-- Which blocks a read asks for, and what the end of a read makes of them once they are cached.
use rufs.Base.{
  ℕ, zero, suc, ◌+◌, ◌-◌, ◌*◌, ◌/◌, ◌%◌, ◌≤◌, ◌<◌, ◌≡◌, refl, sym, ap, ◌∙◌, subst, some, length,
  take, drop, get_elem?, ok, arith,
}
use native.Mathlib.Nat.{div-add-mod', mod-lt, mul-div_left, mul-add-div_right, div-eq_of_lt}
use rufs.Fetch.{Bytes, Handle}
use rufs.Fetch.Read.{block_offsets, block_count, gather, finish_read}
use rufs.Fetch.Slices.{drop_sum, length-drop}
use rufs.Fetch.Assemble.{pieces, assemble-pieces}

-- Block `b` of a file.
abbrev pub block : ℕ → Bytes → ℕ → Bytes
block bs content b = take bs (drop (b * bs) content)

-- What is cached is the block of the file.
abbrev pub IsCaching : ℕ → Bytes → Handle → Type 0
IsCaching bs content h =
    (b : ℕ) (buf : Bytes) → get_elem? h.cache b ≡ some (some buf) → buf ≡ block bs content b

-- The `n` blocks from `k` on are cached.
abbrev pub IsCovered : ℕ → ℕ → Handle → Type 0
IsCovered k n h =
    (b : ℕ) → k ≤ b → b < k + n → (buf : Bytes) × (get_elem? h.cache b ≡ some (some buf))

pub div_exact : (bs q t : ℕ) → t < bs → (q * bs + t) / bs ≡ q
div_exact bs q t h =
    rw (mul-add-div_right, div-eq_of_lt, h, (let z : 0 < bs = omega arith in z)) (omega arith)

-- The number of blocks, and how far the read reaches into the last one.
pub block_count_lem :
    (bs offset size : ℕ)
    → 0 < bs
    → 0 < size
    → (n : ℕ) × (r : ℕ) × (block_count bs offset size ≡ suc n)
      × (offset - offset / bs * bs + size ≡ n * bs + r)
      × (0 < r)
      × (r ≤ bs)
block_count_lem bs offset size p s =
    let k = offset / bs in
    let m = offset - k * bs + size - 1 in
    let total : offset + size + bs - 1 ≡ (k + m / bs + 1) * bs + m % bs =
      omega (arith, div-add-mod' offset bs, div-add-mod' m bs) in
    let quotient : (offset + size + bs - 1) / bs ≡ k + m / bs + 1 =
      ap (λ t. t / bs) total ∙ div_exact bs (k + m / bs + 1) (m % bs) (mod-lt m p) in
    (
      m / bs,
      m % bs + 1,
      omega (arith, quotient),
      omega (arith, div-add-mod' offset bs, div-add-mod' m bs),
      omega arith,
      omega (arith, mod-lt m p),
    )

gather-pieces :
    (bs : ℕ) (content : Bytes) (h : Handle) (k n : ℕ)
    → 0 < bs
    → IsCaching bs content h
    → IsCovered k n h
    → gather bs (block_offsets bs k n) h ≡ ok (some (pieces bs n (drop (k * bs) content)))
unfolding gather block_offsets pieces
gather-pieces bs content h k zero p c v = refl
gather-pieces bs content h k (suc n) p c v =
    let (buf, e) = v k (omega arith) (omega arith) in
    let rest =
      gather-pieces bs content h (k + 1) n p c (λ b l u. v b (omega arith) (omega arith)) in
    rw
      (
        mul-div_left k p,
        e,
        gather,
        rest,
        c k buf e,
        sym (drop_sum (k * bs) bs ((k + 1) * bs) content (omega arith)),
      )
      refl

-- The end of a read whose blocks are cached returns exactly the bytes of the file from the offset
-- on, as many as were asked for and are there.
pub finish_read-content :
    (bs : ℕ) (content : Bytes) (h : Handle) (offset size : ℕ)
    → 0 < bs
    → 0 < size
    → offset < length content
    → IsCaching bs content h
    → IsCovered (offset / bs) (block_count bs offset size) h
    → finish_read bs offset size (block_offsets bs (offset / bs) (block_count bs offset size)) h
      ≡ ok (take size (drop offset content))
unfolding finish_read block_offsets
finish_read-content bs content h offset size p s inside c v =
    let (n, r, count, e, low, high) = block_count_lem bs offset size p s in
    let k = offset / bs in
    let whole = gather-pieces bs content h k (suc n) p c (subst (λ t. IsCovered k t h) count v) in
    let left = div-add-mod' offset bs in
    let cut =
      assemble-pieces bs (offset - k * bs) size n r (drop (k * bs) content)
        (omega (arith, left, mod-lt offset p)) (omega (arith, length-drop (k * bs) content)) e low
        high in
    let result =
      cut
      ∙ ap ok (
          ap (take size)
            (sym (drop_sum (k * bs) (offset - k * bs) offset content (omega (arith, left))))) in
    subst
      (λ t.
        finish_read bs offset size (block_offsets bs k t) h ≡ ok (take size (drop offset content)))
      (sym count) (rw (finish_read, whole) result)
