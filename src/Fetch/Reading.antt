-- ===== src/Fetch/Reading.antt =====
-- A whole read: every block that it needs is asked for, and once the fetches have ended it is cached.
use rufs.Base.{
  ℕ, suc, ◌∙◌, ◌+◌, ◌-◌, ◌*◌, ◌/◌, ◌≤◌, ◌<◌, ◌≡◌, refl, sym, ap, subst, List, true, false, leb,
  length, take, drop, get_elem?, Result, ok, arith,
}
use native.Mathlib.Nat.{div-add-mod', mul-div_left}
use rufs.Fetch.{Bytes, Fetcher, Handle}
use rufs.Fetch.Read.{
  request, block_offsets, block_count, purge, prefetch, begin_read, settle, finish_read, read,
  last_or,
}
use rufs.Fetch.Blocks.{block, block_count_lem, div_exact, IsCovered, finish_read-content}
use rufs.Fetch.Requests.{request-IsRequested, has_place}
use rufs.Fetch.Settling.{settle-IsKept, cached, IsSteady-IsCaching}
use rufs.Fetch.Steady.{is_asked, IsSteady, IsKept, purge-IsKept, prefetch-IsKept}

begins_inside : (bs b c len : ℕ) → b ≤ c → c * bs < len → b * bs < len
begins_inside bs b c len l h =
    let d = c - b in
    let e : c ≡ b + d = omega arith in
    let z : c * bs ≡ (b + d) * bs = ap (λ t. t * bs) e in omega arith

-- The first part of a read, from what its loop over the blocks gives.
pub begin_read-ok :
    (f : Fetcher) (offset size n : ℕ) (h h₁ : Handle) (waits : List ℕ)
    → block_count f.block_size offset size ≡ suc n
    → request f.block_size (block_offsets f.block_size (offset / f.block_size) (suc n)) h
      ≡ ok (h₁, waits)
    → (next : ℕ) × (begin_read f offset size h
        ≡ ok (
          prefetch f.block_size next f.prefetch_blocks
              (purge f.block_size (offset / f.block_size * f.block_size) h₁),
          block_offsets f.block_size (offset / f.block_size) (suc n),
          waits,
        ))
unfolding begin_read block_offsets
begin_read-ok f offset size n h h₁ waits count run =
    let bs = f.block_size in
    let k = offset / bs in
    (last_or (k * bs) (block_offsets bs (k + 1) n) / bs + 1, rw (begin_read, count, run) refl)

module _ (f : Fetcher) (content : Bytes) (answer : ℕ → Result Bytes)
    (positive : 0 < f.block_size) where
  -- The rest of a read whose blocks were asked for: they begin inside the file.
  finished :
      (offset size n next : ℕ) (h₁ : Handle)
      → 0 < size
      → offset < length content
      → block_count f.block_size offset size ≡ suc n
      → (offset / f.block_size + n) * f.block_size < length content
      → ((b : ℕ) → answer b ≡ ok (block f.block_size content b))
      → IsSteady f.block_size content h₁
      → ((j : ℕ)
          → offset / f.block_size ≤ j
          → j < offset / f.block_size + suc n
          → is_asked j h₁ ≡ true)
      → let h₃ =
          prefetch f.block_size next f.prefetch_blocks
            (purge f.block_size (offset / f.block_size * f.block_size) h₁) in
        let h₄ = settle answer 0 h₃.active h₃ in
        (finish_read f.block_size offset size
            (block_offsets f.block_size (offset / f.block_size) (suc n))
            h₄
          ≡ ok (take size (drop offset content)))
        × IsSteady f.block_size content h₄
  finished offset size n next h₁ q inside count reaches right s asked₁ =
      let bs = f.block_size in
      let k = offset / bs in
      let h₂ = purge bs (k * bs) h₁ in
      let h₃ = prefetch bs next f.prefetch_blocks h₂ in
      let h₄ = settle answer 0 h₃.active h₃ in
      let kept₂ =
        subst (λ i. IsKept bs content i h₁ h₂) (mul-div_left k positive)
          (purge-IsKept bs content (k * bs) h₁ s) in
      let kept₃ = prefetch-IsKept bs content k next f.prefetch_blocks h₂ kept₂.steady in
      let (kept₄, end) =
        settle-IsKept bs content positive answer right h₃.active 0 h₃ kept₃.steady
          (λ j. ap (get_elem? h₃.active) (let z : 0 + j ≡ j = omega arith in z))
          (λ j l. absurd (omega arith)) in
      let covered : IsCovered k (suc n) h₄ = λ b l u.
        cached bs content positive b (get_elem? h₄.cache b) (get_elem? h₄.active b)
          (kept₄.steady.cells b)
          (kept₄.asked_on b (omega arith) (kept₃.asked_on b l (kept₂.asked_on b l (asked₁ b l u))))
          (end b) (begins_inside bs b (k + n) (length content) (omega arith) reaches) in
      let done =
        finish_read-content bs content h₄ offset size positive q inside
          (IsSteady-IsCaching bs content positive h₄ kept₄.steady)
          (subst (λ t. IsCovered k t h₄) (sym count) covered) in
      (
        subst
            (λ t.
              finish_read bs offset size (block_offsets bs k t) h₄
              ≡ ok (take size (drop offset content)))
            count done,
        kept₄.steady,
      )

-- A read that begins inside the file and asks for no block behind its end returns the bytes from the
-- offset on, as many as were asked for and are there, and leaves the handle steady.
pub read-slice :
    (f : Fetcher) (content : Bytes) (answer : ℕ → Result Bytes) (offset size : ℕ) (h : Handle)
    → 0 < f.block_size
    → 0 < size
    → offset < length content
    → (offset + size - 1) / f.block_size * f.block_size < length content
    → ((b : ℕ) → answer b ≡ ok (block f.block_size content b))
    → IsSteady f.block_size content h
    → (h' : Handle) × (read f answer offset size h ≡ ok (h', ok (take size (drop offset content))))
      × IsSteady f.block_size content h'
unfolding read
read-slice f content answer offset size h p q inside last right s =
    let bs = f.block_size in
    let k = offset / bs in
    let left = div-add-mod' offset bs in
    let (n, r, count, e, low, high) = block_count_lem bs offset size p q in
    let quotient : (offset + size - 1) / bs ≡ k + n =
      ap (λ t. t / bs)
        (let z : offset + size - 1 ≡ (k + n) * bs + (r - 1) = omega (arith, left) in z)
      ∙ div_exact bs (k + n) (r - 1) (omega arith) in
    let reaches : (k + n) * bs < length content = rw (← quotient) last in
    let (h₁, waits, run, kept₁, asked₁) =
      request-IsRequested bs content p k (suc n) k h s (omega arith)
        (omega (arith, has_place bs content p (k + n) reaches)) in
    let (next, begun) = begin_read-ok f offset size n h h₁ waits count run in
    let (done, steady) =
      finished f content answer p offset size n next h₁ q inside count reaches right kept₁.steady
        asked₁ in
    let small : leb h.size offset ≡ false = rw s.sized (ground arith) in
    (_, rw (read, small, begun, done) refl, steady)

-- A read of one or more bytes that lies inside the file, on a steady handle with nothing else at
-- work on it and owners that answer with the blocks of the file, returns exactly the bytes that
-- were asked for, and leaves the handle steady.
pub read-content :
    (f : Fetcher) (content : Bytes) (answer : ℕ → Result Bytes) (offset size : ℕ) (h : Handle)
    → 0 < f.block_size
    → 0 < size
    → offset + size ≤ length content
    → ((b : ℕ) → answer b ≡ ok (block f.block_size content b))
    → IsSteady f.block_size content h
    → (h' : Handle) × (read f answer offset size h ≡ ok (h', ok (take size (drop offset content))))
      × IsSteady f.block_size content h'
read-content f content answer offset size h p q inside right s =
    read-slice f content answer offset size h p q (omega arith)
      (omega (arith, div-add-mod' (offset + size - 1) f.block_size)) right s
