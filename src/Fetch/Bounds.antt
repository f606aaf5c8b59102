-- ===== src/Fetch/Bounds.antt =====
-- Where `Read` indexes behind the end of its cache.
use rufs.Base.{
  ℕ, zero, suc, ◌+◌, ◌-◌, ◌*◌, ◌/◌, ◌≤◌, ◌<◌, ◌≡◌, ◌↔◌, refl, ◌∙◌, ap, List, [], ◌∷◌, Option, none,
  some, length, get_elem?, panic, arith,
}
use native.Mathlib.Nat.{div-add-mod', mul-div_left}
use native.Mathlib.Decide.{dec_lt}
use rufs.Fetch.{Bytes, Chan, Fetcher, Handle}
use rufs.Fetch.Read.{request, block_offsets, begin_read}
use rufs.Fetch.Blocks.{block_count_lem, div_exact}
use rufs.Fetch.Steady.{IsSteady}
use rufs.Fetch.Requests.{cell_there, started-IsKept, request_step, request-IsRequested, has_place}
use rufs.Fetch.Reading.{begin_read-ok}

get_elem?-none {ℓ} : {A : Type ℓ} (xs : List A) (i : ℕ) → length xs ≤ i → get_elem? xs i ≡ none
get_elem?-none [] i l = refl
get_elem?-none (x ∷ xs) zero l = absurd (omega arith)
get_elem?-none (x ∷ xs) (suc i) l = get_elem?-none xs i (omega arith)

module _ (bs : ℕ) (content : Bytes) (positive : 0 < bs) where
  one_more :
      (n b : ℕ) (x : Option Bytes) (c : Chan) (h : Handle)
      → IsSteady bs content h
      → get_elem? h.cache b ≡ some x
      → get_elem? h.active b ≡ some c
      → ((h₁ : Handle)
          → IsSteady bs content h₁
          → request bs (block_offsets bs (b + 1) n) h₁ ≡ panic)
      → request bs (block_offsets bs b (suc n)) h ≡ panic
  unfolding request block_offsets
  one_more n b (some buf) c h s e a rest = rw (mul-div_left b positive, e, request) (rest h s)
  one_more n b none c h s e a rest =
      let (kept, now) = started-IsKept bs content positive b b c h s e a in
      request_step bs content positive n b c h e a ∙ rw (rest _ kept.steady) refl

  -- The loop over blocks of which the last has no place.
  request_panics :
      (n b : ℕ) (h : Handle)
      → IsSteady bs content h
      → length content / bs + 1 < b + n
      → b ≤ length content / bs + 1
      → request bs (block_offsets bs b n) h ≡ panic
  unfolding request block_offsets
  request_panics zero b h s l u = absurd (omega arith)
  request_panics (suc n) b h s l u =
      let places : length h.cache ≡ length content / bs + 1 = rw s.extent (rw s.sized refl) in
      elim (dec_lt b (length h.cache)) [
        | no d ↦
            let behind : length h.cache ≤ b = omega arith in
            rw (mul-div_left b positive, get_elem?-none, behind, request) refl
        | yes d ↦
            let (x, c, e, a) =
              cell_there bs content positive b h.cache (get_elem? h.active b) d (s.cells b) in
            one_more n b x c h s e a
              (λ h₁ t. request_panics n (b + 1) h₁ t (omega arith) (omega arith))
      ]

-- A read of one or more bytes that begins inside the file, on a steady handle: its first part,
-- which indexes the cache by the blocks of the read, panics exactly where the block of the last
-- byte that it asks for comes behind the block in which the file ends.
pub begin_read-panic_iff :
    (f : Fetcher) (content : Bytes) (offset size : ℕ) (h : Handle)
    → 0 < f.block_size
    → 0 < size
    → offset < length content
    → IsSteady f.block_size content h
    → (begin_read f offset size h ≡ panic)
      ↔ (length content / f.block_size < (offset + size - 1) / f.block_size)
unfolding begin_read
begin_read-panic_iff f content offset size h p q inside s =
    let bs = f.block_size in
    let k = offset / bs in
    let left = div-add-mod' offset bs in
    let (n, r, count, e, low, high) = block_count_lem bs offset size p q in
    let last : (offset + size - 1) / bs ≡ k + n =
      ap (λ t. t / bs)
        (let z : offset + size - 1 ≡ (k + n) * bs + (r - 1) = omega (arith, left) in z)
      ∙ div_exact bs (k + n) (r - 1) (omega arith) in
    let first : k ≤ length content / bs =
      omega (arith, has_place bs content p k (omega (arith, left))) in
    (
      λ out. elim (dec_lt (length content / bs) (k + n)) [
        | yes l ↦ rw last l
        | no l ↦
            let (h₁, waits, run, kept₁, asked₁) =
              request-IsRequested bs content p k (suc n) k h s (omega arith) (omega arith) in
            let (next, begun) = begin_read-ok f offset size n h h₁ waits count run in
            absurd (cc (out, begun))
      ],
      λ l.
          rw
            (
              begin_read,
              count,
              request_panics bs content p (suc n) k h s (omega (arith, last)) (omega arith),
            )
            refl,
    )
