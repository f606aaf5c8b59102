-- ===== src/Fetch/Overlap/Starting.antt =====
-- The two locked parts of a read that overlaps with others: what its start makes of a sound
-- handle, and how its end comes out.
use rufs.Base.{
  ℕ, zero, suc, ◌+◌, ◌/◌, ◌≤◌, ◌<◌, ◌≡◌, refl, sym, ◌∙◌, ap, subst, List, [], ◌∷◌, Option, none,
  some, Option-cases, ◌⊎◌, inl, inr, length, take, drop, get_elem?, Error, Result, ok, err, panic,
  >>=-eq-ok, ok_injective, arith,
}
use native.Mathlib.Nat.{mul-div_left}
use native.Mathlib.Decide.{dec_lt}
use rufs.Fetch.{Bytes, Chan, idle, running, closed, Fetcher, Handle}
use rufs.Fetch.Read.{
  request, block_offsets, block_count, purge, prefetch, begin_read, gather, finish_read, last_or,
}
use rufs.Fetch.Blocks.{block, IsCaching, IsCovered, finish_read-content}
use rufs.Fetch.Requests.{get_elem?-there, started, request_step}
use rufs.Fetch.Overlap.Cells.{
  IsSoundCell, IsSound, IsAdvance, IsAdvance-refl, IsAdvance-trans, fetch-IsAdvance,
  purge-IsAdvance, prefetch-IsAdvance,
}

some_inside {ℓ} :
    {A : Type ℓ} (xs : List A) (i : ℕ) (x : A) → get_elem? xs i ≡ some x → i < length xs
some_inside [] i x e = cc
some_inside (y ∷ xs) zero x e = omega arith
some_inside (y ∷ xs) (suc i) x e = omega (arith, some_inside xs i x e)

module _ (bs : ℕ) (content : Bytes) (positive : 0 < bs) where
  -- The loop over the blocks went through: it advanced the handle, and had a place for each of them.
  abbrev IsThrough : ℕ → ℕ → Handle → Handle → Type 0
  IsThrough b n h h' =
      IsAdvance bs content h h' × ((j : ℕ) → b ≤ j → j < b + n → j < length h.cache)

  behind :
      (b n : ℕ) (h h₁ h' : Handle)
      → b < length h.cache
      → IsAdvance bs content h h₁
      → IsThrough (b + 1) n h₁ h'
      → IsThrough b (suc n) h h'
  behind b n h h₁ h' here one (rest, inside) = (
    IsAdvance-trans bs content h h₁ h' one rest,
    λ j l u. elim (dec_lt b j) [
      | yes k ↦
          let z : j < length h₁.cache = inside j (omega arith) (omega arith) in
          omega (arith, one.extent)
      | no k ↦ omega arith
    ],
  )

  started-IsAdvance :
      (b : ℕ) (c : Chan) (h : Handle)
      → IsSound bs content h
      → get_elem? h.cache b ≡ some none
      → IsAdvance bs content h (started bs content positive b c h)
  started-IsAdvance b idle h s e = fetch-IsAdvance bs content b h e s
  started-IsAdvance b running h s e = IsAdvance-refl bs content h s
  started-IsAdvance b closed h s e = IsAdvance-refl bs content h s

  request-IsThrough :
      (b n : ℕ) (h h' : Handle) (waits : List ℕ)
      → IsSound bs content h
      → request bs (block_offsets bs b n) h ≡ ok (h', waits)
      → IsThrough b n h h'
  unfolding request block_offsets
  request-IsThrough b zero h h' waits s run =
      let same : h ≡ h' = ap (λ p. p.0) (ok_injective run) in
      subst (IsThrough b 0 h) same (
        IsAdvance-refl bs content h s,
        λ j l u. absurd (let z : j < b = omega arith in omega arith),
      )
  request-IsThrough b (suc n) h h' waits s run = elim (Option-cases (get_elem? h.cache b)) [
    | inl e ↦ let z = rw (block_offsets, request, mul-div_left b positive, e) at run in cc
    | inr (some buf, e) ↦
        let run₁ = rw (block_offsets, request, mul-div_left b positive, e) at run in
        behind b n h h h' (some_inside h.cache b (some buf) e) (IsAdvance-refl bs content h s)
          (request-IsThrough (b + 1) n h h' waits s run₁)
    | inr (none, e) ↦ elim (Option-cases (get_elem? h.active b)) [
      | inl a ↦
          let z =
            rw
              (
                block_offsets,
                request,
                mul-div_left b positive,
                e,
                request,
                mul-div_left b positive,
                a,
              )
              at run in
          cc
      | inr (c, a) ↦
          let h₁ = started bs content positive b c h in
          let one = started-IsAdvance b c h s e in
          let (p, first, rest) =
            >>=-eq-ok (request bs (block_offsets bs (b + 1) n) h₁) _
              (sym (request_step bs content positive n b c h e a) ∙ run) in
          let same : p.0 ≡ h' = ap (λ p. p.0) (ok_injective rest) in
          behind b n h h₁ h' (some_inside h.cache b none e) one (
            subst (IsThrough (b + 1) n h₁) same
              (request-IsThrough (b + 1) n h₁ p.0 p.1 one.sound first))
    ]
  ]

  -- The rest of the first part, once the loop is through.
  rest_of_begin :
      (ahead : ℕ) (os blocks ws waits : List ℕ) (h h' : Handle)
      → IsSound bs content h
      → (elim os as (λ x. Result (Handle × List ℕ × List ℕ)) [
        | [] ↦ panic
        | first ∷ more ↦
            ok
              (prefetch bs (last_or first more / bs + 1) ahead (purge bs first h), first ∷ more, ws)
      ])
        ≡ ok (h', blocks, waits)
      → IsAdvance bs content h h' × (os ≡ blocks)
  rest_of_begin ahead [] blocks ws waits h h' s run = cc
  rest_of_begin ahead (o ∷ os) blocks ws waits h h' s run =
      let same = ok_injective run in
      let one = purge-IsAdvance bs content o h s in
      let next = last_or o os / bs + 1 in
      (
        subst (IsAdvance bs content h) (ap (λ p. p.0) same) (
            IsAdvance-trans bs content h (purge bs o h) _ one
              (prefetch-IsAdvance bs content next ahead (purge bs o h) one.sound)),
        ap (λ p. p.1) same,
      )

  -- What the start of a read that did not panic has made of a sound handle.
  abbrev pub IsBegun : ℕ → ℕ → List ℕ → Handle → Handle → Type 0
  IsBegun offset size blocks h h' =
      IsAdvance bs content h h'
      × (block_offsets bs (offset / bs) (block_count bs offset size) ≡ blocks)
      × ((j : ℕ)
          → offset / bs ≤ j
          → j < offset / bs + block_count bs offset size
          → j < length h.cache)

  -- The blocks of a read that has its places: one is missing, or all are there.
  gather-cases :
      (k n : ℕ) (h : Handle)
      → ((j : ℕ) → k ≤ j → j < k + n → j < length h.cache)
      → IsCovered k n h
        ⊎ ((gather bs (block_offsets bs k n) h ≡ ok none)
            ⊎ ((e : Error) × (gather bs (block_offsets bs k n) h ≡ err e)))
  unfolding gather block_offsets
  gather-cases k zero h r = inl (λ b l u. absurd (let z : b < k = omega arith in omega arith))
  gather-cases k (suc n) h r = elim (Option-cases (get_elem? h.cache k)) [
    | inl e ↦ let (x, there) = get_elem?-there h.cache k (r k (omega arith) (omega arith)) in cc
    | inr (none, e) ↦ elim (Option-cases h.last_err) [
      | inl l ↦ inr (inl (rw (mul-div_left k positive, e, gather, l) refl))
      | inr (x, l) ↦ inr (inr (x, rw (mul-div_left k positive, e, gather, l) refl))
    ]
    | inr (some buf, e) ↦
        elim (gather-cases (k + 1) n h (λ j l u. r j (omega arith) (omega arith))) [
          | inl c ↦ inl (λ j l u. elim (dec_lt k j) [
            | yes d ↦ c j (omega arith) (omega arith)
            | no d ↦
                let same : k ≡ j = omega arith in
                (buf, ap (λ i. get_elem? h.cache i) (sym same) ∙ e)
          ])
          | inr (inl g) ↦ inr (inl (rw (mul-div_left k positive, e, gather, g) refl))
          | inr (inr (x, g)) ↦ inr (inr (x, rw (mul-div_left k positive, e, gather, g) refl))
        ]
  ]

  -- How a read comes out: with exactly the bytes that were asked for and are there, with no data
  -- and no error, or with an error.
  abbrev pub IsOutcome : ℕ → ℕ → Result Bytes → Type 0
  IsOutcome offset size r =
      (r ≡ ok (take size (drop offset content))) ⊎ ((r ≡ ok []) ⊎ ((e : Error) × (r ≡ err e)))

  IsSound-IsCaching : (h : Handle) → IsSound bs content h → IsCaching bs content h
  IsSound-IsCaching h s b buf e =
      right (get_elem? h.active b)
        (subst (λ o. IsSoundCell bs content b o (get_elem? h.active b)) e (s.cells b))
    where
      right :
          (a : Option Chan)
          → IsSoundCell bs content b (some (some buf)) a
          → buf ≡ block bs content b
      right (some closed) c = c
      right (some idle) c = absurd c
      right (some running) c = absurd c
      right none c = absurd c

  -- The end of a read that has its places, on a sound handle.
  pub finish_read-IsOutcome :
      (h : Handle) (offset size : ℕ) (blocks : List ℕ)
      → IsSound bs content h
      → 0 < size
      → offset < length content
      → block_offsets bs (offset / bs) (block_count bs offset size) ≡ blocks
      → ((j : ℕ)
          → offset / bs ≤ j
          → j < offset / bs + block_count bs offset size
          → j < length h.cache)
      → IsOutcome offset size (finish_read bs offset size blocks h)
  unfolding finish_read
  finish_read-IsOutcome h offset size blocks s q inside e r =
      let k = offset / bs in
      let n = block_count bs offset size in
      subst (λ os. IsOutcome offset size (finish_read bs offset size os h)) e
        (elim (gather-cases k n h r) [
          | inl c ↦ inl (
              finish_read-content bs content h offset size positive q inside (IsSound-IsCaching h s)
                c)
          | inr (inl g) ↦ inr (inl (rw (finish_read, g) refl))
          | inr (inr (x, g)) ↦ inr (inr (x, rw (finish_read, g) refl))
        ])

pub begin_read-IsBegun :
    (f : Fetcher) (content : Bytes) (offset size : ℕ) (h h' : Handle) (blocks waits : List ℕ)
    → (p : 0 < f.block_size) → IsSound f.block_size content h
    → begin_read f offset size h ≡ ok (h', blocks, waits)
    → IsBegun f.block_size content p offset size blocks h h'
unfolding begin_read
begin_read-IsBegun f content offset size h h' blocks waits p s run =
    let bs = f.block_size in
    let k = offset / bs in
    let n = block_count bs offset size in
    let (r, first, rest) = >>=-eq-ok (request bs (block_offsets bs k n) h) _ run in
    let (one, there) = request-IsThrough bs content p k n h r.0 r.1 s first in
    let (two, same) =
      rest_of_begin bs content p f.prefetch_blocks (block_offsets bs k n) blocks r.1 waits r.0 h'
        one.sound rest in
    (IsAdvance-trans bs content h r.0 h' one two, same, there)
