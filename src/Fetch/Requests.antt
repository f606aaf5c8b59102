-- ===== src/Fetch/Requests.antt =====
-- The loop of `Read` over its blocks: it asks for each of them.
use rufs.Base.{
  ℕ, zero, suc, ◌+◌, ◌-◌, ◌*◌, ◌/◌, ◌≤◌, ◌<◌, ◌≡◌, refl, ◌∙◌, ap, subst, List, [], ◌∷◌, Option,
  none, some, true, nat_eq, length, get_elem?, ok, ◌>>=◌, arith,
}
use native.Mathlib.Nat.{div-add-mod', mod-lt, mul-div_left}
use native.Mathlib.Decide.{dec_lt}
use rufs.Fetch.{Bytes, Chan, idle, running, closed, Handle, fetch}
use rufs.Fetch.Read.{request, block_offsets}
use rufs.Fetch.Steady.{
  get_elem?-set, is_asked, IsCell, IsSteady, IsKept, fetch-IsKept, IsKept-refl, IsKept-trans,
}

pub get_elem?-there {ℓ} :
    {A : Type ℓ} (xs : List A) (i : ℕ) → i < length xs → (x : A) × (get_elem? xs i ≡ some x)
get_elem?-there [] i l = absurd (omega arith)
get_elem?-there (x ∷ xs) zero l = (x, refl)
get_elem?-there (x ∷ xs) (suc i) l = get_elem?-there xs i (omega arith)

module _ (bs : ℕ) (content : Bytes) (positive : 0 < bs) where
  pub cell_there :
      (b : ℕ) (xs : List (Option Bytes)) (a : Option Chan)
      → b < length xs
      → IsCell bs content b (get_elem? xs b) a
      → (x : Option Bytes) × (c : Chan) × (get_elem? xs b ≡ some x) × (a ≡ some c)
  cell_there b xs a l h = there (get_elem? xs b) a h (get_elem?-there xs b l)
    where
      there :
          (o : Option (Option Bytes)) (a : Option Chan)
          → IsCell bs content b o a
          → (x : Option Bytes) × (o ≡ some x)
          → (x : Option Bytes) × (c : Chan) × (o ≡ some x) × (a ≡ some c)
      there (some x) (some c) h e = (x, c, refl, refl)
      there (some x) none h e = absurd h
      there none a h (x, e) = cc

  -- What the loop does for one block.
  abbrev pub started : ℕ → Chan → Handle → Handle
  started b c h = elim c [ idle ↦ fetch b h | running ↦ h | closed ↦ h ]

  pub started-IsKept :
      (k b : ℕ) (c : Chan) (h : Handle)
      → IsSteady bs content h
      → get_elem? h.cache b ≡ some none
      → get_elem? h.active b ≡ some c
      → IsKept bs content k h (started b c h) × (is_asked b (started b c h) ≡ true)
  unfolding fetch
  started-IsKept k b idle h s x a = (
    fetch-IsKept bs content k b h s,
    let same : nat_eq b b ≡ true = ground arith in rw (get_elem?-set, same, x, a) refl,
  )
  started-IsKept k b running h s x a = (IsKept-refl bs content k h s, rw (x, a) refl)
  started-IsKept k b closed h s x a = (IsKept-refl bs content k h s, rw (x, a) refl)

  -- The loop over `n` blocks from block `b` on.
  abbrev pub IsRequested : ℕ → ℕ → ℕ → Handle → Type 0
  IsRequested k b n h =
      (h' : Handle) × (waits : List ℕ) × (request bs (block_offsets bs b n) h ≡ ok (h', waits))
      × IsKept bs content k h h'
      × ((j : ℕ) → b ≤ j → j < b + n → is_asked j h' ≡ true)

  from_first :
      (b n : ℕ) (h : Handle)
      → is_asked b h ≡ true
      → ((j : ℕ) → b + 1 ≤ j → j < b + 1 + n → is_asked j h ≡ true)
      → (j : ℕ) → b ≤ j
      → j < b + suc n
      → is_asked j h ≡ true
  from_first b n h first rest j p q = elim (dec_lt b j) [
    | yes l ↦ rest j (omega arith) (omega arith)
    | no l ↦ let same : b ≡ j = omega arith in subst (λ i. is_asked i h ≡ true) same first
  ]

  pub request_step :
      (n b : ℕ) (c : Chan) (h : Handle)
      → get_elem? h.cache b ≡ some none
      → get_elem? h.active b ≡ some c
      → request bs (block_offsets bs b (suc n)) h
        ≡ (request bs (block_offsets bs (b + 1) n) (started b c h) >>= λ p. ok (p.0, b ∷ p.1))
  unfolding request block_offsets
  request_step n b idle h e a = let m = mul-div_left b positive in rw (request, m, e, m, a, m) refl
  request_step n b running h e a =
      let m = mul-div_left b positive in rw (request, m, e, m, a, m) refl
  request_step n b closed h e a =
      let m = mul-div_left b positive in rw (request, m, e, m, a, m) refl

  request_one :
      (k n b : ℕ) (h : Handle) (x : Option Bytes) (c : Chan)
      → IsSteady bs content h
      → k ≤ b
      → get_elem? h.cache b ≡ some x
      → get_elem? h.active b ≡ some c
      → ((h₁ : Handle) → IsSteady bs content h₁ → IsRequested k (b + 1) n h₁)
      → IsRequested k b (suc n) h
  unfolding request block_offsets
  request_one k n b h (some buf) c s l e a go =
      let (h', waits, run, kept, rest) = go h s in
      (
        h',
        waits,
        rw (request, mul-div_left b positive, e) run,
        kept,
        from_first b n h' (kept.asked_on b l (rw (e, a) refl)) rest,
      )
  request_one k n b h none c s l e a go =
      let (kept₁, now) = started-IsKept k b c h s e a in
      let (h', waits, run, kept, rest) = go (started b c h) kept₁.steady in
      (
        h',
        b ∷ waits,
        request_step n b c h e a ∙ rw run refl,
        IsKept-trans bs content k h (started b c h) h' kept₁ kept,
        from_first b n h' (kept.asked_on b l now) rest,
      )

  pub request-IsRequested :
      (k n b : ℕ) (h : Handle)
      → IsSteady bs content h
      → k ≤ b
      → b + n ≤ length content / bs + 1
      → IsRequested k b n h
  unfolding request block_offsets
  request-IsRequested k zero b h s l r = (
    h,
    [],
    refl,
    IsKept-refl bs content k h s,
    λ j p q. absurd (let z : j < b = omega arith in omega arith),
  )
  request-IsRequested k (suc n) b h s l r =
      let inside : b < length h.cache = rw (s.extent, s.sized) (omega arith) in
      let (x, c, e, a) = cell_there b h.cache (get_elem? h.active b) inside (s.cells b) in
      request_one k n b h x c s l e a
        (λ h₁ t. request-IsRequested k n (b + 1) h₁ t (omega arith) (omega arith))

  -- A block that begins inside the file has its place.
  pub has_place : (b : ℕ) → b * bs < length content → b < length content / bs + 1
  has_place b l = elim (dec_lt b (length content / bs + 1)) [
    | yes k ↦ k
    | no k ↦
        let q = length content / bs in
        let d = b - (q + 1) in
        let e : b ≡ q + 1 + d = omega arith in
        let z : b * bs ≡ (q + 1 + d) * bs = ap (λ t. t * bs) e in
        absurd (omega (arith, div-add-mod' (length content) bs, mod-lt (length content) positive))
  ]
