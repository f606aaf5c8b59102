-- ===== src/Fetch/Overlap/Outcomes.antt =====
-- Whatever reads of a handle overlap, and in whatever order: what each of them returns, and what
-- it waits for.
use rufs.Base.{
  ℕ, zero, suc, ◌+◌, ◌/◌, ◌<◌, ◌≤◌, ◌≡◌, ◌∙◌, refl, ap, subst, List, [], ◌∷◌, Option, none, some,
  Bool, true, ◌⊎◌, inr, length, take, drop, map, nat_eq, get_elem?, All, All-imp, All-map,
  All-append, All-set, All-get, replicate, Error, Result, ok, err, Str, arith,
}
use mathlib.Core.Option.{some-injective}
use rufs.Fetch.{Bytes, Chan, idle, running, closed, Fetcher, Handle, fetched, new_handle}
use rufs.Fetch.Blocks.{block}
use rufs.Fetch.Opening.{new_handle_blank}
use rufs.Fetch.Overlap.{
  Progress, waiting, returned, Call, System, is_running, without, woken, wake, land, return_call,
  Step, begins, lands, fails, ends, cancels, Reach, here, later, opened,
}
use rufs.Fetch.Overlap.Cells.{IsSoundCell, IsSound}
use rufs.Fetch.Overlap.Starting.{IsOutcome, begin_read-IsBegun, finish_read-IsOutcome}
use rufs.Fetch.Overlap.Calls.{
  IsGoodAt, IsGood, advance-IsGoodAt, running_open, IsLanding, land-IsLanding, fail-IsLanding,
  wake-IsGood,
}

empty_cell :
    (bs : ℕ) (content : Bytes) (n b i : ℕ)
    → IsSoundCell bs content b (get_elem? (replicate n none) i) (get_elem? (replicate n idle) i)
empty_cell bs content zero b i = tt
empty_cell bs content (suc n) b zero = tt
empty_cell bs content (suc n) b (suc i) = empty_cell bs content n b i

running_is : (a : Option Chan) → is_running a ≡ true → a ≡ some running
running_is none e = cc
running_is (some idle) e = cc
running_is (some running) e = refl
running_is (some closed) e = cc

length-without : (b : ℕ) (ws : List ℕ) → length (without b ws) ≤ length ws
unfolding without
length-without b [] = omega arith
length-without b (w ∷ ws) = ground (arith, length-without b ws)

get_elem?-map {ℓ} :
    {A B : Type ℓ} (g : A → B) (xs : List A) (i : ℕ) (x : A)
    → get_elem? xs i ≡ some x
    → get_elem? (map g xs) i ≡ some (g x)
get_elem?-map g [] i x e = cc
get_elem?-map g (y ∷ xs) zero x e = ap (λ z. some (g z)) (some-injective _ _ e)
get_elem?-map g (y ∷ xs) (suc i) x e = get_elem?-map g xs i x e

reach_first :
    {f : Fetcher} {content : Bytes} {s t u : System}
    → Step f content s t
    → Reach f content t u
    → Reach f content s u
reach_first st here = later here st
reach_first st (later r next) = later (reach_first st r) next

module _ (f : Fetcher) (content : Bytes) (positive : 0 < f.block_size) where
  abbrev IsFair : System → Type 0
  IsFair s =
      IsSound f.block_size content s.handle
      × All (IsGood f.block_size content positive s.handle) s.calls

  landed :
      (b : ℕ) (r : Result Bytes) (s : System)
      → IsLanding f.block_size content positive b s.handle (fetched b r s.handle)
      → IsFair s
      → IsFair (land b r s)
  unfolding land
  landed b r s l h = (
    l.0,
    All-map _ _ (wake b) (λ c g. wake-IsGood f.block_size content positive b s.handle _ c l g)
        s.calls h.1,
  )

  came_back :
      (i : ℕ) (c : Call) (p : Progress) (r : Result Bytes) (s : System)
      → get_elem? s.calls i ≡ some c
      → c.progress ≡ p
      → (IsGoodAt f.block_size content positive s.handle c.offset c.size p
          → c.offset < length content
          → 0 < c.size
          → IsOutcome f.block_size content positive c.offset c.size r)
      → IsFair s
      → IsFair (return_call i c r s)
  came_back i c p r s at e out h =
      let (l, g) = All-get _ s.calls i c h.1 at in
      let good = subst (IsGoodAt f.block_size content positive s.handle c.offset c.size) e g in
      (h.0, All-set _ s.calls i _ h.1 (l, λ q. out good l q))

  Step-IsFair : (s t : System) → Step f content s t → IsFair s → IsFair t
  Step-IsFair s t (begins offset size {h = h'} {blocks} {waits} inside run) (sound, good) =
      let (a, e, there) =
        begin_read-IsBegun f content offset size s.handle h' blocks waits positive sound run in
      let low : offset < length content = rw (← sound.sized) (ground arith) in
      (
        a.sound,
        All-append _ s.calls _
            (All-imp _ _
              (λ c g. (
                g.0,
                advance-IsGoodAt f.block_size content positive s.handle h' c.offset c.size
                    c.progress a g.1,
              ))
              s.calls good)
            (
              (
                low,
                (
                  e,
                  (λ j l u. omega (arith, there j l u, a.extent)),
                  running_open f.block_size content positive h' waits,
                ),
              ),
              tt,
            ),
      )
  Step-IsFair s t (lands b run) h =
      landed b _ s (land-IsLanding f.block_size content positive b s.handle h.0) h
  Step-IsFair s t (fails b e run) h =
      landed b _ s (fail-IsLanding f.block_size content positive b e s.handle h.0) h
  Step-IsFair s t (ends i {c} {blocks} at e) h =
      came_back i c (waiting blocks []) _ s at e
        (λ g l q.
          finish_read-IsOutcome f.block_size content positive s.handle c.offset c.size blocks h.0 q
            l g.0 g.1)
        h
  Step-IsFair s t (cancels i {c} {blocks} {ws} at e) h =
      came_back i c (waiting blocks ws) _ s at e (λ g l q. inr (inr (_, refl))) h

  reach-IsFair : (s t : System) → IsFair s → Reach f content s t → IsFair t
  reach-IsFair s t h here = h
  reach-IsFair s t h (later {t = m} r st) = Step-IsFair m t st (reach-IsFair s m h r)

  from_opened :
      (connects : Str → Str → Bool) (hash : Str) (peers : List Str) (g : Fetcher) (h : Handle)
      → new_handle connects hash (length content) peers g ≡ ok (f, ok h)
      → IsFair (opened h)
  from_opened connects hash peers g h made =
      let (same, e) = new_handle_blank connects hash (length content) peers g f h made in
      (
        subst (IsSound f.block_size content) e (record {
          sized = refl;
          cells = λ b. empty_cell f.block_size content (length content / g.block_size + 1) b b;
        }),
        tt,
      )

  -- The goroutines that a call waits for come to their end, one after the other.
  comes_free :
      (n : ℕ) (s : System) (i : ℕ) (c : Call) (blocks ws : List ℕ)
      → IsFair s
      → get_elem? s.calls i ≡ some c
      → c.progress ≡ waiting blocks ws
      → length ws ≤ n
      → (t : System) × Reach f content s t
        × (get_elem? t.calls i ≡ some (record c { progress = waiting blocks [] }))
  unfolding land wake without
  comes_free n s i c blocks [] h at e l =
      (s, here, at ∙ ap (λ p. some (record c { progress = p })) e)
  comes_free zero s i c blocks (w ∷ ws) h at e l = absurd (omega arith)
  comes_free (suc n) s i c blocks (w ∷ ws) h at e l =
      let same : nat_eq w w ≡ true = ground arith in
      let (q, g) = All-get _ s.calls i c h.1 at in
      let good = subst (IsGoodAt f.block_size content positive s.handle c.offset c.size) e g in
      let step = lands w (running_is _ good.2.0) in
      let woke : woken w c.progress ≡ waiting blocks (without w ws) = rw (e, same) refl in
      let (t, reach, there) =
        comes_free n (land w (ok (block f.block_size content w)) s) i (wake w c) blocks
          (without w ws) (Step-IsFair s _ step h) (get_elem?-map (wake w) s.calls i c at) woke
          (omega (arith, length-without w ws)) in
      (t, reach_first step reach, there)

-- Calls of `Read` on a handle that `NewHandle` has opened with the length of the file as its size,
-- with owners that answer with the blocks of the file or with errors: in whatever order the calls
-- begin, their blocks arrive, other calls purge blocks, and contexts end, a call for one or more
-- bytes that has returned has exactly the bytes from its offset on, as many as were asked for and
-- are there, or no data and no error, or an error. It never has other bytes, and does not panic
-- after its wait.
pub overlapping_reads :
    (f g : Fetcher) (content : Bytes) (connects : Str → Str → Bool) (hash : Str) (peers : List Str)
    (h : Handle) (s : System) (i : ℕ) (c : Call) (r : Result Bytes)
    → 0 < f.block_size
    → new_handle connects hash (length content) peers g ≡ ok (f, ok h)
    → Reach f content (opened h) s
    → get_elem? s.calls i ≡ some c
    → c.progress ≡ returned r
    → 0 < c.size
    → (r ≡ ok (take c.size (drop c.offset content))) ⊎ ((r ≡ ok []) ⊎ ((e : Error) × (r ≡ err e)))
overlapping_reads f g content connects hash peers h s i c r p made reach at e q =
    let fair = from_opened f content p connects hash peers g h made in
    let (l, good) = All-get _ s.calls i c (reach-IsFair f content p (opened h) s fair reach).1 at in
    subst (IsGoodAt f.block_size content p s.handle c.offset c.size) e good q

-- No call of `Read` is stuck: whatever calls overlap on a handle that `NewHandle` has opened with
-- the length of the file as its size, from every state on the goroutines that a waiting call waits
-- for can come to their end one after the other, and it then waits for nothing, with the blocks
-- that it began with.
pub overlapping_reads_go_on :
    (f g : Fetcher) (content : Bytes) (connects : Str → Str → Bool) (hash : Str) (peers : List Str)
    (h : Handle) (s : System) (i : ℕ) (c : Call) (blocks ws : List ℕ)
    → 0 < f.block_size
    → new_handle connects hash (length content) peers g ≡ ok (f, ok h)
    → Reach f content (opened h) s
    → get_elem? s.calls i ≡ some c
    → c.progress ≡ waiting blocks ws
    → (t : System) × Reach f content s t
      × (get_elem? t.calls i ≡ some (record c { progress = waiting blocks [] }))
overlapping_reads_go_on f g content connects hash peers h s i c blocks ws p made reach at e =
    let fair = from_opened f content p connects hash peers g h made in
    comes_free f content p (length ws) s i c blocks ws
      (reach-IsFair f content p (opened h) s fair reach) at e (omega arith)
