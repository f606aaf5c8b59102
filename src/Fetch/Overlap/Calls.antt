-- ===== src/Fetch/Overlap/Calls.antt =====
-- What is known of the calls of `Read` that overlap, and how the end of a goroutine keeps it.
use rufs.Base.{
  ℕ, ◌+◌, ◌/◌, ◌≤◌, ◌<◌, ◌≡◌, refl, sym, subst, List, [], ◌∷◌, Option, none, some, Bool, true,
  false, inl, inr, Bool-cases, nat_eq, length, get_elem?, if◌then◌else◌, All, All-imp, Error, ok,
  err, arith, length-set,
}
use rufs.Fetch.{Bytes, Chan, idle, running, closed, Handle, non_nil, fetched}
use rufs.Fetch.Read.{block_offsets, block_count}
use rufs.Fetch.Blocks.{block}
use rufs.Fetch.Steady.{written, get_elem?-set}
use rufs.Fetch.Overlap.{
  Progress, waiting, returned, Call, is_running, open_waits, without, woken, wake,
}
use rufs.Fetch.Overlap.Cells.{IsSoundCell, IsSound, IsAdvance}
use rufs.Fetch.Overlap.Starting.{IsOutcome}

module _ (bs : ℕ) (content : Bytes) (positive : 0 < bs) where
  -- What is known of a call with an offset and a size: if it waits, its blocks have their places
  -- and the goroutines that it waits for run; if it has returned, it came out as it should.
  abbrev pub IsGoodAt : Handle → ℕ → ℕ → Progress → Type 0
  IsGoodAt h offset size (waiting blocks ws) =
      (block_offsets bs (offset / bs) (block_count bs offset size) ≡ blocks)
      × ((j : ℕ)
          → offset / bs ≤ j
          → j < offset / bs + block_count bs offset size
          → j < length h.cache)
      × All (λ b. is_running (get_elem? h.active b) ≡ true) ws
  IsGoodAt h offset size (returned r) = 0 < size → IsOutcome bs content positive offset size r

  abbrev pub IsGood : Handle → Call → Type 0
  IsGood h c = (c.offset < length content) × IsGoodAt h c.offset c.size c.progress

  pub advance-IsGoodAt :
      (h h' : Handle) (offset size : ℕ) (p : Progress)
      → IsAdvance bs content h h'
      → IsGoodAt h offset size p
      → IsGoodAt h' offset size p
  advance-IsGoodAt h h' offset size (waiting blocks ws) a (e, r, run) =
      (e, λ j l u. omega (arith, r j l u, a.extent), All-imp _ _ a.still_running ws run)
  advance-IsGoodAt h h' offset size (returned r) a g = g

  pub running_open :
      (h : Handle) (ws : List ℕ)
      → All (λ b. is_running (get_elem? h.active b) ≡ true) (open_waits h ws)
  unfolding open_waits
  running_open h [] = tt
  running_open h (b ∷ ws) = elim (Bool-cases (is_running (get_elem? h.active b))) [
    | inl e ↦ rw e (e, running_open h ws)
    | inr e ↦ rw e (running_open h ws)
  ]

  -- The end of a goroutine, seen from one block.
  landing :
      (t : Bool) (b j : ℕ) (x : Option (Option Bytes)) (a : Option Chan)
      → (t ≡ true → b ≡ j)
      → IsSoundCell bs content j x a
      → IsSoundCell bs content j
          (if t then written (non_nil (block bs content b)) x else x)
          (if t then written closed a else a)
  landing false b j x a same h = h
  landing true b j none none same h = tt
  landing true b j none (some c) same h = h
  landing true b j (some x) none same h = absurd h
  landing true b j (some x) (some c) same h =
      subst (λ k. IsSoundCell bs content j (some (non_nil (block bs content k))) (some closed))
        (sym (same refl)) (kept (block bs content j) refl)
    where
      kept :
          (buf : Bytes)
          → buf ≡ block bs content j
          → IsSoundCell bs content j (some (non_nil buf)) (some closed)
      kept [] e = tt
      kept (y ∷ buf) e = e

  failing :
      (t : Bool) (j : ℕ) (x : Option (Option Bytes)) (a : Option Chan)
      → IsSoundCell bs content j x a
      → IsSoundCell bs content j x (if t then written closed a else a)
  failing false j x a h = h
  failing true j none none h = h
  failing true j none (some c) h = h
  failing true j (some x) none h = h
  failing true j (some none) (some c) h = tt
  failing true j (some (some buf)) (some idle) h = absurd h
  failing true j (some (some buf)) (some running) h = absurd h
  failing true j (some (some buf)) (some closed) h = h

  -- What the end of a goroutine for block `b` keeps.
  abbrev pub IsLanding : ℕ → Handle → Handle → Type 0
  IsLanding b h h' =
      IsSound bs content h'
      × (length h'.cache ≡ length h.cache)
      × ((j : ℕ) → nat_eq b j ≡ false → get_elem? h'.active j ≡ get_elem? h.active j)

  pub land-IsLanding :
      (b : ℕ) (h : Handle)
      → IsSound bs content h
      → IsLanding b h (fetched b (ok (block bs content b)) h)
  unfolding fetched
  land-IsLanding b h s = (
    record {
      sized = s.sized;
      cells = λ j.
          rw (get_elem?-set, get_elem?-set)
            (landing (nat_eq b j) b j _ _ (λ t. ground arith) (s.cells j));
    },
    length-set h.cache b (non_nil (block bs content b)),
    λ j e. rw (get_elem?-set, e) refl,
  )

  pub fail-IsLanding :
      (b : ℕ) (e : Error) (h : Handle) → IsSound bs content h → IsLanding b h (fetched b (err e) h)
  unfolding fetched
  fail-IsLanding b e h s = (
    record {
      sized = s.sized;
      cells = λ j. rw get_elem?-set (failing (nat_eq b j) j _ _ (s.cells j));
    },
    refl,
    λ j n. rw (get_elem?-set, n) refl,
  )

  without-running :
      (b : ℕ) (h h' : Handle) (ws : List ℕ)
      → ((j : ℕ) → nat_eq b j ≡ false → get_elem? h'.active j ≡ get_elem? h.active j)
      → All (λ j. is_running (get_elem? h.active j) ≡ true) ws
      → All (λ j. is_running (get_elem? h'.active j) ≡ true) (without b ws)
  unfolding without
  without-running b h h' [] same run = tt
  without-running b h h' (w ∷ ws) same run = elim (Bool-cases (nat_eq b w)) [
    | inl e ↦ rw e (without-running b h h' ws same run.1)
    | inr e ↦ rw e (rw (same w e) run.0, without-running b h h' ws same run.1)
  ]

  pub wake-IsGood :
      (b : ℕ) (h h' : Handle) (c : Call) → IsLanding b h h' → IsGood h c → IsGood h' (wake b c)
  unfolding wake
  wake-IsGood b h h' c (s, e, same) (l, g) = (l, at c.progress g)
    where
      at : (p : Progress) → IsGoodAt h c.offset c.size p → IsGoodAt h' c.offset c.size (woken b p)
      at (waiting blocks ws) (q, r, run) =
          (q, λ j l u. omega (arith, r j l u, e), without-running b h h' ws same run)
      at (returned r) g = g
