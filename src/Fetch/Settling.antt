-- ===== src/Fetch/Settling.antt =====
-- The goroutines of `fetch` come to their end: what was asked for is then cached.
use rufs.Base.{
  ℕ, suc, ◌+◌, ◌-◌, ◌*◌, ◌<◌, ◌≡◌, refl, sym, ◌∙◌, ap, subst, List, [], ◌∷◌, Option, none, some,
  Bool, true, false, nat_eq, length, drop, get_elem?, if◌then◌else◌, Result, ok, arith, length-set,
}
use native.Mathlib.Decide.{dec_lt}
use rufs.Fetch.{Bytes, Chan, idle, running, closed, Handle, non_nil, fetched}
use rufs.Fetch.Read.{settle}
use rufs.Fetch.Blocks.{block, IsCaching}
use rufs.Fetch.Slices.{length-take, length-drop}
use rufs.Fetch.Steady.{
  written, get_elem?-set, asked, IsCell, IsSteady, IsKept, asked_closed, IsKept-refl, IsKept-trans,
}

-- A block whose goroutine does not run.
abbrev pub quiet : Option Chan → Bool
quiet none = true
quiet (some idle) = true
quiet (some running) = false
quiet (some closed) = true

module _ (bs : ℕ) (content : Bytes) (positive : 0 < bs) where
  -- The places up to `b + 1` are quiet, if those up to `b` are.
  up_to :
      (h : Handle) (b : ℕ)
      → quiet (get_elem? h.active b) ≡ true
      → ((j : ℕ) → j < b → quiet (get_elem? h.active j) ≡ true)
      → (j : ℕ) → j < b + 1
      → quiet (get_elem? h.active j) ≡ true
  up_to h b here before j l = elim (dec_lt j b) [
    | yes k ↦ before j k
    | no k ↦
        let same : b ≡ j = omega arith in subst (λ i. quiet (get_elem? h.active i) ≡ true) same here
  ]

  non_nil-IsCell :
      (j : ℕ) (buf : Bytes)
      → buf ≡ block bs content j
      → IsCell bs content j (some (non_nil buf)) (some closed)
  non_nil-IsCell j [] e =
      let none_left : 0 ≡ length (block bs content j) = ap length e in
      omega (arith, length-take bs (drop (j * bs) content), length-drop (j * bs) content)
  non_nil-IsCell j (x ∷ buf) e = e

  IsCell-closed :
      (t : Bool) (i j : ℕ) (x : Option (Option Bytes)) (a : Option Chan)
      → (t ≡ true → i ≡ j)
      → IsCell bs content j x a
      → IsCell bs content j
          (if t then written (non_nil (block bs content i)) x else x)
          (if t then written closed a else a)
  IsCell-closed false i j x a same h = h
  IsCell-closed true i j none none same h = tt
  IsCell-closed true i j none (some c) same h = h
  IsCell-closed true i j (some x) none same h = absurd h
  IsCell-closed true i j (some x) (some c) same h =
      subst (λ k. IsCell bs content j (some (non_nil (block bs content k))) (some closed))
        (sym (same refl)) (non_nil-IsCell j _ refl)

  fetched-IsKept :
      (b : ℕ) (h : Handle)
      → IsSteady bs content h
      → IsKept bs content 0 h (fetched b (ok (block bs content b)) h)
  unfolding fetched
  fetched-IsKept b h s = record {
    steady = record {
      sized = s.sized;
      extent = length-set h.cache b (non_nil (block bs content b)) ∙ s.extent;
      cells = λ j.
          rw (get_elem?-set, get_elem?-set)
            (IsCell-closed (nat_eq b j) b j _ _ (λ e. ground arith) (s.cells j));
    };
    asked_on = λ j l e. rw (get_elem?-set, get_elem?-set) (asked_closed (nat_eq b j) _ _ _ e);
  }

  first_of :
      (h : Handle) (b : ℕ) (c : Chan) (cs : List Chan)
      → ((j : ℕ) → get_elem? h.active (b + j) ≡ get_elem? (c ∷ cs) j)
      → get_elem? h.active b ≡ some c
  first_of h b c cs rest =
      let e : b + 0 ≡ b = omega arith in subst (λ i. get_elem? h.active i ≡ some c) e (rest 0)

  shifted :
      (h : Handle) (b : ℕ) (c : Chan) (cs : List Chan)
      → ((j : ℕ) → get_elem? h.active (b + j) ≡ get_elem? (c ∷ cs) j)
      → (j : ℕ) → get_elem? h.active (b + 1 + j) ≡ get_elem? cs j
  shifted h b c cs rest j =
      let e : b + suc j ≡ b + 1 + j = omega arith in
      subst (λ i. get_elem? h.active i ≡ get_elem? cs j) e (rest (suc j))

  pub settle-IsKept :
      (answer : ℕ → Result Bytes)
      → ((b : ℕ) → answer b ≡ ok (block bs content b))
      → (cs : List Chan) (b : ℕ) (h : Handle) → IsSteady bs content h
      → ((j : ℕ) → get_elem? h.active (b + j) ≡ get_elem? cs j)
      → ((j : ℕ) → j < b → quiet (get_elem? h.active j) ≡ true)
      → IsKept bs content 0 h (settle answer b cs h)
        × ((j : ℕ) → quiet (get_elem? (settle answer b cs h).active j) ≡ true)
  unfolding settle fetched
  settle-IsKept answer right [] b h s rest before = (
    IsKept-refl bs content 0 h s,
    λ j. elim (dec_lt j b) [
      | yes l ↦ before j l
      | no l ↦
          let there : b + (j - b) ≡ j = omega arith in
          subst (λ i. quiet (get_elem? h.active i) ≡ true) there (rw (rest (j - b)) refl)
    ],
  )
  settle-IsKept answer right (idle ∷ cs) b h s rest before =
      settle-IsKept answer right cs (b + 1) h s (λ j. shifted h b idle cs rest j)
        (up_to h b (rw (first_of h b idle cs rest) refl) before)
  settle-IsKept answer right (running ∷ cs) b h s rest before =
      let h₁ = fetched b (ok (block bs content b)) h in
      let kept = fetched-IsKept b h s in
      let here : nat_eq b b ≡ true = ground arith in
      let (kept₂, end) =
        settle-IsKept answer right cs (b + 1) h₁ kept.steady
          (λ j.
            let other : nat_eq b (b + 1 + j) ≡ false = ground arith in
            rw (get_elem?-set, other) (shifted h b running cs rest j))
          (up_to h₁ b (rw (get_elem?-set, here, first_of h b running cs rest) refl) (λ j l.
            let other : nat_eq b j ≡ false = ground arith in
            rw (get_elem?-set, other) (before j l))) in
      subst
        (λ r.
          IsKept bs content 0 h (settle answer (b + 1) cs (fetched b r h))
          × ((j : ℕ)
              → quiet (get_elem? (settle answer (b + 1) cs (fetched b r h)).active j) ≡ true))
        (sym (right b)) (IsKept-trans bs content 0 h h₁ _ kept kept₂, end)
  settle-IsKept answer right (closed ∷ cs) b h s rest before =
      settle-IsKept answer right cs (b + 1) h s (λ j. shifted h b closed cs rest j)
        (up_to h b (rw (first_of h b closed cs rest) refl) before)

  -- What was asked for, is not running and begins inside the file is cached.
  pub cached :
      (b : ℕ) (x : Option (Option Bytes)) (a : Option Chan)
      → IsCell bs content b x a
      → asked x a ≡ true
      → quiet a ≡ true
      → b * bs < length content
      → (buf : Bytes) × (x ≡ some (some buf))
  cached b (some (some buf)) (some c) h k q l = (buf, refl)
  cached b (some none) (some closed) h k q l = absurd (omega arith)
  cached b (some none) (some running) h k q l = cc
  cached b (some none) (some idle) h k q l = cc
  cached b (some x) none h k q l = absurd h
  cached b none (some c) h k q l = absurd h
  cached b none none h k q l = cc

  pub IsSteady-IsCaching : (h : Handle) → IsSteady bs content h → IsCaching bs content h
  IsSteady-IsCaching h s b buf e =
      right (get_elem? h.active b)
        (subst (λ o. IsCell bs content b o (get_elem? h.active b)) e (s.cells b))
    where
      right : (a : Option Chan) → IsCell bs content b (some (some buf)) a → buf ≡ block bs content b
      right (some c) h = h
      right none h = absurd h
