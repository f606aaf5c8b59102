-- ===== src/Fetch/Steady.antt =====
-- What holds of a handle between the calls: a block that is cached is the block of the file, and a
-- block whose fetch has ended is cached, unless it lies behind the end of the file.
use rufs.Base.{
  ℕ, zero, suc, ◌+◌, ◌-◌, ◌*◌, ◌/◌, ◌≤◌, ◌≡◌, refl, ◌∙◌, List, [], ◌∷◌, Option, none, some, Bool,
  true, false, Bool-cases, Option-cases, inl, inr, nat_eq, ltb, length, set, get_elem?,
  if◌then◌else◌, ◌&&◌, arith, length-set,
}
use rufs.Fetch.{Bytes, Chan, idle, running, closed, Handle, fetch}
use rufs.Fetch.Read.{purge, prefetch_one, prefetch, is_cached}
use rufs.Fetch.Blocks.{block}

-- What a write makes of a place.
abbrev pub written {ℓ} : {A : Type ℓ} → A → Option A → Option A
written v none = none
written v (some w) = some v

pub get_elem?-set {ℓ} :
    {A : Type ℓ} (xs : List A) (i j : ℕ) (v : A)
    → get_elem? (set xs i v) j ≡ (if nat_eq i j then written v (get_elem? xs j) else get_elem? xs j)
get_elem?-set [] i j v = ground arith
get_elem?-set (x ∷ xs) zero zero v = refl
get_elem?-set (x ∷ xs) zero (suc j) v = ground arith
get_elem?-set (x ∷ xs) (suc i) zero v = ground arith
get_elem?-set (x ∷ xs) (suc i) (suc j) v = ground (arith, get_elem?-set xs i j v)

-- Whether a block is cached or was asked for.
abbrev pub asked : Option (Option Bytes) → Option Chan → Bool
asked (some (some buf)) (some c) = true
asked (some none) (some running) = true
asked (some none) (some closed) = true
asked (some none) (some idle) = false
asked (some x) none = false
asked none c = false

abbrev pub is_asked : ℕ → Handle → Bool
is_asked b h = asked (get_elem? h.cache b) (get_elem? h.active b)

-- The two entries of a block.
abbrev pub IsCell : ℕ → Bytes → ℕ → Option (Option Bytes) → Option Chan → Type 0
IsCell bs content b none none = Unit
IsCell bs content b none (some c) = ⊥
IsCell bs content b (some x) none = ⊥
IsCell bs content b (some (some buf)) (some c) = buf ≡ block bs content b
IsCell bs content b (some none) (some closed) = length content ≤ b * bs
IsCell bs content b (some none) (some running) = Unit
IsCell bs content b (some none) (some idle) = Unit

pub record IsSteady (bs : ℕ) (content : Bytes) (h : Handle) : Type 0 where
  pub sized : h.size ≡ length content
  pub extent : length h.cache ≡ h.size / bs + 1
  pub cells : (b : ℕ) → IsCell bs content b (get_elem? h.cache b) (get_elem? h.active b)

-- A step keeps a handle steady, and what was asked for from block `k` on.
pub record IsKept (bs : ℕ) (content : Bytes) (k : ℕ) (h h' : Handle) : Type 0 where
  pub steady : IsSteady bs content h'
  pub asked_on : (j : ℕ) → k ≤ j → is_asked j h ≡ true → is_asked j h' ≡ true

pub asked_running :
    (t : Bool) (x : Option (Option Bytes)) (a : Option Chan)
    → asked x a ≡ true
    → asked x (if t then written running a else a) ≡ true
asked_running false x a e = e
asked_running true (some (some buf)) (some c) e = refl
asked_running true (some none) (some c) e = refl
asked_running true (some x) none e = cc
asked_running true none a e = cc

pub asked_closed :
    (t : Bool) (v : Option Bytes) (x : Option (Option Bytes)) (a : Option Chan)
    → asked x a ≡ true
    → asked (if t then written v x else x) (if t then written closed a else a) ≡ true
asked_closed false v x a e = e
asked_closed true none (some x) (some c) e = refl
asked_closed true (some w) (some x) (some c) e = refl
asked_closed true v (some (some x)) none e = cc
asked_closed true v (some none) none e = cc
asked_closed true v none a e = cc

module _ (bs : ℕ) (content : Bytes) where
  IsCell-running :
      (t : Bool) (b : ℕ) (x : Option (Option Bytes)) (a : Option Chan)
      → IsCell bs content b x a
      → IsCell bs content b x (if t then written running a else a)
  IsCell-running false b x a h = h
  IsCell-running true b none none h = h
  IsCell-running true b none (some c) h = h
  IsCell-running true b (some (some buf)) (some c) h = h
  IsCell-running true b (some none) (some c) h = tt
  IsCell-running true b (some x) none h = h

  IsCell-idle :
      (t : Bool) (b : ℕ) (x : Option (Option Bytes)) (a : Option Chan)
      → IsCell bs content b x a
      → IsCell bs content b (if t then written none x else x) (if t then written idle a else a)
  IsCell-idle false b x a h = h
  IsCell-idle true b none none h = h
  IsCell-idle true b none (some c) h = h
  IsCell-idle true b (some x) (some c) h = tt
  IsCell-idle true b (some x) none h = h

  pub fetch-IsKept :
      (k b : ℕ) (h : Handle) → IsSteady bs content h → IsKept bs content k h (fetch b h)
  unfolding fetch
  fetch-IsKept k b h s = record {
    steady = record {
      sized = s.sized;
      extent = s.extent;
      cells = λ j. rw get_elem?-set (IsCell-running (nat_eq b j) j _ _ (s.cells j));
    };
    asked_on = λ j l e. rw get_elem?-set (asked_running (nat_eq b j) _ _ e);
  }

  pub IsKept-refl : (k : ℕ) (h : Handle) → IsSteady bs content h → IsKept bs content k h h
  IsKept-refl k h s = record { steady = s; asked_on = λ j l e. e }

  pub IsKept-trans :
      (k : ℕ) (a b c : Handle)
      → IsKept bs content k a b
      → IsKept bs content k b c
      → IsKept bs content k a c
  IsKept-trans k a b c s t = record {
    steady = t.steady;
    asked_on = λ j l e. t.asked_on j l (s.asked_on j l e);
  }

  pub purge-IsKept :
      (first : ℕ) (h : Handle)
      → IsSteady bs content h
      → IsKept bs content (first / bs) h (purge bs first h)
  unfolding purge
  purge-IsKept first h s =
      let b = first / bs - 1 in
      elim (Bool-cases (ltb 0 b && is_cached (get_elem? h.cache b))) [
        | inr e ↦ rw e (IsKept-refl (first / bs) h s)
        | inl e ↦ rw e (record {
          steady = record {
            sized = s.sized;
            extent = length-set h.cache b none ∙ s.extent;
            cells =
                λ j. rw (get_elem?-set, get_elem?-set) (IsCell-idle (nat_eq b j) j _ _ (s.cells j));
          };
          asked_on = λ j l f.
              let other : nat_eq b j ≡ false = ground arith in
              rw (get_elem?-set, get_elem?-set, other) f;
        })
      ]

  prefetch_one-IsKept :
      (k b : ℕ) (h : Handle) → IsSteady bs content h → IsKept bs content k h (prefetch_one bs b h)
  unfolding prefetch_one
  prefetch_one-IsKept k b h s =
      let same = IsKept-refl k h s in
      elim (Bool-cases (ltb (b * bs) h.size)) [
        | inr e ↦ rw e same
        | inl e ↦ elim (Option-cases (get_elem? h.cache b)) [
          | inl n ↦ rw (e, n) same
          | inr (some buf, f) ↦ rw (e, f) same
          | inr (none, f) ↦ elim (Option-cases (get_elem? h.active b)) [
            | inl n ↦ rw (e, f, n) same
            | inr (idle, g) ↦ rw (e, f, g) (fetch-IsKept k b h s)
            | inr (running, g) ↦ rw (e, f, g) same
            | inr (closed, g) ↦ rw (e, f, g) same
          ]
        ]
      ]

  pub prefetch-IsKept :
      (k b n : ℕ) (h : Handle) → IsSteady bs content h → IsKept bs content k h (prefetch bs b n h)
  unfolding prefetch
  prefetch-IsKept k b zero h s = IsKept-refl k h s
  prefetch-IsKept k b (suc n) h s =
      let one = prefetch_one-IsKept k b h s in
      IsKept-trans k h (prefetch_one bs b h) _ one
        (prefetch-IsKept k (b + 1) n (prefetch_one bs b h) one.steady)
