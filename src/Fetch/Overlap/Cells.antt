-- ===== src/Fetch/Overlap/Cells.antt =====
-- The two entries of a block, while reads overlap: what is cached is the block of the file, and
-- its channel is closed, so that purging it takes no channel from a goroutine that runs.
use rufs.Base.{
  ℕ, zero, suc, ◌+◌, ◌-◌, ◌*◌, ◌/◌, ◌≡◌, refl, sym, ◌∙◌, ap, subst, Option, none, some, Bool, true,
  false, Bool-cases, Option-cases, inl, inr, nat_eq, ltb, length, get_elem?, if◌then◌else◌, ◌&&◌,
  arith, length-set,
}
use rufs.Fetch.{Bytes, Chan, idle, running, closed, Handle, fetch}
use rufs.Fetch.Read.{purge, prefetch_one, prefetch, is_cached}
use rufs.Fetch.Blocks.{block}
use rufs.Fetch.Steady.{written, get_elem?-set}
use rufs.Fetch.Overlap.{is_running}

module _ (bs : ℕ) (content : Bytes) where
  abbrev pub IsSoundCell : ℕ → Option (Option Bytes) → Option Chan → Type 0
  IsSoundCell b none none = Unit
  IsSoundCell b none (some c) = ⊥
  IsSoundCell b (some x) none = ⊥
  IsSoundCell b (some (some buf)) (some idle) = ⊥
  IsSoundCell b (some (some buf)) (some running) = ⊥
  IsSoundCell b (some (some buf)) (some closed) = buf ≡ block bs content b
  IsSoundCell b (some none) (some c) = Unit

  pub record IsSound (h : Handle) : Type 0 where
    pub sized : h.size ≡ length content
    pub cells : (b : ℕ) → IsSoundCell b (get_elem? h.cache b) (get_elem? h.active b)

  -- A step that keeps a handle sound and takes no goroutine's channel.
  pub record IsAdvance (h h' : Handle) : Type 0 where
    pub sound : IsSound h'
    pub extent : length h'.cache ≡ length h.cache
    pub still_running :
        (b : ℕ)
        → is_running (get_elem? h.active b) ≡ true
        → is_running (get_elem? h'.active b) ≡ true

  pub IsAdvance-refl : (h : Handle) → IsSound h → IsAdvance h h
  IsAdvance-refl h s = record { sound = s; extent = refl; still_running = λ b e. e }

  pub IsAdvance-trans : (a b c : Handle) → IsAdvance a b → IsAdvance b c → IsAdvance a c
  IsAdvance-trans a b c s t = record {
    sound = t.sound;
    extent = t.extent ∙ s.extent;
    still_running = λ j e. t.still_running j (s.still_running j e);
  }

  -- A goroutine starts for a block that is not cached.
  starting :
      (t : Bool) (b : ℕ) (x : Option (Option Bytes)) (a : Option Chan)
      → (t ≡ true → x ≡ some none)
      → IsSoundCell b x a
      → IsSoundCell b x (if t then written running a else a)
  starting false b x a e h = h
  starting true b x none e h = h
  starting true b none (some c) e h = h
  starting true b (some none) (some c) e h = tt
  starting true b (some (some buf)) (some c) e h = cc (e refl)

  runs_on :
      (t : Bool) (a : Option Chan)
      → is_running a ≡ true
      → is_running (if t then written running a else a) ≡ true
  runs_on false a e = e
  runs_on true none e = e
  runs_on true (some c) e = refl

  pub fetch-IsAdvance :
      (b : ℕ) (h : Handle) → get_elem? h.cache b ≡ some none → IsSound h → IsAdvance h (fetch b h)
  unfolding fetch
  fetch-IsAdvance b h e s = record {
    sound = record {
      sized = s.sized;
      cells = λ j. rw get_elem?-set (
          starting (nat_eq b j) j _ _
            (λ t. let same : b ≡ j = ground arith in ap (λ i. get_elem? h.cache i) (sym same) ∙ e)
            (s.cells j));
    };
    extent = refl;
    still_running = λ j r. rw get_elem?-set (runs_on (nat_eq b j) _ r);
  }

  dropping :
      (t : Bool) (b : ℕ) (x : Option (Option Bytes)) (a : Option Chan)
      → IsSoundCell b x a
      → IsSoundCell b (if t then written none x else x) (if t then written idle a else a)
  dropping false b x a h = h
  dropping true b none none h = h
  dropping true b none (some c) h = h
  dropping true b (some x) (some c) h = tt
  dropping true b (some x) none h = h

  -- What is cached is not running.
  cached_rests :
      (b : ℕ) (x : Option (Option Bytes)) (a : Option Chan)
      → IsSoundCell b x a
      → is_cached x ≡ true
      → is_running a ≡ false
  cached_rests b none a h e = cc
  cached_rests b (some none) a h e = cc
  cached_rests b (some (some buf)) none h e = absurd h
  cached_rests b (some (some buf)) (some idle) h e = absurd h
  cached_rests b (some (some buf)) (some running) h e = absurd h
  cached_rests b (some (some buf)) (some closed) h e = refl

  pub purge-IsAdvance : (first : ℕ) (h : Handle) → IsSound h → IsAdvance h (purge bs first h)
  unfolding purge
  purge-IsAdvance first h s =
      let b = first / bs - 1 in
      elim (Bool-cases (ltb 0 b && is_cached (get_elem? h.cache b))) [
        | inr e ↦ rw e (IsAdvance-refl h s)
        | inl e ↦ rw e (record {
          sound = record {
            sized = s.sized;
            cells =
                λ j. rw (get_elem?-set, get_elem?-set) (dropping (nat_eq b j) j _ _ (s.cells j));
          };
          extent = length-set h.cache b none;
          still_running = λ j r.
              let there : is_cached (get_elem? h.cache b) ≡ true = ground arith in
              let rests = cached_rests b _ _ (s.cells b) there in
              let other : nat_eq b j ≡ false = elim (Bool-cases (nat_eq b j)) [
                | inr n ↦ n
                | inl n ↦
                    let same : b ≡ j = ground arith in
                    let z : is_running (get_elem? h.active j) ≡ false =
                      subst (λ i. is_running (get_elem? h.active i) ≡ false) same rests in
                    cc
              ] in
              rw (get_elem?-set, other) r;
        })
      ]

  prefetch_one-IsAdvance : (b : ℕ) (h : Handle) → IsSound h → IsAdvance h (prefetch_one bs b h)
  unfolding prefetch_one
  prefetch_one-IsAdvance b h s =
      let same = IsAdvance-refl h s in
      elim (Bool-cases (ltb (b * bs) h.size)) [
        | inr e ↦ rw e same
        | inl e ↦ elim (Option-cases (get_elem? h.cache b)) [
          | inl n ↦ rw (e, n) same
          | inr (some buf, g) ↦ rw (e, g) same
          | inr (none, g) ↦ elim (Option-cases (get_elem? h.active b)) [
            | inl n ↦ rw (e, g, n) same
            | inr (idle, a) ↦ rw (e, g, a) (fetch-IsAdvance b h g s)
            | inr (running, a) ↦ rw (e, g, a) same
            | inr (closed, a) ↦ rw (e, g, a) same
          ]
        ]
      ]

  pub prefetch-IsAdvance : (b n : ℕ) (h : Handle) → IsSound h → IsAdvance h (prefetch bs b n h)
  unfolding prefetch
  prefetch-IsAdvance b zero h s = IsAdvance-refl h s
  prefetch-IsAdvance b (suc n) h s =
      let one = prefetch_one-IsAdvance b h s in
      IsAdvance-trans h (prefetch_one bs b h) _ one
        (prefetch-IsAdvance (b + 1) n (prefetch_one bs b h) one.sound)
