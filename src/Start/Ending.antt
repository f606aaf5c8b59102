-- ===== src/Start/Ending.antt =====
-- The end of main.go: the goroutines that run the modules, the signal, and the results that `main`
-- takes from the channel. A module that has come back from `Run` has its result in the channel or
-- is about to send it; which of them `main` gets next is left open.
use rufs.Base.{
  ℕ, zero, suc, ◌+◌, ◌-◌, ◌≡◌, refl, sym, ◌∙◌, ap, List, [], ◌∷◌, ◌++◌, Option, none, some, Bool,
  true, false, ◌||◌, All, length, length-set, get_elem?, set, map, leb, if◌then◌else◌, Error,
  Result, ok, ◌>>=◌, >>=-eq-ok, ok_injective, arith,
}
use mathlib.Core.Option.{some-injective}
use rufs.Start.{modules, at_least_one, server_modules, set_up, failed}

-- Where a module stands: in `Run`, come back with a result, or its result taken by `main`.
pub data Module : Type 0 where
  in_run : Module
  sent taken : Option Error → Module

-- Where `main` stands: in the select, at `err = <-ret` with as many results to come behind that
-- one and with `ec`, or at its end with the exit code.
pub data Phase : Type 0 where
  selecting : Phase
  awaiting : ℕ → ℕ → Phase
  exited : ℕ → Phase

pub record Program : Type 0 where
  pub mods : List Module
  pub cancelled : Bool
  pub phase : Phase

-- `main` up to the goroutines, with the modules that it starts; with --master_gen_keys it returns
-- before.
unfoldable pub launch {ℓ} :
    {M : Type ℓ}
    → Bool
    → Result (Unit {0})
    → Result (List M)
    → (M → Result (Unit {0}))
    → Result (Option (List M))
launch true gen mods setup = gen >>= λ u. ok none
launch false gen mods setup = do ms ← mods; u ← set_up setup ms; ok (some ms)

abbrev pub start {ℓ} : {M : Type ℓ} → List M → Program
start ms = record { mods = map (λ m. in_run) ms; cancelled = false; phase = selecting }

-- One round of the last loop, for `i`, the result at hand and `ec`.
unfoldable pub take_result : ℕ → Option Error → ℕ → Phase
take_result zero e ec = exited (if failed e then 1 else ec)
take_result (suc i) e ec = awaiting i (if failed e then 1 else ec)

-- `Run` may come back at any time, whether its context is done or not.
pub data Step (s : Program) : Program → Type 0 where
  returns :
      (m : ℕ) (e : Option Error)
      → get_elem? s.mods m ≡ some in_run
      → Step s (record s { mods = set s.mods m (sent e) })
  signalled :
      s.phase ≡ selecting
      → Step s (record s { cancelled = true; phase = awaiting (length s.mods - 1) 0 })
  first :
      (m : ℕ) (e : Option Error)
      → s.phase ≡ selecting
      → get_elem? s.mods m ≡ some (sent e)
      → Step s (record {
        mods = set s.mods m (taken e);
        cancelled = true;
        phase = take_result (length s.mods - 1) e 0;
      })
  next :
      (m i ec : ℕ) (e : Option Error)
      → s.phase ≡ awaiting i ec
      → get_elem? s.mods m ≡ some (sent e)
      → Step s (record s { mods = set s.mods m (taken e); phase = take_result i e ec })

pub data Reach (s : Program) : Program → Type 0 where
  here : Reach s s
  later : {t u : Program} → Reach s t → Step t u → Reach s u

abbrev pub IsTaken : Module → Type 0
IsTaken in_run = ⊥
IsTaken (sent e) = ⊥
IsTaken (taken e) = Unit

-- How many results `main` has taken.
unfoldable count_taken : List Module → ℕ
count_taken [] = 0
count_taken (in_run ∷ ms) = count_taken ms
count_taken (sent e ∷ ms) = count_taken ms
count_taken (taken e ∷ ms) = suc (count_taken ms)

-- Whether one of those is an error.
unfoldable pub took_error : List Module → Bool
took_error [] = false
took_error (in_run ∷ ms) = took_error ms
took_error (sent e ∷ ms) = took_error ms
took_error (taken e ∷ ms) = failed e || took_error ms

count_taken-set :
    (ms : List Module) (m : ℕ) (e : Option Error)
    → get_elem? ms m ≡ some (sent e)
    → (count_taken (set ms m (taken e)) ≡ suc (count_taken ms))
      × (took_error (set ms m (taken e)) ≡ (failed e || took_error ms))
unfolding count_taken took_error
count_taken-set [] m e h = cc
count_taken-set (x ∷ ms) zero e h = let x_is = some-injective _ _ h in rw x_is (refl, refl)
count_taken-set (in_run ∷ ms) (suc m) e h = count_taken-set ms m e h
count_taken-set (sent o ∷ ms) (suc m) e h = count_taken-set ms m e h
count_taken-set (taken o ∷ ms) (suc m) e h =
    let (c, t) = count_taken-set ms m e h in (ap suc c, ground (arith, t))

count_taken-sent :
    (ms : List Module) (m : ℕ) (e : Option Error)
    → get_elem? ms m ≡ some in_run
    → (count_taken (set ms m (sent e)) ≡ count_taken ms)
      × (took_error (set ms m (sent e)) ≡ took_error ms)
unfolding count_taken took_error
count_taken-sent [] m e h = cc
count_taken-sent (x ∷ ms) zero e h = let x_is = some-injective _ _ h in rw x_is (refl, refl)
count_taken-sent (in_run ∷ ms) (suc m) e h = count_taken-sent ms m e h
count_taken-sent (sent o ∷ ms) (suc m) e h = count_taken-sent ms m e h
count_taken-sent (taken o ∷ ms) (suc m) e h =
    let (c, t) = count_taken-sent ms m e h in (ap suc c, ap (λ b. failed o || b) t)

-- What holds where `main` stands: of the number of modules, of the results taken, of whether one
-- of those is an error, and of whether the context is cancelled.
abbrev IsAt : Phase → ℕ → ℕ → Bool → Bool → Type 0
IsAt selecting n c f x = (suc (n - 1) ≡ n) × (c ≡ 0) × (f ≡ false)
IsAt (awaiting i ec) n c f x = (c + suc i ≡ n) × (ec ≡ (if f then 1 else 0)) × (x ≡ true)
IsAt (exited ec) n c f x = (c ≡ n) × (ec ≡ (if f then 1 else 0)) × (x ≡ true)

abbrev IsSound : Program → Type 0
IsSound s = IsAt s.phase (length s.mods) (count_taken s.mods) (took_error s.mods) s.cancelled

take_result-IsAt :
    (i n c ec : ℕ) (f : Bool) (e : Option Error)
    → c + suc i ≡ n
    → ec ≡ (if f then 1 else 0)
    → IsAt (take_result i e ec) n (suc c) (failed e || f) true
unfolding take_result
take_result-IsAt zero n c ec f e total code = (omega arith, ground arith, refl)
take_result-IsAt (suc i) n c ec f e total code = (omega arith, ground arith, refl)

Step-IsSound : {s t : Program} → Step s t → IsSound s → IsSound t
Step-IsSound {s} (returns m e runs) h =
    let (c, t) = count_taken-sent s.mods m e runs in rw (length-set s.mods m (sent e), c, t) h
Step-IsSound {s} (signalled p) h =
    let (n, c, f) : IsAt selecting _ _ _ s.cancelled = rw p at h in
    (omega arith, ground arith, refl)
Step-IsSound {s} (first m e p came) h =
    let (n, c, f) : IsAt selecting (length s.mods) (count_taken s.mods) (took_error s.mods)
        s.cancelled =
      rw p at h in
    let (c', t) = count_taken-set s.mods m e came in
    rw (length-set s.mods m (taken e), c', t)
      (take_result-IsAt (length s.mods - 1) _ _ 0 _ e (omega arith) (ground arith))
Step-IsSound {s} (next m i ec e p came) h =
    let (n, c, x) : IsAt (awaiting i ec) (length s.mods) (count_taken s.mods) (took_error s.mods)
        s.cancelled =
      rw p at h in
    let (c', t) = count_taken-set s.mods m e came in
    rw (length-set s.mods m (taken e), c', t, x) (take_result-IsAt i _ _ ec _ e n c)

count_taken_bound : (ms : List Module) → leb (count_taken ms) (length ms) ≡ true
unfolding count_taken
count_taken_bound [] = refl
count_taken_bound (in_run ∷ ms) = ground (arith, count_taken_bound ms)
count_taken_bound (sent e ∷ ms) = ground (arith, count_taken_bound ms)
count_taken_bound (taken e ∷ ms) = ground (arith, count_taken_bound ms)

count_taken-All : (ms : List Module) → count_taken ms ≡ length ms → All IsTaken ms
unfolding count_taken
count_taken-All [] e = tt
count_taken-All (in_run ∷ ms) e = ground (arith, count_taken_bound ms)
count_taken-All (sent o ∷ ms) e = ground (arith, count_taken_bound ms)
count_taken-All (taken o ∷ ms) e = (tt, count_taken-All ms (omega arith))

none_taken {ℓ} :
    {M : Type ℓ} (ms : List M)
    → (count_taken (start ms).mods ≡ 0) × (took_error (start ms).mods ≡ false)
unfolding count_taken took_error
none_taken [] = (refl, refl)
none_taken (m ∷ ms) = none_taken ms

reach-IsSound {ℓ} :
    {M : Type ℓ} (m : M) (ms : List M) {s : Program} → Reach (start (m ∷ ms)) s → IsSound s
reach-IsSound m ms here = let (c, f) = none_taken (m ∷ ms) in (omega arith, c, f)
reach-IsSound m ms (later r st) = Step-IsSound st (reach-IsSound m ms r)

at_least_one_lem {ℓ} :
    {M : Type ℓ} (xs ms : List M)
    → at_least_one xs ≡ ok ms
    → (m : M) × (rest : List M) × (ms ≡ m ∷ rest)
at_least_one_lem [] ms e = cc
at_least_one_lem (x ∷ xs) ms e = (x, xs, sym (ok_injective e))

untaken :
    (ms : List Module) (i : ℕ)
    → count_taken ms + suc i ≡ length ms
    → (m : ℕ) × (p : Module) × (get_elem? ms m ≡ some p) × ¬ IsTaken p
unfolding count_taken
untaken [] i e = absurd (omega (arith, e))
untaken (in_run ∷ ms) i e = (0, in_run, refl, λ x. x)
untaken (sent o ∷ ms) i e = (0, sent o, refl, λ x. x)
untaken (taken o ∷ ms) i e =
    let (m, p, at, free) = untaken ms i (omega arith) in (suc m, p, at, free)

module _ {ℓ} {M : Type ℓ} (with_master with_server : Bool) (new_master new_server : Result M)
    (makes : List (M → Result (Option M))) where
  launch-modules :
      (gen : Result (Unit {0})) (setup : M → Result (Unit {0})) (ms : List M)
      → launch false gen (modules with_master with_server new_master new_server makes) setup
        ≡ ok (some ms)
      → (m : M) × (rest : List M) × (ms ≡ m ∷ rest)
  unfolding launch modules
  launch-modules gen setup ms h =
      let server = server_modules with_server new_server makes in
      let (ms', made, rest) =
        >>=-eq-ok (modules with_master with_server new_master new_server makes)
          (λ x. set_up setup x >>= λ u. ok (some x)) h in
      let (u, done, same) = >>=-eq-ok (set_up setup ms') (λ u. ok (some ms')) rest in
      let (firsts, e, made') =
        >>=-eq-ok (if with_master then (new_master >>= λ m. ok (m ∷ [])) else ok [])
          (λ x. server >>= λ others. at_least_one (x ++ others)) made in
      let (others, e', some_of) =
        >>=-eq-ok server (λ others. at_least_one (firsts ++ others)) made' in
      let (m, rest', shape) = at_least_one_lem (firsts ++ others) ms' some_of in
      (m, rest', sym (some-injective _ _ (ok_injective same)) ∙ shape)

  -- Where `main` has set up its modules and started them, then, however they come back and whether
  -- or not a signal comes: when it exits, it has cancelled the context and taken the result of every
  -- module, and its exit code is 1 if one of them is an error, else 0.
  pub exits_with_every_result :
      (gen : Result (Unit {0})) (setup : M → Result (Unit {0})) (ms : List M) (s : Program) (ec : ℕ)
      → launch false gen (modules with_master with_server new_master new_server makes) setup
        ≡ ok (some ms)
      → Reach (start ms) s
      → s.phase ≡ exited ec
      → All IsTaken s.mods × (ec ≡ (if took_error s.mods then 1 else 0)) × (s.cancelled ≡ true)
  exits_with_every_result gen setup ms s ec launched r ends =
      let (m, rest, shape) = launch-modules gen setup ms launched in
      let sound : IsSound s = reach-IsSound m rest (rw shape at r) in
      let (all, code, done) : IsAt (exited ec) (length s.mods) (count_taken s.mods)
          (took_error s.mods) s.cancelled =
        rw ends at sound in
      (count_taken-All s.mods all, code, done)

  -- While `main` waits for a result, some module is in `Run` or has a result that is not taken.
  awaits_a_result :
      (gen : Result (Unit {0})) (setup : M → Result (Unit {0})) (ms : List M) (s : Program)
      (i ec : ℕ)
      → launch false gen (modules with_master with_server new_master new_server makes) setup
        ≡ ok (some ms)
      → Reach (start ms) s
      → s.phase ≡ awaiting i ec
      → (m : ℕ) × (p : Module) × (get_elem? s.mods m ≡ some p) × ¬ IsTaken p
  awaits_a_result gen setup ms s i ec launched r waits =
      let (m, rest, shape) = launch-modules gen setup ms launched in
      let sound : IsSound s = reach-IsSound m rest (rw shape at r) in
      let (total, code, done) : IsAt (awaiting i ec) (length s.mods) (count_taken s.mods)
          (took_error s.mods) s.cancelled =
        rw waits at sound in
      untaken s.mods i total
