-- ===== src/Server/Threads/Ending.antt =====
-- server.go: what the four threads do with the requests that they are given, up to the end.
use rufs.Base.{
  ℕ, zero, suc, ◌≡◌, ◌≤◌, refl, ap, ◌∙◌, subst, List, [], ◌∷◌, ◌++◌, Option, none, some, length,
  get_elem?, set, arith,
}
use mathlib.Core.List.{append-nil, Permᴰ}
use rufs.Server.{SetFileRequest}
use rufs.Server.Threads.{
  Threads, start_threads, takes, serves, Reach, here, later, held, all_of, reach_keeps, length-held,
}

-- Nothing waits and no thread holds anything.
abbrev pub IsIdle : Threads → Type 0
IsIdle s = (s.waiting ≡ []) × (held s.threads ≡ [])

first_idle :
    (ts : List (Option SetFileRequest)) (n : ℕ)
    → length ts ≡ suc n
    → held ts ≡ []
    → get_elem? ts 0 ≡ some none
first_idle [] n l h = absurd (omega arith)
first_idle (none ∷ ts) n l h = refl
first_idle (some q ∷ ts) n l h = cc

put_back :
    (ts : List (Option SetFileRequest)) (q : SetFileRequest)
    → get_elem? ts 0 ≡ some none
    → set (set ts 0 (some q)) 0 none ≡ ts
put_back [] q e = refl
put_back (x ∷ ts) q e = cc

taken_by_first :
    (ts : List (Option SetFileRequest)) (q : SetFileRequest)
    → get_elem? ts 0 ≡ some none
    → get_elem? (set ts 0 (some q)) 0 ≡ some (some q)
taken_by_first [] q e = cc
taken_by_first (x ∷ ts) q e = refl

-- Some thread that holds a request, and what all hold behind its call.
busy_thread :
    (ts : List (Option SetFileRequest)) (n : ℕ)
    → length (held ts) ≡ suc n
    → (i : ℕ) × (q : SetFileRequest) × (get_elem? ts i ≡ some (some q))
      × (length (held (set ts i none)) ≡ n)
busy_thread [] n e = absurd (omega arith)
busy_thread (none ∷ ts) n e = let (i, q, at, left) = busy_thread ts n e in (suc i, q, at, left)
busy_thread (some q ∷ ts) n e = (0, q, refl, omega arith)

module _ (start : Threads) where
  calls_end :
      (n : ℕ) (s : Threads)
      → Reach start s
      → length (held s.threads) ≡ n
      → (t : Threads) × Reach start t × (t.waiting ≡ s.waiting) × (held t.threads ≡ [])
  calls_end zero s r e = (s, r, refl, nothing (held s.threads) e)
    where
      nothing : (xs : List SetFileRequest) → length xs ≡ 0 → xs ≡ []
      nothing [] e = refl
      nothing (x ∷ xs) e = absurd (omega arith)
  calls_end (suc n) s r e =
      let (i, q, at, left) = busy_thread s.threads n e in
      calls_end n _ (later r (serves i q at)) left

  all_taken :
      (k : ℕ) (qs : List SetFileRequest) (s : Threads)
      → Reach start s
      → length s.threads ≡ suc k
      → s.waiting ≡ qs
      → held s.threads ≡ []
      → (t : Threads) × Reach start t × IsIdle t
  all_taken k [] s r l w h = (s, r, (w, h))
  all_taken k (q ∷ qs) s r l w h =
      let idle = first_idle s.threads k l h in
      let back = put_back s.threads q idle in
      all_taken k qs _
        (later (later r (takes 0 q qs w idle)) (serves 0 q (taken_by_first s.threads q idle)))
        (ap length back ∙ l) refl (ap held back ∙ h)

-- Whatever the threads do: no more than four requests are held at once; every request that was
-- given to the channel is, exactly as often as it was given, with its caller, with a thread,
-- served, or failed; and the threads can go on until each one is served or failed.
pub threads_keep :
    (requests : List SetFileRequest) (s : Threads)
    → Reach (start_threads requests) s
    → Permᴰ requests (all_of s)
      × (length (held s.threads) ≤ 4)
      × ((t : Threads) × Reach s t × IsIdle t × Permᴰ requests (t.failed ++ t.served))
unfolding start_threads
threads_keep requests s r =
    let (p, l) = reach_keeps r in
    let (m, to_m, w, none_held) = calls_end s (length (held s.threads)) s here refl in
    let (q, l') = reach_keeps to_m in
    let (t, to_t, idle) = all_taken s 3 m.waiting m to_m (l' ∙ l) refl none_held in
    let (q', k) = reach_keeps to_t in
    let rest : all_of t ≡ t.failed ++ t.served = rw (idle.0, idle.1) (simp append-nil) in
    (
      p,
      omega (arith, length-held s.threads, l),
      (t, to_t, idle, subst (Permᴰ requests) rest (Permᴰ.trans p q')),
    )
