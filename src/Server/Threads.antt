-- ===== src/Server/Threads.antt =====
-- server.go: the four threads that send the requests of `SetFile` to the master. A request that
-- the channel gives out is held by one of them until its call has ended, and the threads go on in
-- any order.
pub mod Ending
pub mod Delivery
pub mod Publication
mod Tests
use rufs.Base.{
  ℕ, zero, suc, ◌≡◌, ◌≤◌, refl, sym, ap, subst₂, ◌∙◌, subst, List, [], ◌∷◌, ◌++◌, Option, none,
  some, length, length-set, get_elem?, set, replicate, arith,
}
use mathlib.Core.List.{append-nil, append_assoc}
use mathlib.Core.List.Permᴰ
use mathlib.Core.List.{Permᴰ}
use mathlib.Core.Option.{some-injective}
use rufs.Server.{SetFileRequest}

-- What each thread holds: nothing while it reads from the channel, or the request of its call.
-- `setFileRequestChan` is unbuffered: what waits is still with the callers of `SetFile`. What a
-- call of the master has served and what has failed, which is logged, is kept, the first one
-- first.
pub record Threads : Type 0 where
  pub waiting : List SetFileRequest
  pub threads : List (Option SetFileRequest)
  pub served : List SetFileRequest
  pub failed : List SetFileRequest

-- `startSetFileThreads`, with the requests that will be sent on its channel.
unfoldable pub start_threads : List SetFileRequest → Threads
start_threads requests = record {
  waiting = requests;
  threads = replicate 4 none;
  served = [];
  failed = [];
}

-- A thread that holds nothing takes the next request, or the call of one that does comes to its end.
pub data Step (s : Threads) : Threads → Type 0 where
  takes :
      (i : ℕ) (q : SetFileRequest) (rest : List SetFileRequest)
      → s.waiting ≡ q ∷ rest
      → get_elem? s.threads i ≡ some none
      → Step s (record s { waiting = rest; threads = set s.threads i (some q) })
  serves :
      (i : ℕ) (q : SetFileRequest)
      → get_elem? s.threads i ≡ some (some q)
      → Step s (record s { threads = set s.threads i none; served = s.served ++ q ∷ [] })
  fails :
      (i : ℕ) (q : SetFileRequest)
      → get_elem? s.threads i ≡ some (some q)
      → Step s (record s { threads = set s.threads i none; failed = s.failed ++ q ∷ [] })

pub data Reach (s : Threads) : Threads → Type 0 where
  here : Reach s s
  later : {t u : Threads} → Reach s t → Step t u → Reach s u

-- The requests that threads hold.
abbrev pub held : List (Option SetFileRequest) → List SetFileRequest
held [] = []
held (none ∷ ts) = held ts
held (some q ∷ ts) = q ∷ held ts

-- Everything that the threads were given, wherever it is.
abbrev pub all_of : Threads → List SetFileRequest
all_of s = s.failed ++ s.served ++ held s.threads ++ s.waiting

middle {ℓ} :
    {A : Type ℓ} (before after : List A) (q : A)
    → Permᴰ (before ++ q ∷ after) (q ∷ (before ++ after))
middle [] after q = Permᴰ.refl (q ∷ after)
middle (b ∷ before) after q =
    Permᴰ.trans (Permᴰ.cons refl (middle before after q)) (Permᴰ.swap refl refl)

held-takes :
    (ts : List (Option SetFileRequest)) (i : ℕ) (q : SetFileRequest)
    → get_elem? ts i ≡ some none
    → Permᴰ (q ∷ held ts) (held (set ts i (some q)))
held-takes [] i q e = cc
held-takes (x ∷ ts) zero q e =
    let idle : x ≡ none = some-injective _ _ e in rw idle (Permᴰ.refl (q ∷ held ts))
held-takes (none ∷ ts) (suc i) q e = held-takes ts i q e
held-takes (some r ∷ ts) (suc i) q e =
    Permᴰ.trans (Permᴰ.swap refl refl) (Permᴰ.cons refl (held-takes ts i q e))

held-ends :
    (ts : List (Option SetFileRequest)) (i : ℕ) (q : SetFileRequest)
    → get_elem? ts i ≡ some (some q)
    → Permᴰ (held ts) (q ∷ held (set ts i none))
held-ends [] i q e = cc
held-ends (x ∷ ts) zero q e =
    let busy : x ≡ some q = some-injective _ _ e in rw busy (Permᴰ.refl (q ∷ held ts))
held-ends (none ∷ ts) (suc i) q e = held-ends ts i q e
held-ends (some r ∷ ts) (suc i) q e =
    Permᴰ.trans (Permᴰ.cons refl (held-ends ts i q e)) (Permᴰ.swap refl refl)

-- What is held gives one request to the lists before it, or gets one from the list behind it.
module _ {ℓ} {A : Type ℓ} (f s h h' w : List A) (q : A) where
  put_second : Permᴰ h (q ∷ h') → Permᴰ (f ++ s ++ h ++ w) (f ++ (s ++ q ∷ []) ++ h' ++ w)
  put_second gives =
      Permᴰ.append_right w
        (subst (Permᴰ (f ++ s ++ h)) (simp append_assoc) (Permᴰ.append_left (f ++ s) gives))

  put_first : Permᴰ h (q ∷ h') → Permᴰ (f ++ s ++ h ++ w) ((f ++ q ∷ []) ++ s ++ h' ++ w)
  put_first gives = Permᴰ.append_right w (
      Permᴰ.trans (Permᴰ.append_left (f ++ s) gives) (
        subst₂ Permᴰ (simp append_assoc) (simp append_assoc) (Permᴰ.append_left f (middle s h' q))))

  put_third : Permᴰ (q ∷ h) h' → Permᴰ (f ++ s ++ h ++ q ∷ w) (f ++ s ++ h' ++ w)
  put_third gets =
      subst (λ xs. Permᴰ xs (f ++ s ++ h' ++ w)) (simp append_assoc)
        (Permᴰ.append_right w (
          Permᴰ.append_left (f ++ s) (
            Permᴰ.trans (middle h [] q) (
              Permᴰ.trans
                (Permᴰ.cons refl (subst (λ xs. Permᴰ xs h) (simp append-nil) (Permᴰ.refl h)))
                gets))))

Step-keeps :
    {s t : Threads} → Step s t → Permᴰ (all_of s) (all_of t) × (length t.threads ≡ length s.threads)
Step-keeps {s} (takes i q rest e idle) = (
  subst
      (λ w.
        Permᴰ (s.failed ++ s.served ++ held s.threads ++ w)
          (s.failed ++ s.served ++ held (set s.threads i (some q)) ++ rest))
      (sym e) (put_third s.failed s.served _ _ rest q (held-takes s.threads i q idle)),
  length-set s.threads i (some q),
)
Step-keeps {s} (serves i q busy) = (
  put_second s.failed s.served _ _ s.waiting q (held-ends s.threads i q busy),
  length-set s.threads i none,
)
Step-keeps {s} (fails i q busy) = (
  put_first s.failed s.served _ _ s.waiting q (held-ends s.threads i q busy),
  length-set s.threads i none,
)

pub reach_keeps :
    {s t : Threads}
    → Reach s t
    → Permᴰ (all_of s) (all_of t) × (length t.threads ≡ length s.threads)
reach_keeps {s} here = (Permᴰ.refl (all_of s), refl)
reach_keeps (later r st) =
    let (p, l) = reach_keeps r in let (q, k) = Step-keeps st in (Permᴰ.trans p q, k ∙ l)

length-held : (ts : List (Option SetFileRequest)) → length (held ts) ≤ length ts
length-held [] = omega arith
length-held (none ∷ ts) = omega (arith, length-held ts)
length-held (some q ∷ ts) = omega (arith, length-held ts)
