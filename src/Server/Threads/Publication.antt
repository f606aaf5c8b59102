-- ===== src/Server/Threads/Publication.antt =====
-- From the cache of a scanner to the files of the master: the requests of an export, and the
-- threads that bring them.
use rufs.Base.{
  ◌≡◌, ◌≢◌, refl, sym, ◌∙◌, ap, subst, List, [], ◌∷◌, ◌++◌, Option, none, some, ne_of_false,
  Bool-cases, eq-cases, eq_refl, inl, inr, ℕ, nat_eq, All, Str, slash, split, join, Dict, lookup,
  IsMap, if◌then◌else◌, ok, arith,
}
use mathlib.Core.Option.{none-ne-some}
use rufs.Common.{FileInfo}
use rufs.Fuse.{join_path}
use rufs.Store.{Store, Laws}
use rufs.Master.{Peer}
use rufs.Server.{SetFileRequest}
use rufs.Server.Exporting.{sent}
use rufs.Server.Threads.{Threads, start_threads, Reach, held}
use rufs.Server.Threads.Delivery.{filed_at, serve_all, IsApart, delivered_in_any_order}

-- What an export of the cache sends, in order.
abbrev pub export_requests : Str → Dict FileInfo → List SetFileRequest
export_requests share [] = []
export_requests share ((fn, fi) ∷ m) =
    record { path = join_path share fn; info = some fi } ∷ export_requests share m

abbrev last_first : List SetFileRequest → List SetFileRequest → List SetFileRequest
last_first [] before = before
last_first (q ∷ qs) before = last_first qs (q ∷ before)

-- It is what an export leaves with the server, which keeps the last request first.
sent-export_requests :
    (share : Str) (m : Dict FileInfo) (before : List SetFileRequest)
    → sent share m before ≡ last_first (export_requests share m) before
sent-export_requests share [] before = refl
sent-export_requests share ((fn, fi) ∷ m) before =
    sent-export_requests share m (record { path = join_path share fn; info = some fi } ∷ before)

split_more : (sep : ℕ) (s : Str) → (p : Str) × (ps : List Str) × (split sep s ≡ p ∷ ps)
unfolding split
split_more sep [] = ([], [], refl)
split_more sep (c ∷ s) =
    let (p, ps, e) = split_more sep s in
    elim (Bool-cases (nat_eq c sep)) [
      | inl t ↦ ([], p ∷ ps, rw (split, e, t) refl)
      | inr t ↦ (c ∷ p, ps, rw (split, e, t) refl)
    ]

join_longer :
    (sep c : ℕ) (p : Str) (ps : List Str)
    → join sep (if nat_eq c sep then [] ∷ p ∷ ps else (c ∷ p) ∷ ps) ≡ c ∷ join sep (p ∷ ps)
unfolding join
join_longer sep c p [] = elim (Bool-cases (nat_eq c sep)) [
  | inl t ↦ let same : sep ≡ c = ground arith in rw t (ap (λ x. x ∷ p) same)
  | inr t ↦ rw t refl
]
join_longer sep c p (q ∷ ps) = elim (Bool-cases (nat_eq c sep)) [
  | inl t ↦ let same : sep ≡ c = ground arith in rw t (ap (λ x. x ∷ join sep (p ∷ q ∷ ps)) same)
  | inr t ↦ rw t refl
]

join-split : (sep : ℕ) (s : Str) → join sep (split sep s) ≡ s
unfolding split join
join-split sep [] = refl
join-split sep (c ∷ s) =
    let (p, ps, e) = split_more sep s in
    let rest : join sep (p ∷ ps) ≡ s = subst (λ l. join sep l ≡ s) e (join-split sep s) in
    rw (split, e) (join_longer sep c p ps ∙ ap (λ t. c ∷ t) rest)

same_rest : (d x y : Str) → d ++ x ≡ d ++ y → x ≡ y
same_rest [] x y e = e
same_rest (c ∷ d) x y e = let z : d ++ x ≡ d ++ y = cc in same_rest d x y z

join_path_injective : (share a b : Str) → join_path share a ≡ join_path share b → a ≡ b
unfolding join_path
join_path_injective [] a b e = e
join_path_injective (c ∷ d) a b e =
    let z : d ++ slash ∷ a ≡ d ++ slash ∷ b = cc in
    let y = same_rest d (slash ∷ a) (slash ∷ b) z in cc

rest_of : List Str → List Str
rest_of [] = []
rest_of (x ∷ xs) = xs

-- Files of a share have different places with the master.
filed_injective :
    (user share a b : Str) (i j : Option FileInfo)
    → filed_at user (record { path = join_path share a; info = i })
      ≡ filed_at user (record { path = join_path share b; info = j })
    → a ≡ b
unfolding rest_of
filed_injective user share a b i j e =
    let paths : split slash (join_path share a) ≡ split slash (join_path share b) = ap rest_of e in
    join_path_injective share a b (
      sym (join-split slash (join_path share a))
      ∙ ap (join slash) paths
      ∙ join-split slash (join_path share b))

module _ (db : Store) (laws : Laws db) (p : Peer) where
  open laws use {IsValid, file_at}

  requests_behind :
      (share fn : Str) (fi : FileInfo) (m : Dict FileInfo)
      → lookup fn m ≡ none
      → All
          (λ r.
            filed_at p.user (record { path = join_path share fn; info = some fi })
            ≢ filed_at p.user r)
          (export_requests share m)
  unfolding lookup
  requests_behind share fn fi [] e = tt
  requests_behind share fn fi ((k, v) ∷ m) e = elim (eq-cases k fn) [
    | inl s ↦ absurd (none-ne-some v (sym e ∙ rw (s, eq_refl) refl))
    | inr s ↦ (
      λ f. ne_of_false k fn s (sym (filed_injective p.user share fn k (some fi) (some v) f)),
      requests_behind share fn fi m (rw s at e),
    )
  ]

  export_requests-IsApart :
      (share : Str) (m : Dict FileInfo) → IsMap m → IsApart db laws p (export_requests share m)
  export_requests-IsApart share [] h = tt
  export_requests-IsApart share ((fn, fi) ∷ m) h =
      (requests_behind share fn fi m h.0, export_requests-IsApart share m h.1)

  published :
      (share fn : Str) (fi : FileInfo) (m : Dict FileInfo) (s : db.State)
      → All (λ q. file_at (filed_at p.user q) s ≡ q.info) (export_requests share m)
      → lookup fn m ≡ some fi
      → file_at (p.user ∷ split slash (join_path share fn)) s ≡ some fi
  unfolding lookup
  published share fn fi [] s h e = cc
  published share fn fi ((k, v) ∷ m) s h e = elim (eq-cases k fn) [
    | inl t ↦
        let there : some v ≡ some fi = rw (t, eq_refl) at e in
        subst (λ j. file_at (p.user ∷ split slash (join_path share j)) s ≡ some fi) t (h.0 ∙ there)
    | inr t ↦ published share fn fi m s h.1 (rw t at e)
  ]

  -- An export of the cache of a scanner, over any database that obeys the interface's laws: in
  -- whatever order the threads bring its requests to the master, once all are served and each call
  -- succeeded, the master has each file of the cache below the user, at the path of the share and
  -- the file.
  pub export_publishes :
      (share fn : Str) (fi : FileInfo) (cache : Dict FileInfo) (t : Threads) (s s' : db.State)
      → IsValid s
      → IsMap cache
      → Reach (start_threads (export_requests share cache)) t
      → t.waiting ≡ []
      → held t.threads ≡ []
      → t.failed ≡ []
      → serve_all db laws p t.served s ≡ ok s'
      → lookup fn cache ≡ some fi
      → file_at (p.user ∷ split slash (join_path share fn)) s' ≡ some fi
  export_publishes share fn fi cache t s s' v h reach e₁ e₂ e₃ run is =
      published share fn fi cache s'
        (delivered_in_any_order db laws p (export_requests share cache) t s s' v
          (export_requests-IsApart share cache h) reach e₁ e₂ e₃ run)
        is
