-- ===== src/Server/Threads/Delivery.antt =====
-- What the threads make of the master: the requests reach it in any order.
use rufs.Base.{
  none, replicate, ◌≡◌, ◌≢◌, refl, sym, ◌∙◌, ap, subst, subst₂, List, [], ◌∷◌, All, Str, slash,
  split, Result, ok, ◌>>=◌, >>=-eq-ok, ok_injective,
}
use mathlib.Core.List.{Permᴰ, append-nil}
use mathlib.Core.List.Permᴰ
use rufs.Store.{Store, Laws}
use rufs.Master
use rufs.Master.{Peer}
use rufs.Master.Sessions.{set_file-ok}
use rufs.Server.{SetFileRequest}
use rufs.Server.Threads.{
  Threads, start_threads, takes, serves, Reach, here, later, held, reach_keeps,
}

-- The request as the master decodes it.
abbrev pub as_call : SetFileRequest → Master.SetFileRequest
as_call q = record { path = q.path; info = q.info }

-- Where the master files what a user publishes at a path.
abbrev pub filed_at : Str → SetFileRequest → List Str
filed_at user q = user ∷ split slash q.path

All-perm {ℓ κ} : {A : Type ℓ} (P : A → Type κ) {xs ys : List A} → Permᴰ xs ys → All P xs → All P ys
All-perm P Permᴰ.nil h = tt
All-perm P (Permᴰ.cons e d) h = (subst P e h.0, All-perm P d h.1)
All-perm P (Permᴰ.swap e f) h = (subst P f h.1.0, (subst P e h.0, h.1.1))
All-perm P (Permᴰ.trans d c) h = All-perm P c (All-perm P d h)

module _ (db : Store) (laws : Laws db) (p : Peer) where
  open laws use {IsValid, file_at}

  -- The master serves calls, one after the other.
  unfoldable pub serve_all : List SetFileRequest → db.State → Result db.State
  serve_all [] s = ok s
  serve_all (q ∷ qs) s = Master.set_file db (as_call q) p s >>= serve_all qs

  abbrev IsFiled : db.State → SetFileRequest → Type 0
  IsFiled s q = file_at (filed_at p.user q) s ≡ q.info

  abbrev IsElsewhere : SetFileRequest → SetFileRequest → Type 0
  IsElsewhere q r = filed_at p.user q ≢ filed_at p.user r

  -- No two requests are for the same path.
  abbrev pub IsApart : List SetFileRequest → Type 0
  IsApart [] = Unit
  IsApart (q ∷ qs) = All (IsElsewhere q) qs × IsApart qs

  served_one :
      (q : SetFileRequest) (s s' : db.State)
      → IsValid s
      → Master.set_file db (as_call q) p s ≡ ok s'
      → IsValid s'
        × IsFiled s' q
        × ((k : List Str) → k ≢ filed_at p.user q → file_at k s' ≡ file_at k s)
  served_one q s s' v run =
      let (a, g, w) = set_file-ok db (as_call q) p s s' run in
      (
        laws.set_file-IsValid p.user (split slash q.path) q.info p.ident s s' v w,
        laws.set_file_here p.user (split slash q.path) q.info p.ident s s' v w,
        laws.set_file_others p.user (split slash q.path) q.info p.ident s s' v w,
      )

  serve_all_others :
      (qs : List SetFileRequest) (s s' : db.State) (k : List Str)
      → IsValid s
      → serve_all qs s ≡ ok s'
      → All (λ r. k ≢ filed_at p.user r) qs
      → file_at k s' ≡ file_at k s
  unfolding serve_all
  serve_all_others [] s s' k v run h = ap (file_at k) (sym (ok_injective run))
  serve_all_others (q ∷ qs) s s' k v run h =
      let (m, one, rest) = >>=-eq-ok (Master.set_file db (as_call q) p s) _ run in
      let (valid, filed, others) = served_one q s m v one in
      serve_all_others qs m s' k valid rest h.1 ∙ others k h.0

  serve_all-IsFiled :
      (qs : List SetFileRequest) (s s' : db.State)
      → IsValid s
      → IsApart qs
      → serve_all qs s ≡ ok s'
      → All (IsFiled s') qs
  unfolding serve_all
  serve_all-IsFiled [] s s' v h run = tt
  serve_all-IsFiled (q ∷ qs) s s' v h run =
      let (m, one, rest) = >>=-eq-ok (Master.set_file db (as_call q) p s) _ run in
      let (valid, filed, others) = served_one q s m v one in
      (
        serve_all_others qs m s' (filed_at p.user q) valid rest h.0 ∙ filed,
        serve_all-IsFiled qs m s' valid h.1 rest,
      )

  IsApart-perm : {xs ys : List SetFileRequest} → Permᴰ xs ys → IsApart xs → IsApart ys
  IsApart-perm Permᴰ.nil h = tt
  IsApart-perm (Permᴰ.cons {l₂ = qs} e d) h =
      (subst (λ q. All (IsElsewhere q) qs) e (All-perm _ d h.0), IsApart-perm d h.1)
  IsApart-perm (Permᴰ.swap {l = qs} e f) h = (
    (subst₂ IsElsewhere f e (λ n. h.0.0 (sym n)), subst (λ q. All (IsElsewhere q) qs) f h.1.0),
    (subst (λ q. All (IsElsewhere q) qs) e h.0.1, h.1.1),
  )
  IsApart-perm (Permᴰ.trans d c) h = IsApart-perm c (IsApart-perm d h)

  -- Requests for paths of which no two are the same, over any database that obeys the interface's
  -- laws: in whatever order the threads bring them to the master, once all are served and each
  -- call succeeded, the master has at each path what its request says.
  pub delivered_in_any_order :
      (requests : List SetFileRequest) (t : Threads) (s s' : db.State)
      → IsValid s
      → IsApart requests
      → Reach (start_threads requests) t
      → t.waiting ≡ []
      → held t.threads ≡ []
      → t.failed ≡ []
      → serve_all t.served s ≡ ok s'
      → All (λ q. file_at (filed_at p.user q) s' ≡ q.info) requests
  unfolding start_threads
  delivered_in_any_order requests t s s' v h reach e₁ e₂ e₃ run =
      let served : Permᴰ requests t.served =
        subst (Permᴰ requests) (rw (e₁, e₂, e₃) (simp append-nil)) (reach_keeps reach).0 in
      All-perm (IsFiled s') (Permᴰ.symm served)
        (serve_all-IsFiled t.served s s' v (IsApart-perm served h) run)

  -- Of any two requests the threads may bring the second to the master first, over any database
  -- that obeys the interface's laws: if both calls then succeed, the master has what the first one
  -- says at its path, also where the second one is for the same path and says that the file is
  -- gone.
  pub overtaken :
      (q r : SetFileRequest) (s s' : db.State)
      → IsValid s
      → serve_all (r ∷ q ∷ []) s ≡ ok s'
      → (t : Threads) × Reach (start_threads (q ∷ r ∷ [])) t
        × (t.served ≡ r ∷ q ∷ [])
        × (file_at (filed_at p.user q) s' ≡ q.info)
  unfolding start_threads serve_all
  overtaken q r s s' v run =
      let (m, one, rest) = >>=-eq-ok (Master.set_file db (as_call r) p s) _ run in
      let (valid, filed, others) = served_one r s m v one in
      let (m', two, end) = >>=-eq-ok (Master.set_file db (as_call q) p m) _ rest in
      let (valid', filed', others') = served_one q m m' valid two in
      (
        record { waiting = []; threads = replicate 4 none; served = r ∷ q ∷ []; failed = [] },
        later
            (later (later (later here (takes 0 q (r ∷ []) refl refl)) (takes 1 r [] refl refl))
              (serves 1 r refl))
            (serves 0 q refl),
        refl,
        ap (file_at (filed_at p.user q)) (sym (ok_injective end)) ∙ filed',
      )
