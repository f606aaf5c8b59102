-- ===== src/Master/Confinement.antt =====
-- Whatever the clients do, a file stands only where the certificate of its publisher allows.
use rufs.Base.{
  ℕ, All, All-append, All-set, All-get, List, [], ◌∷◌, ◌≡◌, refl, ◌≢◌, ◌⊎◌, inl, inr, Option, none,
  some, Str, slash, split, get_elem?, Result, ok, err, panic, >>=-eq-ok, ok_injective, sym, ◌∙◌,
  subst, Option-cases, Bool-cases, ◌==◌,
}
use rufs.Common.{FileInfo}
use rufs.Store.{Store, Laws}
use rufs.Master
use rufs.Master.{Conn, Peer, new_peer, SetFileRequest, leaf_name}
use rufs.Master.Sessions.{IsSigned, IsGood, new_peer-IsSigned, signin-IsSigned, set_file-ok}
use rufs.Master.System.{
  Session, Event, accept, signin, set_file, disconnect, System, start, session_at, after_call, call,
  call_at, step, run,
}
use rufs.MemoryDb.Index.{path-cases}

-- `Known` holds of the names on the certificates of the connections that the master accepts.
module _ (db : Store) (laws : Laws db) (Known : Str → Type 0) where
  open laws use {IsValid, file_at}

  abbrev pub IsKnownConn : Conn → Type 0
  IsKnownConn c = (u : Str) → leaf_name c.verified ≡ ok u → Known u

  abbrev pub IsAllowed : Event → Type 0
  IsAllowed (accept c) = IsKnownConn c
  IsAllowed _ = Unit

  -- A path that starts with a known user, and whose parts are good.
  abbrev pub IsPublished : List Str → Type 0
  IsPublished [] = ⊥
  IsPublished (u ∷ parts) = Known u × IsGood (u ∷ parts)

  abbrev IsSession : Option Session → Type 0
  IsSession none = Unit
  IsSession (some x) = IsSigned x.conn x.peer × IsKnownConn x.conn

  pub record IsConfined (m : System db) : Type 0 where
    pub valid : IsValid m.state
    pub confined : (q : List Str) (f : FileInfo) → file_at q m.state ≡ some f → IsPublished q
    pub signed : All IsSession m.sessions

  start-IsConfined : IsConfined (start db)
  unfolding start
  start-IsConfined = record {
    valid = laws.init-IsValid;
    confined = λ q f e. absurd (laws.init-empty q f e);
    signed = tt;
  }

  user_known : (x : Session) → IsSession (some x) → x.peer.address ≢ [] → Known x.peer.user
  user_known x (s, k) ne = go s.address_signed s.user_certified
    where
      go :
          ((x.peer.address ≡ [])
            ⊎ ((x.peer.user ≢ []) × (x.peer.ident ≡ Master.ident_of x.peer.user x.peer.address)))
          → ((x.peer.user ≡ []) ⊎ (leaf_name x.conn.verified ≡ ok x.peer.user))
          → Known x.peer.user
      go (inl z) c = absurd (ne z)
      go (inr (n, i)) (inl z) = absurd (n z)
      go (inr (n, i)) (inr c) = k x.peer.user c

  call_cases {ℓ} :
      {A : Type ℓ} (r : Result A) (m m' : System db) (f : A → System db)
      → after_call db r m f ≡ ok m'
      → ((a : A) × (r ≡ ok a) × (f a ≡ m')) ⊎ (m ≡ m')
  call_cases (ok a) m m' f h = inl (a, refl, ok_injective h)
  call_cases (err e) m m' f h = inr (ok_injective h)
  call_cases panic m m' f h = cc

  -- A publication that returns keeps every file where it may stand.
  set_file-confined :
      (x : Session) (q : SetFileRequest) (s s' : db.State)
      → IsSession (some x)
      → IsValid s
      → ((p : List Str) (f : FileInfo) → file_at p s ≡ some f → IsPublished p)
      → Master.set_file db q x.peer s ≡ ok s'
      → IsValid s' × ((p : List Str) (f : FileInfo) → file_at p s' ≡ some f → IsPublished p)
  set_file-confined x q s s' h v c r =
      let (ne, good, w) = set_file-ok db q x.peer s s' r in
      let u = x.peer.user in
      let parts = split slash q.path in
      (
        laws.set_file-IsValid u parts q.info x.peer.ident s s' v w,
        λ p f e. elim (path-cases p (u ∷ parts)) [
          | inl same ↦ subst IsPublished (sym same) (user_known x h ne, good)
          | inr other ↦
              c p f (sym (laws.set_file_others u parts q.info x.peer.ident s s' v w p other) ∙ e)
        ],
      )

  disconnected-confined :
      (p : Peer) (s s' : db.State)
      → IsValid s
      → Master.disconnected db p s ≡ ok s'
      → IsValid s' × ((q : List Str) (f : FileInfo) → file_at q s' ≡ some f → file_at q s ≡ some f)
  unfolding Master.disconnected
  disconnected-confined p s s' v r = elim (Bool-cases (p.address == [])) [
    | inl e ↦
        subst
          (λ z.
            IsValid z
            × ((q : List Str) (f : FileInfo) → file_at q z ≡ some f → file_at q s ≡ some f))
          (ok_injective (rw e at r)) (v, λ q f w. w)
    | inr e ↦ (
      laws.disconnected-IsValid p.ident s s' v (rw e at r),
      laws.disconnected_shrinks p.ident s s' v (rw e at r),
    )
  ]

  call-IsConfined :
      (i : ℕ) (x : Session) (e : Event) (m m' : System db)
      → IsConfined m
      → IsSession (some x)
      → call db i x e m ≡ ok m'
      → IsConfined m'
  call-IsConfined i x (accept c) m m' h s r = subst IsConfined (ok_injective r) h
  call-IsConfined i x (signin j net q) m m' h s r =
      elim (call_cases (Master.signin net x.conn q x.peer) m m' _ r) [
        | inr same ↦ subst IsConfined same h
        | inl (p, a, same) ↦ subst IsConfined same (record {
          valid = h.valid;
          confined = h.confined;
          signed =
              All-set IsSession m.sessions i (some (record x { peer = p })) h.signed
                (signin-IsSigned net x.conn q x.peer p a s.0, s.1);
        })
      ]
  call-IsConfined i x (set_file j q) m m' h s r =
      elim (call_cases (Master.set_file db q x.peer m.state) m m' _ r) [
        | inr same ↦ subst IsConfined same h
        | inl (t, a, same) ↦
            let (v, c) = set_file-confined x q m.state t s h.valid h.confined a in
            subst IsConfined same (record { valid = v; confined = c; signed = h.signed })
      ]
  call-IsConfined i x (disconnect j) m m' h s r =
      elim (call_cases (Master.disconnected db x.peer m.state) m m' _ r) [
        | inr same ↦ subst IsConfined same h
        | inl (t, a, same) ↦
            let (v, c) = disconnected-confined x.peer m.state t h.valid a in
            subst IsConfined same (record {
              valid = v;
              confined = λ q f e. h.confined q f (c q f e);
              signed = All-set IsSession m.sessions i none h.signed tt;
            })
      ]

  session-IsSession :
      (i : ℕ) (x : Session) (m : System db)
      → IsConfined m
      → session_at db i m ≡ some x
      → IsSession (some x)
  unfolding session_at
  session-IsSession i x m h e = elim (Option-cases (get_elem? m.sessions i)) [
    | inl n ↦ cc (rw (n, session_at) at e)
    | inr (o, f) ↦
        subst IsSession (rw (f, session_at) at e) (All-get IsSession m.sessions i o h.signed f)
  ]

  call_at-IsConfined :
      (i : ℕ) (e : Event) (m m' : System db)
      → IsConfined m
      → call_at db i e m ≡ ok m'
      → IsConfined m'
  call_at-IsConfined i e m m' h r = elim (Option-cases (session_at db i m)) [
    | inl n ↦ subst IsConfined (ok_injective (rw (n, call_at) at r)) h
    | inr (x, f) ↦ call-IsConfined i x e m m' h (session-IsSession i x m h f) (rw (f, call_at) at r)
  ]

  step-IsConfined :
      (e : Event) (m m' : System db)
      → IsAllowed e
      → IsConfined m
      → step db e m ≡ ok m'
      → IsConfined m'
  unfolding step
  step-IsConfined (accept c) m m' k h r = subst IsConfined (ok_injective r) (record {
    valid = h.valid;
    confined = h.confined;
    signed = All-append IsSession m.sessions _ h.signed ((new_peer-IsSigned c, k), tt);
  })
  step-IsConfined (signin i net q) m m' k h r = call_at-IsConfined i (signin i net q) m m' h r
  step-IsConfined (set_file i q) m m' k h r = call_at-IsConfined i (set_file i q) m m' h r
  step-IsConfined (disconnect i) m m' k h r = call_at-IsConfined i (disconnect i) m m' h r

  run-IsConfined :
      (es : List Event) (m m' : System db)
      → All IsAllowed es
      → IsConfined m
      → run db es m ≡ ok m'
      → IsConfined m'
  unfolding run
  run-IsConfined [] m m' k h r = subst IsConfined (ok_injective r) h
  run-IsConfined (e ∷ es) m m' k h r =
      let (t, a, rest) = >>=-eq-ok (step db e m) _ r in
      run-IsConfined es t m' k.1 (step-IsConfined e m t k.0 h a) rest

  -- From a master that has just started, after any events in any order that the master survives:
  -- each file stands below a user that an accepted connection's certificate names, no part of its
  -- path is empty or begins with a dot, and each session is signed.
  pub served-IsConfined :
      (es : List Event) (m : System db)
      → All IsAllowed es
      → run db es (start db) ≡ ok m
      → IsConfined m
  served-IsConfined es m k r = run-IsConfined es (start db) m k start-IsConfined r
