-- ===== src/Master/System.antt =====
-- The master as it serves many connections: a session for each one, and the shared database.
-- Events come in any order; the number of a session is its place in the list.
use rufs.Base.{
  ℕ, List, [], ◌∷◌, ◌++◌, Option, none, some, get_elem?, set, Result, ok, err, panic, ◌>>=◌,
}
use rufs.Store.{Store}
use rufs.Master
use rufs.Master.{Conn, Network, Peer, new_peer, SigninRequest, SetFileRequest, leaf_name}

pub record Session : Type 0 where
  pub conn : Conn
  pub peer : Peer

-- `Run` of master.go accepts a connection and serves its calls until it ends. The handlers that
-- only read are no events, since they change nothing.
pub data Event : Type 0 where
  accept : Conn → Event
  signin : ℕ → Network → SigninRequest → Event
  set_file : ℕ → SetFileRequest → Event
  disconnect : ℕ → Event

module _ (db : Store) where
  -- A session that has ended is `none`.
  pub record System : Type 0 where
    pub state : db.State
    pub sessions : List (Option Session)

  unfoldable pub start : System
  start = record { state = db.init; sessions = [] }

  unfoldable pub session_at : ℕ → System → Option Session
  session_at i m = elim (get_elem? m.sessions i) [ none ↦ none | some s ↦ s ]

  -- The reply to an error goes to the client, and the master goes on as it was.
  abbrev pub after_call {ℓ} : {A : Type ℓ} → Result A → System → (A → System) → Result System
  after_call (ok a) m f = ok (f a)
  after_call (err e) m f = ok m
  after_call panic m f = panic

  abbrev pub call : ℕ → Session → Event → System → Result System
  call i x (accept c) m = ok m
  call i x (signin j net q) m =
      after_call (Master.signin net x.conn q x.peer) m
        (λ p. record m { sessions = set m.sessions i (some (record x { peer = p })) })
  call i x (set_file j q) m =
      after_call (Master.set_file db q x.peer m.state) m (λ s. record m { state = s })
  call i x (disconnect j) m =
      after_call (Master.disconnected db x.peer m.state) m
        (λ s. record { state = s; sessions = set m.sessions i none })

  abbrev pub call_at : ℕ → Event → System → Result System
  call_at i e m = elim (session_at i m) [ none ↦ ok m | some x ↦ call i x e m ]

  unfoldable pub step : Event → System → Result System
  unfolding session_at
  step (accept c) m =
      ok (record m { sessions = m.sessions ++ some (record { conn = c; peer = new_peer }) ∷ [] })
  step (signin i net q) m = call_at i (signin i net q) m
  step (set_file i q) m = call_at i (set_file i q) m
  step (disconnect i) m = call_at i (disconnect i) m

  unfoldable pub run : List Event → System → Result System
  unfolding step
  run [] m = ok m
  run (e ∷ es) m = do m' ← step e m; run es m'
