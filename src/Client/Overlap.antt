-- ===== src/Client/Overlap.antt =====
-- types.go: calls on one client that overlap after a shutdown. The threads that send SetFile
-- requests share a client, and `Call` takes the callbacks out of it and puts them back with no
-- lock.
use rufs.Base.{
  ℕ, ◌≡◌, refl, List, [], ◌∷◌, some, ◌⊎◌, inr, All, All-set, All-get, get_elem?, set, Result,
}
use rufs.Client.{run_callbacks}

-- Where a call stands: it is on its connection, it has made a new one and runs the callbacks that
-- it took, or it has put them back, with how they came out.
pub data Phase : Type 0 where
  calling : Phase
  running : List ℕ → Phase
  over : Result (Unit {0}) → Phase

-- `reconnCb` as the chain of its callbacks, and the calls.
pub record Shared : Type 0 where
  pub callbacks : List ℕ
  pub calls : List Phase

-- A call that has found the connection shut down takes the callbacks and leaves one that does
-- nothing; a call puts back what it took, whatever comes out. `does` is what a callback does on
-- the new connection.
pub data Step (does : ℕ → ℕ → Result (Unit {0})) (s : Shared) : Shared → Type 0 where
  takes :
      (i : ℕ)
      → get_elem? s.calls i ≡ some calling
      → Step does s (record { callbacks = []; calls = set s.calls i (running s.callbacks) })
  puts_back :
      (i conn : ℕ) (taken : List ℕ)
      → get_elem? s.calls i ≡ some (running taken)
      → Step does s (record {
        callbacks = taken;
        calls = set s.calls i (over (run_callbacks does conn taken []).1);
      })

pub data Reach (does : ℕ → ℕ → Result (Unit {0})) (s : Shared) : Shared → Type 0 where
  here : Reach does s s
  later : {t u : Shared} → Reach does s t → Step does t u → Reach does s u

-- The chain is the whole one, or the one that does nothing.
abbrev IsWhole : List ℕ → List ℕ → Type 0
IsWhole whole cbs = (cbs ≡ whole) ⊎ (cbs ≡ [])

abbrev IsTaken : List ℕ → Phase → Type 0
IsTaken whole calling = Unit
IsTaken whole (running taken) = IsWhole whole taken
IsTaken whole (over r) = Unit

abbrev IsSplit : List ℕ → Shared → Type 0
IsSplit whole s = IsWhole whole s.callbacks × All (IsTaken whole) s.calls

Step-IsSplit :
    {does : ℕ → ℕ → Result (Unit {0})} (whole : List ℕ) {s t : Shared}
    → Step does s t
    → IsSplit whole s
    → IsSplit whole t
Step-IsSplit whole {s} (takes i e) h =
    (inr refl, All-set (IsTaken whole) s.calls i (running s.callbacks) h.1 h.0)
Step-IsSplit whole {s} (puts_back i conn taken e) h = (
  All-get (IsTaken whole) s.calls i (running taken) h.1 e,
  All-set (IsTaken whole) s.calls i _ h.1 tt,
)

-- However calls on a client overlap, its chain of reconnect callbacks is the whole one or the one
-- that does nothing, never a part of it.
reach_splits :
    {does : ℕ → ℕ → Result (Unit {0})} (whole : List ℕ) {s t : Shared}
    → Reach does s t
    → IsSplit whole s
    → IsSplit whole t
reach_splits whole here h = h
reach_splits whole (later r st) h = Step-IsSplit whole st (reach_splits whole r h)

-- Two calls on a client that both find the connection shut down may end with its callbacks lost:
-- the second takes those that do nothing, so it runs none before its call, and puts them back
-- after the first has put back the whole chain. From then on a reconnect runs none of them, not
-- even the one that signs in.
pub callbacks_lost :
    (does : ℕ → ℕ → Result (Unit {0})) (whole : List ℕ) (conn : ℕ)
    → (t : Shared) × Reach does (record { callbacks = whole; calls = calling ∷ calling ∷ [] }) t
      × (t.callbacks ≡ [])
      × (t.calls
          ≡ over (run_callbacks does conn whole []).1 ∷ over (run_callbacks does conn [] []).1 ∷ [])
callbacks_lost does whole conn = (
  _,
  later (later (later (later here (takes 0 refl)) (takes 1 refl)) (puts_back 0 conn whole refl))
      (puts_back 1 conn [] refl),
  refl,
  refl,
)
