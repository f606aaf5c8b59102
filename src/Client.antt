-- ===== src/Client.antt =====
-- types.go: `RUFSMasterClient` calls again over a new connection when the old one was shut down,
-- after its reconnect callbacks have run. A callback stands for its result on the new connection:
-- that the new one may be shut down in turn, while a callback calls over it, is not modelled.
pub mod Reconnect
pub mod Overlap
pub mod Calls
mod Tests
use rufs.Base.{
  ℕ, ◌+◌, List, [], ◌∷◌, ◌++◌, Bool, true, false, Error, shutdown, reconnect_failed, if◌then◌else◌,
  Result, ok, err, panic,
}

-- A connection is known by its number. `reconnCb` is the chain of functions that
-- `AppendReconnectCallback` has built, in the order in which they run.
pub record MasterClient : Type 0 where
  pub conn : ℕ
  pub callbacks : List ℕ
  -- The callbacks that have run, the last one first, each with the connection that it ran on.
  pub ran : List (ℕ × ℕ)

unfoldable pub new_client : ℕ → MasterClient
new_client conn = record { conn = conn; callbacks = []; ran = [] }

-- `SetReconnectCallback`
unfoldable pub set_callback : ℕ → MasterClient → MasterClient
set_callback cb c = record c { callbacks = cb ∷ [] }

-- `AppendReconnectCallback`: the old function first, and the new one unless that failed.
unfoldable pub append_callback : ℕ → MasterClient → MasterClient
append_callback cb c = record c { callbacks = c.callbacks ++ cb ∷ [] }

-- Runs the chain on a connection up to the first error; `does` is what a callback returns.
unfoldable pub run_callbacks :
    (ℕ → ℕ → Result (Unit {0})) → ℕ → List ℕ → List (ℕ × ℕ) → List (ℕ × ℕ) × Result (Unit {0})
run_callbacks does conn [] log = (log, ok tt)
run_callbacks does conn (cb ∷ cbs) log = elim (does cb conn) [
  | ok u ↦ run_callbacks does conn cbs ((cb, conn) ∷ log)
  | err e ↦ ((cb, conn) ∷ log, err e)
  | panic ↦ ((cb, conn) ∷ log, panic)
]

-- The rest of `Call` after the new connection is made: the callbacks run with `reconnCb` set to
-- nothing, which is put back at the end; then the call is made once more.
unfoldable pub recall {ℓ} :
    {A : Type ℓ}
    → (ℕ → Result A)
    → (ℕ → ℕ → Result (Unit {0}))
    → ℕ
    → MasterClient
    → MasterClient × Result A
unfolding run_callbacks
recall rpc does conn c =
    let (log, r) = run_callbacks does conn c.callbacks c.ran in
    (
      record c { conn = conn; ran = log },
      elim r [ ok u ↦ rpc conn | err e ↦ err reconnect_failed | panic ↦ panic ],
    )

-- `Call`: `rpc` is the call on a connection, `dial` the new connection, if it can be made.
unfoldable pub call {ℓ} :
    {A : Type ℓ}
    → (ℕ → Result A)
    → (ℕ → ℕ → Result (Unit {0}))
    → Result ℕ
    → MasterClient
    → MasterClient × Result A
unfolding recall
call rpc does dial c = elim (rpc c.conn) [
  | ok a ↦ (c, ok a)
  | panic ↦ (c, panic)
  | err e ↦ elim e [
    | shutdown ↦ elim dial [
      | ok conn ↦ recall rpc does conn c
      | err e' ↦ (c, err reconnect_failed)
      | panic ↦ (c, panic)
    ]
    | other ↦ (c, err other)
  ]
]
