-- ===== src/Client/Reconnect.antt =====
-- What a call does when the connection was shut down.
use rufs.Base.{
  ℕ, ◌≡◌, refl, ◌∙◌, ap, List, [], ◌∷◌, ◌++◌, All, Error, shutdown, reconnect_failed, Result, ok,
  err, arith,
}
use rufs.Client.{MasterClient, run_callbacks, call}

-- The log after every callback of a chain has run on a connection, in order.
abbrev pub logged : ℕ → List ℕ → List (ℕ × ℕ) → List (ℕ × ℕ)
logged conn [] log = log
logged conn (cb ∷ cbs) log = logged conn cbs ((cb, conn) ∷ log)

module _ (does : ℕ → ℕ → Result (Unit {0})) (conn : ℕ) where
  run_callbacks-ok :
      (cbs : List ℕ) (log : List (ℕ × ℕ))
      → All (λ cb. does cb conn ≡ ok tt) cbs
      → run_callbacks does conn cbs log ≡ (logged conn cbs log, ok tt)
  unfolding run_callbacks
  run_callbacks-ok [] log h = refl
  run_callbacks-ok (cb ∷ cbs) log h =
      rw (h.0, run_callbacks) (run_callbacks-ok cbs ((cb, conn) ∷ log) h.1)

  -- The first callback that fails ends the chain.
  stopped :
      (cbs rest : List ℕ) (cb : ℕ) (e : Error) (log : List (ℕ × ℕ))
      → All (λ cb. does cb conn ≡ ok tt) cbs
      → does cb conn ≡ err e
      → run_callbacks does conn (cbs ++ cb ∷ rest) log ≡ ((cb, conn) ∷ logged conn cbs log, err e)
  unfolding run_callbacks
  stopped [] rest cb e log h f = rw (f, run_callbacks) refl
  stopped (c ∷ cbs) rest cb e log h f =
      rw (h.0, run_callbacks) (stopped cbs rest cb e ((c, conn) ∷ log) h.1 f)

module _ {ℓ} {A : Type ℓ} (rpc : ℕ → Result A) (does : ℕ → ℕ → Result (Unit {0}))
    (c : MasterClient) where
  -- After a shutdown with a new connection, where every callback succeeds: each has run once, in
  -- order, on the new connection, and the result is that of the call on the new connection.
  pub call_after_shutdown :
      (conn : ℕ)
      → rpc c.conn ≡ err shutdown
      → All (λ cb. does cb conn ≡ ok tt) c.callbacks
      → call rpc does (ok conn) c
        ≡ (record c { conn = conn; ran = logged conn c.callbacks c.ran }, rpc conn)
  unfolding call
  call_after_shutdown conn s h = rw (s, call, run_callbacks-ok does conn c.callbacks c.ran h) refl

  -- Where a callback fails, the ones behind it do not run and the call is not made again.
  pub call_after_failed_callback :
      (conn : ℕ) (cbs rest : List ℕ) (cb : ℕ) (e : Error)
      → rpc c.conn ≡ err shutdown
      → c.callbacks ≡ cbs ++ cb ∷ rest
      → All (λ cb. does cb conn ≡ ok tt) cbs
      → does cb conn ≡ err e
      → call rpc does (ok conn) c
        ≡ (record c { conn = conn; ran = (cb, conn) ∷ logged conn cbs c.ran }, err reconnect_failed)
  unfolding call
  call_after_failed_callback conn cbs rest cb e s split h f =
      let ran : run_callbacks does conn c.callbacks c.ran
          ≡ ((cb, conn) ∷ logged conn cbs c.ran, err e) =
        ap (λ l. run_callbacks does conn l c.ran) split
        ∙ stopped does conn cbs rest cb e c.ran h f in
      rw (s, call, ran) refl

  -- Whatever happens, the chain of callbacks is the same after a call.
  pub callbacks-call : (dial : Result ℕ) → (call rpc does dial c).0.callbacks ≡ c.callbacks
  unfolding call
  callbacks-call dial = ground arith
