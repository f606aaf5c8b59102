-- ===== src/Client/Tests.antt =====
-- Calls of a client whose first connection, number 0, was shut down.
use rufs.Base.{
  ℕ, ◌*◌, ◌≡◌, refl, [], ◌∷◌, nat_eq, if◌then◌else◌, shutdown, no_peer, Result, ok, err, text,
  protocol_not_supported,
}
use rufs.Client.{MasterClient, new_client, append_callback, recall, call}
use rufs.Client.Calls.{read, signin}
use rufs.Client.{run_callbacks}
use rufs.Client.Overlap.{Shared, Reach, calling, over, callbacks_lost}

abbrev client : MasterClient
client = record { conn = 0; callbacks = 7 ∷ 8 ∷ 9 ∷ []; ran = [] }

client_is : append_callback 9 (append_callback 8 (append_callback 7 (new_client 0))) ≡ client
unfolding append_callback new_client
client_is = refl

abbrev rpc : ℕ → Result ℕ
rpc n = if nat_eq n 0 then err shutdown else ok (n * 10)

abbrev all_work : ℕ → ℕ → Result (Unit {0})
all_work cb conn = ok tt

abbrev eight_fails : ℕ → ℕ → Result (Unit {0})
eight_fails cb conn = if nat_eq cb 8 then err no_peer else ok tt

-- The callbacks run on the new connection, then the call.
connected_again :
    call rpc all_work (ok 4) client
    ≡ (record client { conn = 4; ran = (9, 4) ∷ (8, 4) ∷ (7, 4) ∷ [] }, ok 40)
unfolding run_callbacks recall call
connected_again = refl

-- A peer that has restarted is read over a new connection.
peer_again :
    read
      (λ n q. if nat_eq n 0 then err shutdown else ok (q.offset ∷ q.size ∷ []))
      (λ a. ok 4)
      (text "h")
      1
      2
      (record { addr = text "amy:1667"; conn = 0 })
    ≡ (record { addr = text "amy:1667"; conn = 4 }, ok (1 ∷ 2 ∷ []))
unfolding read
peer_again = refl

-- The client's Signin asks for the version that the master takes.
version :
    (signin all_work
      (ok 4)
      (λ n q. if nat_eq q.protocol_version 1 then ok tt else err protocol_not_supported)
      (text "amy:1667")
      (text "amy")
      (new_client 0)).1
    ≡ ok tt
unfolding signin new_client
version = refl

callbacks_lost_example :
    (t : Shared) × Reach all_work
      (record { callbacks = 7 ∷ 8 ∷ 9 ∷ []; calls = calling ∷ calling ∷ [] })
      t
    × (t.callbacks ≡ [])
    × (t.calls
        ≡ over (run_callbacks all_work 4 (7 ∷ 8 ∷ 9 ∷ []) []).1
          ∷ over (run_callbacks all_work 4 [] []).1
          ∷ [])
callbacks_lost_example = callbacks_lost all_work (7 ∷ 8 ∷ 9 ∷ []) 4
