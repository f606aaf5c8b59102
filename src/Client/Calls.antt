-- ===== src/Client/Calls.antt =====
-- types.go: the typed calls of `RUFSMasterClient`, and `RUFSClient`, which a peer or the master
-- calls a server with. What a connection answers to a request is a parameter.
use rufs.Base.{ℕ, List, Str, shutdown, Result, ok, err, panic}
use rufs.Frontend.{DirReply}
use rufs.Master.{RegisterRequest, SigninRequest, SetFileRequest}
use rufs.Client.{MasterClient, call}

pub record GetDirRequest : Type 0 where
  pub path : Str

pub record GetOwnersRequest : Type 0 where
  pub hash : Str

pub record ReadRequest : Type 0 where
  pub hash : Str
  pub offset : ℕ
  pub size : ℕ

-- The callbacks and the dialling are those of `call`.
module _ (does : ℕ → ℕ → Result (Unit {0})) (dial : Result ℕ) where
  unfoldable pub register :
      (ℕ → RegisterRequest → Result Str)
      → Str
      → Str
      → List ℕ
      → MasterClient
      → MasterClient × Result Str
  unfolding call
  register rpc user token public_key c =
      call (λ conn. rpc conn (record { user = user; token = token; public_key = public_key })) does
        dial c

  unfoldable pub signin :
      (ℕ → SigninRequest → Result (Unit {0}))
      → Str
      → Str
      → MasterClient
      → MasterClient × Result (Unit {0})
  unfolding call
  signin rpc addr user c =
      call (λ conn. rpc conn (record { protocol_version = 1; user = user; address = addr })) does
        dial c

  unfoldable pub set_file :
      (ℕ → SetFileRequest → Result (Unit {0}))
      → SetFileRequest
      → MasterClient
      → MasterClient × Result (Unit {0})
  unfolding call
  set_file rpc q c = call (λ conn. rpc conn q) does dial c

  unfoldable pub get_dir :
      (ℕ → GetDirRequest → Result DirReply) → Str → MasterClient → MasterClient × Result DirReply
  unfolding call
  get_dir rpc path c = call (λ conn. rpc conn (record { path = path })) does dial c

  unfoldable pub get_owners :
      (ℕ → GetOwnersRequest → Result (List Str))
      → Str
      → MasterClient
      → MasterClient × Result (List Str)
  unfolding call
  get_owners rpc hash c = call (λ conn. rpc conn (record { hash = hash })) does dial c

-- `RUFSClient`; its connection is known by its number.
pub record PeerClient : Type 0 where
  pub addr : Str
  pub conn : ℕ

unfoldable pub new_peer_client : Str → Result ℕ → Result PeerClient
new_peer_client addr dial = elim dial [
  | ok conn ↦ ok (record { addr = addr; conn = conn })
  | err e ↦ err e
  | panic ↦ panic
]

-- `Call` of `RUFSClient`: the one that was shut down is dialled again, once.
unfoldable pub peer_call {ℓ} :
    {A : Type ℓ} → (ℕ → Result A) → (Str → Result ℕ) → PeerClient → PeerClient × Result A
unfolding new_peer_client
peer_call rpc dial c = elim (rpc c.conn) [
  | ok a ↦ (c, ok a)
  | panic ↦ (c, panic)
  | err e ↦ elim e [
    | shutdown ↦ elim (new_peer_client c.addr (dial c.addr)) [
      | ok c' ↦ (c', rpc c'.conn)
      | err e' ↦ (c, err e')
      | panic ↦ (c, panic)
    ]
    | other ↦ (c, err other)
  ]
]

unfoldable pub ping :
    (ℕ → Result (Unit {0})) → (Str → Result ℕ) → PeerClient → PeerClient × Result (Unit {0})
unfolding peer_call
ping rpc dial c = peer_call rpc dial c

unfoldable pub read :
    (ℕ → ReadRequest → Result (List ℕ))
    → (Str → Result ℕ)
    → Str
    → ℕ
    → ℕ
    → PeerClient
    → PeerClient × Result (List ℕ)
unfolding peer_call
read rpc dial hash offset size c =
    peer_call (λ conn. rpc conn (record { hash = hash; offset = offset; size = size })) dial c
