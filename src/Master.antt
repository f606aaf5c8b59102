-- ===== src/Master.antt =====
-- master.go: the handlers of `RUFSMasterService`, and the sessions that they serve. A handler is
-- one atomic step: the database works under its lock, and `Signin` writes to the peer at its end.
pub mod Confinement
pub mod Sessions
pub mod Registration
pub mod System
pub mod Startup
mod Tests
use rufs.Base.{
  ℕ, zero, suc, List, [], ◌∷◌, ◌++◌, Option, none, some, Bool, true, false, not, Str, text, slash,
  split, trim_slashes, has_prefix, ◌==◌, Dict, drop, nat_eq, get_elem?, set, if◌then◌else◌, Result,
  ok, err, panic, ◌>>=◌, ◌>>◌, token_invalid, protocol_not_supported, invalid_credentials,
  no_certificate, user_mismatch, connect_back_failed, ping_failed, denied_before_signin,
  invalid_part,
}
use rufs.Common.{FileInfo}
use rufs.MemoryDb.{is_bad_part}
use rufs.Store.{Store}
use rufs.Vault.{Crypto, create_auth_token, sign_client}
use rufs.Vault.Files.{Draw, MasterVault}

-- What a TLS connection tells the handlers: the names on the certificates of its verified chains,
-- and its remote address.
pub record Conn : Type 0 where
  pub verified : List (List Str)
  pub remote_addr : Str

-- The network during a call: whether a client of an address, with a server name, can be made and
-- answers a ping, and the address functions of package net.
pub record Network : Type 0 where
  pub dials : Str → Str → Bool
  pub pings : Str → Str → Bool
  pub split_host : Str → Str
  pub join_host_port : Str → Str → Str

pub record Peer : Type 0 where
  pub user : Str
  pub address : Str
  pub ident : Str

abbrev pub new_peer : Peer
new_peer = record { user = []; address = []; ident = [] }

pub record RegisterRequest : Type 0 where
  pub user : Str
  pub token : Str
  pub public_key : List ℕ

pub record SigninRequest : Type 0 where
  pub protocol_version : ℕ
  pub user : Str
  pub address : Str

pub record SetFileRequest : Type 0 where
  pub path : Str
  pub info : Option FileInfo

unfoldable pub register : Crypto → Draw → MasterVault → RegisterRequest → Result Str
register c draw mv q =
    if create_auth_token c mv q.user == q.token
    then sign_client c draw mv q.public_key q.user
    else err token_invalid

-- `tlsState.VerifiedChains[0][0].Subject.CommonName`, after the test on the number of chains.
abbrev pub leaf_name : List (List Str) → Result Str
leaf_name [] = err no_certificate
leaf_name ([] ∷ chains) = panic
leaf_name ((name ∷ rest) ∷ chains) = ok name

-- The address to connect back to: a missing host is the host of the connection.
unfoldable pub full_address : Network → Conn → Str → Str
full_address net conn addr =
    if has_prefix addr (text ":")
    then net.join_host_port (net.split_host conn.remote_addr) (drop 1 addr)
    else addr

unfoldable pub ident_of : Str → Str → Str
ident_of user addr = user ++ text "@" ++ addr

-- The block `if addr := q.Address; addr != ""`, up to the writes to the peer.
unfoldable pub connect_back : Network → Str → Str → Result (Unit {0})
connect_back net addr user =
    if net.dials addr user
    then (if net.pings addr user then ok tt else err ping_failed)
    else err connect_back_failed

unfoldable pub signin_address : Network → Conn → SigninRequest → Peer → Result Peer
unfolding full_address ident_of connect_back
signin_address net conn q p =
    let addr = full_address net conn q.address in
    if q.address == [] then ok p else do
      connect_back net addr q.user
      ok (record p { address = addr; ident = ident_of q.user addr })

unfoldable pub signin : Network → Conn → SigninRequest → Peer → Result Peer
unfolding signin_address
signin net conn q p =
    if not (nat_eq q.protocol_version 1)
    then err protocol_not_supported
    else if q.user == []
    then err invalid_credentials
    else do
      leaf ← leaf_name conn.verified
      if leaf == q.user
          then (do p' ← signin_address net conn q p; ok (record p' { user = q.user }))
          else err user_mismatch

unfoldable pub check_parts : List Str → Result (Unit {0})
unfolding is_bad_part
check_parts [] = ok tt
check_parts (p ∷ ps) =
    let rest = check_parts ps in if is_bad_part p then err (invalid_part p) else rest

module _ (db : Store) where
  unfoldable pub set_file : SetFileRequest → Peer → db.State → Result db.State
  unfolding check_parts
  set_file q p s =
      let ex = p.user ∷ split slash q.path in
      if p.address == []
      then err denied_before_signin
      else do check_parts ex; db.set_file ex q.info p.ident s

  unfoldable pub get_dir : Str → Peer → db.State → Result (Dict FileInfo × List Str)
  get_dir path p s =
      if p.user == [] then err denied_before_signin else db.get_dir (trim_slashes path) s

  unfoldable pub get_owners : Str → Peer → db.State → Result (List Str)
  get_owners hash p s = if p.user == [] then err denied_before_signin else db.get_owners hash s

  -- The database's error is dropped.
  unfoldable pub disconnected : Peer → db.State → Result db.State
  disconnected p s = if p.address == [] then ok s else db.peer_disconnected p.ident s
