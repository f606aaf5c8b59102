-- ===== src/Master/Tests.antt =====
-- Runs of the master, and the theorems at concrete inputs.
use rufs.Base.{
  token_invalid, ◌≡◌, refl, true, some, Str, text, List, [], ◌∷◌, ◌++◌, sym, ok_injective, ok, err,
  pos, ◌==◌, lookup, insert, delete, contains, split, has_prefix, invalid_part,
}
use rufs.Common.{FileInfo}
use rufs.MemoryDb
use rufs.MemoryDb.Instance.{memory_store, memory_store-Laws}
use rufs.Vault.{create_auth_token, sign_client}
use rufs.Vault.Files.{Bytes, MasterVault, create_cert_template, certificate}
use rufs.Vault.Samples.{crypto, draw}
use rufs.Master.Registration.{IsIssued, register-create_auth_token}
use rufs.Master
use rufs.Master.{
  Conn, Network, Peer, new_peer, RegisterRequest, SigninRequest, SetFileRequest, register,
}
use rufs.Master.Sessions.{IsAccepted, signin-IsAccepted}
use rufs.Master.System.{Event, accept, signin, set_file, System, start, run}
use rufs.Master.Confinement.{IsConfined, served-IsConfined}

program : Unit {0}
unfolding register Master.signin Master.set_file Master.disconnected start run create_auth_token
    sign_client create_cert_template MemoryDb.new_database MemoryDb.set_file
    MemoryDb.peer_disconnected ◌==◌ lookup insert delete contains split has_prefix
program = tt

abbrev net : Network
net = record {
  dials = λ a u. true;
  pings = λ a u. true;
  split_host = λ a. text "10.0.0.1";
  join_host_port = λ h p. h ++ text ":" ++ p;
}

abbrev conn : Conn
conn = record { verified = (text "amy" ∷ text "ca" ∷ []) ∷ []; remote_addr = text "10.0.0.1:999" }

abbrev hello : SigninRequest
hello = record { protocol_version = 1; user = text "amy"; address = text ":1667" }

abbrev amy : Peer
amy = record { user = text "amy"; address = text "10.0.0.1:1667"; ident = text "amy@10.0.0.1:1667" }

signin_runs : Master.signin net conn hello new_peer ≡ ok amy
unfolding program
signin_runs = refl

signin-IsAccepted_example : IsAccepted net conn hello new_peer amy
signin-IsAccepted_example = signin-IsAccepted net conn hello new_peer amy signin_runs

abbrev vault : MasterVault
vault = record { ca = 8 ∷ []; priv = 7 ∷ [] }

abbrev application : RegisterRequest
application = record { user = text "amy"; token = text "amy" ++ 0 ∷ 7 ∷ []; public_key = 1 ∷ [] }

abbrev cert_for_amy : Bytes
cert_for_amy = crypto.encode_to_memory certificate (text "amy" ++ 8 ∷ 7 ∷ 1 ∷ [])

register_runs : register crypto draw vault application ≡ ok cert_for_amy
unfolding program
register_runs = refl

-- bob sends amy's token.
stolen : register crypto draw vault (record application { user = text "bob" }) ≡ err token_invalid
unfolding program
stolen = refl

token_for_amy : application.token ≡ create_auth_token crypto vault (text "amy")
unfolding program
token_for_amy = refl

register-create_auth_token_example :
    (text "amy" ≡ text "amy") × IsIssued crypto vault (text "amy") (1 ∷ []) cert_for_amy
register-create_auth_token_example =
    register-create_auth_token crypto draw vault application (text "amy") cert_for_amy token_for_amy
      (λ same. same) register_runs

abbrev song : FileInfo
song = record { size = 3; hash = text "h1"; mtime = 5 }

abbrev publish : SetFileRequest
publish = record { path = text "music/song"; info = some song }

hidden_refused :
    Master.set_file memory_store
      (record publish { path = text "music/.song" })
      amy
      MemoryDb.new_database
    ≡ err (invalid_part (text ".song"))
unfolding program
hidden_refused = refl

abbrev stored : MemoryDb.Database
stored = record {
  file_tree =
      MemoryDb.directory
        (MemoryDb.cons (text "amy")
          (MemoryDb.directory
            (MemoryDb.cons (text "music")
              (MemoryDb.directory MemoryDb.nil ((text "song", song) ∷ []) (pos 1)) MemoryDb.nil)
            [] (pos 1))
          MemoryDb.nil)
        [] (pos 1);
  owners = (text "h1", (text "amy@10.0.0.1:1667", pos 1) ∷ []) ∷ [];
}

publish_runs : Master.set_file memory_store publish amy MemoryDb.new_database ≡ ok stored
unfolding program
publish_runs = refl

abbrev events : List Event
events = accept conn ∷ signin 0 net hello ∷ set_file 0 publish ∷ set_file 1 publish ∷ []

abbrev served : System memory_store
served = record { state = stored; sessions = some (record { conn = conn; peer = amy }) ∷ [] }

abbrev IsAmy : Str → Type 0
IsAmy u = u ≡ text "amy"

served-IsConfined_example : IsConfined memory_store memory_store-Laws IsAmy served
unfolding program
served-IsConfined_example =
    served-IsConfined memory_store memory_store-Laws IsAmy events served
      (λ u e. sym (ok_injective e), (tt, (tt, (tt, tt)))) refl
