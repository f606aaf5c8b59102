-- ===== src/Server/Tests.antt =====
-- Offers of a server with one share.
use rufs.Base.{
  Bool, if◌then◌else◌, ◌≡◌, refl, false, none, some, text, ◌==◌, [], ◌∷◌, lookup, insert, delete,
  contains, split, enoent, ok, err, slash, ◌++◌, no_peer, other_error, token_invalid,
}
use rufs.Common.{FileInfo}
use rufs.Scanner.{put_or_delete, info_or_zero}
use rufs.Fuse.{join_path}
use rufs.Server.{Server, set_file, parse_shares, read, split_share_path}
use rufs.Vault.Files.{Files, Pki, Join, create_key_pair, pem_to_file}
use rufs.Vault.Loading.{working}
use rufs.Client.{new_client, set_callback}
use rufs.Client.Calls.{register, signin}
use rufs.Scanner.{Listener, Scanner, set_info, continuous_export, notify}
use rufs.Server.Exporting.{deliver, sent, continuous_export-IsTracking}
use rufs.Server.Setup.{Flags, Env, get_certificates, setup, signin_addr, serves}
use rufs.Server.Offers.{offers, IsTracking, set_file-IsTracking}

program : Unit {0}
unfolding create_key_pair pem_to_file new_client set_callback register signin get_certificates setup
    signin_addr join_path set_file read split_share_path parse_shares offers ◌==◌ lookup insert
    delete contains split
program = tt

abbrev song : FileInfo
song = record { size = 3; hash = text "h1"; mtime = 5 }

abbrev remix : FileInfo
remix = record { size = 4; hash = text "h2"; mtime = 6 }

abbrev idle : Server
idle = record { shares = (text "music", text "/srv/music") ∷ []; hash_to_path = []; requests = [] }

abbrev offering : Server
offering = set_file (text "music") (text "song") (some song) none idle

shares_named :
    parse_shares (λ p. p) (λ p. p) (text "a=/x,/y")
    ≡ ok ((text "a", text "/x") ∷ (text "/y", text "/y") ∷ [])
unfolding program
shares_named = refl

reads_offered :
    read
      (λ p. if p == text "/srv/music/song" then ok (5 ∷ 6 ∷ 7 ∷ []) else err enoent)
      (text "h1")
      1
      2
      offering
    ≡ ok (6 ∷ 7 ∷ [])
unfolding program
reads_offered = refl

set_file-IsTracking_example :
    IsTracking (text "music") (put_or_delete (text "song") (some song) []) (
      set_file
        (text "music")
        (text "song")
        (some song)
        (some (info_or_zero (lookup (text "song") [])))
        idle)
unfolding program
set_file-IsTracking_example =
    set_file-IsTracking (text "music") (text "song") (some song) [] idle (λ k h. refl)

abbrev pki : Pki
pki = record {
  pem_encode = λ t b. b;
  pem_decode = λ b. some (text "CERTIFICATE", b);
  parse_certificate = λ b. ok b;
  parse_key = λ b. ok b;
  self_sign = λ t priv. ok priv;
}

abbrev in_dir : Join
in_dir dir fn = dir ++ slash ∷ fn

abbrev flags : Flags
flags = record {
  user = text "amy";
  port = text "1667";
  ext_ip = [];
  share = text "/srv/music";
  register_token = text "t";
  var_storage = text "~";
}

abbrev env : Env
env = record {
  listen = ok tt;
  connect = ok 3;
  dial_again = err no_peer;
  signins = λ conn q. if q.address == text ":1667" then ok tt else err no_peer;
  registers = λ conn q. ok (text "cert");
  generated = ok (7 ∷ []);
  serialize = λ priv. ok priv;
  write_key = working;
  write_certificate = none;
}

abbrev refusing : Env
refusing = record env { registers = λ conn q. err token_invalid }

abbrev refused : Files
refused = (setup pki in_dir refusing flags none []).0

-- A registration that the master refuses leaves the key behind, which makes the next one fail,
-- whatever the master says.
key_in_the_way :
    (setup pki in_dir env flags none refused)
    ≡ ((text "~/amy.key", 7 ∷ []) ∷ [], err (other_error 17))
unfolding program
key_in_the_way = refl

served :
    (setup pki in_dir env (record flags { register_token = [] }) (some (1 ∷ [])) []).1
    ≡ ok (serves (set_callback 0 (new_client 3)))
unfolding program
served = refl

abbrev listening : Scanner
listening = record { file_cache = []; listeners = 1 ∷ []; exports = [] }

abbrev live : Listener → Bool
live l = false

-- The song has been exported to the first listener.
abbrev scanned : Scanner
scanned = set_info live (text "song") (some song) listening

continuous_export-IsTracking_example :
    IsTracking
      (text "music")
      scanned.file_cache
      (deliver (text "music") (continuous_export live 2 scanned).exports idle)
    × ((deliver (text "music") (continuous_export live 2 scanned).exports idle).requests
        ≡ sent
            (text "music")
            scanned.file_cache
            (deliver (text "music") scanned.exports idle).requests)
unfolding program set_info notify deliver
continuous_export-IsTracking_example =
    continuous_export-IsTracking (text "music") 2 live scanned idle (refl, tt) refl
      (set_file-IsTracking (text "music") (text "song") (some song) [] idle (λ k h. refl))
