-- ===== src/Server/Creating/Tests.antt =====
-- A new user asks for a certificate, and starts again with it.
use rufs.Base.{
  ◌≡◌, refl, [], ◌∷◌, ◌++◌, none, some, text, ok, err, no_peer, ◌==◌, split, lookup, insert,
}
use rufs.Client.{new_client}
use rufs.Client.Calls.{register}
use rufs.Vault.Files.{
  Files, private_key, certificate, TlsCertificate, create_key_pair, pem_to_file, pem_from_file,
  load_certificate,
}
use rufs.Vault.Loading.{working}
use rufs.Vault.Samples.{pki, pki_laws, in_dir}
use rufs.Server.{parse_shares}
use rufs.Server.Setup.{Flags, Env, get_certificates}
use rufs.Server.Creating.{Parts, own_certificate, new_server, new_server-get_certificates}

program : Unit {0}
unfolding create_key_pair pem_to_file pem_from_file load_certificate register get_certificates
    own_certificate new_server parse_shares split ◌==◌ lookup insert
program = tt

abbrev env : Env
env = record {
  listen = ok tt;
  connect = ok 3;
  dial_again = err no_peer;
  signins = λ conn q. ok tt;
  registers = λ conn q. ok (q.user ++ text " is known");
  generated = ok (7 ∷ []);
  serialize = λ priv. ok priv;
  write_key = working;
  write_certificate = none;
}

abbrev flags : Flags
flags = record {
  user = text "amy";
  port = text "1667";
  ext_ip = [];
  share = text "/music";
  register_token = text "t";
  var_storage = text "v";
}

abbrev parts : Parts
parts = record {
  load_pair = λ crt key. ok (record { certificate = crt; private_key = key; leaf = none });
  get_path = λ p. p;
  base = λ p. p;
}

abbrev files : Files
files = (text "ca", pki.pem_encode certificate (1 ∷ [])) ∷ []

abbrev pair : TlsCertificate
pair = record {
  certificate = text "amy is known";
  private_key = pki.pem_encode private_key (7 ∷ []);
  leaf = none;
}

-- Before that there is no certificate.
without_files :
    new_server pki in_dir parts flags (text "ca") (text "m:1666") files
    ≡ ok (record {
      master_addr = text "m:1666";
      ca = 1 ∷ [];
      cert = none;
      server = record { shares = ([], text "/music") ∷ []; hash_to_path = []; requests = [] };
    })
unfolding program
without_files = refl

new_server-get_certificates_example :
    ((get_certificates pki in_dir env flags (new_client 3) files).1 ≡ ok tt)
    × (new_server pki in_dir parts flags
          (text "ca")
          (text "m:1666")
          (get_certificates pki in_dir env flags (new_client 3) files).0
        ≡ ok (record {
          master_addr = text "m:1666";
          ca = 1 ∷ [];
          cert = some pair;
          server = record { shares = ([], text "/music") ∷ []; hash_to_path = []; requests = [] };
        }))
unfolding program
new_server-get_certificates_example =
    new_server-get_certificates pki pki_laws in_dir env flags parts (text "ca") (text "m:1666")
      (7 ∷ []) (7 ∷ []) (1 ∷ []) (text "amy is known") pair (([], text "/music") ∷ [])
      (new_client 3) files refl refl refl refl refl refl refl refl refl refl refl refl
