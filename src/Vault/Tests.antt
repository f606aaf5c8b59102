-- ===== src/Vault/Tests.antt =====
-- A vault in a directory of its own.
use rufs.Base.{◌≡◌, refl, [], ◌∷◌, none, some, text, ◌==◌, lookup, insert, delete, ok, err, no_peer}
use rufs.Vault.Files.{
  create_cert_template, create_ca_files, Files, Writing, pem_to_file, pem_from_file,
  create_key_pair, create_ca, load_certificate, load_master_vault, get_tls_config, tls_server,
  tls_master, require_and_verify_client_cert, verify_client_cert_if_given,
}
use rufs.Vault.Samples.{pki, in_dir, draw}
use rufs.Vault.Loading.{working}

program : Unit {0}
unfolding create_cert_template create_ca_files pem_to_file pem_from_file create_key_pair create_ca
    load_certificate load_master_vault get_tls_config ◌==◌ lookup insert delete
program = tt

abbrev full_disk : Writing
full_disk = record { open_error = none; encode_error = some no_peer; close_error = none }

-- A certificate that cannot be written takes the key with it.
undone :
    create_ca pki in_dir draw working full_disk (ok (7 ∷ [])) (text "m") (text "rufs") []
    ≡ ([], err no_peer)
unfolding program
undone = refl

-- A key that is there is in the way of a new one.
in_the_way :
    (create_key_pair pki working (ok (8 ∷ [])) (text "amy.key") ((text "amy.key", 1 ∷ []) ∷ [])).0
    ≡ (text "amy.key", 1 ∷ []) ∷ []
unfolding program
in_the_way = refl

-- Servers ask for certificates, and the master verifies those that it is given.
asks_for_one :
    (get_tls_config tls_server (1 ∷ []) none (text "amy")).client_auth
    ≡ require_and_verify_client_cert
unfolding program
asks_for_one = refl

takes :
    (get_tls_config tls_master (1 ∷ []) none (text "m")).client_auth ≡ verify_client_cert_if_given
unfolding program
takes = refl

abbrev made : Files
made =
    (create_ca pki in_dir draw working working (ok (7 ∷ [])) (text "m") (text "rufs-master") []).0
