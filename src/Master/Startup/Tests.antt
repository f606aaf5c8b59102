-- ===== src/Master/Startup/Tests.antt =====
-- A new master, and its first start.
use rufs.Base.{◌≡◌, refl, [], ◌∷◌, ◌++◌, none, text, Result, ok, ◌>>=◌, ◌==◌, lookup, insert}
use rufs.MemoryDb
use rufs.MemoryDb.{Database}
use rufs.Vault.{create_auth_token}
use rufs.Vault.Files.{
  Files, create_cert_template, create_ca_files, pem_to_file, create_key_pair, create_ca,
}
use rufs.Vault.Loading.{working}
use rufs.Vault.Samples.{crypto, pki, pki_laws, in_dir, draw, template}
use rufs.Master.Startup.{
  Master, new_master, setup, prints, gen_master_keys, new_master-gen_master_keys,
}

program : Unit {0}
unfolding create_cert_template create_ca_files pem_to_file create_key_pair create_ca gen_master_keys
    ◌==◌ lookup insert
program = tt

abbrev keys : Files × Result (Unit {0})
keys = gen_master_keys pki in_dir none draw working working (ok (7 ∷ [])) (text "m") []

abbrev begun : Result (Master Database)
begun = new_master pki in_dir none (ok MemoryDb.new_database) (text "1666") (text "m") keys.0

new_master-gen_master_keys_example :
    (keys.1 ≡ ok tt)
    × (begun
        ≡ ok (record {
          port = text "1666";
          dir = text "m";
          vault = record { ca = text "rufs-master" ++ 0 ∷ 7 ∷ []; priv = 7 ∷ [] };
          db = MemoryDb.new_database;
        }))
    × ((begun >>= setup crypto (ok tt) (text "amy"))
        ≡ ok (
            prints (
              create_auth_token crypto
                (record { ca = text "rufs-master" ++ 0 ∷ 7 ∷ []; priv = 7 ∷ [] })
                (text "amy"))))
unfolding program
new_master-gen_master_keys_example =
    new_master-gen_master_keys pki pki_laws crypto in_dir draw (text "1666") (text "m") (text "amy")
      template (7 ∷ []) (text "rufs-master" ++ 0 ∷ 7 ∷ []) MemoryDb.new_database (ok tt) [] refl
      refl refl refl refl refl refl
