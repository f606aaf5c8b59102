-- ===== src/Master/Startup.antt =====
-- master.go: the keys of a new master, and the start of a master with them. Directories, sockets
-- and the opening of the database are parameters.
mod Tests
use rufs.Base.{
  ◌≡◌, refl, [], ◌∷◌, Option, none, some, true, false, Str, text, ◌==◌, if◌then◌else◌, lookup,
  Error, Result, ok, err, panic, ◌>>=◌, ◌>>◌,
}
use rufs.Vault.{Crypto, create_auth_token}
use rufs.Vault.Files.{
  CertTemplate, Draw, Bytes, Files, Writing, Pki, Join, create_cert_template, create_ca,
  MasterVault, load_master_vault, get_tls_cert, TlsConfig, tls_master, get_tls_config,
}
use rufs.Vault.Loading.{Laws, working, load-create_ca}

-- `ensureDirExists`, of main.go.
abbrev pub ensure_dir_exists : Option Error → Result (Unit {0})
ensure_dir_exists none = ok tt
ensure_dir_exists (some e) = panic

-- `Master`, before it listens.
pub record Master (S : Type 0) : Type 0 where
  pub port : Str
  pub dir : Str
  pub vault : MasterVault
  pub db : S

-- `newMaster`; `mkdir` is the error of the making of the directory, and `opened` what
-- `newDatabase` gives.
unfoldable pub new_master :
    {S : Type 0} → Pki → Join → Option Error → Result S → Str → Str → Files → Result (Master S)
new_master pki join_path mkdir opened port dir fs = do
  made ← ensure_dir_exists mkdir
  vault ← load_master_vault pki join_path dir fs
  db ← opened
  ok (record { port = port; dir = dir; vault = vault; db = db })

-- How `Setup` ends that does not fail: the token that was asked for is printed and the process
-- exits, or the master listens.
pub data Started : Type 0 where
  prints : Str → Started
  listens : TlsConfig → Started

-- `Setup`; `auth_for` is the flag --get_auth_token.
unfoldable pub setup : {S : Type 0} → Crypto → Result (Unit {0}) → Str → Master S → Result Started
setup c listen auth_for m =
    let cfg =
      get_tls_config tls_master m.vault.ca (some (get_tls_cert m.vault)) (text "rufs-master") in
    if auth_for == []
    then (listen >>= λ u. ok (listens cfg))
    else ok (prints (create_auth_token c m.vault auth_for))

-- `genMasterKeys`
unfoldable pub gen_master_keys :
    Pki
    → Join
    → Option Error
    → Draw
    → Writing
    → Writing
    → Result Bytes
    → Str
    → Files
    → Files × Result (Unit {0})
gen_master_keys pki join_path mkdir draw io_key io_ca generated dir fs =
    let (fs', made) =
      create_ca pki join_path draw io_key io_ca generated dir (text "rufs-master") fs in
    elim (ensure_dir_exists mkdir) [
      | err e ↦ (fs, err e)
      | panic ↦ (fs, panic)
      | ok u ↦ (
        fs',
        elim made [
          | err e ↦ err e
          | panic ↦ panic
          | ok v ↦ load_master_vault pki join_path dir fs' >>= λ vault. ok tt
        ],
      )
    ]

-- The keys that --master_gen_keys makes in a directory that has neither file, where a serial
-- number is drawn and the files can be written, are those that a master which starts in it then
-- has; asked for a token, it prints the one that belongs to the new key.
pub new_master-gen_master_keys :
    {S : Type 0} (pki : Pki) (laws : Laws pki) (c : Crypto) (join_path : Join) (draw : Draw)
    (port dir user : Str) (t : CertTemplate) (priv ca : Bytes) (db : S) (listen : Result (Unit {0}))
    (fs : Files)
    → create_cert_template draw true (text "rufs-master") ≡ ok t
    → (join_path dir (text "ca.key") == join_path dir (text "ca.crt")) ≡ false
    → lookup (join_path dir (text "ca.key")) fs ≡ none
    → lookup (join_path dir (text "ca.crt")) fs ≡ none
    → pki.parse_key priv ≡ ok priv
    → pki.self_sign t priv ≡ ok ca
    → (user == []) ≡ false
    → let keys = gen_master_keys pki join_path none draw working working (ok priv) dir fs in
      let m = new_master pki join_path none (ok db) port dir keys.0 in
      (keys.1 ≡ ok tt)
      × (m
          ≡ ok
              (record { port = port; dir = dir; vault = record { ca = ca; priv = priv }; db = db }))
      × ((m >>= setup c listen user)
          ≡ ok (prints (create_auth_token c (record { ca = ca; priv = priv }) user)))
unfolding gen_master_keys new_master setup
new_master-gen_master_keys pki laws c join_path draw port dir user t priv ca db listen fs templ
      apart no_key no_ca parses signs named =
    let (made, loads) =
      load-create_ca pki laws join_path draw dir (text "rufs-master") t priv ca fs templ apart
        no_key no_ca parses signs in
    (
      rw (gen_master_keys, made, loads) refl,
      rw (gen_master_keys, new_master, loads) refl,
      rw (gen_master_keys, new_master, loads, setup, named) refl,
    )
