-- ===== src/Vault/Loading.antt =====
-- A vault that was made is found again.
use rufs.Base.{
  true, ◌≡◌, refl, ◌∙◌, none, some, false, eq_refl, eq_iff, lookup-insert_self, Str, text, ◌==◌,
  lookup, insert, lookup-insert, ok, arith,
}
use rufs.Vault.Files.{
  CertTemplate, Draw, create_cert_template, create_ca_files, Bytes, Files, Writing, Pki, Join,
  certificate, private_key, pem_to_file, pem_from_file, create_key_pair, create_ca,
  load_certificate, load_master_vault,
}

-- What is documented of the libraries: PEM and the forms of keys and certificates are read back.
pub record Laws (pki : Pki) : Type 0 where
  pub decode-encode : (t : Str) (b : Bytes) → pki.pem_decode (pki.pem_encode t b) ≡ some (t, b)
  pub parse-sign :
      (t : CertTemplate) (priv ca : Bytes)
      → pki.self_sign t priv ≡ ok ca
      → pki.parse_certificate ca ≡ ok ca

abbrev pub working : Writing
working = record { open_error = none; encode_error = none; close_error = none }

module _ (pki : Pki) (laws : Laws pki) where
  pub pem_from_file_written :
      (fn t : Str) (b : Bytes) (fs : Files)
      → lookup fn fs ≡ some (pki.pem_encode t b)
      → pem_from_file pki fn t fs ≡ ok b
  unfolding pem_from_file
  pem_from_file_written fn t b fs h = rw (pem_from_file, h, laws.decode-encode t b, eq_refl t) refl

  pub pem_to_file_new :
      (fn t : Str) (b : Bytes) (fs : Files)
      → lookup fn fs ≡ none
      → pem_to_file pki working fn t b fs ≡ (insert fn (pki.pem_encode t b) fs, ok tt)
  unfolding pem_to_file
  pem_to_file_new fn t b fs h = rw (pem_to_file, h) refl

  pub create_key_pair_new :
      (fn : Str) (priv : Bytes) (fs : Files)
      → lookup fn fs ≡ none
      → create_key_pair pki working (ok priv) fn fs
        ≡ (insert fn (pki.pem_encode private_key priv) fs, ok priv)
  unfolding create_key_pair
  create_key_pair_new fn priv fs h =
      rw (create_key_pair, pem_to_file_new fn private_key priv fs h) refl

  create_ca_new :
      (join_path : Join) (draw : Draw) (dir name : Str) (t : CertTemplate) (priv ca : Bytes)
      (fs : Files)
      → create_cert_template draw true name ≡ ok t
      → (join_path dir (text "ca.key") == join_path dir (text "ca.crt")) ≡ false
      → lookup (join_path dir (text "ca.key")) fs ≡ none
      → lookup (join_path dir (text "ca.crt")) fs ≡ none
      → pki.self_sign t priv ≡ ok ca
      → create_ca pki join_path draw working working (ok priv) dir name fs ≡ (
        insert
            (join_path dir (text "ca.crt"))
            (pki.pem_encode certificate ca)
            (insert (join_path dir (text "ca.key")) (pki.pem_encode private_key priv) fs),
        ok tt,
      )
  unfolding create_ca create_ca_files
  create_ca_new join_path draw dir name t priv ca fs templ apart no_key no_ca signs =
      let keyfn = join_path dir (text "ca.key") in
      let cafn = join_path dir (text "ca.crt") in
      let keyed = insert keyfn (pki.pem_encode private_key priv) fs in
      let free : lookup cafn keyed ≡ none =
        lookup-insert keyfn cafn (pki.pem_encode private_key priv) fs ∙ rw apart no_ca in
      let made = create_key_pair_new keyfn priv fs no_key in
      let wrote = pem_to_file_new cafn certificate ca keyed free in
      rw (create_ca, templ, create_ca_files, made, signs, made, wrote, made, wrote) refl

  -- A vault that createCA makes in a directory that has neither file, where a serial number is
  -- drawn and the files can be written, is what loadMasterVault then finds there: the certificate
  -- and the key. The libraries read back what they wrote.
  pub load-create_ca :
      (join_path : Join) (draw : Draw) (dir name : Str) (t : CertTemplate) (priv ca : Bytes)
      (fs : Files)
      → create_cert_template draw true name ≡ ok t
      → (join_path dir (text "ca.key") == join_path dir (text "ca.crt")) ≡ false
      → lookup (join_path dir (text "ca.key")) fs ≡ none
      → lookup (join_path dir (text "ca.crt")) fs ≡ none
      → pki.parse_key priv ≡ ok priv
      → pki.self_sign t priv ≡ ok ca
      → ((create_ca pki join_path draw working working (ok priv) dir name fs).1 ≡ ok tt)
        × (load_master_vault pki join_path dir
              (create_ca pki join_path draw working working (ok priv) dir name fs).0
            ≡ ok (record { ca = ca; priv = priv }))
  unfolding load_master_vault load_certificate
  load-create_ca join_path draw dir name t priv ca fs templ apart no_key no_ca parses signs =
      let keyfn = join_path dir (text "ca.key") in
      let cafn = join_path dir (text "ca.crt") in
      let key = pki.pem_encode private_key priv in
      let crt = pki.pem_encode certificate ca in
      let left = insert cafn crt (insert keyfn key fs) in
      let made =
        create_ca_new join_path draw dir name t priv ca fs templ apart no_key no_ca signs in
      let at_ca : lookup cafn left ≡ some crt = lookup-insert_self cafn crt (insert keyfn key fs) in
      let at_key : lookup keyfn left ≡ some key =
        lookup-insert cafn keyfn crt (insert keyfn key fs)
        ∙ ground (arith, lookup-insert_self keyfn key fs, eq_iff keyfn cafn, eq_iff cafn keyfn) in
      let read_ca = pem_from_file_written cafn certificate ca left at_ca in
      let read_key = pem_from_file_written keyfn private_key priv left at_key in
      rw
        (
          made,
          load_master_vault,
          load_certificate,
          read_ca,
          laws.parse-sign t priv ca signs,
          read_key,
          parses,
        )
        (refl, refl)
