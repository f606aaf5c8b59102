-- ===== src/Vault/Files.antt =====
-- crypto.go: keys and certificates in PEM files, and the configuration of TLS. Files are a map
-- from their names to their bytes; cryptography, PEM and the errors of the file system are library
-- code, and parameters.
use rufs.Base.{
  ℕ, List, [], ◌∷◌, Option, none, some, Bool, true, false, Str, text, ◌==◌, Dict, lookup, insert,
  delete, if◌then◌else◌, Error, other_error, file_not_found, Result, ok, err, panic, ◌>>=◌,
}

abbrev pub Bytes : Type 0
Bytes = List ℕ

abbrev pub Files : Type 0
Files = Dict Bytes

-- The calls of os and pem for one file that is written; the error of each, if there is one.
pub record Writing : Type 0 where
  pub open_error : Option Error
  pub encode_error : Option Error
  pub close_error : Option Error

pub data ExtKeyUsage : Type 0 where
  server_auth client_auth : ExtKeyUsage

pub data KeyUsage : Type 0 where
  key_encipherment digital_signature cert_sign : KeyUsage

-- The fields of an x509.Certificate that are set; a set of usages is a list.
pub record CertTemplate : Type 0 where
  pub serial_number : ℕ
  pub common_name : Str
  pub organization : List Str
  pub not_before : ℕ
  pub not_after : ℕ
  pub ext_key_usage : List ExtKeyUsage
  pub key_usage : List KeyUsage
  pub basic_constraints_valid : Bool
  pub is_ca : Bool

-- A random number below 2^128, if there is one, the time, and the time ten years later.
pub record Draw : Type 0 where
  pub serial : Option ℕ
  pub now : ℕ
  pub in_ten_years : ℕ

-- `createCertTemplate`
unfoldable pub create_cert_template : Draw → Bool → Str → Result CertTemplate
create_cert_template draw is_ca name = elim draw.serial [
  | none ↦ panic
  | some serial ↦ ok (record {
    serial_number = serial;
    common_name = name;
    organization = text "RUFS" ∷ [];
    not_before = draw.now;
    not_after = draw.in_ten_years;
    ext_key_usage = server_auth ∷ client_auth ∷ [];
    key_usage =
        if is_ca
        then key_encipherment ∷ digital_signature ∷ cert_sign ∷ []
        else key_encipherment ∷ digital_signature ∷ [];
    basic_constraints_valid = true;
    is_ca = is_ca;
  })
]

-- What crypto.go asks of Go's libraries. Keys and certificates are the bytes that they are written
-- as.
pub record Pki : Type 0 where
  pub pem_encode : Str → Bytes → Bytes
  pub pem_decode : Bytes → Option (Str × Bytes)
  pub parse_certificate : Bytes → Result Bytes
  pub parse_key : Bytes → Result Bytes
  pub self_sign : CertTemplate → Bytes → Result Bytes

-- The file names of a directory, by filepath.Join.
abbrev pub Join : Type 0
Join = Str → Str → Str

abbrev pub certificate : Str
certificate = text "CERTIFICATE"

abbrev pub private_key : Str
private_key = text "RSA PRIVATE KEY"

-- `pemToFile`: a file that is there is not opened, and one that cannot be written is removed.
unfoldable pub pem_to_file : Pki → Writing → Str → Str → Bytes → Files → Files × Result (Unit {0})
pem_to_file pki io fn pem_type data' fs = elim (lookup fn fs) [
  | some old ↦ (fs, err (other_error 17))
  | none ↦ elim io.open_error [
    | some e ↦ (fs, err e)
    | none ↦ elim io.encode_error [
      | some e ↦ (fs, err e)
      | none ↦ elim io.close_error [
        | some e ↦ (fs, err e)
        | none ↦ (insert fn (pki.pem_encode pem_type data') fs, ok tt)
      ]
    ]
  ]
]

-- `pemFromFile`
unfoldable pub pem_from_file : Pki → Str → Str → Files → Result Bytes
pem_from_file pki fn pem_type fs = elim (lookup fn fs) [
  | none ↦ err file_not_found
  | some data' ↦ elim (pki.pem_decode data') [
    | none ↦ err (other_error 1)
    | some (found, bytes) ↦ if found == pem_type then ok bytes else err (other_error 2)
  ]
]

-- `createKeyPair`; `generated` is the new key.
unfoldable pub create_key_pair : Pki → Writing → Result Bytes → Str → Files → Files × Result Bytes
create_key_pair pki io generated fn fs = elim generated [
  | err e ↦ (fs, err e)
  | panic ↦ (fs, panic)
  | ok priv ↦
      let (fs', r) = pem_to_file pki io fn private_key priv fs in
      (fs', elim r [ ok u ↦ ok priv | err e ↦ err e | panic ↦ panic ])
]

-- The part of `createCA` behind the template: the key that was written is removed where the
-- certificate cannot be made or written.
unfoldable pub create_ca_files :
    Pki
    → Join
    → Writing
    → Writing
    → Result Bytes
    → Str
    → CertTemplate
    → Files
    → Files × Result (Unit {0})
create_ca_files pki join_path io_key io_ca generated dir t fs =
    let keyfn = join_path dir (text "ca.key") in
    let (fs', made) = create_key_pair pki io_key generated keyfn fs in
    elim made [
      | err e ↦ (fs', err e)
      | panic ↦ (fs', panic)
      | ok priv ↦ elim (pki.self_sign t priv) [
        | err e ↦ (delete keyfn fs', err e)
        | panic ↦ (fs', panic)
        | ok ca ↦
            let (fs'', r) =
              pem_to_file pki io_ca (join_path dir (text "ca.crt")) certificate ca fs' in
            elim r [
              | ok u ↦ (fs'', ok tt)
              | err e ↦ (delete keyfn fs'', err e)
              | panic ↦ (fs'', panic)
            ]
      ]
    ]

-- `createCA`
unfoldable pub create_ca :
    Pki
    → Join
    → Draw
    → Writing
    → Writing
    → Result Bytes
    → Str
    → Str
    → Files
    → Files × Result (Unit {0})
create_ca pki join_path draw io_key io_ca generated dir name fs =
    elim (create_cert_template draw true name) [
      | ok t ↦ create_ca_files pki join_path io_key io_ca generated dir t fs
      | err e ↦ (fs, err e)
      | panic ↦ (fs, panic)
    ]

-- `loadCertificate`
unfoldable pub load_certificate : Pki → Str → Files → Result Bytes
load_certificate pki fn fs = pem_from_file pki fn certificate fs >>= pki.parse_certificate

-- `MasterVault`: the certificate and the private key, in its PKCS#1 form.
pub record MasterVault : Type 0 where
  pub ca : Bytes
  pub priv : Bytes

-- `loadMasterVault`
unfoldable pub load_master_vault : Pki → Join → Str → Files → Result MasterVault
load_master_vault pki join_path dir fs = do
  ca ← load_certificate pki (join_path dir (text "ca.crt")) fs
  buf ← pem_from_file pki (join_path dir (text "ca.key")) private_key fs
  priv ← pki.parse_key buf
  ok (record { ca = ca; priv = priv })

-- A tls.Certificate: a chain, of which only the first part is used here, its key, and the parsed
-- first part where it was set.
pub record TlsCertificate : Type 0 where
  pub certificate : Bytes
  pub private_key : Bytes
  pub leaf : Option Bytes

-- `getTlsCert`
unfoldable pub get_tls_cert : MasterVault → TlsCertificate
get_tls_cert v = record { certificate = v.ca; private_key = v.priv; leaf = some v.ca }

-- `tlsConfigType`
pub data TlsMode : Type 0 where
  tls_master tls_master_client tls_server tls_server_client : TlsMode

pub data ClientAuth : Type 0 where
  verify_client_cert_if_given require_and_verify_client_cert : ClientAuth

pub record TlsConfig : Type 0 where
  pub root_cas : List Bytes
  pub client_cas : List Bytes
  pub server_name : Str
  pub certificates : List TlsCertificate
  pub client_auth : ClientAuth
  pub prefer_server_cipher_suites : Bool

abbrev pub client_auth_of : TlsMode → ClientAuth × Bool
client_auth_of tls_master = (verify_client_cert_if_given, true)
client_auth_of tls_master_client = (verify_client_cert_if_given, true)
client_auth_of tls_server = (require_and_verify_client_cert, false)
client_auth_of tls_server_client = (require_and_verify_client_cert, false)

abbrev pub list_of : Option TlsCertificate → List TlsCertificate
list_of none = []
list_of (some cert) = cert ∷ []

-- `getTlsConfig`
unfoldable pub get_tls_config : TlsMode → Bytes → Option TlsCertificate → Str → TlsConfig
get_tls_config mode ca cert server_name =
    let (auth, prefer) = client_auth_of mode in
    record {
      root_cas = ca ∷ [];
      client_cas = ca ∷ [];
      server_name = server_name;
      certificates = list_of cert;
      client_auth = auth;
      prefer_server_cipher_suites = prefer;
    }
