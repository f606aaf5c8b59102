-- ===== src/Server/Creating.antt =====
-- server.go: what a server is made of: the certificate of the master, its own one where it has
-- files for it, and its shares.
mod Tests
use rufs.Base.{
  ◌≡◌, ◌∙◌, refl, [], ◌∷◌, ◌++◌, Option, none, some, Bool, true, false, ◌&&◌, Str, text, ◌==◌,
  eq_iff, eq_refl, Dict, lookup, insert, contains, lookup-insert, lookup-insert_self, if◌then◌else◌,
  Error, Result, ok, err, panic, ◌>>=◌, arith,
}
use rufs.Vault.Files.{
  Bytes, Files, Pki, Join, private_key, load_certificate, pem_from_file, TlsCertificate,
}
use rufs.Vault.Loading.{working, Laws, pem_to_file_new}
use rufs.Client.{MasterClient}
use rufs.Client.Calls.{register}
use rufs.Server.{Server, parse_shares}
use rufs.Server.Setup.{Flags, Env, no_callbacks, get_certificates}

-- What `newServer` asks of the libraries, and of the functions of main.go: tls.LoadX509KeyPair on
-- the bytes of two files, `getPath` for a share, and path.Base.
pub record Parts : Type 0 where
  pub load_pair : Bytes → Bytes → Result TlsCertificate
  pub get_path : Str → Str
  pub base : Str → Str

-- `Server`, as it is made.
pub record NewServer : Type 0 where
  pub master_addr : Str
  pub ca : Bytes
  pub cert : Option TlsCertificate
  pub server : Server

abbrev pub cert_file : Join → Flags → Str
cert_file join_path flags = join_path flags.var_storage (flags.user ++ text ".crt")

abbrev pub key_file : Join → Flags → Str
key_file join_path flags = join_path flags.var_storage (flags.user ++ text ".key")

-- The certificate of the server, where both of its files are there.
unfoldable pub own_certificate :
    Parts → Option Bytes → Option Bytes → Result (Option TlsCertificate)
own_certificate parts none key = ok none
own_certificate parts (some crt) none = ok none
own_certificate parts (some crt) (some key) = parts.load_pair crt key >>= λ pair. ok (some pair)

-- `newServer`; `master_cert` is the path of the master's certificate.
unfoldable pub new_server : Pki → Join → Parts → Flags → Str → Str → Files → Result NewServer
new_server pki join_path parts flags master_cert master fs = do
  ca ← load_certificate pki master_cert fs
  cert ←
      own_certificate parts (lookup (cert_file join_path flags) fs)
        (lookup (key_file join_path flags) fs)
  shares ← parse_shares parts.get_path parts.base flags.share
  ok (record {
    master_addr = master;
    ca = ca;
    cert = cert;
    server = record { shares = shares; hash_to_path = []; requests = [] };
  })

load_certificate_same :
    (pki : Pki) (fn : Str) (fs fs' : Files)
    → lookup fn fs' ≡ lookup fn fs
    → load_certificate pki fn fs' ≡ load_certificate pki fn fs
unfolding load_certificate pem_from_file
load_certificate_same pki fn fs fs' e = rw (load_certificate, pem_from_file, e) refl

apart_back : (s t : Str) → (s == t) ≡ false → (t == s) ≡ false
apart_back s t e = ground (arith, eq_iff s t, eq_iff t s)

module _ (pki : Pki) (laws : Laws pki) (join_path : Join) (env : Env) (flags : Flags) where
  -- Where nothing fails, `getCertificates` leaves the new key and the certificate that the master
  -- gave.
  pub get_certificates_writes :
      (priv public_key : Bytes) (cert : Str) (c : MasterClient) (fs : Files)
      → env.generated ≡ ok priv
      → env.write_key ≡ working
      → env.write_certificate ≡ none
      → env.serialize priv ≡ ok public_key
      → (register no_callbacks env.dial_again env.registers flags.user flags.register_token
          public_key c).1
        ≡ ok cert
      → lookup (key_file join_path flags) fs ≡ none
      → get_certificates pki join_path env flags c fs ≡ (
        insert
            (cert_file join_path flags)
            cert
            (insert (key_file join_path flags) (pki.pem_encode private_key priv) fs),
        ok tt,
      )
  unfolding get_certificates
  get_certificates_writes priv public_key cert c fs e₁ e₂ e₃ e₄ e₅ free =
      let made = pem_to_file_new pki laws (key_file join_path flags) private_key priv fs free in
      rw (get_certificates, e₁, e₂, made, e₄, e₅, e₃, e₁, e₂, made) refl

  -- A server that has asked the master for a certificate, with no key of its own before and no
  -- failure on the way, finds it at its next start: with the key and the certificate that the
  -- library makes a pair of, and the master's certificate as it was.
  pub new_server-get_certificates :
      (parts : Parts) (master_cert master : Str) (priv public_key ca : Bytes) (cert : Str)
      (pair : TlsCertificate) (shares : Dict Str) (c : MasterClient) (fs : Files)
      → env.generated ≡ ok priv
      → env.write_key ≡ working
      → env.write_certificate ≡ none
      → env.serialize priv ≡ ok public_key
      → (register no_callbacks env.dial_again env.registers flags.user flags.register_token
          public_key c).1
        ≡ ok cert
      → lookup (key_file join_path flags) fs ≡ none
      → (key_file join_path flags == cert_file join_path flags) ≡ false
      → (key_file join_path flags == master_cert) ≡ false
      → (cert_file join_path flags == master_cert) ≡ false
      → load_certificate pki master_cert fs ≡ ok ca
      → parts.load_pair cert (pki.pem_encode private_key priv) ≡ ok pair
      → parse_shares parts.get_path parts.base flags.share ≡ ok shares
      → let left = get_certificates pki join_path env flags c fs in
        (left.1 ≡ ok tt)
        × (new_server pki join_path parts flags master_cert master left.0
            ≡ ok (record {
              master_addr = master;
              ca = ca;
              cert = some pair;
              server = record { shares = shares; hash_to_path = []; requests = [] };
            }))
  unfolding new_server own_certificate
  new_server-get_certificates parts master_cert master priv public_key ca cert pair shares c fs e₁
        e₂ e₃ e₄ e₅ free a₁ a₂ a₃ loads paired parsed =
      let writes = get_certificates_writes priv public_key cert c fs e₁ e₂ e₃ e₄ e₅ free in
      let keyfn = key_file join_path flags in
      let crtfn = cert_file join_path flags in
      let key = pki.pem_encode private_key priv in
      let keyed = insert keyfn key fs in
      let same : lookup master_cert (insert crtfn cert keyed) ≡ lookup master_cert fs =
        lookup-insert crtfn master_cert cert keyed
        ∙ rw a₃ (lookup-insert keyfn master_cert key fs ∙ rw a₂ refl) in
      let at_crt : lookup crtfn (insert crtfn cert keyed) ≡ some cert =
        lookup-insert_self crtfn cert keyed in
      let at_key : lookup keyfn (insert crtfn cert keyed) ≡ some key =
        lookup-insert crtfn keyfn cert keyed
        ∙ rw (apart_back keyfn crtfn a₁) (lookup-insert_self keyfn key fs) in
      let ca_there =
        load_certificate_same pki master_cert fs (insert crtfn cert keyed) same ∙ loads in
      (
        rw writes refl,
        rw (writes, new_server, ca_there, at_crt, at_key, own_certificate, paired, parsed) refl,
      )
