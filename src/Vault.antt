-- ===== src/Vault.antt =====
-- The parts of crypto.go that the master's handlers call. SHA-1, the parsing of public keys, the
-- signing of certificates and PEM are library code, and parameters.
pub mod Files
pub mod Loading
pub mod Samples
mod Tests
use rufs.Base.{ℕ, List, ◌∷◌, ◌++◌, false, Str, Result, ok, ◌>>=◌}
use rufs.Vault.Files.{Bytes, CertTemplate, Draw, MasterVault, create_cert_template, certificate}

-- The calls of Go's libraries: the digits of a SHA-1 hash, `x509.ParsePKIXPublicKey`,
-- `x509.CreateCertificate` with the template, the parent, the public and the private key, and
-- `pem.EncodeToMemory` with the type and the bytes of a block.
pub record Crypto : Type 0 where
  pub sha1_hex : List ℕ → Str
  pub parse_public_key : Bytes → Result Bytes
  pub create_certificate : CertTemplate → Bytes → Bytes → Bytes → Result Bytes
  pub encode_to_memory : Str → Bytes → Bytes

-- `createAuthToken`
unfoldable pub create_auth_token : Crypto → MasterVault → Str → Str
create_auth_token c mv user = c.sha1_hex (user ++ 0 ∷ mv.priv)

-- `signClient`
unfoldable pub sign_client : Crypto → Draw → MasterVault → Bytes → Str → Result Bytes
sign_client c draw mv pub_key name = do
  pk ← c.parse_public_key pub_key
  t ← create_cert_template draw false name
  cert ← c.create_certificate t mv.ca pk mv.priv
  ok (c.encode_to_memory certificate cert)
