-- ===== src/Vault/Samples.antt =====
-- Libraries for keys and PEM files that the tests use.
use rufs.Base.{
  true, ◌≡◌, refl, [], ◌∷◌, ◌++◌, ℕ, zero, suc, ap, none, some, Str, text, slash, ok, Option,
}
use rufs.Vault.Files.{
  CertTemplate, Draw, server_auth, client_auth, key_encipherment, digital_signature, cert_sign,
  Bytes, Pki, Join,
}
use rufs.Vault.Loading.{Laws}
use rufs.Vault.{Crypto}

-- The length of the type, the type, and the bytes.
abbrev encoded : Str → Bytes → Bytes
encoded [] b = 0 ∷ b
encoded (c ∷ t) b = 1 ∷ c ∷ encoded t b

abbrev more : ℕ → Option (Str × Bytes) → Option (Str × Bytes)
more c none = none
more c (some (t, b)) = some (c ∷ t, b)

abbrev decoded : Bytes → Option (Str × Bytes)
decoded [] = none
decoded (zero ∷ b) = some ([], b)
decoded (suc n ∷ []) = none
decoded (suc n ∷ c ∷ b) = more c (decoded b)

decode-encode : (t : Str) (b : Bytes) → decoded (encoded t b) ≡ some (t, b)
decode-encode [] b = refl
decode-encode (c ∷ t) b = ap (more c) (decode-encode t b)

-- A certificate is the name, a zero byte and the key.
abbrev pub pki : Pki
pki = record {
  pem_encode = encoded;
  pem_decode = decoded;
  parse_certificate = λ b. ok b;
  parse_key = λ b. ok b;
  self_sign = λ t priv. ok (t.common_name ++ 0 ∷ priv);
}

pub pki_laws : Laws pki
pki_laws = record { decode-encode = decode-encode; parse-sign = λ t priv ca h. refl }

-- The key of a template's certificate comes behind its name, the parent and the parent's key.
abbrev pub crypto : Crypto
crypto = record {
  sha1_hex = λ bytes. bytes;
  parse_public_key = λ b. ok b;
  create_certificate = λ t ca pk priv. ok (t.common_name ++ ca ++ priv ++ pk);
  encode_to_memory = encoded;
}

abbrev pub in_dir : Join
in_dir dir fn = dir ++ slash ∷ fn

abbrev pub draw : Draw
draw = record { serial = some 99; now = 1; in_ten_years = 11 }

abbrev pub template : CertTemplate
template = record {
  serial_number = 99;
  common_name = text "rufs-master";
  organization = text "RUFS" ∷ [];
  not_before = 1;
  not_after = 11;
  ext_key_usage = server_auth ∷ client_auth ∷ [];
  key_usage = key_encipherment ∷ digital_signature ∷ cert_sign ∷ [];
  basic_constraints_valid = true;
  is_ca = true;
}
