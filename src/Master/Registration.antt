-- ===== src/Master/Registration.antt =====
-- master.go and crypto.go: what `Register` admits, and the certificate that it hands out.
use rufs.Base.{
  ℕ, List, [], ◌∷◌, ◌++◌, ◌≡◌, refl, sym, ap, subst, ◌∙◌, inl, inr, false, Option-cases, length,
  length-append, Str, ◌==◌, eq_iff, ok, panic, >>=-eq-ok, ok_injective, then_of_ok, arith,
}
use rufs.Vault.{Crypto, create_auth_token, sign_client}
use rufs.Vault.Files.{Bytes, CertTemplate, Draw, MasterVault, create_cert_template, certificate}
use rufs.Master.{RegisterRequest, register}

append_cancel_right : (u v s : List ℕ) → u ++ s ≡ v ++ s → u ≡ v
append_cancel_right [] [] s e = refl
append_cancel_right [] (y ∷ v) s e = absurd (omega (arith, ap length e, length-append v s))
append_cancel_right (x ∷ u) [] s e = absurd (omega (arith, ap length e, length-append u s))
append_cancel_right (x ∷ u) (y ∷ v) s e = let rest = append_cancel_right u v s cc in cc

template_lem :
    (draw : Draw) (name : Str) (t : CertTemplate)
    → create_cert_template draw false name ≡ ok t
    → (t.common_name ≡ name) × (t.is_ca ≡ false)
unfolding create_cert_template
template_lem draw name t made = elim (Option-cases draw.serial) [
  | inl e ↦ let z : panic ≡ ok t = rw e at made in cc z
  | inr (serial, e) ↦
      let z = ok_injective (rw (create_cert_template, e) at made) in
      (sym (ap (λ x. x.common_name) z), sym (ap (λ x. x.is_ca) z))
]

-- A certificate that the vault has signed for a user and a public key, and that is not one of an
-- authority.
pub record IsIssued (c : Crypto) (mv : MasterVault) (user : Str) (public_key cert : Bytes)
    : Type 0 where
  pub template : CertTemplate
  pub key : Bytes
  pub signed : Bytes
  pub named : template.common_name ≡ user
  pub no_authority : template.is_ca ≡ false
  pub key_parsed : c.parse_public_key public_key ≡ ok key
  pub signs : c.create_certificate template mv.ca key mv.priv ≡ ok signed
  pub encodes : cert ≡ c.encode_to_memory certificate signed

sign_client-IsIssued :
    (c : Crypto) (draw : Draw) (mv : MasterVault) (public_key cert : Bytes) (name : Str)
    → sign_client c draw mv public_key name ≡ ok cert
    → IsIssued c mv name public_key cert
unfolding sign_client create_cert_template
sign_client-IsIssued c draw mv public_key cert name run =
    let (pk, parsed, r₁) = >>=-eq-ok (c.parse_public_key public_key) _ run in
    let (t, made, r₂) = >>=-eq-ok (create_cert_template draw false name) _ r₁ in
    let (signed, signs, r₃) = >>=-eq-ok (c.create_certificate t mv.ca pk mv.priv) _ r₂ in
    let (named, leaf) = template_lem draw name t made in
    record {
      template = t;
      key = pk;
      signed = signed;
      named = named;
      no_authority = leaf;
      key_parsed = parsed;
      signs = signs;
      encodes = sym (ok_injective r₃);
    }

-- A token that was made for one user, in the hands of whoever sends it, and where the hashes of
-- what `Register` and `createAuthToken` hash do not collide: if `Register` then hands out a
-- certificate, the user of the request is the one that the token was made for, and the certificate
-- is one that the master's key has signed, of no authority, in that user's name and for the public
-- key of the request.
pub register-create_auth_token :
    (c : Crypto) (draw : Draw) (mv : MasterVault) (q : RegisterRequest) (user : Str) (cert : Bytes)
    → q.token ≡ create_auth_token c mv user
    → (c.sha1_hex (q.user ++ 0 ∷ mv.priv) ≡ c.sha1_hex (user ++ 0 ∷ mv.priv)
        → q.user ++ 0 ∷ mv.priv ≡ user ++ 0 ∷ mv.priv)
    → register c draw mv q ≡ ok cert
    → (q.user ≡ user) × IsIssued c mv user q.public_key cert
unfolding register create_auth_token
register-create_auth_token c draw mv q user cert token no_collision run =
    let (matches, signs) = then_of_ok (create_auth_token c mv q.user == q.token) _ _ run in
    let same_hash = (eq_iff (create_auth_token c mv q.user) q.token).0 matches ∙ token in
    let same = append_cancel_right q.user user (0 ∷ mv.priv) (no_collision same_hash) in
    (
      same,
      subst (λ u. IsIssued c mv u q.public_key cert) same
          (sign_client-IsIssued c draw mv q.public_key cert q.user signs),
    )
