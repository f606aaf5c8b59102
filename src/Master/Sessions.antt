-- ===== src/Master/Sessions.antt =====
-- What `Signin` admits, and what the other handlers refuse.
use rufs.Base.{
  List, [], ◌∷◌, ◌≡◌, refl, ◌≢◌, ◌⊎◌, inl, inr, true, not, Str, slash, split, ◌==◌, eq_iff, eq_refl,
  eq-cases, ne_of_false, nat_eq, ok, err, >>=-eq-ok, ok_injective, denied_before_signin, else_of_ok,
  then_of_ok, arith, sym, ap, subst, ◌∙◌,
}
use rufs.Store.{Store}
use rufs.MemoryDb.{is_bad_part}
pub use rufs.MemoryDb.Files.{IsGood}
use rufs.Master.{
  Conn, Network, Peer, new_peer, SigninRequest, SetFileRequest, leaf_name, check_parts,
  full_address, ident_of, signin, signin_address, connect_back,
}
use rufs.Master

-- The user of a session is the name on the certificate of its connection, and a session with an
-- address is known by the ident of its user and address.
pub record IsSigned (conn : Conn) (p : Peer) : Type 0 where
  pub user_certified : (p.user ≡ []) ⊎ (leaf_name conn.verified ≡ ok p.user)
  pub address_signed : (p.address ≡ []) ⊎ ((p.user ≢ []) × (p.ident ≡ ident_of p.user p.address))

pub new_peer-IsSigned : (conn : Conn) → IsSigned conn new_peer
new_peer-IsSigned conn = record { user_certified = inl refl; address_signed = inl refl }

-- Where `Signin` leaves the address: as it was, if none was given, or dialled and pinged.
abbrev pub IsReached : Network → Conn → SigninRequest → Peer → Peer → Type 0
IsReached net conn q p p' =
    ((q.address ≡ []) × (p'.address ≡ p.address) × (p'.ident ≡ p.ident))
    ⊎ ((q.address ≢ [])
        × (p'.address ≡ full_address net conn q.address)
        × (net.dials p'.address q.user ≡ true)
        × (net.pings p'.address q.user ≡ true)
        × (p'.ident ≡ ident_of q.user p'.address))

-- What an accepted `Signin` has checked, and what it leaves of the peer.
pub record IsAccepted (net : Network) (conn : Conn) (q : SigninRequest) (p p' : Peer) : Type 0 where
  pub version : q.protocol_version ≡ 1
  pub named : q.user ≢ []
  pub certified : leaf_name conn.verified ≡ ok q.user
  pub user : p'.user ≡ q.user
  pub reached : IsReached net conn q p p'

module _ (net : Network) (conn : Conn) (q : SigninRequest) (p : Peer) where
  dialled :
      (addr : Str)
      → connect_back net addr q.user ≡ ok tt
      → (net.dials addr q.user ≡ true) × (net.pings addr q.user ≡ true)
  unfolding connect_back
  dialled addr h = ground arith

  address-IsReached : (p' : Peer) → signin_address net conn q p ≡ ok p' → IsReached net conn q p p'
  unfolding signin_address
  address-IsReached p' run = elim (eq-cases q.address []) [
    | inl e ↦
        subst (IsReached net conn q p) (ok_injective (rw (e, eq_refl) at run)) (inl (e, refl, refl))
    | inr e ↦
        let addr = full_address net conn q.address in
        let (u, c, r) = >>=-eq-ok (connect_back net addr q.user) _ (rw e at run) in
        let (d, g) = dialled addr c in
        subst (IsReached net conn q p) (ok_injective r) (inr (ne_of_false _ _ e, refl, d, g, refl))
  ]

  -- `Signin` succeeds only with protocol version 1, a user that is named and is the one on the
  -- verified certificate, and, where an address is given, after that address was dialled and has
  -- answered a ping; it sets the user, and the address and the ident where an address is given.
  pub signin-IsAccepted : (p' : Peer) → signin net conn q p ≡ ok p' → IsAccepted net conn q p p'
  unfolding signin
  signin-IsAccepted p' run =
      let (v, r₁) = else_of_ok (not (nat_eq q.protocol_version 1)) _ _ run in
      let (u, r₂) = else_of_ok (q.user == []) _ _ r₁ in
      let (leaf, c, r₃) = >>=-eq-ok (leaf_name conn.verified) _ r₂ in
      let (m, r₄) = then_of_ok (leaf == q.user) _ _ r₃ in
      let (p₁, a, r₅) = >>=-eq-ok (signin_address net conn q p) _ r₄ in
      let same = (eq_iff leaf q.user).0 m in
      subst (IsAccepted net conn q p) (ok_injective r₅) (record {
        version = ground arith;
        named = ne_of_false _ _ u;
        certified = c ∙ ap ok same;
        user = refl;
        reached = address-IsReached p₁ a;
      })

  address_kept :
      (p' : Peer)
      → IsAccepted net conn q p p'
      → IsReached net conn q p p'
      → ((p.address ≡ []) ⊎ ((p.user ≢ []) × (p.ident ≡ ident_of p.user p.address)))
      → ((p.user ≡ []) ⊎ (leaf_name conn.verified ≡ ok p.user))
      → (p'.address ≡ []) ⊎ ((p'.user ≢ []) × (p'.ident ≡ ident_of p'.user p'.address))
  address_kept p' h (inr (ne, a, d, g, i)) old certified =
      inr (rw h.user h.named, i ∙ ap (λ u. ident_of u p'.address) (sym h.user))
  address_kept p' h (inl (e, a, i)) (inl z) certified = inl (a ∙ z)
  address_kept p' h (inl (e, a, i)) (inr (n, j)) (inl z) = absurd (n z)
  address_kept p' h (inl (e, a, i)) (inr (n, j)) (inr c) =
      let same : p'.user ≡ p.user = h.user ∙ ok_injective (sym h.certified ∙ c) in
      inr (rw h.user h.named, i ∙ j ∙ cc (same, a))

  -- An accepted `Signin` keeps a session signed.
  pub signin-IsSigned :
      (p' : Peer) → signin net conn q p ≡ ok p' → IsSigned conn p → IsSigned conn p'
  signin-IsSigned p' run s =
      let h = signin-IsAccepted p' run in
      record {
        user_certified = inr (h.certified ∙ ap ok (sym h.user));
        address_signed = address_kept p' h h.reached s.address_signed s.user_certified;
      }

check_parts-IsGood : (ps : List Str) → check_parts ps ≡ ok tt → IsGood ps
unfolding check_parts
check_parts-IsGood [] h = tt
check_parts-IsGood (p ∷ ps) h =
    let (b, r) = else_of_ok (is_bad_part p) _ _ h in (b, check_parts-IsGood ps r)

module _ (db : Store) where
  -- A `SetFile` that returns wrote, under the ident of the peer, to a path whose first part is
  -- the user of the session and whose parts are neither empty nor begin with a dot.
  pub set_file-ok :
      (q : SetFileRequest) (p : Peer) (s s' : db.State)
      → Master.set_file db q p s ≡ ok s'
      → (p.address ≢ [])
        × IsGood (p.user ∷ split slash q.path)
        × (db.set_file (p.user ∷ split slash q.path) q.info p.ident s ≡ ok s')
  unfolding Master.set_file
  set_file-ok q p s s' run =
      let (a, r) = else_of_ok (p.address == []) _ _ run in
      let (u, c, w) = >>=-eq-ok (check_parts (p.user ∷ split slash q.path)) _ r in
      (ne_of_false _ _ a, check_parts-IsGood (p.user ∷ split slash q.path) c, w)

  -- Before a `Signin` every request about files is refused, whatever it asks, and the end of the
  -- connection changes nothing.
  pub refused_before_signin :
      (q : SetFileRequest) (path hash : Str) (s : db.State)
      → (Master.set_file db q new_peer s ≡ err denied_before_signin)
        × (Master.get_dir db path new_peer s ≡ err denied_before_signin)
        × (Master.get_owners db hash new_peer s ≡ err denied_before_signin)
        × (Master.disconnected db new_peer s ≡ ok s)
  unfolding Master.set_file Master.get_dir Master.get_owners Master.disconnected ◌==◌
  refused_before_signin q path hash s = (refl, refl, refl, refl)
