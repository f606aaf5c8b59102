-- ===== src/Fetch/Opening.antt =====
-- What `NewHandle` gives.
use rufs.Base.{
  ℕ, zero, suc, ◌+◌, ◌/◌, ◌≡◌, refl, ap, subst, sym, List, none, Bool, true, false, Str, replicate,
  length, get_elem?, if◌then◌else◌, ok, err, no_peer, ok_injective, >>=-eq-ok,
}
use rufs.Fetch.{Bytes, idle, Fetcher, Handle, find_peers, new_handle}
use rufs.Fetch.Steady.{IsCell, IsSteady}

length-replicate {ℓ} : {A : Type ℓ} (n : ℕ) (a : A) → length (replicate n a) ≡ n
length-replicate zero a = refl
length-replicate (suc n) a = ap suc (length-replicate n a)

blank :
    (bs : ℕ) (content : Bytes) (n b i : ℕ)
    → IsCell bs content b (get_elem? (replicate n none) i) (get_elem? (replicate n idle) i)
blank bs content zero b i = tt
blank bs content (suc n) b zero = tt
blank bs content (suc n) b (suc i) = blank bs content n b i

opened :
    (found : Bool) (made h : Handle) → (if found then ok made else err no_peer) ≡ ok h → made ≡ h
opened true made h e = ok_injective e
opened false made h e = cc

-- A handle with nothing in its cache.
abbrev pub blank_handle : Str → ℕ → List Str → ℕ → Handle
blank_handle hash size peers n = record {
  hash = hash;
  size = size;
  peers = peers;
  cache = replicate n none;
  active = replicate n idle;
  last_err = none;
}

-- A handle that `NewHandle` opens is blank, and the fetcher keeps its block size.
pub new_handle_blank :
    (connects : Str → Str → Bool) (hash : Str) (size : ℕ) (peers : List Str) (f f' : Fetcher)
    (h : Handle)
    → new_handle connects hash size peers f ≡ ok (f', ok h)
    → (f'.block_size ≡ f.block_size) × (blank_handle hash size peers (size / f.block_size + 1) ≡ h)
unfolding new_handle
new_handle_blank connects hash size peers f f' h run =
    let ((known, found), a, b) = >>=-eq-ok (find_peers connects peers false f.peers) _ run in
    let e = ok_injective b in (sym (ap (λ p. p.0.block_size) e), opened found _ h (ap (λ p. p.1) e))

-- A handle that `NewHandle` opens for a file of the right size is steady, and the fetcher keeps its
-- block size.
pub new_handle-IsSteady :
    (connects : Str → Str → Bool) (hash : Str) (content : Bytes) (peers : List Str) (f f' : Fetcher)
    (h : Handle)
    → new_handle connects hash (length content) peers f ≡ ok (f', ok h)
    → (f'.block_size ≡ f.block_size) × IsSteady f.block_size content h
new_handle-IsSteady connects hash content peers f f' h run =
    let (same, made) = new_handle_blank connects hash (length content) peers f f' h run in
    let n = length content / f.block_size + 1 in
    (
      same,
      subst (IsSteady f.block_size content) made (record {
        sized = refl;
        extent = length-replicate n none;
        cells = λ b. blank f.block_size content n b b;
      }),
    )
